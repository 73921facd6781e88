-- ===== src/Dsref/VersionInfo/Fields.antt =====
-- The fields that `ConvertDatasetToVersionInfo` takes from the dataset itself.
use repo_4636_qri.Prelude.{◌≡◌, refl, ◌∙◌, Option, none, some}
use repo_4636_qri.Dsref.VersionInfo.{
  VersionInfo, empty_version_info, Dataset, Commit, Meta, Structure, with_commit, with_meta,
  with_structure, convert_dataset_to_version_info,
}

-- Two versions are of one dataset at one path.
abbrev pub SameRef : VersionInfo → VersionInfo → Type 0
SameRef a b =
    (a.init_id ≡ b.init_id)
    × (a.username ≡ b.username)
    × (a.profile_id ≡ b.profile_id)
    × (a.name ≡ b.name)
    × (a.path ≡ b.path)

with_commit-SameRef : (vi : VersionInfo) (c : Option Commit) → SameRef (with_commit vi c) vi
with_commit-SameRef vi none = (refl, refl, refl, refl, refl)
with_commit-SameRef vi (some c) = (refl, refl, refl, refl, refl)

with_meta-SameRef : (vi : VersionInfo) (m : Option Meta) → SameRef (with_meta vi m) vi
with_meta-SameRef vi none = (refl, refl, refl, refl, refl)
with_meta-SameRef vi (some m) = (refl, refl, refl, refl, refl)

with_structure-SameRef :
    (vi : VersionInfo) (o : Option Structure) → SameRef (with_structure vi o) vi
with_structure-SameRef vi none = (refl, refl, refl, refl, refl)
with_structure-SameRef vi (some o) = (refl, refl, refl, refl, refl)

SameRef-trans : (a b c : VersionInfo) → SameRef a b → SameRef b c → SameRef a c
SameRef-trans a b c p q = (p.0 ∙ q.0, p.1 ∙ q.1, p.2 ∙ q.2, p.3 ∙ q.3, p.4 ∙ q.4)

with-SameRef :
    (vi : VersionInfo) (c : Option Commit) (m : Option Meta) (o : Option Structure)
    → SameRef (with_structure (with_meta (with_commit vi c) m) o) vi
with-SameRef vi c m o =
    let a = with_commit vi c in
    let b = with_meta a m in
    SameRef-trans (with_structure b o) b vi (with_structure-SameRef b o)
      (SameRef-trans b a vi (with_meta-SameRef a m) (with_commit-SameRef vi c))

pub convert-fields :
    (ds : Dataset)
    → ((convert_dataset_to_version_info ds).init_id ≡ ds.id)
      × ((convert_dataset_to_version_info ds).username ≡ ds.peername)
      × ((convert_dataset_to_version_info ds).profile_id ≡ ds.profile_id)
      × ((convert_dataset_to_version_info ds).name ≡ ds.name)
      × ((convert_dataset_to_version_info ds).path ≡ ds.path)
unfolding convert_dataset_to_version_info
convert-fields ds =
    with-SameRef
      (record empty_version_info {
        init_id = ds.id;
        username = ds.peername;
        profile_id = ds.profile_id;
        name = ds.name;
        path = ds.path;
      })
      ds.commit ds.meta ds.structure

pub convert-title :
    (ds : Dataset) (c : Commit)
    → ds.commit ≡ some c
    → (convert_dataset_to_version_info ds).commit_title ≡ c.title
unfolding convert_dataset_to_version_info
convert-title ds c h =
    structure-title (with_meta _ ds.meta) ds.structure ∙ meta-title _ ds.meta ∙ rw h refl
  where
    structure-title :
        (vi : VersionInfo) (o : Option Structure)
        → (with_structure vi o).commit_title ≡ vi.commit_title
    structure-title vi none = refl
    structure-title vi (some o) = refl

    meta-title :
        (vi : VersionInfo) (m : Option Meta) → (with_meta vi m).commit_title ≡ vi.commit_title
    meta-title vi none = refl
    meta-title vi (some m) = refl

pub convert-size :
    (ds : Dataset) (o : Structure)
    → ds.structure ≡ some o
    → (convert_dataset_to_version_info ds).body_size ≡ o.length
unfolding convert_dataset_to_version_info
convert-size ds o h = rw h refl
