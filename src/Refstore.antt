-- ===== src/Refstore.antt =====
-- The references of a repository that are kept in memory (repo/mem_refstore.go, repo/ref/dataset_ref.go):
-- a slice of references that names and paths are matched with. A failed operation leaves the slice.
pub mod Finding
pub mod Listing
pub mod Files
mod Examples
use repo_4636_qri.Prelude.{
  ℕ, ◌+◌, Bool, true, false, not, ◌&&◌, ◌||◌, Option, none, some, List, [], ◌∷◌, ◌++◌, Text,
  text_eq, text_ltb, is_empty, length, take, set, replicate, ltb, leb, if◌then◌else◌, Outcome, ok,
  err, panic, ◌>>=◌,
}
use repo_4636_qri.Prelude.Int.{ℤ, pos, negsuc, ◌-ℤ◌, int_eq, ltb_ℤ}

-- `reporef.DatasetRef`
pub record DatasetRef (Dataset : Type 0) : Type 0 where
  pub peername : Text
  pub profile_id : Text
  pub name : Text
  pub path : Text
  pub fsi_path : Text
  pub dataset : Option Dataset
  pub published : Bool
  pub foreign : Bool

-- `MemRefstore`
abbrev pub Refs : Type 0 → Type 0
Refs Dataset = List (DatasetRef Dataset)

pub data RefError : Type 0 where
  peer_id_required peername_required name_required path_required not_found : RefError

module _ {Dataset : Type 0} where
  -- A reference with no fields set.
  abbrev pub empty_ref : DatasetRef Dataset
  empty_ref = record {
    peername = [];
    profile_id = [];
    name = [];
    path = [];
    fsi_path = [];
    dataset = none;
    published = false;
    foreign = false;
  }

  -- `DatasetRef.Match`
  unfoldable pub matches : DatasetRef Dataset → DatasetRef Dataset → Bool
  unfolding text_eq is_empty
  matches r b =
      (not (is_empty r.path) && (not (is_empty b.path) && text_eq r.path b.path))
      || ((text_eq r.profile_id b.profile_id || text_eq r.peername b.peername)
          && text_eq r.name b.name)

  -- The checks of `PutRef`
  abbrev pub check_ref : DatasetRef Dataset → Outcome RefError (Unit {0})
  check_ref put =
      if is_empty put.profile_id
      then err peer_id_required
      else if is_empty put.peername
      then err peername_required
      else if is_empty put.name
      then err name_required
      else if is_empty put.path && is_empty put.fsi_path
      then err path_required
      else ok tt

  -- The loop of `PutRef`: the first match is replaced, if there is one.
  unfoldable pub replace_ref : DatasetRef Dataset → Refs Dataset → Option (Refs Dataset)
  unfolding matches
  replace_ref put [] = none
  replace_ref put (ref ∷ refs) =
      let rest = replace_ref put refs in
      if matches ref put
      then some (put ∷ refs)
      else elim rest [ none ↦ none | some rs ↦ some (ref ∷ rs) ]

  abbrev pub ref_less : DatasetRef Dataset → DatasetRef Dataset → Bool
  ref_less a b = text_ltb (a.peername ++ a.name) (b.peername ++ b.name)

  -- `PutRef`, with `sort.Slice`
  unfoldable pub put_ref :
      ((DatasetRef Dataset → DatasetRef Dataset → Bool) → Refs Dataset → Refs Dataset)
      → DatasetRef Dataset
      → Refs Dataset
      → Outcome RefError (Refs Dataset)
  unfolding is_empty replace_ref text_ltb
  put_ref sort put refs = check_ref put >>= λ _.
      ok (elim (replace_ref put refs) [ some rs ↦ rs | none ↦ sort ref_less (refs ++ put ∷ []) ])

  -- `GetRef`
  unfoldable pub get_ref : DatasetRef Dataset → Refs Dataset → Outcome RefError (DatasetRef Dataset)
  unfolding matches
  get_ref get [] = err not_found
  get_ref get (ref ∷ refs) = let rest = get_ref get refs in if matches ref get then ok ref else rest

  -- `DeleteRef`
  unfoldable pub delete_ref : DatasetRef Dataset → Refs Dataset → Outcome RefError (Refs Dataset)
  unfolding matches
  delete_ref del [] = err not_found
  delete_ref del (ref ∷ refs) =
      let rest = delete_ref del refs in
      if matches ref del then ok refs else rest >>= λ rs. ok (ref ∷ rs)

  -- `res[i] = ref`
  unfoldable pub write_at : ℤ → DatasetRef Dataset → Refs Dataset → Outcome RefError (Refs Dataset)
  write_at (negsuc n) ref res = panic
  write_at (pos n) ref res = if ltb n (length res) then ok (set res n ref) else panic

  -- `res[:i]`, of a slice that was made with its length as capacity.
  unfoldable pub slice_to : ℤ → Refs Dataset → Outcome RefError (Refs Dataset)
  slice_to (negsuc n) res = panic
  slice_to (pos n) res = if leb n (length res) then ok (take n res) else panic

  -- The loop of `References` from the index `i` on, and the line behind it.
  unfoldable pub fill : ℤ → ℤ → ℕ → Refs Dataset → Refs Dataset → Outcome RefError (Refs Dataset)
  unfolding ◌-ℤ◌ int_eq write_at slice_to
  fill offset limit i [] res = slice_to (pos i -ℤ offset) res
  fill offset limit i (ref ∷ refs) res =
      let before = ltb_ℤ (pos i) offset in
      let written = if before then ok res else write_at (pos i -ℤ offset) ref res in
      if not before && int_eq (pos i -ℤ offset) limit
      then ok res
      else written >>= λ res. fill offset limit (i + 1) refs res

  -- `make` with a length below 0 panics.
  abbrev pub make_refs : ℤ → Outcome RefError (Refs Dataset)
  make_refs (negsuc n) = panic
  make_refs (pos n) = ok (replicate n empty_ref)

  -- `References`
  unfoldable pub references : ℤ → ℤ → Refs Dataset → Outcome RefError (Refs Dataset)
  unfolding fill
  references offset limit refs = make_refs limit >>= λ res. fill offset limit 0 refs res

  -- `RefCount`
  unfoldable pub ref_count : Refs Dataset → ℕ
  ref_count refs = length refs
