-- ===== src/Collection/Updates/Renaming.antt =====
-- What `RenameUser` leaves behind.
use repo_4636_qri.Prelude.{
  ◌≡◌, refl, sym, ap, ◌∙◌, inl, inr, Bool, true, false, List, [], ◌∷◌, ◌++◌, map, Text,
  if◌then◌else◌, ok, Bool-cases,
}
use mathlib.Core.Path.{ap₂}
use mathlib.Core.List.{append_assoc}
use repo_4636_qri.Prelude.Dict.{Pair}
use repo_4636_qri.Profile.{encode}
use repo_4636_qri.Dsref.VersionInfo.{VersionInfo}
use repo_4636_qri.Collection.{
  Infos, Collections, Host, LocalSet, Step, stop, save_profile_collection,
}
use repo_4636_qri.Collection.Ids.{ids}
use repo_4636_qri.Collection.Updates.{
  placed, to_rename, renamed, any_changed, rename_in, rename_user,
}
use repo_4636_qri.Collection.Updates.Walking.{shape, save-keeps, after-rule}
use repo_4636_qri.Collection.Updates.Saving.{CanSave, after-ok}

abbrev pub rename_all : Text → Text → Collections → Collections
rename_all profile_id name =
    map (λ p. record { key = p.key; value = map (renamed profile_id name) p.value })

pub renamed-init_id :
    (profile_id name : Text) (vi : VersionInfo) → (renamed profile_id name vi).init_id ≡ vi.init_id
renamed-init_id profile_id name vi = elim (Bool-cases (to_rename profile_id name vi)) [
  | inl e ↦ rw e refl
  | inr e ↦ rw e refl
]

ids-renamed :
    (profile_id name : Text) (vis : Infos) → ids (map (renamed profile_id name) vis) ≡ ids vis
ids-renamed profile_id name [] = refl
ids-renamed profile_id name (vi ∷ vis) =
    ap₂ ◌∷◌ (renamed-init_id profile_id name vi) (ids-renamed profile_id name vis)

pub shape-rename_all :
    (profile_id name : Text) (cs : Collections) → shape (rename_all profile_id name cs) ≡ shape cs
shape-rename_all profile_id name [] = refl
shape-rename_all profile_id name (p ∷ ps) =
    ap₂ (λ (v : List Text) (r : List (Pair (List Text))). record { key = p.key; value = v } ∷ r)
      (ids-renamed profile_id name p.value) (shape-rename_all profile_id name ps)

module _ (host : Host) (profile_id name : Text) where
  abbrev maybe_save : Bool → Text → LocalSet → Step (Unit {0})
  maybe_save b pid s = if b then save_profile_collection host pid s else stop (ok tt) s

  maybe_save-keeps :
      (b : Bool) (pid : Text) (s : LocalSet)
      → ((maybe_save b pid s).set.collections ≡ s.collections)
        × ((maybe_save b pid s).set.base_path ≡ s.base_path)
  maybe_save-keeps true pid s = save-keeps host pid s
  maybe_save-keeps false pid s = (refl, refl)

  abbrev rename_rest : Collections → Pair Infos → Collections → LocalSet → Step (Unit {0})
  rename_rest before p ps s =
      rename_in host profile_id name
        (before ++ record { key = p.key; value = map (renamed profile_id name) p.value } ∷ []) ps s

  rename_in-shape :
      (before ps : Collections) (s : LocalSet)
      → s.collections ≡ before ++ ps
      → shape (rename_in host profile_id name before ps s).set.collections ≡ shape (before ++ ps)
  unfolding rename_in
  rename_in-shape before [] s h = ap shape h
  rename_in-shape before (p ∷ ps) s h =
      let here : Pair Infos = record {
        key = p.key;
        value = map (renamed profile_id name) p.value;
      } in
      let s1 = placed before p.key here.value ps s in
      let o = maybe_save (any_changed profile_id name p.value) p.key s1 in
      let kept = maybe_save-keeps (any_changed profile_id name p.value) p.key s1 in
      let a = append_assoc before (here ∷ []) ps in
      let same : shape (before ++ here ∷ ps) ≡ shape (before ++ p ∷ ps) = shape-here before p ps in
      after-rule (λ z. shape z.set.collections ≡ shape (before ++ p ∷ ps)) o
        (λ u t. rename_rest before p ps t)
        (λ u e. rename_in-shape (before ++ here ∷ []) ps o.set (kept.0 ∙ sym a) ∙ ap shape a ∙ same)
        (λ z e fails. ap (λ t. shape t.collections) e ∙ ap shape kept.0 ∙ same)
    where
      shape-here :
          (before : Collections) (p : Pair Infos) (ps : Collections)
          → shape
              (before ++ record { key = p.key; value = map (renamed profile_id name) p.value } ∷ ps)
            ≡ shape (before ++ p ∷ ps)
      shape-here [] p ps =
          ap (λ (v : List Text). record { key = p.key; value = v } ∷ shape ps)
            (ids-renamed profile_id name p.value)
      shape-here (b ∷ bs) p ps =
          ap (λ r. record { key = b.key; value = ids b.value } ∷ r) (shape-here bs p ps)

  rename_in-all :
      (base : Text) (can : CanSave host base) (before ps : Collections) (s : LocalSet)
      → s.base_path ≡ base
      → s.collections ≡ before ++ ps
      → ((rename_in host profile_id name before ps s).result ≡ ok tt)
        × ((rename_in host profile_id name before ps s).set.collections
            ≡ before ++ rename_all profile_id name ps)
        × ((rename_in host profile_id name before ps s).set.base_path ≡ base)
  unfolding rename_in
  rename_in-all base can before [] s b h = (refl, h, b)
  rename_in-all base can before (p ∷ ps) s b h =
      let here : Pair Infos = record {
        key = p.key;
        value = map (renamed profile_id name) p.value;
      } in
      let s1 = placed before p.key here.value ps s in
      let t = any_changed profile_id name p.value in
      let o = maybe_save t p.key s1 in
      let kept = maybe_save-keeps t p.key s1 in
      let goes = after-ok o (λ u t. rename_rest before p ps t) tt (maybe_save-ok t p.key s1 b) in
      let rest =
        rename_in-all base can (before ++ here ∷ []) ps o.set (kept.1 ∙ b)
          (kept.0 ∙ sym (append_assoc before (here ∷ []) ps)) in
      rw goes
        (rest.0, rest.1 ∙ append_assoc before (here ∷ []) (rename_all profile_id name ps), rest.2)
    where
      maybe_save-ok :
          (b : Bool) (pid : Text) (s : LocalSet)
          → s.base_path ≡ base
          → (maybe_save b pid s).result ≡ ok tt
      maybe_save-ok true pid s e = can pid s e
      maybe_save-ok false pid s e = refl

module _ (host : Host) (pid name : Text) (s : LocalSet) where
  pub rename_user-shape : shape (rename_user host pid name s).set.collections ≡ shape s.collections
  unfolding rename_user
  rename_user-shape = rename_in-shape host (encode host.peers pid) name [] s.collections s refl

  -- `RenameUser` succeeds and renames in every version of the profile.
  pub rename_user-all :
      CanSave host s.base_path
      → ((rename_user host pid name s).result ≡ ok tt)
        × ((rename_user host pid name s).set.collections
            ≡ rename_all (encode host.peers pid) name s.collections)
        × ((rename_user host pid name s).set.base_path ≡ s.base_path)
  unfolding rename_user
  rename_user-all can =
      rename_in-all host (encode host.peers pid) name s.base_path can [] s.collections s refl refl
