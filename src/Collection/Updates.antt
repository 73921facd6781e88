-- ===== src/Collection/Updates.antt =====
-- `RenameUser` and `UpdateEverywhere` of the local set: loops over all collections, which they change
-- in place. The lists of a loop hold what it has passed and what it has before it.
pub mod Walking
pub mod Saving
pub mod Renaming
use repo_4636_qri.Prelude.{
  Bool, true, false, not, ◌&&◌, List, [], ◌∷◌, ◌++◌, map, Text, text_eq, if◌then◌else◌, ok, err,
  panic,
}
use repo_4636_qri.Prelude.Dict.{Pair}
use repo_4636_qri.Profile.{encode}
use repo_4636_qri.Dsref.VersionInfo.{VersionInfo}
use repo_4636_qri.Collection.{
  Infos, Collections, Host, LocalSet, Step, stop, after, save_profile_collection,
}

-- `s.collections[pid] = col`, for the profile at which the loop stands.
abbrev pub placed : Collections → Text → Infos → Collections → LocalSet → LocalSet
placed before pid col behind s = record s {
  collections = before ++ record { key = pid; value = col } ∷ behind;
}

abbrev pub to_rename : Text → Text → VersionInfo → Bool
to_rename profile_id name vi = text_eq vi.profile_id profile_id && not (text_eq vi.username name)

abbrev pub renamed : Text → Text → VersionInfo → VersionInfo
renamed profile_id name vi =
    if to_rename profile_id name vi then record vi { username = name } else vi

unfoldable pub any_changed : Text → Text → Infos → Bool
unfolding text_eq
any_changed profile_id name [] = false
any_changed profile_id name (vi ∷ vis) =
    let rest = any_changed profile_id name vis in
    if to_rename profile_id name vi then true else rest

module _ (host : Host) where
  unfoldable pub rename_in : Text → Text → Collections → Collections → LocalSet → Step (Unit {0})
  unfolding any_changed save_profile_collection
  rename_in profile_id name before [] s = stop (ok tt) s
  rename_in profile_id name before (p ∷ ps) s =
      let col = map (renamed profile_id name) p.value in
      let s' = placed before p.key col ps s in
      after
        (if any_changed profile_id name p.value
          then save_profile_collection host p.key s'
          else stop (ok tt) s')
        λ _ s. rename_in profile_id name (before ++ record { key = p.key; value = col } ∷ []) ps s

  -- `RenameUser`
  unfoldable pub rename_user : Text → Text → LocalSet → Step (Unit {0})
  unfolding rename_in encode
  rename_user pid name s = rename_in (encode host.peers pid) name [] s.collections s

  -- What a caller hands over as `mutate` is a closure: it has a state, and returns the one after it.
  module _ {S : Type 0} (mutate : S → VersionInfo → S × VersionInfo) (init_id : Text) where
    unfoldable pub update_items :
        S → Collections → Text → Infos → Infos → Collections → LocalSet → Step (S × Infos)
    unfolding save_profile_collection
    update_items st before pid passed [] behind s = stop (ok (st, passed)) s
    update_items st before pid passed (vi ∷ vis) behind s =
        let skip = update_items st before pid (passed ++ vi ∷ []) vis behind s in
        let m = mutate st vi in
        let change =
          after
            (save_profile_collection host pid (placed before pid (passed ++ m.1 ∷ vis) behind s))
            λ _ s. update_items m.0 before pid (passed ++ m.1 ∷ []) vis behind s in
        if text_eq vi.init_id init_id then change else skip

    unfoldable pub update_in : S → Collections → Collections → LocalSet → Step S
    unfolding update_items
    update_in st before [] s = stop (ok st) s
    update_in st before (p ∷ ps) s =
        after (update_items st before p.key [] p.value ps s)
          λ r s. update_in r.0 (before ++ record { key = p.key; value = r.1 } ∷ []) ps s

    -- `UpdateEverywhere`
    unfoldable pub update_everywhere : S → LocalSet → Step S
    unfolding update_in
    update_everywhere st s = update_in st [] s.collections s
