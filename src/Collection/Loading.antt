-- ===== src/Collection/Loading.antt =====
-- Reading collections from their files (collection/collection.go): `loadAll` over the names of the
-- directory, in the order in which it lists them.
pub mod Restoring
use repo_4636_qri.Prelude.{
  ℕ, ◌+◌, ◌<◌, ◌≡◌, refl, sym, ap, ◌∙◌, inl, inr, Bool, true, false, Option, none, some, List, [],
  ◌∷◌, ◌++◌, map, Text, codes, text_eq, text_eq_iff, text_eq_refl, is_empty, length, length-append,
  if◌then◌else◌, ok, err, panic, Bool-cases, Option-cases, arith,
}
use repo_4636_qri.Prelude.Dict.{Pair, lookup, insert, lookup-insert_same, lookup-insert_other}
use repo_4636_qri.Profile.{encode, id_b58_decode}
use repo_4636_qri.Collection.{
  Infos, Collections, Host, LocalSet, Step, stop, after, checked, items_of, file_of, cannot_open,
  cannot_decode, save_profile_collection,
}

-- `strings.TrimSuffix`, and `strings.HasSuffix`.
unfoldable pub trim_suffix : Text → Text → Text
unfolding text_eq
trim_suffix [] suffix = []
trim_suffix (c ∷ s) suffix =
    let rest = trim_suffix s suffix in if text_eq (c ∷ s) suffix then [] else c ∷ rest

unfoldable pub has_suffix : Text → Text → Bool
unfolding text_eq
has_suffix [] suffix = text_eq [] suffix
has_suffix (c ∷ s) suffix =
    let rest = has_suffix s suffix in if text_eq (c ∷ s) suffix then true else rest

abbrev pub json_suffix : Text
json_suffix = codes ".json"

unfoldable pub is_collection_filename : Text → Bool
unfolding has_suffix
is_collection_filename filename = has_suffix filename json_suffix

module _ (host : Host) where
  -- The lines behind the decoding of the file's name.
  unfoldable pub load_items : Text → Text → LocalSet → Step (Unit {0})
  unfolding lookup insert
  load_items filename pid s = elim (lookup (s.base_path ++ (b'/' ∷ filename)) s.files) [
    | none ↦ stop (err cannot_open) s
    | some text ↦ elim (host.unmarshal text) [
      | none ↦ stop (err cannot_decode) s
      | some items ↦ stop (ok tt) (record s { collections = insert pid items s.collections })
    ]
  ]

  unfoldable pub load_profile_collection : Text → LocalSet → Step (Unit {0})
  unfolding trim_suffix id_b58_decode load_items
  load_profile_collection filename s =
      after (stop (checked (id_b58_decode host.peers (trim_suffix filename json_suffix))) s)
        λ pid s. load_items filename pid s

  unfoldable pub load_files : List Text → LocalSet → Step (Unit {0})
  unfolding is_collection_filename load_profile_collection
  load_files [] s = stop (ok tt) s
  load_files (filename ∷ filenames) s =
      after
        (if is_collection_filename filename
          then load_profile_collection filename s
          else stop (ok tt) s)
        λ _ s. load_files filenames s

  unfoldable pub load_all : List Text → LocalSet → Step (Unit {0})
  unfolding load_files
  load_all filenames s = load_files filenames (record s { collections = [] })
