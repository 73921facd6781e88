-- ===== src/Logbook/Book/Examples.antt =====
-- The theorems about `Book` at a small logbook.
use repo_4636_qri.Prelude.{
  sym, ◌∙◌, ◌≢◌, Bool, text_eq_iff, ◌≡◌, refl, true, false, some, none, [], ◌∷◌, ◌++◌, codes,
  text_eq, is_empty, ok, err,
}
use repo_4636_qri.Prelude.Int.{pos}
use repo_4636_qri.Dsref.Ref.{empty_ref}
use repo_4636_qri.Dsref.VersionInfo.{VersionInfo}
use repo_4636_qri.Oplog.Log.{
  Log, nil, cons, entry, entry_id, find, init_log, first_op, model, first_op_author_id,
  first_author,
}
use repo_4636_qri.Oplog.Journal.{get_author_id}
use repo_4636_qri.Logbook.History.{branch_to_version_infos}
use repo_4636_qri.Logbook.Models.{user_model}
use repo_4636_qri.Logbook.Book.{
  Book, access_denied, cannot_encrypt, write_commit, only_branch, branch_log, writable_branch,
}
use repo_4636_qri.Logbook.Book.Commits.{
  saved_version, version_save_op, write_version_save, write_transform_run, write_version_amend,
  write_version_delete,
}
use repo_4636_qri.Logbook.Book.Commits.Saving.{
  write_version_save-appends, write_version_save-unsaved,
}
use repo_4636_qri.Logbook.Book.Commits.Listing.{
  write_version_save-lists_run, write_version_save-lists,
}
use repo_4636_qri.Logbook.Book.Commits.Denied.{Refused, writes-Refused}
use repo_4636_qri.Logbook.Book.Datasets.{owner_op, branch_init_op}
use repo_4636_qri.Logbook.Book.Samples.{
  hash, bob, eve, bob_id, branch, bob_log, book, stored, no_cipher, commit, run_commit, dataset,
  run, bob_writes, stores, no_versions, saves_commit,
}

write_version_save-appends_example :
    ((write_version_save hash stored bob (dataset commit) none book).result ≡ ok tt)
    × (blog' : Log) × (writable_branch hash
          (1 ∷ codes "worms")
          bob
          (write_version_save hash stored bob (dataset commit) none book).book.logs
        ≡ ok blog')
    × ((entry blog').ops ≡ (entry branch).ops ++ version_save_op (dataset commit) commit ∷ [])
    × ((write_version_save hash stored bob (dataset commit) none book).book.published
        ≡ write_commit (saved_version (dataset commit) none (entry blog').ops) ∷ [])
write_version_save-appends_example =
    write_version_save-appends hash stored bob (dataset commit) none book branch
      (version_save_op (dataset commit) commit ∷ []) bob_writes (saves_commit commit) stores

write_version_save-unsaved_example :
    ((write_version_save hash no_cipher bob (dataset commit) none book).result ≡ err cannot_encrypt)
    × ((write_version_save hash no_cipher bob (dataset commit) none book).book.published ≡ [])
    × (blog' : Log) × (writable_branch hash
          (1 ∷ codes "worms")
          bob
          (write_version_save hash no_cipher bob (dataset commit) none book).book.logs
        ≡ ok blog')
    × ((entry blog').ops ≡ (entry branch).ops ++ version_save_op (dataset commit) commit ∷ [])
write_version_save-unsaved_example =
    write_version_save-unsaved hash no_cipher bob (dataset commit) none book branch
      (version_save_op (dataset commit) commit ∷ []) bob_writes (saves_commit commit) (λ logs. refl)

run_has_id : is_empty (codes "r1") ≡ false
unfolding is_empty
run_has_id = refl

no_run : is_empty [] ≡ true
unfolding is_empty
no_run = refl

write_version_save-lists_run_example :
    (blog' : Log) × (v : VersionInfo) × (writable_branch hash
        (1 ∷ codes "worms")
        bob
        (write_version_save hash stored bob (dataset run_commit) (some run) book).book.logs
      ≡ ok blog')
    × (branch_to_version_infos true empty_ref (entry blog').ops ≡ ok (v ∷ []))
    × (v.path ≡ codes "/mem/Qm1")
    × (v.commit_title ≡ codes "first")
    × (v.run_id ≡ codes "r1")
    × (v.run_status ≡ codes "succeeded")
write_version_save-lists_run_example =
    write_version_save-lists_run hash stored bob (dataset run_commit) run_commit run book branch
      empty_ref [] bob_writes refl refl run_has_id stores no_versions

write_version_save-lists_example :
    (blog' : Log) × (v : VersionInfo) × (writable_branch hash
        (1 ∷ codes "worms")
        bob
        (write_version_save hash stored bob (dataset commit) none book).book.logs
      ≡ ok blog')
    × (branch_to_version_infos true empty_ref (entry blog').ops ≡ ok (v ∷ []))
    × (v.path ≡ codes "/mem/Qm1")
    × (v.commit_title ≡ codes "first")
    × (v.run_id ≡ [])
write_version_save-lists_example =
    write_version_save-lists hash stored bob (dataset commit) commit book branch empty_ref []
      bob_writes refl no_run stores no_versions

-- A book of bob and eve: eve cannot write to the dataset of bob.
abbrev two_users : Book
two_users = record book { logs = cons bob_log (cons (init_log (owner_op eve (pos 1))) nil) }

eve_named :
    (get_author_id user_model (codes "QmE") two_users.logs ≡ ok (init_log (owner_op eve (pos 1))))
    × (branch_log hash (1 ∷ codes "worms") two_users.logs ≡ ok branch)
unfolding branch_log only_branch find entry_id get_author_id model first_op first_op_author_id
    first_author text_eq is_empty
eve_named = (refl, refl)

-- The author of the branch is bob.
not_eve : bob_id ≢ hash (owner_op eve (pos 1))
not_eve e =
    let t : text_eq bob_id (hash (owner_op eve (pos 1))) ≡ true = (text_eq_iff _ _).1 e in
    false_not_true (sym differs ∙ t)
  where
    false_not_true : Path Bool false true → ⊥
    false_not_true h = cc

    differs : text_eq bob_id (hash (owner_op eve (pos 1))) ≡ false
    differs = unfold text_eq in refl

writes-Refused_example :
    Refused access_denied two_users
      (write_version_save hash stored eve (dataset commit) none two_users)
    × Refused access_denied two_users
        (write_transform_run hash stored eve (1 ∷ codes "worms") (some run) two_users)
    × Refused access_denied two_users
        (write_version_amend hash stored eve (dataset commit) two_users)
    × Refused access_denied two_users
        (write_version_delete hash stored eve (1 ∷ codes "worms") 1 two_users)
unfolding entry_id
writes-Refused_example =
    writes-Refused hash stored eve (dataset commit) none run 1 two_users
      (init_log (owner_op eve (pos 1))) branch (branch_init_op bob_id (pos 3)) [] eve_named.0
      eve_named.1 refl not_eve
