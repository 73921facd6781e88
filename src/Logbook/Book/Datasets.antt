-- ===== src/Logbook/Book/Datasets.antt =====
-- The writes of `Book` to the logs of users and datasets (logbook/logbook.go). A time that the source
-- takes from the clock is an argument.
pub mod Naming
pub mod Placed
pub mod Creating
mod Examples
use repo_4636_qri.Prelude.{
  ℕ, Bool, true, false, not, ◌&&◌, List, [], ◌∷◌, ◌++◌, Text, codes, text_eq, is_empty,
  if◌then◌else◌, ◌==◌, length, Outcome, ok, err, panic, ◌>>=◌,
}
use repo_4636_qri.Prelude.Int.{ℤ}
use repo_4636_qri.Dsref.Ref.{Ref, empty_ref}
use repo_4636_qri.Dsref.Scan.{is_valid_name}
use repo_4636_qri.Dsref.VersionInfo.{empty_version_info, Dataset}
use repo_4636_qri.Oplog.Op.{Op, op_type_init, op_type_amend, op_type_remove}
use repo_4636_qri.Oplog.Log.{
  LogError, not_found, Entry, Log, Logs, node, nil, cons, entry, children, init_log, id, name,
  add_child, with_parent,
}
use repo_4636_qri.Oplog.Journal.{
  journal_head_ref, change_in, change_author, merge_log, remove_log, replace_all,
}
use repo_4636_qri.Logbook.Models.{user_model, dataset_model, branch_model}
use repo_4636_qri.Logbook.Book.{
  Profile, BookError, store, book_not_found, log_too_short, name_required, invalid_name,
  dataset_exists, username_required, ref_name_required, bad_signature, Published, dataset_name_init,
  dataset_rename, dataset_delete_all, Book, Step, lift, guarded, after, return, fail_if,
  published_by, blank_op, user_append, dataset_append, user_log, dataset_log, branch_log,
  has_write_access, change_branch, Storage, save,
}
use repo_4636_qri.Logbook.Book.Commits.{commit_of, version_save_op, append_all}

-- `DefaultBranchName`
abbrev pub default_branch_name : Text
default_branch_name = codes "main"

-- `DatasetRef` and `BranchRef`
abbrev pub named : Ref → Outcome BookError (Unit {0})
named ref = do
  _ ← fail_if (is_empty ref.username) username_required
  fail_if (is_empty ref.name) ref_name_required

unfoldable pub dataset_ref : Ref → Logs → Outcome BookError Log
unfolding is_empty journal_head_ref
dataset_ref ref logs = do _ ← named ref; lift (journal_head_ref (ref.username ∷ ref.name ∷ []) logs)

unfoldable pub branch_ref : Ref → Logs → Outcome BookError Log
unfolding is_empty journal_head_ref
branch_ref ref logs = do
  _ ← named ref
  lift (journal_head_ref (ref.username ∷ ref.name ∷ default_branch_name ∷ []) logs)

abbrev pub ds_ref_to_log_path : Ref → List Text
ds_ref_to_log_path ref = ref.username ∷ ref.name ∷ []

-- The author's name operation of `initialize`.
abbrev pub owner_op : Profile → ℤ → Op
owner_op owner now = record (blank_op op_type_init user_model) {
  name = owner.peername;
  author_id = owner.id;
  timestamp = now;
}

abbrev pub author_rename_op : Profile → Text → ℤ → Op
author_rename_op author new_name now = record (blank_op op_type_amend user_model) {
  author_id = author.id;
  name = new_name;
  timestamp = now;
}

-- `len(dsLog.Ops) == 1 && len(dsLog.Logs) == 1 && len(dsLog.Logs[0].Ops) == 1`
unfoldable pub is_blank : Log → Bool
is_blank (node e (cons b nil)) = (length e.ops == 1) && (length (entry b).ops == 1)
is_blank (node e nil) = false
is_blank (node e (cons b (cons c ls))) = false

-- The error of the journal's `RemoveLog` is dropped.
unfoldable pub removed_logs : List Text → Logs → Outcome BookError Logs
unfolding remove_log
removed_logs names logs = elim (remove_log names logs) [
  | ok logs' ↦ ok logs'
  | err e ↦ ok logs
  | panic ↦ panic
]

unfoldable pub remove_dataset_log : Storage → Ref → Book → Step (Unit {0})
unfolding removed_logs save
remove_dataset_log st ref book =
    guarded book (removed_logs (ds_ref_to_log_path ref) book.logs)
      λ logs. save st (record book { logs = logs })

-- Before a dataset is named: a stranded log with the name is removed, another one is an error.
unfoldable pub free_name : Storage → Ref → Book → Step (Unit {0})
unfolding dataset_ref is_blank remove_dataset_log
free_name st ref book = elim (dataset_ref ref book.logs) [
  | ok ds_log ↦
      if is_blank ds_log
      then remove_dataset_log st ref book
      else record { result = err dataset_exists; book = book }
  | err e ↦ return tt book
  | panic ↦ record { result = panic; book = book }
]

abbrev pub dataset_init_op : Text → Text → ℤ → Op
dataset_init_op author_log_id ds_name now = record (blank_op op_type_init dataset_model) {
  author_id = author_log_id;
  name = ds_name;
  timestamp = now;
}

abbrev pub branch_init_op : Text → ℤ → Op
branch_init_op author_log_id now = record (blank_op op_type_init branch_model) {
  author_id = author_log_id;
  name = default_branch_name;
  timestamp = now;
}

module _ (hash : Op → Text) where
  unfoldable pub ref_to_init_id : Ref → Logs → Outcome BookError Text
  unfolding journal_head_ref
  ref_to_init_id ref logs = elim (journal_head_ref (ref.username ∷ ref.name ∷ []) logs) [
    | ok ds_log ↦ ok (id hash ds_log)
    | err not_found ↦ err book_not_found
    | err e ↦ err (store e)
    | panic ↦ panic
  ]

  -- The logs of a new dataset and of its branch; `now` and `later` are two times of the clock.
  abbrev pub new_dataset_log : Text → Text → ℤ → ℤ → Log
  new_dataset_log author_log_id ds_name now later =
      add_child hash (init_log (branch_init_op author_log_id later))
        (init_log (dataset_init_op author_log_id ds_name now))

  module _ (st : Storage) where
    unfoldable pub initialize : ℤ → Book → Step (Unit {0})
    unfolding merge_log save
    initialize now book =
        guarded book (lift (merge_log hash (init_log (owner_op book.owner now)) book.logs))
          λ logs. save st (record book { logs = logs })

    unfoldable pub replace_all_logs : Log → Book → Step (Unit {0})
    unfolding save
    replace_all_logs lg book = save st (record book { logs = replace_all lg book.logs })

    unfoldable pub write_author_rename : Profile → Text → ℤ → Book → Step (Unit {0})
    unfolding is_valid_name user_log user_append change_author save text_eq
    write_author_rename author new_name now book =
        guarded book (fail_if (not (is_valid_name new_name)) invalid_name) λ _.
          guarded book (user_log author.id book.logs) λ ul.
            guarded book
              (lift (
                change_author (user_append (author_rename_op author new_name now)) user_model
                  author.id book.logs))
              λ logs. after (save st (record book { logs = logs })) λ _ book. return tt (
                if text_eq author.id book.owner.id
                then record book { owner = record book.owner { peername = new_name } }
                else book)

    unfoldable pub write_dataset_init : Profile → Text → ℤ → ℤ → Book → Step Text
    write_dataset_init author ds_name now later book =
        guarded book (fail_if (is_empty ds_name) name_required) λ _.
          guarded book (fail_if (not (is_valid_name ds_name)) invalid_name) λ _.
            after
              (free_name st (record empty_ref { username = author.peername; name = ds_name }) book)
              λ _ book. guarded book (user_log author.id book.logs) λ ul.
                let ds_log = new_dataset_log (id hash ul) ds_name now later in
                guarded book
                  (lift (
                    change_author (λ l. ok (add_child hash ds_log l)) user_model author.id
                      book.logs))
                  λ logs.
                    let info = record empty_version_info {
                      init_id = id hash ds_log;
                      username = author.peername;
                      profile_id = author.id;
                      name = ds_name;
                    } in
                    after
                      (save st
                        (published_by (dataset_name_init info) (record book { logs = logs })))
                      λ _ book. return (id hash ds_log) book

    -- The dataset log is in the author's log already, so that `AddChild` only writes its parent id.
    unfoldable pub write_dataset_rename : Profile → Text → Text → ℤ → Book → Step (Unit {0})
    unfolding is_valid_name dataset_log has_write_access dataset_append change_in user_log name
        change_author add_child save
    write_dataset_rename author init_id new_name now book =
        let op = record (blank_op op_type_amend dataset_model) {
          name = new_name;
          timestamp = now;
        } in
        guarded book (fail_if (not (is_valid_name new_name)) invalid_name) λ _.
          guarded book (dataset_log hash init_id book.logs) λ ds_log.
            guarded book (has_write_access hash ds_log author book.logs) λ _.
              guarded book (lift (name (entry ds_log))) λ old_name.
                guarded book (lift (dataset_append op ds_log)) λ renamed.
                  guarded book (lift (change_in hash (dataset_append op) init_id book.logs)) λ logs.
                    let book =
                      published_by (dataset_rename init_id old_name new_name)
                        (record book { logs = logs }) in
                    guarded book (user_log author.id book.logs) λ ul.
                      guarded book
                        (lift (
                          change_in hash (λ l. ok (with_parent hash (id hash ul) l)) init_id
                            book.logs))
                        λ logs.
                          guarded book
                            (lift (
                              change_author (λ l. ok (add_child hash renamed l)) user_model
                                author.id logs))
                            λ logs. save st (record book { logs = logs })

    unfoldable pub write_dataset_delete_all : Profile → Text → ℤ → Book → Step (Unit {0})
    unfolding dataset_log has_write_access dataset_append change_in save
    write_dataset_delete_all pro init_id now book =
        let op = record (blank_op op_type_remove dataset_model) { timestamp = now } in
        guarded book (dataset_log hash init_id book.logs) λ ds_log.
          guarded book (has_write_access hash ds_log pro book.logs) λ _.
            guarded book (lift (change_in hash (dataset_append op) init_id book.logs)) λ logs.
              save st (published_by (dataset_delete_all init_id) (record book { logs = logs }))

    -- `verify` is the check of the sender's signature.
    unfoldable pub merge_sent_log : (Log → Bool) → Log → Book → Step (Unit {0})
    unfolding merge_log save
    merge_sent_log verify lg book = guarded book (fail_if (not (verify lg)) bad_signature) λ _.
        guarded book (lift (merge_log hash lg book.logs))
          λ logs. save st (record book { logs = logs })

    -- The loop of `ConstructDatasetLog`.
    unfoldable pub append_history : List Dataset → Text → Book → Step (Unit {0})
    unfolding commit_of append_all change_branch
    append_history [] init_id book = return tt book
    append_history (ds ∷ history) init_id book = guarded book (commit_of ds) λ c.
        guarded book (change_branch hash (append_all (version_save_op ds c ∷ [])) init_id book.logs)
          λ logs. append_history history init_id (record book { logs = logs })

    unfoldable pub construct_dataset_log :
        Profile → Ref → List Dataset → ℤ → ℤ → Book → Step (Unit {0})
    unfolding ref_to_init_id write_dataset_init branch_log append_history save
    construct_dataset_log author ref history now later book =
        let build = after (write_dataset_init author ref.name now later book) λ init_id book.
          guarded book (branch_log hash init_id book.logs)
            λ blog. after (append_history history init_id book) λ _ book. save st book in
        elim (ref_to_init_id ref book.logs) [
          | ok init_id ↦ record { result = err log_too_short; book = book }
          | err e ↦ build
          | panic ↦ record { result = panic; book = book }
        ]
