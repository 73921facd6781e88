-- ===== src/Logbook/Book.antt =====
-- `Book` of logbook/logbook.go over a `Journal`: its state, its errors, and the lookups that the
-- operations share. The log types of logbook/types.go are logs with a check of the model of what is
-- appended. The publisher and the file system are outside: the state keeps what was published.
pub mod Commits
pub mod Datasets
pub mod Reads
pub mod Entries
pub mod Samples
mod Examples
use repo_4636_qri.Prelude.{
  ℕ, Bool, true, false, not, ◌&&◌, ◌||◌, Option, none, some, List, [], ◌∷◌, ◌++◌, Text, text_eq,
  if◌then◌else◌, ◌==◌, Outcome, ok, err, panic, ◌>>=◌,
}
use repo_4636_qri.Prelude.Int.{ℤ, pos}
use repo_4636_qri.Dsref.Ref.{Ref}
use repo_4636_qri.Dsref.VersionInfo.{VersionInfo}
use repo_4636_qri.Oplog.Op.{Op, OpType, empty_op}
use repo_4636_qri.Oplog.Log.{
  LogError, not_found, Entry, Log, Logs, node, nil, cons, entry, children, append, id, first_op,
}
use repo_4636_qri.Oplog.Journal.{get, get_author_id, change_in}
use repo_4636_qri.Logbook.Models.{
  user_model, dataset_model, branch_model, commit_model, push_model, run_model,
}

-- The encoded id and the name of a profile.
pub record Profile : Type 0 where
  pub id : Text
  pub peername : Text

pub data BookError : Type 0 where
  -- an error of the store
  store : LogError → BookError
  book_not_found ref_not_found access_denied log_too_short empty_init_id : BookError
  name_required invalid_name dataset_exists username_required ref_name_required : BookError
  not_one_branch run_id_mismatch run_state_required : BookError
  not_author ambiguous_dataset : BookError
  cannot_encrypt cannot_put bad_signature : BookError

-- An event and its payload.
pub data Published : Type 0 where
  dataset_name_init : VersionInfo → Published
  dataset_rename : Text → Text → Text → Published
  dataset_delete_all : Text → Published
  write_commit : VersionInfo → Published
  write_run : VersionInfo → Published

-- The last event is the last of `published`.
pub record Book : Type 0 where
  pub owner : Profile
  pub logs : Logs
  pub fs_location : Text
  pub published : List Published

-- What a method returns, and the book after it.
pub record Step {ℓ} (A : Type ℓ) : Type ℓ where
  pub result : Outcome BookError A
  pub book : Book

abbrev pub lift {ℓ} : {A : Type ℓ} → Outcome LogError A → Outcome BookError A
lift (ok a) = ok a
lift (err e) = err (store e)
lift panic = panic

-- `if err != nil { return err }` behind a call that leaves the book as it is.
abbrev pub guarded {ℓ κ} :
    {A : Type ℓ} {B : Type κ} → Book → Outcome BookError A → (A → Step B) → Step B
guarded book (ok a) k = k a
guarded book (err e) k = record { result = err e; book = book }
guarded book panic k = record { result = panic; book = book }

abbrev pub fail_if : Bool → BookError → Outcome BookError (Unit {0})
fail_if b e = if b then err e else ok tt

abbrev pub published_by : Published → Book → Book
published_by e book = record book { published = book.published ++ e ∷ [] }

abbrev pub blank_op : OpType → ℕ → Op
blank_op t m = record empty_op { type = t; model = m }

-- `Append` of the three log types: an operation of another model is only logged as an error.
unfoldable pub append_entry : Op → Log → Outcome LogError Log
append_entry op (node e kids) = append op e >>= λ e'. ok (node e' kids)

unfoldable pub user_append : Op → Log → Outcome LogError Log
unfolding append_entry
user_append op l = if op.model == user_model then append_entry op l else ok l

unfoldable pub dataset_append : Op → Log → Outcome LogError Log
unfolding append_entry
dataset_append op l = if op.model == dataset_model then append_entry op l else ok l

abbrev pub is_branch_op : Op → Bool
is_branch_op op =
    (op.model == branch_model)
    || (op.model == commit_model)
    || (op.model == push_model)
    || (op.model == run_model)

unfoldable pub branch_append : Op → Log → Outcome LogError Log
unfolding append_entry
branch_append op l = if is_branch_op op then append_entry op l else ok l

unfoldable pub user_log : Text → Logs → Outcome BookError Log
user_log profile_id logs = lift (get_author_id user_model profile_id logs)

-- `lg.Logs[0]` of a log with one child.
unfoldable pub only_branch : Logs → Outcome BookError Log
only_branch nil = err not_one_branch
only_branch (cons b nil) = ok b
only_branch (cons b (cons c ls)) = err not_one_branch

-- A change of that child, in place.
unfoldable pub change_only : (Log → Outcome LogError Log) → Log → Outcome LogError Log
change_only f (node e nil) = err not_found
change_only f (node e (cons b nil)) = f b >>= λ b'. ok (node e (cons b' nil))
change_only f (node e (cons b (cons c ls))) = err not_found

module _ (hash : Op → Text) where
  unfoldable pub dataset_log : Text → Logs → Outcome BookError Log
  dataset_log init_id logs = lift (get hash init_id logs)

  unfoldable pub branch_log : Text → Logs → Outcome BookError Log
  unfolding only_branch
  branch_log init_id logs = do lg ← lift (get hash init_id logs); only_branch (children lg)

  -- `hasWriteAccess`, and the end of `ProfileCanWrite`.
  unfoldable pub has_write_access : Log → Profile → Logs → Outcome BookError (Unit {0})
  unfolding user_log first_op
  has_write_access log pro logs = do
    ul ← user_log pro.id logs
    o ← lift (first_op (entry log).ops)
    fail_if (not (text_eq o.author_id (id hash ul))) access_denied

  unfoldable pub profile_can_write : Text → Profile → Logs → Outcome BookError (Unit {0})
  profile_can_write init_id pro logs = elim (branch_log init_id logs) [
    | ok log ↦ has_write_access log pro logs
    | err (store not_found) ↦ ok tt
    | err e ↦ err e
    | panic ↦ panic
  ]

  -- Every write to a branch looks it up and checks the access first.
  unfoldable pub writable_branch : Text → Profile → Logs → Outcome BookError Log
  unfolding branch_log has_write_access
  writable_branch init_id pro logs = do
    blog ← branch_log init_id logs
    _ ← has_write_access blog pro logs
    ok blog

  -- The journal with the branch changed in place.
  unfoldable pub change_branch : (Log → Outcome LogError Log) → Text → Logs → Outcome BookError Logs
  change_branch f init_id logs = lift (change_in hash (change_only f) init_id logs)

-- What a book needs of the outside to be stored: the encrypted bytes of a journal, and `Put` of a
-- file, which returns a location and whether it failed.
pub record Storage : Type 0 where
  pub cipher : Logs → Option Text
  pub put : Text → Text → Text × Bool

-- `save`: a `Journal` is no `logPutter`, so both logs that the source takes are of no use.
unfoldable pub save : Storage → Book → Step (Unit {0})
save st book = elim (st.cipher book.logs) [
  | none ↦ record { result = err cannot_encrypt; book = book }
  | some bytes ↦
      let (location, failed) = st.put book.fs_location bytes in
      record { result = fail_if failed cannot_put; book = record book { fs_location = location } }
]

-- The lines behind a successful call.
abbrev pub after {ℓ κ} : {A : Type ℓ} {B : Type κ} → Step A → (A → Book → Step B) → Step B
after s k = guarded s.book s.result (λ a. k a s.book)

abbrev pub return {ℓ} : {A : Type ℓ} → A → Book → Step A
return a book = record { result = ok a; book = book }
