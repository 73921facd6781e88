-- ===== src/Logbook/Book/Commits/Denied.antt =====
-- Writes to a branch that the profile may not write to.
use repo_4636_qri.Prelude.{
  ℕ, ◌≡◌, ◌≢◌, refl, inl, inr, some, List, ◌∷◌, Option, Text, text_eq, text_eq_iff, ok, err,
  Bool-cases,
}
use repo_4636_qri.Dsref.VersionInfo.{Dataset}
use repo_4636_qri.Run.State.{State}
use repo_4636_qri.Oplog.Op.{Op}
use repo_4636_qri.Oplog.Log.{Log, Logs, entry, first_op, id}
use repo_4636_qri.Oplog.Journal.{get_author_id}
use repo_4636_qri.Logbook.Models.{user_model}
use repo_4636_qri.Logbook.Book.{
  Profile, BookError, access_denied, Book, Step, user_log, branch_log, has_write_access,
  writable_branch, Storage,
}
use repo_4636_qri.Logbook.Book.Commits.{
  write_version_save, write_transform_run, write_version_amend, write_version_delete,
}

-- The call returned the error and left the book as it was, events included.
abbrev pub Refused : BookError → Book → Step (Unit {0}) → Type 0
Refused x book s = s ≡ record { result = err x; book = book }

-- Another author than the user began the branch.
writable_branch-denied :
    (hash : Op → Text) (init_id : Text) (pro : Profile) (logs : Logs) (ul blog : Log) (o : Op)
    (rest : List Op)
    → get_author_id user_model pro.id logs ≡ ok ul
    → branch_log hash init_id logs ≡ ok blog
    → (entry blog).ops ≡ o ∷ rest
    → o.author_id ≢ id hash ul
    → writable_branch hash init_id pro logs ≡ err access_denied
unfolding writable_branch has_write_access user_log first_op
writable_branch-denied hash init_id pro logs ul blog o rest u b s other =
    elim (Bool-cases (text_eq o.author_id (id hash ul))) [
      | inl e ↦ absurd (other ((text_eq_iff o.author_id (id hash ul)).0 e))
      | inr e ↦ rw (b, u, s, e) refl
    ]

-- If the profile has a user log, the dataset has one branch, and the author of the first operation of
-- the branch is not the id of that user log, then a save, a transform run, an amend and a delete of
-- versions all return ErrAccessDenied and leave the book as it was: nothing is appended, stored or
-- published.
pub writes-Refused :
    (hash : Op → Text) (st : Storage) (pro : Profile) (ds : Dataset) (rs : Option State) (r : State)
    (n : ℕ) (book : Book) (ul blog : Log) (o : Op) (rest : List Op)
    → get_author_id user_model pro.id book.logs ≡ ok ul
    → branch_log hash ds.id book.logs ≡ ok blog
    → (entry blog).ops ≡ o ∷ rest
    → o.author_id ≢ id hash ul
    → Refused access_denied book (write_version_save hash st pro ds rs book)
      × Refused access_denied book (write_transform_run hash st pro ds.id (some r) book)
      × Refused access_denied book (write_version_amend hash st pro ds book)
      × Refused access_denied book (write_version_delete hash st pro ds.id n book)
unfolding write_version_save write_transform_run write_version_amend write_version_delete
writes-Refused hash st pro ds rs r n book ul blog o rest u b s other =
    let h = writable_branch-denied hash ds.id pro book.logs ul blog o rest u b s other in
    (rw h refl, rw h refl, rw h refl, rw h refl)
