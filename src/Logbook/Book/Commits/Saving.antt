-- ===== src/Logbook/Book/Commits/Saving.antt =====
-- What `WriteVersionSave` does to the book and to the list of versions.
use repo_4636_qri.Prelude.{
  ◌≡◌, ◌⊎◌, refl, sym, ap, subst, ◌∙◌, inl, inr, Option, none, some, List, [], ◌∷◌, ◌++◌, Text,
  text_eq, text_eq_iff, ok, err, Bool-cases, Option-cases, ok_injective, err_not_ok, panic_not_ok,
  arith,
}
use repo_4636_qri.Dsref.VersionInfo.{Dataset, Commit}
use repo_4636_qri.Run.State.{State}
use repo_4636_qri.Oplog.Op.{Op}
use repo_4636_qri.Oplog.Log.{Log, Logs, node, entry}
use repo_4636_qri.Logbook.Book.{
  Profile, cannot_encrypt, write_commit, Book, Step, after, return, published_by, writable_branch,
  Storage, save,
}
use repo_4636_qri.Logbook.Book.Commits.{
  commit_of, version_save_op, transform_run_op, save_ops, saved_version, with_appended,
  write_version_save,
}
use repo_4636_qri.Logbook.Book.Commits.Appending.{AllBranchOps}
use repo_4636_qri.Logbook.Book.Commits.Access.{writable_branch_iff, Written, CanWrite-Written}

pub save-keeps :
    (st : Storage) (b : Book)
    → ((save st b).book.logs ≡ b.logs) × ((save st b).book.published ≡ b.published)
unfolding save
save-keeps st b = elim (Option-cases (st.cipher b.logs)) [
  | inl e ↦ (ground (arith, e), ground (arith, e))
  | inr (bytes, e) ↦ (ground (arith, e), ground (arith, e))
]

-- The operations of a save are a commit, or a run and its commit.
pub save_ops-cases :
    (ds : Dataset) (rs : Option State) (ops : List Op)
    → save_ops ds rs ≡ ok ops
    → ((c : Commit) × (rs ≡ none) × (ops ≡ version_save_op ds c ∷ []))
      ⊎ ((c : Commit) × (r : State) × (rs ≡ some r)
          × (r.id ≡ c.run_id)
          × (ops ≡ transform_run_op r ∷ version_save_op ds c ∷ []))
unfolding save_ops commit_of version_save_op
save_ops-cases ds none ops h = elim (Option-cases ds.commit) [
  | inl e ↦ absurd (panic_not_ok (rw e at h))
  | inr (c, e) ↦ inl (c, refl, sym (ok_injective (rw e at h)))
]
save_ops-cases ds (some r) ops h = elim (Option-cases ds.commit) [
  | inl e ↦ absurd (panic_not_ok (rw e at h))
  | inr (c, e) ↦ elim (Bool-cases (text_eq r.id c.run_id)) [
    | inl t ↦ inr (c, r, refl, (text_eq_iff r.id c.run_id).0 t, sym (ok_injective (rw (e, t) at h)))
    | inr t ↦ absurd (err_not_ok (rw (e, t) at h))
  ]
]

save_ops-AllBranchOps :
    (ds : Dataset) (rs : Option State) (ops : List Op) → save_ops ds rs ≡ ok ops → AllBranchOps ops
unfolding version_save_op transform_run_op
save_ops-AllBranchOps ds rs ops h = elim (save_ops-cases ds rs ops h) [
  | inl (c, n, e) ↦ subst AllBranchOps (sym e) (refl, tt)
  | inr (c, r, n, i, e) ↦ subst AllBranchOps (sym e) (refl, (refl, tt))
]

module _ (hash : Op → Text) (st : Storage) where
  write_version_save-Written :
      (author : Profile) (ds : Dataset) (rs : Option State) (book : Book) (blog : Log)
      (ops : List Op)
      → writable_branch hash ds.id author book.logs ≡ ok blog
      → save_ops ds rs ≡ ok ops
      → (w : Written hash ops ds.id author blog book.logs)
      → write_version_save hash st author ds rs book
        ≡ after
            (save st (record book { logs = w.logs' }))
            λ _ b. return tt (published_by (write_commit (saved_version ds rs (entry w.log).ops)) b)
  unfolding write_version_save with_appended
  write_version_save-Written author ds rs book blog ops h o w = rw (h, o, w.appends, w.changes) refl

  after_save :
      (s : Step (Unit {0})) (k : Book → Step (Unit {0}))
      → s.result ≡ ok tt
      → after s (λ _ b. k b) ≡ k s.book
  after_save s k h = rw h refl

  after_no_cipher :
      (b : Book) (k : Book → Step (Unit {0}))
      → st.cipher b.logs ≡ none
      → after (save st b) (λ _ b. k b) ≡ record { result = err cannot_encrypt; book = b }
  unfolding save
  after_no_cipher b k h = rw (h, save) refl

  -- If the profile can write to the branch, the operations of the save are built, and books are
  -- stored, `WriteVersionSave` returns nil; the branch is found under the id of the dataset with the
  -- operations behind its former ones, its author can still write to it, and the version is
  -- published as the last event.
  pub write_version_save-appends :
      (author : Profile) (ds : Dataset) (rs : Option State) (book : Book) (blog : Log)
      (ops : List Op)
      → writable_branch hash ds.id author book.logs ≡ ok blog
      → save_ops ds rs ≡ ok ops
      → ((b : Book) → (save st b).result ≡ ok tt)
      → ((write_version_save hash st author ds rs book).result ≡ ok tt)
        × (blog' : Log) × (writable_branch hash ds.id author
              (write_version_save hash st author ds rs book).book.logs
            ≡ ok blog')
        × ((entry blog').ops ≡ (entry blog).ops ++ ops)
        × ((write_version_save hash st author ds rs book).book.published
            ≡ book.published ++ write_commit (saved_version ds rs (entry blog').ops) ∷ [])
  write_version_save-appends author ds rs book (node e kids) ops h o stores =
      let can = (writable_branch_iff hash ds.id author book.logs (node e kids)).0 h in
      let w =
        CanWrite-Written hash ops ds.id author book.logs e kids can
          (save_ops-AllBranchOps ds rs ops o) in
      let b1 = record book { logs = w.logs' } in
      let done =
        write_version_save-Written author ds rs book (node e kids) ops h o w
        ∙ after_save (save st b1)
            (λ b. return tt (published_by (write_commit (saved_version ds rs (entry w.log).ops)) b))
            (stores b1) in
      (
        ap (λ s. s.result) done,
        w.log,
        ap (λ s. writable_branch hash ds.id author s.book.logs) done
            ∙ ap (λ l. writable_branch hash ds.id author l) ((save-keeps st b1).0)
            ∙ (writable_branch_iff hash ds.id author w.logs' w.log).1 w.writable,
        w.ops_of,
        ap (λ s. s.book.published) done
            ∙ ap (λ l. l ++ write_commit (saved_version ds rs (entry w.log).ops) ∷ [])
                ((save-keeps st b1).1),
      )

  -- If the journal cannot be encrypted, `WriteVersionSave` returns the error and publishes nothing,
  -- but the operations stay in the branch.
  pub write_version_save-unsaved :
      (author : Profile) (ds : Dataset) (rs : Option State) (book : Book) (blog : Log)
      (ops : List Op)
      → writable_branch hash ds.id author book.logs ≡ ok blog
      → save_ops ds rs ≡ ok ops
      → ((logs : Logs) → st.cipher logs ≡ none)
      → ((write_version_save hash st author ds rs book).result ≡ err cannot_encrypt)
        × ((write_version_save hash st author ds rs book).book.published ≡ book.published)
        × (blog' : Log) × (writable_branch hash ds.id author
              (write_version_save hash st author ds rs book).book.logs
            ≡ ok blog')
        × ((entry blog').ops ≡ (entry blog).ops ++ ops)
  write_version_save-unsaved author ds rs book (node e kids) ops h o c =
      let can = (writable_branch_iff hash ds.id author book.logs (node e kids)).0 h in
      let w =
        CanWrite-Written hash ops ds.id author book.logs e kids can
          (save_ops-AllBranchOps ds rs ops o) in
      let stopped =
        write_version_save-Written author ds rs book (node e kids) ops h o w
        ∙ after_no_cipher (record book { logs = w.logs' })
            (λ b. return tt (published_by (write_commit (saved_version ds rs (entry w.log).ops)) b))
            (c w.logs') in
      (
        ap (λ s. s.result) stopped,
        ap (λ s. s.book.published) stopped,
        w.log,
        ap (λ s. writable_branch hash ds.id author s.book.logs) stopped
            ∙ (writable_branch_iff hash ds.id author w.logs' w.log).1 w.writable,
        w.ops_of,
      )
