-- ===== src/Logbook/Book/Datasets/Creating.antt =====
-- `WriteDatasetInit`: the dataset that it makes is found under its name, and its author can write to
-- its branch.
use repo_4636_qri.Prelude.{
  ◌≡◌, refl, sym, ap, ◌∙◌, true, false, [], Text, text_eq, text_eq_refl, ok, err,
}
use repo_4636_qri.Prelude.Int.{ℤ}
use repo_4636_qri.Dsref.Ref.{empty_ref}
use repo_4636_qri.Dsref.VersionInfo.{VersionInfo, empty_version_info}
use repo_4636_qri.Dsref.Scan.{is_valid_name}
use repo_4636_qri.Oplog.Op.{Op}
use repo_4636_qri.Oplog.Log.{
  not_found, Entry, Log, Logs, node, cons, entry_id, id, find, find_in, add_child,
}
use repo_4636_qri.Oplog.Journal.{head_ref_in}
use repo_4636_qri.Oplog.Journal.Changing.{find-below, find_in-first}
use repo_4636_qri.Oplog.Journal.Authors.{change_author-first}
use repo_4636_qri.Logbook.Models.{user_model}
use repo_4636_qri.Logbook.Book.{
  Profile, BookError, dataset_name_init, published_by, Book, Step, after, return, branch_log,
  has_write_access, writable_branch, Storage, save,
}
use repo_4636_qri.Logbook.Book.Commits.Saving.{save-keeps}
use repo_4636_qri.Logbook.Book.Datasets.{
  new_dataset_log, dataset_ref, free_name, ref_to_init_id, write_dataset_init,
}
use repo_4636_qri.Logbook.Book.Datasets.Naming.{
  snoc, absent_id, add_to-new, find_in-snoc, head_ref_in-snoc, IsFirstUser, first_user-authored,
  user_log-first, head_ref-first, dataset_ref-absent, valid_name-nonempty,
}
use repo_4636_qri.Logbook.Book.Datasets.Placed.{
  placed, same_id, head_ref_in-placed, find_in-placed, new_branch, only_branch-placed,
  first_op-branch,
}

module _ (hash : Op → Text) (st : Storage) where
  free_name-absent :
      (author : Profile) (n : Text) (book : Book) (x : BookError)
      → dataset_ref (record empty_ref { username = author.peername; name = n }) book.logs ≡ err x
      → free_name st (record empty_ref { username = author.peername; name = n }) book
        ≡ return tt book
  unfolding free_name
  free_name-absent author n book x h = rw (h, free_name) refl

  after_save :
      {A : Type 0} (s : Step (Unit {0})) (k : Book → Step A)
      → s.result ≡ ok tt
      → after s (λ _ b. k b) ≡ k s.book
  after_save s k h = rw h refl

  after-return :
      {A : Type 0} (b : Book) (k : Book → Step A) (s : Step (Unit {0}))
      → s ≡ return tt b
      → after s (λ _ b. k b) ≡ k b
  after-return b k s h = rw h refl

  -- The journal after the new log is added to the log of the author.
  abbrev with_dataset : Entry → Logs → Logs → Text → ℤ → ℤ → Logs
  with_dataset e kids rest n now later =
      cons (node e (snoc kids (placed hash (entry_id hash e) n now later))) rest

  abbrev init_info : Profile → Text → Text → VersionInfo
  init_info author n init_id = record empty_version_info {
    init_id = init_id;
    username = author.peername;
    profile_id = author.id;
    name = n;
  }

  added :
      (e : Entry) (kids : Logs) (n : Text) (now later : ℤ)
      → find_in hash (id hash (new_dataset_log hash (entry_id hash e) n now later)) kids
        ≡ err not_found
      → add_child hash (new_dataset_log hash (entry_id hash e) n now later) (node e kids)
        ≡ node e (snoc kids (placed hash (entry_id hash e) n now later))
  unfolding add_child placed
  added e kids n now later h = ap (node e) (
      add_to-new hash (placed hash (entry_id hash e) n now later) kids
        (ap (λ i. find_in hash i kids) (same_id hash (entry_id hash e) n now later) ∙ h))

  write_dataset_init-runs :
      (author : Profile) (n : Text) (now later : ℤ) (book : Book) (e : Entry) (kids rest : Logs)
      → is_valid_name n ≡ true
      → IsFirstUser author e
      → head_ref_in n [] kids ≡ err not_found
      → find_in hash (id hash (new_dataset_log hash (entry_id hash e) n now later)) kids
        ≡ err not_found
      → write_dataset_init hash st author n now later
          (record book { logs = cons (node e kids) rest })
        ≡ after
            (save st (
              published_by
                (dataset_name_init (
                  init_info author n
                    (id hash (new_dataset_log hash (entry_id hash e) n now later))))
                (record book { logs = with_dataset e kids rest n now later })))
            λ _ b. return (id hash (new_dataset_log hash (entry_id hash e) n now later)) b
  unfolding write_dataset_init
  write_dataset_init-runs author n now later book e kids rest v u free fresh =
      rw
        (
          valid_name-nonempty n v,
          v,
          free_name-absent author n (record book { logs = cons (node e kids) rest })
              (dataset_ref-absent author n e kids rest u free).0
              (dataset_ref-absent author n e kids rest u free).1,
          user_log-first author e kids rest u,
          change_author-first
              (λ l. ok (add_child hash (new_dataset_log hash (entry_id hash e) n now later) l))
              user_model author.id (node e kids)
              (node e (snoc kids (placed hash (entry_id hash e) n now later))) rest
              (first_user-authored author e u) (ap ok (added e kids n now later fresh)),
        )
        refl

  ref_to_init_id-placed :
      (author : Profile) (n : Text) (now later : ℤ) (e : Entry) (kids rest : Logs)
      → is_valid_name n ≡ true
      → IsFirstUser author e
      → head_ref_in n [] kids ≡ err not_found
      → ref_to_init_id hash
          (record empty_ref { username = author.peername; name = n })
          (with_dataset e kids rest n now later)
        ≡ ok (id hash (new_dataset_log hash (entry_id hash e) n now later))
  unfolding ref_to_init_id add_child
  ref_to_init_id-placed author n now later e kids rest v u free =
      rw
        (
          head_ref-first author n e (snoc kids (placed hash (entry_id hash e) n now later)) rest u
              ∙ head_ref_in-snoc n kids (placed hash (entry_id hash e) n now later) free
              ∙ head_ref_in-placed hash (entry_id hash e) n now later (valid_name-nonempty n v),
          ref_to_init_id,
        )
        (ap ok (same_id hash (entry_id hash e) n now later))

  branch_log-placed :
      (n : Text) (now later : ℤ) (e : Entry) (kids rest : Logs)
      → text_eq (entry_id hash e) (id hash (new_dataset_log hash (entry_id hash e) n now later))
        ≡ false
      → find_in hash (id hash (new_dataset_log hash (entry_id hash e) n now later)) kids
        ≡ err not_found
      → branch_log hash
          (id hash (new_dataset_log hash (entry_id hash e) n now later))
          (with_dataset e kids rest n now later)
        ≡ ok (new_branch hash (entry_id hash e) n now later)
  unfolding branch_log
  branch_log-placed n now later e kids rest other fresh =
      let i = id hash (new_dataset_log hash (entry_id hash e) n now later) in
      let p = placed hash (entry_id hash e) n now later in
      rw
        (find_in-first hash i (node e (snoc kids p)) rest p (
          find-below hash i e (snoc kids p) other
          ∙ find_in-snoc hash i kids p fresh
          ∙ find_in-placed hash (entry_id hash e) n now later))
        (only_branch-placed hash (entry_id hash e) n now later)

  writable-placed :
      (author : Profile) (n : Text) (now later : ℤ) (e : Entry) (kids rest : Logs)
      → IsFirstUser author e
      → text_eq (entry_id hash e) (id hash (new_dataset_log hash (entry_id hash e) n now later))
        ≡ false
      → find_in hash (id hash (new_dataset_log hash (entry_id hash e) n now later)) kids
        ≡ err not_found
      → writable_branch hash
          (id hash (new_dataset_log hash (entry_id hash e) n now later))
          author
          (with_dataset e kids rest n now later)
        ≡ ok (new_branch hash (entry_id hash e) n now later)
  unfolding writable_branch has_write_access
  writable-placed author n now later e kids rest u other fresh =
      rw
        (
          branch_log-placed n now later e kids rest other fresh,
          user_log-first author e (snoc kids (placed hash (entry_id hash e) n now later)) rest u,
          first_op-branch hash (entry_id hash e) n now later,
          text_eq_refl (entry_id hash e),
        )
        refl

  -- If the name is valid, the log of the profile is the first of the journal and has no dataset of
  -- this name, the id of the new log is not in it, and books are stored, `WriteDatasetInit` returns
  -- that id; `RefToInitID` finds it under the names of the profile and of the dataset, and the
  -- profile can write to the branch.
  pub write_dataset_init-writable :
      (author : Profile) (n : Text) (now later : ℤ) (book : Book) (e : Entry) (kids rest : Logs)
      → is_valid_name n ≡ true
      → IsFirstUser author e
      → head_ref_in n [] kids ≡ err not_found
      → find hash (id hash (new_dataset_log hash (entry_id hash e) n now later)) (node e kids)
        ≡ err not_found
      → ((b : Book) → (save st b).result ≡ ok tt)
      → ((write_dataset_init hash st author n now later
            (record book { logs = cons (node e kids) rest })).result
          ≡ ok (id hash (new_dataset_log hash (entry_id hash e) n now later)))
        × (ref_to_init_id hash
              (record empty_ref { username = author.peername; name = n })
              (write_dataset_init hash st author n now later
                (record book { logs = cons (node e kids) rest })).book.logs
            ≡ ok (id hash (new_dataset_log hash (entry_id hash e) n now later)))
        × (blog : Log) × (writable_branch hash
              (id hash (new_dataset_log hash (entry_id hash e) n now later))
              author
              (write_dataset_init hash st author n now later
                (record book { logs = cons (node e kids) rest })).book.logs
            ≡ ok blog)
  write_dataset_init-writable author n now later book e kids rest v u free fresh stores =
      let i = id hash (new_dataset_log hash (entry_id hash e) n now later) in
      let other = absent_id hash i (node e kids) not_found fresh in
      let absent = sym (find-below hash i e kids other) ∙ fresh in
      let b1 =
        published_by (dataset_name_init (init_info author n i))
          (record book { logs = with_dataset e kids rest n now later }) in
      let done =
        write_dataset_init-runs author n now later book e kids rest v u free absent
        ∙ after_save (save st b1) (λ b. return i b) (stores b1) in
      let logs = ap (λ s. s.book.logs) done ∙ (save-keeps st b1).0 in
      (
        ap (λ s. s.result) done,
        ap (ref_to_init_id hash (record empty_ref { username = author.peername; name = n })) logs
            ∙ ref_to_init_id-placed author n now later e kids rest v u free,
        new_branch hash (entry_id hash e) n now later,
        ap (writable_branch hash i author) logs
            ∙ writable-placed author n now later e kids rest u other absent,
      )
