-- ===== src/Logbook/Book/Commits.antt =====
-- The writes of `Book` to a branch (logbook/logbook.go): versions, transform runs and pushes. A time
-- that the source takes from the clock is an argument.
pub mod Appending
pub mod Access
pub mod Saving
pub mod Listing
pub mod Denied
pub mod Counting
use repo_4636_qri.Prelude.{
  ℕ, ◌-◌, Bool, true, false, not, Option, none, some, List, [], ◌∷◌, ◌++◌, Text, codes, text_eq,
  is_empty, if◌then◌else◌, ◌==◌, ltb, length, take, Outcome, ok, err, panic, ◌>>=◌,
}
use repo_4636_qri.Prelude.Int.{ℤ, pos, negsuc, pos_part, ◌+ℤ◌, ◌-ℤ◌}
use repo_4636_qri.Prelude.Decimal.{decimal}
use repo_4636_qri.Dsref.Ref.{Ref, empty_ref}
use repo_4636_qri.Dsref.VersionInfo.{
  VersionInfo, empty_version_info, Dataset, Commit, Structure, convert_dataset_to_version_info,
}
use repo_4636_qri.Run.State.{State}
use repo_4636_qri.Oplog.Op.{Op, op_type_init, op_type_amend, op_type_remove}
use repo_4636_qri.Oplog.Log.{LogError, Entry, Log, Logs, node, entry}
use repo_4636_qri.Logbook.Models.{commit_model, push_model, run_model}
use repo_4636_qri.Logbook.History.{run_id_rel_prefix, branch_to_version_infos, last_of}
use repo_4636_qri.Logbook.Book.{
  Profile, BookError, run_id_mismatch, run_state_required, Published, write_commit, write_run, Book,
  Step, lift, guarded, after, return, fail_if, published_by, blank_op, branch_append, branch_log,
  writable_branch, change_branch, Storage, save,
}

-- `UnixNano` of the zero time, as it wraps.
abbrev zero_time : ℤ
zero_time = negsuc 6795364578871345151

abbrev nano : Option ℤ → ℤ
nano none = zero_time
nano (some t) = t

-- `ds.Commit`, which is read without a check.
unfoldable pub commit_of : Dataset → Outcome BookError Commit
commit_of ds = elim ds.commit [ none ↦ panic | some c ↦ ok c ]

abbrev structure_length : Option Structure → ℕ
structure_length none = 0
structure_length (some st) = st.length

-- The operation of `appendVersionSave`.
unfoldable pub version_save_op : Dataset → Commit → Op
version_save_op ds c = record (blank_op op_type_init commit_model) {
  ref = ds.path;
  prev = ds.previous_path;
  timestamp = nano c.timestamp;
  note = c.title;
  size = structure_length ds.structure;
  relations = if not (is_empty c.run_id) then (run_id_rel_prefix ++ c.run_id) ∷ [] else [];
}

-- The operation of `appendTransformRun`. A duration is not negative.
unfoldable pub transform_run_op : State → Op
unfolding decimal
transform_run_op rs = record (blank_op op_type_init run_model) {
  ref = rs.id;
  name = decimal rs.number;
  size = pos_part rs.duration;
  note = rs.status;
  timestamp = elim rs.start_time [ none ↦ pos 0 | some t ↦ t ];
}

unfoldable pub append_all : List Op → Log → Outcome LogError Log
unfolding branch_append
append_all [] l = ok l
append_all (op ∷ ops) l = branch_append op l >>= append_all ops

-- The operations that a save appends: that of the run, if there is one, and that of the commit.
unfoldable pub save_ops : Dataset → Option State → Outcome BookError (List Op)
unfolding commit_of
save_ops ds none = do c ← commit_of ds; ok (version_save_op ds c ∷ [])
save_ops ds (some rs) = do
  c ← commit_of ds
  _ ← fail_if (not (text_eq rs.id c.run_id)) run_id_mismatch
  ok (transform_run_op rs ∷ version_save_op ds c ∷ [])

-- The count of commits in `WriteVersionSave`.
unfoldable pub commit_count : ℤ → List Op → ℤ
commit_count n [] = n
commit_count n (op ∷ ops) =
    let one_more = commit_count (n +ℤ pos 1) ops in
    let same = commit_count n ops in
    let fewer = commit_count (n -ℤ pos op.size) ops in
    if op.model == commit_model
    then (if op.type == op_type_init
        then one_more
        else if op.type == op_type_remove
        then fewer
        else same)
    else same

-- The version that a save publishes.
unfoldable pub saved_version : Dataset → Option State → List Op → VersionInfo
unfolding convert_dataset_to_version_info commit_count
saved_version ds rs ops =
    let info = record (convert_dataset_to_version_info ds) {
      commit_count = commit_count (pos 0) ops;
    } in
    elim rs [
      | none ↦ info
      | some r ↦ record info { run_id = r.id; run_duration = r.duration; run_status = r.status }
    ]

abbrev pub run_version : Text → State → VersionInfo
run_version init_id rs = record empty_version_info {
  init_id = init_id;
  run_id = rs.id;
  run_status = rs.status;
  run_duration = rs.duration;
  run_start = rs.start_time;
}

abbrev pub version_amend_op : Dataset → Commit → Op
version_amend_op ds c = record (blank_op op_type_amend commit_model) {
  ref = ds.path;
  prev = ds.previous_path;
  timestamp = nano c.timestamp;
  note = c.title;
}

-- The event after a delete: the last item of the list.
unfoldable pub publish_head : Text → List VersionInfo → Book → Book
unfolding last_of
publish_head init_id items book = elim (last_of items) [
  | none ↦ book
  | some v ↦
      published_by
        (write_commit (record v { init_id = init_id; commit_count = pos (length items) })) book
]

-- The operation of `WriteRemotePush`; `WriteRemoteDelete` removes.
abbrev pub push_op : ℕ → ℕ → Text → ℤ → Op
push_op t revisions remote_addr now = record (blank_op t push_model) {
  timestamp = now;
  size = revisions;
  relations = remote_addr ∷ [];
}

-- `branchLog.l.Ops[:len(branchLog.l.Ops)-1]`
unfoldable pub drop_last_op : Log → Outcome LogError Log
drop_last_op (node e kids) =
    if ltb 0 (length e.ops)
    then ok (node (record e { ops = take (length e.ops - 1) e.ops }) kids)
    else panic

module _ (hash : Op → Text) where
  -- The operations are appended to the branch where it stands in the journal; `k` gets the branch.
  unfoldable pub with_appended {ℓ} :
      {A : Type ℓ} → List Op → Text → Log → Book → (Log → Book → Step A) → Step A
  with_appended ops init_id blog book k = guarded book (lift (append_all ops blog)) λ blog'.
      guarded book (change_branch hash (append_all ops) init_id book.logs)
        λ logs. k blog' (record book { logs = logs })

  module _ (st : Storage) where
    unfoldable pub write_version_save : Profile → Dataset → Option State → Book → Step (Unit {0})
    unfolding save_ops with_appended saved_version
    write_version_save author ds rs book =
        guarded book (writable_branch hash ds.id author book.logs) λ blog.
          guarded book (save_ops ds rs) λ ops. with_appended ops ds.id blog book λ blog' book.
            after (save st book) λ _ book.
              return tt (published_by (write_commit (saved_version ds rs (entry blog').ops)) book)

    unfoldable pub write_transform_run : Profile → Text → Option State → Book → Step (Unit {0})
    unfolding with_appended save
    write_transform_run author init_id none book = record {
      result = err run_state_required;
      book = book;
    }
    write_transform_run author init_id (some rs) book =
        guarded book (writable_branch hash init_id author book.logs) λ blog.
          with_appended (transform_run_op rs ∷ []) init_id blog book
            λ blog' book. save st (published_by (write_run (run_version init_id rs)) book)

    unfoldable pub write_version_amend : Profile → Dataset → Book → Step (Unit {0})
    unfolding commit_of with_appended save
    write_version_amend author ds book =
        guarded book (writable_branch hash ds.id author book.logs) λ blog.
          guarded book (commit_of ds) λ c.
            with_appended (version_amend_op ds c ∷ []) ds.id blog book λ blog' book. save st book

    unfoldable pub write_version_delete : Profile → Text → ℕ → Book → Step (Unit {0})
    unfolding with_appended branch_to_version_infos publish_head save
    write_version_delete author init_id revisions book =
        guarded book (writable_branch hash init_id author book.logs) λ blog.
          with_appended (record (blank_op op_type_remove commit_model) { size = revisions } ∷ [])
            init_id blog book
            λ blog' book.
              guarded book (lift (branch_to_version_infos false empty_ref (entry blog').ops))
                λ items. save st (publish_head init_id items book)

    -- The lines of `WriteRemotePush` and `WriteRemoteDelete` down to `save`. What they do behind it, the
    -- sparse log with its parents and signatures, is not modelled.
    unfoldable pub record_push : ℕ → Profile → Text → ℕ → Text → ℤ → Book → Step (Unit {0})
    unfolding with_appended save
    record_push t author init_id revisions remote_addr now book =
        guarded book (writable_branch hash init_id author book.logs) λ blog.
          with_appended (push_op t revisions remote_addr now ∷ []) init_id blog book
            λ blog' book. save st book

    -- The first call of the function `rollback` that both make.
    unfoldable pub rollback : Text → Book → Step (Unit {0})
    unfolding drop_last_op save
    rollback init_id book = guarded book (branch_log hash init_id book.logs) λ blog.
        guarded book (change_branch hash drop_last_op init_id book.logs)
          λ logs. save st (record book { logs = logs })
