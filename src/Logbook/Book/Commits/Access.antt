-- ===== src/Logbook/Book/Commits/Access.antt =====
-- Who can write to a branch (`hasWriteAccess` in logbook/logbook.go), before and after a write.
use repo_4636_qri.Prelude.{
  ◌≡◌, ◌↔◌, refl, sym, ap, ◌∙◌, inl, inr, not, List, [], ◌∷◌, ◌++◌, Text, text_eq, text_eq_iff,
  Outcome, ok, err, panic, ◌>>=◌, Bool-cases, err_not_ok, panic_not_ok, arith,
}
use repo_4636_qri.Oplog.Op.{Op}
use repo_4636_qri.Oplog.Log.{LogError, Entry, Log, Logs, node, entry, entry_id, first_op, id}
use repo_4636_qri.Oplog.Journal.{get_author_id}
use repo_4636_qri.Oplog.Journal.Authors.{get_author_id-SameEntries}
use repo_4636_qri.Logbook.Models.{user_model}
use repo_4636_qri.Logbook.Book.{
  Profile, access_denied, lift, fail_if, user_log, branch_log, has_write_access, writable_branch,
  change_branch,
}
use repo_4636_qri.Logbook.Book.Commits.{append_all}
use repo_4636_qri.Logbook.Book.Commits.Appending.{
  AllBranchOps, append_all-AppendedTo, change_branch-ChangedBranch,
}

module _ (hash : Op → Text) where
  -- The branch is the only one of the dataset, and its first operation has the id of the user log
  -- of the profile as its author.
  pub record CanWrite (init_id : Text) (pro : Profile) (logs : Logs) (blog : Log) : Type 0 where
    pub branch : branch_log hash init_id logs ≡ ok blog
    pub user : Log
    pub user_found : get_author_id user_model pro.id logs ≡ ok user
    pub first : Op
    pub rest : List Op
    pub started : (entry blog).ops ≡ first ∷ rest
    pub owns : first.author_id ≡ id hash user

  -- The checks, on what the store returned and on the operations of the branch.
  checks-CanWrite :
      (init_id : Text) (pro : Profile) (logs : Logs) (blog : Log)
      → branch_log hash init_id logs ≡ ok blog
      → (m : Outcome LogError Log) (ops : List Op) → get_author_id user_model pro.id logs ≡ m
      → (entry blog).ops ≡ ops
      → (do
        ul ← lift m
        o ← lift (first_op ops)
        fail_if (not (text_eq o.author_id (id hash ul))) access_denied)
        ≡ ok tt
      → CanWrite init_id pro logs blog
  unfolding first_op
  checks-CanWrite init_id pro logs blog b (ok ul) [] u s h = absurd (panic_not_ok h)
  checks-CanWrite init_id pro logs blog b (ok ul) (o ∷ rest) u s h = record {
    branch = b;
    user = ul;
    user_found = u;
    first = o;
    rest = rest;
    started = s;
    owns = elim (Bool-cases (text_eq o.author_id (id hash ul))) [
      | inl t ↦ (text_eq_iff o.author_id (id hash ul)).0 t
      | inr t ↦ absurd (err_not_ok (rw t at h))
    ];
  }
  checks-CanWrite init_id pro logs blog b (err e) ops u s h = absurd (err_not_ok h)
  checks-CanWrite init_id pro logs blog b panic ops u s h = absurd (panic_not_ok h)

  access-CanWrite :
      (init_id : Text) (pro : Profile) (logs : Logs) (blog : Log)
      → branch_log hash init_id logs ≡ ok blog
      → has_write_access hash blog pro logs ≡ ok tt
      → CanWrite init_id pro logs blog
  unfolding has_write_access user_log
  access-CanWrite init_id pro logs blog b h =
      checks-CanWrite init_id pro logs blog b (get_author_id user_model pro.id logs)
        ((entry blog).ops) refl refl h

  writable_branch-cases :
      (init_id : Text) (pro : Profile) (logs : Logs) (blog : Log)
      → writable_branch hash init_id pro logs ≡ ok blog
      → (branch_log hash init_id logs ≡ ok blog) × (has_write_access hash blog pro logs ≡ ok tt)
  unfolding writable_branch
  writable_branch-cases init_id pro logs blog h = ground (arith, h)

  CanWrite-writable :
      (init_id : Text) (pro : Profile) (logs : Logs) (blog : Log)
      → CanWrite init_id pro logs blog
      → writable_branch hash init_id pro logs ≡ ok blog
  unfolding writable_branch has_write_access user_log first_op
  CanWrite-writable init_id pro logs blog w =
      rw
        (
          w.branch,
          w.user_found,
          w.started,
          (text_eq_iff w.first.author_id (id hash w.user)).1 w.owns,
        )
        refl

  -- A branch is given out for a write exactly if it is the only one of the dataset and its first
  -- operation has the id of the user log of the profile as its author.
  pub writable_branch_iff :
      (init_id : Text) (pro : Profile) (logs : Logs) (blog : Log)
      → (writable_branch hash init_id pro logs ≡ ok blog) ↔ CanWrite init_id pro logs blog
  writable_branch_iff init_id pro logs blog = (
    λ h.
        let (b, a) = writable_branch-cases init_id pro logs blog h in
        access-CanWrite init_id pro logs blog b a,
    CanWrite-writable init_id pro logs blog,
  )

  -- The branch and the book after an append of operations.
  pub record Written (ops : List Op) (init_id : Text) (pro : Profile) (blog : Log) (logs : Logs)
      : Type 0 where
    pub log : Log
    pub logs' : Logs
    pub appends : append_all ops blog ≡ ok log
    pub changes : change_branch hash (append_all ops) init_id logs ≡ ok logs'
    pub writable : CanWrite init_id pro logs' log
    pub ops_of : (entry log).ops ≡ (entry blog).ops ++ ops

  pub CanWrite-Written :
      (ops : List Op) (init_id : Text) (pro : Profile) (logs : Logs) (e : Entry) (kids : Logs)
      → CanWrite init_id pro logs (node e kids)
      → AllBranchOps ops
      → Written ops init_id pro (node e kids) logs
  CanWrite-Written ops init_id pro logs e kids w a =
      let r = append_all-AppendedTo ops e kids w.first w.rest w.started a in
      let c =
        change_branch-ChangedBranch hash (append_all ops) init_id logs (node e kids) r.log w.branch
          r.appends in
      let u = get_author_id-SameEntries user_model pro.id logs c.logs' w.user c.same w.user_found in
      record {
        log = r.log;
        logs' = c.logs';
        appends = r.appends;
        changes = c.changes;
        writable = record {
          branch = c.found;
          user = u.log;
          user_found = u.found;
          first = w.first;
          rest = w.rest ++ ops;
          started = r.ops_of ∙ ap (λ t. t ++ ops) w.started;
          owns = w.owns ∙ ap (entry_id hash) (sym u.same);
        };
        ops_of = r.ops_of;
      }
