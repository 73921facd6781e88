-- ===== src/Logbook/Book/Commits/Appending.antt =====
-- What appending operations to a branch does to the book: the branch is found again with the
-- operations behind the former ones, and its author can still write to it.
use repo_4636_qri.Prelude.{
  ◌≡◌, refl, sym, ap, ◌∙◌, true, List, [], ◌∷◌, ◌++◌, Text, is_empty, if◌then◌else◌, ◌==◌, Outcome,
  ok, err, panic, ◌>>=◌, ok_injective, err_not_ok, panic_not_ok,
}
use mathlib.Core.List.{append_assoc, append-nil}
use repo_4636_qri.Oplog.Op.{Op}
use repo_4636_qri.Oplog.Log.{
  LogError, Entry, Log, Logs, node, nil, cons, entry, children, append, model, first_op,
}
use repo_4636_qri.Oplog.Journal.{get}
use repo_4636_qri.Oplog.Journal.Changing.{SameEntries, Changes, changed_in}
use repo_4636_qri.Logbook.Book.{
  lift, is_branch_op, append_entry, branch_append, only_branch, change_only, branch_log,
  change_branch,
}
use repo_4636_qri.Logbook.Book.Commits.{append_all}

-- The operations are of models that a branch takes.
abbrev pub AllBranchOps : List Op → Type 0
AllBranchOps [] = Unit
AllBranchOps (op ∷ ops) = (is_branch_op op ≡ true) × AllBranchOps ops

-- The branch with the operations behind the former ones.
pub record AppendedTo (ops : List Op) (l : Log) : Type 0 where
  pub log : Log
  pub appends : append_all ops l ≡ ok log
  pub ops_of : (entry log).ops ≡ (entry l).ops ++ ops
  pub same_children : children log ≡ children l

-- The entry after `Append`, where `o` is its first operation.
abbrev pub grown : Op → Op → Entry → Entry
grown o op e = record e {
  name = if op.model == o.model then (if is_empty op.name then e.name else op.name) else e.name;
  author_id =
      if op.model == o.model
      then (if is_empty op.author_id then e.author_id else op.author_id)
      else e.author_id;
  ops = e.ops ++ op ∷ [];
}

pub append_entry-grown :
    (op : Op) (e : Entry) (kids : Logs) (o : Op) (rest : List Op)
    → e.ops ≡ o ∷ rest
    → append_entry op (node e kids) ≡ ok (node (grown o op e) kids)
unfolding append_entry append model first_op
append_entry-grown op e kids o rest h = rw h refl

pub append_all-AppendedTo :
    (ops : List Op) (e : Entry) (kids : Logs) (o : Op) (rest : List Op)
    → e.ops ≡ o ∷ rest
    → AllBranchOps ops
    → AppendedTo ops (node e kids)
append_all-AppendedTo [] e kids o rest h a = record {
  log = node e kids;
  appends = unfold append_all in refl;
  ops_of = sym (append-nil e.ops);
  same_children = refl;
}
append_all-AppendedTo (op ∷ ops) e kids o rest h (a, rest_ok) =
    let e' = grown o op e in
    let made = append_entry-grown op e kids o rest h in
    let more =
      append_all-AppendedTo ops e' kids o (rest ++ op ∷ []) (ap (λ r. r ++ op ∷ []) h) rest_ok in
    record {
      log = more.log;
      appends = append_all-cons op ops e kids e' a made ∙ more.appends;
      ops_of = more.ops_of ∙ append_assoc e.ops (op ∷ []) ops;
      same_children = more.same_children;
    }
  where
    append_all-cons :
        (op : Op) (ops : List Op) (e : Entry) (kids : Logs) (e' : Entry)
        → is_branch_op op ≡ true
        → append_entry op (node e kids) ≡ ok (node e' kids)
        → append_all (op ∷ ops) (node e kids) ≡ append_all ops (node e' kids)
    append_all-cons op ops e kids e' a made = unfold append_all branch_append in rw (a, made) refl

module _ (hash : Op → Text) where
  only_branch-parent :
      (m : Outcome LogError Log) (blog : Log)
      → (lift m >>= λ lg. only_branch (children lg)) ≡ ok blog
      → (e : Entry) × (m ≡ ok (node e (cons blog nil)))
  unfolding only_branch
  only_branch-parent (ok (node e nil)) blog h = absurd (err_not_ok h)
  only_branch-parent (ok (node e (cons b nil))) blog h =
      (e, ap (λ c. ok (node e (cons c nil))) (ok_injective h))
  only_branch-parent (ok (node e (cons b (cons c ls)))) blog h = absurd (err_not_ok h)
  only_branch-parent (err x) blog h = absurd (err_not_ok h)
  only_branch-parent panic blog h = absurd (panic_not_ok h)

  -- The log that a branch stands in.
  pub branch_log-parent :
      (init_id : Text) (logs : Logs) (blog : Log)
      → branch_log hash init_id logs ≡ ok blog
      → (e : Entry) × (get hash init_id logs ≡ ok (node e (cons blog nil)))
  unfolding branch_log
  branch_log-parent init_id logs blog h = only_branch-parent (get hash init_id logs) blog h

  branch_log-get :
      (init_id : Text) (logs : Logs) (e : Entry) (blog : Log)
      → get hash init_id logs ≡ ok (node e (cons blog nil))
      → branch_log hash init_id logs ≡ ok blog
  unfolding branch_log only_branch
  branch_log-get init_id logs e blog h = ap (λ m. lift m >>= λ lg. only_branch (children lg)) h

  change_only-Changes :
      (f : Log → Outcome LogError Log) (e : Entry) (x y : Log)
      → f x ≡ ok y
      → Changes hash (change_only f) (node e (cons x nil)) (node e (cons y nil))
  change_only-Changes f e x y h = record {
    made = unfold change_only in rw h refl;
    same_entry = refl;
  }

  -- A branch that is changed in place: it is found again, and a change that undoes the first gives
  -- the journal back.
  pub record ChangedBranch (f : Log → Outcome LogError Log) (init_id : Text) (logs : Logs)
      (x y : Log) : Type 0 where
    pub logs' : Logs
    pub changes : change_branch hash f init_id logs ≡ ok logs'
    pub found : branch_log hash init_id logs' ≡ ok y
    pub same : SameEntries logs logs'
    pub back :
        (g : Log → Outcome LogError Log) → g y ≡ ok x → change_branch hash g init_id logs' ≡ ok logs

  pub change_branch-ChangedBranch :
      (f : Log → Outcome LogError Log) (init_id : Text) (logs : Logs) (x y : Log)
      → branch_log hash init_id logs ≡ ok x
      → f x ≡ ok y
      → ChangedBranch f init_id logs x y
  change_branch-ChangedBranch f init_id logs x y h made =
      let (e, found) = branch_log-parent init_id logs x h in
      let r =
        changed_in hash (change_only f) init_id logs (node e (cons x nil)) (node e (cons y nil))
          found (change_only-Changes f e x y made) in
      record {
        logs' = r.logs;
        changes = unfold change_branch in ap lift r.changes;
        found = branch_log-get init_id r.logs e y r.found;
        same = r.same;
        back = λ g k.
            (unfold change_branch in
              ap lift (r.back (change_only g) ((change_only-Changes g e y x k).made)));
      }
