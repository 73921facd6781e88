-- ===== src/Logbook/Book/Commits/Counting.antt =====
-- The count of commits that `WriteVersionSave` publishes, against the list of versions.
use repo_4636_qri.Prelude.{
  ℕ, zero, suc, ◌≡◌, refl, sym, subst, ◌∙◌, Bool, true, false, some, List, [], ◌∷◌, Text,
  if◌then◌else◌, ◌==◌, is_empty, text_eq, length, Outcome, ok, err, panic, ◌>>=◌, arith,
}
use repo_4636_qri.Prelude.Int.{ℤ, pos, ◌+ℤ◌, ◌-ℤ◌}
use repo_4636_qri.Dsref.Ref.{Ref}
use repo_4636_qri.Dsref.VersionInfo.{VersionInfo}
use repo_4636_qri.Oplog.Op.{Op, op_type_init, op_type_remove}
use repo_4636_qri.Oplog.Log.{LogError}
use repo_4636_qri.Logbook.Models.{commit_model, run_model}
use repo_4636_qri.Logbook.History.{
  publish, joins_run, commit_op_run_id, version_info_from_op, branch_to_version_infos,
}
use repo_4636_qri.Logbook.History.Stack.{Versions, save, amend, pop, mark, stack_op, stack_ops}
use repo_4636_qri.Logbook.History.Refines.{branch_to_version_infos-stack}
use repo_4636_qri.Logbook.Book.Commits.{commit_count}

-- No operation of the branch is a run.
abbrev pub NoRuns : List Op → Type 0
NoRuns [] = Unit
NoRuns (op ∷ ops) = ((op.model == run_model) ≡ false) × NoRuns ops

abbrev pub NoRunIds : Versions → Type 0
NoRunIds [] = Unit
NoRunIds (v ∷ vs) = (v.run_id ≡ []) × NoRunIds vs

-- If versions are returned, they are `n`, and none is of a run.
abbrev pub Counted : ℤ → Outcome LogError Versions → Type 0
Counted n (ok vs) = (n ≡ pos (length vs)) × NoRunIds vs
Counted n (err e) = Unit
Counted n panic = Unit

pub next_count : ℤ → Op → ℤ
next_count n op =
    if op.model == commit_model
    then (if op.type == op_type_init
        then n +ℤ pos 1
        else if op.type == op_type_remove
        then n -ℤ pos op.size
        else n)
    else n

commit_count-cons :
    (n : ℤ) (op : Op) (ops : List Op)
    → commit_count n (op ∷ ops) ≡ commit_count (next_count n op) ops
unfolding commit_count next_count
commit_count-cons n op ops = ground arith

pub joins_run-none : (t : Text) (v : VersionInfo) → v.run_id ≡ [] → joins_run t (some v) ≡ false
unfolding joins_run is_empty text_eq
joins_run-none [] v h = refl
joins_run-none (c ∷ t) v h = rw h refl

save-Counted :
    (ref : Ref) (op : Op) (vs : Versions)
    → NoRunIds vs
    → Counted (pos (length vs) +ℤ pos 1) (ok (save ref op vs))
save-Counted ref op [] h = unfold save ◌+ℤ◌ version_info_from_op in (refl, (refl, tt))
save-Counted ref op (v ∷ vs) h =
    unfold save ◌+ℤ◌ version_info_from_op in
    rw (joins_run-none (commit_op_run_id op) v h.0) (ground arith, (refl, h))

amend-Counted :
    (ref : Ref) (op : Op) (vs : Versions)
    → NoRunIds vs
    → Counted (pos (length vs)) (amend ref op vs)
unfolding amend version_info_from_op
amend-Counted ref op [] h = tt
amend-Counted ref op (v ∷ vs) h = (refl, (refl, h.1))

pop-Counted : (n : ℕ) (vs : Versions) → NoRunIds vs → Counted (pos (length vs) -ℤ pos n) (pop n vs)
unfolding pop
pop-Counted zero vs h = ((unfold ◌-ℤ◌ in ground arith), h)
pop-Counted (suc n) [] h = tt
pop-Counted (suc n) (v ∷ vs) h =
    subst (λ z. Counted z (pop n vs)) (one_less n (length vs)) (pop-Counted n vs h.1)
  where
    one_less : (n m : ℕ) → pos m -ℤ pos n ≡ pos (suc m) -ℤ pos (suc n)
    one_less n m = unfold ◌-ℤ◌ in ground arith

mark-Counted :
    (b : Bool) (n : ℕ) (vs : Versions) → NoRunIds vs → Counted (pos (length vs)) (mark b n vs)
unfolding mark
mark-Counted b zero vs h = (refl, h)
mark-Counted b (suc n) [] h = tt
mark-Counted b (suc n) (v ∷ vs) h = next (mark b n vs) (mark-Counted b n vs h.1)
  where
    next :
        (m : Outcome LogError Versions)
        → Counted (pos (length vs)) m
        → Counted (pos (suc (length vs))) (m >>= λ r. ok (publish b v ∷ r))
    next (ok r) c = ((ground (arith, c.0)), (h.0, c.1))
    next (err e) c = tt
    next panic c = tt

pub stack_op-Counted :
    (ref : Ref) (op : Op) (vs : Versions)
    → (op.model == run_model) ≡ false
    → NoRunIds vs
    → Counted (next_count (pos (length vs)) op) (stack_op ref op vs)
unfolding next_count stack_op
stack_op-Counted ref op vs r h = ground (
  arith,
  save-Counted ref op vs h,
  amend-Counted ref op vs h,
  pop-Counted op.size vs h,
  mark-Counted true op.size vs h,
  mark-Counted false op.size vs h,
)

stack_ops-Counted :
    (ref : Ref) (ops : List Op) (vs : Versions)
    → NoRuns ops
    → NoRunIds vs
    → Counted (commit_count (pos (length vs)) ops) (stack_ops ref ops vs)
stack_ops-Counted ref [] vs r h = unfold stack_ops commit_count in (refl, h)
stack_ops-Counted ref (op ∷ ops) vs r h = stack_ops-Counted_cons ref op ops vs (
    next (next_count (pos (length vs)) op) (stack_op ref op vs) (stack_op-Counted ref op vs r.0 h)
      (λ ws. stack_ops-Counted ref ops ws r.1))
  where
    next :
        (n : ℤ) (m : Outcome LogError Versions)
        → Counted n m
        → ((ws : Versions)
            → NoRunIds ws
            → Counted (commit_count (pos (length ws)) ops) (stack_ops ref ops ws))
        → Counted (commit_count n ops) (m >>= stack_ops ref ops)
    next n (ok ws) (e, g) ih =
        subst (λ k. Counted (commit_count k ops) (stack_ops ref ops ws)) (sym e) (ih ws g)
    next n (err e) c ih = tt
    next n panic c ih = tt

    stack_ops-Counted_cons :
        (ref : Ref) (op : Op) (ops : List Op) (vs : Versions)
        → Counted
            (commit_count (next_count (pos (length vs)) op) ops)
            (stack_op ref op vs >>= stack_ops ref ops)
        → Counted (commit_count (pos (length vs)) (op ∷ ops)) (stack_ops ref (op ∷ ops) vs)
    stack_ops-Counted_cons ref op ops vs c =
        unfold stack_ops in
        subst (λ n. Counted n (stack_op ref op vs >>= stack_ops ref ops))
          (sym (commit_count-cons (pos (length vs)) op ops)) c

-- For a branch without runs, if `branchToVersionInfos` with every delete collapsed returns the
-- versions, the count of commits that a save publishes is their number.
pub commit_count-length :
    (ref : Ref) (ops : List Op) (vs : Versions)
    → NoRuns ops
    → branch_to_version_infos true ref ops ≡ ok vs
    → commit_count (pos 0) ops ≡ pos (length vs)
commit_count-length ref ops vs r h =
    (subst (Counted (commit_count (pos 0) ops)) (sym (branch_to_version_infos-stack ref ops) ∙ h)
      (stack_ops-Counted ref ops [] r tt)).0
