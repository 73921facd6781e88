-- ===== src/Logbook/History/Refines.antt =====
-- `branchToVersionInfos` implements the stack of versions.
use repo_4636_qri.Prelude.{
  ℕ, ◌≡◌, refl, ap, ◌∙◌, Bool, true, false, some, List, [], ◌∷◌, ◌++◌, Outcome, ok, err, panic,
  ◌>>=◌, arith, Bool-cases, inl, inr, ◌⊎◌,
}
use mathlib.Core.List.{reverse, reverse-cons, append-nil, reverse-reverse}
use repo_4636_qri.Dsref.Ref.{Ref}
use repo_4636_qri.Oplog.Op.{Op}
use repo_4636_qri.Oplog.Log.{LogError}
use repo_4636_qri.Logbook.Models.{commit_model, push_model}
use repo_4636_qri.Logbook.History.{
  commit_init, with_refs, collapse_commit, collapse_push, last_of, set_last, publish_loop, Collapse,
  joins_run, commit_op_run_id, version_info_from_op, run_item_from_op, collapse_op, collapse_ops,
  finish_collapse, branch_to_version_infos,
}
use repo_4636_qri.Logbook.History.Stack.{Versions, save, amend, pop, mark, stack_op, stack_ops}
use repo_4636_qri.Logbook.History.Slices.{
  last_of-snoc, set_last-snoc, cut_last-reverse, publish_loop-mark,
}

commit_init-reverse :
    (ref : Ref) (op : Op) (vs : Versions)
    → commit_init ref op (last_of (reverse vs)) (reverse vs) ≡ ok (reverse (save ref op vs))
commit_init-reverse ref op [] = unfold commit_init save last_of in refl
commit_init-reverse ref op (v ∷ vs) =
    rw (reverse-cons, last_of-snoc)
      (commit_init-snoc (Bool-cases (joins_run (commit_op_run_id op) (some v))))
  where
    commit_init-snoc :
        (joins_run (commit_op_run_id op) (some v) ≡ true)
          ⊎ (joins_run (commit_op_run_id op) (some v) ≡ false)
        → commit_init ref op (some v) (reverse vs ++ v ∷ []) ≡ ok (reverse (save ref op (v ∷ vs)))
    commit_init-snoc (inl e) = unfold commit_init save in rw (e, set_last-snoc, reverse-cons) refl
    commit_init-snoc (inr e) = unfold commit_init save in rw (e, reverse-cons, reverse-cons) refl

set_last-reverse :
    (ref : Ref) (op : Op) (vs : Versions)
    → set_last (reverse vs) (version_info_from_op ref op)
      ≡ (amend ref op vs >>= λ r. ok (reverse r))
set_last-reverse ref op [] = unfold set_last amend in refl
set_last-reverse ref op (v ∷ vs) =
    unfold amend in rw (reverse-cons, set_last-snoc, reverse-cons) refl

-- The loop's variables for a stack.
abbrev at_stack : Versions → Collapse
at_stack vs = record { refs = reverse vs; delete_at_end = 0 }

with_refs-reverse :
    (s : Collapse) (m : Outcome LogError Versions)
    → s.delete_at_end ≡ 0
    → with_refs s (m >>= λ r. ok (reverse r)) ≡ (m >>= λ r. ok (at_stack r))
with_refs-reverse s (ok r) h = rw h refl
with_refs-reverse s (err e) h = refl
with_refs-reverse s panic h = refl

nil_right :
    (m : Outcome LogError Versions)
    → (m >>= λ r. ok (reverse r ++ [])) ≡ (m >>= λ r. ok (reverse r))
nil_right (ok r) = ap ok (append-nil (reverse r))
nil_right (err e) = refl
nil_right panic = refl

publish_loop-reverse :
    (b : Bool) (n : ℕ) (vs : Versions)
    → publish_loop b n 1 (reverse vs) ≡ (mark b n vs >>= λ r. ok (reverse r))
publish_loop-reverse b n vs =
    rw (← append-nil (reverse vs)) (publish_loop-mark b n vs [] ∙ nil_right (mark b n vs))

collapse_commit-stack :
    (ref : Ref) (op : Op) (vs : Versions)
    → op.model ≡ commit_model
    → collapse_commit true ref op (at_stack vs) ≡ (stack_op ref op vs >>= λ r. ok (at_stack r))
unfolding collapse_commit stack_op
collapse_commit-stack ref op vs h = ground (
  arith,
  commit_init-reverse ref op vs,
  set_last-reverse ref op vs,
  cut_last-reverse op.size vs,
  with_refs-reverse (at_stack vs) (amend ref op vs) refl,
  with_refs-reverse (at_stack vs) (pop op.size vs) refl,
)

collapse_push-stack :
    (ref : Ref) (op : Op) (vs : Versions)
    → op.model ≡ push_model
    → collapse_push op (at_stack vs) ≡ (stack_op ref op vs >>= λ r. ok (at_stack r))
unfolding collapse_push stack_op
collapse_push-stack ref op vs h = ground (
  arith,
  publish_loop-reverse true op.size vs,
  publish_loop-reverse false op.size vs,
  with_refs-reverse (at_stack vs) (mark true op.size vs) refl,
  with_refs-reverse (at_stack vs) (mark false op.size vs) refl,
)

collapse_op-stack :
    (ref : Ref) (op : Op) (vs : Versions)
    → collapse_op true ref op (at_stack vs) ≡ (stack_op ref op vs >>= λ r. ok (at_stack r))
unfolding collapse_op stack_op
collapse_op-stack ref op vs = ground (
  arith,
  collapse_commit-stack ref op vs,
  collapse_push-stack ref op vs,
  reverse-cons (run_item_from_op ref op) vs,
)

collapse_ops-stack :
    (ref : Ref) (ops : List Op) (vs : Versions)
    → collapse_ops true ref ops (at_stack vs) ≡ (stack_ops ref ops vs >>= λ r. ok (at_stack r))
unfolding collapse_ops stack_ops
collapse_ops-stack ref [] vs = refl
collapse_ops-stack ref (op ∷ ops) vs =
    rw (collapse_op-stack ref op vs) (next (stack_op ref op vs) (collapse_ops-stack ref ops))
  where
    next :
        (m : Outcome LogError Versions)
        → ((r : Versions)
            → collapse_ops true ref ops (at_stack r)
              ≡ (stack_ops ref ops r >>= λ r. ok (at_stack r)))
        → ((m >>= λ r. ok (at_stack r)) >>= collapse_ops true ref ops)
          ≡ ((m >>= stack_ops ref ops) >>= λ r. ok (at_stack r))
    next (ok r) ih = ih r
    next (err e) ih = refl
    next panic ih = refl

pub branch_to_version_infos-stack :
    (ref : Ref) (ops : List Op) → branch_to_version_infos true ref ops ≡ stack_ops ref ops []
unfolding branch_to_version_infos finish_collapse
branch_to_version_infos-stack ref ops =
    rw (collapse_ops-stack ref ops []) (unstack (stack_ops ref ops []))
  where
    unstack :
        (m : Outcome LogError Versions)
        → ((m >>= λ r. ok (at_stack r)) >>= λ s. ok (finish_collapse s)) ≡ m
    unstack (ok r) = ap ok (reverse-reverse r)
    unstack (err e) = refl
    unstack panic = refl
