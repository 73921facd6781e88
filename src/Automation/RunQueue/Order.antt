-- ===== src/Automation/RunQueue/Order.antt =====
-- Runs leave the queue in the order in which they came, and each of them leaves it.
use repo_4636_qri.Prelude.{
  ℕ, suc, ◌≤◌, ◌≡◌, refl, sym, ap, ◌∙◌, some, List, [], ◌∷◌, ◌++◌, length, get_elem?, arith,
}
use mathlib.Core.List.{append_assoc, append-nil}
use repo_4636_qri.Automation.RunQueue.{
  RunQueueInfo, Queue, push, pop, Action, pushes, pops, after_actions,
}

module _ {F : Type 0} where
  -- The runs that a sequence pushes, and the number of its pops.
  unfoldable pub pushed : List (Action F) → Queue F
  pushed [] = []
  pushed (pushes i ∷ acts) = i ∷ pushed acts
  pushed (pops ∷ acts) = pushed acts

  unfoldable pub pop_count : List (Action F) → ℕ
  pop_count [] = 0
  pop_count (pushes i ∷ acts) = pop_count acts
  pop_count (pops ∷ acts) = suc (pop_count acts)

  -- What has left the queue, followed by what is in it, is what was in it, followed by what came.
  pub after_actions-order :
      (acts : List (Action F)) (queue : Queue F)
      → (after_actions F acts queue).0 ++ (after_actions F acts queue).1 ≡ queue ++ pushed acts
  unfolding after_actions pushed push pop
  after_actions-order [] queue = sym (append-nil queue)
  after_actions-order (pushes i ∷ acts) queue =
      after_actions-order acts (queue ++ i ∷ []) ∙ append_assoc queue (i ∷ []) (pushed acts)
  after_actions-order (pops ∷ acts) [] = after_actions-order acts []
  after_actions-order (pops ∷ acts) (i ∷ queue) = ap (λ r. i ∷ r) (after_actions-order acts queue)

  -- A run with `n` runs before it is the result of pop number `n + 1`, counted from 1, in every
  -- sequence with that many pops, whatever is pushed between them.
  pub after_actions-served :
      (acts : List (Action F)) (before : Queue F) (i : RunQueueInfo F) (behind : Queue F)
      → suc (length before) ≤ pop_count acts
      → get_elem? (after_actions F acts (before ++ i ∷ behind)).0 (length before) ≡ some i
  unfolding after_actions pop_count push pop
  after_actions-served [] before i behind h = absurd (omega arith)
  after_actions-served (pushes j ∷ acts) before i behind h =
      ap (λ q. get_elem? (after_actions F acts q).0 (length before))
        (append_assoc before (i ∷ behind) (j ∷ []))
      ∙ after_actions-served acts before i (behind ++ j ∷ []) h
  after_actions-served (pops ∷ acts) [] i behind h = refl
  after_actions-served (pops ∷ acts) (b ∷ before) i behind h =
      after_actions-served acts before i behind (omega arith)
