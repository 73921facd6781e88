-- ===== src/Automation/Examples.antt =====
-- A short queue of runs and a set of triggers.
use repo_4636_qri.Prelude.{
  ℕ, ◌≡◌, refl, none, some, false, true, List, [], ◌∷◌, ◌++◌, codes, get_elem?, arith, Text, Option,
  is_empty, ok,
}
use repo_4636_qri.Prelude.{text_eq}
use repo_4636_qri.Prelude.Dict.{lookup}
use repo_4636_qri.Automation.TriggerSet.{
  Active, Source, construct_all, add_source, exists, same_triggers,
}
use repo_4636_qri.Automation.TriggerSet.Finding.{exists-add_source}
use repo_4636_qri.Automation.RunQueue.{
  RunQueueInfo, Queue, Action, pushes, pops, after_actions, Cancels, has_run, add_run_cancel,
  remove_run_cancel, receive_cancelation,
}
use repo_4636_qri.Automation.RunQueue.Order.{
  pushed, pop_count, after_actions-order, after_actions-served,
}
use repo_4636_qri.Automation.RunQueue.Blocking.{stay, receive_cancelation-blocks}

-- Runs whose functions are numbers.
abbrev run : ℕ → RunQueueInfo ℕ
run n = record { owner_id = codes "QmB"; run_id = n ∷ []; mode = codes "run"; f = n }

abbrev actions : List (Action ℕ)
actions = pops ∷ pushes (run 3) ∷ pops ∷ pops ∷ pops ∷ []

abbrev waiting : Queue ℕ
waiting = run 1 ∷ run 2 ∷ []

after_actions-order_example :
    (after_actions ℕ actions waiting).0 ++ (after_actions ℕ actions waiting).1
    ≡ run 1 ∷ run 2 ∷ run 3 ∷ []
unfolding pushed
after_actions-order_example = after_actions-order actions waiting

after_actions-served_example : get_elem? (after_actions ℕ actions waiting).0 1 ≡ some (run 2)
after_actions-served_example =
    after_actions-served actions (run 1 ∷ []) (run 2) [] (unfold pop_count in omega arith)

abbrev no_cancels : Cancels
no_cancels = record { runs = []; held = false; called = [] }

unknown_run : has_run (codes "r1") [] ≡ false
unfolding has_run
unknown_run = refl

left_held :
    receive_cancelation (codes "r1") no_cancels
    ≡ some (record { runs = []; held = true; called = [] })
unfolding receive_cancelation
left_held = refl

receive_cancelation-blocks_example :
    (add_run_cancel (codes "r2") (record { runs = []; held = true; called = [] }) ≡ none)
    × (remove_run_cancel (codes "r2") (record { runs = []; held = true; called = [] }) ≡ none)
    × (receive_cancelation (codes "r2") (record { runs = []; held = true; called = [] }) ≡ none)
receive_cancelation-blocks_example =
    receive_cancelation-blocks (codes "r1") (codes "r2") no_cancels
      (record { runs = []; held = true; called = [] })
      (record { runs = []; held = true; called = [] }) unknown_run left_held stay

-- A trigger has the id of its options, or the one that is drawn where they have none.
abbrev make : Text → Text → Option Text
make [] d = some d
make (c ∷ t) d = some (c ∷ t)

abbrev source : Source Text make
source = record {
  workflow_id = codes "w";
  owner = codes "QmB";
  active_triggers = codes "t1" ∷ codes "t2" ∷ [];
}

has_workflow : is_empty (codes "w") ≡ false
unfolding is_empty
has_workflow = refl

has_owner : is_empty (codes "QmB") ≡ false
unfolding is_empty
has_owner = refl

-- What is drawn in `Add`, and in `Exists`.
abbrev draw : ℕ → Text
draw n = 1 ∷ n ∷ []

abbrev redraw : ℕ → Text
redraw n = 2 ∷ n ∷ []

triggers_made :
    construct_all Text make draw 0 source.active_triggers ≡ ok (codes "t1" ∷ codes "t2" ∷ [])
unfolding construct_all
triggers_made = refl

exists-add_source_example :
    (active' : Active) × (add_source Text make draw 0 source [] ≡ ok active')
    × (exists Text make redraw source active' ≡ true)
exists-add_source_example =
    exists-add_source make draw redraw 0 source [] (codes "t1" ∷ codes "t2" ∷ []) has_workflow
      has_owner (omega arith) ((λ d d'. refl), ((λ d d'. refl), tt)) triggers_made

-- A source whose options name no id does not exist in the set to which it was added.
abbrev unnamed : Source Text make
unnamed = record source { active_triggers = [] ∷ [] }

drawn_again :
    exists Text make redraw unnamed (
      record { key = codes "QmB"; value = record { key = codes "w"; value = draw 0 ∷ [] } ∷ [] }
      ∷ [])
    ≡ false
unfolding exists lookup same_triggers text_eq
drawn_again = refl
