-- ===== src/Workflow/Store.antt =====
-- The in-memory store of workflows (automation/workflow/store.go) with its mutex. A call that locks
-- a locked mutex blocks. The order of the entries stands for the order in which Go walks the map.
pub mod Locking
pub mod Putting
use repo_4636_qri.Prelude.{
  Bool, true, false, Option, none, some, List, [], ◌∷◌, Text, text_eq, is_empty, if◌then◌else◌,
  Outcome, ok, err, panic,
}
use repo_4636_qri.Prelude.Dict.{Pair, lookup, insert}
use repo_4636_qri.Workflow.{
  Workflow, WorkflowError, nil_workflow, not_found, workflow_exists, validate,
}

pub record MemStore : Type 0 where
  pub locked : Bool
  pub workflows : List (Pair Workflow)

abbrev pub new_mem_store : MemStore
new_mem_store = record { locked = false; workflows = [] }

pub data Call (A : Type 0) : Type 0 where
  returns : Outcome WorkflowError A → MemStore → Call A
  blocks : Call A

-- `m.mu.Lock()`
abbrev pub with_lock : {A : Type 0} → MemStore → Call A → Call A
with_lock s c = if s.locked then blocks else c

unfoldable pub get : Text → MemStore → Call Workflow
unfolding lookup
get wid s =
    with_lock s
      (returns (elim (lookup wid s.workflows) [ none ↦ err not_found | some wf ↦ ok wf ]) s)

unfoldable pub find_init : Text → List (Pair Workflow) → Outcome WorkflowError Workflow
find_init init_id [] = err not_found
find_init init_id (p ∷ ps) =
    let rest = find_init init_id ps in if text_eq p.value.init_id init_id then ok p.value else rest

unfoldable pub get_by_init_id : Text → MemStore → Call Workflow
unfolding find_init is_empty
get_by_init_id init_id s =
    if is_empty init_id
    then returns (err not_found) s
    else with_lock s (returns (find_init init_id s.workflows) s)

-- The lines of `Put` from `Validate` on.
unfoldable pub put_valid : Workflow → MemStore → Call Workflow
unfolding validate insert
put_valid w s = elim (validate w) [
  | ok u ↦ with_lock s (returns (ok w) (record s { workflows = insert w.id w s.workflows }))
  | err e ↦ returns (err e) s
  | panic ↦ returns panic s
]

-- `new_id` is what `NewID` returns.
unfoldable pub put : Text → Option Workflow → MemStore → Call Workflow
unfolding get_by_init_id put_valid is_empty
put new_id none s = returns (err nil_workflow) s
put new_id (some w) s =
    if is_empty w.id
    then elim (get_by_init_id w.init_id s) [
      | blocks ↦ blocks
      | returns r s' ↦ elim r [
        | ok found ↦ returns (err workflow_exists) s'
        | err e ↦ put_valid (record w { id = new_id }) s'
        | panic ↦ returns panic s'
      ]
    ]
    else put_valid w s

unfoldable pub delete : Text → List (Pair Workflow) → List (Pair Workflow)
delete id [] = []
delete id (p ∷ ps) = let rest = delete id ps in if text_eq p.key id then ps else p ∷ rest

-- The return for a missing id leaves the mutex locked.
unfoldable pub remove : Text → MemStore → Call (Unit {0})
unfolding lookup delete
remove id s = with_lock s (elim (lookup id s.workflows) [
  | none ↦ returns (err not_found) (record s { locked = true })
  | some wf ↦ returns (ok tt) (record s { workflows = delete id s.workflows })
])
