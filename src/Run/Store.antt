-- ===== src/Run/Store.antt =====
-- The in-memory store of runs (automation/run/store.go). The two maps are the state; a stored run
-- is a value, so that changing a run outside the store does not change the store.
pub mod Sound
pub mod Creating
pub mod Adding
pub mod Listing
use repo_4636_qri.Prelude.{
  ℕ, zero, suc, ◌+◌, ◌-◌, Bool, true, false, not, ◌&&◌, ◌||◌, Option, none, some, List, [], ◌∷◌,
  ◌++◌, Text, text_eq, is_empty, if◌then◌else◌, ltb, leb, length, take, drop, get_elem?, Outcome,
  ok, err, panic, ◌>>=◌,
}
use mathlib.Core.List.{reverse}
use repo_4636_qri.Prelude.Int.{ℤ, pos, negsuc, ltb_ℤ, pos_part, ◌+ℤ◌}
use repo_4636_qri.Prelude.Dict.{Pair, lookup, insert}
use repo_4636_qri.Params.{
  ListParams, is_all, validate_list, limit_out_of_bounds, offset_out_of_bounds, no_error,
}
use repo_4636_qri.Run.State.{
  Event, RunError, State, Status, validate, add_transform_event, run_is_nil, run_exists, empty_id,
  not_found, workflow_mismatch, unknown_workflow_id, missing_run, bad_limit, bad_offset,
}

pub record WorkflowMeta : Type 0 where
  pub count : ℕ
  pub run_ids : List Text

abbrev pub new_workflow_meta : WorkflowMeta
new_workflow_meta = record { count = 0; run_ids = [] }

pub record MemStore : Type 0 where
  pub workflows : List (Pair WorkflowMeta)
  pub runs : List (Pair State)

abbrev pub new_mem_store : MemStore
new_mem_store = record { workflows = []; runs = [] }

unfoldable pub get : Text → MemStore → Outcome RunError State
unfolding lookup
get id s = elim (lookup id s.runs) [ none ↦ err not_found | some r ↦ ok r ]

abbrev pub meta_of : Text → MemStore → WorkflowMeta
meta_of wid s = elim (lookup wid s.workflows) [ none ↦ new_workflow_meta | some m ↦ m ]

-- The lines of `Create` behind its checks.
unfoldable pub add_run : State → MemStore → MemStore
unfolding lookup insert
add_run run s =
    let wfm = meta_of run.workflow_id s in
    record {
      workflows =
          insert run.workflow_id
            (record { count = wfm.count + 1; run_ids = wfm.run_ids ++ run.id ∷ [] }) s.workflows;
      runs = insert run.id run s.runs;
    }

-- `new_id` is what `NewID` returns.
abbrev pub with_id : Text → State → State
with_id new_id r = if is_empty r.id then record r { id = new_id } else r

unfoldable pub create : Text → Option State → MemStore → Outcome RunError (MemStore × State)
unfolding get validate add_run is_empty
create new_id none s = err run_is_nil
create new_id (some r) s =
    let run = with_id new_id r in
    elim (get run.id s) [
      | ok found ↦ err run_exists
      | err e ↦ (validate run >>= λ u. ok (add_run run s, run))
      | panic ↦ panic
    ]

unfoldable pub put : Option State → MemStore → Outcome RunError (MemStore × State)
unfolding get validate insert is_empty
put none s = err run_is_nil
put (some run) s = if is_empty run.id then err empty_id else elim (get run.id s) [
  | ok fetched ↦
      if not (text_eq fetched.workflow_id run.workflow_id)
      then err workflow_mismatch
      else (validate run >>= λ u. ok (record s { runs = insert run.id run s.runs }, run))
  | err e ↦ err not_found
  | panic ↦ panic
]

unfoldable pub count : Text → MemStore → Outcome RunError ℕ
unfolding lookup
count wid s = elim (lookup wid s.workflows) [ none ↦ err unknown_workflow_id | some m ↦ ok m.count ]

-- The loop of `List` over the run ids, of which the last comes first.
unfoldable pub fetch_runs : List Text → MemStore → Outcome RunError (List State)
unfolding lookup
fetch_runs [] s = ok []
fetch_runs (id ∷ ids) s =
    let rest = fetch_runs ids s in
    elim (lookup id s.runs) [ none ↦ err missing_run | some r ↦ (rest >>= λ rs. ok (r ∷ rs)) ]

-- `runs[start:end]`, which panics if `end` is before `start`.
unfoldable pub slice_runs : ListParams → List State → Outcome RunError (List State)
unfolding ◌+ℤ◌ is_all
slice_runs lp runs =
    if not (ltb_ℤ lp.offset (pos (length runs)))
    then ok []
    else let sum = lp.offset +ℤ lp.limit in
      let end = if ltb_ℤ (pos (length runs)) sum || is_all lp then pos (length runs) else sum in
      if ltb_ℤ end lp.offset
      then panic
      else ok (take (pos_part end - pos_part lp.offset) (drop (pos_part lp.offset) runs))

-- `MemStore.List`
unfoldable pub list_runs : Text → ListParams → MemStore → Outcome RunError (List State)
unfolding validate_list lookup fetch_runs slice_runs
list_runs wid lp s = elim (validate_list lp) [
  | limit_out_of_bounds ↦ err bad_limit
  | offset_out_of_bounds ↦ err bad_offset
  | no_error ↦ elim (lookup wid s.workflows) [
    | none ↦ err unknown_workflow_id
    | some m ↦ (fetch_runs (reverse m.run_ids) s >>= slice_runs lp)
  ]
]

abbrev pub last_id : List Text → Option Text
last_id [] = none
last_id (i ∷ []) = some i
last_id (i ∷ j ∷ ids) = last_id (j ∷ ids)

unfoldable pub get_latest : Text → MemStore → Outcome RunError State
unfolding lookup
get_latest wid s = elim (lookup wid s.workflows) [
  | none ↦ err unknown_workflow_id
  | some m ↦ elim (last_id m.run_ids) [
    | none ↦ panic
    | some i ↦ elim (lookup i s.runs) [ none ↦ err missing_run | some r ↦ ok r ]
  ]
]

unfoldable pub get_status : Text → MemStore → Outcome RunError Status
unfolding get_latest
get_status wid s = get_latest wid s >>= λ r. ok r.status

unfoldable pub add_event : Text → Event → MemStore → Outcome RunError MemStore
unfolding lookup insert add_transform_event
add_event id e s = elim (lookup id s.runs) [
  | none ↦ err not_found
  | some r ↦ (add_transform_event e r >>= λ r'. ok (record s { runs = insert id r' s.runs }))
]
