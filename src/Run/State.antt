-- ===== src/Run/State.antt =====
-- Run states and the events that change them (automation/run/run.go, event/event.go,
-- event/transform.go). Times are Unix nanoseconds. A nil pointer to a time is `none`.
pub mod Steps
use repo_4636_qri.Prelude.{
  ℕ, Bool, true, false, not, Option, none, some, List, [], ◌∷◌, ◌++◌, Text, codes, text_eq,
  is_empty, if◌then◌else◌, ◌-◌, ◌^◌, Outcome, ok, err, panic, ◌>>=◌,
}
use repo_4636_qri.Prelude.Int.{ℤ, pos, negsuc, ltb_ℤ, ◌-ℤ◌}

pub data EventType : Type 0 where
  transform_start transform_stop transform_step_start transform_step_stop transform_step_skip :
      EventType
  transform_print transform_error transform_dataset_preview transform_canceled : EventType
  other_type : Text → EventType

pub record TransformLifecycle : Type 0 where
  pub run_id : Text
  pub step_count : ℤ
  pub status : Text
  pub mode : Text
  pub init_id : Text

pub record TransformStepLifecycle : Type 0 where
  pub name : Text
  pub category : Text
  pub status : Text
  pub mode : Text

-- The payload is an `interface{}`, of which the code asks whether it is one of the two lifecycles.
pub data Payload : Type 0 where
  lifecycle : TransformLifecycle → Payload
  step_lifecycle : TransformStepLifecycle → Payload
  other_payload : Payload

pub record Event : Type 0 where
  pub type : EventType
  pub timestamp : ℤ
  pub profile_id : Text
  pub session_id : Text
  pub payload : Payload

-- The errors of this file and of store.go.
pub data RunError : Type 0 where
  no_id no_workflow_id run_is_nil run_exists empty_id not_found workflow_mismatch : RunError
  unknown_workflow_id missing_run no_step bad_payload unexpected_type bad_limit bad_offset :
      RunError

abbrev pub Status : Type 0
Status = Text

abbrev pub rs_running : Status
rs_running = codes "running"

abbrev pub rs_failed : Status
rs_failed = codes "failed"

abbrev pub rs_skipped : Status
rs_skipped = codes "skipped"

pub record StepState : Type 0 where
  pub name : Text
  pub category : Text
  pub status : Status
  pub start_time : Option ℤ
  pub stop_time : Option ℤ
  pub duration : ℤ
  pub output : List Event

pub record State : Type 0 where
  pub id : Text
  pub workflow_id : Text
  pub number : ℤ
  pub status : Status
  pub message : Text
  pub start_time : Option ℤ
  pub stop_time : Option ℤ
  pub duration : ℤ
  pub steps : List StepState

unfoldable pub new_state : Text → State
new_state run_id = record {
  id = run_id;
  workflow_id = [];
  number = pos 0;
  status = [];
  message = [];
  start_time = none;
  stop_time = none;
  duration = pos 0;
  steps = [];
}

unfoldable pub validate : State → Outcome RunError (Unit {0})
unfolding is_empty
validate rs =
    if is_empty rs.id
    then err no_id
    else if is_empty rs.workflow_id
    then err no_workflow_id
    else ok tt

-- `Time.Sub` returns the largest or the smallest duration where the difference does not fit.
unfoldable pub sub_time : ℤ → ℤ → ℤ
unfolding ◌-ℤ◌
sub_time stop start =
    let d = stop -ℤ start in
    if ltb_ℤ (pos (2 ^ 63 - 1)) d
    then pos (2 ^ 63 - 1)
    else if ltb_ℤ d (negsuc (2 ^ 63 - 1))
    then negsuc (2 ^ 63 - 1)
    else d

-- The duration is set if both times are.
unfoldable pub duration_of : Option ℤ → Option ℤ → ℤ → ℤ
unfolding sub_time
duration_of (some start) (some stop) old = sub_time stop start
duration_of (some start) none old = old
duration_of none stop old = old

unfoldable pub new_step_state_from_event : Event → Outcome RunError StepState
new_step_state_from_event e = elim e.payload [
  | step_lifecycle tsl ↦ ok (record {
    name = tsl.name;
    category = tsl.category;
    status = tsl.status;
    start_time = none;
    stop_time = none;
    duration = pos 0;
    output = [];
  })
  | lifecycle tl ↦ err bad_payload
  | other_payload ↦ err bad_payload
]

-- `lastStep` with a change made to the step.
unfoldable pub change_last_step :
    (StepState → StepState) → List StepState → Outcome RunError (List StepState)
change_last_step f [] = err no_step
change_last_step f (x ∷ []) = ok (f x ∷ [])
change_last_step f (x ∷ y ∷ xs) = change_last_step f (y ∷ xs) >>= λ r. ok (x ∷ r)

-- The assignments to the step of a "step stop" event.
unfoldable pub stop_step : Event → StepState → StepState
unfolding duration_of
stop_step e step = record step {
  stop_time = some e.timestamp;
  status = elim e.payload [
    | step_lifecycle tsl ↦ tsl.status
    | lifecycle tl ↦ rs_failed
    | other_payload ↦ rs_failed
  ];
  duration = duration_of step.start_time (some e.timestamp) step.duration;
}

unfoldable pub append_step_output_log : Event → State → Outcome RunError State
unfolding change_last_step
append_step_output_log e rs =
    change_last_step (λ step. record step { output = step.output ++ e ∷ [] }) rs.steps >>= λ steps.
    ok (record rs { steps = steps })

abbrev pub add_step :
    State → (StepState → StepState) → Outcome RunError StepState → Outcome RunError State
add_step rs f r = r >>= λ s. ok (record rs { steps = rs.steps ++ f s ∷ [] })

-- The cases of the `switch`.
unfoldable pub on_event : EventType → Event → State → Outcome RunError State
unfolding new_step_state_from_event stop_step append_step_output_log duration_of change_last_step
on_event transform_start e rs =
    ok (record rs { status = rs_running; start_time = some e.timestamp })
on_event transform_stop e rs = ok (record rs {
  stop_time = some e.timestamp;
  status = elim e.payload [
    | lifecycle tl ↦ tl.status
    | step_lifecycle tsl ↦ rs.status
    | other_payload ↦ rs.status
  ];
  duration = duration_of rs.start_time (some e.timestamp) rs.duration;
})
on_event transform_step_start e rs =
    add_step rs (λ s. record s { status = rs_running; start_time = some e.timestamp })
      (new_step_state_from_event e)
on_event transform_step_stop e rs =
    change_last_step (stop_step e) rs.steps >>= λ steps. ok (record rs { steps = steps })
on_event transform_step_skip e rs =
    add_step rs (λ s. record s { status = rs_skipped }) (new_step_state_from_event e)
on_event transform_print e rs = append_step_output_log e rs
on_event transform_error e rs = append_step_output_log e rs
on_event transform_dataset_preview e rs = append_step_output_log e rs
on_event transform_canceled e rs = ok rs
on_event (other_type t) e rs = err unexpected_type

-- `AddTransformEvent`: an event of another session changes nothing.
unfoldable pub add_transform_event : Event → State → Outcome RunError State
unfolding on_event
add_transform_event e rs = if text_eq rs.id e.session_id then on_event e.type e rs else ok rs
