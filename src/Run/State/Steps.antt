-- ===== src/Run/State/Steps.antt =====
-- What a sequence of events makes of a run state: whole steps, and the fields that no event changes.
use repo_4636_qri.Prelude.{
  ◌≡◌, refl, sym, ap, ◌∙◌, inl, inr, Bool-cases, some, none, List, [], ◌∷◌, ◌++◌, Text, text_eq,
  text_eq_refl, Outcome, ok, err, panic, ◌>>=◌,
}
use mathlib.Core.List.{append_assoc, append-nil}
use repo_4636_qri.Prelude.Int.{pos}
use repo_4636_qri.Run.State.{
  Event, EventType, step_lifecycle, transform_start, transform_stop, transform_step_start,
  transform_step_stop, transform_step_skip, transform_print, transform_error,
  transform_dataset_preview, transform_canceled, other_type, TransformStepLifecycle, RunError,
  State, StepState, rs_running, sub_time, duration_of, change_last_step, stop_step,
  append_step_output_log, new_step_state_from_event, add_step, on_event, add_transform_event,
}

pub add_events : List Event → State → Outcome RunError State
add_events [] rs = ok rs
add_events (e ∷ es) rs = add_transform_event e rs >>= add_events es

-- The state that is returned, if any is, is of the same run and workflow.
abbrev pub SameRun : State → Outcome RunError State → Type 0
SameRun rs (ok r) = (r.id ≡ rs.id) × (r.workflow_id ≡ rs.workflow_id)
SameRun rs (err e) = Unit
SameRun rs panic = Unit

with_steps-SameRun :
    (rs : State) (m : Outcome RunError (List StepState))
    → SameRun rs (m >>= λ steps. ok (record rs { steps = steps }))
with_steps-SameRun rs (ok steps) = (refl, refl)
with_steps-SameRun rs (err e) = tt
with_steps-SameRun rs panic = tt

add_step-SameRun :
    (rs : State) (f : StepState → StepState) (m : Outcome RunError StepState)
    → SameRun rs (add_step rs f m)
add_step-SameRun rs f (ok s) = (refl, refl)
add_step-SameRun rs f (err e) = tt
add_step-SameRun rs f panic = tt

on_event-SameRun : (t : EventType) (e : Event) (rs : State) → SameRun rs (on_event t e rs)
unfolding on_event append_step_output_log
on_event-SameRun transform_start e rs = (refl, refl)
on_event-SameRun transform_stop e rs = (refl, refl)
on_event-SameRun transform_step_start e rs =
    add_step-SameRun rs (λ s. record s { status = rs_running; start_time = some e.timestamp })
      (new_step_state_from_event e)
on_event-SameRun transform_step_stop e rs =
    with_steps-SameRun rs (change_last_step (stop_step e) rs.steps)
on_event-SameRun transform_step_skip e rs = add_step-SameRun rs _ (new_step_state_from_event e)
on_event-SameRun transform_print e rs = with_steps-SameRun rs _
on_event-SameRun transform_error e rs = with_steps-SameRun rs _
on_event-SameRun transform_dataset_preview e rs = with_steps-SameRun rs _
on_event-SameRun transform_canceled e rs = (refl, refl)
on_event-SameRun (other_type t) e rs = tt

pub add_transform_event-SameRun : (e : Event) (rs : State) → SameRun rs (add_transform_event e rs)
unfolding add_transform_event
add_transform_event-SameRun e rs = elim (Bool-cases (text_eq rs.id e.session_id)) [
  | inl same ↦ rw same (on_event-SameRun e.type e rs)
  | inr other ↦ rw other (refl, refl)
]

change_last_step-snoc :
    (f : StepState → StepState) (xs : List StepState) (x : StepState)
    → change_last_step f (xs ++ x ∷ []) ≡ ok (xs ++ f x ∷ [])
unfolding change_last_step
change_last_step-snoc f [] x = refl
change_last_step-snoc f (y ∷ []) x = refl
change_last_step-snoc f (y ∷ z ∷ xs) x = rw (change_last_step-snoc f (z ∷ xs) x) refl

-- The event prints: it is a message, an error or a preview of the run.
pub data IsOutput (id : Text) (e : Event) : Type 0 where
  prints : e.session_id ≡ id → e.type ≡ transform_print → IsOutput id e
  errors : e.session_id ≡ id → e.type ≡ transform_error → IsOutput id e
  previews : e.session_id ≡ id → e.type ≡ transform_dataset_preview → IsOutput id e

abbrev pub AllOutput : Text → List Event → Type 0
AllOutput id [] = Unit
AllOutput id (e ∷ es) = IsOutput id e × AllOutput id es

own_event :
    (e : Event) (rs : State)
    → e.session_id ≡ rs.id
    → add_transform_event e rs ≡ on_event e.type e rs
unfolding add_transform_event
own_event e rs h = rw (h, text_eq_refl rs.id) refl

abbrev with_output : StepState → List Event → StepState
with_output step out = record step { output = step.output ++ out }

output-last :
    (e : Event) (rs : State) (xs : List StepState) (x : StepState)
    → rs.steps ≡ xs ++ x ∷ []
    → append_step_output_log e rs ≡ ok (record rs { steps = xs ++ with_output x (e ∷ []) ∷ [] })
unfolding append_step_output_log
output-last e rs xs x h = rw (h, change_last_step-snoc) refl

add_output :
    (e : Event) (rs : State) (xs : List StepState) (x : StepState)
    → IsOutput rs.id e
    → rs.steps ≡ xs ++ x ∷ []
    → add_transform_event e rs ≡ ok (record rs { steps = xs ++ with_output x (e ∷ []) ∷ [] })
add_output e rs xs x (prints s t) h =
    own_event e rs s ∙ ap (λ y. on_event y e rs) t ∙ (unfold on_event in output-last e rs xs x h)
add_output e rs xs x (errors s t) h =
    own_event e rs s ∙ ap (λ y. on_event y e rs) t ∙ (unfold on_event in output-last e rs xs x h)
add_output e rs xs x (previews s t) h =
    own_event e rs s ∙ ap (λ y. on_event y e rs) t ∙ (unfold on_event in output-last e rs xs x h)

-- The state with these steps, of which the last is open.
abbrev open_step : State → List StepState → StepState → State
open_step rs xs x = record rs { steps = xs ++ x ∷ [] }

add_outputs :
    (rs : State) (xs : List StepState) (x : StepState) (es rest : List Event)
    → AllOutput rs.id es
    → add_events (es ++ rest) (open_step rs xs x)
      ≡ add_events rest (open_step rs xs (with_output x es))
unfolding add_events
add_outputs rs xs x [] rest h =
    ap (λ o. add_events rest (open_step rs xs (record x { output = o })))
      (sym (append-nil x.output))
add_outputs rs xs x (e ∷ es) rest (o, h) = rw (add_output e (open_step rs xs x) xs x o refl) (
    add_outputs rs xs (with_output x (e ∷ [])) es rest h
    ∙ ap (λ o. add_events rest (open_step rs xs (record x { output = o })))
        (append_assoc x.output (e ∷ []) es))

-- The step that a start, some output and a stop leave.
abbrev pub finished :
    Event → TransformStepLifecycle → List Event → Event → TransformStepLifecycle → StepState
finished start a out stop b = record {
  name = a.name;
  category = a.category;
  status = b.status;
  start_time = some start.timestamp;
  stop_time = some stop.timestamp;
  duration = sub_time stop.timestamp start.timestamp;
  output = out;
}

abbrev started : Event → TransformStepLifecycle → StepState
started e a = record {
  name = a.name;
  category = a.category;
  status = rs_running;
  start_time = some e.timestamp;
  stop_time = none;
  duration = pos 0;
  output = [];
}

start_event :
    (e : Event) (a : TransformStepLifecycle) (rs : State)
    → e.session_id ≡ rs.id
    → e.type ≡ transform_step_start
    → e.payload ≡ step_lifecycle a
    → add_transform_event e rs ≡ ok (open_step rs rs.steps (started e a))
start_event e a rs s t p =
    own_event e rs s
    ∙ ap (λ y. on_event y e rs) t
    ∙ (unfold on_event in
        ap (add_step rs (λ s. record s { status = rs_running; start_time = some e.timestamp }))
          (payload_step e a p))
  where
    payload_step :
        (e : Event) (a : TransformStepLifecycle)
        → e.payload ≡ step_lifecycle a
        → new_step_state_from_event e
          ≡ ok (record {
            name = a.name;
            category = a.category;
            status = a.status;
            start_time = none;
            stop_time = none;
            duration = pos 0;
            output = [];
          })
    payload_step e a p = unfold new_step_state_from_event in rw p refl

stop_event :
    (start e : Event) (a b : TransformStepLifecycle) (out : List Event) (rs : State)
    → e.session_id ≡ rs.id
    → e.type ≡ transform_step_stop
    → e.payload ≡ step_lifecycle b
    → add_transform_event e (open_step rs rs.steps (with_output (started start a) out))
      ≡ ok (record rs { steps = rs.steps ++ finished start a out e b ∷ [] })
stop_event start e a b out rs s t p =
    let x = with_output (started start a) out in
    own_event e (open_step rs rs.steps x) s
    ∙ ap (λ y. on_event y e (open_step rs rs.steps x)) t
    ∙ (unfold on_event in
        rw (change_last_step-snoc (stop_step e) rs.steps x)
          (ap (λ y. ok (record rs { steps = rs.steps ++ y ∷ [] })) (stopped x)))
  where
    stopped :
        (x : StepState)
        → stop_step e x ≡ record x {
          stop_time = some e.timestamp;
          status = b.status;
          duration = duration_of x.start_time (some e.timestamp) x.duration;
        }
    stopped x = unfold stop_step in rw p refl

-- The events of one step of a run, a start, any messages, errors and previews, and a stop, append
-- one step to the state and change nothing else: the step has the name and category of the start,
-- the status of the stop, both times and the time between them as its duration, and the events
-- between as its output, in order.
pub add_events-step :
    (start stop : Event) (a b : TransformStepLifecycle) (out : List Event) (rs : State)
    → start.session_id ≡ rs.id
    → start.type ≡ transform_step_start
    → start.payload ≡ step_lifecycle a
    → AllOutput rs.id out
    → stop.session_id ≡ rs.id
    → stop.type ≡ transform_step_stop
    → stop.payload ≡ step_lifecycle b
    → add_events (start ∷ (out ++ stop ∷ [])) rs
      ≡ ok (record rs { steps = rs.steps ++ finished start a out stop b ∷ [] })
unfolding add_events
add_events-step start stop a b out rs s t p outs s' t' p' = rw (start_event start a rs s t p) (
    add_outputs rs rs.steps (started start a) out (stop ∷ []) outs
    ∙ rw (stop_event start stop a b out rs s' t' p') refl)
