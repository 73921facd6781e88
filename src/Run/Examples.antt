-- ===== src/Run/Examples.antt =====
-- Concrete runs and stores for the theorems about automation/run.
use repo_4636_qri.Prelude.{
  ◌≡◌, refl, ok, some, none, List, [], ◌∷◌, Text, codes, text_eq, is_empty, ◌>>=◌, take, drop,
  arith,
}
use mathlib.Core.List.{reverse}
use repo_4636_qri.Prelude.Int.{pos}
use repo_4636_qri.Prelude.Dict.{lookup, insert}
use repo_4636_qri.Params.{ListParams}
use repo_4636_qri.Run.State.{
  Event, State, TransformStepLifecycle, step_lifecycle, other_payload, transform_step_start,
  transform_step_stop, transform_print, add_transform_event, validate,
}
use repo_4636_qri.Run.State.Steps.{prints, finished, add_events, add_events-step}
use repo_4636_qri.Run.Store.{
  MemStore, WorkflowMeta, new_mem_store, create, put, get, add_run, add_event, list_runs, put,
}
use repo_4636_qri.Run.Store.Sound.{IsSound}
use repo_4636_qri.Run.Store.Creating.{create-IsSound}
use repo_4636_qri.Run.Store.Adding.{store_of, add_event-put}
use repo_4636_qri.Run.Store.Listing.{ids_of, list_runs-page}

abbrev run : Text → State
run id = record {
  id = id;
  workflow_id = codes "w";
  number = pos 0;
  status = [];
  message = [];
  start_time = none;
  stop_time = none;
  duration = pos 0;
  steps = [];
}

abbrev load : TransformStepLifecycle
load = record { name = codes "load"; category = codes "setup"; status = []; mode = [] }

abbrev loaded : TransformStepLifecycle
loaded = record load { status = codes "succeeded" }

abbrev start : Event
start = record {
  type = transform_step_start;
  timestamp = pos 5;
  profile_id = [];
  session_id = codes "r1";
  payload = step_lifecycle load;
}

abbrev line : Event
line = record start { type = transform_print; payload = other_payload }

abbrev stop : Event
stop = record start {
  type = transform_step_stop;
  timestamp = pos 9;
  payload = step_lifecycle loaded;
}

add_events-step_example :
    add_events (start ∷ line ∷ stop ∷ []) (run (codes "r1"))
    ≡ ok (record (run (codes "r1")) { steps = finished start load (line ∷ []) stop loaded ∷ [] })
add_events-step_example =
    add_events-step start stop load loaded (line ∷ []) (run (codes "r1")) refl refl refl
      (prints refl refl, tt) refl refl refl

empty-IsSound : IsSound new_mem_store
empty-IsSound = record {
  runs_sound = λ k r h. absurd (nothing k h);
  workflows_sound = λ w m h. absurd (nothing w h);
}
  where
    nothing : {A : Type 0} (k : Text) {a : A} → lookup k [] ≡ some a → ⊥
    nothing k h = unfold lookup in ground arith

abbrev one : MemStore
one = add_run (run (codes "r1")) new_mem_store

abbrev two : MemStore
two = add_run (run (codes "r2")) one

one_created : create [] (some (run (codes "r1"))) new_mem_store ≡ ok (one, run (codes "r1"))
unfolding create get validate lookup is_empty
one_created = refl

two_created : create (codes "r2") (some (run [])) one ≡ ok (two, run (codes "r2"))
unfolding create get validate lookup insert add_run is_empty text_eq
two_created = refl

one-IsSound : IsSound one
one-IsSound =
    (create-IsSound [] (some (run (codes "r1"))) new_mem_store one (run (codes "r1")) empty-IsSound
      one_created).0

create-IsSound_example : IsSound two × (get (codes "r2") two ≡ ok (run (codes "r2")))
create-IsSound_example =
    create-IsSound (codes "r2") (some (run [])) one two (run (codes "r2")) one-IsSound two_created

two-IsSound : IsSound two
two-IsSound =
    (create-IsSound (codes "r2") (some (run [])) one two (run (codes "r2")) one-IsSound
      two_created).0

abbrev renamed : State
renamed = record (run (codes "r1")) { message = codes "done" }

abbrev put_store : MemStore
put_store = record one { runs = insert (codes "r1") renamed one.runs }

add_event-put_example : add_event (codes "r1") start two ≡ (
    get (codes "r1") two >>= λ r.
    add_transform_event start r >>= λ r'. put (some r') two >>= store_of)
add_event-put_example = add_event-put two (codes "r1") start two-IsSound

abbrev both : WorkflowMeta
both = record { count = 2; run_ids = codes "r1" ∷ codes "r2" ∷ [] }

known : lookup (codes "w") two.workflows ≡ some both
unfolding lookup insert add_run text_eq
known = refl

abbrev newest : ListParams
newest = record { filter = []; order_by = []; limit = pos 1; offset = pos 0 }

list_runs-page_example :
    (rs : List State) × (list_runs (codes "w") newest two ≡ ok rs)
    × (ids_of rs ≡ take 1 (drop 0 (reverse (codes "r1" ∷ codes "r2" ∷ []))))
list_runs-page_example = list_runs-page two (codes "w") both newest 1 0 two-IsSound known refl refl
