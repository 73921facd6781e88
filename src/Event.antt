-- ===== src/Event.antt =====
-- The event bus (event/event.go). A handler is a function on what it may change, the world `W`, and
-- returns an error or none. The bus is locked for reading while handlers run.
pub mod Order
mod Examples
use repo_4636_qri.Prelude.{
  ℕ, ◌+◌, Bool, true, false, Option, none, some, List, [], ◌∷◌, ◌++◌, Text, is_empty, length,
  if◌then◌else◌,
}
use repo_4636_qri.Prelude.Int.{ℤ}
use repo_4636_qri.Prelude.Dict.{Pair, lookup, insert}

pub record Event (Payload : Type 0) : Type 0 where
  pub type : Text
  pub timestamp : ℤ
  pub session_id : Text
  pub profile_id : Text
  pub payload : Payload

-- An error of a handler, or that of a closed bus.
pub data PublishError (Error : Type 0) : Type 0 where
  handler_error : Error → PublishError Error
  bus_closed : PublishError Error

abbrev pub Handler : Type 0 → Type 0 → Type 0 → Type 0
Handler W Payload Error = Event Payload → W → Option Error × W

abbrev pub Result : Type 0 → Type 0 → Type 0
Result W Error = Option (PublishError Error) × W

abbrev pub Handlers : Type 0 → Type 0 → Type 0 → Type 0
Handlers W Payload Error = List (Handler W Payload Error)

pub record Bus (W Payload Error : Type 0) : Type 0 where
  pub closed : Bool
  pub subs : List (Pair (Handlers W Payload Error))
  pub all_subs : Handlers W Payload Error
  pub id_subs : List (Pair (Handlers W Payload Error))

-- What follows where the error is nil.
abbrev pub and_then : {W Error : Type 0} → Result W Error → (W → Result W Error) → Result W Error
and_then r k = elim r.0 [ none ↦ k r.1 | some er ↦ r ]

module _ {W Payload Error : Type 0} where
  abbrev pub new_bus : Bus W Payload Error
  new_bus = record { closed = false; subs = []; all_subs = []; id_subs = [] }

  -- `m[k]`, where a missing key has no handlers.
  abbrev pub handlers_at : Text → List (Pair (Handlers W Payload Error)) → Handlers W Payload Error
  handlers_at k m = elim (lookup k m) [ none ↦ [] | some hs ↦ hs ]

  -- A loop over handlers, which ends at the first error.
  unfoldable pub run_handlers : Handlers W Payload Error → Event Payload → W → Result W Error
  run_handlers [] e w = (none, w)
  run_handlers (h ∷ hs) e w =
      let r = h e w in
      elim r.0 [ none ↦ run_handlers hs e r.1 | some er ↦ (some (handler_error er), r.1) ]

  -- `publish`, with the profile of the context and the time.
  unfoldable pub publish :
      Bus W Payload Error → Text → Text → Payload → Text → ℤ → W → Result W Error
  unfolding lookup run_handlers is_empty
  publish bus typ session_id payload profile_id now w =
      if bus.closed
      then (some bus_closed, w)
      else let e : Event Payload = record {
        type = typ;
        timestamp = now;
        session_id = session_id;
        profile_id = profile_id;
        payload = payload;
      } in
        and_then (run_handlers (handlers_at typ bus.subs) e w) λ w.
          and_then
            (if is_empty session_id
              then (none, w)
              else run_handlers (handlers_at session_id bus.id_subs) e w)
            λ w. run_handlers bus.all_subs e w

  unfoldable pub subscribe_in :
      Handler W Payload Error
      → List Text
      → List (Pair (Handlers W Payload Error))
      → List (Pair (Handlers W Payload Error))
  unfolding lookup insert
  subscribe_in handler [] subs = subs
  subscribe_in handler (typ ∷ types) subs =
      subscribe_in handler types (insert typ (handlers_at typ subs ++ handler ∷ []) subs)

  unfoldable pub subscribe_types :
      Handler W Payload Error → List Text → Bus W Payload Error → Bus W Payload Error
  unfolding subscribe_in
  subscribe_types handler types bus = record bus { subs = subscribe_in handler types bus.subs }

  unfoldable pub subscribe_id :
      Handler W Payload Error → Text → Bus W Payload Error → Bus W Payload Error
  unfolding lookup insert
  subscribe_id handler session_id bus = record bus {
    id_subs = insert session_id (handlers_at session_id bus.id_subs ++ handler ∷ []) bus.id_subs;
  }

  unfoldable pub subscribe_all : Handler W Payload Error → Bus W Payload Error → Bus W Payload Error
  subscribe_all handler bus = record bus { all_subs = bus.all_subs ++ handler ∷ [] }

  unfoldable pub count_handlers : List (Pair (Handlers W Payload Error)) → ℕ
  count_handlers [] = 0
  count_handlers (p ∷ ps) = length p.value + count_handlers ps

  unfoldable pub num_subscribers : Bus W Payload Error → ℕ
  unfolding count_handlers
  num_subscribers bus = count_handlers bus.subs + count_handlers bus.id_subs + length bus.all_subs
