-- ===== src/Run/Store/Adding.antt =====
-- `AddEvent` against fetching, changing and putting a run, as the comment on `EventAdder` in
-- automation/run/store.go has it.
use repo_4636_qri.Prelude.{
  ◌≡◌, refl, sym, ap, subst, ◌∙◌, inl, inr, true, false, some, Text, text_eq, text_eq_refl,
  is_empty, Outcome, ok, err, panic, ◌>>=◌,
}
use repo_4636_qri.Prelude.Dict.{lookup, insert}
use repo_4636_qri.Run.State.{Event, RunError, State, validate, add_transform_event}
use repo_4636_qri.Run.State.Steps.{SameRun, add_transform_event-SameRun}
use repo_4636_qri.Run.Store.{MemStore, get, put, add_event}
use repo_4636_qri.Run.Store.Sound.{IsStored, IsSound, option_cases, Keeps, put-Keeps}

stored_validate :
    (k : Text) (r r' : State)
    → IsStored k r
    → r'.id ≡ r.id
    → r'.workflow_id ≡ r.workflow_id
    → (is_empty r'.id ≡ false) × (validate r' ≡ ok tt)
unfolding validate
stored_validate k r r' st i w =
    let has_id : is_empty r'.id ≡ false = ap is_empty i ∙ st.has_id in
    let has_workflow : is_empty r'.workflow_id ≡ false = ap is_empty w ∙ st.has_workflow in
    (has_id, rw (has_id, has_workflow) refl)

put_same :
    (s : MemStore) (k : Text) (r r' : State)
    → IsStored k r
    → lookup k s.runs ≡ some r
    → r'.id ≡ r.id
    → r'.workflow_id ≡ r.workflow_id
    → put (some r') s ≡ ok (record s { runs = insert k r' s.runs }, r')
unfolding put insert
put_same s k r r' st f i w =
    let (has_id, valid) = stored_validate k r r' st i w in
    let found : lookup r'.id s.runs ≡ some r = ap (λ k. lookup k s.runs) (i ∙ st.own_key) ∙ f in
    let same : text_eq r.workflow_id r'.workflow_id ≡ true =
      ap (text_eq r.workflow_id) w ∙ text_eq_refl r.workflow_id in
    rw (has_id, found, same, valid, put, get)
      (ap (λ k. ok (record s { runs = insert k r' s.runs }, r')) (i ∙ st.own_key))

abbrev pub store_of : MemStore × State → Outcome RunError MemStore
store_of (s, r) = ok s

-- In a sound store, `AddEvent` does what fetching the run, adding the event to it and putting it
-- back does, errors included.
pub add_event-put :
    (s : MemStore) (id : Text) (e : Event)
    → IsSound s
    → add_event id e s
      ≡ (get id s >>= λ r. add_transform_event e r >>= λ r'. put (some r') s >>= store_of)
unfolding add_event get
add_event-put s id e sound = elim (option_cases (lookup id s.runs)) [
  | inl n ↦ rw (n, add_event, get) refl
  | inr (r, f) ↦
      rw (f, add_event, get)
        (stored_next r (sound.runs_sound id r f) f (add_transform_event e r)
          (add_transform_event-SameRun e r))
]
  where
    stored_next :
        (r : State)
        → IsStored id r
        → lookup id s.runs ≡ some r
        → (m : Outcome RunError State) → SameRun r m
        → (m >>= λ r'. ok (record s { runs = insert id r' s.runs }))
          ≡ (m >>= λ r'. put (some r') s >>= store_of)
    stored_next r st f (ok r') (i, w) = sym (ap (λ o. o >>= store_of) (put_same s id r r' st f i w))
    stored_next r st f (err x) t = refl
    stored_next r st f panic t = refl

-- Adding an event keeps a store sound.
pub add_event-IsSound :
    (s s' : MemStore) (id : Text) (e : Event) → IsSound s → add_event id e s ≡ ok s' → IsSound s'
add_event-IsSound s s' id e sound h =
    subst KeepsStore h (subst KeepsStore (sym (add_event-put s id e sound)) (get_put (get id s)))
  where
    KeepsStore : Outcome RunError MemStore → Type 0
    KeepsStore (ok s) = IsSound s
    KeepsStore (err e) = Unit
    KeepsStore panic = Unit

    put_keeps : (m : Outcome RunError (MemStore × State)) → Keeps m → KeepsStore (m >>= store_of)
    put_keeps (ok (s, r)) k = k.0
    put_keeps (err e) k = tt
    put_keeps panic k = tt

    add_put : (m : Outcome RunError State) → KeepsStore (m >>= λ r'. put (some r') s >>= store_of)
    add_put (ok r') = put_keeps (put (some r') s) (put-Keeps s (some r') sound)
    add_put (err e) = tt
    add_put panic = tt

    get_put :
        (m : Outcome RunError State)
        → KeepsStore (m >>= λ r. add_transform_event e r >>= λ r'. put (some r') s >>= store_of)
    get_put (ok r) = add_put (add_transform_event e r)
    get_put (err e) = tt
    get_put panic = tt
