-- ===== src/Event/Order.antt =====
-- The order in which a published event reaches its subscribers.
use repo_4636_qri.Prelude.{
  ℕ, suc, ◌+◌, ◌≡◌, refl, sym, ap, subst, ◌∙◌, inl, inr, false, none, some, List, [], ◌∷◌, ◌++◌,
  Text, text_eq, text_eq_iff, is_empty, length, length-append, if◌then◌else◌, Bool-cases,
  Option-cases, replicate, arith,
}
use mathlib.Core.Path.{fun_ext}
use mathlib.Core.List.{append_assoc, append-nil}
use repo_4636_qri.Prelude.Int.{ℤ}
use repo_4636_qri.Prelude.Dict.{Pair, lookup, insert, lookup-insert_same, lookup-insert_other}
use repo_4636_qri.Event.{
  Event, Bus, Handler, Handlers, Result, handler_error, handlers_at, run_handlers, and_then,
  publish, subscribe_in, subscribe_types, count_handlers, num_subscribers,
}

-- What a loop over handlers has to do, with what it returns and the world after it: every handler runs
-- in turn on the world that the one before it left, up to the first that returns an error, which is
-- the result; the rest do not run.
pub data Runs {W Payload Error : Type 0} (e : Event Payload)
    : Handlers W Payload Error → W → Result W Error → Type 0 where
  all_ran : {w : W} → Runs e [] w (none, w)
  goes_on :
      {h : Handler W Payload Error} {hs : Handlers W Payload Error} {w : W} {r : Result W Error}
      → (h e w).0 ≡ none
      → Runs e hs (h e w).1 r
      → Runs e (h ∷ hs) w r
  fails :
      {h : Handler W Payload Error} {hs : Handlers W Payload Error} {w : W} {er : Error}
      → (h e w).0 ≡ some er
      → Runs e (h ∷ hs) w (some (handler_error er), (h e w).1)

-- How often a type is named.
abbrev pub mentions : Text → List Text → ℕ
mentions typ [] = 0
mentions typ (t ∷ ts) = let rest = mentions typ ts in if text_eq t typ then suc rest else rest

module _ {W Payload Error : Type 0} where
  -- Loops one behind the other are one loop.
  run_handlers-append :
      (hs gs : Handlers W Payload Error) (e : Event Payload) (w : W)
      → run_handlers (hs ++ gs) e w ≡ and_then (run_handlers hs e w) (λ w. run_handlers gs e w)
  unfolding run_handlers
  run_handlers-append [] gs e w = refl
  run_handlers-append (h ∷ hs) gs e w = elim (Option-cases (h e w).0) [
    | inl n ↦ rw (n, run_handlers) (run_handlers-append hs gs e (h e w).1)
    | inr (er, n) ↦ rw (n, run_handlers) refl
  ]

  handlers_at-insert :
      (t typ : Text) (hs : Handlers W Payload Error) (m : List (Pair (Handlers W Payload Error)))
      → handlers_at typ (insert t hs m) ≡ (if text_eq t typ then hs else handlers_at typ m)
  handlers_at-insert t typ hs m = elim (Bool-cases (text_eq t typ)) [
    | inl e ↦ rw e (
        subst (λ k. handlers_at k (insert t hs m) ≡ hs) ((text_eq_iff t typ).0 e)
          (rw (lookup-insert_same t hs m, handlers_at) refl))
    | inr e ↦ rw (e, lookup-insert_other t typ hs m e, handlers_at) refl
  ]

  subscribe_in-mentions :
      (h : Handler W Payload Error) (typ : Text) (types : List Text)
      (m : List (Pair (Handlers W Payload Error)))
      → handlers_at typ (subscribe_in h types m)
        ≡ handlers_at typ m ++ replicate (mentions typ types) h
  unfolding subscribe_in
  subscribe_in-mentions h typ [] m = sym (append-nil (handlers_at typ m))
  subscribe_in-mentions h typ (t ∷ ts) m = elim (Bool-cases (text_eq t typ)) [
    | inl e ↦
        subscribe_in-mentions h typ ts (insert t (handlers_at t m ++ h ∷ []) m)
        ∙ rw (handlers_at-insert t typ (handlers_at t m ++ h ∷ []) m, e, (text_eq_iff t typ).0 e)
            (append_assoc (handlers_at typ m) (h ∷ []) (replicate (mentions typ ts) h))
    | inr e ↦
        subscribe_in-mentions h typ ts (insert t (handlers_at t m ++ h ∷ []) m)
        ∙ rw (handlers_at-insert t typ (handlers_at t m ++ h ∷ []) m, e) refl
  ]

  -- The handlers that a publication with a session reaches, in order.
  abbrev pub reached : Bus W Payload Error → Text → Text → Handlers W Payload Error
  reached bus typ session_id =
      handlers_at typ bus.subs
      ++ ((if is_empty session_id then [] else handlers_at session_id bus.id_subs) ++ bus.all_subs)

  publish-reached :
      (bus : Bus W Payload Error) (typ session_id : Text) (payload : Payload) (profile_id : Text)
      (now : ℤ) (w : W)
      → bus.closed ≡ false
      → publish bus typ session_id payload profile_id now w
        ≡ run_handlers
            (reached bus typ session_id)
            (record {
              type = typ;
              timestamp = now;
              session_id = session_id;
              profile_id = profile_id;
              payload = payload;
            })
            w
  unfolding publish run_handlers
  publish-reached bus typ session_id payload profile_id now w up =
      let e : Event Payload = record {
        type = typ;
        timestamp = now;
        session_id = session_id;
        profile_id = profile_id;
        payload = payload;
      } in
      rw up (
        ap (λ k. and_then (run_handlers (handlers_at typ bus.subs) e w) k) (fun_ext λ w. rest e w)
        ∙ sym (
            run_handlers-append (handlers_at typ bus.subs)
              ((if is_empty session_id then [] else handlers_at session_id bus.id_subs)
                ++ bus.all_subs)
              e w))
    where
      rest :
          (e : Event Payload) (w : W)
          → and_then
              (if is_empty session_id
                then (none, w)
                else run_handlers (handlers_at session_id bus.id_subs) e w)
              (λ w. run_handlers bus.all_subs e w)
            ≡ run_handlers
                ((if is_empty session_id then [] else handlers_at session_id bus.id_subs)
                  ++ bus.all_subs)
                e
                w
      rest e w = elim (Bool-cases (is_empty session_id)) [
        | inl n ↦ rw n refl
        | inr n ↦
            rw n (sym (run_handlers-append (handlers_at session_id bus.id_subs) bus.all_subs e w))
      ]

  run_handlers-Runs :
      (hs : Handlers W Payload Error) (e : Event Payload) (w : W)
      → Runs e hs w (run_handlers hs e w)
  unfolding run_handlers
  run_handlers-Runs [] e w = all_ran
  run_handlers-Runs (h ∷ hs) e w = elim (Option-cases (h e w).0) [
    | inl n ↦ rw (n, run_handlers) (goes_on n (run_handlers-Runs hs e (h e w).1))
    | inr (er, n) ↦ rw (n, run_handlers) (fails n)
  ]

  -- What `publish` of a bus that is not closed does behind `SubscribeTypes`: it runs the handlers of
  -- the type, in the order in which they were subscribed, the new one last and once for each time the
  -- type is named; then the handlers of the session, if there is one; then the handlers of all events.
  -- Each runs on what the one before it left, up to the first that returns an error, which is
  -- returned; the rest do not run.
  pub publish-subscribe_types :
      (h : Handler W Payload Error) (types : List Text) (bus : Bus W Payload Error)
      (e : Event Payload) (w : W)
      → bus.closed ≡ false
      → Runs e
          (handlers_at e.type bus.subs
            ++ replicate (mentions e.type types) h
            ++ ((if is_empty e.session_id then [] else handlers_at e.session_id bus.id_subs)
                ++ bus.all_subs))
          w
          (publish
            (subscribe_types h types bus)
            e.type
            e.session_id
            e.payload
            e.profile_id
            e.timestamp
            w)
  unfolding subscribe_types
  publish-subscribe_types h types bus e w up =
      let hs =
        handlers_at e.type bus.subs
        ++ replicate (mentions e.type types) h
        ++ ((if is_empty e.session_id then [] else handlers_at e.session_id bus.id_subs)
            ++ bus.all_subs) in
      let done =
        publish-reached (subscribe_types h types bus) e.type e.session_id e.payload e.profile_id
          e.timestamp w up
        ∙ rw (subscribe_in-mentions h e.type types bus.subs) refl in
      subst (λ r. Runs e hs w r) (sym done) (run_handlers-Runs hs e w)

  count_handlers-insert :
      (h : Handler W Payload Error) (t : Text) (m : List (Pair (Handlers W Payload Error)))
      → count_handlers (insert t (handlers_at t m ++ h ∷ []) m) ≡ suc (count_handlers m)
  unfolding count_handlers insert lookup
  count_handlers-insert h t [] = refl
  count_handlers-insert h t (p ∷ ps) = elim (Bool-cases (text_eq p.key t)) [
    | inl e ↦
        let here : handlers_at t (p ∷ ps) ≡ p.value = rw (handlers_at, e) refl in
        ap (λ hs. count_handlers (insert t (hs ++ h ∷ []) (p ∷ ps))) here
        ∙ rw e (omega (arith, length-append p.value (h ∷ [])))
    | inr e ↦
        let there : handlers_at t (p ∷ ps) ≡ handlers_at t ps = rw (handlers_at, e) refl in
        ap (λ hs. count_handlers (insert t (hs ++ h ∷ []) (p ∷ ps))) there
        ∙ rw e (omega (arith, count_handlers-insert h t ps))
  ]

  count_handlers-subscribe_in :
      (h : Handler W Payload Error) (types : List Text) (m : List (Pair (Handlers W Payload Error)))
      → count_handlers (subscribe_in h types m) ≡ count_handlers m + length types
  unfolding subscribe_in
  count_handlers-subscribe_in h [] m = omega arith
  count_handlers-subscribe_in h (t ∷ ts) m = omega (
    arith,
    count_handlers-insert h t m,
    count_handlers-subscribe_in h ts (insert t (handlers_at t m ++ h ∷ []) m),
  )

  -- `SubscribeTypes` counts once for each type.
  num_subscribers-subscribe_types :
      (h : Handler W Payload Error) (types : List Text) (bus : Bus W Payload Error)
      → num_subscribers (subscribe_types h types bus) ≡ num_subscribers bus + length types
  unfolding num_subscribers subscribe_types
  num_subscribers-subscribe_types h types bus =
      omega (arith, count_handlers-subscribe_in h types bus.subs)
