-- ===== src/Automation/TriggerSet/Finding.antt =====
-- A source that was added to a set of triggers is found in it.
use repo_4636_qri.Prelude.{
  ℕ, ◌+◌, ◌≡◌, refl, sym, ap, suc, subst, ◌⊎◌, ◌≤◌, ◌∙◌, inl, inr, true, false, none, some, List,
  [], ◌∷◌, Option, Text, text_eq_refl, is_empty, length, ok, err, panic, Option-cases,
  Outcome-cases, ok_injective, arith,
}
use repo_4636_qri.Prelude.Dict.{lookup, insert, lookup-insert_same}
use repo_4636_qri.Automation.TriggerSet.{
  Workflows, TriggerError, Active, Source, construct_all, put_source, add_source, same_triggers,
  exists,
}

module _ {Opts : Type 0} (construct : Opts → Text → Option Text) where
  -- The options name the id of their trigger: no id is drawn for it.
  abbrev pub AreNamed : List Opts → Type 0
  AreNamed [] = Unit
  AreNamed (o ∷ os) = ((d d' : Text) → construct o d ≡ construct o d') × AreNamed os

  -- The triggers are those that the options make again, with whatever is drawn then.
  AreSame : List Opts → List Text → Type 0
  AreSame os ts =
      (length os ≡ length ts)
      × ((draw : ℕ → Text) (n : ℕ) → same_triggers Opts construct draw n os ts ≡ true)

  construct_all-cons :
      (draw : ℕ → Text) (n : ℕ) (o : Opts) (os : List Opts) (u : Text) (us : List Text)
      → construct o (draw n) ≡ some u
      → construct_all Opts construct draw (n + 1) os ≡ ok us
      → construct_all Opts construct draw n (o ∷ os) ≡ ok (u ∷ us)
  unfolding construct_all
  construct_all-cons draw n o os u us e h = rw (e, construct_all, h) refl

  construct_all-fails :
      (draw : ℕ → Text) (n : ℕ) (o : Opts) (os : List Opts) (ts : List Text)
      → (construct o (draw n) ≡ none)
        ⊎ ((x : TriggerError) × (construct_all Opts construct draw (n + 1) os ≡ err x))
        ⊎ (construct_all Opts construct draw (n + 1) os ≡ panic)
      → construct_all Opts construct draw n (o ∷ os) ≡ ok ts
      → ⊥
  unfolding construct_all
  construct_all-fails draw n o os ts c h = ground (arith, c, h)

  AreSame-cons :
      (o : Opts) (os : List Opts) (u : Text) (us : List Text)
      → ((d : Text) → construct o d ≡ some u)
      → AreSame os us
      → AreSame (o ∷ os) (u ∷ us)
  unfolding AreSame same_triggers
  AreSame-cons o os u us e (l, s) =
      (ap suc l, λ draw n. rw (e (draw n), same_triggers, text_eq_refl u, s draw (n + 1)) refl)

  construct_all-AreSame :
      (draw : ℕ → Text) (n : ℕ) (os : List Opts) (ts : List Text)
      → AreNamed os
      → construct_all Opts construct draw n os ≡ ok ts
      → AreSame os ts
  construct_all-AreSame draw n [] ts named h =
      unfold AreSame same_triggers construct_all in
      subst
        (λ t.
          (0 ≡ length t)
          × ((draw : ℕ → Text) (n : ℕ) → same_triggers Opts construct draw n [] t ≡ true))
        (ok_injective h) (refl, λ draw n. refl)
  construct_all-AreSame draw n (o ∷ os) ts named h = elim (Option-cases (construct o (draw n))) [
    | inl e ↦ absurd (construct_all-fails draw n o os ts (inl e) h)
    | inr (u, e) ↦ elim (Outcome-cases (construct_all Opts construct draw (n + 1) os)) [
      | inl (us, k) ↦
          subst (AreSame (o ∷ os))
            (ok_injective (sym (construct_all-cons draw n o os u us e k) ∙ h))
            (AreSame-cons o os u us (λ d. named.0 d (draw n) ∙ e)
              (construct_all-AreSame draw (n + 1) os us named.1 k))
      | inr (inl k) ↦ absurd (construct_all-fails draw n o os ts (inr (inl k)) h)
      | inr (inr k) ↦ absurd (construct_all-fails draw n o os ts (inr (inr k)) h)
    ]
  ]

  put_source-lookup :
      (owner workflow t : Text) (ts : List Text) (active : Active)
      → (wfs : Workflows) × (lookup owner (put_source Opts construct owner workflow (t ∷ ts) active)
          ≡ some wfs)
        × (lookup workflow wfs ≡ some (t ∷ ts))
  unfolding put_source
  put_source-lookup owner workflow t ts active = elim (Option-cases (lookup owner active)) [
    | inl e ↦ (
      record { key = workflow; value = t ∷ ts } ∷ [],
      rw (e, put_source) (lookup-insert_same owner _ active),
      lookup-insert_same workflow (t ∷ ts) [],
    )
    | inr (wfs, e) ↦ (
      insert workflow (t ∷ ts) wfs,
      rw (e, put_source) (lookup-insert_same owner _ active),
      lookup-insert_same workflow (t ∷ ts) wfs,
    )
  ]

  exists-found :
      (draw : ℕ → Text) (s : Source Opts construct) (active : Active) (wfs : Workflows)
      (ts : List Text)
      → lookup s.owner active ≡ some wfs
      → lookup s.workflow_id wfs ≡ some ts
      → AreSame s.active_triggers ts
      → exists Opts construct draw s active ≡ true
  unfolding exists AreSame
  exists-found draw s active wfs ts o w (l, same) =
      rw (o, exists, w, exists) (rw l (ground (arith, same draw 0)))

  put-exists :
      (draw : ℕ → Text) (s : Source Opts construct) (active : Active) (ts : List Text)
      → 1 ≤ length s.active_triggers
      → AreSame s.active_triggers ts
      → exists Opts construct draw s (put_source Opts construct s.owner s.workflow_id ts active)
        ≡ true
  put-exists draw s active [] n a = absurd (unfold AreSame in omega (arith, a.0))
  put-exists draw s active (t ∷ ts) n a =
      let (wfs, o, w) = put_source-lookup s.owner s.workflow_id t ts active in
      exists-found draw s (put_source Opts construct s.owner s.workflow_id (t ∷ ts) active) wfs
        (t ∷ ts) o w a

  -- A source with active triggers that has a workflow and an owner, whose triggers can all be made and
  -- whose options all name the id of their trigger, is added, and exists in the set afterwards, whatever
  -- ids are drawn then.
  pub exists-add_source :
      (draw draw' : ℕ → Text) (n : ℕ) (s : Source Opts construct) (active : Active) (ts : List Text)
      → is_empty s.workflow_id ≡ false
      → is_empty s.owner ≡ false
      → 1 ≤ length s.active_triggers
      → AreNamed s.active_triggers
      → construct_all Opts construct draw n s.active_triggers ≡ ok ts
      → (active' : Active) × (add_source Opts construct draw n s active ≡ ok active')
        × (exists Opts construct draw' s active' ≡ true)
  unfolding add_source
  exists-add_source draw draw' n s active ts w o some_there named c = (
    put_source Opts construct s.owner s.workflow_id ts active,
    rw (w, o, c) refl,
    put-exists draw' s active ts some_there
        (construct_all-AreSame draw n s.active_triggers ts named c),
  )
