-- ===== src/Workflow/Store/Putting.antt =====
-- `Put` of a workflow without an id.
use repo_4636_qri.Prelude.{
  ◌≡◌, ◌≢◌, refl, sym, ap, subst, ◌∙◌, ◌⊎◌, inl, inr, true, false, Bool-cases, some, List, [], ◌∷◌,
  Text, text_eq, text_eq_refl, is_empty, Outcome, ok, err, panic, arith,
}
use repo_4636_qri.Prelude.Dict.{Pair, lookup, insert, lookup-insert_same}
use repo_4636_qri.Workflow.{Workflow, WorkflowError, validate, no_workflow_id, no_init_id}
use repo_4636_qri.Workflow.Store.{
  MemStore, Call, returns, blocks, get, put, put_valid, find_init, get_by_init_id, with_lock,
}

find_init-absent :
    (i k : Text) (e : WorkflowError) (d : List (Pair Workflow)) (v : Workflow)
    → find_init i d ≡ err e
    → lookup k d ≡ some v
    → v.init_id ≢ i
unfolding find_init lookup
find_init-absent i k e [] v h q same = ground arith
find_init-absent i k e (p ∷ ps) v h q same = elim (Bool-cases (text_eq p.value.init_id i)) [
  | inl t ↦ absurd (ground (arith, h, t))
  | inr f ↦ elim (Bool-cases (text_eq p.key k)) [
    | inl t ↦ absurd (ground (arith, q, t, f, same, text_eq_refl i))
    | inr d ↦ find_init-absent i k e ps v (ground (arith, h, f)) (ground (arith, q, d)) same
  ]
]

-- The call returned a workflow, and the store has it under its id.
abbrev Stored : Workflow → Call Workflow → Type 0
Stored w (returns (ok r) s) = (r ≡ w) × (get w.id s ≡ returns (ok w) s)
Stored w (returns (err e) s) = Unit
Stored w (returns panic s) = Unit
Stored w blocks = Unit

put_valid-Stored : (w : Workflow) (s : MemStore) → s.locked ≡ false → Stored w (put_valid w s)
unfolding put_valid
put_valid-Stored w s u = stored_call (validate w)
  where
    stored_call :
        (m : Outcome WorkflowError (Unit {0}))
        → Stored w (elim m [
          | ok u ↦ with_lock s (returns (ok w) (record s { workflows = insert w.id w s.workflows }))
          | err e ↦ returns (err e) s
          | panic ↦ returns panic s
        ])
    stored_call (ok x) = rw u (refl, unfold get in rw (lookup-insert_same w.id w s.workflows) refl)
    stored_call (err e) = tt
    stored_call panic = tt

-- What a `Put` that creates a workflow has found and leaves.
abbrev Created : Text → Workflow → MemStore → Call Workflow → Type 0
Created new_id w s (returns (ok r) s') =
    ((k : Text) (v : Workflow) → lookup k s.workflows ≡ some v → v.init_id ≢ w.init_id)
    × (r ≡ record w { id = new_id })
    × (get new_id s' ≡ returns (ok r) s')
Created new_id w s (returns (err e) s') = Unit
Created new_id w s (returns panic s') = Unit
Created new_id w s blocks = Unit

no_init-put_valid :
    (w : Workflow) (s : MemStore)
    → is_empty w.init_id ≡ true
    → (e : WorkflowError) × (put_valid w s ≡ returns (err e) s)
unfolding put_valid validate
no_init-put_valid w s h = elim (Bool-cases (is_empty w.id)) [
  | inl e ↦ (no_workflow_id, rw (e, put_valid, validate) refl)
  | inr e ↦ (no_init_id, rw (e, h, put_valid, validate) refl)
]

Stored-Created :
    (new_id : Text) (w : Workflow) (s : MemStore) (c : Call Workflow) (e : WorkflowError)
    → find_init w.init_id s.workflows ≡ err e
    → Stored (record w { id = new_id }) c
    → Created new_id w s c
Stored-Created new_id w s (returns (ok r) s') e h (same, got) = (
  (λ k v q. find_init-absent w.init_id k e s.workflows v h q),
  same,
  got ∙ ap (λ x. returns (ok x) s') (sym same),
)
Stored-Created new_id w s (returns (err x) s') e h t = tt
Stored-Created new_id w s (returns panic s') e h t = tt
Stored-Created new_id w s blocks e h t = tt

outcome_cases :
    (m : Outcome WorkflowError Workflow)
    → ((a : Workflow) × (m ≡ ok a)) ⊎ ((e : WorkflowError) × (m ≡ err e)) ⊎ (m ≡ panic)
outcome_cases (ok a) = inl (a, refl)
outcome_cases (err e) = inr (inl (e, refl))
outcome_cases panic = inr (inr refl)

put_checked :
    (new_id : Text) (w : Workflow) (s : MemStore) (x : WorkflowError)
    → is_empty w.id ≡ true
    → is_empty w.init_id ≡ false
    → s.locked ≡ false
    → find_init w.init_id s.workflows ≡ err x
    → put new_id (some w) s ≡ put_valid (record w { id = new_id }) s
unfolding put get_by_init_id
put_checked new_id w s x n i u q = ground (arith, n, i, u, q)

put-Created :
    (new_id : Text) (w : Workflow) (s : MemStore)
    → w.id ≡ []
    → s.locked ≡ false
    → Created new_id w s (put new_id (some w) s)
unfolding put get_by_init_id
put-Created new_id w s n u =
    let no_id : is_empty w.id ≡ true = ap is_empty n ∙ (unfold is_empty in refl) in
    elim (Bool-cases (is_empty w.init_id)) [
      | inl e ↦ let (x, q) = no_init-put_valid (record w { id = new_id }) s e in rw (no_id, e, q) tt
      | inr e ↦ elim (outcome_cases (find_init w.init_id s.workflows)) [
        | inl (a, q) ↦ rw (no_id, e, u, q) tt
        | inr (inl (x, q)) ↦
            subst (Created new_id w s) (sym (put_checked new_id w s x no_id e u q)) (
              Stored-Created new_id w s (put_valid (record w { id = new_id }) s) x q
                (put_valid-Stored (record w { id = new_id }) s u))
        | inr (inr q) ↦ rw (no_id, e, u, q) tt
      ]
    ]

-- If `Put` of a workflow without an id into an unlocked store returns a workflow, then no stored
-- workflow had the same InitID, the workflow is the given one with the id that was drawn, and `Get`
-- of that id then returns it.
pub put-new :
    (new_id : Text) (w r : Workflow) (s s' : MemStore)
    → w.id ≡ []
    → s.locked ≡ false
    → put new_id (some w) s ≡ returns (ok r) s'
    → ((k : Text) (v : Workflow) → lookup k s.workflows ≡ some v → v.init_id ≢ w.init_id)
      × (r ≡ record w { id = new_id })
      × (get new_id s' ≡ returns (ok r) s')
put-new new_id w r s s' n u h = subst (Created new_id w s) h (put-Created new_id w s n u)
