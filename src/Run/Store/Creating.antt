-- ===== src/Run/Store/Creating.antt =====
-- Creating runs, adding events to them, and the latest run of a workflow.
use repo_4636_qri.Prelude.{
  ℕ, ◌+◌, ◌≡◌, ◌≢◌, refl, sym, ap, subst, ◌∙◌, ◌⊎◌, inl, inr, Bool-cases, Option, some, none, List,
  [], ◌∷◌, ◌++◌, Text, text_eq, text_eq_iff, ok, err, length, length-append, arith,
}
use repo_4636_qri.Prelude.Dict.{lookup, insert, lookup-insert_same, lookup-insert_other}
use repo_4636_qri.Run.State.{State, validate, unknown_workflow_id}
use repo_4636_qri.Run.Store.{
  MemStore, WorkflowMeta, meta_of, get, create, add_run, with_id, get_latest, last_id, count,
}
use repo_4636_qri.Run.Store.Sound.{
  IsIn, here, there, IsTracked, IsSound, written-IsStored, written-keeps, option_cases,
  validate_cases, Keeps,
}

last_id-snoc : (is : List Text) (i : Text) → last_id (is ++ i ∷ []) ≡ some i
last_id-snoc [] i = refl
last_id-snoc (j ∷ []) i = refl
last_id-snoc (j ∷ k ∷ is) i = last_id-snoc (k ∷ is) i

IsIn-snoc : (i j : Text) (is : List Text) → IsIn i (is ++ j ∷ []) → (i ≡ j) ⊎ IsIn i is
IsIn-snoc i j [] here = inl refl
IsIn-snoc i j [] (there q) = elim q [ ]
IsIn-snoc i j (k ∷ is) here = inr here
IsIn-snoc i j (k ∷ is) (there q) = elim (IsIn-snoc i j is q) [
  | inl e ↦ inl e
  | inr r ↦ inr (there r)
]

snoc_not_nil : (is : List Text) (i : Text) → is ++ i ∷ [] ≢ []
snoc_not_nil [] i h = ground arith
snoc_not_nil (j ∷ is) i h = ground arith

last_id-IsIn : (is : List Text) → is ≢ [] → (i : Text) × (last_id is ≡ some i) × IsIn i is
last_id-IsIn [] h = absurd (h refl)
last_id-IsIn (i ∷ []) h = (i, refl, here)
last_id-IsIn (i ∷ j ∷ is) h =
    let (k, q, p) = last_id-IsIn (j ∷ is) (λ e. ground arith) in (k, q, there p)

positive : (is : List Text) → is ≢ [] → (n : ℕ) × (length is ≡ n + 1)
positive [] h = absurd (h refl)
positive (i ∷ is) h = (length is, omega arith)

-- What the workflow of a new run has before: ids of stored runs, and their number.
old_meta :
    (s : MemStore) (w : Text)
    → IsSound s
    → ((meta_of w s).count ≡ length (meta_of w s).run_ids)
      × ((i : Text)
          → IsIn i (meta_of w s).run_ids
          → (r : State) × (lookup i s.runs ≡ some r) × (r.workflow_id ≡ w))
old_meta s w sound = elim (option_cases (lookup w s.workflows)) [
  | inl n ↦ rw (n, meta_of) (refl, λ i p. elim p [ ])
  | inr (m, q) ↦ let t = sound.workflows_sound w m q in rw (q, meta_of) (t.counted, t.stored)
]

abbrev new_meta : MemStore → State → WorkflowMeta
new_meta s run = record {
  count = (meta_of run.workflow_id s).count + 1;
  run_ids = (meta_of run.workflow_id s).run_ids ++ run.id ∷ [];
}

module _ (s : MemStore) (run : State) (sound : IsSound s) (v : validate run ≡ ok tt)
    (new : lookup run.id s.runs ≡ none) where
  keeps_new :
      (i w : Text)
      → ((r : State) × (lookup i s.runs ≡ some r) × (r.workflow_id ≡ w))
      → (r : State) × (lookup i (insert run.id run s.runs) ≡ some r) × (r.workflow_id ≡ w)
  keeps_new i w (r, p, q) =
      written-keeps s run i w
        (λ e.
          let none_some : none ≡ some r = sym new ∙ ap (λ k. lookup k s.runs) (sym e) ∙ p in
          ground (arith, none_some))
        (r, p, q)

  new_meta-IsTracked : IsTracked (add_run run s) run.workflow_id (new_meta s run)
  unfolding add_run
  new_meta-IsTracked =
      let (n, old) = old_meta s run.workflow_id sound in
      record {
        counted = omega (arith, n, length-append (meta_of run.workflow_id s).run_ids (run.id ∷ []));
        some_run = snoc_not_nil (meta_of run.workflow_id s).run_ids run.id;
        stored = λ i p. elim (IsIn-snoc i run.id _ p) [
          | inl e ↦ (
            run,
            ap (λ k. lookup k (insert run.id run s.runs)) e ∙ lookup-insert_same run.id run s.runs,
            refl,
          )
          | inr q ↦ keeps_new i run.workflow_id (old i q)
        ];
      }

  add_run-IsSound : IsSound (add_run run s)
  unfolding add_run
  add_run-IsSound = record {
    runs_sound = written-IsStored s run sound v;
    workflows_sound = λ w m h. elim (Bool-cases (text_eq run.workflow_id w)) [
      | inl e ↦
          let same : run.workflow_id ≡ w = (text_eq_iff _ w).0 e in
          let got : some (new_meta s run) ≡ some m =
            sym (lookup-insert_same run.workflow_id (new_meta s run) s.workflows)
            ∙ ap (λ k. lookup k (insert run.workflow_id (new_meta s run) s.workflows)) same
            ∙ h in
          let eq : new_meta s run ≡ m = ground (arith, got) in
          subst (λ m. IsTracked (add_run run s) w m) eq
            (subst (λ w. IsTracked (add_run run s) w (new_meta s run)) same new_meta-IsTracked)
      | inr e ↦
          let t = sound.workflows_sound w m (sym (lookup-insert_other _ w _ s.workflows e) ∙ h) in
          record {
            counted = t.counted;
            some_run = t.some_run;
            stored = λ i p. keeps_new i w (t.stored i p);
          }
    ];
  }

create-Keeps :
    (new_id : Text) (r : Option State) (s : MemStore) → IsSound s → Keeps (create new_id r s)
unfolding create get
create-Keeps new_id none s sound = tt
create-Keeps new_id (some r) s sound =
    let run = with_id new_id r in
    elim (option_cases (lookup run.id s.runs)) [
      | inr (old, q) ↦ rw (q, create, get) tt
      | inl n ↦ elim (validate_cases run) [
        | inr (x, v) ↦ rw (n, v, create, get) tt
        | inl v ↦
            rw (n, v, create, get)
              (
                add_run-IsSound s run sound v n,
                (unfold add_run in lookup-insert_same run.id run s.runs),
              )
      ]
    ]

-- Creating a run, with whatever id is drawn for a run that has none, keeps a store sound, and
-- the run that is returned can be fetched from the store.
pub create-IsSound :
    (new_id : Text) (r : Option State) (s s' : MemStore) (run : State)
    → IsSound s
    → create new_id r s ≡ ok (s', run)
    → IsSound s' × (get run.id s' ≡ ok run)
unfolding get
create-IsSound new_id r s s' run sound h =
    let (kept, q) : Keeps (ok (s', run)) = subst Keeps h (create-Keeps new_id r s sound) in
    (kept, rw (q, get) refl)

-- In a sound store, the latest run and the count of a workflow fail only where the workflow is
-- unknown, and then both do: otherwise `GetLatest` returns a run of the workflow, and `Count` the
-- number of its runs, which is not 0.
get_latest-IsSound :
    (s : MemStore) (w : Text)
    → IsSound s
    → ((get_latest w s ≡ err unknown_workflow_id) × (count w s ≡ err unknown_workflow_id))
      ⊎ ((r : State) × (n : ℕ) × (get_latest w s ≡ ok r)
          × (r.workflow_id ≡ w)
          × (get r.id s ≡ ok r)
          × (count w s ≡ ok (n + 1)))
unfolding get_latest count get
get_latest-IsSound s w sound = elim (option_cases (lookup w s.workflows)) [
  | inl n ↦ rw (n, get_latest, count) (inl (refl, refl))
  | inr (m, q) ↦
      let t = sound.workflows_sound w m q in
      let (i, l, p) = last_id-IsIn m.run_ids t.some_run in
      let (r, f, o) = t.stored i p in
      let (n, c) = positive m.run_ids t.some_run in
      inr (
        r,
        n,
        (rw (q, l, f, get_latest) refl),
        o,
        (ap (λ k. get k s) (sound.runs_sound i r f).own_key ∙ rw (f, get) refl),
        (rw (q, count) (ap ok (t.counted ∙ c))),
      )
]
