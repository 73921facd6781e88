-- ===== src/Run/Store/Sound.antt =====
-- Sound stores of runs: every operation keeps them sound, and in a sound store lookups succeed.
use repo_4636_qri.Prelude.{
  ◌≡◌, ◌≢◌, refl, sym, ap, subst, ◌∙◌, ◌⊎◌, inl, inr, false, Bool-cases, Option, some, none, List,
  [], ◌∷◌, Text, text_eq, text_eq_iff, is_empty, Outcome, ok, err, panic, length, arith,
}
use repo_4636_qri.Prelude.Dict.{lookup, insert, lookup-insert_same, lookup-insert_other}
use repo_4636_qri.Run.State.{RunError, State, validate}
use repo_4636_qri.Run.Store.{MemStore, WorkflowMeta, get, put}

pub data IsIn (i : Text) : List Text → Type 0 where
  here : {is : List Text} → IsIn i (i ∷ is)
  there : {j : Text} {is : List Text} → IsIn i is → IsIn i (j ∷ is)

-- A stored run is valid and stands under its id.
pub record IsStored (k : Text) (r : State) : Type 0 where
  pub own_key : r.id ≡ k
  pub has_id : is_empty r.id ≡ false
  pub has_workflow : is_empty r.workflow_id ≡ false

-- Every run id of a workflow is that of a stored run of the workflow, and the count is theirs.
pub record IsTracked (s : MemStore) (w : Text) (m : WorkflowMeta) : Type 0 where
  pub counted : m.count ≡ length m.run_ids
  pub some_run : m.run_ids ≢ []
  pub stored :
      (i : Text) → IsIn i m.run_ids → (r : State) × (lookup i s.runs ≡ some r) × (r.workflow_id ≡ w)

pub record IsSound (s : MemStore) : Type 0 where
  pub runs_sound : (k : Text) (r : State) → lookup k s.runs ≡ some r → IsStored k r
  pub workflows_sound :
      (w : Text) (m : WorkflowMeta) → lookup w s.workflows ≡ some m → IsTracked s w m

pub validate_iff :
    (r : State) → validate r ≡ ok tt → (is_empty r.id ≡ false) × (is_empty r.workflow_id ≡ false)
unfolding validate
validate_iff r h = ground arith

-- The runs of a store after a run is written over an older one, or as a new one.
module _ (s : MemStore) (run : State) where
  abbrev written : MemStore
  written = record s { runs = insert run.id run s.runs }

  pub written-IsStored :
      IsSound s
      → validate run ≡ ok tt
      → (k : Text) (r : State) → lookup k (insert run.id run s.runs) ≡ some r
      → IsStored k r
  written-IsStored sound v k r h = elim (Bool-cases (text_eq run.id k)) [
    | inl e ↦
        let same : run.id ≡ k = (text_eq_iff run.id k).0 e in
        let got : some run ≡ some r =
          sym (lookup-insert_same run.id run s.runs)
          ∙ ap (λ i. lookup i (insert run.id run s.runs)) same
          ∙ h in
        let eq : run ≡ r = ground (arith, got) in
        subst (IsStored k) eq (record {
          own_key = same;
          has_id = (validate_iff run v).0;
          has_workflow = (validate_iff run v).1;
        })
    | inr e ↦ sound.runs_sound k r (sym (lookup-insert_other run.id k run s.runs e) ∙ h)
  ]

  -- A run of the store is still found, as itself or as the written run.
  pub written-keeps :
      (i w : Text)
      → ((i ≡ run.id) → run.workflow_id ≡ w)
      → ((r : State) × (lookup i s.runs ≡ some r) × (r.workflow_id ≡ w))
      → (r : State) × (lookup i (insert run.id run s.runs) ≡ some r) × (r.workflow_id ≡ w)
  written-keeps i w own (r, p, q) = elim (Bool-cases (text_eq run.id i)) [
    | inl e ↦
        let same : run.id ≡ i = (text_eq_iff run.id i).0 e in
        (
          run,
          subst (λ k. lookup k (insert run.id run s.runs) ≡ some run) same
              (lookup-insert_same run.id run s.runs),
          own (sym same),
        )
    | inr e ↦ (r, lookup-insert_other run.id i run s.runs e ∙ p, q)
  ]

pub option_cases {ℓ} : {A : Type ℓ} (m : Option A) → (m ≡ none) ⊎ ((a : A) × (m ≡ some a))
option_cases none = inl refl
option_cases (some a) = inr (a, refl)

pub validate_cases : (r : State) → (validate r ≡ ok tt) ⊎ ((e : RunError) × (validate r ≡ err e))
unfolding validate
validate_cases r = elim (Bool-cases (is_empty r.id)) [
  | inl e ↦ rw e (inr (_, refl))
  | inr e ↦ elim (Bool-cases (is_empty r.workflow_id)) [
    | inl f ↦ rw (e, f) (inr (_, refl))
    | inr f ↦ rw (e, f) (inl refl)
  ]
]

-- The store that is returned, if one is, is sound, and the run that is returned is in it.
abbrev pub Keeps : Outcome RunError (MemStore × State) → Type 0
Keeps (ok (s, r)) = IsSound s × (lookup r.id s.runs ≡ some r)
Keeps (err e) = Unit
Keeps panic = Unit

written-IsSound :
    (s : MemStore) (run old : State)
    → IsSound s
    → validate run ≡ ok tt
    → lookup run.id s.runs ≡ some old
    → old.workflow_id ≡ run.workflow_id
    → IsSound (written s run)
written-IsSound s run old sound v found same = record {
  runs_sound = written-IsStored s run sound v;
  workflows_sound = λ w m h.
      let t = sound.workflows_sound w m h in
      record {
        counted = t.counted;
        some_run = t.some_run;
        stored = λ i q.
            written-keeps s run i w (λ e. sym same ∙ own_workflow w i e (t.stored i q))
              (t.stored i q);
      };
}
  where
    own_workflow :
        (w i : Text)
        → i ≡ run.id
        → ((r : State) × (lookup i s.runs ≡ some r) × (r.workflow_id ≡ w))
        → old.workflow_id ≡ w
    own_workflow w i e (r, p, q) =
        let got : some old ≡ some r = sym found ∙ ap (λ k. lookup k s.runs) (sym e) ∙ p in
        ground (arith, got, q)

pub put-Keeps : (s : MemStore) (r : Option State) → IsSound s → Keeps (put r s)
unfolding put get
put-Keeps s none sound = tt
put-Keeps s (some run) sound = elim (Bool-cases (is_empty run.id)) [
  | inl e ↦ rw e tt
  | inr e ↦ elim (option_cases (lookup run.id s.runs)) [
    | inl n ↦ rw (e, n) tt
    | inr (old, q) ↦ elim (Bool-cases (text_eq old.workflow_id run.workflow_id)) [
      | inr d ↦ rw (e, q, d) tt
      | inl d ↦ elim (validate_cases run) [
        | inl v ↦
            rw (e, q, d, v)
              (
                written-IsSound s run old sound v q ((text_eq_iff _ _).0 d),
                lookup-insert_same run.id run s.runs,
              )
        | inr (x, v) ↦ rw (e, q, d, v) tt
      ]
    ]
  ]
]
