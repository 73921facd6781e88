-- ===== src/Automation/TriggerSet.antt =====
-- `Set` of automation/trigger/trigger.go: the active triggers by owner and by workflow. A trigger is
-- its id, as the code compares no more. `construct` stands for the constructor of a trigger type over
-- options of the type `Opts`; its second argument is the id that it draws where the options have none
-- (automation/trigger/cron.go, automation/trigger/runtime.go). The n-th call of a constructor that an
-- operation makes draws `draw n`. A source gives its active triggers of the type of the set.
pub mod Finding
use repo_4636_qri.Prelude.{
  ℕ, ◌+◌, Bool, true, false, not, ◌&&◌, Option, none, some, List, [], ◌∷◌, Text, text_eq, is_empty,
  if◌then◌else◌, ◌==◌, length, Outcome, ok, err, panic, ◌>>=◌,
}
use repo_4636_qri.Prelude.Dict.{Pair, lookup, insert}

pub data TriggerError : Type 0 where
  empty_workflow_id empty_owner_id construct_failed : TriggerError

abbrev pub Workflows : Type 0
Workflows = List (Pair (List Text))

abbrev pub Active : Type 0
Active = List (Pair Workflows)

-- `delete(m, k)`: a map has a key once.
unfoldable pub delete {ℓ} : {A : Type ℓ} → Text → List (Pair A) → List (Pair A)
delete k [] = []
delete k (p ∷ ps) = let rest = delete k ps in if text_eq p.key k then ps else p ∷ rest

module _ (Opts : Type 0) (construct : Opts → Text → Option Text) where
  pub record Source : Type 0 where
    pub workflow_id : Text
    pub owner : Text
    pub active_triggers : List Opts

  unfoldable pub construct_all : (ℕ → Text) → ℕ → List Opts → Outcome TriggerError (List Text)
  construct_all draw n [] = ok []
  construct_all draw n (o ∷ os) = elim (construct o (draw n)) [
    | none ↦ err construct_failed
    | some t ↦ construct_all draw (n + 1) os >>= λ ts. ok (t ∷ ts)
  ]

  -- The branch for a source without triggers, on what the set has of its owner and workflow.
  unfoldable pub remove_source : Text → Text → Active → Active
  unfolding lookup insert delete
  remove_source owner workflow active = elim (lookup owner active) [
    | none ↦ active
    | some wfs ↦ if length wfs == 0 then delete owner active else elim (lookup workflow wfs) [
      | none ↦ active
      | some ts ↦
          if length wfs == 1 then delete owner active else insert owner (delete workflow wfs) active
    ]
  ]

  unfoldable pub put_source : Text → Text → List Text → Active → Active
  unfolding remove_source
  put_source owner workflow [] active = remove_source owner workflow active
  put_source owner workflow (t ∷ ts) active = elim (lookup owner active) [
    | none ↦ insert owner (record { key = workflow; value = t ∷ ts } ∷ []) active
    | some wfs ↦ insert owner (insert workflow (t ∷ ts) wfs) active
  ]

  -- One round of `Add`.
  unfoldable pub add_source : (ℕ → Text) → ℕ → Source → Active → Outcome TriggerError Active
  add_source draw n s active =
      let put = construct_all draw n s.active_triggers >>= λ ts.
      ok (put_source s.owner s.workflow_id ts active) in
      if is_empty s.workflow_id
      then err empty_workflow_id
      else if is_empty s.owner
      then err empty_owner_id
      else put

  -- `Add` returns at the first error, with the sources before it added.
  unfoldable pub add : (ℕ → Text) → ℕ → List Source → Active → Option TriggerError × Active
  add draw n [] active = (none, active)
  add draw n (s ∷ sources) active = elim (add_source draw n s active) [
    | ok active' ↦ add draw (n + length s.active_triggers) sources active'
    | err e ↦ (some e, active)
    | panic ↦ (none, active)
  ]

  unfoldable pub same_triggers : (ℕ → Text) → ℕ → List Opts → List Text → Bool
  same_triggers draw n [] ts = true
  same_triggers draw n (o ∷ os) [] = true
  same_triggers draw n (o ∷ os) (t ∷ ts) =
      let rest = same_triggers draw (n + 1) os ts in
      elim (construct o (draw n)) [ none ↦ false | some u ↦ if text_eq u t then rest else false ]

  unfoldable pub exists : (ℕ → Text) → Source → Active → Bool
  exists draw s active = elim (lookup s.owner active) [
    | none ↦ false
    | some wids ↦ elim (lookup s.workflow_id wids) [
      | none ↦ false
      | some ts ↦
          if length s.active_triggers == length ts
          then same_triggers draw 0 s.active_triggers ts
          else false
    ]
  ]
