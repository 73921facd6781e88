-- ===== src/Workflow.antt =====
-- Workflows (automation/workflow/workflow.go): validation, the active triggers, and the order of a
-- set of workflows. The options of a trigger are a map to values of any type, of which the code asks
-- for strings and booleans.
pub mod Order
pub mod Set
pub mod Store
mod Examples
use repo_4636_qri.Prelude.{
  Bool, true, false, not, ◌&&◌, Option, none, some, List, [], ◌∷◌, Text, codes, text_eq, is_empty,
  if◌then◌else◌, Outcome, ok, err,
}
use repo_4636_qri.Prelude.Int.{ℤ, ltb_ℤ}
use repo_4636_qri.Prelude.Dict.{Pair, lookup}

pub data Value : Type 0 where
  text_value : Text → Value
  bool_value : Bool → Value
  other_value : Value

abbrev pub Options : Type 0
Options = List (Pair Value)

pub record Workflow : Type 0 where
  pub id : Text
  pub init_id : Text
  pub owner_id : Text
  pub created : Option ℤ
  pub active : Bool
  pub triggers : List Options
  pub hooks : List Options

-- The errors of this file and of store.go.
pub data WorkflowError : Type 0 where
  nil_workflow no_workflow_id no_init_id no_owner_id nil_created : WorkflowError
  not_found workflow_exists : WorkflowError

-- `Validate` of a workflow that is not nil.
unfoldable pub validate : Workflow → Outcome WorkflowError (Unit {0})
unfolding is_empty
validate w =
    if is_empty w.id
    then err no_workflow_id
    else if is_empty w.init_id
    then err no_init_id
    else if is_empty w.owner_id
    then err no_owner_id
    else elim w.created [ none ↦ err nil_created | some t ↦ ok tt ]

-- `t[key].(string)` and `t[key].(bool)`
unfoldable pub text_option : Text → Options → Option Text
unfolding lookup
text_option key t = elim (lookup key t) [
  | none ↦ none
  | some v ↦ elim v [ text_value s ↦ some s | bool_value b ↦ none | other_value ↦ none ]
]

unfoldable pub bool_option : Text → Options → Option Bool
unfolding lookup
bool_option key t = elim (lookup key t) [
  | none ↦ none
  | some v ↦ elim v [ text_value s ↦ none | bool_value b ↦ some b | other_value ↦ none ]
]

-- Whether the loop of `ActiveTriggers` appends the trigger.
unfoldable pub is_active_trigger : Text → Options → Bool
unfolding text_option bool_option
is_active_trigger trigger_type t = elim (text_option (codes "id") t) [
  | none ↦ false
  | some id ↦ elim (bool_option (codes "active") t) [
    | none ↦ false
    | some active ↦ elim (text_option (codes "type") t) [
      | none ↦ false
      | some trig_type ↦ active && text_eq trig_type trigger_type
    ]
  ]
]

active_loop : Text → List Options → List Options
unfolding is_active_trigger
active_loop trigger_type [] = []
active_loop trigger_type (t ∷ ts) =
    let rest = active_loop trigger_type ts in
    if is_active_trigger trigger_type t then t ∷ rest else rest

unfoldable pub active_triggers : Text → Workflow → List Options
unfolding active_loop
active_triggers trigger_type w = if not w.active then [] else active_loop trigger_type w.triggers

-- `lessNilTime`: newer times come first, behind the nil times.
unfoldable pub less_nil_time : Option ℤ → Option ℤ → Bool
less_nil_time none (some b) = true
less_nil_time (some a) none = false
less_nil_time none none = false
less_nil_time (some a) (some b) = ltb_ℤ b a
