-- ===== src/Workflow/Set.antt =====
-- Sets of workflows (`Set` in automation/workflow/workflow.go). `sort` stands for `sort.Sort` with
-- the set's order. The methods are those of a receiver that is not nil.
use repo_4636_qri.Prelude.{
  ◌-◌, Bool, true, false, ◌||◌, Option, none, some, List, [], ◌∷◌, ◌++◌, Text, text_eq,
  if◌then◌else◌, length, take, drop, Outcome, ok, panic,
}
use repo_4636_qri.Prelude.Int.{ℤ, pos, ltb_ℤ, pos_part}
use repo_4636_qri.Workflow.{Workflow, WorkflowError}

abbrev pub Set : Type 0
Set = List Workflow

-- The loop of `Add`: the set with `j` in the place of the workflow with its id, if there is one.
unfoldable pub replace : Workflow → Set → Option Set
replace j [] = none
replace j (w ∷ ws) =
    let rest = replace j ws in
    if text_eq w.id j.id then some (j ∷ ws) else elim rest [ none ↦ none | some s ↦ some (w ∷ s) ]

unfoldable pub add : (Set → Set) → Workflow → Set → Set
unfolding replace
add sort j s = elim (replace j s) [ some r ↦ r | none ↦ sort (s ++ j ∷ []) ]

-- The set that is left, and whether a workflow was removed.
unfoldable pub remove : Text → Set → Set × Bool
remove id [] = ([], false)
remove id (w ∷ ws) =
    let rest = remove id ws in if text_eq w.id id then (ws, true) else (w ∷ rest.0, rest.1)

-- `s.set[start:end]` panics if `end` is before `start`.
unfoldable pub slice : ℤ → ℤ → Set → Outcome WorkflowError (List Workflow)
slice start end s =
    if ltb_ℤ start (pos 0) || ltb_ℤ end (pos 0)
    then ok []
    else let stop = if ltb_ℤ (pos (length s)) end then pos (length s) else end in
      if ltb_ℤ stop start
      then panic
      else ok (take (pos_part stop - pos_part start) (drop (pos_part start) s))
