-- ===== src/Logbook/History/Stack.antt =====
-- The collapse of a branch log as a stack of versions, newest first.
use repo_4636_qri.Prelude.{
  ℕ, zero, suc, Bool, true, false, some, List, [], ◌∷◌, if◌then◌else◌, ◌==◌, Outcome, ok, panic,
  ◌>>=◌,
}
use repo_4636_qri.Dsref.Ref.{Ref}
use repo_4636_qri.Oplog.Op.{Op, op_type_init, op_type_amend, op_type_remove}
use repo_4636_qri.Oplog.Log.{LogError}
use repo_4636_qri.Dsref.VersionInfo.{VersionInfo}
use repo_4636_qri.Logbook.Models.{commit_model, push_model, run_model}
use repo_4636_qri.Logbook.History.{
  publish, joins_run, commit_op_run_id, add_commit_details_to_run_item, version_info_from_op,
  run_item_from_op,
}

abbrev pub Versions : Type 0
Versions = List VersionInfo

-- The newest version takes the details of a commit that belongs to its run.
unfoldable pub save : Ref → Op → Versions → Versions
save ref op [] = version_info_from_op ref op ∷ []
save ref op (v ∷ vs) =
    if joins_run (commit_op_run_id op) (some v)
    then add_commit_details_to_run_item v op ∷ vs
    else version_info_from_op ref op ∷ v ∷ vs

unfoldable pub amend : Ref → Op → Versions → Outcome LogError Versions
amend ref op [] = panic
amend ref op (v ∷ vs) = ok (version_info_from_op ref op ∷ vs)

unfoldable pub pop : ℕ → Versions → Outcome LogError Versions
pop zero vs = ok vs
pop (suc n) [] = panic
pop (suc n) (v ∷ vs) = pop n vs

unfoldable pub mark : Bool → ℕ → Versions → Outcome LogError Versions
mark b zero vs = ok vs
mark b (suc n) [] = panic
mark b (suc n) (v ∷ vs) = mark b n vs >>= λ r. ok (publish b v ∷ r)

unfoldable pub stack_op : Ref → Op → Versions → Outcome LogError Versions
stack_op ref op vs =
    if op.model == commit_model
    then (if op.type == op_type_init
        then ok (save ref op vs)
        else if op.type == op_type_amend
        then amend ref op vs
        else if op.type == op_type_remove
        then pop op.size vs
        else ok vs)
    else if op.model == run_model
    then ok (run_item_from_op ref op ∷ vs)
    else if op.model == push_model
    then (if op.type == op_type_init
        then mark true op.size vs
        else if op.type == op_type_remove
        then mark false op.size vs
        else ok vs)
    else ok vs

unfoldable pub stack_ops : Ref → List Op → Versions → Outcome LogError Versions
stack_ops ref [] vs = ok vs
stack_ops ref (op ∷ ops) vs = stack_op ref op vs >>= stack_ops ref ops
