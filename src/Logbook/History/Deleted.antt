-- ===== src/Logbook/History/Deleted.antt =====
-- `latestSavePath` and `branchToVersionInfos` after a commit is saved and deleted.
use repo_4636_qri.Prelude.{
  ◌≡◌, refl, sym, ap, ◌∙◌, true, List, [], ◌∷◌, ◌++◌, is_empty, Outcome, ok, err, panic, ◌>>=◌,
  arith,
}
use mathlib.Core.List.{reverse-append}
use repo_4636_qri.Dsref.Ref.{Ref}
use repo_4636_qri.Oplog.Op.{Op, op_type_init, op_type_remove}
use repo_4636_qri.Oplog.Log.{LogError}
use repo_4636_qri.Dsref.VersionInfo.{VersionInfo}
use repo_4636_qri.Logbook.Models.{commit_model}
use repo_4636_qri.Logbook.History.{
  joins_run, commit_op_run_id, version_info_from_op, branch_to_version_infos, latest_save_path,
  save_path_loop,
}
use repo_4636_qri.Logbook.History.Stack.{Versions, save, pop, stack_op, stack_ops}
use repo_4636_qri.Logbook.History.Refines.{branch_to_version_infos-stack}

stack_ops-append :
    (ref : Ref) (a b : List Op) (vs : Versions)
    → stack_ops ref (a ++ b) vs ≡ (stack_ops ref a vs >>= stack_ops ref b)
unfolding stack_ops
stack_ops-append ref [] b vs = refl
stack_ops-append ref (op ∷ a) b vs = next (stack_op ref op vs) (stack_ops-append ref a b)
  where
    next :
        (m : Outcome LogError Versions)
        → ((r : Versions) → stack_ops ref (a ++ b) r ≡ (stack_ops ref a r >>= stack_ops ref b))
        → (m >>= stack_ops ref (a ++ b)) ≡ ((m >>= stack_ops ref a) >>= stack_ops ref b)
    next (ok r) ih = ih r
    next (err e) ih = refl
    next panic ih = refl

-- A commit that is saved outside a run.
abbrev pub IsSave : Op → Type 0
IsSave op = (op.model ≡ commit_model) × (op.type ≡ op_type_init) × (commit_op_run_id op ≡ [])

-- The deletion of the last commit.
abbrev pub IsDeleteOne : Op → Type 0
IsDeleteOne op = (op.model ≡ commit_model) × (op.type ≡ op_type_remove) × (op.size ≡ 1)

save-push :
    (ref : Ref) (op : Op) (vs : Versions)
    → commit_op_run_id op ≡ []
    → save ref op vs ≡ version_info_from_op ref op ∷ vs
save-push ref op [] h = unfold save in refl
save-push ref op (v ∷ vs) h = unfold save joins_run is_empty in rw h refl

stack_op-save :
    (ref : Ref) (op : Op) (vs : Versions)
    → IsSave op
    → stack_op ref op vs ≡ ok (version_info_from_op ref op ∷ vs)
unfolding stack_op
stack_op-save ref op vs (m, t, c) = ground (arith, m, t, save-push ref op vs c)

stack_op-delete :
    (ref : Ref) (op : Op) (v : VersionInfo) (vs : Versions)
    → IsDeleteOne op
    → stack_op ref op (v ∷ vs) ≡ ok vs
unfolding stack_op pop
stack_op-delete ref op v vs (m, t, n) = ground (arith, m, t, ap (λ k. pop k (v ∷ vs)) n)

save_delete :
    (ref : Ref) (op del : Op) (vs : Versions)
    → IsSave op
    → IsDeleteOne del
    → stack_ops ref (op ∷ del ∷ []) vs ≡ ok vs
unfolding stack_ops
save_delete ref op del vs s d =
    rw (stack_op-save ref op vs s)
      (rw (stack_op-delete ref del (version_info_from_op ref op) vs d) refl)

save_delete-stack_ops :
    (ref : Ref) (ops : List Op) (op del : Op)
    → IsSave op
    → IsDeleteOne del
    → stack_ops ref (ops ++ op ∷ del ∷ []) [] ≡ stack_ops ref ops []
save_delete-stack_ops ref ops op del s d =
    stack_ops-append ref ops (op ∷ del ∷ []) [] ∙ same (stack_ops ref ops [])
  where
    same : (m : Outcome LogError Versions) → (m >>= stack_ops ref (op ∷ del ∷ [])) ≡ m
    same (ok r) = save_delete ref op del r s d
    same (err e) = refl
    same panic = refl

latest_save_path-deleted :
    (ops : List Op) (op del : Op)
    → IsSave op
    → IsDeleteOne del
    → latest_save_path (ops ++ op ∷ del ∷ []) ≡ op.ref
unfolding latest_save_path save_path_loop
latest_save_path-deleted ops op del (m, t, c) (m', t', n) =
    rw (reverse-append ops (op ∷ del ∷ []), m, t, m', t', n) refl

-- After a commit is saved outside a run and then deleted, whatever the branch log held before,
-- `branchToVersionInfos` lists the versions it listed before the two operations, while
-- `latestSavePath` returns the path of the deleted commit.
pub latest_save_path-stale :
    (ref : Ref) (ops : List Op) (op del : Op)
    → IsSave op
    → IsDeleteOne del
    → (branch_to_version_infos true ref (ops ++ op ∷ del ∷ [])
        ≡ branch_to_version_infos true ref ops)
      × (latest_save_path (ops ++ op ∷ del ∷ []) ≡ op.ref)
latest_save_path-stale ref ops op del s d = (
  branch_to_version_infos-stack ref (ops ++ op ∷ del ∷ [])
      ∙ save_delete-stack_ops ref ops op del s d
      ∙ sym (branch_to_version_infos-stack ref ops),
  latest_save_path-deleted ops op del s d,
)
