-- ===== src/Logbook/History/Latest.antt =====
-- `latestSavePath` against the newest version that `branchToVersionInfos` lists.
use repo_4636_qri.Prelude.{
  ℕ, zero, suc, ◌≡◌, refl, sym, subst, ◌∙◌, inl, inr, Bool, true, false, ◌&&◌, ◌||◌, some, List, [],
  ◌∷◌, ◌++◌, Text, is_empty, if◌then◌else◌, ◌==◌, Outcome, ok, err, panic, ◌>>=◌, arith, Bool-cases,
}
use mathlib.Core.List.{reverse, reverse-cons}
use repo_4636_qri.Dsref.Ref.{Ref}
use repo_4636_qri.Oplog.Op.{Op, op_type_init, op_type_amend, op_type_remove}
use repo_4636_qri.Oplog.Log.{LogError}
use repo_4636_qri.Dsref.VersionInfo.{VersionInfo}
use repo_4636_qri.Logbook.Models.{commit_model}
use repo_4636_qri.Logbook.History.{
  publish, joins_run, commit_op_run_id, add_commit_details_to_run_item, version_info_from_op,
  run_item_from_op, branch_to_version_infos, latest_save_path, save_path_loop,
}
use repo_4636_qri.Logbook.History.Stack.{Versions, save, amend, mark, stack_op, stack_ops}
use repo_4636_qri.Logbook.History.Refines.{branch_to_version_infos-stack}

-- The operation writes a commit: it saves one or amends the last.
abbrev pub is_save : Op → Bool
is_save op = (op.model == commit_model) && ((op.type == op_type_init) || (op.type == op_type_amend))

abbrev pub is_delete : Op → Bool
is_delete op = (op.model == commit_model) && (op.type == op_type_remove)

-- No commit is deleted, and every commit has a path.
abbrev pub OnlySaves : List Op → Type 0
OnlySaves [] = Unit
OnlySaves (op ∷ ops) =
    (is_delete op ≡ false) × (is_save op ≡ true → is_empty op.ref ≡ false) × OnlySaves ops

-- The path of the newest version that has one.
pub latest_path : Versions → Text
latest_path [] = []
latest_path (v ∷ vs) = let rest = latest_path vs in if is_empty v.path then rest else v.path

last_ref : Text → List Op → Text
last_ref acc [] = acc
last_ref acc (op ∷ ops) = last_ref (if is_save op then op.ref else acc) ops

newest_ref : Text → List Op → Text
newest_ref acc [] = acc
newest_ref acc (op ∷ ops) = let rest = newest_ref acc ops in if is_save op then op.ref else rest

newest_ref-snoc :
    (acc : Text) (ops : List Op) (op : Op)
    → newest_ref acc (ops ++ op ∷ []) ≡ newest_ref (if is_save op then op.ref else acc) ops
unfolding newest_ref
newest_ref-snoc acc [] op = refl
newest_ref-snoc acc (o ∷ ops) op = rw (newest_ref-snoc acc ops op) refl

newest_ref-reverse : (acc : Text) (ops : List Op) → newest_ref acc (reverse ops) ≡ last_ref acc ops
newest_ref-reverse acc [] = unfold newest_ref last_ref in refl
newest_ref-reverse acc (op ∷ ops) =
    rw (reverse-cons, newest_ref-snoc)
      (newest_ref-reverse (if is_save op then op.ref else acc) ops ∙ (unfold last_ref in refl))

-- The versions that are returned, if any are, have the path.
abbrev pub PathIs : Text → Outcome LogError Versions → Type 0
PathIs t (ok vs) = latest_path vs ≡ t
PathIs t (err e) = Unit
PathIs t panic = Unit

PathIs-publish :
    (b : Bool) (v : VersionInfo) (vs : Versions) (m : Outcome LogError Versions)
    → PathIs (latest_path vs) m
    → PathIs (latest_path (v ∷ vs)) (m >>= λ r. ok (publish b v ∷ r))
PathIs-publish b v vs (ok r) h = unfold latest_path in rw h refl
PathIs-publish b v vs (err e) h = tt
PathIs-publish b v vs panic h = tt

mark-PathIs : (b : Bool) (n : ℕ) (vs : Versions) → PathIs (latest_path vs) (mark b n vs)
unfolding mark
mark-PathIs b zero vs = refl
mark-PathIs b (suc n) [] = tt
mark-PathIs b (suc n) (v ∷ vs) = PathIs-publish b v vs (mark b n vs) (mark-PathIs b n vs)

save-latest_path :
    (ref : Ref) (op : Op) (vs : Versions)
    → is_empty op.ref ≡ false
    → latest_path (save ref op vs) ≡ op.ref
save-latest_path ref op [] h = unfold save latest_path version_info_from_op in rw h refl
save-latest_path ref op (v ∷ vs) h = elim (Bool-cases (joins_run (commit_op_run_id op) (some v))) [
  | inl e ↦ unfold save latest_path add_commit_details_to_run_item in rw (e, h) refl
  | inr e ↦ unfold save latest_path version_info_from_op in rw (e, h) refl
]

amend-PathIs :
    (ref : Ref) (op : Op) (vs : Versions)
    → is_empty op.ref ≡ false
    → PathIs op.ref (amend ref op vs)
amend-PathIs ref op [] h = unfold amend in tt
amend-PathIs ref op (v ∷ vs) h = unfold amend latest_path version_info_from_op in rw h refl

stack_op-PathIs :
    (ref : Ref) (op : Op) (vs : Versions)
    → is_delete op ≡ false
    → (is_save op ≡ true → is_empty op.ref ≡ false)
    → PathIs (if is_save op then op.ref else latest_path vs) (stack_op ref op vs)
unfolding stack_op
stack_op-PathIs ref op vs d s = ground (
  arith,
  save-latest_path ref op vs,
  amend-PathIs ref op vs,
  mark-PathIs true op.size vs,
  mark-PathIs false op.size vs,
  run_item-latest_path ref op vs,
)
  where
    run_item-latest_path :
        (ref : Ref) (op : Op) (vs : Versions)
        → latest_path (run_item_from_op ref op ∷ vs) ≡ latest_path vs
    run_item-latest_path ref op vs = unfold latest_path run_item_from_op is_empty in refl

stack_ops-PathIs :
    (ref : Ref) (ops : List Op) (vs : Versions)
    → OnlySaves ops
    → PathIs (last_ref (latest_path vs) ops) (stack_ops ref ops vs)
unfolding stack_ops last_ref
stack_ops-PathIs ref [] vs h = refl
stack_ops-PathIs ref (op ∷ ops) vs (d, s, h) =
    next (stack_op ref op vs) (stack_op-PathIs ref op vs d s) (λ r. stack_ops-PathIs ref ops r h)
  where
    next :
        (m : Outcome LogError Versions)
        → PathIs (if is_save op then op.ref else latest_path vs) m
        → ((r : Versions) → PathIs (last_ref (latest_path r) ops) (stack_ops ref ops r))
        → PathIs
            (last_ref (if is_save op then op.ref else latest_path vs) ops)
            (m >>= stack_ops ref ops)
    next (ok r) e ih = subst (λ t. PathIs (last_ref t ops) (stack_ops ref ops r)) e (ih r)
    next (err x) e ih = tt
    next panic e ih = tt

abbrev NoDelete : List Op → Type 0
NoDelete [] = Unit
NoDelete (op ∷ ops) = (is_delete op ≡ false) × NoDelete ops

NoDelete-snoc :
    (ops : List Op) (op : Op) → NoDelete ops → is_delete op ≡ false → NoDelete (ops ++ op ∷ [])
NoDelete-snoc [] op h d = (d, tt)
NoDelete-snoc (o ∷ ops) op (e, h) d = (e, NoDelete-snoc ops op h d)

NoDelete-reverse : (ops : List Op) → OnlySaves ops → NoDelete (reverse ops)
NoDelete-reverse [] h = tt
NoDelete-reverse (op ∷ ops) (d, s, h) =
    subst NoDelete (sym (reverse-cons op ops))
      (NoDelete-snoc (reverse ops) op (NoDelete-reverse ops h) d)

save_path_loop-newest_ref :
    (ops : List Op) → NoDelete ops → save_path_loop 0 ops ≡ newest_ref [] ops
save_path_loop-newest_ref [] h = unfold save_path_loop newest_ref in refl
save_path_loop-newest_ref (op ∷ ops) (d, h) =
    save_path_loop-next op ops d (save_path_loop-newest_ref ops h)
  where
    save_path_loop-next :
        (op : Op) (ops : List Op)
        → is_delete op ≡ false
        → save_path_loop 0 ops ≡ newest_ref [] ops
        → save_path_loop 0 (op ∷ ops) ≡ newest_ref [] (op ∷ ops)
    save_path_loop-next op ops d ih = unfold save_path_loop newest_ref in ground arith

latest_path-nil : latest_path [] ≡ []
unfolding latest_path
latest_path-nil = refl

-- For a branch log in which no commit is deleted and every commit has a path, if
-- `branchToVersionInfos` returns the versions, `latestSavePath` returns the path of the newest
-- version that has one, and the empty path if none has.
pub latest_save_path-newest :
    (ref : Ref) (ops : List Op) (vs : Versions)
    → OnlySaves ops
    → branch_to_version_infos true ref ops ≡ ok vs
    → latest_save_path ops ≡ latest_path vs
unfolding latest_save_path
latest_save_path-newest ref ops vs h b =
    save_path_loop-newest_ref (reverse ops) (NoDelete-reverse ops h)
    ∙ newest_ref-reverse [] ops
    ∙ sym (
        subst (PathIs (last_ref [] ops)) (sym (branch_to_version_infos-stack ref ops) ∙ b) (
          subst (λ t. PathIs (last_ref t ops) (stack_ops ref ops [])) latest_path-nil
            (stack_ops-PathIs ref ops [] h)))
