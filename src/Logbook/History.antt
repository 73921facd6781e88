-- ===== src/Logbook/History.antt =====
-- Collapsing a branch log into versions (`branchToVersionInfos`, `latestSavePath`,
-- `addReferencedPaths` and their helpers in logbook/logbook.go). A slice that is cut or indexed out of
-- its range is a panic. Sizes of operations are not negative.
pub mod Stack
mod Slices
pub mod Refines
pub mod Latest
pub mod Deleted
use repo_4636_qri.Prelude.{
  ℕ, zero, suc, ◌+◌, ◌-◌, Bool, true, false, not, ◌&&◌, Option, none, some, List, [], ◌∷◌, ◌++◌,
  Text, codes, text_eq, is_empty, if◌then◌else◌, ◌==◌, ltb, leb, length, after_prefix, take, drop,
  set, get_elem?, Outcome, ok, err, panic, ◌>>=◌,
}
use mathlib.Core.List.{reverse}
use repo_4636_qri.Prelude.Int.{ℤ, pos, negsuc, ltb_ℤ, pos_part}
use repo_4636_qri.Dsref.Ref.{Ref}
use repo_4636_qri.Oplog.Op.{Op, op_type_init, op_type_amend, op_type_remove}
use repo_4636_qri.Oplog.Log.{LogError}
use repo_4636_qri.Dsref.VersionInfo.{VersionInfo, empty_version_info}
use repo_4636_qri.Logbook.Models.{commit_model, push_model, run_model}

abbrev pub run_id_rel_prefix : Text
run_id_rel_prefix = codes "runID:"

unfoldable pub first_run_id : List Text → Text
unfolding after_prefix
first_run_id [] = []
first_run_id (str ∷ strs) =
    let rest = first_run_id strs in
    elim (after_prefix run_id_rel_prefix str) [ some r ↦ r | none ↦ rest ]

unfoldable pub commit_op_run_id : Op → Text
unfolding first_run_id
commit_op_run_id op = first_run_id op.relations

unfoldable pub version_info_from_op : Ref → Op → VersionInfo
version_info_from_op ref op = record empty_version_info {
  username = ref.username;
  profile_id = ref.profile_id;
  name = ref.name;
  path = op.ref;
  commit_time = some op.timestamp;
  commit_title = op.note;
  body_size = op.size;
}

unfoldable pub run_item_from_op : Ref → Op → VersionInfo
run_item_from_op ref op = record empty_version_info {
  username = ref.username;
  profile_id = ref.profile_id;
  name = ref.name;
  run_id = op.ref;
  run_status = op.note;
  run_duration = pos op.size;
  run_start = some op.timestamp;
}

unfoldable pub add_commit_details_to_run_item : VersionInfo → Op → VersionInfo
add_commit_details_to_run_item li op = record li {
  commit_time = some op.timestamp;
  commit_title = op.note;
  body_size = op.size;
  path = op.ref;
}

-- `refs[len(refs)-1]`
unfoldable pub last_of : List VersionInfo → Option VersionInfo
last_of refs = if ltb 0 (length refs) then get_elem? refs (length refs - 1) else none

-- `refs[len(refs)-1] = v`
unfoldable pub set_last : List VersionInfo → VersionInfo → Outcome LogError (List VersionInfo)
set_last refs v = if ltb 0 (length refs) then ok (set refs (length refs - 1) v) else panic

-- `refs[:len(refs)-n]`
unfoldable pub cut_last : ℕ → List VersionInfo → Outcome LogError (List VersionInfo)
cut_last n refs = if leb n (length refs) then ok (take (length refs - n) refs) else panic

abbrev pub publish : Bool → VersionInfo → VersionInfo
publish b v = record v { published = b }

abbrev publish_at : Bool → List VersionInfo → ℕ → List VersionInfo
publish_at b refs i = elim (get_elem? refs i) [ none ↦ refs | some v ↦ set refs i (publish b v) ]

-- `for i := 1; i <= n; i++ { refs[len(refs)-i].Published = b }`, with `rounds` left and `i` next
unfoldable pub publish_loop : Bool → ℕ → ℕ → List VersionInfo → Outcome LogError (List VersionInfo)
publish_loop b zero i refs = ok refs
publish_loop b (suc rounds) i refs =
    let next = publish_loop b rounds (i + 1) (publish_at b refs (length refs - i)) in
    if leb i (length refs) then next else panic

-- The variables of the loop.
pub record Collapse : Type 0 where
  pub refs : List VersionInfo
  pub delete_at_end : ℕ

abbrev with_refs : Collapse → Outcome LogError (List VersionInfo) → Outcome LogError Collapse
with_refs s r = r >>= λ refs. ok (record s { refs = refs })

-- `commitRunID != "" && len(refs) > 0 && commitRunID == refs[len(refs)-1].RunID`
unfoldable pub joins_run : Text → Option VersionInfo → Bool
unfolding is_empty
joins_run run_id none = false
joins_run run_id (some v) = not (is_empty run_id) && text_eq run_id v.run_id

unfoldable pub commit_init :
    Ref → Op → Option VersionInfo → List VersionInfo → Outcome LogError (List VersionInfo)
commit_init ref op none refs = ok (refs ++ version_info_from_op ref op ∷ [])
commit_init ref op (some v) refs =
    if joins_run (commit_op_run_id op) (some v)
    then set_last refs (add_commit_details_to_run_item v op)
    else ok (refs ++ version_info_from_op ref op ∷ [])

unfoldable pub collapse_commit : Bool → Ref → Op → Collapse → Outcome LogError Collapse
collapse_commit collapse_all ref op s =
    if op.type == op_type_init
    then with_refs s (commit_init ref op (last_of s.refs) s.refs)
    else if op.type == op_type_amend
    then with_refs (record s { delete_at_end = 0 }) (set_last s.refs (version_info_from_op ref op))
    else if op.type == op_type_remove
    then (if collapse_all
        then with_refs s (cut_last op.size s.refs)
        else ok (record s { delete_at_end = s.delete_at_end + op.size }))
    else ok s

unfoldable pub collapse_push : Op → Collapse → Outcome LogError Collapse
collapse_push op s =
    if op.type == op_type_init
    then with_refs s (publish_loop true op.size 1 s.refs)
    else if op.type == op_type_remove
    then with_refs s (publish_loop false op.size 1 s.refs)
    else ok s

-- One round of the loop over the operations.
unfoldable pub collapse_op : Bool → Ref → Op → Collapse → Outcome LogError Collapse
collapse_op collapse_all ref op s =
    if op.model == commit_model
    then collapse_commit collapse_all ref op s
    else if op.model == run_model
    then ok (record s { refs = s.refs ++ run_item_from_op ref op ∷ [] })
    else if op.model == push_model
    then collapse_push op s
    else ok s

unfoldable pub collapse_ops : Bool → Ref → List Op → Collapse → Outcome LogError Collapse
collapse_ops collapse_all ref [] s = ok s
collapse_ops collapse_all ref (op ∷ ops) s =
    collapse_op collapse_all ref op s >>= collapse_ops collapse_all ref ops

-- The lines behind the loop; the swaps of the last loop reverse the slice.
unfoldable pub finish_collapse : Collapse → List VersionInfo
finish_collapse s = reverse (
    if ltb 0 s.delete_at_end
    then (if ltb s.delete_at_end (length s.refs)
        then take (length s.refs - s.delete_at_end) s.refs
        else [])
    else s.refs)

unfoldable pub branch_to_version_infos : Bool → Ref → List Op → Outcome LogError (List VersionInfo)
branch_to_version_infos collapse_all ref ops = do
  s ← collapse_ops collapse_all ref ops (record { refs = []; delete_at_end = 0 })
  ok (finish_collapse s)

-- `term` of `filteredBranchToVersionInfos`: "history", "run", or any other text.
pub data Term : Type 0 where
  history run all : Term

keep_if : (VersionInfo → Bool) → List VersionInfo → List VersionInfo
keep_if p [] = []
keep_if p (v ∷ vs) = let rest = keep_if p vs in if p v then v ∷ rest else rest

unfoldable pub filter_term : Term → List VersionInfo → List VersionInfo
unfolding keep_if is_empty
filter_term history refs = keep_if (λ v. not (is_empty v.path)) refs
filter_term run refs = keep_if (λ v. not (is_empty v.run_id)) refs
filter_term all refs = refs

-- `refs[offset:]` and `refs[:limit]`; a negative offset is out of range.
unfoldable pub paginate : ℤ → ℤ → List VersionInfo → Outcome LogError (List VersionInfo)
paginate (negsuc k) limit refs = panic
paginate (pos offset) limit refs =
    let start = if ltb (length refs) offset then length refs else offset in
    let rest = drop start refs in
    ok (
      if ltb_ℤ limit (pos (length rest)) && not (ltb_ℤ limit (pos 0))
      then take (pos_part limit) rest
      else rest)

unfoldable pub filtered_branch_to_version_infos :
    Ref → ℤ → ℤ → Term → Bool → List Op → Outcome LogError (List VersionInfo)
filtered_branch_to_version_infos ref offset limit term collapse_all ops = do
  refs ← branch_to_version_infos collapse_all ref ops
  paginate offset limit (filter_term term refs)

-- The loop of `latestSavePath` from the end of the operations: the list is given newest first.
unfoldable pub save_path_loop : ℕ → List Op → Text
save_path_loop removes [] = []
save_path_loop removes (op ∷ ops) =
    let removed = save_path_loop (removes + op.size) ops in
    let fewer = save_path_loop (removes - 1) ops in
    let same = save_path_loop removes ops in
    if op.model == commit_model
    then (if op.type == op_type_remove
        then removed
        else if op.type == op_type_init
        then (if removes - 1 == 0 then op.ref else fewer)
        else if op.type == op_type_amend
        then (if removes - 1 == 0 then op.ref else fewer)
        else same)
    else same

unfoldable pub latest_save_path : List Op → Text
unfolding save_path_loop
latest_save_path ops = save_path_loop 0 (reverse ops)
