-- ===== src/Logbook/Book/Reads.antt =====
-- The lookups of `Book` (logbook/logbook.go): references, items, paths, and plain forms of the logs.
pub mod Paths
use repo_4636_qri.Prelude.{
  ℕ, zero, suc, ◌-◌, true, not, ◌&&◌, List, [], ◌∷◌, ◌++◌, Text, codes, is_empty, if◌then◌else◌,
  ◌==◌, ltb, leb, length, take, set, map, Outcome, ok, err, panic, ◌>>=◌,
}
use repo_4636_qri.Prelude.Int.{ℤ, pos, negsuc, ltb_ℤ, int_eq, ◌-ℤ◌}
use repo_4636_qri.Dsref.Ref.{Ref, empty_ref}
use repo_4636_qri.Dsref.VersionInfo.{VersionInfo, Dataset}
use repo_4636_qri.Oplog.Op.{Op, OpType, op_type_init, op_type_amend, op_type_remove}
use repo_4636_qri.Oplog.Log.{
  not_found, Entry, Log, Logs, node, nil, cons, entry, name, model, author, first_op, head,
  first_op_author_id,
}
use repo_4636_qri.Oplog.Journal.{get, logs_page}
use repo_4636_qri.Logbook.Models.{
  user_model, dataset_model, branch_model, commit_model, push_model, run_model, acl_model,
}
use repo_4636_qri.Logbook.History.{Term, filtered_branch_to_version_infos, latest_save_path}
use repo_4636_qri.Logbook.Book.{
  BookError, store, ref_not_found, not_author, ambiguous_dataset, lift, branch_log, dataset_log,
}
use repo_4636_qri.Logbook.Book.Datasets.{branch_ref, ref_to_init_id}

-- The slice of paths of one log in `addReferencedPaths`.
unfoldable pub path_op : Op → List Text → Outcome BookError (List Text)
path_op op ps =
    if op.model == commit_model
    then (if op.type == op_type_init
        then ok (ps ++ op.ref ∷ [])
        else if op.type == op_type_remove
        then (if leb op.size (length ps) then ok (take (length ps - op.size) ps) else panic)
        else if op.type == op_type_amend
        then (if ltb 0 (length ps) then ok (set ps (length ps - 1) op.ref) else panic)
        else ok ps)
    else ok ps

unfoldable pub path_ops : List Op → List Text → Outcome BookError (List Text)
unfolding path_op
path_ops [] ps = ok ps
path_ops (op ∷ ops) ps = path_op op ps >>= path_ops ops

-- The set of paths, as the list of what is put into it.
unfoldable mutual
  unfolding path_ops

  pub add_referenced_paths : Log → List Text → Outcome BookError (List Text)
  add_referenced_paths (node e kids) paths =
      path_ops e.ops [] >>= λ ps. add_all_referenced_paths kids (paths ++ ps)

  pub add_all_referenced_paths : Logs → List Text → Outcome BookError (List Text)
  add_all_referenced_paths nil paths = ok paths
  add_all_referenced_paths (cons l ls) paths =
      add_referenced_paths l paths >>= add_all_referenced_paths ls

unfoldable pub list_all_logs : Logs → Outcome BookError Logs
unfolding logs_page
list_all_logs logs = lift (logs_page (pos 0) (negsuc 0) logs)

unfoldable pub all_referenced_dataset_paths : Logs → Outcome BookError (List Text)
unfolding list_all_logs add_all_referenced_paths
all_referenced_dataset_paths logs = do ls ← list_all_logs logs; add_all_referenced_paths ls []

-- `errors.Is(err, oplog.ErrNotFound)`
abbrev pub or_ref_not_found {ℓ} : {A : Type ℓ} → Outcome BookError A → Outcome BookError A
or_ref_not_found (ok a) = ok a
or_ref_not_found (err (store not_found)) = err ref_not_found
or_ref_not_found (err e) = err e
or_ref_not_found panic = panic

module _ (hash : Op → Text) where
  -- The log of the author of a branch.
  unfoldable pub branch_author : Log → Logs → Outcome BookError Log
  branch_author blog logs = do a ← lift (author (entry blog)); lift (get hash a logs)

  unfoldable pub ref_of : Text → Logs → Outcome BookError Ref
  ref_of init_id logs = do
    ds_log ← or_ref_not_found (dataset_log hash init_id logs)
    n ← lift (name (entry ds_log))
    blog ← or_ref_not_found (branch_log hash init_id logs)
    author_log ← branch_author blog logs
    o ← lift (first_op (entry author_log).ops)
    ok (record {
      init_id = init_id;
      username = (head (entry author_log).ops).name;
      profile_id = o.author_id;
      name = n;
      path = latest_save_path (entry blog).ops;
    })

  unfoldable pub resolve_path : Ref → Logs → Outcome BookError Ref
  resolve_path ref logs =
      let found = (do
        blog ← branch_log hash ref.init_id logs
        ok (record ref { path = latest_save_path (entry blog).ops })) in
      if is_empty ref.path then found else ok ref

  unfoldable pub resolve_profile : Ref → Logs → Outcome BookError Ref
  resolve_profile ref logs =
      let found = (do
        blog ← branch_log hash ref.init_id logs
        author_log ← branch_author blog logs
        o ← lift (first_op (entry author_log).ops)
        ok (record ref { profile_id = o.author_id })) in
      if is_empty ref.profile_id then found else ok ref

  unfoldable pub resolve_ref : Ref → Logs → Outcome BookError Ref
  resolve_ref ref logs =
      let by_name : Outcome BookError Ref = elim (ref_to_init_id hash ref logs) [
        | ok init_id ↦ (do
          found ← resolve_path (record ref { init_id = init_id }) logs
          resolve_profile found logs)
        | err e ↦ err ref_not_found
        | panic ↦ panic
      ] in
      if not (is_empty ref.init_id) then ref_of ref.init_id logs else by_name

  unfoldable pub items : Ref → ℤ → ℤ → Term → Logs → Outcome BookError (List VersionInfo)
  unfolding ref_to_init_id branch_log filtered_branch_to_version_infos
  items ref offset limit term logs = do
    init_id ←
        ref_to_init_id hash (record empty_ref { username = ref.username; name = ref.name }) logs
    blog ← branch_log hash init_id logs
    lift (filtered_branch_to_version_infos ref offset limit term true (entry blog).ops)

unfoldable pub dsref_alias_for_log : Log → Outcome BookError Ref
unfolding model name first_op_author_id
dsref_alias_for_log (node e kids) = do
  m ← lift (model e)
  if m == user_model then only_child e kids else err not_author
  where
    only_child : Entry → Logs → Outcome BookError Ref
    only_child e nil = err ambiguous_dataset
    only_child e (cons l nil) = do
      username ← lift (name e)
      n ← lift (name (entry l))
      profile_id ← lift (first_op_author_id e)
      ok (record empty_ref { username = username; name = n; profile_id = profile_id })
    only_child e (cons l (cons m ls)) = err ambiguous_dataset

unfoldable pub ref_from_dataset : Dataset → Ref
ref_from_dataset ds = record empty_ref {
  username = ds.peername;
  profile_id = ds.profile_id;
  name = ds.name;
  path = ds.path;
}
