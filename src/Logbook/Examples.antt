-- ===== src/Logbook/Examples.antt =====
-- Concrete branch logs for the theorems about logbook/logbook.go.
use repo_4636_qri.Prelude.{
  ℕ, ◌≡◌, refl, true, false, List, [], ◌∷◌, ◌++◌, Text, codes, after_prefix, ok, text_eq, is_empty,
}
use repo_4636_qri.Prelude.Int.{pos}
use repo_4636_qri.Dsref.Ref.{Ref}
use repo_4636_qri.Oplog.Op.{Op, op_type_init, op_type_amend, op_type_remove}
use repo_4636_qri.Logbook.Models.{commit_model, push_model, run_model}
use repo_4636_qri.Logbook.History.{
  branch_to_version_infos, version_info_from_op, latest_save_path, publish, run_item_from_op,
  add_commit_details_to_run_item, collapse_ops, collapse_op, collapse_commit, commit_init, last_of,
  collapse_push, publish_loop, set_last, finish_collapse, joins_run, commit_op_run_id, first_run_id,
}
use repo_4636_qri.Logbook.History.Deleted.{latest_save_path-stale}
use repo_4636_qri.Logbook.History.Latest.{latest_path, latest_save_path-newest}

abbrev worms : Ref
worms = record {
  init_id = codes "init";
  username = codes "bob";
  profile_id = codes "QmB";
  name = codes "worms";
  path = [];
}

abbrev commit : ℕ → Text → Op
commit t path = record {
  type = t;
  model = commit_model;
  ref = path;
  prev = [];
  relations = [];
  name = [];
  author_id = [];
  timestamp = pos 7;
  size = 1;
  note = codes "note";
}

abbrev push : Op
push = record (commit op_type_init (codes "url")) { model = push_model }

abbrev run : Op
run = record (commit op_type_init (codes "r1")) { model = run_model }

abbrev run_commit : Op
run_commit = record (commit op_type_init (codes "/c")) { relations = codes "runID:r1" ∷ [] }

abbrev saves : List Op
saves = commit op_type_init (codes "/a") ∷ push ∷ commit op_type_amend (codes "/a") ∷ []

has_path : is_empty (codes "/a") ≡ false
unfolding is_empty
has_path = refl

no_run : (path : Text) → commit_op_run_id (commit op_type_init path) ≡ []
unfolding commit_op_run_id first_run_id
no_run path = refl

saved :
    branch_to_version_infos true worms saves
    ≡ ok (version_info_from_op worms (commit op_type_amend (codes "/a")) ∷ [])
unfolding branch_to_version_infos collapse_ops collapse_op collapse_commit commit_init last_of
    collapse_push publish_loop set_last finish_collapse
saved = refl

latest_save_path-newest_example :
    latest_save_path saves
    ≡ latest_path (version_info_from_op worms (commit op_type_amend (codes "/a")) ∷ [])
latest_save_path-newest_example =
    latest_save_path-newest worms saves
      (version_info_from_op worms (commit op_type_amend (codes "/a")) ∷ [])
      (refl, (λ e. has_path), (refl, (λ e. cc), (refl, (λ e. has_path), tt))) saved

latest_save_path-stale_example :
    (branch_to_version_infos true worms
        (saves ++ commit op_type_init (codes "/c") ∷ commit op_type_remove [] ∷ [])
      ≡ branch_to_version_infos true worms saves)
    × (latest_save_path (saves ++ commit op_type_init (codes "/c") ∷ commit op_type_remove [] ∷ [])
        ≡ codes "/c")
latest_save_path-stale_example =
    latest_save_path-stale worms saves (commit op_type_init (codes "/c")) (commit op_type_remove [])
      (refl, refl, no_run (codes "/c")) (refl, refl, refl)

-- The commit of a run is one version with the run, and a push marks it.
run_is_one_version :
    branch_to_version_infos true worms (run ∷ run_commit ∷ push ∷ [])
    ≡ ok
        (publish true (add_commit_details_to_run_item (run_item_from_op worms run) run_commit) ∷ [])
unfolding branch_to_version_infos collapse_ops collapse_op collapse_commit commit_init last_of
    collapse_push publish_loop set_last finish_collapse joins_run commit_op_run_id first_run_id
    after_prefix text_eq is_empty run_item_from_op
run_is_one_version = refl
