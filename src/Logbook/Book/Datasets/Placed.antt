-- ===== src/Logbook/Book/Datasets/Placed.antt =====
-- The log of a new dataset in its place below the log of the author.
use repo_4636_qri.Prelude.{
  ◌≡◌, refl, ap, ◌∙◌, false, [], Text, text_eq, text_eq_refl, is_empty, ok, arith,
}
use repo_4636_qri.Prelude.Int.{ℤ}
use repo_4636_qri.Oplog.Op.{Op}
use repo_4636_qri.Oplog.Log.{
  Log, nil, cons, entry, children, entry_id, id, find_in, name, removed, model, last_name, first_op,
  add_child, init_log, with_parent,
}
use repo_4636_qri.Oplog.Journal.{head_ref, head_ref_in}
use repo_4636_qri.Oplog.Journal.Changing.{find-here, find_in-first}
use repo_4636_qri.Logbook.Book.{only_branch}
use repo_4636_qri.Logbook.Book.Datasets.{new_dataset_log, dataset_init_op, branch_init_op}

module _ (hash : Op → Text) (a n : Text) (now later : ℤ) where
  -- The new dataset log with its branch, below a log with the id `a`.
  unfoldable pub placed : Log
  placed = with_parent hash a (new_dataset_log hash a n now later)

  pub same_id : id hash placed ≡ id hash (new_dataset_log hash a n now later)
  unfolding placed add_child entry_id
  same_id = refl

  pub placed-name : is_empty n ≡ false → name (entry placed) ≡ ok n
  unfolding placed add_child name last_name model first_op is_empty
  placed-name h = ground (arith, h)

  pub placed-present : removed (entry placed) ≡ ok false
  unfolding placed add_child removed model first_op
  placed-present = refl

  pub head_ref_in-placed : is_empty n ≡ false → head_ref_in n [] (cons placed nil) ≡ ok placed
  unfolding head_ref_in head_ref
  head_ref_in-placed h = rw (placed-name h, text_eq_refl n, placed-present) refl

  pub find_in-placed :
      find_in hash (id hash (new_dataset_log hash a n now later)) (cons placed nil) ≡ ok placed
  find_in-placed =
      find_in-first hash (id hash (new_dataset_log hash a n now later)) placed nil placed (
        find-here hash (id hash (new_dataset_log hash a n now later)) placed (
          ap (λ t. text_eq t (id hash (new_dataset_log hash a n now later))) same_id
          ∙ text_eq_refl (id hash (new_dataset_log hash a n now later))))

  -- The branch of the new dataset.
  unfoldable pub new_branch : Log
  new_branch =
      with_parent hash (id hash (init_log (dataset_init_op a n now)))
        (init_log (branch_init_op a later))

  pub only_branch-placed : only_branch (children placed) ≡ ok new_branch
  unfolding only_branch placed new_branch add_child
  only_branch-placed = refl

  pub first_op-branch : first_op (entry new_branch).ops ≡ ok (branch_init_op a later)
  unfolding first_op new_branch
  first_op-branch = refl
