-- ===== src/Logbook/Models.antt =====
-- The model constants of logbook/logbook.go.
use repo_4636_qri.Prelude.{ℕ}

abbrev pub user_model : ℕ
user_model = 0

abbrev pub dataset_model : ℕ
dataset_model = 1

abbrev pub branch_model : ℕ
branch_model = 2

abbrev pub commit_model : ℕ
commit_model = 3

abbrev pub push_model : ℕ
push_model = 4

abbrev pub run_model : ℕ
run_model = 5

abbrev pub acl_model : ℕ
acl_model = 6
