-- ===== src/Workflow/Examples.antt =====
-- Concrete workflows and stores for the theorems about automation/workflow.
use repo_4636_qri.Prelude.{
  ◌≡◌, ◌≢◌, refl, true, false, some, none, [], ◌∷◌, Text, codes, text_eq, is_empty, ok, err,
}
use repo_4636_qri.Prelude.Int.{pos}
use repo_4636_qri.Prelude.Dict.{lookup}
use repo_4636_qri.Workflow.{Workflow, validate, not_found}
use repo_4636_qri.Workflow.Store.{
  MemStore, new_mem_store, returns, blocks, get, put, put_valid, remove, get_by_init_id, find_init,
}
use repo_4636_qri.Workflow.Store.Locking.{remove-blocks}
use repo_4636_qri.Workflow.Store.Putting.{put-new}

abbrev daily : Workflow
daily = record {
  id = [];
  init_id = codes "init";
  owner_id = codes "QmB";
  created = some (pos 1);
  active = true;
  triggers = [];
  hooks = [];
}

abbrev stored : Workflow
stored = record daily { id = codes "w" }

abbrev one : MemStore
one = record { locked = false; workflows = record { key = codes "w"; value = stored } ∷ [] }

missing : lookup (codes "x") one.workflows ≡ none
unfolding lookup text_eq
missing = refl

remove-blocks_example :
    (s' : MemStore) × (remove (codes "x") one ≡ returns (err not_found) s')
    × (get (codes "w") s' ≡ blocks)
    × (remove (codes "w") s' ≡ blocks)
remove-blocks_example = remove-blocks (codes "x") (codes "w") one refl missing

daily_written : put (codes "w") (some daily) new_mem_store ≡ returns (ok stored) one
unfolding put put_valid get_by_init_id find_init validate is_empty
daily_written = refl

put-new_example :
    ((k : Text) (v : Workflow)
      → lookup k new_mem_store.workflows ≡ some v
      → v.init_id ≢ daily.init_id)
    × (stored ≡ record daily { id = codes "w" })
    × (get (codes "w") one ≡ returns (ok stored) one)
put-new_example = put-new (codes "w") daily stored new_mem_store one refl refl daily_written
