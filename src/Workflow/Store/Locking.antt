-- ===== src/Workflow/Store/Locking.antt =====
-- What the return of `Remove` for a missing id does to the store.
use repo_4636_qri.Prelude.{◌≡◌, refl, true, false, none, Text, err}
use repo_4636_qri.Prelude.Dict.{lookup}
use repo_4636_qri.Workflow.{not_found}
use repo_4636_qri.Workflow.Store.{MemStore, returns, blocks, get, remove}

-- `Remove` of an id that is not in an unlocked store returns the error and leaves the store locked:
-- every later `Get` and every later `Remove` blocks.
pub remove-blocks :
    (id wid : Text) (s : MemStore)
    → s.locked ≡ false
    → lookup id s.workflows ≡ none
    → (s' : MemStore) × (remove id s ≡ returns (err not_found) s')
      × (get wid s' ≡ blocks)
      × (remove wid s' ≡ blocks)
unfolding remove get
remove-blocks id wid s u h = (record s { locked = true }, rw (u, h, remove) refl, refl, refl)
