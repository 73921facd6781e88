-- ===== src/Collection/Examples.antt =====
-- Collections of two profiles for the theorems about them.
use repo_4636_qri.Prelude.{
  ◌≡◌, refl, true, false, not, Option, take, Bool, some, none, inl, inr, [], ◌∷◌, ◌++◌, codes,
  text_eq, is_empty, Bool-cases, if◌then◌else◌, ok, arith, Text,
}
use repo_4636_qri.Prelude.Int.{ℤ, pos}
use repo_4636_qri.Prelude.Dict.{lookup}
use repo_4636_qri.Params.{ListParams}
use repo_4636_qri.Profile.{encode, validate_id}
use repo_4636_qri.Dsref.VersionInfo.{VersionInfo, Commit, Structure, empty_version_info}
use repo_4636_qri.Oplog.Log.{entry}
use repo_4636_qri.Logbook.Book
use repo_4636_qri.Logbook.Book.Samples.{
  hash, bob, book, branch, stored, commit, dataset, bob_writes, stores, saves_commit,
}
use repo_4636_qri.Logbook.Book.Commits.{
  commit_count, saved_version, version_save_op, write_version_save,
}
use repo_4636_qri.Collection.{
  Infos, Host, LocalSet, by_updated, updated_at, is_after, get, put_item, find, list_set,
  save_profile_collection,
}
use repo_4636_qri.Collection.Ids.{Permuted, same, skip, swap, trans, times}
use repo_4636_qri.Collection.Updates.Saving.{CanSave, EachIn}
use repo_4636_qri.Collection.Viewing.{look, IsSound}
use repo_4636_qri.Collection.Adding.{IsSorting, put_item-IsUnique}
use repo_4636_qri.Collection.Listing.{list_set-page, Neighbours, ByUpdated, IsUntil, last_change}
use repo_4636_qri.Collection.Loading.{load_all}
use repo_4636_qri.Collection.Loading.Restoring.{load_all-stored}
use repo_4636_qri.Collection.Maintainer.{
  Event, dataset_rename, write_commit, handle_event, change_of,
}
use repo_4636_qri.Collection.Maintainer.Keeping.{handle_event-IsSound}
use repo_4636_qri.Collection.Maintainer.Effect.{effect, committed, SameRun}
use repo_4636_qri.Collection.Maintainer.Refining.{handle_event-effect}
use repo_4636_qri.Collection.Maintainer.Publishing.{event_of, save-collected}
use repo_4636_qri.Collection.Maintainer.Leaking.{commit-leaks_run}

-- Insertion sort.
place : (VersionInfo → VersionInfo → Bool) → VersionInfo → Infos → Infos
place before x [] = x ∷ []
place before x (y ∷ ys) =
    let rest = place before x ys in if before y x then y ∷ rest else x ∷ y ∷ ys

insertion_sort : (VersionInfo → VersionInfo → Bool) → Infos → Infos
unfolding place
insertion_sort before [] = []
insertion_sort before (x ∷ xs) = place before x (insertion_sort before xs)

place-Permuted :
    (before : VersionInfo → VersionInfo → Bool) (x : VersionInfo) (xs : Infos)
    → Permuted (place before x xs) (x ∷ xs)
unfolding place
place-Permuted before x [] = same
place-Permuted before x (y ∷ ys) = elim (Bool-cases (before y x)) [
  | inl e ↦ rw e (trans (skip (place-Permuted before x ys)) swap)
  | inr e ↦ rw e same
]

-- Nothing is written to disk: the base path is empty.
abbrev memory : Host
memory = record {
  peers = record { is_peer = λ id. not (is_empty id); pretty = λ id. id; decode = λ id. some id };
  sort = insertion_sort;
  marshal = λ vis. none;
  unmarshal = λ text. none;
  write = λ path text files. (files, true);
}

sorts : IsSorting memory
unfolding insertion_sort
sorts before [] = same
sorts before (x ∷ xs) =
    trans (place-Permuted before x (insertion_sort before xs)) (skip (sorts before xs))

in_memory : CanSave memory []
unfolding save_profile_collection
in_memory pid s e = rw e refl

abbrev worms : VersionInfo
worms = record empty_version_info {
  init_id = 1 ∷ codes "worms";
  username = codes "bob";
  profile_id = codes "QmB";
  name = codes "worms";
  workflow_id = codes "w1";
  follower_count = pos 2;
}

abbrev birds : VersionInfo
birds = record empty_version_info {
  init_id = codes "birds";
  username = codes "bob";
  profile_id = codes "QmB";
  name = codes "birds";
}

abbrev set_of_bob : LocalSet
set_of_bob = record {
  base_path = [];
  collections = record { key = codes "QmB"; value = birds ∷ worms ∷ [] } ∷ [];
  files = [];
}

bob-IsSound : IsSound set_of_bob.collections
unfolding put_item text_eq is_empty times
bob-IsSound = (
  put_item-IsUnique worms (birds ∷ []) refl (put_item-IsUnique birds [] refl (λ id. omega arith)),
  tt,
)

bob-valid : validate_id memory.peers (codes "QmB") ≡ ok tt
unfolding validate_id is_empty
bob-valid = refl

abbrev renaming : Event
renaming = record {
  profile_id = [];
  payload = dataset_rename (codes "birds") (codes "birds") (codes "zebras");
}

handle_event-effect_example :
    look (codes "QmB") (codes "birds") (handle_event memory renaming set_of_bob).set.collections
    ≡ some (record birds { name = codes "zebras" })
unfolding effect change_of lookup find text_eq
handle_event-effect_example =
    handle_event-effect memory sorts renaming set_of_bob bob-IsSound in_memory tt (codes "QmB")
      (codes "birds")

handle_event-IsSound_example : IsSound (handle_event memory renaming set_of_bob).set.collections
handle_event-IsSound_example = handle_event-IsSound memory sorts renaming set_of_bob bob-IsSound

-- After the renaming the collection is not in the order of the names any more.
renamed_order :
    (handle_event memory renaming set_of_bob).set.collections
    ≡ record { key = codes "QmB"; value = record birds { name = codes "zebras" } ∷ worms ∷ [] } ∷ []
unfolding handle_event save_profile_collection is_empty text_eq
renamed_order = refl

-- The version that was committed last comes first, in whatever direction is asked for.
abbrev dated : VersionInfo
dated = record worms { commit_time = some (pos 9) }

abbrev dated_set : LocalSet
dated_set = record set_of_bob {
  collections = record { key = codes "QmB"; value = birds ∷ dated ∷ [] } ∷ [];
}

abbrev newest : ListParams
newest = record {
  filter = [];
  order_by = record { key = codes "updated"; direction = codes "asc" } ∷ [];
  limit = pos 1;
  offset = pos 0;
}

abbrev IsInOrder : Infos → Type 0
IsInOrder = Neighbours (λ a b. by_updated b a ≡ false)

by_updated_asym : (a b : VersionInfo) → by_updated a b ≡ true → by_updated b a ≡ false
unfolding by_updated
by_updated_asym a b h = asym (updated_at a) (updated_at b) h
  where
    asym : (s t : Option ℤ) → is_after s t ≡ true → is_after t s ≡ false
    asym none t h = cc
    asym (some s) none h = refl
    asym (some s) (some t) h = ground arith

place-IsInOrder : (x : VersionInfo) (xs : Infos) → IsInOrder xs → IsInOrder (place by_updated x xs)
unfolding place
place-IsInOrder x [] h = tt
place-IsInOrder x (y ∷ []) h = elim (Bool-cases (by_updated y x)) [
  | inl e ↦ rw e (by_updated_asym y x e, tt)
  | inr e ↦ rw e (e, tt)
]
place-IsInOrder x (y ∷ z ∷ zs) h = elim (Bool-cases (by_updated y x)) [
  | inr e ↦ rw e (e, h)
  | inl e ↦
      let rest = place-IsInOrder x (z ∷ zs) h.1 in
      elim (Bool-cases (by_updated z x)) [
        | inl f ↦ rw (e, f) (h.0, let k = rw f at rest in k)
        | inr f ↦ rw (e, f) (by_updated_asym y x e, let k = rw f at rest in k)
      ]
]

sorts-IsInOrder : (xs : Infos) → IsInOrder (insertion_sort by_updated xs)
unfolding insertion_sort
sorts-IsInOrder [] = tt
sorts-IsInOrder (x ∷ xs) = place-IsInOrder x (insertion_sort by_updated xs) (sorts-IsInOrder xs)

list_set-page_example :
    (vis : Infos) × (list_set memory (codes "QmB") newest dated_set ≡ ok (take 1 vis))
    × Permuted vis (birds ∷ dated ∷ [])
    × (ByUpdated newest.order_by → Neighbours (λ a b. IsUntil (last_change b) (last_change a)) vis)
    × ((ByUpdated newest.order_by → ⊥) → vis ≡ birds ∷ dated ∷ [])
unfolding lookup text_eq
list_set-page_example =
    list_set-page memory (codes "QmB") dated_set bob-valid sorts newest (birds ∷ dated ∷ [])
      sorts-IsInOrder refl

save-collected_example :
    (vi : VersionInfo) × ((write_version_save hash stored bob
        (dataset commit)
        none
        book).book.published
      ≡ Book.write_commit vi ∷ [])
    × (get memory
          (codes "QmB")
          (1 ∷ codes "worms")
          (handle_event memory (event_of (codes "QmB") (Book.write_commit vi)) set_of_bob).set
        ≡ ok (committed vi worms))
    × (vi.path ≡ codes "/mem/Qm1")
    × (vi.name ≡ codes "worms")
    × (vi.commit_count
        ≡ commit_count (pos 0) ((entry branch).ops ++ version_save_op (dataset commit) commit ∷ []))
    × ((c : Commit) → (dataset commit).commit ≡ some c → vi.commit_title ≡ c.title)
    × ((o : Structure) → (dataset commit).structure ≡ some o → vi.body_size ≡ o.length)
unfolding lookup find text_eq saved_version
save-collected_example =
    save-collected hash stored memory sorts bob (dataset commit) none book branch
      (version_save_op (dataset commit) commit ∷ []) (codes "QmB") set_of_bob worms bob_writes
      (saves_commit commit) stores bob-IsSound in_memory
      (worms, ((λ _. inr (refl, refl, refl, refl), (λ _. inr (refl, refl, refl, refl), tt)), tt))
      bob-valid refl

abbrev run_worms : VersionInfo
run_worms = record worms { run_id = codes "r1"; run_status = codes "failed" }

abbrev shared : LocalSet
shared = record {
  base_path = [];
  collections =
      record { key = codes "QmB"; value = run_worms ∷ [] }
      ∷ record { key = codes "QmE"; value = worms ∷ [] }
      ∷ [];
  files = [];
}

-- The handler brings the run of bob's version to that of eve, which has none.
commit-leaks_run_example :
    EachIn
      (SameRun run_worms)
      (1 ∷ codes "worms")
      (handle_event memory
        (record { profile_id = codes "QmB"; payload = write_commit worms })
        shared).set.collections
unfolding is_empty find text_eq
commit-leaks_run_example =
    commit-leaks_run memory worms run_worms (codes "QmB") shared in_memory refl refl refl

-- A directory with the collection of bob, as JSON that is read as it.
abbrev disk : Host
disk = record memory { unmarshal = λ text. some (birds ∷ worms ∷ []) }

abbrev on_disk : LocalSet
on_disk = record {
  base_path = codes "/c";
  collections =
      record { key = codes "QmB"; value = run_worms ∷ [] }
      ∷ record { key = codes "QmE"; value = worms ∷ [] }
      ∷ [];
  files = record { key = codes "/c/QmB.json"; value = codes "[]" } ∷ [];
}

load_all-stored_example :
    ((load_all disk (codes "QmB.json" ∷ []) on_disk).result ≡ ok tt)
    × ((q : Text)
        → lookup q (load_all disk (codes "QmB.json" ∷ []) on_disk).set.collections
          ≡ lookup q set_of_bob.collections)
unfolding encode lookup text_eq
load_all-stored_example =
    load_all-stored disk (λ pid is. refl) set_of_bob.collections on_disk
      (
        record { text = codes "[]"; reads = refl; found = refl; is_peer = unfold is_empty in refl },
        tt,
      )
      (refl, tt)
