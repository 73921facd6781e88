-- ===== src/Collection.antt =====
-- The node-local set of collections (collection/collection.go): for every profile the list of the
-- datasets that it holds. The map from profiles to lists is an association list, so that `range` goes
-- through it in some order, which no theorem fixes. Each operation returns its result and the set
-- after it, as a failed operation may have changed the set.
pub mod Ids
pub mod Updates
pub mod Viewing
pub mod Adding
pub mod Deleting
pub mod Listing
pub mod Maintainer
pub mod Loading
mod Examples
use repo_4636_qri.Prelude.{
  ℕ, suc, ◌+◌, ◌-◌, Bool, true, false, not, Option, none, some, List, [], ◌∷◌, ◌++◌, Text, codes,
  text_eq, is_empty, length, if◌then◌else◌, Outcome, ok, err, panic, ◌>>=◌,
}
use repo_4636_qri.Prelude.Int.{ℤ, pos, negsuc, ◌+ℤ◌, ◌-ℤ◌, ltb_ℤ, int_eq}
use repo_4636_qri.Prelude.Dict.{Pair, lookup, insert}
use repo_4636_qri.Params.{ListParams, Order}
use repo_4636_qri.Profile.{Peers, IdError, encode, validate_id}
use repo_4636_qri.Dsref.VersionInfo.{VersionInfo, LessFunc, by_name, less}

abbrev pub Infos : Type 0
Infos = List VersionInfo

abbrev pub Collections : Type 0
Collections = List (Pair Infos)

pub data SetError : Type 0 where
  bad_id : IdError → SetError
  no_collection dataset_not_found no_dataset : SetError
  profile_id_required init_id_required username_required name_required : SetError
  cannot_serialize cannot_write cannot_open cannot_decode : SetError

abbrev pub Files : Type 0
Files = List (Pair Text)

-- What the set needs of the outside: peer ids, `sort.Sort`, the encoding of a list as JSON, and
-- `ioutil.WriteFile`, which returns the files after it and whether it failed.
pub record Host : Type 0 where
  pub peers : Peers
  pub sort : (VersionInfo → VersionInfo → Bool) → Infos → Infos
  pub marshal : Infos → Option Text
  pub unmarshal : Text → Option Infos
  pub write : Text → Text → Files → Files × Bool

pub record LocalSet : Type 0 where
  pub base_path : Text
  pub collections : Collections
  pub files : Files

-- What a method returns, and the set after it.
pub record Step {ℓ} (A : Type ℓ) : Type ℓ where
  pub result : Outcome SetError A
  pub set : LocalSet

abbrev pub stop {ℓ} : {A : Type ℓ} → Outcome SetError A → LocalSet → Step A
stop o s = record { result = o; set = s }

-- The lines behind a call that did not fail.
abbrev pub after {ℓ κ} : {A : Type ℓ} {B : Type κ} → Step A → (A → LocalSet → Step B) → Step B
after r k = elim r.result [
  | ok a ↦ k a r.set
  | err e ↦ stop (err e) r.set
  | panic ↦ stop panic r.set
]

abbrev pub checked {ℓ} : {A : Type ℓ} → Outcome IdError A → Outcome SetError A
checked (ok a) = ok a
checked (err e) = err (bad_id e)
checked panic = panic

-- `byUpdated.Less`: the zero time is before every other.
abbrev pub is_after : Option ℤ → Option ℤ → Bool
is_after none t = false
is_after (some s) none = true
is_after (some s) (some t) = ltb_ℤ t s

abbrev pub updated_at : VersionInfo → Option ℤ
updated_at vi = elim vi.run_start [ none ↦ vi.commit_time | some t ↦ some (t +ℤ vi.run_duration) ]

unfoldable pub by_updated : VersionInfo → VersionInfo → Bool
unfolding ◌+ℤ◌
by_updated a b = is_after (updated_at a) (updated_at b)

-- The loop of `List` over the collection, with the number of the results.
unfoldable pub collect : ℤ → ℤ → ℕ → Infos → Infos
unfolding ◌-ℤ◌ int_eq
collect limit offset n [] = []
collect limit offset n (item ∷ items) =
    let offset' = offset -ℤ pos 1 in
    let skipped = collect limit offset' n items in
    let more = collect limit offset' (n + 1) items in
    if not (ltb_ℤ offset' (pos 0))
    then skipped
    else item ∷ (if int_eq (pos (n + 1)) limit then [] else more)

-- The first match, if there is one.
unfoldable pub find : Text → Infos → Option VersionInfo
find init_id [] = none
find init_id (vi ∷ vis) =
    let rest = find init_id vis in if text_eq vi.init_id init_id then some vi else rest

-- The loop of `addOne`: a dataset with the id is replaced, or the item is the last.
unfoldable pub put_item : VersionInfo → Infos → Infos
put_item item [] = item ∷ []
put_item item (vi ∷ vis) =
    let rest = put_item item vis in
    if text_eq vi.init_id item.init_id then item ∷ vis else vi ∷ rest

-- The loop of `Delete`
unfoldable pub remove_item : Text → Infos → Option Infos
remove_item init_id [] = none
remove_item init_id (vi ∷ vis) =
    let rest = remove_item init_id vis in
    if text_eq vi.init_id init_id
    then some vis
    else elim rest [ none ↦ none | some vis' ↦ some (vi ∷ vis') ]

abbrev pub items_of : Text → Collections → Infos
items_of pid cs = elim (lookup pid cs) [ none ↦ [] | some col ↦ col ]

module _ (host : Host) where
  -- `range` over an order that is asked for: "updated" sorts a copy.
  unfoldable pub ordered : List Order → Infos → Infos
  unfolding by_updated
  ordered [] col = col
  ordered (o ∷ os) col = if text_eq o.key (codes "updated") then host.sort by_updated col else col

  -- The lines of `List` and of `Get` behind their checks.
  unfoldable pub list_from : Text → ListParams → LocalSet → Outcome SetError Infos
  unfolding lookup ordered collect
  list_from pid lp s = elim (lookup pid s.collections) [
    | none ↦ err no_collection
    | some col ↦
        let limit = if ltb_ℤ lp.limit (pos 0) then pos (length col) else lp.limit in
        ok (collect limit lp.offset 0 (ordered lp.order_by col))
  ]

  unfoldable pub get_from : Text → Text → LocalSet → Outcome SetError VersionInfo
  unfolding lookup find
  get_from pid init_id s = elim (lookup pid s.collections) [
    | none ↦ err no_collection
    | some col ↦ elim (find init_id col) [ none ↦ err dataset_not_found | some vi ↦ ok vi ]
  ]

  -- `List`
  unfoldable pub list_set : Text → ListParams → LocalSet → Outcome SetError Infos
  unfolding validate_id list_from
  list_set pid lp s = checked (validate_id host.peers pid) >>= λ _. list_from pid lp s

  -- `Get`
  unfoldable pub get : Text → Text → LocalSet → Outcome SetError VersionInfo
  unfolding validate_id get_from
  get pid init_id s = checked (validate_id host.peers pid) >>= λ _. get_from pid init_id s

  abbrev pub file_of : Text → LocalSet → Text
  file_of pid s = s.base_path ++ (b'/' ∷ (encode host.peers pid ++ codes ".json"))

  unfoldable pub save_profile_collection : Text → LocalSet → Step (Unit {0})
  unfolding is_empty lookup encode
  save_profile_collection pid s =
      if is_empty s.base_path
      then stop (ok tt) s
      else elim (host.marshal (items_of pid s.collections)) [
        | none ↦ stop (err cannot_serialize) s
        | some text ↦
            let w = host.write (file_of pid s) text s.files in
            stop (if w.1 then err cannot_write else ok tt) (record s { files = w.0 })
      ]

  unfoldable pub add_one : Text → VersionInfo → LocalSet → Step (Unit {0})
  unfolding is_empty lookup insert put_item
  add_one pid item s =
      if is_empty item.profile_id
      then stop (err profile_id_required) s
      else if is_empty item.init_id
      then stop (err init_id_required) s
      else if is_empty item.username
      then stop (err username_required) s
      else if is_empty item.name
      then stop (err name_required) s
      else stop (ok tt) (record s {
        collections = insert pid (put_item item (items_of pid s.collections)) s.collections;
      })

  unfoldable pub add_items : Text → Infos → LocalSet → Step (Unit {0})
  unfolding add_one
  add_items pid [] s = stop (ok tt) s
  add_items pid (item ∷ items) s = after (add_one pid item s) λ _ s. add_items pid items s

  -- `agg.Sort` in place; the key "name" is one that the aggregator knows. A profile without a
  -- collection has nothing to sort.
  unfoldable pub sort_items : Text → LocalSet → LocalSet
  unfolding lookup insert less
  sort_items pid s = elim (lookup pid s.collections) [
    | none ↦ s
    | some col ↦ record s { collections = insert pid (host.sort (less by_name) col) s.collections }
  ]

  -- `Add`
  unfoldable pub add : Text → Infos → LocalSet → Step (Unit {0})
  unfolding validate_id add_items sort_items save_profile_collection
  add pid items s =
      after (stop (checked (validate_id host.peers pid)) s)
        λ _ s. after (add_items pid items s) λ _ s. save_profile_collection pid (sort_items pid s)

  -- The lines of `Delete` behind its check.
  unfoldable pub delete_from : Text → Text → LocalSet → Step (Unit {0})
  unfolding lookup insert remove_item save_profile_collection
  delete_from pid remove_id s = elim (lookup pid s.collections) [
    | none ↦ stop (err no_collection) s
    | some col ↦ elim (remove_item remove_id col) [
      | none ↦ stop (err no_dataset) s
      | some col' ↦
          save_profile_collection pid (record s { collections = insert pid col' s.collections })
    ]
  ]

  -- `Delete`
  unfoldable pub delete : Text → Text → LocalSet → Step (Unit {0})
  unfolding validate_id delete_from
  delete pid remove_id s =
      after (stop (checked (validate_id host.peers pid)) s) λ _ s. delete_from pid remove_id s
