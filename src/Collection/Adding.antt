-- ===== src/Collection/Adding.antt =====
-- `Add`: what it does to the function that `Get` shows, and to the ids.
use repo_4636_qri.Prelude.{
  ◌≤◌, ◌≡◌, ◌≢◌, refl, sym, ap, subst, ◌∙◌, inl, inr, Bool, true, false, not, ◌&&◌, some, List, [],
  ◌∷◌, Text, text_eq, text_eq_iff, is_empty, if◌then◌else◌, Outcome, ok, err, panic, err_not_ok,
  panic_not_ok, Bool-cases, Option-cases, arith,
}
use repo_4636_qri.Prelude.Dict.{lookup, insert}
use repo_4636_qri.Profile.{IdError, validate_id}
use repo_4636_qri.Dsref.VersionInfo.{VersionInfo, by_name, less}
use repo_4636_qri.Collection.{
  Infos, Host, LocalSet, Step, stop, after, checked, find, put_item, items_of,
  save_profile_collection, add_one, add_items, sort_items, add,
}
use repo_4636_qri.Collection.Ids.{
  ids, times, IsUnique, Permuted, times-Permuted, find-Permuted, find-put_item, times-put_item_id,
  times-put_item_other,
}
use repo_4636_qri.Collection.Updates.Walking.{save-keeps, after-rule}
use repo_4636_qri.Collection.Updates.Saving.{after-ok}
use repo_4636_qri.Collection.Viewing.{
  look, IsSound, IsSound-items_of, insert-IsSound, look-insert, find-items_of,
}

-- `sort.Sort` only swaps entries.
abbrev pub IsSorting : Host → Type 0
IsSorting host =
    (before : VersionInfo → VersionInfo → Bool) (vis : Infos) → Permuted (host.sort before vis) vis

-- The fields that `addOne` asks for are there.
abbrev pub is_listable : VersionInfo → Bool
is_listable item =
    not (is_empty item.profile_id)
    && (not (is_empty item.init_id) && (not (is_empty item.username) && not (is_empty item.name)))

pub put_item-IsUnique :
    (item : VersionInfo) (vis : Infos)
    → is_empty item.init_id ≡ false
    → IsUnique (ids vis)
    → IsUnique (ids (put_item item vis))
put_item-IsUnique item vis n u id = elim (Bool-cases (text_eq item.init_id id)) [
  | inl e ↦
      subst (λ i. times i (ids (put_item item vis)) ≤ (if is_empty i then 0 else 1))
        ((text_eq_iff item.init_id id).0 e)
        (rw n (times-put_item_id item vis (rw n at (u item.init_id))))
  | inr e ↦ rw (times-put_item_other id item vis e) (u id)
]

Permuted-IsUnique : {xs ys : Infos} → Permuted xs ys → IsUnique (ids ys) → IsUnique (ids xs)
Permuted-IsUnique p u id = rw (times-Permuted id p) (u id)

pub IsUnique-le : (xs : List Text) → IsUnique xs → (id : Text) → times id xs ≤ 1
IsUnique-le xs u id = elim (Bool-cases (is_empty id)) [
  | inl e ↦ let k = rw e at (u id) in omega arith
  | inr e ↦ let k = rw e at (u id) in omega arith
]

pub of_checked : (o : Outcome IdError (Unit {0})) → checked o ≡ ok tt → o ≡ ok tt
of_checked (ok tt) h = refl
of_checked (err e) h = absurd (err_not_ok h)
of_checked panic h = absurd (panic_not_ok h)

module _ (host : Host) (sorting : IsSorting host) (pid : Text) where
  add_one-IsSound :
      (item : VersionInfo) (s : LocalSet)
      → IsSound s.collections
      → IsSound (add_one host pid item s).set.collections
  unfolding add_one
  add_one-IsSound item s h = elim (Bool-cases (is_empty item.profile_id)) [
    | inl p ↦ rw p h
    | inr p ↦ elim (Bool-cases (is_empty item.init_id)) [
      | inl i ↦ rw (p, i) h
      | inr i ↦ elim (Bool-cases (is_empty item.username)) [
        | inl u ↦ rw (p, i, u) h
        | inr u ↦ elim (Bool-cases (is_empty item.name)) [
          | inl n ↦ rw (p, i, u, n) h
          | inr n ↦
              rw (p, i, u, n)
                (insert-IsSound pid (put_item item (items_of pid s.collections)) s.collections
                  (put_item-IsUnique item (items_of pid s.collections) i
                    (IsSound-items_of pid s.collections h))
                  h)
        ]
      ]
    ]
  ]

  add_items-IsSound :
      (items : Infos) (s : LocalSet)
      → IsSound s.collections
      → IsSound (add_items host pid items s).set.collections
  unfolding add_items
  add_items-IsSound [] s h = h
  add_items-IsSound (item ∷ items) s h =
      let one = add_one-IsSound item s h in
      after-rule (λ z. IsSound z.set.collections) (add_one host pid item s)
        (λ _ t. add_items host pid items t)
        (λ _ _. add_items-IsSound items (add_one host pid item s).set one)
        (λ z e _. subst (λ t. IsSound t.collections) (sym e) one)

  sort_items-IsSound :
      (s : LocalSet) → IsSound s.collections → IsSound (sort_items host pid s).collections
  unfolding sort_items
  sort_items-IsSound s h = elim (Option-cases (lookup pid s.collections)) [
    | inl e ↦ rw (e, sort_items) h
    | inr (col, e) ↦
        rw (e, sort_items)
          (insert-IsSound pid (host.sort (less by_name) col) s.collections
            (Permuted-IsUnique (sorting (less by_name) col) (
              subst (λ c. IsUnique (ids c)) (rw (e, items_of) refl)
                (IsSound-items_of pid s.collections h)))
            h)
  ]

  -- Whatever is added, and whether it fails or not, the ids stay unique and not empty.
  pub add-IsSound :
      (items : Infos) (s : LocalSet)
      → IsSound s.collections
      → IsSound (add host pid items s).set.collections
  unfolding add
  add-IsSound items s h =
      after-rule (λ z. IsSound z.set.collections) (stop (checked (validate_id host.peers pid)) s)
        (λ _ t.
          after (add_items host pid items t)
            λ _ t. save_profile_collection host pid (sort_items host pid t))
        (λ _ _.
          let some_added = add_items-IsSound items s h in
          after-rule (λ z. IsSound z.set.collections) (add_items host pid items s)
            (λ _ t. save_profile_collection host pid (sort_items host pid t))
            (λ _ _.
              subst IsSound
                (sym (save-keeps host pid (sort_items host pid (add_items host pid items s).set)).0)
                (sort_items-IsSound (add_items host pid items s).set some_added))
            (λ z e _. subst (λ t. IsSound t.collections) (sym e) some_added))
        (λ z e _. subst (λ t. IsSound t.collections) (sym e) h)

  sort_items-look :
      (q k : Text) (s : LocalSet)
      → IsSound s.collections
      → look q k (sort_items host pid s).collections ≡ look q k s.collections
  unfolding sort_items
  sort_items-look q k s h = elim (Option-cases (lookup pid s.collections)) [
    | inl e ↦ rw (e, sort_items) refl
    | inr (col, e) ↦
        let sorted = host.sort (less by_name) col in
        let unique =
          subst (λ c. IsUnique (ids c)) (rw (e, items_of) refl)
            (IsSound-items_of pid s.collections h) in
        let same = find-Permuted k (sorting (less by_name) col) (
          subst (λ n. n ≤ 1) (sym (times-Permuted k (sorting (less by_name) col)))
            (IsUnique-le (ids col) unique k)) in
        rw (e, sort_items)
          (look-insert pid q k sorted s.collections ∙ elim (Bool-cases (text_eq pid q)) [
            | inl t ↦ rw t (
                same
                ∙ subst (λ r. find k col ≡ look r k s.collections) ((text_eq_iff pid q).0 t)
                    (rw (e, look) refl))
            | inr t ↦ rw t refl
          ])
  ]

  abbrev with_item : VersionInfo → LocalSet → LocalSet
  with_item item s = record s {
    collections = insert pid (put_item item (items_of pid s.collections)) s.collections;
  }

  add_one-ok :
      (item : VersionInfo) (s : LocalSet)
      → is_listable item ≡ true
      → add_one host pid item s ≡ stop (ok tt) (with_item item s)
  unfolding add_one
  add_one-ok item s l =
      let p : is_empty item.profile_id ≡ false = ground (arith, l) in
      let i : is_empty item.init_id ≡ false = ground (arith, l) in
      let u : is_empty item.username ≡ false = ground (arith, l) in
      let n : is_empty item.name ≡ false = ground (arith, l) in rw (p, i, u, n) refl

  add_one-refused :
      (item : VersionInfo) (s : LocalSet)
      → is_listable item ≡ false
      → ((add_one host pid item s).result ≢ ok tt) × ((add_one host pid item s).set ≡ s)
  unfolding add_one
  add_one-refused item s l = elim (Bool-cases (is_empty item.profile_id)) [
    | inl p ↦ rw p (err_not_ok, refl)
    | inr p ↦ elim (Bool-cases (is_empty item.init_id)) [
      | inl i ↦ rw (p, i) (err_not_ok, refl)
      | inr i ↦ elim (Bool-cases (is_empty item.username)) [
        | inl u ↦ rw (p, i, u) (err_not_ok, refl)
        | inr u ↦ elim (Bool-cases (is_empty item.name)) [
          | inl n ↦ rw (p, i, u, n) (err_not_ok, refl)
          | inr n ↦ absurd (ground (arith, l, p, i, u, n))
        ]
      ]
    ]
  ]

  abbrev stored : LocalSet → Step (Unit {0})
  stored s = save_profile_collection host pid (sort_items host pid s)

  add-one :
      (item : VersionInfo) (s : LocalSet)
      → validate_id host.peers pid ≡ ok tt
      → is_listable item ≡ true
      → add host pid (item ∷ []) s ≡ stored (with_item item s)
  unfolding add add_items
  add-one item s v l =
      after-ok (stop (checked (validate_id host.peers pid)) s)
        (λ _ t. after (add_items host pid (item ∷ []) t) λ _ t. stored t) tt (ap checked v)
      ∙ ap (λ o. after (after o λ _ t. add_items host pid [] t) λ _ t. stored t)
          (add_one-ok item s l)

  -- A refused version changes nothing.
  pub add-refused :
      (item : VersionInfo) (s : LocalSet)
      → (validate_id host.peers pid ≡ ok tt → is_listable item ≡ false)
      → (add host pid (item ∷ []) s).set ≡ s
  unfolding add add_items
  add-refused item s f =
      after-rule (λ z. z.set ≡ s) (stop (checked (validate_id host.peers pid)) s)
        (λ _ t. after (add_items host pid (item ∷ []) t) λ _ t. stored t)
        (λ u e.
          let r = add_one-refused item s (f (of_checked (validate_id host.peers pid) e)) in
          let items =
            after-rule (λ z. (z.result ≢ ok tt) × (z.set ≡ s)) (add_one host pid item s)
              (λ _ t. add_items host pid [] t) (λ _ e. absurd (r.0 e))
              (λ z e fails. (fails tt, e ∙ r.1)) in
          after-rule (λ z. z.set ≡ s) (add_items host pid (item ∷ []) s) (λ _ t. stored t)
            (λ _ e. absurd (items.0 e)) (λ z e _. e ∙ items.1))
        (λ z e _. e)

  -- What `Add` of one version does to what `Get` shows: with a valid profile id and a listable version
  -- it puts the version there.
  pub add-look :
      (item : VersionInfo) (q k : Text) (s : LocalSet)
      → validate_id host.peers pid ≡ ok tt
      → is_listable item ≡ true
      → IsSound s.collections
      → look q k (add host pid (item ∷ []) s).set.collections
        ≡ (if text_eq pid q && text_eq item.init_id k then some item else look q k s.collections)
  add-look item q k s v l h =
      let col = put_item item (items_of pid s.collections) in
      let i : is_empty item.init_id ≡ false = ground (arith, l) in
      let sound =
        insert-IsSound pid col s.collections
          (put_item-IsUnique item (items_of pid s.collections) i
            (IsSound-items_of pid s.collections h))
          h in
      ap (λ z. look q k z.set.collections) (add-one item s v l)
      ∙ ap (look q k) (save-keeps host pid (sort_items host pid (with_item item s))).0
      ∙ sort_items-look q k (with_item item s) sound
      ∙ look-insert pid q k col s.collections
      ∙ elim (Bool-cases (text_eq pid q)) [
        | inl t ↦ rw t (
            find-put_item k item (items_of pid s.collections)
            ∙ ap (λ o. if text_eq item.init_id k then some item else o)
                (find-items_of pid k s.collections
                  ∙ ap (λ r. look r k s.collections) ((text_eq_iff pid q).0 t)))
        | inr t ↦ rw t refl
      ]
