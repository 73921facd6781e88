-- ===== src/Collection/Deleting.antt =====
-- `Delete`: what it does to the function that `Get` shows, and to the ids.
use repo_4636_qri.Prelude.{
  ◌≡◌, ◌≢◌, refl, sym, ap, subst, ◌∙◌, inl, inr, ◌&&◌, none, some, Text, text_eq, text_eq_iff,
  if◌then◌else◌, ok, Bool-cases, Option-cases, arith,
}
use repo_4636_qri.Prelude.Dict.{lookup, insert}
use repo_4636_qri.Profile.{validate_id}
use repo_4636_qri.Collection.{
  Infos, Host, LocalSet, stop, checked, find, remove_item, items_of, delete_from, delete,
}
use repo_4636_qri.Collection.Ids.{
  ids, IsUnique, times-remove_item, find-remove_item, remove_item-none,
}
use repo_4636_qri.Collection.Updates.Walking.{save-keeps, after-rule}
use repo_4636_qri.Collection.Updates.Saving.{after-ok}
use repo_4636_qri.Collection.Viewing.{look, IsSound, IsSound-items_of, insert-IsSound, look-insert}
use repo_4636_qri.Collection.Adding.{IsUnique-le, of_checked}

module _ (host : Host) (pid id : Text) (s : LocalSet) (sound : IsSound s.collections) where
  collection-IsUnique : (col : Infos) → lookup pid s.collections ≡ some col → IsUnique (ids col)
  collection-IsUnique col e =
      subst (λ c. IsUnique (ids c)) (rw (e, items_of) refl)
        (IsSound-items_of pid s.collections sound)

  remove_item-IsUnique :
      (col col' : Infos) → IsUnique (ids col) → remove_item id col ≡ some col' → IsUnique (ids col')
  remove_item-IsUnique col col' u r k = omega (arith, times-remove_item id k col col' r, u k)

  delete_from-IsSound : IsSound (delete_from host pid id s).set.collections
  unfolding delete_from
  delete_from-IsSound = elim (Option-cases (lookup pid s.collections)) [
    | inl e ↦ rw (e, delete_from) sound
    | inr (col, e) ↦ elim (Option-cases (remove_item id col)) [
      | inl r ↦ rw (e, r, delete_from) sound
      | inr (col', r) ↦
          rw (e, r, delete_from)
            (subst IsSound
              (sym
                (save-keeps host pid (record s { collections = insert pid col' s.collections })).0)
              (insert-IsSound pid col' s.collections
                (remove_item-IsUnique col col' (collection-IsUnique col e) r) sound))
    ]
  ]

  -- Whether it fails or not, the ids stay unique and not empty.
  pub delete-IsSound : IsSound (delete host pid id s).set.collections
  unfolding delete
  delete-IsSound =
      after-rule (λ z. IsSound z.set.collections) (stop (checked (validate_id host.peers pid)) s)
        (λ _ t. delete_from host pid id t) (λ _ _. delete_from-IsSound)
        (λ z e _. subst (λ t. IsSound t.collections) (sym e) sound)

  -- With an invalid profile id nothing changes.
  pub delete-refused : validate_id host.peers pid ≢ ok tt → (delete host pid id s).set ≡ s
  unfolding delete
  delete-refused bad =
      after-rule (λ z. z.set ≡ s) (stop (checked (validate_id host.peers pid)) s)
        (λ _ t. delete_from host pid id t)
        (λ _ e. absurd (bad (of_checked (validate_id host.peers pid) e))) (λ z e _. e)

  module _ (q k : Text) where
    abbrev Gone : Type 0
    Gone =
        look q k (delete_from host pid id s).set.collections
        ≡ (if text_eq pid q && text_eq id k then none else look q k s.collections)

    nothing :
        look pid id s.collections ≡ none
        → look q k s.collections
          ≡ (if text_eq pid q && text_eq id k then none else look q k s.collections)
    nothing n = elim (Bool-cases (text_eq pid q)) [
      | inr t ↦ rw t refl
      | inl t ↦ elim (Bool-cases (text_eq id k)) [
        | inr j ↦ rw (t, j) refl
        | inl j ↦
            rw (t, j)
              (subst (λ x. look x k s.collections ≡ none) ((text_eq_iff pid q).0 t)
                (subst (λ x. look pid x s.collections ≡ none) ((text_eq_iff id k).0 j) n))
      ]
    ]

    delete_from-look : Gone
    unfolding delete_from
    delete_from-look = elim (Option-cases (lookup pid s.collections)) [
      | inl e ↦ rw (e, delete_from) (nothing (rw (e, look) refl))
      | inr (col, e) ↦ elim (Option-cases (remove_item id col)) [
        | inl r ↦ rw (e, r, delete_from) (nothing (rw (e, look) (remove_item-none id col r)))
        | inr (col', r) ↦
            let found =
              find-remove_item id k col col' r
                (IsUnique-le (ids col) (collection-IsUnique col e) id) in
            rw (e, r, delete_from)
              (ap (look q k)
                  (save-keeps host pid (record s { collections = insert pid col' s.collections })).0
                ∙ look-insert pid q k col' s.collections
                ∙ elim (Bool-cases (text_eq pid q)) [
                  | inr t ↦ rw t refl
                  | inl t ↦ rw t (
                      found
                      ∙ ap (λ o. if text_eq id k then none else o)
                          (subst (λ x. find k col ≡ look x k s.collections)
                            ((text_eq_iff pid q).0 t) (rw (e, look) refl)))
                ])
      ]
    ]

    -- With a valid profile id the version is gone from the collection of the profile, and all else
    -- is as before.
    pub delete-look :
        validate_id host.peers pid ≡ ok tt
        → look q k (delete host pid id s).set.collections
          ≡ (if text_eq pid q && text_eq id k then none else look q k s.collections)
    unfolding delete
    delete-look v =
        ap (λ o. look q k o.set.collections)
          (after-ok (stop (checked (validate_id host.peers pid)) s)
            (λ _ t. delete_from host pid id t) tt (ap checked v))
        ∙ delete_from-look
