-- ===== src/Collection/Ids.antt =====
-- The ids in a collection: how often each stands there, and what is found under it.
use repo_4636_qri.Prelude.{
  ℕ, ◌+◌, ◌≤◌, ◌≡◌, refl, ap, subst, ◌∙◌, inl, inr, false, Option, none, some, List, [], ◌∷◌, map,
  Text, text_eq, text_eq_iff, text_eq_refl, is_empty, if◌then◌else◌, Bool-cases, Option-cases,
  arith,
}
use repo_4636_qri.Dsref.VersionInfo.{VersionInfo}
use repo_4636_qri.Collection.{Infos, find, put_item, remove_item}

abbrev pub ids : Infos → List Text
ids = map (λ vi. vi.init_id)

unfoldable pub times : Text → List Text → ℕ
times id [] = 0
times id (x ∷ xs) = (if text_eq x id then 1 else 0) + times id xs

-- No id stands there twice, and the empty id not at all.
abbrev pub IsUnique : List Text → Type 0
IsUnique xs = (id : Text) → times id xs ≤ (if is_empty id then 0 else 1)

some_injective {ℓ} : {A : Type ℓ} {a b : A} → Path (Option A) (some a) (some b) → a ≡ b
some_injective h = cc

pub find-none : (id : Text) (vis : Infos) → times id (ids vis) ≡ 0 → find id vis ≡ none
unfolding times find
find-none id [] h = refl
find-none id (vi ∷ vis) h = ground (arith, find-none id vis)

pub find-has_id :
    (id : Text) (vis : Infos) {vi : VersionInfo} → find id vis ≡ some vi → vi.init_id ≡ id
unfolding find
find-has_id id [] h = cc
find-has_id id (v ∷ vis) h = elim (Bool-cases (text_eq v.init_id id)) [
  | inl e ↦
      subst (λ v'. v'.init_id ≡ id) (some_injective (rw e at h)) ((text_eq_iff v.init_id id).0 e)
  | inr e ↦ find-has_id id vis (rw e at h)
]

pub find-put_item :
    (id : Text) (item : VersionInfo) (vis : Infos)
    → find id (put_item item vis) ≡ (if text_eq item.init_id id then some item else find id vis)
unfolding find put_item
find-put_item id item [] = refl
find-put_item id item (vi ∷ vis) = elim (Bool-cases (text_eq vi.init_id item.init_id)) [
  | inl e ↦
      let q = ap (λ t. text_eq t id) ((text_eq_iff vi.init_id item.init_id).0 e) in
      rw e (ground (arith, q))
  | inr e ↦ rw e (
      ground (
        arith,
        find-put_item id item vis,
        text_eq_iff vi.init_id id,
        text_eq_iff item.init_id id,
        text_eq_iff vi.init_id item.init_id,
      ))
]

pub times-put_item_id :
    (item : VersionInfo) (vis : Infos)
    → times item.init_id (ids vis) ≤ 1
    → times item.init_id (ids (put_item item vis)) ≤ 1
unfolding times put_item
times-put_item_id item [] h = ground (arith, text_eq_refl item.init_id)
times-put_item_id item (vi ∷ vis) h = elim (Bool-cases (text_eq vi.init_id item.init_id)) [
  | inl e ↦ rw (e, text_eq_refl item.init_id) (let k = rw e at h in omega arith)
  | inr e ↦ rw (e, e) (ground (arith, times-put_item_id item vis))
]

pub times-put_item_other :
    (id : Text) (item : VersionInfo) (vis : Infos)
    → text_eq item.init_id id ≡ false
    → times id (ids (put_item item vis)) ≡ times id (ids vis)
unfolding times put_item
times-put_item_other id item [] h = rw h refl
times-put_item_other id item (vi ∷ vis) h =
    ground (arith, times-put_item_other id item vis h, text_eq_iff vi.init_id item.init_id)

-- What `sort.Sort` may do to a list: it swaps entries.
pub data Permuted : Infos → Infos → Type 0 where
  same : {xs : Infos} → Permuted xs xs
  skip : {x : VersionInfo} {xs ys : Infos} → Permuted xs ys → Permuted (x ∷ xs) (x ∷ ys)
  swap : {x y : VersionInfo} {xs : Infos} → Permuted (x ∷ y ∷ xs) (y ∷ x ∷ xs)
  trans : {xs ys zs : Infos} → Permuted xs ys → Permuted ys zs → Permuted xs zs

pub times-Permuted :
    (id : Text) {xs ys : Infos} → Permuted xs ys → times id (ids xs) ≡ times id (ids ys)
unfolding times
times-Permuted id same = refl
times-Permuted id (skip {x} p) =
    ap (λ n. (if text_eq x.init_id id then 1 else 0) + n) (times-Permuted id p)
times-Permuted id swap = omega arith
times-Permuted id (trans p q) = times-Permuted id p ∙ times-Permuted id q

-- Among unique ids the order does not matter.
pub find-Permuted :
    (id : Text) {xs ys : Infos} → Permuted xs ys → times id (ids xs) ≤ 1 → find id xs ≡ find id ys
unfolding times find
find-Permuted id same h = refl
find-Permuted id (skip {x} p) h = ground (arith, find-Permuted id p)
find-Permuted id swap h = ground arith
find-Permuted id (trans p q) h =
    find-Permuted id p h ∙ find-Permuted id q (subst (λ n. n ≤ 1) (times-Permuted id p) h)

module _ (remove_id : Text) where
  pub remove_item-none :
      (vis : Infos) → remove_item remove_id vis ≡ none → find remove_id vis ≡ none
  unfolding remove_item find
  remove_item-none [] h = refl
  remove_item-none (vi ∷ vis) h = elim (Bool-cases (text_eq vi.init_id remove_id)) [
    | inl e ↦ cc (rw e at h)
    | inr e ↦ elim (Option-cases (remove_item remove_id vis)) [
      | inl r ↦ rw e (remove_item-none vis r)
      | inr (vis', r) ↦ cc (rw (e, r) at h)
    ]
  ]

  -- The removed entry is the only one of its id that goes.
  pub times-remove_item :
      (id : Text) (vis vis' : Infos)
      → remove_item remove_id vis ≡ some vis'
      → times id (ids vis') + (if text_eq remove_id id then 1 else 0) ≡ times id (ids vis)
  unfolding remove_item times
  times-remove_item id [] vis' h = cc
  times-remove_item id (vi ∷ vis) out h = elim (Bool-cases (text_eq vi.init_id remove_id)) [
    | inl e ↦
        let k = rw e at h in
        let q = ap (λ t. text_eq t id) ((text_eq_iff vi.init_id remove_id).0 e) in
        ground (arith, k, q)
    | inr e ↦ elim (Option-cases (remove_item remove_id vis)) [
      | inl r ↦ cc (rw (e, r) at h)
      | inr (vis', r) ↦
          let k = rw (e, r) at h in
          subst
            (λ o.
              times id (ids o) + (if text_eq remove_id id then 1 else 0)
              ≡ times id (ids (vi ∷ vis)))
            (some_injective k) (omega (arith, times-remove_item id vis vis' r))
    ]
  ]

  pub find-remove_item :
      (id : Text) (vis vis' : Infos)
      → remove_item remove_id vis ≡ some vis'
      → times remove_id (ids vis) ≤ 1
      → find id vis' ≡ (if text_eq remove_id id then none else find id vis)
  unfolding remove_item times find
  find-remove_item id [] vis' h u = cc
  find-remove_item id (vi ∷ vis) out h u = elim (Bool-cases (text_eq vi.init_id remove_id)) [
    | inl e ↦
        let k = rw e at h in
        let q = ap (λ t. text_eq t id) ((text_eq_iff vi.init_id remove_id).0 e) in
        subst (λ o. find id o ≡ (if text_eq remove_id id then none else find id (vi ∷ vis)))
          (some_injective k)
          (elim (Bool-cases (text_eq remove_id id)) [
            | inl t ↦ rw t (
                find-none id vis (
                  subst (λ i. times i (ids vis) ≡ 0) ((text_eq_iff remove_id id).0 t)
                    (let v = rw e at u in omega arith)))
            | inr t ↦ rw (t, q, t) refl
          ])
    | inr e ↦ elim (Option-cases (remove_item remove_id vis)) [
      | inl r ↦ cc (rw (e, r) at h)
      | inr (vis', r) ↦
          let k = rw (e, r) at h in
          subst (λ o. find id o ≡ (if text_eq remove_id id then none else find id (vi ∷ vis)))
            (some_injective k)
            (ground (
              arith,
              e,
              find-remove_item id vis vis' r,
              text_eq_iff vi.init_id id,
              text_eq_iff remove_id id,
              text_eq_iff vi.init_id remove_id,
            ))
    ]
  ]
