-- ===== src/Refstore/Finding.antt =====
-- What `GetRef` finds behind `PutRef`.
use repo_4636_qri.Prelude.{
  suc, ◌+◌, ◌≡◌, refl, sym, ap, subst, ◌∙◌, inl, inr, Bool, true, none, some, [], ◌∷◌, ◌++◌,
  text_eq_refl, length, length-append, if◌then◌else◌, ok, err, panic, Bool-cases, Option-cases,
  arith,
}
use mathlib.Core.List.{Permᴰ}
use mathlib.Core.List.Permᴰ.{nil, cons, swap, trans}
use mathlib.Core.Option.{some-injective}
use repo_4636_qri.Refstore.{
  DatasetRef, Refs, matches, check_ref, replace_ref, ref_less, put_ref, get_ref, not_found,
}

module _ {Dataset : Type 0} where
  matches_refl : (r : DatasetRef Dataset) → matches r r ≡ true
  unfolding matches
  matches_refl r = ground (arith, text_eq_refl r.profile_id, text_eq_refl r.name)

  -- A reference that matches is the one that was put.
  abbrev pub Only : DatasetRef Dataset → Refs Dataset → Type 0
  Only put [] = Unit
  Only put (x ∷ xs) = (matches x put ≡ true → x ≡ put) × Only put xs

  length-Permᴰ : {xs ys : Refs Dataset} → Permᴰ xs ys → length xs ≡ length ys
  length-Permᴰ nil = refl
  length-Permᴰ (cons e p) = ap suc (length-Permᴰ p)
  length-Permᴰ (swap e f) = refl
  length-Permᴰ (trans p q) = length-Permᴰ p ∙ length-Permᴰ q

  module _ (put : DatasetRef Dataset) where
    Only-Permᴰ : {xs ys : Refs Dataset} → Permᴰ xs ys → Only put xs → Only put ys
    Only-Permᴰ nil o = o
    Only-Permᴰ (cons e p) o = (subst (λ x. matches x put ≡ true → x ≡ put) e o.0, Only-Permᴰ p o.1)
    Only-Permᴰ (swap e f) o = (
      subst (λ x. matches x put ≡ true → x ≡ put) f o.1.0,
      (subst (λ x. matches x put ≡ true → x ≡ put) e o.0, o.1.1),
    )
    Only-Permᴰ (trans p q) o = Only-Permᴰ q (Only-Permᴰ p o)

    get_ref-swap :
        (x y : DatasetRef Dataset) (zs : Refs Dataset)
        → Only put (x ∷ y ∷ zs)
        → get_ref put (x ∷ y ∷ zs) ≡ get_ref put (y ∷ x ∷ zs)
    unfolding get_ref
    get_ref-swap x y zs o = elim (Bool-cases (matches x put)) [
      | inl e ↦ elim (Bool-cases (matches y put)) [
        | inl f ↦ rw (e, f) (ap ok (o.0 e ∙ sym (o.1.0 f)))
        | inr f ↦ rw (e, f) refl
      ]
      | inr e ↦ rw e refl
    ]

    get_ref-Permᴰ :
        {xs ys : Refs Dataset} → Permᴰ xs ys → Only put xs → get_ref put xs ≡ get_ref put ys
    unfolding get_ref
    get_ref-Permᴰ nil o = refl
    get_ref-Permᴰ (cons {a} {b} {l₁} {l₂} e p) o =
        ap (λ x. get_ref put (x ∷ l₁)) e
        ∙ ap (λ r. if matches b put then ok b else r) (get_ref-Permᴰ p o.1)
    get_ref-Permᴰ (swap {a} {b} {a'} {b'} {l} e f) o =
        get_ref-swap a b l o
        ∙ ap (λ x. get_ref put (x ∷ a ∷ l)) f
        ∙ ap (λ x. get_ref put (a' ∷ x ∷ l)) e
    get_ref-Permᴰ (trans p q) o = get_ref-Permᴰ p o ∙ get_ref-Permᴰ q (Only-Permᴰ p o)

    get_ref-replace_ref :
        (refs rs : Refs Dataset)
        → replace_ref put refs ≡ some rs
        → (get_ref put rs ≡ ok put) × (length rs ≡ length refs)
    unfolding replace_ref get_ref
    get_ref-replace_ref [] rs h = cc
    get_ref-replace_ref (x ∷ xs) out h = elim (Bool-cases (matches x put)) [
      | inl e ↦
          subst (λ o. (get_ref put o ≡ ok put) × (length o ≡ suc (length xs)))
            (some-injective _ _ (rw e at h)) (rw (matches_refl put) (refl, refl))
      | inr e ↦ elim (Option-cases (replace_ref put xs)) [
        | inl n ↦ cc (rw (e, n) at h)
        | inr (rs, n) ↦
            let (found, same) = get_ref-replace_ref xs rs n in
            subst (λ o. (get_ref put o ≡ ok put) × (length o ≡ suc (length xs)))
              (some-injective _ _ (rw (e, n) at h)) (rw e (found, ap suc same))
      ]
    ]

    -- Without a match, the appended reference is the only one.
    append-Only :
        (refs : Refs Dataset)
        → replace_ref put refs ≡ none
        → Only put (refs ++ put ∷ []) × (get_ref put (refs ++ put ∷ []) ≡ ok put)
    unfolding replace_ref get_ref
    append-Only [] h = (((λ e. refl), tt), rw (matches_refl put) refl)
    append-Only (x ∷ xs) h = elim (Bool-cases (matches x put)) [
      | inl e ↦ cc (rw e at h)
      | inr e ↦ elim (Option-cases (replace_ref put xs)) [
        | inl n ↦ let (only, found) = append-Only xs n in (((λ m. cc), only), rw e found)
        | inr (rs, n) ↦ cc (rw (e, n) at h)
      ]
    ]

    get_ref-found :
        (refs rs : Refs Dataset)
        → replace_ref put refs ≡ some rs
        → (r : DatasetRef Dataset) × (get_ref put refs ≡ ok r)
    unfolding replace_ref get_ref
    get_ref-found [] rs h = cc
    get_ref-found (x ∷ xs) out h = elim (Bool-cases (matches x put)) [
      | inl e ↦ (x, rw e refl)
      | inr e ↦ elim (Option-cases (replace_ref put xs)) [
        | inl n ↦ cc (rw (e, n) at h)
        | inr (rs, n) ↦ let (r, found) = get_ref-found xs rs n in (r, rw e found)
      ]
    ]

    get_ref-missing :
        (refs : Refs Dataset) → replace_ref put refs ≡ none → get_ref put refs ≡ err not_found
    unfolding replace_ref get_ref
    get_ref-missing [] h = refl
    get_ref-missing (x ∷ xs) h = elim (Bool-cases (matches x put)) [
      | inl e ↦ cc (rw e at h)
      | inr e ↦ elim (Option-cases (replace_ref put xs)) [
        | inl n ↦ rw e (get_ref-missing xs n)
        | inr (rs, n) ↦ cc (rw (e, n) at h)
      ]
    ]

  -- If `sort.Slice` permutes, `PutRef` of a reference that passes its checks succeeds, `GetRef` of the
  -- reference then returns it, and there is one reference more exactly if `GetRef` found none before.
  pub put_ref-get_ref :
      (sort : (DatasetRef Dataset → DatasetRef Dataset → Bool) → Refs Dataset → Refs Dataset)
      (put : DatasetRef Dataset) (refs : Refs Dataset)
      → ((xs : Refs Dataset) → Permᴰ xs (sort ref_less xs))
      → check_ref put ≡ ok tt
      → (rs : Refs Dataset) × (put_ref sort put refs ≡ ok rs)
        × (get_ref put rs ≡ ok put)
        × (length rs ≡ (elim (get_ref put refs) [ ok r ↦ 0 | err e ↦ 1 | panic ↦ 0 ]) + length refs)
  unfolding put_ref
  put_ref-get_ref sort put refs permutes valid = elim (Option-cases (replace_ref put refs)) [
    | inl n ↦
        let (only, found) = append-Only put refs n in
        let p = permutes (refs ++ put ∷ []) in
        (
          sort ref_less (refs ++ put ∷ []),
          rw (valid, n) refl,
          sym (get_ref-Permᴰ put p only) ∙ found,
          rw (get_ref-missing put refs n)
              (sym (length-Permᴰ p) ∙ omega (arith, length-append refs (put ∷ []))),
        )
    | inr (rs, n) ↦
        let (found, same) = get_ref-replace_ref put refs rs n in
        let (r, before) = get_ref-found put refs rs n in
        (rs, rw (valid, n) refl, found, rw before (omega (arith, same)))
  ]
