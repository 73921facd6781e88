-- ===== src/Refstore/Files/Agreeing.antt =====
-- Where the store in a file agrees with the store in memory.
use repo_4636_qri.Prelude.{
  ℕ, ◌+◌, ◌≤◌, ◌≡◌, refl, sym, ap, ◌∙◌, inl, inr, Bool, true, false, none, some, [], ◌∷◌, ◌++◌,
  if◌then◌else◌, ok, Bool-cases, Option-cases, arith,
}
use mathlib.Core.List.{Permᴰ}
use mathlib.Core.List.Permᴰ as P
use mathlib.Core.Option.{some-injective}
use repo_4636_qri.Refstore.{DatasetRef, Refs, matches, ref_less, check_ref, replace_ref, put_ref}
use repo_4636_qri.Refstore.Files.{
  Disk, file_check, replace_all, put_in, file_refs, write_refs, save_refs, with_refs, file_put_ref,
}

module _ {Dataset : Type 0} (r : DatasetRef Dataset) where
  -- How many references match.
  abbrev pub match_count : Refs Dataset → ℕ
  match_count [] = 0
  match_count (x ∷ xs) = (if matches x r then 1 else 0) + match_count xs

  replace_all-unmatched :
      (refs : Refs Dataset) → match_count refs ≡ 0 → replace_all r refs ≡ (false, refs)
  unfolding replace_all
  replace_all-unmatched [] h = refl
  replace_all-unmatched (x ∷ xs) h = elim (Bool-cases (matches x r)) [
    | inl e ↦ absurd (let k = rw e at h in omega arith)
    | inr e ↦ rw (e, replace_all-unmatched xs (let k = rw e at h in omega arith)) refl
  ]

  replace_ref-unmatched : (refs : Refs Dataset) → replace_ref r refs ≡ none → match_count refs ≡ 0
  unfolding replace_ref
  replace_ref-unmatched [] h = refl
  replace_ref-unmatched (x ∷ xs) h = elim (Bool-cases (matches x r)) [
    | inl e ↦ cc (rw e at h)
    | inr e ↦ elim (Option-cases (replace_ref r xs)) [
      | inl n ↦ rw e (omega (arith, replace_ref-unmatched xs n))
      | inr (rs, n) ↦ cc (rw (e, n) at h)
    ]
  ]

  replace_all-replace_ref :
      (refs rs : Refs Dataset)
      → replace_ref r refs ≡ some rs
      → match_count refs ≤ 1
      → replace_all r refs ≡ (true, rs)
  unfolding replace_ref replace_all
  replace_all-replace_ref [] rs h u = cc
  replace_all-replace_ref (x ∷ xs) out h u = elim (Bool-cases (matches x r)) [
    | inl e ↦
        let rest = replace_all-unmatched xs (let k = rw e at u in omega arith) in
        rw (e, rest) (ap (λ o. (true, o)) (some-injective _ _ (rw e at h)))
    | inr e ↦ elim (Option-cases (replace_ref r xs)) [
      | inl n ↦ cc (rw (e, n) at h)
      | inr (rs, n) ↦
          rw (e, replace_all-replace_ref xs rs n (let k = rw e at u in omega arith))
            (ap (λ o. (true, o)) (some-injective _ _ (rw (e, n) at h)))
    ]
  ]

  -- A reference that passes the checks of one store passes those of the other.
  check_ref-file_check : check_ref r ≡ ok tt → file_check r ≡ ok tt
  check_ref-file_check h = ground arith

file_put_ref-saves :
    {W Dataset : Type 0} (disk : Disk W Dataset) (r : DatasetRef Dataset) (refs : Refs Dataset)
    (w : W)
    → r.dataset ≡ none
    → file_check r ≡ ok tt
    → file_refs disk w ≡ ok refs
    → file_put_ref disk r w ≡ save_refs disk (put_in r refs) w
unfolding file_put_ref
file_put_ref-saves disk r refs w bare valid stored =
    rw (valid, file_put_ref, stored, with_refs)
      (ap (λ d. save_refs disk (put_in (record r { dataset = d }) refs) w) (sym bare))

-- If both sorts permute, a reference without a dataset passes the checks and at most one reference
-- matches it, `PutRef` of the store in a file writes the references that `PutRef` of the store in
-- memory leaves, in some order, and returns the error of the write.
pub file_put_ref-put_ref :
    {W Dataset : Type 0} (disk : Disk W Dataset)
    (sort : (DatasetRef Dataset → DatasetRef Dataset → Bool) → Refs Dataset → Refs Dataset)
    (r : DatasetRef Dataset) (refs : Refs Dataset) (w : W)
    → ((xs : Refs Dataset) → Permᴰ xs (disk.sort ref_less xs))
    → ((xs : Refs Dataset) → Permᴰ xs (sort ref_less xs))
    → r.dataset ≡ none
    → check_ref r ≡ ok tt
    → file_refs disk w ≡ ok refs
    → match_count r refs ≤ 1
    → (rs : Refs Dataset) × (ms : Refs Dataset) × (file_put_ref disk r w ≡ write_refs disk rs w)
      × (put_ref sort r refs ≡ ok ms)
      × Permᴰ rs ms
unfolding file_put_ref put_ref save_refs
file_put_ref-put_ref disk sort r refs w orders sorts bare valid stored one =
    let saved = file_put_ref-saves disk r refs w bare (check_ref-file_check r valid) stored in
    elim (Option-cases (replace_ref r refs)) [
      | inl n ↦
          let loop = replace_all-unmatched r refs (replace_ref-unmatched r refs n) in
          (
            disk.sort ref_less (refs ++ r ∷ []),
            sort ref_less (refs ++ r ∷ []),
            saved ∙ rw loop refl,
            rw (valid, n) refl,
            P.trans (P.symm (orders (refs ++ r ∷ []))) (sorts (refs ++ r ∷ [])),
          )
      | inr (rs, n) ↦
          let loop = replace_all-replace_ref r refs rs n one in
          (disk.sort ref_less rs, rs, saved ∙ rw loop refl, rw (valid, n) refl, P.symm (orders rs))
    ]
