-- ===== src/Refstore/Listing.antt =====
-- The page that `References` returns, and when it panics.
use repo_4636_qri.Prelude.{
  ℕ, zero, suc, ◌+◌, ◌-◌, ◌<◌, ◌≤◌, ◌≡◌, refl, sym, ap, ◌∙◌, inl, inr, true, false, [], ◌∷◌, ◌++◌,
  length, length-append, take, take-nil, drop, set, replicate, ltb, leb, if◌then◌else◌, ok, panic,
  Bool-cases, arith,
}
use mathlib.Core.List.{append_assoc, append-nil}
use repo_4636_qri.Prelude.Int.{pos, negsuc, ◌-ℤ◌, int_eq, ltb_ℤ}
use repo_4636_qri.Refstore.{DatasetRef, Refs, empty_ref, write_at, slice_to, fill, references}

index : (o k : ℕ) → pos (o + k) -ℤ pos o ≡ pos k
unfolding ◌-ℤ◌
index o k = ground arith

below_lem : (i o : ℕ) → i < o → pos i -ℤ pos o ≡ negsuc (o - i - 1)
unfolding ◌-ℤ◌
below_lem i o h = ground arith

same : (n : ℕ) → int_eq (pos n) (pos (n + 0)) ≡ true
unfolding int_eq
same n = ground arith

more : (n m : ℕ) → int_eq (pos n) (pos (n + suc m)) ≡ false
unfolding int_eq
more n m = ground arith

module _ {Dataset : Type 0} where
  take-append : (xs ys : Refs Dataset) → take (length xs) (xs ++ ys) ≡ xs
  take-append [] ys = refl
  take-append (x ∷ xs) ys = ap (λ zs. x ∷ zs) (take-append xs ys)

  set-append :
      (xs : Refs Dataset) (y z : DatasetRef Dataset) (ys : Refs Dataset)
      → set (xs ++ y ∷ ys) (length xs) z ≡ xs ++ z ∷ ys
  set-append [] y z ys = refl
  set-append (x ∷ xs) y z ys = ap (λ zs. x ∷ zs) (set-append xs y z ys)

  slice_to-done :
      (done : Refs Dataset) (m : ℕ)
      → slice_to (pos (length done)) (done ++ replicate m empty_ref) ≡ ok done
  unfolding slice_to
  slice_to-done done m =
      let fits : leb (length done) (length (done ++ replicate m (empty_ref {Dataset = Dataset})))
          ≡ true =
        ground (arith, length-append done (replicate m (empty_ref {Dataset = Dataset}))) in
      rw (fits, take-append done (replicate m empty_ref)) refl

  write_at-done :
      (done : Refs Dataset) (r : DatasetRef Dataset) (m : ℕ)
      → write_at (pos (length done)) r (done ++ empty_ref ∷ replicate m empty_ref)
        ≡ ok (done ++ r ∷ replicate m empty_ref)
  unfolding write_at
  write_at-done done r m =
      let fits : ltb (length done)
            (length (done ++ empty_ref {Dataset = Dataset} ∷ replicate m empty_ref))
          ≡ true =
        ground
          (arith, length-append done (empty_ref {Dataset = Dataset} ∷ replicate m empty_ref)) in
      rw (fits, set-append done empty_ref r (replicate m empty_ref)) refl

  -- Below the offset nothing is written.
  fill-before :
      (o l d i : ℕ) (refs res : Refs Dataset)
      → i + d ≡ o
      → d ≤ length refs
      → fill (pos o) (pos l) i refs res ≡ fill (pos o) (pos l) o (drop d refs) res
  unfolding fill
  fill-before o l zero i refs res e b =
      ap (λ j. fill (pos o) (pos l) j refs res) (let k : i ≡ o = omega arith in k)
  fill-before o l (suc d) i [] res e b = absurd (omega arith)
  fill-before o l (suc d) i (r ∷ rs) res e b =
      let before : ltb_ℤ (pos i) (pos o) ≡ true = ground arith in
      rw before (fill-before o l d (i + 1) rs res (omega arith) (omega arith))

  -- From the offset on, the references that are written take the place of empty ones.
  fill-from :
      (o : ℕ) (refs done : Refs Dataset) (m : ℕ)
      → fill (pos o) (pos (length done + m)) (o + length done) refs (done ++ replicate m empty_ref)
        ≡ ok (done ++ take m refs)
  unfolding fill
  fill-from o [] done m =
      ap (λ i. slice_to i (done ++ replicate m empty_ref)) (index o (length done))
      ∙ slice_to-done done m
      ∙ rw (take-nil m) (ap ok (sym (append-nil done)))
  fill-from o (r ∷ rs) done zero =
      let from : ltb_ℤ (pos (o + length done)) (pos o) ≡ false = ground arith in
      rw (from, index o (length done), same (length done)) refl
  fill-from o (r ∷ rs) done (suc m) =
      let from : ltb_ℤ (pos (o + length done)) (pos o) ≡ false = ground arith in
      let done' = done ++ r ∷ [] in
      let n : length done + suc m ≡ length done' + m = omega (arith, length-append done (r ∷ [])) in
      let i : o + length done + 1 ≡ o + length done' = omega (arith, length-append done (r ∷ [])) in
      rw (from, index o (length done), more (length done) m, write_at-done done r m)
        (ap (λ l. fill (pos o) (pos l) (o + length done + 1) rs (done ++ r ∷ replicate m empty_ref))
            n
          ∙ ap (λ j. fill (pos o) (pos (length done' + m)) j rs (done ++ r ∷ replicate m empty_ref))
              i
          ∙ ap (λ res. fill (pos o) (pos (length done' + m)) (o + length done') rs res)
              (sym (append_assoc done (r ∷ []) (replicate m empty_ref)))
          ∙ fill-from o rs done' m
          ∙ ap ok (append_assoc done (r ∷ []) (take m rs)))

  -- With too few references the last line slices with an index below 0.
  fill-beyond :
      (o l i : ℕ) (refs res : Refs Dataset)
      → i + length refs < o
      → fill (pos o) (pos l) i refs res ≡ panic
  unfolding fill slice_to
  fill-beyond o l i [] res b =
      let below : pos i -ℤ pos o ≡ negsuc (o - i - 1) = below_lem i o (omega arith) in rw below refl
  fill-beyond o l i (r ∷ rs) res b =
      let before : ltb_ℤ (pos i) (pos o) ≡ true = ground arith in
      rw before (fill-beyond o l (i + 1) rs res (omega arith))

  -- For an offset and a limit that are not negative, `References` returns the references from the
  -- offset on, as many as the limit, or panics if there are fewer references than the offset.
  pub references-page :
      (offset limit : ℕ) (refs : Refs Dataset)
      → references (pos offset) (pos limit) refs
        ≡ (if leb offset (length refs) then ok (take limit (drop offset refs)) else panic)
  unfolding references
  references-page offset limit refs = elim (Bool-cases (leb offset (length refs))) [
    | inl e ↦
        let within : offset ≤ length refs = ground arith in
        rw e (
          fill-before offset limit offset 0 refs (replicate limit empty_ref) (omega arith) within
          ∙ ap (λ i. fill (pos offset) (pos limit) i (drop offset refs) (replicate limit empty_ref))
              (let k : offset ≡ offset + 0 = omega arith in k)
          ∙ ap
              (λ l.
                fill (pos offset) (pos l) (offset + 0) (drop offset refs)
                  (replicate limit empty_ref))
              (let k : limit ≡ 0 + limit = omega arith in k)
          ∙ fill-from offset (drop offset refs) [] limit)
    | inr e ↦
        let beyond : 0 + length refs < offset = ground arith in
        rw e (fill-beyond offset limit 0 refs (replicate limit empty_ref) beyond)
  ]
