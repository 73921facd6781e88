-- ===== src/Collection/Listing.antt =====
-- `List` and `Get` of the local set.
use repo_4636_qri.Prelude.{
  ℕ, zero, suc, ◌+◌, ◌-◌, ◌<◌, ◌≡◌, refl, sym, ap, ◌∙◌, inl, inr, true, false, Option, none, some,
  List, [], ◌∷◌, Text, length, take, drop, take_all, drop_all, take-nil, length-drop, text_eq,
  text_eq_iff, codes, ◌==◌, Bool-cases, if◌then◌else◌, ok, ◌>>=◌, Option-cases, arith,
}
use repo_4636_qri.Prelude.Int.{ℤ, pos, negsuc, pos_part, ◌-ℤ◌, ltb_ℤ, int_eq, ◌+ℤ◌, ◌≤ℤ◌}
use repo_4636_qri.Prelude.Dict.{lookup}
use repo_4636_qri.Params.{ListParams, Order}
use repo_4636_qri.Profile.{validate_id}
use repo_4636_qri.Dsref.VersionInfo.{VersionInfo}
use repo_4636_qri.Collection.{
  Infos, Host, LocalSet, checked, collect, ordered, by_updated, is_after, list_set, list_from, get,
  get_from,
}
use repo_4636_qri.Collection.Viewing.{look}
use repo_4636_qri.Collection.Ids.{Permuted, same, skip, swap, trans}
use repo_4636_qri.Collection.Adding.{IsSorting}

none_not_some : {vi : VersionInfo} → Path (Option VersionInfo) none (some vi) → ⊥
none_not_some h = cc

-- A limit of 0 or less is none.
abbrev pub limited : ℤ → Infos → Infos
limited (pos zero) vis = vis
limited (pos (suc n)) vis = take (suc n) vis
limited (negsuc n) vis = vis

pred_pos : (o : ℕ) → pos (suc o) -ℤ pos 1 ≡ pos o
unfolding ◌-ℤ◌
pred_pos o = ground arith

pred_negsuc : (m : ℕ) → negsuc m -ℤ pos 1 ≡ negsuc (suc m)
unfolding ◌-ℤ◌
pred_negsuc m = ground arith

below : (m : ℕ) → ltb_ℤ (negsuc m) (pos 0) ≡ true
below m = ground arith

not_below : (o : ℕ) → ltb_ℤ (pos o) (pos 0) ≡ false
not_below o = ground arith

-- The loop behind the offset, without a limit and with one that is not reached yet.
collect-rest : (m n : ℕ) (vis : Infos) → collect (pos 0) (negsuc m) n vis ≡ vis
unfolding collect int_eq
collect-rest m n [] = refl
collect-rest m n (vi ∷ vis) =
    let on : (n + 1 == 0) ≡ false = ground arith in
    rw (pred_negsuc m, below (suc m), on) (ap (λ r. vi ∷ r) (collect-rest (suc m) (n + 1) vis))

collect-take :
    (m n l : ℕ) (vis : Infos) → n < l → collect (pos l) (negsuc m) n vis ≡ take (l - n) vis
unfolding collect int_eq
collect-take m n l [] h = sym (take-nil (l - n))
collect-take m n l (vi ∷ vis) h = elim (Bool-cases (n + 1 == l)) [
  | inl e ↦
      let one : l - n ≡ 1 = ground (arith, e) in rw (pred_negsuc m, below (suc m), e, one) refl
  | inr e ↦
      let more : l - n ≡ suc (l - (n + 1)) = ground (arith, e) in
      rw (pred_negsuc m, below (suc m), e, more)
        (ap (λ r. vi ∷ r) (collect-take (suc m) (n + 1) l vis (ground (arith, e))))
]

collect-all : (o : ℤ) (vis : Infos) → collect (pos 0) o 0 vis ≡ drop (pos_part o) vis
unfolding collect int_eq ◌-ℤ◌
collect-all (negsuc m) vis = collect-rest m 0 vis
collect-all (pos o) [] = sym (drop_all o [] (omega arith))
collect-all (pos zero) (vi ∷ vis) = ap (λ r. vi ∷ r) (collect-rest 0 1 vis)
collect-all (pos (suc o)) (vi ∷ vis) = rw (pred_pos o, not_below o) (collect-all (pos o) vis)

collect-page :
    (l : ℕ) (o : ℤ) (vis : Infos)
    → collect (pos (suc l)) o 0 vis ≡ take (suc l) (drop (pos_part o) vis)
unfolding collect int_eq ◌-ℤ◌
collect-page l (negsuc m) vis =
    let whole : suc l - 0 ≡ suc l = omega arith in
    collect-take m 0 (suc l) vis (omega arith) ∙ ap (λ k. take k vis) whole
collect-page l (pos o) [] = ap (take (suc l)) (sym (drop_all o [] (omega arith)))
collect-page l (pos zero) (vi ∷ vis) = elim (Bool-cases (0 + 1 == suc l)) [
  | inl e ↦ let one : l ≡ 0 = ground (arith, e) in rw (e, one) refl
  | inr e ↦ rw e (
      let less : suc l - 1 ≡ l = omega arith in
      ap (λ r. vi ∷ r)
        (collect-take 0 1 (suc l) vis (ground (arith, e)) ∙ ap (λ k. take k vis) less))
]
collect-page l (pos (suc o)) (vi ∷ vis) = rw (pred_pos o, not_below o) (collect-page l (pos o) vis)

-- With the length of the list for a limit.
collect-whole :
    (l : ℕ) (o : ℤ) (vis : Infos) → length vis ≡ l → collect (pos l) o 0 vis ≡ drop (pos_part o) vis
collect-whole zero o vis h = collect-all o vis
collect-whole (suc l) o vis h =
    collect-page l o vis
    ∙ take_all (suc l) (drop (pos_part o) vis) (omega (arith, length-drop (pos_part o) vis))

length-Permuted : {xs ys : Infos} → Permuted xs ys → length xs ≡ length ys
length-Permuted same = refl
length-Permuted (skip p) = ap suc (length-Permuted p)
length-Permuted swap = refl
length-Permuted (trans p q) = length-Permuted p ∙ length-Permuted q

-- The end of the last run, or the time of the commit if there was no run; none is before all.
abbrev pub last_change : VersionInfo → Option ℤ
last_change vi = elim vi.run_start [
  | some start ↦ some (start +ℤ vi.run_duration)
  | none ↦ vi.commit_time
]

abbrev pub IsUntil : Option ℤ → Option ℤ → Type 0
IsUntil none t = Unit
IsUntil (some s) none = ⊥
IsUntil (some s) (some t) = s ≤ℤ t

-- A relation holds between every entry and the next.
abbrev pub Neighbours : (VersionInfo → VersionInfo → Type 0) → Infos → Type 0
Neighbours R [] = Unit
Neighbours R (a ∷ []) = Unit
Neighbours R (a ∷ b ∷ vis) = R a b × Neighbours R (b ∷ vis)

-- The first key of an order.
abbrev pub ByUpdated : List Order → Type 0
ByUpdated [] = ⊥
ByUpdated (o ∷ os) = o.key ≡ codes "updated"

Neighbours-map :
    (R S : VersionInfo → VersionInfo → Type 0)
    → ((a b : VersionInfo) → R a b → S a b)
    → (vis : Infos) → Neighbours R vis
    → Neighbours S vis
Neighbours-map R S f [] h = tt
Neighbours-map R S f (a ∷ []) h = tt
Neighbours-map R S f (a ∷ b ∷ vis) h = (f a b h.0, Neighbours-map R S f (b ∷ vis) h.1)

by_updated-IsUntil :
    (a b : VersionInfo) → by_updated b a ≡ false → IsUntil (last_change b) (last_change a)
unfolding by_updated
by_updated-IsUntil a b h = until (last_change b) (last_change a) h
  where
    until : (s t : Option ℤ) → is_after s t ≡ false → IsUntil s t
    until none t h = tt
    until (some s) none h = cc
    until (some s) (some t) h = ground arith

module _ (host : Host) where
  ordered-updated :
      ((vis : Infos) → Neighbours (λ a b. by_updated b a ≡ false) (host.sort by_updated vis))
      → (os : List Order) (col : Infos) → ByUpdated os
      → Neighbours (λ a b. IsUntil (last_change b) (last_change a)) (ordered host os col)
  unfolding ordered
  ordered-updated sorted [] col h = absurd h
  ordered-updated sorted (o ∷ os) col h = rw ((text_eq_iff o.key (codes "updated")).1 h) (
      Neighbours-map (λ a b. by_updated b a ≡ false)
        (λ a b. IsUntil (last_change b) (last_change a)) by_updated-IsUntil
        (host.sort by_updated col) (sorted col))

  ordered-other : (os : List Order) (col : Infos) → (ByUpdated os → ⊥) → ordered host os col ≡ col
  unfolding ordered
  ordered-other [] col h = refl
  ordered-other (o ∷ os) col h = elim (Bool-cases (text_eq o.key (codes "updated"))) [
    | inl e ↦ absurd (h ((text_eq_iff o.key (codes "updated")).0 e))
    | inr e ↦ rw e refl
  ]

  ordered-Permuted :
      (sorting : IsSorting host) (os : List Order) (col : Infos)
      → Permuted (ordered host os col) col
  unfolding ordered
  ordered-Permuted sorting [] col = same
  ordered-Permuted sorting (o ∷ os) col = elim (Bool-cases (text_eq o.key (codes "updated"))) [
    | inl e ↦ rw e (sorting by_updated col)
    | inr e ↦ rw e same
  ]

module _ (host : Host) (pid : Text) (s : LocalSet)
    (valid : validate_id host.peers pid ≡ ok tt) where
  -- Where the profile has a collection, and `sort.Sort` permutes and leaves no entry in front of one
  -- that is less, `List` returns what is behind the offset, and no more than the limit if that is
  -- positive; a limit of 0 is no limit. The versions are those of the collection. If the first key to
  -- order by is "updated", the one that was last committed or run comes first; without a key, and for
  -- every other key, they stand as in the collection. No direction and no further key matters.
  pub list_set-page :
      (sorting : IsSorting host) (lp : ListParams) (col : Infos)
      → ((vis : Infos) → Neighbours (λ a b. by_updated b a ≡ false) (host.sort by_updated vis))
      → lookup pid s.collections ≡ some col
      → (vis : Infos) × (list_set host pid lp s
          ≡ ok (limited lp.limit (drop (pos_part lp.offset) vis)))
        × Permuted vis col
        × (ByUpdated lp.order_by → Neighbours (λ a b. IsUntil (last_change b) (last_change a)) vis)
        × ((ByUpdated lp.order_by → ⊥) → vis ≡ col)
  unfolding list_set
  list_set-page sorting lp col sorted e = (
    ordered host lp.order_by col,
    ap (λ o. checked o >>= λ _. list_from host pid lp s) valid
        ∙ rw (e, list_from) (ap ok (by_limit lp.limit)),
    ordered-Permuted host sorting lp.order_by col,
    ordered-updated host sorted lp.order_by col,
    ordered-other host lp.order_by col,
  )
    where
      by_limit :
          (limit : ℤ)
          → collect
              (if ltb_ℤ limit (pos 0) then pos (length col) else limit)
              lp.offset
              0
              (ordered host lp.order_by col)
            ≡ limited limit (drop (pos_part lp.offset) (ordered host lp.order_by col))
      by_limit (pos zero) = collect-all lp.offset (ordered host lp.order_by col)
      by_limit (pos (suc n)) =
          rw (not_below (suc n)) (collect-page n lp.offset (ordered host lp.order_by col))
      by_limit (negsuc n) = rw (below n) (
          collect-whole (length col) lp.offset (ordered host lp.order_by col)
            (length-Permuted (ordered-Permuted host sorting lp.order_by col)))

  -- `Get` returns a version where the view of the set has it.
  pub get-look :
      (init_id : Text) (vi : VersionInfo)
      → look pid init_id s.collections ≡ some vi
      → get host pid init_id s ≡ ok vi
  unfolding get
  get-look init_id vi h =
      ap (λ o. checked o >>= λ _. get_from host pid init_id s) valid
      ∙ elim (Option-cases (lookup pid s.collections)) [
        | inl e ↦ absurd (none_not_some (rw (e, look) at h))
        | inr (col, e) ↦ rw (e, get_from) (let f = rw (e, look) at h in rw f refl)
      ]
