-- ===== src/Logbook/History/Slices.antt =====
-- The slices that `branchToVersionInfos` cuts and writes, read from their end as stacks.
use repo_4636_qri.Prelude.{
  ℕ, zero, suc, ◌+◌, ◌-◌, ◌≡◌, refl, sym, ap, ◌∙◌, Bool, true, false, some, [], ◌∷◌, ◌++◌, ltb, leb,
  length, length-append, take, take_all, set, get_elem?, Outcome, ok, err, panic, ◌>>=◌, arith, ◌≤◌,
  lt→ltb, Bool-cases, inl, inr,
}
use mathlib.Core.List.{reverse, reverse-cons, append_assoc}
use repo_4636_qri.Oplog.Log.{LogError}
use repo_4636_qri.Dsref.VersionInfo.{VersionInfo}
use repo_4636_qri.Logbook.History.{last_of, set_last, cut_last, publish, publish_at, publish_loop}
use repo_4636_qri.Logbook.History.Stack.{Versions, pop, mark}

length-reverse : (xs : Versions) → length (reverse xs) ≡ length xs
length-reverse [] = refl
length-reverse (x ∷ xs) = rw (reverse-cons, length-append) (omega (arith, length-reverse xs))

get_elem?-middle :
    (a : Versions) (x : VersionInfo) (b : Versions) → get_elem? (a ++ x ∷ b) (length a) ≡ some x
get_elem?-middle [] x b = refl
get_elem?-middle (y ∷ a) x b = get_elem?-middle a x b

set-middle :
    (a : Versions) (x v : VersionInfo) (b : Versions) → set (a ++ x ∷ b) (length a) v ≡ a ++ v ∷ b
set-middle [] x v b = refl
set-middle (y ∷ a) x v b = ap (λ r. y ∷ r) (set-middle a x v b)

take-append : (k : ℕ) (a b : Versions) → k ≤ length a → take k (a ++ b) ≡ take k a
take-append zero a b h = refl
take-append (suc k) [] b h = absurd (omega arith)
take-append (suc k) (x ∷ a) b h = ap (λ r. x ∷ r) (take-append k a b (omega arith))

length-snoc : (a : Versions) (v : VersionInfo) → length (a ++ v ∷ []) ≡ suc (length a)
length-snoc [] v = refl
length-snoc (x ∷ a) v = ap suc (length-snoc a v)

last_index : (a : Versions) (v : VersionInfo) → length (a ++ v ∷ []) - 1 ≡ length a
last_index a v = omega (arith, length-snoc a v)

some_length : (a : Versions) (v : VersionInfo) → ltb 0 (length (a ++ v ∷ [])) ≡ true
some_length a v = lt→ltb _ _ (omega (arith, length-snoc a v))

pub last_of-snoc : (a : Versions) (v : VersionInfo) → last_of (a ++ v ∷ []) ≡ some v
unfolding last_of
last_of-snoc a v = rw (some_length a v, last_index a v) (get_elem?-middle a v [])

pub set_last-snoc : (a : Versions) (v w : VersionInfo) → set_last (a ++ v ∷ []) w ≡ ok (a ++ w ∷ [])
unfolding set_last
set_last-snoc a v w = rw (some_length a v, last_index a v) (ap ok (set-middle a v w []))

cut_last-snoc :
    (n : ℕ) (a : Versions) (v : VersionInfo) → cut_last (suc n) (a ++ v ∷ []) ≡ cut_last n a
unfolding cut_last
cut_last-snoc n a v = elim (Bool-cases (leb n (length a))) [
  | inl fits ↦
      let k : length (a ++ v ∷ []) - suc n ≡ length a - n = omega (arith, length-snoc a v) in
      let b : leb (suc n) (length (a ++ v ∷ [])) ≡ true = ground (arith, length-snoc a v) in
      rw (fits, b, k) (ap ok (take-append (length a - n) a (v ∷ []) (omega arith)))
  | inr short ↦
      let b : leb (suc n) (length (a ++ v ∷ [])) ≡ false = ground (arith, length-snoc a v) in
      rw (short, b) refl
]

cut_last-zero : (a : Versions) → cut_last 0 a ≡ ok a
unfolding cut_last
cut_last-zero a =
    let k : length a - 0 ≡ length a = omega arith in
    let b : leb 0 (length a) ≡ true = ground arith in
    rw (b, k) (ap ok (take_all (length a) a (omega arith)))

cut_last-nil : (n : ℕ) → cut_last (suc n) [] ≡ panic
unfolding cut_last
cut_last-nil n = ground arith

pub cut_last-reverse :
    (n : ℕ) (vs : Versions) → cut_last n (reverse vs) ≡ (pop n vs >>= λ r. ok (reverse r))
cut_last-reverse zero vs = rw cut_last-zero (unfold pop in refl)
cut_last-reverse (suc n) [] = cut_last-nil n ∙ (unfold pop in refl)
cut_last-reverse (suc n) (v ∷ vs) =
    rw (reverse-cons, cut_last-snoc) (cut_last-reverse n vs ∙ pop-suc n v vs)
  where
    pop-suc :
        (n : ℕ) (v : VersionInfo) (vs : Versions)
        → (pop n vs >>= λ r. ok (reverse r)) ≡ (pop (suc n) (v ∷ vs) >>= λ r. ok (reverse r))
    pop-suc n v vs = unfold pop in refl

publish_at-middle :
    (b : Bool) (a : Versions) (v : VersionInfo) (d : Versions)
    → publish_at b (a ++ v ∷ d) (length a) ≡ a ++ publish b v ∷ d
publish_at-middle b a v d = rw (get_elem?-middle a v d, publish_at) (set-middle a v (publish b v) d)

publish_loop-step :
    (b : Bool) (n : ℕ) (a : Versions) (v : VersionInfo) (d : Versions)
    → publish_loop b (suc n) (length d + 1) (a ++ v ∷ d)
      ≡ publish_loop b n (length (publish b v ∷ d) + 1) (a ++ publish b v ∷ d)
unfolding publish_loop
publish_loop-step b n a v d =
    let size : length (a ++ v ∷ d) ≡ length a + suc (length d) = length-append a (v ∷ d) in
    let index : length (a ++ v ∷ d) - (length d + 1) ≡ length a = omega (arith, size) in
    let inside : leb (length d + 1) (length (a ++ v ∷ d)) ≡ true = ground (arith, size) in
    let next : length d + 1 + 1 ≡ suc (length d) + 1 = omega arith in
    rw (inside, index, publish_at-middle b a v d, next) refl

publish_loop-short :
    (b : Bool) (n : ℕ) (d : Versions) → publish_loop b (suc n) (length d + 1) d ≡ panic
unfolding publish_loop
publish_loop-short b n d =
    let outside : leb (length d + 1) (length d) ≡ false = ground arith in rw outside refl

-- The loop of a push with `d` already marked: it marks the versions that are next.
pub publish_loop-mark :
    (b : Bool) (n : ℕ) (vs d : Versions)
    → publish_loop b n (length d + 1) (reverse vs ++ d) ≡ (mark b n vs >>= λ r. ok (reverse r ++ d))
publish_loop-mark b zero vs d = unfold publish_loop mark in refl
publish_loop-mark b (suc n) [] d = publish_loop-short b n d ∙ (unfold mark in refl)
publish_loop-mark b (suc n) (v ∷ vs) d =
    rw (reverse-cons, append_assoc)
      (publish_loop-step b n (reverse vs) v d
        ∙ publish_loop-mark b n vs (publish b v ∷ d)
        ∙ mark_next b n v vs d)
  where
    push_mark :
        (b : Bool) (v : VersionInfo) (d : Versions) (m : Outcome LogError Versions)
        → (m >>= λ r. ok (reverse r ++ publish b v ∷ d))
          ≡ ((m >>= λ r. ok (publish b v ∷ r)) >>= λ r. ok (reverse r ++ d))
    push_mark b v d (ok r) = ap ok (sym (rw (reverse-cons, append_assoc) refl))
    push_mark b v d (err e) = refl
    push_mark b v d panic = refl

    mark_next :
        (b : Bool) (n : ℕ) (v : VersionInfo) (vs d : Versions)
        → (mark b n vs >>= λ r. ok (reverse r ++ publish b v ∷ d))
          ≡ (mark b (suc n) (v ∷ vs) >>= λ r. ok (reverse r ++ d))
    mark_next b n v vs d = unfold mark in push_mark b v d (mark b n vs)
