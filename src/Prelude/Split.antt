-- ===== src/Prelude/Split.antt =====
-- `strings.Split` and `strings.Join` with a separator of one byte.
use Prim.Native.Nat.{ℕ}
use mathlib.Core.Path.{◌≡◌, refl, ap}
use mathlib.Core.Logic.{◌≢◌, inl, inr}
use mathlib.Core.List.{List, [], ◌∷◌, ◌++◌}
use native.Mathlib.Omega.{arith}
use repo_4636_qri.Prelude.Tests.{if◌then◌else◌, ◌==◌, Bool-cases}
use repo_4636_qri.Prelude.Bytes.{Text}

module _ (sep : ℕ) where
  push_head : ℕ → List Text → List Text
  push_head c [] = (c ∷ []) ∷ []
  push_head c (name ∷ names) = (c ∷ name) ∷ names

  -- `strings.Split(str, sep)` for a separator of one byte
  unfoldable pub split : Text → List Text
  unfolding push_head
  split [] = [] ∷ []
  split (c ∷ s) = let rest = split s in if c == sep then [] ∷ rest else push_head c rest

  -- `strings.Join(names, sep)`
  unfoldable pub join : List Text → Text
  join [] = []
  join (name ∷ []) = name
  join (name ∷ next ∷ names) = name ++ (sep ∷ join (next ∷ names))

  abbrev pub IsWithout : Text → Type 0
  IsWithout [] = Unit
  IsWithout (c ∷ s) = (c ≢ sep) × IsWithout s

  abbrev pub AllWithout : List Text → Type 0
  AllWithout [] = Unit
  AllWithout (name ∷ names) = IsWithout name × AllWithout names

  -- `Split` returns at least one name.
  split-cons : (s : Text) → (x : Text) × (xs : List Text) × (split s ≡ x ∷ xs)
  unfolding split
  split-cons [] = ([], [], refl)
  split-cons (c ∷ s) =
      let (x, xs, e) = split-cons s in
      elim (Bool-cases (c == sep)) [
        | inl found ↦ ([], split s, rw found refl)
        | inr plain ↦ (c ∷ x, xs, rw plain (rw (e, push_head)))
      ]

  join-push_head :
      (c : ℕ) (x : Text) (xs : List Text) → join (push_head c (x ∷ xs)) ≡ c ∷ join (x ∷ xs)
  unfolding join push_head
  join-push_head c x [] = refl
  join-push_head c x (y ∷ ys) = refl

  join-cons : (x y : Text) (ys : List Text) → join (x ∷ y ∷ ys) ≡ x ++ (sep ∷ join (y ∷ ys))
  unfolding join
  join-cons x y ys = refl

  join_single : (x : Text) → join (x ∷ []) ≡ x
  unfolding join
  join_single x = refl

  -- Joining what `Split` returned gives the text back.
  pub join-split : (s : Text) → join (split s) ≡ s
  join-split [] = unfold split join in refl
  join-split (c ∷ s) = join-split_step c s (join-split s)
    where
      join-split_step : (c : ℕ) (s : Text) → join (split s) ≡ s → join (split (c ∷ s)) ≡ c ∷ s
      join-split_step c s ih =
          let (x, xs, e) = split-cons s in
          let back = rw e at ih in
          elim (Bool-cases (c == sep)) [
            | inl found ↦ (unfold split in rw (found, e, join-cons) (ground (arith, back)))
            | inr plain ↦ (unfold split in rw (plain, e, join-push_head) (ap (λ r. c ∷ r) back))
          ]

  split-append : (s : Text) (rest : Text) → IsWithout s → split (s ++ (sep ∷ rest)) ≡ s ∷ split rest
  unfolding split
  split-append [] rest h = ground arith
  split-append (c ∷ s) rest h = ground (arith, split-append s rest h.1)

  split_single : (s : Text) → IsWithout s → split s ≡ s ∷ []
  unfolding split
  split_single [] h = refl
  split_single (c ∷ s) h = ground (arith, split_single s h.1)

  -- Names without the separator are what `Split` returns for their join.
  pub split-join :
      (name : Text) (names : List Text)
      → AllWithout (name ∷ names)
      → split (join (name ∷ names)) ≡ name ∷ names
  split-join name [] h = rw join_single (split_single name h.0)
  split-join name (next ∷ names) h =
      rw (join-cons, split-append name (join (next ∷ names)) h.0)
        (ap (λ r. name ∷ r) (split-join next names h.1))
