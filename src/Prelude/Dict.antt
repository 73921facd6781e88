-- ===== src/Prelude/Dict.antt =====
-- Maps with text keys, as association lists in which a key stands once.
use mathlib.Core.Path.{◌≡◌, refl, ap, ◌∙◌}
use mathlib.Core.Logic.{inl, inr}
use mathlib.Core.Bool.{false}
use mathlib.Core.List.{List, [], ◌∷◌}
use mathlib.Core.Option.{Option, none, some}
use repo_4636_qri.Prelude.Tests.{if◌then◌else◌, Bool-cases}
use repo_4636_qri.Prelude.Bytes.{Text, text_eq, text_eq_refl, text_eq_iff}

pub record Pair {ℓ} (A : Type ℓ) : Type ℓ where
  pub key : Text
  pub value : A

module _ {ℓ} {A : Type ℓ} where
  unfoldable pub lookup : Text → List (Pair A) → Option A
  lookup k [] = none
  lookup k (p ∷ ps) = let rest = lookup k ps in if text_eq p.key k then some p.value else rest

  -- The value at a key is replaced, or the key is added.
  unfoldable pub insert : Text → A → List (Pair A) → List (Pair A)
  insert k v [] = record { key = k; value = v } ∷ []
  insert k v (p ∷ ps) =
      let rest = insert k v ps in
      if text_eq p.key k then record { key = k; value = v } ∷ ps else p ∷ rest

  pub lookup-insert_same : (k : Text) (v : A) (d : List (Pair A)) → lookup k (insert k v d) ≡ some v
  unfolding lookup insert
  lookup-insert_same k v [] = rw (text_eq_refl k) refl
  lookup-insert_same k v (p ∷ ps) = elim (Bool-cases (text_eq p.key k)) [
    | inl e ↦ rw (e, text_eq_refl k) refl
    | inr e ↦ rw (e, e) (lookup-insert_same k v ps)
  ]

  pub lookup-insert_other :
      (k i : Text) (v : A) (d : List (Pair A))
      → text_eq k i ≡ false
      → lookup i (insert k v d) ≡ lookup i d
  unfolding lookup insert
  lookup-insert_other k i v [] h = rw h refl
  lookup-insert_other k i v (p ∷ ps) h = elim (Bool-cases (text_eq p.key k)) [
    | inl e ↦
        let q : text_eq p.key i ≡ false = ap (λ t. text_eq t i) ((text_eq_iff p.key k).0 e) ∙ h in
        rw (e, h, q) refl
    | inr e ↦ rw (e, lookup-insert_other k i v ps h) refl
  ]
