-- ===== src/Dsref/Generate/Names.antt =====
-- What `GenerateName` of dsref/generate.go returns.
use repo_4636_qri.Prelude.{
  ◌+◌, ◌≤◌, ◌≡◌, sym, ap, ◌∙◌, Bool, Bool-cases, inl, inr, true, false, Option, none, some, [], ◌∷◌,
  ◌++◌, Text, length, length-append, arith,
}
use repo_4636_qri.Dsref.Generate.{
  name_max_length, is_lower, convert_words, trim_space, with_prefix, generate_name,
}
use repo_4636_qri.Dsref.Generate.Bounds.{convert_words-fits}

abbrev pub starts_lower : Text → Bool
starts_lower [] = false
starts_lower (c ∷ s) = is_lower c

starts-append : (p s : Text) → starts_lower p ≡ true → starts_lower (p ++ s) ≡ true
starts-append [] s h = absurd (ground (arith, h))
starts-append (c ∷ p) s h = h

with_prefix-name :
    (prefix name r : Text)
    → starts_lower prefix ≡ true
    → length name ≤ name_max_length
    → with_prefix prefix name ≡ some r
    → (starts_lower r ≡ true) × (length r ≤ length prefix + name_max_length)
with_prefix-name prefix [] r p n h = absurd (ground (arith, h))
with_prefix-name prefix (c ∷ s) r p n h = elim (Bool-cases (is_lower c)) [
  | inl e ↦
      let same : c ∷ s ≡ r = ground (arith, h, e) in
      (ap starts_lower (sym same) ∙ e, omega (arith, n, ap length same))
  | inr e ↦
      let same : prefix ++ (c ∷ s) ≡ r = ground (arith, h, e) in
      (
        ap starts_lower (sym same) ∙ starts-append prefix (c ∷ s) p,
        omega (arith, n, ap length same, length-append prefix (c ∷ s)),
      )
]

generate_name-with_prefix :
    (normalize : Text → Text) (input prefix name : Text)
    → convert_words (trim_space (normalize input)) ≡ some name
    → generate_name normalize input prefix ≡ with_prefix prefix name
unfolding generate_name
generate_name-with_prefix normalize input prefix name q =
    ap (λ o. elim o as (λ x. Option Text) [ none ↦ none | some n ↦ with_prefix prefix n ]) q

-- With a prefix that starts with a lower-case letter, a name that `GenerateName` returns starts with
-- a lower-case letter, and has at most `NameMaxLength` bytes more than the prefix.
pub generate_name-fits :
    (normalize : Text → Text) (input prefix r : Text)
    → starts_lower prefix ≡ true
    → generate_name normalize input prefix ≡ some r
    → (starts_lower r ≡ true) × (length r ≤ length prefix + name_max_length)
generate_name-fits normalize input prefix r p h =
    let (name, q, n) = convert_words-fits (trim_space (normalize input)) in
    with_prefix-name prefix name r p n
      (sym (generate_name-with_prefix normalize input prefix name q) ∙ h)
