-- ===== src/Access/Parse.antt =====
-- Parsing a resource or an action (`ParseResource`, `ParseAction`), and printing it again.
use repo_4636_qri.Prelude.{
  ℕ, ◌≡◌, ◌≢◌, ◌↔◌, refl, sym, false, List, [], ◌∷◌, Text, text_eq_iff, arith,
}
use repo_4636_qri.Prelude.Split.{split, join, join-split, split-join, AllWithout}
use repo_4636_qri.Access.{
  match_all, Result, ok, err, parsed, star_loop, parse_resource, parse_action,
}

-- A "*" is the last name.
abbrev pub IsStarLast : List Text → Type 0
IsStarLast [] = Unit
IsStarLast (name ∷ []) = Unit
IsStarLast (name ∷ next ∷ names) = (name ≢ match_all) × IsStarLast (next ∷ names)

star_loop_iff : (names : List Text) → (star_loop false names ≡ ok tt) ↔ IsStarLast names
unfolding star_loop
star_loop_iff [] = (λ e. tt, λ h. refl)
star_loop_iff (name ∷ []) = (λ e. tt, λ h. ground arith)
star_loop_iff (name ∷ next ∷ names) =
    let (f, g) = star_loop_iff (next ∷ names) in
    (
      λ e. ground (arith, text_eq_iff name match_all, f),
      λ h. ground (arith, text_eq_iff name match_all, g h.1),
    )

parsed-eq-ok :
    (names r : List Text) (w : Result (Unit {0}))
    → parsed names w ≡ ok r
    → (r ≡ names) × (w ≡ ok tt)
parsed-eq-ok names r (ok u) h = (ground arith, refl)
parsed-eq-ok names r (err e) h = cc

accepted_iff :
    (names r : List Text)
    → (parsed names (star_loop false names) ≡ ok r) ↔ ((r ≡ names) × IsStarLast r)
accepted_iff names r = (
  λ h.
      let (same, fine) = parsed-eq-ok names r (star_loop false names) h in
      (same, rw same ((star_loop_iff names).0 fine)),
  λ (same, last). rw (same, (star_loop_iff names).1 (rw same at last)) refl,
)

parse-cons :
    (c : ℕ) (s : Text)
    → parse_resource (c ∷ s) ≡ parsed (split b':' (c ∷ s)) (star_loop false (split b':' (c ∷ s)))
unfolding parse_resource
parse-cons c s = refl

-- `ParseResource` accepts a text exactly when it is not empty and has a "*" only as its last name;
-- it then returns the names between the colons, which join to the text again.
parse_resource_iff :
    (str : Text) (r : List Text)
    → (parse_resource str ≡ ok r)
      ↔ ((str ≢ []) × (r ≡ split b':' str) × IsStarLast r × (join b':' r ≡ str))
parse_resource_iff [] r = (λ e. unfold parse_resource in cc, λ h. absurd (h.0 refl))
parse_resource_iff (c ∷ s) r = rw parse-cons (
  λ h.
      let (same, last) = (accepted_iff _ r).0 h in
      ((λ e. cc), same, last, rw same (join-split b':' (c ∷ s))),
  λ (_, same, last, _). (accepted_iff _ r).1 (same, last),
)

-- Printing names and parsing them again: names without a colon, with a "*" only at the end and not
-- the one empty name, are what `ParseResource` and `ParseAction` return for their join.
pub parse-join :
    (name : Text) (names : List Text)
    → AllWithout b':' (name ∷ names)
    → IsStarLast (name ∷ names)
    → join b':' (name ∷ names) ≢ []
    → (parse_resource (join b':' (name ∷ names)) ≡ ok (name ∷ names))
      × (parse_action (join b':' (name ∷ names)) ≡ ok (name ∷ names))
parse-join name names h last some = (back, rw (same_parser _) back)
  where
    same_parser : (s : Text) → parse_action s ≡ parse_resource s
    same_parser s = unfold parse_action parse_resource in refl

    back : parse_resource (join b':' (name ∷ names)) ≡ ok (name ∷ names)
    back = (parse_resource_iff _ _).1 (some, sym (split-join b':' name names h), last, refl)
