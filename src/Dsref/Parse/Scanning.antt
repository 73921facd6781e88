-- ===== src/Dsref/Parse/Scanning.antt =====
-- What the scanners of dsref/parse.go return for texts of known classes.
use repo_4636_qri.Prelude.{
  ℕ, ◌≤◌, ◌≡◌, refl, ◌⊎◌, inl, inr, Bool, true, false, ◌||◌, none, some, [], ◌∷◌, ◌++◌, Text,
  is_empty, after_prefix, length, take, drop, take_all, arith,
}
use repo_4636_qri.Dsref.Parse.{names, dataset_name, after_username, parse_human_friendly_portion}
use repo_4636_qri.Dsref.Scan.{
  in_range, is_letter, is_word, is_alnum, is_b32, is_b58, all_in, take_while, valid_name,
  is_alpha_numeric, is_after, rsa, ed, is_strict_b58, segment, path_id,
}

-- The text is empty or starts with a byte out of the class.
abbrev pub StopsAt : (ℕ → Bool) → Text → Type 0
StopsAt p [] = Unit
StopsAt p (c ∷ s) = p c ≡ false

pub take_while-append :
    (p : ℕ → Bool) (w t : Text) → all_in p w ≡ true → StopsAt p t → take_while p (w ++ t) ≡ w
unfolding take_while all_in
take_while-append p [] [] h e = refl
take_while-append p [] (c ∷ s) h e = rw e refl
take_while-append p (c ∷ w) t h e = ground (arith, take_while-append p w t)

pub drop-append : (w t : Text) → drop (length w) (w ++ t) ≡ t
drop-append [] t = refl
drop-append (c ∷ w) t = drop-append w t

pub valid_name-append :
    (w t : Text) → is_alpha_numeric w ≡ true → StopsAt is_word t → valid_name (w ++ t) ≡ w
unfolding valid_name is_alpha_numeric
valid_name-append [] t h e = cc
valid_name-append (c ∷ w) t h e = ground (arith, take_while-append is_word w t)

pub segment-append :
    (p : ℕ → Bool) (w s : Text)
    → all_in p w ≡ true
    → p b'/' ≡ false
    → segment (w ++ (b'/' ∷ s)) ≡ some (w, s)
unfolding segment all_in
segment-append p [] s h e = refl
segment-append p (c ∷ w) s h e = ground (arith, segment-append p w s)

pub alpha_numeric-nonempty : (w : Text) → is_alpha_numeric w ≡ true → is_empty w ≡ false
unfolding is_alpha_numeric is_empty
alpha_numeric-nonempty [] h = cc
alpha_numeric-nonempty (c ∷ w) h = refl

pub alpha_numeric-all_word : (w : Text) → is_alpha_numeric w ≡ true → all_in is_word w ≡ true
unfolding is_alpha_numeric is_letter is_word all_in
alpha_numeric-all_word [] h = refl
alpha_numeric-all_word (c ∷ w) h = ground arith

pub parse_human_friendly_portion-names :
    (u n t : Text)
    → is_alpha_numeric u ≡ true
    → is_alpha_numeric n ≡ true
    → StopsAt is_word t
    → parse_human_friendly_portion (u ++ (b'/' ∷ (n ++ t))) ≡ names u n t
parse_human_friendly_portion-names u n t hu hn e =
    unfold parse_human_friendly_portion in
    rw
      (
        valid_name-append u (b'/' ∷ (n ++ t)) hu slash,
        alpha_numeric-nonempty u hu,
        drop-append u (b'/' ∷ (n ++ t)),
      )
      (unfold after_username dataset_name in
        rw (valid_name-append n t hn e, alpha_numeric-nonempty n hn, drop-append n t) refl)
  where
    slash : is_word b'/' ≡ false
    slash = unfold is_word in refl

-- An id in base 58 of one of the two kinds, as long as the expression takes it.
pub data IsContentId : Text → Type 0 where
  rsa_id : (t : Text) → length t ≤ 44 → all_in is_b58 t ≡ true → IsContentId (rsa ++ t)
  ed_id : (t : Text) → length t ≤ 50 → all_in is_b58 t ≡ true → IsContentId (ed ++ t)

pub or-elim : {P : Type 0} {a b : Bool} → (a ≡ true → P) → (b ≡ true → P) → (a || b) ≡ true → P
or-elim {a = true} f g h = f h
or-elim {a = false} f g h = g h

-- A byte of a part of `[0-9a-zA-Z]`.
pub widen :
    (lo hi c : ℕ)
    → ((b'0' ≤ lo) × (hi ≤ b'9')) ⊎ ((b'a' ≤ lo) × (hi ≤ b'z')) ⊎ ((b'A' ≤ lo) × (hi ≤ b'Z'))
    → in_range lo hi c ≡ true
    → is_alnum c ≡ true
unfolding is_alnum
widen lo hi c (inl h) r = ground arith
widen lo hi c (inr (inl h)) r = ground arith
widen lo hi c (inr (inr h)) r = ground arith

pub b58-alnum : (c : ℕ) → is_b58 c ≡ true → is_alnum c ≡ true
unfolding is_b58
b58-alnum c =
    or-elim (or-elim (or-elim (or-elim (or-elim digit upper_1) upper_2) upper_3) lower_1) lower_2
  where
    digit : in_range b'1' b'9' c ≡ true → is_alnum c ≡ true
    digit = widen b'1' b'9' c (inl (omega arith, omega arith))

    upper_1 : in_range b'A' b'H' c ≡ true → is_alnum c ≡ true
    upper_1 = widen b'A' b'H' c (inr (inr (omega arith, omega arith)))

    upper_2 : in_range b'J' b'N' c ≡ true → is_alnum c ≡ true
    upper_2 = widen b'J' b'N' c (inr (inr (omega arith, omega arith)))

    upper_3 : in_range b'P' b'Z' c ≡ true → is_alnum c ≡ true
    upper_3 = widen b'P' b'Z' c (inr (inr (omega arith, omega arith)))

    lower_1 : in_range b'a' b'k' c ≡ true → is_alnum c ≡ true
    lower_1 = widen b'a' b'k' c (inr (inl (omega arith, omega arith)))

    lower_2 : in_range b'm' b'z' c ≡ true → is_alnum c ≡ true
    lower_2 = widen b'm' b'z' c (inr (inl (omega arith, omega arith)))

pub all_b58-alnum : (t : Text) → all_in is_b58 t ≡ true → all_in is_alnum t ≡ true
unfolding all_in
all_b58-alnum [] h = refl
all_b58-alnum (c ∷ t) h = ground (arith, b58-alnum c, all_b58-alnum t)

pub take_while_all : (p : ℕ → Bool) (w : Text) → all_in p w ≡ true → take_while p w ≡ w
unfolding take_while all_in
take_while_all p [] h = refl
take_while_all p (c ∷ w) h = ground (arith, take_while_all p w)

pub take_alnum :
    (n : ℕ) (t : Text) → length t ≤ n → all_in is_b58 t ≡ true → take n (take_while is_alnum t) ≡ t
take_alnum n t l h = rw (take_while_all is_alnum t (all_b58-alnum t h)) (take_all n t l)

pub path_id-content : (id : Text) → IsContentId id → path_id id ≡ some id
path_id-content id (rsa_id t l h) = unfold path_id after_prefix in rw (take_alnum 44 t l h) refl
path_id-content id (ed_id t l h) = unfold path_id after_prefix in rw (take_alnum 50 t l h) refl

pub strict_b58-content : (id : Text) → IsContentId id → is_strict_b58 id ≡ true
unfolding is_strict_b58 is_after after_prefix
strict_b58-content id (rsa_id t l h) = ground arith
strict_b58-content id (ed_id t l h) = ground arith

pub nonempty_content : (id : Text) → IsContentId id → is_empty id ≡ false
unfolding is_empty
nonempty_content id (rsa_id t l h) = refl
nonempty_content id (ed_id t l h) = refl

pub b32-not_strict : (w : Text) → all_in is_b32 w ≡ true → is_strict_b58 w ≡ false
unfolding all_in is_b32 is_strict_b58 is_after after_prefix
b32-not_strict [] h = refl
b32-not_strict (c ∷ w) h = ground arith

pub segment-none : (p : ℕ → Bool) (w : Text) → all_in p w ≡ true → p b'/' ≡ false → segment w ≡ none
unfolding segment all_in
segment-none p [] h e = refl
segment-none p (c ∷ w) h e = ground (arith, segment-none p w)
