-- ===== src/Dsref/Scan.antt =====
-- The regular expressions of dsref/parse.go as scans over bytes: every class in them is ASCII, and a
-- group that a slash must follow is the text up to the next slash.
use repo_4636_qri.Prelude.{
  ℕ, Bool, true, false, ◌&&◌, ◌||◌, Option, none, some, [], ◌∷◌, ◌++◌, Text, codes, after_prefix,
  if◌then◌else◌, ◌==◌, leb, length, take,
}

abbrev pub in_range : ℕ → ℕ → ℕ → Bool
in_range lo hi c = leb lo c && leb c hi

unfoldable pub is_upper : ℕ → Bool
is_upper c = in_range b'A' b'Z' c

unfoldable pub is_letter : ℕ → Bool
is_letter c = in_range b'a' b'z' c || in_range b'A' b'Z' c

unfoldable pub is_alnum : ℕ → Bool
is_alnum c = in_range b'0' b'9' c || in_range b'a' b'z' c || in_range b'A' b'Z' c

-- `[\w-]`
unfoldable pub is_word : ℕ → Bool
is_word c =
    in_range b'0' b'9' c
    || in_range b'a' b'z' c
    || in_range b'A' b'Z' c
    || (c == b'_')
    || (c == b'-')

-- `[a-z2-7]`
unfoldable pub is_b32 : ℕ → Bool
is_b32 c = in_range b'a' b'z' c || in_range b'2' b'7' c

-- `[1-9A-HJ-NP-Za-km-z]`
unfoldable pub is_b58 : ℕ → Bool
is_b58 c =
    in_range b'1' b'9' c
    || in_range b'A' b'H' c
    || in_range b'J' b'N' c
    || in_range b'P' b'Z' c
    || in_range b'a' b'k' c
    || in_range b'm' b'z' c

unfoldable pub all_in : (ℕ → Bool) → Text → Bool
all_in p [] = true
all_in p (c ∷ s) = p c && all_in p s

unfoldable pub take_while : (ℕ → Bool) → Text → Text
take_while p [] = []
take_while p (c ∷ s) = let rest = take_while p s in if p c then c ∷ rest else []

-- `^[a-zA-Z][\w-]*`: the match, empty if there is none.
unfoldable pub valid_name : Text → Text
unfolding take_while is_letter is_word
valid_name [] = []
valid_name (c ∷ s) = if is_letter c then c ∷ take_while is_word s else []

-- `^[a-zA-Z][\w-]*$`
unfoldable pub is_alpha_numeric : Text → Bool
unfolding all_in is_letter is_word
is_alpha_numeric [] = false
is_alpha_numeric (c ∷ s) = is_letter c && all_in is_word s

-- `dsNameCheck`: at most 143 bytes after the letter.
unfoldable pub is_valid_name : Text → Bool
unfolding is_alpha_numeric
is_valid_name text = is_alpha_numeric text && leb (length text) 144

-- A prefix and at most `n` bytes of the class after it.
unfoldable pub is_after : Text → ℕ → (ℕ → Bool) → Text → Bool
unfolding after_prefix all_in
is_after prefix n p s = elim (after_prefix prefix s) [
  | none ↦ false
  | some t ↦ leb (length t) n && all_in p t
]

abbrev pub rsa : Text
rsa = codes "Qm"

abbrev pub ed : Text
ed = codes "12D"

-- The first group of `concreteRef`.
unfoldable pub is_id : Text → Bool
unfolding all_in is_after is_b32 is_alnum
is_id s =
    (leb (length s) 52 && all_in is_b32 s)
    || is_after rsa 44 is_alnum s
    || is_after ed 50 is_alnum s

-- `b58StrictCheckRSA` or `b58StrictCheckED` matches.
unfoldable pub is_strict_b58 : Text → Bool
unfolding is_after is_b58
is_strict_b58 s = is_after rsa (length s) is_b58 s || is_after ed (length s) is_b58 s

-- The text up to the first slash, and the text after it.
unfoldable pub segment : Text → Option (Text × Text)
segment [] = none
segment (c ∷ s) =
    let rest = segment s in
    if c == b'/' then some ([], s) else elim rest [ none ↦ none | some (a, t) ↦ some (c ∷ a, t) ]

-- The third group of `concreteRef`, which ends as late as it can; the match, if there is one.
unfoldable pub path_id : Text → Option Text
unfolding after_prefix take_while is_alnum
path_id s = elim (after_prefix rsa s) [
  | some t ↦ some (rsa ++ take 44 (take_while is_alnum t))
  | none ↦ elim (after_prefix ed s) [
    | some t ↦ some (ed ++ take 50 (take_while is_alnum t))
    | none ↦ none
  ]
]
