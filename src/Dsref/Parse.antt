-- ===== src/Dsref/Parse.antt =====
-- Parsing references (dsref/parse.go), over the scans of Dsref/Scan.
pub mod Scanning
pub mod Printing
use repo_4636_qri.Prelude.{
  ℕ, Bool, true, false, not, ◌&&◌, ◌||◌, Option, none, some, [], ◌∷◌, ◌++◌, Text, codes, text_eq,
  is_empty, after_prefix, if◌then◌else◌, ◌==◌, leb, length, take, drop, ◌-◌,
}
use repo_4636_qri.Dsref.Ref.{Ref, empty_ref}
use repo_4636_qri.Dsref.Scan.{
  in_range, is_upper, is_letter, is_alnum, is_word, is_b32, is_b58, all_in, take_while, valid_name,
  is_alpha_numeric, is_valid_name, is_after, rsa, ed, is_id, is_strict_b58, segment, path_id,
}

pub data ParseError : Type 0 where
  empty_reference need_username_separated no_dataset_name not_human_friendly : ParseError
  -- a position and the byte there
  unexpected_character : ℕ → ℕ → ParseError
  unexpected_char invalid_network invalid_base32 invalid_base58 : ParseError
  bad_case_name bad_case_username describe_valid_name describe_valid_username : ParseError

-- The two results of a parser.
pub record Parsed : Type 0 where
  pub ref : Ref
  pub error : Option ParseError

abbrev pub parsed : Ref → Parsed
parsed r = record { ref = r; error = none }

abbrev pub failed : Ref → ParseError → Parsed
failed r e = record { ref = r; error = some e }

-- The returns of `parseHumanFriendlyPortion`, with the text that remains where a caller reads it.
pub data HumanPortion : Type 0 where
  names : Text → Text → Text → HumanPortion
  no_names missing_name : HumanPortion
  only_username : Text → HumanPortion
  no_slash : ℕ → Text → HumanPortion

unfoldable pub dataset_name : Text → Text → HumanPortion
unfolding is_empty valid_name
dataset_name username text =
    let match = valid_name text in
    if is_empty match then missing_name else names username match (drop (length match) text)

unfoldable pub after_username : Text → Text → HumanPortion
unfolding dataset_name
after_username username [] = only_username username
after_username username (c ∷ s) =
    let named = dataset_name username s in if c == b'/' then named else no_slash c s

unfoldable pub parse_human_friendly_portion : Text → HumanPortion
unfolding after_username
parse_human_friendly_portion text =
    let match = valid_name text in
    if is_empty match then no_names else after_username match (drop (length match) text)

-- The returns of `parseConcreteRef`.
pub data ConcretePart : Type 0 where
  no_concrete : ConcretePart
  invalid : ParseError → ConcretePart
  concrete : Text → Text → Text → Text → ConcretePart

abbrev pub concrete_path : Text → Text → Text
concrete_path network id = (b'/' ∷ network) ++ (b'/' ∷ id)

-- The checks on the three groups of a match, and the text behind it.
unfoldable pub check_concrete : Text → Text → Text → Text → ConcretePart
unfolding text_eq is_empty is_strict_b58 all_in is_b32
check_concrete given network id remain =
    let path = concrete_path network id in
    let with_id =
      if is_empty given
      then concrete [] [] path remain
      else if is_strict_b58 given
      then concrete given [] path remain
      else concrete [] given path remain in
    if not (text_eq network (codes "mem")) && not (text_eq network (codes "ipfs"))
    then invalid invalid_network
    else if not (is_empty given) && not (is_strict_b58 given) && not (all_in is_b32 given)
    then invalid invalid_base32
    else if not (is_empty id) && not (is_strict_b58 id)
    then invalid invalid_base58
    else with_id

unfoldable pub match_path : Text → Text → Text → ConcretePart
unfolding path_id check_concrete
match_path given network s = elim (path_id s) [
  | none ↦ no_concrete
  | some id ↦ check_concrete given network id (drop (length id) s)
]

unfoldable pub match_network : Text → Text → ConcretePart
unfolding segment is_alpha_numeric match_path
match_network given s = elim (segment s) [
  | none ↦ no_concrete
  | some (network, t) ↦ if is_alpha_numeric network then match_path given network t else no_concrete
]

unfoldable pub parse_concrete_ref : Text → ConcretePart
unfolding segment is_id match_network
parse_concrete_ref [] = no_concrete
parse_concrete_ref (c ∷ s) =
    let matched : ConcretePart = elim (segment s) [
      | none ↦ no_concrete
      | some (given, t) ↦ if is_id given then match_network given t else no_concrete
    ] in
    if c == b'@' then matched else no_concrete

unfoldable pub any_upper : Text → Bool
unfolding is_upper
any_upper [] = false
any_upper (c ∷ s) = is_upper c || any_upper s

-- The ends of `parse`: text that remains, and upper-case letters.
unfoldable pub finish : ℕ → Text → Ref → Parsed
unfolding any_upper
finish orig_length [] r = if any_upper r.name then failed r bad_case_name else parsed r
finish orig_length (c ∷ s) r = failed r (unexpected_character (orig_length - length (c ∷ s)) c)

unfoldable pub parse_rest : ℕ → Text → Ref → Parsed
unfolding finish parse_concrete_ref
parse_rest orig_length text r = elim (parse_concrete_ref text) [
  | no_concrete ↦ finish orig_length text r
  | invalid e ↦ failed r e
  | concrete profile_id init_id path remain ↦
      finish orig_length remain
        (record r { profile_id = profile_id; init_id = init_id; path = path })
]

abbrev pub human_ref : Text → Text → Ref
human_ref username name = record empty_ref { username = username; name = name }

unfoldable pub parse_with : Bool → Text → Parsed
unfolding parse_rest parse_human_friendly_portion
parse_with peer_ref [] = failed empty_ref empty_reference
parse_with peer_ref (c ∷ s) =
    let orig_length = length (c ∷ s) in
    elim (parse_human_friendly_portion (c ∷ s)) [
      | names username name remain ↦ parse_rest orig_length remain (human_ref username name)
      | no_names ↦ parse_rest orig_length (c ∷ s) empty_ref
      | missing_name ↦ failed empty_ref no_dataset_name
      | only_username username ↦
          if peer_ref
          then parsed (record empty_ref { username = username })
          else failed empty_ref need_username_separated
      | no_slash b t ↦ failed empty_ref (unexpected_character (orig_length - length (b ∷ t)) b)
    ]

unfoldable pub parse : Text → Parsed
parse text = parse_with false text

unfoldable pub parse_peer_ref : Text → Parsed
parse_peer_ref text = parse_with true text

-- `ParseHumanFriendly`
unfoldable pub finish_human : ℕ → Text → Ref → Parsed
unfolding finish
finish_human orig_length [] r = finish orig_length [] r
finish_human orig_length (c ∷ s) r =
    let at_end = finish orig_length (c ∷ s) r in
    if c == b'@' then failed r not_human_friendly else at_end

unfoldable pub parse_human_friendly : Text → Parsed
unfolding finish_human parse_human_friendly_portion
parse_human_friendly [] = failed empty_ref empty_reference
parse_human_friendly (c ∷ s) =
    let orig_length = length (c ∷ s) in
    elim (parse_human_friendly_portion (c ∷ s)) [
      | names username name remain ↦ finish_human orig_length remain (human_ref username name)
      | no_names ↦ finish_human orig_length (c ∷ s) empty_ref
      | missing_name ↦ failed empty_ref no_dataset_name
      | only_username username ↦ failed empty_ref need_username_separated
      | no_slash b t ↦ failed empty_ref unexpected_char
    ]

unfoldable pub is_ref_string : Text → Bool
unfolding parse
is_ref_string text = elim ((parse text).error) [
  | none ↦ true
  | some bad_case_name ↦ true
  | some e ↦ false
]

unfoldable pub ensure_valid_name : Text → Option ParseError
unfolding is_valid_name any_upper
ensure_valid_name text =
    if not (is_valid_name text)
    then some describe_valid_name
    else if any_upper text
    then some bad_case_name
    else none

unfoldable pub ensure_valid_username : Text → Option ParseError
unfolding ensure_valid_name
ensure_valid_username text = elim (ensure_valid_name text) [
  | some describe_valid_name ↦ some describe_valid_username
  | some bad_case_name ↦ some bad_case_username
  | e ↦ e
]
