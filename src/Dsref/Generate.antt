-- ===== src/Dsref/Generate.antt =====
-- The state machine that makes a dataset name of a text (dsref/generate.go). A text is its runes;
-- those above 127 are ignored.
pub mod Bounds
pub mod Names
use repo_4636_qri.Prelude.{
  ℕ, ◌+◌, Bool, true, false, ◌&&◌, ◌||◌, Option, none, some, List, [], ◌∷◌, ◌++◌, map, Text,
  is_empty, if◌then◌else◌, ◌==◌, ltb, leb, length, take,
}
use mathlib.Core.List.{reverse}

abbrev pub name_max_length : ℕ
name_max_length = 44

pub data State : Type 0 where
  outside lower_word first_upper caps_word number in_punc exited : State

-- What a rune is, in the order in which every state asks.
pub data Class : Type 0 where
  space lower upper digit punc dash other : Class

unfoldable pub is_lower : ℕ → Bool
is_lower r = leb 97 r && leb r 122

is_upper : ℕ → Bool
is_upper r = leb 65 r && leb r 90

is_digit : ℕ → Bool
is_digit r = leb 48 r && leb r 57

punc_characters : Text
punc_characters =
    96 ∷ 126 ∷ 33 ∷ 64 ∷ 35 ∷ 36 ∷ 37 ∷ 94 ∷ 38 ∷ 42 ∷ 40 ∷ 41 ∷ 61 ∷ 43 ∷ 91 ∷ 123 ∷ 93 ∷ 125 ∷ 92
    ∷ 124 ∷ 59 ∷ 58 ∷ 39 ∷ 34 ∷ 44 ∷ 60 ∷ 46 ∷ 62 ∷ 47 ∷ 63 ∷ []

contains : ℕ → Text → Bool
contains r [] = false
contains r (c ∷ s) = let rest = contains r s in if r == c then true else rest

unfoldable pub is_punc : ℕ → Bool
unfolding contains punc_characters
is_punc r = contains r punc_characters

unfoldable pub is_alphanum : ℕ → Bool
unfolding is_lower is_upper is_digit
is_alphanum r = is_lower r || (is_upper r || is_digit r)

unfoldable pub class_of : ℕ → Class
unfolding is_lower is_upper is_digit is_punc
class_of r =
    if r == b' '
    then space
    else if is_lower r
    then lower
    else if is_upper r
    then upper
    else if is_digit r
    then digit
    else if is_punc r
    then punc
    else if (r == b'_') || (r == b'-')
    then dash
    else other

pub record Machine : Type 0 where
  pub state : State
  pub result : Text
  pub next : Text

unfoldable pub to_lower : ℕ → ℕ
unfolding is_upper
to_lower r = if is_upper r then r + 32 else r

unfoldable pub last_rune : Text → Option ℕ
last_rune [] = none
last_rune (c ∷ []) = some c
last_rune (c ∷ d ∷ s) = last_rune (d ∷ s)

unfoldable pub starts_alphanum : Text → Bool
unfolding is_alphanum
starts_alphanum [] = false
starts_alphanum (c ∷ s) = is_alphanum c

-- An underscore goes between words.
unfoldable pub separated : Text → Text → Text
unfolding last_rune starts_alphanum
separated result word = elim (last_rune result) [
  | none ↦ word
  | some p ↦ if is_alphanum p && starts_alphanum word then b'_' ∷ word else word
]

-- `flushWord` from its check of the length on, for the word to write.
unfoldable pub write_word : Text → State → ℕ → Machine → Machine
write_word word next_state next_rune m =
    if ltb name_max_length (length m.result + length word)
    then record m {
      state = exited;
      result = if length m.result == 0 then take name_max_length word else m.result;
    }
    else record { state = next_state; result = m.result ++ word; next = next_rune ∷ [] }

unfoldable pub flush_word : State → ℕ → Machine → Machine
unfolding is_empty separated write_word to_lower
flush_word next_state next_rune m =
    if is_empty m.next
    then m
    else write_word (separated m.result (map to_lower m.next)) next_state next_rune m

-- A lower-case letter behind upper-case letters: the last of these begins the next word. `none`: the
-- index of the last letter is out of range.
unfoldable pub front : Text → Text
front [] = []
front (c ∷ []) = []
front (c ∷ d ∷ s) = c ∷ front (d ∷ s)

abbrev pub append_rune : ℕ → Machine → Machine
append_rune r m = record m { next = m.next ++ r ∷ [] }

unfoldable pub split_caps : ℕ → Machine → Option Machine
split_caps r m = elim (last_rune m.next) [
  | none ↦ none
  | some last_letter ↦
      some (append_rune r (flush_word lower_word last_letter (record m { next = front m.next })))
]

-- The cases of the `switch`, by state and kind of rune.
unfoldable pub on_class : State → Class → ℕ → Machine → Option Machine
unfolding flush_word split_caps
on_class exited k r m = some m
on_class outside space r m = some (record m { next = m.next ++ b'_' ∷ [] })
on_class outside lower r m = some (record m { state = lower_word; next = m.next ++ r ∷ [] })
on_class outside upper r m = some (record m { state = first_upper; next = m.next ++ r ∷ [] })
on_class outside digit r m = some (record m { state = number; next = m.next ++ r ∷ [] })
on_class outside punc r m = some (record m { state = in_punc; next = m.next ++ r ∷ [] })
on_class outside dash r m = some (record m { next = m.next ++ b'-' ∷ [] })
on_class outside other r m = some m
on_class lower_word space r m = some (flush_word outside b'_' m)
on_class lower_word lower r m = some (record m { next = m.next ++ r ∷ [] })
on_class lower_word upper r m = some (flush_word first_upper r m)
on_class lower_word digit r m = some (flush_word number r m)
on_class lower_word punc r m = some (flush_word in_punc b'-' m)
on_class lower_word dash r m = some (flush_word outside r m)
on_class lower_word other r m = some m
on_class first_upper space r m = some (flush_word outside b'_' m)
on_class first_upper lower r m = some (record m { state = lower_word; next = m.next ++ r ∷ [] })
on_class first_upper upper r m = some (record m { state = caps_word; next = m.next ++ r ∷ [] })
on_class first_upper digit r m = some (flush_word number r m)
on_class first_upper punc r m = some (flush_word in_punc b'-' m)
on_class first_upper dash r m = some (flush_word outside r m)
on_class first_upper other r m = some m
on_class caps_word space r m = some (flush_word outside b'_' m)
on_class caps_word lower r m = split_caps r m
on_class caps_word upper r m = some (record m { next = m.next ++ r ∷ [] })
on_class caps_word digit r m = some (flush_word number r m)
on_class caps_word punc r m = some (flush_word in_punc b'-' m)
on_class caps_word dash r m = some (flush_word outside r m)
on_class caps_word other r m = some m
on_class number space r m = some (flush_word outside b'_' m)
on_class number lower r m = some (flush_word lower_word r m)
on_class number upper r m = some (flush_word first_upper r m)
on_class number digit r m = some (record m { next = m.next ++ r ∷ [] })
on_class number punc r m = some (flush_word in_punc b'-' m)
on_class number dash r m = some (flush_word outside r m)
on_class number other r m = some m
on_class in_punc space r m = some m
on_class in_punc lower r m = some (flush_word lower_word r m)
on_class in_punc upper r m = some (flush_word first_upper r m)
on_class in_punc digit r m = some (flush_word number r m)
on_class in_punc punc r m = some (record m { next = m.next ++ b'-' ∷ [] })
on_class in_punc dash r m = some (flush_word outside r m)
on_class in_punc other r m = some m

unfoldable pub run_machine : Text → Machine → Option Machine
unfolding on_class class_of
run_machine [] m = some m
run_machine (r ∷ rs) m =
    let ignored = run_machine rs m in
    let taken : Option Machine = elim (on_class m.state (class_of r) r m) [
      | none ↦ none
      | some m' ↦ run_machine rs m'
    ] in
    if ltb 127 r then ignored else taken

-- `convertWordsStateMachine`
unfoldable pub convert_words : Text → Option Text
unfolding run_machine flush_word
convert_words input =
    elim (run_machine input (record { state = outside; result = []; next = [] })) [
      | none ↦ none
      | some m ↦ some (flush_word outside 0 m).result
    ]

-- `strings.TrimSpace`
is_space : ℕ → Bool
is_space r =
    (leb 9 r && leb r 13)
    || ((r == 32)
        || ((r == 133)
            || ((r == 160)
                || ((r == 5760)
                    || ((leb 8192 r && leb r 8202)
                        || ((r == 8232)
                            || ((r == 8233) || ((r == 8239) || ((r == 8287) || (r == 12288))))))))))

trim_left : Text → Text
unfolding is_space
trim_left [] = []
trim_left (r ∷ s) = let rest = trim_left s in if is_space r then rest else r ∷ s

unfoldable pub trim_space : Text → Text
unfolding trim_left
trim_space s = reverse (trim_left (reverse (trim_left s)))

-- The first rune decides on the prefix. `none`: there is no first rune.
abbrev pub with_prefix : Text → Text → Option Text
with_prefix prefix [] = none
with_prefix prefix (c ∷ s) = some (if is_lower c then c ∷ s else prefix ++ (c ∷ s))

-- `GenerateName`; `normalize` stands for the transformation that removes diacritics.
unfoldable pub generate_name : (Text → Text) → Text → Text → Option Text
generate_name normalize input prefix = elim (convert_words (trim_space (normalize input))) [
  | none ↦ none
  | some name ↦ with_prefix prefix name
]
