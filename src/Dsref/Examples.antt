-- ===== src/Dsref/Examples.antt =====
-- Concrete inputs for dsref/generate.go.
use repo_4636_qri.Prelude.{
  [], false, ◌++◌, arith, ◌+◌, ◌≡◌, ◌≤◌, refl, true, none, some, Text, codes, length,
}
use repo_4636_qri.Dsref.Ref.{Ref, string, alias, human}
use repo_4636_qri.Prelude.{is_empty}
use repo_4636_qri.Dsref.Parse.{
  any_upper, concrete_path, parsed, failed, human_ref, bad_case_name, parse, parse_with, parse_rest,
  parse_human_friendly_portion, parse_concrete_ref, finish,
}
use repo_4636_qri.Dsref.Scan.{
  is_letter, is_word, is_b32, is_b58, is_upper, all_in, is_alpha_numeric, rsa,
}
use repo_4636_qri.Dsref.Parse.Scanning.{rsa_id}
use repo_4636_qri.Dsref.Parse.Printing.{IsPrintable, at, ipfs, parse-string}
use repo_4636_qri.Dsref.Generate.{
  name_max_length, convert_words, is_lower, generate_name, trim_space, front,
}
use repo_4636_qri.Dsref.Generate.Names.{starts_lower, generate_name-fits}
use repo_4636_qri.Dsref.Generate.Bounds.{convert_words-fits}

convert_words-fits_example :
    (name : Text) × (convert_words (codes "AnnualTPSReport") ≡ some name)
    × (length name ≤ name_max_length)
convert_words-fits_example = convert_words-fits (codes "AnnualTPSReport")

-- The example in the comments of the source.
words_are_split : convert_words (codes "AnnualTPSReport") ≡ some (codes "annual_tps_report")
unfolding convert_words front
words_are_split = refl

-- Punctuation at the start stays as it is.
punctuation_stays : convert_words (codes "!abc") ≡ some (codes "!abc")
unfolding convert_words
punctuation_stays = refl

same_text : Text → Text
same_text s = s

report_generated :
    generate_name same_text (codes " AnnualTPSReport") (codes "dataset_")
    ≡ some (codes "annual_tps_report")
unfolding generate_name convert_words front trim_space is_lower same_text
report_generated = refl

generate_name-fits_example :
    (starts_lower (codes "annual_tps_report") ≡ true)
    × (length (codes "annual_tps_report") ≤ length (codes "dataset_") + name_max_length)
unfolding is_lower
generate_name-fits_example =
    generate_name-fits same_text (codes " AnnualTPSReport") (codes "dataset_")
      (codes "annual_tps_report") refl report_generated

-- A text of spaces leaves no name, and the first rune is out of range.
nothing_to_name : generate_name same_text (codes "  ") (codes "dataset_") ≡ none
unfolding generate_name convert_words trim_space same_text
nothing_to_name = refl

-- `bob/worms@abc/ipfs/Qm12`
abbrev worms : Ref
worms = record {
  init_id = codes "abc";
  username = codes "bob";
  profile_id = [];
  name = codes "worms";
  path = concrete_path (codes "ipfs") (rsa ++ codes "12");
}

name_bob : is_alpha_numeric (codes "bob") ≡ true
unfolding is_alpha_numeric all_in is_letter is_word
name_bob = refl

name_worms : is_alpha_numeric (codes "worms") ≡ true
unfolding is_alpha_numeric all_in is_letter is_word
name_worms = refl

b32_abc : all_in is_b32 (codes "abc") ≡ true
unfolding all_in is_b32
b32_abc = refl

b58_12 : all_in is_b58 (codes "12") ≡ true
unfolding all_in is_b58
b58_12 = refl

lower_worms : any_upper (codes "worms") ≡ false
unfolding any_upper is_upper
lower_worms = refl

worms-IsPrintable : IsPrintable worms
worms-IsPrintable = record {
  username = name_bob;
  name = name_worms;
  lower = lower_worms;
  no_profile = refl;
  located =
      at (codes "abc") (codes "ipfs") (rsa ++ codes "12") (omega arith) b32_abc ipfs
        (rsa_id (codes "12") (omega arith) b58_12);
}

parse-string_example : parse (string worms) ≡ parsed worms
parse-string_example = parse-string worms worms-IsPrintable

worms_text : string worms ≡ codes "bob/worms@abc/ipfs/Qm12"
unfolding string alias human is_empty
worms_text = refl

upper_case_is_told :
    parse (codes "bob/Worms") ≡ failed (human_ref (codes "bob") (codes "Worms")) bad_case_name
unfolding parse parse_with parse_rest parse_human_friendly_portion parse_concrete_ref finish
    any_upper
upper_case_is_told = refl
