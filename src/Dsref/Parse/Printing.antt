-- ===== src/Dsref/Parse/Printing.antt =====
-- Parsing what `Ref.String` prints (dsref/ref.go and dsref/parse.go).
use repo_4636_qri.Prelude.{
  ℕ, ◌≤◌, ◌≡◌, refl, sym, subst, ap, ◌+◌, ◌-◌, length-append, Bool, true, false, [], ◌∷◌, ◌++◌,
  Text, codes, text_eq, is_empty, length, drop_all, arith,
}
use mathlib.Core.List.{append_assoc, append-nil}
use repo_4636_qri.Dsref.Ref.{Ref, string, alias, human}
use repo_4636_qri.Dsref.Parse.{
  parsed, concrete, concrete_path, no_concrete, failed, unexpected_character, check_concrete,
  match_path, match_network, parse_concrete_ref, any_upper, finish, parse_rest, human_ref,
  parse_with, parse,
}
use repo_4636_qri.Dsref.Scan.{is_letter, is_word, is_b32, all_in, is_alpha_numeric, is_id}
use repo_4636_qri.Dsref.Parse.Scanning.{
  StopsAt, segment-append, alpha_numeric-nonempty, alpha_numeric-all_word,
  parse_human_friendly_portion-names, IsContentId, path_id-content, strict_b58-content,
  nonempty_content, b32-not_strict, segment-none,
}

-- A reference that `String` prints in full: valid names without an upper-case letter in the name of
-- the dataset, and either no location or an id and a path on a known network.
pub data IsNetwork : Text → Type 0 where
  mem : IsNetwork (codes "mem")
  ipfs : IsNetwork (codes "ipfs")

pub data IsLocated : Text → Text → Type 0 where
  nowhere : IsLocated [] []
  at :
      (init_id network id : Text)
      → length init_id ≤ 52
      → all_in is_b32 init_id ≡ true
      → IsNetwork network
      → IsContentId id
      → IsLocated init_id (concrete_path network id)

pub record IsPrintable (r : Ref) : Type 0 where
  pub username : is_alpha_numeric r.username ≡ true
  pub name : is_alpha_numeric r.name ≡ true
  pub lower : any_upper r.name ≡ false
  pub no_profile : r.profile_id ≡ []
  pub located : IsLocated r.init_id r.path

no_slash_b32 : is_b32 b'/' ≡ false
unfolding is_b32
no_slash_b32 = refl

b32-is_id : (i : Text) → length i ≤ 52 → all_in is_b32 i ≡ true → is_id i ≡ true
unfolding is_id
b32-is_id i l h = rw h (ground arith)

check_concrete-id :
    (i network id : Text)
    → all_in is_b32 i ≡ true
    → IsNetwork network
    → IsContentId id
    → check_concrete i network id [] ≡ concrete [] i (concrete_path network id) []
check_concrete-id [] network id h mem c =
    unfold check_concrete text_eq is_empty in
    rw (strict_b58-content id c, nonempty_content id c) refl
check_concrete-id [] network id h ipfs c =
    unfold check_concrete text_eq is_empty in
    rw (strict_b58-content id c, nonempty_content id c) refl
check_concrete-id (x ∷ i) network id h mem c =
    unfold check_concrete text_eq is_empty in
    rw (b32-not_strict (x ∷ i) h, h, strict_b58-content id c, nonempty_content id c) refl
check_concrete-id (x ∷ i) network id h ipfs c =
    unfold check_concrete text_eq is_empty in
    rw (b32-not_strict (x ∷ i) h, h, strict_b58-content id c, nonempty_content id c) refl

network_name : (network : Text) → IsNetwork network → is_alpha_numeric network ≡ true
unfolding is_alpha_numeric all_in is_letter is_word
network_name network mem = refl
network_name network ipfs = refl

slash_not_word : is_word b'/' ≡ false
unfolding is_word
slash_not_word = refl

match_path-id :
    (i network id : Text)
    → all_in is_b32 i ≡ true
    → IsNetwork network
    → IsContentId id
    → match_path i network id ≡ concrete [] i (concrete_path network id) []
unfolding match_path
match_path-id i network id h n c =
    rw (path_id-content id c, drop_all (length id) id (omega arith))
      (check_concrete-id i network id h n c)

match_network-id :
    (i network id : Text)
    → all_in is_b32 i ≡ true
    → IsNetwork network
    → IsContentId id
    → match_network i (network ++ (b'/' ∷ id)) ≡ concrete [] i (concrete_path network id) []
unfolding match_network
match_network-id i network id h n c =
    rw
      (
        segment-append is_word network id (alpha_numeric-all_word network (network_name network n))
            slash_not_word,
        match_network,
        network_name network n,
      )
      (match_path-id i network id h n c)

parse_concrete_ref-located :
    (i network id : Text)
    → length i ≤ 52
    → all_in is_b32 i ≡ true
    → IsNetwork network
    → IsContentId id
    → parse_concrete_ref (b'@' ∷ (i ++ concrete_path network id))
      ≡ concrete [] i (concrete_path network id) []
unfolding parse_concrete_ref
parse_concrete_ref-located i network id l h n c =
    rw (segment-append is_b32 i (network ++ (b'/' ∷ id)) h no_slash_b32, b32-is_id i l h)
      (match_network-id i network id h n c)

parse_with-names :
    (u n t : Text)
    → is_alpha_numeric u ≡ true
    → is_alpha_numeric n ≡ true
    → StopsAt is_word t
    → (b : Bool)
    → parse_with b (u ++ (b'/' ∷ (n ++ t)))
      ≡ parse_rest (length (u ++ (b'/' ∷ (n ++ t)))) t (human_ref u n)
unfolding parse_with parse_rest
parse_with-names [] n t hu hn e b = absurd (false_of_empty hu)
  where
    false_of_empty : is_alpha_numeric [] ≡ true → ⊥
    false_of_empty h = unfold is_alpha_numeric in cc
parse_with-names (c ∷ u) n t hu hn e b =
    rw (parse_human_friendly_portion-names (c ∷ u) n t hu hn e, parse_with) refl

string-located :
    (u n i p : Text) (x : ℕ)
    → is_empty n ≡ false
    → string (record { init_id = i; username = u; profile_id = []; name = n; path = x ∷ p })
      ≡ u ++ (b'/' ∷ (n ++ (b'@' ∷ (i ++ (x ∷ p)))))
unfolding string alias human
string-located u [] i p x h = absurd (unfold is_empty in cc)
string-located u (c ∷ n) [] p x h = unfold is_empty in rw (append_assoc, append_assoc) refl
string-located u (c ∷ n) (y ∷ i) p x h =
    unfold is_empty in rw (append_assoc, append_assoc, append_assoc) refl

string_nowhere :
    (u n : Text) → is_empty n ≡ false → string (human_ref u n) ≡ u ++ (b'/' ∷ (n ++ []))
unfolding string alias human
string_nowhere u [] h = absurd (unfold is_empty in cc)
string_nowhere u (c ∷ n) h = unfold is_empty in rw (append-nil) refl

no_word_at : is_word b'@' ≡ false
unfolding is_word
no_word_at = refl

parse-string_of :
    (u n i p : Text)
    → is_alpha_numeric u ≡ true
    → is_alpha_numeric n ≡ true
    → any_upper n ≡ false
    → IsLocated i p
    → parse (string (record { init_id = i; username = u; profile_id = []; name = n; path = p }))
      ≡ parsed (record { init_id = i; username = u; profile_id = []; name = n; path = p })
unfolding parse parse_rest
parse-string_of u n i p hu hn low nowhere =
    rw (string_nowhere u n (alpha_numeric-nonempty n hn), parse_with-names u n [] hu hn tt false)
      (unfold parse_rest parse_concrete_ref finish in rw low refl)
parse-string_of u n _ _ hu hn low (at i network id l h w c) =
    rw
      (
        string-located u n i (network ++ (b'/' ∷ id)) b'/' (alpha_numeric-nonempty n hn),
        parse_with-names u n (b'@' ∷ (i ++ concrete_path network id)) hu hn no_word_at false,
      )
      (rw (parse_concrete_ref-located i network id l h w c, parse_rest)
        (unfold finish in rw low refl))

-- A reference with valid names and, if it has a location, an id in base 32 and a path with a content
-- id on a known network is what `Parse` reads from what `String` prints.
pub parse-string : (r : Ref) → IsPrintable r → parse (string r) ≡ parsed r
parse-string r h =
    subst (λ t. parse (string (record r { profile_id = t })) ≡ parsed (record r { profile_id = t }))
      (sym h.no_profile)
      (parse-string_of r.username r.name r.init_id r.path h.username h.name h.lower h.located)

parse_concrete_ref_none :
    (i : Text) → all_in is_b32 i ≡ true → parse_concrete_ref (b'@' ∷ i) ≡ no_concrete
unfolding parse_concrete_ref
parse_concrete_ref_none i h = rw (segment-none is_b32 i h no_slash_b32) refl

string_unlocated :
    (u n i : Text) (x : ℕ)
    → is_empty n ≡ false
    → string (record { init_id = x ∷ i; username = u; profile_id = []; name = n; path = [] })
      ≡ u ++ (b'/' ∷ (n ++ (b'@' ∷ (x ∷ i))))
unfolding string alias human
string_unlocated u [] i x h = absurd (unfold is_empty in cc)
string_unlocated u (c ∷ n) i x h = unfold is_empty in rw (append_assoc, append_assoc) refl

-- A reference that has valid names and an id of a dataset but no path prints as a text that `Parse`
-- refuses at the "@", returning the names only.
pub parse-string_no_path :
    (u n i : Text) (x : ℕ)
    → is_alpha_numeric u ≡ true
    → is_alpha_numeric n ≡ true
    → all_in is_b32 (x ∷ i) ≡ true
    → parse
        (string (record { init_id = x ∷ i; username = u; profile_id = []; name = n; path = [] }))
      ≡ failed (human_ref u n) (unexpected_character (length u + 1 + length n) b'@')
unfolding parse parse_rest
parse-string_no_path u n i x hu hn h =
    rw
      (
        string_unlocated u n i x (alpha_numeric-nonempty n hn),
        parse_with-names u n (b'@' ∷ (x ∷ i)) hu hn no_word_at false,
      )
      (rw (parse_concrete_ref_none (x ∷ i) h, parse_rest)
        (unfold finish in ap (λ k. failed (human_ref u n) (unexpected_character k b'@')) at_sign))
  where
    at_sign :
        length (u ++ (b'/' ∷ (n ++ (b'@' ∷ (x ∷ i))))) - length (b'@' ∷ (x ∷ i))
        ≡ length u + 1 + length n
    at_sign =
        omega (
          arith,
          length-append u (b'/' ∷ (n ++ (b'@' ∷ (x ∷ i)))),
          length-append n (b'@' ∷ (x ∷ i)),
        )
