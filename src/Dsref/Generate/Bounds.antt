-- ===== src/Dsref/Generate/Bounds.antt =====
-- The state machine of dsref/generate.go returns, and its result fits into the maximal length.
use repo_4636_qri.Prelude.{
  ℕ, ◌+◌, ◌≤◌, ◌≡◌, refl, sym, ap, subst, Bool, Bool-cases, ◌⊎◌, inl, inr, true, false, Option,
  none, some, [], ◌∷◌, ◌++◌, map, Text, is_empty, ltb, length, length-append, length-take, arith,
}
use repo_4636_qri.Dsref.Generate.{
  State, Class, outside, lower_word, first_upper, caps_word, number, in_punc, exited, space, lower,
  upper, digit, punc, dash, other, Machine, name_max_length, write_word, separated, flush_word,
  to_lower, last_rune, front, append_rune, split_caps, on_class, class_of, run_machine,
  convert_words,
}

is_caps : State → Bool
is_caps caps_word = true
is_caps _ = false

-- What holds between two runes: a word of capitals has a letter, and the result fits.
record IsGood (m : Machine) : Type 0 where
  fits : length m.result ≤ name_max_length
  letters : is_caps m.state ≡ true → is_empty m.next ≡ false

append-not_empty : (s : Text) (r : ℕ) → is_empty (s ++ r ∷ []) ≡ false
unfolding is_empty
append-not_empty [] r = refl
append-not_empty (c ∷ s) r = refl

append-IsGood :
    (s : State) (r : ℕ) (m : Machine)
    → IsGood m
    → IsGood (record m { state = s; next = m.next ++ r ∷ [] })
append-IsGood s r m g = record { fits = g.fits; letters = λ e. append-not_empty m.next r }

write_word-fits :
    (word : Text) (s : State) (r : ℕ) (m : Machine)
    → length m.result ≤ name_max_length
    → length (write_word word s r m).result ≤ name_max_length
unfolding write_word
write_word-fits word s r m h =
    ground (arith, length-append m.result word, length-take name_max_length word)

write_word-letters :
    (word : Text) (s : State) (r : ℕ) (m : Machine)
    → is_caps (write_word word s r m).state ≡ true
    → is_empty (write_word word s r m).next ≡ false
unfolding write_word is_caps is_empty
write_word-letters word s r m h =
    elim (Bool-cases (ltb name_max_length (length m.result + length word))) [
      | inl e ↦ absurd (ground (arith, h, e))
      | inr e ↦ rw e refl
    ]

flush_word-fits :
    (s : State) (r : ℕ) (m : Machine)
    → length m.result ≤ name_max_length
    → length (flush_word s r m).result ≤ name_max_length
unfolding flush_word
flush_word-fits s r m h = elim (Bool-cases (is_empty m.next)) [
  | inl e ↦ rw e h
  | inr e ↦ rw e (write_word-fits (separated m.result (map to_lower m.next)) s r m h)
]

flush-IsGood : (s : State) (r : ℕ) (m : Machine) → IsGood m → IsGood (flush_word s r m)
flush-IsGood s r m g = record {
  fits = flush_word-fits s r m g.fits;
  letters = flush_letters (Bool-cases (is_empty m.next));
}
  where
    flush_letters :
        (is_empty m.next ≡ true) ⊎ (is_empty m.next ≡ false)
        → is_caps (flush_word s r m).state ≡ true
        → is_empty (flush_word s r m).next ≡ false
    flush_letters (inl e) = unfold flush_word in rw e g.letters
    flush_letters (inr e) =
        unfold flush_word in
        rw e (write_word-letters (separated m.result (map to_lower m.next)) s r m)

-- The machine went on, and well.
abbrev GoodAfter : Option Machine → Type 0
GoodAfter (some m) = IsGood m
GoodAfter none = true ≡ false

last_rune-some : (s : Text) → is_empty s ≡ false → (c : ℕ) × (last_rune s ≡ some c)
unfolding is_empty last_rune
last_rune-some [] h = absurd (ground (arith, h))
last_rune-some (c ∷ []) h = (c, refl)
last_rune-some (c ∷ d ∷ s) h = last_rune-some (d ∷ s) refl

split_caps-some :
    (r : ℕ) (m : Machine) (c : ℕ)
    → last_rune m.next ≡ some c
    → split_caps r m
      ≡ some (append_rune r (flush_word lower_word c (record m { next = front m.next })))
unfolding split_caps
split_caps-some r m c q =
    ap
      (λ o. elim o as (λ x. Option Machine) [
        | none ↦ none
        | some l ↦ some (append_rune r (flush_word lower_word l (record m { next = front m.next })))
      ])
      q

split_caps-IsGood :
    (r : ℕ) (m : Machine) → is_empty m.next ≡ false → IsGood m → GoodAfter (split_caps r m)
split_caps-IsGood r m n g =
    let (c, q) = last_rune-some m.next n in
    let word = flush_word lower_word c (record m { next = front m.next }) in
    let fits = flush_word-fits lower_word c (record m { next = front m.next }) g.fits in
    subst GoodAfter (sym (split_caps-some r m c q))
      (record { fits = fits; letters = λ e. append-not_empty word.next r })

on_class-IsGood :
    (s : State) (k : Class) (r : ℕ) (m : Machine)
    → m.state ≡ s
    → IsGood m
    → GoodAfter (on_class s k r m)
unfolding on_class is_caps
on_class-IsGood exited k r m h g = g
on_class-IsGood outside space r m h g = append-IsGood m.state b'_' m g
on_class-IsGood outside lower r m h g = append-IsGood lower_word r m g
on_class-IsGood outside upper r m h g = append-IsGood first_upper r m g
on_class-IsGood outside digit r m h g = append-IsGood number r m g
on_class-IsGood outside punc r m h g = append-IsGood in_punc r m g
on_class-IsGood outside dash r m h g = append-IsGood m.state b'-' m g
on_class-IsGood outside other r m h g = g
on_class-IsGood lower_word space r m h g = flush-IsGood outside b'_' m g
on_class-IsGood lower_word lower r m h g = append-IsGood m.state r m g
on_class-IsGood lower_word upper r m h g = flush-IsGood first_upper r m g
on_class-IsGood lower_word digit r m h g = flush-IsGood number r m g
on_class-IsGood lower_word punc r m h g = flush-IsGood in_punc b'-' m g
on_class-IsGood lower_word dash r m h g = flush-IsGood outside r m g
on_class-IsGood lower_word other r m h g = g
on_class-IsGood first_upper space r m h g = flush-IsGood outside b'_' m g
on_class-IsGood first_upper lower r m h g = append-IsGood lower_word r m g
on_class-IsGood first_upper upper r m h g = append-IsGood caps_word r m g
on_class-IsGood first_upper digit r m h g = flush-IsGood number r m g
on_class-IsGood first_upper punc r m h g = flush-IsGood in_punc b'-' m g
on_class-IsGood first_upper dash r m h g = flush-IsGood outside r m g
on_class-IsGood first_upper other r m h g = g
on_class-IsGood caps_word space r m h g = flush-IsGood outside b'_' m g
on_class-IsGood caps_word lower r m h g = split_caps-IsGood r m (g.letters (ap is_caps h)) g
on_class-IsGood caps_word upper r m h g = append-IsGood m.state r m g
on_class-IsGood caps_word digit r m h g = flush-IsGood number r m g
on_class-IsGood caps_word punc r m h g = flush-IsGood in_punc b'-' m g
on_class-IsGood caps_word dash r m h g = flush-IsGood outside r m g
on_class-IsGood caps_word other r m h g = g
on_class-IsGood number space r m h g = flush-IsGood outside b'_' m g
on_class-IsGood number lower r m h g = flush-IsGood lower_word r m g
on_class-IsGood number upper r m h g = flush-IsGood first_upper r m g
on_class-IsGood number digit r m h g = append-IsGood m.state r m g
on_class-IsGood number punc r m h g = flush-IsGood in_punc b'-' m g
on_class-IsGood number dash r m h g = flush-IsGood outside r m g
on_class-IsGood number other r m h g = g
on_class-IsGood in_punc space r m h g = g
on_class-IsGood in_punc lower r m h g = flush-IsGood lower_word r m g
on_class-IsGood in_punc upper r m h g = flush-IsGood first_upper r m g
on_class-IsGood in_punc digit r m h g = flush-IsGood number r m g
on_class-IsGood in_punc punc r m h g = append-IsGood m.state b'-' m g
on_class-IsGood in_punc dash r m h g = flush-IsGood outside r m g
on_class-IsGood in_punc other r m h g = g

run_machine-IsGood : (rs : Text) (m : Machine) → IsGood m → GoodAfter (run_machine rs m)
run_machine-IsGood [] m g = unfold run_machine in g
run_machine-IsGood (r ∷ rs) m g = run_machine-step r rs m g (λ m' g'. run_machine-IsGood rs m' g')
  where
    after_class :
        (rs : Text) (o : Option Machine)
        → GoodAfter o
        → ((m' : Machine) → IsGood m' → GoodAfter (run_machine rs m'))
        → GoodAfter (elim o [ none ↦ none | some m' ↦ run_machine rs m' ])
    after_class rs (some m') g next = next m' g
    after_class rs none g next = g

    run_machine-step :
        (r : ℕ) (rs : Text) (m : Machine)
        → IsGood m
        → ((m' : Machine) → IsGood m' → GoodAfter (run_machine rs m'))
        → GoodAfter (run_machine (r ∷ rs) m)
    run_machine-step r rs m g next =
        unfold run_machine in
        elim (Bool-cases (ltb 127 r)) [
          | inl e ↦ rw e (next m g)
          | inr e ↦ rw e (
              after_class rs (on_class m.state (class_of r) r m)
                (on_class-IsGood m.state (class_of r) r m refl g) next)
        ]

converted :
    (o : Option Machine)
    → GoodAfter o
    → (name : Text) × (elim o [ none ↦ none | some m ↦ some (flush_word outside 0 m).result ]
        ≡ some name)
      × (length name ≤ name_max_length)
converted (some m) g = ((flush_word outside 0 m).result, refl, flush_word-fits outside 0 m g.fits)
converted none g = absurd (ground (arith, g))

-- For every input, `convertWordsStateMachine` returns (no index is out of range) a name of at most
-- `NameMaxLength` bytes.
pub convert_words-fits :
    (input : Text)
    → (name : Text) × (convert_words input ≡ some name) × (length name ≤ name_max_length)
unfolding convert_words is_caps
convert_words-fits input =
    converted (run_machine input (record { state = outside; result = []; next = [] })) (
      run_machine-IsGood input (record { state = outside; result = []; next = [] })
        (record { fits = omega arith; letters = λ e. ground (arith, e) }))
