-- ===== src/Oplog/Samples.antt =====
-- A concrete hash without collisions, to instantiate `Op.Hash` in examples: the fields in one list,
-- the numbers and the lengths of the texts first.
use repo_4636_qri.Prelude.{ℕ, ◌≡◌, refl, List, [], ◌∷◌, ◌++◌, Text, length, arith, true}
use repo_4636_qri.Prelude.Int.{pos_part, neg_part, eq_of_parts}
use repo_4636_qri.Oplog.Op.{Op, equal, equal_iff}

abbrev numbers : Op → List ℕ
numbers o =
    o.type
    ∷ o.model
    ∷ length o.relations
    ∷ pos_part o.timestamp
    ∷ neg_part o.timestamp
    ∷ o.size
    ∷ length o.ref
    ∷ length o.prev
    ∷ length o.name
    ∷ length o.author_id
    ∷ []

abbrev after_name : Op → Text
after_name o = o.author_id ++ o.note

abbrev after_prev : Op → Text
after_prev o = o.name ++ after_name o

abbrev after_ref : Op → Text
after_ref o = o.prev ++ after_prev o

abbrev pub sample_hash : Op → Text
sample_hash o = numbers o ++ (o.ref ++ after_ref o)

append_inj : (a b c d : Text) → length a ≡ length b → a ++ c ≡ b ++ d → (a ≡ b) × (c ≡ d)
append_inj [] [] c d h e = (refl, e)
append_inj [] (y ∷ b) c d h e = absurd (omega arith)
append_inj (x ∷ a) [] c d h e = absurd (omega arith)
append_inj (x ∷ a) (y ∷ b) c d h e =
    let ih = append_inj a b c d (omega arith) (ground arith) in (ground (arith, ih.0), ih.1)

pub sample_hash-no_collision : (a b : Op) → sample_hash a ≡ sample_hash b → equal a b ≡ true
sample_hash-no_collision a b h =
    let (ref, h1) =
      append_inj a.ref b.ref (after_ref a) (after_ref b) (ground arith) (ground arith) in
    let (prev, h2) = append_inj a.prev b.prev (after_prev a) (after_prev b) (ground arith) h1 in
    let (name, h3) = append_inj a.name b.name (after_name a) (after_name b) (ground arith) h2 in
    let (author, note) = append_inj a.author_id b.author_id a.note b.note (ground arith) h3 in
    let time = eq_of_parts a.timestamp b.timestamp (ground arith) in
    (equal_iff a b).1 (ground (arith, ref, prev, name, author, note, time), ground arith)
