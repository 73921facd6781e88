-- ===== src/Oplog/Log/Names.antt =====
-- The cached name and author of a log: what `Name` and `Author` return after `Append`.
use repo_4636_qri.Prelude.{
  ℕ, ◌≡◌, refl, ◌⊎◌, not, ◌&&◌, List, [], ◌∷◌, ◌++◌, Text, is_empty, if◌then◌else◌, ◌==◌, ok, arith,
}
use repo_4636_qri.Oplog.Op.{Op}
use repo_4636_qri.Oplog.Log.{
  Entry, name, author, append, cached, model, first_op, last_name, last_author,
}

-- A filled cache holds what the loop over the operations would find.
pub record IsCached (e : Entry) : Type 0 where
  pub first : Op
  pub rest : List Op
  pub begins : e.ops ≡ first ∷ rest
  pub name_fits : (e.name ≡ []) ⊎ (e.name ≡ last_name first.model [] e.ops)
  pub author_fits : (e.author_id ≡ []) ⊎ (e.author_id ≡ last_author first.model [] e.ops)

last_name-snoc :
    (m : ℕ) (acc : Text) (ops : List Op) (op : Op)
    → last_name m acc (ops ++ op ∷ [])
      ≡ (if (op.model == m) && not (is_empty op.name) then op.name else last_name m acc ops)
unfolding last_name
last_name-snoc m acc [] op = refl
last_name-snoc m acc (o ∷ ops) op =
    last_name-snoc m (if (o.model == m) && not (is_empty o.name) then o.name else acc) ops op

last_author-snoc :
    (m : ℕ) (acc : Text) (ops : List Op) (op : Op)
    → last_author m acc (ops ++ op ∷ []) ≡ (
        if (op.model == m) && not (is_empty op.author_id)
        then op.author_id
        else last_author m acc ops)
unfolding last_author
last_author-snoc m acc [] op = refl
last_author-snoc m acc (o ∷ ops) op =
    last_author-snoc m (if (o.model == m) && not (is_empty o.author_id) then o.author_id else acc)
      ops op

model-begins : (e : Entry) (c : IsCached e) → model e ≡ ok c.first.model
unfolding model first_op
model-begins e c = rw c.begins refl

pub name-IsCached : (e : Entry) (c : IsCached e) → name e ≡ ok (last_name c.first.model [] e.ops)
unfolding name
name-IsCached e c = unfold is_empty in ground (arith, model-begins e c, c.name_fits)

pub author-IsCached :
    (e : Entry) (c : IsCached e) → author e ≡ ok (last_author c.first.model [] e.ops)
unfolding author
author-IsCached e c = unfold is_empty in ground (arith, model-begins e c, c.author_fits)

appended : Op → ℕ → Entry → Entry
appended op m e = record e {
  name = if op.model == m then cached op.name e.name else e.name;
  author_id = if op.model == m then cached op.author_id e.author_id else e.author_id;
  ops = e.ops ++ op ∷ [];
}

append-appended :
    (op : Op) (e : Entry) (c : IsCached e) → append op e ≡ ok (appended op c.first.model e)
unfolding append appended
append-appended op e c = rw (model-begins e c) refl

appended-IsCached : (op : Op) (e : Entry) (c : IsCached e) → IsCached (appended op c.first.model e)
unfolding appended
appended-IsCached op e c = record {
  first = c.first;
  rest = c.rest ++ op ∷ [];
  begins = rw c.begins refl;
  name_fits = rw last_name-snoc (ground (arith, c.name_fits));
  author_fits = rw last_author-snoc (ground (arith, c.author_fits));
}

name-appended :
    (op : Op) (e : Entry) (n : Text) (c : IsCached e)
    → name e ≡ ok n
    → name (appended op c.first.model e)
      ≡ ok (if (op.model == c.first.model) && not (is_empty op.name) then op.name else n)
unfolding appended
name-appended op e n c p =
    rw (name-IsCached _ (appended-IsCached op e c), last_name-snoc)
      (ground (arith, name-IsCached e c))

author-appended :
    (op : Op) (e : Entry) (a : Text) (c : IsCached e)
    → author e ≡ ok a
    → author (appended op c.first.model e)
      ≡ ok (if (op.model == c.first.model) && not (is_empty op.author_id) then op.author_id else a)
unfolding appended
author-appended op e a c p =
    rw (author-IsCached _ (appended-IsCached op e c), last_author-snoc)
      (ground (arith, author-IsCached e c))

-- `Append` to a log with operations and sound caches does not panic and keeps the caches sound.
-- `Name` and `Author` then return the operation's name and author where it has the log's model and
-- they are not empty, and what they returned before otherwise.
pub append-IsCached :
    (op : Op) (e : Entry) (n a : Text) (c : IsCached e)
    → name e ≡ ok n
    → author e ≡ ok a
    → (e' : Entry) × (append op e ≡ ok e')
      × IsCached e'
      × (e'.ops ≡ e.ops ++ op ∷ [])
      × (name e'
          ≡ ok (if (op.model == c.first.model) && not (is_empty op.name) then op.name else n))
      × (author e'
          ≡ ok (
              if (op.model == c.first.model) && not (is_empty op.author_id)
              then op.author_id
              else a))
unfolding appended
append-IsCached op e n a c p q =
    let e' = appended op c.first.model e in
    let fine = appended-IsCached op e c in
    (e', append-appended op e c, fine, refl, name-appended op e n c p, author-appended op e a c q)
