-- ===== src/Oplog/Log.antt =====
-- `Log` of logbook/oplog/log.go as a tree by value. `hash` stands for `Op.Hash` (base32 of the
-- blake2b sum of the flatbuffer of an operation); the `parent` pointer is left out, `ParentID` is kept.
-- A panic is an index into an empty list of operations.
pub mod Holds
pub mod Merge
pub mod Names
use repo_4636_qri.Prelude.{
  ℕ, Bool, true, false, not, ◌&&◌, Option, none, some, List, [], ◌∷◌, ◌++◌, Text, text_eq, is_empty,
  if◌then◌else◌, ◌==◌, ltb, length, Outcome, ok, err, panic, ◌>>=◌,
}
use repo_4636_qri.Oplog.Op.{Op, op_type_remove, empty_op, equal}

-- `ErrNotFound`, and the messages of the other errors.
pub data LogError : Type 0 where
  not_found name_required empty_id subsets_not_finished : LogError

-- The fields of a log but its children. `name` and `author_id` are the caches.
pub record Entry : Type 0 where
  pub name : Text
  pub author_id : Text
  pub parent_id : Text
  pub signature : Text
  pub ops : List Op

mutual
  pub data Log : Type 0 where
    node : Entry → Logs → Log

  pub data Logs : Type 0 where
    nil : Logs
    cons : Log → Logs → Logs

abbrev pub entry : Log → Entry
entry (node e kids) = e

abbrev pub children : Log → Logs
children (node e kids) = kids

-- `lg.Ops[0]`
unfoldable pub first_op : List Op → Outcome LogError Op
first_op [] = panic
first_op (o ∷ ops) = ok o

-- `Log.Head`: the latest operation.
unfoldable pub head : List Op → Op
head [] = empty_op
head (o ∷ []) = o
head (o ∷ p ∷ ops) = head (p ∷ ops)

unfoldable pub model : Entry → Outcome LogError ℕ
unfolding first_op
model e = do o ← first_op e.ops; ok o.model

-- The loop of `Name`: the last name that an operation of the log's model sets.
unfoldable pub last_name : ℕ → Text → List Op → Text
unfolding is_empty
last_name m acc [] = acc
last_name m acc (o ∷ ops) =
    last_name m (if (o.model == m) && not (is_empty o.name) then o.name else acc) ops

unfoldable pub name : Entry → Outcome LogError Text
unfolding model last_name
name e = if is_empty e.name then (do m ← model e; ok (last_name m e.name e.ops)) else ok e.name

unfoldable pub last_author : ℕ → Text → List Op → Text
unfolding is_empty
last_author m acc [] = acc
last_author m acc (o ∷ ops) =
    last_author m (if (o.model == m) && not (is_empty o.author_id) then o.author_id else acc) ops

unfoldable pub author : Entry → Outcome LogError Text
unfolding model last_author
author e =
    if is_empty e.author_id
    then (do m ← model e; ok (last_author m e.author_id e.ops))
    else ok e.author_id

unfoldable pub first_author : ℕ → List Op → Text
unfolding is_empty
first_author m [] = []
first_author m (o ∷ ops) =
    let rest = first_author m ops in
    if (o.model == m) && not (is_empty o.author_id) then o.author_id else rest

unfoldable pub first_op_author_id : Entry → Outcome LogError Text
unfolding model first_author
first_op_author_id e = do m ← model e; ok (first_author m e.ops)

has_remove : ℕ → List Op → Bool
has_remove m [] = false
has_remove m (o ∷ ops) =
    let rest = has_remove m ops in
    if (o.model == m) && (o.type == op_type_remove) then true else rest

unfoldable pub removed : Entry → Outcome LogError Bool
unfolding model has_remove
removed e = do m ← model e; ok (has_remove m e.ops)

abbrev pub init_log : Op → Log
init_log o =
    node (record { name = []; author_id = []; parent_id = []; signature = []; ops = o ∷ [] }) nil

abbrev cached : Text → Text → Text
cached given old = if is_empty given then old else given

-- `Log.Append`
unfoldable pub append : Op → Entry → Outcome LogError Entry
unfolding model is_empty
append op e = do
  m ← model e
  ok (record e {
    name = if op.model == m then cached op.name e.name else e.name;
    author_id = if op.model == m then cached op.author_id e.author_id else e.author_id;
    ops = e.ops ++ op ∷ [];
  })

module _ (hash : Op → Text) where
  unfoldable pub entry_id : Entry → Text
  entry_id e = elim e.ops [ [] ↦ [] | o ∷ ops ↦ hash o ]

  abbrev pub id : Log → Text
  id l = entry_id (entry l)

  -- `Log.Log`: depth first.
  unfoldable mutual
    unfolding entry_id

    pub find : Text → Log → Outcome LogError Log
    find i (node e kids) =
        let below = find_in i kids in if text_eq (entry_id e) i then ok (node e kids) else below

    pub find_in : Text → Logs → Outcome LogError Log
    find_in i nil = err not_found
    find_in i (cons l ls) =
        let rest = find_in i ls in
        elim (find i l) [ ok got ↦ ok got | err e ↦ rest | panic ↦ panic ]

  -- the loop of `AddChild`
  unfoldable pub add_to : Log → Logs → Logs
  add_to l nil = cons l nil
  add_to l (cons ch ls) =
      let rest = add_to l ls in
      if text_eq (id ch) (id l)
      then (if ltb (length (entry ch).ops) (length (entry l).ops) then cons l ls else cons ch ls)
      else cons ch rest

  abbrev pub with_parent : Text → Log → Log
  with_parent p (node e kids) = node (record e { parent_id = p }) kids

  unfoldable pub add_child : Log → Log → Log
  unfolding add_to
  add_child l (node e kids) = node e (add_to (with_parent (entry_id e) l) kids)

  -- The operations of `l` replace those of the receiver if they are more; this clears the caches
  -- and the signature.
  unfoldable pub take_longer : Entry → Entry → Entry
  take_longer l lg =
      if ltb (length lg.ops) (length l.ops)
      then record {
        name = [];
        author_id = [];
        parent_id = lg.parent_id;
        signature = [];
        ops = l.ops;
      }
      else lg

  -- The inner loop of `Merge` over the receiver's children, where `merge_x` merges the incoming
  -- child. `none`: no child has an equal first operation.
  unfoldable pub merge_match :
      List Op → (Log → Outcome LogError Log) → Logs → Outcome LogError (Option Logs)
  unfolding first_op
  merge_match ops merge_x nil = ok none
  merge_match ops merge_x (cons y ys) = do
    xo ← first_op ops
    yo ← first_op (entry y).ops
    let here = merge_x y >>= λ y'. ok (some (cons y' ys))
    let later = merge_match ops merge_x ys >>= λ r.
        ok (elim r [ none ↦ none | some ys' ↦ some (cons y ys') ])
    if equal xo yo then here else later

  -- One round of the outer loop.
  unfoldable pub merge_child : Log → (Log → Outcome LogError Log) → Log → Outcome LogError Log
  unfolding merge_match add_child
  merge_child x merge_x (node e kids) = do
    r ← merge_match (entry x).ops merge_x kids
    ok (elim r [ none ↦ add_child x (node e kids) | some kids' ↦ node e kids' ])

  unfoldable mutual
    unfolding take_longer merge_child

    -- `merge l lg` is `lg.Merge(l)`.
    pub merge : Log → Log → Outcome LogError Log
    merge (node e kids) lg = merge_all kids (node (take_longer e (entry lg)) (children lg))

    pub merge_all : Logs → Log → Outcome LogError Log
    merge_all nil lg = ok lg
    merge_all (cons x xs) lg = merge_child x (merge x) lg >>= merge_all xs
