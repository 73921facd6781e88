-- ===== src/Oplog/Log/Holds.antt =====
-- Well-formed logs, what a log tree holds, and adding a child with a new id.
use repo_4636_qri.Prelude.{
  ℕ, ◌≤◌, ◌≡◌, ◌≢◌, false, refl, false, List, [], ◌∷◌, Text, text_eq_iff, text_eq, Bool-cases, inl,
  inr, length, ok, arith,
}
use repo_4636_qri.Oplog.Op.{Op}
use repo_4636_qri.Oplog.Log.{
  Entry, Log, Logs, node, nil, cons, first_op, entry_id, id, add_to, with_parent,
}

-- The log starts with an operation, and that operation has no relations: initialization operations
-- never do.
pub record IsStarted (ops : List Op) : Type 0 where
  pub first : Op
  pub rest : List Op
  pub begins : ops ≡ first ∷ rest
  pub unrelated : first.relations ≡ []

other_id : (s t : Text) → s ≢ t → text_eq s t ≡ false
other_id s t h = elim (Bool-cases (text_eq s t)) [
  | inl e ↦ absurd (h ((text_eq_iff s t).0 e))
  | inr e ↦ e
]

pub nil_of_length {ℓ} : {A : Type ℓ} {l : List A} → length l ≡ 0 → l ≡ []
nil_of_length {l = []} h = refl
nil_of_length {l = x ∷ l} h = absurd (omega arith)

pub first_op_started : {ops : List Op} (s : IsStarted ops) → first_op ops ≡ ok s.first
unfolding first_op
first_op_started s = rw s.begins refl

mutual
  pub data IsWellFormed : Log → Type 0 where
    started :
        {e : Entry} {kids : Logs}
        → IsStarted e.ops
        → AreWellFormed kids
        → IsWellFormed (node e kids)

  pub data AreWellFormed : Logs → Type 0 where
    no_logs : AreWellFormed nil
    and_logs : {l : Log} {ls : Logs} → IsWellFormed l → AreWellFormed ls → AreWellFormed (cons l ls)

module _ (hash : Op → Text) where
  -- `Holds i n l`: at or below `l` there is a log with the id `i` and at least `n` operations.
  mutual
    pub data Holds (i : Text) (n : ℕ) : Log → Type 0 where
      here :
          {e : Entry} {kids : Logs}
          → entry_id hash e ≡ i
          → n ≤ length e.ops
          → Holds i n (node e kids)
      below : {e : Entry} {kids : Logs} → HoldsIn i n kids → Holds i n (node e kids)

    pub data HoldsIn (i : Text) (n : ℕ) : Logs → Type 0 where
      first : {l : Log} {ls : Logs} → Holds i n l → HoldsIn i n (cons l ls)
      later : {l : Log} {ls : Logs} → HoldsIn i n ls → HoldsIn i n (cons l ls)

  -- Everything that `a` holds, `b` holds.
  abbrev pub Within : Log → Log → Type 0
  Within a b = (i : Text) (n : ℕ) → Holds i n a → Holds i n b

  abbrev pub AllWithin : Logs → Log → Type 0
  AllWithin ls b = (i : Text) (n : ℕ) → HoldsIn i n ls → Holds i n b

  -- What a merge gives: a well-formed log with the receiver's id that holds both sides.
  pub record Merged (l lg r : Log) : Type 0 where
    pub formed : IsWellFormed r
    pub same_id : id hash r ≡ id hash lg
    pub keeps : Within lg r
    pub gains : Within l r

  pub Within-node :
      {e : Entry} {kids kids' : Logs}
      → ((i : Text) (n : ℕ) → HoldsIn i n kids → HoldsIn i n kids')
      → Within (node e kids) (node e kids')
  Within-node f i n (here p q) = here p q
  Within-node f i n (below h) = below (f i n h)

  pub Within-with_parent : (p : Text) (l : Log) → Within l (with_parent hash p l)
  Within-with_parent p (node e kids) i n (here q r) = unfold entry_id in here q r
  Within-with_parent p (node e kids) i n (below h) = below h

  pub with_parent-IsWellFormed :
      (p : Text) {l : Log} → IsWellFormed l → IsWellFormed (with_parent hash p l)
  with_parent-IsWellFormed p (started s w) = started s w

  -- No log of the list has the id of `l`.
  abbrev pub AllNew : Log → Logs → Type 0
  AllNew l nil = Unit
  AllNew l (cons ch ls) = (id hash ch ≢ id hash l) × AllNew l ls

  -- What `AddChild` does to the list of children where no child has the id.
  pub record Added (l : Log) (kids r : Logs) : Type 0 where
    pub formed : AreWellFormed r
    pub keeps : (i : Text) (n : ℕ) → HoldsIn i n kids → HoldsIn i n r
    pub gains : (i : Text) (n : ℕ) → Holds i n l → HoldsIn i n r

  pub AllNew-with_parent :
      (p : Text) (x : Log) (kids : Logs) → AllNew x kids → AllNew (with_parent hash p x) kids
  unfolding entry_id
  AllNew-with_parent p x nil new = tt
  AllNew-with_parent p (node e ks) (cons l ls) new =
      (new.0, AllNew-with_parent p (node e ks) ls new.1)

  pub add_to-Added :
      (l : Log) {kids : Logs}
      → AllNew l kids
      → IsWellFormed l
      → AreWellFormed kids
      → Added l kids (add_to hash l kids)
  unfolding add_to
  add_to-Added l new w no_logs = record {
    formed = and_logs w no_logs;
    keeps = λ i n h. elim h [ ];
    gains = λ i n h. first h;
  }
  add_to-Added l new w (and_logs {l = ch} {ls} wc ws) =
      let ih = add_to-Added l new.1 w ws in
      rw (other_id (id hash ch) (id hash l) new.0) (record {
        formed = and_logs wc ih.formed;
        keeps = λ i n h. elim h [ first p ↦ first p | later p ↦ later (ih.keeps i n p) ];
        gains = λ i n h. later (ih.gains i n h);
      })
