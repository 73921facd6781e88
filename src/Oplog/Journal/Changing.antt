-- ===== src/Oplog/Journal/Changing.antt =====
-- A log of the journal that is changed in place (`change_in`) is found again under its id, a change
-- that undoes it gives the journal back, and the entries of the top level logs stay.
use repo_4636_qri.Prelude.{
  ◌≡◌, refl, sym, ap, ◌∙◌, inl, inr, true, false, Text, text_eq, Outcome, ok, err, panic,
  Bool-cases, Outcome-cases, ok_injective, arith,
}
use repo_4636_qri.Oplog.Op.{Op}
use repo_4636_qri.Oplog.Log.{
  LogError, Entry, Log, Logs, node, nil, cons, entry, entry_id, find, find_in,
}
use repo_4636_qri.Oplog.Journal.{change, change_in}

-- The logs have the same entries, in order.
abbrev pub SameEntries : Logs → Logs → Type 0
SameEntries nil nil = Unit
SameEntries nil (cons l ls) = ⊥
SameEntries (cons l ls) nil = ⊥
SameEntries (cons l ls) (cons m ms) = (entry m ≡ entry l) × SameEntries ls ms

SameEntries-refl : (ls : Logs) → SameEntries ls ls
SameEntries-refl nil = tt
SameEntries-refl (cons l ls) = (refl, SameEntries-refl ls)

module _ (hash : Op → Text) where
  pub find-here :
      (i : Text) (l : Log) → text_eq (entry_id hash (entry l)) i ≡ true → find hash i l ≡ ok l
  unfolding find
  find-here i (node e kids) t = rw t refl

  pub find-below :
      (i : Text) (e : Entry) (kids : Logs)
      → text_eq (entry_id hash e) i ≡ false
      → find hash i (node e kids) ≡ find_in hash i kids
  unfolding find
  find-below i e kids t = rw t refl

  pub find_in-first :
      (i : Text) (l : Log) (ls : Logs) (x : Log)
      → find hash i l ≡ ok x
      → find_in hash i (cons l ls) ≡ ok x
  unfolding find_in
  find_in-first i l ls x h = ground (arith, h)

  pub find_in-later :
      (i : Text) (l : Log) (ls : Logs) (e : LogError)
      → find hash i l ≡ err e
      → find_in hash i (cons l ls) ≡ find_in hash i ls
  unfolding find_in
  find_in-later i l ls e h = ground (arith, h)

  pub find_in-panic :
      (i : Text) (l : Log) (ls : Logs) (x : Log)
      → find hash i l ≡ panic
      → find_in hash i (cons l ls) ≡ ok x
      → ⊥
  unfolding find_in
  find_in-panic i l ls x h k = ground (arith, h, k)

  pub find_in-nil : (i : Text) (x : Log) → find_in hash i nil ≡ ok x → ⊥
  unfolding find_in
  find_in-nil i x h = cc

  change-here :
      (f : Log → Outcome LogError Log) (i : Text) (l : Log)
      → text_eq (entry_id hash (entry l)) i ≡ true
      → change hash f i l ≡ f l
  unfolding change
  change-here f i (node e kids) t = rw t refl

  change-below :
      (f : Log → Outcome LogError Log) (i : Text) (e : Entry) (kids kids' : Logs)
      → text_eq (entry_id hash e) i ≡ false
      → change_in hash f i kids ≡ ok kids'
      → change hash f i (node e kids) ≡ ok (node e kids')
  unfolding change
  change-below f i e kids kids' t h = rw (t, h) refl

  change_in-first :
      (f : Log → Outcome LogError Log) (i : Text) (l : Log) (ls : Logs) (x l' : Log)
      → find hash i l ≡ ok x
      → change hash f i l ≡ ok l'
      → change_in hash f i (cons l ls) ≡ ok (cons l' ls)
  unfolding change_in
  change_in-first f i l ls x l' h c = ground (arith, h, c)

  change_in-later :
      (f : Log → Outcome LogError Log) (i : Text) (l : Log) (ls ls' : Logs) (e : LogError)
      → find hash i l ≡ err e
      → change_in hash f i ls ≡ ok ls'
      → change_in hash f i (cons l ls) ≡ ok (cons l ls')
  unfolding change_in
  change_in-later f i l ls ls' e h c = ground (arith, h, c)

  module _ (f : Log → Outcome LogError Log) where
    -- What the change makes of one log: the entry that names it stays.
    pub record Changes (x y : Log) : Type 0 where
      pub made : f x ≡ ok y
      pub same_entry : entry y ≡ entry x

    -- The change of the log that is found in `l`, and of the list of logs.
    pub record ChangedLog (i : Text) (l x y : Log) : Type 0 where
      pub log : Log
      pub changes : change hash f i l ≡ ok log
      pub found : find hash i log ≡ ok y
      pub same : entry log ≡ entry l
      pub back : (g : Log → Outcome LogError Log) → g y ≡ ok x → change hash g i log ≡ ok l

    pub record ChangedLogs (i : Text) (ls : Logs) (x y : Log) : Type 0 where
      pub logs : Logs
      pub changes : change_in hash f i ls ≡ ok logs
      pub found : find_in hash i logs ≡ ok y
      pub same : SameEntries ls logs
      pub back : (g : Log → Outcome LogError Log) → g y ≡ ok x → change_in hash g i logs ≡ ok ls

    changed-here :
        (i : Text) (l x y : Log)
        → text_eq (entry_id hash (entry l)) i ≡ true
        → find hash i l ≡ ok x
        → Changes x y
        → ChangedLog i l x y
    changed-here i l x y t h c =
        let is_x = ok_injective (sym h ∙ find-here i l t) in
        let t' : text_eq (entry_id hash (entry y)) i ≡ true =
          ap (λ e. text_eq (entry_id hash e) i) (c.same_entry ∙ ap entry is_x) ∙ t in
        record {
          log = y;
          changes = change-here f i l t ∙ ap f (sym is_x) ∙ c.made;
          found = find-here i y t';
          same = c.same_entry ∙ ap entry is_x;
          back = λ g e. change-here g i y t' ∙ e ∙ ap ok is_x;
        }

    mutual
      pub changed :
          (i : Text) (l x y : Log) → find hash i l ≡ ok x → Changes x y → ChangedLog i l x y
      changed i (node e kids) x y h c = elim (Bool-cases (text_eq (entry_id hash e) i)) [
        | inl t ↦ changed-here i (node e kids) x y t h c
        | inr t ↦
            let r = changed_in i kids x y (sym (find-below i e kids t) ∙ h) c in
            record {
              log = node e r.logs;
              changes = change-below f i e kids r.logs t r.changes;
              found = find-below i e r.logs t ∙ r.found;
              same = refl;
              back = λ g k. change-below g i e r.logs kids t (r.back g k);
            }
      ]

      pub changed_in :
          (i : Text) (ls : Logs) (x y : Log)
          → find_in hash i ls ≡ ok x
          → Changes x y
          → ChangedLogs i ls x y
      changed_in i nil x y h c = absurd (find_in-nil i x h)
      changed_in i (cons l ls) x y h c = elim (Outcome-cases (find hash i l)) [
        | inl (got, e) ↦
            let r = changed i l x y (e ∙ sym (find_in-first i l ls got e) ∙ h) c in
            record {
              logs = cons r.log ls;
              changes = change_in-first f i l ls got r.log e r.changes;
              found = find_in-first i r.log ls y r.found;
              same = (r.same, SameEntries-refl ls);
              back = λ g k. change_in-first g i r.log ls y l r.found (r.back g k);
            }
        | inr (inl (e, missing)) ↦
            let r = changed_in i ls x y (sym (find_in-later i l ls e missing) ∙ h) c in
            record {
              logs = cons l r.logs;
              changes = change_in-later f i l ls r.logs e missing r.changes;
              found = find_in-later i l r.logs e missing ∙ r.found;
              same = (refl, r.same);
              back = λ g k. change_in-later g i l r.logs ls e missing (r.back g k);
            }
        | inr (inr p) ↦ absurd (find_in-panic i l ls x p h)
      ]
