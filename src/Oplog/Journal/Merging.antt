-- ===== src/Oplog/Journal/Merging.antt =====
-- `Journal.MergeLog` on well-formed journals: it does not panic, and it loses nothing.
use repo_4636_qri.Prelude.{
  ℕ, ◌≡◌, ◌≢◌, refl, sym, ap, ◌∙◌, true, false, inl, inr, ◌∷◌, Bool-cases, Text, text_eq,
  text_eq_iff, Outcome, ok, err, panic, ◌>>=◌, [], is_empty,
}
use repo_4636_qri.Oplog.Op.{Op, equal}
use repo_4636_qri.Oplog.Log.{
  LogError, not_found, Entry, Log, Logs, node, nil, cons, entry, entry_id, id, find, find_in, merge,
  first_op_author_id, first_author,
}
use repo_4636_qri.Oplog.Log.Holds.{
  IsStarted, IsWellFormed, AreWellFormed, started, no_logs, and_logs, Holds, HoldsIn, below, first,
  later, Merged, Within-node, first_op_started,
}
use repo_4636_qri.Oplog.Log.Merge.{merge-Merged}
use repo_4636_qri.Oplog.Journal.{change, change_in, and_rest, and_first, merge_by_author, merge_log}

not_empty : (t : Text) → t ≢ [] → is_empty t ≡ false
unfolding is_empty
not_empty [] h = absurd (h refl)
not_empty (x ∷ t) h = refl

module _ (hash : Op → Text) where
  -- The list `r` is well formed, and holds what `logs` and the log `inc` hold.
  pub record MergedIn (inc : Log) (logs r : Logs) : Type 0 where
    pub formed : AreWellFormed r
    pub keeps : (i : Text) (n : ℕ) → HoldsIn hash i n logs → HoldsIn hash i n r
    pub gains : (i : Text) (n : ℕ) → Holds hash i n inc → HoldsIn hash i n r

  MergedIn-first :
      {inc l r : Log} {ls : Logs}
      → Merged hash inc l r
      → AreWellFormed ls
      → MergedIn inc (cons l ls) (cons r ls)
  MergedIn-first m w = record {
    formed = and_logs m.formed w;
    keeps = λ i n h. elim h [ first p ↦ first (m.keeps i n p) | later p ↦ later p ];
    gains = λ i n h. first (m.gains i n h);
  }

  MergedIn-later :
      {inc l : Log} {ls rs : Logs}
      → IsWellFormed l
      → MergedIn inc ls rs
      → MergedIn inc (cons l ls) (cons l rs)
  MergedIn-later w m = record {
    formed = and_logs w m.formed;
    keeps = λ i n h. elim h [ first p ↦ first p | later p ↦ later (m.keeps i n p) ];
    gains = λ i n h. later (m.gains i n h);
  }

  -- What a lookup and the change at its place give together.
  data Changed (inc l : Log) : Outcome LogError Log → Outcome LogError Log → Type 0 where
    absent : {w : Outcome LogError Log} → Changed inc l (err not_found) w
    changed : {got r : Log} → Merged hash inc l r → Changed inc l (ok got) (ok r)

  data ChangedIn (inc : Log) (ls : Logs)
      : Outcome LogError Log → Outcome LogError Logs → Type 0 where
    absent_in : {w : Outcome LogError Logs} → ChangedIn inc ls (err not_found) w
    changed_in : {got : Log} {rs : Logs} → MergedIn inc ls rs → ChangedIn inc ls (ok got) (ok rs)

  Changed-node :
      {inc : Log} {e : Entry} {kids : Logs} {w : Outcome LogError Log} {v : Outcome LogError Logs}
      → IsStarted e.ops
      → ChangedIn inc kids w v
      → Changed inc (node e kids) w (v >>= λ ks. ok (node e ks))
  Changed-node s absent_in = absent
  Changed-node s (changed_in m) = changed (record {
    formed = started s m.formed;
    same_id = refl;
    keeps = Within-node hash m.keeps;
    gains = λ i n h. below (m.gains i n h);
  })

  ChangedIn-cons :
      {inc l : Log} {ls : Logs} {w v w' : Outcome LogError Log} {v' : Outcome LogError Logs}
      → IsWellFormed l
      → AreWellFormed ls
      → Changed inc l w v
      → ChangedIn inc ls w' v'
      → ChangedIn inc
          (cons l ls)
          (elim w [ ok got ↦ ok got | err e ↦ w' | panic ↦ panic ])
          (elim w [ ok got ↦ and_rest ls v | err e ↦ and_first l v' | panic ↦ panic ])
  ChangedIn-cons wl ws (changed m) c = changed_in (MergedIn-first m ws)
  ChangedIn-cons wl ws absent absent_in = absent_in
  ChangedIn-cons wl ws absent (changed_in m) = changed_in (MergedIn-later wl m)

  module _ (no_collision : (a b : Op) → hash a ≡ hash b → equal a b ≡ true) where
    mutual
      unfolding find change

      change-Changed :
          (inc l : Log)
          → IsWellFormed inc
          → IsWellFormed l
          → Changed inc l (find hash (id hash inc) l) (change hash (merge hash inc) (id hash inc) l)
      change-Changed inc (node e kids) w (started s ws) =
          elim (Bool-cases (text_eq (entry_id hash e) (id hash inc))) [
            | inl same ↦
                let (r, q, m) =
                  merge-Merged hash no_collision inc (node e kids) w (started s ws)
                    (sym ((text_eq_iff _ _).0 same)) in
                rw (same, q) (changed m)
            | inr other ↦ rw other (Changed-node s (change_in-ChangedIn inc kids w ws))
          ]

      change_in-ChangedIn :
          (inc : Log) (ls : Logs)
          → IsWellFormed inc
          → AreWellFormed ls
          → ChangedIn inc ls
              (find_in hash (id hash inc) ls)
              (change_in hash (merge hash inc) (id hash inc) ls)
      change_in-ChangedIn inc nil w no_logs = absent_in
      change_in-ChangedIn inc (cons l ls) w (and_logs wl ws) =
          ChangedIn-cons wl ws (change-Changed inc l w wl) (change_in-ChangedIn inc ls w ws)

    -- A top level log with the first author of `inc` has the id of `inc`.
    abbrev pub HasOwnAuthor : Log → Logs → Type 0
    HasOwnAuthor inc nil = Unit
    HasOwnAuthor inc (cons lg ls) =
        (first_op_author_id (entry lg) ≡ first_op_author_id (entry inc) → id hash inc ≡ id hash lg)
        × HasOwnAuthor inc ls

    first_author-started :
        (e : Entry) → IsStarted e.ops → (a : Text) × (first_op_author_id e ≡ ok a)
    unfolding first_op_author_id
    first_author-started e s = (first_author s.first.model e.ops, rw (first_op_started s) refl)

    merge_by_author-MergedIn :
        (inc : Log) (ls : Logs)
        → IsWellFormed inc
        → AreWellFormed ls
        → HasOwnAuthor inc ls
        → (r : Logs) × (merge_by_author hash inc ls ≡ ok r) × MergedIn inc ls r
    unfolding merge_by_author
    merge_by_author-MergedIn inc nil w no_logs own = (
      cons inc nil,
      refl,
      record { formed = and_logs w no_logs; keeps = λ i n h. elim h [ ]; gains = λ i n h. first h },
    )
    merge_by_author-MergedIn (node d ks) (cons (node e kids) ls) (started t wt)
          (and_logs (started s wk) ws) own =
        let (a, pa) = first_author-started e s in
        let (b, pb) = first_author-started d t in
        let inc = node d ks in
        elim (Bool-cases (text_eq a b)) [
          | inl same ↦
              let agree = own.0 (pa ∙ ap ok ((text_eq_iff _ _).0 same) ∙ sym pb) in
              let (r, q, m) =
                merge-Merged hash no_collision inc (node e kids) (started t wt) (started s wk)
                  agree in
              (cons r ls, rw (pa, pb, same, q) refl, MergedIn-first m ws)
          | inr other ↦
              let (r, q, m) = merge_by_author-MergedIn inc ls (started t wt) ws own.1 in
              (cons (node e kids) r, rw (pa, pb, other, q) refl, MergedIn-later (started s wk) m)
        ]

    merge_found :
        (inc : Log) (logs : Logs) {w : Outcome LogError Log} {v : Outcome LogError Logs}
        → ChangedIn inc logs w v
        → ((r : Logs) × (merge_by_author hash inc logs ≡ ok r) × MergedIn inc logs r)
        → (r : Logs) × (elim w [
          | ok found ↦ v
          | err not_found ↦ merge_by_author hash inc logs
          | err e ↦ err e
          | panic ↦ panic
        ]
            ≡ ok r)
          × MergedIn inc logs r
    merge_found inc logs absent_in new = new
    merge_found inc logs (changed_in {rs} m) new = (rs, refl, m)

    -- If no two operations that differ have one hash, and no top level log has the first author but
    -- not the id of the incoming log, `MergeLog` of a well-formed log with an id into a well-formed
    -- journal succeeds. The journal stays well formed, and every log of the journal and of the
    -- incoming tree is in it under its id, with at least as many operations.
    pub merge_log-MergedIn :
        (inc : Log) (logs : Logs)
        → IsWellFormed inc
        → AreWellFormed logs
        → id hash inc ≢ []
        → HasOwnAuthor inc logs
        → (r : Logs) × (merge_log hash inc logs ≡ ok r) × MergedIn inc logs r
    unfolding merge_log
    merge_log-MergedIn inc logs w ws named own = rw (not_empty (id hash inc) named) (
        merge_found inc logs (change_in-ChangedIn inc logs w ws)
          (merge_by_author-MergedIn inc logs w ws own))
