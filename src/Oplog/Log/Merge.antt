-- ===== src/Oplog/Log/Merge.antt =====
-- Merging well-formed logs never panics, keeps the root, and loses no log and no operation count.
use repo_4636_qri.Prelude.{
  [], ◌≤◌, ◌≡◌, ◌≢◌, refl, sym, ap, ◌∙◌, true, false, Option, none, some, List, Text, Bool-cases,
  inl, inr, length, Outcome, ok, ◌>>=◌, arith, ltb,
}
use repo_4636_qri.Oplog.Op.{Op, equal, equal_iff}
use repo_4636_qri.Oplog.Log.{
  LogError, Entry, Log, Logs, node, nil, cons, entry, entry_id, id, add_child, take_longer,
  merge_match, merge_child, merge, merge_all, with_parent,
}
use repo_4636_qri.Oplog.Log.Holds.{
  IsStarted, IsWellFormed, AreWellFormed, started, no_logs, and_logs, first_op_started,
  nil_of_length, here, below, first, later, Within, AllWithin, Merged, Within-node,
  Within-with_parent, with_parent-IsWellFormed, AllNew, AllNew-with_parent, Added, add_to-Added,
}

module _ (hash : Op → Text) where
  -- What the inner loop gives: no child matches, or the first match was merged in its place.
  data Matched (x : Log) (kids : Logs) : Outcome LogError (Option Logs) → Type 0 where
    unmatched : AllNew hash x kids → Matched x kids (ok none)
    matched : {r : Logs} → Added hash x kids r → Matched x kids (ok (some r))

  skip :
      {x y : Log} {ys : Logs} {m : Outcome LogError (Option Logs)}
      → id hash y ≢ id hash x
      → IsWellFormed y
      → Matched x ys m
      → Matched x
          (cons y ys)
          (m >>= λ r. ok (elim r [ none ↦ none | some ys' ↦ some (cons y ys') ]))
  skip new w (unmatched news) = unmatched (new, news)
  skip new w (matched a) = matched (record {
    formed = and_logs w a.formed;
    keeps = λ i n h. elim h [ first p ↦ first p | later p ↦ later (a.keeps i n p) ];
    gains = λ i n h. later (a.gains i n h);
  })

  -- The entry that `Merge` leaves at the root, from the incoming entry and the receiver's.
  record Longest (e d r : Entry) : Type 0 where
    start : IsStarted r.ops
    same_id : entry_id hash r ≡ entry_id hash d
    of_incoming : length e.ops ≤ length r.ops
    of_receiver : length d.ops ≤ length r.ops

  take_longer-Longest :
      (e d : Entry)
      → IsStarted e.ops
      → IsStarted d.ops
      → entry_id hash e ≡ entry_id hash d
      → Longest e d (take_longer hash e d)
  unfolding take_longer entry_id
  take_longer-Longest e d s t same = elim (Bool-cases (ltb (length d.ops) (length e.ops))) [
    | inl longer ↦ rw longer (record {
      start = s;
      same_id = same;
      of_incoming = omega arith;
      of_receiver = ground arith;
    })
    | inr other ↦ rw other (record {
      start = t;
      same_id = refl;
      of_incoming = ground arith;
      of_receiver = omega arith;
    })
  ]

  module _ (no_collision : (a b : Op) → hash a ≡ hash b → equal a b ≡ true) where
    same_first : (o b : Op) → o.relations ≡ [] → equal o b ≡ true → b ≡ o
    same_first o b u e =
        let (same, lengths) = (equal_iff o b).0 e in
        same
        ∙ ap (λ (r : List Text). record o { relations = r })
            (nil_of_length (sym lengths ∙ ap length u) ∙ sym u)

    -- Two started logs with equal first operations have one id, and others have two.
    id_of_equal :
        (e d : Entry) (s : IsStarted e.ops) (t : IsStarted d.ops)
        → equal s.first t.first ≡ true
        → entry_id hash e ≡ entry_id hash d
    unfolding entry_id
    id_of_equal e d s t h =
        rw (s.begins, t.begins) (ap hash (sym (same_first s.first t.first s.unrelated h)))

    id_of_unequal :
        (e d : Entry) (s : IsStarted e.ops) (t : IsStarted d.ops)
        → equal s.first t.first ≡ false
        → entry_id hash d ≢ entry_id hash e
    unfolding entry_id
    id_of_unequal e d s t h p =
        let q = rw (s.begins, t.begins) at p in cc (no_collision s.first t.first (sym q), h)

    merge_match-Matched :
        (x : Log) (merge_x : Log → Outcome LogError Log) {kids : Logs}
        → IsWellFormed x
        → ((y : Log)
            → IsWellFormed y
            → id hash x ≡ id hash y
            → (r : Log) × (merge_x y ≡ ok r) × Merged hash x y r)
        → AreWellFormed kids
        → Matched x kids (merge_match hash (entry x).ops merge_x kids)
    unfolding merge_match
    merge_match-Matched x merge_x w f no_logs = unmatched tt
    merge_match-Matched (node e ks) merge_x (started s wk) f
          (and_logs {l = node d ls} {ls = ys} (started t wl) ws) =
        rw (first_op_started s, first_op_started t)
          (elim (Bool-cases (equal s.first t.first)) [
            | inl same ↦
                let (r, merged, m) = f (node d ls) (started t wl) (id_of_equal e d s t same) in
                rw (same, merged)
                  (matched (record {
                    formed = and_logs m.formed ws;
                    keeps = λ i n h. elim h [ first p ↦ first (m.keeps i n p) | later p ↦ later p ];
                    gains = λ i n h. first (m.gains i n h);
                  }))
            | inr other ↦ rw other (
                skip (id_of_unequal e d s t other) (started t wl)
                  (merge_match-Matched (node e ks) merge_x (started s wk) f ws))
          ])

    -- The outer loop's round, from what the inner loop gave.
    settle : Log → Log → Option Logs → Log
    settle x lg none = add_child hash x lg
    settle x (node e kids) (some kids') = node e kids'

    merge_child-settle :
        (x : Log) (merge_x : Log → Outcome LogError Log) (e : Entry) (kids : Logs) (r : Option Logs)
        → merge_match hash (entry x).ops merge_x kids ≡ ok r
        → merge_child hash x merge_x (node e kids) ≡ ok (settle x (node e kids) r)
    unfolding merge_child settle
    merge_child-settle x merge_x e kids none q = rw q refl
    merge_child-settle x merge_x e kids (some kids') q = rw q refl

    settle-Merged :
        (x : Log) {e : Entry} {kids : Logs} (m : Outcome LogError (Option Logs))
        → IsWellFormed x
        → IsStarted e.ops
        → AreWellFormed kids
        → Matched x kids m
        → (r : Option Logs) × (m ≡ ok r) × Merged hash x (node e kids) (settle x (node e kids) r)
    unfolding settle add_child
    settle-Merged x {e} {kids} m w s ws (unmatched new) =
        let p = entry_id hash e in
        let a =
          add_to-Added hash (with_parent hash p x) (AllNew-with_parent hash p x kids new)
            (with_parent-IsWellFormed hash p w) ws in
        (
          none,
          refl,
          record {
            formed = started s a.formed;
            same_id = refl;
            keeps = Within-node hash a.keeps;
            gains = λ i n h. below (a.gains i n (Within-with_parent hash p x i n h));
          },
        )
    settle-Merged x m w s ws (matched {r} a) = (
      some r,
      refl,
      record {
        formed = started s a.formed;
        same_id = refl;
        keeps = Within-node hash a.keeps;
        gains = λ i n h. below (a.gains i n h);
      },
    )

    merge_child-Merged :
        (x : Log) (merge_x : Log → Outcome LogError Log) {lg : Log}
        → IsWellFormed x
        → ((y : Log)
            → IsWellFormed y
            → id hash x ≡ id hash y
            → (r : Log) × (merge_x y ≡ ok r) × Merged hash x y r)
        → IsWellFormed lg
        → (r : Log) × (merge_child hash x merge_x lg ≡ ok r) × Merged hash x lg r
    merge_child-Merged x merge_x w f (started {e} {kids} s ws) =
        let (r, q, m) =
          settle-Merged x (merge_match hash (entry x).ops merge_x kids) w s ws
            (merge_match-Matched x merge_x w f ws) in
        (settle x (node e kids) r, merge_child-settle x merge_x e kids r q, m)

    -- What the outer loop gives, where the children `ks` of the incoming log are still to merge.
    record MergedAll (ks : Logs) (lg r : Log) : Type 0 where
      formed : IsWellFormed r
      same_id : id hash r ≡ id hash lg
      keeps : Within hash lg r
      gains : AllWithin hash ks r

    merge_all-cons :
        {x : Log} {xs : Logs} {lg : Log} {r r' : Log}
        → Merged hash x lg r
        → MergedAll xs r r'
        → MergedAll (cons x xs) lg r'
    merge_all-cons m all = record {
      formed = all.formed;
      same_id = all.same_id ∙ m.same_id;
      keeps = λ i n h. all.keeps i n (m.keeps i n h);
      gains =
          λ i n h. elim h [ first p ↦ all.keeps i n (m.gains i n p) | later p ↦ all.gains i n p ];
    }

    merge_root :
        {e d : Entry} {ks kids : Logs} {r : Log}
        → Longest e d (take_longer hash e d)
        → MergedAll ks (node (take_longer hash e d) kids) r
        → entry_id hash e ≡ entry_id hash d
        → Merged hash (node e ks) (node d kids) r
    merge_root longest all same = record {
      formed = all.formed;
      same_id = all.same_id ∙ longest.same_id;
      keeps = λ i n h. elim h [
        | here p q ↦
            all.keeps i n (here (longest.same_id ∙ p) (omega (arith, q, longest.of_receiver)))
        | below p ↦ all.keeps i n (below p)
      ];
      gains = λ i n h. elim h [
        | here p q ↦
            all.keeps i n
              (here (longest.same_id ∙ sym same ∙ p) (omega (arith, q, longest.of_incoming)))
        | below p ↦ all.gains i n p
      ];
    }

    mutual
      unfolding merge

      merge_logs :
          (l lg : Log)
          → IsWellFormed l
          → IsWellFormed lg
          → id hash l ≡ id hash lg
          → (r : Log) × (merge hash l lg ≡ ok r) × Merged hash l lg r
      merge_logs (node e ks) (node d kids) (started s ws) (started t wt) same =
          let longest = take_longer-Longest e d s t same in
          let (r, q, all) =
            merge_all-Merged ks (node (take_longer hash e d) kids) ws (started longest.start wt) in
          (r, q, merge_root longest all same)

      merge_all-Merged :
          (ks : Logs) (lg : Log)
          → AreWellFormed ks
          → IsWellFormed lg
          → (r : Log) × (merge_all hash ks lg ≡ ok r) × MergedAll ks lg r
      merge_all-Merged nil lg no_logs w = (
        lg,
        refl,
        record { formed = w; same_id = refl; keeps = λ i n h. h; gains = λ i n h. elim h [ ] },
      )
      merge_all-Merged (cons x xs) lg (and_logs wx ws) w =
          let (r, q, m) =
            merge_child-Merged x (merge hash x) wx (λ y wy same. merge_logs x y wx wy same) w in
          let (r', q', all) = merge_all-Merged xs r ws m.formed in
          (r', rw q q', merge_all-cons m all)

    -- If no two operations that differ have one hash, merging a well-formed log into a well-formed
    -- log with the same id returns (it does not panic) a well-formed log with that id, in which
    -- every log of either side still has a place under its id, with at least as many operations.
    pub merge-Merged :
        (l lg : Log)
        → IsWellFormed l
        → IsWellFormed lg
        → id hash l ≡ id hash lg
        → (r : Log) × (merge hash l lg ≡ ok r) × Merged hash l lg r
    merge-Merged l lg w v same = merge_logs l lg w v same
