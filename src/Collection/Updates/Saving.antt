-- ===== src/Collection/Updates/Saving.antt =====
-- What the loops over all collections leave behind if every collection can be saved.
use repo_4636_qri.Prelude.{
  ◌≡◌, refl, sym, ap, ◌∙◌, inl, inr, [], ◌∷◌, ◌++◌, map, Text, text_eq, text_eq_iff, if◌then◌else◌,
  Outcome, ok, err, panic, ok_injective, err_not_ok, panic_not_ok, Bool-cases,
}
use mathlib.Core.Path.{ap₂}
use mathlib.Core.List.{append_assoc, append-nil}
use repo_4636_qri.Prelude.Dict.{Pair}
use repo_4636_qri.Dsref.VersionInfo.{VersionInfo}
use repo_4636_qri.Collection.{
  Infos, Collections, SetError, Host, LocalSet, Step, stop, after, save_profile_collection,
}
use repo_4636_qri.Collection.Updates.{placed, update_items, update_in, update_everywhere}
use repo_4636_qri.Collection.Updates.Walking.{save-keeps}

after-ok_of {ℓ} :
    {A B : Type ℓ} (res : Outcome SetError A) (s : LocalSet) (k : A → LocalSet → Step B) (a : A)
    → res ≡ ok a
    → after (stop res s) k ≡ k a s
after-ok_of (ok b) s k a h = ap (λ c. k c s) (ok_injective h)
after-ok_of (err e) s k a h = absurd (err_not_ok h)
after-ok_of panic s k a h = absurd (panic_not_ok h)

pub after-ok {ℓ} :
    {A B : Type ℓ} (o : Step A) (k : A → LocalSet → Step B) (a : A)
    → o.result ≡ ok a
    → after o k ≡ k a o.set
after-ok o k a h = after-ok_of o.result o.set k a h

module _ {S : Type 0} (mutate : S → VersionInfo → S × VersionInfo) (init_id : Text) where
  -- The loops without the set.
  unfoldable pub walk_items : S → Infos → S × Infos
  walk_items st [] = (st, [])
  walk_items st (vi ∷ vis) =
      let m = if text_eq vi.init_id init_id then mutate st vi else (st, vi) in
      let rest = walk_items m.0 vis in (rest.0, m.1 ∷ rest.1)

  unfoldable pub walk : S → Collections → S × Collections
  unfolding walk_items
  walk st [] = (st, [])
  walk st (p ∷ ps) =
      let w = walk_items st p.value in
      let rest = walk w.0 ps in (rest.0, record { key = p.key; value = w.1 } ∷ rest.1)

module _ (host : Host) where
  -- Whatever is in a set under this directory can be saved.
  abbrev pub CanSave : Text → Type 0
  CanSave base =
      (pid : Text) (s : LocalSet)
      → s.base_path ≡ base
      → (save_profile_collection host pid s).result ≡ ok tt

  module _ {S : Type 0} (mutate : S → VersionInfo → S × VersionInfo) (init_id : Text) where
    -- The loop over a collection ends as its walk does.
    abbrev Walked :
        Text → Collections → Text → Infos → Collections → S × Infos → Step (S × Infos) → Type 0
    Walked base before pid passed behind w o =
        (o.result ≡ ok (w.0, passed ++ w.1))
        × (o.set.collections ≡ before ++ record { key = pid; value = passed ++ w.1 } ∷ behind)
        × (o.set.base_path ≡ base)

    Walked-cons :
        (base : Text) (before : Collections) (pid : Text) (passed : Infos) (m : VersionInfo)
        (behind : Collections) (w : S × Infos) (o : Step (S × Infos))
        → Walked base before pid (passed ++ m ∷ []) behind w o
        → Walked base before pid passed behind (w.0, m ∷ w.1) o
    Walked-cons base before pid passed m behind w o h =
        let a = append_assoc passed (m ∷ []) w.1 in
        (
          h.0 ∙ ap (λ c. ok (w.0, c)) a,
          h.1 ∙ ap (λ c. before ++ record { key = pid; value = c } ∷ behind) a,
          h.2,
        )

    module _ (base : Text) (can : CanSave base) where
      update_items-walk :
          (st : S) (before : Collections) (pid : Text) (passed vis : Infos) (behind : Collections)
          (s : LocalSet)
          → s.base_path ≡ base
          → s.collections ≡ before ++ record { key = pid; value = passed ++ vis } ∷ behind
          → Walked base before pid passed behind
              (walk_items mutate init_id st vis)
              (update_items host mutate init_id st before pid passed vis behind s)
      unfolding update_items walk_items
      update_items-walk st before pid passed [] behind s b h =
          (ap (λ c. ok (st, c)) (sym (append-nil passed)), h, b)
      update_items-walk st before pid passed (vi ∷ vis) behind s b h =
          let cut = λ (m : VersionInfo).
            ap (λ c. before ++ record { key = pid; value = c } ∷ behind)
              (sym (append_assoc passed (m ∷ []) vis)) in
          elim (Bool-cases (text_eq vi.init_id init_id)) [
            | inr e ↦ rw e (
                Walked-cons base before pid passed vi behind _
                  (update_items host mutate init_id st before pid (passed ++ vi ∷ []) vis behind s)
                  (update_items-walk st before pid (passed ++ vi ∷ []) vis behind s b (h ∙ cut vi)))
            | inl e ↦
                let m = mutate st vi in
                let s1 = placed before pid (passed ++ m.1 ∷ vis) behind s in
                let kept = save-keeps host pid s1 in
                let goes =
                  after-ok (save_profile_collection host pid s1)
                    (λ u t.
                      update_items host mutate init_id m.0 before pid (passed ++ m.1 ∷ []) vis
                        behind t)
                    tt (can pid s1 b) in
                rw (e, goes)
                  (Walked-cons base before pid passed m.1 behind _
                    (update_items host mutate init_id m.0 before pid (passed ++ m.1 ∷ []) vis behind
                      (save_profile_collection host pid s1).set)
                    (update_items-walk m.0 before pid (passed ++ m.1 ∷ []) vis behind
                      (save_profile_collection host pid s1).set (kept.1 ∙ b) (kept.0 ∙ cut m.1)))
          ]

      update_in-walk :
          (st : S) (before ps : Collections) (s : LocalSet)
          → s.base_path ≡ base
          → s.collections ≡ before ++ ps
          → ((update_in host mutate init_id st before ps s).result
              ≡ ok (walk mutate init_id st ps).0)
            × ((update_in host mutate init_id st before ps s).set.collections
                ≡ before ++ (walk mutate init_id st ps).1)
            × ((update_in host mutate init_id st before ps s).set.base_path ≡ base)
      unfolding update_in walk
      update_in-walk st before [] s b h = (refl, h, b)
      update_in-walk st before (p ∷ ps) s b h =
          let o = update_items host mutate init_id st before p.key [] p.value ps s in
          let w = walk_items mutate init_id st p.value in
          let here : Pair Infos = record { key = p.key; value = w.1 } in
          let l = update_items-walk st before p.key [] p.value ps s b h in
          let goes =
            after-ok o
              (λ r t.
                update_in host mutate init_id r.0
                  (before ++ record { key = p.key; value = r.1 } ∷ []) ps t)
              w l.0 in
          let rest =
            update_in-walk w.0 (before ++ here ∷ []) ps o.set l.2
              (l.1 ∙ sym (append_assoc before (here ∷ []) ps)) in
          rw goes (
            rest.0,
            rest.1 ∙ append_assoc before (here ∷ []) (walk mutate init_id w.0 ps).1,
            rest.2,
          )

      -- `UpdateEverywhere` succeeds and leaves the collections of the walk.
      pub update_everywhere-walk :
          (st : S) (s : LocalSet)
          → s.base_path ≡ base
          → ((update_everywhere host mutate init_id st s).result
              ≡ ok (walk mutate init_id st s.collections).0)
            × ((update_everywhere host mutate init_id st s).set.collections
                ≡ (walk mutate init_id st s.collections).1)
            × ((update_everywhere host mutate init_id st s).set.base_path ≡ base)
      unfolding update_everywhere
      update_everywhere-walk st s b = update_in-walk st [] s.collections s b refl

-- The versions with the id, changed one by one.
abbrev pub change_items : (VersionInfo → VersionInfo) → Text → Infos → Infos
change_items f id = map (λ vi. if text_eq vi.init_id id then f vi else vi)

abbrev pub change_all : (VersionInfo → VersionInfo) → Text → Collections → Collections
change_all f id = map (λ p. record { key = p.key; value = change_items f id p.value })

abbrev pub EachWith : (VersionInfo → Type 0) → Text → Infos → Type 0
EachWith R id [] = Unit
EachWith R id (vi ∷ vis) = (vi.init_id ≡ id → R vi) × EachWith R id vis

abbrev pub EachIn : (VersionInfo → Type 0) → Text → Collections → Type 0
EachIn R id [] = Unit
EachIn R id (p ∷ ps) = EachWith R id p.value × EachIn R id ps

-- Where the closure does `f` to the versions that it meets, the walk does `f` to each.
module _ {S : Type 0} (mutate : S → VersionInfo → S × VersionInfo) (id : Text)
    (f : VersionInfo → VersionInfo) (Q : S → Type 0) (R : VersionInfo → Type 0)
    (acts : (st : S) (vi : VersionInfo)
      → Q st
      → vi.init_id ≡ id
      → R vi
      → Q (mutate st vi).0 × ((mutate st vi).1 ≡ f vi)) where
  walk_items-each :
      (st : S) (vis : Infos)
      → Q st
      → EachWith R id vis
      → ((walk_items mutate id st vis).1 ≡ change_items f id vis)
        × Q (walk_items mutate id st vis).0
  unfolding walk_items
  walk_items-each st [] q r = (refl, q)
  walk_items-each st (vi ∷ vis) q r = elim (Bool-cases (text_eq vi.init_id id)) [
    | inl e ↦
        let a =
          acts st vi q ((text_eq_iff vi.init_id id).0 e) (r.0 ((text_eq_iff vi.init_id id).0 e)) in
        let rest = walk_items-each (mutate st vi).0 vis a.0 r.1 in rw e (ap₂ ◌∷◌ a.1 rest.0, rest.1)
    | inr e ↦ let rest = walk_items-each st vis q r.1 in rw e (ap (λ c. vi ∷ c) rest.0, rest.1)
  ]

  pub walk-each :
      (st : S) (ps : Collections)
      → Q st
      → EachIn R id ps
      → (walk mutate id st ps).1 ≡ change_all f id ps
  unfolding walk
  walk-each st [] q r = refl
  walk-each st (p ∷ ps) q r =
      let w = walk_items-each st p.value q r.0 in
      ap₂ (λ (c : Infos) (cs : Collections). record { key = p.key; value = c } ∷ cs) w.0
        (walk-each (walk_items mutate id st p.value).0 ps w.1 r.1)
