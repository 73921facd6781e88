-- ===== src/Collection/Updates/Walking.antt =====
-- What the loops over all collections leave behind, whether they end or fail.
use repo_4636_qri.Prelude.{
  ◌≡◌, ◌≢◌, refl, sym, ap, subst, ◌∙◌, inl, inr, List, [], ◌∷◌, ◌++◌, map, Text, text_eq,
  text_eq_iff, is_empty, Outcome, ok, err, panic, ok_injective, err_not_ok, panic_not_ok,
  Bool-cases, Option-cases, arith,
}
use mathlib.Core.Path.{ap₂}
use mathlib.Core.List.{append_assoc, append-nil}
use repo_4636_qri.Prelude.Dict.{Pair}
use repo_4636_qri.Dsref.VersionInfo.{VersionInfo}
use repo_4636_qri.Collection.{
  Infos, Collections, SetError, Host, LocalSet, Step, stop, after, save_profile_collection,
  items_of,
}
use repo_4636_qri.Collection.Ids.{ids}
use repo_4636_qri.Collection.Updates.{placed, update_items, update_in, update_everywhere}

-- The profiles of the collections, each with the ids of its versions.
abbrev pub shape : Collections → List (Pair (List Text))
shape = map (λ p. record { key = p.key; value = ids p.value })

-- What holds of a chain: it goes on where the call returns, and ends with the set of the call else.
after-rule_of {ℓ κ} :
    {A B : Type ℓ} (P : Step B → Type κ) (res : Outcome SetError A) (s : LocalSet)
    (k : A → LocalSet → Step B)
    → ((a : A) → res ≡ ok a → P (k a s))
    → ((r : Step B) → r.set ≡ s → ((b : B) → r.result ≢ ok b) → P r)
    → P (after (stop res s) k)
after-rule_of P (ok a) s k f g = f a refl
after-rule_of P (err e) s k f g = g _ refl (λ b h. err_not_ok h)
after-rule_of P panic s k f g = g _ refl (λ b h. panic_not_ok h)

pub after-rule {ℓ κ} :
    {A B : Type ℓ} (P : Step B → Type κ) (o : Step A) (k : A → LocalSet → Step B)
    → ((a : A) → o.result ≡ ok a → P (k a o.set))
    → ((r : Step B) → r.set ≡ o.set → ((b : B) → r.result ≢ ok b) → P r)
    → P (after o k)
after-rule P o k = after-rule_of P o.result o.set k

module _ (host : Host) where
  pub save-keeps :
      (pid : Text) (s : LocalSet)
      → ((save_profile_collection host pid s).set.collections ≡ s.collections)
        × ((save_profile_collection host pid s).set.base_path ≡ s.base_path)
  unfolding save_profile_collection
  save-keeps pid s = elim (Bool-cases (is_empty s.base_path)) [
    | inl e ↦ (ground (arith, e), ground (arith, e))
    | inr e ↦ elim (Option-cases (host.marshal (items_of pid s.collections))) [
      | inl m ↦ (rw (e, m) refl, rw (e, m) refl)
      | inr (t, m) ↦ (rw (e, m) refl, rw (e, m) refl)
    ]
  ]

  module _ {S : Type 0} (mutate : S → VersionInfo → S × VersionInfo) (init_id : Text) where
    module _ (Q : S → Type 0)
        (keeps : (st : S) (vi : VersionInfo)
          → Q st
          → vi.init_id ≡ init_id
          → Q (mutate st vi).0 × ((mutate st vi).1.init_id ≡ vi.init_id)) where
      -- What a loop leaves, however it ends.
      record Left (before : Collections) (pid : Text) (passed vis : Infos) (behind : Collections)
          (o : Step (S × Infos)) : Type 0 where
        vis' : Infos
        same_ids : ids vis' ≡ ids vis
        left : o.set.collections ≡ before ++ record { key = pid; value = passed ++ vis' } ∷ behind
        returns : (r : S × Infos) → o.result ≡ ok r → Q r.0 × (r.1 ≡ passed ++ vis')

      Left-cons :
          (before : Collections) (pid : Text) (passed : Infos) (m vi : VersionInfo) (vis : Infos)
          (behind : Collections) (o : Step (S × Infos))
          → m.init_id ≡ vi.init_id
          → Left before pid (passed ++ m ∷ []) vis behind o
          → Left before pid passed (vi ∷ vis) behind o
      Left-cons before pid passed m vi vis behind o e l =
          let a = append_assoc passed (m ∷ []) l.vis' in
          record {
            vis' = m ∷ l.vis';
            same_ids = ap₂ ◌∷◌ e l.same_ids;
            left = l.left ∙ ap (λ c. before ++ record { key = pid; value = c } ∷ behind) a;
            returns = λ r h. let k = l.returns r h in (k.0, k.1 ∙ a);
          }

      update_items-Left :
          (st : S) (before : Collections) (pid : Text) (passed vis : Infos) (behind : Collections)
          (s : LocalSet)
          → Q st
          → s.collections ≡ before ++ record { key = pid; value = passed ++ vis } ∷ behind
          → Left before pid passed vis behind
              (update_items host mutate init_id st before pid passed vis behind s)
      unfolding update_items
      update_items-Left st before pid passed [] behind s q h = record {
        vis' = [];
        same_ids = refl;
        left = h;
        returns = λ r e.
            let k = ok_injective e in
            (subst (λ r. Q r.0) k q, ap (λ r. r.1) (sym k) ∙ sym (append-nil passed));
      }
      update_items-Left st before pid passed (vi ∷ vis) behind s q h =
          elim (Bool-cases (text_eq vi.init_id init_id)) [
            | inr e ↦ rw e (
                Left-cons before pid passed vi vi vis behind _ refl (
                  update_items-Left st before pid (passed ++ vi ∷ []) vis behind s q (
                    h
                    ∙ ap (λ c. before ++ record { key = pid; value = c } ∷ behind)
                        (sym (append_assoc passed (vi ∷ []) vis)))))
            | inl e ↦
                let m = mutate st vi in
                let k = keeps st vi q ((text_eq_iff vi.init_id init_id).0 e) in
                let s1 = placed before pid (passed ++ m.1 ∷ vis) behind s in
                let kept = save-keeps pid s1 in
                rw e (
                  after-rule (Left before pid passed (vi ∷ vis) behind)
                    (save_profile_collection host pid s1)
                    (λ u t.
                      update_items host mutate init_id m.0 before pid (passed ++ m.1 ∷ []) vis
                        behind t)
                    (λ u r. Left-cons before pid passed m.1 vi vis behind _ k.1 (
                      update_items-Left m.0 before pid (passed ++ m.1 ∷ []) vis behind
                        (save_profile_collection host pid s1).set k.0
                        (kept.0
                          ∙ ap (λ c. before ++ record { key = pid; value = c } ∷ behind)
                              (sym (append_assoc passed (m.1 ∷ []) vis)))))
                    λ o same fails. record {
                      vis' = m.1 ∷ vis;
                      same_ids = ap₂ ◌∷◌ k.1 refl;
                      left = ap (λ z. z.collections) same ∙ kept.0;
                      returns = λ r h. absurd (fails r h);
                    })
          ]

      shape-left :
          (before : Collections) (p : Pair Infos) (vis : Infos) (ps : Collections)
          → ids vis ≡ ids p.value
          → shape (before ++ record { key = p.key; value = vis } ∷ ps) ≡ shape (before ++ p ∷ ps)
      shape-left [] p vis ps e = rw e refl
      shape-left (b ∷ bs) p vis ps e =
          ap (λ r. record { key = b.key; value = ids b.value } ∷ r) (shape-left bs p vis ps e)

      update_in-shape :
          (st : S) (before ps : Collections) (s : LocalSet)
          → Q st
          → s.collections ≡ before ++ ps
          → shape (update_in host mutate init_id st before ps s).set.collections
            ≡ shape (before ++ ps)
      unfolding update_in
      update_in-shape st before [] s q h = ap shape h
      update_in-shape st before (p ∷ ps) s q h =
          let o = update_items host mutate init_id st before p.key [] p.value ps s in
          let l = update_items-Left st before p.key [] p.value ps s q h in
          let same = shape-left before p l.vis' ps l.same_ids in
          after-rule (λ z. shape z.set.collections ≡ shape (before ++ p ∷ ps)) o
            (λ r t.
              update_in host mutate init_id r.0 (before ++ record { key = p.key; value = r.1 } ∷ [])
                ps t)
            (λ r e.
              let k = l.returns r e in
              let here : Pair Infos = record { key = p.key; value = r.1 } in
              let e1 = ap (λ c. before ++ record { key = p.key; value = c } ∷ ps) (sym k.1) in
              let e2 = sym (append_assoc before (here ∷ []) ps) in
              update_in-shape r.0 (before ++ here ∷ []) ps o.set k.0 (l.left ∙ e1 ∙ e2)
              ∙ ap shape (sym e2)
              ∙ ap shape (sym e1)
              ∙ same)
            (λ z e fails. ap (λ t. shape t.collections) e ∙ ap shape l.left ∙ same)

      -- Whether it succeeds or not, `UpdateEverywhere` leaves every version at its place with its id.
      pub update_everywhere-shape :
          (st : S) (s : LocalSet)
          → Q st
          → shape (update_everywhere host mutate init_id st s).set.collections ≡ shape s.collections
      unfolding update_everywhere
      update_everywhere-shape st s q = update_in-shape st [] s.collections s q refl
