-- ===== src/Collection/Maintainer/Leaking.antt =====
-- A commit without a run that reaches the same dataset in several collections.
use repo_4636_qri.Prelude.{
  ◌≡◌, refl, sym, ap, subst, ◌∙◌, inl, inr, true, false, Option, none, some, [], ◌∷◌, Text, text_eq,
  text_eq_iff, is_empty, Bool-cases, Option-cases,
}
use mathlib.Core.Option.{some-injective}
use repo_4636_qri.Dsref.VersionInfo.{VersionInfo}
use repo_4636_qri.Collection.{Infos, Collections, Host, LocalSet, find}
use repo_4636_qri.Collection.Updates.{update_everywhere}
use repo_4636_qri.Collection.Updates.Saving.{
  CanSave, EachIn, EachWith, walk, walk_items, update_everywhere-walk,
}
use repo_4636_qri.Collection.Maintainer.{write_commit, commit_mutate, handle_event}
use repo_4636_qri.Collection.Maintainer.Keeping.{ignored-set}
use repo_4636_qri.Collection.Maintainer.Effect.{SameRun}

-- The first version of a dataset that a loop over all collections meets.
abbrev pub first_met : Text → Collections → Option VersionInfo
first_met id [] = none
first_met id (p ∷ ps) = elim (find id p.value) [ none ↦ first_met id ps | some m ↦ some m ]

-- The state of the loop carries the run of a version.
abbrev Carries : VersionInfo → VersionInfo → Type 0
Carries m st = (is_empty st.run_id ≡ false) × SameRun m st

commit_mutate-Carries :
    (m st v : VersionInfo)
    → Carries m st
    → SameRun m (commit_mutate st v).1 × Carries m (commit_mutate st v).0
unfolding commit_mutate
commit_mutate-Carries m st v c = rw (c.0, c.0) (c.1, (refl, c.1))

commit_mutate-takes :
    (st v : VersionInfo)
    → is_empty st.run_id ≡ true
    → is_empty v.run_id ≡ false
    → SameRun v (commit_mutate st v).1 × Carries v (commit_mutate st v).0
unfolding commit_mutate
commit_mutate-takes st v e f =
    rw (e, f) ((refl, refl, refl, refl), (refl, (refl, refl, refl, refl)))

other_id :
    (R : VersionInfo → Type 0) (vi : VersionInfo) (id : Text)
    → text_eq vi.init_id id ≡ false
    → vi.init_id ≡ id
    → R vi
other_id R vi id e h = let t : text_eq vi.init_id id ≡ true = (text_eq_iff vi.init_id id).1 h in cc

module _ (id : Text) (m : VersionInfo) where
  walk_items-Carries :
      (st : VersionInfo) (vis : Infos)
      → Carries m st
      → EachWith (SameRun m) id (walk_items commit_mutate id st vis).1
        × Carries m (walk_items commit_mutate id st vis).0
  unfolding walk_items
  walk_items-Carries st [] c = (tt, c)
  walk_items-Carries st (v ∷ vis) c = elim (Bool-cases (text_eq v.init_id id)) [
    | inl e ↦
        let (here, on) = commit_mutate-Carries m st v c in
        let (rest, end) = walk_items-Carries (commit_mutate st v).0 vis on in
        rw e ((λ _. here, rest), end)
    | inr e ↦
        let (rest, end) = walk_items-Carries st vis c in
        rw e ((other_id (SameRun m) v id e, rest), end)
  ]

  walk-Carries :
      (st : VersionInfo) (ps : Collections)
      → Carries m st
      → EachIn (SameRun m) id (walk commit_mutate id st ps).1
  unfolding walk
  walk-Carries st [] c = tt
  walk-Carries st (p ∷ ps) c =
      let (here, on) = walk_items-Carries st p.value c in
      (here, walk-Carries (walk_items commit_mutate id st p.value).0 ps on)

  walk_items-takes :
      (st : VersionInfo) (vis : Infos)
      → is_empty st.run_id ≡ true
      → is_empty m.run_id ≡ false
      → find id vis ≡ some m
      → EachWith (SameRun m) id (walk_items commit_mutate id st vis).1
        × Carries m (walk_items commit_mutate id st vis).0
  unfolding walk_items find
  walk_items-takes st [] none_named named h = cc
  walk_items-takes st (v ∷ vis) none_named named h = elim (Bool-cases (text_eq v.init_id id)) [
    | inl e ↦
        let same : v ≡ m = some-injective _ _ (rw e at h) in
        let (here, on) =
          subst (λ x. SameRun x (commit_mutate st v).1 × Carries x (commit_mutate st v).0) same
            (commit_mutate-takes st v none_named
              (subst (λ x. is_empty x.run_id ≡ false) (sym same) named)) in
        let (rest, end) = walk_items-Carries (commit_mutate st v).0 vis on in
        rw e ((λ _. here, rest), end)
    | inr e ↦
        let (rest, end) = walk_items-takes st vis none_named named (rw e at h) in
        rw e ((other_id (SameRun m) v id e, rest), end)
  ]

  walk_items-passes :
      (st : VersionInfo) (vis : Infos)
      → find id vis ≡ none
      → EachWith (SameRun m) id (walk_items commit_mutate id st vis).1
        × ((walk_items commit_mutate id st vis).0 ≡ st)
  unfolding walk_items find
  walk_items-passes st [] h = (tt, refl)
  walk_items-passes st (v ∷ vis) h = elim (Bool-cases (text_eq v.init_id id)) [
    | inl e ↦ cc (rw e at h)
    | inr e ↦
        let (rest, end) = walk_items-passes st vis (rw e at h) in
        rw e ((other_id (SameRun m) v id e, rest), end)
  ]

  walk-takes :
      (st : VersionInfo) (ps : Collections)
      → is_empty st.run_id ≡ true
      → is_empty m.run_id ≡ false
      → first_met id ps ≡ some m
      → EachIn (SameRun m) id (walk commit_mutate id st ps).1
  unfolding walk
  walk-takes st [] none_named named h = cc
  walk-takes st (p ∷ ps) none_named named h = elim (Option-cases (find id p.value)) [
    | inl n ↦
        let (here, on) = walk_items-passes st p.value n in
        (
          here,
          walk-takes (walk_items commit_mutate id st p.value).0 ps
              (ap (λ x. is_empty x.run_id) on ∙ none_named) named (rw (n, first_met) at h),
        )
    | inr (v, n) ↦
        let same : v ≡ m = some-injective _ _ (rw (n, first_met) at h) in
        let (here, on) = walk_items-takes st p.value none_named named (n ∙ ap (λ x. some x) same) in
        (here, walk-Carries (walk_items commit_mutate id st p.value).0 ps on)
  ]

-- If a commit names no run, and the first version of its dataset that the handler comes to has a last
-- run, then afterwards the version of the dataset in every collection shows that run, whatever its own
-- was.
pub commit-leaks_run :
    (host : Host) (vi m : VersionInfo) (pid : Text) (s : LocalSet)
    → CanSave host s.base_path
    → is_empty vi.run_id ≡ true
    → first_met vi.init_id s.collections ≡ some m
    → is_empty m.run_id ≡ false
    → EachIn
        (SameRun m)
        vi.init_id
        (handle_event host
          (record { profile_id = pid; payload = write_commit vi })
          s).set.collections
unfolding handle_event
commit-leaks_run host vi m pid s can none_named first named =
    let walked =
      ap (λ t. t.collections) (ignored-set (update_everywhere host commit_mutate vi.init_id vi s))
      ∙ (update_everywhere-walk host commit_mutate vi.init_id s.base_path can vi s refl).1 in
    subst (λ cs. EachIn (SameRun m) vi.init_id cs) (sym walked)
      (walk-takes vi.init_id m vi s.collections none_named named first)
