-- ===== src/Collection/Maintainer/Refining.antt =====
-- The handler of events refines a map from profiles and ids to versions.
use repo_4636_qri.Prelude.{
  ◌≡◌, ◌≢◌, refl, sym, ap, subst, ◌∙◌, inl, inr, none, some, [], ◌∷◌, Text, is_empty, if◌then◌else◌,
  Outcome, ok, err, panic, Bool-cases, Option-cases, Outcome-cases, err_not_ok, panic_not_ok,
  text_eq, codes,
}
use mathlib.Core.Option
use repo_4636_qri.Profile.{IdError, encode, validate_id, id_b58_decode}
use repo_4636_qri.Dsref.VersionInfo.{VersionInfo}
use repo_4636_qri.Collection.{
  Infos, Collections, Host, LocalSet, Step, stop, after, checked, add, delete,
}
use repo_4636_qri.Collection.Updates.{renamed, rename_user, update_everywhere}
use repo_4636_qri.Collection.Updates.Saving.{
  CanSave, EachIn, EachWith, walk-each, update_everywhere-walk,
}
use repo_4636_qri.Collection.Updates.Renaming.{rename_user-all, renamed-init_id}
use repo_4636_qri.Collection.Viewing.{look, IsSound, look-change_all, look-map}
use repo_4636_qri.Collection.Adding.{IsSorting, is_listable, add-look, add-refused}
use repo_4636_qri.Collection.Deleting.{delete-refused, delete-look}
use repo_4636_qri.Collection.Maintainer.{
  Payload, Event, dataset_name_init, write_commit, write_run, dataset_pulled, dataset_rename,
  dataset_delete_all, dataset_download, registry_profile_created, followed, unfollowed,
  issue_opened, issue_closed, workflow_created, workflow_removed, transform_start,
  transform_canceled, other, commit_mutate, change_of, ignored, update_each, handle_change,
  handle_event,
}
use repo_4636_qri.Collection.Maintainer.Keeping.{
  KeepsId, change_of-KeepsId, ignored-set, commit_mutate-init_id,
}
use repo_4636_qri.Collection.Maintainer.Meaning.{
  replaced, replaced-committed, replaced-again, +ℤ-up, lowered-down, renamed-owned_by,
}
use mathlib.Core.Path.{fun_ext}
use repo_4636_qri.Collection.Maintainer.Effect.{
  View, put_at, change_at, committed, if_valid, taken, for_profile, effect, HasRun, IsFair,
  owned_by,
}

-- Every version meets a condition that holds of all.
EachIn-all :
    (R : VersionInfo → Type 0) (id : Text)
    → ((vi : VersionInfo) → R vi)
    → (cs : Collections) → EachIn R id cs
EachIn-all R id f [] = tt
EachIn-all R id f (p ∷ ps) = (EachWith-all p.value, EachIn-all R id f ps)
  where
    EachWith-all : (vis : Infos) → EachWith R id vis
    EachWith-all [] = tt
    EachWith-all (vi ∷ vis) = (λ _. f vi, EachWith-all vis)

module _ (host : Host) (q k : Text) (s : LocalSet) (can : CanSave host s.base_path) where
  -- What is found after a call, where it is as a map says.
  abbrev Shows : Step (Unit {0}) → View → Type 0
  Shows o v = look q k o.set.collections ≡ v q k

  abbrev before : View
  before q k = look q k s.collections

  ignored-Shows {ℓ} :
      {A : Type ℓ} (o : Step A) (v : View)
      → look q k o.set.collections ≡ v q k
      → Shows (ignored o) v
  ignored-Shows o v h = ap (λ t. look q k t.collections) (ignored-set o) ∙ h

  handle_change-Shows :
      (p : Payload)
      → Shows
          (handle_change host p s)
          (elim (change_of p) [ none ↦ before | some c ↦ change_at c.0 c.1 before ])
  unfolding handle_change update_each
  handle_change-Shows p = elim (Option-cases (change_of p)) [
    | inl e ↦ rw (e, handle_change) refl
    | inr (c, e) ↦
        let update : Unit {0} → VersionInfo → Unit {0} × VersionInfo = λ st vi. (st, c.1 vi) in
        let o = update_everywhere host update c.0 tt s in
        let walked = (update_everywhere-walk host update c.0 s.base_path can tt s refl).1 in
        let each =
          walk-each update c.0 c.1 (λ _. Unit {0}) (λ _. Unit {0}) (λ _ _ _ _ _. (tt, refl)) tt
            s.collections tt (EachIn-all (λ _. Unit {0}) c.0 (λ _. tt) s.collections) in
        rw (e, handle_change)
          (ignored-Shows o (change_at c.0 c.1 before) (
            ap (look q k) (walked ∙ each)
            ∙ look-change_all c.1 c.0 q k s.collections
                (λ vi _. subst KeepsId e (change_of-KeepsId p) vi)))
  ]

  -- The change may be given by another function with the same values.
  each-Shows :
      (p : Payload) (id : Text) (f g : VersionInfo → VersionInfo)
      → change_of p ≡ some (id, f)
      → ((vi : VersionInfo) → f vi ≡ g vi)
      → Shows (handle_change host p s) (change_at id g before)
  each-Shows p id f g e h =
      handle_change-Shows p ∙ rw e (ap (λ x. change_at id x before q k) (fun_ext h))

  commit-Shows :
      (vi : VersionInfo)
      → IsFair (write_commit vi) s.collections
      → Shows
          (ignored (update_everywhere host commit_mutate vi.init_id vi s))
          (change_at vi.init_id (committed vi) before)
  unfolding commit_mutate
  commit-Shows vi (r, fair) =
      let o = update_everywhere host commit_mutate vi.init_id vi s in
      let walked =
        (update_everywhere-walk host commit_mutate vi.init_id s.base_path can vi s refl).1 in
      let each =
        walk-each commit_mutate vi.init_id (replaced vi)
          (λ st. (m : VersionInfo) → HasRun vi r m → replaced st m ≡ replaced vi m) (HasRun vi r)
          (λ st m same _ h.
            (λ m' h'. ap (λ x. replaced x m') (same m h) ∙ replaced-again vi r m m' h h', same m h))
          vi s.collections (λ m _. refl) fair in
      ignored-Shows o (change_at vi.init_id (replaced vi) before) (
        ap (look q k) (walked ∙ each)
        ∙ look-change_all (replaced vi) vi.init_id q k s.collections
            (λ m e. commit_mutate-init_id vi m ∙ sym e))
      ∙ ap (λ f. change_at vi.init_id f before q k) (fun_ext (replaced-committed vi))

  unless-Shows :
      (id : Text) (o : Step (Unit {0})) (v : View)
      → Shows o v
      → Shows (if is_empty id then stop (ok tt) s else o) (if is_empty id then before else v)
  unless-Shows id o v h = elim (Bool-cases (is_empty id)) [ inl e ↦ rw e refl | inr e ↦ rw e h ]

  decoded-Shows :
      (encoded : Text) (f : Text → LocalSet → Step (Unit {0})) (g : Text → View → View)
      → ((pid : Text) → Shows (f pid s) (g pid before))
      → Shows
          (after (stop (checked (id_b58_decode host.peers encoded)) s) f)
          (for_profile host.peers encoded g before)
  decoded-Shows encoded f g h = go (id_b58_decode host.peers encoded)
    where
      go :
          (o : Outcome IdError Text)
          → Shows
              (after (stop (checked o) s) f)
              (elim o [ ok pid ↦ g pid before | err e ↦ before | panic ↦ before ])
      go (ok pid) = h pid
      go (err e) = refl
      go panic = refl

  valid-Shows :
      (pid : Text) (o : Step (Unit {0})) (g : View → View)
      → (validate_id host.peers pid ≡ ok tt → Shows o (g before))
      → (validate_id host.peers pid ≢ ok tt → Shows o before)
      → Shows o (if_valid host.peers pid g before)
  valid-Shows pid o g good bad = elim (Outcome-cases (validate_id host.peers pid)) [
    | inl (u, e) ↦ rw (e, if_valid) (good e)
    | inr (inl (er, e)) ↦ rw (e, if_valid) (bad λ h. err_not_ok (sym e ∙ h))
    | inr (inr e) ↦ rw (e, if_valid) (bad λ h. panic_not_ok (sym e ∙ h))
  ]

  add-Shows :
      (sorting : IsSorting host) (pid : Text) (vi : VersionInfo)
      → IsSound s.collections
      → Shows (add host pid (vi ∷ []) s) (taken host.peers pid vi before)
  add-Shows sorting pid vi h =
      valid-Shows pid (add host pid (vi ∷ []) s)
        (λ v. if is_listable vi then put_at pid vi.init_id (some vi) v else v)
        (λ valid. elim (Bool-cases (is_listable vi)) [
          | inl l ↦ rw l (add-look host sorting pid vi q k s valid l h)
          | inr l ↦
              rw l (ap (λ t. look q k t.collections) (add-refused host sorting pid vi s (λ _. l)))
        ])
        (λ bad.
          ap (λ t. look q k t.collections)
            (add-refused host sorting pid vi s (λ valid. absurd (bad valid))))

  delete-Shows :
      (pid id : Text)
      → IsSound s.collections
      → Shows (delete host pid id s) (if_valid host.peers pid (put_at pid id none) before)
  delete-Shows pid id h =
      valid-Shows pid (delete host pid id s) (put_at pid id none)
        (λ valid. delete-look host pid id s h q k valid)
        (λ bad. ap (λ t. look q k t.collections) (delete-refused host pid id s h bad))

  module _ (sorting : IsSorting host) (sound : IsSound s.collections) where
    abbrev Refines : Text → Payload → Type 0
    Refines pid p =
        let e : Event = record { profile_id = pid; payload = p } in
        IsFair p s.collections → Shows (handle_event host e s) (effect host.peers e before)

    of_payload-Shows : (pid : Text) (p : Payload) → Refines pid p
    unfolding handle_event effect change_of
    of_payload-Shows pid (dataset_name_init vi) _ =
        decoded-Shows vi.profile_id (λ id t. add host id (vi ∷ []) t) (λ id. taken host.peers id vi)
          (λ id. add-Shows sorting id vi sound)
    of_payload-Shows pid (dataset_pulled vi) _ = unless-Shows pid _ _ (
        decoded-Shows pid (λ id t. ignored (add host id (vi ∷ []) t)) (λ id. taken host.peers id vi)
          (λ id.
            ignored-Shows (add host id (vi ∷ []) s) (taken host.peers id vi before)
              (add-Shows sorting id vi sound)))
    of_payload-Shows pid (dataset_delete_all id) _ = unless-Shows pid _ _ (
        decoded-Shows pid (λ pid t. ignored (delete host pid id t))
          (λ pid. if_valid host.peers pid (put_at pid id none))
          (λ pid.
            ignored-Shows (delete host pid id s)
              (if_valid host.peers pid (put_at pid id none) before) (delete-Shows pid id sound)))
    of_payload-Shows pid (registry_profile_created id name) _ =
        decoded-Shows id (λ pid t. ignored (rename_user host pid name t))
          (λ pid v q k. Option.map (owned_by (encode host.peers pid) name) (v q k))
          (λ pid.
            ignored-Shows (rename_user host pid name s)
              (λ q k. Option.map (owned_by (encode host.peers pid) name) (look q k s.collections))
              (ap (look q k) (rename_user-all host pid name s can).1
                ∙ look-map (renamed (encode host.peers pid) name)
                    (renamed-init_id (encode host.peers pid) name) q k s.collections
                ∙ ap (λ f. Option.map f (look q k s.collections))
                    (fun_ext (renamed-owned_by (encode host.peers pid) name))))
    of_payload-Shows pid (write_commit vi) fair = commit-Shows vi fair
    of_payload-Shows pid (dataset_rename id a b) _ = handle_change-Shows (dataset_rename id a b)
    of_payload-Shows pid (dataset_download id) _ =
        each-Shows (dataset_download id) id _ _ refl
          (λ vi. ap (λ n. record vi { download_count = n }) (+ℤ-up vi.download_count))
    of_payload-Shows pid (followed id) _ =
        each-Shows (followed id) id _ _ refl
          (λ vi. ap (λ n. record vi { follower_count = n }) (+ℤ-up vi.follower_count))
    of_payload-Shows pid (unfollowed id) _ =
        each-Shows (unfollowed id) id _ _ refl
          (λ vi. ap (λ n. record vi { follower_count = n }) (lowered-down vi.follower_count))
    of_payload-Shows pid (issue_opened id) _ =
        each-Shows (issue_opened id) id _ _ refl
          (λ vi. ap (λ n. record vi { open_issue_count = n }) (+ℤ-up vi.open_issue_count))
    of_payload-Shows pid (issue_closed id) _ =
        each-Shows (issue_closed id) id _ _ refl
          (λ vi. ap (λ n. record vi { open_issue_count = n }) (lowered-down vi.open_issue_count))
    of_payload-Shows pid (workflow_created wf) _ = handle_change-Shows (workflow_created wf)
    of_payload-Shows pid (workflow_removed wf) _ = handle_change-Shows (workflow_removed wf)
    of_payload-Shows pid (transform_start te) _ =
        elim (Bool-cases (text_eq te.mode (codes "apply"))) [
          | inl e ↦ rw e (handle_change-Shows (transform_start te) ∙ rw e refl)
          | inr e ↦ rw e (
              each-Shows (transform_start te) te.init_id _ _ (rw e refl) (λ vi.
                ap
                  (λ n. record vi {
                    run_count = n;
                    run_status = codes "running";
                    run_id = te.run_id;
                    run_start = none;
                  })
                  (+ℤ-up vi.run_count)))
        ]
    of_payload-Shows pid (transform_canceled te) _ = handle_change-Shows (transform_canceled te)
    of_payload-Shows pid (write_run vi) _ = handle_change-Shows (write_run vi)
    of_payload-Shows pid other _ = handle_change-Shows other

-- If the collections are sound, collections can be saved, the sort permutes, and a commit names its run
-- or finds versions that agree on the last run, the handler does to the versions of every profile what
-- `effect` says of the event, which is a table of its own: it shares with the handler only the checks
-- of profile ids.
pub handle_event-effect :
    (host : Host) (sorting : IsSorting host) (e : Event) (s : LocalSet)
    → IsSound s.collections
    → CanSave host s.base_path
    → IsFair e.payload s.collections
    → (q k : Text)
    → look q k (handle_event host e s).set.collections
      ≡ effect host.peers e (λ q k. look q k s.collections) q k
handle_event-effect host sorting e s sound can fair q k =
    of_payload-Shows host q k s can sorting sound e.profile_id e.payload fair
