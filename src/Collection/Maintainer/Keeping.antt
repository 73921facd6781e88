-- ===== src/Collection/Maintainer/Keeping.antt =====
-- The handler of events keeps the collections sound, whatever it meets.
use repo_4636_qri.Prelude.{
  ◌≡◌, refl, sym, ap, subst, ◌∙◌, inl, inr, Outcome, Option, none, some, [], ◌∷◌, Text, codes,
  text_eq, is_empty, if◌then◌else◌, ok, err, panic, Bool-cases, Option-cases,
}
use repo_4636_qri.Profile.{id_b58_decode}
use repo_4636_qri.Dsref.VersionInfo.{VersionInfo}
use repo_4636_qri.Collection.{Host, LocalSet, Step, SetError, stop, after, checked, add, delete}
use repo_4636_qri.Collection.Updates.{rename_user, update_everywhere}
use repo_4636_qri.Collection.Updates.Walking.{after-rule, update_everywhere-shape}
use repo_4636_qri.Collection.Updates.Renaming.{rename_user-shape}
use repo_4636_qri.Collection.Viewing.{IsSound, AllUnique}
use repo_4636_qri.Collection.Adding.{IsSorting, add-IsSound}
use repo_4636_qri.Collection.Deleting.{delete-IsSound}
use repo_4636_qri.Collection.Maintainer.{
  Payload, Event, Change, dataset_name_init, write_commit, write_run, dataset_pulled,
  dataset_rename, dataset_delete_all, dataset_download, registry_profile_created, followed,
  unfollowed, issue_opened, issue_closed, workflow_created, workflow_removed, transform_start,
  transform_canceled, other, commit_mutate, change_of, ignored, update_each, handle_change,
  handle_event,
}

abbrev pub KeepsId : Option Change → Type 0
KeepsId none = Unit
KeepsId (some c) = (vi : VersionInfo) → (c.1 vi).init_id ≡ vi.init_id

pub change_of-KeepsId : (p : Payload) → KeepsId (change_of p)
unfolding change_of
change_of-KeepsId (dataset_rename id old_name new_name) = λ vi. refl
change_of-KeepsId (dataset_download id) = λ vi. refl
change_of-KeepsId (followed id) = λ vi. refl
change_of-KeepsId (unfollowed id) = λ vi. refl
change_of-KeepsId (issue_opened id) = λ vi. refl
change_of-KeepsId (issue_closed id) = λ vi. refl
change_of-KeepsId (workflow_created wf) = λ vi. refl
change_of-KeepsId (workflow_removed wf) = λ vi. refl
change_of-KeepsId (transform_start te) = elim (Bool-cases (text_eq te.mode (codes "apply"))) [
  | inl e ↦ rw e tt
  | inr e ↦ rw e (λ vi. refl)
]
change_of-KeepsId (write_run v) = λ vi. refl
change_of-KeepsId (transform_canceled te) = λ vi. refl
change_of-KeepsId (dataset_name_init v) = tt
change_of-KeepsId (write_commit v) = tt
change_of-KeepsId (dataset_pulled v) = tt
change_of-KeepsId (dataset_delete_all id) = tt
change_of-KeepsId (registry_profile_created id name) = tt
change_of-KeepsId other = tt

ignored-set_of {ℓ} :
    {A : Type ℓ} (o : Outcome SetError A) (s : LocalSet) → (ignored (stop o s)).set ≡ s
ignored-set_of (ok a) s = refl
ignored-set_of (err e) s = refl
ignored-set_of panic s = refl

pub ignored-set {ℓ} : {A : Type ℓ} (r : Step A) → (ignored r).set ≡ r.set
ignored-set r = ignored-set_of r.result r.set

pub commit_mutate-init_id : (st m : VersionInfo) → (commit_mutate st m).1.init_id ≡ st.init_id
unfolding commit_mutate
commit_mutate-init_id st m = elim (Bool-cases (is_empty st.run_id)) [
  | inl e ↦ rw e refl
  | inr e ↦ rw e refl
]

commit_mutate-state : (st m : VersionInfo) → (commit_mutate st m).0.init_id ≡ st.init_id
unfolding commit_mutate
commit_mutate-state st m = commit_mutate-init_id st m

module _ (host : Host) where
  abbrev Sound : Step (Unit {0}) → Type 0
  Sound o = IsSound o.set.collections

  handle_change-IsSound :
      (p : Payload) (s : LocalSet) → IsSound s.collections → Sound (handle_change host p s)
  unfolding handle_change update_each
  handle_change-IsSound p s h = elim (Option-cases (change_of p)) [
    | inl e ↦ rw (e, handle_change) h
    | inr (c, e) ↦
        let update : Unit {0} → VersionInfo → Unit {0} × VersionInfo = λ st vi. (st, c.1 vi) in
        let o = update_everywhere host update c.0 tt s in
        rw (e, handle_change)
          (subst IsSound (sym (ap (λ t. t.collections) (ignored-set o))) (
            subst AllUnique
              (sym (
                update_everywhere-shape host update c.0 (λ _. Unit {0})
                  (λ _ vi _ _. (tt, subst KeepsId e (change_of-KeepsId p) vi)) tt s tt))
              h))
  ]

  ignored-Sound {ℓ} : {A : Type ℓ} (o : Step A) → IsSound o.set.collections → Sound (ignored o)
  ignored-Sound o h = subst (λ t. IsSound t.collections) (sym (ignored-set o)) h

  -- The lines behind the decoding of a profile id.
  decoded-Sound :
      (encoded : Text) (k : Text → LocalSet → Step (Unit {0})) (s : LocalSet)
      → IsSound s.collections
      → ((pid : Text) → Sound (k pid s))
      → Sound (after (stop (checked (id_b58_decode host.peers encoded)) s) k)
  decoded-Sound encoded k s h f =
      after-rule Sound (stop (checked (id_b58_decode host.peers encoded)) s) k (λ pid _. f pid)
        (λ z e _. subst (λ t. IsSound t.collections) (sym e) h)

  unless-Sound :
      (id : Text) (o : Step (Unit {0})) (s : LocalSet)
      → IsSound s.collections
      → Sound o
      → Sound (if is_empty id then stop (ok tt) s else o)
  unless-Sound id o s h g = elim (Bool-cases (is_empty id)) [ inl e ↦ rw e h | inr e ↦ rw e g ]

  module _ (sorting : IsSorting host) where
    of_payload-IsSound :
        (pid : Text) (p : Payload) (s : LocalSet)
        → IsSound s.collections
        → Sound (handle_event host (record { profile_id = pid; payload = p }) s)
    unfolding handle_event
    of_payload-IsSound pid (dataset_name_init vi) s h =
        decoded-Sound vi.profile_id (λ id t. add host id (vi ∷ []) t) s h
          (λ id. add-IsSound host sorting id (vi ∷ []) s h)
    of_payload-IsSound pid (dataset_pulled vi) s h = unless-Sound pid _ s h (
        decoded-Sound pid (λ id t. ignored (add host id (vi ∷ []) t)) s h
          (λ id.
            ignored-Sound (add host id (vi ∷ []) s) (add-IsSound host sorting id (vi ∷ []) s h)))
    of_payload-IsSound pid (dataset_delete_all id) s h = unless-Sound pid _ s h (
        decoded-Sound pid (λ pid t. ignored (delete host pid id t)) s h
          (λ pid. ignored-Sound (delete host pid id s) (delete-IsSound host pid id s h)))
    of_payload-IsSound pid (registry_profile_created id name) s h =
        decoded-Sound id (λ pid t. ignored (rename_user host pid name t)) s h
          (λ pid.
            ignored-Sound (rename_user host pid name s)
              (subst AllUnique (sym (rename_user-shape host pid name s)) h))
    of_payload-IsSound pid (write_commit vi) s h =
        ignored-Sound (update_everywhere host commit_mutate vi.init_id vi s) (
          subst AllUnique
            (sym (
              update_everywhere-shape host commit_mutate vi.init_id (λ st. st.init_id ≡ vi.init_id)
                (λ st m q e. (commit_mutate-state st m ∙ q, commit_mutate-init_id st m ∙ q ∙ sym e))
                vi s refl))
            h)
    of_payload-IsSound pid (dataset_rename id a b) s h =
        handle_change-IsSound (dataset_rename id a b) s h
    of_payload-IsSound pid (dataset_download id) s h =
        handle_change-IsSound (dataset_download id) s h
    of_payload-IsSound pid (followed id) s h = handle_change-IsSound (followed id) s h
    of_payload-IsSound pid (unfollowed id) s h = handle_change-IsSound (unfollowed id) s h
    of_payload-IsSound pid (issue_opened id) s h = handle_change-IsSound (issue_opened id) s h
    of_payload-IsSound pid (issue_closed id) s h = handle_change-IsSound (issue_closed id) s h
    of_payload-IsSound pid (workflow_created wf) s h =
        handle_change-IsSound (workflow_created wf) s h
    of_payload-IsSound pid (workflow_removed wf) s h =
        handle_change-IsSound (workflow_removed wf) s h
    of_payload-IsSound pid (transform_start te) s h = handle_change-IsSound (transform_start te) s h
    of_payload-IsSound pid (transform_canceled te) s h =
        handle_change-IsSound (transform_canceled te) s h
    of_payload-IsSound pid (write_run vi) s h = handle_change-IsSound (write_run vi) s h
    of_payload-IsSound pid other s h = handle_change-IsSound other s h

    -- After any event, in each collection the ids are unique and not empty, if they were; whether the
    -- handler fails or a file cannot be written makes no difference.
    pub handle_event-IsSound :
        (e : Event) (s : LocalSet)
        → IsSound s.collections
        → IsSound (handle_event host e s).set.collections
    handle_event-IsSound e s h = of_payload-IsSound e.profile_id e.payload s h
