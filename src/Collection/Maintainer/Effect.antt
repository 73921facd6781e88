-- ===== src/Collection/Maintainer/Effect.antt =====
-- What an event means for a map from profiles and ids to versions (`SetMaintainer.handleEvent` of
-- collection/collection.go, without lists, errors and files).
use repo_4636_qri.Prelude.{
  zero, suc, [], codes, ◌≡◌, ◌⊎◌, false, ◌&&◌, Option, none, some, Text, text_eq, is_empty,
  if◌then◌else◌, ok, err, panic,
}
use mathlib.Core.Option
use repo_4636_qri.Profile.{Peers, encode, validate_id, id_b58_decode}
use repo_4636_qri.Dsref.VersionInfo.{VersionInfo}
use repo_4636_qri.Collection.{Collections}
use repo_4636_qri.Collection.Updates.Saving.{EachIn}
use repo_4636_qri.Collection.Adding.{is_listable}
use repo_4636_qri.Prelude.Int.{ℤ, pos, negsuc}
use repo_4636_qri.Collection.Maintainer.{
  Payload, Event, dataset_name_init, write_commit, write_run, dataset_pulled, dataset_rename,
  dataset_delete_all, dataset_download, registry_profile_created, followed, unfollowed,
  issue_opened, issue_closed, workflow_created, workflow_removed, transform_start,
  transform_canceled, other,
}

abbrev pub View : Type 0
View = Text → Text → Option VersionInfo

abbrev pub put_at : Text → Text → Option VersionInfo → View → View
put_at pid id o v q k = if text_eq pid q && text_eq id k then o else v q k

abbrev pub change_at : Text → (VersionInfo → VersionInfo) → View → View
change_at id f v q k = if text_eq id k then Option.map f (v q k) else v q k

-- A commit puts its version in the place of the old one, but for the workflow and the counts that the
-- version had, and for its last run if the commit names none.
abbrev pub committed : VersionInfo → VersionInfo → VersionInfo
committed vi m =
    if is_empty vi.run_id
    then record vi {
      workflow_id = m.workflow_id;
      run_id = m.run_id;
      run_status = m.run_status;
      run_duration = m.run_duration;
      run_start = m.run_start;
      run_count = m.run_count;
      download_count = m.download_count;
      follower_count = m.follower_count;
      open_issue_count = m.open_issue_count;
    }
    else record vi {
      workflow_id = m.workflow_id;
      run_count = m.run_count;
      download_count = m.download_count;
      follower_count = m.follower_count;
      open_issue_count = m.open_issue_count;
    }

-- One more, and one less but not less than 0.
abbrev pub up : ℤ → ℤ
up (pos n) = pos (suc n)
up (negsuc zero) = pos 0
up (negsuc (suc n)) = negsuc n

abbrev pub down : ℤ → ℤ
down (pos zero) = pos 0
down (pos (suc n)) = pos n
down (negsuc n) = pos 0

abbrev pub owned_by : Text → Text → VersionInfo → VersionInfo
owned_by profile_id name vi =
    if text_eq vi.profile_id profile_id then record vi { username = name } else vi

module _ (peers : Peers) where
  abbrev pub if_valid : Text → (View → View) → View → View
  if_valid pid f v = elim (validate_id peers pid) [ ok u ↦ f v | err e ↦ v | panic ↦ v ]

  -- A version is taken for a valid profile id, if its fields are there.
  abbrev pub taken : Text → VersionInfo → View → View
  taken pid vi = if_valid pid (λ v. if is_listable vi then put_at pid vi.init_id (some vi) v else v)

  abbrev pub for_profile : Text → (Text → View → View) → View → View
  for_profile encoded f v = elim (id_b58_decode peers encoded) [
    | ok pid ↦ f pid v
    | err e ↦ v
    | panic ↦ v
  ]

  -- What an event means for the map.
  unfoldable pub effect : Event → View → View
  effect e v = elim e.payload [
    | dataset_name_init vi ↦ for_profile vi.profile_id (λ pid. taken pid vi) v
    | dataset_pulled vi ↦
        if is_empty e.profile_id then v else for_profile e.profile_id (λ pid. taken pid vi) v
    | dataset_delete_all id ↦
        if is_empty e.profile_id
        then v
        else for_profile e.profile_id (λ pid. if_valid pid (put_at pid id none)) v
    | registry_profile_created id name ↦
        for_profile id (λ pid v q k. Option.map (owned_by (encode peers pid) name) (v q k)) v
    | write_commit vi ↦ change_at vi.init_id (committed vi) v
    | write_run vi ↦
        change_at vi.init_id
          (λ m. record m {
            run_id = vi.run_id;
            run_status = vi.run_status;
            run_duration = vi.run_duration;
            run_start = vi.run_start;
          })
          v
    | dataset_rename id old_name new_name ↦ change_at id (λ m. record m { name = new_name }) v
    | dataset_download id ↦ change_at id (λ m. record m { download_count = up m.download_count }) v
    | followed id ↦ change_at id (λ m. record m { follower_count = up m.follower_count }) v
    | unfollowed id ↦ change_at id (λ m. record m { follower_count = down m.follower_count }) v
    | issue_opened id ↦ change_at id (λ m. record m { open_issue_count = up m.open_issue_count }) v
    | issue_closed id ↦
        change_at id (λ m. record m { open_issue_count = down m.open_issue_count }) v
    | workflow_created wf ↦ change_at wf.init_id (λ m. record m { workflow_id = wf.id }) v
    | workflow_removed wf ↦ change_at wf.init_id (λ m. record m { workflow_id = [] }) v
    | transform_start te ↦
        if text_eq te.mode (codes "apply")
        then v
        else change_at te.init_id
            (λ m. record m {
              run_id = te.run_id;
              run_status = codes "running";
              run_start = none;
              run_count = up m.run_count;
            })
            v
    | transform_canceled te ↦ change_at te.init_id (λ m. record m { run_status = codes "failed" }) v
    | other ↦ v
  ]

abbrev pub SameRun : VersionInfo → VersionInfo → Type 0
SameRun a b =
    (a.run_id ≡ b.run_id)
    × (a.run_status ≡ b.run_status)
    × (a.run_duration ≡ b.run_duration)
    × (a.run_start ≡ b.run_start)

abbrev pub HasRun : VersionInfo → VersionInfo → VersionInfo → Type 0
HasRun vi r m = (is_empty vi.run_id ≡ false) ⊎ SameRun r m

-- A commit names its run, or the versions of the dataset agree on the last run.
abbrev pub IsFair : Payload → Collections → Type 0
IsFair (write_commit vi) cs = (r : VersionInfo) × EachIn (HasRun vi r) vi.init_id cs
IsFair p cs = Unit
