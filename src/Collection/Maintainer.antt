-- ===== src/Collection/Maintainer.antt =====
-- `SetMaintainer` of collection/collection.go: its handler of events, over the local set. An event is
-- the type and the payload that the handler asks for together; any other type or payload is `other`.
pub mod Keeping
pub mod Effect
pub mod Meaning
pub mod Refining
pub mod Publishing
pub mod Leaking
use repo_4636_qri.Prelude.{
  Bool, not, Option, none, some, List, [], ◌∷◌, Text, codes, text_eq, is_empty, if◌then◌else◌, ok,
  err, panic,
}
use repo_4636_qri.Prelude.Int.{ℤ, pos, ◌+ℤ◌, ◌-ℤ◌, ltb_ℤ}
use repo_4636_qri.Profile.{id_b58_decode}
use repo_4636_qri.Dsref.VersionInfo.{VersionInfo}
use repo_4636_qri.Run.State.{TransformLifecycle}
use repo_4636_qri.Workflow.{Workflow}
use repo_4636_qri.Collection.{Host, LocalSet, Step, stop, after, checked, add, delete}
use repo_4636_qri.Collection.Updates.{rename_user, update_everywhere}

pub data Payload : Type 0 where
  dataset_name_init write_commit write_run dataset_pulled : VersionInfo → Payload
  dataset_rename : Text → Text → Text → Payload
  dataset_delete_all dataset_download : Text → Payload
  registry_profile_created : Text → Text → Payload
  followed unfollowed issue_opened issue_closed : Text → Payload
  workflow_created workflow_removed : Workflow → Payload
  transform_start transform_canceled : TransformLifecycle → Payload
  other : Payload

-- An event of the bus with the profile of its context.
pub record Event : Type 0 where
  pub profile_id : Text
  pub payload : Payload

-- The closure of a commit changes the version of the event itself: the state is that version.
unfoldable pub commit_mutate : VersionInfo → VersionInfo → VersionInfo × VersionInfo
unfolding is_empty
commit_mutate vi m =
    let kept = record vi {
      workflow_id = m.workflow_id;
      download_count = m.download_count;
      run_count = m.run_count;
      follower_count = m.follower_count;
      open_issue_count = m.open_issue_count;
    } in
    let vi' =
      if is_empty vi.run_id
      then record kept {
        run_id = m.run_id;
        run_status = m.run_status;
        run_duration = m.run_duration;
        run_start = m.run_start;
      }
      else kept in
    (vi', vi')

-- A count that goes down stops at 0.
abbrev pub lowered : ℤ → ℤ
lowered n = let n' = n -ℤ pos 1 in if ltb_ℤ n' (pos 0) then pos 0 else n'

abbrev pub with_run : VersionInfo → VersionInfo → VersionInfo
with_run vi v = record v {
  run_start = vi.run_start;
  run_id = vi.run_id;
  run_status = vi.run_status;
  run_duration = vi.run_duration;
}

abbrev pub started : TransformLifecycle → VersionInfo → VersionInfo
started te vi = record vi {
  run_count = vi.run_count +ℤ pos 1;
  run_status = codes "running";
  run_id = te.run_id;
  run_start = none;
}

-- What a payload does to each version with the id, where the handler changes each by itself.
abbrev pub Change : Type 0
Change = Text × (VersionInfo → VersionInfo)

unfoldable pub change_of : Payload → Option Change
unfolding ◌+ℤ◌ ◌-ℤ◌
change_of (dataset_rename id old_name new_name) = some (id, λ vi. record vi { name = new_name })
change_of (dataset_download id) =
    some (id, λ vi. record vi { download_count = vi.download_count +ℤ pos 1 })
change_of (followed id) = some (id, λ vi. record vi { follower_count = vi.follower_count +ℤ pos 1 })
change_of (unfollowed id) =
    some (id, λ vi. record vi { follower_count = lowered vi.follower_count })
change_of (issue_opened id) =
    some (id, λ vi. record vi { open_issue_count = vi.open_issue_count +ℤ pos 1 })
change_of (issue_closed id) =
    some (id, λ vi. record vi { open_issue_count = lowered vi.open_issue_count })
change_of (workflow_created wf) = some (wf.init_id, λ vi. record vi { workflow_id = wf.id })
change_of (workflow_removed wf) = some (wf.init_id, λ vi. record vi { workflow_id = [] })
change_of (transform_start te) =
    if text_eq te.mode (codes "apply") then none else some (te.init_id, started te)
change_of (write_run vi) = some (vi.init_id, with_run vi)
change_of (transform_canceled te) = some (te.init_id, λ v. record v { run_status = codes "failed" })
change_of (dataset_name_init vi) = none
change_of (write_commit vi) = none
change_of (dataset_pulled vi) = none
change_of (dataset_delete_all id) = none
change_of (registry_profile_created id name) = none
change_of other = none

-- A call whose error is only logged, or not looked at.
abbrev pub ignored {ℓ} : {A : Type ℓ} → Step A → Step (Unit {0})
ignored r = elim r.result [
  | ok a ↦ stop (ok tt) r.set
  | err e ↦ stop (ok tt) r.set
  | panic ↦ stop panic r.set
]

module _ (host : Host) where
  unfoldable pub update_each : Change → LocalSet → Step (Unit {0})
  unfolding update_everywhere
  update_each c s = ignored (update_everywhere host (λ st vi. (st, c.1 vi)) c.0 tt s)

  unfoldable pub handle_change : Payload → LocalSet → Step (Unit {0})
  unfolding change_of update_each
  handle_change payload s = elim (change_of payload) [
    | none ↦ stop (ok tt) s
    | some c ↦ update_each c s
  ]

  -- `handleEvent`
  unfoldable pub handle_event : Event → LocalSet → Step (Unit {0})
  unfolding id_b58_decode add delete rename_user update_everywhere handle_change commit_mutate
      is_empty
  handle_event e s = elim e.payload [
    | dataset_name_init vi ↦
        after (stop (checked (id_b58_decode host.peers vi.profile_id)) s)
          λ pid s. add host pid (vi ∷ []) s
    | write_commit vi ↦ ignored (update_everywhere host commit_mutate vi.init_id vi s)
    | dataset_delete_all init_id ↦
        if is_empty e.profile_id
        then stop (ok tt) s
        else after (stop (checked (id_b58_decode host.peers e.profile_id)) s)
            λ pid s. ignored (delete host pid init_id s)
    | registry_profile_created profile_id username ↦
        after (stop (checked (id_b58_decode host.peers profile_id)) s)
          λ pid s. ignored (rename_user host pid username s)
    | dataset_pulled vi ↦
        if is_empty e.profile_id
        then stop (ok tt) s
        else after (stop (checked (id_b58_decode host.peers e.profile_id)) s)
            λ pid s. ignored (add host pid (vi ∷ []) s)
    | payload ↦ handle_change payload s
  ]
