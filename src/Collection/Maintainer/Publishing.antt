-- ===== src/Collection/Maintainer/Publishing.antt =====
-- The logbook and the collections together: what `WriteVersionSave` publishes reaches the handler.
use repo_4636_qri.Prelude.{
  ◌≡◌, refl, ap, ◌∙◌, Option, none, some, List, [], ◌∷◌, ◌++◌, Text, text_eq_iff, ok,
}
use mathlib.Core.Option
use repo_4636_qri.Prelude.Int.{pos}
use repo_4636_qri.Profile.{validate_id}
use repo_4636_qri.Dsref.VersionInfo.{VersionInfo, Dataset, Commit, Structure}
use repo_4636_qri.Dsref.VersionInfo.Fields.{convert-fields, convert-title, convert-size}
use repo_4636_qri.Run.State.{State}
use repo_4636_qri.Oplog.Op.{Op}
use repo_4636_qri.Oplog.Log.{Log, entry}
use repo_4636_qri.Logbook.Book.{Profile, Book, Published, Storage, save, writable_branch}
use repo_4636_qri.Logbook.Book
use repo_4636_qri.Logbook.Book.Commits.{commit_count, save_ops, saved_version, write_version_save}
use repo_4636_qri.Logbook.Book.Commits.Saving.{write_version_save-appends}
use repo_4636_qri.Collection.{Collections, Host, LocalSet, get}
use repo_4636_qri.Collection.Updates.Saving.{CanSave}
use repo_4636_qri.Collection.Viewing.{look, IsSound}
use repo_4636_qri.Collection.Adding.{IsSorting}
use repo_4636_qri.Collection.Listing.{get-look}
use repo_4636_qri.Collection.Maintainer.{
  Event, dataset_name_init, dataset_rename, dataset_delete_all, write_commit, write_run,
  handle_event,
}
use repo_4636_qri.Collection.Maintainer.Effect.{IsFair, committed, effect, change_at}
use repo_4636_qri.Collection.Maintainer.Refining.{handle_event-effect}

-- The event that the bus makes of what a book publishes, under the profile of the context.
abbrev pub event_of : Text → Published → Event
event_of pid (Book.dataset_name_init vi) = record {
  profile_id = pid;
  payload = dataset_name_init vi;
}
event_of pid (Book.dataset_rename id old_name new_name) = record {
  profile_id = pid;
  payload = dataset_rename id old_name new_name;
}
event_of pid (Book.dataset_delete_all id) = record {
  profile_id = pid;
  payload = dataset_delete_all id;
}
event_of pid (Book.write_commit vi) = record { profile_id = pid; payload = write_commit vi }
event_of pid (Book.write_run vi) = record { profile_id = pid; payload = write_run vi }

change_at-found :
    (vi m : VersionInfo) (id pid : Text) (cs : Collections)
    → vi.init_id ≡ id
    → look pid id cs ≡ some m
    → change_at vi.init_id (committed vi) (λ q k. look q k cs) pid id ≡ some (committed vi m)
change_at-found vi m id pid cs e old =
    let same = (text_eq_iff vi.init_id id).1 e in rw same (ap (Option.map (committed vi)) old)

saved_version-fields :
    (ds : Dataset) (rs : Option State) (ops : List Op)
    → ((saved_version ds rs ops).init_id ≡ ds.id)
      × ((saved_version ds rs ops).path ≡ ds.path)
      × ((saved_version ds rs ops).name ≡ ds.name)
      × ((saved_version ds rs ops).commit_count ≡ commit_count (pos 0) ops)
unfolding saved_version
saved_version-fields ds none ops = let f = convert-fields ds in (f.0, f.4, f.3, refl)
saved_version-fields ds (some r) ops = let f = convert-fields ds in (f.0, f.4, f.3, refl)

saved_version-title :
    (ds : Dataset) (rs : Option State) (ops : List Op) (c : Commit)
    → ds.commit ≡ some c
    → (saved_version ds rs ops).commit_title ≡ c.title
unfolding saved_version
saved_version-title ds none ops c h = convert-title ds c h
saved_version-title ds (some r) ops c h = convert-title ds c h

saved_version-size :
    (ds : Dataset) (rs : Option State) (ops : List Op) (o : Structure)
    → ds.structure ≡ some o
    → (saved_version ds rs ops).body_size ≡ o.length
unfolding saved_version
saved_version-size ds none ops o h = convert-size ds o h
saved_version-size ds (some r) ops o h = convert-size ds o h

module _ (hash : Op → Text) (st : Storage) (host : Host) (sorting : IsSorting host) where
  -- If the profile can write to the branch, the operations of the save are built, and books and
  -- collections are stored, then `WriteVersionSave` publishes one commit, with the path and the name of
  -- the save, the title of its commit, the size of its body and the number of commits of the branch. If
  -- the collection of a profile with a valid id has the dataset, the ids in the collections are unique,
  -- and the commit names its run or the versions of the dataset agree on the last run, then after the
  -- handler has taken that event `Get` returns the published version in every field but these, which
  -- are those of the version before: the workflow, the counts of runs, downloads, followers and open
  -- issues, and, if the save names no run, the id, status, duration and start of the last run.
  pub save-collected :
      (author : Profile) (ds : Dataset) (rs : Option State) (book : Book) (blog : Log)
      (ops : List Op) (pid : Text) (s : LocalSet) (m : VersionInfo)
      → writable_branch hash ds.id author book.logs ≡ ok blog
      → save_ops ds rs ≡ ok ops
      → ((b : Book) → (save st b).result ≡ ok tt)
      → IsSound s.collections
      → CanSave host s.base_path
      → IsFair (write_commit (saved_version ds rs ((entry blog).ops ++ ops))) s.collections
      → validate_id host.peers pid ≡ ok tt
      → look pid ds.id s.collections ≡ some m
      → (vi : VersionInfo) × ((write_version_save hash st author ds rs book).book.published
          ≡ book.published ++ Book.write_commit vi ∷ [])
        × (get host pid ds.id (handle_event host (event_of pid (Book.write_commit vi)) s).set
            ≡ ok (committed vi m))
        × (vi.path ≡ ds.path)
        × (vi.name ≡ ds.name)
        × (vi.commit_count ≡ commit_count (pos 0) ((entry blog).ops ++ ops))
        × ((c : Commit) → ds.commit ≡ some c → vi.commit_title ≡ c.title)
        × ((o : Structure) → ds.structure ≡ some o → vi.body_size ≡ o.length)
  unfolding effect
  save-collected author ds rs book blog ops pid s m w o stores sound can fair valid old =
      let saved = write_version_save-appends hash st author ds rs book blog ops w o stores in
      let vi = saved_version ds rs ((entry blog).ops ++ ops) in
      let f = saved_version-fields ds rs ((entry blog).ops ++ ops) in
      let found =
        handle_event-effect host sorting (event_of pid (Book.write_commit vi)) s sound can fair pid
          ds.id
        ∙ change_at-found vi m ds.id pid s.collections f.0 old in
      (
        vi,
        saved.4
            ∙ ap (λ o. book.published ++ Book.write_commit (saved_version ds rs o) ∷ []) saved.3,
        get-look host pid (handle_event host (event_of pid (Book.write_commit vi)) s).set valid
            ds.id (committed vi m) found,
        f.1,
        f.2,
        f.3,
        saved_version-title ds rs ((entry blog).ops ++ ops),
        saved_version-size ds rs ((entry blog).ops ++ ops),
      )
