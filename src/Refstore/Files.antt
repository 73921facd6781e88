-- ===== src/Refstore/Files.antt =====
-- The references of a repository that are kept in a file (repo/fs/refstore.go): every operation reads
-- all of them, and those that change them write all of them.
pub mod Agreeing
use repo_4636_qri.Prelude.{
  ℕ, ◌+◌, Bool, true, false, ◌&&◌, Option, none, some, [], ◌∷◌, ◌++◌, Text, text_ltb, is_empty,
  length, if◌then◌else◌, Outcome, ok, err, panic,
}
use repo_4636_qri.Prelude.Int.{ℤ}
use repo_4636_qri.Refstore.{
  DatasetRef, Refs, RefError, peer_id_required, peername_required, name_required, path_required,
  matches, ref_less, get_ref, delete_ref, references, ref_count,
}

pub data FileError : Type 0 where
  ref_error : RefError → FileError
  cannot_read cannot_decode cannot_write : FileError

-- What the store needs of the outside, where `W` is the world that a write changes: `ioutil.ReadFile`,
-- none for a file that does not exist, `ioutil.WriteFile`, which returns whether it failed, the
-- encoding with flatbuffers, and `sort.Sort`.
pub record Disk (W Dataset : Type 0) : Type 0 where
  pub read : W → Outcome FileError (Option Text)
  pub write : Text → W → W × Bool
  pub decode : Text → Option (Refs Dataset)
  pub encode : Refs Dataset → Text
  pub sort : (DatasetRef Dataset → DatasetRef Dataset → Bool) → Refs Dataset → Refs Dataset

-- What a method returns, and the world after it.
pub record Done (W : Type 0) : Type 0 where
  pub result : Outcome FileError (Unit {0})
  pub world : W

module _ {Dataset : Type 0} where
  -- The checks of `PutRef`, in the order of this store.
  abbrev pub file_check : DatasetRef Dataset → Outcome FileError (Unit {0})
  file_check r =
      if is_empty r.profile_id
      then err (ref_error peer_id_required)
      else if is_empty r.name
      then err (ref_error name_required)
      else if is_empty r.path && is_empty r.fsi_path
      then err (ref_error path_required)
      else if is_empty r.peername
      then err (ref_error peername_required)
      else ok tt

  -- The loop of `PutRef`: whether there was a match, and every match replaced.
  unfoldable pub replace_all : DatasetRef Dataset → Refs Dataset → Bool × Refs Dataset
  unfolding matches
  replace_all r [] = (false, [])
  replace_all r (ref ∷ refs) =
      let rest = replace_all r refs in
      if matches ref r then (true, r ∷ rest.1) else (rest.0, ref ∷ rest.1)

  abbrev pub put_in : DatasetRef Dataset → Refs Dataset → Refs Dataset
  put_in r refs = let loop = replace_all r refs in if loop.0 then loop.1 else loop.1 ++ r ∷ []

  -- The loop of `DeleteRef`, which leaves the references if none matches.
  abbrev pub delete_in : DatasetRef Dataset → Refs Dataset → Refs Dataset
  delete_in del refs = elim (delete_ref del refs) [ ok rs ↦ rs | err e ↦ refs | panic ↦ refs ]

abbrev pub lift : {A : Type 0} → Outcome RefError A → Outcome FileError A
lift (ok a) = ok a
lift (err e) = err (ref_error e)
lift panic = panic

module _ {W Dataset : Type 0} (disk : Disk W Dataset) where
  -- `refs`
  unfoldable pub file_refs : W → Outcome FileError (Refs Dataset)
  file_refs w = elim (disk.read w) [
    | ok none ↦ ok []
    | ok (some data_) ↦ elim (disk.decode data_) [ none ↦ err cannot_decode | some rs ↦ ok rs ]
    | err e ↦ err e
    | panic ↦ panic
  ]

  unfoldable pub write_refs : Refs Dataset → W → Done W
  write_refs refs w =
      let out = disk.write (disk.encode refs) w in
      record { result = if out.1 then err cannot_write else ok tt; world = out.0 }

  unfoldable pub save_refs : Refs Dataset → W → Done W
  unfolding write_refs text_ltb
  save_refs refs w = write_refs (disk.sort ref_less refs) w

  -- What follows where `refs` succeeds.
  abbrev pub with_refs : W → (Refs Dataset → Done W) → Done W
  with_refs w k = elim (file_refs w) [
    | ok refs ↦ k refs
    | err e ↦ record { result = err e; world = w }
    | panic ↦ record { result = panic; world = w }
  ]

  unfoldable pub file_put_ref : DatasetRef Dataset → W → Done W
  unfolding file_refs save_refs replace_all is_empty
  file_put_ref r w = elim (file_check r) [
    | ok u ↦ with_refs w λ refs. save_refs (put_in (record r { dataset = none }) refs) w
    | err e ↦ record { result = err e; world = w }
    | panic ↦ record { result = panic; world = w }
  ]

  unfoldable pub file_delete_ref : DatasetRef Dataset → W → Done W
  unfolding file_refs save_refs delete_ref
  file_delete_ref del w = with_refs w λ refs. save_refs (delete_in del refs) w

  -- What follows where `refs` succeeds and the store is only read.
  abbrev pub reading : {A : Type 0} → W → (Refs Dataset → Outcome RefError A) → Outcome FileError A
  reading w k = elim (file_refs w) [ ok refs ↦ lift (k refs) | err e ↦ err e | panic ↦ panic ]

  unfoldable pub file_get_ref : DatasetRef Dataset → W → Outcome FileError (DatasetRef Dataset)
  unfolding file_refs get_ref
  file_get_ref get w = reading w λ refs. get_ref get refs

  unfoldable pub file_references : ℤ → ℤ → W → Outcome FileError (Refs Dataset)
  unfolding file_refs references
  file_references offset limit w = reading w λ refs. references offset limit refs

  unfoldable pub file_ref_count : W → Outcome FileError ℕ
  unfolding file_refs ref_count
  file_ref_count w = reading w λ refs. ok (ref_count refs)
