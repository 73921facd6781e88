-- ===== src/Logbook/Book/Commits/Listing.antt =====
-- The list of versions after `WriteVersionSave`: a save adds one version, and joins it with its run.
use repo_4636_qri.Prelude.{
  ◌≡◌, refl, sym, ap, ◌∙◌, false, true, none, some, List, [], ◌∷◌, ◌++◌, Text, text_eq_iff,
  text_eq_refl, Bool, not, if◌then◌else◌, is_empty, after_prefix, Outcome, ok, err, panic, ◌>>=◌,
  arith,
}
use repo_4636_qri.Dsref.Ref.{Ref}
use repo_4636_qri.Dsref.VersionInfo.{VersionInfo, Dataset, Commit}
use repo_4636_qri.Run.State.{State}
use repo_4636_qri.Oplog.Op.{Op}
use repo_4636_qri.Oplog.Log.{LogError, Log, entry}
use repo_4636_qri.Logbook.History.{
  run_id_rel_prefix, commit_op_run_id, first_run_id, joins_run, add_commit_details_to_run_item,
  version_info_from_op, run_item_from_op, branch_to_version_infos,
}
use repo_4636_qri.Logbook.History.Stack.{Versions, save, stack_op, stack_ops}
use repo_4636_qri.Logbook.History.Refines.{branch_to_version_infos-stack}
use repo_4636_qri.Logbook.Book.{Profile, Book, writable_branch, Storage}
use repo_4636_qri.Logbook.Book.{save as save_book}
use repo_4636_qri.Logbook.Book.Commits.{
  commit_of, version_save_op, transform_run_op, save_ops, write_version_save,
}
use repo_4636_qri.Logbook.Book.Commits.Saving.{write_version_save-appends}

stack_ops-append :
    (ref : Ref) (ops new : List Op) (vs : Versions)
    → stack_ops ref (ops ++ new) vs ≡ (stack_ops ref ops vs >>= stack_ops ref new)
unfolding stack_ops
stack_ops-append ref [] new vs = refl
stack_ops-append ref (op ∷ ops) new vs =
    next (stack_op ref op vs) (λ r. stack_ops-append ref ops new r)
  where
    next :
        (m : Outcome LogError Versions)
        → ((r : Versions)
            → stack_ops ref (ops ++ new) r ≡ (stack_ops ref ops r >>= stack_ops ref new))
        → (m >>= stack_ops ref (ops ++ new)) ≡ ((m >>= stack_ops ref ops) >>= stack_ops ref new)
    next (ok r) ih = ih r
    next (err e) ih = refl
    next panic ih = refl

listed-append :
    (ref : Ref) (ops new all : List Op) (vs : Versions)
    → all ≡ ops ++ new
    → branch_to_version_infos true ref ops ≡ ok vs
    → branch_to_version_infos true ref all ≡ stack_ops ref new vs
listed-append ref ops new all vs e h =
    ap (branch_to_version_infos true ref) e
    ∙ branch_to_version_infos-stack ref (ops ++ new)
    ∙ stack_ops-append ref ops new []
    ∙ ap (λ m. m >>= stack_ops ref new) (sym (branch_to_version_infos-stack ref ops) ∙ h)

first_run_id-prefix : (t : Text) (ts : List Text) → first_run_id ((run_id_rel_prefix ++ t) ∷ ts) ≡ t
unfolding first_run_id after_prefix
first_run_id-prefix t ts = refl

-- The relation that a save writes is read back as the id of the run.
commit_op_run_id-version_save_op :
    (ds : Dataset) (c : Commit)
    → is_empty c.run_id ≡ false
    → commit_op_run_id (version_save_op ds c) ≡ c.run_id
unfolding version_save_op commit_op_run_id
commit_op_run_id-version_save_op ds c h = ap relations_id h ∙ first_run_id-prefix c.run_id []
  where
    relations_id : Bool → Text
    relations_id b = first_run_id (if not b then (run_id_rel_prefix ++ c.run_id) ∷ [] else [])

commit_op_run_id-version_save_op_none :
    (ds : Dataset) (c : Commit)
    → is_empty c.run_id ≡ true
    → commit_op_run_id (version_save_op ds c) ≡ []
unfolding version_save_op commit_op_run_id first_run_id
commit_op_run_id-version_save_op_none ds c h = rw h refl

joins_run-same :
    (t : Text) (v : VersionInfo) → is_empty t ≡ false → v.run_id ≡ t → joins_run t (some v) ≡ true
unfolding joins_run is_empty
joins_run-same t v h e = rw (e, text_eq_refl t) (ground (arith, h))

save-joined :
    (ref : Ref) (op : Op) (v : VersionInfo) (vs : Versions)
    → joins_run (commit_op_run_id op) (some v) ≡ true
    → save ref op (v ∷ vs) ≡ add_commit_details_to_run_item v op ∷ vs
unfolding save
save-joined ref op v vs h = rw h refl

save_alone :
    (ref : Ref) (op : Op) (vs : Versions)
    → commit_op_run_id op ≡ []
    → save ref op vs ≡ version_info_from_op ref op ∷ vs
unfolding save joins_run is_empty
save_alone ref op [] h = refl
save_alone ref op (v ∷ vs) h = rw h refl

stack_ops-commit :
    (ref : Ref) (ds : Dataset) (c : Commit) (vs : Versions)
    → stack_ops ref (version_save_op ds c ∷ []) vs ≡ ok (save ref (version_save_op ds c) vs)
unfolding stack_ops stack_op version_save_op
stack_ops-commit ref ds c vs = refl

stack_ops-run :
    (ref : Ref) (r : State) (op : Op) (vs : Versions)
    → stack_ops ref (transform_run_op r ∷ op ∷ []) vs
      ≡ stack_ops ref (op ∷ []) (run_item_from_op ref (transform_run_op r) ∷ vs)
unfolding stack_ops stack_op transform_run_op
stack_ops-run ref r op vs = refl

save_ops-none :
    (ds : Dataset) (c : Commit)
    → ds.commit ≡ some c
    → save_ops ds none ≡ ok (version_save_op ds c ∷ [])
unfolding save_ops commit_of version_save_op
save_ops-none ds c h = rw h refl

save_ops-run :
    (ds : Dataset) (c : Commit) (r : State)
    → ds.commit ≡ some c
    → r.id ≡ c.run_id
    → save_ops ds (some r) ≡ ok (transform_run_op r ∷ version_save_op ds c ∷ [])
unfolding save_ops commit_of version_save_op
save_ops-run ds c r h e = rw (h, (text_eq_iff r.id c.run_id).1 e) refl

joins :
    (ds : Dataset) (c : Commit) (r : State) (ref : Ref)
    → r.id ≡ c.run_id
    → is_empty r.id ≡ false
    → joins_run
        (commit_op_run_id (version_save_op ds c))
        (some (run_item_from_op ref (transform_run_op r)))
      ≡ true
joins ds c r ref e n =
    ap (λ t. joins_run t (some (run_item_from_op ref (transform_run_op r))))
      (commit_op_run_id-version_save_op ds c (ap is_empty (sym e) ∙ n))
    ∙ joins_run-same c.run_id (run_item_from_op ref (transform_run_op r)) (ap is_empty (sym e) ∙ n)
        (unfold run_item_from_op transform_run_op in e)

module _ (hash : Op → Text) (st : Storage) where
  -- If the profile can write to the branch and books are stored, a save with a run whose id is not
  -- empty and is that of the commit adds one version to the list of versions, first: it has the path
  -- and the title of the save, and the id and the status of the run.
  pub write_version_save-lists_run :
      (author : Profile) (ds : Dataset) (c : Commit) (r : State) (book : Book) (blog : Log)
      (ref : Ref) (vs : Versions)
      → writable_branch hash ds.id author book.logs ≡ ok blog
      → ds.commit ≡ some c
      → r.id ≡ c.run_id
      → is_empty r.id ≡ false
      → ((b : Book) → (save_book st b).result ≡ ok tt)
      → branch_to_version_infos true ref (entry blog).ops ≡ ok vs
      → (blog' : Log) × (v : VersionInfo) × (writable_branch hash ds.id author
            (write_version_save hash st author ds (some r) book).book.logs
          ≡ ok blog')
        × (branch_to_version_infos true ref (entry blog').ops ≡ ok (v ∷ vs))
        × (v.path ≡ ds.path)
        × (v.commit_title ≡ c.title)
        × (v.run_id ≡ r.id)
        × (v.run_status ≡ r.status)
  write_version_save-lists_run author ds c r book blog ref vs h k e n stores listed =
      let op = version_save_op ds c in
      let item = run_item_from_op ref (transform_run_op r) in
      let (done, blog', found, grown, told) =
        write_version_save-appends hash st author ds (some r) book blog
          (transform_run_op r ∷ op ∷ []) h (save_ops-run ds c r k e) stores in
      (
        blog',
        add_commit_details_to_run_item item op,
        found,
        listed-append ref (entry blog).ops (transform_run_op r ∷ op ∷ []) (entry blog').ops vs grown
              listed
            ∙ stack_ops-run ref r op vs
            ∙ stack_ops-commit ref ds c (item ∷ vs)
            ∙ ap ok (save-joined ref op item vs (joins ds c r ref e n)),
        (unfold add_commit_details_to_run_item version_save_op in refl),
        (unfold add_commit_details_to_run_item version_save_op in refl),
        (unfold add_commit_details_to_run_item run_item_from_op transform_run_op in refl),
        (unfold add_commit_details_to_run_item run_item_from_op transform_run_op in refl),
      )

  -- The same for a save without a run, whose commit has no run id: the new version is that of the
  -- commit.
  pub write_version_save-lists :
      (author : Profile) (ds : Dataset) (c : Commit) (book : Book) (blog : Log) (ref : Ref)
      (vs : Versions)
      → writable_branch hash ds.id author book.logs ≡ ok blog
      → ds.commit ≡ some c
      → is_empty c.run_id ≡ true
      → ((b : Book) → (save_book st b).result ≡ ok tt)
      → branch_to_version_infos true ref (entry blog).ops ≡ ok vs
      → (blog' : Log) × (v : VersionInfo) × (writable_branch hash ds.id author
            (write_version_save hash st author ds none book).book.logs
          ≡ ok blog')
        × (branch_to_version_infos true ref (entry blog').ops ≡ ok (v ∷ vs))
        × (v.path ≡ ds.path)
        × (v.commit_title ≡ c.title)
        × (v.run_id ≡ [])
  write_version_save-lists author ds c book blog ref vs h k n stores listed =
      let op = version_save_op ds c in
      let (done, blog', found, grown, told) =
        write_version_save-appends hash st author ds none book blog (op ∷ []) h
          (save_ops-none ds c k) stores in
      (
        blog',
        version_info_from_op ref op,
        found,
        listed-append ref (entry blog).ops (op ∷ []) (entry blog').ops vs grown listed
            ∙ stack_ops-commit ref ds c vs
            ∙ ap ok (save_alone ref op vs (commit_op_run_id-version_save_op_none ds c n)),
        (unfold version_info_from_op version_save_op in refl),
        (unfold version_info_from_op version_save_op in refl),
        (unfold version_info_from_op in refl),
      )
