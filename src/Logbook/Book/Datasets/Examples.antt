-- ===== src/Logbook/Book/Datasets/Examples.antt =====
-- A new dataset in a small logbook, and the count of the commits of a branch.
use repo_4636_qri.Prelude.{
  ◌≡◌, refl, true, false, some, [], ◌∷◌, Text, codes, text_eq, is_empty, ok, err,
}
use repo_4636_qri.Prelude.Int.{pos}
use repo_4636_qri.Dsref.Ref.{empty_ref}
use repo_4636_qri.Dsref.VersionInfo.{VersionInfo}
use repo_4636_qri.Dsref.Scan.{is_valid_name, is_alpha_numeric, all_in, is_letter, is_word}
use repo_4636_qri.Oplog.Op.{Op, op_type_init, op_type_remove}
use repo_4636_qri.Oplog.Log.{
  Entry, Log, not_found, node, nil, cons, entry_id, find, id, name, removed, model, first_op,
  first_op_author_id, first_author, last_name, add_child, add_to,
}
use repo_4636_qri.Oplog.Journal.{head_ref_in}
use repo_4636_qri.Logbook.Models.{commit_model, run_model}
use repo_4636_qri.Logbook.History.{
  branch_to_version_infos, collapse_ops, collapse_op, collapse_commit, commit_init, last_of,
  cut_last, version_info_from_op, finish_collapse,
}
use repo_4636_qri.Logbook.Book.{Profile, Book, Storage, save, blank_op, writable_branch}
use repo_4636_qri.Logbook.Book.Commits.{commit_count}
use repo_4636_qri.Logbook.Book.Commits.Counting.{commit_count-length}
use repo_4636_qri.Logbook.Book.Reads.{path_op, path_ops}
use repo_4636_qri.Logbook.Book.Reads.Paths.{path_ops-paths_of}
use repo_4636_qri.Logbook.Book.Datasets.{
  owner_op, new_dataset_log, ref_to_init_id, write_dataset_init,
}
use repo_4636_qri.Logbook.Book.Datasets.Naming.{IsFirstUser}
use repo_4636_qri.Logbook.Book.Datasets.Creating.{write_dataset_init-writable}

abbrev hash : Op → Text
hash o = o.model ∷ o.name

abbrev bob : Profile
bob = record { id = codes "QmB"; peername = codes "bob" }

abbrev bob_entry : Entry
bob_entry = record {
  name = [];
  author_id = [];
  parent_id = [];
  signature = [];
  ops = owner_op bob (pos 1) ∷ [];
}

abbrev empty_book : Book
empty_book = record { owner = bob; logs = nil; fs_location = []; published = [] }

abbrev book_of_bob : Book
book_of_bob = record empty_book { logs = cons (node bob_entry nil) nil }

abbrev stored : Storage
stored = record { cipher = λ logs. some []; put = λ location bytes. (codes "/mem/book", false) }

stores : (b : Book) → (save stored b).result ≡ ok tt
unfolding save
stores b = refl

worms_valid : is_valid_name (codes "worms") ≡ true
unfolding is_valid_name is_alpha_numeric all_in is_letter is_word
worms_valid = refl

bob_first : IsFirstUser bob bob_entry
unfolding model first_op first_op_author_id first_author name last_name removed is_empty
bob_first = record { is_user = refl; authored = refl; named = refl; present = refl }

no_worms : head_ref_in (codes "worms") [] nil ≡ err not_found
unfolding head_ref_in
no_worms = refl

abbrev init_id : Text
init_id = id hash (new_dataset_log hash (entry_id hash bob_entry) (codes "worms") (pos 2) (pos 3))

new_id : find hash init_id (node bob_entry nil) ≡ err not_found
unfolding find entry_id add_child add_to text_eq
new_id = refl

write_dataset_init-writable_example :
    ((write_dataset_init hash stored bob (codes "worms") (pos 2) (pos 3) book_of_bob).result
      ≡ ok init_id)
    × (ref_to_init_id hash
          (record empty_ref { username = codes "bob"; name = codes "worms" })
          (write_dataset_init hash stored bob (codes "worms") (pos 2) (pos 3) book_of_bob).book.logs
        ≡ ok init_id)
    × (blog : Log) × (writable_branch hash init_id bob
          (write_dataset_init hash stored bob (codes "worms") (pos 2) (pos 3) book_of_bob).book.logs
        ≡ ok blog)
write_dataset_init-writable_example =
    write_dataset_init-writable hash stored bob (codes "worms") (pos 2) (pos 3) empty_book bob_entry
      nil nil worms_valid bob_first no_worms new_id stores

abbrev save_op : Op
save_op = record (blank_op op_type_init commit_model) { ref = codes "/a" }

abbrev version : VersionInfo
version = version_info_from_op empty_ref save_op

one_version : branch_to_version_infos true empty_ref (save_op ∷ []) ≡ ok (version ∷ [])
unfolding branch_to_version_infos collapse_ops collapse_op collapse_commit commit_init last_of
    finish_collapse
one_version = refl

commit_count-length_example : commit_count (pos 0) (save_op ∷ []) ≡ pos 1
commit_count-length_example =
    commit_count-length empty_ref (save_op ∷ []) (version ∷ []) (refl, tt) one_version

path_ops-paths_of_example : path_ops (save_op ∷ []) [] ≡ ok (codes "/a" ∷ [])
unfolding version_info_from_op
path_ops-paths_of_example =
    path_ops-paths_of empty_ref (save_op ∷ []) (version ∷ []) (refl, tt) one_version

-- A delete after a run without a save: the list keeps the version, the paths do not.
abbrev run_op : Op
run_op = record (blank_op op_type_init run_model) { ref = codes "r1" }

abbrev delete_op : Op
delete_op = record (blank_op op_type_remove commit_model) { size = 1 }

run_is_cut :
    branch_to_version_infos true empty_ref (save_op ∷ run_op ∷ delete_op ∷ []) ≡ ok (version ∷ [])
unfolding branch_to_version_infos collapse_ops collapse_op collapse_commit commit_init last_of
    cut_last finish_collapse
run_is_cut = refl

path_is_cut : path_ops (save_op ∷ run_op ∷ delete_op ∷ []) [] ≡ ok []
unfolding path_ops path_op
path_is_cut = refl
