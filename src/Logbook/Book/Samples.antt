-- ===== src/Logbook/Book/Samples.antt =====
-- A small logbook for the theorems about `Book`: the user bob with one dataset, whose branch has no
-- version yet.
use repo_4636_qri.Prelude.{
  ◌≡◌, refl, true, false, some, none, [], ◌∷◌, Text, codes, text_eq, is_empty, ok,
}
use repo_4636_qri.Prelude.Int.{pos}
use repo_4636_qri.Dsref.Ref.{empty_ref}
use repo_4636_qri.Dsref.VersionInfo.{Commit, Dataset}
use repo_4636_qri.Run.State.{State}
use repo_4636_qri.Oplog.Op.{Op}
use repo_4636_qri.Oplog.Log.{
  Entry, Log, node, nil, cons, entry, entry_id, find, init_log, first_op, model, first_op_author_id,
  first_author,
}
use repo_4636_qri.Oplog.Journal.{get_author_id}
use repo_4636_qri.Logbook.History.{
  branch_to_version_infos, collapse_ops, collapse_op, finish_collapse,
}
use repo_4636_qri.Logbook.Book.{
  Profile, Book, user_log, only_branch, branch_log, has_write_access, writable_branch, Storage,
  save,
}
use repo_4636_qri.Logbook.Book.Commits.{commit_of, save_ops, version_save_op}
use repo_4636_qri.Logbook.Book.Datasets.{owner_op, dataset_init_op, branch_init_op}

-- Operations of one model and name get one id.
abbrev pub hash : Op → Text
hash o = o.model ∷ o.name

abbrev pub bob : Profile
bob = record { id = codes "QmB"; peername = codes "bob" }

abbrev pub eve : Profile
eve = record { id = codes "QmE"; peername = codes "eve" }

abbrev pub bob_id : Text
bob_id = hash (owner_op bob (pos 1))

abbrev pub branch : Log
branch = init_log (branch_init_op bob_id (pos 3))

abbrev pub entry_of : Op → Entry
entry_of o = record { name = []; author_id = []; parent_id = []; signature = []; ops = o ∷ [] }

abbrev pub bob_log : Log
bob_log =
    node (entry_of (owner_op bob (pos 1))) (
      cons (node (entry_of (dataset_init_op bob_id (codes "worms") (pos 2))) (cons branch nil)) nil)

abbrev pub book : Book
book = record { owner = bob; logs = cons bob_log nil; fs_location = []; published = [] }

abbrev pub stored : Storage
stored = record { cipher = λ logs. some []; put = λ location bytes. (codes "/mem/book", false) }

abbrev pub no_cipher : Storage
no_cipher = record { cipher = λ logs. none; put = λ location bytes. (location, true) }

abbrev pub commit : Commit
commit = record { timestamp = some (pos 9); title = codes "first"; message = []; run_id = [] }

abbrev pub run_commit : Commit
run_commit = record {
  timestamp = some (pos 9);
  title = codes "first";
  message = [];
  run_id = codes "r1";
}

abbrev pub dataset : Commit → Dataset
dataset c = record {
  id = 1 ∷ codes "worms";
  peername = codes "bob";
  profile_id = codes "QmB";
  name = codes "worms";
  path = codes "/mem/Qm1";
  previous_path = [];
  commit = some c;
  meta = none;
  structure = none;
}

abbrev pub run : State
run = record {
  id = codes "r1";
  workflow_id = codes "w";
  number = pos 1;
  status = codes "succeeded";
  message = [];
  start_time = some (pos 5);
  stop_time = some (pos 8);
  duration = pos 3;
  steps = [];
}

pub bob_writes : writable_branch hash (1 ∷ codes "worms") bob book.logs ≡ ok branch
unfolding writable_branch branch_log only_branch has_write_access user_log first_op find entry_id
    get_author_id model first_op_author_id first_author text_eq is_empty
bob_writes = refl

pub stores : (b : Book) → (save stored b).result ≡ ok tt
unfolding save
stores b = refl

pub no_versions : branch_to_version_infos true empty_ref (entry branch).ops ≡ ok []
unfolding branch_to_version_infos collapse_ops collapse_op finish_collapse
no_versions = refl

pub saves_commit :
    (c : Commit) → save_ops (dataset c) none ≡ ok (version_save_op (dataset c) c ∷ [])
unfolding save_ops commit_of
saves_commit c = refl
