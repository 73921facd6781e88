-- ===== src/Oplog/Examples.antt =====
-- Concrete logs for the theorems about logbook/oplog/log.go.
use repo_4636_qri.Prelude.{◌≡◌, ◌≢◌, refl, List, [], ◌∷◌, Text, codes, ok, inl, is_empty, arith}
use repo_4636_qri.Prelude.Int.{pos}
use repo_4636_qri.Oplog.Op.{Op, op_type_init, op_type_amend}
use repo_4636_qri.Oplog.Log.{
  Entry, Log, Logs, node, nil, cons, id, entry_id, merge, name, author, append, model, first_op,
  last_name, last_author, entry,
}
use repo_4636_qri.Oplog.Log.Holds.{IsWellFormed, started, no_logs, and_logs, Merged}
use repo_4636_qri.Oplog.Log.Merge.{merge-Merged}
use repo_4636_qri.Oplog.Log.Names.{IsCached, append-IsCached}
use repo_4636_qri.Oplog.Journal.{merge_log}
use repo_4636_qri.Oplog.Journal.Merging.{MergedIn, merge_log-MergedIn}
use repo_4636_qri.Oplog.Samples.{sample_hash, sample_hash-no_collision}

abbrev begin : Text → Op
begin t = record {
  type = op_type_init;
  model = 0;
  ref = [];
  prev = [];
  relations = [];
  name = t;
  author_id = codes "QmA";
  timestamp = pos 3;
  size = 0;
  note = [];
}

abbrev rename : Op
rename = record (begin (codes "new")) { type = op_type_amend; author_id = [] }

abbrev tree : List Op → Logs → Log
tree ops kids =
    node (record { name = []; author_id = []; parent_id = []; signature = []; ops = ops }) kids

-- The same user log on two machines: one has a further operation, the other a further child.
abbrev here : Log
here = tree (begin (codes "bob") ∷ []) (cons (tree (begin (codes "a") ∷ []) nil) nil)

abbrev there : Log
there = tree (begin (codes "bob") ∷ rename ∷ []) (cons (tree (begin (codes "b") ∷ []) nil) nil)

leaf-IsWellFormed : (t : Text) → IsWellFormed (tree (begin t ∷ []) nil)
leaf-IsWellFormed t =
    started (record { first = begin t; rest = []; begins = refl; unrelated = refl }) no_logs

here-IsWellFormed : IsWellFormed here
here-IsWellFormed =
    started (record { first = begin (codes "bob"); rest = []; begins = refl; unrelated = refl })
      (and_logs (leaf-IsWellFormed (codes "a")) no_logs)

there-IsWellFormed : IsWellFormed there
there-IsWellFormed =
    started
      (record { first = begin (codes "bob"); rest = rename ∷ []; begins = refl; unrelated = refl })
      (and_logs (leaf-IsWellFormed (codes "b")) no_logs)

same_id : id sample_hash there ≡ id sample_hash here
unfolding entry_id
same_id = refl

has_id : id sample_hash there ≢ []
unfolding entry_id
has_id h = ground arith

merge-Merged_example :
    (r : Log) × (merge sample_hash there here ≡ ok r) × Merged sample_hash there here r
merge-Merged_example =
    merge-Merged sample_hash sample_hash-no_collision there here there-IsWellFormed
      here-IsWellFormed same_id

merge_log-MergedIn_example :
    (r : Logs) × (merge_log sample_hash there (cons here nil) ≡ ok r)
    × MergedIn sample_hash there (cons here nil) r
merge_log-MergedIn_example =
    merge_log-MergedIn sample_hash sample_hash-no_collision there (cons here nil) there-IsWellFormed
      (and_logs here-IsWellFormed no_logs) has_id ((λ e. same_id), tt)

abbrev bob_cached : IsCached (entry here)
bob_cached = record {
  first = begin (codes "bob");
  rest = [];
  begins = refl;
  name_fits = inl refl;
  author_fits = inl refl;
}

bob_name : name (entry here) ≡ ok (codes "bob")
unfolding name model first_op last_name is_empty
bob_name = refl

bob_author : author (entry here) ≡ ok (codes "QmA")
unfolding author model first_op last_author is_empty
bob_author = refl

append-IsCached_example :
    (e' : Entry) × (append rename (entry here) ≡ ok e')
    × IsCached e'
    × (e'.ops ≡ begin (codes "bob") ∷ rename ∷ [])
    × (name e' ≡ ok (codes "new"))
    × (author e' ≡ ok (codes "QmA"))
unfolding is_empty
append-IsCached_example =
    append-IsCached rename (entry here) (codes "bob") (codes "QmA") bob_cached bob_name bob_author
