-- ===== src/Logbook/Book/Entries.antt =====
-- Log entries and plain forms of the logs (logbook/logbook.go).
use repo_4636_qri.Prelude.{
  ℕ, zero, suc, not, ◌&&◌, List, [], ◌∷◌, ◌++◌, Text, codes, is_empty, if◌then◌else◌, ◌==◌, length,
  map, Outcome, ok, panic, ◌>>=◌,
}
use repo_4636_qri.Prelude.Int.{ℤ, pos, ltb_ℤ, int_eq, ◌-ℤ◌}
use repo_4636_qri.Dsref.Ref.{Ref}
use repo_4636_qri.Oplog.Op.{Op, OpType, op_type_init, op_type_amend, op_type_remove}
use repo_4636_qri.Oplog.Log.{Log, Logs, node, nil, cons, entry, author}
use repo_4636_qri.Logbook.Models.{
  user_model, dataset_model, branch_model, commit_model, push_model, run_model, acl_model,
}
use repo_4636_qri.Logbook.Book.{BookError}
use repo_4636_qri.Logbook.Book.Datasets.{branch_ref}
use repo_4636_qri.Logbook.Book.Reads.{list_all_logs}

pub record LogEntry : Type 0 where
  pub timestamp : ℤ
  pub author : Text
  pub action : Text
  pub note : Text

-- `actionStrings`: a model that is missing has three empty texts.
unfoldable pub action_strings : ℕ → List Text
action_strings m =
    if m == user_model
    then codes "create profile" ∷ codes "update profile" ∷ codes "delete profile" ∷ []
    else if m == dataset_model
    then codes "init dataset" ∷ codes "rename dataset" ∷ codes "delete dataset" ∷ []
    else if m == branch_model
    then codes "init branch" ∷ codes "rename branch" ∷ codes "delete branch" ∷ []
    else if m == commit_model
    then codes "save commit" ∷ codes "amend commit" ∷ codes "remove commit" ∷ []
    else if m == push_model
    then codes "publish" ∷ [] ∷ codes "unpublish" ∷ []
    else if m == acl_model
    then codes "update access" ∷ codes "update access" ∷ codes "remove all access" ∷ []
    else [] ∷ [] ∷ [] ∷ []

-- The element at `t - 1`; a type out of 1, 2, 3 is out of range.
abbrev action_at : OpType → List Text → Outcome BookError Text
action_at zero as' = panic
action_at (suc t) [] = panic
action_at (suc zero) (a ∷ as') = ok a
action_at (suc (suc t)) (a ∷ as') = action_at (suc t) as'

unfoldable pub log_entry_from_op : Text → Op → Outcome BookError LogEntry
unfolding action_strings is_empty
log_entry_from_op author op = do
  action ← action_at op.type (action_strings op.model)
  ok (record {
    timestamp = op.timestamp;
    author = author;
    action = action;
    note = if is_empty op.note && not (is_empty op.name) then op.name else op.note;
  })

-- The loop of `LogEntries`; it ends when the length of the result is the limit.
unfoldable pub collect_entries :
    Text → ℤ → ℤ → List Op → List LogEntry → Outcome BookError (List LogEntry)
unfolding log_entry_from_op int_eq ◌-ℤ◌
collect_entries author offset limit [] res = ok res
collect_entries author offset limit (op ∷ ops) res =
    let skipped = collect_entries author (offset -ℤ pos 1) limit ops res in
    let taken = log_entry_from_op author op >>= λ e.
    let res' = res ++ e ∷ [] in
    let rest = collect_entries author offset limit ops res' in
    if int_eq (pos (length res')) limit then ok res' else rest in
    if ltb_ℤ (pos 0) offset then skipped else taken

unfoldable pub log_entries : Ref → ℤ → ℤ → Logs → Outcome BookError (List LogEntry)
unfolding branch_ref collect_entries
log_entries ref offset limit logs = do
  l ← branch_ref ref logs
  collect_entries ref.username offset limit (entry l).ops []

unfoldable pub model_string : ℕ → Text
model_string m =
    if m == user_model
    then codes "user"
    else if m == dataset_model
    then codes "dataset"
    else if m == branch_model
    then codes "branch"
    else if m == commit_model
    then codes "commit"
    else if m == push_model
    then codes "push"
    else if m == run_model
    then codes "run"
    else if m == acl_model
    then codes "acl"
    else []

unfoldable pub op_type_string : OpType → Text
op_type_string t =
    if t == op_type_init
    then codes "init"
    else if t == op_type_amend
    then codes "amend"
    else if t == op_type_remove
    then codes "remove"
    else []

pub record PlainOp : Type 0 where
  pub type : Text
  pub model : Text
  pub ref : Text
  pub prev : Text
  pub relations : List Text
  pub name : Text
  pub author_id : Text
  pub timestamp : ℤ
  pub size : ℕ
  pub note : Text

unfoldable pub new_plain_op : Op → PlainOp
unfolding op_type_string model_string
new_plain_op op = record {
  type = op_type_string op.type;
  model = model_string op.model;
  ref = op.ref;
  prev = op.prev;
  relations = op.relations;
  name = op.name;
  author_id = op.author_id;
  timestamp = op.timestamp;
  size = op.size;
  note = op.note;
}

mutual
  pub data PlainLog : Type 0 where
    plain : List PlainOp → PlainLogs → PlainLog

  pub data PlainLogs : Type 0 where
    no_plain : PlainLogs
    and_plain : PlainLog → PlainLogs → PlainLogs

unfoldable mutual
  unfolding new_plain_op

  pub new_plain_log : Log → PlainLog
  new_plain_log (node e kids) = plain (map new_plain_op e.ops) (new_plain_logs kids)

  pub new_plain_logs : Logs → PlainLogs
  new_plain_logs nil = no_plain
  new_plain_logs (cons l ls) = and_plain (new_plain_log l) (new_plain_logs ls)

unfoldable pub plain_logs : Logs → Outcome BookError PlainLogs
unfolding list_all_logs new_plain_logs
plain_logs logs = do raw ← list_all_logs logs; ok (new_plain_logs raw)
