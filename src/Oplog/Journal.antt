-- ===== src/Oplog/Journal.antt =====
-- `Journal` of logbook/oplog/log.go: the top level logs of one author's store. Where the source
-- changes a log through the pointer that a lookup returned, the tree is rebuilt with that log changed.
pub mod Changing
pub mod Authors
pub mod Merging
use repo_4636_qri.Prelude.{
  ℕ, Bool, true, false, not, Option, none, some, List, [], ◌∷◌, Text, text_eq, is_empty,
  if◌then◌else◌, ◌==◌, Outcome, ok, err, panic, ◌>>=◌,
}
use repo_4636_qri.Prelude.Int.{ℤ, pos, negsuc, int_eq}
use repo_4636_qri.Oplog.Op.{Op}
use repo_4636_qri.Oplog.Log.{
  LogError, not_found, name_required, empty_id, subsets_not_finished, Entry, Log, Logs, node, nil,
  cons, entry, children, entry_id, id, find, find_in, merge, model, name, removed,
  first_op_author_id,
}

abbrev and_rest : Logs → Outcome LogError Log → Outcome LogError Logs
and_rest ls r = r >>= λ l. ok (cons l ls)

abbrev and_first : Log → Outcome LogError Logs → Outcome LogError Logs
and_first l r = r >>= λ ls. ok (cons l ls)

-- `HeadRef` of a log, and its loop over the children, with the names that are left.
unfoldable mutual
  unfolding name removed

  pub head_ref : List Text → Log → Outcome LogError Log
  head_ref [] l = ok l
  head_ref (n ∷ ns) (node e kids) = head_ref_in n ns kids

  pub head_ref_in : Text → List Text → Logs → Outcome LogError Log
  head_ref_in n ns nil = err not_found
  head_ref_in n ns (cons l ls) =
      let here = head_ref ns l in
      let later = head_ref_in n ns ls in
      name (entry l) >>= λ ln.
      if text_eq ln n
      then (removed (entry l) >>= λ gone. if not gone then here else later)
      else later

-- The same walk, with a change made to the log that it ends at.
unfoldable mutual
  unfolding name removed

  pub change_ref : (Log → Outcome LogError Log) → List Text → Log → Outcome LogError Log
  change_ref f [] l = f l
  change_ref f (n ∷ ns) (node e kids) = change_ref_in f n ns kids >>= λ ks. ok (node e ks)

  pub change_ref_in : (Log → Outcome LogError Log) → Text → List Text → Logs → Outcome LogError Logs
  change_ref_in f n ns nil = err not_found
  change_ref_in f n ns (cons l ls) =
      let here = and_rest ls (change_ref f ns l) in
      let later = and_first l (change_ref_in f n ns ls) in
      name (entry l) >>= λ ln.
      if text_eq ln n
      then (removed (entry l) >>= λ gone. if not gone then here else later)
      else later

-- `Journal.HeadRef`
unfoldable pub journal_head_ref : List Text → Logs → Outcome LogError Log
unfolding head_ref
journal_head_ref [] logs = err name_required
journal_head_ref (n ∷ ns) logs = head_ref_in n ns logs

-- The loops of `RemoveLog`: the first log with the name is dropped.
unfoldable pub drop_named : Text → Logs → Outcome LogError Logs
unfolding name
drop_named n nil = err not_found
drop_named n (cons l ls) =
    let later = and_first l (drop_named n ls) in
    name (entry l) >>= λ ln. if text_eq ln n then ok ls else later

abbrev drop_child : Text → Log → Outcome LogError Log
drop_child n (node e kids) = drop_named n kids >>= λ ks. ok (node e ks)

-- `names[len(names)-1]` and `names[:len(names)-1]`
abbrev pub last_of : Text → List Text → Text
last_of n [] = n
last_of n (m ∷ ms) = last_of m ms

abbrev pub front_of : Text → List Text → List Text
front_of n [] = []
front_of n (m ∷ ms) = n ∷ front_of m ms

unfoldable pub remove_log : List Text → Logs → Outcome LogError Logs
unfolding drop_named change_ref
remove_log [] logs = err name_required
remove_log (n ∷ ns) logs = elim (front_of n ns) [
  | [] ↦ drop_named (last_of n ns) logs
  | p ∷ ps ↦ change_ref_in (drop_child (last_of n ns)) p ps logs
]

unfoldable pub get_author_id : ℕ → Text → Logs → Outcome LogError Log
unfolding model first_op_author_id
get_author_id m a nil = err not_found
get_author_id m a (cons l ls) =
    let later = get_author_id m a ls in
    model (entry l) >>= λ lm.
    if lm == m
    then (first_op_author_id (entry l) >>= λ la. if text_eq la a then ok l else later)
    else later

-- The same walk, with a change made to the log that it finds.
unfoldable pub change_author :
    (Log → Outcome LogError Log) → ℕ → Text → Logs → Outcome LogError Logs
unfolding model first_op_author_id
change_author f m a nil = err not_found
change_author f m a (cons l ls) =
    let here = and_rest ls (f l) in
    let later = and_first l (change_author f m a ls) in
    model (entry l) >>= λ lm.
    if lm == m
    then (first_op_author_id (entry l) >>= λ la. if text_eq la a then here else later)
    else later

-- `Journal.Logs`
unfoldable pub logs_page : ℤ → ℤ → Logs → Outcome LogError Logs
unfolding int_eq
logs_page offset limit logs =
    if int_eq offset (pos 0)
    then (if int_eq limit (negsuc 0) then ok logs else err subsets_not_finished)
    else err subsets_not_finished

abbrev pub replace_all : Log → Logs → Logs
replace_all l logs = cons l nil

module _ (hash : Op → Text) where
  -- `Journal.Get`
  abbrev pub get : Text → Logs → Outcome LogError Log
  get i logs = find_in hash i logs

  -- `Descendants`, which `Children` calls: the children of the stored log are given to `l`.
  unfoldable pub descendants : Log → Logs → Outcome LogError Log
  unfolding find
  descendants l logs = do got ← get (id hash l) logs; ok (node (entry l) (children got))

  -- The walk of `Log.Log`, with a change made to the log that it finds.
  unfoldable mutual
    unfolding entry_id

    pub change : (Log → Outcome LogError Log) → Text → Log → Outcome LogError Log
    change f i (node e kids) =
        let below = change_in f i kids >>= λ ks. ok (node e ks) in
        if text_eq (entry_id hash e) i then f (node e kids) else below

    pub change_in : (Log → Outcome LogError Log) → Text → Logs → Outcome LogError Logs
    change_in f i nil = err not_found
    change_in f i (cons l ls) =
        let rest = and_first l (change_in f i ls) in
        elim (find hash i l) [ ok got ↦ and_rest ls (change f i l) | err e ↦ rest | panic ↦ panic ]

  -- The second loop of `MergeLog`, which looks for a log with the same first author.
  unfoldable pub merge_by_author : Log → Logs → Outcome LogError Logs
  unfolding first_op_author_id
  merge_by_author incoming nil = ok (cons incoming nil)
  merge_by_author incoming (cons lg ls) =
      let later = and_first lg (merge_by_author incoming ls) in
      first_op_author_id (entry lg) >>= λ a. first_op_author_id (entry incoming) >>= λ b.
      if text_eq a b then and_rest ls (merge hash incoming lg) else later

  -- `Journal.MergeLog`
  unfoldable pub merge_log : Log → Logs → Outcome LogError Logs
  unfolding entry_id find is_empty change merge_by_author
  merge_log incoming logs =
      if is_empty (id hash incoming) then err empty_id else elim (get (id hash incoming) logs) [
        | ok found ↦ change_in (merge hash incoming) (id hash incoming) logs
        | err not_found ↦ merge_by_author incoming logs
        | err e ↦ err e
        | panic ↦ panic
      ]
