-- ===== src/Dsref/VersionInfo.antt =====
-- The version record of dsref/version_info.go with its conversions, and the order that its lists are
-- sorted by. Times are nanoseconds; the zero time is `none`.
pub mod Order
pub mod Fields
use repo_4636_qri.Prelude.{
  ℕ, Bool, true, false, not, ◌||◌, Option, none, some, List, [], ◌∷◌, ◌++◌, Text, is_empty,
  text_ltb, text_eq, codes, if◌then◌else◌, ltb, Outcome, ok, err, panic, ◌>>=◌,
}
use repo_4636_qri.Prelude.Int.{ℤ, pos}
use repo_4636_qri.Prelude.Split.{join}
use repo_4636_qri.Dsref.Ref.{Ref}

pub record VersionInfo : Type 0 where
  pub init_id : Text
  pub username : Text
  pub profile_id : Text
  pub name : Text
  pub path : Text
  pub published : Bool
  pub foreign : Bool
  pub meta_title : Text
  pub theme_list : Text
  pub body_size : ℕ
  pub body_rows : ℕ
  pub body_format : Text
  pub num_errors : ℕ
  pub commit_time : Option ℤ
  pub commit_title : Text
  pub commit_message : Text
  pub workflow_id : Text
  pub workflow_trigger_description : Text
  pub run_id : Text
  pub run_status : Text
  pub run_duration : ℤ
  pub run_start : Option ℤ
  pub run_count : ℤ
  pub commit_count : ℤ
  pub download_count : ℤ
  pub follower_count : ℤ
  pub open_issue_count : ℤ

abbrev pub empty_version_info : VersionInfo
empty_version_info = record {
  init_id = [];
  username = [];
  profile_id = [];
  name = [];
  path = [];
  published = false;
  foreign = false;
  meta_title = [];
  theme_list = [];
  body_size = 0;
  body_rows = 0;
  body_format = [];
  num_errors = 0;
  commit_time = none;
  commit_title = [];
  commit_message = [];
  workflow_id = [];
  workflow_trigger_description = [];
  run_id = [];
  run_status = [];
  run_duration = pos 0;
  run_start = none;
  run_count = pos 0;
  commit_count = pos 0;
  download_count = pos 0;
  follower_count = pos 0;
  open_issue_count = pos 0;
}

unfoldable pub new_version_info_from_ref : Ref → VersionInfo
new_version_info_from_ref ref = record empty_version_info {
  init_id = ref.init_id;
  username = ref.username;
  profile_id = ref.profile_id;
  name = ref.name;
  path = ref.path;
}

unfoldable pub simple_ref : VersionInfo → Ref
simple_ref v = record {
  init_id = v.init_id;
  username = v.username;
  profile_id = v.profile_id;
  name = v.name;
  path = v.path;
}

unfoldable pub info_alias : VersionInfo → Text
unfolding is_empty
info_alias v = if not (is_empty v.name) then v.username ++ (b'/' ∷ v.name) else v.username

-- The parts of a dataset (of the module github.com/qri-io/dataset) that the conversions read and
-- write. A nil component is `none`; a commit's zero time is `none`.
pub record Commit : Type 0 where
  pub timestamp : Option ℤ
  pub title : Text
  pub message : Text
  pub run_id : Text

pub record Meta : Type 0 where
  pub title : Text
  pub theme : List Text

pub record Structure : Type 0 where
  pub format : Text
  pub length : ℕ
  pub entries : ℕ
  pub err_count : ℕ

pub record Dataset : Type 0 where
  pub id : Text
  pub peername : Text
  pub profile_id : Text
  pub name : Text
  pub path : Text
  pub previous_path : Text
  pub commit : Option Commit
  pub meta : Option Meta
  pub structure : Option Structure

abbrev with_commit : VersionInfo → Option Commit → VersionInfo
with_commit vi none = vi
with_commit vi (some c) = record vi {
  commit_time = c.timestamp;
  commit_title = c.title;
  commit_message = c.message;
  run_id = c.run_id;
}

-- `strings.Join` of a nil list is empty, as the field is.
abbrev with_meta : VersionInfo → Option Meta → VersionInfo
with_meta vi none = vi
with_meta vi (some m) = record vi { meta_title = m.title; theme_list = join b',' m.theme }

abbrev with_structure : VersionInfo → Option Structure → VersionInfo
with_structure vi none = vi
with_structure vi (some s) = record vi {
  body_format = s.format;
  body_size = s.length;
  body_rows = s.entries;
  num_errors = s.err_count;
}

unfoldable pub convert_dataset_to_version_info : Dataset → VersionInfo
unfolding join
convert_dataset_to_version_info ds =
    let vi = record empty_version_info {
      init_id = ds.id;
      username = ds.peername;
      profile_id = ds.profile_id;
      name = ds.name;
      path = ds.path;
    } in
    with_structure (with_meta (with_commit vi ds.commit) ds.meta) ds.structure

unfoldable pub convert_version_info_to_dataset : VersionInfo → Dataset
convert_version_info_to_dataset info = record {
  id = [];
  peername = info.username;
  profile_id = info.profile_id;
  name = info.name;
  path = info.path;
  previous_path = [];
  commit = some (record {
    timestamp = info.commit_time;
    title = info.commit_title;
    message = info.commit_message;
    run_id = info.run_id;
  });
  meta = some (record { title = info.meta_title; theme = [] });
  structure = some (record {
    format = info.body_format;
    length = info.body_size;
    entries = info.body_rows;
    err_count = info.num_errors;
  });
}

-- A sorting key: the closures of `newLessFunc`.
pub data LessFunc : Type 0 where
  by_name by_size : LessFunc

pub data SortError : Type 0 where
  unrecognized_key : Text → SortError

unfoldable pub new_less_func : Text → Outcome SortError LessFunc
new_less_func key =
    if text_eq key (codes "name")
    then ok by_name
    else if text_eq key (codes "size")
    then ok by_size
    else err (unrecognized_key key)

unfoldable pub less : LessFunc → VersionInfo → VersionInfo → Bool
less by_name a b = text_ltb a.username b.username || text_ltb a.name b.name
less by_size a b = ltb a.body_size b.body_size

unfoldable pub new_version_info_aggregator : List Text → Outcome SortError (List LessFunc)
unfolding new_less_func
new_version_info_aggregator [] = ok []
new_version_info_aggregator (o ∷ os) = do
  f ← new_less_func o
  fs ← new_version_info_aggregator os
  ok (f ∷ fs)

-- `Less` of the aggregator: `agg.less[k]` of an aggregator without keys is out of range.
unfoldable pub less_by : List LessFunc → VersionInfo → VersionInfo → Outcome SortError Bool
unfolding less
less_by [] p q = panic
less_by (f ∷ []) p q = ok (less f p q)
less_by (f ∷ g ∷ fs) p q =
    let rest = less_by (g ∷ fs) p q in
    if less f p q then ok true else if less f q p then ok false else rest
