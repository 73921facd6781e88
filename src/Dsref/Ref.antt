-- ===== src/Dsref/Ref.antt =====
-- The reference record and its methods (dsref/ref.go).
use repo_4636_qri.Prelude.{
  Bool, not, ◌&&◌, ◌||◌, [], ◌∷◌, ◌++◌, Text, codes, text_eq, is_empty, if◌then◌else◌,
}

pub record Ref : Type 0 where
  pub init_id : Text
  pub username : Text
  pub profile_id : Text
  pub name : Text
  pub path : Text

abbrev pub empty_ref : Ref
empty_ref = record { init_id = []; username = []; profile_id = []; name = []; path = [] }

-- `s += x if x != ""`
abbrev add_if : Text → Text → Text
add_if s x = if not (is_empty x) then s ++ x else s

unfoldable pub human : Ref → Text
unfolding is_empty
human r = if not (is_empty r.name) then r.username ++ (b'/' ∷ r.name) else r.username

unfoldable pub alias : Ref → Text
unfolding human
alias r = human r

unfoldable pub string : Ref → Text
unfolding alias
string r =
    let s = alias r in
    let at = if not (is_empty r.init_id) || not (is_empty r.path) then s ++ codes "@" else s in
    add_if (add_if at r.init_id) r.path

unfoldable pub legacy_profile_id_string : Ref → Text
unfolding alias
legacy_profile_id_string r =
    let s = alias r in
    let at = if not (is_empty r.init_id) || not (is_empty r.path) then s ++ codes "@" else s in
    add_if (add_if at r.profile_id) r.path

unfoldable pub ref_is_empty : Ref → Bool
unfolding is_empty
ref_is_empty r =
    is_empty r.init_id
    && (is_empty r.username && (is_empty r.profile_id && (is_empty r.name && is_empty r.path)))

unfoldable pub is_peer_ref : Ref → Bool
unfolding is_empty
is_peer_ref r =
    (not (is_empty r.username) || not (is_empty r.profile_id))
    && (is_empty r.name && (is_empty r.path && is_empty r.init_id))

unfoldable pub complete : Ref → Bool
unfolding is_empty
complete r =
    not (is_empty r.init_id)
    && (not (is_empty r.username)
        && (not (is_empty r.profile_id) && (not (is_empty r.name) && not (is_empty r.path))))

unfoldable pub equals : Ref → Ref → Bool
equals r t =
    text_eq r.init_id t.init_id
    && (text_eq r.username t.username
        && (text_eq r.profile_id t.profile_id && (text_eq r.name t.name && text_eq r.path t.path)))

unfoldable pub copy : Ref → Ref
copy r = record {
  init_id = r.init_id;
  username = r.username;
  profile_id = r.profile_id;
  name = r.name;
  path = r.path;
}
