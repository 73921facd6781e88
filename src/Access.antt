-- ===== src/Access.antt =====
-- Access control policies (remote/access/access.go): resources, actions, rules and their enforcement.
-- `Resource` and `Action` are both lists of names, parsed from text separated by ":".
pub mod Parse
pub mod Matching
pub mod Enforce
mod Examples
use repo_4636_qri.Prelude.{
  ℕ, Bool, true, false, not, ◌&&◌, ◌||◌, List, [], ◌∷◌, ◌++◌, Text, codes, text_eq, is_empty,
  if◌then◌else◌, ◌==◌, ltb, length,
}
use repo_4636_qri.Prelude.Split.{split, join}
use repo_4636_qri.Dsref.Ref.{Ref}

abbrev pub match_all : Text
match_all = codes "*"

abbrev pub match_subject : Text
match_subject = codes "_subject"

-- ErrAccessDenied and the errors of the two parsers.
pub data AccessError : Type 0 where
  access_denied empty_text star_twice star_not_last : AccessError

pub data Result {ℓ} (A : Type ℓ) : Type ℓ where
  ok : A → Result A
  err : AccessError → Result A

abbrev pub Resource : Type 0
Resource = List Text

abbrev pub Action : Type 0
Action = List Text

-- The loop over the names, with the flag `foundStar`.
star_loop : Bool → List Text → Result (Unit {0})
star_loop found [] = ok tt
star_loop found (name ∷ names) =
    let rest = star_loop true names in
    let plain = star_loop false names in
    if text_eq name match_all
    then (if found then err star_twice else rest)
    else (if found then err star_not_last else plain)

abbrev parsed : List Text → Result (Unit {0}) → Result (List Text)
parsed names (ok u) = ok names
parsed names (err e) = err e

pub parse_resource : Text → Result Resource
unfolding split star_loop is_empty
parse_resource str =
    if is_empty str
    then err empty_text
    else parsed (split b':' str) (star_loop false (split b':' str))

pub parse_action : Text → Result Action
unfolding split star_loop is_empty
parse_action str =
    if is_empty str
    then err empty_text
    else parsed (split b':' str) (star_loop false (split b':' str))

-- The loop of `Resource.Contains`; `same` is its last line, `len(r) == len(b)`. The guard before the
-- loop makes `b` at least as long as `r`, so the clause for a `b` that ended is not reached.
resource_loop : Text → Bool → Resource → Resource → Bool
resource_loop user same [] b = same
resource_loop user same (name ∷ r) [] = false
resource_loop user same (name ∷ r) (x ∷ b) =
    let rest = resource_loop user same r b in
    if text_eq name match_all
    then true
    else if text_eq name match_subject && text_eq x user
    then rest
    else if not (text_eq x name)
    then false
    else rest

pub resource_contains : Resource → Resource → Text → Bool
unfolding resource_loop
resource_contains r b user =
    if ltb (length b) (length r) then false else resource_loop user (length r == length b) r b

action_loop : Bool → Action → Action → Bool
action_loop same [] b = same
action_loop same (name ∷ a) [] = false
action_loop same (name ∷ a) (x ∷ b) =
    let rest = action_loop same a b in
    if text_eq name match_all then true else if not (text_eq x name) then false else rest

pub action_contains : Action → Action → Bool
unfolding action_loop
action_contains a b =
    if ltb (length b) (length a) then false else action_loop (length a == length b) a b

pub resources_contain : List Resource → Resource → Text → Bool
resources_contain [] b user = false
resources_contain (r ∷ rs) b user =
    let rest = resources_contain rs b user in if resource_contains r b user then true else rest

pub actions_contain : List Action → Action → Bool
actions_contain [] b = false
actions_contain (a ∷ acts) b =
    let rest = actions_contain acts b in if action_contains a b then true else rest

-- `Effect` is a string in the source; `other` is any value but "allow" and "deny".
pub data Effect : Type 0 where
  allow deny other : Effect

pub record Rule : Type 0 where
  pub title : Text
  pub subject : Text
  pub resources : List Resource
  pub actions : List Action
  pub effect : Effect

-- The parts of a profile that a policy reads: the encoded id and the username.
pub record Subject : Type 0 where
  pub id : Text
  pub peername : Text

pub data RuleError : Type 0 where
  no_subject bad_effect no_resources no_actions : RuleError

abbrev is_none {ℓ} : {A : Type ℓ} → List A → Bool
is_none [] = true
is_none (x ∷ xs) = false

abbrev pub is_allow : Effect → Bool
is_allow allow = true
is_allow _ = false

abbrev is_deny : Effect → Bool
is_deny deny = true
is_deny _ = false

-- `Rule.Validate`: the list holds the one error, if there is any.
pub validate : Rule → List RuleError
unfolding is_empty
validate r =
    if is_empty r.subject
    then no_subject ∷ []
    else if not (is_allow r.effect) && not (is_deny r.effect)
    then bad_effect ∷ []
    else if is_none r.resources
    then no_resources ∷ []
    else if is_none r.actions
    then no_actions ∷ []
    else []

-- The condition of the `if` in the loop of `Enforce`.
pub rule_grants : Subject → Resource → Action → Rule → Bool
rule_grants s rsc act r =
    is_allow r.effect
    && ((text_eq r.subject s.id || text_eq r.subject match_all)
        && (resources_contain r.resources rsc s.peername && actions_contain r.actions act))

enforce_loop : Subject → Resource → Action → List Rule → Result (Unit {0})
enforce_loop s rsc act [] = err access_denied
enforce_loop s rsc act (r ∷ rs) =
    let rest = enforce_loop s rsc act rs in if rule_grants s rsc act r then ok tt else rest

infixl 5 ◌>>=◌
abbrev pub ◌>>=◌ {ℓ κ} : {A : Type ℓ} {B : Type κ} → Result A → (A → Result B) → Result B
ok a >>= f = f a
err e >>= f = err e

pub enforce : List Rule → Subject → Text → Text → Result (Unit {0})
unfolding enforce_loop rule_grants resources_contain resource_contains actions_contain
    action_contains parse_resource parse_action
enforce pol s resource action = do
  rsc ← parse_resource resource
  act ← parse_action action
  enforce_loop s rsc act pol

-- `ResourceStrFromRef`
pub resource_str_from_ref : Ref → Text
unfolding join
resource_str_from_ref ref = join b':' (codes "dataset" ∷ ref.username ∷ ref.name ∷ [])
