-- ===== src/Access/Matching.antt =====
-- What `Resource.Contains` and `Action.Contains` accept, as a grammar of matches.
use repo_4636_qri.Prelude.{
  ==_iff, if◌then◌else◌, not, ◌&&◌, ap, suc, ◌≤◌, ◌≡◌, ◌↔◌, ◌⊎◌, inl, inr, refl, true, false, List,
  [], ◌∷◌, Text, text_eq, text_eq_iff, arith, ◌==◌, length, Bool,
}
use repo_4636_qri.Access.{
  match_all, match_subject, Resource, Action, resource_loop, resource_contains, action_loop,
  action_contains,
}
use repo_4636_qri.Access.Parse.{IsStarLast}

-- `Matches user r b`: name by name, where "_subject" also stands for `user`, and a last "*" stands
-- for one or more names.
pub data Matches (user : Text) : List Text → List Text → Type 0 where
  done : Matches user [] []
  star :
      {name : Text} {x : Text} {b : List Text} → name ≡ match_all → Matches user (name ∷ []) (x ∷ b)
  subject :
      {name x : Text} {r b : List Text}
      → name ≡ match_subject
      → x ≡ user
      → Matches user r b
      → Matches user (name ∷ r) (x ∷ b)
  same :
      {name x : Text} {r b : List Text}
      → x ≡ name
      → Matches user r b
      → Matches user (name ∷ r) (x ∷ b)

star_ends : (name : Text) (r : List Text) → name ≡ match_all → IsStarLast (name ∷ r) → r ≡ []
star_ends name [] e last = refl
star_ends name (x ∷ r) e last = absurd (last.0 e)

IsStarLast-tail : (name : Text) (r : List Text) → IsStarLast (name ∷ r) → IsStarLast r
IsStarLast-tail name [] last = tt
IsStarLast-tail name (x ∷ r) last = last.1

-- One round of the loop, with `rest` for the rounds behind it.
resource_step :
    (user name x : Text) (rest : Bool)
    → (if text_eq name match_all
        then true
        else if text_eq name match_subject && text_eq x user
        then rest
        else if not (text_eq x name)
        then false
        else rest)
      ≡ true
    → (name ≡ match_all)
      ⊎ (((name ≡ match_subject) × (x ≡ user) × (rest ≡ true)) ⊎ ((x ≡ name) × (rest ≡ true)))
resource_step user name x rest h = ground (
  arith,
  text_eq_iff name match_all,
  text_eq_iff name match_subject,
  text_eq_iff x user,
  text_eq_iff x name,
)

Matches-length : {user : Text} {r b : List Text} → Matches user r b → length r ≤ length b
Matches-length Matches.done = omega arith
Matches-length (Matches.star e) = omega arith
Matches-length (Matches.subject e f m) = omega (arith, Matches-length m)
Matches-length (Matches.same e m) = omega (arith, Matches-length m)

-- `agree` is the loop's last test, whatever was matched before.
resource_loop_sound :
    (user : Text) (agree : Bool) (r b : List Text)
    → IsStarLast r
    → (agree ≡ true → length r ≡ length b)
    → resource_loop user agree r b ≡ true
    → Matches user r b
unfolding resource_loop
resource_loop_sound user agree [] [] last fits h = Matches.done
resource_loop_sound user agree [] (x ∷ b) last fits h = absurd (omega (arith, fits h))
resource_loop_sound user agree (name ∷ r) [] last fits h = absurd (ground arith)
resource_loop_sound user agree (name ∷ r) (x ∷ b) last fits h =
    let ih =
      resource_loop_sound user agree r b (IsStarLast-tail name r last)
        (λ e. omega (arith, fits e)) in
    elim (resource_step user name x (resource_loop user agree r b) h) [
      | inl e ↦ rw (star_ends name r e last) (Matches.star e)
      | inr (inl (e, f, m)) ↦ Matches.subject e f (ih m)
      | inr (inr (e, m)) ↦ Matches.same e (ih m)
    ]

resource_loop_complete :
    {user : Text} {r b : List Text} (agree : Bool)
    → Matches user r b
    → (length r ≡ length b → agree ≡ true)
    → resource_loop user agree r b ≡ true
unfolding resource_loop
resource_loop_complete agree Matches.done fits = fits refl
resource_loop_complete agree (Matches.star {name} {x} {b} e) fits =
    ground (arith, text_eq_iff name match_all)
resource_loop_complete {user} agree (Matches.subject {name} {x} {r} {b} e f m) fits = ground (
  arith,
  resource_loop_complete agree m (λ p. fits (ap suc p)),
  text_eq_iff name match_subject,
  text_eq_iff x user,
)
resource_loop_complete {user} agree (Matches.same {name} {x} {r} {b} e m) fits =
    ground (arith, resource_loop_complete agree m (λ p. fits (ap suc p)), text_eq_iff x name)

-- A resource whose "*" is its last name contains exactly the resources that it matches.
pub resource_contains_iff :
    (r b : Resource) (user : Text)
    → IsStarLast r
    → (resource_contains r b user ≡ true) ↔ Matches user r b
unfolding resource_contains
resource_contains_iff r b user last = (
  λ h.
      resource_loop_sound user (length r == length b) r b last (λ e. (==_iff _ _).0 e)
        (ground arith),
  λ m. ground (
    arith,
    Matches-length m,
    resource_loop_complete (length r == length b) m (λ e. (==_iff _ _).1 e),
  ),
)

-- `ActionMatches a b`: name by name, where a last "*" stands for one or more names.
pub data ActionMatches : List Text → List Text → Type 0 where
  done : ActionMatches [] []
  star : {name x : Text} {b : List Text} → name ≡ match_all → ActionMatches (name ∷ []) (x ∷ b)
  same :
      {name x : Text} {a b : List Text}
      → x ≡ name
      → ActionMatches a b
      → ActionMatches (name ∷ a) (x ∷ b)

ActionMatches-length : {a b : List Text} → ActionMatches a b → length a ≤ length b
ActionMatches-length ActionMatches.done = omega arith
ActionMatches-length (ActionMatches.star e) = omega arith
ActionMatches-length (ActionMatches.same e m) = omega (arith, ActionMatches-length m)

action_step :
    (name x : Text) (rest : Bool)
    → (if text_eq name match_all then true else if not (text_eq x name) then false else rest) ≡ true
    → (name ≡ match_all) ⊎ ((x ≡ name) × (rest ≡ true))
action_step name x rest h = ground (arith, text_eq_iff name match_all, text_eq_iff x name)

action_loop_sound :
    (agree : Bool) (a b : List Text)
    → IsStarLast a
    → (agree ≡ true → length a ≡ length b)
    → action_loop agree a b ≡ true
    → ActionMatches a b
unfolding action_loop
action_loop_sound agree [] [] last fits h = ActionMatches.done
action_loop_sound agree [] (x ∷ b) last fits h = absurd (omega (arith, fits h))
action_loop_sound agree (name ∷ a) [] last fits h = absurd (ground arith)
action_loop_sound agree (name ∷ a) (x ∷ b) last fits h =
    let ih =
      action_loop_sound agree a b (IsStarLast-tail name a last) (λ e. omega (arith, fits e)) in
    elim (action_step name x (action_loop agree a b) h) [
      | inl e ↦ rw (star_ends name a e last) (ActionMatches.star e)
      | inr (e, m) ↦ ActionMatches.same e (ih m)
    ]

action_loop_complete :
    {a b : List Text} (agree : Bool)
    → ActionMatches a b
    → (length a ≡ length b → agree ≡ true)
    → action_loop agree a b ≡ true
unfolding action_loop
action_loop_complete agree ActionMatches.done fits = fits refl
action_loop_complete agree (ActionMatches.star {name} {x} {b} e) fits =
    ground (arith, text_eq_iff name match_all)
action_loop_complete agree (ActionMatches.same {name} {x} {a} {b} e m) fits =
    ground (arith, action_loop_complete agree m (λ p. fits (ap suc p)), text_eq_iff x name)

-- An action whose "*" is its last name contains exactly the actions that it matches.
pub action_contains_iff :
    (a b : Action) → IsStarLast a → (action_contains a b ≡ true) ↔ ActionMatches a b
unfolding action_contains
action_contains_iff a b last = (
  λ h. action_loop_sound (length a == length b) a b last (λ e. (==_iff _ _).0 e) (ground arith),
  λ m. ground (
    arith,
    ActionMatches-length m,
    action_loop_complete (length a == length b) m (λ e. (==_iff _ _).1 e),
  ),
)
