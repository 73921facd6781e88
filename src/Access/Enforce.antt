-- ===== src/Access/Enforce.antt =====
-- `Policy.Enforce` against the rules that grant a request, and the rules that it does not read.
use repo_4636_qri.Prelude.{
  ◌≡◌, ◌↔◌, ◌⊎◌, inl, inr, refl, true, false, List, [], ◌∷◌, Text, text_eq_iff, arith,
  if◌then◌else◌, Bool-cases,
}
use repo_4636_qri.Access.{
  match_all, Resource, Action, ok, err, access_denied, Rule, Subject, allow, is_allow,
  resource_contains, action_contains, resources_contain, actions_contain, rule_grants, enforce_loop,
  enforce, parse_resource, parse_action,
}
use repo_4636_qri.Access.Parse.{IsStarLast}
use repo_4636_qri.Access.Matching.{
  Matches, ActionMatches, resource_contains_iff, action_contains_iff,
}

abbrev pub Any {ℓ} : {A : Type ℓ} → (A → Type 0) → List A → Type 0
Any P [] = ⊥
Any P (x ∷ xs) = P x ⊎ Any P xs

abbrev pub All {ℓ} : {A : Type ℓ} → (A → Type 0) → List A → Type 0
All P [] = Unit
All P (x ∷ xs) = P x × All P xs

-- The rule's resources and actions have a "*" only as their last name, as the parsers return them.
pub record IsParsed (r : Rule) : Type 0 where
  pub resources : All IsStarLast r.resources
  pub actions : All IsStarLast r.actions

-- An "allow" rule about this subject, with a resource and an action that match.
pub record Grants (s : Subject) (rsc : Resource) (act : Action) (r : Rule) : Type 0 where
  pub allows : r.effect ≡ allow
  pub about : (r.subject ≡ s.id) ⊎ (r.subject ≡ match_all)
  pub resource : Any (λ x. Matches s.peername x rsc) r.resources
  pub action : Any (λ x. ActionMatches x act) r.actions

resources_contain_iff :
    (rs : List Resource) (b : Resource) (user : Text)
    → All IsStarLast rs
    → (resources_contain rs b user ≡ true) ↔ Any (λ x. Matches user x b) rs
unfolding resources_contain
resources_contain_iff [] b user last = (λ h. cc, λ m. absurd m)
resources_contain_iff (r ∷ rs) b user (last, lasts) =
    let (f, g) = resource_contains_iff r b user last in
    let (f', g') = resources_contain_iff rs b user lasts in
    (
      λ h. elim (Bool-cases (resource_contains r b user)) [
        | inl e ↦ inl (f e)
        | inr e ↦ inr (f' (rw e at h))
      ],
      λ m. elim m [ inl p ↦ rw (g p) | inr p ↦ rw (g' p) (ground arith) ],
    )

actions_contain_iff :
    (acts : List Action) (b : Action)
    → All IsStarLast acts
    → (actions_contain acts b ≡ true) ↔ Any (λ x. ActionMatches x b) acts
unfolding actions_contain
actions_contain_iff [] b last = (λ h. cc, λ m. absurd m)
actions_contain_iff (a ∷ acts) b (last, lasts) =
    let (f, g) = action_contains_iff a b last in
    let (f', g') = actions_contain_iff acts b lasts in
    (
      λ h. elim (Bool-cases (action_contains a b)) [
        | inl e ↦ inl (f e)
        | inr e ↦ inr (f' (rw e at h))
      ],
      λ m. elim m [ inl p ↦ rw (g p) | inr p ↦ rw (g' p) (ground arith) ],
    )

rule_grants_iff :
    (s : Subject) (rsc : Resource) (act : Action) (r : Rule)
    → IsParsed r
    → (rule_grants s rsc act r ≡ true) ↔ Grants s rsc act r
unfolding rule_grants
rule_grants_iff s rsc act r parsed =
    let (f, g) = resources_contain_iff r.resources rsc s.peername parsed.resources in
    let (f', g') = actions_contain_iff r.actions act parsed.actions in
    (
      λ h. record {
        allows = ground arith;
        about = ground (arith, text_eq_iff r.subject s.id, text_eq_iff r.subject match_all);
        resource = f (ground arith);
        action = f' (ground arith);
      },
      λ m.
          rw (g m.resource, g' m.action)
            (ground (
              arith,
              text_eq_iff r.subject s.id,
              text_eq_iff r.subject match_all,
              m.allows,
              m.about,
            )),
    )

enforce_loop_iff :
    (s : Subject) (rsc : Resource) (act : Action) (pol : List Rule)
    → All IsParsed pol
    → ((enforce_loop s rsc act pol ≡ ok tt) ↔ Any (Grants s rsc act) pol)
      × ((enforce_loop s rsc act pol ≡ ok tt) ⊎ (enforce_loop s rsc act pol ≡ err access_denied))
unfolding enforce_loop
enforce_loop_iff s rsc act [] fine = ((λ h. cc, λ m. absurd m), inr refl)
enforce_loop_iff s rsc act (r ∷ rs) (p, ps) =
    let (f, g) = rule_grants_iff s rsc act r p in
    let ((f', g'), dec) = enforce_loop_iff s rsc act rs ps in
    elim (Bool-cases (rule_grants s rsc act r)) [
      | inl e ↦ rw e ((λ h. inl (f e), λ m. refl), inl refl)
      | inr e ↦
          rw e ((λ h. inr (f' h), λ m. elim m [ inl q ↦ absurd (cc (e, g q)) | inr q ↦ g' q ]), dec)
    ]

-- For a policy of parsed resources and actions ("*" only as a last name) and a request whose
-- resource and action parse, `Enforce` returns nil exactly when some rule of the
-- policy whose effect is "allow" grants it, and ErrAccessDenied otherwise. A rule whose effect is
-- "deny" takes nothing away: a request that an allow rule grants is granted whatever deny rules match.
pub enforce_iff :
    (pol : List Rule) (s : Subject) (resource action : Text) (rsc : Resource) (act : Action)
    → All IsParsed pol
    → parse_resource resource ≡ ok rsc
    → parse_action action ≡ ok act
    → ((enforce pol s resource action ≡ ok tt) ↔ Any (Grants s rsc act) pol)
      × ((enforce pol s resource action ≡ ok tt)
          ⊎ (enforce pol s resource action ≡ err access_denied))
unfolding enforce
enforce_iff pol s resource action rsc act fine p q = rw (p, q) (enforce_loop_iff s rsc act pol fine)

-- The policy without its rules that are not "allow" rules.
pub allow_only : List Rule → List Rule
allow_only [] = []
allow_only (r ∷ rs) = let rest = allow_only rs in if is_allow r.effect then r ∷ rest else rest

rule_grants-not_allow :
    (s : Subject) (rsc : Resource) (act : Action) (r : Rule)
    → is_allow r.effect ≡ false
    → rule_grants s rsc act r ≡ false
unfolding rule_grants
rule_grants-not_allow s rsc act r e = rw e refl

enforce_loop-allow_only :
    (s : Subject) (rsc : Resource) (act : Action) (pol : List Rule)
    → enforce_loop s rsc act (allow_only pol) ≡ enforce_loop s rsc act pol
unfolding enforce_loop allow_only
enforce_loop-allow_only s rsc act [] = refl
enforce_loop-allow_only s rsc act (r ∷ rs) =
    ground (arith, enforce_loop-allow_only s rsc act rs, rule_grants-not_allow s rsc act r)

-- A rule with the effect "deny" never changes an answer: with all rules that are not "allow" rules
-- taken out, `Enforce` returns the same for every request.
pub enforce-allow_only :
    (pol : List Rule) (s : Subject) (resource action : Text)
    → enforce (allow_only pol) s resource action ≡ enforce pol s resource action
unfolding enforce
enforce-allow_only pol s resource action = simp enforce_loop-allow_only
