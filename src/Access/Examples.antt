-- ===== src/Access/Examples.antt =====
-- Concrete policies and requests for the theorems about remote/access/access.go.
use repo_4636_qri.Prelude.{◌≡◌, ◌↔◌, ◌⊎◌, refl, true, [], ◌∷◌, codes, text_eq}
use repo_4636_qri.Access.{
  Rule, Subject, Resource, allow, deny, ok, err, access_denied, enforce, parse_resource,
  parse_action, resource_contains, match_all, match_subject,
}
use repo_4636_qri.Access.Parse.{IsStarLast}
use repo_4636_qri.Access.Matching.{Matches, resource_contains_iff}
use repo_4636_qri.Access.Enforce.{Any, Grants, enforce_iff}

abbrev own : Resource
own = codes "dataset" ∷ match_subject ∷ match_all ∷ []

abbrev pull_own : Rule
pull_own = record {
  title = codes "own";
  subject = match_all;
  resources = own ∷ [];
  actions = (codes "remote" ∷ codes "pull" ∷ []) ∷ [];
  effect = allow;
}

abbrev keep_out : Rule
keep_out = record {
  title = codes "out";
  subject = match_all;
  resources = (match_all ∷ []) ∷ [];
  actions = (match_all ∷ []) ∷ [];
  effect = deny;
}

abbrev bob : Subject
bob = record { id = codes "QmB"; peername = codes "bob" }

abbrev bobs : Resource
bobs = codes "dataset" ∷ codes "bob" ∷ codes "worm" ∷ []

parse_bobs : parse_resource (codes "dataset:bob:worm") ≡ ok bobs
unfolding parse_resource text_eq
parse_bobs = refl

parse_pull : parse_action (codes "remote:pull") ≡ ok (codes "remote" ∷ codes "pull" ∷ [])
unfolding parse_action text_eq
parse_pull = refl

own-IsStarLast : IsStarLast own
own-IsStarLast = ((λ e. cc), ((λ e. cc), tt))

resource_contains_iff_example :
    (resource_contains own bobs (codes "bob") ≡ true) ↔ Matches (codes "bob") own bobs
resource_contains_iff_example = resource_contains_iff own bobs (codes "bob") own-IsStarLast

enforce_iff_example :
    ((enforce (keep_out ∷ pull_own ∷ []) bob (codes "dataset:bob:worm") (codes "remote:pull")
        ≡ ok tt)
      ↔ Any (Grants bob bobs (codes "remote" ∷ codes "pull" ∷ [])) (keep_out ∷ pull_own ∷ []))
    × ((enforce (keep_out ∷ pull_own ∷ []) bob (codes "dataset:bob:worm") (codes "remote:pull")
          ≡ ok tt)
        ⊎ (enforce (keep_out ∷ pull_own ∷ []) bob (codes "dataset:bob:worm") (codes "remote:pull")
            ≡ err access_denied))
enforce_iff_example =
    enforce_iff (keep_out ∷ pull_own ∷ []) bob (codes "dataset:bob:worm") (codes "remote:pull") bobs
      (codes "remote" ∷ codes "pull" ∷ [])
      (
        record { resources = (tt, tt); actions = (tt, tt) },
        (record { resources = (own-IsStarLast, tt); actions = (((λ e. cc), tt), tt) }, tt),
      )
      parse_bobs parse_pull

-- The deny rule stands first and covers everything, and the request is granted.
deny_has_no_effect :
    enforce (keep_out ∷ pull_own ∷ []) bob (codes "dataset:bob:worm") (codes "remote:pull") ≡ ok tt
unfolding enforce text_eq
deny_has_no_effect = refl
