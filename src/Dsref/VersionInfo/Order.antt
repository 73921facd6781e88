-- ===== src/Dsref/VersionInfo/Order.antt =====
-- The comparison that `VersionInfoAggregator` hands to `sort.Sort`.
use repo_4636_qri.Prelude.{◌≡◌, true, [], ◌∷◌, text_ltb, ok, arith}
use repo_4636_qri.Dsref.VersionInfo.{VersionInfo, by_name, less, less_by}

-- Sorting by "name" is not a strict order: where the username of one version is the smaller and the
-- name of the other is, `Less` puts each before the other.
pub less_by-name_both :
    (p q : VersionInfo)
    → text_ltb p.username q.username ≡ true
    → text_ltb q.name p.name ≡ true
    → (less_by (by_name ∷ []) p q ≡ ok true) × (less_by (by_name ∷ []) q p ≡ ok true)
unfolding less_by less
less_by-name_both p q u n = (ground (arith, u), ground (arith, n))
