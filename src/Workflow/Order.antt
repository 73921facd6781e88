-- ===== src/Workflow/Order.antt =====
-- The order that `sort.Sort` is given for sets of workflows.
use repo_4636_qri.Prelude.{◌≡◌, refl, true, false, Option, some, none, arith}
use repo_4636_qri.Prelude.Int.{ℤ}
use repo_4636_qri.Workflow.{less_nil_time}

less_nil_time_irreflexive : (a : Option ℤ) → less_nil_time a a ≡ false
unfolding less_nil_time
less_nil_time_irreflexive none = refl
less_nil_time_irreflexive (some a) = ground arith

less_nil_time_trans :
    (a b c : Option ℤ)
    → less_nil_time a b ≡ true
    → less_nil_time b c ≡ true
    → less_nil_time a c ≡ true
unfolding less_nil_time
less_nil_time_trans a b c h k = ground arith

less_nil_time_incomparable :
    (a b c : Option ℤ)
    → less_nil_time a b ≡ false
    → less_nil_time b c ≡ false
    → less_nil_time a c ≡ false
unfolding less_nil_time
less_nil_time_incomparable a b c h k = ground arith

-- `lessNilTime` is a strict weak order, as sorting needs: it is irreflexive and transitive, and
-- not being less is transitive too.
pub less_nil_time_weak_order :
    (a b c : Option ℤ)
    → (less_nil_time a a ≡ false)
      × (less_nil_time a b ≡ true → less_nil_time b c ≡ true → less_nil_time a c ≡ true)
      × (less_nil_time a b ≡ false → less_nil_time b c ≡ false → less_nil_time a c ≡ false)
less_nil_time_weak_order a b c =
    (less_nil_time_irreflexive a, less_nil_time_trans a b c, less_nil_time_incomparable a b c)
