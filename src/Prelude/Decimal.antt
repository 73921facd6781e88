-- ===== src/Prelude/Decimal.antt =====
-- `fmt.Sprintf("%d", n)`.
use repo_4636_qri.Prelude.{ℕ, zero, suc, ◌+◌, ◌/◌, ◌%◌, [], ◌∷◌, ◌++◌, Text, if◌then◌else◌, ltb}
use repo_4636_qri.Prelude.Int.{ℤ, pos, negsuc}

-- A number has no more digits than its value plus one.
unfoldable digits : ℕ → ℕ → Text
digits zero n = []
digits (suc fuel) n =
    let front = digits fuel (n / 10) in
    if ltb n 10 then (b'0' + n) ∷ [] else front ++ (b'0' + n % 10) ∷ []

unfoldable pub decimal : ℤ → Text
unfolding digits
decimal (pos n) = digits (suc n) n
decimal (negsuc n) = b'-' ∷ digits (suc (suc n)) (suc n)
