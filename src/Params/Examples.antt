-- ===== src/Params/Examples.antt =====
-- A concrete order for the theorem about base/params/orderby.go.
use repo_4636_qri.Prelude.{◌≡◌, refl, inl, inr, List, [], ◌∷◌, codes, is_empty, arith}
use repo_4636_qri.Params.{Order}
use repo_4636_qri.Params.OrderBy.{
  order_asc, order_desc, new_order_by_from_string, order_by_string, new_order_by-string,
}

abbrev by_name : List Order
by_name =
    record { key = codes "a"; direction = order_asc }
    ∷ record { key = codes "b"; direction = order_desc }
    ∷ []

new_order_by-string_example : new_order_by_from_string (order_by_string by_name) ≡ by_name
unfolding is_empty
new_order_by-string_example = new_order_by-string by_name (
  record { has_key = refl; no_comma = ((λ e. ground arith), tt); directed = inl refl },
  (record { has_key = refl; no_comma = ((λ e. ground arith), tt); directed = inr refl }, tt),
)
