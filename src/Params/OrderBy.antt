-- ===== src/Params/OrderBy.antt =====
-- Reading and printing an order (base/params/orderby.go), such as "+name,-updated,username".
use repo_4636_qri.Prelude.{
  ◌≡◌, refl, sym, ap, subst, ◌∙◌, ◌⊎◌, inl, inr, Bool, true, false, not, ◌&&◌, ◌||◌, Option, none,
  some, List, [], ◌∷◌, ◌++◌, map, Text, codes, text_eq, is_empty, if◌then◌else◌, ◌==◌, arith,
}
use mathlib.Core.List.{append-nil}
use repo_4636_qri.Prelude.Split.{split, join, split-join, IsWithout, AllWithout}
use repo_4636_qri.Params.{Order}

abbrev pub order_asc : Text
order_asc = codes "+"

abbrev pub order_desc : Text
order_desc = codes "-"

-- An order that is nil is `none`.
unfoldable pub new_order : Text → Text → Option Order
unfolding is_empty
new_order key direction =
    if is_empty key
    then none
    else some (record {
      key = key;
      direction =
          if not (text_eq direction order_asc) && not (text_eq direction order_desc)
          then order_asc
          else direction;
    })

unfoldable pub new_order_from_string : Text → Option Order
unfolding new_order
new_order_from_string [] = none
new_order_from_string (c ∷ s) =
    if (c == b'-') || (c == b'+') then new_order s (c ∷ []) else new_order (c ∷ s) []

-- The loop over the parts, which drops those that are nil.
unfoldable pub collect_orders : List Text → List Order
unfolding new_order_from_string
collect_orders [] = []
collect_orders (s ∷ ss) =
    let rest = collect_orders ss in
    elim (new_order_from_string s) [ none ↦ rest | some o ↦ o ∷ rest ]

unfoldable pub new_order_by_from_string : Text → List Order
unfolding split collect_orders
new_order_by_from_string order_by = collect_orders (split b',' order_by)

-- `Order.String`
abbrev pub order_string : Order → Text
order_string o = o.direction ++ o.key

-- The loop of `OrderBy.String`; every part but the first stands behind a comma.
unfoldable pub write_orders : Bool → List Order → Text
write_orders first [] = []
write_orders first (o ∷ os) =
    let rest = write_orders false os in
    if first then order_string o ++ rest else b',' ∷ (order_string o ++ rest)

unfoldable pub order_by_string : List Order → Text
unfolding write_orders
order_by_string os = write_orders true os

-- The order has a key without a comma, and one of the two directions.
pub record IsOrder (o : Order) : Type 0 where
  pub has_key : is_empty o.key ≡ false
  pub no_comma : IsWithout b',' o.key
  pub directed : (o.direction ≡ order_asc) ⊎ (o.direction ≡ order_desc)

abbrev pub AllOrders : List Order → Type 0
AllOrders [] = Unit
AllOrders (o ∷ os) = IsOrder o × AllOrders os

write_orders-true :
    (o : Order) (os : List Order)
    → write_orders true (o ∷ os) ≡ order_string o ++ write_orders false os
unfolding write_orders
write_orders-true o os = refl

write_orders-false :
    (o : Order) (os : List Order) → write_orders false (o ∷ os) ≡ b',' ∷ write_orders true (o ∷ os)
unfolding write_orders
write_orders-false o os = refl

write_orders-join :
    (o : Order) (os : List Order)
    → write_orders true (o ∷ os) ≡ join b',' (map order_string (o ∷ os))
write_orders-join o [] = unfold write_orders join in append-nil (order_string o)
write_orders-join o (p ∷ os) =
    write_orders-true o (p ∷ os)
    ∙ ap (λ r. order_string o ++ r)
        (write_orders-false p os ∙ ap (λ r. b',' ∷ r) (write_orders-join p os))
    ∙ join-parts (order_string o) (order_string p) (map order_string os)
  where
    join-parts :
        (x y : Text) (ys : List Text) → x ++ (b',' ∷ join b',' (y ∷ ys)) ≡ join b',' (x ∷ y ∷ ys)
    join-parts x y ys = unfold join in refl

read_asc :
    (key : Text)
    → is_empty key ≡ false
    → new_order_from_string (order_asc ++ key) ≡ some (record { key = key; direction = order_asc })
unfolding new_order_from_string new_order text_eq
read_asc key h = rw h refl

read_desc :
    (key : Text)
    → is_empty key ≡ false
    → new_order_from_string (order_desc ++ key)
      ≡ some (record { key = key; direction = order_desc })
unfolding new_order_from_string new_order text_eq
read_desc key h = rw h refl

new_order_from_string-order_string :
    (o : Order) → IsOrder o → new_order_from_string (order_string o) ≡ some o
new_order_from_string-order_string o w = elim w.directed [
  | inl e ↦
      ap (λ d. new_order_from_string (d ++ o.key)) e
      ∙ read_asc o.key w.has_key
      ∙ ap (λ d. some (record { key = o.key; direction = d })) (sym e)
  | inr e ↦
      ap (λ d. new_order_from_string (d ++ o.key)) e
      ∙ read_desc o.key w.has_key
      ∙ ap (λ d. some (record { key = o.key; direction = d })) (sym e)
]

collect_orders-map : (os : List Order) → AllOrders os → collect_orders (map order_string os) ≡ os
unfolding collect_orders
collect_orders-map [] h = refl
collect_orders-map (o ∷ os) (w, h) =
    rw (new_order_from_string-order_string o w, collect_orders)
      (ap (λ r. o ∷ r) (collect_orders-map os h))

order_string-IsWithout : (o : Order) → IsOrder o → IsWithout b',' (order_string o)
order_string-IsWithout o w = elim w.directed [
  | inl e ↦ subst (λ d. IsWithout b',' (d ++ o.key)) (sym e) ((λ q. ground arith), w.no_comma)
  | inr e ↦ subst (λ d. IsWithout b',' (d ++ o.key)) (sym e) ((λ q. ground arith), w.no_comma)
]

strings-AllWithout : (os : List Order) → AllOrders os → AllWithout b',' (map order_string os)
strings-AllWithout [] h = tt
strings-AllWithout (o ∷ os) (w, h) = (order_string-IsWithout o w, strings-AllWithout os h)

-- An order whose keys are not empty and have no comma, and whose directions are "+" or "-", is what
-- `NewOrderByFromString` reads from its `String`.
pub new_order_by-string :
    (os : List Order) → AllOrders os → new_order_by_from_string (order_by_string os) ≡ os
new_order_by-string [] h =
    unfold new_order_by_from_string order_by_string split collect_orders write_orders
      new_order_from_string in
    refl
new_order_by-string (o ∷ os) h =
    unfold new_order_by_from_string order_by_string in
    rw
      (
        write_orders-join o os,
        split-join b',' (order_string o) (map order_string os) (strings-AllWithout (o ∷ os) h),
      )
      (collect_orders-map (o ∷ os) h)
