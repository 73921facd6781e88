-- ===== src/Params.antt =====
-- Parameters of list operations (base/params/list.go, base/params/orderby.go).
pub mod OrderBy
mod Examples
use repo_4636_qri.Prelude.{Bool, not, ◌&&◌, List, Text, length, ◌==◌, if◌then◌else◌}
use repo_4636_qri.Prelude.Int.{ℤ, pos, negsuc, int_eq, ltb_ℤ}

pub record Order : Type 0 where
  pub key : Text
  pub direction : Text

-- `params.List`
pub record ListParams : Type 0 where
  pub filter : List Text
  pub order_by : List Order
  pub limit : ℤ
  pub offset : ℤ

-- `List.All`
unfoldable pub is_all : ListParams → Bool
unfolding int_eq
is_all lp = int_eq lp.limit (negsuc 0) && int_eq lp.offset (pos 0)

pub data ListError : Type 0 where
  limit_out_of_bounds offset_out_of_bounds no_error : ListError

-- `List.Validate`, with `no_error` for nil.
unfoldable pub validate_list : ListParams → ListError
unfolding int_eq
validate_list lp =
    if ltb_ℤ lp.limit (pos 0) && not (int_eq lp.limit (negsuc 0))
    then limit_out_of_bounds
    else if ltb_ℤ lp.offset (pos 0)
    then offset_out_of_bounds
    else no_error

-- `List.IsEmpty`
unfoldable pub params_is_empty : ListParams → Bool
unfolding int_eq
params_is_empty lp =
    int_eq lp.limit (pos 0)
    && (int_eq lp.offset (pos 0) && ((length lp.filter == 0) && (length lp.order_by == 0)))

unfoldable pub with_offset_limit : ℤ → ℤ → ListParams → ListParams
with_offset_limit offset limit lp = record lp { offset = offset; limit = limit }

unfoldable pub with_filters : List Text → ListParams → ListParams
with_filters f lp = record lp { filter = f }
