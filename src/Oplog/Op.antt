-- ===== src/Oplog/Op.antt =====
-- `Op`, `OpType` and `Op.Equal` of logbook/oplog/log.go.
use repo_4636_qri.Prelude.{
  ℕ, ◌≡◌, ◌↔◌, true, Bool, ◌&&◌, List, [], Text, text_eq, text_eq_iff, ◌==◌, length, arith,
}
use repo_4636_qri.Prelude.Int.{ℤ, pos, int_eq, int_eq_iff}

-- `OpType` is a byte.
abbrev pub OpType : Type 0
OpType = ℕ

abbrev pub op_type_init : OpType
op_type_init = 1

abbrev pub op_type_amend : OpType
op_type_amend = 2

abbrev pub op_type_remove : OpType
op_type_remove = 3

-- `size` counts bytes or revisions; the code never writes a negative one.
pub record Op : Type 0 where
  pub type : OpType
  pub model : ℕ
  pub ref : Text
  pub prev : Text
  pub relations : List Text
  pub name : Text
  pub author_id : Text
  pub timestamp : ℤ
  pub size : ℕ
  pub note : Text

-- `Op{}`
abbrev pub empty_op : Op
empty_op = record {
  type = 0;
  model = 0;
  ref = [];
  prev = [];
  relations = [];
  name = [];
  author_id = [];
  timestamp = pos 0;
  size = 0;
  note = [];
}

unfoldable pub equal : Op → Op → Bool
equal o b =
    (o.type == b.type)
    && ((o.model == b.model)
        && (text_eq o.ref b.ref
            && (text_eq o.prev b.prev
                && ((length o.relations == length b.relations)
                    && (text_eq o.name b.name
                        && (text_eq o.author_id b.author_id
                            && (int_eq o.timestamp b.timestamp
                                && ((o.size == b.size) && text_eq o.note b.note))))))))

-- `Equal` compares every field but the relations, of which it compares the number only.
pub equal_iff :
    (o b : Op)
    → (equal o b ≡ true)
      ↔ (b ≡ record o { relations = b.relations }) × (length o.relations ≡ length b.relations)
unfolding equal
equal_iff o b = (
  λ h. (
    ground (
      arith,
      text_eq_iff o.ref b.ref,
      text_eq_iff o.prev b.prev,
      text_eq_iff o.name b.name,
      text_eq_iff o.author_id b.author_id,
      int_eq_iff o.timestamp b.timestamp,
      text_eq_iff o.note b.note,
    ),
    ground arith,
  ),
  λ h. ground (
    arith,
    h.0,
    h.1,
    text_eq_iff o.ref b.ref,
    text_eq_iff o.prev b.prev,
    text_eq_iff o.name b.name,
    text_eq_iff o.author_id b.author_id,
    int_eq_iff o.timestamp b.timestamp,
    text_eq_iff o.note b.note,
  ),
)
