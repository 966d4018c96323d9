-- ===== src/Plan.antt =====
-- Logical plans as the optimizer sees them: DuckDB's operators by their type and the data that is
-- read from them, and the extension's two operators.
use robust.Prelude.{ℕ, Bool, Option, none, some, List, if◌then◌else◌}
use robust.Column.{ColumnBinding, JoinType, FilterOperation}

-- The types that the optimizer distinguishes, and all others as one.
pub data OperatorType : Type 0 where
  comparison_join delim_join filter aggregate projection union except intersect window :
      OperatorType
  dummy_scan expression_get delim_get get empty_result chunk_get other_operator : OperatorType

-- A side of a condition, or an expression: a bound column reference or something else.
pub data Expression : Type 0 where
  column_ref : ColumnBinding → Expression
  other_expression : Expression

pub record JoinCondition : Type 0 where
  pub is_equal : Bool
  pub left_side : Expression
  pub right_side : Expression

-- A DuckDB operator without its children. `id` stands for its address. `table_index` is
-- `GetTableIndex()`, `column_bindings` is `GetColumnBindings()`, `expressions` are those of a
-- projection, or the groups of an aggregate.
pub record Operator : Type 0 where
  pub id : ℕ
  pub type : OperatorType
  pub estimated_cardinality : ℕ
  pub table_index : List ℕ
  pub column_bindings : List ColumnBinding
  pub expressions : List Expression
  pub grouping_sets : ℕ
  pub join_type : JoinType
  pub conditions : List JoinCondition

pub data Node : Type 0 where
  duckdb : Operator → Node
  create_filter : FilterOperation → ℕ → Node
  probe_filter : FilterOperation → ℕ → Node

mutual
  pub data Plan : Type 0 where
    node : Node → Plans → Plan

  pub data Plans : Type 0 where
    nil : Plans
    cons : Plan → Plans → Plans

-- The two column references of an equality condition.
unfoldable pub equal_columns : JoinCondition → Option (ColumnBinding × ColumnBinding)
equal_columns c = elim c.left_side [
  | other_expression ↦ none
  | column_ref l ↦ elim c.right_side [
    | other_expression ↦ none
    | column_ref r ↦ if c.is_equal then some (l, r) else none
  ]
]

-- The plan without the extension's operators, each of which stands over one child.
unfoldable mutual
  pub erase : Plan → Plan
  erase (node (duckdb op) children) = node (duckdb op) (erase_all children)
  erase (node (create_filter op card) nil) = node (create_filter op card) nil
  erase (node (create_filter op card) (cons p ps)) = erase p
  erase (node (probe_filter op card) nil) = node (probe_filter op card) nil
  erase (node (probe_filter op card) (cons p ps)) = erase p

  pub erase_all : Plans → Plans
  erase_all nil = nil
  erase_all (cons p ps) = cons (erase p) (erase_all ps)
