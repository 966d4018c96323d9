-- ===== src/Column.antt =====
-- Columns, join edges and filter operations: src/optimizer/graph_manager.hpp. The type `ColKey` of
-- src/optimizer/robust_optimizer.hpp has the same content as a `ColumnBinding`.
use robust.Prelude.{ℕ, ◌≡◌, ◌↔◌, Bool, true, ◌&&◌, List, ◌==◌, arith}

pub record ColumnBinding : Type 0 where
  pub table_index : ℕ
  pub column_index : ℕ

-- `ColumnBindingEqual`
abbrev pub binding_eq : ColumnBinding → ColumnBinding → Bool
binding_eq a b = a.table_index == b.table_index && a.column_index == b.column_index

pub binding_eq_iff : (a b : ColumnBinding) → (binding_eq a b ≡ true) ↔ (a ≡ b)
binding_eq_iff a b = ground arith

pub binding_eq_refl : (a : ColumnBinding) → binding_eq a a ≡ true
binding_eq_refl a = ground arith

pub data JoinType : Type 0 where
  inner left right semi right_semi mark anti outer single : JoinType

pub record JoinEdge : Type 0 where
  pub table_a : ℕ
  pub table_b : ℕ
  pub join_columns_a : List ColumnBinding
  pub join_columns_b : List ColumnBinding
  pub weight : ℕ
  pub join_type : JoinType

-- `join_columns` and `join_type` of the class are written by no code, and are left out.
pub record FilterOperation : Type 0 where
  pub is_create : Bool
  pub build_table_idx : ℕ
  pub probe_table_idx : ℕ
  pub build_columns : List ColumnBinding
  pub probe_columns : List ColumnBinding
  pub sequence_number : ℕ
  pub is_forward_pass : Bool
