-- ===== src/Table.antt =====
-- `TableManager`: src/optimizer/table_manager.cpp and src/optimizer/table_manager.hpp.
pub mod Laws
use robust.Prelude.{
  ℕ, ◌-◌, ◌^◌, Bool, true, false, not, ◌&&◌, Option, none, some, List, [], ◌∷◌, ◌++◌, ◌==◌,
  if◌then◌else◌, ◌>>=◌, get_elem?,
}
use robust.Plan.{
  Operator, OperatorType, duckdb, create_filter, probe_filter, Plan, Plans, node, nil, cons, filter,
  aggregate, projection, union, except, intersect, window, chunk_get, get, delim_get,
}

pub record TableInfo : Type 0 where
  pub table_idx : ℕ
  pub table_op : ℕ
  pub estimated_cardinality : ℕ

-- `table_lookup` is a `std::map`; only lookups and its size are used, so its order does not matter.
pub record TableManager : Type 0 where
  pub table_lookup : List (ℕ × TableInfo)
  pub table_ops : List TableInfo

unfoldable pub empty_manager : TableManager
empty_manager = record { table_lookup = []; table_ops = [] }

unfoldable pub find_table : ℕ → List (ℕ × TableInfo) → Option TableInfo
find_table t [] = none
find_table t ((k, info) ∷ rest) = if k == t then some info else find_table t rest

-- `table_lookup[t] = info`
unfoldable pub put_table : ℕ → TableInfo → List (ℕ × TableInfo) → List (ℕ × TableInfo)
put_table t info [] = (t, info) ∷ []
put_table t info ((k, old) ∷ rest) =
    if k == t then (k, info) ∷ rest else (k, old) ∷ put_table t info rest

unfoldable pub add_table : TableManager → TableInfo → TableManager
unfolding put_table
add_table m info = record {
  table_lookup = put_table info.table_idx info m.table_lookup;
  table_ops = m.table_ops ++ info ∷ [];
}

-- `std::numeric_limits<idx_t>::max()`
abbrev pub invalid_index : ℕ
invalid_index = 2 ^ 64 - 1

pub data IndexSource : Type 0 where
  own_index second_index of_child no_index : IndexSource

-- the cases of the switch
unfoldable pub index_source : OperatorType → IndexSource
index_source window = own_index
index_source chunk_get = own_index
index_source get = own_index
index_source delim_get = own_index
index_source projection = own_index
index_source union = own_index
index_source except = own_index
index_source intersect = own_index
index_source filter = of_child
index_source aggregate = second_index
index_source _ = no_index

-- `GetScalarTableIndex`. A missing table index or child is a fault, `none`.
unfoldable pub scalar_table_index : Plan → Option ℕ
scalar_table_index (node (duckdb op) nil) = elim (index_source op.type) [
  | own_index ↦ get_elem? op.table_index 0
  | second_index ↦ get_elem? op.table_index 1
  | of_child ↦ none
  | no_index ↦ some invalid_index
]
scalar_table_index (node (duckdb op) (cons child rest)) =
    let below = scalar_table_index child in
    elim (index_source op.type) [
      | own_index ↦ get_elem? op.table_index 0
      | second_index ↦ get_elem? op.table_index 1
      | of_child ↦ below
      | no_index ↦ some invalid_index
    ]
scalar_table_index (node (create_filter op card) children) = some invalid_index
scalar_table_index (node (probe_filter op card) children) = some invalid_index

-- `table_op` of an entry is the address of the registered operator.
unfoldable pub node_id : Plan → ℕ
node_id (node (duckdb op) children) = op.id
node_id (node _ children) = 0

unfoldable pub node_cardinality : Plan → ℕ
node_cardinality (node (duckdb op) children) = op.estimated_cardinality
node_cardinality (node (create_filter op card) children) = card
node_cardinality (node (probe_filter op card) children) = card

-- the test of `AddTableOperator`: a table index that is valid and new
unfoldable pub register : TableManager → ℕ → TableInfo → TableManager
register m t info =
    let known : Bool = elim (find_table t m.table_lookup) [ none ↦ false | some _ ↦ true ] in
    if not (t == invalid_index) && not known then add_table m info else m

unfoldable pub add_table_operator : TableManager → Plan → Option TableManager
add_table_operator m p = scalar_table_index p >>= λ t. some (
    register m t
      (record { table_idx = t; table_op = node_id p; estimated_cardinality = node_cardinality p }))

-- `GetTableInfo`: no entry is the inner `none`.
unfoldable pub table_info : TableManager → Plan → Option (Option TableInfo)
table_info m p = scalar_table_index p >>= λ t. some (find_table t m.table_lookup)

mutual
  -- `FindLogicalGet`: the first LOGICAL_GET of the tree, in preorder.
  pub find_logical_get : Plan → Option Operator
  find_logical_get (node (duckdb op) children) =
      let below = find_in_children children in elim op.type [ get ↦ some op | _ ↦ below ]
  find_logical_get (node (create_filter op card) children) = find_in_children children
  find_logical_get (node (probe_filter op card) children) = find_in_children children

  pub find_in_children : Plans → Option Operator
  find_in_children nil = none
  find_in_children (cons p ps) =
      let later = find_in_children ps in
      elim (find_logical_get p) [ some op ↦ some op | none ↦ later ]
