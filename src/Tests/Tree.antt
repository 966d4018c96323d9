-- ===== src/Tests/Tree.antt =====
-- An example of the theorem on the rooted tree.
use robust.Prelude.{ℕ, ◌≡◌, Option, some, List, [], ◌∷◌}
use robust.Column.{inner, JoinEdge}
use robust.Table.{TableInfo, TableManager}
use robust.Optimizer.Tree.{TreeNode, build_rooted_tree}
use robust.Optimizer.Tree.Rooted.{IsAnswer, build_rooted_tree-IsAnswer}

abbrev edge : ℕ → ℕ → JoinEdge
edge a b = record {
  table_a = a;
  table_b = b;
  join_columns_a = [];
  join_columns_b = [];
  weight = 1;
  join_type = inner;
}

abbrev table : ℕ → ℕ → TableInfo
table t card = record { table_idx = t; table_op = t; estimated_cardinality = card }

abbrev three_tables : TableManager
three_tables = record {
  table_lookup = (1, table 1 10) ∷ (2, table 2 500) ∷ (3, table 3 40) ∷ [];
  table_ops = table 1 10 ∷ table 2 500 ∷ table 3 40 ∷ [];
}

abbrev path : List JoinEdge
path = edge 1 2 ∷ edge 3 1 ∷ []

build_rooted_tree-IsAnswer_example :
    (r : Option (ℕ × List TreeNode)) × (build_rooted_tree three_tables path ≡ some r)
    × IsAnswer path r
build_rooted_tree-IsAnswer_example = build_rooted_tree-IsAnswer three_tables path
