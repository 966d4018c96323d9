-- ===== src/Tests/Flip.antt =====
-- An example of the theorem on the flips of one node.
use robust.Prelude.{ℕ, none, List, [], ◌∷◌}
use robust.Optimizer.Dag.{DagEdge, DagNode}

abbrev table_edge : ℕ → ℕ → DagEdge
table_edge p c = record { parent_table = p; child_table = c; parent_cols = []; child_cols = [] }

abbrev top : DagNode
top = record {
  table_idx = 1;
  table_op = 1;
  cardinality = 9;
  children = 1 ∷ 2 ∷ [];
  parents = [];
  edges_to_parents = [];
  level = none;
}

-- a root above two tables, of which one is above the other
abbrev triangle : List DagNode
triangle =
    top
    ∷ (record {
      table_idx = 2;
      table_op = 2;
      cardinality = 5;
      children = 2 ∷ [];
      parents = 0 ∷ [];
      edges_to_parents = table_edge 1 2 ∷ [];
      level = none;
    })
    ∷ (record {
      table_idx = 3;
      table_op = 3;
      cardinality = 7;
      children = [];
      parents = 1 ∷ 0 ∷ [];
      edges_to_parents = table_edge 2 3 ∷ table_edge 1 3 ∷ [];
      level = none;
    })
    ∷ []
