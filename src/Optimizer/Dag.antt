-- ===== src/Optimizer/Dag.antt =====
-- The graph of the physical plan: `PhysicalDAGNode` and `PhysicalDAGEdge` of
-- src/optimizer/robust_optimizer.hpp, and `PhysicalDAGDFS` of src/optimizer/robust_optimizer.cpp. A
-- pointer to a node is its position in `all_nodes`, which is also its DFS index.
pub mod Levels
pub mod Links
pub mod Flip
use robust.Prelude.{
  ℕ, zero, suc, ◌+◌, ◌-◌, ◌*◌, ◌/◌, ◌%◌, ◌^◌, ◌≤◌, ◌<◌, min, max, ◌≡◌, refl, sym, ap, ◌∙◌, subst,
  ◌≢◌, ◌↔◌, ◌⊎◌, inl, inr, Bool, true, false, not, ◌&&◌, ◌||◌, Option, none, some, List, [], ◌∷◌,
  ◌++◌, map, foldl, arith, ltb, leb, ◌==◌, if◌then◌else◌, ltb→lt, lt→ltb, ==_iff, ==_refl,
  Bool-cases, and-eq-true, Option-cases, ◌>>=◌, >>=-eq-some, length, get_elem?, get_or, set,
  replicate, is_empty, tail, length-append, length-set, In, All, All-In, In-append,
}
use robust.Column.{JoinType, ColumnBinding, binding_eq, mark}
use robust.Plan.{
  Operator, OperatorType, comparison_join, delim_join, JoinCondition, equal_columns, duckdb,
  create_filter, probe_filter, Plan, Plans, node, nil, cons,
}
use robust.Table.{TableInfo, TableManager, table_info}
use robust.Optimizer.Extract.{Renames, is_scan, resolve_column_binding}
use robust.Optimizer.Lift.{is_mark_join}
use robust.Optimizer.UnionFind.{Parents, uf_find, uf_union}

pub record DagEdge : Type 0 where
  pub parent_table : ℕ
  pub child_table : ℕ
  pub parent_cols : List ColumnBinding
  pub child_cols : List ColumnBinding

-- The cardinality is that of `table_op`. The level -1 is none.
pub record DagNode : Type 0 where
  pub table_idx : ℕ
  pub table_op : ℕ
  pub cardinality : ℕ
  pub children : List ℕ
  pub parents : List ℕ
  pub edges_to_parents : List DagEdge
  pub level : Option ℕ

-- `node_map` and `dfs_index` have the same keys, and the position for both values.
pub record DagState : Type 0 where
  pub all_nodes : List DagNode
  pub node_map : List (ℕ × ℕ)
  pub uf_parent : Parents

unfoldable pub find_position : ℕ → List (ℕ × ℕ) → Option ℕ
find_position t [] = none
find_position t ((k, i) ∷ rest) = if k == t then some i else find_position t rest

unfoldable pub put_position : ℕ → ℕ → List (ℕ × ℕ) → List (ℕ × ℕ)
put_position t i [] = (t, i) ∷ []
put_position t i ((k, j) ∷ rest) = if k == t then (k, i) ∷ rest else (k, j) ∷ put_position t i rest

-- a write through a pointer to a node
unfoldable pub change_node : ℕ → (DagNode → DagNode) → List DagNode → List DagNode
change_node i f [] = []
change_node zero f (n ∷ nodes) = f n ∷ nodes
change_node (suc i) f (n ∷ nodes) = n ∷ change_node i f nodes

unfoldable pub new_node : TableInfo → DagNode
new_node info = record {
  table_idx = info.table_idx;
  table_op = info.table_op;
  cardinality = info.estimated_cardinality;
  children = [];
  parents = [];
  edges_to_parents = [];
  level = some 0;
}

unfoldable pub add_leaf : TableInfo → DagState → DagState
add_leaf info s = record s {
  all_nodes = s.all_nodes ++ new_node info ∷ [];
  node_map = put_position info.table_idx (length s.all_nodes) s.node_map;
}

-- The search for the equivalent column whose table runs latest, with the best so far.
pub record Candidate : Type 0 where
  pub best_child : ℕ
  pub best_child_dfs : ℕ
  pub best_child_col : ColumnBinding

unfoldable pub better_candidate : List (ℕ × ℕ) → ℕ → ColumnBinding → Candidate → Candidate
better_candidate node_map parent_idx key best = elim (find_position key.table_index node_map) [
  | none ↦ best
  | some dfs ↦
      if not (key.table_index == parent_idx) && ltb best.best_child_dfs dfs
      then (record { best_child = key.table_index; best_child_dfs = dfs; best_child_col = key })
      else best
]

-- The loop over the keys that there were at its start; each find may shorten paths.
unfoldable pub best_candidate :
    List (ℕ × ℕ)
    → ℕ
    → ColumnBinding
    → List ColumnBinding
    → Parents
    → Candidate
    → Option (Parents × Candidate)
best_candidate node_map parent_idx child_root [] parent best = some (parent, best)
best_candidate node_map parent_idx child_root (key ∷ keys) parent best = uf_find parent key >>= λ r.
    best_candidate node_map parent_idx child_root keys r.0
      (if binding_eq r.1 child_root then better_candidate node_map parent_idx key best else best)

unfoldable pub has_parent : ℕ → List ℕ → Bool
has_parent p [] = false
has_parent p (q ∷ parents) = q == p || has_parent p parents

-- the columns of another condition, on the first edge to the parent
unfoldable pub extend_edge : ℕ → ColumnBinding → ColumnBinding → List DagEdge → List DagEdge
extend_edge table parent_col child_col [] = []
extend_edge table parent_col child_col (e ∷ edges) =
    if e.parent_table == table
    then (record e {
      parent_cols = e.parent_cols ++ parent_col ∷ [];
      child_cols = e.child_cols ++ child_col ∷ [];
    })
      ∷ edges
    else e ∷ extend_edge table parent_col child_col edges

-- The end of the loop over the conditions: a new edge between two nodes, or more columns on the edge
-- that there is. `parent_at` and `child_at` are the nodes of the tables.
unfoldable pub link_nodes : ℕ → ColumnBinding → ℕ → Candidate → ℕ → List DagNode → List DagNode
link_nodes parent_idx parent_col parent_at best child_at nodes =
    let edge : DagEdge = record {
      parent_table = parent_idx;
      child_table = best.best_child;
      parent_cols = parent_col ∷ [];
      child_cols = best.best_child_col ∷ [];
    } in
    let linked : Bool = elim (get_elem? nodes child_at) [
      | none ↦ false
      | some n ↦ has_parent parent_at n.parents
    ] in
    let hung =
      change_node child_at
        (λ (n : DagNode). record n {
          parents = n.parents ++ parent_at ∷ [];
          edges_to_parents = n.edges_to_parents ++ edge ∷ [];
        })
        nodes in
    if linked
    then change_node child_at
        (λ (n : DagNode). record n {
          edges_to_parents =
              extend_edge parent_idx parent_col best.best_child_col n.edges_to_parents;
        })
        nodes
    else change_node parent_at
        (λ (n : DagNode). record n { children = n.children ++ child_at ∷ [] }) hung

-- The child of an edge is the latest equivalent of the column that was given for it. `parent_at` and
-- `child_at` are the nodes of the two tables.
unfoldable pub link_ordered : ColumnBinding → ℕ → ColumnBinding → ℕ → DagState → Option DagState
link_ordered parent_col parent_at child_col child_at s = uf_find s.uf_parent child_col >>= λ r.
    best_candidate s.node_map parent_col.table_index r.1
      (map (λ (entry : ColumnBinding × ColumnBinding). entry.0) r.0) r.0
      (record {
        best_child = child_col.table_index;
        best_child_dfs = child_at;
        best_child_col = child_col;
      })
    >>= λ found. find_position found.1.best_child s.node_map >>= λ best_at. some (record s {
      uf_parent = found.0;
      all_nodes =
          link_nodes parent_col.table_index parent_col parent_at found.1 best_at s.all_nodes;
    })

-- The later one of two tables is the parent.
unfoldable pub link_tables : ColumnBinding → ℕ → ColumnBinding → ℕ → DagState → Option DagState
link_tables a idx_a b idx_b s =
    if ltb idx_b idx_a then link_ordered a idx_a b idx_b s else link_ordered b idx_b a idx_a s

-- one round of the loop over the conditions of a join
unfoldable pub link_condition : Renames → JoinCondition → DagState → Option DagState
link_condition renames c s = elim (equal_columns c) [
  | none ↦ some s
  | some lr ↦ resolve_column_binding renames lr.0 >>= λ a.
      resolve_column_binding renames lr.1 >>= λ b. uf_union s.uf_parent a b >>= λ parent.
      let joined = record s { uf_parent = parent } in
      elim (find_position a.table_index s.node_map) [
        | none ↦ some joined
        | some idx_a ↦ elim (find_position b.table_index s.node_map) [
          | none ↦ some joined
          | some idx_b ↦
              if a.table_index == b.table_index
              then some joined
              else link_tables a idx_a b idx_b joined
        ]
      ]
]

unfoldable pub link_conditions : Renames → List JoinCondition → DagState → Option DagState
link_conditions renames [] s = some s
link_conditions renames (c ∷ cs) s =
    link_condition renames c s >>= λ s'. link_conditions renames cs s'

unfoldable pub is_join : OperatorType → Bool
is_join comparison_join = true
is_join delim_join = true
is_join _ = false

-- what a visit does at an operator
pub data DagVisit : Type 0 where
  leaf : TableInfo → DagVisit
  mark_join ordinary_join no_join : DagVisit

unfoldable pub join_visit : JoinType → DagVisit
join_visit mark = mark_join
join_visit _ = ordinary_join

unfoldable pub dag_visit : Operator → Option TableInfo → DagVisit
dag_visit op info =
    let inner = if is_join op.type then join_visit op.join_type else no_join in
    elim info [ none ↦ inner | some i ↦ if is_scan op.type then leaf i else inner ]

module _ (m : TableManager) (renames : Renames) where
  unfoldable mutual
    -- A child that is missing is a fault. The right child of a join, its build side, is visited
    -- first. The operators of the extension are not in the plan yet.
    pub dag_dfs : Plan → DagState → Option DagState
    dag_dfs (node (duckdb op) children) s = table_info m (node (duckdb op) children) >>= λ info.
        elim (dag_visit op info) [
          | leaf i ↦ some (add_leaf i s)
          | mark_join ↦ dag_first children s
          | ordinary_join ↦ dag_join children s >>= λ s'. link_conditions renames op.conditions s'
          | no_join ↦ dag_children children s
        ]
    dag_dfs (node (create_filter op card) children) s = dag_children children s
    dag_dfs (node (probe_filter op card) children) s = dag_children children s

    pub dag_children : Plans → DagState → Option DagState
    dag_children nil s = some s
    dag_children (cons p ps) s = dag_dfs p s >>= λ s'. dag_children ps s'

    pub dag_first : Plans → DagState → Option DagState
    dag_first nil s = none
    dag_first (cons p ps) s = dag_dfs p s

    pub dag_join : Plans → DagState → Option DagState
    dag_join nil s = none
    dag_join (cons left ps) s = dag_first ps s >>= λ s'. dag_dfs left s'
