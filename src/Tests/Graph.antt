-- ===== src/Tests/Graph.antt =====
-- Examples of the theorems on the classes of columns and on the graph of the plan.
use robust.Prelude.{
  ℕ, zero, suc, ◌*◌, ◌<◌, ◌≡◌, refl, sym, subst, ◌↔◌, true, none, some, List, [], ◌∷◌, arith, In,
}
use mathlib.Core.Option.{some-injective}
use robust.Column.{ColumnBinding}
use robust.Table.{TableInfo, TableManager, table_info, find_table, scalar_table_index, index_source}
use robust.Plan.{
  column_ref, JoinCondition, Operator, OperatorType, get, comparison_join, duckdb, Plan, node, nil,
  cons,
}
use robust.Column.{inner}
use robust.Optimizer.UnionFind.{Parents, uf_find, uf_union}
use robust.Optimizer.UnionFind.Classes.{IsClasses, uf_find-IsClasses}
use robust.Optimizer.UnionFind.Union.{merge, uf_union-IsClasses}
use robust.Optimizer.UnionFind.Closure.{union_all, Linked, union_all-Linked, empty-IsClasses}
use robust.Optimizer.Dag.{DagEdge, DagNode, is_join}
use robust.Optimizer.Dag.Links.Visit.{IsJoinPlan, IsJoinPlans, count_plans}
use robust.Optimizer.Dag.Links.Graph.{IsPlanGraph, build_physical_plan_dag-IsPlanGraph}
use robust.Optimizer.Dag.Levels.{level_at, parents_at, compute_levels, build_physical_plan_dag}
use robust.Optimizer.Dag.Levels.Reached.{IsAcyclic, compute_levels-acyclic}
use robust.Optimizer.Dag.Flip.{flip_roots_to_leaves, anchor_of, roots_from, larger_root}
use robust.Optimizer.Dag.Flip.Endless.{IsAlone, flip_roots_to_leaves-endless}

abbrev binding : ℕ → ℕ → ColumnBinding
binding t c = record { table_index = t; column_index = c }

abbrev pairs : List (ColumnBinding × ColumnBinding)
pairs = (binding 1 0, binding 2 0) ∷ (binding 3 0, binding 2 0) ∷ []

union_all-Linked_example :
    (m : Parents) × (rep : ColumnBinding → ColumnBinding) × (union_all [] pairs ≡ some m)
    × IsClasses m rep
    × ((x y : ColumnBinding) → (rep x ≡ rep y) ↔ Linked (λ c. c) pairs x y)
union_all-Linked_example = union_all-Linked pairs

uf_union-IsClasses_example :
    (m : Parents) × (uf_union [] (binding 1 0) (binding 2 0) ≡ some m)
    × IsClasses m (merge (λ c. c) (binding 1 0) (binding 2 0))
uf_union-IsClasses_example =
    uf_union-IsClasses [] (λ c. c) (binding 1 0) (binding 2 0) empty-IsClasses

abbrev united : Parents
united = (uf_union-IsClasses [] (λ c. c) (binding 1 0) (binding 2 0) empty-IsClasses).0

united-IsClasses : IsClasses united (merge (λ c. c) (binding 1 0) (binding 2 0))
united-IsClasses = (uf_union-IsClasses [] (λ c. c) (binding 1 0) (binding 2 0) empty-IsClasses).2

uf_find-IsClasses_example :
    (m : Parents) × (uf_find united (binding 1 0)
      ≡ some (m, merge (λ c. c) (binding 1 0) (binding 2 0) (binding 1 0)))
    × IsClasses m (merge (λ c. c) (binding 1 0) (binding 2 0))
uf_find-IsClasses_example =
    uf_find-IsClasses united (merge (λ c. c) (binding 1 0) (binding 2 0)) (binding 1 0)
      united-IsClasses

abbrev table_node : ℕ → List ℕ → List ℕ → List DagEdge → DagNode
table_node t children parents edges = record {
  table_idx = t;
  table_op = t;
  cardinality = 10 * t;
  children = children;
  parents = parents;
  edges_to_parents = edges;
  level = none;
}

abbrev edge_between : ℕ → ℕ → DagEdge
edge_between parent child = record {
  parent_table = parent;
  child_table = child;
  parent_cols = binding parent 0 ∷ [];
  child_cols = binding child 0 ∷ [];
}

abbrev chain : List DagNode
chain =
    table_node 1 (1 ∷ 2 ∷ []) [] []
    ∷ table_node 2 (2 ∷ []) (0 ∷ []) (edge_between 1 2 ∷ [])
    ∷ table_node 3 [] (1 ∷ 0 ∷ []) (edge_between 2 3 ∷ edge_between 1 3 ∷ [])
    ∷ []

chain-IsAcyclic : IsAcyclic chain (λ i. i)
unfolding parents_at
chain-IsAcyclic zero ps p e i = absurd (subst (In p) (sym (some-injective [] ps e)) i)
chain-IsAcyclic (suc zero) ps p e i =
    ground (arith, subst (In p) (sym (some-injective (0 ∷ []) ps e)) i)
chain-IsAcyclic (suc (suc zero)) ps p e i =
    ground (arith, subst (In p) (sym (some-injective (1 ∷ 0 ∷ []) ps e)) i)
chain-IsAcyclic (suc (suc (suc n))) ps p e i = absurd (ground (arith, e))

compute_levels-acyclic_example :
    (r : List DagNode) × (compute_levels chain ≡ some r)
    × ((i : ℕ) → i < 3 → (l : ℕ) × (level_at r i ≡ some l))
compute_levels-acyclic_example = compute_levels-acyclic chain (λ i. i) chain-IsAcyclic

-- the tables of a cross product
abbrev apart : List DagNode
apart = table_node 1 [] [] [] ∷ table_node 2 [] [] [] ∷ []

anchor_of-apart : anchor_of apart ≡ some 1
unfolding anchor_of roots_from larger_root
anchor_of-apart = refl

apart-IsAlone : IsAlone apart 0
unfolding IsAlone
apart-IsAlone = (table_node 1 [] [] [], refl, refl, refl)

flip_roots_to_leaves-endless_example : flip_roots_to_leaves 100 apart ≡ none
flip_roots_to_leaves-endless_example =
    flip_roots_to_leaves-endless 100 1 0 apart anchor_of-apart (λ e. absurd (ground (arith, e)))
      apart-IsAlone

abbrev table : ℕ → ℕ → TableInfo
table t card = record { table_idx = t; table_op = t; estimated_cardinality = card }

abbrev two_tables : TableManager
two_tables = record {
  table_lookup = (1, table 1 10) ∷ (2, table 2 500) ∷ [];
  table_ops = table 1 10 ∷ table 2 500 ∷ [];
}

abbrev operator : ℕ → OperatorType → List JoinCondition → Operator
operator id type conditions = record {
  id = id;
  type = type;
  estimated_cardinality = 10;
  table_index = id ∷ [];
  column_bindings = [];
  expressions = [];
  grouping_sets = 0;
  join_type = inner;
  conditions = conditions;
}

abbrev equality : JoinCondition
equality = record {
  is_equal = true;
  left_side = column_ref (binding 1 0);
  right_side = column_ref (binding 2 0);
}

abbrev joined_tables : Plan
joined_tables = node (duckdb (operator 9 comparison_join (equality ∷ []))) (
    cons (node (duckdb (operator 1 get [])) nil) (cons (node (duckdb (operator 2 get [])) nil) nil))

joined_tables-IsJoinPlan : IsJoinPlan two_tables joined_tables
unfolding IsJoinPlan IsJoinPlans table_info scalar_table_index index_source find_table count_plans
    is_join
joined_tables-IsJoinPlan = (
  (none, refl),
  λ e. refl,
  (
    ((some (table 1 10), refl), λ e. absurd (ground (arith, e)), tt),
    (((some (table 2 500), refl), λ e. absurd (ground (arith, e)), tt), tt),
  ),
)

build_physical_plan_dag-IsPlanGraph_example :
    (nodes : List DagNode) × (uf_parent : Parents) × (build_physical_plan_dag two_tables []
        joined_tables []
      ≡ some (nodes, uf_parent))
    × IsPlanGraph nodes uf_parent
build_physical_plan_dag-IsPlanGraph_example =
    build_physical_plan_dag-IsPlanGraph two_tables [] joined_tables joined_tables-IsJoinPlan
