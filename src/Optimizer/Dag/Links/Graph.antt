-- ===== src/Optimizer/Dag/Links/Graph.antt =====
-- The graph that `BuildPhysicalPlanDAG` of src/optimizer/robust_optimizer.cpp answers.
use robust.Prelude.{◌≡◌, some, List, [], arith}
use robust.Column.{ColumnBinding}
use robust.Table.{TableManager}
use robust.Plan.{Plan}
use robust.Optimizer.Extract.{Renames}
use robust.Optimizer.UnionFind.{Parents}
use robust.Optimizer.UnionFind.Classes.{IsClasses}
use robust.Optimizer.UnionFind.Closure.{empty-IsClasses}
use robust.Optimizer.Dag.{DagNode, DagState, find_position}
use robust.Optimizer.Dag.Links.{IsLinked}
use robust.Optimizer.Dag.Links.Build.{IsBuilt}
use robust.Optimizer.Dag.Links.Visit.{IsJoinPlan, IsRun, dag_dfs-IsBuilt}
use robust.Optimizer.Dag.Levels.{build_physical_plan_dag}
use robust.Optimizer.Dag.Levels.Reached.{IsLevelled, compute_levels-IsLevelled}
use robust.Optimizer.Dag.Flip.Result.{IsLinked-same}

-- What the graph of a plan is.
pub record IsPlanGraph (nodes : List DagNode) (uf_parent : Parents) : Type 0 where
  pub linked : IsLinked nodes
  pub levelled : IsLevelled nodes
  pub classes : (rep : ColumnBinding → ColumnBinding) × IsClasses uf_parent rep

no_nodes-IsBuilt : IsBuilt (record { all_nodes = []; node_map = []; uf_parent = [] })
unfolding IsLinked find_position
no_nodes-IsBuilt = record {
  linked = λ i n e. absurd (ground (arith, e));
  mapped = λ t i e. absurd (ground (arith, e));
  classes = (_, empty-IsClasses);
}

-- On every plan in which the table index of each operator is read without a fault and each join has two
-- children the graph is built, by finitely many rounds of each loop and without a fault. In it each edge lies beside its parent, names the tables of both ends
-- and has as many columns of the one as of the other, at least one; the levels are those of the
-- graph; and the map of the columns has classes.
pub build_physical_plan_dag-IsPlanGraph :
    (m : TableManager) (renames : Renames) (p : Plan)
    → IsJoinPlan m p
    → (nodes : List DagNode) × (uf_parent : Parents) × (build_physical_plan_dag m renames p []
        ≡ some (nodes, uf_parent))
      × IsPlanGraph nodes uf_parent
unfolding build_physical_plan_dag IsRun
build_physical_plan_dag-IsPlanGraph m renames p w =
    let start : DagState = record { all_nodes = []; node_map = []; uf_parent = [] } in
    let (s, ran₁, built) = dag_dfs-IsBuilt m renames p w start no_nodes-IsBuilt in
    let (nodes, ran₂, same, levels) = compute_levels-IsLevelled s.all_nodes in
    (
      nodes,
      s.uf_parent,
      ground (arith, ran₁, ran₂),
      record {
        linked = IsLinked-same s.all_nodes nodes same built.linked;
        levelled = levels;
        classes = built.classes;
      },
    )
