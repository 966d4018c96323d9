-- ===== src/Optimizer/Generate/Result.antt =====
-- The two passes of `GenerateStageModificationsFromDAG` of src/optimizer/robust_optimizer.cpp.
use robust.Prelude.{ℕ, suc, ◌≡◌, refl, some, List, [], arith, In}
use robust.Column.{ColumnBinding}
use robust.Optimizer.Stack.{OpMap, find_ops}
use robust.Optimizer.UnionFind.{Parents}
use robust.Optimizer.UnionFind.Classes.{IsClasses}
use robust.Optimizer.Dag.{DagEdge, DagNode}
use robust.Optimizer.Dag.Links.{IsLinked}
use robust.Optimizer.Operations.{op_at}
use robust.Optimizer.Generate.{find_source, Sort, max_level, generate_from_dag, find_source}
use robust.Optimizer.Generate.Sound.{IsSoundOps}
use robust.Optimizer.Generate.Progress.{IsProbed, level_le-max_level}
use robust.Optimizer.Generate.Forward.{forward_levels-IsProgress}
use robust.Optimizer.Generate.Backward.{backward_levels-IsAdvanced}

no_ops-IsSoundOps : (nodes : List DagNode) → IsSoundOps nodes []
unfolding op_at find_ops
no_ops-IsSoundOps nodes = record {
  balanced = λ k i c e h. absurd (ground (arith, e));
  creates_home = λ k i c e h. absurd (ground (arith, e));
  probes_home = λ k i c e h. absurd (ground (arith, e));
  served = λ k i c e h. absurd (ground (arith, e));
}

-- What the passes make: sound maps, the classes as they were, and for each edge of a node on a level
-- above 0 a probe at its parent in the forward map and a probe at the node in the backward map.
pub record IsGenerated (nodes : List DagNode) (rep : ColumnBinding → ColumnBinding)
    (forward backward : OpMap) (uf_parent : Parents) : Type 0 where
  pub sound_forward : IsSoundOps nodes forward
  pub sound_backward : IsSoundOps nodes backward
  pub same_classes : IsClasses uf_parent rep
  pub up :
      (n : DagNode) (l : ℕ) (e : DagEdge)
      → In n nodes
      → n.level ≡ some (suc l)
      → In e n.edges_to_parents
      → IsProbed forward e.parent_table e.parent_cols
  pub down :
      (n : DagNode) (l : ℕ) (e : DagEdge)
      → In n nodes
      → n.level ≡ some (suc l)
      → In e n.edges_to_parents
      → IsProbed backward n.table_idx e.child_cols

-- On a graph with its edges beside the parents, and with classes of columns, both passes run without
-- a fault. They leave the classes as they were and make sound maps, in which each CREATE_FILTER
-- stands at its build table with as many build as probe columns, and each PROBE_FILTER at its probe
-- table, with a CREATE_FILTER in its map that has its build table and all its probe columns. Each
-- edge of a node on a level above 0 has a forward probe at the parent and a backward probe at the
-- node.
pub generate_from_dag-IsGenerated :
    (std : Sort) (nodes : List DagNode) (uf_parent : Parents) (rep : ColumnBinding → ColumnBinding)
    → IsLinked nodes
    → IsClasses uf_parent rep
    → (forward backward : OpMap) × (uf_parent' : Parents) × (generate_from_dag std nodes uf_parent
        ≡ some (forward, backward, uf_parent'))
      × IsGenerated nodes rep forward backward uf_parent'
unfolding generate_from_dag find_source
generate_from_dag-IsGenerated std nodes uf_parent rep w classes =
    let top = max_level nodes 0 in
    let (fwd, ran₁, forth) =
      forward_levels-IsProgress nodes top (record { ops = []; sequence = 0 }) w
        (no_ops-IsSoundOps nodes) in
    let (bwd, ran₂, back) =
      backward_levels-IsAdvanced nodes rep std top 1
        (record {
          emitted = record { ops = []; sequence = fwd.sequence };
          uf_parent = uf_parent;
          equiv_class_bf_source = [];
        })
        w
        (record {
          sound = no_ops-IsSoundOps nodes;
          classes = classes;
          sources = λ root source e. absurd (ground (arith, e));
        }) in
    (
      fwd.ops,
      bwd.emitted.ops,
      bwd.uf_parent,
      ground (arith, ran₁, ran₂),
      record {
        sound_forward = forth.sound;
        sound_backward = back.holds.sound;
        same_classes = back.holds.classes;
        up = λ n l e i at m. forth.done e.parent_table e.parent_cols (
          n,
          l,
          i,
          at,
          ground (arith, level_le-max_level nodes 0 n (suc l) i at),
          (e, m, (refl, refl)),
        );
        down = λ n l e i at m. back.progress.done n.table_idx e.child_cols (
          n,
          e,
          suc l,
          i,
          at,
          ground arith,
          ground (arith, level_le-max_level nodes 0 n (suc l) i at),
          m,
          (refl, refl),
        );
      },
    )
