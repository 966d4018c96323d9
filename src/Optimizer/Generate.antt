-- ===== src/Optimizer/Generate.antt =====
-- `GenerateStageModificationsFromDAG` of src/optimizer/robust_optimizer.cpp: the filter operations of
-- both passes over the graph of the plan.
pub mod Forward
pub mod Broadcast
pub mod EdgeStep
pub mod Backward
pub mod Sound
pub mod Progress
pub mod Result
use robust.Prelude.{
  ℕ, zero, suc, ◌+◌, ◌-◌, ◌*◌, ◌/◌, ◌%◌, ◌^◌, ◌≤◌, ◌<◌, min, max, ◌≡◌, refl, sym, ap, ◌∙◌, subst,
  ◌≢◌, ◌↔◌, ◌⊎◌, inl, inr, Bool, true, false, not, ◌&&◌, ◌||◌, Option, none, some, List, [], ◌∷◌,
  ◌++◌, map, foldl, arith, ltb, leb, ◌==◌, if◌then◌else◌, ltb→lt, lt→ltb, ==_iff, ==_refl,
  Bool-cases, and-eq-true, Option-cases, ◌>>=◌, >>=-eq-some, length, get_elem?, get_or, set,
  replicate, is_empty, tail, length-append, length-set, In, All, All-In, In-append,
}
use robust.Column.{ColumnBinding, binding_eq, FilterOperation}
use robust.Optimizer.Stack.{OpMap}
use robust.Optimizer.UnionFind.{Parents, uf_find}
use robust.Optimizer.Dag.{DagEdge, DagNode}
use robust.Optimizer.Operations.{
  push_op, count_ops, change_op, FilterEnd, Emitted, operation, emit_pair,
}

unfoldable pub is_at_level : ℕ → DagNode → Bool
is_at_level level n = elim n.level [ none ↦ false | some l ↦ l == level ]

-- `nodes_by_level[level]`, in the order of the nodes
unfoldable pub nodes_at : ℕ → List DagNode → List DagNode
nodes_at level [] = []
nodes_at level (n ∷ nodes) =
    let rest = nodes_at level nodes in if is_at_level level n then n ∷ rest else rest

unfoldable pub max_level : List DagNode → ℕ → ℕ
max_level [] best = best
max_level (n ∷ nodes) best = max_level nodes (elim n.level [ none ↦ best | some l ↦ max best l ])

unfoldable pub end_of : DagNode → List ColumnBinding → FilterEnd
end_of n columns = record { key = n.table_op; table = n.table_idx; columns = columns }

module _ (nodes : List DagNode) where
  -- The edges of a child, each beside its parent. A read out of bounds is a fault.
  unfoldable pub forward_edges : DagNode → List ℕ → List DagEdge → Emitted → Option Emitted
  forward_edges child parents [] s = some s
  forward_edges child [] (e ∷ edges) s = none
  forward_edges child (p ∷ parents) (e ∷ edges) s = get_elem? nodes p >>= λ parent.
      forward_edges child parents edges
        (emit_pair true (end_of child e.child_cols) (end_of parent e.parent_cols) s)

  unfoldable pub forward_nodes : List DagNode → Emitted → Option Emitted
  forward_nodes [] s = some s
  forward_nodes (child ∷ children) s =
      forward_edges child child.parents child.edges_to_parents s >>= λ s'. forward_nodes children s'

  -- the forward pass, from a level down to 1
  unfoldable pub forward_levels : ℕ → Emitted → Option Emitted
  forward_levels zero s = some s
  forward_levels (suc level) s =
      forward_nodes (nodes_at (suc level) nodes) s >>= λ s'. forward_levels level s'

-- `EquivBFSource`
pub record BfSource : Type 0 where
  pub build_table_op : ℕ
  pub create_op_index : ℕ
  pub build_table_idx : ℕ
  pub build_columns : List ColumnBinding

pub record BackwardState : Type 0 where
  pub emitted : Emitted
  pub uf_parent : Parents
  pub equiv_class_bf_source : List (ColumnBinding × BfSource)

unfoldable pub find_source : ColumnBinding → List (ColumnBinding × BfSource) → Option BfSource
find_source root [] = none
find_source root ((k, source) ∷ rest) =
    if binding_eq k root then some source else find_source root rest

-- A build column for each probe column that is added, the last one again where they run out.
-- `build_columns` is not empty.
unfoldable pub repeated_columns :
    List ColumnBinding → ColumnBinding → List ColumnBinding → List ColumnBinding
repeated_columns columns last [] = []
repeated_columns [] last (p ∷ probes) = last ∷ repeated_columns [] last probes
repeated_columns (b ∷ columns) last (p ∷ probes) = b ∷ repeated_columns columns b probes

unfoldable pub extend_create :
    BfSource → ColumnBinding → List ColumnBinding → FilterOperation → FilterOperation
extend_create source first child_cols op = record op {
  probe_columns = op.probe_columns ++ child_cols;
  build_columns = op.build_columns ++ repeated_columns source.build_columns first child_cols;
}

-- An ancestor's filter is used again.
unfoldable pub broadcast : DagNode → DagEdge → BfSource → ColumnBinding → Emitted → Emitted
broadcast child e source first s =
    let build : FilterEnd = record {
      key = source.build_table_op;
      table = source.build_table_idx;
      columns = source.build_columns;
    } in
    record {
      ops =
          push_op child.table_op
            (operation false false build (end_of child e.child_cols) s.sequence)
            (change_op source.build_table_op source.create_op_index
              (extend_create source first e.child_cols) s.ops);
      sequence = suc s.sequence;
    }

-- One edge of the backward pass. The first column of the edge is read, and a node's parent; out of
-- bounds they are a fault.
unfoldable pub backward_edge : DagNode → DagNode → DagEdge → BackwardState → Option BackwardState
backward_edge child parent e s = get_elem? e.parent_cols 0 >>= λ first.
    uf_find s.uf_parent first >>= λ r. elim (find_source r.1 s.equiv_class_bf_source) [
      | some source ↦ get_elem? source.build_columns 0 >>= λ b.
          some (record s { emitted = broadcast child e source b s.emitted; uf_parent = r.0 })
      | none ↦ some (record {
        emitted =
            emit_pair false (end_of parent e.parent_cols) (end_of child e.child_cols) s.emitted;
        uf_parent = r.0;
        equiv_class_bf_source =
            (
              r.1,
              record {
                build_table_op = parent.table_op;
                create_op_index = count_ops parent.table_op s.emitted.ops;
                build_table_idx = parent.table_idx;
                build_columns = e.parent_cols;
              },
            )
            ∷ s.equiv_class_bf_source;
      })
    ]

unfoldable pub indices : ℕ → List DagEdge → List ℕ
indices i [] = []
indices i (e ∷ edges) = i ∷ indices (suc i) edges

-- `std::sort` by a key: what it answers has the elements that it was given.
pub record Sort : Type 0 where
  pub sort : (ℕ → ℕ) → List ℕ → List ℕ
  pub In-sort : (key : ℕ → ℕ) (xs : List ℕ) (x : ℕ) → In x (sort key xs) ↔ In x xs

module _ (std : Sort) (nodes : List DagNode) where
  -- the cardinality of the parent of an edge
  unfoldable pub parent_cardinality : DagNode → ℕ → ℕ
  parent_cardinality child ei = elim (get_elem? child.parents ei >>= λ p. get_elem? nodes p) [
    | none ↦ 0
    | some parent ↦ parent.cardinality
  ]

  unfoldable pub backward_edges : DagNode → List ℕ → BackwardState → Option BackwardState
  backward_edges child [] s = some s
  backward_edges child (ei ∷ rest) s = get_elem? child.edges_to_parents ei >>= λ e.
      get_elem? child.parents ei >>= λ p. get_elem? nodes p >>= λ parent.
      backward_edge child parent e s >>= λ s'. backward_edges child rest s'

  unfoldable pub backward_nodes : List DagNode → BackwardState → Option BackwardState
  backward_nodes [] s = some s
  backward_nodes (child ∷ children) s =
      backward_edges child (std.sort (parent_cardinality child) (indices 0 child.edges_to_parents))
        s
      >>= λ s'. backward_nodes children s'

  -- the backward pass over `k` levels from a level upwards
  unfoldable pub backward_levels : ℕ → ℕ → BackwardState → Option BackwardState
  backward_levels zero level s = some s
  backward_levels (suc k) level s =
      backward_nodes (nodes_at level nodes) s >>= λ s'. backward_levels k (suc level) s'

  -- the operations of both passes, and what the finds leave of the classes
  unfoldable pub generate_from_dag : Parents → Option (OpMap × OpMap × Parents)
  generate_from_dag uf_parent =
      let top = max_level nodes 0 in
      forward_levels nodes top (record { ops = []; sequence = 0 }) >>= λ fwd.
      backward_levels top 1 (record {
        emitted = record { ops = []; sequence = fwd.sequence };
        uf_parent = uf_parent;
        equiv_class_bf_source = [];
      })
      >>= λ bwd. some (fwd.ops, bwd.emitted.ops, bwd.uf_parent)
