-- ===== src/Optimizer/Generate/EdgeStep.antt =====
-- One edge in the backward pass of `GenerateStageModificationsFromDAG` of src/optimizer/robust_optimizer.cpp.
use robust.Prelude.{
  ℕ, ◌<◌, ◌≡◌, refl, subst, inl, inr, Bool, true, false, some, List, ◌∷◌, arith, Bool-cases,
  Option-cases, length,
}
use mathlib.Core.Option.{some-injective}
use robust.Column.{ColumnBinding, binding_eq}
use robust.Optimizer.UnionFind.Classes.{uf_find-IsClasses}
use robust.Optimizer.Dag.{DagEdge, DagNode}
use robust.Optimizer.Dag.Links.{IsEdge}
use robust.Optimizer.Operations.{FilterEnd, Emitted, operation, emit_pair, count_ops}
use robust.Optimizer.Operations.Laws.{op_at-push_op, op_at-pushed_op}
use robust.Optimizer.Generate.{
  BfSource, BackwardState, find_source, broadcast, backward_edge, end_of,
}
use robust.Optimizer.Generate.Sound.{IsHome}
use robust.Optimizer.Generate.Progress.{IsProgress, IsWanted}
use robust.Optimizer.Generate.Forward.{emit_pair-IsProgress}
use robust.Optimizer.Generate.Broadcast.{
  IsSource, IsBackward, first_column, IsSource-push_op, broadcast-IsProgress,
}

-- What a step of the pass makes of a state.
pub record IsAdvanced (nodes : List DagNode) (rep : ColumnBinding → ColumnBinding)
    (s s' : BackwardState) (wanted : ℕ → List ColumnBinding → Type 0) : Type 0 where
  pub holds : IsBackward nodes rep s'
  pub progress : IsProgress nodes s.emitted.ops s'.emitted.ops wanted

emit_pair-IsSource :
    (parent : DagNode) (build probe : FilterEnd) (cols : List ColumnBinding) (s : Emitted)
    → 0 < length cols
    → IsSource
        (emit_pair false
          (record build { key = parent.table_op; table = parent.table_idx })
          probe
          s).ops
        (record {
          build_table_op = parent.table_op;
          create_op_index = count_ops parent.table_op s.ops;
          build_table_idx = parent.table_idx;
          build_columns = cols;
        })
unfolding emit_pair operation
emit_pair-IsSource parent build probe cols s lt = record {
  create =
      operation true false (record build { key = parent.table_op; table = parent.table_idx }) probe
        s.sequence;
  found = op_at-push_op _ probe.key _ _ _ _ (op_at-pushed_op s.ops parent.table_op _);
  creates = refl;
  same_table = refl;
  some_column = lt;
}

emit_pair-IsSource_kept :
    (forward : Bool) (build probe : FilterEnd) (s : Emitted) (source : BfSource)
    → IsSource s.ops source
    → IsSource (emit_pair forward build probe s).ops source
unfolding emit_pair
emit_pair-IsSource_kept forward build probe s source w =
    IsSource-push_op _ probe.key _ source (IsSource-push_op s.ops build.key _ source w)

module _ (nodes : List DagNode) (rep : ColumnBinding → ColumnBinding) where
  pub backward_edge-IsAdvanced :
      (child parent : DagNode) (p : ℕ) (e : DagEdge) (s : BackwardState)
      → IsEdge nodes child.table_idx p e
      → IsHome nodes child.table_op child.table_idx
      → IsHome nodes parent.table_op parent.table_idx
      → IsBackward nodes rep s
      → (s' : BackwardState) × (backward_edge child parent e s ≡ some s')
        × IsAdvanced nodes rep s s' (IsWanted child.table_idx e.child_cols)
  unfolding backward_edge find_source end_of
  backward_edge-IsAdvanced child parent p e s edge home parent_home w =
      let (first, at) = first_column e.parent_cols edge.some_column in
      let (uf, ran, classes) = uf_find-IsClasses s.uf_parent rep first w.classes in
      elim (Option-cases (find_source (rep first) s.equiv_class_bf_source)) [
        | inr (source, found) ↦
            let here = w.sources (rep first) source found in
            let (b, at_b) = first_column source.build_columns here.some_column in
            let (progress, sources) =
              broadcast-IsProgress nodes child e source b s.emitted here home w.sound in
            (
              record s { emitted = broadcast child e source b s.emitted; uf_parent = uf },
              ground (arith, at, ran, found, at_b),
              record {
                holds = record {
                  sound = progress.sound;
                  classes = classes;
                  sources = λ root other f. sources other (w.sources root other f);
                };
                progress = progress;
              },
            )
        | inl missing ↦
            let build = end_of parent e.parent_cols in
            let probe = end_of child e.child_cols in
            let source : BfSource = record {
              build_table_op = parent.table_op;
              create_op_index = count_ops parent.table_op s.emitted.ops;
              build_table_idx = parent.table_idx;
              build_columns = e.parent_cols;
            } in
            let progress =
              emit_pair-IsProgress nodes false build probe s.emitted edge.paired parent_home home
                w.sound in
            (
              record {
                emitted = emit_pair false build probe s.emitted;
                uf_parent = uf;
                equiv_class_bf_source = (rep first, source) ∷ s.equiv_class_bf_source;
              },
              ground (arith, at, ran, missing),
              record {
                holds = record {
                  sound = progress.sound;
                  classes = classes;
                  sources = λ root other f. elim (Bool-cases (binding_eq (rep first) root)) [
                    | inl h ↦
                        subst (IsSource (emit_pair false build probe s.emitted).ops)
                          (some-injective source other (ground (arith, h, f)))
                          (emit_pair-IsSource parent build probe e.parent_cols s.emitted
                            edge.some_column)
                    | inr h ↦
                        emit_pair-IsSource_kept false build probe s.emitted other
                          (w.sources root other (ground (arith, h, f)))
                  ];
                };
                progress = progress;
              },
            )
      ]
