-- ===== src/Optimizer/Generate/Broadcast.antt =====
-- The filters of the backward pass of `GenerateStageModificationsFromDAG` of
-- src/optimizer/robust_optimizer.cpp, built once for a class of columns and used again further down.
use robust.Prelude.{
  ℕ, ◌<◌, ◌≡◌, refl, sym, ap, ◌∙◌, subst, inl, inr, true, false, ◌&&◌, some, List, [], ◌∷◌, arith,
  ◌==◌, ==_iff, ==_refl, Bool-cases, and-eq-true, length, get_elem?, In-append,
}
use mathlib.Core.Option.{some-injective}
use robust.Column.{ColumnBinding, FilterOperation}
use robust.Optimizer.Stack.{OpMap}
use robust.Optimizer.UnionFind.Classes.{IsClasses}
use robust.Optimizer.Dag.{DagEdge, DagNode}
use robust.Optimizer.Operations.{FilterEnd, Emitted, operation, push_op, change_op, op_at}
use robust.Optimizer.Operations.Laws.{op_at-push_op, op_at-change_op}
use robust.Optimizer.Generate.{
  BfSource, BackwardState, find_source, extend_create, broadcast, end_of,
}
use robust.Optimizer.Generate.Sound.{
  IsHome, IsSoundOps, push_probe-IsSoundOps, extend_create-IsSoundOps, find_extended,
}
use robust.Optimizer.Generate.Progress.{
  IsProbed, IsProgress, IsWanted, IsProbed-push_op, pushed-IsProbed,
}

-- The CREATE_FILTER of a source is in the map, and has a build column.
pub record IsSource (m : OpMap) (source : BfSource) : Type 0 where
  pub create : FilterOperation
  pub found : op_at m source.build_table_op source.create_op_index ≡ some create
  pub creates : create.is_create ≡ true
  pub same_table : create.build_table_idx ≡ source.build_table_idx
  pub some_column : 0 < length source.build_columns

pub record IsBackward (nodes : List DagNode) (rep : ColumnBinding → ColumnBinding)
    (s : BackwardState) : Type 0 where
  pub sound : IsSoundOps nodes s.emitted.ops
  pub classes : IsClasses s.uf_parent rep
  pub sources :
      (root : ColumnBinding) (source : BfSource)
      → find_source root s.equiv_class_bf_source ≡ some source
      → IsSource s.emitted.ops source

pub first_column :
    (cols : List ColumnBinding)
    → 0 < length cols
    → (c : ColumnBinding) × (get_elem? cols 0 ≡ some c)
first_column [] lt = absurd (ground (arith, lt))
first_column (c ∷ cols) lt = (c, refl)

pub IsSource-push_op :
    (m : OpMap) (k : ℕ) (op : FilterOperation) (source : BfSource)
    → IsSource m source
    → IsSource (push_op k op m) source
IsSource-push_op m k op source w = record {
  create = w.create;
  found = op_at-push_op m k _ _ op w.create w.found;
  creates = w.creates;
  same_table = w.same_table;
  some_column = w.some_column;
}

module _ (nodes : List DagNode) (child : DagNode) (e : DagEdge) (source : BfSource)
    (first : ColumnBinding) where
  abbrev extend : OpMap → OpMap
  extend m =
      change_op source.build_table_op source.create_op_index
        (extend_create source first e.child_cols) m

  IsSource-extend : (m : OpMap) (other : BfSource) → IsSource m other → IsSource (extend m) other
  IsSource-extend m other w =
      let (c, at, is, same, _) =
        find_extended source first e.child_cols m source.build_table_op source.create_op_index _ _
          w.create w.found in
      record {
        create = c;
        found = at;
        creates = is ∙ w.creates;
        same_table = same ∙ w.same_table;
        some_column = w.some_column;
      }

  IsProbed-extend :
      (m : OpMap) (t : ℕ) (cols : List ColumnBinding)
      → IsSource m source
      → IsProbed m t cols
      → IsProbed (extend m) t cols
  IsProbed-extend m t cols w p =
      elim (Bool-cases (source.build_table_op == p.key && source.create_op_index == p.place)) [
        | inl h ↦
            let (hk, hi) =
              and-eq-true (source.build_table_op == p.key) (source.create_op_index == p.place) h in
            let same : w.create ≡ p.probe = some-injective w.create p.probe (
              sym w.found
              ∙ ap (λ (x : ℕ). op_at m x source.create_op_index)
                  ((==_iff source.build_table_op p.key).0 hk)
              ∙ ap (op_at m p.key) ((==_iff source.create_op_index p.place).0 hi)
              ∙ p.found) in
            absurd
              (ground (arith, w.creates, p.probes, ap (λ (o : FilterOperation). o.is_create) same))
        | inr h ↦ record {
          key = p.key;
          place = p.place;
          probe = p.probe;
          found = ground (
            arith,
            h,
            p.found,
            op_at-change_op m source.build_table_op source.create_op_index p.key p.place
                (extend_create source first e.child_cols),
          );
          probes = p.probes;
          same_table = p.same_table;
          same_columns = p.same_columns;
        }
      ]

  extended_at :
      (m : OpMap) (w : IsSource m source)
      → op_at (extend m) source.build_table_op source.create_op_index
        ≡ some (extend_create source first e.child_cols w.create)
  extended_at m w = ground (
    arith,
    w.found,
    ==_refl source.build_table_op,
    ==_refl source.create_op_index,
    op_at-change_op m source.build_table_op source.create_op_index source.build_table_op
        source.create_op_index (extend_create source first e.child_cols),
  )

  pub broadcast-IsProgress :
      (s : Emitted)
      → IsSource s.ops source
      → IsHome nodes child.table_op child.table_idx
      → IsSoundOps nodes s.ops
      → IsProgress nodes s.ops
          (broadcast child e source first s).ops
          (IsWanted child.table_idx e.child_cols)
        × ((other : BfSource)
            → IsSource s.ops other
            → IsSource (broadcast child e source first s).ops other)
  unfolding broadcast operation end_of extend_create
  broadcast-IsProgress s w home sound =
      let m = extend s.ops in
      let build : FilterEnd = record {
        key = source.build_table_op;
        table = source.build_table_idx;
        columns = source.build_columns;
      } in
      let probe = operation false false build (end_of child e.child_cols) s.sequence in
      (
        record {
          sound =
              push_probe-IsSoundOps nodes m child.table_op probe refl
                (record {
                  key = source.build_table_op;
                  place = source.create_op_index;
                  create = extend_create source first e.child_cols w.create;
                  found = extended_at s.ops w;
                  creates = w.creates;
                  same_table = w.same_table;
                  columns = λ x i. (In-append x w.create.probe_columns e.child_cols).1 (inr i);
                })
                home
                (extend_create-IsSoundOps source first e.child_cols nodes s.ops _ _ w.create w.found
                  w.creates sound);
          kept = λ t cols p.
              IsProbed-push_op m child.table_op t probe cols (IsProbed-extend s.ops t cols w p);
          done = λ t cols h.
              subst (λ (x : ℕ). IsProbed (push_op child.table_op probe m) x cols) h.0
                (subst (IsProbed (push_op child.table_op probe m) child.table_idx) h.1
                  (pushed-IsProbed m child.table_op probe refl));
        },
        λ other v. IsSource-push_op m child.table_op probe other (IsSource-extend s.ops other v),
      )
