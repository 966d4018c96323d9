-- ===== src/Logical.antt =====
-- `LogicalCreateFilter::CreatePlan` of src/operators/logical_create_filter.cpp and
-- `LogicalProbeFilter::CreatePlan` of src/operators/logical_probe_filter.cpp: how the columns of a
-- filter operation become columns of a chunk. The children are planned by DuckDB.
pub mod Laws
pub mod Build
use robust.Prelude.{
  ℕ, zero, suc, ◌+◌, ◌-◌, ◌*◌, ◌/◌, ◌%◌, ◌^◌, ◌≤◌, ◌<◌, min, max, ◌≡◌, refl, sym, ap, ◌∙◌, subst,
  ◌≢◌, ◌↔◌, ◌⊎◌, inl, inr, Bool, true, false, not, ◌&&◌, ◌||◌, Option, none, some, List, [], ◌∷◌,
  ◌++◌, map, foldl, arith, ltb, leb, ◌==◌, if◌then◌else◌, ltb→lt, lt→ltb, ==_iff, ==_refl,
  Bool-cases, and-eq-true, Option-cases, ◌>>=◌, >>=-eq-some, length, get_elem?, get_or, set,
  replicate, is_empty, tail, length-append, length-set, In, All, All-In, In-append,
}
use robust.Engine.{Engine}
use robust.Physical.Probe.{PhysicalProbeFilter}
use robust.Physical.CreateFilter.{FilterMap}
use robust.Column.{ColumnBinding, binding_eq, FilterOperation}
use robust.Physical.CreateFilter.{DynamicFilterTarget, PhysicalCreateFilter, new_create_filter}

-- The first position of a binding among the child's bindings.
unfoldable pub position : List ColumnBinding → ColumnBinding → Option ℕ
position [] wanted = none
position (b ∷ bs) wanted =
    let later = position bs wanted in
    if binding_eq b wanted then some 0 else later >>= λ i. some (suc i)

-- A column that the child does not have adds no index.
unfoldable pub resolve_columns : List ColumnBinding → List ColumnBinding → List ℕ
unfolding position
resolve_columns child [] = []
resolve_columns child (c ∷ cs) = elim (position child c) [
  | none ↦ resolve_columns child cs
  | some i ↦ i ∷ resolve_columns child cs
]

module _ {V F : Type 0} (engine : Engine V F) where
  -- The physical operator; the targets are copied field by field.
  unfoldable pub create_plan :
      FilterOperation
      → ℕ
      → List ColumnBinding
      → Bool
      → List DynamicFilterTarget
      → PhysicalCreateFilter F
  create_plan op est child forward targets =
      record (new_create_filter engine op est (resolve_columns child op.build_columns)) {
        pushdown_targets = targets;
        is_forward_pass = forward;
      }

module _ {F : Type 0} where
  -- `related` is the map of the related CREATE_FILTER, if it is planned already; the related
  -- operators that are planned later add themselves.
  pub probe_plan :
      FilterOperation → List ColumnBinding → Bool → Option (FilterMap F) → PhysicalProbeFilter F
  probe_plan op child passthrough related = record {
    filter_operation = op;
    bound_column_indices = resolve_columns child op.probe_columns;
    related_create_filters = elim related [ none ↦ [] | some m ↦ m ∷ [] ];
    is_passthrough = passthrough;
  }

  -- the link back of `LogicalCreateFilter::CreatePlan`
  pub link_back : FilterMap F → PhysicalProbeFilter F → PhysicalProbeFilter F
  link_back m probe = record probe {
    related_create_filters = probe.related_create_filters ++ m ∷ [];
  }
