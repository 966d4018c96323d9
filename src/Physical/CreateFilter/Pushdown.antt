-- ===== src/Physical/CreateFilter/Pushdown.antt =====
-- `PushDynamicFilters` of src/operators/physical_create_filter.cpp.
pub mod Sound
use robust.Prelude.{
  ℕ, ◌+◌, Bool, true, false, not, ◌&&◌, Option, none, some, List, [], ◌∷◌, ◌++◌, if◌then◌else◌,
  get_elem?, is_empty,
}
use robust.Column.{ColumnBinding, binding_eq}
use robust.Engine.{Engine}
use robust.Physical.Bloom.{PtBloomFilter, bloom_is_empty}
use robust.Physical.MinMax.{MinMax}
use robust.Physical.Distinct.{ColumnDistinct, contains}
use robust.Physical.CreateFilter.{
  PhysicalCreateFilter, GlobalSinkState, DynamicFilterTarget, find_filter,
}

-- The setting `robust_filter_type`; unset is `all_types`.
pub data FilterType : Type 0 where
  all_types bf_only minmax_only other_filter_type : FilterType

-- The filters that DuckDB is handed. `always_false` is "greater than the type's maximum".
pub data TableFilter (V F : Type 0) : Type 0 where
  always_false : TableFilter V F
  equal : V → TableFilter V F
  optional_in : List V → TableFilter V F
  optional_bloom : F → TableFilter V F
  at_least : V → TableFilter V F
  at_most : V → TableFilter V F

-- A filter for a column of one scan's filter set.
pub record Pushed (V F : Type 0) : Type 0 where
  pub dynamic_filters : ℕ
  pub scan_column_index : ℕ
  pub filter : TableFilter V F

abbrev pub push_bf : FilterType → Bool
push_bf all_types = true
push_bf bf_only = true
push_bf _ = false

abbrev pub push_minmax : FilterType → Bool
push_minmax all_types = true
push_minmax minmax_only = true
push_minmax _ = false

abbrev pub consider_in : FilterType → Bool
consider_in all_types = true
consider_in _ = false

module _ {V F : Type 0} (engine : Engine V F) (is_dense_range : List V → Bool) where
  -- The equality or the IN-filter of a tracked set, and whether an equality was pushed. The values
  -- are never NULL, so the code's test for a NULL among them fails.
  unfoldable pub push_distinct : List V → List (TableFilter V F) × Bool
  push_distinct [] = ([], false)
  push_distinct (v ∷ []) = (equal v ∷ [], true)
  push_distinct (v ∷ w ∷ vs) =
      if is_dense_range (v ∷ w ∷ vs) then ([], false) else (optional_in (v ∷ w ∷ vs) ∷ [], false)

  unfoldable pub push_in : FilterType → Option (ColumnDistinct V) → List (TableFilter V F) × Bool
  push_in setting none = ([], false)
  push_in setting (some cd) =
      if consider_in setting && not cd.over_threshold then push_distinct cd.values else ([], false)

  unfoldable pub push_bloom : FilterType → Bool → Option (PtBloomFilter F) → List (TableFilter V F)
  push_bloom setting pushed_equal none = []
  push_bloom setting pushed_equal (some bf) =
      if push_bf setting && not pushed_equal && not (bloom_is_empty bf)
      then optional_bloom bf.native ∷ []
      else []

  -- the outer option is the bounds check, the inner one `has_value`
  unfoldable pub push_range :
      FilterType → Bool → Option (Option (MinMax V)) → List (TableFilter V F)
  push_range setting pushed_equal (some (some mm)) =
      if push_minmax setting && not pushed_equal
      then at_least mm.min_val ∷ at_most mm.max_val ∷ []
      else []
  push_range setting pushed_equal _ = []

  -- what is pushed for one target at the index `i` where its probe column stands
  unfoldable pub column_filters :
      PhysicalCreateFilter F
      → GlobalSinkState V
      → FilterType
      → ColumnBinding
      → ℕ
      → List (TableFilter V F)
  column_filters op g setting build_col i =
      let (ins, pushed_equal) = push_in setting (get_elem? g.column_distinct i) in
      ins
      ++ (push_bloom setting pushed_equal (find_filter build_col op.bloom_filter_map)
          ++ push_range setting pushed_equal (get_elem? g.column_min_max i))

  -- The loop over the build columns: it ends with the probe columns, or at the first match.
  unfoldable pub target_filters :
      PhysicalCreateFilter F
      → GlobalSinkState V
      → FilterType
      → ColumnBinding
      → ℕ
      → List ColumnBinding
      → List ColumnBinding
      → List (TableFilter V F)
  target_filters op g setting target i [] probes = []
  target_filters op g setting target i (b ∷ builds) [] = []
  target_filters op g setting target i (b ∷ builds) (p ∷ probes) =
      let rest = target_filters op g setting target (i + 1) builds probes in
      if binding_eq p target then column_filters op g setting b i else rest

  unfoldable pub tag : DynamicFilterTarget → List (TableFilter V F) → List (Pushed V F)
  tag target [] = []
  tag target (f ∷ fs) =
      record {
        dynamic_filters = target.dynamic_filters;
        scan_column_index = target.scan_column_index;
        filter = f;
      }
      ∷ tag target fs

  unfoldable pub push_targets :
      PhysicalCreateFilter F
      → GlobalSinkState V
      → FilterType
      → List DynamicFilterTarget
      → List (Pushed V F)
  push_targets op g setting [] = []
  push_targets op g setting (t ∷ ts) =
      let fs : List (TableFilter V F) =
        if is_empty g.total_data
        then always_false ∷ []
        else target_filters op g setting t.probe_column 0 op.filter_operation.build_columns
            op.filter_operation.probe_columns in
      tag t fs ++ push_targets op g setting ts

  unfoldable pub push_dynamic_filters :
      PhysicalCreateFilter F → GlobalSinkState V → FilterType → List (Pushed V F)
  push_dynamic_filters op g setting =
      if op.is_forward_pass then push_targets op g setting op.pushdown_targets else []

  open engine use {less, lookup_hash, hash}

  -- Whether a value other than NULL passes a filter that the scan evaluates.
  abbrev pub passes : TableFilter V F → V → Bool
  passes always_false v = false
  passes (equal w) v = engine.value_eq w v
  passes (optional_in ws) v = contains engine ws v
  passes (optional_bloom f) v = lookup_hash (hash (some v)) f
  passes (at_least w) v = not (less v w)
  passes (at_most w) v = not (less w v)
