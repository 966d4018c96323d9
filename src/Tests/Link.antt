-- ===== src/Tests/Link.antt =====
-- Examples of the theorems on the walk, the linking and the setup of the pushdown.
use robust.Prelude.{ℕ, zero, suc, ◌≡◌, refl, Bool, true, false, none, some, List, [], ◌∷◌}
use robust.Column.{ColumnBinding, FilterOperation, inner}
use robust.Physical.Chunk.{LogicalTypeId}
use robust.Table.{TableInfo, TableManager}
use robust.Plan.{get, duckdb, create_filter, probe_filter, Plan, node, nil, cons}
use robust.Optimizer.Walk.{operators}
use robust.Optimizer.Walk.Order.{last_first, operators-last_first}
use robust.Optimizer.Link.{LinkedOperator, link_filters}
use robust.Optimizer.Link.Result.{IsLinkage, link_filters-IsLinkage}
use robust.Optimizer.Pushdown.{Scan, setup_pushdown}
use robust.Optimizer.Pushdown.Sound.{IsPushed, targets_at, is_passthrough_at}
use robust.Optimizer.Pushdown.Result.{IsFresh, setup_pushdown-IsPushed}

abbrev binding : ℕ → ℕ → ColumnBinding
binding t c = record { table_index = t; column_index = c }

abbrev filter_of : Bool → FilterOperation
filter_of create = record {
  is_create = create;
  build_table_idx = 1;
  probe_table_idx = 2;
  build_columns = binding 1 0 ∷ [];
  probe_columns = binding 2 0 ∷ [];
  sequence_number = 0;
  is_forward_pass = true;
}

abbrev scan : ℕ → Plan
scan t =
    node
      (duckdb (record {
        id = t;
        type = get;
        estimated_cardinality = 10;
        table_index = t ∷ [];
        column_bindings = [];
        expressions = [];
        grouping_sets = 0;
        join_type = inner;
        conditions = [];
      }))
      nil

abbrev filtered_join : Plan
filtered_join =
    node (create_filter (filter_of true) 10)
      (cons (scan 1) (cons (node (probe_filter (filter_of false) 10) (cons (scan 2) nil)) nil))

operators-last_first_example : operators filtered_join ≡ some (last_first filtered_join)
operators-last_first_example = operators-last_first filtered_join

link_filters-IsLinkage_example :
    (ops : List LinkedOperator) × (link_filters filtered_join ≡ some ops)
    × IsLinkage (last_first filtered_join) ops
link_filters-IsLinkage_example = link_filters-IsLinkage filtered_join

abbrev linked : List LinkedOperator
linked =
    (record {
      operator = create_filter (filter_of true) 10;
      related_create_filter = none;
      related_probe_filter = 1 ∷ [];
      pushdown_targets = [];
      is_passthrough = false;
    })
    ∷ (record {
      operator = probe_filter (filter_of false) 10;
      related_create_filter = some 0;
      related_probe_filter = [];
      pushdown_targets = [];
      is_passthrough = false;
    })
    ∷ []

abbrev table : ℕ → TableInfo
table t = record { table_idx = t; table_op = t; estimated_cardinality = 10 }

abbrev two_tables : TableManager
two_tables = record {
  table_lookup = (1, table 1) ∷ (2, table 2) ∷ [];
  table_ops = table 1 ∷ table 2 ∷ [];
}

abbrev scan_of : ℕ → Scan
scan_of id = record {
  column_ids = 0 ∷ 1 ∷ [];
  returned_types = LogicalTypeId.bigint ∷ LogicalTypeId.integer ∷ [];
}

linked-IsFresh : IsFresh linked
unfolding IsFresh targets_at is_passthrough_at
linked-IsFresh = (no_targets, no_passthrough)
  where
    no_targets : (c : ℕ) → targets_at linked c ≡ []
    no_targets zero = refl
    no_targets (suc zero) = refl
    no_targets (suc (suc c)) = refl

    no_passthrough : (i : ℕ) → is_passthrough_at linked i ≡ false
    no_passthrough zero = refl
    no_passthrough (suc zero) = refl
    no_passthrough (suc (suc i)) = refl

setup_pushdown-IsPushed_example :
    IsPushed two_tables scan_of filtered_join linked
      (setup_pushdown two_tables scan_of filtered_join linked)
setup_pushdown-IsPushed_example =
    setup_pushdown-IsPushed two_tables scan_of filtered_join linked linked-IsFresh
