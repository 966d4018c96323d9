-- ===== src/Tests/Optimizer.antt =====
-- Examples of the theorems on the optimizer.
use robust.Optimizer.SpanningTree.Joinable.{IsLargest}
use robust.Prelude.{
  arith, All, ℕ, ◌+◌, ◌≡◌, refl, inl, inr, true, some, List, [], ◌∷◌, length, get_elem?,
}
use robust.Column.{ColumnBinding, inner, JoinEdge, FilterOperation}
use robust.Plan.{
  column_ref, Operator, OperatorType, get, filter, comparison_join, duckdb, create_filter, Plan,
  node, nil, cons, erase,
}
use robust.Table.Laws.{IsConsistent}
use robust.Optimizer.Extract.{
  Extraction, extract, extract_children, visit, collect_join, add_node, is_scan, is_join_extracted,
  any_equal, create_join_edges,
}
use robust.Optimizer.Extract.Edges.{IsJoinEdge, create_join_edges-IsJoinEdge}
use robust.Optimizer.Extract.Tables.{extract-IsConsistent}
use robust.Table.{
  empty_manager, add_table_operator, register, add_table, put_table, find_table, scalar_table_index,
  index_source, node_id, node_cardinality, TableInfo, TableManager,
}
use robust.Optimizer.Stack.{OpMap, apply_modifications, merged_ops, merge_run}
use robust.Optimizer.Stack.Laws.{erase-apply_modifications}
use robust.Optimizer.Stack.Merge.{all_builds, all_probes, builds-merged_ops, merge_run_shift}
use robust.Optimizer.Lift.{
  lift_here, is_filter, is_mark_join, detach, lift, lift_above_filter, lift_above_mark_join,
}
use robust.Optimizer.Lift.Laws.{IsSafe, erase-lift_above}
use robust.Optimizer.Extract.{Renames, find_rename, resolve_column_binding}
use robust.Optimizer.Extract.Resolve.{
  Leads, resolve_column_binding-Leads, resolve_column_binding_total,
}
use robust.Optimizer.SpanningTree.{largest_root}
use robust.Optimizer.SpanningTree.Laws.{IsGrown, largest_root-IsGrown}

abbrev binding : ℕ → ℕ → ColumnBinding
binding t c = record { table_index = t; column_index = c }

abbrev table : ℕ → ℕ → TableInfo
table t card = record { table_idx = t; table_op = t; estimated_cardinality = card }

abbrev three_tables : TableManager
three_tables = record {
  table_lookup = (1, table 1 10) ∷ (2, table 2 500) ∷ (3, table 3 40) ∷ [];
  table_ops = table 1 10 ∷ table 2 500 ∷ table 3 40 ∷ [];
}

abbrev edge : ℕ → ℕ → JoinEdge
edge a b = record {
  table_a = a;
  table_b = b;
  join_columns_a = binding a 0 ∷ [];
  join_columns_b = binding b 0 ∷ [];
  weight = 1;
  join_type = inner;
}

abbrev triangle : List JoinEdge
triangle = edge 1 2 ∷ edge 2 3 ∷ edge 3 1 ∷ []

largest_root-IsGrown_example :
    (root : ℕ) × (tree : List JoinEdge) × (largest_root three_tables triangle ≡ some tree)
    × IsLargest three_tables.table_ops root
    × IsGrown three_tables triangle (root ∷ []) tree
largest_root-IsGrown_example = largest_root-IsGrown three_tables triangle

abbrev operator : ℕ → OperatorType → Operator
operator id type = record {
  id = id;
  type = type;
  estimated_cardinality = 10;
  table_index = id ∷ [];
  column_bindings = [];
  expressions = [];
  grouping_sets = 0;
  join_type = inner;
  conditions = [];
}

abbrev create_op : ℕ → FilterOperation
create_op sequence = record {
  is_create = true;
  build_table_idx = 1;
  probe_table_idx = 2;
  build_columns = binding 1 sequence ∷ [];
  probe_columns = binding 2 sequence ∷ [];
  sequence_number = sequence;
  is_forward_pass = true;
}

abbrev scan : Plan
scan = node (duckdb (operator 1 get)) nil

abbrev modifications : OpMap
modifications = (1, create_op 0 ∷ create_op 1 ∷ []) ∷ []

abbrev join_plan : Plan
join_plan =
    node (duckdb (operator 9 comparison_join))
      (cons scan (cons (node (duckdb (operator 2 get)) nil) nil))

erase-apply_modifications_example :
    (q : Plan) × (apply_modifications three_tables modifications [] join_plan ≡ some q)
    × (erase q ≡ erase join_plan)
erase-apply_modifications_example =
    erase-apply_modifications three_tables modifications [] join_plan (ground arith) tt

builds-merged_ops_example :
    (merged : List FilterOperation) × (merged_ops (create_op 0 ∷ create_op 1 ∷ []) ≡ some merged)
    × (all_builds merged ≡ all_builds (create_op 0 ∷ create_op 1 ∷ []))
builds-merged_ops_example =
    builds-merged_ops (create_op 0 ∷ create_op 1 ∷ []) ((λ e. refl), ((λ e. refl), tt))

merge_run_shift_example :
    (merged : FilterOperation) × (merge_run (create_op 0) (create_op 1 ∷ []) ≡ some merged)
    × (merged.build_columns ≡ all_builds (create_op 0 ∷ create_op 1 ∷ []))
    × (get_elem? merged.probe_columns (1 + 0)
        ≡ get_elem? (all_probes (create_op 0 ∷ create_op 1 ∷ [])) 0)
    × (length merged.probe_columns ≡ 1 + length merged.build_columns)
merge_run_shift_example = merge_run_shift (create_op 0) (create_op 1) [] 0 (refl, (refl, tt))

abbrev filtered : Plan
filtered =
    node (duckdb (operator 5 filter))
      (cons (node (create_filter (create_op 0) 10) (cons scan nil)) nil)

filtered-IsSafe : IsSafe is_mark_join filtered
unfolding lift is_mark_join lift_here detach
filtered-IsSafe = (inl refl, ((inl refl, ((tt, tt), tt)), tt))

lifted-IsSafe : IsSafe is_filter (lift_above_mark_join filtered)
unfolding lift is_filter is_mark_join lift_above_mark_join lift_here detach
lifted-IsSafe = (inr (inr tt), ((inl refl, ((tt, tt), tt)), tt))

erase-lift_above_example :
    erase (lift_above_filter (lift_above_mark_join filtered)) ≡ erase filtered
erase-lift_above_example = erase-lift_above filtered filtered-IsSafe lifted-IsSafe

abbrev two_renames : Renames
two_renames = (binding 8 0, binding 7 1) ∷ (binding 7 1, binding 1 4) ∷ []

Leads-down : Leads 2 two_renames (binding 8 0) (binding 1 4)
unfolding Leads find_rename
Leads-down = (binding 7 1, refl, (binding 1 4, refl, (refl, refl)))

resolve_column_binding-Leads_example :
    resolve_column_binding two_renames (binding 8 0) ≡ some (binding 1 4)
resolve_column_binding-Leads_example =
    resolve_column_binding-Leads 2 two_renames (binding 8 0) (binding 1 4) Leads-down

abbrev cycle : Renames
cycle = (binding 8 0, binding 7 1) ∷ (binding 7 1, binding 8 0) ∷ []

resolve_column_binding_total_example :
    (r : ColumnBinding) × resolve_column_binding cycle (binding 8 0) ≡ some r
resolve_column_binding_total_example = resolve_column_binding_total cycle (binding 8 0)

abbrev join_operator : Operator
join_operator = record (operator 9 comparison_join) {
  conditions =
      (record {
        is_equal = true;
        left_side = column_ref (binding 8 0);
        right_side = column_ref (binding 2 0);
      })
      ∷ [];
}

create_join_edges-IsJoinEdge_example :
    (edges : List JoinEdge) × (create_join_edges three_tables two_renames (join_operator ∷ [])
      ≡ some edges)
    × All (IsJoinEdge three_tables) edges
create_join_edges-IsJoinEdge_example =
    create_join_edges-IsJoinEdge three_tables two_renames (join_operator ∷ [])

abbrev nothing_yet : Extraction
nothing_yet = record { table_mgr = empty_manager; rename_col_bindings = []; join_ops = [] }

abbrev two_scans : Extraction
two_scans = record {
  table_mgr = record {
    table_lookup = (1, table 1 10) ∷ (2, table 2 10) ∷ [];
    table_ops = table 1 10 ∷ table 2 10 ∷ [];
  };
  rename_col_bindings = [];
  join_ops = [];
}

scans_extracted : extract join_plan nothing_yet ≡ some two_scans
unfolding extract extract_children visit collect_join add_node add_table_operator register add_table
    put_table find_table scalar_table_index index_source is_scan is_join_extracted any_equal node_id
    node_cardinality empty_manager
scans_extracted = refl

empty_manager-IsConsistent : IsConsistent empty_manager
unfolding empty_manager
empty_manager-IsConsistent = record { same_entries = refl; keyed = tt; unique = tt }

extract-IsConsistent_example : IsConsistent two_scans.table_mgr
extract-IsConsistent_example =
    extract-IsConsistent join_plan nothing_yet two_scans empty_manager-IsConsistent scans_extracted
