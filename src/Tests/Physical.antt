-- ===== src/Tests/Physical.antt =====
-- Examples of the theorems on the physical operators.
use robust.Prelude.{
  subst, sym, ◌↔◌, ℕ, ◌+◌, ◌≤◌, ◌≡◌, refl, ◌⊎◌, inl, inr, true, false, Option, none, some, List, [],
  ◌∷◌, map, arith, length, get_elem?, replicate, In,
}
use robust.Column.{ColumnBinding, FilterOperation}
use robust.Physical.Chunk.{column, bigint, DataChunk}
use robust.Physical.Bloom.{insert, insert_hashes, combine_columns, hash_columns, PtBloomFilter}
use robust.Physical.Bloom.Laws.{filter_hit, keep_rows}
use robust.Physical.MinMax.{MinMax, typed_update_min_max, merge_min_max}
use robust.Physical.MinMax.Laws.{typed_update-nan, IsRange, typed_update-IsRange, merge-IsRange}
use robust.Physical.Distinct.{ColumnDistinct, no_values, track_distinct, merge_distinct}
use robust.Physical.Distinct.Laws.{Tracks, track_distinct-Tracks, merge_distinct-Tracks}
use robust.Physical.Registry.Laws.{get_or_create-shared}
use robust.Physical.Registry.{find_flag, get_or_create, IsWellFormed, ProbeEmptyRegistry}
use robust.Physical.CreateFilter.{
  FilterMap, put_filter, find_filter, PhysicalCreateFilter, GlobalSinkState, finalize,
  DynamicFilterTarget,
}
use robust.Physical.CreateFilter.Build.Stored.{sunk-Stored}
use robust.Physical.CreateFilter.{combine, moved_out, sink, probe_known_empty, insert_all}
use robust.Physical.CreateFilter.Build.{update, step, Stored, Build, Call, sinks, combines, run}
use robust.Physical.CreateFilter.Pushdown.{
  tag, push_range, push_bloom, push_distinct, push_in, column_filters, target_filters, push_targets,
  all_types, Pushed, equal, push_dynamic_filters,
}
use robust.Physical.CreateFilter.Pushdown.Sound.{IsSoundPush, push_dynamic_filters-IsSoundPush}
use robust.Physical.Source.{new_global_source, drain_all}
use robust.Physical.Source.Laws.{Tiles, new_global_source-Tiles}
use robust.Physical.Source.Drain.{count_up, drain_all-new_global_source}
use robust.Physical.Probe.{related_filter, PhysicalProbeFilter, bloom_filters, Output, execute}
use robust.Physical.Probe.Laws.{all_hit}
use robust.Physical.Probe.Keep.{IsBuilt, execute-keeps_matched}
use robust.Physical.Probe.Total.{execute_total}
use robust.Logical.{create_plan, resolve_columns}
use robust.Logical.Laws.{IsFound, resolve_columns-IsFound}
use robust.Logical.Build.{start}
use robust.Logical.Build.Complete.{planned_build-hits}
use robust.Tests.Fixtures.{zeros_and_nans, numbers}

abbrev orders_key : ColumnBinding
orders_key = record { table_index = 1; column_index = 0 }

abbrev lines_key : ColumnBinding
lines_key = record { table_index = 2; column_index = 3 }

abbrev orders_to_lines : FilterOperation
orders_to_lines = record {
  is_create = true;
  build_table_idx = 1;
  probe_table_idx = 2;
  build_columns = orders_key ∷ [];
  probe_columns = lines_key ∷ [];
  sequence_number = 0;
  is_forward_pass = true;
}

abbrev no_flags : ProbeEmptyRegistry
no_flags = record { flags = []; store = [] }

abbrev two_orders : DataChunk ℕ
two_orders = record { types = bigint ∷ []; rows = (some 5 ∷ []) ∷ (some 8 ∷ []) ∷ [] }

abbrev two_threads : List (Call ℕ)
two_threads =
    sinks 0 no_flags two_orders ∷ sinks 1 no_flags two_orders ∷ combines 1 ∷ combines 0 ∷ []

planned_build-hits_example :
    (b : Build ℕ (List ℕ)) × (op : PhysicalCreateFilter (List ℕ)) × (g : GlobalSinkState ℕ)
    × (reg' : ProbeEmptyRegistry) × (run numbers
          (start numbers
            (create_plan numbers orders_to_lines 2 (orders_key ∷ []) true [])
            none
            no_flags)
          two_threads
        ≡ some b)
    × (finalize numbers (bigint ∷ []) b.op b.global no_flags ≡ some (op, g, reg'))
    × ((col : ColumnBinding)
        → In col (orders_key ∷ [])
        → (i : ℕ) × (get_elem? (orders_key ∷ []) i ≡ some col)
          × (bf : PtBloomFilter (List ℕ)) × (find_filter col op.bloom_filter_map ≡ some bf)
          × (bf.finalized ≡ true)
          × ((row : List (Option ℕ)) → In row g.total_data → filter_hit numbers i bf row ≡ true))
planned_build-hits_example =
    planned_build-hits numbers orders_to_lines 2 (orders_key ∷ []) true [] none no_flags no_flags
      two_threads (bigint ∷ []) (λ col i. i) (ground arith, (ground arith, (tt, (tt, tt))))
      ((λ e. absurd (ground (arith, e)), tt), (tt, tt)) (ground arith)

abbrev small_filter : PtBloomFilter (List ℕ)
small_filter = record { native = 6 ∷ []; has_data = true; sized_for_rows = 1; finalized = true }

abbrev probe_lines : PhysicalProbeFilter (List ℕ)
probe_lines = record {
  filter_operation = orders_to_lines;
  bound_column_indices = 0 ∷ [];
  related_create_filters = ((orders_key, small_filter) ∷ []) ∷ [];
  is_passthrough = false;
}

one_filter : length (bloom_filters (orders_key ∷ []) (((orders_key, small_filter) ∷ []) ∷ [])) ≤ 1
unfolding bloom_filters related_filter find_filter
one_filter = ground arith

execute_total_example :
    (out : Output ℕ) × (execute numbers probe_lines two_orders no_flags ≡ some out)
    × (out.chunk.rows
        ≡ keep_rows
            (all_hit numbers
              (bloom_filters (orders_key ∷ []) (((orders_key, small_filter) ∷ []) ∷ []))
              (0 ∷ []))
            two_orders.rows)
execute_total_example =
    execute_total numbers probe_lines two_orders no_flags one_filter (ground arith, tt)

abbrev one_order : List (Option ℕ)
one_order = some 5 ∷ []

abbrev order_filters : FilterMap (List ℕ)
order_filters = (orders_key, small_filter) ∷ []

the_one : {A : Type 0} {a b : A} → In a (b ∷ []) → b ≡ a
the_one (inl e) = sym e
the_one (inr i) = absurd i

orders_key_found : find_filter orders_key order_filters ≡ some small_filter
unfolding find_filter
orders_key_found = refl

order_filters-IsBuilt : IsBuilt numbers (λ c. 0) (orders_key ∷ []) order_filters (one_order ∷ [])
order_filters-IsBuilt col i = (
  small_filter,
  subst (λ (c : ColumnBinding). find_filter c order_filters ≡ some small_filter) (the_one i)
      orders_key_found,
  λ row r.
      subst (λ (x : List (Option ℕ)). filter_hit numbers 0 small_filter x ≡ true) (the_one r) refl,
)

execute-keeps_matched_example :
    (out : Output ℕ) × (execute numbers probe_lines two_orders no_flags ≡ some out)
    × In one_order out.chunk.rows
execute-keeps_matched_example =
    execute-keeps_matched numbers (λ c. 0) order_filters (one_order ∷ []) probe_lines two_orders
      no_flags one_order refl order_filters-IsBuilt (ground arith) (ground arith, tt) (inl refl)
      ((one_order, inl refl, refl), tt)

new_global_source-Tiles_example :
    Tiles 0 (new_global_source 7 3).chunks_todo 7 × (length (new_global_source 7 3).chunks_todo ≤ 3)
new_global_source-Tiles_example = new_global_source-Tiles 7 3 (ground arith)

drain_all-new_global_source_example :
    drain_all (7 + 1) 3 (new_global_source 7 3) ≡ some (count_up 0 7)
drain_all-new_global_source_example = drain_all-new_global_source 7 3 (ground arith)

resolve_columns-IsFound_example :
    (found : List ColumnBinding) × IsFound (orders_key ∷ lines_key ∷ []) (lines_key ∷ []) found
    × (map
          (get_elem? (orders_key ∷ lines_key ∷ []))
          (resolve_columns (orders_key ∷ lines_key ∷ []) (lines_key ∷ []))
        ≡ map some found)
resolve_columns-IsFound_example =
    resolve_columns-IsFound (orders_key ∷ lines_key ∷ []) (lines_key ∷ [])

typed_update-IsRange_example :
    IsRange numbers
      (typed_update_min_max numbers (some 4 ∷ none ∷ some 9 ∷ []) none)
      (λ v. ⊥ ⊎ In (some v) (some 4 ∷ none ∷ some 9 ∷ []))
typed_update-IsRange_example =
    typed_update-IsRange numbers (some 4 ∷ none ∷ some 9 ∷ []) none (λ v. ⊥) (λ v i. refl)
      (λ v h. h)

typed_update-nan_example :
    ¬ IsRange zeros_and_nans
      (typed_update_min_max zeros_and_nans (some true ∷ some false ∷ []) none)
      (λ x. In (some x) (some true ∷ some false ∷ []))
typed_update-nan_example =
    typed_update-nan zeros_and_nans true false (some false ∷ []) refl refl (inl refl)

abbrev range : ℕ → ℕ → Option (MinMax ℕ)
range a b = some (record { min_val = a; max_val = b })

ends-IsRange : (a b : ℕ) → a ≤ b → IsRange numbers (range a b) (λ v. (v ≡ a) ⊎ (v ≡ b))
ends-IsRange a b h = record {
  min_in = inl refl;
  max_in = inr refl;
  above = λ v e. ground (arith, e, h);
  below = λ v e. ground (arith, e, h);
}

merge-IsRange_example :
    IsRange numbers
      (merge_min_max numbers (range 4 9) (range 1 5))
      (λ v. ((v ≡ 4) ⊎ (v ≡ 9)) ⊎ ((v ≡ 1) ⊎ (v ≡ 5)))
merge-IsRange_example =
    merge-IsRange numbers (range 4 9) (range 1 5) (λ v. (v ≡ 4) ⊎ (v ≡ 9)) (λ v. (v ≡ 1) ⊎ (v ≡ 5))
      (ends-IsRange 4 9 (ground arith)) (ends-IsRange 1 5 (ground arith))

no_values_Tracks : (t : ℕ) → Tracks numbers t no_values (λ v. ⊥)
no_values_Tracks t =
    inl (refl, record { unique = tt; small = ground arith; sound = λ v i. i; full = λ v i. i })

track_distinct-Tracks_example :
    Tracks numbers 1
      (track_distinct numbers 1 (some 4 ∷ some 9 ∷ []) no_values)
      (λ v. ⊥ ⊎ In (some v) (some 4 ∷ some 9 ∷ []))
track_distinct-Tracks_example =
    track_distinct-Tracks numbers 1 (some 4 ∷ some 9 ∷ []) no_values (λ v. ⊥) (no_values_Tracks 1)

abbrev only : ℕ → ColumnDistinct ℕ
only n = record { values = n ∷ []; over_threshold = false }

only-Tracks : (n : ℕ) → Tracks numbers 1 (only n) (λ v. v ≡ n)
only-Tracks n = inl (
  refl,
  record {
    unique = (λ i. i, tt);
    small = ground arith;
    sound = λ v i. elim i [ inl e ↦ e | inr i' ↦ absurd i' ];
    full = λ v e. inl e;
  },
)

merge_distinct-Tracks_example :
    Tracks numbers 1 (merge_distinct numbers 1 (only 4) (only 9)) (λ v. (v ≡ 4) ⊎ (v ≡ 9))
merge_distinct-Tracks_example =
    merge_distinct-Tracks numbers 1 (only 4) (only 9) (λ v. v ≡ 4) (λ v. v ≡ 9) (only-Tracks 4)
      (only-Tracks 9)

abbrev unsized : PtBloomFilter (List ℕ)
unsized = record { native = 6 ∷ []; has_data = true; sized_for_rows = 1; finalized = false }

abbrev many_orders : DataChunk ℕ
many_orders = record { types = bigint ∷ []; rows = replicate 80 (some 5 ∷ []) }

abbrev resized_filter : PtBloomFilter (List ℕ)
resized_filter = record {
  native = replicate 80 6;
  has_data = true;
  sized_for_rows = 80;
  finalized = false;
}

abbrev lines_scan : DynamicFilterTarget
lines_scan = record {
  dynamic_filters = 7;
  scan_column_index = 3;
  probe_column = lines_key;
  column_type = bigint;
}

abbrev built : PhysicalCreateFilter (List ℕ)
built = record {
  filter_operation = orders_to_lines;
  estimated_cardinality = 1;
  bound_column_indices = 0 ∷ [];
  bloom_filter_map = (orders_key, small_filter) ∷ [];
  pushdown_targets = lines_scan ∷ [];
  is_forward_pass = true;
}

abbrev built_state : GlobalSinkState ℕ
built_state = record {
  total_data = (some 5 ∷ []) ∷ [];
  local_data_collections = [];
  column_min_max = range 5 5 ∷ [];
  column_distinct = only 5 ∷ [];
  distinct_threshold = 50;
  probe_empty_flag = none;
}

abbrev pushed_equal : Pushed ℕ (List ℕ)
pushed_equal = record { dynamic_filters = 7; scan_column_index = 3; filter = equal 5 }

pushes_equal :
    In pushed_equal (push_dynamic_filters numbers (λ vs. false) built built_state all_types)
unfolding push_dynamic_filters push_targets target_filters column_filters push_in push_distinct
    push_bloom push_range tag find_filter
pushes_equal = inl refl

push_dynamic_filters-IsSoundPush_example :
    (t : DynamicFilterTarget) × In t (lines_scan ∷ [])
    × IsSoundPush numbers (λ vs. false) built built_state t pushed_equal
push_dynamic_filters-IsSoundPush_example =
    push_dynamic_filters-IsSoundPush numbers (λ vs. false) built built_state all_types pushed_equal
      pushes_equal

no_flags-IsWellFormed : IsWellFormed no_flags
unfolding find_flag
no_flags-IsWellFormed = record {
  in_store = λ t f e. ground (arith, e);
  apart = λ t u f e h. ground (arith, e);
}

abbrev lines_table : ℕ
lines_table = 2

abbrev parts_table : ℕ
parts_table = 3

get_or_create-shared_example :
    ((get_or_create no_flags 2).1 ≡ (get_or_create (get_or_create no_flags 2).0 3).1)
    ↔ (lines_table ≡ parts_table)
get_or_create-shared_example = get_or_create-shared no_flags 2 3 no_flags-IsWellFormed

abbrev blank_filter : PtBloomFilter (List ℕ)
blank_filter = record { native = []; has_data = false; sized_for_rows = 2; finalized = false }

abbrev before : Build ℕ (List ℕ)
before = record {
  op = record built { bloom_filter_map = (orders_key, blank_filter) ∷ []; is_forward_pass = false };
  global = record {
    total_data = [];
    local_data_collections = [];
    column_min_max = [];
    column_distinct = [];
    distinct_threshold = 50;
    probe_empty_flag = none;
  };
  locals = λ t. record { local_data = some []; local_min_max = []; local_distinct = [] };
}

abbrev after : Build ℕ (List ℕ)
after = record before {
  op = record before.op {
    bloom_filter_map =
        (orders_key, record blank_filter { native = 9 ∷ 6 ∷ []; has_data = true }) ∷ [];
  };
  locals =
      update before.locals 0
        (record { local_data = some two_orders.rows; local_min_max = []; local_distinct = [] });
}

abbrev combined : Build ℕ (List ℕ)
combined = record after {
  global = combine numbers after.global (after.locals 0);
  locals = update after.locals 0 (moved_out (after.locals 0));
}

sink_steps : step numbers before (sinks 0 no_flags two_orders) ≡ some after
unfolding step sink probe_known_empty insert_all insert hash_columns combine_columns insert_hashes
    column put_filter find_filter
sink_steps = refl

combine_runs : run numbers after (combines 0 ∷ []) ≡ some combined
unfolding run step
combine_runs = refl

not_known_empty : probe_known_empty numbers before.global no_flags ≡ false
unfolding probe_known_empty
not_known_empty = refl

sunk-Stored_example : Stored numbers combined one_order
sunk-Stored_example =
    sunk-Stored numbers before after combined 0 no_flags two_orders (combines 0 ∷ []) one_order
      not_known_empty sink_steps combine_runs (inl refl)
