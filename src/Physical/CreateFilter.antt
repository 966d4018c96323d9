-- ===== src/Physical/CreateFilter.antt =====
-- `PhysicalCreateFilter` of src/operators/physical_create_filter.cpp: its state and the sink calls.
-- Profiling counters, timers and debug prints change no result and are left out.
pub mod Filters
pub mod Resize
pub mod Build
pub mod Total
pub mod Pushdown
use robust.Prelude.{
  tail, ℕ, ◌*◌, ◌%◌, ◌^◌, max, Bool, true, false, not, ◌&&◌, Option, none, some, List, [], ◌∷◌,
  ◌++◌, ltb, if◌then◌else◌, ◌>>=◌, length, get_elem?, get_or, replicate, is_empty,
}
use robust.Column.{ColumnBinding, FilterOperation, binding_eq}
use robust.Engine.{Engine, concat}
use robust.Physical.Chunk.{LogicalTypeId, other_type, DataChunk, column, size, no_rows}
use robust.Physical.Bloom.{PtBloomFilter, new_filter, init_filter, insert, reinitialize_and_rehash}
use robust.Physical.MinMax.{MinMax, update_min_max, merge_min_max}
use robust.Physical.Distinct.{ColumnDistinct, no_values, track_distinct, merge_distinct}
use robust.Physical.Registry.{ProbeEmptyRegistry, get_or_create, load, raise}

abbrev pub FilterMap : Type 0 → Type 0
FilterMap F = List (ColumnBinding × PtBloomFilter F)

module _ {F : Type 0} where
  unfoldable pub find_filter : ColumnBinding → FilterMap F → Option (PtBloomFilter F)
  find_filter col [] = none
  find_filter col ((k, bf) ∷ m) = if binding_eq k col then some bf else find_filter col m

  -- `bloom_filter_map[col] = bf`
  unfoldable pub put_filter : ColumnBinding → PtBloomFilter F → FilterMap F → FilterMap F
  put_filter col bf [] = (col, bf) ∷ []
  put_filter col bf ((k, old) ∷ m) =
      if binding_eq k col then (k, bf) ∷ m else (k, old) ∷ put_filter col bf m

  -- the loop of the constructor
  unfoldable pub new_filters : F → List ColumnBinding → FilterMap F → FilterMap F
  new_filters blank [] m = m
  new_filters blank (col ∷ cols) m = new_filters blank cols (put_filter col (new_filter blank) m)

  unfoldable pub map_filters : (PtBloomFilter F → PtBloomFilter F) → FilterMap F → FilterMap F
  map_filters g [] = []
  map_filters g ((k, bf) ∷ m) = (k, g bf) ∷ map_filters g m

-- `dynamic_filters` is the number of the scan's shared filter set.
pub record DynamicFilterTarget : Type 0 where
  pub dynamic_filters : ℕ
  pub scan_column_index : ℕ
  pub probe_column : ColumnBinding
  pub column_type : LogicalTypeId

pub record PhysicalCreateFilter (F : Type 0) : Type 0 where
  pub filter_operation : FilterOperation
  pub estimated_cardinality : ℕ
  pub bound_column_indices : List ℕ
  pub bloom_filter_map : FilterMap F
  pub pushdown_targets : List DynamicFilterTarget
  pub is_forward_pass : Bool

-- A pointer that was moved from is none.
pub record LocalSinkState (V : Type 0) : Type 0 where
  pub local_data : Option (List (List (Option V)))
  pub local_min_max : List (Option (MinMax V))
  pub local_distinct : List (ColumnDistinct V)

pub record GlobalSinkState (V : Type 0) : Type 0 where
  pub total_data : List (List (Option V))
  pub local_data_collections : List (Option (List (List (Option V))))
  pub column_min_max : List (Option (MinMax V))
  pub column_distinct : List (ColumnDistinct V)
  pub distinct_threshold : ℕ
  pub probe_empty_flag : Option ℕ

-- `Combine` moves the collection out of the local state.
unfoldable pub moved_out : {V : Type 0} → LocalSinkState V → LocalSinkState V
moved_out l = record l { local_data = none }

-- Step 1 of `Finalize`, which reads through each pointer.
unfoldable pub merge_collections : {A : Type 0} → List (Option (List A)) → Option (List A)
merge_collections [] = some []
merge_collections (none ∷ cs) = none
merge_collections (some rows ∷ cs) = merge_collections cs >>= λ rest. some (rows ++ rest)

pub data SinkResult : Type 0 where
  need_more_input finished : SinkResult

module _ {V F : Type 0} (engine : Engine V F) where
  open engine use {blank, next_power_of_two}

  -- The constructor; the pushdown targets and the direction are set by `CreatePlan` afterwards.
  unfoldable pub new_create_filter : FilterOperation → ℕ → List ℕ → PhysicalCreateFilter F
  new_create_filter op est indices = record {
    filter_operation = op;
    estimated_cardinality = est;
    bound_column_indices = indices;
    bloom_filter_map = new_filters blank op.build_columns [];
    pushdown_targets = [];
    is_forward_pass = false;
  }

  -- The constructor of `CreateFilterGlobalSinkState`, with the setting of the threshold if there is one.
  unfoldable pub new_global_sink :
      PhysicalCreateFilter F
      → Option ℕ
      → ProbeEmptyRegistry
      → PhysicalCreateFilter F × GlobalSinkState V × ProbeEmptyRegistry
  new_global_sink op setting reg =
      let sized = record op {
        bloom_filter_map =
            map_filters (init_filter engine op.estimated_cardinality) op.bloom_filter_map;
      } in
      let (reg', flag) = get_or_create reg op.filter_operation.probe_table_idx in
      let threshold : ℕ = elim setting [ none ↦ 50 | some n ↦ n ] in
      let plain : GlobalSinkState V = record {
        total_data = [];
        local_data_collections = [];
        column_min_max = [];
        column_distinct = [];
        distinct_threshold = 50;
        probe_empty_flag = none;
      } in
      let forward : GlobalSinkState V = record {
        total_data = [];
        local_data_collections = [];
        column_min_max = [];
        column_distinct = replicate (length op.bound_column_indices) no_values;
        distinct_threshold = threshold;
        probe_empty_flag = some flag;
      } in
      if op.is_forward_pass then (sized, forward, reg') else (sized, plain, reg)

  unfoldable pub new_local_sink : PhysicalCreateFilter F → LocalSinkState V
  new_local_sink op =
      let n = if op.is_forward_pass then length op.bound_column_indices else 0 in
      record {
        local_data = some [];
        local_min_max = replicate n none;
        local_distinct = replicate n no_values;
      }

  -- The insertion loop: a build column without its index is a read out of bounds, `none`.
  unfoldable pub insert_all :
      DataChunk V → List ColumnBinding → List ℕ → FilterMap F → Option (FilterMap F)
  insert_all chunk [] idxs m = some m
  insert_all chunk (col ∷ cols) [] m = elim (find_filter col m) [
    | none ↦ insert_all chunk cols [] m
    | some bf ↦ none
  ]
  insert_all chunk (col ∷ cols) (i ∷ idxs) m = elim (find_filter col m) [
    | none ↦ insert_all chunk cols idxs m
    | some bf ↦
        (insert engine bf chunk (i ∷ []) >>= λ bf'.
        insert_all chunk cols idxs (put_filter col bf' m))
  ]

  pub sink_min_max : DataChunk V → List ℕ → List (Option (MinMax V)) → List (Option (MinMax V))
  sink_min_max chunk (i ∷ idxs) (mm ∷ mms) =
      let mm' : Option (MinMax V) = elim (column chunk i) [
        | none ↦ mm
        | some col ↦ update_min_max engine (get_or chunk.types i other_type) col mm
      ] in
      mm' ∷ sink_min_max chunk idxs mms
  sink_min_max chunk idxs mms = mms

  pub sink_distinct : ℕ → DataChunk V → List ℕ → List (ColumnDistinct V) → List (ColumnDistinct V)
  sink_distinct threshold chunk (i ∷ idxs) (cd ∷ cds) =
      let cd' : ColumnDistinct V = elim (column chunk i) [
        | none ↦ cd
        | some col ↦ track_distinct engine threshold col cd
      ] in
      cd' ∷ sink_distinct threshold chunk idxs cds
  sink_distinct threshold chunk idxs cds = cds

  -- the test of the shared flag at the head of `Sink`
  unfoldable pub probe_known_empty : GlobalSinkState V → ProbeEmptyRegistry → Bool
  probe_known_empty g reg = elim g.probe_empty_flag [ none ↦ false | some f ↦ load reg f ]

  unfoldable pub sink :
      PhysicalCreateFilter F
      → GlobalSinkState V
      → ProbeEmptyRegistry
      → LocalSinkState V
      → DataChunk V
      → Option (SinkResult × PhysicalCreateFilter F × LocalSinkState V)
  sink op g reg l chunk =
      if probe_known_empty g reg
      then some (finished, op, l)
      else (l.local_data >>= λ held.
          insert_all chunk op.filter_operation.build_columns op.bound_column_indices
            op.bloom_filter_map
          >>= λ m.
              let tracked = op.is_forward_pass && not (no_rows chunk) in
              some (
                need_more_input,
                record op { bloom_filter_map = m },
                record {
                  local_data = some (held ++ chunk.rows);
                  local_min_max =
                      if tracked
                      then sink_min_max chunk op.bound_column_indices l.local_min_max
                      else l.local_min_max;
                  local_distinct =
                      if tracked
                      then sink_distinct g.distinct_threshold chunk op.bound_column_indices
                          l.local_distinct
                      else l.local_distinct;
                },
              ))

  pub combine_min_max :
      List (Option (MinMax V)) → List (Option (MinMax V)) → List (Option (MinMax V))
  combine_min_max (g ∷ gs) (l ∷ ls) = merge_min_max engine g l ∷ combine_min_max gs ls
  combine_min_max gs ls = gs

  pub combine_distinct :
      ℕ → List (ColumnDistinct V) → List (ColumnDistinct V) → List (ColumnDistinct V)
  combine_distinct threshold (g ∷ gs) (l ∷ ls) =
      merge_distinct engine threshold g l ∷ combine_distinct threshold gs ls
  combine_distinct threshold gs ls = gs

  -- `Combine`, under the lock of the global state. The min-max list is sized at the first call.
  pub combine : GlobalSinkState V → LocalSinkState V → GlobalSinkState V
  combine g l =
      let sized =
        if is_empty g.column_min_max
        then replicate (length l.local_min_max) none
        else g.column_min_max in
      record g {
        local_data_collections = g.local_data_collections ++ l.local_data ∷ [];
        column_min_max =
            if is_empty l.local_min_max
            then g.column_min_max
            else combine_min_max sized l.local_min_max;
        column_distinct = combine_distinct g.distinct_threshold g.column_distinct l.local_distinct;
      }

  -- `idx_t` has 64 bits.
  unfoldable pub allocated_bits : PtBloomFilter F → ℕ
  allocated_bits bf = next_power_of_two (max 512 (bf.sized_for_rows * 12 % 2 ^ 64))

  unfoldable pub must_resize : ℕ → PtBloomFilter F → Bool
  must_resize actual_rows bf = ltb (allocated_bits bf) (actual_rows * 8 % 2 ^ 64)

  unfoldable pub resize_all :
      DataChunk V → List ColumnBinding → List ℕ → FilterMap F → Option (FilterMap F)
  resize_all total [] idxs m = some m
  resize_all total (col ∷ cols) idxs m = elim (find_filter col m) [
    | none ↦ resize_all total cols (tail idxs) m
    | some bf ↦ elim (must_resize (size total) bf) [
      | false ↦ resize_all total cols (tail idxs) m
      | true ↦
          (get_elem? idxs 0 >>= λ i.
          reinitialize_and_rehash engine (size total) total (i ∷ []) bf >>= λ bf'.
          resize_all total cols (tail idxs) (put_filter col bf' m))
    ]
  ]

  -- Steps 1 to 4 of `Finalize`; `types` are the operator's column types. Step 5 is `Pushdown`.
  pub finalize :
      List LogicalTypeId
      → PhysicalCreateFilter F
      → GlobalSinkState V
      → ProbeEmptyRegistry
      → Option (PhysicalCreateFilter F × GlobalSinkState V × ProbeEmptyRegistry)
  finalize types op g reg = merge_collections g.local_data_collections >>= λ gathered.
      let rows = g.total_data ++ gathered in
      let total : DataChunk V = record { types = types; rows = rows } in
      let resized =
        if is_empty rows
        then some op.bloom_filter_map
        else resize_all total op.filter_operation.build_columns op.bound_column_indices
            op.bloom_filter_map in
      let reg' : ProbeEmptyRegistry = elim g.probe_empty_flag [
        | none ↦ reg
        | some f ↦ if is_empty rows then raise reg f else reg
      ] in
      resized >>= λ m. some (
        record op { bloom_filter_map = map_filters (λ bf. record bf { finalized = true }) m },
        record g { total_data = rows; local_data_collections = [] },
        reg',
      )
