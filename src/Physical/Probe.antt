-- ===== src/Physical/Probe.antt =====
-- `PhysicalProbeFilter` of src/operators/physical_probe_filter.cpp. A call always answers
-- NEED_MORE_INPUT, so only its output chunk and the shared flags are kept. Profiling is left out.
pub mod Laws
pub mod Total
pub mod Keep
use robust.Prelude.{
  ℕ, zero, suc, ◌+◌, ◌-◌, ◌*◌, ◌/◌, ◌%◌, ◌^◌, ◌≤◌, ◌<◌, min, max, ◌≡◌, refl, sym, ap, ◌∙◌, subst,
  ◌≢◌, ◌↔◌, ◌⊎◌, inl, inr, Bool, true, false, not, ◌&&◌, ◌||◌, Option, none, some, List, [], ◌∷◌,
  ◌++◌, map, foldl, arith, ltb, leb, ◌==◌, if◌then◌else◌, ltb→lt, lt→ltb, ==_iff, ==_refl,
  Bool-cases, and-eq-true, Option-cases, ◌>>=◌, >>=-eq-some, length, get_elem?, get_or, set,
  replicate, is_empty, tail, length-append, length-set, In, All, All-In, In-append,
}
use robust.Column.{ColumnBinding, FilterOperation}
use robust.Engine.{Engine}
use robust.Physical.Chunk.{DataChunk, size, no_rows, slice}
use robust.Physical.Bloom.{PtBloomFilter, bloom_is_empty, lookup_sel}
use robust.Physical.Registry.{ProbeEmptyRegistry, get_or_create, raise}
use robust.Physical.CreateFilter.{FilterMap, find_filter}

-- `related_create_filters` are the filter maps of the related CREATE_FILTER operators, in order.
pub record PhysicalProbeFilter (F : Type 0) : Type 0 where
  pub filter_operation : FilterOperation
  pub bound_column_indices : List ℕ
  pub related_create_filters : List (FilterMap F)
  pub is_passthrough : Bool

module _ {F : Type 0} where
  -- the first related operator that has a filter for the column
  unfoldable pub related_filter : ColumnBinding → List (FilterMap F) → Option (PtBloomFilter F)
  related_filter col [] = none
  related_filter col (m ∷ ms) = elim (find_filter col m) [
    | some bf ↦ some bf
    | none ↦ related_filter col ms
  ]

  -- The lazy initialisation: a build column that has no filter is passed over.
  unfoldable pub bloom_filters : List ColumnBinding → List (FilterMap F) → List (PtBloomFilter F)
  bloom_filters [] ms = []
  bloom_filters (col ∷ cols) ms = elim (related_filter col ms) [
    | some bf ↦ bf ∷ bloom_filters cols ms
    | none ↦ bloom_filters cols ms
  ]

-- The locals of the loop over the filters.
pub record Probing (V : Type 0) : Type 0 where
  pub input : DataChunk V
  pub row_num : ℕ
  pub result_count : ℕ
  pub sel : List ℕ

pub record Output (V : Type 0) : Type 0 where
  pub chunk : DataChunk V
  pub registry : ProbeEmptyRegistry

module _ {V F : Type 0} (engine : Engine V F) where
  -- `chunk.SetCardinality(0)`
  pub no_output : Probing V → ProbeEmptyRegistry → Output V
  no_output s reg = record { chunk = record s.input { rows = [] }; registry = reg }

  -- the end of the loop: the input by reference, or the selected rows of it
  pub emit : Probing V → ProbeEmptyRegistry → Output V
  emit s reg = record {
    chunk = if s.result_count == s.row_num then s.input else slice s.sel s.input;
    registry = reg;
  }

  -- one lookup: the chunk is cut down if some row fell out
  pub narrow : Probing V → List ℕ → Probing V
  narrow s sel =
      if ltb (length sel) s.row_num
      then record {
        input = slice sel s.input;
        row_num = length sel;
        result_count = length sel;
        sel = sel;
      }
      else record s { result_count = length sel; sel = sel }

  pub probe_empty : ℕ → Probing V → ProbeEmptyRegistry → Output V
  probe_empty probe_table s reg =
      let (reg', flag) = get_or_create reg probe_table in no_output s (raise reg' flag)

  -- A filter reads the bound column of its own index; beyond the last one that is a fault.
  pub apply_filters :
      ℕ → List (PtBloomFilter F) → List ℕ → Probing V → ProbeEmptyRegistry → Option (Output V)
  apply_filters probe_table [] idxs s reg = some (emit s reg)
  apply_filters probe_table (bf ∷ bfs) idxs s reg =
      let skipped = apply_filters probe_table bfs (tail idxs) s reg in
      let looked_up = get_elem? idxs 0 >>= λ i. lookup_sel engine bf s.input (i ∷ []) >>= λ sel.
      let rest = apply_filters probe_table bfs (tail idxs) (narrow s sel) reg in
      if is_empty sel then some (no_output s reg) else rest in
      if not bf.finalized
      then skipped
      else if bloom_is_empty bf
      then some (probe_empty probe_table s reg)
      else looked_up

  pub execute : PhysicalProbeFilter F → DataChunk V → ProbeEmptyRegistry → Option (Output V)
  execute op input reg =
      let bfs = bloom_filters op.filter_operation.build_columns op.related_create_filters in
      let start : Probing V = record {
        input = input;
        row_num = size input;
        result_count = size input;
        sel = [];
      } in
      let probed =
        apply_filters op.filter_operation.probe_table_idx bfs op.bound_column_indices start reg in
      let forwarded : Option (Output V) = some (record { chunk = input; registry = reg }) in
      if op.is_passthrough
      then forwarded
      else if is_empty bfs || no_rows input
      then forwarded
      else probed
