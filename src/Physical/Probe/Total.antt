-- ===== src/Physical/Probe/Total.antt =====
-- `PhysicalProbeFilter::ExecuteInternal` of src/operators/physical_probe_filter.cpp does not fault,
-- and what it lets through.
use robust.Prelude.{
  ℕ, ◌≤◌, ◌<◌, ◌≡◌, refl, sym, subst, inl, inr, some, List, [], ◌∷◌, arith, if◌then◌else◌,
  Option-cases, length, All,
}
use robust.Engine.{Engine}
use robust.Physical.Chunk.{size, DataChunk, column_count, slice}
use robust.Physical.Bloom.{PtBloomFilter}
use robust.Physical.Bloom.Laws.{keep_rows}
use robust.Physical.Bloom.Total.{lookup_sel_total}
use robust.Physical.Registry.{ProbeEmptyRegistry}
use robust.Physical.Probe.{
  PhysicalProbeFilter, bloom_filters, Probing, Output, narrow, apply_filters, execute,
}
use robust.Physical.Probe.Laws.{all_hit, execute-keep_rows}

module _ {V F : Type 0} (engine : Engine V F) where
  narrow-types :
      (s : Probing V) (sel : List ℕ)
      → column_count (narrow engine s sel).input ≡ column_count s.input
  unfolding narrow slice
  narrow-types s sel = ground arith

  apply_filters_total :
      (table : ℕ) (bfs : List (PtBloomFilter F)) (idxs : List ℕ) (s : Probing V)
      (reg : ProbeEmptyRegistry)
      → length bfs ≤ length idxs
      → All (λ (i : ℕ). i < column_count s.input) idxs
      → (out : Output V) × (apply_filters engine table bfs idxs s reg ≡ some out)
  unfolding apply_filters
  apply_filters_total table [] idxs s reg enough w = (_, refl)
  apply_filters_total table (bf ∷ bfs) [] s reg enough w = absurd (ground (arith, enough))
  apply_filters_total table (bf ∷ bfs) (i ∷ idxs) s reg enough w =
      let (sel, found) = lookup_sel_total engine bf s.input i w.0 in
      let less : length bfs ≤ length idxs = ground (arith, enough) in
      let (out, skipped) = apply_filters_total table bfs idxs s reg less w.1 in
      let (out', narrowed) =
        apply_filters_total table bfs idxs (narrow engine s sel) reg less
          (subst (λ (n : ℕ). All (λ (j : ℕ). j < n) idxs) (sym (narrow-types s sel)) w.1) in
      elim (Option-cases (apply_filters engine table (bf ∷ bfs) (i ∷ idxs) s reg)) [
        | inl fault ↦ absurd (ground (arith, fault, found, skipped, narrowed))
        | inr ran ↦ ran
      ]

  -- Where each filter has a column index and the chunk has the columns, a call answers. A
  -- passthrough operator lets all rows through; any other the rows that each filter lets through:
  -- one that is not finalized all, an empty one none, and else those whose key it hits.
  pub execute_total :
      (op : PhysicalProbeFilter F) (input : DataChunk V) (reg : ProbeEmptyRegistry)
      → length (bloom_filters op.filter_operation.build_columns op.related_create_filters)
        ≤ length op.bound_column_indices
      → All (λ (i : ℕ). i < column_count input) op.bound_column_indices
      → (out : Output V) × (execute engine op input reg ≡ some out)
        × (out.chunk.rows ≡ (
            if op.is_passthrough
            then input.rows
            else keep_rows
                (all_hit engine
                  (bloom_filters op.filter_operation.build_columns op.related_create_filters)
                  op.bound_column_indices)
                input.rows))
  unfolding execute
  execute_total op input reg enough w =
      let s : Probing V = record {
        input = input;
        row_num = size input;
        result_count = size input;
        sel = [];
      } in
      let (probed, ok) =
        apply_filters_total op.filter_operation.probe_table_idx
          (bloom_filters op.filter_operation.build_columns op.related_create_filters)
          op.bound_column_indices s reg enough w in
      elim (Option-cases (execute engine op input reg)) [
        | inl fault ↦ absurd (ground (arith, fault, ok))
        | inr (out, ran) ↦ (out, ran, execute-keep_rows engine op input reg out ran)
      ]
