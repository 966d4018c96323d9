-- ===== src/Physical/CreateFilter/Total.antt =====
-- No call of a build faults while every build column has its place in the chunks.
use robust.Prelude.{
  >>=-eq-some, ◌∙◌, ap, Option, ℕ, ◌<◌, ◌≡◌, refl, sym, subst, inl, inr, some, List, [], ◌∷◌, ◌++◌,
  map, arith, if◌then◌else◌, Bool-cases, Option-cases, length, In,
}
use mathlib.Core.Option.{some-injective}
use robust.Column.{ColumnBinding}
use robust.Physical.Bloom.Total.{insert_total, reinitialize_and_rehash_total}
use robust.Engine.{Engine}
use robust.Physical.Chunk.{size, DataChunk, LogicalTypeId, column_count}
use robust.Physical.CreateFilter.{
  finished, merge_collections, ProbeEmptyRegistry, PhysicalCreateFilter, GlobalSinkState,
  LocalSinkState, FilterMap, SinkResult, need_more_input, put_filter, find_filter, insert_all,
  resize_all, must_resize, sink, finalize, probe_known_empty,
}
use robust.Physical.CreateFilter.Filters.{Present, Present-Kept, insert-Kept_put}

module _ {V F : Type 0} (engine : Engine V F) where
  insert_all_total :
      (pos : ColumnBinding → ℕ) (chunk : DataChunk V) (cols : List ColumnBinding) (m : FilterMap F)
      → Present engine cols m
      → ((col : ColumnBinding) → In col cols → pos col < column_count chunk)
      → (m' : FilterMap F) × (insert_all engine chunk cols (map pos cols) m ≡ some m')
  unfolding insert_all
  insert_all_total pos chunk [] m p h = (m, refl)
  insert_all_total pos chunk (c ∷ cols) m p h =
      let (bf, found) = p c (inl refl) in
      let (bf', inserted) = insert_total engine bf chunk (pos c) (h c (inl refl)) in
      let (m', ok) =
        insert_all_total pos chunk cols (put_filter c bf' m)
          (Present-Kept engine cols m (put_filter c bf' m)
            (insert-Kept_put engine m c bf bf' chunk (pos c) found inserted) (λ x i. p x (inr i)))
          (λ x i. h x (inr i)) in
      (m', rw (found, insert_all) (rw inserted ok))

  resize_all_total :
      (pos : ColumnBinding → ℕ) (total : DataChunk V) (cols : List ColumnBinding) (m : FilterMap F)
      → ((col : ColumnBinding) → In col cols → pos col < column_count total)
      → (m' : FilterMap F) × (resize_all engine total cols (map pos cols) m ≡ some m')
  unfolding resize_all
  resize_all_total pos total [] m h = (m, refl)
  resize_all_total pos total (c ∷ cols) m h = elim (Option-cases (find_filter c m)) [
    | inl missing ↦
        let (m', ok) = resize_all_total pos total cols m (λ x i. h x (inr i)) in
        (m', rw (missing, resize_all) ok)
    | inr (bf, found) ↦ elim (Bool-cases (must_resize engine (size total) bf)) [
      | inr fits ↦
          let (m', ok) = resize_all_total pos total cols m (λ x i. h x (inr i)) in
          (m', rw (found, resize_all) (rw fits ok))
      | inl small ↦
          let (bf', built) =
            reinitialize_and_rehash_total engine (size total) total (pos c) bf (h c (inl refl)) in
          let (m', ok) =
            resize_all_total pos total cols (put_filter c bf' m) (λ x i. h x (inr i)) in
          (m', rw (found, resize_all) (rw small (rw built ok)))
    ]
  ]

  sink-held :
      (op : PhysicalCreateFilter F) (g : GlobalSinkState V) (reg : ProbeEmptyRegistry)
      (l : LocalSinkState V) (chunk : DataChunk V)
      (r : SinkResult × PhysicalCreateFilter F × LocalSinkState V) (held : List (List (Option V)))
      → l.local_data ≡ some held
      → sink engine op g reg l chunk ≡ some r
      → (held' : List (List (Option V))) × (r.2.local_data ≡ some held')
  unfolding sink
  sink-held op g reg l chunk r held at e = elim (Bool-cases (probe_known_empty engine g reg)) [
    | inl empty ↦
        let same = some-injective (finished, op, l) r (rw empty at e) in
        (
          held,
          ap (λ (x : SinkResult × PhysicalCreateFilter F × LocalSinkState V). x.2.local_data)
                (sym same)
              ∙ at,
        )
    | inr open_probe ↦
        let (rows, from, e') = >>=-eq-some l.local_data _ (rw open_probe at e) in
        let (m, done, same) =
          >>=-eq-some
            (insert_all engine chunk op.filter_operation.build_columns op.bound_column_indices
              op.bloom_filter_map)
            _ e' in
        (
          rows ++ chunk.rows,
          ap (λ (x : SinkResult × PhysicalCreateFilter F × LocalSinkState V). x.2.local_data)
              (sym (some-injective _ r same)),
        )
  ]

  -- While every build column has its place in the chunk and a filter, `Sink` does not fault: it
  -- ends early exactly when the probe side is known to be empty.
  pub sink_total :
      (pos : ColumnBinding → ℕ) (op : PhysicalCreateFilter F) (g : GlobalSinkState V)
      (reg : ProbeEmptyRegistry) (l : LocalSinkState V) (chunk : DataChunk V)
      → (held : List (List (Option V))) × (l.local_data ≡ some held)
      → op.bound_column_indices ≡ map pos op.filter_operation.build_columns
      → Present engine op.filter_operation.build_columns op.bloom_filter_map
      → ((col : ColumnBinding)
          → In col op.filter_operation.build_columns
          → pos col < column_count chunk)
      → (r : SinkResult × PhysicalCreateFilter F × LocalSinkState V) × (sink engine op g reg l chunk
          ≡ some r)
        × ((held : List (List (Option V))) × (r.2.local_data ≡ some held))
        × (r.0 ≡ (if probe_known_empty engine g reg then finished else need_more_input))
  unfolding sink
  sink_total pos op g reg l chunk (held, at) aligned p h =
      let (m, ok) =
        insert_all_total pos chunk op.filter_operation.build_columns op.bloom_filter_map p h in
      let ok' =
        subst
          (λ (x : List ℕ).
            insert_all engine chunk op.filter_operation.build_columns x op.bloom_filter_map
            ≡ some m)
          (sym aligned) ok in
      elim (Option-cases (sink engine op g reg l chunk)) [
        | inl fault ↦ absurd (ground (arith, ok', at))
        | inr (r, ran) ↦ (r, ran, sink-held op g reg l chunk r held at ran, ground (arith, ok', at))
      ]

  -- `Finalize` does not fault while every build column has its place in the operator's columns.
  pub finalize_total :
      (pos : ColumnBinding → ℕ) (op : PhysicalCreateFilter F) (g : GlobalSinkState V)
      (reg : ProbeEmptyRegistry) (types : List LogicalTypeId) (gathered : List (List (Option V)))
      → merge_collections g.local_data_collections ≡ some gathered
      → op.bound_column_indices ≡ map pos op.filter_operation.build_columns
      → ((col : ColumnBinding) → In col op.filter_operation.build_columns → pos col < length types)
      → (r : PhysicalCreateFilter F × GlobalSinkState V × ProbeEmptyRegistry) × (finalize engine
            types op g reg
          ≡ some r)
  unfolding finalize
  finalize_total pos op g reg types gathered from aligned h =
      let rows = g.total_data ++ gathered in
      let total : DataChunk V = record { types = types; rows = rows } in
      let cols = op.filter_operation.build_columns in
      let (m, ok) = resize_all_total pos total cols op.bloom_filter_map h in
      let ok' =
        subst (λ (x : List ℕ). resize_all engine total cols x op.bloom_filter_map ≡ some m)
          (sym aligned) ok in
      elim (Option-cases (finalize engine types op g reg)) [
        | inl fault ↦ absurd (ground (arith, ok', from))
        | inr (r, ran) ↦ (r, ran)
      ]
