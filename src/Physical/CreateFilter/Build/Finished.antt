-- ===== src/Physical/CreateFilter/Build/Finished.antt =====
-- `Finalize` of src/operators/physical_create_filter.cpp after the calls of a build.
use robust.Prelude.{
  ℕ, ◌≡◌, refl, sym, ap, ◌∙◌, subst, ◌⊎◌, inl, inr, true, Option, none, some, List, [], ◌∷◌, ◌++◌,
  arith, if◌then◌else◌, Bool-cases, >>=-eq-some, is_empty, In, In-append,
}
use robust.Column.{FilterOperation, ColumnBinding}
use robust.Engine.{Engine}
use robust.Physical.Chunk.{LogicalTypeId, DataChunk}
use robust.Physical.Bloom.{PtBloomFilter}
use robust.Physical.Bloom.Laws.{filter_hit}
use robust.Physical.Registry.{ProbeEmptyRegistry}
use robust.Physical.CreateFilter.{
  resize_all, map_filters, finalize, find_filter, PhysicalCreateFilter, GlobalSinkState, FilterMap,
  merge_collections,
}
use robust.Physical.CreateFilter.Filters.{Holds}
use robust.Physical.CreateFilter.Resize.{resize_all-Holds}
use robust.Physical.CreateFilter.Build.{
  Build, Call, run, Stored, columns, IsBuilding, run-IsBuilding, Holds-mono, some-eq, all_rows,
}

merge_collections-all_rows :
    {A : Type 0} (cs : List (Option (List A))) (rows : List A)
    → merge_collections cs ≡ some rows
    → all_rows cs ≡ rows
unfolding merge_collections
merge_collections-all_rows [] rows e = cc
merge_collections-all_rows (none ∷ cs) rows e = cc
merge_collections-all_rows (some x ∷ cs) rows e =
    let (rest, found, same) = >>=-eq-some (merge_collections cs) _ e in
    ap (λ t. x ++ t) (merge_collections-all_rows cs rest found) ∙ some-eq same

module _ {V F : Type 0} (engine : Engine V F) where
  pub find_filter-map_filters :
      (g : PtBloomFilter F → PtBloomFilter F) (col : ColumnBinding) (m : FilterMap F)
      (bf : PtBloomFilter F)
      → find_filter col m ≡ some bf
      → find_filter col (map_filters g m) ≡ some (g bf)
  unfolding find_filter map_filters
  find_filter-map_filters g col [] bf e = cc
  find_filter-map_filters g col ((k, x) ∷ m) bf e =
      ground (arith, find_filter-map_filters g col m bf)

  finalize-cases :
      (types : List LogicalTypeId) (op op' : PhysicalCreateFilter F) (g g' : GlobalSinkState V)
      (reg reg' : ProbeEmptyRegistry)
      → finalize engine types op g reg ≡ some (op', g', reg')
      → let rows = g.total_data ++ all_rows g.local_data_collections in
        let total : DataChunk V = record { types = types; rows = rows } in
        (m : FilterMap F) × (((is_empty rows ≡ true) × (m ≡ op.bloom_filter_map))
          ⊎ (resize_all engine total (columns engine op) op.bound_column_indices op.bloom_filter_map
              ≡ some m))
        × (op'
            ≡ record op { bloom_filter_map = map_filters (λ bf. record bf { finalized = true }) m })
        × (g'.total_data ≡ rows)
  unfolding finalize
  finalize-cases types op op' g g' reg reg' e =
      let (gathered, from, e') = >>=-eq-some (merge_collections g.local_data_collections) _ e in
      let whole = merge_collections-all_rows g.local_data_collections gathered from in
      let rows = g.total_data ++ gathered in
      let total : DataChunk V = record { types = types; rows = rows } in
      let resized =
        resize_all engine total (columns engine op) op.bound_column_indices op.bloom_filter_map in
      let (m, ran, same) =
        >>=-eq-some (if is_empty rows then some op.bloom_filter_map else resized) _ e' in
      let ends = some-eq same in
      rw whole (
        m,
        elim (Bool-cases (is_empty rows)) [
          | inl none_left ↦ inl (none_left, sym (some-eq (rw none_left at ran)))
          | inr some_left ↦ inr (rw some_left at ran)
        ],
        cc ends,
        cc ends,
      )

  Stored-total :
      (b : Build V F) (row : List (Option V))
      → In row (b.global.total_data ++ all_rows b.global.local_data_collections)
      → Stored engine b row
  Stored-total b row h =
      elim ((In-append row b.global.total_data (all_rows b.global.local_data_collections)).0 h) [
        | inl m ↦ inl m
        | inr m ↦ inr (inl m)
      ]

  -- A build whose columns resolved to `pos` may run any calls in any order. If none of them faults
  -- and then `Finalize` does not, the filter of every build column is marked finalized and holds
  -- the key of every materialised row.
  pub finalize-run :
      (pos : ColumnBinding → ℕ) (b b' : Build V F) (cs : List (Call V)) (types : List LogicalTypeId)
      (op : PhysicalCreateFilter F) (g : GlobalSinkState V) (reg reg' : ProbeEmptyRegistry)
      → IsBuilding engine pos b
      → run engine b cs ≡ some b'
      → finalize engine types b'.op b'.global reg ≡ some (op, g, reg')
      → (col : ColumnBinding) → In col (columns engine b.op)
      → (bf : PtBloomFilter F) × (find_filter col op.bloom_filter_map ≡ some bf)
        × (bf.finalized ≡ true)
        × ((row : List (Option V))
            → In row g.total_data
            → filter_hit engine (pos col) bf row ≡ true)
  finalize-run pos b b' cs types op g reg reg' w ran fin col i =
      let (w', same_op) = run-IsBuilding engine pos b b' cs w ran in
      let (m, cases, op_is, total_is) = finalize-cases types b'.op op b'.global g reg reg' fin in
      let rows = b'.global.total_data ++ all_rows b'.global.local_data_collections in
      let total : DataChunk V = record { types = types; rows = rows } in
      let before =
        Holds-mono engine pos (columns engine b'.op) b'.op.bloom_filter_map (Stored engine b')
          (λ row. In row rows) (Stored-total b') w'.holds in
      let after : Holds engine pos (columns engine b'.op) m (λ row. In row rows) = elim cases [
        | inl (_, e) ↦
            subst
              (λ (x : FilterMap F). Holds engine pos (columns engine b'.op) x (λ row. In row rows))
              (sym e) before
        | inr resized ↦
            resize_all-Holds engine pos total (columns engine b'.op) (columns engine b'.op)
              b'.op.bloom_filter_map m (λ row. In row rows) (λ row r. r) before
              (rw w'.aligned at resized)
      ] in
      let (bf, found, hits) =
        after col (subst (λ (x : FilterOperation). In col x.build_columns) (sym same_op) i) in
      (
        record bf { finalized = true },
        rw op_is (find_filter-map_filters (λ bf. record bf { finalized = true }) col m bf found),
        refl,
        λ row r. hits row (subst (In row) total_is r),
      )
