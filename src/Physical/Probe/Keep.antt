-- ===== src/Physical/Probe/Keep.antt =====
-- A PROBE_FILTER after a build: src/operators/physical_probe_filter.cpp loses no row that the join
-- could match.
use robust.Prelude.{
  ℕ, ◌≤◌, ◌<◌, ◌≡◌, refl, sym, subst, inl, inr, Bool, true, false, ◌&&◌, Option, some, List, [],
  ◌∷◌, arith, if◌then◌else◌, Bool-cases, Option-cases, length, get_or, tail, In, All,
}
use robust.Column.{ColumnBinding}
use robust.Engine.{Engine}
use robust.Physical.Chunk.{DataChunk, column_count, cell}
use robust.Physical.Bloom.{PtBloomFilter}
use robust.Physical.Bloom.Laws.{filter_hit, In-keep_rows}
use robust.Physical.Registry.{ProbeEmptyRegistry}
use robust.Physical.CreateFilter.{FilterMap, find_filter}
use robust.Physical.Probe.{PhysicalProbeFilter, related_filter, bloom_filters, Output, execute}
use robust.Physical.Probe.Laws.{all_hit}
use robust.Physical.Probe.Total.{execute_total}

-- Each column has a filter that hits the key of each row. This is what a build establishes.
abbrev pub IsBuilt :
    {V F : Type 0}
    → Engine V F
    → (ColumnBinding → ℕ)
    → List ColumnBinding
    → FilterMap F
    → List (List (Option V))
    → Type 0
IsBuilt {F = F} engine pos cols m rows =
    (col : ColumnBinding)
    → In col cols
    → (bf : PtBloomFilter F) × (find_filter col m ≡ some bf)
      × ((row : List (Option _)) → In row rows → filter_hit engine (pos col) bf row ≡ true)

-- For each build column, some row of the build side has the key that the probed row has at the
-- index of the same position.
abbrev pub IsMatched :
    {V : Type 0}
    → (ColumnBinding → ℕ)
    → List (List (Option V))
    → List ColumnBinding
    → List ℕ
    → List (Option V)
    → Type 0
IsMatched pos rows [] idxs row = Unit {0}
IsMatched pos rows (c ∷ cols) idxs row =
    ((r : List (Option _)) × In r rows × (cell (pos c) r ≡ cell (get_or idxs 0 0) row))
    × IsMatched pos rows cols (tail idxs) row

In-if :
    {A : Type 0} (a : A) (b : Bool) (xs ys : List A)
    → In a xs
    → In a ys
    → In a (if b then xs else ys)
In-if a true xs ys p q = p
In-if a false xs ys p q = q

module _ {V F : Type 0} (engine : Engine V F) where
  related_filter-found :
      (col : ColumnBinding) (m : FilterMap F) (bf : PtBloomFilter F)
      → find_filter col m ≡ some bf
      → related_filter col (m ∷ []) ≡ some bf
  unfolding related_filter
  related_filter-found col m bf e = ground (arith, e)

  bloom_filters-cons :
      (c : ColumnBinding) (cols : List ColumnBinding) (m : FilterMap F) (bf : PtBloomFilter F)
      → find_filter c m ≡ some bf
      → bloom_filters (c ∷ cols) (m ∷ []) ≡ bf ∷ bloom_filters cols (m ∷ [])
  unfolding bloom_filters
  bloom_filters-cons c cols m bf e = ground (arith, related_filter-found c m bf e)

  length-bloom_filters :
      (cols : List ColumnBinding) (m : FilterMap F)
      → length (bloom_filters cols (m ∷ [])) ≤ length cols
  unfolding bloom_filters
  length-bloom_filters [] m = ground arith
  length-bloom_filters (c ∷ cols) m = elim (Option-cases (related_filter c (m ∷ []))) [
    | inl e ↦ ground (arith, e, length-bloom_filters cols m)
    | inr (bf, e) ↦ ground (arith, e, length-bloom_filters cols m)
  ]

  matched-all_hit :
      (pos : ColumnBinding → ℕ) (cols : List ColumnBinding) (m : FilterMap F)
      (rows : List (List (Option V))) (idxs : List ℕ) (row : List (Option V))
      → IsBuilt engine pos cols m rows
      → IsMatched pos rows cols idxs row
      → all_hit engine (bloom_filters cols (m ∷ [])) idxs row ≡ true
  unfolding bloom_filters
  matched-all_hit pos [] m rows idxs row w s = refl
  matched-all_hit pos (c ∷ cols) m rows idxs row w s =
      let (bf, found, hits) = w c (inl refl) in
      let (r, stored, same) = s.0 in
      let hit : filter_hit engine (get_or idxs 0 0) bf row ≡ true =
        subst
          (λ (v : Option V). (bf.has_data && engine.lookup_hash (engine.hash v) bf.native) ≡ true)
          same (hits r stored) in
      let rest = matched-all_hit pos cols m rows (tail idxs) row (λ col i. w col (inr i)) s.1 in
      subst (λ (bfs : List (PtBloomFilter F)). all_hit engine bfs idxs row ≡ true)
        (sym (bloom_filters-cons c cols m bf found))
        (ground (arith, hit, rest, Bool-cases bf.finalized))

  -- A PROBE_FILTER with an index in bounds for each build column probes the filters of one build,
  -- which hit the keys of the build's rows. It answers, and each row of the chunk that has, for
  -- each build column, the key of some row of the build is in the output.
  pub execute-keeps_matched :
      (pos : ColumnBinding → ℕ) (m : FilterMap F) (rows : List (List (Option V)))
      (op : PhysicalProbeFilter F) (input : DataChunk V) (reg : ProbeEmptyRegistry)
      (row : List (Option V))
      → op.related_create_filters ≡ m ∷ []
      → IsBuilt engine pos op.filter_operation.build_columns m rows
      → length op.filter_operation.build_columns ≤ length op.bound_column_indices
      → All (λ (i : ℕ). i < column_count input) op.bound_column_indices
      → In row input.rows
      → IsMatched pos rows op.filter_operation.build_columns op.bound_column_indices row
      → (out : Output V) × (execute engine op input reg ≡ some out) × In row out.chunk.rows
  execute-keeps_matched pos m rows op input reg row related w enough bounds i s =
      let cols = op.filter_operation.build_columns in
      let idxs = op.bound_column_indices in
      let short : length (bloom_filters cols op.related_create_filters) ≤ length idxs =
        subst (λ (ms : List (FilterMap F)). length (bloom_filters cols ms) ≤ length idxs)
          (sym related) (ground (arith, length-bloom_filters cols m, enough)) in
      let (out, ran, kept) = execute_total engine op input reg short bounds in
      let hit : all_hit engine (bloom_filters cols op.related_create_filters) idxs row ≡ true =
        subst (λ (ms : List (FilterMap F)). all_hit engine (bloom_filters cols ms) idxs row ≡ true)
          (sym related) (matched-all_hit pos cols m rows idxs row w s) in
      let passed =
        (In-keep_rows engine (all_hit engine (bloom_filters cols op.related_create_filters) idxs)
            row input.rows).1
          (i, hit) in
      (out, ran, subst (In row) (sym kept) (In-if row op.is_passthrough input.rows _ i passed))
