-- ===== src/Physical/Probe/Laws.antt =====
-- PROBE_FILTER lets exactly those rows through that every ready filter may hold.
use robust.Prelude.{
  ℕ, ◌≤◌, ◌≡◌, refl, sym, ap, ◌∙◌, inl, inr, Bool, true, false, not, ◌&&◌, ◌||◌, Option, some, List,
  [], ◌∷◌, arith, ltb, if◌then◌else◌, ==_refl, Bool-cases, ◌>>=◌, >>=-eq-some, length, get_elem?,
  get_or, is_empty, tail,
}
use robust.Engine.{Engine}
use robust.Physical.Chunk.{DataChunk, size, no_rows, slice}
use robust.Physical.Bloom.{PtBloomFilter, lookup_sel}
use robust.Physical.Bloom.Laws.{keep_rows, key_hit, lookup_sel-keep_rows}
use robust.Physical.Registry.{ProbeEmptyRegistry}
use robust.Physical.Probe.{
  PhysicalProbeFilter, bloom_filters, Probing, Output, no_output, emit, narrow, probe_empty,
  apply_filters, execute,
}

module _ {A : Type 0} where
  keep_rows_keep :
      (p q : A → Bool) (rows : List A)
      → keep_rows p (keep_rows q rows) ≡ keep_rows (λ r. q r && p r) rows
  keep_rows_keep p q [] = refl
  keep_rows_keep p q (r ∷ rows) = ground (arith, keep_rows_keep p q rows)

  length-keep_rows-le : (p : A → Bool) (rows : List A) → length (keep_rows p rows) ≤ length rows
  length-keep_rows-le p [] = omega arith
  length-keep_rows-le p (r ∷ rows) = ground (arith, length-keep_rows-le p rows)

  keep_rows_all :
      (p : A → Bool) (rows : List A)
      → length rows ≤ length (keep_rows p rows)
      → keep_rows p rows ≡ rows
  keep_rows_all p [] h = refl
  keep_rows_all p (r ∷ rows) h = ground (arith, keep_rows_all p rows, length-keep_rows-le p rows)

  keep_rows_none : (p : A → Bool) (rows : List A) → ((r : A) → p r ≡ false) → keep_rows p rows ≡ []
  keep_rows_none p [] h = refl
  keep_rows_none p (r ∷ rows) h = ground (arith, h r, keep_rows_none p rows h)

  keep_rows_ext :
      (p q : A → Bool) (rows : List A) → ((r : A) → p r ≡ q r) → keep_rows p rows ≡ keep_rows q rows
  keep_rows_ext p q [] h = refl
  keep_rows_ext p q (r ∷ rows) h = ground (arith, h r, keep_rows_ext p q rows h)

  keep_rows-true : (rows : List A) → keep_rows (λ _. true) rows ≡ rows
  keep_rows-true [] = refl
  keep_rows-true (r ∷ rows) = ap (λ t. r ∷ t) (keep_rows-true rows)

none_kept :
    {A : Type 0} (xs : List A) (sel : List ℕ)
    → length sel ≡ length xs
    → is_empty sel ≡ true
    → xs ≡ []
none_kept [] sel e h = refl
none_kept (x ∷ xs) [] e h = absurd (omega arith)
none_kept (x ∷ xs) (i ∷ sel) e h = cc

get_or-get_elem? : (idxs : List ℕ) (i : ℕ) → get_elem? idxs 0 ≡ some i → get_or idxs 0 0 ≡ i
get_or-get_elem? [] i e = cc
get_or-get_elem? (j ∷ idxs) i e = cc

module _ {V F : Type 0} (engine : Engine V F) where
  -- A filter that is not finalized is passed over; an empty one lets no row through.
  abbrev pub ready_hit : PtBloomFilter F → ℕ → List (Option V) → Bool
  ready_hit bf i row = not bf.finalized || (bf.has_data && key_hit engine i bf.native row)

  abbrev pub all_hit : List (PtBloomFilter F) → List ℕ → List (Option V) → Bool
  all_hit [] idxs row = true
  all_hit (bf ∷ bfs) idxs row = ready_hit bf (get_or idxs 0 0) row && all_hit bfs (tail idxs) row

  -- The loop's count is always that of its chunk, so the chunk is never sliced again at the end.
  abbrev InStep : Probing V → Type 0
  InStep s = (s.row_num ≡ length s.input.rows) × (s.result_count ≡ s.row_num)

  narrow-InStep :
      (bf : PtBloomFilter F) (i : ℕ) (s : Probing V) (sel : List ℕ)
      → InStep s
      → lookup_sel engine bf s.input (i ∷ []) ≡ some sel
      → InStep (narrow engine s sel)
        × ((narrow engine s sel).input.rows ≡ keep_rows (key_hit engine i bf.native) s.input.rows)
  unfolding narrow slice
  narrow-InStep bf i s sel (n, c) e =
      let (gathered, counted) = lookup_sel-keep_rows engine bf s.input i sel e in
      elim (Bool-cases (ltb (length sel) s.row_num)) [
        | inl fewer ↦ ground (arith, gathered, counted)
        | inr all_left ↦
            ground (arith, counted, keep_rows_all (key_hit engine i bf.native) s.input.rows)
      ]

  ready_and :
      (bf : PtBloomFilter F) (i : ℕ) (p : List (Option V) → Bool) (rows : List (List (Option V)))
      → bf.finalized ≡ true
      → bf.has_data ≡ true
      → keep_rows p (keep_rows (key_hit engine i bf.native) rows)
        ≡ keep_rows (λ row. ready_hit bf i row && p row) rows
  ready_and bf i p rows f d =
      keep_rows_keep p (key_hit engine i bf.native) rows
      ∙ keep_rows_ext _ _ rows (λ row. ground (arith, f, d))

  looked :
      (t : ℕ) (bf : PtBloomFilter F) (bfs : List (PtBloomFilter F)) (idxs : List ℕ) (s : Probing V)
      (reg : ProbeEmptyRegistry) (out : Output V)
      → apply_filters engine t (bf ∷ bfs) idxs s reg ≡ some out
      → bf.finalized ≡ true
      → bf.has_data ≡ true
      → (get_elem? idxs 0 >>= λ i. lookup_sel engine bf s.input (i ∷ []) >>= λ sel.
          (if is_empty sel
            then some (no_output engine s reg)
            else apply_filters engine t bfs (tail idxs) (narrow engine s sel) reg))
        ≡ some out
  unfolding apply_filters
  looked t bf bfs idxs s reg out e ready filled = ground (arith, e, ready, filled)

  apply_filters-keep_rows :
      (probe_table : ℕ) (bfs : List (PtBloomFilter F)) (idxs : List ℕ) (s : Probing V)
      (reg : ProbeEmptyRegistry) (out : Output V)
      → InStep s
      → apply_filters engine probe_table bfs idxs s reg ≡ some out
      → out.chunk.rows ≡ keep_rows (all_hit bfs idxs) s.input.rows
  unfolding apply_filters emit no_output probe_empty
  apply_filters-keep_rows t [] idxs s reg out (n, c) e =
      let same : s.input ≡ out.chunk = ground (arith, e, c, ==_refl s.row_num) in
      sym (keep_rows-true s.input.rows ∙ ap (λ (x : DataChunk V). x.rows) same)
  apply_filters-keep_rows t (bf ∷ bfs) idxs s reg out (n, c) e = elim (Bool-cases bf.finalized) [
    | inr waiting ↦
        let e' : apply_filters engine t bfs (tail idxs) s reg ≡ some out =
          ground (arith, e, waiting) in
        apply_filters-keep_rows t bfs (tail idxs) s reg out (n, c) e'
        ∙ keep_rows_ext _ _ s.input.rows (λ row. ground (arith, waiting))
    | inl ready ↦ elim (Bool-cases bf.has_data) [
      | inr empty ↦
          let gone : out.chunk.rows ≡ [] = ground (arith, e, ready, empty) in
          gone ∙ sym (keep_rows_none _ s.input.rows (λ row. ground (arith, ready, empty)))
      | inl filled ↦
          let (i, at_i, e₁) =
            >>=-eq-some (get_elem? idxs 0) _ (looked t bf bfs idxs s reg out e ready filled) in
          let (sel, found, e₂) = >>=-eq-some (lookup_sel engine bf s.input (i ∷ [])) _ e₁ in
          let (kept, cut) = narrow-InStep bf i s sel (n, c) found in
          let first : get_or idxs 0 0 ≡ i = get_or-get_elem? idxs i at_i in
          let whole =
            ready_and bf i (all_hit bfs (tail idxs)) s.input.rows ready filled
            ∙ ap
                (λ (k : ℕ).
                  keep_rows (λ row. ready_hit bf k row && all_hit bfs (tail idxs) row) s.input.rows)
                (sym first) in
          elim (Bool-cases (is_empty sel)) [
            | inl all_out ↦
                let gone : out.chunk.rows ≡ [] = ground (arith, e₂, all_out) in
                let (_, counted) = lookup_sel-keep_rows engine bf s.input i sel found in
                let nothing = none_kept _ sel counted all_out in
                (gone ∙ ap (keep_rows (all_hit bfs (tail idxs))) (sym nothing) ∙ whole)
            | inr some_left ↦
                let e₃ : apply_filters engine t bfs (tail idxs) (narrow engine s sel) reg
                    ≡ some out =
                  ground (arith, e₂, some_left) in
                (apply_filters-keep_rows t bfs (tail idxs) (narrow engine s sel) reg out kept e₃
                  ∙ ap (keep_rows (all_hit bfs (tail idxs))) cut
                  ∙ whole)
          ]
    ]
  ]

  keep_nothing :
      (bfs : List (PtBloomFilter F)) (idxs : List ℕ) (rows : List (List (Option V)))
      → (is_empty bfs || is_empty rows) ≡ true
      → keep_rows (all_hit bfs idxs) rows ≡ rows
  keep_nothing [] idxs rows e = keep_rows-true rows
  keep_nothing (bf ∷ bfs) idxs [] e = refl
  keep_nothing (bf ∷ bfs) idxs (r ∷ rows) e = cc

  -- Without the passthrough a call that does not fault lets through, in their order, exactly the
  -- rows that each filter may hold: a filter that is not finalized stops no row, an empty one stops
  -- all. With it, or with no filters, the whole input goes through.
  pub execute-keep_rows :
      (op : PhysicalProbeFilter F) (input : DataChunk V) (reg : ProbeEmptyRegistry) (out : Output V)
      → execute engine op input reg ≡ some out
      → let bfs = bloom_filters op.filter_operation.build_columns op.related_create_filters in
        out.chunk.rows ≡ (
          if op.is_passthrough
          then input.rows
          else keep_rows (all_hit bfs op.bound_column_indices) input.rows)
  unfolding execute
  execute-keep_rows op input reg out e =
      let bfs = bloom_filters op.filter_operation.build_columns op.related_create_filters in
      let start : Probing V = record {
        input = input;
        row_num = size input;
        result_count = size input;
        sel = [];
      } in
      elim (Bool-cases op.is_passthrough) [
        | inl pushed ↦ ground (arith, e, pushed)
        | inr probing ↦ elim (Bool-cases (is_empty bfs || no_rows input)) [
          | inl nothing ↦
              let same : input ≡ out.chunk = ground (arith, e, probing, nothing) in
              ground
                (arith, keep_nothing bfs op.bound_column_indices input.rows nothing, same, probing)
          | inr something ↦
              let e' : apply_filters engine op.filter_operation.probe_table_idx bfs
                    op.bound_column_indices start reg
                  ≡ some out =
                ground (arith, e, probing, something) in
              let kept =
                apply_filters-keep_rows _ bfs op.bound_column_indices start reg out (refl, refl)
                  e' in
              ground (arith, kept, probing)
        ]
      ]
