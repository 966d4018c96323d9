-- ===== src/Logical/Build/Complete.antt =====
-- The whole life of a planned CREATE_FILTER, from `CreatePlan` of
-- src/operators/logical_create_filter.cpp to `Finalize`.
use robust.Prelude.{
  ℕ, zero, suc, ◌≤◌, ◌<◌, ◌≡◌, refl, sym, ◌∙◌, subst, inl, inr, Bool, true, false, Option, some,
  List, [], ◌∷◌, arith, Bool-cases, length, get_elem?, In, All, All-In,
}
use robust.Column.{ColumnBinding, FilterOperation}
use robust.Engine.{Engine}
use robust.Physical.Chunk.{LogicalTypeId, column_count}
use robust.Physical.Bloom.{PtBloomFilter}
use robust.Physical.Bloom.Laws.{filter_hit}
use robust.Physical.Registry.{ProbeEmptyRegistry}
use robust.Physical.CreateFilter.{
  find_filter, DynamicFilterTarget, PhysicalCreateFilter, GlobalSinkState, new_create_filter,
  new_global_sink, new_local_sink, merge_collections, finalize,
}
use robust.Physical.CreateFilter.Filters.{Present}
use robust.Physical.CreateFilter.Build.{
  Build, Call, sinks, combines, step, run, run-IsBuilding, step-IsBuilding, columns, IsBuilding,
  update,
}
use robust.Physical.CreateFilter.Build.Finished.{finalize-run}
use robust.Physical.CreateFilter.Build.Ready.{IsOrdered, IsReady, sink-IsReady, combine-IsReady}
use robust.Physical.CreateFilter.Total.{sink_total, finalize_total}
use robust.Logical.{create_plan}
use robust.Logical.Build.{
  chunk_column, chunk_column_found, IsCovered, IsCovered-HasColumns, start, start-IsBuilding,
}

-- the chunks of the calls have as many columns as the child, at least
abbrev pub IsWide : {V : Type 0} → ℕ → Call V → Type 0
IsWide width (sinks t reg chunk) = width ≤ column_count chunk
IsWide width (combines t) = Unit {0}

in_bounds :
    (xs : List ColumnBinding) (i : ℕ) (c : ColumnBinding) → get_elem? xs i ≡ some c → i < length xs
in_bounds [] i c e = absurd (ground (arith, e))
in_bounds (x ∷ xs) zero c e = omega arith
in_bounds (x ∷ xs) (suc i) c e = omega (arith, in_bounds xs i c e)

chunk_column_lt :
    (child cols : List ColumnBinding) (width : ℕ)
    → IsCovered child cols
    → length child ≤ width
    → (col : ColumnBinding) → In col cols
    → chunk_column child col < width
chunk_column_lt child cols width w wide col i = omega (
  arith,
  wide,
  in_bounds child (chunk_column child col) col (chunk_column_found child col (w col i)),
)

IsOrdered-rest : {V : Type 0} (c : Call V) (cs : List (Call V)) → IsOrdered (c ∷ cs) → IsOrdered cs
IsOrdered-rest (sinks t reg chunk) cs o = o
IsOrdered-rest (combines t) cs o = o.1

module _ {V F : Type 0} (engine : Engine V F) where
  step_total :
      (child : List ColumnBinding) (b : Build V F) (c : Call V) (cs : List (Call V))
      → IsCovered child (columns engine b.op)
      → IsBuilding engine (chunk_column child) b
      → IsWide (length child) c
      → IsOrdered (c ∷ cs)
      → IsReady b (c ∷ cs)
      → (b' : Build V F) × (step engine b c ≡ some b') × IsReady b' cs
  unfolding step
  step_total child b (combines t) cs cover w wide o ready =
      (_, refl, combine-IsReady engine b _ t cs refl o.0 ready)
  step_total child b (sinks t reg chunk) cs cover w wide o ready =
      let present : Present engine (columns engine b.op) b.op.bloom_filter_map =
        λ col i. let (bf, found, _) = w.holds col i in (bf, found) in
      let (r, ran, held, _) =
        sink_total engine (chunk_column child) b.op b.global reg (b.locals t) chunk (ready.live.0)
          w.aligned present
          (chunk_column_lt child (columns engine b.op) (column_count chunk) cover wide) in
      let b' : Build V F = record b { op = r.1; locals = update b.locals t r.2 } in
      (b', rw ran refl, sink-IsReady b b' t r.2 cs (sinks t reg chunk) held refl refl ready)

  run_total :
      (child : List ColumnBinding) (b : Build V F) (cs : List (Call V))
      → IsCovered child (columns engine b.op)
      → IsBuilding engine (chunk_column child) b
      → All (IsWide (length child)) cs
      → IsOrdered cs
      → IsReady b cs
      → (b' : Build V F) × (run engine b cs ≡ some b') × IsReady b' []
  unfolding run
  run_total child b [] cover w wide o ready = (b, refl, ready)
  run_total child b (c ∷ cs) cover w wide o ready =
      let (b₁, ran, ready₁) = step_total child b c cs cover w wide.0 o ready in
      let (w₁, op₁) = step-IsBuilding engine (chunk_column child) b b₁ c w ran in
      let cover₁ =
        subst (λ (x : FilterOperation). IsCovered child x.build_columns) (sym op₁) cover in
      let (b', rest, ready') =
        run_total child b₁ cs cover₁ w₁ wide.1 (IsOrdered-rest c cs o) ready₁ in
      (b', rw ran rest, ready')

  start-filter_operation :
      (fop : FilterOperation) (est : ℕ) (child : List ColumnBinding) (forward : Bool)
      (targets : List DynamicFilterTarget) (setting : Option ℕ) (reg : ProbeEmptyRegistry)
      → (start engine
          (create_plan engine fop est child forward targets)
          setting
          reg).op.filter_operation
        ≡ fop
  unfolding start create_plan new_global_sink new_create_filter
  start-filter_operation fop est child true targets setting reg = refl
  start-filter_operation fop est child false targets setting reg = refl

  start-IsReady :
      (op : PhysicalCreateFilter F) (setting : Option ℕ) (reg : ProbeEmptyRegistry)
      (cs : List (Call V))
      → IsReady (start engine op setting reg) cs
  unfolding start new_global_sink new_local_sink merge_collections
  start-IsReady op setting reg cs = record {
    live = All-In _ cs (λ c i. ([], refl));
    gathered = [];
    from = elim (Bool-cases op.is_forward_pass) [
      | inl h ↦ ground (arith, h)
      | inr h ↦ ground (arith, h)
    ];
  }

  -- A CREATE_FILTER is planned over a child that has its build columns. Whatever calls of Sink and
  -- Combine run on it, by any threads and under any states of the shared flags, with Combine as the last
  -- call of its thread and on chunks with at least the columns of the child, none of them faults, and
  -- neither does Finalize, where the operator has at least as many types. Afterwards each build column
  -- stands at some position of the child's columns and has a finalized filter, which hits the value at
  -- that position of each row of the merged data.
  pub planned_build-hits :
      (fop : FilterOperation) (est : ℕ) (child : List ColumnBinding) (forward : Bool)
      (targets : List DynamicFilterTarget) (setting : Option ℕ) (reg₀ reg : ProbeEmptyRegistry)
      (cs : List (Call V)) (types : List LogicalTypeId)
      → IsCovered child fop.build_columns
      → All (IsWide (length child)) cs
      → IsOrdered cs
      → length child ≤ length types
      → (b : Build V F) × (op : PhysicalCreateFilter F) × (g : GlobalSinkState V)
        × (reg' : ProbeEmptyRegistry) × (run engine
              (start engine (create_plan engine fop est child forward targets) setting reg₀)
              cs
            ≡ some b)
        × (finalize engine types b.op b.global reg ≡ some (op, g, reg'))
        × ((col : ColumnBinding)
            → In col fop.build_columns
            → (i : ℕ) × (get_elem? child i ≡ some col)
              × (bf : PtBloomFilter F) × (find_filter col op.bloom_filter_map ≡ some bf)
              × (bf.finalized ≡ true)
              × ((row : List (Option V)) → In row g.total_data → filter_hit engine i bf row ≡ true))
  planned_build-hits fop est child forward targets setting reg₀ reg cs types w wide o typed =
      let pos = chunk_column child in
      let plan = create_plan engine fop est child forward targets in
      let b₀ : Build V F = start engine plan setting reg₀ in
      let same = start-filter_operation fop est child forward targets setting reg₀ in
      let w₀ =
        start-IsBuilding engine fop est child forward targets setting reg₀
          (IsCovered-HasColumns child fop.build_columns w) in
      let cover = subst (λ (x : FilterOperation). IsCovered child x.build_columns) (sym same) w in
      let (b, ran, ready) =
        run_total child b₀ cs cover w₀ wide o (start-IsReady plan setting reg₀ cs) in
      let (w', op') = run-IsBuilding engine pos b₀ b cs w₀ ran in
      let cover' =
        subst (λ (x : FilterOperation). IsCovered child x.build_columns) (sym (op' ∙ same)) w in
      let ((op, g, reg'), done) =
        finalize_total engine pos b.op b.global reg types ready.gathered ready.from w'.aligned
          (chunk_column_lt child (columns engine b.op) (length types) cover' typed) in
      (
        b,
        op,
        g,
        reg',
        ran,
        done,
        λ col i.
            let (bf, found, marked, hits) =
              finalize-run engine pos b₀ b cs types op g reg reg' w₀ ran done col
                (subst (λ (x : FilterOperation). In col x.build_columns) (sym same) i) in
            (pos col, chunk_column_found child col (w col i), bf, found, marked, hits),
      )
