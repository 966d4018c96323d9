-- ===== src/Physical/CreateFilter/Build/Stored.antt =====
-- The rows that `Sink` of src/operators/physical_create_filter.cpp took stay in the build.
use robust.Prelude.{
  ◌∙◌, ap, [], ◌++◌, false, ◌⊎◌, ◌∷◌, ℕ, ◌≡◌, sym, subst, inl, inr, Option, some, List, ◌==◌,
  ==_iff, ==_refl, Bool-cases, >>=-eq-some, In, In-append,
}
use mathlib.Core.Option.{some-injective}
use robust.Engine.{Engine}
use robust.Physical.Chunk.{DataChunk}
use robust.Physical.Registry.{ProbeEmptyRegistry}
use robust.Physical.CreateFilter.{
  moved_out, probe_known_empty, combine, PhysicalCreateFilter, LocalSinkState, GlobalSinkState,
  SinkResult, insert_all, sink,
}
use robust.Physical.CreateFilter.Build.{
  rows_of, all_rows, run, Call, combines, Build, sinks, update, step, Stored, sink-cases,
}

module _ {V F : Type 0} (engine : Engine V F) where
  Stored-local :
      (b : Build V F) (op : PhysicalCreateFilter F) (t : ℕ) (l : LocalSinkState V)
      (row : List (Option V))
      → (In row (rows_of (b.locals t).local_data) → In row (rows_of l.local_data))
      → Stored engine b row
      → Stored engine (record b { op = op; locals = update b.locals t l }) row
  Stored-local b op t l row more (inl s) = inl s
  Stored-local b op t l row more (inr (inl s)) = inr (inl s)
  Stored-local b op t l row more (inr (inr (u, i))) = elim (Bool-cases (t == u)) [
    | inr other ↦ inr (inr (u, rw other i))
    | inl same ↦ inr (
        inr (
          u,
          rw same (
              more (
                subst (λ (v : ℕ). In row (rows_of (b.locals v).local_data))
                  (sym ((==_iff t u).0 same)) i)),
        ))
  ]

  In-local_new :
      (b : Build V F) (op : PhysicalCreateFilter F) (t : ℕ) (l : LocalSinkState V)
      (row : List (Option V))
      → In row (rows_of l.local_data)
      → Stored engine (record b { op = op; locals = update b.locals t l }) row
  In-local_new b op t l row i = inr (inr (t, rw (==_refl t) i))

  sink-Stored :
      (b b' : Build V F) (t : ℕ) (reg : ProbeEmptyRegistry) (chunk : DataChunk V)
      (row : List (Option V))
      → step engine b (sinks t reg chunk) ≡ some b'
      → Stored engine b row
      → Stored engine b' row
  unfolding step
  sink-Stored b b' t reg chunk row e s =
      let (r, ran, made) = >>=-eq-some (sink engine b.op b.global reg (b.locals t) chunk) _ e in
      let more : In row (rows_of (b.locals t).local_data) → In row (rows_of r.2.local_data) = λ i.
        elim (sink-cases engine b.op b.global reg (b.locals t) chunk r ran) [
          | inl (_, same) ↦
              subst (λ (l : LocalSinkState V). In row (rows_of l.local_data)) (sym same) i
          | inr (_, _, _, longer) ↦
              subst (In row) (sym longer)
                ((In-append row (rows_of (b.locals t).local_data) chunk.rows).1 (inl i))
        ] in
      subst (λ (x : Build V F). Stored engine x row) (some-injective _ b' made)
        (Stored-local b r.1 t r.2 row more s)

  In-concat_last :
      (row : List (Option V)) (xs : List (Option (List (List (Option V)))))
      (y : Option (List (List (Option V))))
      → (In row (all_rows xs) ⊎ In row (rows_of y))
      → In row (all_rows (xs ++ y ∷ []))
  In-concat_last row [] y (inl i) = absurd i
  In-concat_last row [] y (inr i) = (In-append row (rows_of y) []).1 (inl i)
  In-concat_last row (x ∷ xs) y (inr i) =
      (In-append row (rows_of x) (all_rows (xs ++ y ∷ []))).1
        (inr (In-concat_last row xs y (inr i)))
  In-concat_last row (x ∷ xs) y (inl i) =
      (In-append row (rows_of x) (all_rows (xs ++ y ∷ []))).1
        (elim ((In-append row (rows_of x) (all_rows xs)).0 i) [
          | inl h ↦ inl h
          | inr h ↦ inr (In-concat_last row xs y (inl h))
        ])

  combine-Stored :
      (b : Build V F) (t : ℕ) (row : List (Option V))
      → Stored engine b row
      → Stored engine
          (record b {
            global = combine engine b.global (b.locals t);
            locals = update b.locals t (moved_out (b.locals t));
          })
          row
  unfolding combine
  combine-Stored b t row (inl s) = inl s
  combine-Stored b t row (inr (inl s)) =
      inr (inl (In-concat_last row b.global.local_data_collections (b.locals t).local_data (inl s)))
  combine-Stored b t row (inr (inr (u, i))) = elim (Bool-cases (t == u)) [
    | inr other ↦ inr (inr (u, rw other i))
    | inl same ↦ inr (
        inl (
          In-concat_last row b.global.local_data_collections (b.locals t).local_data (
            inr (
              subst (λ (v : ℕ). In row (rows_of (b.locals v).local_data))
                (sym ((==_iff t u).0 same)) i))))
  ]

  combines-Stored :
      (b b' : Build V F) (t : ℕ) (row : List (Option V))
      → step engine b (combines t) ≡ some b'
      → Stored engine b row
      → Stored engine b' row
  unfolding step
  combines-Stored b b' t row e s =
      subst (λ (x : Build V F). Stored engine x row) (some-injective _ b' e)
        (combine-Stored b t row s)

  sink-takes :
      (op : PhysicalCreateFilter F) (g : GlobalSinkState V) (reg : ProbeEmptyRegistry)
      (l : LocalSinkState V) (chunk : DataChunk V)
      (r : SinkResult × PhysicalCreateFilter F × LocalSinkState V)
      → probe_known_empty engine g reg ≡ false
      → sink engine op g reg l chunk ≡ some r
      → rows_of r.2.local_data ≡ rows_of l.local_data ++ chunk.rows
  unfolding sink
  sink-takes op g reg l chunk r open_probe e =
      let (held, at, e') = >>=-eq-some l.local_data _ (rw open_probe at e) in
      let (m, done, same) =
        >>=-eq-some
          (insert_all engine chunk op.filter_operation.build_columns op.bound_column_indices
            op.bloom_filter_map)
          _ e' in
      ap (λ (x : SinkResult × PhysicalCreateFilter F × LocalSinkState V). rows_of x.2.local_data)
        (sym (some-injective _ r same))
      ∙ ap (λ (x : Option (List (List (Option V)))). rows_of x ++ chunk.rows) (sym at)

  step-Stored :
      (b b' : Build V F) (c : Call V) (row : List (Option V))
      → step engine b c ≡ some b'
      → Stored engine b row
      → Stored engine b' row
  step-Stored b b' (sinks t reg chunk) row e s = sink-Stored b b' t reg chunk row e s
  step-Stored b b' (combines t) row e s = combines-Stored b b' t row e s

  taken-Stored :
      (b b' : Build V F) (t : ℕ) (reg : ProbeEmptyRegistry) (chunk : DataChunk V)
      (row : List (Option V))
      → probe_known_empty engine b.global reg ≡ false
      → step engine b (sinks t reg chunk) ≡ some b'
      → In row chunk.rows
      → Stored engine b' row
  unfolding step
  taken-Stored b b' t reg chunk row open_probe e i =
      let (r, ran, made) = >>=-eq-some (sink engine b.op b.global reg (b.locals t) chunk) _ e in
      let longer = sink-takes b.op b.global reg (b.locals t) chunk r open_probe ran in
      subst (λ (x : Build V F). Stored engine x row) (some-injective _ b' made)
        (In-local_new b r.1 t r.2 row (
          subst (In row) (sym longer)
            ((In-append row (rows_of (b.locals t).local_data) chunk.rows).1 (inr i))))

  run-Stored :
      (b b' : Build V F) (cs : List (Call V)) (row : List (Option V))
      → run engine b cs ≡ some b'
      → Stored engine b row
      → Stored engine b' row
  unfolding run step
  run-Stored b b' [] row e s =
      subst (λ (x : Build V F). Stored engine x row) (some-injective b b' e) s
  run-Stored b b' (c ∷ cs) row e s =
      let (b₁, first, rest) = >>=-eq-some (step engine b c) _ e in
      run-Stored b₁ b' cs row rest (step-Stored b b₁ c row first s)

  -- The rows of a chunk that Sink took, because the probe side was not known to be empty, are kept
  -- under all further calls of Sink and Combine by any threads: they are in the data of a thread or
  -- in the global data.
  pub sunk-Stored :
      (b b₁ b' : Build V F) (t : ℕ) (reg : ProbeEmptyRegistry) (chunk : DataChunk V)
      (cs : List (Call V)) (row : List (Option V))
      → probe_known_empty engine b.global reg ≡ false
      → step engine b (sinks t reg chunk) ≡ some b₁
      → run engine b₁ cs ≡ some b'
      → In row chunk.rows
      → Stored engine b' row
  sunk-Stored b b₁ b' t reg chunk cs row open_probe first rest i =
      run-Stored b₁ b' cs row rest (taken-Stored b b₁ t reg chunk row open_probe first i)
