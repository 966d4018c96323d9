-- ===== src/Physical/CreateFilter/Build.antt =====
-- A whole build: any number of threads call `Sink` in any order, each calls `Combine`, and then
-- `Finalize` runs. Other operators may change the shared flags between any two calls.
pub mod Stored
pub mod Ready
pub mod Finished
use robust.Physical.CreateFilter.Resize.{resize_all-Holds}
use robust.Physical.Bloom.Laws.{filter_hit}
use robust.Prelude.{
  none, ap, true, arith, is_empty, sym, ◌∙◌, ℕ, ◌≡◌, refl, subst, ◌⊎◌, inl, inr, Option, some, List,
  [], ◌∷◌, ◌++◌, map, ◌==◌, if◌then◌else◌, Bool-cases, ◌>>=◌, >>=-eq-some, In, In-append,
}
use robust.Column.{FilterOperation, ColumnBinding}
use robust.Engine.{Engine}
use robust.Physical.Chunk.{LogicalTypeId, DataChunk}
use robust.Physical.Bloom.{PtBloomFilter}
use robust.Physical.Registry.{ProbeEmptyRegistry}
use robust.Physical.CreateFilter.{
  resize_all, map_filters, finalize, find_filter, PhysicalCreateFilter, GlobalSinkState,
  LocalSinkState, FilterMap, SinkResult, insert_all, probe_known_empty, sink, combine, moved_out,
  merge_collections,
}
use robust.Physical.CreateFilter.Filters.{
  Holds, Holds-Kept, Holds-both, insert_all-Kept, insert_all-Holds,
}

pub record Build (V F : Type 0) : Type 0 where
  pub op : PhysicalCreateFilter F
  pub global : GlobalSinkState V
  pub locals : ℕ → LocalSinkState V

pub data Call (V : Type 0) : Type 0 where
  sinks : ℕ → ProbeEmptyRegistry → DataChunk V → Call V
  combines : ℕ → Call V

abbrev pub update : {A : Type 0} → (ℕ → A) → ℕ → A → ℕ → A
update f t a u = if t == u then a else f u

pub some-eq : {A : Type 0} {a b : A} → some a ≡ some b → a ≡ b
some-eq e = cc

abbrev pub rows_of : {A : Type 0} → Option (List A) → List A
rows_of none = []
rows_of (some rows) = rows

abbrev pub all_rows : {A : Type 0} → List (Option (List A)) → List A
all_rows [] = []
all_rows (c ∷ cs) = rows_of c ++ all_rows cs

module _ {V F : Type 0} (engine : Engine V F) where
  unfoldable pub step : Build V F → Call V → Option (Build V F)
  step b (sinks t reg chunk) = sink engine b.op b.global reg (b.locals t) chunk >>= λ r.
      some (record b { op = r.1; locals = update b.locals t r.2 })
  step b (combines t) = some (record b {
    global = combine engine b.global (b.locals t);
    locals = update b.locals t (moved_out (b.locals t));
  })

  unfoldable pub run : Build V F → List (Call V) → Option (Build V F)
  run b [] = some b
  run b (c ∷ cs) = step b c >>= λ b'. run b' cs

  -- The rows that the sinks have stored, wherever they stand now.
  abbrev pub Stored : Build V F → List (Option V) → Type 0
  Stored b row =
      In row b.global.total_data
      ⊎ In row (all_rows b.global.local_data_collections)
      ⊎ ((t : ℕ) × In row (rows_of (b.locals t).local_data))

  abbrev pub columns : PhysicalCreateFilter F → List ColumnBinding
  columns op = op.filter_operation.build_columns

  -- Every stored row has its keys in the filters.
  pub record IsBuilding (pos : ColumnBinding → ℕ) (b : Build V F) : Type 0 where
    pub aligned : b.op.bound_column_indices ≡ map pos (columns b.op)
    pub holds : Holds engine pos (columns b.op) b.op.bloom_filter_map (Stored b)

  sink-cases :
      (op : PhysicalCreateFilter F) (g : GlobalSinkState V) (reg : ProbeEmptyRegistry)
      (l : LocalSinkState V) (chunk : DataChunk V)
      (r : SinkResult × PhysicalCreateFilter F × LocalSinkState V)
      → sink engine op g reg l chunk ≡ some r
      → ((r.1 ≡ op) × (r.2 ≡ l))
        ⊎ ((m : FilterMap F) × (insert_all engine chunk
                (columns op)
                op.bound_column_indices
                op.bloom_filter_map
              ≡ some m)
            × (r.1 ≡ record op { bloom_filter_map = m })
            × (rows_of r.2.local_data ≡ rows_of l.local_data ++ chunk.rows))
  unfolding sink
  sink-cases op g reg l chunk r e = elim (Bool-cases (probe_known_empty engine g reg)) [
    | inl empty ↦ inl (cc (some-eq (rw empty at e)), cc (some-eq (rw empty at e)))
    | inr open_probe ↦
        let (held, at, e') = >>=-eq-some l.local_data _ (rw open_probe at e) in
        let (m, done, same) =
          >>=-eq-some
            (insert_all engine chunk (columns op) op.bound_column_indices op.bloom_filter_map) _
            e' in
        let ends = some-eq same in
        inr (
          m,
          done,
          cc ends,
          ap
                (λ (x : SinkResult × PhysicalCreateFilter F × LocalSinkState V).
                  rows_of x.2.local_data)
                (sym ends)
              ∙ ap (λ (x : Option (List (List (Option V)))). rows_of x ++ chunk.rows) (sym at),
        )
  ]

  pub Holds-mono :
      (pos : ColumnBinding → ℕ) (cols : List ColumnBinding) (m : FilterMap F)
      (P Q : List (Option V) → Type 0)
      → ((row : List (Option V)) → Q row → P row)
      → Holds engine pos cols m P
      → Holds engine pos cols m Q
  Holds-mono pos cols m P Q sub h col i =
      let (bf, found, hits) = h col i in (bf, found, λ row q. hits row (sub row q))

  insert_all-IsBuilding :
      (pos : ColumnBinding → ℕ) (b : Build V F) (chunk : DataChunk V) (m : FilterMap F)
      → IsBuilding pos b
      → insert_all engine chunk (columns b.op) b.op.bound_column_indices b.op.bloom_filter_map
        ≡ some m
      → Holds engine pos (columns b.op) m (λ row. Stored b row ⊎ In row chunk.rows)
  insert_all-IsBuilding pos b chunk m w done =
      let done' = rw w.aligned at done in
      Holds-both engine pos (columns b.op) m (Stored b) (λ row. In row chunk.rows)
        (Holds-Kept engine pos (columns b.op) b.op.bloom_filter_map m (Stored b)
          (insert_all-Kept engine chunk (columns b.op) b.op.bound_column_indices
            b.op.bloom_filter_map m done)
          w.holds)
        (insert_all-Holds engine pos chunk (columns b.op) b.op.bloom_filter_map m
          (λ col i. let (bf, found, _) = w.holds col i in (bf, found)) done')

  Stored-update :
      (b : Build V F) (op : PhysicalCreateFilter F) (t : ℕ) (l : LocalSinkState V)
      (chunk : DataChunk V) (row : List (Option V))
      → rows_of l.local_data ≡ rows_of (b.locals t).local_data ++ chunk.rows
      → Stored (record b { op = op; locals = update b.locals t l }) row
      → Stored b row ⊎ In row chunk.rows
  Stored-update b op t l chunk row e (inl s) = inl (inl s)
  Stored-update b op t l chunk row e (inr (inl s)) = inl (inr (inl s))
  Stored-update b op t l chunk row e (inr (inr (u, s))) = elim (Bool-cases (t == u)) [
    | inr other ↦ inl (inr (inr (u, (rw other at s))))
    | inl same ↦
        elim ((In-append row (rows_of (b.locals t).local_data) chunk.rows).0
          (subst (In row) e (rw same at s))) [
            | inl old ↦ inl (inr (inr (t, old)))
            | inr new ↦ inr new
          ]
  ]

  In-concat_append :
      (row : List (Option V)) (xs : List (Option (List (List (Option V)))))
      (l : Option (List (List (Option V))))
      → In row (all_rows (xs ++ l ∷ []))
      → In row (all_rows xs) ⊎ In row (rows_of l)
  In-concat_append row [] l h = elim ((In-append row (rows_of l) []).0 h) [
    | inl m ↦ inr m
    | inr m ↦ absurd m
  ]
  In-concat_append row (x ∷ xs) l h =
      elim ((In-append row (rows_of x) (all_rows (xs ++ l ∷ []))).0 h) [
        | inl m ↦ inl ((In-append row (rows_of x) (all_rows xs)).1 (inl m))
        | inr m ↦ elim (In-concat_append row xs l m) [
          | inl k ↦ inl ((In-append row (rows_of x) (all_rows xs)).1 (inr k))
          | inr k ↦ inr k
        ]
      ]

  Stored-combine :
      (b : Build V F) (t : ℕ) (row : List (Option V))
      → Stored
          (record b {
            global = combine engine b.global (b.locals t);
            locals = update b.locals t (moved_out (b.locals t));
          })
          row
      → Stored b row
  unfolding combine moved_out
  Stored-combine b t row (inl s) = inl s
  Stored-combine b t row (inr (inl s)) =
      elim (In-concat_append row b.global.local_data_collections (b.locals t).local_data s) [
        | inl m ↦ inr (inl m)
        | inr m ↦ inr (inr (t, m))
      ]
  Stored-combine b t row (inr (inr (u, s))) = elim (Bool-cases (t == u)) [
    | inl same ↦ absurd (rw same at s)
    | inr other ↦ inr (inr (u, (rw other at s)))
  ]

  Stored-update_self :
      (b : Build V F) (op : PhysicalCreateFilter F) (t : ℕ) (l : LocalSinkState V)
      (row : List (Option V))
      → l ≡ b.locals t
      → Stored (record b { op = op; locals = update b.locals t l }) row
      → Stored b row
  Stored-update_self b op t l row e (inl s) = inl s
  Stored-update_self b op t l row e (inr (inl s)) = inr (inl s)
  Stored-update_self b op t l row e (inr (inr (u, s))) = elim (Bool-cases (t == u)) [
    | inl same ↦
        inr (
          inr (t, subst (λ (x : LocalSinkState V). In row (rows_of x.local_data)) e (rw same at s)))
    | inr other ↦ inr (inr (u, (rw other at s)))
  ]

  -- What a call must leave: the invariant, and the operation that it works for.
  abbrev pub Keeps : (ColumnBinding → ℕ) → Build V F → Build V F → Type 0
  Keeps pos b b' = IsBuilding pos b' × (b'.op.filter_operation ≡ b.op.filter_operation)

  Keeps-unchanged :
      (pos : ColumnBinding → ℕ) (b : Build V F) (op : PhysicalCreateFilter F) (t : ℕ)
      (l : LocalSinkState V)
      → IsBuilding pos b
      → b.op ≡ op
      → l ≡ b.locals t
      → Keeps pos b (record b { op = op; locals = update b.locals t l })
  Keeps-unchanged pos b op t l w e e' =
      subst
        (λ (x : PhysicalCreateFilter F).
          Keeps pos b (record b { op = x; locals = update b.locals t l }))
        e
        (
          record {
            aligned = w.aligned;
            holds =
                Holds-mono pos (columns b.op) b.op.bloom_filter_map (Stored b) _
                  (λ row s. Stored-update_self b b.op t l row e' s) w.holds;
          },
          refl,
        )

  Keeps-inserted :
      (pos : ColumnBinding → ℕ) (b : Build V F) (op : PhysicalCreateFilter F) (t : ℕ)
      (l : LocalSinkState V) (chunk : DataChunk V) (m : FilterMap F)
      → IsBuilding pos b
      → insert_all engine chunk (columns b.op) b.op.bound_column_indices b.op.bloom_filter_map
        ≡ some m
      → record b.op { bloom_filter_map = m } ≡ op
      → rows_of l.local_data ≡ rows_of (b.locals t).local_data ++ chunk.rows
      → Keeps pos b (record b { op = op; locals = update b.locals t l })
  Keeps-inserted pos b op t l chunk m w done e e' =
      subst
        (λ (x : PhysicalCreateFilter F).
          Keeps pos b (record b { op = x; locals = update b.locals t l }))
        e
        (
          record {
            aligned = w.aligned;
            holds =
                Holds-mono pos (columns b.op) m (λ row. Stored b row ⊎ In row chunk.rows) _
                  (λ row s.
                    Stored-update b (record b.op { bloom_filter_map = m }) t l chunk row e' s)
                  (insert_all-IsBuilding pos b chunk m w done);
          },
          refl,
        )

  pub step-IsBuilding :
      (pos : ColumnBinding → ℕ) (b b' : Build V F) (c : Call V)
      → IsBuilding pos b
      → step b c ≡ some b'
      → Keeps pos b b'
  unfolding step
  step-IsBuilding pos b b' (combines t) w e =
      subst (λ (x : Build V F). Keeps pos b x) (some-eq e)
        (
          record {
            aligned = w.aligned;
            holds =
                Holds-mono pos (columns b.op) b.op.bloom_filter_map (Stored b) _
                  (Stored-combine b t) w.holds;
          },
          refl,
        )
  step-IsBuilding pos b b' (sinks t reg chunk) w e =
      let (r, ran, same) = >>=-eq-some (sink engine b.op b.global reg (b.locals t) chunk) _ e in
      let kept : Keeps pos b (record b { op = r.1; locals = update b.locals t r.2 }) =
        elim (sink-cases b.op b.global reg (b.locals t) chunk r ran) [
          | inl (op_same, l_same) ↦ Keeps-unchanged pos b r.1 t r.2 w (sym op_same) l_same
          | inr (m, done, op_new, l_new) ↦
              Keeps-inserted pos b r.1 t r.2 chunk m w done (sym op_new) l_new
        ] in
      subst (λ (x : Build V F). Keeps pos b x) (some-eq same) kept

  pub run-IsBuilding :
      (pos : ColumnBinding → ℕ) (b b' : Build V F) (cs : List (Call V))
      → IsBuilding pos b
      → run b cs ≡ some b'
      → Keeps pos b b'
  unfolding run
  run-IsBuilding pos b b' [] w e = subst (λ (x : Build V F). Keeps pos b x) (some-eq e) (w, refl)
  run-IsBuilding pos b b' (c ∷ cs) w e =
      let (b₁, first, rest) = >>=-eq-some (step b c) _ e in
      let (w₁, op₁) = step-IsBuilding pos b b₁ c w first in
      let (w', op') = run-IsBuilding pos b₁ b' cs w₁ rest in (w', op' ∙ op₁)
