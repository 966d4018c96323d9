-- ===== src/Logical/Build.antt =====
-- A whole build from the planned operator on: `CreatePlan` of src/operators/logical_create_filter.cpp
-- and then the calls on the operator of src/operators/physical_create_filter.cpp.
pub mod Complete
use robust.Prelude.{
  ℕ, zero, suc, ◌+◌, ◌-◌, ◌*◌, ◌/◌, ◌%◌, ◌^◌, ◌≤◌, ◌<◌, min, max, ◌≡◌, refl, sym, ap, ◌∙◌, subst,
  ◌≢◌, ◌↔◌, ◌⊎◌, inl, inr, Bool, true, false, not, ◌&&◌, ◌||◌, Option, none, some, List, [], ◌∷◌,
  ◌++◌, map, foldl, arith, ltb, leb, ◌==◌, if◌then◌else◌, ltb→lt, lt→ltb, ==_iff, ==_refl,
  Bool-cases, and-eq-true, Option-cases, ◌>>=◌, >>=-eq-some, length, get_elem?, get_or, set,
  replicate, is_empty, tail, length-append, length-set, In, All, All-In, In-append,
}
use robust.Column.{ColumnBinding, binding_eq, binding_eq_iff, FilterOperation}
use robust.Engine.{Engine, concat}
use robust.Physical.Chunk.{LogicalTypeId}
use robust.Physical.Bloom.{PtBloomFilter, new_filter, init_filter}
use robust.Physical.Bloom.Laws.{key_hit}
use robust.Physical.Registry.{ProbeEmptyRegistry}
use robust.Physical.CreateFilter.{
  new_create_filter, FilterMap, find_filter, put_filter, new_filters, map_filters,
  DynamicFilterTarget, PhysicalCreateFilter, GlobalSinkState, new_global_sink, new_local_sink,
  finalize,
}
use robust.Physical.CreateFilter.Filters.{Holds, find_filter-put_filter}
use robust.Physical.CreateFilter.Build.{Build, IsBuilding}
use robust.Physical.CreateFilter.Build.Finished.{find_filter-map_filters}
use robust.Logical.Laws.{position_found, position-get_elem?}
use robust.Logical.{new_create_filter, position, resolve_columns, create_plan}

-- the chunk column of a build column
unfoldable pub chunk_column : List ColumnBinding → ColumnBinding → ℕ
chunk_column child c = elim (position child c) [ none ↦ 0 | some i ↦ i ]

abbrev pub HasColumns : List ColumnBinding → List ColumnBinding → Type 0
HasColumns child cols = All (λ (c : ColumnBinding). (i : ℕ) × (position child c ≡ some i)) cols

pub chunk_column_found :
    (child : List ColumnBinding) (c : ColumnBinding)
    → In c child
    → get_elem? child (chunk_column child c) ≡ some c
unfolding chunk_column
chunk_column_found child c m =
    let (i, e) = position_found child c m in ground (arith, e, position-get_elem? child c i e)

-- all of the columns are among the child's columns
abbrev pub IsCovered : List ColumnBinding → List ColumnBinding → Type 0
IsCovered child cols = (col : ColumnBinding) → In col cols → In col child

pub IsCovered-HasColumns :
    (child cols : List ColumnBinding) → IsCovered child cols → HasColumns child cols
IsCovered-HasColumns child [] w = tt
IsCovered-HasColumns child (c ∷ cols) w =
    (position_found child c (w c (inl refl)), IsCovered-HasColumns child cols (λ x i. w x (inr i)))

resolve_columns-aligned :
    (child cols : List ColumnBinding)
    → HasColumns child cols
    → resolve_columns child cols ≡ map (chunk_column child) cols
unfolding resolve_columns chunk_column
resolve_columns-aligned child [] w = refl
resolve_columns-aligned child (c ∷ cols) w =
    let found = w.0.1 in ground (arith, found, resolve_columns-aligned child cols w.1)

find_filter-new_filters :
    {F : Type 0} (blank : F) (cols : List ColumnBinding) (m : FilterMap F) (col : ColumnBinding)
    → In col cols ⊎ ((bf : PtBloomFilter F) × (find_filter col m ≡ some bf))
    → (bf : PtBloomFilter F) × (find_filter col (new_filters blank cols m) ≡ some bf)
unfolding new_filters
find_filter-new_filters blank [] m col w = elim w [ inl i ↦ absurd i | inr found ↦ found ]
find_filter-new_filters blank (c ∷ cols) m col w =
    let put = find_filter-put_filter col c (new_filter blank) m in
    find_filter-new_filters blank cols (put_filter c (new_filter blank) m) col
      (elim (Bool-cases (binding_eq c col)) [
        | inl h ↦ inr (new_filter blank, ground (arith, put, h))
        | inr h ↦ elim w [
          | inl (inl e) ↦ ground (arith, h, (binding_eq_iff c col).1 (sym e))
          | inl (inr i) ↦ inl i
          | inr (bf, found) ↦ inr (bf, ground (arith, put, h, found))
        ]
      ])

module _ {V F : Type 0} (engine : Engine V F) where
  -- the operator and the states at the start of the pipeline
  unfoldable pub start : PhysicalCreateFilter F → Option ℕ → ProbeEmptyRegistry → Build V F
  start op setting reg =
      let (op', g, reg') = new_global_sink engine op setting reg in
      record { op = op'; global = g; locals = λ t. new_local_sink engine op' }

  sized-Holds :
      (est : ℕ) (pos : ColumnBinding → ℕ) (cols : List ColumnBinding) (P : List (Option V) → Type 0)
      → ((row : List (Option V)) → ¬ P row)
      → Holds engine pos cols
          (map_filters (init_filter engine est) (new_filters engine.blank cols []))
          P
  sized-Holds est pos cols P never col i =
      let (bf, found) = find_filter-new_filters engine.blank cols [] col (inl i) in
      (
        init_filter engine est bf,
        find_filter-map_filters engine (init_filter engine est) col
            (new_filters engine.blank cols []) bf found,
        λ row p. absurd (never row p),
      )

  start-IsBuilding :
      (fop : FilterOperation) (est : ℕ) (child : List ColumnBinding) (forward : Bool)
      (targets : List DynamicFilterTarget) (setting : Option ℕ) (reg : ProbeEmptyRegistry)
      → HasColumns child fop.build_columns
      → IsBuilding engine
          (chunk_column child)
          (start (create_plan engine fop est child forward targets) setting reg)
  unfolding start create_plan new_global_sink new_create_filter new_local_sink
  start-IsBuilding fop est child true targets setting reg w = record {
    aligned = resolve_columns-aligned child fop.build_columns w;
    holds =
        sized-Holds est (chunk_column child) fop.build_columns _
          (λ row p. elim p [ inl h ↦ h | inr (inl h) ↦ h | inr (inr (t, h)) ↦ h ]);
  }
  start-IsBuilding fop est child false targets setting reg w = record {
    aligned = resolve_columns-aligned child fop.build_columns w;
    holds =
        sized-Holds est (chunk_column child) fop.build_columns _
          (λ row p. elim p [ inl h ↦ h | inr (inl h) ↦ h | inr (inr (t, h)) ↦ h ]);
  }
