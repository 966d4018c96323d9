-- ===== src/Optimizer/Link.antt =====
-- `LinkProbeFilterToCreateFilter` of src/optimizer/robust_optimizer.cpp. A pointer to an operator is its
-- position in the walk over the plan, which both passes make.
pub mod Creates
pub mod Pairs
pub mod Result
use robust.Prelude.{
  ℕ, zero, suc, ◌+◌, ◌-◌, ◌*◌, ◌/◌, ◌%◌, ◌^◌, ◌≤◌, ◌<◌, min, max, ◌≡◌, refl, sym, ap, ◌∙◌, subst,
  ◌≢◌, ◌↔◌, ◌⊎◌, inl, inr, Bool, true, false, not, ◌&&◌, ◌||◌, Option, none, some, List, [], ◌∷◌,
  ◌++◌, map, foldl, arith, ltb, leb, ◌==◌, if◌then◌else◌, ltb→lt, lt→ltb, ==_iff, ==_refl,
  Bool-cases, and-eq-true, Option-cases, ◌>>=◌, >>=-eq-some, length, get_elem?, get_or, set,
  replicate, is_empty, tail, length-append, length-set, In, All, All-In, In-append,
}
use robust.Column.{ColumnBinding, FilterOperation}
use robust.Physical.CreateFilter.{DynamicFilterTarget}
use robust.Plan.{Node, duckdb, create_filter, probe_filter, Plan}
use robust.Optimizer.Walk.{operators}

-- An operator with the fields of `LogicalProbeFilter` and `LogicalCreateFilter` that the optimizer
-- sets: the links to each other and the targets of the pushdown.
pub record LinkedOperator : Type 0 where
  pub operator : Node
  pub related_create_filter : Option ℕ
  pub related_probe_filter : List ℕ
  pub pushdown_targets : List DynamicFilterTarget
  pub is_passthrough : Bool

unfoldable pub unlinked : Node → LinkedOperator
unlinked n = record {
  operator = n;
  related_create_filter = none;
  related_probe_filter = [];
  pushdown_targets = [];
  is_passthrough = false;
}

unfoldable pub create_operation : Node → Option FilterOperation
create_operation (duckdb op) = none
create_operation (create_filter f card) = some f
create_operation (probe_filter f card) = none

unfoldable pub probe_operation : Node → Option FilterOperation
probe_operation (duckdb op) = none
probe_operation (create_filter f card) = none
probe_operation (probe_filter f card) = some f

-- `create_filter_by_table`: the CREATE_FILTERs of each build table.
abbrev pub CreateMap : Type 0
CreateMap = List (ℕ × List (ℕ × FilterOperation))

unfoldable pub find_creates : ℕ → CreateMap → Option (List (ℕ × FilterOperation))
find_creates t [] = none
find_creates t ((k, creates) ∷ rest) = if k == t then some creates else find_creates t rest

unfoldable pub put_create : ℕ → ℕ × FilterOperation → CreateMap → CreateMap
put_create t c [] = (t, c ∷ []) ∷ []
put_create t c ((k, creates) ∷ rest) =
    if k == t then (k, creates ++ c ∷ []) ∷ rest else (k, creates) ∷ put_create t c rest

unfoldable pub add_create : ℕ → Node → CreateMap → CreateMap
add_create i n m = elim (create_operation n) [
  | none ↦ m
  | some f ↦ put_create f.build_table_idx (i, f) m
]

-- pass 1, for the operators from the position `i`
unfoldable pub collect_creates : ℕ → List Node → CreateMap → CreateMap
collect_creates i [] m = m
collect_creates i (n ∷ ns) m = collect_creates (suc i) ns (add_create i n m)

unfoldable pub has_table : ℕ → List ColumnBinding → Bool
has_table t [] = false
has_table t (c ∷ cols) = c.table_index == t || has_table t cols

-- the first one with a probe column of the table
unfoldable pub first_create : ℕ → List (ℕ × FilterOperation) → Option ℕ
first_create t [] = none
first_create t ((c, f) ∷ creates) =
    if has_table t f.probe_columns then some c else first_create t creates

unfoldable pub wanted_create : CreateMap → FilterOperation → Option ℕ
wanted_create m f =
    find_creates f.build_table_idx m >>= λ creates. first_create f.probe_table_idx creates

unfoldable pub change_linked :
    ℕ → (LinkedOperator → LinkedOperator) → List LinkedOperator → List LinkedOperator
change_linked i f [] = []
change_linked zero f (o ∷ ops) = f o ∷ ops
change_linked (suc i) f (o ∷ ops) = o ∷ change_linked i f ops

-- the writes at both ends
unfoldable pub link_pair : ℕ → ℕ → List LinkedOperator → List LinkedOperator
link_pair i c ops =
    change_linked c
      (λ (o : LinkedOperator). record o { related_probe_filter = o.related_probe_filter ++ i ∷ [] })
      (change_linked i (λ (o : LinkedOperator). record o { related_create_filter = some c }) ops)

-- pass 2, for the operators from the position `i`
unfoldable pub link_probes : CreateMap → ℕ → List Node → List LinkedOperator → List LinkedOperator
link_probes m i [] ops = ops
link_probes m i (n ∷ ns) ops =
    link_probes m (suc i) ns
      (elim (probe_operation n >>= wanted_create m) [ none ↦ ops | some c ↦ link_pair i c ops ])

unfoldable pub link_filters : Plan → Option (List LinkedOperator)
link_filters p =
    operators p >>= λ ns. some (link_probes (collect_creates 0 ns []) 0 ns (map unlinked ns))
