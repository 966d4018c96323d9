-- ===== src/Optimizer/Stack.antt =====
-- `BuildStackedBFOperators` and `ApplyStageModifications` of src/optimizer/robust_optimizer.cpp.
pub mod Laws
pub mod Merge
use robust.Prelude.{
  ℕ, zero, suc, ◌+◌, ◌-◌, ◌*◌, ◌/◌, ◌%◌, ◌^◌, ◌≤◌, ◌<◌, min, max, ◌≡◌, refl, sym, ap, ◌∙◌, subst,
  ◌≢◌, ◌↔◌, ◌⊎◌, inl, inr, Bool, true, false, not, ◌&&◌, ◌||◌, Option, none, some, List, [], ◌∷◌,
  ◌++◌, map, foldl, arith, ltb, leb, ◌==◌, if◌then◌else◌, ltb→lt, lt→ltb, ==_iff, ==_refl,
  Bool-cases, and-eq-true, Option-cases, ◌>>=◌, >>=-eq-some, length, get_elem?, get_or, set,
  replicate, is_empty, tail, length-append, length-set, In, All, All-In, In-append,
}
use mathlib.Core.List.{reverse}
use robust.Column.{ColumnBinding, FilterOperation}
use robust.Engine.{concat}
use robust.Plan.{Operator, Node, duckdb, create_filter, probe_filter, Plan, Plans, node, nil, cons}
use robust.Table.{TableManager, find_table, node_id}

-- The probe columns at the indices of the build columns; fewer of them are read out of bounds.
pub paired_probes : List ColumnBinding → List ColumnBinding → Option (List ColumnBinding)
paired_probes [] ps = some []
paired_probes (b ∷ bs) [] = none
paired_probes (b ∷ bs) (p ∷ ps) = paired_probes bs ps >>= λ rest. some (p ∷ rest)

-- the probe columns that the loop over a run appends
pub run_probes : List FilterOperation → Option (List ColumnBinding)
run_probes [] = some []
run_probes (o ∷ ops) = paired_probes o.build_columns o.probe_columns >>= λ probes.
    run_probes ops >>= λ rest. some (probes ++ rest)

-- One run of consecutive CREATEs: alone it stays; otherwise the build columns are collected anew,
-- and the probe columns are appended to those that the first operation has already.
pub merge_run : FilterOperation → List FilterOperation → Option FilterOperation
merge_run first [] = some first
merge_run first (op ∷ ops) = run_probes (first ∷ op ∷ ops) >>= λ probes. some (record first {
  build_columns = concat (map (λ (o : FilterOperation). o.build_columns) (first ∷ op ∷ ops));
  probe_columns = first.probe_columns ++ probes;
})

-- The loop with its look-ahead: `run` is the run that is being collected, if there is one.
pub merge_from :
    Option (FilterOperation × List FilterOperation)
    → List FilterOperation
    → Option (List FilterOperation)
merge_from none [] = some []
merge_from (some (first, more)) [] = merge_run first more >>= λ merged. some (merged ∷ [])
merge_from none (op ∷ ops) =
    let collecting = merge_from (some (op, [])) ops in
    let plain = merge_from none ops >>= λ rest. some (op ∷ rest) in
    if op.is_create then collecting else plain
merge_from (some (first, more)) (op ∷ ops) =
    let longer = merge_from (some (first, more ++ op ∷ [])) ops in
    let another = merge_from (some (op, [])) ops in
    let plain = merge_from none ops >>= λ rest. some (op ∷ rest) in
    if op.is_create && op.build_table_idx == first.build_table_idx
    then longer
    else (merge_run first more >>= λ merged.
        (if op.is_create then another else plain) >>= λ rest. some (merged ∷ rest))

pub merged_ops : List FilterOperation → Option (List FilterOperation)
merged_ops ops = merge_from none ops

-- The cardinality of the new operator; DuckDB's default is 0.
pub stacked_cardinality : TableManager → FilterOperation → ℕ
stacked_cardinality m op =
    let t = if op.is_create then op.build_table_idx else op.probe_table_idx in
    elim (find_table t m.table_lookup) [ none ↦ 0 | some info ↦ info.estimated_cardinality ]

pub stack_one : TableManager → Plan → FilterOperation → Plan
stack_one m current op =
    let card = stacked_cardinality m op in
    node (if op.is_create then create_filter op card else probe_filter op card) (cons current nil)

pub build_stacked : TableManager → Plan → List FilterOperation → Bool → Option Plan
build_stacked m base ops reverse_order = merged_ops ops >>= λ merged.
    some (foldl (stack_one m) base (if reverse_order then reverse merged else merged))

-- A map from the address of an operator to its filter operations.
abbrev pub OpMap : Type 0
OpMap = List (ℕ × List FilterOperation)

unfoldable pub find_ops : ℕ → OpMap → Option (List FilterOperation)
find_ops k [] = none
find_ops k ((j, ops) ∷ rest) = if j == k then some ops else find_ops k rest

-- The filters of one operator, above it. The extension's own operators are new, so no key of the
-- maps is their address.
pub stack_at : TableManager → OpMap → Node → Plan → Option Plan
stack_at m ops (duckdb op) plan = elim (find_ops op.id ops) [
  | none ↦ some plan
  | some fs ↦ build_stacked m plan fs false
]
stack_at m ops _ plan = some plan

mutual
  pub apply_modifications : TableManager → OpMap → OpMap → Plan → Option Plan
  apply_modifications m forward backward (node n children) =
      apply_to_children m forward backward children >>= λ done.
      stack_at m forward n (node n done) >>= λ stacked. stack_at m backward n stacked

  pub apply_to_children : TableManager → OpMap → OpMap → Plans → Option Plans
  apply_to_children m forward backward nil = some nil
  apply_to_children m forward backward (cons p ps) =
      apply_modifications m forward backward p >>= λ done.
      apply_to_children m forward backward ps >>= λ rest. some (cons done rest)
