-- ===== src/Optimizer/Pushdown.antt =====
-- `SetupDynamicFilterPushdown` of src/optimizer/robust_optimizer.cpp: the scans into which a
-- CREATE_FILTER pushes its filters.
pub mod Sound
pub mod Result
use robust.Prelude.{
  ℕ, zero, suc, ◌+◌, ◌-◌, ◌*◌, ◌/◌, ◌%◌, ◌^◌, ◌≤◌, ◌<◌, min, max, ◌≡◌, refl, sym, ap, ◌∙◌, subst,
  ◌≢◌, ◌↔◌, ◌⊎◌, inl, inr, Bool, true, false, not, ◌&&◌, ◌||◌, Option, none, some, List, [], ◌∷◌,
  ◌++◌, map, foldl, arith, ltb, leb, ◌==◌, if◌then◌else◌, ltb→lt, lt→ltb, ==_iff, ==_refl,
  Bool-cases, and-eq-true, Option-cases, ◌>>=◌, >>=-eq-some, length, get_elem?, get_or, set,
  replicate, is_empty, tail, length-append, length-set, In, All, All-In, In-append,
}
use robust.Column.{ColumnBinding, FilterOperation}
use robust.Physical.Chunk.{LogicalTypeId}
use robust.Physical.CreateFilter.{DynamicFilterTarget}
use robust.Plan.{Node, duckdb, create_filter, probe_filter, Operator, Plan, Plans, node, nil, cons}
use robust.Table.{TableManager, find_table, find_logical_get}
use robust.Optimizer.Link.{LinkedOperator, create_operation, probe_operation, change_linked}

-- What DuckDB knows of a LOGICAL_GET: the primary index of each scanned column, and the types.
pub record Scan : Type 0 where
  pub column_ids : List ℕ
  pub returned_types : List LogicalTypeId

mutual
  -- the operator at an address, which the table manager keeps
  pub find_operator : ℕ → Plan → Option Plan
  find_operator id (node (duckdb op) children) =
      let below = find_in_all id children in
      if op.id == id then some (node (duckdb op) children) else below
  find_operator id (node (create_filter f card) children) = find_in_all id children
  find_operator id (node (probe_filter f card) children) = find_in_all id children

  pub find_in_all : ℕ → Plans → Option Plan
  find_in_all id nil = none
  find_in_all id (cons p ps) =
      let later = find_in_all id ps in
      elim (find_operator id p) [ none ↦ later | some found ↦ some found ]

-- A column out of bounds has no target. The filter set of a scan is shared by all that push into it,
-- and is named by the scan's address.
unfoldable pub scan_targets : Scan → ℕ → List ColumnBinding → List DynamicFilterTarget
scan_targets scan id [] = []
scan_targets scan id (c ∷ cols) =
    let rest = scan_targets scan id cols in
    elim (get_elem? scan.column_ids c.column_index) [
      | none ↦ rest
      | some primary ↦
          (record {
            dynamic_filters = id;
            scan_column_index = c.column_index;
            probe_column = c;
            column_type = get_or scan.returned_types primary LogicalTypeId.bigint;
          })
          ∷ rest
    ]

unfoldable pub is_forward : Option FilterOperation → Bool
is_forward none = false
is_forward (some f) = f.is_forward_pass

-- the LOGICAL_GET of a table
unfoldable pub scan_of_table : TableManager → Plan → ℕ → Option Operator
scan_of_table m plan t = find_table t m.table_lookup >>= λ info.
    find_operator info.table_op plan >>= λ p. find_logical_get p

module _ (m : TableManager) (scan_of : ℕ → Scan) (plan : Plan) where
  -- the targets that a CREATE_FILTER at `c` has for its related PROBE_FILTER at `i`
  unfoldable pub push_probe : ℕ → List LinkedOperator → ℕ → List LinkedOperator
  push_probe c ops i = elim (get_elem? ops i >>= λ o. probe_operation o.operator) [
    | none ↦ ops
    | some f ↦
        if f.is_forward_pass
        then elim (scan_of_table m plan f.probe_table_idx) [
          | none ↦ ops
          | some get ↦
              change_linked i (λ (o : LinkedOperator). record o { is_passthrough = true })
                (change_linked c
                  (λ (o : LinkedOperator). record o {
                    pushdown_targets =
                        o.pushdown_targets ++ scan_targets (scan_of get.id) get.id f.probe_columns;
                  })
                  ops)
        ]
        else ops
  ]

  unfoldable pub push_probes : ℕ → List LinkedOperator → List ℕ → List LinkedOperator
  push_probes c ops [] = ops
  push_probes c ops (i ∷ is) = push_probes c (push_probe c ops i) is

  -- The CREATE_FILTERs of the forward pass one after the other, of `k` operators from the position `c`.
  unfoldable pub push_creates : ℕ → ℕ → List LinkedOperator → List LinkedOperator
  push_creates zero c ops = ops
  push_creates (suc k) c ops = push_creates k (suc c) (elim (get_elem? ops c) [
    | none ↦ ops
    | some o ↦
        if is_forward (create_operation o.operator)
        then push_probes c ops o.related_probe_filter
        else ops
  ])

  unfoldable pub setup_pushdown : List LinkedOperator → List LinkedOperator
  setup_pushdown ops = push_creates (length ops) 0 ops
