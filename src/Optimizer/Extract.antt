-- ===== src/Optimizer/Extract.antt =====
-- `ExtractOperators`, `ExtractOperatorsRecursive`, `ResolveColumnBinding` and `CreateJoinEdges` of
-- src/optimizer/robust_optimizer.cpp: the tables, the renamed columns and the edges of the join
-- graph.
pub mod Resolve
pub mod Edges
pub mod Tables
use robust.Prelude.{
  ℕ, zero, suc, ◌+◌, ◌-◌, ◌*◌, ◌/◌, ◌%◌, ◌^◌, ◌≤◌, ◌<◌, min, max, ◌≡◌, refl, sym, ap, ◌∙◌, subst,
  ◌≢◌, ◌↔◌, ◌⊎◌, inl, inr, Bool, true, false, not, ◌&&◌, ◌||◌, Option, none, some, List, [], ◌∷◌,
  ◌++◌, map, foldl, arith, ltb, leb, ◌==◌, if◌then◌else◌, ltb→lt, lt→ltb, ==_iff, ==_refl,
  Bool-cases, and-eq-true, Option-cases, ◌>>=◌, >>=-eq-some, length, get_elem?, get_or, set,
  replicate, is_empty, tail, length-append, length-set, In, All, All-In, In-append,
}
use robust.Column.{
  ColumnBinding, binding_eq, JoinType, inner, left, right, semi, right_semi, JoinEdge,
}
use robust.Plan.{
  Operator, OperatorType, comparison_join, delim_join, filter, aggregate, projection, union, except,
  intersect, window, dummy_scan, expression_get, delim_get, get, empty_result, chunk_get,
  Expression, JoinCondition, duckdb, create_filter, probe_filter, Plan, Plans, node, nil, cons,
  equal_columns, column_ref, other_expression,
}
use robust.Table.{TableManager, add_table_operator, find_table}

abbrev pub Renames : Type 0
Renames = List (ColumnBinding × ColumnBinding)

pub record Extraction : Type 0 where
  pub table_mgr : TableManager
  pub rename_col_bindings : Renames
  pub join_ops : List Operator

unfoldable pub find_rename : ColumnBinding → Renames → Option ColumnBinding
find_rename b [] = none
find_rename b ((k, v) ∷ rest) = if binding_eq k b then some v else find_rename b rest

-- `insert` of the map: a key that is there keeps its value.
pub insert_rename : ColumnBinding → ColumnBinding → Renames → Renames
insert_rename k v renames = elim (find_rename k renames) [
  | none ↦ (k, v) ∷ renames
  | some _ ↦ renames
]

-- The loop over the expressions of a projection, or the groups of an aggregate. A binding that is
-- missing for a column reference is a fault.
pub rename_all : List ColumnBinding → List Expression → Renames → Option Renames
rename_all refs [] renames = some renames
rename_all [] (column_ref c ∷ es) renames = none
rename_all [] (other_expression ∷ es) renames = rename_all [] es renames
rename_all (r ∷ refs) (column_ref c ∷ es) renames = rename_all refs es (insert_rename r c renames)
rename_all (r ∷ refs) (other_expression ∷ es) renames = rename_all refs es renames

unfoldable pub any_equal : List JoinCondition → Bool
any_equal [] = false
any_equal (c ∷ cs) = elim (equal_columns c) [ some _ ↦ true | none ↦ any_equal cs ]

unfoldable pub is_join_extracted : JoinType → Bool
is_join_extracted inner = true
is_join_extracted left = true
is_join_extracted right = true
is_join_extracted semi = true
is_join_extracted right_semi = true
is_join_extracted _ = false

-- step 1 of `ExtractOperatorsRecursive`
unfoldable pub collect_join : Operator → Extraction → Extraction
collect_join op s =
    let collected : Extraction =
      if is_join_extracted op.join_type && any_equal op.conditions
      then (record s { join_ops = s.join_ops ++ op ∷ [] })
      else s in
    elim op.type [ comparison_join ↦ collected | delim_join ↦ collected | _ ↦ s ]

unfoldable pub add_node : Plan → Extraction → Option Extraction
add_node p s = add_table_operator s.table_mgr p >>= λ m. some (record s { table_mgr = m })

pub rename_node : Operator → Extraction → Option Extraction
rename_node op s = rename_all op.column_bindings op.expressions s.rename_col_bindings >>= λ renames.
    some (record s { rename_col_bindings = renames })

pub is_get : Plan → Bool
is_get (node (duckdb op) children) = elim op.type [ get ↦ true | _ ↦ false ]
is_get _ = false

-- What is done at an operator before its children are visited; the operators of the extension are
-- added to a plan after it was extracted, and stand under the default case.
pub data Visit : Type 0 where
  add_it rename_it table_filter nothing : Visit

-- the cases of the switch
unfoldable pub visit : Operator → Plans → Visit
visit op children = elim op.type [
  | filter ↦ elim children [
    | nil ↦ table_filter
    | cons child _ ↦ if is_get child then table_filter else nothing
  ]
  | aggregate ↦ if is_empty op.expressions && leb op.grouping_sets 1 then add_it else rename_it
  | projection ↦ rename_it
  | union ↦ add_it
  | except ↦ add_it
  | intersect ↦ add_it
  | window ↦ add_it
  | dummy_scan ↦ add_it
  | expression_get ↦ add_it
  | delim_get ↦ add_it
  | get ↦ add_it
  | empty_result ↦ add_it
  | chunk_get ↦ add_it
  | _ ↦ nothing
]

-- Scans return without a visit to their children.
unfoldable pub is_scan : OperatorType → Bool
is_scan dummy_scan = true
is_scan expression_get = true
is_scan delim_get = true
is_scan get = true
is_scan empty_result = true
is_scan chunk_get = true
is_scan _ = false

unfoldable mutual
  -- The state of a fault is `none`. All other operators visit each of their children, of which a
  -- filter, an aggregate, a projection and a window have one, a set operation two.
  pub extract : Plan → Extraction → Option Extraction
  extract (node (duckdb op) children) s =
      let joined = collect_join op s in
      let p = node (duckdb op) children in
      let added = add_node p joined in
      let renamed = rename_node op joined in
      let first : Option Extraction = elim (visit op children) [
        | add_it ↦ added
        | rename_it ↦ renamed
        | table_filter ↦ some joined
        | nothing ↦ some joined
      ] in
      let table = add_children children joined in
      let below = λ (s' : Extraction). extract_children children s' in
      elim (visit op children) [
        | table_filter ↦ table
        | _ ↦ if is_scan op.type then first else first >>= below
      ]
  extract (node (create_filter op card) children) s = extract_children children s
  extract (node (probe_filter op card) children) s = extract_children children s

  pub extract_children : Plans → Extraction → Option Extraction
  extract_children nil s = some s
  extract_children (cons p ps) s = extract p s >>= λ s'. extract_children ps s'

  -- the LOGICAL_GET under a filter
  pub add_children : Plans → Extraction → Option Extraction
  add_children nil s = none
  add_children (cons p ps) s = add_node p s

pub is_visited : ColumnBinding → List ColumnBinding → Bool
is_visited b [] = false
is_visited b (v ∷ vs) = binding_eq v b || is_visited b vs

-- The loop of `ResolveColumnBinding`, on fuel.
pub resolve_loop : ℕ → Renames → List ColumnBinding → ColumnBinding → Option ColumnBinding
resolve_loop zero renames visited current = none
resolve_loop (suc fuel) renames visited current = elim (is_visited current visited) [
  | true ↦ some current
  | false ↦ elim (find_rename current renames) [
    | none ↦ some current
    | some next ↦ resolve_loop fuel renames (current ∷ visited) next
  ]
]

-- A renamed column is visited once, so the loop ends within one more round than there are renames.
pub resolve_column_binding : Renames → ColumnBinding → Option ColumnBinding
resolve_column_binding renames b = resolve_loop (suc (suc (length renames))) renames [] b

-- The two resolved columns of each equality condition.
pub resolved_columns :
    Renames → List JoinCondition → Option (List ColumnBinding × List ColumnBinding)
resolved_columns renames [] = some ([], [])
resolved_columns renames (c ∷ cs) = resolved_columns renames cs >>= λ rest. elim (equal_columns c) [
  | none ↦ some rest
  | some lr ↦ resolve_column_binding renames lr.0 >>= λ a.
      resolve_column_binding renames lr.1 >>= λ b. some (a ∷ rest.0, b ∷ rest.1)
]

pub is_known : TableManager → ℕ → Bool
is_known m t = elim (find_table t m.table_lookup) [ none ↦ false | some _ ↦ true ]

-- one round of the loop of `CreateJoinEdges`
pub join_edge : TableManager → JoinType → List ColumnBinding × List ColumnBinding → List JoinEdge
join_edge m type ([], others) = []
join_edge m type (a ∷ more, []) = []
join_edge m type (a ∷ more, b ∷ others) =
    if is_known m a.table_index && is_known m b.table_index
    then (record {
      table_a = a.table_index;
      table_b = b.table_index;
      join_columns_a = a ∷ more;
      join_columns_b = b ∷ others;
      weight = length (a ∷ more);
      join_type = type;
    })
      ∷ []
    else []

pub create_join_edges : TableManager → Renames → List Operator → Option (List JoinEdge)
create_join_edges m renames [] = some []
create_join_edges m renames (op ∷ ops) = resolved_columns renames op.conditions >>= λ columns.
    create_join_edges m renames ops >>= λ rest. some (join_edge m op.join_type columns ++ rest)

pub extract_operators : Plan → Extraction → Option (Extraction × List JoinEdge)
extract_operators p s = extract p (record s { join_ops = [] }) >>= λ s'.
    create_join_edges s'.table_mgr s'.rename_col_bindings s'.join_ops >>= λ edges. some (s', edges)
