-- ===== src/Optimizer/Extract/Tables.antt =====
-- The tables that `ExtractOperatorsRecursive` of src/optimizer/robust_optimizer.cpp registers.
use robust.Prelude.{
  ◌≡◌, sym, subst, ◌⊎◌, inl, inr, Bool, Option, some, arith, if◌then◌else◌, >>=-eq-some,
}
use mathlib.Core.Option.{some-injective}
use robust.Plan.{Operator, duckdb, create_filter, probe_filter, Plan, Plans, node, nil, cons}
use robust.Table.{TableManager, add_table_operator}
use robust.Table.Laws.{IsConsistent, add_table_operator-IsConsistent}
use robust.Optimizer.Extract.{
  rename_all, Extraction, collect_join, add_node, rename_node, Visit, add_it, rename_it,
  table_filter, nothing, visit, is_scan, extract, extract_children, add_children,
}

HasTables : Extraction → Type 0
HasTables s = IsConsistent s.table_mgr

chosen :
    (v : Visit) (b : Bool) (t f g : Option Extraction) (s : Extraction)
    → (elim v [ table_filter ↦ t | _ ↦ if b then f else g ]) ≡ some s
    → (t ≡ some s) ⊎ (f ≡ some s) ⊎ (g ≡ some s)
chosen add_it b t f g s e = ground (arith, e)
chosen rename_it b t f g s e = ground (arith, e)
chosen table_filter b t f g s e = inl e
chosen nothing b t f g s e = ground (arith, e)

visited :
    (v : Visit) (a r : Option Extraction) (j s : Extraction)
    → (elim v [ add_it ↦ a | rename_it ↦ r | table_filter ↦ some j | nothing ↦ some j ]) ≡ some s
    → (a ≡ some s) ⊎ (r ≡ some s) ⊎ (j ≡ s)
visited add_it a r j s e = inl e
visited rename_it a r j s e = inr (inl e)
visited table_filter a r j s e = inr (inr (some-injective j s e))
visited nothing a r j s e = inr (inr (some-injective j s e))

collect_join-table_mgr :
    (op : Operator) (s : Extraction) → (collect_join op s).table_mgr ≡ s.table_mgr
unfolding collect_join
collect_join-table_mgr op s = ground arith

add_node-HasTables :
    (p : Plan) (s s' : Extraction) → HasTables s → add_node p s ≡ some s' → HasTables s'
unfolding HasTables add_node
add_node-HasTables p s s' w e =
    let (m, found, made) = >>=-eq-some (add_table_operator s.table_mgr p) _ e in
    subst (λ (x : Extraction). IsConsistent x.table_mgr)
      (some-injective (record s { table_mgr = m }) s' made)
      (add_table_operator-IsConsistent s.table_mgr m p w found)

rename_node-HasTables :
    (op : Operator) (s s' : Extraction) → HasTables s → rename_node op s ≡ some s' → HasTables s'
unfolding HasTables rename_node
rename_node-HasTables op s s' w e =
    let (renames, found, made) =
      >>=-eq-some (rename_all op.column_bindings op.expressions s.rename_col_bindings) _ e in
    subst (λ (x : Extraction). IsConsistent x.table_mgr)
      (some-injective (record s { rename_col_bindings = renames }) s' made) w

first-HasTables :
    (op : Operator) (children : Plans) (v : Visit) (s s' : Extraction)
    → HasTables s
    → (elim v [
      | add_it ↦ add_node (node (duckdb op) children) s
      | rename_it ↦ rename_node op s
      | table_filter ↦ some s
      | nothing ↦ some s
    ])
      ≡ some s'
    → HasTables s'
first-HasTables op children v s s' w e = elim (visited v _ _ s s' e) [
  | inl a ↦ add_node-HasTables (node (duckdb op) children) s s' w a
  | inr (inl r) ↦ rename_node-HasTables op s s' w r
  | inr (inr j) ↦ subst (λ (x : Extraction). HasTables x) j w
]

mutual
  unfolding extract extract_children add_children HasTables

  extract-HasTables :
      (p : Plan) (s s' : Extraction) → HasTables s → extract p s ≡ some s' → HasTables s'
  extract-HasTables (node (duckdb op) children) s s' w e =
      let joined : HasTables (collect_join op s) =
        subst (λ (m : TableManager). IsConsistent m) (sym (collect_join-table_mgr op s)) w in
      elim (chosen (visit op children) (is_scan op.type) _ _ _ s' e) [
        | inl t ↦ add_children-HasTables children (collect_join op s) s' joined t
        | inr (inl f) ↦
            first-HasTables op children (visit op children) (collect_join op s) s' joined f
        | inr (inr g) ↦
            let (s₁, first, rest) = >>=-eq-some _ _ g in
            extract_children-HasTables children s₁ s'
              (first-HasTables op children (visit op children) (collect_join op s) s₁ joined first)
              rest
      ]
  extract-HasTables (node (create_filter op card) children) s s' w e =
      extract_children-HasTables children s s' w e
  extract-HasTables (node (probe_filter op card) children) s s' w e =
      extract_children-HasTables children s s' w e

  extract_children-HasTables :
      (ps : Plans) (s s' : Extraction)
      → HasTables s
      → extract_children ps s ≡ some s'
      → HasTables s'
  extract_children-HasTables nil s s' w e =
      subst (λ (x : Extraction). HasTables x) (some-injective s s' e) w
  extract_children-HasTables (cons p ps) s s' w e =
      let (s₁, first, rest) = >>=-eq-some (extract p s) _ e in
      extract_children-HasTables ps s₁ s' (extract-HasTables p s s₁ w first) rest

  add_children-HasTables :
      (ps : Plans) (s s' : Extraction) → HasTables s → add_children ps s ≡ some s' → HasTables s'
  add_children-HasTables nil s s' w e = ground (arith, e)
  add_children-HasTables (cons p ps) s s' w e = add_node-HasTables p s s' w e

-- An extraction that succeeds keeps the map and the vector of the tables in step: the same entries
-- in the order of their registration, each under its own valid index, and no index twice.
pub extract-IsConsistent :
    (p : Plan) (s s' : Extraction)
    → IsConsistent s.table_mgr
    → extract p s ≡ some s'
    → IsConsistent s'.table_mgr
unfolding HasTables
extract-IsConsistent p s s' w e = extract-HasTables p s s' w e
