-- ===== src/Optimizer/Dag/Links/Visit.antt =====
-- The visit of `PhysicalDAGDFS` of src/optimizer/robust_optimizer.cpp, with the conditions of joins.
use robust.Prelude.{
  ℕ, suc, ◌<◌, ◌≡◌, refl, ◌⊎◌, inl, inr, true, Option, none, some, List, [], ◌∷◌, map, arith, ltb,
  ◌==◌, if◌then◌else◌, Bool-cases, Option-cases,
}
use robust.Column.{
  JoinType, inner, left, right, semi, right_semi, mark, anti, outer, single, ColumnBinding,
}
use robust.Table.{TableInfo, TableManager, table_info}
use robust.Plan.{
  Plan, Plans, Operator, node, nil, cons, duckdb, create_filter, probe_filter, JoinCondition,
  equal_columns,
}
use robust.Optimizer.Extract.{is_scan, Renames}
use robust.Optimizer.Extract.Resolve.{resolve_column_binding_total}
use robust.Optimizer.UnionFind.Classes.{uf_find-IsClasses}
use robust.Optimizer.UnionFind.Union.{uf_union-IsClasses}
use robust.Optimizer.Dag.{
  join_visit, link_ordered, is_join, DagState, DagVisit, leaf, mark_join, ordinary_join, no_join,
  Candidate, find_position, link_nodes, link_ordered, link_tables, link_condition, link_conditions,
  dag_visit, dag_dfs, dag_children, dag_first, dag_join, add_leaf,
}
use robust.Optimizer.Dag.Links.Build.{
  IsBuilt, IsCandidate, best_candidate-IsCandidate, link_nodes-IsLinked, add_leaf-IsBuilt,
}

link_ordered-IsBuilt :
    (p : ColumnBinding) (parent_at : ℕ) (c : ColumnBinding) (child_at : ℕ) (s : DagState)
    → find_position p.table_index s.node_map ≡ some parent_at
    → find_position c.table_index s.node_map ≡ some child_at
    → IsBuilt s
    → (s' : DagState) × (link_ordered p parent_at c child_at s ≡ some s') × IsBuilt s'
unfolding link_ordered IsCandidate
link_ordered-IsBuilt p parent_at c child_at s ep ec w =
    let rep = w.classes.0 in
    let (uf₁, ran₁, w₁) = uf_find-IsClasses s.uf_parent rep c w.classes.1 in
    let start : Candidate = record {
      best_child = c.table_index;
      best_child_dfs = child_at;
      best_child_col = c;
    } in
    let keys = map (λ (entry : ColumnBinding × ColumnBinding). entry.0) uf₁ in
    let (uf₂, best, ran₂, w₂, at) =
      best_candidate-IsCandidate s.node_map p.table_index (rep c) rep keys uf₁ start w₁ ec in
    let (linked, same) =
      link_nodes-IsLinked p.table_index p parent_at best best.best_child_dfs s.all_nodes
        (w.mapped p.table_index parent_at ep) (w.mapped best.best_child best.best_child_dfs at)
        w.linked in
    (
      record s {
        uf_parent = uf₂;
        all_nodes = link_nodes p.table_index p parent_at best best.best_child_dfs s.all_nodes;
      },
      ground (arith, ran₁, ran₂, at),
      record { linked = linked; mapped = λ t i e. same i t (w.mapped t i e); classes = (rep, w₂) },
    )

link_tables-IsBuilt :
    (a : ColumnBinding) (idx_a : ℕ) (b : ColumnBinding) (idx_b : ℕ) (s : DagState)
    → find_position a.table_index s.node_map ≡ some idx_a
    → find_position b.table_index s.node_map ≡ some idx_b
    → IsBuilt s
    → (s' : DagState) × (link_tables a idx_a b idx_b s ≡ some s') × IsBuilt s'
unfolding link_tables
link_tables-IsBuilt a idx_a b idx_b s ea eb w = elim (Bool-cases (ltb idx_b idx_a)) [
  | inl h ↦
      let (s', ran, w') = link_ordered-IsBuilt a idx_a b idx_b s ea eb w in
      (s', ground (arith, h, ran), w')
  | inr h ↦
      let (s', ran, w') = link_ordered-IsBuilt b idx_b a idx_a s eb ea w in
      (s', ground (arith, h, ran), w')
]

link_condition-IsBuilt :
    (renames : Renames) (c : JoinCondition) (s : DagState)
    → IsBuilt s
    → (s' : DagState) × (link_condition renames c s ≡ some s') × IsBuilt s'
unfolding link_condition
link_condition-IsBuilt renames c s w = elim (Option-cases (equal_columns c)) [
  | inl e ↦ (s, ground (arith, e), w)
  | inr (lr, e) ↦
      let (a, ra) = resolve_column_binding_total renames lr.0 in
      let (b, rb) = resolve_column_binding_total renames lr.1 in
      let (uf, ran, classes) = uf_union-IsClasses s.uf_parent w.classes.0 a b w.classes.1 in
      let joined : DagState = record s { uf_parent = uf } in
      let w₁ : IsBuilt joined = record {
        linked = w.linked;
        mapped = w.mapped;
        classes = (_, classes);
      } in
      elim (Option-cases (find_position a.table_index s.node_map)) [
        | inl ea ↦ (joined, ground (arith, e, ra, rb, ran, ea), w₁)
        | inr (idx_a, ea) ↦ elim (Option-cases (find_position b.table_index s.node_map)) [
          | inl eb ↦ (joined, ground (arith, e, ra, rb, ran, ea, eb), w₁)
          | inr (idx_b, eb) ↦ elim (Bool-cases (a.table_index == b.table_index)) [
            | inl h ↦ (joined, ground (arith, e, ra, rb, ran, ea, eb, h), w₁)
            | inr h ↦
                let (s', done, w') = link_tables-IsBuilt a idx_a b idx_b joined ea eb w₁ in
                (s', ground (arith, e, ra, rb, ran, ea, eb, h, done), w')
          ]
        ]
      ]
]

pub link_conditions-IsBuilt :
    (renames : Renames) (cs : List JoinCondition) (s : DagState)
    → IsBuilt s
    → (s' : DagState) × (link_conditions renames cs s ≡ some s') × IsBuilt s'
unfolding link_conditions
link_conditions-IsBuilt renames [] s w = (s, refl, w)
link_conditions-IsBuilt renames (c ∷ cs) s w =
    let (s₁, ran₁, w₁) = link_condition-IsBuilt renames c s w in
    let (s', ran, w') = link_conditions-IsBuilt renames cs s₁ w₁ in
    (s', ground (arith, ran₁, ran), w')

unfoldable pub count_plans : Plans → ℕ
count_plans nil = 0
count_plans (cons p ps) = suc (count_plans ps)

-- A plan of DuckDB: each operator has at most one table index, and a join has two children.
unfoldable mutual
  pub IsJoinPlan : TableManager → Plan → Type 0
  IsJoinPlan m (node (duckdb op) children) =
      ((info : Option TableInfo) × (table_info m (node (duckdb op) children) ≡ some info))
      × (is_join op.type ≡ true → count_plans children ≡ 2)
      × IsJoinPlans m children
  IsJoinPlan m (node (create_filter op card) children) = IsJoinPlans m children
  IsJoinPlan m (node (probe_filter op card) children) = IsJoinPlans m children

  pub IsJoinPlans : TableManager → Plans → Type 0
  IsJoinPlans m nil = Unit {0}
  IsJoinPlans m (cons p ps) = IsJoinPlan m p × IsJoinPlans m ps

unfoldable pub IsRun : (DagState → Option DagState) → Type 0
IsRun f = (s : DagState) → IsBuilt s → (s' : DagState) × (f s ≡ some s') × IsBuilt s'

join_visit-cases : (t : JoinType) → (join_visit t ≡ mark_join) ⊎ (join_visit t ≡ ordinary_join)
unfolding join_visit
join_visit-cases inner = inr refl
join_visit-cases left = inr refl
join_visit-cases right = inr refl
join_visit-cases semi = inr refl
join_visit-cases right_semi = inr refl
join_visit-cases mark = inl refl
join_visit-cases anti = inr refl
join_visit-cases outer = inr refl
join_visit-cases single = inr refl

data IsVisit (op : Operator) (v : DagVisit) : Type 0 where
  at_leaf : (i : TableInfo) → v ≡ leaf i → IsVisit op v
  at_other : v ≡ no_join → IsVisit op v
  at_mark : v ≡ mark_join → is_join op.type ≡ true → IsVisit op v
  at_join : v ≡ ordinary_join → is_join op.type ≡ true → IsVisit op v

inner-IsVisit :
    (op : Operator) (v : DagVisit)
    → v ≡ (if is_join op.type then join_visit op.join_type else no_join)
    → IsVisit op v
inner-IsVisit op v e = elim (Bool-cases (is_join op.type)) [
  | inr h ↦ at_other (ground (arith, e, h))
  | inl h ↦ elim (join_visit-cases op.join_type) [
    | inl f ↦ at_mark (ground (arith, e, h, f)) h
    | inr f ↦ at_join (ground (arith, e, h, f)) h
  ]
]

dag_visit-IsVisit : (op : Operator) (info : Option TableInfo) → IsVisit op (dag_visit op info)
unfolding dag_visit
dag_visit-IsVisit op none = inner-IsVisit op _ refl
dag_visit-IsVisit op (some i) = elim (Bool-cases (is_scan op.type)) [
  | inl h ↦ at_leaf i (ground (arith, h))
  | inr h ↦ inner-IsVisit op _ (ground (arith, h))
]

mutual
  unfolding dag_dfs dag_children dag_first dag_join IsJoinPlan IsJoinPlans count_plans IsRun

  -- On a plan in which each table index is read without a fault and each join has two children, the visit
  -- has no fault: it builds a graph whose edges lie
  -- beside the parents, with classes of columns.
  pub dag_dfs-IsBuilt :
      (m : TableManager) (renames : Renames) (p : Plan)
      → IsJoinPlan m p
      → IsRun (dag_dfs m renames p)
  dag_dfs-IsBuilt m renames (node (duckdb op) children) w s b =
      let (info, known) = w.0 in
      elim (dag_visit-IsVisit op info) [
        | at_leaf i e ↦ (add_leaf i s, ground (arith, known, e), add_leaf-IsBuilt i s b)
        | at_other e ↦
            let (s', ran, b') = dag_children-IsBuilt m renames children w.2 s b in
            (s', ground (arith, known, e, ran), b')
        | at_mark e h ↦
            let (s', ran, b') =
              dag_first-IsBuilt m renames children w.2 (ground (arith, w.1 h)) s b in
            (s', ground (arith, known, e, ran), b')
        | at_join e h ↦
            let (s₁, ran₁, b₁) = dag_join-IsBuilt m renames children w.2 (w.1 h) s b in
            let (s', ran, b') = link_conditions-IsBuilt renames op.conditions s₁ b₁ in
            (s', ground (arith, known, e, ran₁, ran), b')
      ]
  dag_dfs-IsBuilt m renames (node (create_filter op card) children) w s b =
      dag_children-IsBuilt m renames children w s b
  dag_dfs-IsBuilt m renames (node (probe_filter op card) children) w s b =
      dag_children-IsBuilt m renames children w s b

  dag_children-IsBuilt :
      (m : TableManager) (renames : Renames) (ps : Plans)
      → IsJoinPlans m ps
      → IsRun (dag_children m renames ps)
  dag_children-IsBuilt m renames nil w s b = (s, refl, b)
  dag_children-IsBuilt m renames (cons p ps) w s b =
      let (s₁, ran₁, b₁) = dag_dfs-IsBuilt m renames p w.0 s b in
      let (s', ran, b') = dag_children-IsBuilt m renames ps w.1 s₁ b₁ in
      (s', ground (arith, ran₁, ran), b')

  dag_first-IsBuilt :
      (m : TableManager) (renames : Renames) (ps : Plans)
      → IsJoinPlans m ps
      → 0 < count_plans ps
      → IsRun (dag_first m renames ps)
  dag_first-IsBuilt m renames nil w lt s b = absurd (ground (arith, lt))
  dag_first-IsBuilt m renames (cons p ps) w lt s b = dag_dfs-IsBuilt m renames p w.0 s b

  dag_join-IsBuilt :
      (m : TableManager) (renames : Renames) (ps : Plans)
      → IsJoinPlans m ps
      → count_plans ps ≡ 2
      → IsRun (dag_join m renames ps)
  dag_join-IsBuilt m renames nil w two s b = absurd (ground (arith, two))
  dag_join-IsBuilt m renames (cons l ps) w two s b =
      let (s₁, ran₁, b₁) = dag_first-IsBuilt m renames ps w.1 (ground (arith, two)) s b in
      let (s', ran, b') = dag_dfs-IsBuilt m renames l w.0 s₁ b₁ in
      (s', ground (arith, ran₁, ran), b')
