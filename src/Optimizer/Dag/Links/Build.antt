-- ===== src/Optimizer/Dag/Links/Build.antt =====
-- `PhysicalDAGDFS` of src/optimizer/robust_optimizer.cpp builds a graph whose edges lie beside the
-- parents.
use robust.Prelude.{
  ℕ, zero, suc, ◌+◌, ◌≡◌, refl, sym, ap, ◌∙◌, subst, ◌⊎◌, inl, inr, Bool, false, not, ◌&&◌, Option,
  none, some, List, [], ◌∷◌, ◌++◌, arith, ltb, ◌==◌, if◌then◌else◌, ==_iff, Bool-cases,
  Option-cases, ◌>>=◌, length, get_elem?, length-append,
}
use mathlib.Core.Option.{some-injective}
use robust.Column.{ColumnBinding, binding_eq}
use robust.Table.{TableInfo}
use robust.Optimizer.UnionFind.{Parents}
use robust.Optimizer.UnionFind.Classes.{IsClasses, uf_find-IsClasses}
use robust.Optimizer.Dag.{
  DagEdge, DagNode, DagState, Candidate, find_position, put_position, change_node, new_node,
  add_leaf, better_candidate, best_candidate, has_parent, extend_edge, link_nodes,
}
use robust.Optimizer.Dag.Links.{
  table_at, IsEdge, IsParallel, IsLinked, HasSameTables, change_node-IsLinked, table_at-change_node,
  IsParallel-append, IsParallel-HasSameTables,
}

-- The graph is linked, the map leads from each table to its node, and the finds see classes.
pub record IsBuilt (s : DagState) : Type 0 where
  pub linked : IsLinked s.all_nodes
  pub mapped : (t i : ℕ) → find_position t s.node_map ≡ some i → table_at s.all_nodes i ≡ some t
  pub classes : (rep : ColumnBinding → ColumnBinding) × IsClasses s.uf_parent rep

find_position-put_position :
    (t i k : ℕ) (m : List (ℕ × ℕ))
    → find_position k (put_position t i m) ≡ (if t == k then some i else find_position k m)
unfolding find_position put_position
find_position-put_position t i k [] = refl
find_position-put_position t i k ((j, p) ∷ m) = ground (arith, find_position-put_position t i k m)

get_elem?-append_one :
    (nodes : List DagNode) (x n : DagNode) (i : ℕ)
    → get_elem? (nodes ++ x ∷ []) i ≡ some n
    → (get_elem? nodes i ≡ some n) ⊎ (x ≡ n)
get_elem?-append_one [] x n zero e = inr (some-injective x n e)
get_elem?-append_one [] x n (suc i) e = absurd (ground (arith, e))
get_elem?-append_one (y ∷ nodes) x n zero e = inl e
get_elem?-append_one (y ∷ nodes) x n (suc i) e = get_elem?-append_one nodes x n i e

append_one-HasSameTables :
    (nodes : List DagNode) (x : DagNode) → HasSameTables nodes (nodes ++ x ∷ [])
unfolding table_at
append_one-HasSameTables [] x p t e = absurd (ground (arith, e))
append_one-HasSameTables (y ∷ nodes) x zero t e = e
append_one-HasSameTables (y ∷ nodes) x (suc p) t e = append_one-HasSameTables nodes x p t e

table_at-last :
    (nodes : List DagNode) (x : DagNode)
    → table_at (nodes ++ x ∷ []) (length nodes) ≡ some x.table_idx
unfolding table_at
table_at-last [] x = refl
table_at-last (y ∷ nodes) x = table_at-last nodes x

pub add_leaf-IsBuilt : (info : TableInfo) (s : DagState) → IsBuilt s → IsBuilt (add_leaf info s)
unfolding add_leaf IsLinked IsParallel new_node
add_leaf-IsBuilt info s w =
    let more = append_one-HasSameTables s.all_nodes (new_node info) in
    record {
      linked = λ i n e. elim (get_elem?-append_one s.all_nodes (new_node info) n i e) [
        | inl f ↦
            IsParallel-HasSameTables s.all_nodes _ n.table_idx n.parents n.edges_to_parents more
              (w.linked i n f)
        | inr f ↦
            subst
              (λ (x : DagNode).
                IsParallel (s.all_nodes ++ new_node info ∷ []) x.table_idx x.parents
                  x.edges_to_parents)
              f tt
      ];
      mapped = λ t i e. elim (Bool-cases (info.table_idx == t)) [
        | inl h ↦
            let at : length s.all_nodes ≡ i = some-injective (length s.all_nodes) i (
              ground (
                arith,
                h,
                e,
                find_position-put_position info.table_idx (length s.all_nodes) t s.node_map,
              )) in
            subst (λ (x : ℕ). table_at (s.all_nodes ++ new_node info ∷ []) x ≡ some t) at
              (table_at-last s.all_nodes (new_node info) ∙ ap some ((==_iff info.table_idx t).0 h))
        | inr h ↦ more i t (
            w.mapped t i (
              ground (
                arith,
                h,
                e,
                find_position-put_position info.table_idx (length s.all_nodes) t s.node_map,
              )))
      ];
      classes = w.classes;
    }

extend_edge-IsParallel :
    (nodes : List DagNode) (t table : ℕ) (pc dc : ColumnBinding) (ps : List ℕ) (es : List DagEdge)
    → IsParallel nodes t ps es
    → IsParallel nodes t ps (extend_edge table pc dc es)
unfolding IsParallel extend_edge
extend_edge-IsParallel nodes t table pc dc [] [] w = tt
extend_edge-IsParallel nodes t table pc dc [] (e ∷ es) w = absurd w
extend_edge-IsParallel nodes t table pc dc (p ∷ ps) [] w = w
extend_edge-IsParallel nodes t table pc dc (p ∷ ps) (e ∷ es) w =
    elim (Bool-cases (e.parent_table == table)) [
      | inl h ↦
          let longer : DagEdge = record e {
            parent_cols = e.parent_cols ++ pc ∷ [];
            child_cols = e.child_cols ++ dc ∷ [];
          } in
          let edge : IsEdge nodes t p e = w.0 in
          let edge' : IsEdge nodes t p longer = record {
            parent = edge.parent;
            child = edge.child;
            paired =
                length-append e.parent_cols (pc ∷ [])
                ∙ ap (λ (n : ℕ). n + 1) edge.paired
                ∙ sym (length-append e.child_cols (dc ∷ []));
            some_column = ground (arith, length-append e.parent_cols (pc ∷ []));
          } in
          let both : IsParallel nodes t (p ∷ ps) (longer ∷ es) = (edge', w.1) in
          subst (IsParallel nodes t (p ∷ ps)) {x = longer ∷ es} (ground (arith, h)) both
      | inr h ↦
          let both : IsParallel nodes t (p ∷ ps) (e ∷ extend_edge table pc dc es) =
            (w.0, extend_edge-IsParallel nodes t table pc dc ps es w.1) in
          subst (IsParallel nodes t (p ∷ ps)) {x = e ∷ extend_edge table pc dc es}
            (ground (arith, h)) both
    ]

-- What the search for the child keeps: its table has the position that it found.
unfoldable pub IsCandidate : List (ℕ × ℕ) → Candidate → Type 0
IsCandidate node_map best = find_position best.best_child node_map ≡ some best.best_child_dfs

better_candidate-IsCandidate :
    (node_map : List (ℕ × ℕ)) (parent : ℕ) (key : ColumnBinding) (best : Candidate)
    → IsCandidate node_map best
    → IsCandidate node_map (better_candidate node_map parent key best)
unfolding better_candidate IsCandidate
better_candidate-IsCandidate node_map parent key best w =
    elim (Option-cases (find_position key.table_index node_map)) [
      | inl e ↦ ground (arith, e, w)
      | inr (dfs, e) ↦
          elim (Bool-cases (not (key.table_index == parent) && ltb best.best_child_dfs dfs)) [
            | inl h ↦ ground (arith, e, h)
            | inr h ↦ ground (arith, e, h, w)
          ]
    ]

pub best_candidate-IsCandidate :
    (node_map : List (ℕ × ℕ)) (parent : ℕ) (root : ColumnBinding)
    (rep : ColumnBinding → ColumnBinding) (keys : List ColumnBinding) (uf : Parents)
    (best : Candidate)
    → IsClasses uf rep
    → IsCandidate node_map best
    → (uf' : Parents) × (best' : Candidate) × (best_candidate node_map parent root keys uf best
        ≡ some (uf', best'))
      × IsClasses uf' rep
      × IsCandidate node_map best'
unfolding best_candidate
best_candidate-IsCandidate node_map parent root rep [] uf best w v = (uf, best, refl, w, v)
best_candidate-IsCandidate node_map parent root rep (key ∷ keys) uf best w v =
    let (uf₁, ran₁, w₁) = uf_find-IsClasses uf rep key w in
    let next =
      if binding_eq (rep key) root then better_candidate node_map parent key best else best in
    let v₁ : IsCandidate node_map next = elim (Bool-cases (binding_eq (rep key) root)) [
      | inl h ↦
          subst (IsCandidate node_map) {x = better_candidate node_map parent key best}
            (ground (arith, h)) (better_candidate-IsCandidate node_map parent key best v)
      | inr h ↦ subst (IsCandidate node_map) {x = best} (ground (arith, h)) v
    ] in
    let (uf', best', ran, w', v') =
      best_candidate-IsCandidate node_map parent root rep keys uf₁ next w₁ v₁ in
    (
      uf',
      best',
      ap
            (λ (o : Option (Parents × ColumnBinding)). o >>= λ r.
              best_candidate node_map parent root keys r.0
                (if binding_eq r.1 root then better_candidate node_map parent key best else best))
            ran₁
          ∙ ran,
      w',
      v',
    )

table_of :
    (nodes : List DagNode) (i t : ℕ) (n : DagNode)
    → get_elem? nodes i ≡ some n
    → table_at nodes i ≡ some t
    → n.table_idx ≡ t
unfolding table_at
table_of nodes i t n e f =
    some-injective n.table_idx t
      (ap (λ (o : Option DagNode). o >>= λ n. some n.table_idx) (sym e) ∙ f)

pub link_nodes-IsLinked :
    (parent_idx : ℕ) (parent_col : ColumnBinding) (parent_at : ℕ) (best : Candidate) (child_at : ℕ)
    (nodes : List DagNode)
    → table_at nodes parent_at ≡ some parent_idx
    → table_at nodes child_at ≡ some best.best_child
    → IsLinked nodes
    → IsLinked (link_nodes parent_idx parent_col parent_at best child_at nodes)
      × HasSameTables nodes (link_nodes parent_idx parent_col parent_at best child_at nodes)
unfolding link_nodes
link_nodes-IsLinked parent_idx parent_col parent_at best child_at nodes ep ec w =
    let edge : DagEdge = record {
      parent_table = parent_idx;
      child_table = best.best_child;
      parent_cols = parent_col ∷ [];
      child_cols = best.best_child_col ∷ [];
    } in
    let hung =
      change_node child_at
        (λ (n : DagNode). record n {
          parents = n.parents ++ parent_at ∷ [];
          edges_to_parents = n.edges_to_parents ++ edge ∷ [];
        })
        nodes in
    let wider =
      change_node child_at
        (λ (n : DagNode). record n {
          edges_to_parents =
              extend_edge parent_idx parent_col best.best_child_col n.edges_to_parents;
        })
        nodes in
    let under =
      change_node parent_at (λ (n : DagNode). record n { children = n.children ++ child_at ∷ [] })
        hung in
    let linked : Bool = elim (get_elem? nodes child_at) [
      | none ↦ false
      | some n ↦ has_parent parent_at n.parents
    ] in
    let is_edge : IsEdge nodes best.best_child parent_at edge = record {
      parent = ep;
      child = refl;
      paired = refl;
      some_column = omega arith;
    } in
    elim (Bool-cases linked) [
      | inl h ↦
          subst (λ (x : List DagNode). IsLinked x × HasSameTables nodes x) {x = wider}
            (ground (arith, h))
            (
              change_node-IsLinked nodes child_at _ (λ n. refl)
                  (λ n e p.
                    extend_edge-IsParallel nodes n.table_idx parent_idx parent_col
                      best.best_child_col n.parents n.edges_to_parents p)
                  w,
              table_at-change_node nodes child_at _ (λ n. refl),
            )
      | inr h ↦
          subst (λ (x : List DagNode). IsLinked x × HasSameTables nodes x) {x = under}
            (ground (arith, h))
            (
              change_node-IsLinked hung parent_at _ (λ n. refl) (λ n e p. p)
                  (change_node-IsLinked nodes child_at _ (λ n. refl)
                    (λ n e p.
                      IsParallel-append nodes n.table_idx n.parents n.edges_to_parents parent_at
                        edge p
                        (subst (λ (t : ℕ). IsEdge nodes t parent_at edge)
                          (sym (table_of nodes child_at best.best_child n e ec)) is_edge))
                    w),
              (λ p t f.
                  table_at-change_node hung parent_at _ (λ n. refl) p t
                    (table_at-change_node nodes child_at _ (λ n. refl) p t f)),
            )
    ]
