-- ===== src/Optimizer/Tree.antt =====
-- `BuildRootedTree` of src/optimizer/robust_optimizer.cpp: the join tree hung from its largest table. A
-- pointer to a node is its table, the key of `table_to_node`.
pub mod Nodes
pub mod Search
pub mod Rooted
use robust.Prelude.{
  ℕ, zero, suc, ◌+◌, ◌-◌, ◌*◌, ◌/◌, ◌%◌, ◌^◌, ◌≤◌, ◌<◌, min, max, ◌≡◌, refl, sym, ap, ◌∙◌, subst,
  ◌≢◌, ◌↔◌, ◌⊎◌, inl, inr, Bool, true, false, not, ◌&&◌, ◌||◌, Option, none, some, List, [], ◌∷◌,
  ◌++◌, map, foldl, arith, ltb, leb, ◌==◌, if◌then◌else◌, ltb→lt, lt→ltb, ==_iff, ==_refl,
  Bool-cases, and-eq-true, Option-cases, ◌>>=◌, >>=-eq-some, length, get_elem?, get_or, set,
  replicate, is_empty, tail, length-append, length-set, In, All, All-In, In-append,
}
use robust.Column.{JoinEdge}
use robust.Table.{TableInfo, TableManager}
use robust.Optimizer.SpanningTree.{is_member}

pub record TreeNode : Type 0 where
  pub table_idx : ℕ
  pub table_op : ℕ
  pub cardinality : ℕ
  pub children : List ℕ
  pub parent : Option ℕ
  pub level : ℕ
  pub edge_to_parent : Option JoinEdge

unfoldable pub new_tree_node : TableInfo → TreeNode
new_tree_node info = record {
  table_idx = info.table_idx;
  table_op = info.table_op;
  cardinality = info.estimated_cardinality;
  children = [];
  parent = none;
  level = 0;
  edge_to_parent = none;
}

unfoldable pub find_node : ℕ → List TreeNode → Option TreeNode
find_node t [] = none
find_node t (n ∷ nodes) = if n.table_idx == t then some n else find_node t nodes

-- a write to the map
unfoldable pub put_node : TreeNode → List TreeNode → List TreeNode
put_node x [] = x ∷ []
put_node x (n ∷ nodes) = if n.table_idx == x.table_idx then x ∷ nodes else n ∷ put_node x nodes

-- a write through the pointer to a node
unfoldable pub change_node_of : ℕ → (TreeNode → TreeNode) → List TreeNode → List TreeNode
change_node_of t f [] = []
change_node_of t f (n ∷ nodes) =
    if n.table_idx == t then f n ∷ nodes else n ∷ change_node_of t f nodes

-- step 1: the first table of the largest cardinality, if that is not 0
unfoldable pub find_root : List TableInfo → ℕ → Option ℕ → Option ℕ
find_root [] max_cardinality root = root
find_root (info ∷ infos) max_cardinality root =
    let larger = find_root infos info.estimated_cardinality (some info.table_idx) in
    let rest = find_root infos max_cardinality root in
    if ltb max_cardinality info.estimated_cardinality then larger else rest

-- step 2
unfoldable pub table_nodes : List TableInfo → List TreeNode → List TreeNode
table_nodes [] nodes = nodes
table_nodes (info ∷ infos) nodes = table_nodes infos (put_node (new_tree_node info) nodes)

-- step 3: the other ends of the edges of a table, in the order of the edges
unfoldable pub adjacent : ℕ → List JoinEdge → List (ℕ × JoinEdge)
adjacent t [] = []
adjacent t (e ∷ edges) =
    let rest = adjacent t edges in
    let second : List (ℕ × JoinEdge) = if e.table_b == t then (e.table_a, e) ∷ rest else rest in
    if e.table_a == t then (e.table_b, e) ∷ second else second

-- step 4; the queue is what is left of it
pub record Bfs : Type 0 where
  pub queue : List ℕ
  pub visited : List ℕ
  pub nodes : List TreeNode

unfoldable pub hang : ℕ → ℕ → ℕ → JoinEdge → List TreeNode → List TreeNode
hang current level t e nodes =
    change_node_of current (λ (n : TreeNode). record n { children = n.children ++ t ∷ [] })
      (change_node_of t
        (λ (n : TreeNode). record n {
          parent = some current;
          level = suc level;
          edge_to_parent = some e;
        })
        nodes)

-- one round of the loop over the neighbours; `level` is that of the current node
unfoldable pub visit_neighbor : ℕ → ℕ → Bfs → ℕ × JoinEdge → Bfs
visit_neighbor current level s (t, e) =
    if is_member t s.visited then s else elim (find_node t s.nodes) [
      | none ↦ s
      | some child ↦ record {
        queue = s.queue ++ t ∷ [];
        visited = t ∷ s.visited;
        nodes = hang current level t e s.nodes;
      }
    ]

unfoldable pub visit_neighbors : ℕ → ℕ → List (ℕ × JoinEdge) → Bfs → Bfs
visit_neighbors current level [] s = s
visit_neighbors current level (x ∷ xs) s =
    visit_neighbors current level xs (visit_neighbor current level s x)

-- The loop over the queue, on fuel.
unfoldable pub breadth_first : ℕ → List JoinEdge → List ℕ → Bfs → Option Bfs
breadth_first fuel edges [] s = some s
breadth_first zero edges (current ∷ queue) s = none
breadth_first (suc fuel) edges (current ∷ queue) s = elim (find_node current s.nodes) [
  | none ↦ breadth_first fuel edges queue (record s { queue = queue })
  | some n ↦
      let s' =
        visit_neighbors current n.level (adjacent current edges) (record s { queue = queue }) in
      breadth_first fuel edges s'.queue s'
]

-- The root and the nodes, or nothing for a null pointer. Each table is put into the queue once.
unfoldable pub build_rooted_tree :
    TableManager → List JoinEdge → Option (Option (ℕ × List TreeNode))
build_rooted_tree m edges =
    if is_empty edges || is_empty m.table_ops
    then some none
    else elim (find_root m.table_ops 0 none) [
      | none ↦ some none
      | some root ↦
          let nodes = table_nodes m.table_ops [] in
          elim (find_node root nodes) [
            | none ↦ some none
            | some n ↦
                breadth_first (suc (length nodes)) edges (root ∷ [])
                  (record { queue = root ∷ []; visited = root ∷ []; nodes = nodes })
                >>= λ s. some (some (root, s.nodes))
          ]
    ]
