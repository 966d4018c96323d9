-- ===== src/Optimizer/Tree/Rooted.antt =====
-- The tree that `BuildRootedTree` of src/optimizer/robust_optimizer.cpp answers.
use robust.Prelude.{
  ℕ, zero, suc, ◌+◌, ◌≤◌, ◌≡◌, refl, sym, ap, ◌∙◌, subst, inl, inr, true, false, ◌||◌, Option, none,
  some, List, [], ◌∷◌, ◌++◌, arith, ◌==◌, if◌then◌else◌, ==_iff, Bool-cases, Option-cases, length,
  is_empty, length-append, In, In-append,
}
use mathlib.Core.Option.{some-injective}
use robust.Column.{JoinEdge}
use robust.Table.{TableInfo, TableManager}
use robust.Optimizer.SpanningTree.{is_member}
use robust.Optimizer.Tree.{
  TreeNode, Bfs, new_tree_node, find_node, put_node, find_root, table_nodes, hang, adjacent,
  visit_neighbor, visit_neighbors, breadth_first, build_rooted_tree,
}
use robust.Optimizer.Tree.Nodes.{
  unvisited, unvisited-hang, unvisited_drops, unvisited-le-length, is_member-here, is_member-more,
}
use robust.Optimizer.Tree.Search.{IsBetween, IsHung, IsTree, stays, hang-IsHung}

-- The state while the neighbours of a node are visited.
record IsVisiting (edges : List JoinEdge) (root current level bound : ℕ) (s : Bfs) : Type 0 where
  tree : IsTree edges root s
  visited : is_member current s.visited ≡ true
  node : TreeNode
  found : find_node current s.nodes ≡ some node
  at_level : node.level ≡ level
  bounded : length s.queue + unvisited s.visited s.nodes ≤ bound

abbrev IsNeighbor : List JoinEdge → ℕ → ℕ × JoinEdge → Type 0
IsNeighbor edges current x = In x.1 edges × IsBetween x.1 current x.0

pushed :
    (t u : ℕ) (queue visited : List ℕ)
    → ((x : ℕ) → In x queue → is_member x visited ≡ true)
    → In u (queue ++ t ∷ [])
    → is_member u (t ∷ visited) ≡ true
pushed t u queue visited h i = elim ((In-append u queue (t ∷ [])).0 i) [
  | inl k ↦ is_member-more t u visited (h u k)
  | inr (inl same) ↦ ap (λ (x : ℕ). is_member x (t ∷ visited)) same ∙ is_member-here t visited
  | inr (inr never) ↦ absurd never
]

module _ (edges : List JoinEdge) (root : ℕ) where
  visit-IsVisiting :
      (current level bound t : ℕ) (e : JoinEdge) (s : Bfs)
      → IsVisiting edges root current level bound s
      → IsNeighbor edges current (t, e)
      → is_member t s.visited ≡ false
      → (child : TreeNode) → find_node t s.nodes ≡ some child
      → IsVisiting edges root current level bound (record {
        queue = s.queue ++ t ∷ [];
        visited = t ∷ s.visited;
        nodes = hang current level t e s.nodes;
      })
  visit-IsVisiting current level bound t e s w near new child at =
      let (top, top_at, p, l) =
        stays current level t e s root w.tree.top new w.tree.root_visited w.tree.root_found in
      let (q, q_at, _, ql) = stays current level t e s current w.node new w.visited w.found in
      record {
        tree = record {
          queued = λ u i. pushed t u s.queue s.visited w.tree.queued i;
          hung =
              hang-IsHung edges root current level t e s w.node w.tree w.visited w.found w.at_level
                new near.0 near.1;
          root_visited = is_member-more t root s.visited w.tree.root_visited;
          top = top;
          root_found = top_at;
          no_parent = p ∙ w.tree.no_parent;
          level_zero = l ∙ w.tree.level_zero;
        };
        visited = is_member-more t current s.visited w.visited;
        node = q;
        found = q_at;
        at_level = ql ∙ w.at_level;
        bounded = ground (
          arith,
          w.bounded,
          length-append s.queue (t ∷ []),
          unvisited-hang (t ∷ s.visited) current level t e s.nodes,
          unvisited_drops t s.visited s.nodes child at new,
        );
      }

  visit_neighbor-IsVisiting :
      (current level bound : ℕ) (x : ℕ × JoinEdge) (s : Bfs)
      → IsVisiting edges root current level bound s
      → IsNeighbor edges current x
      → IsVisiting edges root current level bound (visit_neighbor current level s x)
  unfolding visit_neighbor
  visit_neighbor-IsVisiting current level bound (t, e) s w near =
      elim (Bool-cases (is_member t s.visited)) [
        | inl h ↦ subst (IsVisiting edges root current level bound) {x = s} (ground (arith, h)) w
        | inr h ↦ elim (Option-cases (find_node t s.nodes)) [
          | inl f ↦
              subst (IsVisiting edges root current level bound) {x = s} (ground (arith, h, f)) w
          | inr (child, f) ↦
              subst (IsVisiting edges root current level bound)
                {x = record {
                  queue = s.queue ++ t ∷ [];
                  visited = t ∷ s.visited;
                  nodes = hang current level t e s.nodes;
                }}
                (ground (arith, h, f)) (visit-IsVisiting current level bound t e s w near h child f)
        ]
      ]

  visit_neighbors-IsVisiting :
      (current level bound : ℕ) (xs : List (ℕ × JoinEdge)) (s : Bfs)
      → IsVisiting edges root current level bound s
      → ((x : ℕ × JoinEdge) → In x xs → IsNeighbor edges current x)
      → IsVisiting edges root current level bound (visit_neighbors current level xs s)
  unfolding visit_neighbors
  visit_neighbors-IsVisiting current level bound [] s w near = w
  visit_neighbors-IsVisiting current level bound (x ∷ xs) s w near =
      visit_neighbors-IsVisiting current level bound xs _
        (visit_neighbor-IsVisiting current level bound x s w (near x (inl refl)))
        (λ y i. near y (inr i))

adjacent-IsNeighbor :
    (t : ℕ) (edges : List JoinEdge) (x : ℕ × JoinEdge)
    → In x (adjacent t edges)
    → IsNeighbor edges t x
unfolding adjacent
adjacent-IsNeighbor t [] x i = absurd i
adjacent-IsNeighbor t (e ∷ edges) x i =
    let later : In x (adjacent t edges) → IsNeighbor (e ∷ edges) t x =
      λ k. let w = adjacent-IsNeighbor t edges x k in (inr w.0, w.1) in
    let second : List (ℕ × JoinEdge) =
      if e.table_b == t then (e.table_a, e) ∷ adjacent t edges else adjacent t edges in
    let in_second : In x second → IsNeighbor (e ∷ edges) t x = λ k.
      elim (Bool-cases (e.table_b == t)) [
        | inr h ↦ later (subst (In x) {y = adjacent t edges} (ground (arith, h)) k)
        | inl h ↦
            elim (subst (In x) {y = (e.table_a, e) ∷ adjacent t edges} (ground (arith, h)) k) [
              | inl same ↦
                  subst (IsNeighbor (e ∷ edges) t) (sym same)
                    (inl refl, inr (refl, (==_iff e.table_b t).0 h))
              | inr k' ↦ later k'
            ]
      ] in
    elim (Bool-cases (e.table_a == t)) [
      | inr h ↦ in_second (subst (In x) {y = second} (ground (arith, h)) i)
      | inl h ↦ elim (subst (In x) {y = (e.table_b, e) ∷ second} (ground (arith, h)) i) [
        | inl same ↦
            subst (IsNeighbor (e ∷ edges) t) (sym same)
              (inl refl, inl ((==_iff e.table_a t).0 h, refl))
        | inr k ↦ in_second k
      ]
    ]

shorter-IsTree :
    (edges : List JoinEdge) (root current : ℕ) (queue : List ℕ) (s : Bfs)
    → s.queue ≡ current ∷ queue
    → IsTree edges root s
    → IsTree edges root (record s { queue = queue })
shorter-IsTree edges root current queue s e w = record {
  queued = λ t i. w.queued t (subst (In t) (sym e) (inr i));
  hung = w.hung;
  root_visited = w.root_visited;
  top = w.top;
  root_found = w.root_found;
  no_parent = w.no_parent;
  level_zero = w.level_zero;
}

breadth_first-IsTree :
    (edges : List JoinEdge) (root fuel : ℕ) (queue : List ℕ) (s : Bfs)
    → s.queue ≡ queue
    → IsTree edges root s
    → length queue + unvisited s.visited s.nodes ≤ fuel
    → (s' : Bfs) × (breadth_first fuel edges queue s ≡ some s') × IsTree edges root s'
unfolding breadth_first
breadth_first-IsTree edges root fuel [] s e w enough = (s, refl, w)
breadth_first-IsTree edges root zero (current ∷ queue) s e w enough =
    absurd (ground (arith, enough))
breadth_first-IsTree edges root (suc fuel) (current ∷ queue) s e w enough =
    let rest : Bfs = record s { queue = queue } in
    let w₁ = shorter-IsTree edges root current queue s e w in
    elim (Option-cases (find_node current s.nodes)) [
      | inl f ↦
          let (s', ran, w') =
            breadth_first-IsTree edges root fuel queue rest refl w₁ (ground (arith, enough)) in
          (s', ground (arith, f, ran), w')
      | inr (n, f) ↦
          let s₁ = visit_neighbors current n.level (adjacent current edges) rest in
          let v =
            visit_neighbors-IsVisiting edges root current n.level
              (length queue + unvisited s.visited s.nodes) (adjacent current edges) rest
              (record {
                tree = w₁;
                visited = w.queued current (subst (In current) (sym e) (inl refl));
                node = n;
                found = f;
                at_level = refl;
                bounded = omega arith;
              })
              (λ x i. adjacent-IsNeighbor current edges x i) in
          let (s', ran, w') =
            breadth_first-IsTree edges root fuel s₁.queue s₁ refl v.tree
              (ground (arith, enough, v.bounded)) in
          (s', ground (arith, f, ran), w')
    ]

-- The nodes that `BuildRootedTree` answers: the root has no parent and the level 0, and each node
-- with a parent hangs one level under it, on one of the edges, which joins the two tables.
pub record IsRootedTree (edges : List JoinEdge) (root : ℕ) (nodes : List TreeNode) : Type 0 where
  pub top : TreeNode
  pub root_found : find_node root nodes ≡ some top
  pub no_parent : top.parent ≡ none
  pub level_zero : top.level ≡ 0
  pub visited : List ℕ
  pub hung :
      (t : ℕ) (n : TreeNode) (p : ℕ)
      → find_node t nodes ≡ some n
      → n.parent ≡ some p
      → IsHung edges visited nodes t n p

-- a node before the search
IsBare : List TreeNode → Type 0
IsBare nodes =
    (t : ℕ) (n : TreeNode) → find_node t nodes ≡ some n → (n.parent ≡ none) × (n.level ≡ 0)

find_node-put_node :
    (t : ℕ) (x : TreeNode) (nodes : List TreeNode)
    → find_node t (put_node x nodes) ≡ (if x.table_idx == t then some x else find_node t nodes)
unfolding find_node put_node
find_node-put_node t x [] = refl
find_node-put_node t x (n ∷ nodes) = ground (arith, find_node-put_node t x nodes)

put_node-IsBare :
    (info : TableInfo) (nodes : List TreeNode)
    → IsBare nodes
    → IsBare (put_node (new_tree_node info) nodes)
unfolding IsBare new_tree_node
put_node-IsBare info nodes w t n e = elim (Bool-cases (info.table_idx == t)) [
  | inl h ↦
      let same : new_tree_node info ≡ n =
        some-injective (new_tree_node info) n
          (ground (arith, e, h, find_node-put_node t (new_tree_node info) nodes)) in
      (ap (λ (x : TreeNode). x.parent) (sym same), ap (λ (x : TreeNode). x.level) (sym same))
  | inr h ↦ w t n (ground (arith, e, h, find_node-put_node t (new_tree_node info) nodes))
]

table_nodes-IsBare :
    (infos : List TableInfo) (nodes : List TreeNode)
    → IsBare nodes
    → IsBare (table_nodes infos nodes)
unfolding table_nodes
table_nodes-IsBare [] nodes w = w
table_nodes-IsBare (info ∷ infos) nodes w =
    table_nodes-IsBare infos _ (put_node-IsBare info nodes w)

no_nodes-IsBare : IsBare []
unfolding IsBare find_node
no_nodes-IsBare t n e = absurd (ground (arith, e))

start-IsTree :
    (edges : List JoinEdge) (root : ℕ) (nodes : List TreeNode) (top : TreeNode)
    → IsBare nodes
    → find_node root nodes ≡ some top
    → IsTree edges root (record { queue = root ∷ []; visited = root ∷ []; nodes = nodes })
unfolding IsBare
start-IsTree edges root nodes top bare at = record {
  queued = λ t i. pushed root t [] [] (λ x k. absurd k) i;
  hung = λ t n p e par. absurd (ground (arith, par, (bare t n e).0));
  root_visited = is_member-here root [];
  top = top;
  root_found = at;
  no_parent = (bare root top at).0;
  level_zero = (bare root top at).1;
}

-- What a call answers: a null pointer, or a tree.
unfoldable pub IsAnswer : List JoinEdge → Option (ℕ × List TreeNode) → Type 0
IsAnswer edges none = Unit {0}
IsAnswer edges (some r) = IsRootedTree edges r.0 r.1

-- On all tables and edges the search ends, by one round more than there are nodes. Where the answer
-- is not a null pointer, its root has no parent and the level 0, and each node with a parent hangs
-- one level under it, on one of the edges, which joins the two tables.
pub build_rooted_tree-IsAnswer :
    (m : TableManager) (edges : List JoinEdge)
    → (r : Option (ℕ × List TreeNode)) × (build_rooted_tree m edges ≡ some r) × IsAnswer edges r
unfolding build_rooted_tree IsAnswer
build_rooted_tree-IsAnswer m edges = elim (Bool-cases (is_empty edges || is_empty m.table_ops)) [
  | inl h ↦ (none, ground (arith, h), tt)
  | inr h ↦ elim (Option-cases (find_root m.table_ops 0 none)) [
    | inl e ↦ (none, ground (arith, h, e), tt)
    | inr (root, e) ↦
        let nodes = table_nodes m.table_ops [] in
        elim (Option-cases (find_node root nodes)) [
          | inl f ↦ (none, ground (arith, h, e, f), tt)
          | inr (top, f) ↦
              let start : Bfs = record { queue = root ∷ []; visited = root ∷ []; nodes = nodes } in
              let (s, ran, w) =
                breadth_first-IsTree edges root (suc (length nodes)) (root ∷ []) start refl
                  (start-IsTree edges root nodes top
                    (table_nodes-IsBare m.table_ops [] no_nodes-IsBare) f)
                  (ground (arith, unvisited-le-length (root ∷ []) nodes)) in
              (
                some (root, s.nodes),
                ground (arith, h, e, f, ran),
                record {
                  top = w.top;
                  root_found = w.root_found;
                  no_parent = w.no_parent;
                  level_zero = w.level_zero;
                  visited = s.visited;
                  hung = w.hung;
                },
              )
        ]
  ]
]
