-- ===== src/Optimizer/Tree/Nodes.antt =====
-- The map of the nodes under the search of `BuildRootedTree` of src/optimizer/robust_optimizer.cpp.
use robust.Prelude.{
  ℕ, suc, ◌≤◌, ◌<◌, ◌≡◌, refl, ap, ◌∙◌, inl, inr, true, false, some, List, [], ◌∷◌, ◌++◌, arith,
  ◌==◌, if◌then◌else◌, ==_iff, ==_refl, Bool-cases, Option-cases, ◌>>=◌, length,
}
use robust.Column.{JoinEdge}
use robust.Optimizer.SpanningTree.{is_member}
use robust.Optimizer.Tree.{TreeNode, find_node, change_node_of, hang}

find_node-change_node_of :
    (t u : ℕ) (f : TreeNode → TreeNode) (nodes : List TreeNode)
    → ((n : TreeNode) → (f n).table_idx ≡ n.table_idx)
    → find_node u (change_node_of t f nodes)
      ≡ (if t == u then (find_node u nodes >>= λ n. some (f n)) else find_node u nodes)
unfolding find_node change_node_of
find_node-change_node_of t u f [] h = ground arith
find_node-change_node_of t u f (n ∷ nodes) h =
    ground (arith, h n, find_node-change_node_of t u f nodes h)

-- What a node has after another one, or itself, is hung.
pub data IsHang (current level t : ℕ) (e : JoinEdge) (u : ℕ) (n n' : TreeNode) : Type 0 where
  moved :
      t ≡ u
      → n'.parent ≡ some current
      → n'.level ≡ suc level
      → n'.edge_to_parent ≡ some e
      → IsHang current level t e u n n'
  stayed :
      (t == u) ≡ false
      → n'.parent ≡ n.parent
      → n'.level ≡ n.level
      → n'.edge_to_parent ≡ n.edge_to_parent
      → IsHang current level t e u n n'

pub hang-IsHang :
    (current level t : ℕ) (e : JoinEdge) (nodes : List TreeNode) (u : ℕ) (n : TreeNode)
    → find_node u nodes ≡ some n
    → (n' : TreeNode) × (find_node u (hang current level t e nodes) ≡ some n')
      × IsHang current level t e u n n'
unfolding hang
hang-IsHang current level t e nodes u n at =
    let set : TreeNode → TreeNode =
      λ n. record n { parent = some current; level = suc level; edge_to_parent = some e } in
    let add : TreeNode → TreeNode = λ n. record n { children = n.children ++ t ∷ [] } in
    let inner = find_node-change_node_of t u set nodes (λ n. refl) in
    let outer = find_node-change_node_of current u add (change_node_of t set nodes) (λ n. refl) in
    elim (Bool-cases (t == u)) [
      | inl h ↦ elim (Bool-cases (current == u)) [
        | inl h' ↦ (
          add (set n),
          ground (arith, at, h, h', inner, outer),
          moved ((==_iff t u).0 h) refl refl refl,
        )
        | inr h' ↦ (
          set n,
          ground (arith, at, h, h', inner, outer),
          moved ((==_iff t u).0 h) refl refl refl,
        )
      ]
      | inr h ↦ elim (Bool-cases (current == u)) [
        | inl h' ↦ (add n, ground (arith, at, h, h', inner, outer), stayed h refl refl refl)
        | inr h' ↦ (n, ground (arith, at, h, h', inner, outer), stayed h refl refl refl)
      ]
    ]

pub hung_before :
    (current level t : ℕ) (e : JoinEdge) (nodes : List TreeNode) (u : ℕ) (n' : TreeNode)
    → find_node u (hang current level t e nodes) ≡ some n'
    → (n : TreeNode) × (find_node u nodes ≡ some n)
unfolding hang
hung_before current level t e nodes u n' at = elim (Option-cases (find_node u nodes)) [
  | inr (n, e') ↦ (n, e')
  | inl e' ↦
      let set : TreeNode → TreeNode =
        λ n. record n { parent = some current; level = suc level; edge_to_parent = some e } in
      let add : TreeNode → TreeNode = λ n. record n { children = n.children ++ t ∷ [] } in
      let inner = find_node-change_node_of t u set nodes (λ n. refl) in
      let outer = find_node-change_node_of current u add (change_node_of t set nodes) (λ n. refl) in
      absurd (ground (arith, at, e', inner, outer))
]

-- the nodes that are not visited
unfoldable pub unvisited : List ℕ → List TreeNode → ℕ
unvisited visited [] = 0
unvisited visited (n ∷ nodes) =
    if is_member n.table_idx visited then unvisited visited nodes else suc (unvisited visited nodes)

unvisited-change_node_of :
    (visited : List ℕ) (t : ℕ) (f : TreeNode → TreeNode) (nodes : List TreeNode)
    → ((n : TreeNode) → (f n).table_idx ≡ n.table_idx)
    → unvisited visited (change_node_of t f nodes) ≡ unvisited visited nodes
unfolding unvisited change_node_of
unvisited-change_node_of visited t f [] h = refl
unvisited-change_node_of visited t f (n ∷ nodes) h =
    ground (
      arith,
      ap (λ (x : ℕ). is_member x visited) (h n),
      unvisited-change_node_of visited t f nodes h,
    )

pub unvisited-hang :
    (visited : List ℕ) (current level t : ℕ) (e : JoinEdge) (nodes : List TreeNode)
    → unvisited visited (hang current level t e nodes) ≡ unvisited visited nodes
unfolding hang
unvisited-hang visited current level t e nodes =
    unvisited-change_node_of visited current _ _ (λ n. refl)
    ∙ unvisited-change_node_of visited t _ nodes (λ n. refl)

pub is_member-here : (t : ℕ) (visited : List ℕ) → is_member t (t ∷ visited) ≡ true
unfolding is_member
is_member-here t visited = ground (arith, ==_refl t)

pub is_member-more :
    (t u : ℕ) (visited : List ℕ) → is_member u visited ≡ true → is_member u (t ∷ visited) ≡ true
unfolding is_member
is_member-more t u visited h = ground (arith, h)

unvisited_more :
    (t : ℕ) (visited : List ℕ) (nodes : List TreeNode)
    → unvisited (t ∷ visited) nodes ≤ unvisited visited nodes
unfolding unvisited
unvisited_more t visited [] = omega arith
unvisited_more t visited (n ∷ nodes) = elim (Bool-cases (is_member n.table_idx visited)) [
  | inl h ↦
      ground (arith, h, is_member-more t n.table_idx visited h, unvisited_more t visited nodes)
  | inr h ↦ ground (arith, h, unvisited_more t visited nodes)
]

-- A visit to a node leaves one less.
pub unvisited_drops :
    (t : ℕ) (visited : List ℕ) (nodes : List TreeNode) (n : TreeNode)
    → find_node t nodes ≡ some n
    → is_member t visited ≡ false
    → unvisited (t ∷ visited) nodes < unvisited visited nodes
unfolding unvisited find_node
unvisited_drops t visited [] n e h = absurd (ground (arith, e))
unvisited_drops t visited (m ∷ nodes) n e h = elim (Bool-cases (m.table_idx == t)) [
  | inl k ↦
      let same = (==_iff m.table_idx t).0 k in
      ground (
        arith,
        ap (λ (x : ℕ). is_member x visited) same ∙ h,
        ap (λ (x : ℕ). is_member x (t ∷ visited)) same ∙ is_member-here t visited,
        unvisited_more t visited nodes,
      )
  | inr k ↦
      let rest = unvisited_drops t visited nodes n (ground (arith, e, k)) h in
      elim (Bool-cases (is_member m.table_idx visited)) [
        | inl v ↦ ground (arith, v, is_member-more t m.table_idx visited v, rest)
        | inr v ↦ ground (arith, v, rest)
      ]
]

pub unvisited-le-length :
    (visited : List ℕ) (nodes : List TreeNode) → unvisited visited nodes ≤ length nodes
unfolding unvisited
unvisited-le-length visited [] = omega arith
unvisited-le-length visited (n ∷ nodes) = ground (arith, unvisited-le-length visited nodes)
