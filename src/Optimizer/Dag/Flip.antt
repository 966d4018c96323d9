-- ===== src/Optimizer/Dag/Flip.antt =====
-- `FlipRootsToLeaves` of src/optimizer/robust_optimizer.cpp: the roots of the graph but one get their
-- edges reversed.
pub mod Laws
pub mod Result
pub mod Reverse
pub mod Turn
pub mod Ends
pub mod Connected
pub mod Under
pub mod Endless
use robust.Prelude.{
  ℕ, zero, suc, ◌+◌, ◌-◌, ◌*◌, ◌/◌, ◌%◌, ◌^◌, ◌≤◌, ◌<◌, min, max, ◌≡◌, refl, sym, ap, ◌∙◌, subst,
  ◌≢◌, ◌↔◌, ◌⊎◌, inl, inr, Bool, true, false, not, ◌&&◌, ◌||◌, Option, none, some, List, [], ◌∷◌,
  ◌++◌, map, foldl, arith, ltb, leb, ◌==◌, if◌then◌else◌, ltb→lt, lt→ltb, ==_iff, ==_refl,
  Bool-cases, and-eq-true, Option-cases, ◌>>=◌, >>=-eq-some, length, get_elem?, get_or, set,
  replicate, is_empty, tail, length-append, length-set, In, All, All-In, In-append,
}
use robust.Optimizer.Dag.{DagEdge, DagNode, change_node}
use robust.Optimizer.Dag.Levels.{compute_levels}

-- step 1, for the nodes from the position `i`
unfoldable pub roots_from : ℕ → List DagNode → List (ℕ × DagNode)
roots_from i [] = []
roots_from i (n ∷ nodes) =
    let rest = roots_from (suc i) nodes in if is_empty n.parents then (i, n) ∷ rest else rest

-- step 2: the first root of the largest cardinality
unfoldable pub larger_root : ℕ × DagNode → ℕ × DagNode → ℕ × DagNode
larger_root anchor r = if ltb anchor.1.cardinality r.1.cardinality then r else anchor

-- The first edge to the parent `p` and the parents and edges without it. The two lists are parallel.
unfoldable pub remove_parent : ℕ → List ℕ → List DagEdge → Option (DagEdge × List ℕ × List DagEdge)
remove_parent p [] edges = none
remove_parent p (q ∷ parents) [] = none
remove_parent p (q ∷ parents) (e ∷ edges) =
    let rest = remove_parent p parents edges in
    if q == p then some (e, parents, edges) else rest >>= λ r. some (r.0, q ∷ r.1, e ∷ r.2)

unfoldable pub remove_first : ℕ → List ℕ → List ℕ
remove_first c [] = []
remove_first c (d ∷ children) = if d == c then children else d ∷ remove_first c children

unfoldable pub reversed_edge : DagEdge → DagEdge
reversed_edge e = record {
  parent_table = e.child_table;
  child_table = e.parent_table;
  parent_cols = e.child_cols;
  child_cols = e.parent_cols;
}

-- the writes for one child, in the order of the code
unfoldable pub reverse_edge : ℕ → ℕ → DagEdge × List ℕ × List DagEdge → List DagNode → List DagNode
reverse_edge i c (e, parents, edges) nodes =
    let cut =
      change_node c (λ (n : DagNode). record n { parents = parents; edges_to_parents = edges })
        nodes in
    let unhung =
      change_node i (λ (n : DagNode). record n { children = remove_first c n.children }) cut in
    let under =
      change_node c (λ (n : DagNode). record n { children = n.children ++ i ∷ [] }) unhung in
    change_node i
      (λ (n : DagNode). record n {
        parents = n.parents ++ c ∷ [];
        edges_to_parents = n.edges_to_parents ++ reversed_edge e ∷ [];
      })
      under

unfoldable pub flip_child : ℕ → List DagNode → ℕ → List DagNode
flip_child i nodes c =
    elim (get_elem? nodes c >>= λ n. remove_parent i n.parents n.edges_to_parents) [
      | none ↦ nodes
      | some found ↦ reverse_edge i c found nodes
    ]

-- over the children that the node has at the start
unfoldable pub flip_children : ℕ → List ℕ → List DagNode → List DagNode
flip_children i [] nodes = nodes
flip_children i (c ∷ children) nodes = flip_children i children (flip_child i nodes c)

-- one round of the loop over the nodes, with the flag `flipped`
unfoldable pub flip_node : ℕ → ℕ → List DagNode × Bool → List DagNode × Bool
flip_node anchor i (nodes, flipped) = elim (get_elem? nodes i) [
  | none ↦ (nodes, flipped)
  | some n ↦
      if not (is_empty n.parents) || i == anchor
      then (nodes, flipped)
      else (flip_children i n.children nodes, true)
]

-- the loop over the nodes, of which `k` are left from the position `i`
unfoldable pub flip_pass : ℕ → ℕ → ℕ → List DagNode × Bool → List DagNode × Bool
flip_pass anchor zero i s = s
flip_pass anchor (suc k) i s = flip_pass anchor k (suc i) (flip_node anchor i s)

-- step 3, the loop until nothing is flipped, on fuel
unfoldable pub flip_loop : ℕ → ℕ → List DagNode → Option (List DagNode)
flip_loop zero anchor nodes = none
flip_loop (suc fuel) anchor nodes =
    let r = flip_pass anchor (length nodes) 0 (nodes, false) in
    let rest = flip_loop fuel anchor r.0 in if r.1 then rest else some r.0

unfoldable pub anchor_of : List DagNode → Option ℕ
anchor_of nodes = elim (roots_from 0 nodes) [
  | [] ↦ none
  | r ∷ [] ↦ none
  | r ∷ s ∷ rest ↦ some (foldl larger_root r (r ∷ s ∷ rest)).0
]

unfoldable pub flip_roots_to_leaves : ℕ → List DagNode → Option (List DagNode)
flip_roots_to_leaves fuel nodes = elim (anchor_of nodes) [
  | none ↦ some nodes
  | some anchor ↦ flip_loop fuel anchor nodes >>= λ flipped. compute_levels flipped
]
