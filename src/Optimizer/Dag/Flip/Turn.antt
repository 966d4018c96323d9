-- ===== src/Optimizer/Dag/Flip/Turn.antt =====
-- Which nodes are whose parents after a reversed edge of `FlipRootsToLeaves` of
-- src/optimizer/robust_optimizer.cpp.
use robust.Prelude.{
  ℕ, suc, ◌≡◌, sym, ap, ◌∙◌, subst, ◌≢◌, false, Option, none, some, List, [], ◌∷◌, ◌++◌, arith,
  ◌==◌, ==_refl, length, get_elem?, length-append, In,
}
use robust.Optimizer.Dag.{DagEdge, DagNode, change_node}
use robust.Optimizer.Dag.Links.{get_elem?-change_node}
use robust.Optimizer.Dag.Flip.{remove_parent, remove_first, reversed_edge, reverse_edge}
use robust.Optimizer.Dag.Flip.Endless.{reverse_edge-other}
use robust.Optimizer.Dag.Flip.Reverse.{parents_of, children_of, edge_count, remove_parent-found}

get_elem?-changed :
    (nodes : List DagNode) (i : ℕ) (f : DagNode → DagNode) (n : DagNode)
    → get_elem? nodes i ≡ some n
    → get_elem? (change_node i f nodes) i ≡ some (f n)
get_elem?-changed nodes i f n e = ground (arith, e, ==_refl i, get_elem?-change_node nodes i i f)

get_elem?-unchanged :
    (nodes : List DagNode) (i j : ℕ) (f : DagNode → DagNode) (n : DagNode)
    → (i == j) ≡ false
    → get_elem? nodes j ≡ some n
    → get_elem? (change_node i f nodes) j ≡ some n
get_elem?-unchanged nodes i j f n h e = ground (arith, e, h, get_elem?-change_node nodes i j f)

module _ (i c : ℕ) (nodes : List DagNode) (ni nc : DagNode) (r : DagEdge × List ℕ × List DagEdge)
    (ai : get_elem? nodes i ≡ some ni) (ac : get_elem? nodes c ≡ some nc) (ic : (i == c) ≡ false)
    (ci : (c == i) ≡ false) where
  turned_root :
      get_elem? (reverse_edge i c r nodes) i
      ≡ some (record ni {
        children = remove_first c ni.children;
        parents = ni.parents ++ c ∷ [];
        edges_to_parents = ni.edges_to_parents ++ reversed_edge r.0 ∷ [];
      })
  unfolding reverse_edge
  turned_root = get_elem?-changed _ i _ _ (
      get_elem?-unchanged _ c i _ _ ci
        (get_elem?-changed _ i _ _ (get_elem?-unchanged nodes c i _ _ ci ai)))

  turned_child :
      get_elem? (reverse_edge i c r nodes) c
      ≡ some (record nc { children = nc.children ++ i ∷ []; parents = r.1; edges_to_parents = r.2 })
  unfolding reverse_edge
  turned_child = get_elem?-unchanged _ i c _ _ ic (
      get_elem?-changed _ c _ _
        (get_elem?-unchanged _ i c _ _ ic (get_elem?-changed nodes c _ _ ac)))

-- What a reversed edge makes of the parents and the children.
pub record IsTurned (i c : ℕ) (nodes nodes' : List DagNode) : Type 0 where
  pub apart : (i == c) ≡ false
  pub apart' : (c == i) ≡ false
  pub was_parent : In i (parents_of nodes c)
  pub root_parents : parents_of nodes' i ≡ parents_of nodes i ++ c ∷ []
  pub root_children : children_of nodes' i ≡ remove_first c (children_of nodes i)
  pub child_parents : parents_of nodes' c ≡ remove_first i (parents_of nodes c)
  pub child_children : children_of nodes' c ≡ children_of nodes c ++ i ∷ []
  pub root_edges : edge_count nodes' i ≡ suc (edge_count nodes i)
  pub child_edges : suc (edge_count nodes' c) ≡ edge_count nodes c
  pub shorter : suc (length (parents_of nodes' c)) ≡ length (parents_of nodes c)
  pub other : (x : ℕ) → (i == x) ≡ false → (c == x) ≡ false → get_elem? nodes' x ≡ get_elem? nodes x

pub turn-IsTurned :
    (i c : ℕ) (nodes : List DagNode) (ni nc : DagNode) (r : DagEdge × List ℕ × List DagEdge)
    → get_elem? nodes i ≡ some ni
    → get_elem? nodes c ≡ some nc
    → i ≢ c
    → remove_parent i nc.parents nc.edges_to_parents ≡ some r
    → IsTurned i c nodes (reverse_edge i c r nodes)
unfolding parents_of children_of edge_count
turn-IsTurned i c nodes ni nc r ai ac ne e =
    let ic : (i == c) ≡ false = ground (arith, ne) in
    let ci : (c == i) ≡ false = ground (arith, ne) in
    let ti = turned_root i c nodes ni nc r ai ac ic ci in
    let tc = turned_child i c nodes ni nc r ai ac ic ci in
    let (m, ps, es, ls) = remove_parent-found i nc.parents nc.edges_to_parents r e in
    let get_parents = λ (o : Option DagNode). elim o as (λ (x : Option DagNode). List ℕ) [
      | none ↦ []
      | some n ↦ n.parents
    ] in
    let get_children = λ (o : Option DagNode). elim o as (λ (x : Option DagNode). List ℕ) [
      | none ↦ []
      | some n ↦ n.children
    ] in
    let get_count = λ (o : Option DagNode). elim o as (λ (x : Option DagNode). ℕ) [
      | none ↦ 0
      | some n ↦ length n.edges_to_parents
    ] in
    record {
      apart = ic;
      apart' = ci;
      was_parent = subst (In i) (ap get_parents (sym ac)) m;
      root_parents = ap get_parents ti ∙ ap (λ (x : List ℕ). x ++ c ∷ []) (ap get_parents (sym ai));
      root_children = ap get_children ti ∙ ap (remove_first c) (ap get_children (sym ai));
      child_parents = ap get_parents tc ∙ ps ∙ ap (remove_first i) (ap get_parents (sym ac));
      child_children =
          ap get_children tc ∙ ap (λ (x : List ℕ). x ++ i ∷ []) (ap get_children (sym ac));
      root_edges =
          ap get_count ti
          ∙ ground (arith, length-append ni.edges_to_parents (reversed_edge r.0 ∷ []))
          ∙ ap (λ (o : Option DagNode). suc (get_count o)) (sym ai);
      child_edges = ap (λ (o : Option DagNode). suc (get_count o)) tc ∙ es ∙ ap get_count (sym ac);
      shorter =
          ap (λ (o : Option DagNode). suc (length (get_parents o))) tc
          ∙ ls
          ∙ ap (λ (o : Option DagNode). length (get_parents o)) (sym ac);
      other = λ x hi hc. reverse_edge-other i c x r nodes hi hc;
    }
