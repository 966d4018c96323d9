-- ===== src/Optimizer/Dag/Flip/Endless.antt =====
-- Graphs on which the loop of `FlipRootsToLeaves` of src/optimizer/robust_optimizer.cpp does not end.
use robust.Prelude.{
  ℕ, zero, suc, ◌+◌, ◌≤◌, ◌<◌, ◌≡◌, refl, sym, ap, ◌∙◌, subst, ◌≢◌, inl, inr, Bool, true, false,
  Option, none, some, List, [], ◌∷◌, arith, ◌==◌, ==_iff, Bool-cases, Option-cases, ◌>>=◌, length,
  get_elem?, is_empty,
}
use robust.Optimizer.Dag.{DagEdge, DagNode, change_node}
use robust.Optimizer.Dag.Links.{get_elem?-change_node}
use robust.Optimizer.Dag.Flip.Laws.{flip_node-cases}
use robust.Optimizer.Dag.Flip.{
  remove_parent, reverse_edge, flip_child, flip_children, flip_node, flip_pass, flip_loop,
  flip_roots_to_leaves, anchor_of,
}

-- The node has neither parents nor children: its table is in no join condition, as below a cross
-- product.
unfoldable pub IsAlone : List DagNode → ℕ → Type 0
IsAlone nodes i =
    (n : DagNode) × (get_elem? nodes i ≡ some n) × (n.parents ≡ []) × (n.children ≡ [])

get_elem?-other :
    (nodes : List DagNode) (i j : ℕ) (f : DagNode → DagNode)
    → (i == j) ≡ false
    → get_elem? (change_node i f nodes) j ≡ get_elem? nodes j
get_elem?-other nodes i j f h = ground (arith, h, get_elem?-change_node nodes i j f)

no_parent_removed :
    (nodes : List DagNode) (j i : ℕ)
    → IsAlone nodes i
    → (get_elem? nodes i >>= λ n. remove_parent j n.parents n.edges_to_parents) ≡ none
unfolding remove_parent IsAlone
no_parent_removed nodes j i (n, at, no_parents, _) =
    ap (λ (o : Option DagNode). o >>= λ n. remove_parent j n.parents n.edges_to_parents) at
    ∙ ap (λ (ps : List ℕ). remove_parent j ps n.edges_to_parents) no_parents

pub reverse_edge-other :
    (j c i : ℕ) (found : DagEdge × List ℕ × List DagEdge) (nodes : List DagNode)
    → (j == i) ≡ false
    → (c == i) ≡ false
    → get_elem? (reverse_edge j c found nodes) i ≡ get_elem? nodes i
unfolding reverse_edge
reverse_edge-other j c i found nodes hj hc =
    get_elem?-other _ j i _ hj
    ∙ get_elem?-other _ c i _ hc
    ∙ get_elem?-other _ j i _ hj
    ∙ get_elem?-other _ c i _ hc

flip_child-IsAlone :
    (nodes : List DagNode) (j c i : ℕ)
    → (j == i) ≡ false
    → IsAlone nodes i
    → IsAlone (flip_child j nodes c) i
unfolding flip_child IsAlone
flip_child-IsAlone nodes j c i apart w =
    elim (Option-cases (get_elem? nodes c >>= λ n. remove_parent j n.parents n.edges_to_parents)) [
      | inl e ↦ (w.0, ground (arith, e) ∙ w.1, w.2, w.3)
      | inr (found, e) ↦ elim (Bool-cases (c == i)) [
        | inl h ↦
            let none' = no_parent_removed nodes j i w in
            let at : c ≡ i = (==_iff c i).0 h in
            absurd (
              ground (
                arith,
                sym e
                    ∙ ap
                        (λ (x : ℕ).
                          get_elem? nodes x >>= λ n. remove_parent j n.parents n.edges_to_parents)
                        at
                    ∙ none',
              ))
        | inr h ↦
            (w.0, ground (arith, e) ∙ reverse_edge-other j c i found nodes apart h ∙ w.1, w.2, w.3)
      ]
    ]

flip_children-IsAlone :
    (j i : ℕ) (cs : List ℕ) (nodes : List DagNode)
    → (j == i) ≡ false
    → IsAlone nodes i
    → IsAlone (flip_children j cs nodes) i
unfolding flip_children
flip_children-IsAlone j i [] nodes apart w = w
flip_children-IsAlone j i (c ∷ cs) nodes apart w =
    flip_children-IsAlone j i cs (flip_child j nodes c) apart
      (flip_child-IsAlone nodes j c i apart w)

flip_node-alone :
    (anchor i : ℕ) (nodes : List DagNode) (flipped : Bool)
    → (i == anchor) ≡ false
    → IsAlone nodes i
    → flip_node anchor i (nodes, flipped) ≡ (nodes, true)
unfolding flip_node IsAlone flip_children
flip_node-alone anchor i nodes flipped other (n, at, no_parents, no_children) = ground (
  arith,
  at,
  other,
  ap is_empty no_parents,
  ap (λ (cs : List ℕ). flip_children i cs nodes) no_children,
)

flip_node-apart :
    (anchor j i : ℕ) (nodes : List DagNode) (flipped : Bool)
    → (j == i) ≡ false
    → IsAlone nodes i
    → IsAlone (flip_node anchor j (nodes, flipped)).0 i
flip_node-apart anchor j i nodes flipped apart w = elim (flip_node-cases anchor j nodes flipped) [
  | inl e ↦ subst (λ (s : List DagNode × Bool). IsAlone s.0 i) (sym e) w
  | inr (n, _, e) ↦
      subst (λ (s : List DagNode × Bool). IsAlone s.0 i) (sym e)
        (flip_children-IsAlone j i n.children nodes apart w)
]

flip_node-IsAlone :
    (anchor j i : ℕ) (nodes : List DagNode) (flipped : Bool)
    → (i == anchor) ≡ false
    → IsAlone nodes i
    → IsAlone (flip_node anchor j (nodes, flipped)).0 i
flip_node-IsAlone anchor j i nodes flipped other w = elim (Bool-cases (j == i)) [
  | inl h ↦
      let own : flip_node anchor j (nodes, flipped) ≡ (nodes, true) =
        ap (λ (x : ℕ). flip_node anchor x (nodes, flipped)) ((==_iff j i).0 h)
        ∙ flip_node-alone anchor i nodes flipped other w in
      subst (λ (s : List DagNode × Bool). IsAlone s.0 i) (sym own) w
  | inr h ↦ flip_node-apart anchor j i nodes flipped h w
]

flip_node-flipped :
    (anchor j : ℕ) (nodes : List DagNode) → (flip_node anchor j (nodes, true)).1 ≡ true
unfolding flip_node
flip_node-flipped anchor j nodes = ground arith

flip_pass-IsAlone :
    (anchor i k j : ℕ) (s : List DagNode × Bool)
    → (i == anchor) ≡ false
    → IsAlone s.0 i
    → IsAlone (flip_pass anchor k j s).0 i
unfolding flip_pass
flip_pass-IsAlone anchor i zero j s other w = w
flip_pass-IsAlone anchor i (suc k) j s other w =
    flip_pass-IsAlone anchor i k (suc j) _ other (flip_node-IsAlone anchor j i s.0 s.1 other w)

flip_pass-flipped :
    (anchor k j : ℕ) (s : List DagNode × Bool) → s.1 ≡ true → (flip_pass anchor k j s).1 ≡ true
unfolding flip_pass
flip_pass-flipped anchor zero j s h = h
flip_pass-flipped anchor (suc k) j (nodes, flipped) h =
    flip_pass-flipped anchor k (suc j) _
      (ap (λ (b : Bool). (flip_node anchor j (nodes, b)).1) h ∙ flip_node-flipped anchor j nodes)

flip_pass-flips :
    (anchor i k j : ℕ) (s : List DagNode × Bool)
    → (i == anchor) ≡ false
    → IsAlone s.0 i
    → j ≤ i
    → i < j + k
    → (flip_pass anchor k j s).1 ≡ true
unfolding flip_pass
flip_pass-flips anchor i zero j s other w le lt = absurd (ground (arith, le, lt))
flip_pass-flips anchor i (suc k) j (nodes, flipped) other w le lt = elim (Bool-cases (j == i)) [
  | inl h ↦
      let own : flip_node anchor j (nodes, flipped) ≡ (nodes, true) =
        ap (λ (x : ℕ). flip_node anchor x (nodes, flipped)) ((==_iff j i).0 h)
        ∙ flip_node-alone anchor i nodes flipped other w in
      flip_pass-flipped anchor k (suc j) _ (ap (λ (s : List DagNode × Bool). s.1) own)
  | inr h ↦
      flip_pass-flips anchor i k (suc j) _ other
        (flip_node-IsAlone anchor j i nodes flipped other w) (ground (arith, le, h))
        (ground (arith, lt))
]

IsAlone-inside : (nodes : List DagNode) (i : ℕ) → IsAlone nodes i → i < length nodes
unfolding IsAlone
IsAlone-inside [] i (n, at, _, _) = absurd (ground (arith, at))
IsAlone-inside (m ∷ nodes) zero w = omega arith
IsAlone-inside (m ∷ nodes) (suc i) w = omega (arith, IsAlone-inside nodes i w)

flip_loop-endless :
    (fuel anchor i : ℕ) (nodes : List DagNode)
    → (i == anchor) ≡ false
    → IsAlone nodes i
    → flip_loop fuel anchor nodes ≡ none
unfolding flip_loop
flip_loop-endless zero anchor i nodes other w = refl
flip_loop-endless (suc fuel) anchor i nodes other w =
    let r = flip_pass anchor (length nodes) 0 (nodes, false) in
    let again =
      flip_pass-flips anchor i (length nodes) 0 (nodes, false) other w (omega arith)
        (omega (arith, IsAlone-inside nodes i w)) in
    let rest =
      flip_loop-endless fuel anchor i r.0 other
        (flip_pass-IsAlone anchor i (length nodes) 0 (nodes, false) other w) in
    ground (arith, again, rest)

-- Where a node other than the anchor has neither parents nor children, the flips never end: no
-- number of rounds is enough.
pub flip_roots_to_leaves-endless :
    (fuel anchor i : ℕ) (nodes : List DagNode)
    → anchor_of nodes ≡ some anchor
    → i ≢ anchor
    → IsAlone nodes i
    → flip_roots_to_leaves fuel nodes ≡ none
unfolding flip_roots_to_leaves
flip_roots_to_leaves-endless fuel anchor i nodes e other w =
    ground (arith, e, flip_loop-endless fuel anchor i nodes (ground (arith, other)) w)
