-- ===== src/Optimizer/Dag/Flip/Connected.antt =====
-- The flips of `FlipRootsToLeaves` of src/optimizer/robust_optimizer.cpp are counted at each node: linked
-- nodes differ by one flip at most.
use robust.Prelude.{
  ℕ, zero, suc, ◌≤◌, ◌≡◌, refl, sym, ap, ◌∙◌, subst, ◌≢◌, ◌⊎◌, inl, inr, ◌&&◌, some, List, [], ◌∷◌,
  arith, ◌==◌, ==_iff, Bool-cases, and-eq-true, Option-cases, ◌>>=◌, length, get_elem?, In,
}
use robust.Optimizer.Dag.{DagEdge, DagNode, change_node}
use robust.Optimizer.Dag.Flip.{flip_child, flip_children, reverse_edge, remove_parent}
use robust.Optimizer.Dag.Flip.Reverse.{parents_of, IsTwoWay}
use robust.Optimizer.Dag.Flip.Turn.{IsTurned}
use robust.Optimizer.Dag.Flip.Ends.{
  turned_parent, kept_parent, new_parent, turned-IsTwoWay, flip_child-IsTurned,
}

abbrev pub IsLinkedTo : List DagNode → ℕ → ℕ → Type 0
IsLinkedTo nodes x p = In p (parents_of nodes x) ⊎ In x (parents_of nodes p)

-- Nodes that are linked stay linked.
abbrev pub KeepsLinks : List DagNode → List DagNode → Type 0
KeepsLinks base nodes = (x p : ℕ) → In p (parents_of base x) → IsLinkedTo nodes x p

-- Some children of the node `i` are flipped; those in `left` may be under it still.
pub record IsPartway (base : List DagNode) (flips : ℕ → ℕ) (i : ℕ) (left : List ℕ)
    (nodes : List DagNode) : Type 0 where
  pub two_way : IsTwoWay nodes
  pub root : DagNode
  pub root_at : get_elem? nodes i ≡ some root
  pub rest :
      (x p : ℕ)
      → In p (parents_of nodes x)
      → x ≢ i
      → (flips p ≤ flips x) × (flips x ≤ suc (flips p))
  pub own : (p : ℕ) → In p (parents_of nodes i) → (flips i ≤ flips p) × (flips p ≤ suc (flips i))
  pub pending : (x : ℕ) → In i (parents_of nodes x) → In x left
  pub links : KeepsLinks base nodes
  pub size : length nodes ≡ length base

node_of :
    (nodes : List DagNode) (x p : ℕ)
    → In p (parents_of nodes x)
    → (n : DagNode) × (get_elem? nodes x ≡ some n)
unfolding parents_of
node_of nodes x p m = elim (Option-cases (get_elem? nodes x)) [
  | inr (n, e) ↦ (n, e)
  | inl e ↦ absurd (subst (In p) {y = []} (ground (arith, e)) m)
]

length-change_node :
    (nodes : List DagNode) (i : ℕ) (f : DagNode → DagNode)
    → length (change_node i f nodes) ≡ length nodes
unfolding change_node
length-change_node [] i f = refl
length-change_node (n ∷ nodes) zero f = refl
length-change_node (n ∷ nodes) (suc i) f = ap suc (length-change_node nodes i f)

length-reverse_edge :
    (i c : ℕ) (found : DagEdge × List ℕ × List DagEdge) (nodes : List DagNode)
    → length (reverse_edge i c found nodes) ≡ length nodes
unfolding reverse_edge
length-reverse_edge i c found nodes =
    length-change_node _ i _
    ∙ length-change_node _ c _
    ∙ length-change_node _ i _
    ∙ length-change_node nodes c _

length-flip_child : (i c : ℕ) (nodes : List DagNode) → length (flip_child i nodes c) ≡ length nodes
unfolding flip_child
length-flip_child i c nodes =
    elim (Option-cases (get_elem? nodes c >>= λ n. remove_parent i n.parents n.edges_to_parents)) [
      | inl e ↦ ground (arith, e)
      | inr (r, e) ↦
          subst (λ (x : List DagNode). length x ≡ length nodes) {x = reverse_edge i c r nodes}
            (ground (arith, e)) (length-reverse_edge i c r nodes)
    ]

turned-IsPartway :
    (base : List DagNode) (flips : ℕ → ℕ) (i c : ℕ) (left : List ℕ) (nodes nodes' : List DagNode)
    → IsTurned i c nodes nodes'
    → length nodes' ≡ length nodes
    → IsPartway base flips i (c ∷ left) nodes
    → IsPartway base flips i left nodes'
turned-IsPartway base flips i c left nodes nodes' t size w =
    let ci : c ≢ i = λ e. absurd (ground (arith, t.apart, e)) in
    let (root, root_at) = node_of nodes' i c (new_parent i c nodes nodes' t w.two_way) in
    record {
      two_way = turned-IsTwoWay i c nodes nodes' t w.two_way;
      root = root;
      root_at = root_at;
      rest = λ x p m ne. elim (turned_parent i c nodes nodes' t w.two_way x p m) [
        | inl (old, _) ↦ w.rest x p old ne
        | inr (xi, _) ↦ absurd (ne xi)
      ];
      own = λ p m. elim (turned_parent i c nodes nodes' t w.two_way i p m) [
        | inl (old, _) ↦ w.own p old
        | inr (_, pc) ↦
            subst (λ (y : ℕ). (flips i ≤ flips y) × (flips y ≤ suc (flips i))) (sym pc)
              (w.rest c i t.was_parent ci)
      ];
      pending = λ x m. elim (turned_parent i c nodes nodes' t w.two_way x i m) [
        | inl (old, no_edge) ↦ elim (w.pending x old) [
          | inl xc ↦ absurd (no_edge xc refl)
          | inr k ↦ k
        ]
        | inr (_, ic) ↦ absurd (ci (sym ic))
      ];
      links = λ x p m.
          let keep : (y q : ℕ) → In q (parents_of nodes y) → IsLinkedTo nodes' y q = λ y q k.
            elim (Bool-cases (y == c && q == i)) [
              | inl h ↦
                  let (h₁, h₂) = and-eq-true (y == c) (q == i) h in
                  let there : In y (parents_of nodes' q) =
                    subst (λ (z : ℕ). In y (parents_of nodes' z)) (sym ((==_iff q i).0 h₂))
                      (subst (λ (z : ℕ). In z (parents_of nodes' i)) (sym ((==_iff y c).0 h₁))
                        (new_parent i c nodes nodes' t w.two_way)) in
                  inr there
              | inr h ↦ inl (
                  kept_parent i c nodes nodes' t w.two_way y q k
                    (λ yc qi. absurd (ground (arith, h, yc, qi))))
            ] in
          elim (w.links x p m) [
            | inl k ↦ keep x p k
            | inr k ↦ elim (keep p x k) [ inl a ↦ inr a | inr b ↦ inl b ]
          ];
      size = size ∙ w.size;
    }

pub flip_children-IsPartway :
    (base : List DagNode) (flips : ℕ → ℕ) (i : ℕ) (left : List ℕ) (nodes : List DagNode)
    → IsPartway base flips i left nodes
    → IsPartway base flips i [] (flip_children i left nodes)
unfolding flip_children
flip_children-IsPartway base flips i [] nodes w = w
flip_children-IsPartway base flips i (c ∷ left) nodes w =
    flip_children-IsPartway base flips i left (flip_child i nodes c)
      (elim (flip_child-IsTurned i c nodes w.root w.two_way w.root_at) [
        | inr t ↦ turned-IsPartway base flips i c left nodes _ t (length-flip_child i c nodes) w
        | inl (same, no_edge) ↦ subst (IsPartway base flips i left) (sym same) (record {
          two_way = w.two_way;
          root = w.root;
          root_at = w.root_at;
          rest = w.rest;
          own = w.own;
          pending = λ x m. elim (w.pending x m) [
            | inl xc ↦ absurd (no_edge (subst (λ (y : ℕ). In i (parents_of nodes y)) xc m))
            | inr k ↦ k
          ];
          links = w.links;
          size = w.size;
        })
      ])
