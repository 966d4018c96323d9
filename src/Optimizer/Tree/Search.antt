-- ===== src/Optimizer/Tree/Search.antt =====
-- The search of `BuildRootedTree` of src/optimizer/robust_optimizer.cpp keeps a tree.
use robust.Prelude.{
  ℕ, suc, ◌≡◌, sym, ap, ◌∙◌, subst, ◌⊎◌, inl, inr, true, false, none, some, List, ◌∷◌, arith, ◌==◌,
  ==_iff, ==_refl, Bool-cases, In,
}
use mathlib.Core.Option.{some-injective}
use robust.Column.{JoinEdge}
use robust.Optimizer.SpanningTree.{is_member}
use robust.Optimizer.Tree.{TreeNode, Bfs, find_node, hang}
use robust.Optimizer.Tree.Nodes.{
  IsHang, moved, stayed, hang-IsHang, hung_before, is_member-here, is_member-more,
}

-- An edge between two tables.
abbrev pub IsBetween : JoinEdge → ℕ → ℕ → Type 0
IsBetween e p t = ((e.table_a ≡ p) × (e.table_b ≡ t)) ⊎ ((e.table_a ≡ t) × (e.table_b ≡ p))

-- A node hangs one level under its parent, on one of the edges, which joins the two.
pub record IsHung (edges : List JoinEdge) (visited : List ℕ) (nodes : List TreeNode) (t : ℕ)
    (n : TreeNode) (p : ℕ) : Type 0 where
  pub child_visited : is_member t visited ≡ true
  pub parent_visited : is_member p visited ≡ true
  pub edge : JoinEdge
  pub has_edge : n.edge_to_parent ≡ some edge
  pub known : In edge edges
  pub joins : IsBetween edge p t
  pub parent_node : TreeNode
  pub found : find_node p nodes ≡ some parent_node
  pub one_lower : n.level ≡ suc parent_node.level

pub record IsTree (edges : List JoinEdge) (root : ℕ) (s : Bfs) : Type 0 where
  pub queued : (t : ℕ) → In t s.queue → is_member t s.visited ≡ true
  pub hung :
      (t : ℕ) (n : TreeNode) (p : ℕ)
      → find_node t s.nodes ≡ some n
      → n.parent ≡ some p
      → IsHung edges s.visited s.nodes t n p
  pub root_visited : is_member root s.visited ≡ true
  pub top : TreeNode
  pub root_found : find_node root s.nodes ≡ some top
  pub no_parent : top.parent ≡ none
  pub level_zero : top.level ≡ 0

other_of :
    (t u : ℕ) (visited : List ℕ)
    → is_member t visited ≡ false
    → is_member u visited ≡ true
    → (t == u) ≡ false
other_of t u visited h k = elim (Bool-cases (t == u)) [
  | inl e ↦ absurd (ground (arith, h, k, ap (λ (x : ℕ). is_member x visited) ((==_iff t u).0 e)))
  | inr e ↦ e
]

-- A node that is visited already stays where it is.
pub stays :
    (current level t : ℕ) (e : JoinEdge) (s : Bfs) (u : ℕ) (n : TreeNode)
    → is_member t s.visited ≡ false
    → is_member u s.visited ≡ true
    → find_node u s.nodes ≡ some n
    → (n' : TreeNode) × (find_node u (hang current level t e s.nodes) ≡ some n')
      × (n'.parent ≡ n.parent)
      × (n'.level ≡ n.level)
stays current level t e s u n h k at =
    let (n', at', w) = hang-IsHang current level t e s.nodes u n at in
    elim w [
      | moved same _ _ _ ↦ absurd (ground (arith, other_of t u s.visited h k, same, ==_refl u))
      | stayed _ p l _ ↦ (n', at', p, l)
    ]

module _ (edges : List JoinEdge) (root : ℕ) where
  pub hang-IsHung :
      (current level t : ℕ) (e : JoinEdge) (s : Bfs) (q : TreeNode)
      → IsTree edges root s
      → is_member current s.visited ≡ true
      → find_node current s.nodes ≡ some q
      → q.level ≡ level
      → is_member t s.visited ≡ false
      → In e edges
      → IsBetween e current t
      → (u : ℕ) (n' : TreeNode) (p : ℕ) → find_node u (hang current level t e s.nodes) ≡ some n'
      → n'.parent ≡ some p
      → IsHung edges (t ∷ s.visited) (hang current level t e s.nodes) u n' p
  hang-IsHung current level t e s q w vc at lv h known ends u n' p found par =
      let (n, before) = hung_before current level t e s.nodes u n' found in
      let (n'', found', is) = hang-IsHang current level t e s.nodes u n before in
      let same : n'' ≡ n' = some-injective n'' n' (sym found' ∙ found) in
      elim (subst (IsHang current level t e u n) same is) [
        | moved tu pc lc ec ↦
            let (q', at', _, lq) = stays current level t e s current q h vc at in
            let cp : current ≡ p = some-injective current p (sym pc ∙ par) in
            record {
              child_visited =
                  ap (λ (x : ℕ). is_member x (t ∷ s.visited)) (sym tu) ∙ is_member-here t s.visited;
              parent_visited =
                  is_member-more t p s.visited
                    (ap (λ (x : ℕ). is_member x s.visited) (sym cp) ∙ vc);
              edge = e;
              has_edge = ec;
              known = known;
              joins = subst (λ (x : ℕ). IsBetween e x u) cp (subst (IsBetween e current) tu ends);
              parent_node = q';
              found = ap (λ (x : ℕ). find_node x (hang current level t e s.nodes)) (sym cp) ∙ at';
              one_lower = ground (arith, lc, lq, lv);
            }
        | stayed tu pn ln en ↦
            let old = w.hung u n p before (sym pn ∙ par) in
            let (q', at', _, lq) =
              stays current level t e s p old.parent_node h old.parent_visited old.found in
            record {
              child_visited = is_member-more t u s.visited old.child_visited;
              parent_visited = is_member-more t p s.visited old.parent_visited;
              edge = old.edge;
              has_edge = en ∙ old.has_edge;
              known = old.known;
              joins = old.joins;
              parent_node = q';
              found = at';
              one_lower = ground (arith, ln, lq, old.one_lower);
            }
      ]
