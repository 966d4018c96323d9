-- ===== src/Optimizer/Dag/Flip/Laws.antt =====
-- The flips of `FlipRootsToLeaves` of src/optimizer/robust_optimizer.cpp keep the edges beside the
-- parents.
use robust.Prelude.{
  ℕ, zero, suc, ◌≡◌, refl, sym, ap, ◌∙◌, subst, ◌⊎◌, inl, inr, Bool, true, not, ◌||◌, Option, some,
  List, [], ◌∷◌, ◌++◌, arith, ◌==◌, ==_iff, Bool-cases, Option-cases, ◌>>=◌, >>=-eq-some, get_elem?,
  is_empty,
}
use mathlib.Core.Option.{some-injective}
use robust.Optimizer.Dag.{DagEdge, DagNode, change_node}
use robust.Optimizer.Dag.Links.{
  IsEdge, IsParallel, IsLinked, HasSameTables, table_at, table_at-change_node, change_node-IsLinked,
  IsParallel-append, IsEdge-HasSameTables,
}
use robust.Optimizer.Dag.Flip.{
  remove_parent, remove_first, reversed_edge, reverse_edge, flip_child, flip_children, flip_node,
  flip_pass,
}

pub flip_node-cases :
    (anchor j : ℕ) (nodes : List DagNode) (flipped : Bool)
    → (flip_node anchor j (nodes, flipped) ≡ (nodes, flipped))
      ⊎ ((n : DagNode) × (get_elem? nodes j ≡ some n)
          × (flip_node anchor j (nodes, flipped) ≡ (flip_children j n.children nodes, true)))
unfolding flip_node
flip_node-cases anchor j nodes flipped = elim (Option-cases (get_elem? nodes j)) [
  | inl e ↦ inl (ground (arith, e))
  | inr (n, e) ↦ elim (Bool-cases (not (is_empty n.parents) || j == anchor)) [
    | inl h ↦ inl (ground (arith, e, h))
    | inr h ↦ inr (n, e, ground (arith, e, h))
  ]
]

remove_parent-IsParallel :
    (nodes : List DagNode) (t p : ℕ) (ps : List ℕ) (es : List DagEdge)
    (found : DagEdge × List ℕ × List DagEdge)
    → IsParallel nodes t ps es
    → remove_parent p ps es ≡ some found
    → IsEdge nodes t p found.0 × IsParallel nodes t found.1 found.2
unfolding remove_parent IsParallel
remove_parent-IsParallel nodes t p [] es found w e = absurd (ground (arith, e))
remove_parent-IsParallel nodes t p (q ∷ ps) [] found w e = absurd w
remove_parent-IsParallel nodes t p (q ∷ ps) (d ∷ es) found w e = elim (Bool-cases (q == p)) [
  | inl h ↦
      let e' : (d, ps, es) ≡ found = some-injective (d, ps, es) found (ground (arith, e, h)) in
      subst
        (λ (r : DagEdge × List ℕ × List DagEdge). IsEdge nodes t p r.0 × IsParallel nodes t r.1 r.2)
        e' (subst (λ (x : ℕ). IsEdge nodes t x d) ((==_iff q p).0 h) w.0, w.1)
  | inr h ↦
      let e₀ : (remove_parent p ps es >>= λ r. some (r.0, q ∷ r.1, d ∷ r.2)) ≡ some found =
        ground (arith, e, h) in
      let (r, e₁, e₂) = >>=-eq-some (remove_parent p ps es) _ e₀ in
      let (edge, rest) = remove_parent-IsParallel nodes t p ps es r w.1 e₁ in
      subst
        (λ (r : DagEdge × List ℕ × List DagEdge). IsEdge nodes t p r.0 × IsParallel nodes t r.1 r.2)
        (some-injective (r.0, q ∷ r.1, d ∷ r.2) found e₂) (edge, (w.0, rest))
]

table_of :
    (nodes : List DagNode) (i t : ℕ) (n : DagNode)
    → get_elem? nodes i ≡ some n
    → table_at nodes i ≡ some t
    → n.table_idx ≡ t
unfolding table_at
table_of nodes i t n e f =
    some-injective n.table_idx t
      (ap (λ (o : Option DagNode). o >>= λ n. some n.table_idx) (sym e) ∙ f)

tables_of :
    (nodes : List DagNode) (i : ℕ) (n : DagNode)
    → get_elem? nodes i ≡ some n
    → table_at nodes i ≡ some n.table_idx
unfolding table_at
tables_of nodes i n e = ap (λ (o : Option DagNode). o >>= λ n. some n.table_idx) e

reversed_edge-IsEdge :
    (nodes : List DagNode) (c i t : ℕ) (e : DagEdge)
    → IsEdge nodes t i e
    → table_at nodes c ≡ some t
    → IsEdge nodes e.parent_table c (reversed_edge e)
unfolding reversed_edge
reversed_edge-IsEdge nodes c i t e w at = record {
  parent = at ∙ ap some (sym w.child);
  child = refl;
  paired = sym w.paired;
  some_column = ground (arith, w.paired, w.some_column);
}

reverse_edge-IsLinked :
    (i c : ℕ) (nodes : List DagNode) (nc : DagNode) (found : DagEdge × List ℕ × List DagEdge)
    → get_elem? nodes c ≡ some nc
    → remove_parent i nc.parents nc.edges_to_parents ≡ some found
    → IsLinked nodes
    → IsLinked (reverse_edge i c found nodes)
unfolding reverse_edge IsLinked
reverse_edge-IsLinked i c nodes nc found at e w =
    let (edge, kept) =
      remove_parent-IsParallel nodes nc.table_idx i nc.parents nc.edges_to_parents found (w c nc at)
        e in
    let cut =
      change_node c (λ (n : DagNode). record n { parents = found.1; edges_to_parents = found.2 })
        nodes in
    let unhung =
      change_node i (λ (n : DagNode). record n { children = remove_first c n.children }) cut in
    let under =
      change_node c (λ (n : DagNode). record n { children = n.children ++ i ∷ [] }) unhung in
    let w₁ : IsLinked cut =
      change_node-IsLinked nodes c _ (λ n. refl)
        (λ n e' p.
          subst (λ (x : DagNode). IsParallel nodes x.table_idx found.1 found.2)
            (some-injective nc n (sym at ∙ e')) kept)
        w in
    let w₂ : IsLinked unhung = change_node-IsLinked cut i _ (λ n. refl) (λ n e' p. p) w₁ in
    let w₃ : IsLinked under = change_node-IsLinked unhung c _ (λ n. refl) (λ n e' p. p) w₂ in
    let same : HasSameTables nodes under = λ p t f.
      table_at-change_node unhung c _ (λ n. refl) p t
        (table_at-change_node cut i _ (λ n. refl) p t
          (table_at-change_node nodes c _ (λ n. refl) p t f)) in
    let edge' : IsEdge under found.0.parent_table c (reversed_edge found.0) =
      IsEdge-HasSameTables nodes under found.0.parent_table c (reversed_edge found.0) same
        (reversed_edge-IsEdge nodes c i nc.table_idx found.0 edge (tables_of nodes c nc at)) in
    change_node-IsLinked under i _ (λ n. refl)
      (λ n e' p.
        IsParallel-append under n.table_idx n.parents n.edges_to_parents c (reversed_edge found.0) p
          (subst (λ (t : ℕ). IsEdge under t c (reversed_edge found.0))
            (sym (
              table_of under i found.0.parent_table n e' (same i found.0.parent_table edge.parent)))
            edge'))
      w₃

flip_child-IsLinked :
    (i c : ℕ) (nodes : List DagNode) → IsLinked nodes → IsLinked (flip_child i nodes c)
unfolding flip_child
flip_child-IsLinked i c nodes w =
    elim (Option-cases (get_elem? nodes c >>= λ n. remove_parent i n.parents n.edges_to_parents)) [
      | inl e ↦ subst IsLinked (ground (arith, e)) w
      | inr (found, e) ↦
          let (nc, at, e') = >>=-eq-some (get_elem? nodes c) _ e in
          subst IsLinked (ground (arith, e)) (reverse_edge-IsLinked i c nodes nc found at e' w)
    ]

flip_children-IsLinked :
    (i : ℕ) (cs : List ℕ) (nodes : List DagNode)
    → IsLinked nodes
    → IsLinked (flip_children i cs nodes)
unfolding flip_children
flip_children-IsLinked i [] nodes w = w
flip_children-IsLinked i (c ∷ cs) nodes w =
    flip_children-IsLinked i cs (flip_child i nodes c) (flip_child-IsLinked i c nodes w)

pub flip_pass-IsLinked :
    (anchor k i : ℕ) (s : List DagNode × Bool) → IsLinked s.0 → IsLinked (flip_pass anchor k i s).0
unfolding flip_pass
flip_pass-IsLinked anchor zero i s w = w
flip_pass-IsLinked anchor (suc k) i (nodes, flipped) w =
    flip_pass-IsLinked anchor k (suc i) _ (elim (flip_node-cases anchor i nodes flipped) [
      | inl e ↦ subst (λ (s : List DagNode × Bool). IsLinked s.0) (sym e) w
      | inr (n, _, e) ↦
          subst (λ (s : List DagNode × Bool). IsLinked s.0) (sym e)
            (flip_children-IsLinked i n.children nodes w)
    ])
