-- ===== src/Optimizer/Dag/Flip/Ends.antt =====
-- The flips of `FlipRootsToLeaves` of src/optimizer/robust_optimizer.cpp keep that the nodes know of each
-- other.
use robust.Prelude.{
  ℕ, ◌≡◌, refl, sym, ap, ◌∙◌, subst, ◌≢◌, ◌⊎◌, inl, inr, false, Option, none, some, List, [], ◌∷◌,
  ◌++◌, arith, ◌==◌, ==_iff, Bool-cases, Option-cases, length, get_elem?, length-append, In,
  In-append,
}
use robust.Optimizer.Dag.{DagNode}
use robust.Optimizer.Dag.Flip.{remove_parent, remove_first, flip_child}
use robust.Optimizer.Dag.Flip.Reverse.{
  remove_parent-found, parents_of, children_of, edge_count, IsOnce, IsTwoWay, remove_parent-missed,
  In-remove_first, kept_other, removed_once, remove_first-IsOnce, append-IsOnce,
}
use robust.Optimizer.Dag.Flip.Turn.{IsTurned, turn-IsTurned}

module _ (i c : ℕ) (nodes nodes' : List DagNode) (t : IsTurned i c nodes nodes')
    (w : IsTwoWay nodes) where
  others :
      (x : ℕ)
      → (i == x) ≡ false
      → (c == x) ≡ false
      → (parents_of nodes' x ≡ parents_of nodes x)
        × (children_of nodes' x ≡ children_of nodes x)
        × (edge_count nodes' x ≡ edge_count nodes x)
  unfolding parents_of children_of edge_count
  others x hi hc =
      let e = t.other x hi hc in
      (
        ap
            (λ (o : Option DagNode). elim o as (λ (x : Option DagNode). List ℕ) [
              | none ↦ []
              | some n ↦ n.parents
            ])
            e,
        ap
            (λ (o : Option DagNode). elim o as (λ (x : Option DagNode). List ℕ) [
              | none ↦ []
              | some n ↦ n.children
            ])
            e,
        ap
            (λ (o : Option DagNode). elim o as (λ (x : Option DagNode). ℕ) [
              | none ↦ 0
              | some n ↦ length n.edges_to_parents
            ])
            e,
      )

  -- A parent afterwards was one before, by another edge, or is the child that became one.
  pub turned_parent :
      (x p : ℕ)
      → In p (parents_of nodes' x)
      → (In p (parents_of nodes x) × ((x ≡ c) → (p ≡ i) → ⊥)) ⊎ ((x ≡ i) × (p ≡ c))
  turned_parent x p m = elim (Bool-cases (i == x)) [
    | inl h ↦
        let ix : i ≡ x = (==_iff i x).0 h in
        let m' : In p (parents_of nodes i ++ c ∷ []) =
          subst (In p) (ap (parents_of nodes') (sym ix) ∙ t.root_parents) m in
        elim ((In-append p (parents_of nodes i) (c ∷ [])).0 m') [
          | inl k ↦ inl (
            subst (λ (y : ℕ). In p (parents_of nodes y)) ix k,
            λ xc _. absurd (ground (arith, t.apart, ix, xc)),
          )
          | inr (inl same) ↦ inr (sym ix, same)
          | inr (inr never) ↦ absurd never
        ]
    | inr h ↦ elim (Bool-cases (c == x)) [
      | inl k ↦
          let cx : c ≡ x = (==_iff c x).0 k in
          let m' : In p (remove_first i (parents_of nodes c)) =
            subst (In p) (ap (parents_of nodes') (sym cx) ∙ t.child_parents) m in
          inl (
            subst (λ (y : ℕ). In p (parents_of nodes y)) cx
                (In-remove_first p i (parents_of nodes c) m'),
            λ _ pi.
                removed_once i (parents_of nodes c) (w.once c)
                  (subst (λ (y : ℕ). In y (remove_first i (parents_of nodes c))) pi m'),
          )
      | inr k ↦ inl (subst (In p) ((others x h k).0) m, λ xc _. absurd (ground (arith, k, xc)))
    ]
  ]

  pub kept_parent :
      (x p : ℕ) → In p (parents_of nodes x) → ((x ≡ c) → (p ≡ i) → ⊥) → In p (parents_of nodes' x)
  kept_parent x p m no_edge = elim (Bool-cases (i == x)) [
    | inl h ↦
        let ix : i ≡ x = (==_iff i x).0 h in
        subst (λ (y : ℕ). In p (parents_of nodes' y)) ix
          (subst (In p) (sym t.root_parents) (
            (In-append p (parents_of nodes i) (c ∷ [])).1
              (inl (subst (λ (y : ℕ). In p (parents_of nodes y)) (sym ix) m))))
    | inr h ↦ elim (Bool-cases (c == x)) [
      | inl k ↦
          let cx : c ≡ x = (==_iff c x).0 k in
          let pi : (i == p) ≡ false = elim (Bool-cases (i == p)) [
            | inl e ↦ absurd (no_edge (sym cx) (sym ((==_iff i p).0 e)))
            | inr e ↦ e
          ] in
          subst (λ (y : ℕ). In p (parents_of nodes' y)) cx
            (subst (In p) (sym t.child_parents) (
              kept_other p i (parents_of nodes c)
                (subst (λ (y : ℕ). In p (parents_of nodes y)) (sym cx) m) pi))
      | inr k ↦ subst (In p) (sym (others x h k).0) m
    ]
  ]

  pub new_parent : In c (parents_of nodes' i)
  new_parent =
      subst (In c) (sym t.root_parents)
        ((In-append c (parents_of nodes i) (c ∷ [])).1 (inr (inl refl)))

  kept_child :
      (p x : ℕ) → In x (children_of nodes p) → ((x ≡ c) → (p ≡ i) → ⊥) → In x (children_of nodes' p)
  kept_child p x m no_edge = elim (Bool-cases (i == p)) [
    | inl h ↦
        let ip : i ≡ p = (==_iff i p).0 h in
        let cx : (c == x) ≡ false = elim (Bool-cases (c == x)) [
          | inl e ↦ absurd (no_edge (sym ((==_iff c x).0 e)) (sym ip))
          | inr e ↦ e
        ] in
        subst (λ (y : ℕ). In x (children_of nodes' y)) ip
          (subst (In x) (sym t.root_children) (
            kept_other x c (children_of nodes i)
              (subst (λ (y : ℕ). In x (children_of nodes y)) (sym ip) m) cx))
    | inr h ↦ elim (Bool-cases (c == p)) [
      | inl k ↦
          let cp : c ≡ p = (==_iff c p).0 k in
          subst (λ (y : ℕ). In x (children_of nodes' y)) cp
            (subst (In x) (sym t.child_children) (
              (In-append x (children_of nodes c) (i ∷ [])).1
                (inl (subst (λ (y : ℕ). In x (children_of nodes y)) (sym cp) m))))
      | inr k ↦ subst (In x) (sym (others p h k).1) m
    ]
  ]

  pub turned-IsTwoWay : IsTwoWay nodes'
  turned-IsTwoWay = record {
    even = λ x. elim (Bool-cases (i == x)) [
      | inl h ↦
          subst (λ (y : ℕ). length (parents_of nodes' y) ≡ edge_count nodes' y) ((==_iff i x).0 h)
            (ap length t.root_parents
              ∙ ground (arith, length-append (parents_of nodes i) (c ∷ []), w.even i, t.root_edges))
      | inr h ↦ elim (Bool-cases (c == x)) [
        | inl k ↦
            subst (λ (y : ℕ). length (parents_of nodes' y) ≡ edge_count nodes' y) ((==_iff c x).0 k)
              (ground (arith, t.shorter, w.even c, t.child_edges))
        | inr k ↦ ap length (others x h k).0 ∙ w.even x ∙ sym (others x h k).2
      ]
    ];
    down = λ x p m. elim (turned_parent x p m) [
      | inl (old, no_edge) ↦ kept_child p x (w.down x p old) no_edge
      | inr (xi, pc) ↦
          subst (λ (y : ℕ). In x (children_of nodes' y)) (sym pc)
            (subst (In x) (sym t.child_children)
              ((In-append x (children_of nodes c) (i ∷ [])).1 (inr (inl xi))))
    ];
    once = λ x. elim (Bool-cases (i == x)) [
      | inl h ↦
          subst (λ (y : ℕ). IsOnce (parents_of nodes' y)) ((==_iff i x).0 h)
            (subst IsOnce (sym t.root_parents)
              (append-IsOnce c (parents_of nodes i) (w.once i) (λ k. w.one_way i c k t.was_parent)))
      | inr h ↦ elim (Bool-cases (c == x)) [
        | inl k ↦
            subst (λ (y : ℕ). IsOnce (parents_of nodes' y)) ((==_iff c x).0 k)
              (subst IsOnce (sym t.child_parents)
                (remove_first-IsOnce i (parents_of nodes c) (w.once c)))
        | inr k ↦ subst IsOnce (sym (others x h k).0) (w.once x)
      ]
    ];
    one_way = λ x p m n. elim (turned_parent x p m) [
      | inl (old, no_edge) ↦ elim (turned_parent p x n) [
        | inl (old', _) ↦ w.one_way x p old old'
        | inr (pi, xc) ↦ no_edge xc pi
      ]
      | inr (xi, pc) ↦ elim (turned_parent p x n) [
        | inl (_, no_edge) ↦ no_edge pc xi
        | inr (pi, xc) ↦ absurd (ground (arith, t.apart, xi, xc))
      ]
    ];
  }

-- The flip of one child changes nothing, or reverses the edge.
pub flip_child-IsTurned :
    (i c : ℕ) (nodes : List DagNode) (ni : DagNode)
    → IsTwoWay nodes
    → get_elem? nodes i ≡ some ni
    → ((flip_child i nodes c ≡ nodes) × (In i (parents_of nodes c) → ⊥))
      ⊎ IsTurned i c nodes (flip_child i nodes c)
unfolding flip_child parents_of edge_count
flip_child-IsTurned i c nodes ni w ai = elim (Option-cases (get_elem? nodes c)) [
  | inl e ↦ inl (ground (arith, e), λ m. subst (In i) {y = []} (ground (arith, e)) m)
  | inr (nc, e) ↦ elim (Option-cases (remove_parent i nc.parents nc.edges_to_parents)) [
    | inl f ↦ inl (
      ground (arith, e, f),
      λ m.
          let even : length nc.parents ≡ length nc.edges_to_parents = ground (arith, w.even c, e) in
          remove_parent-missed i nc.parents nc.edges_to_parents even f
            (subst (In i) {y = nc.parents} (ground (arith, e)) m),
    )
    | inr (r, f) ↦
        let ne : i ≢ c = λ same.
          let m : In i (parents_of nodes c) =
            subst (In i) {x = nc.parents} (ground (arith, e))
              ((remove_parent-found i nc.parents nc.edges_to_parents r f).0) in
          let m' = subst (λ (y : ℕ). In i (parents_of nodes y)) (sym same) m in
          w.one_way i i m' m' in
        inr (
          subst (IsTurned i c nodes) (ground (arith, e, f))
            (turn-IsTurned i c nodes ni nc r ai e ne f))
  ]
]
