-- ===== src/Optimizer/SpanningTree/Laws.antt =====
-- The join tree of `LargestRoot` of src/optimizer/robust_optimizer.cpp.
use robust.Prelude.{
  ◌↔◌, ℕ, zero, suc, ◌+◌, ◌≤◌, ◌<◌, ◌≡◌, refl, sym, subst, ◌⊎◌, inl, inr, true, false, not, ◌&&◌,
  none, some, List, [], ◌∷◌, arith, ltb, Bool-cases, Option-cases, length, is_empty, In,
}
use robust.Column.{JoinEdge}
use robust.Table.{TableManager}
use robust.Optimizer.SpanningTree.{
  largest_table, is_member, insert_node, is_crossing, Best, best_of, no_best, grow, largest_root,
}
use robust.Optimizer.SpanningTree.Joinable.{
  IsJoinable, IsLargest, IsEligible-IsJoinable, IsJoinable-IsEligible, insert_edge-In,
  largest_table-IsLargest,
}
use robust.Optimizer.SpanningTree.Choice.{IsEligible, IsWithin, IsBest, In-walk, best_of-IsBest}

unfoldable pub IsChosen : TableManager → List JoinEdge → List ℕ → JoinEdge → Type 0
unfolding IsWithin
IsChosen m edges nodes e =
    In e edges
    × (c : ℕ) × IsJoinable m nodes e c
    × ((f : JoinEdge) (d : ℕ)
        → In f edges
        → IsJoinable m nodes f d
        → IsWithin f.weight d e.weight c)

-- there is a node for each table, or no edge with a column may be taken
unfoldable pub IsComplete : TableManager → List JoinEdge → List ℕ → Type 0
IsComplete m edges nodes =
    (length m.table_ops ≤ length nodes)
    ⊎ ((f : JoinEdge) (d : ℕ) → In f edges → IsJoinable m nodes f d → f.weight ≡ 0)

-- the edges are taken one after the other, each the best of those that may be taken, until the
-- tree is complete; each adds its other end to the nodes
unfoldable pub IsGrown : TableManager → List JoinEdge → List ℕ → List JoinEdge → Type 0
unfolding IsChosen IsComplete
IsGrown m edges nodes [] = IsComplete m edges nodes
IsGrown m edges nodes (e ∷ es) =
    IsChosen m edges nodes e
    × (grown : List ℕ) × (length grown ≡ suc (length nodes))
    × ((t : ℕ) → In t grown ↔ (In t nodes ⊎ (t ≡ e.table_a) ⊎ (t ≡ e.table_b)))
    × IsGrown m edges grown es

-- the tree gains exactly one node with each edge
length-insert_crossing :
    (nodes : List ℕ) (e : JoinEdge)
    → is_crossing nodes e ≡ true
    → length (insert_node e.table_b (insert_node e.table_a nodes)) ≡ suc (length nodes)
unfolding is_crossing insert_node is_member
length-insert_crossing nodes e h = ground (arith, h)

no_best-IsBest : (m : TableManager) (nodes : List ℕ) → IsBest m [] nodes no_best
unfolding IsBest
no_best-IsBest m nodes =
    (λ e found. ground (arith, found), λ f d h ok. absurd h, λ found. (refl, refl))

best_of-IsChosen :
    (m : TableManager) (edges : List JoinEdge) (nodes : List ℕ) (e : JoinEdge)
    → (best_of m nodes no_best edges).best_edge ≡ some e
    → IsChosen m edges nodes e
unfolding IsBest IsChosen
best_of-IsChosen m edges nodes e found =
    let best : Best = best_of m nodes no_best edges in
    let w = best_of-IsBest m edges [] nodes no_best (no_best-IsBest m nodes) in
    let at = w.0 e found in
    let seen = In-walk e edges [] in
    (
      ground (arith, at.0, seen),
      best.max_cardinality,
      IsEligible-IsJoinable m nodes e best.max_cardinality at.2,
      λ f d h ok.
          subst (λ (k : ℕ). IsWithin f.weight d k best.max_cardinality) (sym at.1)
            (w.1 f d ((In-walk f edges []).1 (inl h)) (IsJoinable-IsEligible m nodes f d ok)),
    )

best_of-IsComplete :
    (m : TableManager) (edges : List JoinEdge) (nodes : List ℕ)
    → (best_of m nodes no_best edges).best_edge ≡ none
    → IsComplete m edges nodes
unfolding IsBest IsComplete IsWithin
best_of-IsComplete m edges nodes found =
    let w = best_of-IsBest m edges [] nodes no_best (no_best-IsBest m nodes) in
    let zeros = w.2 found in
    inr (λ f d h ok. ground (
      arith,
      zeros,
      w.1 f d ((In-walk f edges []).1 (inl h)) (IsJoinable-IsEligible m nodes f d ok),
    ))

length-insert_chosen :
    (m : TableManager) (edges : List JoinEdge) (nodes : List ℕ) (e : JoinEdge)
    → IsChosen m edges nodes e
    → length (insert_node e.table_b (insert_node e.table_a nodes)) ≡ suc (length nodes)
unfolding IsChosen IsEligible
length-insert_chosen m edges nodes e w =
    length-insert_crossing nodes e ((IsJoinable-IsEligible m nodes e w.1 w.2).0)

IsComplete-loop :
    (m : TableManager) (edges : List JoinEdge) (nodes : List ℕ)
    → (ltb (length nodes) (length m.table_ops) && not (is_empty edges)) ≡ false
    → IsComplete m edges nodes
unfolding IsComplete
IsComplete-loop m [] nodes h = inr (λ f d i ok. absurd i)
IsComplete-loop m (e ∷ es) nodes h = inl (ground (arith, h))

grow-IsGrown :
    (fuel : ℕ) (m : TableManager) (edges : List JoinEdge) (nodes : List ℕ)
    → 0 < fuel
    → length m.table_ops < fuel + length nodes
    → (tree : List JoinEdge) × grow fuel m edges nodes ≡ some tree × IsGrown m edges nodes tree
unfolding IsGrown grow
grow-IsGrown zero m edges nodes some_fuel bound = ground (arith, some_fuel)
grow-IsGrown (suc fuel) m edges nodes some_fuel bound =
    elim (Bool-cases (ltb (length nodes) (length m.table_ops) && not (is_empty edges))) [
      | inr h ↦ ([], ground (arith, h), IsComplete-loop m edges nodes h)
      | inl h ↦ elim (Option-cases ((best_of m nodes no_best edges).best_edge)) [
        | inl n ↦ ([], ground (arith, h, n), best_of-IsComplete m edges nodes n)
        | inr (e, n) ↦
            let chosen = best_of-IsChosen m edges nodes e n in
            let longer = length-insert_chosen m edges nodes e chosen in
            let later =
              grow-IsGrown fuel m edges (insert_node e.table_b (insert_node e.table_a nodes))
                (ground (arith, h, bound)) (ground (arith, bound, longer)) in
            (
              e ∷ later.0,
              ground (arith, h, n, later.1),
              (
                chosen,
                insert_node e.table_b (insert_node e.table_a nodes),
                longer,
                insert_edge-In e nodes,
                later.2,
              ),
            )
      ]
    ]

-- The join tree is found within the rounds given. It starts from a table of the greatest cardinality, or
-- from the index 0 where all cardinalities are 0. Each of its edges has exactly one end in the tree
-- before it, to which it adds the other, and is a best such edge, by weight and then by the smaller
-- cardinality of its ends, among all edges whose tables are known; and at the end the tree has at least
-- as many nodes as there are tables, or all such edges that are left have the weight 0.
pub largest_root-IsGrown :
    (m : TableManager) (edges : List JoinEdge)
    → (root : ℕ) × (tree : List JoinEdge) × (largest_root m edges ≡ some tree)
      × IsLargest m.table_ops root
      × IsGrown m edges (root ∷ []) tree
unfolding largest_root
largest_root-IsGrown m edges =
    let root = largest_table m.table_ops 0 0 in
    let (tree, found, grown) =
      grow-IsGrown (suc (length m.table_ops)) m edges (root ∷ []) (ground arith) (ground arith) in
    (root, tree, found, largest_table-IsLargest m.table_ops, grown)
