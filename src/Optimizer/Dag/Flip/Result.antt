-- ===== src/Optimizer/Dag/Flip/Result.antt =====
-- What `FlipRootsToLeaves` of src/optimizer/robust_optimizer.cpp leaves when it ends.
use robust.Prelude.{
  ℕ, zero, suc, ◌+◌, ◌≤◌, ◌<◌, ◌≡◌, refl, sym, ap, ◌∙◌, subst, ◌≢◌, inl, inr, Bool, true, false,
  not, ◌||◌, Option, some, List, [], ◌∷◌, map, arith, ◌==◌, ==_iff, Bool-cases, Option-cases, ◌>>=◌,
  >>=-eq-some, length, get_elem?, is_empty,
}
use mathlib.Core.Option.{some-injective}
use robust.Optimizer.Dag.{DagNode}
use robust.Optimizer.Dag.Links.{
  IsParallel, IsLinked, HasSameTables, table_at, IsParallel-HasSameTables,
}
use robust.Optimizer.Dag.Levels.{parents_at, compute_levels}
use robust.Optimizer.Dag.Levels.Settled.{bare}
use robust.Optimizer.Dag.Levels.Reached.{IsLevelled, compute_levels-IsLevelled, parents_at-bare}
use robust.Optimizer.Dag.Flip.{flip_node, flip_pass, flip_loop, flip_roots_to_leaves, anchor_of}
use robust.Optimizer.Dag.Flip.Laws.{flip_node-cases, flip_pass-IsLinked}

-- Every node but the anchor has a parent.
unfoldable pub HasOneRoot : ℕ → List DagNode → Type 0
HasOneRoot anchor nodes =
    (i : ℕ) (ps : List ℕ) → parents_at nodes i ≡ some ps → i ≢ anchor → ps ≢ []

flip_node-still :
    (anchor i : ℕ) (nodes : List DagNode)
    → (flip_node anchor i (nodes, false)).1 ≡ false
    → (flip_node anchor i (nodes, false) ≡ (nodes, false))
      × ((ps : List ℕ) → parents_at nodes i ≡ some ps → i ≢ anchor → ps ≢ [])
unfolding flip_node parents_at
flip_node-still anchor i nodes e = elim (Option-cases (get_elem? nodes i)) [
  | inl f ↦ (ground (arith, f), λ ps at other none'. absurd (ground (arith, at, f)))
  | inr (n, f) ↦ elim (Bool-cases (not (is_empty n.parents) || i == anchor)) [
    | inl h ↦ (
      ground (arith, f, h),
      λ ps at other none'.
          let same : n.parents ≡ ps =
            some-injective n.parents ps
              (ap (λ (o : Option DagNode). o >>= λ n. some n.parents) (sym f) ∙ at) in
          absurd (ground (arith, h, other, ap is_empty (same ∙ none'))),
    )
    | inr h ↦ absurd (ground (arith, e, f, h))
  ]
]

flip_pass-flag :
    (anchor k i : ℕ) (nodes : List DagNode) → (flip_pass anchor k i (nodes, true)).1 ≡ true
unfolding flip_pass
flip_pass-flag anchor zero i nodes = refl
flip_pass-flag anchor (suc k) i nodes = elim (flip_node-cases anchor i nodes true) [
  | inl e ↦
      ap (λ (s : List DagNode × Bool). (flip_pass anchor k (suc i) s).1) e
      ∙ flip_pass-flag anchor k (suc i) nodes
  | inr (n, _, e) ↦
      ap (λ (s : List DagNode × Bool). (flip_pass anchor k (suc i) s).1) e
      ∙ flip_pass-flag anchor k (suc i) _
]

flip_pass-still :
    (anchor k j : ℕ) (nodes : List DagNode)
    → (flip_pass anchor k j (nodes, false)).1 ≡ false
    → (flip_pass anchor k j (nodes, false) ≡ (nodes, false))
      × ((i : ℕ) (ps : List ℕ)
          → j ≤ i
          → i < j + k
          → parents_at nodes i ≡ some ps
          → i ≢ anchor
          → ps ≢ [])
unfolding flip_pass
flip_pass-still anchor zero j nodes e = (refl, λ i ps le lt. absurd (ground (arith, le, lt)))
flip_pass-still anchor (suc k) j nodes e =
    let flag : (flip_node anchor j (nodes, false)).1 ≡ false =
      elim (flip_node-cases anchor j nodes false) [
        | inl f ↦ ap (λ (s : List DagNode × Bool). s.1) f
        | inr (n, _, f) ↦
            let on =
              ap (λ (s : List DagNode × Bool). (flip_pass anchor k (suc j) s).1) f
              ∙ flip_pass-flag anchor k (suc j) _ in
            absurd (ground (arith, e, on))
      ] in
    let (same, here) = flip_node-still anchor j nodes flag in
    let (same', rest) =
      flip_pass-still anchor k (suc j) nodes
        (ap (λ (s : List DagNode × Bool). (flip_pass anchor k (suc j) s).1) (sym same) ∙ e) in
    (
      ap (flip_pass anchor k (suc j)) same ∙ same',
      λ i ps le lt at other. elim (Bool-cases (j == i)) [
        | inl h ↦
            here ps (ap (parents_at nodes) ((==_iff j i).0 h) ∙ at)
              (λ eq. other (sym ((==_iff j i).0 h) ∙ eq))
        | inr h ↦ rest i ps (ground (arith, le, h)) (ground (arith, lt)) at other
      ],
    )

parents_at-inside :
    (nodes : List DagNode) (i : ℕ) (ps : List ℕ) → parents_at nodes i ≡ some ps → i < length nodes
unfolding parents_at
parents_at-inside [] i ps e = absurd (ground (arith, e))
parents_at-inside (n ∷ nodes) zero ps e = omega arith
parents_at-inside (n ∷ nodes) (suc i) ps e = omega (arith, parents_at-inside nodes i ps e)

flip_loop-result :
    (fuel anchor : ℕ) (nodes r : List DagNode)
    → IsLinked nodes
    → flip_loop fuel anchor nodes ≡ some r
    → IsLinked r × HasOneRoot anchor r
unfolding flip_loop HasOneRoot
flip_loop-result zero anchor nodes r w e = absurd (ground (arith, e))
flip_loop-result (suc fuel) anchor nodes r w e =
    let s = flip_pass anchor (length nodes) 0 (nodes, false) in
    elim (Bool-cases s.1) [
      | inl h ↦
          flip_loop-result fuel anchor s.0 r
            (flip_pass-IsLinked anchor (length nodes) 0 (nodes, false) w) (ground (arith, e, h))
      | inr h ↦
          let (same, all) = flip_pass-still anchor (length nodes) 0 nodes h in
          let e' : s.0 ≡ r = some-injective s.0 r (ground (arith, e, h)) in
          let e'' : nodes ≡ r = sym (ap (λ (t : List DagNode × Bool). t.0) same) ∙ e' in
          subst (λ (x : List DagNode). IsLinked x × HasOneRoot anchor x) e''
            (
              w,
              λ i ps at. all i ps (omega arith) (omega (arith, parents_at-inside nodes i ps at)) at,
            )
    ]

get_elem?-bare :
    (nodes : List DagNode) (i : ℕ)
    → get_elem? (map bare nodes) i ≡ (get_elem? nodes i >>= λ n. some (bare n))
get_elem?-bare [] i = refl
get_elem?-bare (n ∷ nodes) zero = refl
get_elem?-bare (n ∷ nodes) (suc i) = get_elem?-bare nodes i

table_at-bare : (nodes : List DagNode) (i : ℕ) → table_at (map bare nodes) i ≡ table_at nodes i
unfolding table_at bare
table_at-bare [] i = refl
table_at-bare (n ∷ nodes) zero = refl
table_at-bare (n ∷ nodes) (suc i) = table_at-bare nodes i

-- The levels do not matter for the links.
pub IsLinked-same :
    (nodes r : List DagNode) → map bare r ≡ map bare nodes → IsLinked nodes → IsLinked r
unfolding IsLinked bare
IsLinked-same nodes r same w i n e =
    let e' : (get_elem? nodes i >>= λ n. some (bare n)) ≡ some (bare n) =
      sym (get_elem?-bare nodes i)
      ∙ ap (λ (x : List DagNode). get_elem? x i) (sym same)
      ∙ get_elem?-bare r i
      ∙ ap (λ (o : Option DagNode). o >>= λ n. some (bare n)) e in
    let (m, at, is) = >>=-eq-some (get_elem? nodes i) _ e' in
    let tables : HasSameTables nodes r = λ p t f.
      sym (table_at-bare r p)
      ∙ ap (λ (x : List DagNode). table_at x p) same
      ∙ table_at-bare nodes p
      ∙ f in
    IsParallel-HasSameTables nodes r n.table_idx n.parents n.edges_to_parents tables (
      subst (λ (x : DagNode). IsParallel nodes x.table_idx x.parents x.edges_to_parents)
        (some-injective (bare m) (bare n) is) (w i m at))

HasOneRoot-same :
    (anchor : ℕ) (nodes r : List DagNode)
    → map bare r ≡ map bare nodes
    → HasOneRoot anchor nodes
    → HasOneRoot anchor r
unfolding HasOneRoot
HasOneRoot-same anchor nodes r same w i ps at = w i ps (
    sym (parents_at-bare nodes i)
    ∙ ap (λ (x : List DagNode). parents_at x i) (sym same)
    ∙ parents_at-bare r i
    ∙ at)

-- When the flips of a graph with several roots end, every node but the anchor has a parent, the
-- edges lie beside the parents still, and the levels are those of the new graph.
pub flip_roots_to_leaves-HasOneRoot :
    (fuel anchor : ℕ) (nodes r : List DagNode)
    → IsLinked nodes
    → anchor_of nodes ≡ some anchor
    → flip_roots_to_leaves fuel nodes ≡ some r
    → HasOneRoot anchor r × IsLinked r × IsLevelled r
unfolding flip_roots_to_leaves
flip_roots_to_leaves-HasOneRoot fuel anchor nodes r w e f =
    let f' : (flip_loop fuel anchor nodes >>= λ flipped. compute_levels flipped) ≡ some r =
      ground (arith, e, f) in
    let (flipped, g, h) = >>=-eq-some (flip_loop fuel anchor nodes) _ f' in
    let (linked, one) = flip_loop-result fuel anchor nodes flipped w g in
    let (r', ran, same, levels) = compute_levels-IsLevelled flipped in
    let eq : r' ≡ r = some-injective r' r (sym ran ∙ h) in
    subst (λ (x : List DagNode). HasOneRoot anchor x × IsLinked x × IsLevelled x) eq
      (HasOneRoot-same anchor flipped r' same one, IsLinked-same flipped r' same linked, levels)
