-- ===== src/Optimizer/Dag/Levels/Reached.antt =====
-- The levels that `BuildPhysicalPlanDAG` of src/optimizer/robust_optimizer.cpp gives the nodes, and
-- which nodes get one.
use robust.Prelude.{
  ℕ, zero, suc, ◌+◌, ◌*◌, ◌≤◌, ◌<◌, max, ◌≡◌, refl, sym, ap, ◌∙◌, subst, inl, inr, none, some, List,
  [], ◌∷◌, map, arith, if◌then◌else◌, Option-cases, >>=-eq-some, length, is_empty, In,
}
use mathlib.Core.Option.{some-injective}
use robust.Optimizer.Dag.{DagNode}
use robust.Optimizer.Dag.Levels.{
  level_at, parents_at, max_parent, new_level, start_level, compute_levels,
}
use robust.Optimizer.Dag.Levels.Laws.{count, one, count-le-length}
use robust.Optimizer.Dag.Levels.Ranks.{IsRanked}
use robust.Optimizer.Dag.Levels.Settled.{IsSettledNode, IsSettled, bare, settle-IsSettled}

start_at :
    (nodes : List DagNode) (i : ℕ) (ps : List ℕ)
    → parents_at (map start_level nodes) i ≡ some ps
    → (level_at (map start_level nodes) i ≡ (if is_empty ps then some 0 else none))
unfolding start_level level_at parents_at
start_at [] i ps e = absurd (ground (arith, e))
start_at (n ∷ nodes) zero ps e =
    ap (λ (x : List ℕ). if is_empty x then some 0 else none) (some-injective n.parents ps e)
start_at (n ∷ nodes) (suc i) ps e = start_at nodes i ps e

set_at :
    (nodes : List DagNode) (i l : ℕ)
    → level_at nodes i ≡ some l
    → (ps : List ℕ) × (parents_at nodes i ≡ some ps) × (0 < count nodes)
unfolding level_at parents_at count one
set_at [] i l e = absurd (ground (arith, e))
set_at (n ∷ nodes) zero l e = (n.parents, refl, ground (arith, e))
set_at (n ∷ nodes) (suc i) l e =
    let (ps, at, lt) = set_at nodes i l e in (ps, at, ground (arith, lt))

start_set :
    (nodes : List DagNode) (i l : ℕ)
    → level_at (map start_level nodes) i ≡ some l
    → (parents_at (map start_level nodes) i ≡ some [])
      × (l ≡ 0)
      × (0 < count (map start_level nodes))
start_set nodes i l e =
    let (ps, at, lt) = set_at (map start_level nodes) i l e in go ps at (start_at nodes i ps at) lt
  where
    go :
        (ps : List ℕ)
        → parents_at (map start_level nodes) i ≡ some ps
        → (level_at (map start_level nodes) i ≡ (if is_empty ps then some 0 else none))
        → 0 < count (map start_level nodes)
        → (parents_at (map start_level nodes) i ≡ some [])
          × (l ≡ 0)
          × (0 < count (map start_level nodes))
    go [] at is lt = (at, ground (arith, e, is), lt)
    go (p ∷ ps) at is lt = absurd (ground (arith, e, is))

start-IsRanked : (nodes : List DagNode) → IsRanked (map start_level nodes) (λ i. 0)
start-IsRanked nodes =
    let no_parent : (i l p : ℕ) (ps : List ℕ)
        → level_at (map start_level nodes) i ≡ some l
        → parents_at (map start_level nodes) i ≡ some (p ∷ ps)
        → ⊥ =
      λ i l p ps e at.
        absurd (ground (arith, some-injective _ _ (sym at ∙ (start_set nodes i l e).0))) in
    record {
      low = λ i l e. let (_, z, lt) = start_set nodes i l e in (ground (arith, z), lt);
      roots = λ i at. start_at nodes i [] at;
      above = λ i l ps p e at m. absurd (
          subst (λ (x : List ℕ). In p x) (some-injective _ _ (sym at ∙ (start_set nodes i l e).0))
            m);
      rising = λ i l p ps e at. absurd (no_parent i l p ps e at);
    }

map-bare-start_level : (nodes : List DagNode) → map bare (map start_level nodes) ≡ map bare nodes
unfolding bare start_level
map-bare-start_level [] = refl
map-bare-start_level (n ∷ nodes) =
    ap (λ (t : List DagNode). bare n ∷ t) (map-bare-start_level nodes)

length-map : (f : DagNode → DagNode) (nodes : List DagNode) → length (map f nodes) ≡ length nodes
length-map f [] = refl
length-map f (n ∷ nodes) = ap suc (length-map f nodes)

-- The levels of a graph: 0 at each node without parents, and one more than the greatest level of
-- the parents at any other; a node has a level when all its parents have one, and only then; and the
-- levels are below the number of the nodes.
pub record IsLevelled (nodes : List DagNode) : Type 0 where
  pub roots : (i : ℕ) → parents_at nodes i ≡ some [] → level_at nodes i ≡ some 0
  pub others :
      (i p : ℕ) (ps : List ℕ)
      → parents_at nodes i ≡ some (p ∷ ps)
      → level_at nodes i ≡ new_level nodes (p ∷ ps)
  pub falls :
      (i l : ℕ) (ps : List ℕ) (p : ℕ)
      → level_at nodes i ≡ some l
      → parents_at nodes i ≡ some ps
      → In p ps
      → (k : ℕ) × (level_at nodes p ≡ some k) × (k < l)
  pub bounded : (i l : ℕ) → level_at nodes i ≡ some l → l < length nodes

max_parent-bounds :
    (nodes : List DagNode) (ps : List ℕ) (b m : ℕ)
    → max_parent nodes ps b ≡ some m
    → (b ≤ m) × ((p : ℕ) → In p ps → (k : ℕ) × (level_at nodes p ≡ some k) × (k ≤ m))
unfolding max_parent
max_parent-bounds nodes [] b m e = (ground (arith, e), λ p i. absurd i)
max_parent-bounds nodes (q ∷ ps) b m e =
    let (l, e₁, e₂) = >>=-eq-some (level_at nodes q) _ e in
    let (le, all) = max_parent-bounds nodes ps (max b l) m e₂ in
    (
      ground (arith, le),
      λ p i. elim i [
        | inl s ↦ (l, ap (level_at nodes) s ∙ e₁, ground (arith, le))
        | inr i' ↦ all p i'
      ],
    )

new_level-bounds :
    (nodes : List DagNode) (ps : List ℕ) (l p : ℕ)
    → new_level nodes ps ≡ some l
    → In p ps
    → (k : ℕ) × (level_at nodes p ≡ some k) × (k < l)
unfolding new_level
new_level-bounds nodes [] l p e i = absurd i
new_level-bounds nodes (q ∷ ps) l p e i =
    let (m, e₁, e₂) = >>=-eq-some (max_parent nodes (q ∷ ps) 0) _ e in
    let (k, f, le) = (max_parent-bounds nodes (q ∷ ps) 0 m e₁).1 p i in
    (k, f, ground (arith, le, e₂))

IsSettled-IsLevelled : (nodes r : List DagNode) → IsSettled nodes r → IsLevelled r
unfolding IsSettledNode
IsSettled-IsLevelled nodes r s =
    let others : (i p : ℕ) (ps : List ℕ)
        → parents_at r i ≡ some (p ∷ ps)
        → level_at r i ≡ new_level r (p ∷ ps) =
      λ i p ps at. elim (Option-cases (new_level r (p ∷ ps))) [
        | inr (l, e) ↦ s.settled i (p ∷ ps) l at e ∙ sym e
        | inl e ↦ elim (Option-cases (level_at r i)) [
          | inl f ↦ f ∙ sym e
          | inr (l, f) ↦
              let (m, g, _) = (s.ranked.1).rising i l p ps f at in absurd (ground (arith, e, g))
        ]
      ] in
    record {
      roots = (s.ranked.1).roots;
      others = others;
      falls = falls others;
      bounded = λ i l e. ground (arith, (s.ranked.1).low i l e, count-le-length r);
    }
  where
    falls :
        ((i p : ℕ) (ps : List ℕ)
          → parents_at r i ≡ some (p ∷ ps)
          → level_at r i ≡ new_level r (p ∷ ps))
        → (i l : ℕ) (ps : List ℕ) (p : ℕ) → level_at r i ≡ some l
        → parents_at r i ≡ some ps
        → In p ps
        → (k : ℕ) × (level_at r p ≡ some k) × (k < l)
    falls others i l [] p e at m = absurd m
    falls others i l (q ∷ ps) p e at m =
        new_level-bounds r (q ∷ ps) l p (sym (others i q ps at) ∙ e) m

pub compute_levels-IsLevelled :
    (nodes : List DagNode)
    → (r : List DagNode) × (compute_levels nodes ≡ some r)
      × (map bare r ≡ map bare nodes)
      × IsLevelled r
unfolding compute_levels
compute_levels-IsLevelled nodes =
    let start = map start_level nodes in
    let size : length start ≡ length nodes = length-map start_level nodes in
    let enough : length start * length start < suc (length nodes * length nodes) + 0 =
      subst (λ (n : ℕ). n * n < suc (length nodes * length nodes) + 0) (sym size) (omega arith) in
    let (r, ran, s) =
      settle-IsSettled (suc (length nodes * length nodes)) start _ (start-IsRanked nodes)
        (ground (arith, enough)) in
    (r, ran, s.same ∙ map-bare-start_level nodes, IsSettled-IsLevelled start r s)

-- The parents are nodes, and a height falls from each node to its parents: there is no cycle.
abbrev pub IsAcyclic : List DagNode → (ℕ → ℕ) → Type 0
IsAcyclic nodes height =
    (i : ℕ) (ps : List ℕ) (p : ℕ)
    → parents_at nodes i ≡ some ps
    → In p ps
    → (height p < height i) × (p < length nodes)

max_parent-set :
    (nodes : List DagNode) (ps : List ℕ) (b : ℕ)
    → ((p : ℕ) → In p ps → (k : ℕ) × (level_at nodes p ≡ some k))
    → (m : ℕ) × (max_parent nodes ps b ≡ some m)
unfolding max_parent
max_parent-set nodes [] b h = (b, refl)
max_parent-set nodes (p ∷ ps) b h =
    let (k, e) = h p (inl refl) in
    let (m, f) = max_parent-set nodes ps (max b k) (λ q i. h q (inr i)) in (m, ground (arith, e, f))

new_level-set :
    (nodes : List DagNode) (p : ℕ) (ps : List ℕ)
    → ((q : ℕ) → In q (p ∷ ps) → (k : ℕ) × (level_at nodes q ≡ some k))
    → (l : ℕ) × (new_level nodes (p ∷ ps) ≡ some l)
unfolding new_level
new_level-set nodes p ps h =
    let (m, e) = max_parent-set nodes (p ∷ ps) 0 h in (suc m, ground (arith, e))

node_at :
    (nodes : List DagNode) (i : ℕ)
    → i < length nodes
    → (ps : List ℕ) × (parents_at nodes i ≡ some ps)
unfolding parents_at
node_at [] i lt = absurd (ground (arith, lt))
node_at (n ∷ nodes) zero lt = (n.parents, refl)
node_at (n ∷ nodes) (suc i) lt = node_at nodes i (ground (arith, lt))

set_from_parents :
    (nodes : List DagNode) (i : ℕ) (ps : List ℕ)
    → IsLevelled nodes
    → parents_at nodes i ≡ some ps
    → ((q : ℕ) → In q ps → (k : ℕ) × (level_at nodes q ≡ some k))
    → (l : ℕ) × (level_at nodes i ≡ some l)
set_from_parents nodes i [] w at h = (0, w.roots i at)
set_from_parents nodes i (p ∷ ps) w at h =
    let (l, e) = new_level-set nodes p ps h in (l, w.others i p ps at ∙ e)

set_below :
    (nodes : List DagNode) (height : ℕ → ℕ)
    → IsLevelled nodes
    → IsAcyclic nodes height
    → (n i : ℕ) → height i < n
    → i < length nodes
    → (l : ℕ) × (level_at nodes i ≡ some l)
set_below nodes height w h zero i lt bound = absurd (ground (arith, lt))
set_below nodes height w h (suc n) i lt bound =
    let (ps, at) = node_at nodes i bound in
    set_from_parents nodes i ps w at (λ q m.
      let (lower, inside) = h i ps q at m in
      set_below nodes height w h n q (ground (arith, lower, lt)) inside)

pub parents_at-bare :
    (nodes : List DagNode) (i : ℕ) → parents_at (map bare nodes) i ≡ parents_at nodes i
unfolding parents_at bare
parents_at-bare [] i = refl
parents_at-bare (n ∷ nodes) zero = refl
parents_at-bare (n ∷ nodes) (suc i) = parents_at-bare nodes i

-- On a graph without cycles the loop ends with a level at every node.
pub compute_levels-acyclic :
    (nodes : List DagNode) (height : ℕ → ℕ)
    → IsAcyclic nodes height
    → (r : List DagNode) × (compute_levels nodes ≡ some r)
      × ((i : ℕ) → i < length nodes → (l : ℕ) × (level_at r i ≡ some l))
compute_levels-acyclic nodes height h =
    let (r, ran, same, w) = compute_levels-IsLevelled nodes in
    let size : length r ≡ length nodes =
      sym (length-map bare r) ∙ ap length same ∙ length-map bare nodes in
    let h' : IsAcyclic r height = λ i ps p at m.
      let at' =
        sym (parents_at-bare nodes i)
        ∙ ap (λ (x : List DagNode). parents_at x i) (sym same)
        ∙ parents_at-bare r i
        ∙ at in
      ground (arith, size, h i ps p at' m) in
    (
      r,
      ran,
      λ i lt. set_below r height w h' (suc (height i)) i (omega arith) (ground (arith, lt, size)),
    )
