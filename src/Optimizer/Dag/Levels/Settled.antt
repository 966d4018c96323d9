-- ===== src/Optimizer/Dag/Levels/Settled.antt =====
-- What the loop of `BuildPhysicalPlanDAG` of src/optimizer/robust_optimizer.cpp leaves.
use robust.Prelude.{
  ℕ, zero, suc, ◌+◌, ◌*◌, ◌≤◌, ◌<◌, ◌≡◌, refl, sym, ap, ◌∙◌, subst, ◌⊎◌, inl, inr, Bool, true,
  false, Option, none, some, List, [], ◌∷◌, map, arith, ltb, ◌==◌, ltb→lt, ==_iff, Bool-cases,
  Option-cases, ◌>>=◌, >>=-eq-some, length,
}
use robust.Optimizer.Dag.{DagNode, change_node}
use robust.Optimizer.Dag.Levels.{
  level_at, parents_at, put_level, new_level, is_level, settle_node, sweep, settle,
}
use robust.Optimizer.Dag.Levels.Laws.{length-put_level, total, total-le, count-le-length}
use robust.Optimizer.Dag.Levels.Ranks.{IsRanked, raise-IsRanked}

-- A node has the level that its parents' levels give it, where all of them have one.
unfoldable pub IsSettledNode : List DagNode → ℕ → Type 0
IsSettledNode nodes i =
    (ps : List ℕ) (l : ℕ)
    → parents_at nodes i ≡ some ps
    → new_level nodes ps ≡ some l
    → level_at nodes i ≡ some l

-- a node without its level
unfoldable pub bare : DagNode → DagNode
bare n = record n { level = none }

-- Some level is higher than before, and the graph is the same.
record IsRaised (nodes nodes' : List DagNode) : Type 0 where
  same : map bare nodes' ≡ map bare nodes
  size : length nodes' ≡ length nodes
  ranked : (rank : ℕ → ℕ) × IsRanked nodes' rank
  more : total nodes < total nodes'

map-bare-put_level :
    (nodes : List DagNode) (i : ℕ) (l : Option ℕ) → map bare (put_level i l nodes) ≡ map bare nodes
unfolding put_level change_node bare
map-bare-put_level [] i l = refl
map-bare-put_level (n ∷ nodes) zero l = refl
map-bare-put_level (n ∷ nodes) (suc i) l =
    ap (λ (t : List DagNode). bare n ∷ t) (map-bare-put_level nodes i l)

is_level-eq : (l : ℕ) (o : Option ℕ) → is_level l o ≡ true → o ≡ some l
unfolding is_level
is_level-eq l none e = absurd (ground (arith, e))
is_level-eq l (some k) e = ap some ((==_iff k l).0 e)

-- A round leaves the node, which then has its level, or raises it.
settle_node-cases :
    (nodes : List DagNode) (i : ℕ) (changed : Bool) (rank : ℕ → ℕ)
    → IsRanked nodes rank
    → ((settle_node i (nodes, changed) ≡ (nodes, changed)) × IsSettledNode nodes i)
      ⊎ ((nodes' : List DagNode) × (settle_node i (nodes, changed) ≡ (nodes', true))
          × IsRaised nodes nodes')
unfolding settle_node IsSettledNode
settle_node-cases nodes i changed rank w =
    elim (Option-cases (parents_at nodes i >>= λ ps. new_level nodes ps)) [
      | inl e ↦ inl (ground (arith, e), λ ps l at next. absurd (ground (arith, e, at, next)))
      | inr (l, e) ↦ elim (Bool-cases (is_level l (level_at nodes i))) [
        | inl h ↦ inl (
          ground (arith, e, h),
          λ ps k at next.
              let e' : some l ≡ some k = sym e ∙ ground (arith, at, next) in is_level-eq l _ h ∙ e',
        )
        | inr h ↦
            let (ps, at, next) = >>=-eq-some (parents_at nodes i) _ e in
            let (rank', w', more) = raise-IsRanked nodes i l ps rank w at next h in
            inr (
              put_level i (some l) nodes,
              ground (arith, e, h),
              record {
                same = map-bare-put_level nodes i (some l);
                size = length-put_level nodes i (some l);
                ranked = (rank', w');
                more = more;
              },
            )
      ]
    ]

IsRaised-trans : (a b c : List DagNode) → IsRaised a b → IsRaised b c → IsRaised a c
IsRaised-trans a b c v w = record {
  same = w.same ∙ v.same;
  size = w.size ∙ v.size;
  ranked = w.ranked;
  more = ground (arith, v.more, w.more);
}

sweep-cases :
    (k i : ℕ) (nodes : List DagNode) (changed : Bool) (rank : ℕ → ℕ)
    → IsRanked nodes rank
    → ((sweep k i (nodes, changed) ≡ (nodes, changed))
        × ((j : ℕ) → i ≤ j → j < i + k → IsSettledNode nodes j))
      ⊎ ((nodes' : List DagNode) × (sweep k i (nodes, changed) ≡ (nodes', true))
          × IsRaised nodes nodes')
unfolding sweep
sweep-cases zero i nodes changed rank w = inl (refl, λ j le lt. absurd (ground (arith, le, lt)))
sweep-cases (suc k) i nodes changed rank w = elim (settle_node-cases nodes i changed rank w) [
  | inl (e, here) ↦ elim (sweep-cases k (suc i) nodes changed rank w) [
    | inl (e', rest) ↦ inl (
      ap (sweep k (suc i)) e ∙ e',
      λ j le lt. elim (Bool-cases (i == j)) [
        | inl h ↦ subst (IsSettledNode nodes) ((==_iff i j).0 h) here
        | inr h ↦ rest j (ground (arith, le, h)) (ground (arith, lt))
      ],
    )
    | inr (nodes', e', up) ↦ inr (nodes', ap (sweep k (suc i)) e ∙ e', up)
  ]
  | inr (nodes₁, e, up) ↦ elim (sweep-cases k (suc i) nodes₁ true up.ranked.0 up.ranked.1) [
    | inl (e', rest) ↦ inr (nodes₁, ap (sweep k (suc i)) e ∙ e', up)
    | inr (nodes', e', up') ↦
        inr (nodes', ap (sweep k (suc i)) e ∙ e', IsRaised-trans nodes nodes₁ nodes' up up')
  ]
]

total-bound :
    (nodes : List DagNode) (rank : ℕ → ℕ)
    → IsRanked nodes rank
    → total nodes ≤ length nodes * length nodes
total-bound nodes rank w =
    total-le nodes (length nodes) (λ i l e. ground (arith, w.low i l e, count-le-length nodes))

-- What the loop leaves of the nodes.
pub record IsSettled (nodes r : List DagNode) : Type 0 where
  pub same : map bare r ≡ map bare nodes
  pub size : length r ≡ length nodes
  pub ranked : (rank : ℕ → ℕ) × IsRanked r rank
  pub settled : (i : ℕ) → IsSettledNode r i

parents_at-out : (nodes : List DagNode) (i : ℕ) → length nodes ≤ i → parents_at nodes i ≡ none
unfolding parents_at
parents_at-out [] i le = refl
parents_at-out (n ∷ nodes) zero le = absurd (ground (arith, le))
parents_at-out (n ∷ nodes) (suc i) le = parents_at-out nodes i (ground (arith, le))

all_settled :
    (nodes : List DagNode)
    → ((j : ℕ) → 0 ≤ j → j < 0 + length nodes → IsSettledNode nodes j)
    → (i : ℕ) → IsSettledNode nodes i
unfolding IsSettledNode
all_settled nodes h i = elim (Bool-cases (ltb i (length nodes))) [
  | inl lt ↦ h i (ground arith) (ground (arith, ltb→lt i (length nodes) lt))
  | inr ge ↦
      λ ps l at next. absurd (ground (arith, at, parents_at-out nodes i (ground (arith, ge))))
]

pub settle-IsSettled :
    (fuel : ℕ) (nodes : List DagNode) (rank : ℕ → ℕ)
    → IsRanked nodes rank
    → length nodes * length nodes < fuel + total nodes
    → (r : List DagNode) × (settle fuel nodes ≡ some r) × IsSettled nodes r
unfolding settle
settle-IsSettled zero nodes rank w enough =
    absurd (ground (arith, enough, total-bound nodes rank w))
settle-IsSettled (suc fuel) nodes rank w enough =
    elim (sweep-cases (length nodes) 0 nodes false rank w) [
      | inl (e, rest) ↦ (
        nodes,
        ground (arith, e),
        record { same = refl; size = refl; ranked = (rank, w); settled = all_settled nodes rest },
      )
      | inr (nodes₁, e, up) ↦
          let bound : length nodes₁ * length nodes₁ < fuel + total nodes₁ =
            subst (λ (n : ℕ). n * n < fuel + total nodes₁) (sym up.size)
              (ground (arith, up.more, enough)) in
          let (r, ran, s) = settle-IsSettled fuel nodes₁ up.ranked.0 up.ranked.1 bound in
          (
            r,
            ground (arith, e, ran),
            record {
              same = s.same ∙ up.same;
              size = s.size ∙ up.size;
              ranked = s.ranked;
              settled = s.settled;
            },
          )
    ]
