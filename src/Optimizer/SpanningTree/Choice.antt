-- ===== src/Optimizer/SpanningTree/Choice.antt =====
-- The inner loop of `LargestRoot` of src/optimizer/robust_optimizer.cpp: the best edge of a round.
use robust.Prelude.{
  ℕ, ◌≤◌, ◌<◌, ◌≡◌, refl, sym, ap, ◌∙◌, subst, ◌↔◌, ◌⊎◌, inl, inr, true, false, ◌&&◌, none, some,
  List, [], ◌∷◌, arith, Bool-cases, and-eq-true, Option-cases, In,
}
use mathlib.Core.Option.{some-injective}
use robust.Column.{JoinEdge}
use robust.Table.{TableManager}
use robust.Optimizer.SpanningTree.{
  is_better, is_crossing, edge_cardinality, Best, consider, best_of,
}

-- An edge that may be taken: one end is in the tree, and both tables are known.
unfoldable pub IsEligible : TableManager → List ℕ → JoinEdge → ℕ → Type 0
unfolding is_crossing edge_cardinality
IsEligible m nodes e c = (is_crossing nodes e ≡ true) × (edge_cardinality m e ≡ some c)

-- first by weight, then by cardinality
unfoldable pub IsWithin : ℕ → ℕ → ℕ → ℕ → Type 0
IsWithin weight c max_weight max_cardinality =
    (weight < max_weight) ⊎ ((weight ≡ max_weight) × (c ≤ max_cardinality))

-- what a round of the inner loop keeps
unfoldable pub IsBest : TableManager → List JoinEdge → List ℕ → Best → Type 0
unfolding IsEligible IsWithin
IsBest m seen nodes best =
    ((e : JoinEdge)
      → best.best_edge ≡ some e
      → In e seen × (e.weight ≡ best.max_weight) × IsEligible m nodes e best.max_cardinality)
    × ((f : JoinEdge) (d : ℕ)
        → In f seen
        → IsEligible m nodes f d
        → IsWithin f.weight d best.max_weight best.max_cardinality)
    × (best.best_edge ≡ none → (best.max_weight ≡ 0) × (best.max_cardinality ≡ 0))

IsWithin-trans : (w c v d u b : ℕ) → IsWithin w c v d → IsWithin v d u b → IsWithin w c u b
unfolding IsWithin
IsWithin-trans w c v d u b p q = ground (arith, p, q)

edge_kept :
    (m : TableManager) (seen : List JoinEdge) (nodes : List ℕ) (best : Best) (e : JoinEdge)
    → IsBest m seen nodes best
    → ((d : ℕ) → IsEligible m nodes e d → IsWithin e.weight d best.max_weight best.max_cardinality)
    → IsBest m (e ∷ seen) nodes best
unfolding IsBest
edge_kept m seen nodes best e w h = (
  λ f found. let old = w.0 f found in (inr old.0, old.1, old.2),
  λ f d m' ok. elim m' [
    | inl same ↦
        subst
          (λ (g : JoinEdge).
            IsEligible m nodes g d → IsWithin g.weight d best.max_weight best.max_cardinality)
          (sym same) (h d) ok
    | inr old ↦ w.1 f d old ok
  ],
  w.2,
)

IsWithin-self :
    (m : TableManager) (nodes : List ℕ) (e f : JoinEdge) (c d : ℕ)
    → f ≡ e
    → IsEligible m nodes e c
    → IsEligible m nodes f d
    → IsWithin f.weight d e.weight c
unfolding IsEligible IsWithin
IsWithin-self m nodes e f c d same p q =
    let weights : f.weight ≡ e.weight = ap (λ (g : JoinEdge). g.weight) same in
    let cards : d ≡ c =
      some-injective d c (sym q.1 ∙ ap (λ (g : JoinEdge). edge_cardinality m g) same ∙ p.1) in
    ground (arith, weights, cards)

edge_taken :
    (m : TableManager) (seen : List JoinEdge) (nodes : List ℕ) (best : Best) (e : JoinEdge) (c : ℕ)
    → IsBest m seen nodes best
    → IsEligible m nodes e c
    → IsWithin best.max_weight best.max_cardinality e.weight c
    → IsBest m
        (e ∷ seen)
        nodes
        (record { best_edge = some e; max_weight = e.weight; max_cardinality = c })
unfolding IsBest
edge_taken m seen nodes best e c w ok better = (
  λ f found.
      let same = some-injective e f found in
      subst (λ (g : JoinEdge). In g (e ∷ seen) × (g.weight ≡ e.weight) × IsEligible m nodes g c)
        same (inl refl, refl, ok),
  λ f d m' ok'. elim m' [
    | inl same ↦ IsWithin-self m nodes e f c d same ok ok'
    | inr old ↦
        IsWithin-trans f.weight d best.max_weight best.max_cardinality e.weight c (w.1 f d old ok')
          better
  ],
  λ found. ground (arith, found),
)

consider-taken :
    (m : TableManager) (nodes : List ℕ) (best : Best) (e : JoinEdge) (c : ℕ)
    → edge_cardinality m e ≡ some c
    → (is_crossing nodes e && is_better best e c) ≡ true
    → consider m nodes best e
      ≡ record { best_edge = some e; max_weight = e.weight; max_cardinality = c }
unfolding consider
consider-taken m nodes best e c h t = ground (arith, h, t)

consider-kept :
    (m : TableManager) (nodes : List ℕ) (best : Best) (e : JoinEdge)
    → ((c : ℕ)
        → edge_cardinality m e ≡ some c
        → (is_crossing nodes e && is_better best e c) ≡ false)
    → consider m nodes best e ≡ best
unfolding consider
consider-kept m nodes best e h = elim (Option-cases (edge_cardinality m e)) [
  | inl n ↦ ground (arith, n)
  | inr (c, n) ↦ ground (arith, n, h c n)
]

better-IsWithin :
    (best : Best) (e : JoinEdge) (c : ℕ)
    → (is_better best e c ≡ true → IsWithin best.max_weight best.max_cardinality e.weight c)
      × (is_better best e c ≡ false → IsWithin e.weight c best.max_weight best.max_cardinality)
unfolding is_better IsWithin
better-IsWithin best e c = ground arith

consider-IsBest :
    (m : TableManager) (seen : List JoinEdge) (nodes : List ℕ) (best : Best) (e : JoinEdge)
    → IsBest m seen nodes best
    → IsBest m (e ∷ seen) nodes (consider m nodes best e)
unfolding IsEligible
consider-IsBest m seen nodes best e w =
    let kept =
      λ (h : (c : ℕ)
          → edge_cardinality m e ≡ some c
          → (is_crossing nodes e && is_better best e c) ≡ false).
        subst (λ (b : Best). IsBest m (e ∷ seen) nodes b) (sym (consider-kept m nodes best e h))
          (edge_kept m seen nodes best e w
            (λ d ok. (better-IsWithin best e d).1 (ground (arith, ok.0, h d ok.1)))) in
    elim (Option-cases (edge_cardinality m e)) [
      | inl n ↦ kept (λ c h. ground (arith, n, h))
      | inr (c, n) ↦ elim (Bool-cases (is_crossing nodes e && is_better best e c)) [
        | inl t ↦
            let both = and-eq-true (is_crossing nodes e) (is_better best e c) t in
            subst (λ (b : Best). IsBest m (e ∷ seen) nodes b)
              (sym (consider-taken m nodes best e c n t))
              (edge_taken m seen nodes best e c w (both.0, n) ((better-IsWithin best e c).0 both.1))
        | inr t ↦ kept (λ d h.
            subst (λ (k : ℕ). (is_crossing nodes e && is_better best e k) ≡ false)
              (some-injective c d (sym n ∙ h)) t)
      ]
    ]

-- the edges that the loop has seen at its end
pub walk : List JoinEdge → List JoinEdge → List JoinEdge
walk [] seen = seen
walk (e ∷ es) seen = walk es (e ∷ seen)

pub In-walk : (f : JoinEdge) (es seen : List JoinEdge) → In f (walk es seen) ↔ (In f es ⊎ In f seen)
unfolding walk
In-walk f [] seen = ground arith
In-walk f (e ∷ es) seen = ground (arith, In-walk f es (e ∷ seen))

pub best_of-IsBest :
    (m : TableManager) (es seen : List JoinEdge) (nodes : List ℕ) (best : Best)
    → IsBest m seen nodes best
    → IsBest m (walk es seen) nodes (best_of m nodes best es)
unfolding best_of walk
best_of-IsBest m [] seen nodes best w = w
best_of-IsBest m (e ∷ es) seen nodes best w =
    best_of-IsBest m es (e ∷ seen) nodes (consider m nodes best e)
      (consider-IsBest m seen nodes best e w)
