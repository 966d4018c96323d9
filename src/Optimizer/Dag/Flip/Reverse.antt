-- ===== src/Optimizer/Dag/Flip/Reverse.antt =====
-- One reversed edge of `FlipRootsToLeaves` of src/optimizer/robust_optimizer.cpp, on graphs whose nodes
-- know of each other.
use robust.Prelude.{
  ℕ, suc, ◌≡◌, sym, ap, ◌∙◌, subst, inl, inr, false, none, some, List, [], ◌∷◌, ◌++◌, arith, ◌==◌,
  ==_iff, Bool-cases, Option-cases, ◌>>=◌, >>=-eq-some, length, get_elem?, In, In-append,
}
use mathlib.Core.Option.{some-injective}
use robust.Optimizer.Dag.{DagEdge, DagNode}
use robust.Optimizer.Dag.Flip.{remove_parent, remove_first}

unfoldable pub parents_of : List DagNode → ℕ → List ℕ
parents_of nodes x = elim (get_elem? nodes x) [ none ↦ [] | some n ↦ n.parents ]

unfoldable pub children_of : List DagNode → ℕ → List ℕ
children_of nodes x = elim (get_elem? nodes x) [ none ↦ [] | some n ↦ n.children ]

unfoldable pub edge_count : List DagNode → ℕ → ℕ
edge_count nodes x = elim (get_elem? nodes x) [ none ↦ 0 | some n ↦ length n.edges_to_parents ]

unfoldable pub IsOnce : List ℕ → Type 0
IsOnce [] = Unit {0}
IsOnce (x ∷ xs) = (In x xs → ⊥) × IsOnce xs

-- A parent has the node among its children, each parent stands once beside its edge, and no two nodes
-- are parents of each other.
pub record IsTwoWay (nodes : List DagNode) : Type 0 where
  pub even : (x : ℕ) → length (parents_of nodes x) ≡ edge_count nodes x
  pub down : (x p : ℕ) → In p (parents_of nodes x) → In x (children_of nodes p)
  pub once : (x : ℕ) → IsOnce (parents_of nodes x)
  pub one_way : (x p : ℕ) → In p (parents_of nodes x) → In x (parents_of nodes p) → ⊥

pub In-remove_first : (q p : ℕ) (xs : List ℕ) → In q (remove_first p xs) → In q xs
unfolding remove_first
In-remove_first q p [] i = i
In-remove_first q p (x ∷ xs) i = ground (arith, i, In-remove_first q p xs)

pub kept_other : (q p : ℕ) (xs : List ℕ) → In q xs → (p == q) ≡ false → In q (remove_first p xs)
unfolding remove_first
kept_other q p [] i h = i
kept_other q p (x ∷ xs) i h = ground (arith, i, h, kept_other q p xs)

pub removed_once : (p : ℕ) (xs : List ℕ) → IsOnce xs → In p (remove_first p xs) → ⊥
unfolding remove_first IsOnce
removed_once p [] w i = i
removed_once p (x ∷ xs) w i = elim (Bool-cases (x == p)) [
  | inl h ↦ w.0 (
      subst (λ (y : ℕ). In y xs) (sym ((==_iff x p).0 h))
        (subst (In p) {y = xs} (ground (arith, h)) i))
  | inr h ↦ elim (subst (In p) {y = x ∷ remove_first p xs} (ground (arith, h)) i) [
    | inl same ↦ absurd (ground (arith, h, same))
    | inr k ↦ removed_once p xs w.1 k
  ]
]

pub remove_first-IsOnce : (p : ℕ) (xs : List ℕ) → IsOnce xs → IsOnce (remove_first p xs)
unfolding remove_first IsOnce
remove_first-IsOnce p [] w = tt
remove_first-IsOnce p (x ∷ xs) w = elim (Bool-cases (x == p)) [
  | inl h ↦ subst IsOnce {x = xs} (ground (arith, h)) w.1
  | inr h ↦
      let both : IsOnce (x ∷ remove_first p xs) =
        (λ i. w.0 (In-remove_first x p xs i), remove_first-IsOnce p xs w.1) in
      subst IsOnce {x = x ∷ remove_first p xs} (ground (arith, h)) both
]

pub append-IsOnce : (p : ℕ) (xs : List ℕ) → IsOnce xs → (In p xs → ⊥) → IsOnce (xs ++ p ∷ [])
unfolding IsOnce
append-IsOnce p [] w h = (λ i. i, tt)
append-IsOnce p (x ∷ xs) w h = (
  λ i. elim ((In-append x xs (p ∷ [])).0 i) [
    | inl k ↦ w.0 k
    | inr (inl same) ↦ h (inl (sym same))
    | inr (inr k) ↦ k
  ],
  append-IsOnce p xs w.1 (λ i. h (inr i)),
)

-- The search for a parent finds it where it is, and cuts both vectors by one.
pub remove_parent-found :
    (p : ℕ) (ps : List ℕ) (es : List DagEdge) (r : DagEdge × List ℕ × List DagEdge)
    → remove_parent p ps es ≡ some r
    → In p ps
      × (r.1 ≡ remove_first p ps)
      × (suc (length r.2) ≡ length es)
      × (suc (length r.1) ≡ length ps)
unfolding remove_parent remove_first
remove_parent-found p [] es r e = absurd (ground (arith, e))
remove_parent-found p (q ∷ ps) [] r e = absurd (ground (arith, e))
remove_parent-found p (q ∷ ps) (d ∷ es) r e = elim (Bool-cases (q == p)) [
  | inl h ↦
      let same : (d, ps, es) ≡ r = some-injective (d, ps, es) r (ground (arith, e, h)) in
      let s₁ : ps ≡ r.1 = ap (λ (x : DagEdge × List ℕ × List DagEdge). x.1) same in
      let s₂ : es ≡ r.2 = ap (λ (x : DagEdge × List ℕ × List DagEdge). x.2) same in
      (
        inl (sym ((==_iff q p).0 h)),
        sym s₁ ∙ ground (arith, h),
        ap (λ (x : List DagEdge). suc (length x)) (sym s₂),
        ap (λ (x : List ℕ). suc (length x)) (sym s₁),
      )
  | inr h ↦
      let e₀ : (remove_parent p ps es >>= λ r. some (r.0, q ∷ r.1, d ∷ r.2)) ≡ some r =
        ground (arith, e, h) in
      let (s, e₁, e₂) = >>=-eq-some (remove_parent p ps es) _ e₀ in
      let same = some-injective (s.0, q ∷ s.1, d ∷ s.2) r e₂ in
      let (i, eq, l₂, l₁) = remove_parent-found p ps es s e₁ in
      (
        inr i,
        ap (λ (x : DagEdge × List ℕ × List DagEdge). x.1) (sym same)
            ∙ ap (λ (x : List ℕ). q ∷ x) eq
            ∙ ground (arith, h),
        ap (λ (x : DagEdge × List ℕ × List DagEdge). suc (length x.2)) (sym same) ∙ ap suc l₂,
        ap (λ (x : DagEdge × List ℕ × List DagEdge). suc (length x.1)) (sym same) ∙ ap suc l₁,
      )
]

pub remove_parent-missed :
    (p : ℕ) (ps : List ℕ) (es : List DagEdge)
    → length ps ≡ length es
    → remove_parent p ps es ≡ none
    → In p ps
    → ⊥
unfolding remove_parent
remove_parent-missed p [] es l e i = i
remove_parent-missed p (q ∷ ps) [] l e i = absurd (ground (arith, l))
remove_parent-missed p (q ∷ ps) (d ∷ es) l e i = elim (Bool-cases (q == p)) [
  | inl h ↦ absurd (ground (arith, e, h))
  | inr h ↦ elim (Option-cases (remove_parent p ps es)) [
    | inl f ↦ elim i [
      | inl same ↦ absurd (ground (arith, h, same))
      | inr k ↦ remove_parent-missed p ps es (ground (arith, l)) f k
    ]
    | inr (r, f) ↦ absurd (ground (arith, e, h, f))
  ]
]
