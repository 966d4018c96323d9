-- ===== src/Optimizer/UnionFind/Refines.antt =====
-- Union-find as a function from each column to the representative of its class: what `UFFind` and
-- `UFUnion` of src/optimizer/robust_optimizer.cpp implement.
use robust.Prelude.{
  ℕ, zero, suc, ◌<◌, ◌≡◌, sym, ap, ◌∙◌, subst, ◌⊎◌, inl, inr, false, Option, none, some, arith,
  Bool-cases,
}
use mathlib.Core.Option.{some-injective}
use robust.Column.{ColumnBinding, binding_eq, binding_eq_iff, binding_eq_refl}
use robust.Optimizer.UnionFind.{Parents, find_parent, put_parent, climb}
use robust.Optimizer.UnionFind.Laws.{
  find_parent-put_parent, read_parent-found, below, below_drops, below-put_parent,
}

-- The map is a forest, in which `rep` is the root above each column; a column that is no key is
-- alone in its class. The heights fall on each way down from a key, so no way is a cycle.
pub record IsForest (m : Parents) (rep : ColumnBinding → ColumnBinding) (height : ColumnBinding → ℕ)
    : Type 0 where
  pub closed :
      (k p : ColumnBinding)
      → find_parent k m ≡ some p
      → (q : ColumnBinding) × (find_parent p m ≡ some q)
  pub climbs : (k p : ColumnBinding) → find_parent k m ≡ some p → (p ≡ k) ⊎ (height p < height k)
  pub same : (k p : ColumnBinding) → find_parent k m ≡ some p → rep p ≡ rep k
  pub root : (k : ColumnBinding) → find_parent k m ≡ some k → rep k ≡ k
  pub alone : (k : ColumnBinding) → find_parent k m ≡ none → rep k ≡ k

-- What a find of a column with the representative `r` leaves: the same classes, with the roots
-- where they were.
pub record IsFound (rep : ColumnBinding → ColumnBinding) (height : ColumnBinding → ℕ) (m : Parents)
    (r : ColumnBinding) (m' : Parents) : Type 0 where
  pub forest : IsForest m' rep height
  pub roots : (k : ColumnBinding) → find_parent k m ≡ some k → find_parent k m' ≡ some k
  pub top : find_parent r m' ≡ some r

-- the reading of a map after one write
pub written :
    (m : Parents) (x v k : ColumnBinding) (r : Option ColumnBinding)
    → find_parent k (put_parent x v m) ≡ r
    → ((x ≡ k) × (some v ≡ r)) ⊎ ((binding_eq x k ≡ false) × (find_parent k m ≡ r))
written m x v k r e = elim (Bool-cases (binding_eq x k)) [
  | inl h ↦ inl ((binding_eq_iff x k).0 h, ground (arith, e, h, find_parent-put_parent k x v m))
  | inr h ↦ inr (h, ground (arith, e, h, find_parent-put_parent k x v m))
]

pub still_key :
    (m : Parents) (x v k p : ColumnBinding)
    → find_parent k m ≡ some p
    → (q : ColumnBinding) × (find_parent k (put_parent x v m) ≡ some q)
still_key m x v k p e = elim (Bool-cases (binding_eq x k)) [
  | inl h ↦ (v, ground (arith, h, find_parent-put_parent k x v m))
  | inr h ↦ (p, ground (arith, e, h, find_parent-put_parent k x v m))
]

climb-root :
    (fuel : ℕ) (m : Parents) (x : ColumnBinding)
    → find_parent x m ≡ some x
    → climb (suc fuel) m x ≡ some (m, x)
unfolding climb
climb-root fuel m x e = ground (arith, read_parent-found x x m e, binding_eq_refl x)

climb-step :
    (fuel : ℕ) (m : Parents) (x p q : ColumnBinding)
    → find_parent x m ≡ some p
    → find_parent p m ≡ some q
    → binding_eq p x ≡ false
    → climb (suc fuel) m x ≡ climb fuel (put_parent x q m) q
unfolding climb
climb-step fuel m x p q e f h =
    ground (arith, read_parent-found x p m e, read_parent-found p q m f, h)

root_kept :
    (m : Parents) (x v p k : ColumnBinding)
    → find_parent x m ≡ some p
    → binding_eq p x ≡ false
    → find_parent k m ≡ some k
    → find_parent k (put_parent x v m) ≡ some k
root_kept m x v p k e h t = elim (Bool-cases (binding_eq x k)) [
  | inl same ↦ absurd (ground (arith, h, e, t, (binding_eq_iff x k).0 same, (binding_eq_iff p x).1))
  | inr apart ↦ ground (arith, t, apart, find_parent-put_parent k x v m)
]

module _ (rep : ColumnBinding → ColumnBinding) (height : ColumnBinding → ℕ) where
  -- a key is hung under a lower key of its class
  hang-IsForest :
      (m : Parents) (x v p q : ColumnBinding)
      → IsForest m rep height
      → find_parent x m ≡ some p
      → find_parent v m ≡ some q
      → height v < height x
      → rep v ≡ rep x
      → IsForest (put_parent x v m) rep height
  hang-IsForest m x v p q w ex ev lower class = record {
    closed = λ k r e. elim (written m x v k (some r) e) [
      | inl (_, e') ↦
          let e₁ : v ≡ r = some-injective v r e' in
          subst
            (λ (c : ColumnBinding).
              (s : ColumnBinding) × (find_parent c (put_parent x v m) ≡ some s))
            e₁ (still_key m x v v q ev)
      | inr (_, e') ↦ let (s, f) = w.closed k r e' in still_key m x v r s f
    ];
    climbs = λ k r e. elim (written m x v k (some r) e) [
      | inl (e₀, e') ↦
          let e₁ : height v ≡ height r = ap height (some-injective v r e') in
          let e₂ : height x ≡ height k = ap height e₀ in inr (ground (arith, e₁, e₂, lower))
      | inr (_, e') ↦ w.climbs k r e'
    ];
    same = λ k r e. elim (written m x v k (some r) e) [
      | inl (e₀, e') ↦ ap rep (sym (some-injective v r e')) ∙ class ∙ ap rep e₀
      | inr (_, e') ↦ w.same k r e'
    ];
    root = λ k e. elim (written m x v k (some k) e) [
      | inl (e₀, e') ↦
          let e₁ : height v ≡ height k = ap height (some-injective v k e') in
          let e₂ : height x ≡ height k = ap height e₀ in absurd (ground (arith, e₁, e₂, lower))
      | inr (_, e') ↦ w.root k e'
    ];
    alone = λ k e. elim (written m x v k none e) [
      | inl (_, e') ↦ absurd (ground (arith, e'))
      | inr (_, e') ↦ w.alone k e'
    ];
  }

  lower_twice :
      (m : Parents) (x p q : ColumnBinding)
      → IsForest m rep height
      → binding_eq p x ≡ false
      → find_parent x m ≡ some p
      → find_parent p m ≡ some q
      → height q < height x
  lower_twice m x p q w h e f = elim (w.climbs x p e) [
    | inl same ↦ absurd (ground (arith, h, (binding_eq_iff p x).1 same))
    | inr once ↦ elim (w.climbs p q f) [
      | inl same ↦ let at : height q ≡ height p = ap height same in ground (arith, once, at)
      | inr twice ↦ ground (arith, once, twice)
    ]
  ]

  pub climb-IsFound :
      (fuel : ℕ) (m : Parents) (x p : ColumnBinding)
      → IsForest m rep height
      → find_parent x m ≡ some p
      → below height (height x) m < fuel
      → (m' : Parents) × (climb fuel m x ≡ some (m', rep x)) × IsFound rep height m (rep x) m'
  climb-IsFound zero m x p w e bound = absurd (ground (arith, bound))
  climb-IsFound (suc fuel) m x p w e bound = elim (Bool-cases (binding_eq p x)) [
    | inl h ↦
        let top : find_parent x m ≡ some x = e ∙ ap some ((binding_eq_iff p x).0 h) in
        subst
          (λ (r : ColumnBinding).
            (m' : Parents) × (climb (suc fuel) m x ≡ some (m', r)) × IsFound rep height m r m')
          (sym (w.root x top))
          (m, climb-root fuel m x top, record { forest = w; roots = λ k t. t; top = top })
    | inr h ↦
        let (q, f) = w.closed x p e in
        let (s, g) = w.closed p q f in
        let lower : height q < height x = lower_twice m x p q w h e f in
        let class : rep q ≡ rep x = w.same p q f ∙ w.same x p e in
        let w₁ = hang-IsForest m x q p s w e g lower class in
        let (s₁, g₁) = still_key m x q q s g in
        let drop = below_drops height (height x) q s m g lower in
        let kept = below-put_parent height (height q) x q p m e in
        let (m', ran, found) =
          climb-IsFound fuel (put_parent x q m) q s₁ w₁ g₁ (ground (arith, drop, kept, bound)) in
        subst
          (λ (r : ColumnBinding).
            (m' : Parents) × (climb (suc fuel) m x ≡ some (m', r)) × IsFound rep height m r m')
          class
          (
            m',
            climb-step fuel m x p q e f h ∙ ran,
            record {
              forest = found.forest;
              roots = λ k t. found.roots k (root_kept m x q p k e h t);
              top = found.top;
            },
          )
  ]
