-- ===== src/Optimizer/UnionFind/Union.antt =====
-- The union of two classes by `UFUnion` of src/optimizer/robust_optimizer.cpp, and what a sequence of
-- unions makes equal.
use robust.Prelude.{
  ℕ, suc, ◌+◌, ◌<◌, ◌≡◌, refl, sym, ap, ◌∙◌, subst, inl, inr, true, false, none, some, arith,
  if◌then◌else◌, Bool-cases,
}
use mathlib.Core.Option.{some-injective}
use robust.Column.{ColumnBinding, binding_eq, binding_eq_iff}
use robust.Optimizer.UnionFind.{Parents, find_parent, put_parent, uf_find, uf_union}
use robust.Optimizer.UnionFind.Refines.{IsForest, written, still_key}
use robust.Optimizer.UnionFind.Classes.{uf_find-IsFound, IsClasses}

-- the classes with those of `a` and `b` made one
abbrev pub merge :
    (ColumnBinding → ColumnBinding) → ColumnBinding → ColumnBinding → ColumnBinding → ColumnBinding
merge rep a b y = if binding_eq (rep y) (rep a) then rep b else rep y

abbrev raise_class :
    (ColumnBinding → ColumnBinding)
    → (ColumnBinding → ℕ)
    → ColumnBinding
    → ColumnBinding
    → ColumnBinding
    → ℕ
raise_class rep height a b y =
    if binding_eq (rep y) (rep a) then height y + suc (height (rep b)) else height y

merge-cong :
    (rep : ColumnBinding → ColumnBinding) (a b p k : ColumnBinding)
    → rep p ≡ rep k
    → merge rep a b p ≡ merge rep a b k
merge-cong rep a b p k e = ap (λ (r : ColumnBinding). if binding_eq r (rep a) then rep b else r) e

raise_class_mono :
    (rep : ColumnBinding → ColumnBinding) (height : ColumnBinding → ℕ) (a b p k : ColumnBinding)
    → rep p ≡ rep k
    → height p < height k
    → raise_class rep height a b p < raise_class rep height a b k
raise_class_mono rep height a b p k e h =
    let same : binding_eq (rep p) (rep a) ≡ binding_eq (rep k) (rep a) =
      ap (λ (r : ColumnBinding). binding_eq r (rep a)) e in
    ground (arith, same, h)

module _ (rep : ColumnBinding → ColumnBinding) (height : ColumnBinding → ℕ) (m : Parents)
    (a b : ColumnBinding) (w : IsForest m rep height) (top_a : find_parent (rep a) m ≡ some (rep a))
    (top_b : find_parent (rep b) m ≡ some (rep b))
    (apart : binding_eq (rep a) (rep b) ≡ false) where
  hung_lower : raise_class rep height a b (rep b) < raise_class rep height a b (rep a)
  hung_lower =
      let ra : binding_eq (rep (rep a)) (rep a) ≡ true =
        (binding_eq_iff (rep (rep a)) (rep a)).1 (w.root (rep a) top_a) in
      let rb : rep (rep b) ≡ rep b = w.root (rep b) top_b in
      let other : binding_eq (rep (rep b)) (rep a) ≡ false =
        subst (λ (r : ColumnBinding). binding_eq r (rep a) ≡ false) (sym rb)
          (ground (arith, apart, binding_eq_iff (rep a) (rep b), binding_eq_iff (rep b) (rep a))) in
      ground (arith, ra, other)

  hung_same : merge rep a b (rep b) ≡ merge rep a b (rep a)
  hung_same =
      let ra : binding_eq (rep (rep a)) (rep a) ≡ true =
        (binding_eq_iff (rep (rep a)) (rep a)).1 (w.root (rep a) top_a) in
      ground (arith, ra, w.root (rep b) top_b)

  merged_root : (k : ColumnBinding) → rep k ≡ k → binding_eq (rep a) k ≡ false → merge rep a b k ≡ k
  merged_root k e h = ground (arith, e, h, binding_eq_iff (rep k) (rep a), binding_eq_iff (rep a) k)

  union-IsForest :
      IsForest (put_parent (rep a) (rep b) m) (merge rep a b) (raise_class rep height a b)
  union-IsForest = record {
    closed = λ k r e. elim (written m (rep a) (rep b) k (some r) e) [
      | inl (_, e') ↦
          subst
            (λ (c : ColumnBinding).
              (s : ColumnBinding) × (find_parent c (put_parent (rep a) (rep b) m) ≡ some s))
            (some-injective (rep b) r e') (still_key m (rep a) (rep b) (rep b) (rep b) top_b)
      | inr (_, e') ↦ let (s, f) = w.closed k r e' in still_key m (rep a) (rep b) r s f
    ];
    climbs = λ k r e. elim (written m (rep a) (rep b) k (some r) e) [
      | inl (e₀, e') ↦
          let at_r = ap (raise_class rep height a b) (some-injective (rep b) r e') in
          let at_k = ap (raise_class rep height a b) e₀ in
          inr (
            subst (λ (n : ℕ). n < raise_class rep height a b k) at_r
              (subst (λ (n : ℕ). raise_class rep height a b (rep b) < n) at_k hung_lower))
      | inr (_, e') ↦ elim (w.climbs k r e') [
        | inl top ↦ inl top
        | inr lower ↦ inr (raise_class_mono rep height a b r k (w.same k r e') lower)
      ]
    ];
    same = λ k r e. elim (written m (rep a) (rep b) k (some r) e) [
      | inl (e₀, e') ↦
          ap (merge rep a b) (sym (some-injective (rep b) r e')) ∙ hung_same ∙ ap (merge rep a b) e₀
      | inr (_, e') ↦ merge-cong rep a b r k (w.same k r e')
    ];
    root = λ k e. elim (written m (rep a) (rep b) k (some k) e) [
      | inl (e₀, e') ↦ absurd (
          ground (
            arith,
            apart,
            (binding_eq_iff (rep a) (rep b)).1 (e₀ ∙ sym (some-injective (rep b) k e')),
          ))
      | inr (h, e') ↦ merged_root k (w.root k e') h
    ];
    alone = λ k e. elim (written m (rep a) (rep b) k none e) [
      | inl (_, e') ↦ absurd (ground (arith, e'))
      | inr (h, e') ↦ merged_root k (w.alone k e') h
    ];
  }

merge-same :
    (rep : ColumnBinding → ColumnBinding) (a b y : ColumnBinding)
    → rep a ≡ rep b
    → rep y ≡ merge rep a b y
merge-same rep a b y e = ground (arith, e, binding_eq_iff (rep y) (rep a))

uf_union-runs :
    (m m₁ m₂ : Parents) (a b ra rb : ColumnBinding)
    → uf_find m a ≡ some (m₁, ra)
    → uf_find m₁ b ≡ some (m₂, rb)
    → uf_union m a b ≡ some (if binding_eq ra rb then m₂ else put_parent ra rb m₂)
unfolding uf_union
uf_union-runs m m₁ m₂ a b ra rb e f = rw (e, f) refl

-- In a map that has classes a union ends, and makes the classes of its two columns one; all others stay.
pub uf_union-IsClasses :
    (m : Parents) (rep : ColumnBinding → ColumnBinding) (a b : ColumnBinding)
    → IsClasses m rep
    → (m' : Parents) × (uf_union m a b ≡ some m') × IsClasses m' (merge rep a b)
unfolding IsClasses
uf_union-IsClasses m rep a b (height, w) =
    let (m₁, ran₁, f₁) = uf_find-IsFound rep height m a w in
    let (m₂, ran₂, f₂) = uf_find-IsFound rep height m₁ b f₁.forest in
    let ran = uf_union-runs m m₁ m₂ a b (rep a) (rep b) ran₁ ran₂ in
    elim (Bool-cases (binding_eq (rep a) (rep b))) [
      | inl same ↦
          let e = (binding_eq_iff (rep a) (rep b)).0 same in
          (
            m₂,
            rw same at ran,
            (
              height,
              subst (λ (r : ColumnBinding → ColumnBinding). IsForest m₂ r height)
                  (λ i y. merge-same rep a b y e i) f₂.forest,
            ),
          )
      | inr apart ↦ (
        put_parent (rep a) (rep b) m₂,
        rw apart at ran,
        (
          raise_class rep height a b,
          union-IsForest rep height m₂ a b f₂.forest (f₂.roots (rep a) f₁.top) f₂.top apart,
        ),
      )
    ]
