-- ===== src/Optimizer/UnionFind/Classes.antt =====
-- The classes that `UFFind` and `UFUnion` of src/optimizer/robust_optimizer.cpp keep.
use robust.Prelude.{
  ℕ, suc, ◌≡◌, sym, ap, ◌∙◌, subst, inl, inr, none, some, arith, Option-cases, length,
}
use mathlib.Core.Option.{some-injective}
use robust.Column.{ColumnBinding, binding_eq_iff, binding_eq_refl}
use robust.Optimizer.UnionFind.{Parents, find_parent, put_parent, climb, uf_find}
use robust.Optimizer.UnionFind.Laws.{find_parent-put_parent, below-le-length}
use robust.Optimizer.UnionFind.Refines.{IsForest, IsFound, written, still_key, climb-IsFound}

own_parent : (m : Parents) (x : ColumnBinding) → find_parent x (put_parent x x m) ≡ some x
own_parent m x = ground (arith, find_parent-put_parent x x x m, binding_eq_refl x)

other_kept :
    (m : Parents) (x k p : ColumnBinding)
    → find_parent x m ≡ none
    → find_parent k m ≡ some p
    → find_parent k (put_parent x x m) ≡ some p
other_kept m x k p e f = ground (arith, e, f, find_parent-put_parent k x x m, binding_eq_iff x k)

uf_find-known :
    (m : Parents) (x p : ColumnBinding)
    → find_parent x m ≡ some p
    → uf_find m x ≡ climb (suc (length m)) m x
unfolding uf_find
uf_find-known m x p e = ground (arith, e)

uf_find-new :
    (m : Parents) (x : ColumnBinding)
    → find_parent x m ≡ none
    → uf_find m x ≡ climb (suc (length (put_parent x x m))) (put_parent x x m) x
unfolding uf_find
uf_find-new m x e = ground (arith, e)

-- a new key, alone in its class
add-IsForest :
    (rep : ColumnBinding → ColumnBinding) (height : ColumnBinding → ℕ) (m : Parents)
    (x : ColumnBinding)
    → IsForest m rep height
    → find_parent x m ≡ none
    → IsForest (put_parent x x m) rep height
add-IsForest rep height m x w new = record {
  closed = λ k r e. elim (written m x x k (some r) e) [
    | inl (_, e') ↦ (
      x,
      subst (λ (c : ColumnBinding). find_parent c (put_parent x x m) ≡ some x)
          (some-injective x r e') (own_parent m x),
    )
    | inr (_, e') ↦ let (s, f) = w.closed k r e' in still_key m x x r s f
  ];
  climbs = λ k r e. elim (written m x x k (some r) e) [
    | inl (e₀, e') ↦ inl (sym (some-injective x r e') ∙ e₀)
    | inr (_, e') ↦ w.climbs k r e'
  ];
  same = λ k r e. elim (written m x x k (some r) e) [
    | inl (e₀, e') ↦ ap rep (sym (some-injective x r e') ∙ e₀)
    | inr (_, e') ↦ w.same k r e'
  ];
  root = λ k e. elim (written m x x k (some k) e) [
    | inl (e₀, e') ↦ subst (λ (c : ColumnBinding). rep c ≡ c) e₀ (w.alone x new)
    | inr (_, e') ↦ w.root k e'
  ];
  alone = λ k e. elim (written m x x k none e) [
    | inl (_, e') ↦ absurd (ground (arith, e'))
    | inr (_, e') ↦ w.alone k e'
  ];
}

pub uf_find-IsFound :
    (rep : ColumnBinding → ColumnBinding) (height : ColumnBinding → ℕ) (m : Parents)
    (x : ColumnBinding)
    → IsForest m rep height
    → (m' : Parents) × (uf_find m x ≡ some (m', rep x)) × IsFound rep height m (rep x) m'
uf_find-IsFound rep height m x w = elim (Option-cases (find_parent x m)) [
  | inr (p, e) ↦
      let (m', ran, found) =
        climb-IsFound rep height (suc (length m)) m x p w e
          (ground (arith, below-le-length height (height x) m)) in
      (m', uf_find-known m x p e ∙ ran, found)
  | inl e ↦
      let m₁ = put_parent x x m in
      let (m', ran, found) =
        climb-IsFound rep height (suc (length m₁)) m₁ x x (add-IsForest rep height m x w e)
          (own_parent m x) (ground (arith, below-le-length height (height x) m₁)) in
      (
        m',
        uf_find-new m x e ∙ ran,
        record {
          forest = found.forest;
          roots = λ k t. found.roots k (other_kept m x k k e t);
          top = found.top;
        },
      )
]

-- The map keeps the classes that `rep` gives by their representatives.
unfoldable pub IsClasses : Parents → (ColumnBinding → ColumnBinding) → Type 0
IsClasses m rep = (height : ColumnBinding → ℕ) × IsForest m rep height

-- In a map that has classes a find ends, answers the representative of the column, and changes no class.
pub uf_find-IsClasses :
    (m : Parents) (rep : ColumnBinding → ColumnBinding) (x : ColumnBinding)
    → IsClasses m rep
    → (m' : Parents) × (uf_find m x ≡ some (m', rep x)) × IsClasses m' rep
unfolding IsClasses
uf_find-IsClasses m rep x (height, w) =
    let (m', ran, found) = uf_find-IsFound rep height m x w in (m', ran, (height, found.forest))
