-- ===== src/Optimizer/UnionFind/Laws.antt =====
-- The map under the loop of `UFFind` of src/optimizer/robust_optimizer.cpp.
use robust.Prelude.{
  ℕ, suc, ◌≤◌, ◌<◌, ◌≡◌, refl, ap, inl, inr, none, some, [], ◌∷◌, arith, ltb, if◌then◌else◌,
  Bool-cases, Option-cases, length,
}
use robust.Column.{ColumnBinding, binding_eq, binding_eq_iff}
use robust.Optimizer.UnionFind.{
  Parents, find_parent, replace_parent, insert_parent, put_parent, read_parent,
}

find_parent-insert_parent :
    (y x v : ColumnBinding) (m : Parents)
    → find_parent x m ≡ none
    → find_parent y (insert_parent x v m) ≡ (if binding_eq x y then some v else find_parent y m)
unfolding find_parent insert_parent
find_parent-insert_parent y x v [] e = refl
find_parent-insert_parent y x v ((k, p) ∷ m) e = ground (
  arith,
  e,
  find_parent-insert_parent y x v m,
  binding_eq_iff x y,
  binding_eq_iff k y,
  binding_eq_iff k x,
)

find_parent-replace_parent :
    (y x v p : ColumnBinding) (m : Parents)
    → find_parent x m ≡ some p
    → find_parent y (replace_parent x v m) ≡ (if binding_eq x y then some v else find_parent y m)
unfolding find_parent replace_parent
find_parent-replace_parent y x v q [] e = ground (arith, e)
find_parent-replace_parent y x v q ((k, p) ∷ m) e = ground (
  arith,
  e,
  find_parent-replace_parent y x v q m,
  binding_eq_iff x y,
  binding_eq_iff k y,
  binding_eq_iff k x,
)

pub find_parent-put_parent :
    (y x v : ColumnBinding) (m : Parents)
    → find_parent y (put_parent x v m) ≡ (if binding_eq x y then some v else find_parent y m)
unfolding put_parent
find_parent-put_parent y x v m = elim (Option-cases (find_parent x m)) [
  | inl e ↦ ground (arith, e, find_parent-insert_parent y x v m e)
  | inr (p, e) ↦ ground (arith, e, find_parent-replace_parent y x v p m e)
]

pub read_parent-found :
    (x p : ColumnBinding) (m : Parents) → find_parent x m ≡ some p → read_parent x m ≡ (m, p)
unfolding read_parent
read_parent-found x p m e = ground (arith, e)

-- the keys that stand lower than `n`
unfoldable pub below : (ColumnBinding → ℕ) → ℕ → Parents → ℕ
below height n [] = 0
below height n ((k, p) ∷ m) = if ltb (height k) n then suc (below height n m) else below height n m

pub below-le-length :
    (height : ColumnBinding → ℕ) (n : ℕ) (m : Parents) → below height n m ≤ length m
unfolding below
below-le-length height n [] = ground arith
below-le-length height n ((k, p) ∷ m) = ground (arith, below-le-length height n m)

below_mono :
    (height : ColumnBinding → ℕ) (i n : ℕ) (m : Parents)
    → i ≤ n
    → below height i m ≤ below height n m
unfolding below
below_mono height i n [] h = ground arith
below_mono height i n ((k, p) ∷ m) h = ground (arith, h, below_mono height i n m)

pub below_drops :
    (height : ColumnBinding → ℕ) (n : ℕ) (x q : ColumnBinding) (m : Parents)
    → find_parent x m ≡ some q
    → height x < n
    → below height (height x) m < below height n m
unfolding below find_parent
below_drops height n x q [] e h = ground (arith, e)
below_drops height n x q ((k, p) ∷ m) e h = elim (Bool-cases (binding_eq k x)) [
  | inl same ↦
      let at : height k ≡ height x = ap height ((binding_eq_iff k x).0 same) in
      ground (arith, h, at, below_mono height (height x) n m)
  | inr apart ↦
      ground (arith, e, h, apart, below_drops height n x q m, below_mono height (height x) n m)
]

below-replace_parent :
    (height : ColumnBinding → ℕ) (n : ℕ) (x v : ColumnBinding) (m : Parents)
    → below height n (replace_parent x v m) ≡ below height n m
unfolding below replace_parent
below-replace_parent height n x v [] = refl
below-replace_parent height n x v ((k, p) ∷ m) = ground (arith, below-replace_parent height n x v m)

pub below-put_parent :
    (height : ColumnBinding → ℕ) (n : ℕ) (x v p : ColumnBinding) (m : Parents)
    → find_parent x m ≡ some p
    → below height n (put_parent x v m) ≡ below height n m
unfolding put_parent
below-put_parent height n x v p m e = ground (arith, e, below-replace_parent height n x v m)
