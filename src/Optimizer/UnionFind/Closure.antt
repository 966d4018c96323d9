-- ===== src/Optimizer/UnionFind/Closure.antt =====
-- A sequence of calls of `UFUnion` of src/optimizer/robust_optimizer.cpp, and the equivalence that it
-- builds.
use robust.Prelude.{
  ◌≡◌, refl, sym, ap, ◌∙◌, ◌↔◌, inl, inr, Option, some, List, [], ◌∷◌, arith, if◌then◌else◌,
  Bool-cases, ◌>>=◌, In,
}
use robust.Column.{ColumnBinding, binding_eq, binding_eq_iff}
use robust.Optimizer.UnionFind.{Parents, find_parent, uf_union}
use robust.Optimizer.UnionFind.Classes.{IsClasses}
use robust.Optimizer.UnionFind.Union.{merge, uf_union-IsClasses}

-- the unions of the two columns of one join condition after the other
pub union_all : Parents → List (ColumnBinding × ColumnBinding) → Option Parents
union_all m [] = some m
union_all m ((a, b) ∷ pairs) = uf_union m a b >>= λ m'. union_all m' pairs

-- The least equivalence that holds of columns of one class already, and of the pairs.
pub data Linked (rep : ColumnBinding → ColumnBinding) (pairs : List (ColumnBinding × ColumnBinding))
    : ColumnBinding → ColumnBinding → Type 0 where
  already : {x y : ColumnBinding} → rep x ≡ rep y → Linked rep pairs x y
  joined : {x y : ColumnBinding} → In (x, y) pairs → Linked rep pairs x y
  back : {x y : ColumnBinding} → Linked rep pairs x y → Linked rep pairs y x
  through :
      {x y z : ColumnBinding} → Linked rep pairs x y → Linked rep pairs y z → Linked rep pairs x z

module _ (rep : ColumnBinding → ColumnBinding) (a b : ColumnBinding)
    (pairs : List (ColumnBinding × ColumnBinding)) where
  merged-Linked :
      (x y : ColumnBinding) → merge rep a b x ≡ merge rep a b y → Linked rep ((a, b) ∷ pairs) x y
  merged-Linked x y e = elim (Bool-cases (binding_eq (rep x) (rep a))) [
    | inl hx ↦
        let to_b : Linked rep ((a, b) ∷ pairs) x b =
          through (already ((binding_eq_iff (rep x) (rep a)).0 hx)) (joined (inl refl)) in
        elim (Bool-cases (binding_eq (rep y) (rep a))) [
          | inl hy ↦
              through to_b (
                back
                  (through (already ((binding_eq_iff (rep y) (rep a)).0 hy)) (joined (inl refl))))
          | inr hy ↦ through to_b (already (ground (arith, e, hx, hy)))
        ]
    | inr hx ↦ elim (Bool-cases (binding_eq (rep y) (rep a))) [
      | inl hy ↦
          through (already {y = b} (ground (arith, e, hx, hy)))
            (back (through (already ((binding_eq_iff (rep y) (rep a)).0 hy)) (joined (inl refl))))
      | inr hy ↦ already (ground (arith, e, hx, hy))
    ]
  ]

  ends-merged : merge rep a b a ≡ merge rep a b b
  ends-merged = ground (arith, (binding_eq_iff (rep a) (rep a)).1 refl)

  widened :
      {x y : ColumnBinding} → Linked (merge rep a b) pairs x y → Linked rep ((a, b) ∷ pairs) x y
  widened (already {x} {y} e) = merged-Linked x y e
  widened (joined i) = joined (inr i)
  widened (back l) = back (widened l)
  widened (through l k) = through (widened l) (widened k)

  narrowed :
      {x y : ColumnBinding} → Linked rep ((a, b) ∷ pairs) x y → Linked (merge rep a b) pairs x y
  narrowed (already e) =
      already (ap (λ (r : ColumnBinding). if binding_eq r (rep a) then rep b else r) e)
  narrowed (joined {x} {y} (inl e)) = already (
      ap (λ (p : ColumnBinding × ColumnBinding). merge rep a b p.0) e
      ∙ ends-merged
      ∙ sym (ap (λ (p : ColumnBinding × ColumnBinding). merge rep a b p.1) e))
  narrowed (joined (inr i)) = joined i
  narrowed (back l) = back (narrowed l)
  narrowed (through l k) = through (narrowed l) (narrowed k)

no_pairs :
    {rep : ColumnBinding → ColumnBinding} {x y : ColumnBinding} → Linked rep [] x y → rep x ≡ rep y
no_pairs (already e) = e
no_pairs (joined i) = absurd i
no_pairs (back l) = sym (no_pairs l)
no_pairs (through l k) = no_pairs l ∙ no_pairs k

union_all-Linked_from :
    (m : Parents) (rep : ColumnBinding → ColumnBinding)
    (pairs : List (ColumnBinding × ColumnBinding))
    → IsClasses m rep
    → (m' : Parents) × (rep' : ColumnBinding → ColumnBinding) × (union_all m pairs ≡ some m')
      × IsClasses m' rep'
      × ((x y : ColumnBinding) → (rep' x ≡ rep' y) ↔ Linked rep pairs x y)
unfolding union_all
union_all-Linked_from m rep [] w = (m, rep, refl, w, λ x y. (λ e. already e, λ l. no_pairs l))
union_all-Linked_from m rep ((a, b) ∷ pairs) w =
    let (m₁, ran, w₁) = uf_union-IsClasses m rep a b w in
    let (m', rep', rest, w', iff) = union_all-Linked_from m₁ (merge rep a b) pairs w₁ in
    (
      m',
      rep',
      rw (ran) rest,
      w',
      λ x y.
          (λ e. widened rep a b pairs ((iff x y).0 e), λ l. (iff x y).1 (narrowed rep a b pairs l)),
    )

pub empty-IsClasses : IsClasses [] (λ x. x)
unfolding IsClasses find_parent
empty-IsClasses = (
  λ x. 0,
  record {
    closed = λ k p e. absurd (ground (arith, e));
    climbs = λ k p e. absurd (ground (arith, e));
    same = λ k p e. absurd (ground (arith, e));
    root = λ k e. refl;
    alone = λ k e. refl;
  },
)

-- From the empty map any sequence of unions ends. Afterwards two columns have the same
-- representative exactly when the pairs link them, directly, backwards or through others; the
-- representative is the one that every find answers.
pub union_all-Linked :
    (pairs : List (ColumnBinding × ColumnBinding))
    → (m : Parents) × (rep : ColumnBinding → ColumnBinding) × (union_all [] pairs ≡ some m)
      × IsClasses m rep
      × ((x y : ColumnBinding) → (rep x ≡ rep y) ↔ Linked (λ c. c) pairs x y)
union_all-Linked pairs = union_all-Linked_from [] (λ x. x) pairs empty-IsClasses
