-- ===== src/Optimizer/Operations/Laws.antt =====
-- Operations written into the maps of src/optimizer/robust_optimizer.cpp, and read again.
use robust.Prelude.{
  ℕ, zero, suc, ◌≡◌, refl, ◌⊎◌, inl, inr, ◌&&◌, some, List, [], ◌∷◌, ◌++◌, arith, ◌==◌,
  if◌then◌else◌, Bool-cases, ◌>>=◌, length, get_elem?,
}
use mathlib.Core.Option.{some-injective}
use robust.Column.{FilterOperation}
use robust.Optimizer.Stack.{OpMap, find_ops}
use robust.Optimizer.Operations.{push_op, count_ops, change_at, change_op, op_at}

get_elem?-push :
    (ops : List FilterOperation) (op o : FilterOperation) (i : ℕ)
    → get_elem? ops i ≡ some o
    → get_elem? (ops ++ op ∷ []) i ≡ some o
get_elem?-push [] op o i e = absurd (ground (arith, e))
get_elem?-push (p ∷ ops) op o zero e = e
get_elem?-push (p ∷ ops) op o (suc i) e = get_elem?-push ops op o i e

get_elem?-pushed :
    (ops : List FilterOperation) (op o : FilterOperation) (i : ℕ)
    → get_elem? (ops ++ op ∷ []) i ≡ some o
    → (get_elem? ops i ≡ some o) ⊎ (op ≡ o)
get_elem?-pushed [] op o zero e = inr (some-injective op o e)
get_elem?-pushed [] op o (suc i) e = absurd (ground (arith, e))
get_elem?-pushed (p ∷ ops) op o zero e = inl e
get_elem?-pushed (p ∷ ops) op o (suc i) e = get_elem?-pushed ops op o i e

get_elem?-last :
    (ops : List FilterOperation) (op : FilterOperation)
    → get_elem? (ops ++ op ∷ []) (length ops) ≡ some op
get_elem?-last [] op = refl
get_elem?-last (p ∷ ops) op = get_elem?-last ops op

-- An operation stays where it is when another is appended.
pub op_at-push_op :
    (m : OpMap) (k j i : ℕ) (op o : FilterOperation)
    → op_at m j i ≡ some o
    → op_at (push_op k op m) j i ≡ some o
unfolding op_at push_op find_ops
op_at-push_op [] k j i op o e = absurd (ground (arith, e))
op_at-push_op ((l, ops) ∷ m) k j i op o e =
    ground (arith, e, get_elem?-push ops op o i, op_at-push_op m k j i op o)

-- the operation that was appended
pub op_at-pushed_op :
    (m : OpMap) (k : ℕ) (op : FilterOperation) → op_at (push_op k op m) k (count_ops k m) ≡ some op
unfolding op_at push_op find_ops count_ops
op_at-pushed_op [] k op = ground (arith)
op_at-pushed_op ((l, ops) ∷ m) k op = ground (arith, get_elem?-last ops op, op_at-pushed_op m k op)

-- Whatever is read after an append was there, or is the new operation.
pub push_op-cases :
    (m : OpMap) (k j i : ℕ) (op o : FilterOperation)
    → op_at (push_op k op m) j i ≡ some o
    → (op_at m j i ≡ some o) ⊎ ((j ≡ k) × (op ≡ o))
unfolding op_at push_op find_ops
push_op-cases [] k j i op o e = elim (Bool-cases (k == j)) [
  | inl h ↦ inr (
    ground (arith, h),
    elim (get_elem?-pushed [] op o i (ground (arith, e, h))) [
      | inl f ↦ absurd (ground (arith, f))
      | inr f ↦ f
    ],
  )
  | inr h ↦ absurd (ground (arith, e, h))
]
push_op-cases ((l, ops) ∷ m) k j i op o e = elim (Bool-cases (l == k)) [
  | inl h ↦ elim (Bool-cases (l == j)) [
    | inl h' ↦ elim (get_elem?-pushed ops op o i (ground (arith, e, h, h'))) [
      | inl f ↦ inl (ground (arith, f, h, h'))
      | inr f ↦ inr (ground (arith, h, h'), f)
    ]
    | inr h' ↦ inl (ground (arith, e, h, h'))
  ]
  | inr h ↦ elim (Bool-cases (l == j)) [
    | inl h' ↦ inl (ground (arith, e, h, h'))
    | inr h' ↦ elim (push_op-cases m k j i op o (ground (arith, e, h, h'))) [
      | inl f ↦ inl (ground (arith, f, h, h'))
      | inr f ↦ inr f
    ]
  ]
]

get_elem?-change_at :
    (ops : List FilterOperation) (i j : ℕ) (f : FilterOperation → FilterOperation)
    → get_elem? (change_at i f ops) j
      ≡ (if i == j then (get_elem? ops j >>= λ o. some (f o)) else get_elem? ops j)
unfolding change_at
get_elem?-change_at [] i j f = ground arith
get_elem?-change_at (o ∷ ops) zero zero f = refl
get_elem?-change_at (o ∷ ops) zero (suc j) f = ground arith
get_elem?-change_at (o ∷ ops) (suc i) zero f = ground arith
get_elem?-change_at (o ∷ ops) (suc i) (suc j) f = ground (arith, get_elem?-change_at ops i j f)

pub op_at-change_op :
    (m : OpMap) (k i l j : ℕ) (f : FilterOperation → FilterOperation)
    → op_at (change_op k i f m) l j
      ≡ (if k == l && i == j then (op_at m l j >>= λ o. some (f o)) else op_at m l j)
unfolding op_at change_op find_ops
op_at-change_op [] k i l j f = ground arith
op_at-change_op ((h, ops) ∷ m) k i l j f =
    ground (arith, get_elem?-change_at ops i j f, op_at-change_op m k i l j f)
