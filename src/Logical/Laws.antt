-- ===== src/Logical/Laws.antt =====
-- What the indices that `CreatePlan` resolves point at, for src/operators/logical_create_filter.cpp
-- and src/operators/logical_probe_filter.cpp.
use robust.Prelude.{
  ℕ, zero, suc, ◌≡◌, refl, sym, ◌⊎◌, inl, inr, none, some, List, [], ◌∷◌, map, arith, Bool-cases,
  Option-cases, get_elem?, In,
}
use robust.Column.{ColumnBinding, binding_eq, binding_eq_iff}
use robust.Logical.{position, resolve_columns}

-- `found` are the wanted columns that are among the child's columns, in their order.
unfoldable pub IsFound : List ColumnBinding → List ColumnBinding → List ColumnBinding → Type 0
IsFound child [] found = found ≡ []
IsFound child (c ∷ cols) found =
    (In c child × (rest : List ColumnBinding) × (found ≡ c ∷ rest) × IsFound child cols rest)
    ⊎ ((In c child → ⊥) × IsFound child cols found)

pub position-get_elem? :
    (child : List ColumnBinding) (c : ColumnBinding) (i : ℕ)
    → position child c ≡ some i
    → get_elem? child i ≡ some c
unfolding position
position-get_elem? [] c i e = ground (arith, e)
position-get_elem? (b ∷ bs) c i e = elim (Bool-cases (binding_eq b c)) [
  | inl h ↦ ground (arith, e, h, (binding_eq_iff b c).0 h)
  | inr h ↦ elim (Option-cases (position bs c)) [
    | inl n ↦ ground (arith, e, h, n)
    | inr (j, n) ↦ ground (arith, e, h, n, position-get_elem? bs c j n)
  ]
]

position_missed :
    (child : List ColumnBinding) (c : ColumnBinding) → position child c ≡ none → In c child → ⊥
unfolding position
position_missed [] c e m = m
position_missed (b ∷ bs) c e m = elim (Bool-cases (binding_eq b c)) [
  | inl h ↦ absurd (ground (arith, e, h))
  | inr h ↦ elim m [
    | inl same ↦ absurd (ground (arith, h, (binding_eq_iff b c).1 (sym same)))
    | inr k ↦ elim (Option-cases (position bs c)) [
      | inl n ↦ position_missed bs c n k
      | inr (j, n) ↦ absurd (ground (arith, e, h, n))
    ]
  ]
]

pub In-get_elem? :
    (xs : List ColumnBinding) (i : ℕ) (c : ColumnBinding) → get_elem? xs i ≡ some c → In c xs
In-get_elem? [] i c e = absurd (ground (arith, e))
In-get_elem? (x ∷ xs) zero c e = inl (ground (arith, e))
In-get_elem? (x ∷ xs) (suc i) c e = inr (In-get_elem? xs i c e)

pub position_found :
    (child : List ColumnBinding) (c : ColumnBinding)
    → In c child
    → (i : ℕ) × (position child c ≡ some i)
position_found child c m = elim (Option-cases (position child c)) [
  | inl e ↦ absurd (position_missed child c e m)
  | inr found ↦ found
]

-- The resolved indices point at exactly those of the wanted columns that are among the child's columns,
-- in their order.
pub resolve_columns-IsFound :
    (child cols : List ColumnBinding)
    → (found : List ColumnBinding) × IsFound child cols found
      × (map (get_elem? child) (resolve_columns child cols) ≡ map some found)
unfolding resolve_columns IsFound
resolve_columns-IsFound child [] = ([], refl, refl)
resolve_columns-IsFound child (c ∷ cols) =
    let (found, ok, same) = resolve_columns-IsFound child cols in
    elim (Option-cases (position child c)) [
      | inl e ↦ (found, inr (position_missed child c e, ok), ground (arith, e, same))
      | inr (i, e) ↦
          let at = position-get_elem? child c i e in
          (c ∷ found, inl (In-get_elem? child i c at, found, refl, ok), ground (arith, e, same, at))
    ]
