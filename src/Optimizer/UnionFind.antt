-- ===== src/Optimizer/UnionFind.antt =====
-- `UFFind` and `UFUnion` of src/optimizer/robust_optimizer.cpp: the classes of columns that joins
-- make equal. A `ColKey` is a `ColumnBinding`.
pub mod Laws
pub mod Refines
pub mod Classes
pub mod Union
pub mod Closure
use robust.Prelude.{
  ℕ, zero, suc, ◌+◌, ◌-◌, ◌*◌, ◌/◌, ◌%◌, ◌^◌, ◌≤◌, ◌<◌, min, max, ◌≡◌, refl, sym, ap, ◌∙◌, subst,
  ◌≢◌, ◌↔◌, ◌⊎◌, inl, inr, Bool, true, false, not, ◌&&◌, ◌||◌, Option, none, some, List, [], ◌∷◌,
  ◌++◌, map, foldl, arith, ltb, leb, ◌==◌, if◌then◌else◌, ltb→lt, lt→ltb, ==_iff, ==_refl,
  Bool-cases, and-eq-true, Option-cases, ◌>>=◌, >>=-eq-some, length, get_elem?, get_or, set,
  replicate, is_empty, tail, length-append, length-set, In, All, All-In, In-append,
}
use robust.Column.{ColumnBinding, binding_eq}

-- The order of the map's keys, that of pairs.
unfoldable pub key_less : ColumnBinding → ColumnBinding → Bool
key_less a b =
    ltb a.table_index b.table_index
    || (a.table_index == b.table_index && ltb a.column_index b.column_index)

-- A `std::map`: a list in the order of its keys.
abbrev pub Parents : Type 0
Parents = List (ColumnBinding × ColumnBinding)

unfoldable pub find_parent : ColumnBinding → Parents → Option ColumnBinding
find_parent x [] = none
find_parent x ((k, p) ∷ rest) = if binding_eq k x then some p else find_parent x rest

unfoldable pub replace_parent : ColumnBinding → ColumnBinding → Parents → Parents
replace_parent x v [] = []
replace_parent x v ((k, p) ∷ rest) =
    if binding_eq k x then (k, v) ∷ rest else (k, p) ∷ replace_parent x v rest

unfoldable pub insert_parent : ColumnBinding → ColumnBinding → Parents → Parents
insert_parent x v [] = (x, v) ∷ []
insert_parent x v ((k, p) ∷ rest) =
    if key_less x k then (x, v) ∷ (k, p) ∷ rest else (k, p) ∷ insert_parent x v rest

-- `parent[x] = v`
unfoldable pub put_parent : ColumnBinding → ColumnBinding → Parents → Parents
put_parent x v parent = elim (find_parent x parent) [
  | none ↦ insert_parent x v parent
  | some _ ↦ replace_parent x v parent
]

-- `parent[x]` where it is read: a key that is missing is added with the pair of zeros.
unfoldable pub read_parent : ColumnBinding → Parents → Parents × ColumnBinding
read_parent x parent = elim (find_parent x parent) [
  | some p ↦ (parent, p)
  | none ↦
      let zeros : ColumnBinding = record { table_index = 0; column_index = 0 } in
      (put_parent x zeros parent, zeros)
]

-- the loop of `UFFind`, on fuel
unfoldable pub climb : ℕ → Parents → ColumnBinding → Option (Parents × ColumnBinding)
climb zero parent x = none
climb (suc fuel) parent x =
    let (parent₁, p) = read_parent x parent in
    let (parent₂, q) = read_parent p parent₁ in
    elim (binding_eq p x) [
      | true ↦ some (parent₁, x)
      | false ↦ climb fuel (put_parent x q parent₂) q
    ]

-- A round goes to the parent's parent, on a path that visits no key twice, so one round more than
-- there are keys is enough.
unfoldable pub uf_find : Parents → ColumnBinding → Option (Parents × ColumnBinding)
uf_find parent x =
    let known : Parents = elim (find_parent x parent) [
      | none ↦ put_parent x x parent
      | some _ ↦ parent
    ] in
    climb (suc (length known)) known x

unfoldable pub uf_union : Parents → ColumnBinding → ColumnBinding → Option Parents
uf_union parent a b = uf_find parent a >>= λ r.
    uf_find r.0 b >>= λ s. some (if binding_eq r.1 s.1 then s.0 else put_parent r.1 s.1 s.0)
