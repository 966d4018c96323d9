-- ===== src/Table/Laws.antt =====
-- What `AddTableOperator` of src/optimizer/table_manager.cpp keeps.
use mathlib.Core.Option.{some-injective}
use robust.Prelude.{
  ℕ, ◌≡◌, refl, sym, ap, ◌∙◌, subst, inl, inr, false, none, some, List, [], ◌∷◌, ◌++◌, map, arith,
  ◌==◌, Bool-cases, Option-cases, >>=-eq-some, All,
}
use robust.Table.{
  Plan, TableInfo, TableManager, find_table, put_table, add_table, register, add_table_operator,
  scalar_table_index, node_id, node_cardinality, invalid_index,
}

abbrev pub IsUnique : List (ℕ × TableInfo) → Type 0
IsUnique [] = Unit {0}
IsUnique ((k, info) ∷ rest) = (find_table k rest ≡ none) × IsUnique rest

-- The map and the vector hold the same entries in the order of their registration, each under its
-- own index, which is valid, and no index twice.
pub record IsConsistent (m : TableManager) : Type 0 where
  pub same_entries : m.table_ops ≡ map (λ (kv : ℕ × TableInfo). kv.1) m.table_lookup
  pub keyed :
      All
        (λ (kv : ℕ × TableInfo). (kv.1.table_idx ≡ kv.0) × ((kv.0 == invalid_index) ≡ false))
        m.table_lookup
  pub unique : IsUnique m.table_lookup

put_table-new :
    (t : ℕ) (info : TableInfo) (l : List (ℕ × TableInfo))
    → find_table t l ≡ none
    → put_table t info l ≡ l ++ (t, info) ∷ []
unfolding put_table find_table
put_table-new t info [] e = refl
put_table-new t info ((k, old) ∷ rest) e = ground (arith, e, put_table-new t info rest)

find_table-append :
    (k t : ℕ) (info : TableInfo) (l : List (ℕ × TableInfo))
    → find_table k l ≡ none
    → (k == t) ≡ false
    → find_table k (l ++ (t, info) ∷ []) ≡ none
unfolding find_table
find_table-append k t info [] e h = ground (arith, h)
find_table-append k t info ((j, old) ∷ rest) e h =
    ground (arith, e, h, find_table-append k t info rest)

IsUnique-append :
    (t : ℕ) (info : TableInfo) (l : List (ℕ × TableInfo))
    → find_table t l ≡ none
    → IsUnique l
    → IsUnique (l ++ (t, info) ∷ [])
unfolding find_table
IsUnique-append t info [] e w = (refl, tt)
IsUnique-append t info ((k, old) ∷ rest) e w = (
  find_table-append k t info rest w.0 (ground (arith, e)),
  IsUnique-append t info rest (ground (arith, e)) w.1,
)

map-append :
    {A B : Type 0} (f : A → B) (xs : List A) (y : A) → map f (xs ++ y ∷ []) ≡ map f xs ++ f y ∷ []
map-append f [] y = refl
map-append f (x ∷ xs) y = ap (λ t. f x ∷ t) (map-append f xs y)

All-append_one :
    {A : Type 0} (P : A → Type 0) (xs : List A) (y : A) → All P xs → P y → All P (xs ++ y ∷ [])
All-append_one P [] y w p = (p, tt)
All-append_one P (x ∷ xs) y w p = (w.0, All-append_one P xs y w.1 p)

add_table-IsConsistent :
    (m : TableManager) (info : TableInfo)
    → IsConsistent m
    → find_table info.table_idx m.table_lookup ≡ none
    → (info.table_idx == invalid_index) ≡ false
    → IsConsistent (add_table m info)
unfolding add_table
add_table-IsConsistent m info w new valid =
    let appended = sym (put_table-new info.table_idx info m.table_lookup new) in
    let entry : ℕ × TableInfo = (info.table_idx, info) in
    record {
      same_entries =
          ap (λ (l : List TableInfo). l ++ info ∷ []) w.same_entries
          ∙ sym (map-append (λ (kv : ℕ × TableInfo). kv.1) m.table_lookup entry)
          ∙ ap (map (λ (kv : ℕ × TableInfo). kv.1)) appended;
      keyed =
          subst
            (λ (l : List (ℕ × TableInfo)).
              All
                (λ (kv : ℕ × TableInfo).
                  (kv.1.table_idx ≡ kv.0) × ((kv.0 == invalid_index) ≡ false))
                l)
            appended (All-append_one _ m.table_lookup entry w.keyed (refl, valid));
      unique =
          subst (λ (l : List (ℕ × TableInfo)). IsUnique l) appended
            (IsUnique-append info.table_idx info m.table_lookup new w.unique);
    }

register-IsConsistent :
    (m : TableManager) (info : TableInfo)
    → IsConsistent m
    → IsConsistent (register m info.table_idx info)
unfolding register
register-IsConsistent m info w = elim (Option-cases (find_table info.table_idx m.table_lookup)) [
  | inl new ↦ elim (Bool-cases (info.table_idx == invalid_index)) [
    | inl h ↦ subst (λ (x : TableManager). IsConsistent x) (ground (arith, h)) w
    | inr h ↦
        subst (λ (x : TableManager). IsConsistent x) (ground (arith, h, new))
          (add_table-IsConsistent m info w new h)
  ]
  | inr (old, known) ↦ subst (λ (x : TableManager). IsConsistent x) (ground (arith, known)) w
]

-- Registering an operator keeps the map and the vector of the tables in step: the same entries in
-- the order of their registration, each under its own valid index, and no index twice.
pub add_table_operator-IsConsistent :
    (m m' : TableManager) (p : Plan)
    → IsConsistent m
    → add_table_operator m p ≡ some m'
    → IsConsistent m'
unfolding add_table_operator
add_table_operator-IsConsistent m m' p w e =
    let (t, found, made) = >>=-eq-some (scalar_table_index p) _ e in
    let info : TableInfo = record {
      table_idx = t;
      table_op = node_id p;
      estimated_cardinality = node_cardinality p;
    } in
    subst (λ (x : TableManager). IsConsistent x) (some-injective (register m t info) m' made)
      (register-IsConsistent m info w)
