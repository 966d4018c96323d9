-- ===== src/Profiling/Laws.antt =====
-- The tables that `RegisterCreateFilter` of src/include/robust_profiling.hpp keeps.
use robust.Prelude.{
  ℕ, zero, suc, ◌<◌, ◌≡◌, refl, sym, ap, ◌∙◌, subst, ◌↔◌, ◌⊎◌, inl, inr, Bool, true, false, ◌||◌,
  some, List, [], ◌∷◌, ◌++◌, arith, ◌==◌, Bool-cases, length, get_elem?, In,
}
use robust.Column.{ColumnBinding}
use robust.Optimizer.SpanningTree.{is_member}
use robust.Profiling.{
  CreateFilterStats, RobustProfilingState, is_last, add_index, probe_tables, register_create_filter,
}

-- No index stands twice.
unfoldable pub IsDistinct : List ℕ → Type 0
IsDistinct [] = Unit {0}
IsDistinct (i ∷ is) = (is_member i is ≡ false) × IsDistinct is

is_member_iff : (t : ℕ) (is : List ℕ) → (is_member t is ≡ true) ↔ In t is
unfolding is_member
is_member_iff t [] = ground arith
is_member_iff t (i ∷ is) = ground (arith, is_member_iff t is)

is_last_in : (t : ℕ) (is : List ℕ) → is_last t is ≡ true → is_member t is ≡ true
unfolding is_last is_member
is_last_in t [] e = absurd (ground (arith, e))
is_last_in t (i ∷ []) e = ground (arith, e)
is_last_in t (i ∷ j ∷ is) e = ground (arith, is_last_in t (j ∷ is) e)

is_member-append : (t u : ℕ) (is : List ℕ) → is_member t (is ++ u ∷ []) ≡ (is_member t is || u == t)
unfolding is_member
is_member-append t u [] = ground arith
is_member-append t u (i ∷ is) = ground (arith, is_member-append t u is)

append-IsDistinct :
    (u : ℕ) (is : List ℕ) → is_member u is ≡ false → IsDistinct is → IsDistinct (is ++ u ∷ [])
unfolding IsDistinct is_member
append-IsDistinct u [] h w = (refl, tt)
append-IsDistinct u (i ∷ is) h w = (
  ground (arith, h, w.0, is_member-append i u is),
  append-IsDistinct u is (ground (arith, h)) w.1,
)

-- A table is added once.
add_index-cases :
    (indices : List ℕ) (c : ColumnBinding)
    → ((add_index indices c ≡ indices) × (is_member c.table_index indices ≡ true))
      ⊎ ((add_index indices c ≡ indices ++ c.table_index ∷ [])
          × (is_member c.table_index indices ≡ false))
unfolding add_index
add_index-cases indices c = elim (Bool-cases (is_last c.table_index indices)) [
  | inl h ↦ inl (ground (arith, h), is_last_in c.table_index indices h)
  | inr h ↦ elim (Bool-cases (is_member c.table_index indices)) [
    | inl k ↦ inl (ground (arith, h, k), k)
    | inr k ↦ inr (ground (arith, h, k), k)
  ]
]

add_index-IsDistinct :
    (indices : List ℕ) (c : ColumnBinding) → IsDistinct indices → IsDistinct (add_index indices c)
add_index-IsDistinct indices c w = elim (add_index-cases indices c) [
  | inl (e, _) ↦ subst IsDistinct (sym e) w
  | inr (e, h) ↦ subst IsDistinct (sym e) (append-IsDistinct c.table_index indices h w)
]

is_member-add_index :
    (t : ℕ) (indices : List ℕ) (c : ColumnBinding)
    → (is_member t (add_index indices c) ≡ true)
      ↔ ((is_member t indices ≡ true) ⊎ (c.table_index ≡ t))
is_member-add_index t indices c = elim (add_index-cases indices c) [
  | inl (e, h) ↦ (
    λ k. inl (sym (ap (is_member t) e) ∙ k),
    λ k. elim k [
      | inl k' ↦ ap (is_member t) e ∙ k'
      | inr same ↦ ap (is_member t) e ∙ ap (λ (x : ℕ). is_member x indices) (sym same) ∙ h
    ],
  )
  | inr (e, h) ↦ ground (arith, ap (is_member t) e, is_member-append t c.table_index indices)
]

-- some column is of the table
abbrev pub IsTableOf : List ColumnBinding → ℕ → Type 0
IsTableOf cols t = (c : ColumnBinding) × In c cols × (c.table_index ≡ t)

probe_tables-IsDistinct :
    (cols : List ColumnBinding) (indices : List ℕ)
    → IsDistinct indices
    → IsDistinct (probe_tables cols indices)
      × ((t : ℕ)
          → (is_member t (probe_tables cols indices) ≡ true)
            ↔ ((is_member t indices ≡ true) ⊎ IsTableOf cols t))
unfolding probe_tables
probe_tables-IsDistinct [] indices w =
    (w, λ t. (λ h. inl h, λ s. elim s [ inl h ↦ h | inr k ↦ absurd k.1 ]))
probe_tables-IsDistinct (c ∷ cols) indices w =
    let (w', iff) =
      probe_tables-IsDistinct cols (add_index indices c) (add_index-IsDistinct indices c w) in
    (
      w',
      λ t. (
        λ h. elim ((iff t).0 h) [
          | inl k ↦ elim ((is_member-add_index t indices c).0 k) [
            | inl k' ↦ inl k'
            | inr same ↦ inr (c, inl refl, same)
          ]
          | inr k ↦ inr (k.0, inr k.1, k.2)
        ],
        λ s. elim s [
          | inl k ↦ (iff t).1 (inl ((is_member-add_index t indices c).1 (inl k)))
          | inr k ↦ elim k.1 [
            | inl same ↦ (iff t).1 (
                inl (
                  (is_member-add_index t indices c).1
                    (inr (ap (λ (x : ColumnBinding). x.table_index) (sym same) ∙ k.2))))
            | inr i ↦ (iff t).1 (inr (k.0, i, k.2))
          ]
        ],
      ),
    )

get_elem?-last :
    (xs : List CreateFilterStats) (x : CreateFilterStats)
    → get_elem? (xs ++ x ∷ []) (length xs) ≡ some x
get_elem?-last [] x = refl
get_elem?-last (y ∷ xs) x = get_elem?-last xs x

get_elem?-before :
    (xs : List CreateFilterStats) (x : CreateFilterStats) (i : ℕ)
    → i < length xs
    → get_elem? (xs ++ x ∷ []) i ≡ get_elem? xs i
get_elem?-before [] x i lt = absurd (ground (arith, lt))
get_elem?-before (y ∷ xs) x zero lt = refl
get_elem?-before (y ∷ xs) x (suc i) lt = get_elem?-before xs x i (omega (arith, lt))

-- A registered CREATE_FILTER has an entry of its own, which lists each table of its probe columns
-- once and no other table; the entries of the others stay.
pub register_create_filter-IsDistinct :
    (s : RobustProfilingState) (build_table_idx : ℕ) (cols : List ColumnBinding)
    (sequence_number : ℕ) (forward : Bool)
    → let r = register_create_filter s build_table_idx cols sequence_number forward in
      (stats : CreateFilterStats) × (get_elem? r.0.create_filter_stats r.1 ≡ some stats)
      × IsDistinct stats.probe_table_indices
      × ((t : ℕ) → In t stats.probe_table_indices ↔ IsTableOf cols t)
      × ((i : ℕ)
          → i < length s.create_filter_stats
          → get_elem? r.0.create_filter_stats i ≡ get_elem? s.create_filter_stats i)
unfolding register_create_filter IsDistinct is_member
register_create_filter-IsDistinct s build_table_idx cols sequence_number forward =
    let (w, iff) = probe_tables-IsDistinct cols [] tt in
    (
      _,
      get_elem?-last s.create_filter_stats _,
      w,
      λ t. (
        λ i. elim ((iff t).0 ((is_member_iff t (probe_tables cols [])).1 i)) [
          | inl h ↦ absurd (ground (arith, h))
          | inr k ↦ k
        ],
        λ k. (is_member_iff t (probe_tables cols [])).0 ((iff t).1 (inr k)),
      ),
      λ i lt. get_elem?-before s.create_filter_stats _ i lt,
    )
