-- ===== src/Optimizer/SpanningTree/Joinable.antt =====
-- Which edges `LargestRoot` of src/optimizer/robust_optimizer.cpp may take, and the table it starts from,
-- said without its tests.
use robust.Prelude.{
  ℕ, ◌≤◌, ◌<◌, min, ◌≡◌, refl, sym, subst, ◌↔◌, ◌⊎◌, inl, inr, true, false, some, List, [], ◌∷◌,
  arith, ltb, ◌==◌, ltb→lt, ==_iff, Bool-cases, Option-cases, In,
}
use robust.Column.{JoinEdge}
use robust.Table.{TableInfo, TableManager, find_table}
use robust.Optimizer.SpanningTree.{
  largest_table, is_member, insert_node, is_crossing, edge_cardinality,
}
use robust.Optimizer.SpanningTree.Choice.{IsEligible}

-- exactly one end is among the nodes
abbrev pub IsCrossing : List ℕ → JoinEdge → Type 0
IsCrossing nodes e =
    (In e.table_a nodes × (In e.table_b nodes → ⊥))
    ⊎ ((In e.table_a nodes → ⊥) × In e.table_b nodes)

-- Exactly one end is in the tree, both tables are known, and `c` is the smaller cardinality of them.
pub record IsJoinable (m : TableManager) (nodes : List ℕ) (e : JoinEdge) (c : ℕ) : Type 0 where
  pub crossing : IsCrossing nodes e
  pub info_a : TableInfo
  pub info_b : TableInfo
  pub known_a : find_table e.table_a m.table_lookup ≡ some info_a
  pub known_b : find_table e.table_b m.table_lookup ≡ some info_b
  pub below_a : c ≤ info_a.estimated_cardinality
  pub below_b : c ≤ info_b.estimated_cardinality
  pub reached : (c ≡ info_a.estimated_cardinality) ⊎ (c ≡ info_b.estimated_cardinality)

-- The table has the greatest cardinality; where all are 0, it is the index 0.
abbrev pub IsLargest : List TableInfo → ℕ → Type 0
IsLargest infos root =
    ((root ≡ 0) × ((i : TableInfo) → In i infos → i.estimated_cardinality ≡ 0))
    ⊎ ((info : TableInfo) × In info infos
        × (info.table_idx ≡ root)
        × ((i : TableInfo) → In i infos → i.estimated_cardinality ≤ info.estimated_cardinality))

member : (t : ℕ) (nodes : List ℕ) → (is_member t nodes ≡ true) ↔ In t nodes
unfolding is_member
member t [] = (λ e. absurd (ground (arith, e)), λ i. absurd i)
member t (n ∷ nodes) = (
  λ e. elim (Bool-cases (n == t)) [
    | inl h ↦ inl (sym ((==_iff n t).0 h))
    | inr h ↦ inr ((member t nodes).0 (ground (arith, e, h)))
  ],
  λ i. elim i [
    | inl same ↦ ground (arith, (==_iff n t).1 (sym same))
    | inr k ↦ ground (arith, (member t nodes).1 k)
  ],
)

missing : (t : ℕ) (nodes : List ℕ) → is_member t nodes ≡ false → In t nodes → ⊥
missing t nodes e i = absurd (ground (arith, e, (member t nodes).1 i))

not_member : (t : ℕ) (nodes : List ℕ) → (In t nodes → ⊥) → is_member t nodes ≡ false
not_member t nodes h = elim (Bool-cases (is_member t nodes)) [
  | inl e ↦ absurd (h ((member t nodes).0 e))
  | inr e ↦ e
]

is_crossing-IsCrossing :
    (nodes : List ℕ) (e : JoinEdge) → is_crossing nodes e ≡ true → IsCrossing nodes e
unfolding is_crossing
is_crossing-IsCrossing nodes e h = elim (Bool-cases (is_member e.table_a nodes)) [
  | inl a ↦ inl ((member e.table_a nodes).0 a, missing e.table_b nodes (ground (arith, h, a)))
  | inr a ↦ inr (missing e.table_a nodes a, (member e.table_b nodes).0 (ground (arith, h, a)))
]

crossing_found : (nodes : List ℕ) (e : JoinEdge) → IsCrossing nodes e → is_crossing nodes e ≡ true
unfolding is_crossing
crossing_found nodes e (inl (a, b)) =
    ground (arith, (member e.table_a nodes).1 a, not_member e.table_b nodes b)
crossing_found nodes e (inr (a, b)) =
    ground (arith, not_member e.table_a nodes a, (member e.table_b nodes).1 b)

pub IsEligible-IsJoinable :
    (m : TableManager) (nodes : List ℕ) (e : JoinEdge) (c : ℕ)
    → IsEligible m nodes e c
    → IsJoinable m nodes e c
unfolding IsEligible edge_cardinality
IsEligible-IsJoinable m nodes e c w = elim (Option-cases (find_table e.table_a m.table_lookup)) [
  | inl h ↦ absurd (ground (arith, h, w.1))
  | inr (a, h) ↦ elim (Option-cases (find_table e.table_b m.table_lookup)) [
    | inl k ↦ absurd (ground (arith, h, k, w.1))
    | inr (b, k) ↦
        let least : min a.estimated_cardinality b.estimated_cardinality ≡ c =
          ground (arith, h, k, w.1) in
        record {
          crossing = is_crossing-IsCrossing nodes e w.0;
          info_a = a;
          info_b = b;
          known_a = h;
          known_b = k;
          below_a = omega (arith, least);
          below_b = omega (arith, least);
          reached = ground (arith, least);
        }
  ]
]

pub IsJoinable-IsEligible :
    (m : TableManager) (nodes : List ℕ) (e : JoinEdge) (c : ℕ)
    → IsJoinable m nodes e c
    → IsEligible m nodes e c
unfolding IsEligible edge_cardinality
IsJoinable-IsEligible m nodes e c w =
    let least : min w.info_a.estimated_cardinality w.info_b.estimated_cardinality ≡ c =
      ground (arith, w.below_a, w.below_b, w.reached) in
    (crossing_found nodes e w.crossing, ground (arith, w.known_a, w.known_b, least))

insert_node-In : (t u : ℕ) (nodes : List ℕ) → In u (insert_node t nodes) ↔ (In u nodes ⊎ (u ≡ t))
unfolding insert_node
insert_node-In t u nodes = elim (Bool-cases (is_member t nodes)) [
  | inl h ↦ (
    λ i. inl (subst (In u) {y = nodes} (ground (arith, h)) i),
    λ w.
        let k : In u nodes = elim w [
          | inl i ↦ i
          | inr e ↦ subst (λ (x : ℕ). In x nodes) (sym e) ((member t nodes).0 h)
        ] in
        subst (In u) {x = nodes} (ground (arith, h)) k,
  )
  | inr h ↦ (
    λ i. elim (subst (In u) {y = t ∷ nodes} (ground (arith, h)) i) [
      | inl e ↦ inr e
      | inr k ↦ inl k
    ],
    λ w.
        let k : In u (t ∷ nodes) = elim w [ inl i ↦ inr i | inr e ↦ inl e ] in
        subst (In u) {x = t ∷ nodes} (ground (arith, h)) k,
  )
]

-- the tree with both ends of an edge
pub insert_edge-In :
    (e : JoinEdge) (nodes : List ℕ) (u : ℕ)
    → In u (insert_node e.table_b (insert_node e.table_a nodes))
      ↔ (In u nodes ⊎ (u ≡ e.table_a) ⊎ (u ≡ e.table_b))
insert_edge-In e nodes u =
    let outer = insert_node-In e.table_b u (insert_node e.table_a nodes) in
    let inner = insert_node-In e.table_a u nodes in
    (
      λ i. elim (outer.0 i) [
        | inl k ↦ elim (inner.0 k) [ inl a ↦ inl a | inr a ↦ inr (inl a) ]
        | inr b ↦ inr (inr b)
      ],
      λ w. outer.1 (elim w [
        | inl a ↦ inl (inner.1 (inl a))
        | inr (inl a) ↦ inl (inner.1 (inr a))
        | inr (inr b) ↦ inr b
      ]),
    )

largest_from :
    (infos : List TableInfo) (t c : ℕ)
    → ((largest_table infos t c ≡ t) × ((i : TableInfo) → In i infos → i.estimated_cardinality ≤ c))
      ⊎ ((info : TableInfo) × In info infos
          × (info.table_idx ≡ largest_table infos t c)
          × (c < info.estimated_cardinality)
          × ((i : TableInfo) → In i infos → i.estimated_cardinality ≤ info.estimated_cardinality))
unfolding largest_table
largest_from [] t c = inl (refl, λ i k. absurd k)
largest_from (x ∷ infos) t c = elim (Bool-cases (ltb c x.estimated_cardinality)) [
  | inl h ↦
      let lt = ltb→lt c x.estimated_cardinality h in
      elim (largest_from infos x.table_idx x.estimated_cardinality) [
        | inl (same, rest) ↦ inr (
          x,
          inl refl,
          ground (arith, h, same),
          lt,
          λ i k. elim k [ inl e ↦ rw e (omega arith) | inr j ↦ rest i j ],
        )
        | inr (info, at, same, over, rest) ↦ inr (
          info,
          inr at,
          ground (arith, h, same),
          omega (arith, lt, over),
          λ i k. elim k [ inl e ↦ rw e (omega (arith, over)) | inr j ↦ rest i j ],
        )
      ]
  | inr h ↦
      let le : x.estimated_cardinality ≤ c = ground (arith, h) in
      elim (largest_from infos t c) [
        | inl (same, rest) ↦
            inl (ground (arith, h, same), λ i k. elim k [ inl e ↦ rw e le | inr j ↦ rest i j ])
        | inr (info, at, same, over, rest) ↦ inr (
          info,
          inr at,
          ground (arith, h, same),
          over,
          λ i k. elim k [ inl e ↦ rw e (omega (arith, le, over)) | inr j ↦ rest i j ],
        )
      ]
]

pub largest_table-IsLargest : (infos : List TableInfo) → IsLargest infos (largest_table infos 0 0)
largest_table-IsLargest infos = elim (largest_from infos 0 0) [
  | inl (same, rest) ↦ inl (same, λ i k. omega (arith, rest i k))
  | inr (info, at, same, over, rest) ↦ inr (info, at, same, rest)
]
