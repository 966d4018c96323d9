-- ===== src/Physical/CreateFilter/Pushdown/Sound.antt =====
-- A filter that is pushed to a scan never drops a key of the build side.
use robust.Prelude.{
  ℕ, suc, ◌+◌, ◌≡◌, refl, ap, subst, ◌⊎◌, inl, inr, Bool, true, false, not, ◌&&◌, Option, none,
  some, List, [], ◌∷◌, arith, if◌then◌else◌, Bool-cases, get_elem?, is_empty, In, In-append,
}
use robust.Column.{ColumnBinding, binding_eq, binding_eq_iff}
use robust.Engine.{Engine}
use robust.Physical.Bloom.{PtBloomFilter}
use robust.Physical.MinMax.{MinMax}
use robust.Physical.Distinct.{ColumnDistinct, contains}
use robust.Physical.CreateFilter.{
  PhysicalCreateFilter, GlobalSinkState, DynamicFilterTarget, find_filter,
}
use robust.Physical.CreateFilter.Pushdown.{
  FilterType, TableFilter, always_false, Pushed, push_distinct, push_in, push_bloom, push_range,
  column_filters, target_filters, tag, push_targets, push_dynamic_filters, passes, consider_in,
}

module _ {V F : Type 0} (engine : Engine V F) (is_dense_range : List V → Bool) where
  open engine use {less, lookup_hash, hash, value_eq_iff}

  -- What the sink has recorded of the value `v` of build column `b`, which stands at `i`.
  pub record IsBuildKey (op : PhysicalCreateFilter F) (g : GlobalSinkState V) (b : ColumnBinding)
      (i : ℕ) (v : V) : Type 0 where
    pub tracked :
        (cd : ColumnDistinct V)
        → get_elem? g.column_distinct i ≡ some cd
        → cd.over_threshold ≡ false
        → In v cd.values
    pub in_range :
        (mm : MinMax V)
        → get_elem? g.column_min_max i ≡ some (some mm)
        → (less v mm.min_val ≡ false) × (less mm.max_val v ≡ false)
    pub hashed :
        (bf : PtBloomFilter F)
        → find_filter b op.bloom_filter_map ≡ some bf
        → lookup_hash (hash (some v)) bf.native ≡ true

  abbrev AllPass : List (TableFilter V F) → V → Type 0
  AllPass fs v = (f : TableFilter V F) → In f fs → passes engine is_dense_range f v ≡ true

  contains_of_In : (ws : List V) (v : V) → In v ws → contains engine ws v ≡ true
  unfolding contains
  contains_of_In [] v h = absurd h
  contains_of_In (w ∷ ws) v h = ground (arith, contains_of_In ws v, value_eq_iff w v)

  push_distinct-AllPass :
      (ws : List V) (v : V) → In v ws → AllPass (push_distinct engine is_dense_range ws).0 v
  unfolding push_distinct
  push_distinct-AllPass [] v h f i = absurd i
  push_distinct-AllPass (w ∷ []) v h f i = ground (arith, value_eq_iff w v)
  push_distinct-AllPass (w ∷ x ∷ ws) v h f i = elim (Bool-cases (is_dense_range (w ∷ x ∷ ws))) [
    | inl dense ↦ absurd (rw dense at i)
    | inr sparse ↦ elim (rw sparse at i) [
      | inl e ↦ rw e (contains_of_In (w ∷ x ∷ ws) v h)
      | inr none_left ↦ absurd none_left
    ]
  ]

  push_in-AllPass :
      (setting : FilterType) (o : Option (ColumnDistinct V)) (v : V)
      → ((cd : ColumnDistinct V) → o ≡ some cd → cd.over_threshold ≡ false → In v cd.values)
      → AllPass (push_in engine is_dense_range setting o).0 v
  unfolding push_in
  push_in-AllPass setting none v h f i = absurd i
  push_in-AllPass setting (some cd) v h f i =
      elim (Bool-cases (consider_in setting && not cd.over_threshold)) [
        | inl chosen ↦
            push_distinct-AllPass cd.values v (h cd refl (ground arith)) f (rw chosen at i)
        | inr skipped ↦ absurd (rw skipped at i)
      ]

  push_bloom-AllPass :
      (setting : FilterType) (eq : Bool) (o : Option (PtBloomFilter F)) (v : V)
      → ((bf : PtBloomFilter F) → o ≡ some bf → lookup_hash (hash (some v)) bf.native ≡ true)
      → AllPass (push_bloom engine is_dense_range setting eq o) v
  unfolding push_bloom
  push_bloom-AllPass setting eq none v h f i = absurd i
  push_bloom-AllPass setting eq (some bf) v h f i = ground (arith, h bf refl)

  push_range-AllPass :
      (setting : FilterType) (eq : Bool) (o : Option (Option (MinMax V))) (v : V)
      → ((mm : MinMax V)
          → o ≡ some (some mm)
          → (less v mm.min_val ≡ false) × (less mm.max_val v ≡ false))
      → AllPass (push_range engine is_dense_range setting eq o) v
  unfolding push_range
  push_range-AllPass setting eq none v h f i = absurd i
  push_range-AllPass setting eq (some none) v h f i = absurd i
  push_range-AllPass setting eq (some (some mm)) v h f i = ground (arith, h mm refl)

  -- What is pushed for a build column passes each of its keys.
  column_filters-AllPass :
      (op : PhysicalCreateFilter F) (g : GlobalSinkState V) (setting : FilterType)
      (b : ColumnBinding) (i : ℕ) (v : V)
      → IsBuildKey op g b i v
      → AllPass (column_filters engine is_dense_range op g setting b i) v
  unfolding column_filters
  column_filters-AllPass op g setting b i v k f m =
      let o = get_elem? g.column_distinct i in
      let eq = (push_in engine is_dense_range setting o).1 in
      let ins = (push_in engine is_dense_range setting o).0 in
      let bloom = push_bloom engine is_dense_range setting eq (find_filter b op.bloom_filter_map) in
      elim ((In-append f ins _).0 m) [
        | inl x ↦ push_in-AllPass setting o v k.tracked f x
        | inr x ↦ elim ((In-append f bloom _).0 x) [
          | inl y ↦ push_bloom-AllPass setting eq (find_filter b op.bloom_filter_map) v k.hashed f y
          | inr y ↦ push_range-AllPass setting eq (get_elem? g.column_min_max i) v k.in_range f y
        ]
      ]

  -- `b` stands in the build columns where `target` stands in the probe columns, at `k`.
  pub record IsPaired (builds probes : List ColumnBinding) (target b : ColumnBinding) (k : ℕ)
      : Type 0 where
    pub build_at : get_elem? builds k ≡ some b
    pub probe_at : get_elem? probes k ≡ some target

  target_filters-IsPaired :
      (op : PhysicalCreateFilter F) (g : GlobalSinkState V) (setting : FilterType)
      (target : ColumnBinding) (i : ℕ) (builds probes : List ColumnBinding) (f : TableFilter V F)
      → In f (target_filters engine is_dense_range op g setting target i builds probes)
      → (b : ColumnBinding) × (k : ℕ) × IsPaired builds probes target b k
        × In f (column_filters engine is_dense_range op g setting b (i + k))
  unfolding target_filters
  target_filters-IsPaired op g setting target i [] probes f m = absurd m
  target_filters-IsPaired op g setting target i (b ∷ builds) [] f m = absurd m
  target_filters-IsPaired op g setting target i (b ∷ builds) (p ∷ probes) f m =
      elim (Bool-cases (binding_eq p target)) [
        | inl hit ↦
            let at_i : i ≡ i + 0 = omega arith in
            (
              b,
              0,
              record { build_at = refl; probe_at = ap some ((binding_eq_iff p target).0 hit) },
              subst (λ (n : ℕ). In f (column_filters engine is_dense_range op g setting b n)) at_i
                  (rw hit at m),
            )
        | inr miss ↦
            let (b', k, paired, m') =
              target_filters-IsPaired op g setting target (i + 1) builds probes f (rw miss at m) in
            let next : i + 1 + k ≡ i + suc k = omega arith in
            (
              b',
              suc k,
              record { build_at = paired.build_at; probe_at = paired.probe_at },
              subst (λ (n : ℕ). In f (column_filters engine is_dense_range op g setting b' n)) next
                  m',
            )
      ]

  tag-In :
      (t : DynamicFilterTarget) (fs : List (TableFilter V F)) (p : Pushed V F)
      → In p (tag engine is_dense_range t fs)
      → In p.filter fs
        × (p.dynamic_filters ≡ t.dynamic_filters)
        × (p.scan_column_index ≡ t.scan_column_index)
  unfolding tag
  tag-In t [] p m = absurd m
  tag-In t (f ∷ fs) p (inl e) = (inl (cc), cc, cc)
  tag-In t (f ∷ fs) p (inr m) = let (i, d, s) = tag-In t fs p m in (inr i, d, s)

  -- What a pushed filter means: it stands at one target's scan column, and it is the always-false
  -- filter of an empty build side, or it passes every key of the build column that is paired with
  -- the target's probe column.
  pub record IsSoundPush (op : PhysicalCreateFilter F) (g : GlobalSinkState V)
      (t : DynamicFilterTarget) (p : Pushed V F) : Type 0 where
    pub same_set : p.dynamic_filters ≡ t.dynamic_filters
    pub same_column : p.scan_column_index ≡ t.scan_column_index
    pub meaning :
        ((g.total_data ≡ []) × (p.filter ≡ always_false))
        ⊎ ((b : ColumnBinding) × (k : ℕ) × IsPaired op.filter_operation.build_columns
              op.filter_operation.probe_columns t.probe_column b k
            × ((v : V) → IsBuildKey op g b k v → passes engine is_dense_range p.filter v ≡ true))

  empty_list : {A : Type 0} (xs : List A) → is_empty xs ≡ true → xs ≡ []
  empty_list [] e = refl
  empty_list (x ∷ xs) e = cc

  push_targets-IsSoundPush :
      (op : PhysicalCreateFilter F) (g : GlobalSinkState V) (setting : FilterType)
      (ts : List DynamicFilterTarget) (p : Pushed V F)
      → In p (push_targets engine is_dense_range op g setting ts)
      → (t : DynamicFilterTarget) × In t ts × IsSoundPush op g t p
  unfolding push_targets
  push_targets-IsSoundPush op g setting [] p m = absurd m
  push_targets-IsSoundPush op g setting (t ∷ ts) p m =
      let found =
        target_filters engine is_dense_range op g setting t.probe_column 0
          op.filter_operation.build_columns op.filter_operation.probe_columns in
      let fs : List (TableFilter V F) =
        if is_empty g.total_data then always_false ∷ [] else found in
      elim ((In-append p (tag engine is_dense_range t fs)
          (push_targets engine is_dense_range op g setting ts)).0
        m) [
          | inr later ↦
              let (u, i, sound) = push_targets-IsSoundPush op g setting ts p later in
              (u, inr i, sound)
          | inl here ↦
              let (i, d, s) = tag-In t fs p here in
              (
                t,
                inl refl,
                record {
                  same_set = d;
                  same_column = s;
                  meaning = elim (Bool-cases (is_empty g.total_data)) [
                    | inl none_built ↦ inl (
                      empty_list g.total_data none_built,
                      elim (rw none_built at i) [ inl e ↦ e | inr x ↦ absurd x ],
                    )
                    | inr built ↦
                        let (b, k, paired, x) =
                          target_filters-IsPaired op g setting t.probe_column 0
                            op.filter_operation.build_columns op.filter_operation.probe_columns
                            p.filter (rw built at i) in
                        let at_k : 0 + k ≡ k = omega arith in
                        inr (
                          b,
                          k,
                          paired,
                          λ v key. column_filters-AllPass op g setting b k v key p.filter (
                              subst
                                (λ (n : ℕ).
                                  In p.filter
                                    (column_filters engine is_dense_range op g setting b n))
                                at_k x),
                        )
                  ];
                },
              )
        ]

  -- Every filter that a finished build pushes is for the scan column of one of its targets. It is
  -- the always-false filter, and then the build side is empty, or it passes each value that the
  -- tracked values, the range and the bloom filter of one build column hold as a key, and this
  -- column stands at the same index as the target's probe column.
  pub push_dynamic_filters-IsSoundPush :
      (op : PhysicalCreateFilter F) (g : GlobalSinkState V) (setting : FilterType) (p : Pushed V F)
      → In p (push_dynamic_filters engine is_dense_range op g setting)
      → (t : DynamicFilterTarget) × In t op.pushdown_targets × IsSoundPush op g t p
  unfolding push_dynamic_filters
  push_dynamic_filters-IsSoundPush op g setting p m = elim (Bool-cases op.is_forward_pass) [
    | inl forward ↦ push_targets-IsSoundPush op g setting op.pushdown_targets p (ground (arith, m))
    | inr backward ↦ absurd (ground (arith, m))
  ]
