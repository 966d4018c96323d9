-- ===== src/Optimizer/Generate/Sound.antt =====
-- What the maps of the generators of src/optimizer/robust_optimizer.cpp hold at all times.
use robust.Prelude.{
  ℕ, suc, ◌≡◌, refl, sym, ap, ◌∙◌, subst, ◌⊎◌, inl, inr, Bool, true, false, ◌&&◌, some, List, [],
  ◌∷◌, arith, ◌==◌, ==_iff, Bool-cases, and-eq-true, ◌>>=◌, >>=-eq-some, length, get_elem?,
  length-append, In, In-append,
}
use mathlib.Core.Option.{some-injective}
use robust.Column.{ColumnBinding, FilterOperation}
use robust.Optimizer.Stack.{OpMap}
use robust.Optimizer.Dag.{DagNode}
use robust.Optimizer.Operations.{
  push_op, count_ops, change_op, op_at, FilterEnd, Emitted, operation, emit_pair,
}
use robust.Optimizer.Operations.Laws.{
  op_at-push_op, op_at-pushed_op, push_op-cases, op_at-change_op,
}
use robust.Optimizer.Generate.{BfSource, repeated_columns, extend_create}

-- a node with this operator and this table
pub record IsHome (nodes : List DagNode) (key table : ℕ) : Type 0 where
  pub place : ℕ
  pub home : DagNode
  pub found : get_elem? nodes place ≡ some home
  pub operator : home.table_op ≡ key
  pub index : home.table_idx ≡ table

-- Some CREATE_FILTER of the map has the build table of the operation, and all its probe columns.
pub record IsServed (m : OpMap) (op : FilterOperation) : Type 0 where
  pub key : ℕ
  pub place : ℕ
  pub create : FilterOperation
  pub found : op_at m key place ≡ some create
  pub creates : create.is_create ≡ true
  pub same_table : create.build_table_idx ≡ op.build_table_idx
  pub columns : (x : ColumnBinding) → In x op.probe_columns → In x create.probe_columns

-- Each CREATE_FILTER stands at the operator of its build table, with as many build as probe columns;
-- each PROBE_FILTER stands at that of its probe table, and is served.
pub record IsSoundOps (nodes : List DagNode) (m : OpMap) : Type 0 where
  pub balanced :
      (k i : ℕ) (c : FilterOperation)
      → op_at m k i ≡ some c
      → c.is_create ≡ true
      → length c.build_columns ≡ length c.probe_columns
  pub creates_home :
      (k i : ℕ) (c : FilterOperation)
      → op_at m k i ≡ some c
      → c.is_create ≡ true
      → IsHome nodes k c.build_table_idx
  pub probes_home :
      (k i : ℕ) (u : FilterOperation)
      → op_at m k i ≡ some u
      → u.is_create ≡ false
      → IsHome nodes k u.probe_table_idx
  pub served :
      (k i : ℕ) (u : FilterOperation) → op_at m k i ≡ some u → u.is_create ≡ false → IsServed m u

pub IsServed-push_op :
    (m : OpMap) (k : ℕ) (op u : FilterOperation) → IsServed m u → IsServed (push_op k op m) u
IsServed-push_op m k op u w = record {
  key = w.key;
  place = w.place;
  create = w.create;
  found = op_at-push_op m k w.key w.place op w.create w.found;
  creates = w.creates;
  same_table = w.same_table;
  columns = w.columns;
}

pub push_create-IsSoundOps :
    (nodes : List DagNode) (m : OpMap) (k : ℕ) (op : FilterOperation)
    → op.is_create ≡ true
    → length op.build_columns ≡ length op.probe_columns
    → IsHome nodes k op.build_table_idx
    → IsSoundOps nodes m
    → IsSoundOps nodes (push_op k op m)
push_create-IsSoundOps nodes m k op is even home w = record {
  balanced = λ j i c e h. elim (push_op-cases m k j i op c e) [
    | inl f ↦ w.balanced j i c f h
    | inr (_, f) ↦
        subst (λ (o : FilterOperation). length o.build_columns ≡ length o.probe_columns) f even
  ];
  creates_home = λ j i c e h. elim (push_op-cases m k j i op c e) [
    | inl f ↦ w.creates_home j i c f h
    | inr (at, f) ↦
        subst (λ (o : FilterOperation). IsHome nodes j o.build_table_idx) f
          (subst (λ (x : ℕ). IsHome nodes x op.build_table_idx) (sym at) home)
  ];
  probes_home = λ j i u e h. elim (push_op-cases m k j i op u e) [
    | inl f ↦ w.probes_home j i u f h
    | inr (_, f) ↦ absurd (ground (arith, h, is, ap (λ (o : FilterOperation). o.is_create) f))
  ];
  served = λ j i u e h. elim (push_op-cases m k j i op u e) [
    | inl f ↦ IsServed-push_op m k op u (w.served j i u f h)
    | inr (_, f) ↦ absurd (ground (arith, h, is, ap (λ (o : FilterOperation). o.is_create) f))
  ];
}

pub push_probe-IsSoundOps :
    (nodes : List DagNode) (m : OpMap) (k : ℕ) (op : FilterOperation)
    → op.is_create ≡ false
    → IsServed m op
    → IsHome nodes k op.probe_table_idx
    → IsSoundOps nodes m
    → IsSoundOps nodes (push_op k op m)
push_probe-IsSoundOps nodes m k op is serves home w = record {
  balanced = λ j i c e h. elim (push_op-cases m k j i op c e) [
    | inl f ↦ w.balanced j i c f h
    | inr (_, f) ↦ absurd (ground (arith, h, is, ap (λ (o : FilterOperation). o.is_create) f))
  ];
  creates_home = λ j i c e h. elim (push_op-cases m k j i op c e) [
    | inl f ↦ w.creates_home j i c f h
    | inr (_, f) ↦ absurd (ground (arith, h, is, ap (λ (o : FilterOperation). o.is_create) f))
  ];
  probes_home = λ j i u e h. elim (push_op-cases m k j i op u e) [
    | inl f ↦ w.probes_home j i u f h
    | inr (at, f) ↦
        subst (λ (o : FilterOperation). IsHome nodes j o.probe_table_idx) f
          (subst (λ (x : ℕ). IsHome nodes x op.probe_table_idx) (sym at) home)
  ];
  served = λ j i u e h. elim (push_op-cases m k j i op u e) [
    | inl f ↦ IsServed-push_op m k op u (w.served j i u f h)
    | inr (_, f) ↦ subst (IsServed (push_op k op m)) f (IsServed-push_op m k op op serves)
  ];
}

-- Both operations of a pair find their places.
pub emit_pair-IsSoundOps :
    (nodes : List DagNode) (forward : Bool) (build probe : FilterEnd) (s : Emitted)
    → length build.columns ≡ length probe.columns
    → IsHome nodes build.key build.table
    → IsHome nodes probe.key probe.table
    → IsSoundOps nodes s.ops
    → IsSoundOps nodes (emit_pair forward build probe s).ops
unfolding emit_pair operation
emit_pair-IsSoundOps nodes forward build probe s even at_build at_probe w =
    let create = operation true forward build probe s.sequence in
    push_probe-IsSoundOps nodes (push_op build.key create s.ops) probe.key _ refl
      (record {
        key = build.key;
        place = count_ops build.key s.ops;
        create = create;
        found = op_at-pushed_op s.ops build.key create;
        creates = refl;
        same_table = refl;
        columns = λ x i. i;
      })
      at_probe (push_create-IsSoundOps nodes s.ops build.key create refl even at_build w)

-- The operation that is read after a write to one, and what it was before.
pub change_op-cases :
    (m : OpMap) (k i l j : ℕ) (f : FilterOperation → FilterOperation) (o : FilterOperation)
    → op_at (change_op k i f m) l j ≡ some o
    → (op_at m l j ≡ some o)
      ⊎ ((c : FilterOperation) × (op_at m l j ≡ some c) × (f c ≡ o) × (k ≡ l) × (i ≡ j))
change_op-cases m k i l j f o e = elim (Bool-cases (k == l && i == j)) [
  | inl h ↦
      let e' : (op_at m l j >>= λ c. some (f c)) ≡ some o =
        ground (arith, e, h, op_at-change_op m k i l j f) in
      let (c, at, is) = >>=-eq-some (op_at m l j) _ e' in
      let (h₁, h₂) = and-eq-true (k == l) (i == j) h in
      inr (c, at, some-injective (f c) o is, (==_iff k l).0 h₁, (==_iff i j).0 h₂)
  | inr h ↦ inl (ground (arith, e, h, op_at-change_op m k i l j f))
]

length-repeated_columns :
    (bs ps : List ColumnBinding) (last : ColumnBinding)
    → length (repeated_columns bs last ps) ≡ length ps
unfolding repeated_columns
length-repeated_columns [] [] last = refl
length-repeated_columns [] (p ∷ ps) last = ap suc (length-repeated_columns [] ps last)
length-repeated_columns (b ∷ bs) [] last = refl
length-repeated_columns (b ∷ bs) (p ∷ ps) last = ap suc (length-repeated_columns bs ps b)

module _ (source : BfSource) (first : ColumnBinding) (cols : List ColumnBinding) where
  extend : FilterOperation → FilterOperation
  extend op = extend_create source first cols op

  extend-even :
      (c : FilterOperation)
      → length c.build_columns ≡ length c.probe_columns
      → length (extend c).build_columns ≡ length (extend c).probe_columns
  unfolding extend_create extend
  extend-even c e = ground (
    arith,
    e,
    length-repeated_columns source.build_columns cols first,
    length-append c.build_columns (repeated_columns source.build_columns first cols),
    length-append c.probe_columns cols,
  )

  -- A CREATE_FILTER stays one for its table, and loses no probe column.
  pub find_extended :
      (m : OpMap) (k i l j : ℕ) (c : FilterOperation)
      → op_at m l j ≡ some c
      → (c' : FilterOperation) × (op_at (change_op k i (extend_create source first cols) m) l j
          ≡ some c')
        × (c'.is_create ≡ c.is_create)
        × (c'.build_table_idx ≡ c.build_table_idx)
        × ((x : ColumnBinding) → In x c.probe_columns → In x c'.probe_columns)
  unfolding extend_create
  find_extended m k i l j c e = elim (Bool-cases (k == l && i == j)) [
    | inl h ↦ (
      extend_create source first cols c,
      ground (arith, e, h, op_at-change_op m k i l j (extend_create source first cols)),
      refl,
      refl,
      λ x p. (In-append x c.probe_columns cols).1 (inl p),
    )
    | inr h ↦ (
      c,
      ground (arith, e, h, op_at-change_op m k i l j (extend_create source first cols)),
      refl,
      refl,
      λ x p. p,
    )
  ]

  IsServed-extend :
      (m : OpMap) (k i : ℕ) (u : FilterOperation)
      → IsServed m u
      → IsServed (change_op k i (extend_create source first cols) m) u
  IsServed-extend m k i u w =
      let (c, at, is, same, more) = find_extended m k i w.key w.place w.create w.found in
      record {
        key = w.key;
        place = w.place;
        create = c;
        found = at;
        creates = is ∙ w.creates;
        same_table = same ∙ w.same_table;
        columns = λ x p. more x (w.columns x p);
      }

  -- The columns of a CREATE_FILTER are extended, those of both sides alike.
  pub extend_create-IsSoundOps :
      (nodes : List DagNode) (m : OpMap) (k i : ℕ) (c : FilterOperation)
      → op_at m k i ≡ some c
      → c.is_create ≡ true
      → IsSoundOps nodes m
      → IsSoundOps nodes (change_op k i (extend_create source first cols) m)
  unfolding extend_create extend
  extend_create-IsSoundOps nodes m k i c at is w = record {
    balanced = λ l j o e h. elim (change_op-cases m k i l j _ o e) [
      | inl f ↦ w.balanced l j o f h
      | inr (d, f, g, _, _) ↦
          subst (λ (x : FilterOperation). length x.build_columns ≡ length x.probe_columns) g
            (extend-even d (w.balanced l j d f (ap (λ (x : FilterOperation). x.is_create) g ∙ h)))
    ];
    creates_home = λ l j o e h. elim (change_op-cases m k i l j _ o e) [
      | inl f ↦ w.creates_home l j o f h
      | inr (d, f, g, _, _) ↦
          subst (λ (x : FilterOperation). IsHome nodes l x.build_table_idx) g
            (w.creates_home l j d f (ap (λ (x : FilterOperation). x.is_create) g ∙ h))
    ];
    probes_home = λ l j o e h. elim (change_op-cases m k i l j _ o e) [
      | inl f ↦ w.probes_home l j o f h
      | inr (d, f, g, _, _) ↦
          subst (λ (x : FilterOperation). IsHome nodes l x.probe_table_idx) g
            (w.probes_home l j d f (ap (λ (x : FilterOperation). x.is_create) g ∙ h))
    ];
    served = λ l j o e h. elim (change_op-cases m k i l j _ o e) [
      | inl f ↦ IsServed-extend m k i o (w.served l j o f h)
      | inr (d, f, g, hk, hi) ↦
          let same : c ≡ d =
            some-injective c d (sym at ∙ ap (λ (x : ℕ). op_at m x i) hk ∙ ap (op_at m l) hi ∙ f) in
          let kept : d.is_create ≡ o.is_create = ap (λ (x : FilterOperation). x.is_create) g in
          absurd (ground (arith, is, h, kept, ap (λ (x : FilterOperation). x.is_create) same))
    ];
  }
