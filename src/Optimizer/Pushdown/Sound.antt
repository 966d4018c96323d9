-- ===== src/Optimizer/Pushdown/Sound.antt =====
-- What `SetupDynamicFilterPushdown` of src/optimizer/robust_optimizer.cpp leaves at the operators.
use robust.Prelude.{
  ℕ, zero, suc, ◌<◌, ◌≡◌, refl, sym, ap, ◌∙◌, subst, ◌⊎◌, inl, inr, Bool, true, false, Option, none,
  some, List, [], ◌∷◌, ◌++◌, map, arith, ltb, ◌==◌, if◌then◌else◌, lt→ltb, ==_iff, ==_refl,
  Bool-cases, Option-cases, ◌>>=◌, length, get_elem?, get_or, In, In-append,
}
use robust.Physical.Chunk.{LogicalTypeId}
use robust.Column.{ColumnBinding, FilterOperation}
use robust.Physical.CreateFilter.{DynamicFilterTarget}
use robust.Plan.{Operator, Plan}
use robust.Table.{TableManager}
use robust.Optimizer.Link.{LinkedOperator, create_operation, probe_operation, change_linked}
use robust.Optimizer.Link.Pairs.{probes_at}
use robust.Optimizer.Pushdown.{Scan, scan_targets, is_forward, scan_of_table}

unfoldable pub targets_at : List LinkedOperator → ℕ → List DynamicFilterTarget
targets_at ops c = elim (get_elem? ops c) [ none ↦ [] | some o ↦ o.pushdown_targets ]

unfoldable pub is_passthrough_at : List LinkedOperator → ℕ → Bool
is_passthrough_at ops i = elim (get_elem? ops i) [ none ↦ false | some o ↦ o.is_passthrough ]

unfoldable pub probe_at : List LinkedOperator → ℕ → Option FilterOperation
probe_at ops i = get_elem? ops i >>= λ o. probe_operation o.operator

unfoldable pub create_at : List LinkedOperator → ℕ → Option FilterOperation
create_at ops c = get_elem? ops c >>= λ o. create_operation o.operator

-- an operator without what the setup writes
unfoldable pub unset : LinkedOperator → LinkedOperator
unset o = record o { pushdown_targets = []; is_passthrough = false }

-- A PROBE_FILTER of the forward pass that a CREATE_FILTER of the forward pass is linked to, and the
-- scan of its table.
pub record IsForwardPair (m : TableManager) (plan : Plan) (base : List LinkedOperator) (c i : ℕ)
    (f : FilterOperation) (get : Operator) : Type 0 where
  pub forward_create : is_forward (create_at base c) ≡ true
  pub related : In i (probes_at base c)
  pub probe : probe_at base i ≡ some f
  pub forward_probe : f.is_forward_pass ≡ true
  pub scanned : scan_of_table m plan f.probe_table_idx ≡ some get

pub record IsTarget (m : TableManager) (scan_of : ℕ → Scan) (plan : Plan)
    (base : List LinkedOperator) (c : ℕ) (t : DynamicFilterTarget) : Type 0 where
  pub place : ℕ
  pub op : FilterOperation
  pub get : Operator
  pub pair : IsForwardPair m plan base c place op get
  pub column : In t.probe_column op.probe_columns
  pub same_index : t.scan_column_index ≡ t.probe_column.column_index
  pub in_bounds : t.scan_column_index < length (scan_of get.id).column_ids
  pub same_scan : t.dynamic_filters ≡ get.id

-- the target of a column in the scan at an address
pub record IsTargetOf (id : ℕ) (col : ColumnBinding) (t : DynamicFilterTarget) : Type 0 where
  pub own_column : t.probe_column ≡ col
  pub own_index : t.scan_column_index ≡ col.column_index
  pub own_scan : t.dynamic_filters ≡ id

pub record IsPassed (m : TableManager) (scan_of : ℕ → Scan) (plan : Plan)
    (base ops : List LinkedOperator) (i : ℕ) : Type 0 where
  pub create : ℕ
  pub op : FilterOperation
  pub get : Operator
  pub pair : IsForwardPair m plan base create i op get
  pub pushed :
      (col : ColumnBinding)
      → In col op.probe_columns
      → col.column_index < length (scan_of get.id).column_ids
      → (t : DynamicFilterTarget) × In t (targets_at ops create) × IsTargetOf get.id col t

-- The links are as they were. Each target is for a column of a linked probe of the forward pass, in
-- the bounds of the scan of its table. A probe lets all rows pass only where a linked CREATE_FILTER
-- has a target for each of its columns that the scan has.
pub record IsPushed (m : TableManager) (scan_of : ℕ → Scan) (plan : Plan)
    (base ops : List LinkedOperator) : Type 0 where
  pub same : map unset ops ≡ map unset base
  pub targets :
      (c : ℕ) (t : DynamicFilterTarget) → In t (targets_at ops c) → IsTarget m scan_of plan base c t
  pub passed : (i : ℕ) → is_passthrough_at ops i ≡ true → IsPassed m scan_of plan base ops i

bounded : (xs : List ℕ) (i p : ℕ) → get_elem? xs i ≡ some p → i < length xs
bounded [] i p e = absurd (ground (arith, e))
bounded (x ∷ xs) zero p e = omega arith
bounded (x ∷ xs) (suc i) p e = omega (arith, bounded xs i p e)

-- A target of a scan is for one of the columns, at the index of the column, in bounds.
record IsScanTarget (scan : Scan) (id : ℕ) (cols : List ColumnBinding) (t : DynamicFilterTarget)
    : Type 0 where
  column : In t.probe_column cols
  same_index : t.scan_column_index ≡ t.probe_column.column_index
  in_bounds : t.scan_column_index < length scan.column_ids
  same_scan : t.dynamic_filters ≡ id

In-scan_targets :
    (scan : Scan) (id : ℕ) (cols : List ColumnBinding) (t : DynamicFilterTarget)
    → In t (scan_targets scan id cols)
    → IsScanTarget scan id cols t
unfolding scan_targets
In-scan_targets scan id [] t i = absurd i
In-scan_targets scan id (c ∷ cols) t i =
    let later : In t (scan_targets scan id cols) → IsScanTarget scan id (c ∷ cols) t = λ k.
      let w = In-scan_targets scan id cols t k in
      record {
        column = inr w.column;
        same_index = w.same_index;
        in_bounds = w.in_bounds;
        same_scan = w.same_scan;
      } in
    elim (Option-cases (get_elem? scan.column_ids c.column_index)) [
      | inl e ↦ later (subst (In t) {y = scan_targets scan id cols} (ground (arith, e)) i)
      | inr (p, e) ↦
          let first : DynamicFilterTarget = record {
            dynamic_filters = id;
            scan_column_index = c.column_index;
            probe_column = c;
            column_type = get_or scan.returned_types p LogicalTypeId.bigint;
          } in
          let here : IsScanTarget scan id (c ∷ cols) first = record {
            column = inl refl;
            same_index = refl;
            in_bounds = bounded scan.column_ids c.column_index p e;
            same_scan = refl;
          } in
          elim (subst (In t) {y = first ∷ scan_targets scan id cols} (ground (arith, e)) i) [
            | inl same ↦ subst (IsScanTarget scan id (c ∷ cols)) (sym same) here
            | inr k ↦ later k
          ]
    ]

in_range : (xs : List ℕ) (i : ℕ) → i < length xs → (p : ℕ) × (get_elem? xs i ≡ some p)
in_range [] i lt = absurd (omega (arith, lt))
in_range (x ∷ xs) zero lt = (x, refl)
in_range (x ∷ xs) (suc i) lt = in_range xs i (omega (arith, lt))

-- Each column in the bounds of the scan has a target.
scan_targets_full :
    (scan : Scan) (id : ℕ) (cols : List ColumnBinding) (col : ColumnBinding)
    → In col cols
    → col.column_index < length scan.column_ids
    → (t : DynamicFilterTarget) × In t (scan_targets scan id cols) × IsTargetOf id col t
unfolding scan_targets
scan_targets_full scan id [] col i lt = absurd i
scan_targets_full scan id (c ∷ cols) col (inl same) lt =
    let (p, e) = in_range scan.column_ids col.column_index lt in
    let first : DynamicFilterTarget = record {
      dynamic_filters = id;
      scan_column_index = c.column_index;
      probe_column = c;
      column_type = get_or scan.returned_types p LogicalTypeId.bigint;
    } in
    (
      first,
      subst (In first) {x = first ∷ scan_targets scan id cols} (ground (arith, same, e)) (inl refl),
      record {
        own_column = sym same;
        own_index = ap (λ (x : ColumnBinding). x.column_index) (sym same);
        own_scan = refl;
      },
    )
scan_targets_full scan id (c ∷ cols) col (inr i) lt =
    let (t, k, w) = scan_targets_full scan id cols col i lt in
    (
      t,
      elim (Option-cases (get_elem? scan.column_ids c.column_index)) [
        | inl e ↦ subst (In t) {x = scan_targets scan id cols} (ground (arith, e)) k
        | inr (p, e) ↦
            let first : DynamicFilterTarget = record {
              dynamic_filters = id;
              scan_column_index = c.column_index;
              probe_column = c;
              column_type = get_or scan.returned_types p LogicalTypeId.bigint;
            } in
            subst (In t) {x = first ∷ scan_targets scan id cols} (ground (arith, e)) (inr k)
      ],
      w,
    )

set_targets :
    (ops : List LinkedOperator) (c d : ℕ) (ts : List DynamicFilterTarget)
    → targets_at
        (change_linked c
          (λ (o : LinkedOperator). record o { pushdown_targets = o.pushdown_targets ++ ts })
          ops)
        d
      ≡ (if c == d
          then (if ltb c (length ops) then targets_at ops d ++ ts else [])
          else targets_at ops d)
unfolding targets_at change_linked
set_targets [] c d ts = ground arith
set_targets (o ∷ ops) zero zero ts = ground arith
set_targets (o ∷ ops) zero (suc d) ts = ground arith
set_targets (o ∷ ops) (suc c) zero ts = ground arith
set_targets (o ∷ ops) (suc c) (suc d) ts = ground (arith, set_targets ops c d ts)

passed_targets :
    (ops : List LinkedOperator) (i d : ℕ)
    → targets_at
        (change_linked i (λ (o : LinkedOperator). record o { is_passthrough = true }) ops)
        d
      ≡ targets_at ops d
unfolding targets_at change_linked
passed_targets [] i d = refl
passed_targets (o ∷ ops) zero zero = refl
passed_targets (o ∷ ops) zero (suc d) = refl
passed_targets (o ∷ ops) (suc i) zero = refl
passed_targets (o ∷ ops) (suc i) (suc d) = passed_targets ops i d

targets_passed :
    (ops : List LinkedOperator) (c i : ℕ) (ts : List DynamicFilterTarget)
    → is_passthrough_at
        (change_linked c
          (λ (o : LinkedOperator). record o { pushdown_targets = o.pushdown_targets ++ ts })
          ops)
        i
      ≡ is_passthrough_at ops i
unfolding is_passthrough_at change_linked
targets_passed [] c i ts = refl
targets_passed (o ∷ ops) zero zero ts = refl
targets_passed (o ∷ ops) zero (suc i) ts = refl
targets_passed (o ∷ ops) (suc c) zero ts = refl
targets_passed (o ∷ ops) (suc c) (suc i) ts = targets_passed ops c i ts

-- a flag that was not set before
set_passed :
    (ops : List LinkedOperator) (i j : ℕ)
    → is_passthrough_at
        (change_linked i (λ (o : LinkedOperator). record o { is_passthrough = true }) ops)
        j
      ≡ true
    → (i ≡ j) ⊎ (is_passthrough_at ops j ≡ true)
unfolding is_passthrough_at change_linked
set_passed [] i j e = inr e
set_passed (o ∷ ops) zero zero e = inl refl
set_passed (o ∷ ops) zero (suc j) e = inr e
set_passed (o ∷ ops) (suc i) zero e = inr e
set_passed (o ∷ ops) (suc i) (suc j) e = ground (arith, set_passed ops i j e)

map-unset :
    (ops : List LinkedOperator) (i : ℕ) (f : LinkedOperator → LinkedOperator)
    → ((o : LinkedOperator) → unset (f o) ≡ unset o)
    → map unset (change_linked i f ops) ≡ map unset ops
unfolding change_linked
map-unset [] i f h = refl
map-unset (o ∷ ops) zero f h = ap (λ (x : LinkedOperator). x ∷ map unset ops) (h o)
map-unset (o ∷ ops) (suc i) f h =
    ap (λ (t : List LinkedOperator). unset o ∷ t) (map-unset ops i f h)

module _ (m : TableManager) (scan_of : ℕ → Scan) (plan : Plan) (base : List LinkedOperator) where
  pair-IsTarget :
      (c i : ℕ) (f : FilterOperation) (get : Operator) (t : DynamicFilterTarget)
      → IsForwardPair m plan base c i f get
      → In t (scan_targets (scan_of get.id) get.id f.probe_columns)
      → IsTarget m scan_of plan base c t
  pair-IsTarget c i f get t pair k =
      let w = In-scan_targets (scan_of get.id) get.id f.probe_columns t k in
      record {
        place = i;
        op = f;
        get = get;
        pair = pair;
        column = w.column;
        same_index = w.same_index;
        in_bounds = w.in_bounds;
        same_scan = w.same_scan;
      }

  unfoldable pub write :
      ℕ → ℕ → List DynamicFilterTarget → List LinkedOperator → List LinkedOperator
  write c i ts ops =
      change_linked i (λ (o : LinkedOperator). record o { is_passthrough = true })
        (change_linked c
          (λ (o : LinkedOperator). record o { pushdown_targets = o.pushdown_targets ++ ts }) ops)

  targets_at-write :
      (c i d : ℕ) (ts : List DynamicFilterTarget) (ops : List LinkedOperator)
      → c < length ops
      → targets_at (write c i ts ops) d
        ≡ (if c == d then targets_at ops d ++ ts else targets_at ops d)
  unfolding write
  targets_at-write c i d ts ops lt =
      passed_targets _ i d ∙ ground (arith, lt→ltb c (length ops) lt, set_targets ops c d ts)

  kept_target :
      (c i d : ℕ) (ts : List DynamicFilterTarget) (ops : List LinkedOperator)
      (t : DynamicFilterTarget)
      → c < length ops
      → In t (targets_at ops d)
      → In t (targets_at (write c i ts ops) d)
  kept_target c i d ts ops t lt k = elim (Bool-cases (c == d)) [
    | inl h ↦
        subst (In t) {x = targets_at ops d ++ ts}
          (ground (arith, h, targets_at-write c i d ts ops lt))
          ((In-append t (targets_at ops d) ts).1 (inl k))
    | inr h ↦
        subst (In t) {x = targets_at ops d} (ground (arith, h, targets_at-write c i d ts ops lt)) k
  ]

  pub write-IsPushed :
      (c i : ℕ) (f : FilterOperation) (get : Operator) (ops : List LinkedOperator)
      → c < length ops
      → IsForwardPair m plan base c i f get
      → IsPushed m scan_of plan base ops
      → IsPushed m scan_of plan base
          (write c i (scan_targets (scan_of get.id) get.id f.probe_columns) ops)
  unfolding write unset
  write-IsPushed c i f get ops lt pair w =
      let ts = scan_targets (scan_of get.id) get.id f.probe_columns in
      record {
        same = map-unset _ i _ (λ o. refl) ∙ map-unset ops c _ (λ o. refl) ∙ w.same;
        targets = λ d t k. elim (Bool-cases (c == d)) [
          | inl h ↦
              let k' =
                subst (In t) {y = targets_at ops d ++ ts}
                  (ground (arith, h, targets_at-write c i d ts ops lt)) k in
              elim ((In-append t (targets_at ops d) ts).0 k') [
                | inl old ↦ w.targets d t old
                | inr new ↦
                    subst (λ (x : ℕ). IsTarget m scan_of plan base x t) ((==_iff c d).0 h)
                      (pair-IsTarget c i f get t pair new)
              ]
          | inr h ↦ w.targets d t (
              subst (In t) {y = targets_at ops d}
                (ground (arith, h, targets_at-write c i d ts ops lt)) k)
        ];
        passed = λ j e. elim (set_passed _ i j e) [
          | inl same ↦ subst (IsPassed m scan_of plan base (write c i ts ops)) same (record {
            create = c;
            op = f;
            get = get;
            pair = pair;
            pushed = λ col k bound.
                let (t, made, own) =
                  scan_targets_full (scan_of get.id) get.id f.probe_columns col k bound in
                (
                  t,
                  subst (In t) {x = targets_at ops c ++ ts}
                      (ground (arith, ==_refl c, targets_at-write c i c ts ops lt))
                      ((In-append t (targets_at ops c) ts).1 (inr made)),
                  own,
                );
          })
          | inr old ↦
              let v = w.passed j (sym (targets_passed ops c j ts) ∙ old) in
              record {
                create = v.create;
                op = v.op;
                get = v.get;
                pair = v.pair;
                pushed = λ col k bound.
                    let (t, made, own) = v.pushed col k bound in
                    (t, kept_target c i v.create ts ops t lt made, own);
              }
        ];
      }
