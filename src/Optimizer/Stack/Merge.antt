-- ===== src/Optimizer/Stack/Merge.antt =====
-- What the merging of consecutive CREATE operations keeps, and what it shifts.
use robust.Prelude.{
  ℕ, suc, ◌+◌, ◌≡◌, refl, sym, ap, ◌∙◌, inl, inr, true, ◌&&◌, Option, none, some, List, [], ◌∷◌,
  ◌++◌, map, arith, ◌==◌, Bool-cases, and-eq-true, length, get_elem?, length-append, All,
}
use mathlib.Core.List.{append_assoc, append-nil}
use robust.Column.{ColumnBinding, FilterOperation}
use robust.Engine.{concat}
use robust.Optimizer.Stack.{paired_probes, run_probes, merge_run, merge_from, merged_ops}

abbrev pub all_builds : List FilterOperation → List ColumnBinding
all_builds ops = concat (map (λ (o : FilterOperation). o.build_columns) ops)

abbrev pub all_probes : List FilterOperation → List ColumnBinding
all_probes ops = concat (map (λ (o : FilterOperation). o.probe_columns) ops)

all_builds-append :
    (xs ys : List FilterOperation) → all_builds (xs ++ ys) ≡ all_builds xs ++ all_builds ys
all_builds-append [] ys = refl
all_builds-append (x ∷ xs) ys =
    ap (λ t. x.build_columns ++ t) (all_builds-append xs ys)
    ∙ sym (append_assoc x.build_columns (all_builds xs) (all_builds ys))

-- Every operation has as many probe as build columns.
abbrev pub IsBalanced : List FilterOperation → Type 0
IsBalanced ops = All (λ (o : FilterOperation). length o.probe_columns ≡ length o.build_columns) ops

-- Every CREATE has as many probe as build columns.
abbrev pub HasBalancedCreates : List FilterOperation → Type 0
HasBalancedCreates ops =
    All
      (λ (o : FilterOperation).
        o.is_create ≡ true → length o.probe_columns ≡ length o.build_columns)
      ops

paired_all : (bs ps : List ColumnBinding) → length ps ≡ length bs → paired_probes bs ps ≡ some ps
unfolding paired_probes
paired_all [] [] e = refl
paired_all [] (p ∷ ps) e = absurd (omega arith)
paired_all (b ∷ bs) [] e = absurd (omega arith)
paired_all (b ∷ bs) (p ∷ ps) e = rw (paired_all bs ps (omega arith)) refl

run_probes-IsBalanced :
    (ops : List FilterOperation) → IsBalanced ops → run_probes ops ≡ some (all_probes ops)
unfolding run_probes
run_probes-IsBalanced [] h = refl
run_probes-IsBalanced (o ∷ ops) h =
    rw (paired_all o.build_columns o.probe_columns h.0) (rw (run_probes-IsBalanced ops h.1) refl)

build-merge_run :
    (first : FilterOperation) (more : List FilterOperation)
    → IsBalanced (first ∷ more)
    → (merged : FilterOperation) × (merge_run first more ≡ some merged)
      × (merged.build_columns ≡ all_builds (first ∷ more))
unfolding merge_run
build-merge_run first [] h = (first, refl, sym (append-nil first.build_columns))
build-merge_run first (op ∷ ops) h = (
  record first {
    build_columns = all_builds (first ∷ op ∷ ops);
    probe_columns = first.probe_columns ++ all_probes (first ∷ op ∷ ops);
  },
  rw (run_probes-IsBalanced (first ∷ op ∷ ops) h) refl,
  refl,
)

-- the operations of the run that is being collected
abbrev pending : Option (FilterOperation × List FilterOperation) → List FilterOperation
pending none = []
pending (some (first, more)) = first ∷ more

IsBalanced-append :
    (xs : List FilterOperation) (o : FilterOperation)
    → IsBalanced xs
    → length o.probe_columns ≡ length o.build_columns
    → IsBalanced (xs ++ o ∷ [])
IsBalanced-append [] o h e = (e, tt)
IsBalanced-append (x ∷ xs) o h e = (h.0, IsBalanced-append xs o h.1 e)

builds-merge_from :
    (run : Option (FilterOperation × List FilterOperation)) (ops : List FilterOperation)
    → IsBalanced (pending run)
    → HasBalancedCreates ops
    → (r : List FilterOperation) × (merge_from run ops ≡ some r)
      × (all_builds r ≡ all_builds (pending run ++ ops))
unfolding merge_from
builds-merge_from none [] h w = ([], refl, refl)
builds-merge_from (some (first, more)) [] h w =
    let (merged, ok, same) = build-merge_run first more h in
    (
      merged ∷ [],
      rw ok refl,
      ap (λ t. t ++ []) same
          ∙ append-nil (all_builds (first ∷ more))
          ∙ ap all_builds (sym (append-nil (first ∷ more))),
    )
builds-merge_from none (op ∷ ops) h w = elim (Bool-cases op.is_create) [
  | inl create ↦
      let (r, ok, same) = builds-merge_from (some (op, [])) ops (w.0 create, tt) w.1 in
      (r, ground (arith, create, ok), same)
  | inr probe ↦
      let (r, ok, same) = builds-merge_from none ops tt w.1 in
      (op ∷ r, ground (arith, probe, ok), ap (λ t. op.build_columns ++ t) same)
]
builds-merge_from (some (first, more)) (op ∷ ops) h w =
    let appended = all_builds-append (first ∷ more) (op ∷ ops) in
    let (merged, ran, builds) = build-merge_run first more h in
    elim (Bool-cases (op.is_create && op.build_table_idx == first.build_table_idx)) [
      | inl both ↦
          let create =
            (and-eq-true op.is_create (op.build_table_idx == first.build_table_idx) both).0 in
          let (r, ok, same) =
            builds-merge_from (some (first, more ++ op ∷ [])) ops
              (IsBalanced-append (first ∷ more) op h (w.0 create)) w.1 in
          (
            r,
            ground (arith, both, ok),
            same
                ∙ ap (λ (t : List FilterOperation). all_builds (first ∷ t))
                    (append_assoc more (op ∷ []) ops),
          )
      | inr other ↦ elim (Bool-cases op.is_create) [
        | inl create ↦
            let (r, ok, same) = builds-merge_from (some (op, [])) ops (w.0 create, tt) w.1 in
            (
              merged ∷ r,
              ground (arith, other, create, ran, ok),
              ground (arith, builds, same, appended),
            )
        | inr probe ↦
            let (r, ok, same) = builds-merge_from none ops tt w.1 in
            (
              merged ∷ op ∷ r,
              ground (arith, other, probe, ran, ok),
              ground (arith, builds, same, appended),
            )
      ]
    ]

-- Where every CREATE has as many probe as build columns, the merging does not fault, and neither loses,
-- adds nor reorders a build column.
pub builds-merged_ops :
    (ops : List FilterOperation)
    → HasBalancedCreates ops
    → (merged : List FilterOperation) × (merged_ops ops ≡ some merged)
      × (all_builds merged ≡ all_builds ops)
unfolding merged_ops
builds-merged_ops ops w = builds-merge_from none ops tt w

length-all_probes :
    (ops : List FilterOperation)
    → IsBalanced ops
    → length (all_probes ops) ≡ length (all_builds ops)
length-all_probes [] h = refl
length-all_probes (o ∷ ops) h = omega (
  arith,
  h.0,
  length-append o.probe_columns (all_probes ops),
  length-append o.build_columns (all_builds ops),
  length-all_probes ops h.1,
)

get_elem?-shift :
    (xs ys : List ColumnBinding) (k : ℕ) → get_elem? (xs ++ ys) (length xs + k) ≡ get_elem? ys k
get_elem?-shift [] ys k = ap (λ (n : ℕ). get_elem? ys n) (omega arith)
get_elem?-shift (x ∷ xs) ys k =
    let e : suc (length xs) + k ≡ suc (length xs + k) = omega arith in
    rw e (get_elem?-shift xs ys k)

-- A run of two or more balanced CREATEs is merged, without a fault, into one whose probe columns are
-- shifted: the partner of the build column at `k` stands as many places later as the first operation has
-- probe columns, and the probe columns are longer than the build columns by that number.
pub merge_run_shift :
    (first op : FilterOperation) (more : List FilterOperation) (k : ℕ)
    → IsBalanced (first ∷ op ∷ more)
    → (merged : FilterOperation) × (merge_run first (op ∷ more) ≡ some merged)
      × (merged.build_columns ≡ all_builds (first ∷ op ∷ more))
      × (get_elem? merged.probe_columns (length first.probe_columns + k)
          ≡ get_elem? (all_probes (first ∷ op ∷ more)) k)
      × (length merged.probe_columns ≡ length first.probe_columns + length merged.build_columns)
unfolding merge_run
merge_run_shift first op more k h =
    let run = first ∷ op ∷ more in
    (
      record first {
        build_columns = all_builds run;
        probe_columns = first.probe_columns ++ all_probes run;
      },
      rw (run_probes-IsBalanced run h) refl,
      refl,
      get_elem?-shift first.probe_columns (all_probes run) k,
      omega (arith, length-append first.probe_columns (all_probes run), length-all_probes run h),
    )
