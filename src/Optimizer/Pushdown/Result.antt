-- ===== src/Optimizer/Pushdown/Result.antt =====
-- The loops of `SetupDynamicFilterPushdown` of src/optimizer/robust_optimizer.cpp.
use robust.Prelude.{
  ℕ, zero, suc, ◌<◌, ◌≡◌, refl, sym, ap, ◌∙◌, subst, inl, inr, true, false, Option, some, List, [],
  ◌∷◌, map, arith, Bool-cases, Option-cases, ◌>>=◌, >>=-eq-some, length, get_elem?, In,
}
use mathlib.Core.Option.{some-injective}
use robust.Column.{FilterOperation}
use robust.Plan.{Plan}
use robust.Table.{TableManager}
use robust.Optimizer.Link.{LinkedOperator, create_operation, probe_operation}
use robust.Optimizer.Link.Pairs.{probes_at}
use robust.Optimizer.Pushdown.{
  Scan, scan_targets, is_forward, scan_of_table, push_probe, push_probes, push_creates,
  setup_pushdown,
}
use robust.Optimizer.Pushdown.Sound.{
  IsPushed, unset, write, write-IsPushed, probe_at, create_at, targets_at, is_passthrough_at,
}

same_at :
    (ops base : List LinkedOperator) (i : ℕ) (o : LinkedOperator)
    → map unset ops ≡ map unset base
    → get_elem? ops i ≡ some o
    → (o' : LinkedOperator) × (get_elem? base i ≡ some o') × (unset o' ≡ unset o)
same_at ops base i o same e =
    let e' : (get_elem? base i >>= λ x. some (unset x)) ≡ some (unset o) =
      sym (unset_at base i)
      ∙ ap (λ (x : List LinkedOperator). get_elem? x i) (sym same)
      ∙ unset_at ops i
      ∙ ap (λ (x : Option LinkedOperator). x >>= λ y. some (unset y)) e in
    let (o', at, is) = >>=-eq-some (get_elem? base i) _ e' in
    (o', at, some-injective (unset o') (unset o) is)
  where
    unset_at :
        (xs : List LinkedOperator) (j : ℕ)
        → get_elem? (map unset xs) j ≡ (get_elem? xs j >>= λ x. some (unset x))
    unset_at [] j = refl
    unset_at (x ∷ xs) zero = refl
    unset_at (x ∷ xs) (suc j) = unset_at xs j

length-same :
    (ops base : List LinkedOperator) → map unset ops ≡ map unset base → length ops ≡ length base
length-same ops base e = sym (length-map ops) ∙ ap length e ∙ length-map base
  where
    length-map : (xs : List LinkedOperator) → length (map unset xs) ≡ length xs
    length-map [] = refl
    length-map (x ∷ xs) = ap suc (length-map xs)

inside :
    (ops : List LinkedOperator) (i : ℕ) (o : LinkedOperator)
    → get_elem? ops i ≡ some o
    → i < length ops
inside [] i o e = absurd (ground (arith, e))
inside (x ∷ ops) zero o e = omega arith
inside (x ∷ ops) (suc i) o e = omega (arith, inside ops i o e)

module _ (m : TableManager) (scan_of : ℕ → Scan) (plan : Plan) (base : List LinkedOperator) where
  probe_same :
      (ops : List LinkedOperator) (i : ℕ) (f : FilterOperation)
      → map unset ops ≡ map unset base
      → (get_elem? ops i >>= λ o. probe_operation o.operator) ≡ some f
      → probe_at base i ≡ some f
  unfolding probe_at unset
  probe_same ops i f same e =
      let (o, at, is) = >>=-eq-some (get_elem? ops i) _ e in
      let (o', at', eq) = same_at ops base i o same at in
      let op : o'.operator ≡ o.operator = ap (λ (x : LinkedOperator). x.operator) eq in
      ap (λ (x : Option LinkedOperator). x >>= λ o. probe_operation o.operator) at'
      ∙ ap probe_operation op
      ∙ is

  push_probe-IsPushed :
      (c i : ℕ) (ops : List LinkedOperator)
      → c < length base
      → is_forward (create_at base c) ≡ true
      → In i (probes_at base c)
      → IsPushed m scan_of plan base ops
      → IsPushed m scan_of plan base (push_probe m scan_of plan c ops i)
  unfolding push_probe write
  push_probe-IsPushed c i ops lt fwd rel w =
      elim (Option-cases (get_elem? ops i >>= λ o. probe_operation o.operator)) [
        | inl e ↦ subst (IsPushed m scan_of plan base) {x = ops} (ground (arith, e)) w
        | inr (f, e) ↦ elim (Bool-cases f.is_forward_pass) [
          | inr h ↦ subst (IsPushed m scan_of plan base) {x = ops} (ground (arith, e, h)) w
          | inl h ↦ elim (Option-cases (scan_of_table m plan f.probe_table_idx)) [
            | inl e' ↦ subst (IsPushed m scan_of plan base) {x = ops} (ground (arith, e, h, e')) w
            | inr (get, e') ↦
                let ts = scan_targets (scan_of get.id) get.id f.probe_columns in
                subst (IsPushed m scan_of plan base) {x = write m scan_of plan base c i ts ops}
                  (ground (arith, e, h, e'))
                  (write-IsPushed m scan_of plan base c i f get ops
                    (ground (arith, lt, length-same ops base w.same))
                    (record {
                      forward_create = fwd;
                      related = rel;
                      probe = probe_same ops i f w.same e;
                      forward_probe = h;
                      scanned = e';
                    })
                    w)
          ]
        ]
      ]

  push_probes-IsPushed :
      (c : ℕ) (is : List ℕ) (ops : List LinkedOperator)
      → c < length base
      → is_forward (create_at base c) ≡ true
      → ((i : ℕ) → In i is → In i (probes_at base c))
      → IsPushed m scan_of plan base ops
      → IsPushed m scan_of plan base (push_probes m scan_of plan c ops is)
  unfolding push_probes
  push_probes-IsPushed c [] ops lt fwd rel w = w
  push_probes-IsPushed c (i ∷ is) ops lt fwd rel w =
      push_probes-IsPushed c is (push_probe m scan_of plan c ops i) lt fwd (λ j k. rel j (inr k))
        (push_probe-IsPushed c i ops lt fwd (rel i (inl refl)) w)

  push_creates-IsPushed :
      (k c : ℕ) (ops : List LinkedOperator)
      → IsPushed m scan_of plan base ops
      → IsPushed m scan_of plan base (push_creates m scan_of plan k c ops)
  unfolding push_creates create_at probes_at unset
  push_creates-IsPushed zero c ops w = w
  push_creates-IsPushed (suc k) c ops w =
      push_creates-IsPushed k (suc c) _ (elim (Option-cases (get_elem? ops c)) [
        | inl e ↦ subst (IsPushed m scan_of plan base) {x = ops} (ground (arith, e)) w
        | inr (o, e) ↦ elim (Bool-cases (is_forward (create_operation o.operator))) [
          | inr h ↦ subst (IsPushed m scan_of plan base) {x = ops} (ground (arith, e, h)) w
          | inl h ↦
              let (o', at, eq) = same_at ops base c o w.same e in
              let op : o'.operator ≡ o.operator = ap (λ (x : LinkedOperator). x.operator) eq in
              let rel : o'.related_probe_filter ≡ o.related_probe_filter =
                ap (λ (x : LinkedOperator). x.related_probe_filter) eq in
              let fwd : is_forward (create_at base c) ≡ true =
                ap
                  (λ (x : Option LinkedOperator).
                    is_forward (x >>= λ o. create_operation o.operator))
                  at
                ∙ ap (λ n. is_forward (create_operation n)) op
                ∙ h in
              let at_base : probes_at base c ≡ o.related_probe_filter = ground (arith, at, rel) in
              subst (IsPushed m scan_of plan base)
                {x = push_probes m scan_of plan c ops o.related_probe_filter} (ground (arith, e, h))
                (push_probes-IsPushed c o.related_probe_filter ops (inside base c o' at) fwd
                  (λ i k'. subst (In i) (sym at_base) k') w)
        ]
      ])

-- On linked operators that have no targets yet and let no probe pass.
unfoldable pub IsFresh : List LinkedOperator → Type 0
IsFresh base = ((c : ℕ) → targets_at base c ≡ []) × ((i : ℕ) → is_passthrough_at base i ≡ false)

-- From operators without targets the setup keeps all links. Each target is then for a column of a
-- linked PROBE_FILTER of the forward pass, at the column's index and in the bounds of the scan of its
-- table; and a PROBE_FILTER passes all rows only where a linked CREATE_FILTER of the forward pass has
-- a target for each of its columns that the scan has.
pub setup_pushdown-IsPushed :
    (m : TableManager) (scan_of : ℕ → Scan) (plan : Plan) (base : List LinkedOperator)
    → IsFresh base
    → IsPushed m scan_of plan base (setup_pushdown m scan_of plan base)
unfolding setup_pushdown IsFresh
setup_pushdown-IsPushed m scan_of plan base fresh =
    push_creates-IsPushed m scan_of plan base (length base) 0 base (record {
      same = refl;
      targets = λ c t k. absurd (subst (In t) (fresh.0 c) k);
      passed = λ i e. absurd (ground (arith, e, fresh.1 i));
    })
