-- ===== src/Optimizer/Link/Result.antt =====
-- What `LinkProbeFilterToCreateFilter` of src/optimizer/robust_optimizer.cpp makes of a plan.
use robust.Prelude.{
  ℕ, zero, suc, ◌+◌, ◌<◌, ◌≡◌, refl, sym, ap, ◌∙◌, subst, ◌↔◌, inl, inr, true, Option, none, some,
  List, [], ◌∷◌, map, arith, ◌==◌, ==_iff, Bool-cases, ◌>>=◌, >>=-eq-some, length, get_elem?, In,
}
use robust.Column.{ColumnBinding, FilterOperation}
use robust.Plan.{Node, Plan}
use robust.Optimizer.Walk.Order.{last_first, operators-last_first}
use robust.Optimizer.Link.{
  LinkedOperator, CreateMap, probe_operation, create_operation, collect_creates, wanted_create,
  has_table, link_probes, link_filters, unlinked,
}
use robust.Optimizer.Link.Creates.{IsCreateAt, wanted_create_sound, wanted_create_complete}
use robust.Optimizer.Link.Pairs.{
  created_at, probes_at, operator_of, wanted_at, IsLinkedUpTo, link_probes-IsLinkedUpTo,
}

-- one of the columns is of the table
abbrev pub HasColumnOf : ℕ → List ColumnBinding → Type 0
HasColumnOf t cols = (c : ColumnBinding) × In c cols × (c.table_index ≡ t)

has_table-HasColumnOf :
    (t : ℕ) (cols : List ColumnBinding) → (has_table t cols ≡ true) ↔ HasColumnOf t cols
unfolding has_table
has_table-HasColumnOf t [] = (λ e. absurd (ground (arith, e)), λ w. absurd w.1)
has_table-HasColumnOf t (c ∷ cols) = (
  λ e. elim (Bool-cases (c.table_index == t)) [
    | inl h ↦ (c, inl refl, (==_iff c.table_index t).0 h)
    | inr h ↦
        let (d, i, at) = (has_table-HasColumnOf t cols).0 (ground (arith, e, h)) in (d, inr i, at)
  ],
  λ w. elim (w.1) [
    | inl same ↦
        let at : c.table_index ≡ t = ap (λ (x : ColumnBinding). x.table_index) (sym same) ∙ w.2 in
        ground (arith, (==_iff c.table_index t).1 at)
    | inr i ↦ ground (arith, (has_table-HasColumnOf t cols).1 (w.0, i, w.2))
  ],
)

-- The operators of the walk `ns` with their links.
pub record IsLinkage (ns : List Node) (ops : List LinkedOperator) : Type 0 where
  pub same : map operator_of ops ≡ ns
  pub both_ends : (i c : ℕ) → (created_at ops i ≡ some c) ↔ In i (probes_at ops c)
  pub sound :
      (i c : ℕ)
      → created_at ops i ≡ some c
      → (f g : FilterOperation) × ((get_elem? ns i >>= probe_operation) ≡ some f)
        × IsCreateAt ns f.build_table_idx c g
        × HasColumnOf f.probe_table_idx g.probe_columns
  pub complete :
      (i c : ℕ) (f g : FilterOperation)
      → (get_elem? ns i >>= probe_operation) ≡ some f
      → IsCreateAt ns f.build_table_idx c g
      → HasColumnOf f.probe_table_idx g.probe_columns
      → (d : ℕ) × (created_at ops i ≡ some d)

wanted_at-split :
    (m : CreateMap) (ns : List Node) (i c : ℕ)
    → wanted_at m ns i ≡ some c
    → (f : FilterOperation) × ((get_elem? ns i >>= probe_operation) ≡ some f)
      × (wanted_create m f ≡ some c)
unfolding wanted_at
wanted_at-split m ns i c e =
    let (n, at, e₁) = >>=-eq-some (get_elem? ns i) _ e in
    let (f, is, e₂) = >>=-eq-some (probe_operation n) _ e₁ in (f, ground (arith, at, is), e₂)

wanted_at-probe :
    (m : CreateMap) (ns : List Node) (i : ℕ) (f : FilterOperation)
    → (get_elem? ns i >>= probe_operation) ≡ some f
    → wanted_at m ns i ≡ wanted_create m f
unfolding wanted_at
wanted_at-probe m ns i f e =
    let (n, at, is) = >>=-eq-some (get_elem? ns i) _ e in ground (arith, at, is)

inside :
    (ns : List Node) (i : ℕ) (f : Node → Option FilterOperation) (g : FilterOperation)
    → (get_elem? ns i >>= f) ≡ some g
    → i < length ns
inside [] i f g e = absurd (ground (arith, e))
inside (n ∷ ns) zero f g e = omega arith
inside (n ∷ ns) (suc i) f g e = omega (arith, inside ns i f g e)

map-unlinked : (ns : List Node) → map operator_of (map unlinked ns) ≡ ns
unfolding operator_of unlinked
map-unlinked [] = refl
map-unlinked (n ∷ ns) = ap (λ (t : List Node). n ∷ t) (map-unlinked ns)

created_at-unlinked : (ns : List Node) (i : ℕ) → created_at (map unlinked ns) i ≡ none
unfolding created_at unlinked
created_at-unlinked [] i = refl
created_at-unlinked (n ∷ ns) zero = refl
created_at-unlinked (n ∷ ns) (suc i) = created_at-unlinked ns i

probes_at-unlinked : (ns : List Node) (c : ℕ) → probes_at (map unlinked ns) c ≡ []
unfolding probes_at unlinked
probes_at-unlinked [] c = refl
probes_at-unlinked (n ∷ ns) zero = refl
probes_at-unlinked (n ∷ ns) (suc c) = probes_at-unlinked ns c

start-IsLinkedUpTo : (m : CreateMap) (ns : List Node) → IsLinkedUpTo m ns 0 (map unlinked ns)
start-IsLinkedUpTo m ns = record {
  same = map-unlinked ns;
  forth = λ i. ground (arith, created_at-unlinked ns i);
  back = λ i c.
      subst (λ (l : List ℕ). In i l ↔ ((i < 0) × (wanted_at m ns i ≡ some c))) {x = []}
        (sym (probes_at-unlinked ns c)) (ground arith);
}

linked-IsLinkage :
    (ns : List Node) (ops : List LinkedOperator)
    → IsLinkedUpTo (collect_creates 0 ns []) ns (0 + length ns) ops
    → IsLinkage ns ops
linked-IsLinkage ns ops w =
    let m = collect_creates 0 ns [] in
    let bound : (i c : ℕ) → wanted_at m ns i ≡ some c → i < length ns =
      λ i c e. let (f, at, _) = wanted_at-split m ns i c e in inside ns i probe_operation f at in
    let as_wanted : (i c : ℕ) → (created_at ops i ≡ some c) ↔ (wanted_at m ns i ≡ some c) =
      λ i c. ground (arith, w.forth i, bound i c) in
    record {
      same = w.same;
      both_ends = λ i c. ground (arith, as_wanted i c, w.back i c, bound i c);
      sound = λ i c e.
          let (f, at, e') = wanted_at-split m ns i c ((as_wanted i c).0 e) in
          let (g, is, h) = wanted_create_sound ns f c e' in
          (f, g, at, is, (has_table-HasColumnOf f.probe_table_idx g.probe_columns).0 h);
      complete = λ i c f g at is h.
          let (d, e) =
            wanted_create_complete ns f g c is
              ((has_table-HasColumnOf f.probe_table_idx g.probe_columns).1 h) in
          (d, (as_wanted i d).1 (wanted_at-probe m ns i f at ∙ e));
    }

-- On every plan the linking ends. It links a PROBE_FILTER exactly when some CREATE_FILTER has its
-- build table and a probe column of its probe table, and then to such a one; and the links of both
-- ends agree.
pub link_filters-IsLinkage :
    (p : Plan)
    → (ops : List LinkedOperator) × (link_filters p ≡ some ops) × IsLinkage (last_first p) ops
unfolding link_filters
link_filters-IsLinkage p =
    let ns = last_first p in
    let m = collect_creates 0 ns [] in
    let range : (i c : ℕ) → wanted_at m ns i ≡ some c → c < length ns = λ i c e.
      let (f, at, e') = wanted_at-split m ns i c e in
      let (g, is, _) = wanted_create_sound ns f c e' in inside ns c create_operation g is.found in
    (
      link_probes m 0 ns (map unlinked ns),
      ground (arith, operators-last_first p),
      linked-IsLinkage ns _ (
          link_probes-IsLinkedUpTo m ns range ns 0 (map unlinked ns)
            (λ j. ap (get_elem? ns) (omega arith)) (start-IsLinkedUpTo m ns)),
    )
