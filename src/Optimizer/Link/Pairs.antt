-- ===== src/Optimizer/Link/Pairs.antt =====
-- The second pass of `LinkProbeFilterToCreateFilter` of src/optimizer/robust_optimizer.cpp.
use robust.Prelude.{
  ℕ, zero, suc, ◌+◌, ◌<◌, ◌≡◌, refl, sym, ap, ◌∙◌, subst, ◌↔◌, inl, inr, true, Option, none, some,
  List, [], ◌∷◌, ◌++◌, map, arith, ltb, ◌==◌, if◌then◌else◌, ==_iff, Bool-cases, Option-cases,
  ◌>>=◌, length, get_elem?, In, In-append,
}
use robust.Plan.{Node}
use robust.Optimizer.Link.{
  LinkedOperator, CreateMap, probe_operation, wanted_create, change_linked, link_pair, link_probes,
}

unfoldable pub created_at : List LinkedOperator → ℕ → Option ℕ
created_at ops i = get_elem? ops i >>= λ o. o.related_create_filter

unfoldable pub probes_at : List LinkedOperator → ℕ → List ℕ
probes_at ops c = elim (get_elem? ops c) [ none ↦ [] | some o ↦ o.related_probe_filter ]

unfoldable pub operator_of : LinkedOperator → Node
operator_of o = o.operator

-- the CREATE_FILTER that the operator at a position asks for
unfoldable pub wanted_at : CreateMap → List Node → ℕ → Option ℕ
wanted_at m ns i = get_elem? ns i >>= λ n. probe_operation n >>= wanted_create m

get_elem?-change_linked :
    (ops : List LinkedOperator) (i j : ℕ) (f : LinkedOperator → LinkedOperator)
    → get_elem? (change_linked i f ops) j
      ≡ (if i == j then (get_elem? ops j >>= λ o. some (f o)) else get_elem? ops j)
unfolding change_linked
get_elem?-change_linked [] i j f = ground arith
get_elem?-change_linked (o ∷ ops) zero zero f = refl
get_elem?-change_linked (o ∷ ops) zero (suc j) f = ground arith
get_elem?-change_linked (o ∷ ops) (suc i) zero f = ground arith
get_elem?-change_linked (o ∷ ops) (suc i) (suc j) f =
    ground (arith, get_elem?-change_linked ops i j f)

map-change_linked :
    (ops : List LinkedOperator) (i : ℕ) (f : LinkedOperator → LinkedOperator)
    → ((o : LinkedOperator) → (f o).operator ≡ o.operator)
    → map operator_of (change_linked i f ops) ≡ map operator_of ops
unfolding change_linked operator_of
map-change_linked [] i f h = refl
map-change_linked (o ∷ ops) zero f h = ap (λ (n : Node). n ∷ map operator_of ops) (h o)
map-change_linked (o ∷ ops) (suc i) f h =
    ap (λ (t : List Node). o.operator ∷ t) (map-change_linked ops i f h)

inside :
    (ops : List LinkedOperator) (i : ℕ)
    → i < length ops
    → (o : LinkedOperator) × (get_elem? ops i ≡ some o)
inside [] i lt = absurd (ground (arith, lt))
inside (o ∷ ops) zero lt = (o, refl)
inside (o ∷ ops) (suc i) lt = inside ops i (omega (arith, lt))

created_at-set :
    (ops : List LinkedOperator) (i c j : ℕ)
    → i < length ops
    → created_at
        (change_linked i (λ (o : LinkedOperator). record o { related_create_filter = some c }) ops)
        j
      ≡ (if i == j then some c else created_at ops j)
unfolding created_at
created_at-set ops i c j lt = elim (Bool-cases (i == j)) [
  | inl h ↦
      let (o, e) = inside ops i lt in
      let e' : get_elem? ops j ≡ some o = ap (get_elem? ops) (sym ((==_iff i j).0 h)) ∙ e in
      ground (
        arith,
        h,
        e',
        get_elem?-change_linked ops i j
            (λ (o : LinkedOperator). record o { related_create_filter = some c }),
      )
  | inr h ↦ ground (
    arith,
    h,
    get_elem?-change_linked ops i j
        (λ (o : LinkedOperator). record o { related_create_filter = some c }),
  )
]

created_at-push :
    (ops : List LinkedOperator) (c i j : ℕ)
    → created_at
        (change_linked c
          (λ (o : LinkedOperator). record o {
            related_probe_filter = o.related_probe_filter ++ i ∷ [];
          })
          ops)
        j
      ≡ created_at ops j
unfolding created_at change_linked
created_at-push [] c i j = refl
created_at-push (o ∷ ops) zero i zero = refl
created_at-push (o ∷ ops) zero i (suc j) = refl
created_at-push (o ∷ ops) (suc c) i zero = refl
created_at-push (o ∷ ops) (suc c) i (suc j) = created_at-push ops c i j

probes_at-set :
    (ops : List LinkedOperator) (i c d : ℕ)
    → probes_at
        (change_linked i (λ (o : LinkedOperator). record o { related_create_filter = some c }) ops)
        d
      ≡ probes_at ops d
unfolding probes_at change_linked
probes_at-set [] i c d = refl
probes_at-set (o ∷ ops) zero c zero = refl
probes_at-set (o ∷ ops) zero c (suc d) = refl
probes_at-set (o ∷ ops) (suc i) c zero = refl
probes_at-set (o ∷ ops) (suc i) c (suc d) = probes_at-set ops i c d

probes_at-push :
    (ops : List LinkedOperator) (c i d : ℕ)
    → c < length ops
    → probes_at
        (change_linked c
          (λ (o : LinkedOperator). record o {
            related_probe_filter = o.related_probe_filter ++ i ∷ [];
          })
          ops)
        d
      ≡ (if c == d then probes_at ops d ++ i ∷ [] else probes_at ops d)
unfolding probes_at change_linked
probes_at-push [] c i d lt = absurd (ground (arith, lt))
probes_at-push (o ∷ ops) zero i zero lt = refl
probes_at-push (o ∷ ops) zero i (suc d) lt = ground arith
probes_at-push (o ∷ ops) (suc c) i zero lt = ground arith
probes_at-push (o ∷ ops) (suc c) i (suc d) lt =
    ground (arith, probes_at-push ops c i d (omega (arith, lt)))

length-change_linked :
    (ops : List LinkedOperator) (i : ℕ) (f : LinkedOperator → LinkedOperator)
    → length (change_linked i f ops) ≡ length ops
unfolding change_linked
length-change_linked [] i f = refl
length-change_linked (o ∷ ops) zero f = refl
length-change_linked (o ∷ ops) (suc i) f = ap suc (length-change_linked ops i f)

created_at-link_pair :
    (i c j : ℕ) (ops : List LinkedOperator)
    → i < length ops
    → created_at (link_pair i c ops) j ≡ (if i == j then some c else created_at ops j)
unfolding link_pair
created_at-link_pair i c j ops lt = created_at-push _ c i j ∙ created_at-set ops i c j lt

probes_at-link_pair :
    (i c d : ℕ) (ops : List LinkedOperator)
    → c < length ops
    → probes_at (link_pair i c ops) d
      ≡ (if c == d then probes_at ops d ++ i ∷ [] else probes_at ops d)
unfolding link_pair
probes_at-link_pair i c d ops lt =
    let ops₁ =
      change_linked i (λ (o : LinkedOperator). record o { related_create_filter = some c }) ops in
    let lt₁ : c < length ops₁ = subst (λ (n : ℕ). c < n) (sym (length-change_linked ops i _)) lt in
    probes_at-push ops₁ c i d lt₁
    ∙ ap (λ (l : List ℕ). if c == d then l ++ i ∷ [] else l) (probes_at-set ops i c d)

-- The first `k` operators are linked, each as it asks, and both ends know of each other.
pub record IsLinkedUpTo (m : CreateMap) (ns : List Node) (k : ℕ) (ops : List LinkedOperator)
    : Type 0 where
  pub same : map operator_of ops ≡ ns
  pub forth : (i : ℕ) → created_at ops i ≡ (if ltb i k then wanted_at m ns i else none)
  pub back : (i c : ℕ) → In i (probes_at ops c) ↔ ((i < k) × (wanted_at m ns i ≡ some c))

skip-IsLinkedUpTo :
    (m : CreateMap) (ns : List Node) (k : ℕ) (ops : List LinkedOperator)
    → wanted_at m ns k ≡ none
    → IsLinkedUpTo m ns k ops
    → IsLinkedUpTo m ns (suc k) ops
skip-IsLinkedUpTo m ns k ops e w =
    let at : (i : ℕ) → (i == k) ≡ true → wanted_at m ns i ≡ none =
      λ i h. ap (wanted_at m ns) ((==_iff i k).0 h) ∙ e in
    record {
      same = w.same;
      forth = λ i. elim (Bool-cases (i == k)) [
        | inl h ↦ ground (arith, h, at i h, w.forth i)
        | inr h ↦ ground (arith, h, w.forth i)
      ];
      back = λ i c. elim (Bool-cases (i == k)) [
        | inl h ↦ ground (arith, h, at i h, w.back i c)
        | inr h ↦ ground (arith, h, w.back i c)
      ];
    }

map-link_pair :
    (k c : ℕ) (ops : List LinkedOperator)
    → map operator_of (link_pair k c ops) ≡ map operator_of ops
unfolding link_pair
map-link_pair k c ops = map-change_linked _ c _ (λ o. refl) ∙ map-change_linked ops k _ (λ o. refl)

wanted_here :
    (m : CreateMap) (ns : List Node) (k : ℕ) (n : Node)
    → get_elem? ns k ≡ some n
    → wanted_at m ns k ≡ (probe_operation n >>= wanted_create m)
unfolding wanted_at
wanted_here m ns k n e =
    ap (λ (o : Option Node). o >>= λ n. probe_operation n >>= wanted_create m) e

pair-IsLinkedUpTo :
    (m : CreateMap) (ns : List Node) (k c : ℕ) (ops : List LinkedOperator)
    → wanted_at m ns k ≡ some c
    → k < length ops
    → c < length ops
    → IsLinkedUpTo m ns k ops
    → IsLinkedUpTo m ns (suc k) (link_pair k c ops)
pair-IsLinkedUpTo m ns k c ops e lt lt' w =
    let at : (i : ℕ) → (i == k) ≡ true → wanted_at m ns i ≡ some c =
      λ i h. ap (wanted_at m ns) ((==_iff i k).0 h) ∙ e in
    record {
      same = map-link_pair k c ops ∙ w.same;
      forth = λ i. elim (Bool-cases (i == k)) [
        | inl h ↦ ground (arith, h, at i h, created_at-link_pair k c i ops lt)
        | inr h ↦ ground (arith, h, w.forth i, created_at-link_pair k c i ops lt)
      ];
      back = λ i d. elim (Bool-cases (c == d)) [
        | inl h ↦
            subst (λ (l : List ℕ). In i l ↔ ((i < suc k) × (wanted_at m ns i ≡ some d)))
              {x = probes_at ops d ++ k ∷ []} (ground (arith, h, probes_at-link_pair k c d ops lt'))
              (elim (Bool-cases (i == k)) [
                | inl h' ↦
                    ground
                      (arith, h, h', at i h', w.back i d, In-append i (probes_at ops d) (k ∷ []))
                | inr h' ↦ ground (arith, h, h', w.back i d, In-append i (probes_at ops d) (k ∷ []))
              ])
        | inr h ↦
            subst (λ (l : List ℕ). In i l ↔ ((i < suc k) × (wanted_at m ns i ≡ some d)))
              {x = probes_at ops d} (ground (arith, h, probes_at-link_pair k c d ops lt'))
              (elim (Bool-cases (i == k)) [
                | inl h' ↦ ground (arith, h, h', at i h', w.back i d)
                | inr h' ↦ ground (arith, h, h', w.back i d)
              ])
      ];
    }

length-operators : (ops : List LinkedOperator) → length (map operator_of ops) ≡ length ops
length-operators [] = refl
length-operators (o ∷ ops) = ap suc (length-operators ops)

-- The rest of a list from a position.
abbrev pub IsRest : List Node → ℕ → List Node → Type 0
IsRest ns k rest = (j : ℕ) → get_elem? rest j ≡ get_elem? ns (k + j)

node_inside : (ns : List Node) (k : ℕ) (n : Node) → get_elem? ns k ≡ some n → k < length ns
node_inside [] k n e = absurd (ground (arith, e))
node_inside (n' ∷ ns) zero n e = omega arith
node_inside (n' ∷ ns) (suc k) n e = omega (arith, node_inside ns k n e)

pub link_probes-IsLinkedUpTo :
    (m : CreateMap) (ns : List Node)
    → ((i c : ℕ) → wanted_at m ns i ≡ some c → c < length ns)
    → (rest : List Node) (k : ℕ) (ops : List LinkedOperator) → IsRest ns k rest
    → IsLinkedUpTo m ns k ops
    → IsLinkedUpTo m ns (k + length rest) (link_probes m k rest ops)
unfolding link_probes
link_probes-IsLinkedUpTo m ns range [] k ops r w =
    subst (λ (x : ℕ). IsLinkedUpTo m ns x ops) {x = k} (omega arith) w
link_probes-IsLinkedUpTo m ns range (n ∷ rest) k ops r w =
    let here : get_elem? ns k ≡ some n =
      subst (λ (x : ℕ). get_elem? ns x ≡ some n) {x = k + 0} (omega arith) (sym (r 0)) in
    let r' : IsRest ns (suc k) rest = λ j. r (suc j) ∙ ap (get_elem? ns) (omega arith) in
    let size : length ops ≡ length ns = sym (length-operators ops) ∙ ap length w.same in
    let go : (ops' : List LinkedOperator)
        → IsLinkedUpTo m ns (suc k) ops'
        → IsLinkedUpTo m ns (k + length (n ∷ rest)) (link_probes m (suc k) rest ops') =
      λ ops' w'.
        subst (λ (x : ℕ). IsLinkedUpTo m ns x (link_probes m (suc k) rest ops'))
          {x = suc k + length rest} (omega arith)
          (link_probes-IsLinkedUpTo m ns range rest (suc k) ops' r' w') in
    elim (Option-cases (probe_operation n >>= wanted_create m)) [
      | inl e ↦
          subst
            (λ (x : List LinkedOperator).
              IsLinkedUpTo m ns (k + length (n ∷ rest)) (link_probes m (suc k) rest x))
            {x = ops} (ground (arith, e))
            (go ops (skip-IsLinkedUpTo m ns k ops (wanted_here m ns k n here ∙ e) w))
      | inr (c, e) ↦
          subst
            (λ (x : List LinkedOperator).
              IsLinkedUpTo m ns (k + length (n ∷ rest)) (link_probes m (suc k) rest x))
            {x = link_pair k c ops} (ground (arith, e))
            (go (link_pair k c ops) (
              pair-IsLinkedUpTo m ns k c ops (wanted_here m ns k n here ∙ e)
                (ground (arith, size, node_inside ns k n here))
                (ground (arith, size, range k c (wanted_here m ns k n here ∙ e))) w))
    ]
