-- ===== src/Physical/CreateFilter/Filters.antt =====
-- The map of bloom filters under `Sink` and `Finalize`: no key that was built is lost.
use robust.Prelude.{
  Bool, ◌&&◌, ◌||◌, not, is_empty, and-eq-true, ◌∙◌, ℕ, ◌≡◌, refl, subst, ◌⊎◌, inl, inr, true,
  Option, none, some, List, [], ◌∷◌, map, arith, if◌then◌else◌, Bool-cases, Option-cases,
  >>=-eq-some, In,
}
use robust.Column.{ColumnBinding, binding_eq, binding_eq_iff}
use robust.Engine.{Engine}
use robust.Physical.Chunk.{DataChunk}
use robust.Physical.Bloom.{PtBloomFilter, insert}
use robust.Physical.Bloom.Laws.{
  insert-has_data, holds_hash, filter_hit, key_hit, key_hashes, insert-native, insert_hashes_mono,
  insert_hashes-hit,
}
use robust.Physical.CreateFilter.{FilterMap, find_filter, put_filter, insert_all}

pub find_filter-put_filter :
    {F : Type 0} (j k : ColumnBinding) (bf : PtBloomFilter F) (m : FilterMap F)
    → find_filter j (put_filter k bf m) ≡ (if binding_eq k j then some bf else find_filter j m)
unfolding find_filter put_filter
find_filter-put_filter j k bf [] = refl
find_filter-put_filter j k bf ((i, old) ∷ m) = ground (
  arith,
  find_filter-put_filter j k bf m,
  binding_eq_iff k j,
  binding_eq_iff i k,
  binding_eq_iff i j,
)

pub both-eq-true : (a b : Bool) → a ≡ true → b ≡ true → (a && b) ≡ true
both-eq-true a b p q = ground (arith, p, q)

pub In-not_empty : {A : Type 0} (a : A) (xs : List A) → In a xs → not (is_empty xs) ≡ true
In-not_empty a [] i = absurd i
In-not_empty a (x ∷ xs) i = refl

or-not_empty :
    {A : Type 0} (b : Bool) (a : A) (xs : List A) → In a xs → (b || not (is_empty xs)) ≡ true
or-not_empty b a xs i = ground (arith, In-not_empty a xs i, Bool-cases b)

none-ne-some : {A : Type 0} {a : A} → none ≡ some a → ⊥
none-ne-some e = cc

module _ {V F : Type 0} (engine : Engine V F) where
  open engine use {lookup_hash, initialize}

  -- Every filter of `m` is in `m'`, and holds there what it held.
  abbrev pub Kept : FilterMap F → FilterMap F → Type 0
  Kept m m' =
      (col : ColumnBinding) (bf : PtBloomFilter F)
      → find_filter col m ≡ some bf
      → (bf' : PtBloomFilter F) × (find_filter col m' ≡ some bf')
        × ((h : ℕ) → holds_hash engine h bf ≡ true → holds_hash engine h bf' ≡ true)

  Kept-refl : (m : FilterMap F) → Kept m m
  Kept-refl m col bf e = (bf, e, λ h x. x)

  Kept-trans : (a b c : FilterMap F) → Kept a b → Kept b c → Kept a c
  Kept-trans a b c p q col bf e =
      let (bf', e', keep) = p col bf e in
      let (bf'', e'', keep') = q col bf' e' in (bf'', e'', λ h x. keep' h (keep h x))

  same_filter :
      (m : FilterMap F) (k j : ColumnBinding) (bf old : PtBloomFilter F)
      → k ≡ j
      → find_filter k m ≡ some bf
      → find_filter j m ≡ some old
      → old ≡ bf
  same_filter m k j bf old e p q = cc

  Kept-put :
      (m : FilterMap F) (k : ColumnBinding) (bf bf' : PtBloomFilter F)
      → find_filter k m ≡ some bf
      → ((h : ℕ) → holds_hash engine h bf ≡ true → holds_hash engine h bf' ≡ true)
      → Kept m (put_filter k bf' m)
  Kept-put m k bf bf' e keep j old e' = elim (Bool-cases (binding_eq k j)) [
    | inl hit ↦
        let same = same_filter m k j bf old ((binding_eq_iff k j).0 hit) e e' in
        (
          bf',
          rw (find_filter-put_filter j k bf' m, hit) refl,
          λ h x. keep h (subst (λ (b : PtBloomFilter F). holds_hash engine h b ≡ true) same x),
        )
    | inr miss ↦ (old, rw (find_filter-put_filter j k bf' m, miss) e', λ h x. x)
  ]

  -- `rows` of the column at `pos col` are held by the column's filter, for every build column.
  abbrev pub Holds :
      (ColumnBinding → ℕ) → List ColumnBinding → FilterMap F → (List (Option V) → Type 0) → Type 0
  Holds pos cols m P =
      (col : ColumnBinding)
      → In col cols
      → (bf : PtBloomFilter F) × (find_filter col m ≡ some bf)
        × ((row : List (Option V)) → P row → filter_hit engine (pos col) bf row ≡ true)

  holds_more :
      (h : ℕ) (bf bf' : PtBloomFilter F) (chunk : DataChunk V) (i : ℕ)
      → insert engine bf chunk (i ∷ []) ≡ some bf'
      → holds_hash engine h bf ≡ true
      → holds_hash engine h bf' ≡ true
  holds_more h bf bf' chunk i ok x =
      let (marked, held) = and-eq-true bf.has_data (lookup_hash h bf.native) x in
      both-eq-true bf'.has_data (lookup_hash h bf'.native)
        (insert-has_data engine bf bf' chunk i ok ∙ rw marked refl)
        (rw (insert-native engine bf bf' chunk i ok)
          (insert_hashes_mono engine h (key_hashes engine i chunk.rows) bf.native held))

  holds_new :
      (row : List (Option V)) (bf bf' : PtBloomFilter F) (chunk : DataChunk V) (i : ℕ)
      → In row chunk.rows
      → insert engine bf chunk (i ∷ []) ≡ some bf'
      → filter_hit engine i bf' row ≡ true
  holds_new row bf bf' chunk i r ok =
      both-eq-true bf'.has_data (key_hit engine i bf'.native row)
        (insert-has_data engine bf bf' chunk i ok ∙ or-not_empty bf.has_data row chunk.rows r)
        (rw (insert-native engine bf bf' chunk i ok)
          (insert_hashes-hit engine i row chunk.rows bf.native r))

  pub insert-Kept_put :
      (m : FilterMap F) (col : ColumnBinding) (bf bf' : PtBloomFilter F) (chunk : DataChunk V)
      (i : ℕ)
      → find_filter col m ≡ some bf
      → insert engine bf chunk (i ∷ []) ≡ some bf'
      → Kept m (put_filter col bf' m)
  insert-Kept_put m col bf bf' chunk i e ok =
      Kept-put m col bf bf' e λ h x. holds_more h bf bf' chunk i ok x

  -- The loop keeps every filter and adds the chunk's keys to the filter of each build column.
  pub insert_all-Kept :
      (chunk : DataChunk V) (cols : List ColumnBinding) (idxs : List ℕ) (m m' : FilterMap F)
      → insert_all engine chunk cols idxs m ≡ some m'
      → Kept m m'
  unfolding insert_all
  insert_all-Kept chunk [] idxs m m' ok = let e : m ≡ m' = cc in subst (Kept m) e (Kept-refl m)
  insert_all-Kept chunk (col ∷ cols) [] m m' ok = elim (Option-cases (find_filter col m)) [
    | inl missing ↦ insert_all-Kept chunk cols [] m m' (rw (missing, insert_all) at ok)
    | inr (bf, found) ↦ absurd (none-ne-some (rw (found, insert_all) at ok))
  ]
  insert_all-Kept chunk (col ∷ cols) (i ∷ idxs) m m' ok = elim (Option-cases (find_filter col m)) [
    | inl missing ↦ insert_all-Kept chunk cols idxs m m' (rw (missing, insert_all) at ok)
    | inr (bf, found) ↦
        let (bf', inserted, rest) =
          >>=-eq-some (insert engine bf chunk (i ∷ [])) _ (rw (found, insert_all) at ok) in
        Kept-trans m (put_filter col bf' m) m' (insert-Kept_put m col bf bf' chunk i found inserted)
          (insert_all-Kept chunk cols idxs (put_filter col bf' m) m' rest)
  ]

  abbrev pub Present : List ColumnBinding → FilterMap F → Type 0
  Present cols m =
      (col : ColumnBinding) → In col cols → (bf : PtBloomFilter F) × (find_filter col m ≡ some bf)

  pub Present-Kept :
      (cols : List ColumnBinding) (m m' : FilterMap F)
      → Kept m m'
      → Present cols m
      → Present cols m'
  Present-Kept cols m m' k p col i =
      let (bf, found) = p col i in let (bf', found', _) = k col bf found in (bf', found')

  insert_put-hit :
      (m : FilterMap F) (col : ColumnBinding) (bf bf' : PtBloomFilter F) (chunk : DataChunk V)
      (i : ℕ)
      → insert engine bf chunk (i ∷ []) ≡ some bf'
      → (find_filter col (put_filter col bf' m) ≡ some bf')
        × ((row : List (Option V)) → In row chunk.rows → filter_hit engine i bf' row ≡ true)
  insert_put-hit m col bf bf' chunk i ok = (
    rw (find_filter-put_filter col col bf' m, (binding_eq_iff col col).1 refl) refl,
    λ row r. holds_new row bf bf' chunk i r ok,
  )

  -- After the loop the filter of each build column holds the chunk's keys.
  pub insert_all-Holds :
      (pos : ColumnBinding → ℕ) (chunk : DataChunk V) (cols : List ColumnBinding)
      (m m' : FilterMap F)
      → Present cols m
      → insert_all engine chunk cols (map pos cols) m ≡ some m'
      → Holds pos cols m' (λ row. In row chunk.rows)
  unfolding insert_all
  insert_all-Holds pos chunk [] m m' p ok = λ col i. absurd i
  insert_all-Holds pos chunk (c ∷ cols) m m' p ok =
      let (bf, found) = p c (inl refl) in
      let (bf', inserted, rest) =
        >>=-eq-some (insert engine bf chunk (pos c ∷ [])) _ (rw (found, insert_all) at ok) in
      let m₁ = put_filter c bf' m in
      let (at_c, hits) = insert_put-hit m c bf bf' chunk (pos c) inserted in
      let kept = insert_all-Kept chunk cols (map pos cols) m₁ m' rest in
      let present =
        Present-Kept cols m m₁ (insert-Kept_put m c bf bf' chunk (pos c) found inserted)
          (λ x i. p x (inr i)) in
      λ col i. elim i [
        | inl e ↦
            let (bf'', found'', more) = kept c bf' at_c in
            (bf'', rw e found'', rw e (λ row r. more _ (hits row r)))
        | inr i ↦ insert_all-Holds pos chunk cols m₁ m' present rest col i
      ]

  -- What the filters held before the loop they hold after it.
  pub Holds-Kept :
      (pos : ColumnBinding → ℕ) (cols : List ColumnBinding) (m m' : FilterMap F)
      (P : List (Option V) → Type 0)
      → Kept m m'
      → Holds pos cols m P
      → Holds pos cols m' P
  Holds-Kept pos cols m m' P k h col i =
      let (bf, found, hits) = h col i in
      let (bf', found', more) = k col bf found in (bf', found', λ row r. more _ (hits row r))

  pub Holds-both :
      (pos : ColumnBinding → ℕ) (cols : List ColumnBinding) (m : FilterMap F)
      (P Q : List (Option V) → Type 0)
      → Holds pos cols m P
      → Holds pos cols m Q
      → Holds pos cols m (λ row. P row ⊎ Q row)
  Holds-both pos cols m P Q p q col i =
      let (bf, found, hits) = p col i in
      let (bf', found', hits') = q col i in
      let same = same_filter m col col bf bf' refl found found' in
      (
        bf,
        found,
        λ row r. elim r [
          | inl x ↦ hits row x
          | inr x ↦
              subst (λ (b : PtBloomFilter F). filter_hit engine (pos col) b row ≡ true) same
                (hits' row x)
        ],
      )
