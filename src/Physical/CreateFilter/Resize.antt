-- ===== src/Physical/CreateFilter/Resize.antt =====
-- `Finalize`: undersized filters are rebuilt from the materialised rows.
use robust.Prelude.{
  ℕ, ◌≡◌, refl, ◌∙◌, subst, inl, inr, true, false, Option, some, List, [], ◌∷◌, map, Bool-cases,
  Option-cases, >>=-eq-some, In,
}
use robust.Column.{ColumnBinding, binding_eq, binding_eq_iff}
use robust.Engine.{Engine}
use robust.Physical.Chunk.{DataChunk, size}
use robust.Physical.Bloom.{PtBloomFilter, reinitialize_and_rehash}
use robust.Physical.Bloom.Laws.{filter_hit, key_hit, insert_hashes-hit, reinitialize_and_rehash_lem}
use robust.Physical.CreateFilter.{FilterMap, find_filter, put_filter, must_resize, resize_all}
use robust.Physical.CreateFilter.Filters.{both-eq-true, In-not_empty, find_filter-put_filter, Holds}

module _ {V F : Type 0} (engine : Engine V F) where
  open engine use {initialize, next_power_of_two, le-next_power_of_two}

  -- The filters of the columns that `D` holds of are large enough for `n` rows.
  abbrev pub Sized : ℕ → (ColumnBinding → Type 0) → FilterMap F → Type 0
  Sized n D m =
      (col : ColumnBinding) (bf : PtBloomFilter F)
      → D col
      → find_filter col m ≡ some bf
      → must_resize engine n bf ≡ false

  rebuilt :
      (total : DataChunk V) (i : ℕ) (bf bf' : PtBloomFilter F)
      → reinitialize_and_rehash engine (size total) total (i ∷ []) bf ≡ some bf'
      → (bf'.sized_for_rows ≡ size total)
        × ((row : List (Option V)) → In row total.rows → filter_hit engine i bf' row ≡ true)
  rebuilt total i bf bf' ok =
      let (native, marked, sized, _) =
        reinitialize_and_rehash_lem engine (size total) total.types total.rows i bf bf' ok in
      (
        sized,
        λ row r.
            both-eq-true bf'.has_data (key_hit engine i bf'.native row)
              (marked ∙ In-not_empty row total.rows r)
              (rw native (insert_hashes-hit engine i row total.rows (initialize (size total)) r)),
      )

  Holds-put :
      (pos : ColumnBinding → ℕ) (all : List ColumnBinding) (m : FilterMap F) (c : ColumnBinding)
      (bf' : PtBloomFilter F) (P : List (Option V) → Type 0)
      → ((row : List (Option V)) → P row → filter_hit engine (pos c) bf' row ≡ true)
      → Holds engine pos all m P
      → Holds engine pos all (put_filter c bf' m) P
  Holds-put pos all m c bf' P hits h col i = elim (Bool-cases (binding_eq c col)) [
    | inl same ↦ (
      bf',
      rw (find_filter-put_filter col c bf' m, same) refl,
      let e : c ≡ col = (binding_eq_iff c col).0 same in λ row r. rw (← e) (hits row r),
    )
    | inr apart ↦
        let (bf, found, old) = h col i in
        (bf, rw (find_filter-put_filter col c bf' m, apart) found, old)
  ]

  -- The loop keeps the keys of the rows of `total` in every filter.
  pub resize_all-Holds :
      (pos : ColumnBinding → ℕ) (total : DataChunk V) (all cols : List ColumnBinding)
      (m m' : FilterMap F) (P : List (Option V) → Type 0)
      → ((row : List (Option V)) → P row → In row total.rows)
      → Holds engine pos all m P
      → resize_all engine total cols (map pos cols) m ≡ some m'
      → Holds engine pos all m' P
  unfolding resize_all
  resize_all-Holds pos total all [] m m' P sub h ok =
      let e : m ≡ m' = cc in subst (λ (x : FilterMap F). Holds engine pos all x P) e h
  resize_all-Holds pos total all (c ∷ cols) m m' P sub h ok =
      elim (Option-cases (find_filter c m)) [
        | inl missing ↦
            resize_all-Holds pos total all cols m m' P sub h (rw (missing, resize_all) at ok)
        | inr (bf, found) ↦ elim (Bool-cases (must_resize engine (size total) bf)) [
          | inr fits ↦
              resize_all-Holds pos total all cols m m' P sub h (rw (found, fits, resize_all) at ok)
          | inl small ↦
              let (bf', built, rest) =
                >>=-eq-some (reinitialize_and_rehash engine (size total) total (pos c ∷ []) bf) _
                  (rw (found, small, resize_all) at ok) in
              let (_, hits) = rebuilt total (pos c) bf bf' built in
              resize_all-Holds pos total all cols (put_filter c bf' m) m' P sub
                (Holds-put pos all m c bf' P (λ row r. hits row (sub row r)) h) rest
        ]
      ]
