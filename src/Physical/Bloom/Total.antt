-- ===== src/Physical/Bloom/Total.antt =====
-- The bloom filter's calls do not fault on a column that the chunk has.
use robust.Prelude.{
  ℕ, ◌<◌, ◌≡◌, refl, inl, inr, true, not, Option, some, List, [], ◌∷◌, map, lt→ltb, Bool-cases,
}
use robust.Engine.{Engine}
use robust.Physical.Chunk.{DataChunk, column, column_count, cell, no_rows}
use robust.Physical.Bloom.{
  PtBloomFilter, insert, insert_hashes, hash_columns, combine_columns, rehash,
  reinitialize_and_rehash, lookup_sel, lookup_hashes,
}

module _ {V F : Type 0} (engine : Engine V F) where
  open engine use {hash, pack, initialize}

  hash_columns_total :
      (chunk : DataChunk V) (i : ℕ)
      → i < column_count chunk
      → (hs : List ℕ) × (hash_columns engine chunk (i ∷ []) ≡ some hs)
  unfolding hash_columns combine_columns column
  hash_columns_total chunk i h =
      (map hash (map (cell i) chunk.rows), rw (lt→ltb i (column_count chunk) h))

  pub insert_total :
      (bf : PtBloomFilter F) (chunk : DataChunk V) (i : ℕ)
      → i < column_count chunk
      → (bf' : PtBloomFilter F) × (insert engine bf chunk (i ∷ []) ≡ some bf')
  unfolding insert
  insert_total bf chunk i h = elim (Bool-cases (no_rows chunk)) [
    | inl empty ↦ (bf, rw empty)
    | inr filled ↦
        let (hs, hashed) = hash_columns_total chunk i h in
        (
          record bf { native = insert_hashes engine hs bf.native; has_data = true },
          rw (filled, hashed),
        )
  ]

  pub lookup_sel_total :
      (bf : PtBloomFilter F) (chunk : DataChunk V) (i : ℕ)
      → i < column_count chunk
      → (sel : List ℕ) × (lookup_sel engine bf chunk (i ∷ []) ≡ some sel)
  unfolding lookup_sel
  lookup_sel_total bf chunk i h = elim (Bool-cases (no_rows chunk)) [
    | inl empty ↦ ([], rw empty)
    | inr filled ↦
        let (hs, hashed) = hash_columns_total chunk i h in
        (lookup_hashes engine bf.native 0 hs, rw (filled, hashed))
  ]

  rehash_total :
      (shape : DataChunk V) (i : ℕ) (parts : List (List (List (Option V)))) (f : F)
      → i < column_count shape
      → (f' : F) × (rehash engine shape parts (i ∷ []) f ≡ some f')
  unfolding rehash
  rehash_total shape i [] f h = (f, refl)
  rehash_total shape i ([] ∷ parts) f h = rehash_total shape i parts f h
  rehash_total shape i ((r ∷ rows) ∷ parts) f h =
      let (hs, hashed) = hash_columns_total (record shape { rows = r ∷ rows }) i h in
      let (f', rest) = rehash_total shape i parts (insert_hashes engine hs f) h in
      (f', rw hashed rest)

  pub reinitialize_and_rehash_total :
      (n : ℕ) (total : DataChunk V) (i : ℕ) (bf : PtBloomFilter F)
      → i < column_count total
      → (bf' : PtBloomFilter F) × (reinitialize_and_rehash engine n total (i ∷ []) bf ≡ some bf')
  unfolding reinitialize_and_rehash
  reinitialize_and_rehash_total n total i bf h = elim (Bool-cases (no_rows total)) [
    | inl empty ↦ (
      record bf { native = initialize n; sized_for_rows = n; has_data = not (no_rows total) },
      rw empty,
    )
    | inr filled ↦
        let (f, built) = rehash_total total i (pack total.rows) (initialize n) h in
        (
          record bf { native = f; sized_for_rows = n; has_data = not (no_rows total) },
          rw (filled, built),
        )
  ]
