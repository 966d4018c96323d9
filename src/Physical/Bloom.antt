-- ===== src/Physical/Bloom.antt =====
-- `PTBloomFilter` of src/bloom_filter.cpp and src/include/bloom_filter.hpp, over the native filter.
pub mod Laws
pub mod Total
use robust.Prelude.{
  ℕ, ◌+◌, ◌%◌, ◌^◌, Bool, true, false, not, List, [], ◌∷◌, map, Option, none, some, ltb,
  if◌then◌else◌, not, ◌>>=◌,
}
use robust.Engine.{Engine}
use robust.Physical.Chunk.{DataChunk, column, size, no_rows}

pub record PtBloomFilter (F : Type 0) : Type 0 where
  pub native : F
  pub has_data : Bool
  pub sized_for_rows : ℕ
  pub finalized : Bool

pub new_filter : {F : Type 0} → F → PtBloomFilter F
new_filter b = record { native = b; has_data = false; sized_for_rows = 0; finalized = false }

module _ {V F : Type 0} (engine : Engine V F) where
  open engine use {hash, combine_hash, initialize, insert_hash, lookup_hash, pack}

  -- `CombineHash` of one more column into the hashes of a chunk.
  pub combine_column : List ℕ → List (Option V) → List ℕ
  combine_column [] col = []
  combine_column (h ∷ hs) [] = h ∷ hs
  combine_column (h ∷ hs) (v ∷ col) = combine_hash h v ∷ combine_column hs col

  unfoldable pub combine_columns : DataChunk V → List ℕ → List ℕ → Option (List ℕ)
  combine_columns chunk [] hs = some hs
  combine_columns chunk (c ∷ cols) hs = do
    col ← column chunk c
    combine_columns chunk cols (combine_column hs col)

  -- `cols[0]` of no columns is a fault.
  unfoldable pub hash_columns : DataChunk V → List ℕ → Option (List ℕ)
  hash_columns chunk [] = none
  hash_columns chunk (c ∷ cols) = do col ← column chunk c; combine_columns chunk cols (map hash col)

  unfoldable pub insert_hashes : List ℕ → F → F
  insert_hashes [] f = f
  insert_hashes (h ∷ hs) f = insert_hashes hs (insert_hash h f)

  -- The argument is a `uint32_t`: a larger estimate is cut.
  pub init_filter : ℕ → PtBloomFilter F → PtBloomFilter F
  init_filter est bf = record bf {
    native = initialize (est % 2 ^ 32);
    sized_for_rows = est % 2 ^ 32;
  }

  unfoldable pub insert : PtBloomFilter F → DataChunk V → List ℕ → Option (PtBloomFilter F)
  insert bf chunk cols =
      if no_rows chunk
      then some bf
      else (hash_columns chunk cols >>= λ hs.
          some (record bf { native = insert_hashes hs bf.native; has_data = true }))

  -- The scan of the collection, chunk by chunk.
  unfoldable pub rehash : DataChunk V → List (List (List (Option V))) → List ℕ → F → Option F
  rehash shape [] cols f = some f
  rehash shape (rows ∷ rest) cols f =
      let chunk = record shape { rows = rows } in
      let skipped = rehash shape rest cols f in
      let inserted =
        hash_columns chunk cols >>= λ hs. rehash shape rest cols (insert_hashes hs f) in
      if no_rows chunk then skipped else inserted

  -- `data` holds the rows of the whole collection.
  unfoldable pub reinitialize_and_rehash :
      ℕ → DataChunk V → List ℕ → PtBloomFilter F → Option (PtBloomFilter F)
  unfolding rehash
  reinitialize_and_rehash actual_rows collection cols bf =
      let sized = record bf {
        native = initialize actual_rows;
        sized_for_rows = actual_rows;
        has_data = not (no_rows collection);
      } in
      if no_rows collection
      then some sized
      else (rehash collection (pack collection.rows) cols (initialize actual_rows) >>= λ f.
          some (record sized { native = f }))

  -- `LookupHashes`: the positions, from `i` on, whose hash the filter may hold.
  pub lookup_hashes : F → ℕ → List ℕ → List ℕ
  lookup_hashes f i [] = []
  lookup_hashes f i (h ∷ hs) =
      let rest = lookup_hashes f (i + 1) hs in if lookup_hash h f then i ∷ rest else rest

  -- The selection vector; its length is the count that is returned.
  pub lookup_sel : PtBloomFilter F → DataChunk V → List ℕ → Option (List ℕ)
  lookup_sel bf chunk cols =
      if no_rows chunk
      then some []
      else (hash_columns chunk cols >>= λ hs. some (lookup_hashes bf.native 0 hs))

abbrev pub bloom_is_empty : {F : Type 0} → PtBloomFilter F → Bool
bloom_is_empty bf = not bf.has_data
