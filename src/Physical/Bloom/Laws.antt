-- ===== src/Physical/Bloom/Laws.antt =====
-- What src/bloom_filter.cpp promises of a single key column: no key that was inserted is missed.
use robust.Prelude.{
  Bool-cases, ◌&&◌, ◌||◌, ℕ, ◌+◌, ◌≡◌, refl, ap, ◌↔◌, inl, inr, Bool, true, not, Option, some, List,
  [], ◌∷◌, ◌++◌, map, arith, if◌then◌else◌, >>=-eq-some, length, is_empty, In,
}
use robust.Engine.{Engine, concat}
use robust.Physical.Chunk.{DataChunk, LogicalTypeId, column, cell, gather}
use robust.Physical.Bloom.{
  PtBloomFilter, combine_columns, hash_columns, insert_hashes, insert, rehash,
  reinitialize_and_rehash, lookup_hashes, lookup_sel,
}

-- The rows that pass a test, in their order.
abbrev pub keep_rows : {A : Type 0} → (A → Bool) → List A → List A
keep_rows p [] = []
keep_rows p (r ∷ rs) = if p r then r ∷ keep_rows p rs else keep_rows p rs

module _ {V F : Type 0} (engine : Engine V F) where
  open engine use {
    hash, initialize, insert_hash, lookup_hash, lookup-insert_self, lookup-insert_mono, pack,
    concat-pack,
  }

  -- The hashes of a chunk on one column.
  abbrev pub key_hashes : ℕ → List (List (Option V)) → List ℕ
  key_hashes c rows = map hash (map (cell c) rows)

  abbrev pub key_hit : ℕ → F → List (Option V) → Bool
  key_hit c f row = lookup_hash (hash (cell c row)) f

  pub hash_columns-single :
      (chunk : DataChunk V) (c : ℕ) (hs : List ℕ)
      → hash_columns engine chunk (c ∷ []) ≡ some hs
      → hs ≡ key_hashes c chunk.rows
  unfolding hash_columns combine_columns column
  hash_columns-single chunk c hs h = ground arith

  pub insert_hashes_mono :
      (h : ℕ) (hs : List ℕ) (f : F)
      → lookup_hash h f ≡ true
      → lookup_hash h (insert_hashes engine hs f) ≡ true
  unfolding insert_hashes
  insert_hashes_mono h [] f e = e
  insert_hashes_mono h (k ∷ hs) f e =
      insert_hashes_mono h hs (insert_hash k f) (lookup-insert_mono h k f e)

  pub insert_hashes-hit :
      (c : ℕ) (row : List (Option V)) (rows : List (List (Option V))) (f : F)
      → In row rows
      → key_hit c (insert_hashes engine (key_hashes c rows) f) row ≡ true
  unfolding insert_hashes
  insert_hashes-hit c row [] f m = absurd m
  insert_hashes-hit c row (r ∷ rows) f (inl e) =
      insert_hashes_mono (hash (cell c row)) (key_hashes c rows) (insert_hash (hash (cell c r)) f)
        (rw e (lookup-insert_self (hash (cell c r)) f))
  insert_hashes-hit c row (r ∷ rows) f (inr m) =
      insert_hashes-hit c row rows (insert_hash (hash (cell c r)) f) m

  insert-native_rows :
      (bf bf' : PtBloomFilter F) (types : List LogicalTypeId) (rows : List (List (Option V)))
      (c : ℕ)
      → insert engine bf (record { types = types; rows = rows }) (c ∷ []) ≡ some bf'
      → bf'.native ≡ insert_hashes engine (key_hashes c rows) bf.native
  unfolding insert insert_hashes
  insert-native_rows bf bf' types [] c e = ground arith
  insert-native_rows bf bf' types (r ∷ rows) c e =
      let chunk : DataChunk V = record { types = types; rows = r ∷ rows } in
      let (hs, found, same) = >>=-eq-some (hash_columns engine chunk (c ∷ [])) _ e in
      let keys = hash_columns-single chunk c hs found in ground (arith, same, keys)

  -- An insertion that succeeds has inserted the key hashes, also of no rows.
  pub insert-native :
      (bf bf' : PtBloomFilter F) (chunk : DataChunk V) (c : ℕ)
      → insert engine bf chunk (c ∷ []) ≡ some bf'
      → bf'.native ≡ insert_hashes engine (key_hashes c chunk.rows) bf.native
  insert-native bf bf' chunk c e = insert-native_rows bf bf' chunk.types chunk.rows c e

  insert-has_data_rows :
      (bf bf' : PtBloomFilter F) (types : List LogicalTypeId) (rows : List (List (Option V)))
      (c : ℕ)
      → insert engine bf (record { types = types; rows = rows }) (c ∷ []) ≡ some bf'
      → bf'.has_data ≡ (bf.has_data || not (is_empty rows))
  unfolding insert
  insert-has_data_rows bf bf' types [] c e = ground (arith, e, Bool-cases bf.has_data)
  insert-has_data_rows bf bf' types (r ∷ rows) c e =
      let chunk : DataChunk V = record { types = types; rows = r ∷ rows } in
      let (hs, found, same) = >>=-eq-some (hash_columns engine chunk (c ∷ [])) _ e in
      ground (arith, same, Bool-cases bf.has_data)

  pub insert-has_data :
      (bf bf' : PtBloomFilter F) (chunk : DataChunk V) (c : ℕ)
      → insert engine bf chunk (c ∷ []) ≡ some bf'
      → bf'.has_data ≡ (bf.has_data || not (is_empty chunk.rows))
  insert-has_data bf bf' chunk c e = insert-has_data_rows bf bf' chunk.types chunk.rows c e

  -- whether the filter may hold a hash, and the key of a row
  abbrev pub holds_hash : ℕ → PtBloomFilter F → Bool
  holds_hash h bf = bf.has_data && lookup_hash h bf.native

  abbrev pub filter_hit : ℕ → PtBloomFilter F → List (Option V) → Bool
  filter_hit c bf row = holds_hash (hash (cell c row)) bf

  pub insert_hashes-append :
      (hs ks : List ℕ) (f : F)
      → insert_hashes engine (hs ++ ks) f ≡ insert_hashes engine ks (insert_hashes engine hs f)
  unfolding insert_hashes
  insert_hashes-append [] ks f = refl
  insert_hashes-append (h ∷ hs) ks f = insert_hashes-append hs ks (insert_hash h f)

  pub key_hashes-append :
      (c : ℕ) (xs ys : List (List (Option V)))
      → key_hashes c (xs ++ ys) ≡ key_hashes c xs ++ key_hashes c ys
  key_hashes-append c [] ys = refl
  key_hashes-append c (x ∷ xs) ys = ap (λ t. hash (cell c x) ∷ t) (key_hashes-append c xs ys)

  -- A rehash that succeeds has inserted the key hashes of all chunks, the empty ones skipped.
  rehash-native :
      (shape : DataChunk V) (parts : List (List (List (Option V)))) (c : ℕ) (f f' : F)
      → rehash engine shape parts (c ∷ []) f ≡ some f'
      → f' ≡ insert_hashes engine (key_hashes c (concat parts)) f
  unfolding rehash insert_hashes
  rehash-native shape [] c f f' e = ground arith
  rehash-native shape ([] ∷ rest) c f f' e = rehash-native shape rest c f f' e
  rehash-native shape ((r ∷ rows) ∷ rest) c f f' e =
      let (hs, found, rest_ok) =
        >>=-eq-some (hash_columns engine (record shape { rows = r ∷ rows }) (c ∷ [])) _ e in
      let keys = hash_columns-single (record shape { rows = r ∷ rows }) c hs found in
      let ih = rehash-native shape rest c (insert_hashes engine hs f) f' rest_ok in
      ground (
        arith,
        ih,
        keys,
        insert_hashes-append (key_hashes c (r ∷ rows)) (key_hashes c (concat rest)) f,
        key_hashes-append c (r ∷ rows) (concat rest),
      )

  gather-lookup_hashes_succ :
      (f : F) (hs : List ℕ) (i : ℕ) (r : List (Option V)) (rows : List (List (Option V)))
      → gather (lookup_hashes engine f (i + 1) hs) (r ∷ rows)
        ≡ gather (lookup_hashes engine f i hs) rows
  unfolding gather lookup_hashes
  gather-lookup_hashes_succ f [] i r rows = refl
  gather-lookup_hashes_succ f (h ∷ hs) i r rows =
      ground (arith, gather-lookup_hashes_succ f hs (i + 1) r rows)

  -- The positions that pass, gathered, are the rows that pass.
  pub gather-lookup_hashes :
      (c : ℕ) (f : F) (rows : List (List (Option V)))
      → gather (lookup_hashes engine f 0 (key_hashes c rows)) rows ≡ keep_rows (key_hit c f) rows
  unfolding gather lookup_hashes
  gather-lookup_hashes c f [] = refl
  gather-lookup_hashes c f (r ∷ rows) = ground (
    arith,
    gather-lookup_hashes c f rows,
    gather-lookup_hashes_succ f (key_hashes c rows) 0 r rows,
  )

  -- `keep_rows` keeps a row exactly if the row was there and passes.
  pub In-keep_rows :
      {A : Type 0} (p : A → Bool) (a : A) (rows : List A)
      → In a (keep_rows p rows) ↔ (In a rows × (p a ≡ true))
  In-keep_rows p a [] = (λ h. absurd h, λ h. absurd h.0)
  In-keep_rows p a (r ∷ rows) = ground (arith, In-keep_rows p a rows, ap p)

  pub length-lookup_hashes :
      (c : ℕ) (f : F) (i : ℕ) (rows : List (List (Option V)))
      → length (lookup_hashes engine f i (key_hashes c rows))
        ≡ length (keep_rows (key_hit c f) rows)
  unfolding lookup_hashes
  length-lookup_hashes c f i [] = refl
  length-lookup_hashes c f i (r ∷ rows) = ground (arith, length-lookup_hashes c f (i + 1) rows)

  lookup_sel_rows :
      (bf : PtBloomFilter F) (types : List LogicalTypeId) (rows : List (List (Option V))) (c : ℕ)
      (sel : List ℕ)
      → lookup_sel engine bf (record { types = types; rows = rows }) (c ∷ []) ≡ some sel
      → sel ≡ lookup_hashes engine bf.native 0 (key_hashes c rows)
  unfolding lookup_sel lookup_hashes
  lookup_sel_rows bf types [] c sel e = ground arith
  lookup_sel_rows bf types (r ∷ rows) c sel e =
      let chunk : DataChunk V = record { types = types; rows = r ∷ rows } in
      let (hs, found, same) = >>=-eq-some (hash_columns engine chunk (c ∷ [])) _ e in
      ground (arith, same, hash_columns-single chunk c hs found)

  -- A lookup selects, in their order, exactly the rows whose key the filter may hold.
  pub lookup_sel-keep_rows :
      (bf : PtBloomFilter F) (chunk : DataChunk V) (c : ℕ) (sel : List ℕ)
      → lookup_sel engine bf chunk (c ∷ []) ≡ some sel
      → (gather sel chunk.rows ≡ keep_rows (key_hit c bf.native) chunk.rows)
        × (length sel ≡ length (keep_rows (key_hit c bf.native) chunk.rows))
  lookup_sel-keep_rows bf chunk c sel e =
      let same = lookup_sel_rows bf chunk.types chunk.rows c sel e in
      rw same
        (gather-lookup_hashes c bf.native chunk.rows, length-lookup_hashes c bf.native 0 chunk.rows)

  -- A resize that succeeds makes the filter hold the key of every row of the collection, and marks
  -- it non-empty exactly if the collection has a row.
  pub reinitialize_and_rehash_lem :
      (rows_hint : ℕ) (types : List LogicalTypeId) (rows : List (List (Option V))) (c : ℕ)
      (bf bf' : PtBloomFilter F)
      → reinitialize_and_rehash engine rows_hint (record { types = types; rows = rows }) (c ∷ []) bf
        ≡ some bf'
      → (bf'.native ≡ insert_hashes engine (key_hashes c rows) (initialize rows_hint))
        × (bf'.has_data ≡ not (is_empty rows))
        × (bf'.sized_for_rows ≡ rows_hint)
        × (bf'.finalized ≡ bf.finalized)
  unfolding reinitialize_and_rehash insert_hashes
  reinitialize_and_rehash_lem n types [] c bf bf' e = ground arith
  reinitialize_and_rehash_lem n types (r ∷ rows) c bf bf' e =
      let chunk : DataChunk V = record { types = types; rows = r ∷ rows } in
      let (f, built, same) =
        >>=-eq-some (rehash engine chunk (pack (r ∷ rows)) (c ∷ []) (initialize n)) _ e in
      let native = rehash-native chunk (pack (r ∷ rows)) c (initialize n) f built in
      ground (arith, same, native, concat-pack (r ∷ rows))
