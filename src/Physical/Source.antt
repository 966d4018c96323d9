-- ===== src/Physical/Source.antt =====
-- The parallel source of src/operators/physical_create_filter.cpp: `GetGlobalSourceState` cuts the
-- chunks into ranges, and `GetDataInternal` hands them out. Chunks go by their numbers.
pub mod Laws
pub mod Drain
use robust.Prelude.{
  ℕ, zero, suc, ◌+◌, ◌-◌, ◌*◌, ◌/◌, ◌%◌, ◌^◌, ◌≤◌, ◌<◌, min, max, ◌≡◌, refl, sym, ap, ◌∙◌, subst,
  ◌≢◌, ◌↔◌, ◌⊎◌, inl, inr, Bool, true, false, not, ◌&&◌, ◌||◌, Option, none, some, List, [], ◌∷◌,
  ◌++◌, map, foldl, arith, ltb, leb, ◌==◌, if◌then◌else◌, ltb→lt, lt→ltb, ==_iff, ==_refl,
  Bool-cases, and-eq-true, Option-cases, ◌>>=◌, >>=-eq-some, length, get_elem?, get_or, set,
  replicate, is_empty, tail, length-append, length-set, In, All, All-In, In-append,
}

-- The loop over the threads; the first argument counts the threads that are left.
pub partition : ℕ → ℕ → ℕ → ℕ → List (ℕ × ℕ)
partition zero per_thread chunk_idx chunk_count = []
partition (suc threads) per_thread chunk_idx chunk_count =
    let to = min (chunk_idx + per_thread) chunk_count in
    let rest = partition threads per_thread to chunk_count in
    if chunk_idx == chunk_count then [] else (chunk_idx, to) ∷ rest

pub chunks_per_thread : ℕ → ℕ → ℕ
chunks_per_thread chunk_count threads = max ((chunk_count + threads - 1) / threads) 1

pub record GlobalSource : Type 0 where
  pub chunks_todo : List (ℕ × ℕ)
  pub partition_id : ℕ

pub new_global_source : ℕ → ℕ → GlobalSource
new_global_source chunk_count threads = record {
  chunks_todo = partition threads (chunks_per_thread chunk_count threads) 0 chunk_count;
  partition_id = 0;
}

pub record LocalSource : Type 0 where
  pub initial : Bool
  pub chunk_to : ℕ
  pub local_current_chunk_id : ℕ

pub new_local_source : LocalSource
new_local_source = record { initial = true; chunk_to = 0; local_current_chunk_id = 0 }

pub data SourceResult : Type 0 where
  have_more_output : ℕ → SourceResult
  source_finished : SourceResult

-- the common end of a call: fetch the current chunk, if the range has one left
pub fetch : GlobalSource → LocalSource → GlobalSource × LocalSource × SourceResult
fetch g l = if leb l.chunk_to l.local_current_chunk_id then (g, l, source_finished) else (
  g,
  record l { local_current_chunk_id = l.local_current_chunk_id + 1 },
  have_more_output l.local_current_chunk_id,
)

-- The first call of a local state claims a range by the atomic `fetch_add`.
pub get_data : GlobalSource → LocalSource → GlobalSource × LocalSource × SourceResult
get_data g l =
    let claimed = record g { partition_id = g.partition_id + 1 } in
    let first : GlobalSource × LocalSource × SourceResult =
      elim (get_elem? g.chunks_todo g.partition_id) [
        | none ↦ (claimed, record l { initial = false }, source_finished)
        | some (from, to) ↦
            fetch claimed (record { initial = false; chunk_to = to; local_current_chunk_id = from })
      ] in
    if l.initial then first else fetch g l

-- A thread calls until the source is finished; `none` if `fuel` calls are not enough.
pub drain : ℕ → GlobalSource → LocalSource → Option (GlobalSource × List ℕ)
drain zero g l = none
drain (suc fuel) g l =
    let (g', l', result) = get_data g l in
    elim result [
      | source_finished ↦ some (g', [])
      | have_more_output c ↦ (drain fuel g' l' >>= λ rest. some (rest.0, c ∷ rest.1))
    ]

-- Threads that drain one after the other, each with a local state of its own.
pub drain_all : ℕ → ℕ → GlobalSource → Option (List ℕ)
drain_all fuel zero g = some []
drain_all fuel (suc threads) g =
    drain fuel g new_local_source >>= λ r. drain_all fuel threads r.0 >>= λ rest. some (r.1 ++ rest)
