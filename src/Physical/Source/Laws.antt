-- ===== src/Physical/Source/Laws.antt =====
-- The ranges cover the chunks exactly once, whatever the number of threads.
use robust.Prelude.{
  ℕ, zero, suc, ◌+◌, ◌-◌, ◌*◌, ◌≤◌, ◌<◌, min, ◌≡◌, refl, inl, inr, List, [], ◌∷◌, arith, ◌==◌,
  ==_iff, Bool-cases, length,
}
use native.Mathlib.Nat.{div-add-mod, mod-lt}
use robust.Physical.Source.{partition, chunks_per_thread, new_global_source}

-- The ranges are not empty and follow one another from `a` to `b`.
abbrev pub Tiles : ℕ → List (ℕ × ℕ) → ℕ → Type 0
Tiles a [] b = a ≡ b
Tiles a ((from, to) ∷ rest) b = (from ≡ a) × (a < to) × Tiles to rest b

partition-Tiles :
    (threads per_thread a b : ℕ)
    → a ≤ b
    → 0 < per_thread
    → b ≤ a + threads * per_thread
    → Tiles a (partition threads per_thread a b) b
unfolding partition
partition-Tiles zero per a b h p enough = omega arith
partition-Tiles (suc n) per a b h p enough = elim (Bool-cases (a == b)) [
  | inl done ↦ rw done ((==_iff a b).0 done)
  | inr more ↦
      rw more
        (refl, grind arith, partition-Tiles n per (min (a + per) b) b (omega arith) p (grind arith))
]

at_least_one : (count threads : ℕ) → 0 < chunks_per_thread count threads
unfolding chunks_per_thread
at_least_one count threads = omega arith

ceiling : (count threads : ℕ) → 0 < threads → count ≤ threads * chunks_per_thread count threads
unfolding chunks_per_thread
ceiling count threads h =
    grind (arith, div-add-mod (count + threads - 1) threads, mod-lt (count + threads - 1) h)

length-partition : (threads per a b : ℕ) → length (partition threads per a b) ≤ threads
unfolding partition
length-partition zero per a b = omega arith
length-partition (suc n) per a b = ground (arith, length-partition n per (min (a + per) b) b)

-- With at least one thread the ranges tile all chunks, and there are no more of them than threads.
pub new_global_source-Tiles :
    (chunk_count threads : ℕ)
    → 0 < threads
    → Tiles 0 (new_global_source chunk_count threads).chunks_todo chunk_count
      × (length (new_global_source chunk_count threads).chunks_todo ≤ threads)
unfolding new_global_source
new_global_source-Tiles count threads h = (
  partition-Tiles threads (chunks_per_thread count threads) 0 count (omega arith)
      (at_least_one count threads) (omega (arith, ceiling count threads h)),
  length-partition threads (chunks_per_thread count threads) 0 count,
)
