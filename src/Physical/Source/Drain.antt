-- ===== src/Physical/Source/Drain.antt =====
-- What the threads fetch from the source, all together.
use mathlib.Core.List.{append_assoc}
use robust.Physical.Source.Laws.{new_global_source-Tiles, Tiles}
use robust.Prelude.{
  sym, length-append, none, refl, ◌≤◌, ◌-◌, get_elem?, length, ℕ, zero, suc, ◌+◌, ◌<◌, ◌≡◌, ap, ◌∙◌,
  false, some, List, [], ◌∷◌, ◌++◌, arith,
}
use robust.Physical.Source.{
  new_global_source, new_local_source, drain_all, GlobalSource, LocalSource, fetch, get_data, drain,
}

-- The numbers from `a` on, `n` of them.
pub count_up : ℕ → ℕ → List ℕ
count_up a zero = []
count_up a (suc n) = a ∷ count_up (a + 1) n

count_up-append : (a n m : ℕ) → count_up a (n + m) ≡ count_up a n ++ count_up (a + n) m
unfolding count_up
count_up-append a zero m =
    ap (λ (x : ℕ). count_up a x) (omega arith) ∙ ap (λ (x : ℕ). count_up x m) (omega arith)
count_up-append a (suc n) m =
    let e : suc n + m ≡ suc (n + m) = omega arith in
    let e' : a + 1 + n ≡ a + suc n = omega arith in
    rw e (
      ap (λ t. a ∷ t)
        (count_up-append (a + 1) n m ∙ ap (λ (x : ℕ). count_up (a + 1) n ++ count_up x m) e'))

abbrev claimed_range : ℕ → ℕ → LocalSource
claimed_range at to = record { initial = false; chunk_to = to; local_current_chunk_id = at }

-- A claimed range is fetched chunk by chunk, and one more call ends the drain.
drain_range :
    (n at to fuel : ℕ) (g : GlobalSource)
    → at + n ≡ to
    → n < fuel
    → drain fuel g (claimed_range at to) ≡ some (g, count_up at n)
unfolding drain get_data fetch count_up
drain_range n at to zero g e h = absurd (omega arith)
drain_range zero at to (suc fuel) g e h = ground arith
drain_range (suc n) at to (suc fuel) g e h = ground (arith, drain_range n (at + 1) to fuel g)

get_elem?-beyond : {A : Type 0} (xs : List A) (i : ℕ) → length xs ≤ i → get_elem? xs i ≡ none
get_elem?-beyond [] i h = refl
get_elem?-beyond (x ∷ xs) zero h = absurd (omega arith)
get_elem?-beyond (x ∷ xs) (suc i) h = get_elem?-beyond xs i (omega arith)

get_elem?-middle :
    {A : Type 0} (xs : List A) (x : A) (ys : List A) → get_elem? (xs ++ x ∷ ys) (length xs) ≡ some x
get_elem?-middle [] x ys = refl
get_elem?-middle (w ∷ xs) x ys = get_elem?-middle xs x ys

drain_new :
    (from to fuel : ℕ) (g : GlobalSource)
    → get_elem? g.chunks_todo g.partition_id ≡ some (from, to)
    → from < to
    → to < fuel
    → drain fuel g new_local_source
      ≡ some (record g { partition_id = g.partition_id + 1 }, count_up from (to - from))
unfolding drain get_data fetch new_local_source
drain_new from to zero g e h enough = absurd (omega arith)
drain_new from to (suc fuel) g e h enough = first ∙ ranged
  where
    claimed : GlobalSource
    claimed = record g { partition_id = g.partition_id + 1 }

    ranged :
        drain (suc fuel) claimed (claimed_range from to) ≡ some (claimed, count_up from (to - from))
    ranged = drain_range (to - from) from to (suc fuel) claimed (omega arith) (omega arith)

    first : drain (suc fuel) g new_local_source ≡ drain (suc fuel) claimed (claimed_range from to)
    first = ground (arith, e)

drain_beyond :
    (fuel : ℕ) (g : GlobalSource)
    → length g.chunks_todo ≤ g.partition_id
    → 0 < fuel
    → drain fuel g new_local_source ≡ some (record g { partition_id = g.partition_id + 1 }, [])
unfolding drain get_data new_local_source
drain_beyond zero g h p = absurd (omega arith)
drain_beyond (suc fuel) g h p = ground (arith, get_elem?-beyond g.chunks_todo g.partition_id h)

drain_all_beyond :
    (threads fuel : ℕ) (g : GlobalSource)
    → length g.chunks_todo ≤ g.partition_id
    → 0 < fuel
    → drain_all fuel threads g ≡ some []
unfolding drain_all
drain_all_beyond zero fuel g h p = refl
drain_all_beyond (suc threads) fuel g h p = ground (
  arith,
  drain_beyond fuel g h p,
  drain_all_beyond threads fuel (record g { partition_id = g.partition_id + 1 }),
)

Tiles-le : (a b : ℕ) (ranges : List (ℕ × ℕ)) → Tiles a ranges b → a ≤ b
Tiles-le a b [] t = omega arith
Tiles-le a b ((from, to) ∷ rest) (e, lt, t) = omega (arith, Tiles-le to b rest t)

drain_all-Tiles :
    (threads fuel a b : ℕ) (done rest : List (ℕ × ℕ)) (g : GlobalSource)
    → g.chunks_todo ≡ done ++ rest
    → g.partition_id ≡ length done
    → Tiles a rest b
    → length rest ≤ threads
    → b < fuel
    → drain_all fuel threads g ≡ some (count_up a (b - a))
unfolding drain_all count_up
drain_all-Tiles threads fuel a b done [] g todo at t room enough =
    drain_all_beyond threads fuel g (omega (arith, ap length todo, length-append done []))
      (omega arith)
    ∙ ap (λ (n : ℕ). some (count_up a n)) (let e : 0 ≡ b - a = omega arith in e)
drain_all-Tiles zero fuel a b done ((from, to) ∷ rest) g todo at t room enough =
    absurd (omega arith)
drain_all-Tiles (suc threads) fuel a b done ((from, to) ∷ rest) g todo at (e, lt, t) room enough =
    let le = Tiles-le to b rest t in
    let found : get_elem? g.chunks_todo g.partition_id ≡ some (from, to) =
      rw (todo, at) (get_elem?-middle done (from, to) rest) in
    let drained = drain_new from to fuel g found (omega arith) (omega arith) in
    let ih =
      drain_all-Tiles threads fuel to b (done ++ (from, to) ∷ []) rest
        (record g { partition_id = g.partition_id + 1 })
        (todo ∙ sym (append_assoc done ((from, to) ∷ []) rest))
        (omega (arith, length-append done ((from, to) ∷ []))) t (omega arith) enough in
    let whole = count_up-append a (to - a) (b - to) in
    let e₁ : to - a + (b - to) ≡ b - a = omega arith in
    let e₂ : a + (to - a) ≡ to = omega arith in ground (arith, drained, ih, whole, e₁, e₂)

-- One or more threads that drain one after the other, each with a local source of its own, fetch
-- every chunk exactly once and in order; one call more than there are chunks is enough for each.
pub drain_all-new_global_source :
    (chunk_count threads : ℕ)
    → 0 < threads
    → drain_all (chunk_count + 1) threads (new_global_source chunk_count threads)
      ≡ some (count_up 0 chunk_count)
unfolding new_global_source
drain_all-new_global_source count threads h =
    let (tiles, few) = new_global_source-Tiles count threads h in
    drain_all-Tiles threads (count + 1) 0 count [] _ (new_global_source count threads) refl refl
      tiles few (omega arith)
    ∙ ap (λ (n : ℕ). some (count_up 0 n)) (omega arith)
