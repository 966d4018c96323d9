-- ===== src/Physical/CreateFilter/Build/Ready.antt =====
-- The collections of the threads, which `Combine` of src/operators/physical_create_filter.cpp moves out.
use robust.Prelude.{
  ℕ, ◌≡◌, refl, sym, subst, ◌≢◌, inl, inr, Option, none, some, List, [], ◌∷◌, ◌++◌, arith, ◌==◌,
  ==_iff, Bool-cases, >>=-eq-some, In, All,
}
use mathlib.Core.Option.{some-injective}
use robust.Engine.{Engine}
use robust.Physical.CreateFilter.{LocalSinkState, merge_collections, moved_out, combine}
use robust.Physical.CreateFilter.Build.{Build, Call, sinks, combines, update, step}

abbrev pub thread_of : {V : Type 0} → Call V → ℕ
thread_of (sinks t reg chunk) = t
thread_of (combines t) = t

-- No call of a thread comes after its `Combine`; DuckDB calls it once, when the thread is done.
abbrev pub IsOrdered : {V : Type 0} → List (Call V) → Type 0
IsOrdered [] = Unit {0}
IsOrdered (sinks t reg chunk ∷ cs) = IsOrdered cs
IsOrdered {V} (combines t ∷ cs) = All (λ (c : Call V). thread_of c ≢ t) cs × IsOrdered cs

abbrev pub IsHeld : {V : Type 0} → LocalSinkState V → Type 0
IsHeld {V} l = (held : List (List (Option V))) × (l.local_data ≡ some held)

-- The threads that are still called have their collections, and so have all that were combined.
pub record IsReady {V F : Type 0} (b : Build V F) (cs : List (Call V)) : Type 0 where
  pub live : All (λ (c : Call V). IsHeld (b.locals (thread_of c))) cs
  pub gathered : List (List (Option V))
  pub from : merge_collections b.global.local_data_collections ≡ some gathered

merge_collections-append :
    {A : Type 0} (cs : List (Option (List A))) (rows last : List A)
    → merge_collections cs ≡ some rows
    → (all : List A) × (merge_collections (cs ++ some last ∷ []) ≡ some all)
unfolding merge_collections
merge_collections-append [] rows last e = (last ++ [], refl)
merge_collections-append (none ∷ cs) rows last e = absurd (ground (arith, e))
merge_collections-append (some x ∷ cs) rows last e =
    let (rest, found, _) = >>=-eq-some (merge_collections cs) _ e in
    let (all, more) = merge_collections-append cs rest last found in (x ++ all, rw more refl)

In_all : {A : Type 0} (P : A → Type 0) (xs : List A) → All P xs → (a : A) → In a xs → P a
In_all P [] h a m = absurd m
In_all P (x ∷ xs) h a (inl e) = subst P (sym e) h.0
In_all P (x ∷ xs) h a (inr m) = In_all P xs h.1 a m

live-update :
    {V : Type 0} (f : ℕ → LocalSinkState V) (t : ℕ) (l : LocalSinkState V) (cs : List (Call V))
    → ((c : Call V) → In c cs → thread_of c ≡ t → IsHeld l)
    → All (λ (c : Call V). IsHeld (f (thread_of c))) cs
    → All (λ (c : Call V). IsHeld (update f t l (thread_of c))) cs
live-update f t l [] new old = tt
live-update f t l (c ∷ cs) new old = (
  elim (Bool-cases (t == thread_of c)) [
    | inl same ↦ rw same (new c (inl refl) (sym ((==_iff t (thread_of c)).0 same)))
    | inr other ↦ rw other (old.0)
  ],
  live-update f t l cs (λ x i. new x (inr i)) old.1,
)

module _ {V F : Type 0} where
  pub sink-IsReady :
      (b b' : Build V F) (t : ℕ) (l : LocalSinkState V) (cs : List (Call V)) (c : Call V)
      → IsHeld l
      → b'.locals ≡ update b.locals t l
      → b'.global ≡ b.global
      → IsReady b (c ∷ cs)
      → IsReady b' cs
  sink-IsReady b b' t l cs c held e g w = record {
    live =
        subst (λ (f : ℕ → LocalSinkState V). All (λ (x : Call V). IsHeld (f (thread_of x))) cs)
          (sym e) (live-update b.locals t l cs (λ x i s. held) (w.live.1));
    gathered = w.gathered;
    from = rw g w.from;
  }

  pub combine-IsReady :
      (engine : Engine V F) (b b' : Build V F) (t : ℕ) (cs : List (Call V))
      → step engine b (combines t) ≡ some b'
      → All (λ (c : Call V). thread_of c ≢ t) cs
      → IsReady b (combines t ∷ cs)
      → IsReady b' cs
  unfolding step combine
  combine-IsReady engine b b' t cs ran others w =
      let (held, at) = w.live.0 in
      let (all, more) =
        merge_collections-append b.global.local_data_collections w.gathered held w.from in
      subst (λ (x : Build V F). IsReady x cs) (some-injective _ b' ran)
        (record {
          live =
              live-update b.locals t (moved_out (b.locals t)) cs
                (λ c i s. absurd (In_all (λ (x : Call V). thread_of x ≢ t) cs others c i s))
                (w.live.1);
          gathered = all;
          from = rw at more;
        })
