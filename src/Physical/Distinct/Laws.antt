-- ===== src/Physical/Distinct/Laws.antt =====
-- The tracked set is exact until it outgrows the threshold, and then the column really has more
-- distinct values than the threshold.
use robust.Prelude.{
  ℕ, ◌≤◌, ◌<◌, ◌≡◌, refl, ap, ◌↔◌, ◌⊎◌, inl, inr, true, false, Option, none, some, List, [], ◌∷◌,
  map, arith, ltb, Bool-cases, length, In,
}
use robust.Engine.{Engine}
use robust.Physical.Distinct.{
  ColumnDistinct, contains, insert_value, track_rows, track_distinct, merge_values, merge_distinct,
}

abbrev pub Unique : {V : Type 0} → List V → Type 0
Unique [] = Unit {0}
Unique (v ∷ vs) = (¬ In v vs) × Unique vs

module _ {V F : Type 0} (engine : Engine V F) where
  open engine use {value_eq, value_eq_iff}

  -- `ws` is the set of the values that `P` holds of, and no larger than the threshold.
  pub record IsSetOf (threshold : ℕ) (ws : List V) (P : V → Type 0) : Type 0 where
    pub unique : Unique ws
    pub small : length ws ≤ threshold
    pub sound : (v : V) → In v ws → P v
    pub full : (v : V) → P v → In v ws

  -- More values than the threshold, all different, of which `P` holds.
  pub record Exceeds (threshold : ℕ) (P : V → Type 0) : Type 0 where
    pub found : List V
    pub found_unique : Unique found
    pub many : threshold < length found
    pub found_in : (v : V) → In v found → P v

  abbrev pub Tracks : ℕ → ColumnDistinct V → (V → Type 0) → Type 0
  Tracks threshold cd P =
      ((cd.over_threshold ≡ false) × IsSetOf threshold cd.values P)
      ⊎ ((cd.over_threshold ≡ true) × (cd.values ≡ []) × Exceeds threshold P)

  contains_iff : (ws : List V) (v : V) → (contains engine ws v ≡ true) ↔ In v ws
  unfolding contains
  contains_iff [] v = (λ h. cc, λ h. absurd h)
  contains_iff (w ∷ ws) v = ground (arith, contains_iff ws v, value_eq_iff w v)

  record Inserted (v : V) (ws vs : List V) : Type 0 where
    unique : Unique vs
    sound : (x : V) → In x vs → In x ws ⊎ (x ≡ v)
    full : (x : V) → In x ws ⊎ (x ≡ v) → In x vs

  insert_value-Inserted :
      (v : V) (ws : List V) → Unique ws → Inserted v ws (insert_value engine v ws)
  unfolding insert_value
  insert_value-Inserted v ws u = elim (Bool-cases (contains engine ws v)) [
    | inl old ↦ rw old (record {
      unique = u;
      sound = λ x h. inl h;
      full = λ x h. elim h [ inl m ↦ m | inr e ↦ rw e ((contains_iff ws v).0 old) ];
    })
    | inr new ↦ rw new (record {
      unique = (λ m. cc ((contains_iff ws v).1 m), u);
      sound = λ x h. elim h [ inl e ↦ inr e | inr m ↦ inl m ];
      full = λ x h. elim h [ inl m ↦ inr m | inr e ↦ inl e ];
    })
  ]

  IsSetOf-iff :
      (t : ℕ) (ws : List V) (P Q : V → Type 0)
      → ((v : V) → P v ↔ Q v)
      → IsSetOf t ws P
      → IsSetOf t ws Q
  IsSetOf-iff t ws P Q e s = record {
    unique = s.unique;
    small = s.small;
    sound = λ v m. (e v).0 (s.sound v m);
    full = λ v q. s.full v ((e v).1 q);
  }

  Exceeds-mono : (t : ℕ) (P Q : V → Type 0) → ((v : V) → P v → Q v) → Exceeds t P → Exceeds t Q
  Exceeds-mono t P Q e x = record {
    found = x.found;
    found_unique = x.found_unique;
    many = x.many;
    found_in = λ v m. e v (x.found_in v m);
  }

  pub Tracks-iff :
      (t : ℕ) (cd : ColumnDistinct V) (P Q : V → Type 0)
      → ((v : V) → P v ↔ Q v)
      → Tracks t cd P
      → Tracks t cd Q
  Tracks-iff t cd P Q e (inl (o, s)) = inl (o, IsSetOf-iff t cd.values P Q e s)
  Tracks-iff t cd P Q e (inr (o, n, x)) = inr (o, n, Exceeds-mono t P Q (λ v. (e v).0) x)

  insert-IsSetOf :
      (t : ℕ) (ws vs : List V) (w : V) (P : V → Type 0)
      → IsSetOf t ws P
      → Inserted w ws vs
      → ltb t (length vs) ≡ false
      → IsSetOf t vs (λ v. P v ⊎ (v ≡ w))
  insert-IsSetOf t ws vs w P s i e = record {
    unique = i.unique;
    small = ground arith;
    sound = λ v m. elim (i.sound v m) [ inl x ↦ inl (s.sound v x) | inr x ↦ inr x ];
    full = λ v h. i.full v (elim h [ inl p ↦ inl (s.full v p) | inr x ↦ inr x ]);
  }

  insert-Exceeds :
      (t : ℕ) (ws vs : List V) (w : V) (P : V → Type 0)
      → IsSetOf t ws P
      → Inserted w ws vs
      → ltb t (length vs) ≡ true
      → Exceeds t (λ v. P v ⊎ (v ≡ w))
  insert-Exceeds t ws vs w P s i e = record {
    found = vs;
    found_unique = i.unique;
    many = ground arith;
    found_in = λ v m. elim (i.sound v m) [ inl x ↦ inl (s.sound v x) | inr x ↦ inr x ];
  }

  regroup :
      (P : V → Type 0) (w v : V) (cells : List (Option V))
      → ((P v ⊎ (v ≡ w)) ⊎ In (some v) cells) ↔ (P v ⊎ In (some v) (some w ∷ cells))
  regroup P w v cells = (
    λ h. elim h [ inl (inl x) ↦ inl x | inl (inr e) ↦ inr (inl (ap some e)) | inr x ↦ inr (inr x) ],
    λ h. elim h [ inl x ↦ inl (inl x) | inr (inl e) ↦ inl (inr (cc)) | inr (inr x) ↦ inr x ],
  )

  track_rows-Tracks :
      (t : ℕ) (cells : List (Option V)) (ws : List V) (P : V → Type 0)
      → IsSetOf t ws P
      → Tracks t (track_rows engine t cells ws) (λ v. P v ⊎ In (some v) cells)
  unfolding track_rows
  track_rows-Tracks t [] ws P s =
      inl (refl, IsSetOf-iff t ws P _ (λ v. (inl, λ h. elim h [ inl p ↦ p | inr m ↦ absurd m ])) s)
  track_rows-Tracks t (none ∷ cells) ws P s =
      Tracks-iff t (track_rows engine t cells ws) _ _
        (λ v. (
          λ h. elim h [ inl x ↦ inl x | inr x ↦ inr (inr x) ],
          λ h. elim h [ inl x ↦ inl x | inr (inl e) ↦ cc | inr (inr x) ↦ inr x ],
        ))
        (track_rows-Tracks t cells ws P s)
  track_rows-Tracks t (some w ∷ cells) ws P s =
      let i = insert_value-Inserted w ws s.unique in
      let vs = insert_value engine w ws in
      elim (Bool-cases (ltb t (length (insert_value engine w ws)))) [
        | inl over ↦ rw over (
            inr (
              refl,
              refl,
              Exceeds-mono t _ _ (λ v h. (regroup P w v cells).0 (inl h))
                  (insert-Exceeds t ws vs w P s i over),
            ))
        | inr within ↦ rw within (
            Tracks-iff t (track_rows engine t cells vs) _ _ (λ v. regroup P w v cells)
              (track_rows-Tracks t cells vs (λ v. P v ⊎ (v ≡ w))
                (insert-IsSetOf t ws vs w P s i within)))
      ]

  -- A state that tracks a set of values, which is to hold exactly them without duplicates up to the
  -- threshold, or to be marked when there are more, tracks the set with the values of a chunk's
  -- column other than NULL afterwards.
  pub track_distinct-Tracks :
      (t : ℕ) (cells : List (Option V)) (cd : ColumnDistinct V) (P : V → Type 0)
      → Tracks t cd P
      → Tracks t (track_distinct engine t cells cd) (λ v. P v ⊎ In (some v) cells)
  unfolding track_distinct
  track_distinct-Tracks t cells cd P (inl (o, s)) = rw o (track_rows-Tracks t cells cd.values P s)
  track_distinct-Tracks t cells cd P (inr (o, n, x)) =
      rw o (inr (refl, n, Exceeds-mono t P _ (λ v. inl) x))

  merge_values-track_rows :
      (t : ℕ) (vs ws : List V) → merge_values engine t vs ws ≡ track_rows engine t (map some vs) ws
  unfolding merge_values track_rows
  merge_values-track_rows t [] ws = refl
  merge_values-track_rows t (v ∷ vs) ws =
      ground (arith, merge_values-track_rows t vs (insert_value engine v ws))

  In-map-some : (v : V) (vs : List V) → In (some v) (map some vs) ↔ In v vs
  In-map-some v [] = (λ h. h, λ h. h)
  In-map-some v (w ∷ vs) = (
    λ h. elim h [ inl e ↦ inl (cc) | inr m ↦ inr ((In-map-some v vs).0 m) ],
    λ h. elim h [ inl e ↦ inl (ap some e) | inr m ↦ inr ((In-map-some v vs).1 m) ],
  )

  -- Merging what a thread tracks into the global state, by the same threshold, tracks the values of
  -- both.
  pub merge_distinct-Tracks :
      (t : ℕ) (g l : ColumnDistinct V) (P Q : V → Type 0)
      → Tracks t g P
      → Tracks t l Q
      → Tracks t (merge_distinct engine t g l) (λ v. P v ⊎ Q v)
  unfolding merge_distinct
  merge_distinct-Tracks t g l P Q (inr (o, n, x)) q =
      rw o (inr (refl, n, Exceeds-mono t P _ (λ v. inl) x))
  merge_distinct-Tracks t g l P Q (inl (o, s)) (inr (o', n, x)) =
      rw (o, o') (inr (refl, refl, Exceeds-mono t Q _ (λ v. inr) x))
  merge_distinct-Tracks t g l P Q (inl (o, s)) (inl (o', s')) =
      rw (o, o')
        (rw (merge_values-track_rows t l.values g.values) (
          Tracks-iff t (track_rows engine t (map some l.values) g.values) _ _
            (λ v. (
              λ h. elim h [
                | inl p ↦ inl p
                | inr m ↦ inr (s'.sound v ((In-map-some v l.values).0 m))
              ],
              λ h. elim h [
                | inl p ↦ inl p
                | inr q ↦ inr ((In-map-some v l.values).1 (s'.full v q))
              ],
            ))
            (track_rows-Tracks t (map some l.values) g.values P s)))
