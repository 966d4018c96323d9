-- ===== src/Tests/Fixtures.antt =====
-- Values, filters and operators for the examples.
use robust.Prelude.{
  true, not, ◌&&◌, ◌↔◌, not, true, ℕ, zero, suc, ◌+◌, ◌*◌, ◌≤◌, max, ◌≡◌, refl, ap, Bool, false,
  ◌||◌, Option, none, some, List, [], ◌∷◌, arith, ltb, leb, ◌==◌, if◌then◌else◌, ==_iff,
}
use robust.Engine.{Engine, concat}

abbrev pub has_hash : ℕ → List ℕ → Bool
has_hash h [] = false
has_hash h (k ∷ ks) = k == h || has_hash h ks

-- the least power of two from `p` on that is `n` at least, within some doublings
unfoldable pub double_to : ℕ → ℕ → ℕ → ℕ
double_to zero n p = max n p
double_to (suc fuel) n p = if leb n p then p else double_to fuel n (p + p)

pub le-double_to : (fuel n p : ℕ) → n ≤ double_to fuel n p
unfolding double_to
le-double_to zero n p = ground arith
le-double_to (suc fuel) n p = ground (arith, le-double_to fuel n (p + p))

abbrev pub single_rows : {V : Type 0} → List (List (Option V)) → List (List (List (Option V)))
single_rows [] = []
single_rows (r ∷ rs) = (r ∷ []) ∷ single_rows rs

pub concat-single_rows :
    {V : Type 0} (rows : List (List (Option V))) → concat (single_rows rows) ≡ rows
concat-single_rows [] = refl
concat-single_rows (r ∷ rs) = ap (λ t. r ∷ t) (concat-single_rows rs)

-- numbers as values, and a list of hashes as a filter
abbrev pub numbers : Engine ℕ (List ℕ)
numbers = record {
  less = ltb;
  less-irrefl = λ a. ground arith;
  less-trans = λ a b c h k. ground (arith, h, k);
  less-total = λ a b h k. ground (arith, h, k);
  is_nan = λ a. false;
  raw_less = ltb;
  raw_less-less = λ a b h k. refl;
  raw_less-nan = λ a b h. absurd (ground (arith, h));
  less-nan = λ a b h k. absurd (ground (arith, h));
  value_eq = λ a b. a == b;
  value_eq_iff = ==_iff;
  hash = λ v. elim v [ none ↦ 0 | some n ↦ suc n ];
  combine_hash = λ h v. elim v [ none ↦ h * 31 | some n ↦ h * 31 + suc n ];
  blank = [];
  initialize = λ n. [];
  insert_hash = λ h f. h ∷ f;
  lookup_hash = λ h f. has_hash h f;
  lookup-insert_self = λ h f. ground arith;
  lookup-insert_mono = λ h k f e. ground (arith, e);
  pack = single_rows;
  concat-pack = concat-single_rows;
  next_power_of_two = λ n. double_to 64 n 1;
  le-next_power_of_two = λ n. le-double_to 64 n 1;
}

unfoldable pub bool_eq : Bool → Bool → Bool
bool_eq true b = b
bool_eq false b = not b

pub bool_eq_iff : (a b : Bool) → (bool_eq a b ≡ true) ↔ (a ≡ b)
unfolding bool_eq
bool_eq_iff true true = (λ e. refl, λ e. refl)
bool_eq_iff true false = (λ e. cc, λ e. cc)
bool_eq_iff false true = (λ e. cc, λ e. cc)
bool_eq_iff false false = (λ e. refl, λ e. refl)

unfoldable pub before_nan : Bool → Bool → Bool
before_nan a b = not a && b

pub before_nan_irrefl : (a : Bool) → before_nan a a ≡ false
unfolding before_nan
before_nan_irrefl true = refl
before_nan_irrefl false = refl

pub before_nan_trans :
    (a b c : Bool) → before_nan a b ≡ true → before_nan b c ≡ true → before_nan a c ≡ true
unfolding before_nan
before_nan_trans a b c h k = ground (arith, h, k)

pub before_nan_total : (a b : Bool) → before_nan a b ≡ false → before_nan b a ≡ false → a ≡ b
unfolding before_nan
before_nan_total true true h k = refl
before_nan_total true false h k = absurd (ground (arith, k))
before_nan_total false true h k = absurd (ground (arith, h))
before_nan_total false false h k = refl

pub no_raw_order : (a b : Bool) → a ≡ false → b ≡ false → false ≡ before_nan a b
unfolding before_nan
no_raw_order a b h k = ground (arith, h, k)

pub nan_last : (a b : Bool) → a ≡ true → b ≡ false → before_nan b a ≡ true
unfolding before_nan
nan_last a b h k = ground (arith, h, k)

abbrev pub hash_bool : Option Bool → ℕ
hash_bool v = elim v [ none ↦ 0 | some b ↦ if b then 2 else 1 ]

-- a FLOAT column of zeros and NaNs, a NaN as true
abbrev pub zeros_and_nans : Engine Bool (List ℕ)
zeros_and_nans = record {
  less = before_nan;
  less-irrefl = before_nan_irrefl;
  less-trans = before_nan_trans;
  less-total = before_nan_total;
  is_nan = λ a. a;
  raw_less = λ a b. false;
  raw_less-less = no_raw_order;
  raw_less-nan = λ a b h. (refl, refl);
  less-nan = nan_last;
  value_eq = bool_eq;
  value_eq_iff = bool_eq_iff;
  hash = hash_bool;
  combine_hash = λ h v. h * 31 + hash_bool v;
  blank = [];
  initialize = λ n. [];
  insert_hash = numbers.insert_hash;
  lookup_hash = numbers.lookup_hash;
  lookup-insert_self = numbers.lookup-insert_self;
  lookup-insert_mono = numbers.lookup-insert_mono;
  pack = single_rows;
  concat-pack = concat-single_rows;
  next_power_of_two = numbers.next_power_of_two;
  le-next_power_of_two = numbers.le-next_power_of_two;
}
