-- ===== src/Allocation/Apportion/Total.antt =====
-- When a split returns: shares whose ratios are positive and make up one whole are always split.
use native.Mathlib.Nat.{div-mul-le_self, lt-div-mul-add, mul-le-mul_right, le_of_mul-le-mul_right}
use clycites_platform.Prelude.{
  ℕ, ◌+◌, ◌-◌, ◌*◌, ◌/◌, ◌%◌, ◌≤◌, ◌<◌, ◌≡◌, refl, Bool, List, [], ◌∷◌, String, ok, map_result,
  arith, length, sum_by, sort_by, All, map, length-map, ◌≢◌,
}
use clycites_platform.Allocation.Fractions.{Fraction}
use clycites_platform.Allocation.Ratios.{ratio_sum}
use clycites_platform.Allocation.Apportion.{
  Share, RemainderShare, Apportioned, remainder_share, larger_remainder, distribute, apportion,
}
use clycites_platform.Allocation.Apportion.Reconcile.{floor_of}

module _ {T : Type 0} where
  abbrev pub HasRatio : Share T → Type 0
  HasRatio s = 0 < s.denominator

  abbrev pub ratio_of : Share T → Fraction
  ratio_of s = record { numerator = s.numerator; denominator = s.denominator }

  abbrev pub share_sum : List (Share T) → Fraction
  share_sum shares = ratio_sum (map ratio_of shares)

  pub exact_share : ℕ → Share T → RemainderShare T
  exact_share total s = record {
    item = s.item;
    floor = total * s.numerator / s.denominator;
    remainder_numerator = (total * s.numerator) % s.denominator;
    remainder_denominator = s.denominator;
    stable_key = s.stable_key;
  }

  map_result-remainder_share :
      (total : ℕ) (shares : List (Share T))
      → All HasRatio shares
      → map_result (remainder_share total) shares ≡ ok (map (exact_share total) shares)
  unfolding remainder_share exact_share
  map_result-remainder_share total [] h = refl
  map_result-remainder_share total (s ∷ ss) h =
      ground (arith, map_result-remainder_share total ss h.1)

  floors : ℕ → List (Share T) → ℕ
  floors total [] = 0
  floors total (s ∷ ss) = total * s.numerator / s.denominator + floors total ss

  sum_by-floors :
      (total : ℕ) (shares : List (Share T))
      → sum_by floor_of (map (exact_share total) shares) ≡ floors total shares
  unfolding floors exact_share
  sum_by-floors total [] = refl
  sum_by-floors total (s ∷ ss) = omega (arith, sum_by-floors total ss)

  -- The floors lie below the exact sum, by less than one for each share.
  floors_bounds :
      (total : ℕ) (shares : List (Share T))
      → All HasRatio shares
      → (0 < (share_sum shares).denominator)
        × (floors total shares * (share_sum shares).denominator
            ≤ total * (share_sum shares).numerator)
        × (total * (share_sum shares).numerator
            ≤ (floors total shares + length shares) * (share_sum shares).denominator)
  unfolding floors
  floors_bounds total [] h = omega arith
  floors_bounds total (s ∷ ss) h =
      let (pos_d, low, high) = floors_bounds total ss h.1 in
      let r = share_sum ss in
      let f = total * s.numerator / s.denominator in
      let below : f * s.denominator * r.denominator ≤ total * s.numerator * r.denominator =
        mul-le-mul_right r.denominator (div-mul-le_self (total * s.numerator) s.denominator) in
      let above : total * s.numerator * r.denominator
          ≤ (f * s.denominator + s.denominator) * r.denominator =
        mul-le-mul_right r.denominator
          (omega (arith, lt-div-mul-add {a = total * s.numerator} h.0)) in
      let low' : floors total ss * r.denominator * s.denominator
          ≤ total * r.numerator * s.denominator =
        mul-le-mul_right s.denominator low in
      let high' : total * r.numerator * s.denominator
          ≤ (floors total ss + length ss) * r.denominator * s.denominator =
        mul-le-mul_right s.denominator high in
      (grind arith, omega arith, omega arith)

  -- Ratios that make up one whole leave a residual of at most one unit for each share.
  residual_bounds :
      (total : ℕ) (shares : List (Share T))
      → All HasRatio shares
      → (share_sum shares).numerator ≡ (share_sum shares).denominator
      → (floors total shares ≤ total) × (total ≤ floors total shares + length shares)
  residual_bounds total shares h one =
      let (pos_d, low, high) = floors_bounds total shares h in
      (le_of_mul-le-mul_right (rw one at low) pos_d, le_of_mul-le-mul_right (rw one at high) pos_d)

  -- Shares with positive denominators whose ratios make up one whole are always split: none of
  -- the engine's errors is thrown, whatever the total.
  pub apportion-returns :
      (le : String → String → Bool) (total : ℕ) (shares : List (Share T))
      → shares ≢ []
      → All HasRatio shares
      → (share_sum shares).numerator ≡ (share_sum shares).denominator
      → (out : List (Apportioned T)) × (apportion le total shares ≡ ok out)
  unfolding apportion
  apportion-returns le total [] nonempty h one = absurd (nonempty refl)
  apportion-returns le total (s ∷ ss) nonempty h one =
      let calculated = map (exact_share total) (s ∷ ss) in
      let residual = total - sum_by floor_of calculated in
      (
        distribute residual (sort_by (larger_remainder le) calculated),
        rw (map_result-remainder_share total (s ∷ ss) h) (
            ground (
              arith,
              residual_bounds total (s ∷ ss) h one,
              sum_by-floors total (s ∷ ss),
              length-map (exact_share total) (s ∷ ss),
            )),
      )
