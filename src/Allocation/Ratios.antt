-- ===== src/Allocation/Ratios.antt =====
-- Sums of ratios, and when two ratios are the same number: what relates the reduced fractions of
-- allocation-engine.ts to exact arithmetic.
use native.Mathlib.Nat.{le_of_mul-le-mul_right}
use clycites_platform.Prelude.{
  ℕ, ◌+◌, ◌*◌, ◌<◌, ◌≤◌, ◌≡◌, refl, ap, List, [], ◌∷◌, arith, All, sum_by, map,
}
use clycites_platform.Allocation.Fractions.{
  Fraction, ◌≈◌, add_fractions, reduce_fraction, reduce_fraction-≈, reduce_fraction_positive,
}

-- The sum of two ratios, unreduced.
abbrev pub add_ratio : Fraction → Fraction → Fraction
add_ratio f g = record {
  numerator = f.numerator * g.denominator + g.numerator * f.denominator;
  denominator = f.denominator * g.denominator;
}

abbrev pub zero_ratio : Fraction
zero_ratio = record { numerator = 0; denominator = 1 }

-- The sum of a list of ratios, over the product of their denominators.
abbrev pub ratio_sum : List Fraction → Fraction
ratio_sum [] = zero_ratio
ratio_sum (f ∷ fs) = add_ratio f (ratio_sum fs)

abbrev pub HasDenominator : Fraction → Type 0
HasDenominator f = 0 < f.denominator

mul_cancel_right : (a b k : ℕ) → 0 < k → a * k ≡ b * k → a ≡ b
mul_cancel_right a b k h e =
    let p : a ≤ b = le_of_mul-le-mul_right {k = k} (omega arith) h in
    let q : b ≤ a = le_of_mul-le-mul_right {k = k} (omega arith) h in omega arith

pub ≈-trans : (f g h : Fraction) → HasDenominator g → f ≈ g → g ≈ h → f ≈ h
≈-trans f g h pos_g p q =
    mul_cancel_right (f.numerator * h.denominator) (h.numerator * f.denominator) g.denominator pos_g
      (omega (arith, ap (λ (t : ℕ). t * h.denominator) p, ap (λ (t : ℕ). t * f.denominator) q))

pub add_ratio-≈ : (f f' g g' : Fraction) → f ≈ f' → g ≈ g' → add_ratio f g ≈ add_ratio f' g'
add_ratio-≈ f f' g g' p q = omega (
  arith,
  ap (λ (t : ℕ). t * (g.denominator * g'.denominator)) p,
  ap (λ (t : ℕ). t * (f.denominator * f'.denominator)) q,
)

pub add_fractions-≈ : (f g : Fraction) → add_fractions f g ≈ add_ratio f g
unfolding add_fractions
add_fractions-≈ f g = reduce_fraction-≈ (add_ratio f g)

pub product_positive : (a b : ℕ) → 0 < a → 0 < b → 0 < a * b
product_positive a b p q = grind arith

pub add_fractions-HasDenominator :
    (f g : Fraction) → HasDenominator f → HasDenominator g → HasDenominator (add_fractions f g)
unfolding add_fractions
add_fractions-HasDenominator f g p q =
    (reduce_fraction_positive (add_ratio f g) (product_positive f.denominator g.denominator p q)).0

pub ratio_sum-HasDenominator :
    (fs : List Fraction) → All HasDenominator fs → HasDenominator (ratio_sum fs)
ratio_sum-HasDenominator [] h = omega arith
ratio_sum-HasDenominator (f ∷ fs) h =
    product_positive f.denominator (ratio_sum fs).denominator h.0 (ratio_sum-HasDenominator fs h.1)

-- `weights.reduce((sum, weight) => addFractions(sum, weight), start)`.
unfoldable pub reduce_sum : Fraction → List Fraction → Fraction
unfolding add_fractions
reduce_sum sum [] = sum
reduce_sum sum (f ∷ fs) = reduce_sum (add_fractions sum f) fs

pub reduce_sum-HasDenominator :
    (start : Fraction) (fs : List Fraction)
    → HasDenominator start
    → All HasDenominator fs
    → HasDenominator (reduce_sum start fs)
unfolding reduce_sum
reduce_sum-HasDenominator start [] h k = h
reduce_sum-HasDenominator start (f ∷ fs) h k =
    reduce_sum-HasDenominator (add_fractions start f) fs
      (add_fractions-HasDenominator start f h k.0) k.1

reduce_sum-≈-add :
    (start : Fraction) (fs : List Fraction)
    → HasDenominator start
    → All HasDenominator fs
    → reduce_sum start fs ≈ add_ratio start (ratio_sum fs)
unfolding reduce_sum
reduce_sum-≈-add start [] h k = omega arith
reduce_sum-≈-add start (f ∷ fs) h k =
    let rest = ratio_sum fs in
    let next = add_fractions start f in
    ≈-trans (reduce_sum next fs) (add_ratio next rest) (add_ratio start (add_ratio f rest))
      (product_positive next.denominator rest.denominator
        (add_fractions-HasDenominator start f h k.0) (ratio_sum-HasDenominator fs k.1))
      (reduce_sum-≈-add next fs (add_fractions-HasDenominator start f h k.0) k.1)
      (≈-trans (add_ratio next rest) (add_ratio (add_ratio start f) rest)
        (add_ratio start (add_ratio f rest))
        (product_positive (start.denominator * f.denominator) rest.denominator
          (product_positive start.denominator f.denominator h k.0)
          (ratio_sum-HasDenominator fs k.1))
        (add_ratio-≈ next (add_ratio start f) rest rest (add_fractions-≈ start f) refl)
        (omega arith))

-- Summing with a reduction at every step gives the exact sum.
pub reduce_sum-≈ :
    (fs : List Fraction) → All HasDenominator fs → reduce_sum zero_ratio fs ≈ ratio_sum fs
reduce_sum-≈ fs h = omega (arith, reduce_sum-≈-add zero_ratio fs (omega arith) h)

-- Every ratio divided by `total`, unreduced.
abbrev pub divide_by : Fraction → Fraction → Fraction
divide_by total f = record {
  numerator = f.numerator * total.denominator;
  denominator = f.denominator * total.numerator;
}

ratio_sum-divide_by :
    (total : Fraction) (fs : List Fraction)
    → 0 < total.numerator
    → All HasDenominator fs
    → ratio_sum (map (λ f. reduce_fraction (divide_by total f)) fs) ≈ divide_by total (ratio_sum fs)
ratio_sum-divide_by total [] h k = omega arith
ratio_sum-divide_by total (f ∷ fs) h k =
    let parts = ratio_sum (map (λ g. reduce_fraction (divide_by total g)) fs) in
    let part = reduce_fraction (divide_by total f) in
    let unreduced = add_ratio (divide_by total f) (divide_by total (ratio_sum fs)) in
    ≈-trans (add_ratio part parts) unreduced (divide_by total (add_ratio f (ratio_sum fs)))
      (product_positive (f.denominator * total.numerator)
        ((ratio_sum fs).denominator * total.numerator)
        (product_positive f.denominator total.numerator k.0 h)
        (product_positive (ratio_sum fs).denominator total.numerator
          (ratio_sum-HasDenominator fs k.1) h))
      (add_ratio-≈ part (divide_by total f) parts (divide_by total (ratio_sum fs))
        (reduce_fraction-≈ (divide_by total f)) (ratio_sum-divide_by total fs h k.1))
      (omega arith)

-- Ratios divided by their own sum make up exactly one whole.
pub divide_by_sum-one :
    (total : Fraction) (fs : List Fraction)
    → 0 < total.numerator
    → All HasDenominator fs
    → total ≈ ratio_sum fs
    → let parts = ratio_sum (map (λ f. reduce_fraction (divide_by total f)) fs) in
      parts.numerator ≡ parts.denominator
divide_by_sum-one total fs h k e =
    let parts = ratio_sum (map (λ f. reduce_fraction (divide_by total f)) fs) in
    let same = ratio_sum-divide_by total fs h k in
    mul_cancel_right parts.numerator parts.denominator
      ((ratio_sum fs).denominator * total.numerator)
      (product_positive (ratio_sum fs).denominator total.numerator (ratio_sum-HasDenominator fs k)
        h)
      (omega (arith, same, ap (λ (t : ℕ). t * parts.denominator) e))

abbrev pub HasDenominatorOf : ℕ → Fraction → Type 0
HasDenominatorOf d f = f.denominator ≡ d

-- Over one denominator the numerators add up.
common_denominator :
    (d : ℕ) (fs : List Fraction)
    → All (HasDenominatorOf d) fs
    → (ratio_sum fs).numerator * d ≡ sum_by (λ f. f.numerator) fs * (ratio_sum fs).denominator
common_denominator d [] h = omega arith
common_denominator d (f ∷ fs) h =
    let rest = ratio_sum fs in
    let same : f.denominator ≡ d = h.0 in
    rw same (omega (arith, ap (λ (t : ℕ). t * d) (common_denominator d fs h.1)))

-- Parts of one positive whole make up one whole.
pub common_denominator-one :
    (d : ℕ) (fs : List Fraction)
    → 0 < d
    → All (HasDenominatorOf d) fs
    → sum_by (λ f. f.numerator) fs ≡ d
    → (ratio_sum fs).numerator ≡ (ratio_sum fs).denominator
common_denominator-one d fs h k e =
    mul_cancel_right (ratio_sum fs).numerator (ratio_sum fs).denominator d h
      (omega (arith, common_denominator d fs k, ap (λ (t : ℕ). t * (ratio_sum fs).denominator) e))
