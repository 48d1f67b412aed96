-- ===== src/Allocation/Fractions.antt =====
-- Exact ratios of allocation-engine.ts: `greatestCommonDivisor`, `reduceFraction`,
-- `addFractions`. The ratios come from quantities, so their parts are natural numbers and the
-- sign changes of `reduceFraction` have nothing to do.
use native.Mathlib.Decide.{dec_lt}
use mathlib.Core.Logic.{dite, dif_pos, dif_neg}
use native.Mathlib.Nat.{div-add-mod, mul_assoc, div-eq_of_eq-mul_left}
use native.Mathlib.Bridge.{le_prop}
use mathlib.Core.WellFounded.{Acc, WellFounded}
use clycites_platform.Prelude.{
  ℕ, zero, suc, ◌+◌, ◌*◌, ◌/◌, ◌%◌, ◌<◌, ◌≡◌, arith, leb, if◌then◌else◌, Bool-cases, inl, inr, ap,
}

pub record Fraction : Type 0 where
  pub numerator : ℕ
  pub denominator : ℕ

Acc-below : (k n : ℕ) → n < k → Acc ◌<◌ n
Acc-below zero n h = elim h [ ]
Acc-below (suc k) n h = Acc.intro n (λ m hm. Acc-below k m (omega arith))

unfoldable pub lt_wf : WellFounded ◌<◌
unfolding Acc-below
lt_wf = record { apply = λ n. Acc-below (suc n) n (omega arith) }

-- `while (b !== 0n) [a, b] = [b, a % b]`, on the proof that `b` is accessible.
unfoldable pub gcd_loop : (a b : ℕ) → Acc ◌<◌ b → ℕ
gcd_loop a b (Acc.intro _ smaller) =
    dite (dec_lt 0 b) (λ h. gcd_loop b (a % b) (smaller (a % b) (omega arith))) (λ _. a)

unfoldable pub greatest_common_divisor : ℕ → ℕ → ℕ
unfolding gcd_loop lt_wf dec_lt
greatest_common_divisor left right = gcd_loop left right (lt_wf.apply right)

unfoldable pub reduce_fraction : Fraction → Fraction
unfolding greatest_common_divisor
reduce_fraction f =
    let divisor = greatest_common_divisor f.numerator f.denominator in
    if leb divisor 1
    then f
    else record { numerator = f.numerator / divisor; denominator = f.denominator / divisor }

unfoldable pub add_fractions : Fraction → Fraction → Fraction
unfolding reduce_fraction
add_fractions left right = reduce_fraction (record {
  numerator = left.numerator * right.denominator + right.numerator * left.denominator;
  denominator = left.denominator * right.denominator;
})

-- Two ratios are the same number.
infix 40 ◌≈◌
abbrev pub ◌≈◌ : Fraction → Fraction → Type 0
f ≈ g = f.numerator * g.denominator ≡ g.numerator * f.denominator

-- `g` divides both `a` and `b`.
abbrev pub DividesBoth : ℕ → ℕ → ℕ → Type 0
DividesBoth g a b = (k : ℕ) × (l : ℕ) × (a ≡ k * g) × (b ≡ l * g)

DividesBoth-step : (g a b : ℕ) → 0 < b → DividesBoth g b (a % b) → DividesBoth g a b
DividesBoth-step g a b h (k, l, p, q) = ((a / b) * k + l, k, quotient_back, p)
  where
    quotient_back : a ≡ ((a / b) * k + l) * g
    quotient_back =
        omega (arith, div-add-mod a b, ap (λ (t : ℕ). (a / b) * t) p, q, mul_assoc (a / b) k g)

gcd_loop_divides : (a b : ℕ) (w : Acc ◌<◌ b) → DividesBoth (gcd_loop a b w) a b
unfolding gcd_loop
gcd_loop_divides a b (Acc.intro _ smaller) = elim (dec_lt 0 b) [
  | yes p ↦
      rw (dif_pos (dec_lt 0 b) le_prop p)
        (DividesBoth-step _ a b p (gcd_loop_divides b (a % b) (smaller (a % b) (omega arith))))
  | no p ↦ rw (dif_neg (dec_lt 0 b) p) (1, 0, omega arith, omega arith)
]

-- The greatest common divisor divides both numbers.
pub greatest_common_divisor_divides : (a b : ℕ) → DividesBoth (greatest_common_divisor a b) a b
unfolding greatest_common_divisor
greatest_common_divisor_divides a b = gcd_loop_divides a b (lt_wf.apply b)

-- Cancelling a common factor keeps the ratio, and keeps what is positive so.
reduced : (n d k l g : ℕ) → 1 < g → n ≡ k * g → d ≡ l * g → (n / g) * d ≡ n * (d / g)
reduced n d k l g h p q =
    let e : n / g ≡ k = div-eq_of_eq-mul_left (omega arith) p in
    let f : d / g ≡ l = div-eq_of_eq-mul_left (omega arith) q in rw (e, f, p, q) (grind arith)

positive_quotient : (d l g : ℕ) → 1 < g → d ≡ l * g → 0 < d → 0 < d / g
positive_quotient d l g h q pos_d =
    let f : d / g ≡ l = div-eq_of_eq-mul_left (omega arith) q in rw f (grind arith)

-- Reduction keeps the value of a ratio.
pub reduce_fraction-≈ : (f : Fraction) → reduce_fraction f ≈ f
unfolding reduce_fraction
reduce_fraction-≈ f =
    let g = greatest_common_divisor f.numerator f.denominator in
    elim (Bool-cases (leb g 1)) [
      | inl small ↦ rw small
      | inr large ↦
          let (k, l, p, q) = greatest_common_divisor_divides f.numerator f.denominator in
          rw large (reduced f.numerator f.denominator k l g (ground arith) p q)
    ]

-- Reduction keeps both parts positive.
pub reduce_fraction_positive :
    (f : Fraction)
    → 0 < f.denominator
    → (0 < (reduce_fraction f).denominator) × (0 < f.numerator → 0 < (reduce_fraction f).numerator)
unfolding reduce_fraction
reduce_fraction_positive f h =
    let g = greatest_common_divisor f.numerator f.denominator in
    elim (Bool-cases (leb g 1)) [
      | inl small ↦ rw small (h, λ k. k)
      | inr large ↦
          let (k, l, p, q) = greatest_common_divisor_divides f.numerator f.denominator in
          rw large (
            positive_quotient f.denominator l g (ground arith) q h,
            λ n. positive_quotient f.numerator k g (ground arith) p n,
          )
    ]
