-- ===== src/Decimal/Excess.antt =====
-- A text with more decimals than the scale: `padEnd` never cuts, so `scaledInteger` adds the
-- whole fraction as units, where `toRatioUnits` cuts it first.
use clycites_platform.Prelude.{ℕ, ◌+◌, ◌-◌, ◌*◌, ◌^◌, ◌≤◌, ◌≡◌, some, ◌∷◌, ◌++◌, arith, length, All}
use clycites_platform.Decimal.{Text, pad_end, scaled_integer}
use clycites_platform.Decimal.Digits.{IsDigit, digits_value, big_int-digits_value, combine-some}
use clycites_platform.Decimal.RoundTrip.{
  append_nil, before_point-digits, behind_point-digits, before_point_alone,
}

pad_end-long : (k : ℕ) (text : Text) → k ≤ length text → pad_end k text ≡ text
pad_end-long k text h =
    let nothing : k - length text ≡ 0 = omega arith in rw nothing (append_nil text)

-- With at least as many decimals as the scale has, the fraction counts as that many whole units,
-- however many decimals it has.
pub scaled_integer_excess :
    (whole fraction : Text) (decimal_places : ℕ)
    → All IsDigit whole
    → All IsDigit fraction
    → decimal_places ≤ length fraction
    → scaled_integer (whole ++ b'.' ∷ fraction) decimal_places
      ≡ some (digits_value 0 whole * 10 ^ decimal_places + digits_value 0 fraction)
unfolding scaled_integer
scaled_integer_excess whole fraction decimal_places hw hf long =
    rw
      (
        before_point-digits whole fraction hw,
        behind_point-digits whole fraction hw,
        before_point_alone fraction hf,
        pad_end-long decimal_places fraction long,
      )
      (combine-some (10 ^ decimal_places) (digits_value 0 whole) (digits_value 0 fraction) whole
        fraction (big_int-digits_value whole hw) (big_int-digits_value fraction hf))
