-- ===== src/Decimal/RoundTrip.antt =====
-- Parsing a formatted value gives the value back, at every scale the source uses.
use native.Mathlib.Nat.{mod-lt, pow-suc, div-add-mod'}
use clycites_platform.Prelude.{
  ℕ, zero, suc, ◌-◌, ◌/◌, ◌%◌, ◌^◌, ◌<◌, ◌≡◌, refl, ap, ◌∙◌, some, [], ◌∷◌, ◌++◌, arith, length,
  All,
}
use clycites_platform.Decimal.{
  Text, pad_end, pad_start, take, show, before_point, behind_point, combine, scaled_integer,
  format_scaled, to_quantity_units, format_quantity, to_ratio_units, format_ratio,
  to_scaled_integer,
}
use clycites_platform.Decimal.Digits.{
  IsDigit, padded-IsDigit, show-IsDigit, big_int-padded, big_int-show, length-padded, combine-some,
}

pub append_nil : (xs : Text) → xs ++ [] ≡ xs
append_nil [] = refl
append_nil (c ∷ xs) = ap (λ (t : Text). c ∷ t) (append_nil xs)

pub before_point-digits : (xs ys : Text) → All IsDigit xs → before_point (xs ++ b'.' ∷ ys) ≡ xs
before_point-digits [] ys h = refl
before_point-digits (c ∷ xs) ys h = ground (arith, before_point-digits xs ys h.1)

pub before_point_alone : (xs : Text) → All IsDigit xs → before_point xs ≡ xs
before_point_alone [] h = refl
before_point_alone (c ∷ xs) h = ground (arith, before_point_alone xs h.1)

pub behind_point-digits : (xs ys : Text) → All IsDigit xs → behind_point (xs ++ b'.' ∷ ys) ≡ ys
behind_point-digits [] ys h = refl
behind_point-digits (c ∷ xs) ys h = ground (arith, behind_point-digits xs ys h.1)

pad_end-full : (k : ℕ) (text : Text) → length text ≡ k → pad_end k text ≡ text
pad_end-full k text h =
    let nothing : k - length text ≡ 0 = omega arith in rw nothing (append_nil text)

take-full : (k : ℕ) (text : Text) → length text ≡ k → take k text ≡ text
take-full zero [] h = refl
take-full zero (c ∷ text) h = absurd (omega arith)
take-full (suc k) [] h = refl
take-full (suc k) (c ∷ text) h = ap (λ (t : Text). c ∷ t) (take-full k text (omega arith))

-- The two halves of a formatted value, split at the point again.
module _ (k value : ℕ) where
  abbrev scale : ℕ
  scale = 10 ^ suc k

  abbrev formatted : Text
  formatted = show (value / scale) ++ b'.' ∷ pad_start (suc k) (show (value % scale))

  ten_pow_positive : (j : ℕ) → 0 < 10 ^ j
  ten_pow_positive zero = omega arith
  ten_pow_positive (suc j) = omega (arith, pow-suc 10 j, ten_pow_positive j)

  whole_lem : before_point formatted ≡ show (value / scale)
  whole_lem = before_point-digits (show (value / scale)) _ (show-IsDigit (value / scale))

  fraction_lem : before_point (behind_point formatted) ≡ pad_start (suc k) (show (value % scale))
  fraction_lem =
      ap before_point (behind_point-digits (show (value / scale)) _ (show-IsDigit (value / scale)))
      ∙ before_point_alone _ (padded-IsDigit (suc k) (value % scale))

  fraction_length : length (pad_start (suc k) (show (value % scale))) ≡ suc k
  fraction_length = length-padded k (value % scale) (mod-lt value (ten_pow_positive (suc k)))

  combine_lem :
      combine scale (show (value / scale)) (pad_start (suc k) (show (value % scale))) ≡ some value
  combine_lem =
      combine-some scale (value / scale) (value % scale) (show (value / scale))
        (pad_start (suc k) (show (value % scale))) (big_int-show (value / scale))
        (big_int-padded (suc k) (value % scale))
      ∙ ap some (div-add-mod' value scale)

  -- What is common to the formats: pad the fraction to the scale, then combine.
  formatted_lem :
      combine scale
        (before_point formatted)
        (pad_end (suc k) (before_point (behind_point formatted)))
      ≡ some value
  formatted_lem = rw (whole_lem, fraction_lem, pad_end-full (suc k) _ fraction_length) combine_lem

  cut_formatted_lem :
      combine scale
        (before_point formatted)
        (pad_end (suc k) (take (suc k) (before_point (behind_point formatted))))
      ≡ some value
  cut_formatted_lem =
      rw
        (
          whole_lem,
          fraction_lem,
          take-full (suc k) _ fraction_length,
          pad_end-full (suc k) _ fraction_length,
        )
        combine_lem

pub to_scaled_integer-format_scaled :
    (value k : ℕ) → to_scaled_integer (format_scaled value (suc k)) (suc k) ≡ some value
unfolding to_scaled_integer format_scaled
to_scaled_integer-format_scaled value k = cut_formatted_lem k value

-- Parsing a value that was formatted with the same positive number of decimals gives it back.
pub scaled_integer-format_scaled :
    (value k : ℕ) → scaled_integer (format_scaled value (suc k)) (suc k) ≡ some value
unfolding scaled_integer format_scaled
scaled_integer-format_scaled value k = formatted_lem k value

-- The two fixed scales of quantities and of ratios do the same.
pub fixed_scales_round_trip :
    (value : ℕ)
    → (to_quantity_units (format_quantity value) ≡ some value)
      × (to_ratio_units (format_ratio value) ≡ some value)
unfolding to_quantity_units format_quantity to_ratio_units format_ratio
fixed_scales_round_trip value = (formatted_lem 3 value, cut_formatted_lem 5 value)
