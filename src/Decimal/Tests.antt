-- ===== src/Decimal/Tests.antt =====
-- Round trips at concrete values, and a tare with five decimals at a scale of four.
use clycites_platform.Prelude.{◌≡◌, some, [], ◌∷◌, ◌++◌, arith}
use clycites_platform.Decimal.{Text, scaled_integer, format_scaled}
use clycites_platform.Decimal.RoundTrip.{scaled_integer-format_scaled}
use clycites_platform.Decimal.Excess.{scaled_integer_excess}

scaled_integer-format_scaled_example : scaled_integer (format_scaled 1_205 4) 4 ≡ some 1_205
scaled_integer-format_scaled_example = scaled_integer-format_scaled 1_205 3

abbrev five_decimals : Text
five_decimals = b'1' ∷ b'2' ∷ b'3' ∷ b'4' ∷ b'5' ∷ []

-- `1.12345` reads as 22345 units, where one whole is 10000.
scaled_integer_excess_example : scaled_integer ((b'1' ∷ []) ++ b'.' ∷ five_decimals) 4 ≡ some 22_345
scaled_integer_excess_example =
    scaled_integer_excess (b'1' ∷ []) five_decimals 4 ((omega arith, omega arith), tt)
      (
        (omega arith, omega arith),
        (
          (omega arith, omega arith),
          (
            (omega arith, omega arith),
            ((omega arith, omega arith), ((omega arith, omega arith), tt)),
          ),
        ),
      )
      (omega arith)
