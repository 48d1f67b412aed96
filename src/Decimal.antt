-- ===== src/Decimal.antt =====
-- Decimal texts and scaled integers: `scaledInteger` and `formatScaled` of
-- apps/api/src/deliveries/delivery-calculation.ts, and the fixed-scale pairs of
-- apps/api/src/batches/quantity.ts and transformation-yield.ts. A text is the list of its
-- character codes. `BigInt(text)` is read for unsigned decimal digits, the empty text included
-- (0n); every other text is `none`, where the source throws or leaves the request schemas.
pub mod Digits
pub mod RoundTrip
pub mod Excess
mod Tests
use clycites_platform.Prelude.{
  ℕ, zero, suc, ◌+◌, ◌-◌, ◌*◌, ◌/◌, ◌%◌, ◌^◌, Bool, ◌&&◌, Option, none, some, List, [], ◌∷◌, ◌++◌,
  leb, ltb, ◌==◌, if◌then◌else◌, length,
}

abbrev pub Text : Type 0
Text = List ℕ

abbrev pub replicate : ℕ → ℕ → Text
replicate zero c = []
replicate (suc n) c = c ∷ replicate n c

-- `text.padEnd(n, '0')` and `text.padStart(n, '0')`
abbrev pub pad_end : ℕ → Text → Text
pad_end n text = text ++ replicate (n - length text) b'0'

abbrev pub pad_start : ℕ → Text → Text
pad_start n text = replicate (n - length text) b'0' ++ text

-- `text.slice(0, n)`
abbrev pub take : ℕ → Text → Text
take zero text = []
take (suc n) [] = []
take (suc n) (c ∷ text) = c ∷ take n text

-- The digits of `BigInt(text)`, behind the value of those read before.
unfoldable pub read_digits : ℕ → Text → Option ℕ
read_digits value [] = some value
read_digits value (c ∷ text) =
    let rest = read_digits (value * 10 + (c - b'0')) text in
    if leb b'0' c && leb c b'9' then rest else none

unfoldable pub big_int : Text → Option ℕ
unfolding read_digits
big_int = read_digits 0

-- `value.toString()`, least significant digit last; the fuel bounds the number of digits.
unfoldable pub show_digits : ℕ → ℕ → Text
show_digits zero n = []
show_digits (suc fuel) n =
    let rest = show_digits fuel (n / 10) in
    if ltb n 10 then (b'0' + n) ∷ [] else rest ++ (b'0' + n % 10) ∷ []

unfoldable pub show : ℕ → Text
unfolding show_digits
show n = show_digits (suc n) n

-- `const [whole = '0', fraction = ''] = value.split('.')`: what stands before the first point, and
-- what stands between the first and the second.
abbrev pub before_point : Text → Text
before_point [] = []
before_point (c ∷ text) = if c == b'.' then [] else c ∷ before_point text

abbrev pub behind_point : Text → Text
behind_point [] = []
behind_point (c ∷ text) = if c == b'.' then text else behind_point text

abbrev pub whole_text : Text → Text
whole_text = before_point

abbrev pub fraction_text : Text → Text
fraction_text value = before_point (behind_point value)

-- `BigInt(whole) * scale + BigInt(fraction)`
unfoldable pub combine : ℕ → Text → Text → Option ℕ
combine scale whole fraction = elim (big_int whole) [
  | none ↦ none
  | some w ↦ elim (big_int fraction) [ none ↦ none | some f ↦ some (w * scale + f) ]
]

unfoldable pub scaled_integer : Text → ℕ → Option ℕ
unfolding combine big_int
scaled_integer value decimal_places =
    combine (10 ^ decimal_places) (whole_text value) (pad_end decimal_places (fraction_text value))

unfoldable pub format_scaled : ℕ → ℕ → Text
unfolding show
format_scaled value decimal_places =
    let scale = 10 ^ decimal_places in
    show (value / scale) ++ b'.' ∷ pad_start decimal_places (show (value % scale))

abbrev pub quantity_decimals : ℕ
quantity_decimals = 4

abbrev pub quantity_scale : ℕ
quantity_scale = 10 ^ quantity_decimals

unfoldable pub to_quantity_units : Text → Option ℕ
unfolding combine big_int
to_quantity_units value =
    combine quantity_scale (whole_text value) (pad_end quantity_decimals (fraction_text value))

unfoldable pub format_quantity : ℕ → Text
unfolding show
format_quantity value =
    show (value / quantity_scale)
    ++ b'.' ∷ pad_start quantity_decimals (show (value % quantity_scale))

abbrev pub ratio_decimals : ℕ
ratio_decimals = 6

abbrev pub ratio_scale : ℕ
ratio_scale = 10 ^ ratio_decimals

unfoldable pub to_ratio_units : Text → Option ℕ
unfolding combine big_int
to_ratio_units value =
    combine ratio_scale (whole_text value)
      (pad_end ratio_decimals (take ratio_decimals (fraction_text value)))

unfoldable pub format_ratio : ℕ → Text
unfolding show
format_ratio units =
    show (units / ratio_scale) ++ b'.' ∷ pad_start ratio_decimals (show (units % ratio_scale))

-- `SettlementsService.toScaledInteger`, which cuts what is behind the scale.
unfoldable pub to_scaled_integer : Text → ℕ → Option ℕ
unfolding combine big_int
to_scaled_integer value decimal_places =
    combine (10 ^ decimal_places) (whole_text value)
      (pad_end decimal_places (take decimal_places (fraction_text value)))
