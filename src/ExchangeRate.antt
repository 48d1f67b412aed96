-- ===== src/ExchangeRate.antt =====
-- Exchange rates (apps/api/src/settlements/exchange-rate.ts): the reading of a rate with at most
-- eight decimals, and the conversion of minor units, rounded half away from zero.
mod Tests
use clycites_platform.Prelude.{
  ℕ, suc, ◌+◌, ◌-◌, ◌*◌, ◌/◌, ◌^◌, ◌≤◌, ◌<◌, ◌≡◌, ◌≢◌, refl, Bool, true, false, ◌||◌, ◌&&◌,
  Bool-cases, inl, inr, Option, none, some, List, [], ◌∷◌, Result, ok, err, ◌>>=◌, ◌>>◌, throw_if,
  or_throw, arith, ltb, leb, ◌==◌, if◌then◌else◌, length,
}
use clycites_platform.Prelude.Int.{ℤ, pos, negsuc, pos_part, neg_part, ◌*ℤ◌, ◌≤ℤ◌, ltb_ℤ, negate}
use clycites_platform.Decimal.{Text, big_int, pad_end, combine, before_point}

pub data Failure : Type 0 where
  invalid_rate too_many_decimals rate_not_positive : Failure

abbrev pub rate_decimals : ℕ
rate_decimals = 8

abbrev pub rate_scale : ℕ
rate_scale = 10 ^ rate_decimals

abbrev is_digit : ℕ → Bool
is_digit c = leb b'0' c && leb c b'9'

all_digits : Text → Bool
all_digits [] = true
all_digits (c ∷ text) = is_digit c && all_digits text

-- `\\d+`
abbrev is_digits : Text → Bool
is_digits [] = false
is_digits (c ∷ text) = is_digit c && all_digits text

-- What the expression reads: the sign, the whole part and the fraction behind a point.
pub record RateText : Type 0 where
  pub negative : Bool
  pub whole : Text
  pub fraction : Text

-- What stands behind the first point, if there is one.
abbrev after_point : Text → Option Text
after_point [] = none
after_point (c ∷ text) = if c == b'.' then some text else after_point text

abbrev match_unsigned : Bool → Text → Option RateText
match_unsigned negative text =
    if is_digits (before_point text)
    then elim (after_point text) [
      | none ↦ some (record { negative = negative; whole = before_point text; fraction = [] })
      | some fraction ↦
          if is_digits fraction
          then some (record { negative = negative; whole = before_point text; fraction = fraction })
          else none
    ]
    else none

-- `/^(-?)(\\d+)(?:\\.(\\d+))?$/`
unfoldable pub match_rate : Text → Option RateText
unfolding all_digits
match_rate [] = match_unsigned false []
match_rate (c ∷ text) =
    if c == b'-' then match_unsigned true text else match_unsigned false (c ∷ text)

-- `trim` removes white space at both ends; it is the runtime's, and a parameter.
unfoldable pub to_rate_units : (Text → Text) → Text → Result Failure ℤ
unfolding match_rate combine big_int
to_rate_units trim value = do
  rate ← or_throw (match_rate (trim value)) invalid_rate
  throw_if (ltb rate_decimals (length rate.fraction)) too_many_decimals
  units ←
      or_throw (combine rate_scale rate.whole (pad_end rate_decimals rate.fraction)) invalid_rate
  ok (if rate.negative then negate (pos units) else pos units)

abbrev magnitude : ℤ → ℕ
magnitude a = pos_part a + neg_part a

-- The rounding of a scaled amount, on its magnitude, with its sign put back.
unfoldable pub round_scaled : ℤ → ℤ
round_scaled scaled =
    let rounded = (magnitude scaled + rate_scale / 2) / rate_scale in
    if ltb_ℤ scaled (pos 0) then negate (pos rounded) else pos rounded

unfoldable pub convert_minor_units : ℤ → ℤ → Result Failure ℤ
unfolding round_scaled
convert_minor_units amount_minor rate_units =
    throw_if (ltb_ℤ rate_units (pos 1)) rate_not_positive
    >> ok (round_scaled (amount_minor *ℤ rate_units))

round_scaled-pos : (s : ℕ) → round_scaled (pos s) ≡ pos ((s + 50_000_000) / rate_scale)
unfolding round_scaled
round_scaled-pos s = ground arith

round_scaled-negate :
    (s : ℕ) → round_scaled (negate (pos s)) ≡ negate (pos ((s + 50_000_000) / rate_scale))
unfolding round_scaled
round_scaled-negate s = ground arith

product_pos : (n rate : ℕ) → pos n *ℤ pos rate ≡ pos (n * rate)
product_pos n rate = ground arith

product_negate : (n rate : ℕ) → negate (pos n) *ℤ pos rate ≡ negate (pos (n * rate))
product_negate n rate = ground arith

-- `out` is `amount * rate / rate_scale`, rounded half up.
abbrev pub IsRounded : ℕ → ℕ → ℕ → Type 0
IsRounded amount rate out =
    (out * rate_scale ≤ amount * rate + 50_000_000)
    × (amount * rate + 50_000_000 < (out + 1) * rate_scale)

-- At a rate of zero or less the conversion of every amount, of either sign, is refused; at a
-- positive rate an amount of n minor units converts to n times the rate rounded half up, and the
-- negative amount to the negative of that, so the rounding is half away from zero.
pub convert_minor_units_rounds :
    (amount : ℤ) (n rate : ℕ)
    → (convert_minor_units amount (pos 0) ≡ err rate_not_positive)
      × (convert_minor_units amount (negsuc rate) ≡ err rate_not_positive)
      × ((out : ℕ) × (convert_minor_units (pos n) (pos (suc rate)) ≡ ok (pos out))
          × (convert_minor_units (negate (pos n)) (pos (suc rate)) ≡ ok (negate (pos out)))
          × IsRounded n (suc rate) out)
unfolding convert_minor_units
convert_minor_units_rounds amount n rate =
    let rounded = (n * suc rate + 50_000_000) / rate_scale in
    (
      ground arith,
      ground arith,
      (
        rounded,
        rw (product_pos n (suc rate), round_scaled-pos (n * suc rate)) (ground arith),
        rw (product_negate n (suc rate), round_scaled-negate (n * suc rate)) (ground arith),
        omega arith,
      ),
    )
