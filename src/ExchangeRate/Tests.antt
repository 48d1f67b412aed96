-- ===== src/ExchangeRate/Tests.antt =====
-- A conversion of seven minor units at a rate of one and a half.
use clycites_platform.Prelude.{ℕ, ◌≡◌, ok, err}
use clycites_platform.Prelude.Int.{pos, negsuc, negate}
use clycites_platform.ExchangeRate.{
  convert_minor_units, IsRounded, convert_minor_units_rounds, rate_not_positive,
}

convert_minor_units_rounds_example :
    (convert_minor_units (negsuc 6) (pos 0) ≡ err rate_not_positive)
    × (convert_minor_units (negsuc 6) (negsuc 149_999_999) ≡ err rate_not_positive)
    × ((out : ℕ) × (convert_minor_units (pos 7) (pos 150_000_000) ≡ ok (pos out))
        × (convert_minor_units (negate (pos 7)) (pos 150_000_000) ≡ ok (negate (pos out)))
        × IsRounded 7 150_000_000 out)
convert_minor_units_rounds_example = convert_minor_units_rounds (negsuc 6) 7 149_999_999
