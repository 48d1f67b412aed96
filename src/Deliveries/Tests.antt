-- ===== src/Deliveries/Tests.antt =====
-- A weight, a price and an instrument.
use clycites_platform.Prelude.{ℕ, ◌≡◌, refl, false, none, some, [], ◌∷◌}
use clycites_platform.Prelude.Int.{pos, negsuc, ◌+ℤ◌}
use clycites_platform.Decimal.{Text, scaled_integer, format_scaled}
use clycites_platform.Deliveries.Weight.{
  CalculatedWeight, calculate_weight, NetOfTare, calculate_weight-NetOfTare, kg, manual,
}
use clycites_platform.Deliveries.Pricing.{
  DeliveryPricingInput, CalculatedPricing, PriceSource, calculate_pricing, signed_big_int, differs,
  IsPriced, calculate_pricing-IsPriced,
}
use clycites_platform.Deliveries.Instrument.{Date, Instrument, assess_weighing_instrument, active}

-- 12.5 and 0.5, with a client that claims 12.0001
abbrev gross_text : Text
gross_text = b'1' ∷ b'2' ∷ b'.' ∷ b'5' ∷ []

abbrev tare_text : Text
tare_text = b'0' ∷ b'.' ∷ b'5' ∷ []

abbrev client_text : Text
client_text = b'1' ∷ b'2' ∷ b'.' ∷ b'0' ∷ b'0' ∷ b'0' ∷ b'1' ∷ []

abbrev net_text : Text
net_text = b'1' ∷ b'2' ∷ b'.' ∷ b'0' ∷ b'0' ∷ b'0' ∷ b'0' ∷ []

abbrev weighed : CalculatedWeight
weighed = record {
  gross_quantity = some (b'1' ∷ b'2' ∷ b'.' ∷ b'5' ∷ b'0' ∷ b'0' ∷ b'0' ∷ []);
  tare_quantity = some (b'0' ∷ b'.' ∷ b'5' ∷ b'0' ∷ b'0' ∷ b'0' ∷ []);
  net_quantity = net_text;
  unit = kg;
  capture_method = manual;
}

calculate_weight-NetOfTare_example : NetOfTare gross_text tare_text (some client_text) weighed
unfolding calculate_weight scaled_integer format_scaled
calculate_weight-NetOfTare_example =
    calculate_weight-NetOfTare gross_text tare_text (some client_text) kg manual refl

-- 333 minor units each, less an adjustment of 3
abbrev pricing_input : DeliveryPricingInput
pricing_input = record {
  unit_price_minor = b'3' ∷ b'3' ∷ b'3' ∷ [];
  adjustment_amount_minor = b'-' ∷ b'3' ∷ [];
  price_source = PriceSource.contract;
  price_reference = none;
  override_reason = none;
  client_gross_amount_minor = some (b'3' ∷ b'9' ∷ b'9' ∷ b'6' ∷ []);
  client_net_amount_minor = none;
}

abbrev priced : CalculatedPricing
priced = record {
  unit_price_minor = 333;
  quantity = net_text;
  gross_amount_minor = 3_996;
  adjustment_amount_minor = negsuc 2;
  net_amount_minor = pos 3_993;
  price_source = PriceSource.contract;
  price_reference = none;
  override_reason = none;
}

calculate_pricing-IsPriced_example :
    (quantity : ℕ) × (scaled_integer net_text 4 ≡ some quantity)
    × IsPriced quantity pricing_input priced
unfolding calculate_pricing scaled_integer signed_big_int ◌+ℤ◌ differs format_scaled
calculate_pricing-IsPriced_example = calculate_pricing-IsPriced net_text pricing_input refl

abbrev date : ℕ → Date
date year = record { year = year; month = 2; day = 29; millisecond_of_day = 0 }

abbrev instrument : Instrument
instrument = record { id = "scale"; status = active; calibrated_at = date 2_024 }

calibrated_instrument :
    (assess_weighing_instrument (some "scale") (some instrument) (date 2_024)).instrument_flagged
    ≡ false
unfolding assess_weighing_instrument
calibrated_instrument = refl
