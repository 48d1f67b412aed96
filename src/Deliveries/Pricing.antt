-- ===== src/Deliveries/Pricing.antt =====
-- `calculatePricing` of apps/api/src/deliveries/delivery-calculation.ts: the gross amount of a
-- quantity at a unit price, rounded half up to whole minor units, and the adjusted net amount.
use mathlib.Core.Path.{subst}
use clycites_platform.Prelude.{
  ℕ, ◌+◌, ◌*◌, ◌/◌, ◌≤◌, ◌<◌, ◌≡◌, refl, sym, ap, ◌∙◌, Bool, true, false, not, Option, none, some,
  [], ◌∷◌, Result, ok, err, ◌>>=◌, ◌>>◌, >>=-eq-ok, throw_if-eq-ok, throw_if, or_throw, arith, ◌==◌,
  if◌then◌else◌,
}
use clycites_platform.Prelude.Int.{ℤ, pos, ◌+ℤ◌, ◌≤ℤ◌, ltb_ℤ, eqb_ℤ, negate}
use clycites_platform.Decimal.{Text, big_int, scaled_integer, format_scaled}
use clycites_platform.Decimal.RoundTrip.{scaled_integer-format_scaled}
use clycites_platform.Deliveries.Weight.{
  Failure, invalid_price, server_calculation_mismatch, not_a_number, truthy, parse_number,
  parse_number-ok,
}

pub data PriceSource : Type 0 where
  collection_point contract manual_override : PriceSource

pub record DeliveryPricingInput : Type 0 where
  pub unit_price_minor : Text
  pub adjustment_amount_minor : Text
  pub price_source : PriceSource
  pub price_reference : Option Text
  pub override_reason : Option Text
  pub client_gross_amount_minor : Option Text
  pub client_net_amount_minor : Option Text

-- `currency` and `quantityUnit` have one value each, UGX and KG.
pub record CalculatedPricing : Type 0 where
  pub unit_price_minor : ℕ
  pub quantity : Text
  pub gross_amount_minor : ℕ
  pub adjustment_amount_minor : ℤ
  pub net_amount_minor : ℤ
  pub price_source : PriceSource
  pub price_reference : Option Text
  pub override_reason : Option Text

-- `BigInt(text)` of a text that may start with a minus sign.
unfoldable pub signed_big_int : Text → Option ℤ
unfolding big_int
signed_big_int [] = some (pos 0)
signed_big_int (c ∷ text) =
    if c == b'-'
    then elim text [
      | [] ↦ none
      | d ∷ rest ↦ elim (big_int (d ∷ rest)) [ none ↦ none | some n ↦ some (negate (pos n)) ]
    ]
    else elim (big_int (c ∷ text)) [ none ↦ none | some n ↦ some (pos n) ]

abbrev pub quantity_scale : ℕ
quantity_scale = 10_000

-- `claimed && BigInt(claimed) !== amount`
unfoldable pub differs : Option Text → ℤ → Result Failure Bool
unfolding signed_big_int
differs none amount = ok false
differs (some text) amount =
    or_throw (signed_big_int text) not_a_number >>= λ claimed. ok (not (eqb_ℤ claimed amount))

-- `(left) || (right)`, where the right side is read only if the left one is false.
abbrev pub or_else : Result Failure Bool → Result Failure Bool → Result Failure Bool
or_else left right = left >>= λ l. if l then ok true else right

abbrev pub gross_of : ℕ → ℕ → ℕ
gross_of quantity unit_price = (quantity * unit_price + quantity_scale / 2) / quantity_scale

-- The checks and the result, on the numbers that were read.
unfoldable pub price : ℕ → ℕ → ℤ → DeliveryPricingInput → Result Failure CalculatedPricing
price quantity unit_price adjustment input = do
  let gross = gross_of quantity unit_price
  let net = pos gross +ℤ adjustment
  throw_if (ltb_ℤ net (pos 0)) invalid_price
  mismatch ←
      or_else (differs (truthy input.client_gross_amount_minor) (pos gross))
        (differs (truthy input.client_net_amount_minor) net)
  throw_if mismatch server_calculation_mismatch
  ok (record {
    unit_price_minor = unit_price;
    quantity = format_scaled quantity 4;
    gross_amount_minor = gross;
    adjustment_amount_minor = adjustment;
    net_amount_minor = net;
    price_source = input.price_source;
    price_reference = input.price_reference;
    override_reason = input.override_reason;
  })

unfoldable pub calculate_pricing : Text → DeliveryPricingInput → Result Failure CalculatedPricing
unfolding price
calculate_pricing net_quantity input = do
  quantity ← parse_number (scaled_integer net_quantity 4)
  unit_price ← or_throw (big_int input.unit_price_minor) not_a_number
  adjustment ← or_throw (signed_big_int input.adjustment_amount_minor) not_a_number
  price quantity unit_price adjustment input

-- A client's claim that is there reads as the amount.
abbrev pub Agrees : Option Text → ℤ → Type 0
Agrees claimed amount = differs (truthy claimed) amount ≡ ok false

-- A price is sound for a quantity and an input: unit price and adjustment are the input's, the
-- gross amount is the exact product rounded half up, the net amount is the gross amount with the
-- adjustment and not negative, the client's claims agree, and the source of the price is kept.
pub record IsPriced (quantity : ℕ) (input : DeliveryPricingInput) (p : CalculatedPricing)
    : Type 0 where
  pub quantity_kept : scaled_integer p.quantity 4 ≡ some quantity
  pub unit_price_read : big_int input.unit_price_minor ≡ some p.unit_price_minor
  pub adjustment_read :
      signed_big_int input.adjustment_amount_minor ≡ some p.adjustment_amount_minor
  pub rounded_low : p.gross_amount_minor * quantity_scale ≤ quantity * p.unit_price_minor + 5_000
  pub rounded_high :
      quantity * p.unit_price_minor + 5_000 < (p.gross_amount_minor + 1) * quantity_scale
  pub adjusted : p.net_amount_minor ≡ pos p.gross_amount_minor +ℤ p.adjustment_amount_minor
  pub net_nonneg : pos 0 ≤ℤ p.net_amount_minor
  pub gross_agrees : Agrees input.client_gross_amount_minor (pos p.gross_amount_minor)
  pub net_agrees : Agrees input.client_net_amount_minor p.net_amount_minor
  pub source_kept :
      (p.price_source ≡ input.price_source)
      × (p.price_reference ≡ input.price_reference)
      × (p.override_reason ≡ input.override_reason)

or_else-false :
    (left right : Result Failure Bool)
    → or_else left right ≡ ok false
    → (left ≡ ok false) × (right ≡ ok false)
or_else-false (err e) right h = cc
or_else-false (ok true) right h = cc
or_else-false (ok false) right h = (refl, h)

or_throw-eq-ok :
    {A : Type 0} (o : Option A) (e : Failure) {a : A} → or_throw o e ≡ ok a → o ≡ some a
or_throw-eq-ok none e h = cc
or_throw-eq-ok (some b) e h = cc

abbrev pricing_of : ℕ → ℕ → ℤ → DeliveryPricingInput → CalculatedPricing
pricing_of quantity unit_price adjustment input = record {
  unit_price_minor = unit_price;
  quantity = format_scaled quantity 4;
  gross_amount_minor = gross_of quantity unit_price;
  adjustment_amount_minor = adjustment;
  net_amount_minor = pos (gross_of quantity unit_price) +ℤ adjustment;
  price_source = input.price_source;
  price_reference = input.price_reference;
  override_reason = input.override_reason;
}

price-ok :
    (quantity unit_price : ℕ) (adjustment : ℤ) (input : DeliveryPricingInput)
    {p : CalculatedPricing}
    → price quantity unit_price adjustment input ≡ ok p
    → (pos 0 ≤ℤ pos (gross_of quantity unit_price) +ℤ adjustment)
      × Agrees input.client_gross_amount_minor (pos (gross_of quantity unit_price))
      × Agrees input.client_net_amount_minor (pos (gross_of quantity unit_price) +ℤ adjustment)
      × (p ≡ pricing_of quantity unit_price adjustment input)
unfolding price
price-ok quantity unit_price adjustment input h =
    let gross = pos (gross_of quantity unit_price) in
    let net = gross +ℤ adjustment in
    let by_gross = differs (truthy input.client_gross_amount_minor) gross in
    let by_net = differs (truthy input.client_net_amount_minor) net in
    let (nonneg, rest) = throw_if-eq-ok (ltb_ℤ net (pos 0)) _ _ h in
    let (mismatch, compared, rest2) = >>=-eq-ok (or_else by_gross by_net) _ rest in
    let (agrees, same) = throw_if-eq-ok mismatch _ _ rest2 in
    let (gross_agrees, net_agrees) = or_else-false by_gross by_net (compared ∙ ap ok agrees) in
    (ground arith, gross_agrees, net_agrees, ground arith)

-- Whatever the client sent, a pricing that is returned is sound for the quantity that was read and
-- for the input: unit price and adjustment are the input's, the gross amount is the product rounded
-- half up, the net amount is the adjusted one and not negative, and the client's claims agree.
pub calculate_pricing-IsPriced :
    (net_quantity : Text) (input : DeliveryPricingInput) {p : CalculatedPricing}
    → calculate_pricing net_quantity input ≡ ok p
    → (quantity : ℕ) × (scaled_integer net_quantity 4 ≡ some quantity) × IsPriced quantity input p
unfolding calculate_pricing
calculate_pricing-IsPriced net_quantity input {p} h =
    let (quantity, quantity_ok, h1) =
      >>=-eq-ok (parse_number (scaled_integer net_quantity 4)) _ h in
    let (unit_price, unit_price_ok, h2) =
      >>=-eq-ok (or_throw (big_int input.unit_price_minor) not_a_number) _ h1 in
    let (adjustment, adjustment_ok, h3) =
      >>=-eq-ok (or_throw (signed_big_int input.adjustment_amount_minor) not_a_number)
        (λ a. price quantity unit_price a input) h2 in
    let (nonneg, gross_agrees, net_agrees, same) =
      price-ok quantity unit_price adjustment input h3 in
    let priced : IsPriced quantity input (pricing_of quantity unit_price adjustment input) =
      record {
        quantity_kept = scaled_integer-format_scaled quantity 3;
        unit_price_read = or_throw-eq-ok _ not_a_number unit_price_ok;
        adjustment_read = or_throw-eq-ok _ not_a_number adjustment_ok;
        rounded_low = omega arith;
        rounded_high = omega arith;
        adjusted = refl;
        net_nonneg = nonneg;
        gross_agrees = gross_agrees;
        net_agrees = net_agrees;
        source_kept = (refl, refl, refl);
      } in
    (
      quantity,
      parse_number-ok (scaled_integer net_quantity 4) quantity_ok,
      subst (IsPriced quantity input) (sym same) priced,
    )
