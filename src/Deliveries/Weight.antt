-- ===== src/Deliveries/Weight.antt =====
-- `calculateWeight` of apps/api/src/deliveries/delivery-calculation.ts. A text that `BigInt` does
-- not read is the error `not_a_number`, which the request schema excludes.
use clycites_platform.Prelude.{
  ℕ, ◌+◌, ◌-◌, ◌≤◌, ◌<◌, ◌≡◌, ap, ◌∙◌, Option, none, some, [], ◌∷◌, Result, ok, ◌>>=◌, ◌>>◌,
  >>=-eq-ok, throw_if, or_throw, arith, ltb, leb, if◌then◌else◌,
}
use clycites_platform.Decimal.{Text, scaled_integer, format_scaled}
use clycites_platform.Decimal.RoundTrip.{scaled_integer-format_scaled}

pub data Failure : Type 0 where
  invalid_weight invalid_price server_calculation_mismatch not_a_number : Failure

pub data QuantityUnit : Type 0 where
  kg : QuantityUnit

pub data CaptureMethod : Type 0 where
  manual : CaptureMethod

pub data DeliveryWeight : Type 0 where
  direct_net : Text → QuantityUnit → CaptureMethod → DeliveryWeight
  -- gross, tare, and the net quantity that the client claims
  gross_tare : Text → Text → Option Text → QuantityUnit → CaptureMethod → DeliveryWeight

pub record CalculatedWeight : Type 0 where
  pub gross_quantity : Option Text
  pub tare_quantity : Option Text
  pub net_quantity : Text
  pub unit : QuantityUnit
  pub capture_method : CaptureMethod

-- The value of an optional text where it is truthy: given and not empty.
abbrev pub truthy : Option Text → Option Text
truthy none = none
truthy (some []) = none
truthy (some (c ∷ text)) = some (c ∷ text)

abbrev pub parse_number : Option ℕ → Result Failure ℕ
parse_number units = or_throw units not_a_number

-- `clientNet > net ? clientNet - net : net - clientNet`
abbrev pub distance : ℕ → ℕ → ℕ
distance a b = if ltb b a then a - b else b - a

check_client : Option Text → ℕ → Result Failure (Unit {0})
check_client none net = ok tt
check_client (some text) net = parse_number (scaled_integer text 4) >>= λ client_net.
    throw_if (ltb 1 (distance client_net net)) server_calculation_mismatch

abbrev weight_of : ℕ → ℕ → QuantityUnit → CaptureMethod → CalculatedWeight
weight_of gross tare unit capture_method = record {
  gross_quantity = some (format_scaled gross 4);
  tare_quantity = some (format_scaled tare 4);
  net_quantity = format_scaled (gross - tare) 4;
  unit = unit;
  capture_method = capture_method;
}

-- The checks of a weight with a tare, on the numbers that were read.
unfoldable pub weigh :
    ℕ → ℕ → Option Text → QuantityUnit → CaptureMethod → Result Failure CalculatedWeight
unfolding check_client
weigh gross tare client unit capture_method = do
  throw_if (leb gross tare) invalid_weight
  check_client (truthy client) (gross - tare)
  ok (weight_of gross tare unit capture_method)

unfoldable pub calculate_weight : DeliveryWeight → Result Failure CalculatedWeight
unfolding weigh
calculate_weight (direct_net net_text unit capture_method) = do
  net ← parse_number (scaled_integer net_text 4)
  ok (record {
    gross_quantity = none;
    tare_quantity = none;
    net_quantity = format_scaled net 4;
    unit = unit;
    capture_method = capture_method;
  })
calculate_weight (gross_tare gross_text tare_text client unit capture_method) = do
  gross ← parse_number (scaled_integer gross_text 4)
  tare ← parse_number (scaled_integer tare_text 4)
  weigh gross tare client unit capture_method

-- What a weight taken with a tare says, in units: the parts that were given, the net quantity
-- between them, and how far the client's claim may be off.
pub record NetOfTare (gross_text tare_text : Text) (client : Option Text) (w : CalculatedWeight)
    : Type 0 where
  pub gross : ℕ
  pub tare : ℕ
  pub gross_read : scaled_integer gross_text 4 ≡ some gross
  pub tare_read : scaled_integer tare_text 4 ≡ some tare
  pub tare_lt : tare < gross
  pub gross_kept : w.gross_quantity ≡ some (format_scaled gross 4)
  pub tare_kept : w.tare_quantity ≡ some (format_scaled tare 4)
  pub net_read : scaled_integer w.net_quantity 4 ≡ some (gross - tare)
  pub client_close :
      (text : Text) (claimed : ℕ)
      → truthy client ≡ some text
      → scaled_integer text 4 ≡ some claimed
      → (claimed ≤ gross - tare + 1) × (gross - tare ≤ claimed + 1)

check_client-close :
    (client : Option Text) (net : ℕ) {u : Unit {0}}
    → check_client client net ≡ ok u
    → (text : Text) (claimed : ℕ) → client ≡ some text
    → scaled_integer text 4 ≡ some claimed
    → (claimed ≤ net + 1) × (net ≤ claimed + 1)
unfolding check_client
check_client-close none net h text claimed e k = cc
check_client-close (some t) net h text claimed e k = ground arith

weigh-ok :
    (gross tare : ℕ) (client : Option Text) (unit : QuantityUnit) (method : CaptureMethod)
    {w : CalculatedWeight}
    → weigh gross tare client unit method ≡ ok w
    → (tare < gross)
      × (check_client (truthy client) (gross - tare) ≡ ok tt)
      × (w ≡ weight_of gross tare unit method)
unfolding weigh check_client
weigh-ok gross tare client unit method h = ground arith

pub parse_number-ok : (o : Option ℕ) {n : ℕ} → parse_number o ≡ ok n → o ≡ some n
parse_number-ok none h = cc
parse_number-ok (some n) h = cc

-- A weight with a tare that is accepted has a net quantity of gross less tare, which is positive
-- and parses back exactly, and agrees with the client's claim within one unit.
pub calculate_weight-NetOfTare :
    (gross_text tare_text : Text) (client : Option Text) (unit : QuantityUnit)
    (method : CaptureMethod) {w : CalculatedWeight}
    → calculate_weight (gross_tare gross_text tare_text client unit method) ≡ ok w
    → NetOfTare gross_text tare_text client w
unfolding calculate_weight
calculate_weight-NetOfTare gross_text tare_text client unit method {w} h =
    let (gross, gross_ok, h1) = >>=-eq-ok (parse_number (scaled_integer gross_text 4)) _ h in
    let (tare, tare_ok, h2) =
      >>=-eq-ok (parse_number (scaled_integer tare_text 4)) (λ t. weigh gross t client unit method)
        h1 in
    let (lighter, checked, same) = weigh-ok gross tare client unit method h2 in
    record {
      gross = gross;
      tare = tare;
      gross_read = parse_number-ok (scaled_integer gross_text 4) gross_ok;
      tare_read = parse_number-ok (scaled_integer tare_text 4) tare_ok;
      tare_lt = lighter;
      gross_kept = ap (λ (x : CalculatedWeight). x.gross_quantity) same;
      tare_kept = ap (λ (x : CalculatedWeight). x.tare_quantity) same;
      net_read =
          ap (λ (x : CalculatedWeight). scaled_integer x.net_quantity 4) same
          ∙ scaled_integer-format_scaled (gross - tare) 3;
      client_close = check_client-close (truthy client) (gross - tare) checked;
    }
