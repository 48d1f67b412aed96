-- ===== src/Yield.antt =====
-- The yield of a transformation (apps/api/src/batches/transformation-yield.ts): the ratio of output
-- to input, whether it lies in the published range, and when a loss has to be explained. The
-- texts of ratios are in Decimal.
mod Tests
use native.Mathlib.Nat.{div-mul-le_self, lt-div-mul-add}
use clycites_platform.Prelude.{
  ℕ, zero, suc, ◌+◌, ◌-◌, ◌*◌, ◌/◌, ◌≤◌, ◌<◌, ◌≡◌, ◌≢◌, refl, ap, ◌∙◌, ◌⊎◌, inl, inr, Bool, true,
  false, ◌||◌, Bool-cases, Option, none, some, String, arith, ltb, ◌==◌, if◌then◌else◌,
}
use clycites_platform.Decimal.{Text, ratio_scale, format_ratio, to_ratio_units}
use clycites_platform.Decimal.RoundTrip.{fixed_scales_round_trip}

pub data YieldFlagReason : Type 0 where
  yield_out_of_range yield_unverifiable : YieldFlagReason

pub record ConversionRange : Type 0 where
  pub id : String
  pub min_ratio_units : ℕ
  pub max_ratio_units : ℕ

pub record YieldAssessment : Type 0 where
  pub yield_ratio : Text
  pub conversion_id : Option String
  pub yield_flagged : Bool
  pub yield_flag_reason : Option YieldFlagReason

unfoldable pub compute_yield_ratio : ℕ → ℕ → ℕ
compute_yield_ratio input_units output_units =
    (output_units * ratio_scale + input_units / 2) / input_units

abbrev unverifiable : ℕ → YieldAssessment
unverifiable ratio = record {
  yield_ratio = format_ratio ratio;
  conversion_id = none;
  yield_flagged = true;
  yield_flag_reason = some yield_unverifiable;
}

-- `conversion` is looked at only where the form has changed.
unfoldable pub assess_conversion : ℕ → Option ConversionRange → YieldAssessment
assess_conversion ratio none = unverifiable ratio
assess_conversion ratio (some conversion) =
    let out_of_range =
      ltb ratio conversion.min_ratio_units || ltb conversion.max_ratio_units ratio in
    record {
      yield_ratio = format_ratio ratio;
      conversion_id = some conversion.id;
      yield_flagged = out_of_range;
      yield_flag_reason = if out_of_range then some yield_out_of_range else none;
    }

unfoldable pub assess_yield : ℕ → ℕ → Bool → Option ConversionRange → YieldAssessment
unfolding assess_conversion
assess_yield input_units output_units form_changed conversion =
    let ratio = compute_yield_ratio input_units output_units in
    if input_units == 0
    then unverifiable 0
    else if form_changed
    then assess_conversion ratio conversion
    else record {
      yield_ratio = format_ratio ratio;
      conversion_id = none;
      yield_flagged = false;
      yield_flag_reason = none;
    }

unfoldable pub loss_tolerance_units : ℕ → ℕ
loss_tolerance_units input_units =
    let proportional = input_units / 1000 in if ltb 0 proportional then proportional else 1

-- `inputUnits - outputUnits` is signed in the source, so a gain requires no reason.
unfoldable pub loss_requires_reason : ℕ → ℕ → Bool
unfolding loss_tolerance_units
loss_requires_reason input_units output_units =
    ltb (output_units + loss_tolerance_units input_units) input_units

-- The yield of a changed form lies in the range of its conversion.
abbrev pub InRange : ℕ → Option ConversionRange → Type 0
InRange ratio none = ⊥
InRange ratio (some c) = (c.min_ratio_units ≤ ratio) × (ratio ≤ c.max_ratio_units)

-- A ratio is that of an output to an input: the exact one rounded half up at six decimals, and 0
-- where there is no input.
abbrev pub IsRatioOf : ℕ → ℕ → ℕ → Type 0
IsRatioOf input_units output_units ratio =
    ((input_units ≡ 0) × (ratio ≡ 0))
    ⊎ ((0 < input_units)
        × (ratio * input_units ≤ output_units * ratio_scale + input_units / 2)
        × (output_units * ratio_scale + input_units / 2 < (ratio + 1) * input_units))

-- What an assessment by the ratio `r` promises.
pub record IsAssessed (input_units output_units : ℕ) (form_changed : Bool)
    (conversion : Option ConversionRange) (a : YieldAssessment) : Type 0 where
  pub ratio : ℕ
  pub printed : to_ratio_units a.yield_ratio ≡ some ratio
  pub ratio_of : IsRatioOf input_units output_units ratio
  pub sound :
      a.yield_flagged ≡ false
      → (0 < input_units) × ((form_changed ≡ false) ⊎ InRange ratio conversion)
  pub complete :
      (0 < input_units) × ((form_changed ≡ false) ⊎ InRange ratio conversion)
      → a.yield_flagged ≡ false

flagged_iff :
    (input_units output_units : ℕ) (form_changed : Bool) (conversion : Option ConversionRange)
    → 0 < input_units
    → let ratio = compute_yield_ratio input_units output_units in
      let a = assess_yield input_units output_units form_changed conversion in
      (a.yield_flagged ≡ false → (form_changed ≡ false) ⊎ InRange ratio conversion)
      × ((form_changed ≡ false) ⊎ InRange ratio conversion → a.yield_flagged ≡ false)
      × (a.yield_ratio ≡ format_ratio ratio)
unfolding assess_yield
flagged_iff input_units output_units false conversion h =
    (λ _. inl refl, λ _. ground arith, ground arith)
flagged_iff input_units output_units true none h = ground arith
flagged_iff input_units output_units true (some c) h = ground arith

-- The ratio is the exact one, rounded half up at six decimals.
compute_yield_ratio_rounds :
    (input_units output_units : ℕ)
    → 0 < input_units
    → let ratio = compute_yield_ratio input_units output_units in
      (ratio * input_units ≤ output_units * ratio_scale + input_units / 2)
      × (output_units * ratio_scale + input_units / 2 < (ratio + 1) * input_units)
unfolding compute_yield_ratio
compute_yield_ratio_rounds input_units output_units h =
    let scaled = output_units * ratio_scale + input_units / 2 in
    omega (arith, div-mul-le_self scaled input_units, lt-div-mul-add {a = scaled} h)

-- A transformation is left unflagged exactly when it has some input and its form is unchanged or
-- its ratio lies in the published range; the text of the assessment parses back to the ratio,
-- which is the exact one rounded half up at six decimals, or 0 without input.
pub assess_yield_iff :
    (input_units output_units : ℕ) (form_changed : Bool) (conversion : Option ConversionRange)
    → IsAssessed input_units output_units form_changed conversion
        (assess_yield input_units output_units form_changed conversion)
unfolding assess_yield
assess_yield_iff zero output_units form_changed conversion = record {
  ratio = 0;
  printed = (fixed_scales_round_trip 0).1;
  ratio_of = inl (refl, refl);
  sound = λ e. cc;
  complete = λ (some_input, _). ground arith;
}
assess_yield_iff (suc n) output_units form_changed conversion =
    let some_input : 0 < suc n = omega arith in
    let ratio = compute_yield_ratio (suc n) output_units in
    let (sound, complete, printed) =
      flagged_iff (suc n) output_units form_changed conversion some_input in
    let (low, high) = compute_yield_ratio_rounds (suc n) output_units some_input in
    record {
      ratio = ratio;
      printed = ap to_ratio_units printed ∙ (fixed_scales_round_trip ratio).1;
      ratio_of = inr (some_input, low, high);
      sound = λ e. (some_input, sound e);
      complete = λ (_, fits). complete fits;
    }

-- A loss needs a reason exactly when it is more than a thousandth of the input, and more than one
-- unit.
pub loss_requires_reason_iff :
    (input_units output_units : ℕ)
    → (loss_requires_reason input_units output_units ≡ true
        → (1 < input_units - output_units) × (input_units / 1000 < input_units - output_units))
      × ((1 < input_units - output_units) × (input_units / 1000 < input_units - output_units)
          → loss_requires_reason input_units output_units ≡ true)
unfolding loss_requires_reason
loss_requires_reason_iff input_units output_units = ground arith
