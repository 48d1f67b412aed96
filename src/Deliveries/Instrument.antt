-- ===== src/Deliveries/Instrument.antt =====
-- `assessWeighingInstrument` of apps/api/src/deliveries/delivery-instrument.ts. A `Date` is its
-- UTC calendar fields; `setUTCFullYear` moves a 29 February into 1 March of a common year.
use clycites_platform.Prelude.{
  ℕ, ◌+◌, ◌%◌, ◌≡◌, ◌≢◌, Bool, true, false, not, ◌&&◌, ◌||◌, Option, none, some, String, arith, ltb,
  ◌==◌, if◌then◌else◌,
}

pub record Date : Type 0 where
  pub year : ℕ
  pub month : ℕ
  pub day : ℕ
  pub millisecond_of_day : ℕ

abbrev pub is_leap : ℕ → Bool
is_leap year = (year % 4 == 0) && (not (year % 100 == 0) || (year % 400 == 0))

-- `date.setUTCFullYear(date.getUTCFullYear() + years)`
unfoldable pub add_years : ℕ → Date → Date
add_years years date =
    let moved = record date { year = date.year + years } in
    if (date.month == 2) && (date.day == 29) && not (is_leap (date.year + years))
    then record moved { month = 3; day = 1 }
    else moved

-- `left > right` on dates.
unfoldable pub date_gt : Date → Date → Bool
date_gt left right =
    if left.year == right.year
    then if left.month == right.month
      then if left.day == right.day
        then ltb right.millisecond_of_day left.millisecond_of_day
        else ltb right.day left.day
      else ltb right.month left.month
    else ltb right.year left.year

pub data InstrumentStatus : Type 0 where
  active inactive retired : InstrumentStatus

pub record Instrument : Type 0 where
  pub id : String
  pub status : InstrumentStatus
  pub calibrated_at : Date

pub data InstrumentFlagReason : Type 0 where
  instrument_not_recorded instrument_not_registered : InstrumentFlagReason
  instrument_inactive calibration_lapsed : InstrumentFlagReason

pub record InstrumentAssessment : Type 0 where
  pub reported_instrument_id : Option String
  pub instrument_id : Option String
  pub instrument_flagged : Bool
  pub instrument_flag_reason : Option InstrumentFlagReason

abbrev pub calibration_validity_years : ℕ
calibration_validity_years = 1

abbrev is_active : InstrumentStatus → Bool
is_active active = true
is_active _ = false

-- The reported id is absent or an empty text, which is falsy too; the callers pass a uuid or nothing.
unfoldable pub assess_weighing_instrument :
    Option String → Option Instrument → Date → InstrumentAssessment
unfolding add_years date_gt
assess_weighing_instrument none instrument captured_at = record {
  reported_instrument_id = none;
  instrument_id = none;
  instrument_flagged = true;
  instrument_flag_reason = some instrument_not_recorded;
}
assess_weighing_instrument (some reported) none captured_at = record {
  reported_instrument_id = some reported;
  instrument_id = none;
  instrument_flagged = true;
  instrument_flag_reason = some instrument_not_registered;
}
assess_weighing_instrument (some reported) (some instrument) captured_at =
    let expires_at = add_years calibration_validity_years instrument.calibrated_at in
    let assessment = λ (flagged : Bool) (reason : Option InstrumentFlagReason).
      let a : InstrumentAssessment = record {
        reported_instrument_id = some reported;
        instrument_id = some instrument.id;
        instrument_flagged = flagged;
        instrument_flag_reason = reason;
      } in
      a in
    if not (is_active instrument.status)
    then assessment true (some instrument_inactive)
    else if date_gt captured_at expires_at
    then assessment true (some calibration_lapsed)
    else assessment false none

-- An instrument vouches for a capture: it is registered, active and its calibration has not lapsed.
abbrev pub Vouches : Option String → Option Instrument → Date → Type 0
Vouches reported none captured_at = ⊥
Vouches reported (some i) captured_at =
    (reported ≢ none)
    × (i.status ≡ active)
    × (date_gt captured_at (add_years calibration_validity_years i.calibrated_at) ≡ false)

-- A capture is left unflagged exactly when its instrument vouches for it, and a reason is given
-- exactly when it is flagged.
pub assess_weighing_instrument_iff :
    (reported : Option String) (instrument : Option Instrument) (captured_at : Date)
    → let a = assess_weighing_instrument reported instrument captured_at in
      (a.instrument_flagged ≡ false → Vouches reported instrument captured_at)
      × (Vouches reported instrument captured_at → a.instrument_flagged ≡ false)
      × (a.instrument_flagged ≡ false → a.instrument_flag_reason ≡ none)
      × (a.instrument_flag_reason ≡ none → a.instrument_flagged ≡ false)
unfolding assess_weighing_instrument
assess_weighing_instrument_iff none none captured_at = ground arith
assess_weighing_instrument_iff none (some i) captured_at = ground arith
assess_weighing_instrument_iff (some r) none captured_at = ground arith
assess_weighing_instrument_iff (some r) (some i) captured_at = ground arith

-- A year later is never before: a capture within the day of the calibration is never lapsed.
pub date_gt-add_years :
    (date : Date) → date_gt date (add_years calibration_validity_years date) ≡ false
unfolding date_gt add_years
date_gt-add_years date = ground arith
