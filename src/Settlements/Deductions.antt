-- ===== src/Settlements/Deductions.antt =====
-- What is taken from a farmer's gross entitlement (apps/api/src/settlements/settlements.service.ts):
-- `calculateDeduction`, the loop over the policies in `calculateSettlementRun`, and
-- `planAdvanceRecovery`. Amounts are natural numbers in minor units, quantities are in units of
-- 1/10000. The value of a policy is a `Decimal(20, 8)`, here in units of 10^-8.
pub mod Waterfall
pub mod Settled
use clycites_platform.Prelude.{
  ℕ, ◌+◌, ◌-◌, ◌*◌, ◌/◌, Bool, true, false, not, ◌&&◌, Option, none, some, List, [], ◌∷◌, ◌++◌, map,
  String, ltb, ◌==◌, if◌then◌else◌, sum_by,
}
use clycites_platform.Decimal.{Text, to_scaled_integer}

pub data PolicyType : Type 0 where
  fixed_amount percentage per_quantity_unit : PolicyType

pub record Policy : Type 0 where
  pub code : String
  pub type : PolicyType
  pub value : ℕ
  pub maximum_amount_minor : Option ℕ
  pub requires_farmer_consent : Bool

-- On the scaled value.
abbrev pub deduction_of : PolicyType → ℕ → ℕ → ℕ → ℕ
deduction_of fixed_amount scaled_value gross quantity = scaled_value / 100_000_000
deduction_of percentage scaled_value gross quantity = (gross * scaled_value) / 10_000_000_000
deduction_of per_quantity_unit scaled_value gross quantity =
    (quantity * scaled_value) / 1_000_000_000_000

abbrev pub on_scaled : PolicyType → ℕ → ℕ → Option ℕ → Option ℕ
on_scaled type gross quantity none = none
on_scaled type gross quantity (some scaled_value) =
    some (deduction_of type scaled_value gross quantity)

-- `none` stands for a text that `BigInt` does not read.
unfoldable pub calculate_deduction : PolicyType → Text → ℕ → ℕ → Option ℕ
calculate_deduction type value gross quantity =
    on_scaled type gross quantity (to_scaled_integer value 8)

abbrev pub minimum : ℕ → ℕ → ℕ
minimum left right = if ltb left right then left else right

-- `policy.maximumAmountMinor ? minimum(...) : ...`, where `0n` is falsy.
abbrev pub capped : Option ℕ → ℕ → ℕ
capped none calculated = calculated
capped (some maximum) calculated = if maximum == 0 then calculated else minimum calculated maximum

pub data Source : Type 0 where
  policy_source manual_adjustment reversal advance_recovery : Source

pub record DeductionRow : Type 0 where
  pub code : String
  pub amount_minor : ℕ
  pub source : Source

-- What the loop over the policies has made for one farmer.
pub record PolicyOutcome : Type 0 where
  pub deductions : List DeductionRow
  -- the policies that lack the farmer's consent, a blocking exception each
  pub exceptions : List Policy
  pub carried_forward_minor : ℕ

abbrev no_outcome : PolicyOutcome
no_outcome = record { deductions = []; exceptions = []; carried_forward_minor = 0 }

abbrev pub capped_amount : ℕ → ℕ → Policy → ℕ
capped_amount gross quantity p =
    capped p.maximum_amount_minor (deduction_of p.type p.value gross quantity)

abbrev pub lacks_consent : Bool → Policy → Bool
lacks_consent consented p = p.requires_farmer_consent && not consented

abbrev pub with_exception : Policy → PolicyOutcome → PolicyOutcome
with_exception p rest = record rest { exceptions = p ∷ rest.exceptions }

abbrev pub with_deduction : Policy → ℕ → ℕ → PolicyOutcome → PolicyOutcome
with_deduction p wanted amount rest = record rest {
  deductions =
      if amount == 0
      then rest.deductions
      else record { code = p.code; amount_minor = amount; source = policy_source }
        ∷ rest.deductions;
  carried_forward_minor = (wanted - amount) + rest.carried_forward_minor;
}

-- `taken` is what the policies before have taken, `farmerDeductions`.
unfoldable pub apply_policies : ℕ → ℕ → Bool → ℕ → List Policy → PolicyOutcome
apply_policies gross quantity consented taken [] = no_outcome
apply_policies gross quantity consented taken (p ∷ ps) =
    let wanted = capped_amount gross quantity p in
    let amount = minimum wanted (gross - taken) in
    let skipped = lacks_consent consented p in
    let rest =
      apply_policies gross quantity consented (if skipped then taken else taken + amount) ps in
    if skipped then with_exception p rest else with_deduction p wanted amount rest

pub record Advance : Type 0 where
  pub id : ℕ
  pub farmer_id : String
  pub issued_at : ℕ
  pub issued_amount_minor : ℕ
  pub outstanding_minor : ℕ

pub record Recovery : Type 0 where
  pub farmer_advance_id : ℕ
  pub amount_minor : ℕ
  pub outstanding_after_minor : ℕ

pub record RecoveryPlan : Type 0 where
  pub recovered_minor : ℕ
  pub shortfall_minor : ℕ
  pub deductions : List DeductionRow
  pub recoveries : List Recovery

abbrev pub no_recovery : RecoveryPlan
no_recovery = record { recovered_minor = 0; shortfall_minor = 0; deductions = []; recoveries = [] }

abbrev pub with_recovery : Advance → ℕ → RecoveryPlan → RecoveryPlan
with_recovery advance recovery rest = record {
  recovered_minor = recovery + rest.recovered_minor;
  shortfall_minor = rest.shortfall_minor;
  deductions =
      record { code = "ADVANCE_RECOVERY"; amount_minor = recovery; source = advance_recovery }
      ∷ rest.deductions;
  recoveries =
      record {
        farmer_advance_id = advance.id;
        amount_minor = recovery;
        outstanding_after_minor = advance.outstanding_minor - recovery;
      }
      ∷ rest.recoveries;
}

-- The loop of `planAdvanceRecovery`; the advances' updates are those of the recoveries.
unfoldable pub plan_advance_recovery : List Advance → ℕ → RecoveryPlan
plan_advance_recovery [] remaining = no_recovery
plan_advance_recovery (advance ∷ advances) remaining =
    let recovery = minimum advance.outstanding_minor remaining in
    let rest = plan_advance_recovery advances (remaining - recovery) in
    let short = record rest {
      shortfall_minor = (advance.outstanding_minor - recovery) + rest.shortfall_minor;
    } in
    if recovery == 0 then short else with_recovery advance recovery short

pub record FarmerSettlement : Type 0 where
  pub farmer_id : String
  pub gross_entitlement_minor : ℕ
  pub deductions_total_minor : ℕ
  pub carried_forward_minor : ℕ
  pub net_entitlement_minor : ℕ

-- All rows that the loop over the farmers writes for one farmer.
pub record FarmerRows : Type 0 where
  pub settlement : FarmerSettlement
  pub deductions : List DeductionRow
  pub exceptions : List Policy
  pub recoveries : List Recovery

abbrev pub amounts : List DeductionRow → ℕ
amounts = sum_by (λ (row : DeductionRow). row.amount_minor)

-- The body of the loop over the farmers.
unfoldable pub settle_farmer : List Policy → List Advance → Bool → String → ℕ → ℕ → FarmerRows
unfolding apply_policies plan_advance_recovery
settle_farmer policies advances consented farmer_id gross quantity =
    let outcome = apply_policies gross quantity consented 0 policies in
    let taken = amounts outcome.deductions in
    let plan = plan_advance_recovery advances (gross - taken) in
    let total = taken + plan.recovered_minor in
    record {
      settlement = record {
        farmer_id = farmer_id;
        gross_entitlement_minor = gross;
        deductions_total_minor = total;
        carried_forward_minor = outcome.carried_forward_minor + plan.shortfall_minor;
        net_entitlement_minor = gross - total;
      };
      deductions = outcome.deductions ++ plan.deductions;
      exceptions = outcome.exceptions;
      recoveries = plan.recoveries;
    }
