-- ===== src/Settlements/Deductions/Settled.antt =====
-- The settlement of one farmer adds up (`calculateSettlementRun` of
-- apps/api/src/settlements/settlements.service.ts).
use clycites_platform.Prelude.{
  ℕ, ◌+◌, ◌-◌, ◌≡◌, ap, ◌∙◌, List, [], ◌∷◌, ◌++◌, arith, min, sum_by, true, false, ◌==◌, refl,
  sum_by-append, Bool, Bool-cases, inl, inr, if◌then◌else◌, String, some,
}
use clycites_platform.Decimal.{format_scaled}
use clycites_platform.Decimal.RoundTrip.{to_scaled_integer-format_scaled}
use clycites_platform.Settlements.Deductions.{
  PolicyType, Policy, Source, policy_source, advance_recovery, FarmerRows, Advance, DeductionRow,
  PolicyOutcome, minimum, capped_amount, lacks_consent, apply_policies, plan_advance_recovery,
  amounts, settle_farmer, calculate_deduction, deduction_of, on_scaled, with_deduction,
}
use clycites_platform.Settlements.Deductions.Waterfall.{owed, plan_advance_recovery-amounts}

-- What the policies that apply to the farmer demand together.
unfoldable pub demanded : ℕ → ℕ → Bool → List Policy → ℕ
demanded gross quantity consented [] = 0
demanded gross quantity consented (p ∷ ps) =
    let rest = demanded gross quantity consented ps in
    if lacks_consent consented p then rest else capped_amount gross quantity p + rest

with_deduction-amounts :
    (p : Policy) (wanted left d : ℕ) (rest : PolicyOutcome)
    → amounts rest.deductions ≡ min d (left - minimum wanted left)
    → rest.carried_forward_minor ≡ d - (left - minimum wanted left)
    → (amounts (with_deduction p wanted (minimum wanted left) rest).deductions
        ≡ min (wanted + d) left)
      × ((with_deduction p wanted (minimum wanted left) rest).carried_forward_minor
          ≡ (wanted + d) - left)
with_deduction-amounts p wanted left d rest h k = ground arith

-- What is taken is what the policies demand, as far as the entitlement covers it; what is not
-- taken is carried forward.
apply_policies-amounts :
    (gross quantity : ℕ) (consented : Bool) (ps : List Policy) (taken : ℕ)
    → (amounts (apply_policies gross quantity consented taken ps).deductions
        ≡ min (demanded gross quantity consented ps) (gross - taken))
      × ((apply_policies gross quantity consented taken ps).carried_forward_minor
          ≡ demanded gross quantity consented ps - (gross - taken))
unfolding apply_policies demanded
apply_policies-amounts gross quantity consented [] taken = ground arith
apply_policies-amounts gross quantity consented (p ∷ ps) taken =
    elim (Bool-cases (lacks_consent consented p)) [
      | inl e ↦ rw e (apply_policies-amounts gross quantity consented ps taken)
      | inr e ↦
          let amount = minimum (capped_amount gross quantity p) (gross - taken) in
          let ih = apply_policies-amounts gross quantity consented ps (taken + amount) in
          let left : gross - (taken + amount) ≡ (gross - taken) - amount = omega arith in
          rw e (
            with_deduction-amounts p (capped_amount gross quantity p) (gross - taken)
              (demanded gross quantity consented ps)
              (apply_policies gross quantity consented (taken + amount) ps) (ih.0 ∙ ap (min _) left)
              (ih.1 ∙ ap (λ (n : ℕ). demanded gross quantity consented ps - n) left))
    ]

-- What the rows of one source take.
abbrev pub is_policy : Source → Bool
is_policy policy_source = true
is_policy _ = false

abbrev pub is_recovery : Source → Bool
is_recovery advance_recovery = true
is_recovery _ = false

unfoldable pub amounts_by : (Source → Bool) → List DeductionRow → ℕ
amounts_by counts =
    sum_by (λ (row : DeductionRow). if counts row.source then row.amount_minor else 0)

apply_policies-Source :
    (gross quantity : ℕ) (consented : Bool) (ps : List Policy) (taken : ℕ)
    → let rows = (apply_policies gross quantity consented taken ps).deductions in
      (amounts_by is_policy rows ≡ amounts rows) × (amounts_by is_recovery rows ≡ 0)
unfolding apply_policies amounts_by
apply_policies-Source gross quantity consented [] taken = (refl, refl)
apply_policies-Source gross quantity consented (p ∷ ps) taken =
    elim (Bool-cases (lacks_consent consented p)) [
      | inl e ↦ rw e (apply_policies-Source gross quantity consented ps taken)
      | inr e ↦
          let amount = minimum (capped_amount gross quantity p) (gross - taken) in
          let ih = apply_policies-Source gross quantity consented ps (taken + amount) in
          rw e (elim (Bool-cases (amount == 0)) [
            | inl f ↦ rw f ih
            | inr f ↦ rw f (omega (arith, ih.0), omega (arith, ih.1))
          ])
    ]

plan_advance_recovery-Source :
    (advances : List Advance) (remaining : ℕ)
    → let rows = (plan_advance_recovery advances remaining).deductions in
      (amounts_by is_recovery rows ≡ amounts rows) × (amounts_by is_policy rows ≡ 0)
unfolding plan_advance_recovery amounts_by
plan_advance_recovery-Source [] remaining = (refl, refl)
plan_advance_recovery-Source (a ∷ advances) remaining =
    let recovery = minimum a.outstanding_minor remaining in
    let ih = plan_advance_recovery-Source advances (remaining - recovery) in
    elim (Bool-cases (recovery == 0)) [
      | inl f ↦ rw f ih
      | inr f ↦ rw f (omega (arith, ih.0), omega (arith, ih.1))
    ]

amounts_by-append :
    (counts : Source → Bool) (xs ys : List DeductionRow)
    → amounts_by counts (xs ++ ys) ≡ amounts_by counts xs + amounts_by counts ys
unfolding amounts_by
amounts_by-append counts xs ys =
    sum_by-append (λ (row : DeductionRow). if counts row.source then row.amount_minor else 0) xs ys

module _ (policies : List Policy) (advances : List Advance) (consented : Bool) (farmer : String)
    (gross quantity : ℕ) where
  abbrev rows : FarmerRows
  rows = settle_farmer policies advances consented farmer gross quantity

  -- Policies come first: what their rows take is what they demand as far as the gross entitlement
  -- covers it. The rows of advances take what is owed as far as the rest covers it. The rows add up
  -- to the total taken, which the net entitlement completes to the gross, and what is demanded and
  -- owed beyond the gross is carried forward.
  pub settle_farmer_lem :
      (amounts_by is_policy rows.deductions
        ≡ min (demanded gross quantity consented policies) gross)
      × (amounts_by is_recovery rows.deductions
          ≡ min (owed advances) (gross - demanded gross quantity consented policies))
      × (rows.settlement.deductions_total_minor
          ≡ min (demanded gross quantity consented policies + owed advances) gross)
      × (amounts rows.deductions ≡ rows.settlement.deductions_total_minor)
      × (rows.settlement.net_entitlement_minor + rows.settlement.deductions_total_minor ≡ gross)
      × (rows.settlement.carried_forward_minor
          ≡ demanded gross quantity consented policies + owed advances - gross)
  unfolding settle_farmer amounts_by
  settle_farmer_lem =
      let outcome = apply_policies gross quantity consented 0 policies in
      let taken = amounts outcome.deductions in
      let planned = (plan_advance_recovery advances (gross - taken)).deductions in
      let by_policies = apply_policies-amounts gross quantity consented policies 0 in
      let by_advances = plan_advance_recovery-amounts advances (gross - taken) in
      let of_policies = apply_policies-Source gross quantity consented policies 0 in
      let of_advances = plan_advance_recovery-Source advances (gross - taken) in
      let written =
        sum_by-append (λ (row : DeductionRow). row.amount_minor) outcome.deductions planned in
      let by_policy = amounts_by-append is_policy outcome.deductions planned in
      let by_recovery = amounts_by-append is_recovery outcome.deductions planned in
      (omega arith, omega arith, omega arith, omega arith, omega arith, omega arith)

-- The value of a policy survives its text with eight decimals: the deduction of the printed value
-- is the deduction of the value.
pub calculate_deduction-format_scaled :
    (type : PolicyType) (value gross quantity : ℕ)
    → calculate_deduction type (format_scaled value 8) gross quantity
      ≡ some (deduction_of type value gross quantity)
unfolding calculate_deduction
calculate_deduction-format_scaled type value gross quantity =
    ap (on_scaled type gross quantity) (to_scaled_integer-format_scaled value 7)
