-- ===== src/Settlements/PaymentTests.antt =====
-- A payment from its instruction to its confirmed reconciliation.
use clycites_platform.Prelude.{
  ◌≤◌, ◌≡◌, refl, true, false, some, List, [], ◌∷◌, Result, ok, err, length, All,
}
use clycites_platform.Settlements.Payments.{
  PaymentMethod, MethodStatus, PaymentFailure, ReconciliationInput, Case, Instruction,
}
use clycites_platform.Settlements.Payments.Paid.{
  is_paid, has_confirmed, IsChecked, FourEyes, is_unapproved,
}
use clycites_platform.Settlements.Payments.Steps.{Operation, Reachable, perform}
use clycites_platform.Settlements.Payments.Outcome.{
  Reachable-paid, Reachable-pays_once, perform-stays_paid, perform_all, perform_all-Reachable,
  whole_payment, uninstructed_case,
}

abbrev method : PaymentMethod
method = record {
  farmer_id = "f1";
  status = MethodStatus.verified;
  created_by = 1;
  verified_by = some 2;
}

abbrev payable : Case
payable = uninstructed_case "f1" "UGX" 540

abbrev or_payable : Result PaymentFailure Case → Case
or_payable (ok c) = c
or_payable (err e) = payable

abbrev paid_case : Case
unfolding perform_all
paid_case = or_payable (perform_all (whole_payment 1 2 method "UGX" 540) payable)

paid_Reachable : Reachable paid_case
unfolding perform_all paid_case
paid_Reachable =
    perform_all-Reachable (whole_payment 1 2 method "UGX" 540) payable
      (Reachable.uninstructed payable refl refl) refl

Reachable-paid_example :
    (x : Instruction) × (paid_case.instructions ≡ x ∷ [])
    × (x.amount_minor ≡ 540)
    × FourEyes x
    × (has_confirmed x.reconciliations ≡ true)
    × All (IsChecked "UGX" 540) x.reconciliations
unfolding perform_all paid_case
Reachable-paid_example = Reachable-paid paid_case paid_Reachable refl

Reachable-pays_once_example :
    (length paid_case.instructions ≤ 1)
    × All
        (λ (x : Instruction).
          (x.amount_minor ≡ paid_case.net_entitlement_minor)
          × (length x.attempts ≤ 1)
          × (is_unapproved x.status ≡ false → FourEyes x))
        paid_case.instructions
Reachable-pays_once_example = Reachable-pays_once paid_case paid_Reachable

abbrev match : ReconciliationInput
match = record { currency = "UGX"; amount_minor = 540; has_evidence = true }

-- The payment matched twice before the first match is confirmed.
abbrev twice : List Operation
twice =
    Operation.creating 1 "manual" (some method)
    ∷ Operation.requesting 0 1
    ∷ Operation.approving 2 0 2
    ∷ Operation.submitting 0 3
    ∷ Operation.processing_job 0 4
    ∷ Operation.reconciling 1 0 match
    ∷ Operation.reconciling 1 0 match
    ∷ Operation.reviewing 2 0 0 true
    ∷ []

abbrev twice_matched : Case
unfolding perform_all
twice_matched = or_payable (perform_all twice payable)

twice_Reachable : Reachable twice_matched
unfolding perform_all twice_matched
twice_Reachable =
    perform_all-Reachable twice payable (Reachable.uninstructed payable refl refl) refl

-- Rejecting the second match then puts the instruction under review again.
abbrev paid_again : Case
unfolding perform twice_matched
paid_again = or_payable (perform (Operation.reviewing 2 0 1 false) twice_matched)

perform-stays_paid_example : is_paid paid_again.payment_status ≡ true
unfolding perform paid_again twice_matched
perform-stays_paid_example =
    perform-stays_paid (Operation.reviewing 2 0 1 false) twice_matched twice_Reachable refl refl
