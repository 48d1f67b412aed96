-- ===== src/Settlements/Payments/Outcome.antt =====
-- What the payment of a settlement comes to (apps/api/src/settlements/settlements.service.ts and
-- apps/worker/src/payment-submission.worker.ts).
use clycites_platform.Prelude.{
  ℕ, ◌≤◌, ◌≡◌, inl, inr, true, false, some, List, [], ◌∷◌, String, Result, ok, ◌>>=◌, arith, length,
  All, Ensures-ok, >>=-eq-ok,
}
use mathlib.Core.Path.{subst}
use clycites_platform.Settlements.Payments.{
  FarmerStatus, PaymentMethod, PaymentFailure, PaymentStatus, AttemptStatus, InstructionStatus,
  ReconciliationStatus, Instruction, Case,
}
use clycites_platform.Settlements.Payments.Paid.{
  is_paid, confirmed-FourEyes, is_unapproved, has_confirmed, IsChecked, FourEyes, GoesOn,
}
use clycites_platform.Settlements.Payments.Steps.{
  Operation, perform, Reachable, performed, Reachable-IsGood, perform-GoesOn,
}

-- A settlement that is paid has one instruction, over its net entitlement and approved by somebody
-- else than who made it; one of the reconciliations of the instruction is confirmed, and every
-- confirmed one is over the same amount and currency and was reviewed by somebody else than who
-- recorded it.
pub Reachable-paid :
    (c : Case)
    → Reachable c
    → is_paid c.payment_status ≡ true
    → (x : Instruction) × (c.instructions ≡ x ∷ [])
      × (x.amount_minor ≡ c.net_entitlement_minor)
      × FourEyes x
      × (has_confirmed x.reconciliations ≡ true)
      × All (IsChecked c.currency c.net_entitlement_minor) x.reconciliations
Reachable-paid c reached paid = elim (Reachable-IsGood c reached) [
  | inl (_, first) ↦ ground arith
  | inr (x, o) ↦
      let confirmed = o.settled paid in
      let eyes = confirmed-FourEyes x o.sound confirmed in
      (x, o.only, o.sound.whole, eyes, confirmed, o.sound.checked)
]

-- However its payment went, a settlement has at most one instruction, of its net entitlement, with
-- at most one attempt at a payment, and whatever is beyond approval was approved by somebody else
-- than who made it.
pub Reachable-pays_once :
    (c : Case)
    → Reachable c
    → (length c.instructions ≤ 1)
      × All
          (λ (x : Instruction).
            (x.amount_minor ≡ c.net_entitlement_minor)
            × (length x.attempts ≤ 1)
            × (is_unapproved x.status ≡ false → FourEyes x))
          c.instructions
Reachable-pays_once c reached = elim (Reachable-IsGood c reached) [
  | inl (empty, _) ↦ rw empty (omega arith, tt)
  | inr (x, o) ↦
      rw o.only (omega arith, ((o.sound.whole, o.sound.sent_once, o.sound.four_eyes), tt))
]

-- A paid settlement stays paid, whatever is done with its payment.
pub perform-stays_paid :
    (operation : Operation) (c : Case) {after : Case}
    → Reachable c
    → perform operation c ≡ ok after
    → is_paid c.payment_status ≡ true
    → is_paid after.payment_status ≡ true
perform-stays_paid operation c reached e =
    (Ensures-ok (GoesOn c) _ (perform-GoesOn operation c (Reachable-IsGood c reached)) e).1

unfoldable pub perform_all : List Operation → Case → Result PaymentFailure Case
unfolding perform
perform_all [] c = ok c
perform_all (operation ∷ operations) c = perform operation c >>= perform_all operations

pub perform_all-Reachable :
    (operations : List Operation) (c : Case) {after : Case}
    → Reachable c
    → perform_all operations c ≡ ok after
    → Reachable after
unfolding perform_all
perform_all-Reachable [] c {after} reached e =
    let same : c ≡ after = cc in subst Reachable same reached
perform_all-Reachable (operation ∷ operations) c reached e =
    let (d, first, rest) = >>=-eq-ok (perform operation c) (perform_all operations) e in
    perform_all-Reachable operations d (performed operation c reached first) rest

abbrev pub uninstructed_case : String → String → ℕ → Case
uninstructed_case farmer_id currency net = record {
  farmer_id = farmer_id;
  currency = currency;
  net_entitlement_minor = net;
  status = FarmerStatus.approved;
  payment_status = PaymentStatus.not_instructed;
  instructions = [];
}

-- The operations of a payment without incident: one user makes, submits and reconciles it, the
-- other approves and confirms it.
abbrev pub whole_payment : ℕ → ℕ → PaymentMethod → String → ℕ → List Operation
whole_payment maker checker method currency net =
    Operation.creating maker "manual" (some method)
    ∷ Operation.requesting 0 1
    ∷ Operation.approving checker 0 2
    ∷ Operation.submitting 0 3
    ∷ Operation.processing_job 0 4
    ∷ Operation.reconciling maker 0
        (record { currency = currency; amount_minor = net; has_evidence = true })
    ∷ Operation.reviewing checker 0 0 true
    ∷ []

abbrev paid_instruction : String → ℕ → ℕ → ℕ → Instruction
paid_instruction currency net maker checker = record {
  currency = currency;
  amount_minor = net;
  provider = "manual";
  status = InstructionStatus.completed;
  version = 6;
  created_by = maker;
  approved_by = some checker;
  attempts = record { number = 1; status = AttemptStatus.successful } ∷ [];
  reconciliations =
      record {
        attempt = some 0;
        currency = currency;
        amount_minor = net;
        status = ReconciliationStatus.confirmed;
        matched_by = maker;
        reviewed_by = some checker;
      }
      ∷ [];
}
