-- ===== src/Settlements/Payments.antt =====
-- The payment of one farmer's settlement: `createPaymentInstruction`,
-- `requestPaymentInstructionApproval`, `approvePaymentInstruction`, `submitPaymentInstruction`,
-- `createReconciliation`, `reviewReconciliation` and `verifyPaymentMethod` of
-- apps/api/src/settlements/settlements.service.ts, and the job of
-- apps/worker/src/payment-submission.worker.ts. A `Case` holds the settlement with its instructions,
-- and an instruction its attempts and reconciliations, each list in order of creation. Users are
-- numbers.
pub mod Paid
pub mod Steps
pub mod Outcome
use clycites_platform.Prelude.{
  ℕ, zero, suc, ◌+◌, Bool, true, false, not, ◌&&◌, ◌||◌, Option, none, some, List, [], ◌∷◌, ◌++◌,
  String, Result, ok, ◌>>=◌, ◌>>◌, throw_if, or_throw, ◌==◌, max, if◌then◌else◌, length, get_elem?,
  set, text_eq,
}

pub data FarmerStatus : Type 0 where
  draft calculated exception approved cancelled superseded : FarmerStatus

pub data PaymentStatus : Type 0 where
  not_instructed instruction_pending instructed processing partially_paid paid failed reversed :
      PaymentStatus

pub data InstructionStatus : Type 0 where
  draft pending_approval approved queued submitted processing completed failed : InstructionStatus
  cancelled reversed requires_review : InstructionStatus

pub data AttemptStatus : Type 0 where
  created submitted pending successful failed timed_out unknown reversed : AttemptStatus

pub data ReconciliationStatus : Type 0 where
  unmatched possible_match matched confirmed rejected duplicate reversed : ReconciliationStatus

pub data MethodStatus : Type 0 where
  pending_verification verified rejected revoked : MethodStatus

pub record PaymentMethod : Type 0 where
  pub farmer_id : String
  pub status : MethodStatus
  pub created_by : ℕ
  pub verified_by : Option ℕ

pub record Attempt : Type 0 where
  pub number : ℕ
  pub status : AttemptStatus

pub record Reconciliation : Type 0 where
  pub attempt : Option ℕ
  pub currency : String
  pub amount_minor : ℕ
  pub status : ReconciliationStatus
  pub matched_by : ℕ
  pub reviewed_by : Option ℕ

pub record Instruction : Type 0 where
  pub currency : String
  pub amount_minor : ℕ
  pub provider : String
  pub status : InstructionStatus
  pub version : ℕ
  pub created_by : ℕ
  pub approved_by : Option ℕ
  pub attempts : List Attempt
  pub reconciliations : List Reconciliation

pub record Case : Type 0 where
  pub farmer_id : String
  pub currency : String
  pub net_entitlement_minor : ℕ
  pub status : FarmerStatus
  pub payment_status : PaymentStatus
  pub instructions : List Instruction

pub data PaymentFailure : Type 0 where
  not_found version_conflict self_approval already_instructed : PaymentFailure
  method_not_verified transition_invalid review_required not_claimed : PaymentFailure

abbrev pub is_approved_settlement : FarmerStatus → Bool
is_approved_settlement FarmerStatus.approved = true
is_approved_settlement _ = false

abbrev pub is_not_instructed : PaymentStatus → Bool
is_not_instructed PaymentStatus.not_instructed = true
is_not_instructed _ = false

abbrev is_pending_method : MethodStatus → Bool
is_pending_method MethodStatus.pending_verification = true
is_pending_method _ = false

abbrev is_verified_method : MethodStatus → Bool
is_verified_method MethodStatus.verified = true
is_verified_method _ = false

unfoldable pub verify_payment_method : ℕ → PaymentMethod → Result PaymentFailure PaymentMethod
verify_payment_method principal m = do
  throw_if (m.created_by == principal) PaymentFailure.self_approval
  throw_if (not (is_pending_method m.status)) PaymentFailure.transition_invalid
  ok (record m { status = MethodStatus.verified; verified_by = some principal })

-- The farmer's verified method.
abbrev pub is_payable : Case → Option PaymentMethod → Bool
is_payable c none = false
is_payable c (some m) = text_eq m.farmer_id c.farmer_id && is_verified_method m.status

abbrev pub new_instruction : Case → ℕ → String → Instruction
new_instruction c principal provider = record {
  currency = c.currency;
  amount_minor = c.net_entitlement_minor;
  provider = provider;
  status = InstructionStatus.draft;
  version = 1;
  created_by = principal;
  approved_by = none;
  attempts = [];
  reconciliations = [];
}

unfoldable pub create_payment_instruction :
    ℕ → String → Option PaymentMethod → Case → Result PaymentFailure Case
create_payment_instruction principal provider method c = do
  throw_if (not (is_approved_settlement c.status)) PaymentFailure.not_found
  throw_if (not (is_not_instructed c.payment_status)) PaymentFailure.already_instructed
  throw_if (not (is_payable c method)) PaymentFailure.method_not_verified
  ok (record c {
    instructions = c.instructions ++ new_instruction c principal provider ∷ [];
    payment_status = PaymentStatus.instruction_pending;
  })

-- An update of one instruction of the case.
abbrev pub with_instruction : ℕ → Instruction → Case → Case
with_instruction i x c = record c { instructions = set c.instructions i x }

abbrev pub is_draft : InstructionStatus → Bool
is_draft InstructionStatus.draft = true
is_draft _ = false

abbrev pub is_pending : InstructionStatus → Bool
is_pending InstructionStatus.pending_approval = true
is_pending _ = false

abbrev pub is_queued : InstructionStatus → Bool
is_queued InstructionStatus.queued = true
is_queued _ = false

-- `['APPROVED', 'QUEUED'].includes(status)`
abbrev pub is_submittable : InstructionStatus → Bool
is_submittable InstructionStatus.approved = true
is_submittable InstructionStatus.queued = true
is_submittable _ = false

-- `['SUBMITTED', 'PROCESSING', 'REQUIRES_REVIEW'].includes(status)`
abbrev pub is_reconcilable : InstructionStatus → Bool
is_reconcilable InstructionStatus.submitted = true
is_reconcilable InstructionStatus.processing = true
is_reconcilable InstructionStatus.requires_review = true
is_reconcilable _ = false

-- `['POSSIBLE_MATCH', 'UNMATCHED', 'MATCHED'].includes(status)`
abbrev pub is_open : ReconciliationStatus → Bool
is_open ReconciliationStatus.possible_match = true
is_open ReconciliationStatus.unmatched = true
is_open ReconciliationStatus.matched = true
is_open _ = false

unfoldable pub request_approval : ℕ → ℕ → Case → Result PaymentFailure Case
request_approval i version c = do
  x ← or_throw (get_elem? c.instructions i) PaymentFailure.not_found
  throw_if (not (x.version == version)) PaymentFailure.version_conflict
  throw_if (not (is_draft x.status)) PaymentFailure.transition_invalid
  ok (
      with_instruction i
        (record x { status = InstructionStatus.pending_approval; version = x.version + 1 }) c)

unfoldable pub approve_payment_instruction : ℕ → ℕ → ℕ → Case → Result PaymentFailure Case
approve_payment_instruction principal i version c = do
  x ← or_throw (get_elem? c.instructions i) PaymentFailure.not_found
  throw_if (not (x.version == version)) PaymentFailure.version_conflict
  throw_if (x.created_by == principal) PaymentFailure.self_approval
  throw_if (not (is_pending x.status)) PaymentFailure.transition_invalid
  ok (
      with_instruction i
        (record x {
          status = InstructionStatus.approved;
          approved_by = some principal;
          version = x.version + 1;
        })
        c)

abbrev pub queue : Instruction → Instruction
queue x =
    if is_queued x.status
    then x
    else record x { status = InstructionStatus.queued; version = x.version + 1 }

-- The job that is added then is a step of its own.
unfoldable pub submit_payment_instruction : ℕ → ℕ → Case → Result PaymentFailure Case
submit_payment_instruction i version c = do
  x ← or_throw (get_elem? c.instructions i) PaymentFailure.not_found
  throw_if (not (x.version == version)) PaymentFailure.version_conflict
  throw_if (not (is_submittable x.status)) PaymentFailure.transition_invalid
  ok (with_instruction i (queue x) c)

-- `attempts.reduce((maximum, attempt) => Math.max(maximum, attempt.attemptNumber), 0)`
abbrev pub highest_number : List Attempt → ℕ
highest_number [] = 0
highest_number (a ∷ others) = max a.number (highest_number others)

abbrev attempt_status : String → AttemptStatus
attempt_status provider =
    if text_eq provider "manual" then AttemptStatus.pending else AttemptStatus.submitted

-- The instruction behind the job: claimed, attempted and submitted in one transaction.
abbrev pub after_submission : Instruction → Instruction
after_submission x = record x {
  attempts =
      x.attempts
      ++ record { number = highest_number x.attempts + 1; status = attempt_status x.provider } ∷ [];
  status = InstructionStatus.submitted;
  version = x.version + 1;
}

abbrev pub is_handled_provider : String → Bool
is_handled_provider provider = text_eq provider "manual" || text_eq provider "mock"

unfoldable pub process : ℕ → ℕ → Case → Result PaymentFailure Case
process i expected_version c = do
  x ← or_throw (get_elem? c.instructions i) PaymentFailure.not_claimed
  throw_if
      (not (x.version == expected_version && is_queued x.status && is_handled_provider x.provider))
      PaymentFailure.not_claimed
  ok (record (with_instruction i (after_submission x) c) {
    payment_status = PaymentStatus.processing;
  })

pub record ReconciliationInput : Type 0 where
  pub currency : String
  pub amount_minor : ℕ
  pub has_evidence : Bool

abbrev pub is_exact : String → ℕ → Instruction → Bool
is_exact currency amount x = text_eq currency x.currency && amount == x.amount_minor

-- The newest attempt, by its place.
abbrev newest : List Attempt → Option ℕ
newest [] = none
newest (a ∷ others) = some (length others)

abbrev pub reconciled : ℕ → ReconciliationInput → Instruction → Instruction
reconciled principal input x =
    let exact = is_exact input.currency input.amount_minor x in
    let reconciliations =
      x.reconciliations
      ++ record {
        attempt = newest x.attempts;
        currency = input.currency;
        amount_minor = input.amount_minor;
        status =
            if exact then ReconciliationStatus.possible_match else ReconciliationStatus.unmatched;
        matched_by = principal;
        reviewed_by = none;
      }
        ∷ [] in
    if exact then record x { reconciliations = reconciliations } else record x {
      reconciliations = reconciliations;
      status = InstructionStatus.requires_review;
      version = x.version + 1;
    }

unfoldable pub create_reconciliation :
    ℕ → ℕ → ReconciliationInput → Case → Result PaymentFailure Case
create_reconciliation principal i input c = do
  x ← or_throw (get_elem? c.instructions i) PaymentFailure.not_found
  throw_if (not (is_reconcilable x.status)) PaymentFailure.review_required
  throw_if (not input.has_evidence) PaymentFailure.review_required
  ok (with_instruction i (reconciled principal input x) c)

-- The attempt at a place is successful.
abbrev pub succeed : List Attempt → ℕ → List Attempt
succeed [] k = []
succeed (a ∷ others) zero = record a { status = AttemptStatus.successful } ∷ others
succeed (a ∷ others) (suc k) = a ∷ succeed others k

abbrev pub confirm_attempt : Option ℕ → List Attempt → List Attempt
confirm_attempt none attempts = attempts
confirm_attempt (some k) attempts = succeed attempts k

abbrev pub after_confirmation : ℕ → ℕ → Reconciliation → Instruction → Instruction
after_confirmation principal j r x = record x {
  reconciliations =
      set x.reconciliations j
        (record r { status = ReconciliationStatus.confirmed; reviewed_by = some principal });
  attempts = confirm_attempt r.attempt x.attempts;
  status = InstructionStatus.completed;
  version = x.version + 1;
}

abbrev pub after_rejection : ℕ → ℕ → Reconciliation → Instruction → Instruction
after_rejection principal j r x = record x {
  reconciliations =
      set x.reconciliations j
        (record r { status = ReconciliationStatus.rejected; reviewed_by = some principal });
  status = InstructionStatus.requires_review;
  version = x.version + 1;
}

abbrev pub after_review : Bool → ℕ → ℕ → ℕ → Reconciliation → Instruction → Case → Case
after_review true principal i j r x c =
    record (with_instruction i (after_confirmation principal j r x) c) {
      payment_status = PaymentStatus.paid;
    }
after_review false principal i j r x c = with_instruction i (after_rejection principal j r x) c

-- `confirms` says that the status of the review is CONFIRMED, not REJECTED.
unfoldable pub review_reconciliation : ℕ → ℕ → ℕ → Bool → Case → Result PaymentFailure Case
review_reconciliation principal i j confirms c = do
  x ← or_throw (get_elem? c.instructions i) PaymentFailure.not_found
  r ← or_throw (get_elem? x.reconciliations j) PaymentFailure.not_found
  throw_if (r.matched_by == principal) PaymentFailure.self_approval
  throw_if (not (is_open r.status)) PaymentFailure.review_required
  throw_if (confirms && not (is_exact r.currency r.amount_minor x)) PaymentFailure.review_required
  ok (after_review confirms principal i j r x c)
