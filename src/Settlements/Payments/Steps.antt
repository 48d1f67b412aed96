-- ===== src/Settlements/Payments/Steps.antt =====
-- Payments of a settlement, operation by operation (apps/api/src/settlements/settlements.service.ts
-- and apps/worker/src/payment-submission.worker.ts): what holds after any sequence of them.
use clycites_platform.Prelude.{
  ℕ, ◌≡◌, inl, inr, refl, sym, ap, ◌∙◌, Bool, true, false, not, ◌&&◌, Option, some, List, [], ◌∷◌,
  ◌++◌, String, Result, ok, arith, ◌==◌, get_elem?, Bool-cases, Ensures, Ensures-ok,
  Ensures-throw_if, Ensures-or_throw,
}
use clycites_platform.Settlements.Payments.{
  PaymentMethod, PaymentFailure, PaymentStatus, Reconciliation, ReconciliationInput, Instruction,
  Case, is_approved_settlement, is_not_instructed, is_payable, new_instruction, is_draft,
  is_pending, is_queued, is_submittable, is_reconcilable, is_open, is_exact, queue,
  after_submission, reconciled, after_confirmation, after_rejection, after_review,
  is_handled_provider, create_payment_instruction, request_approval, approve_payment_instruction,
  submit_payment_instruction, process, create_reconciliation, review_reconciliation,
}
use clycites_platform.Settlements.Payments.Paid.{
  has_confirmed, has_confirmed-set, has_confirmed-set_new, IsGood, GoesOn, get_elem?-IsOnly,
  replaced-IsGood, request-IsSound, approve-IsSound, queue-IsSound, after_submission-IsSound,
  reconciled-IsSound, reconciled-has_confirmed, after_confirmation-IsSound, after_rejection-IsSound,
}

-- The operations on a case: by users, by the worker.
pub data Operation : Type 0 where
  creating : ℕ → String → Option PaymentMethod → Operation
  requesting : ℕ → ℕ → Operation
  approving : ℕ → ℕ → ℕ → Operation
  submitting : ℕ → ℕ → Operation
  processing_job : ℕ → ℕ → Operation
  reconciling : ℕ → ℕ → ReconciliationInput → Operation
  reviewing : ℕ → ℕ → ℕ → Bool → Operation

unfoldable pub perform : Operation → Case → Result PaymentFailure Case
unfolding create_payment_instruction request_approval approve_payment_instruction
    submit_payment_instruction process create_reconciliation review_reconciliation
perform (creating principal provider method) = create_payment_instruction principal provider method
perform (requesting i version) = request_approval i version
perform (approving principal i version) = approve_payment_instruction principal i version
perform (submitting i version) = submit_payment_instruction i version
perform (processing_job i expected_version) = process i expected_version
perform (reconciling principal i input) = create_reconciliation principal i input
perform (reviewing principal i j confirms) = review_reconciliation principal i j confirms

-- A settlement without instructions, and every case that operations lead to from there.
pub data Reachable : Case → Type 0 where
  uninstructed :
      (c : Case) → c.instructions ≡ [] → is_not_instructed c.payment_status ≡ true → Reachable c
  performed :
      (operation : Operation) (c : Case) {after : Case}
      → Reachable c
      → perform operation c ≡ ok after
      → Reachable after

queue-has_confirmed :
    (x : Instruction)
    → has_confirmed x.reconciliations ≡ true
    → has_confirmed (queue x).reconciliations ≡ true
queue-has_confirmed x h = elim (Bool-cases (is_queued x.status)) [ inl e ↦ rw e h | inr e ↦ rw e h ]

created-IsGood :
    {c : Case} (principal : ℕ) (provider : String)
    → IsGood c
    → is_not_instructed c.payment_status ≡ true
    → IsGood (record c {
      instructions = c.instructions ++ new_instruction c principal provider ∷ [];
      payment_status = PaymentStatus.instruction_pending;
    })
created-IsGood {c} principal provider (inl (empty, _)) h = inr (
  new_instruction c principal provider,
  record {
    only = ap (λ (xs : List Instruction). xs ++ new_instruction c principal provider ∷ []) empty;
    started = refl;
    sound = record {
      whole = refl;
      same_currency = refl;
      four_eyes = λ e. cc;
      unsent = λ _. (refl, refl);
      sent_once = omega arith;
      checked = tt;
    };
    settled = λ e. cc;
  },
)
created-IsGood principal provider (inr (x, o)) h = let instructed = o.started in cc

module _ (c : Case) (good : IsGood c) where
  create-GoesOn :
      (principal : ℕ) (provider : String) (method : Option PaymentMethod)
      → Ensures (GoesOn c) (create_payment_instruction principal provider method c)
  unfolding create_payment_instruction Ensures
  create-GoesOn principal provider method =
      Ensures-throw_if (GoesOn c) (not (is_approved_settlement c.status)) _ _ λ _.
        Ensures-throw_if (GoesOn c) (not (is_not_instructed c.payment_status)) _ _ λ first.
          Ensures-throw_if (GoesOn c) (not (is_payable c method)) _ _
            λ _. (created-IsGood principal provider good (ground arith), λ paid. ground arith)

  request-GoesOn : (i version : ℕ) → Ensures (GoesOn c) (request_approval i version c)
  unfolding request_approval Ensures
  request-GoesOn i version =
      Ensures-or_throw (GoesOn c) (get_elem? c.instructions i) PaymentFailure.not_found _ λ x found.
        Ensures-throw_if (GoesOn c) (not (x.version == version)) _ _ λ _.
          Ensures-throw_if (GoesOn c) (not (is_draft x.status)) _ _ λ fits.
            let (first, o) = get_elem?-IsOnly c i x good found in
            (
              replaced-IsGood c i x _ c.payment_status first o o.started
                  (request-IsSound x o.sound (ground arith)) o.settled,
              λ paid. paid,
            )

  approve-GoesOn :
      (principal i version : ℕ)
      → Ensures (GoesOn c) (approve_payment_instruction principal i version c)
  unfolding approve_payment_instruction Ensures
  approve-GoesOn principal i version =
      Ensures-or_throw (GoesOn c) (get_elem? c.instructions i) PaymentFailure.not_found _ λ x found.
        Ensures-throw_if (GoesOn c) (not (x.version == version)) _ _ λ _.
          Ensures-throw_if (GoesOn c) (x.created_by == principal) _ _ λ other.
            Ensures-throw_if (GoesOn c) (not (is_pending x.status)) _ _ λ fits.
              let (first, o) = get_elem?-IsOnly c i x good found in
              (
                replaced-IsGood c i x _ c.payment_status first o o.started
                    (approve-IsSound x o.sound principal other (ground arith)) o.settled,
                λ paid. paid,
              )

  submit-GoesOn : (i version : ℕ) → Ensures (GoesOn c) (submit_payment_instruction i version c)
  unfolding submit_payment_instruction Ensures
  submit-GoesOn i version =
      Ensures-or_throw (GoesOn c) (get_elem? c.instructions i) PaymentFailure.not_found _ λ x found.
        Ensures-throw_if (GoesOn c) (not (x.version == version)) _ _ λ _.
          Ensures-throw_if (GoesOn c) (not (is_submittable x.status)) _ _ λ fits.
            let (first, o) = get_elem?-IsOnly c i x good found in
            (
              replaced-IsGood c i x (queue x) c.payment_status first o o.started
                  (queue-IsSound x o.sound (ground arith))
                  (λ paid. queue-has_confirmed x (o.settled paid)),
              λ paid. paid,
            )

  process-GoesOn : (i expected_version : ℕ) → Ensures (GoesOn c) (process i expected_version c)
  unfolding process Ensures
  process-GoesOn i expected_version =
      Ensures-or_throw (GoesOn c) (get_elem? c.instructions i) PaymentFailure.not_claimed _
        λ x found.
          Ensures-throw_if (GoesOn c)
            (not (
              x.version == expected_version
              && is_queued x.status
              && is_handled_provider x.provider))
            _ _
            λ fits.
              let (first, o) = get_elem?-IsOnly c i x good found in
              let queued : is_queued x.status ≡ true = ground arith in
              (
                replaced-IsGood c i x (after_submission x) PaymentStatus.processing first o refl
                    (after_submission-IsSound x o.sound queued) (λ e. cc),
                λ paid.
                    let none_yet = (o.sound.unsent (ground arith)).1 in
                    let confirmed = o.settled paid in
                    let contradiction : has_confirmed [] ≡ true =
                      ap has_confirmed (sym none_yet) ∙ confirmed in
                    cc,
              )

  reconcile-GoesOn :
      (principal i : ℕ) (input : ReconciliationInput)
      → Ensures (GoesOn c) (create_reconciliation principal i input c)
  unfolding create_reconciliation Ensures
  reconcile-GoesOn principal i input =
      Ensures-or_throw (GoesOn c) (get_elem? c.instructions i) PaymentFailure.not_found _ λ x found.
        Ensures-throw_if (GoesOn c) (not (is_reconcilable x.status)) _ _ λ fits.
          Ensures-throw_if (GoesOn c) (not input.has_evidence) _ _ λ _.
            let (first, o) = get_elem?-IsOnly c i x good found in
            (
              replaced-IsGood c i x (reconciled principal input x) c.payment_status first o
                  o.started (reconciled-IsSound x o.sound principal input (ground arith))
                  (λ paid. reconciled-has_confirmed x o.sound principal input (o.settled paid)),
              λ paid. paid,
            )

  after_review-GoesOn :
      (principal i j : ℕ) (x : Instruction) (r : Reconciliation) (confirms : Bool)
      → get_elem? c.instructions i ≡ some x
      → get_elem? x.reconciliations j ≡ some r
      → (r.matched_by == principal) ≡ false
      → is_open r.status ≡ true
      → (confirms && not (is_exact r.currency r.amount_minor x)) ≡ false
      → GoesOn c (after_review confirms principal i j r x c)
  after_review-GoesOn principal i j x r true found at_j other fits exact =
      let (first, o) = get_elem?-IsOnly c i x good found in
      (
        replaced-IsGood c i x (after_confirmation principal j r x) PaymentStatus.paid first o refl
            (after_confirmation-IsSound x o.sound principal j r at_j other (ground arith))
            (λ _. has_confirmed-set_new x.reconciliations j r _ at_j refl),
        λ _. refl,
      )
  after_review-GoesOn principal i j x r false found at_j other fits exact =
      let (first, o) = get_elem?-IsOnly c i x good found in
      (
        replaced-IsGood c i x (after_rejection principal j r x) c.payment_status first o o.started
            (after_rejection-IsSound x o.sound principal j r at_j)
            (λ paid. has_confirmed-set x.reconciliations j r _ at_j fits (o.settled paid)),
        λ paid. paid,
      )

  review-GoesOn :
      (principal i j : ℕ) (confirms : Bool)
      → Ensures (GoesOn c) (review_reconciliation principal i j confirms c)
  unfolding review_reconciliation Ensures
  review-GoesOn principal i j confirms =
      Ensures-or_throw (GoesOn c) (get_elem? c.instructions i) PaymentFailure.not_found _ λ x found.
        Ensures-or_throw (GoesOn c) (get_elem? x.reconciliations j) PaymentFailure.not_found _
          λ r at_j. Ensures-throw_if (GoesOn c) (r.matched_by == principal) _ _ λ other.
            Ensures-throw_if (GoesOn c) (not (is_open r.status)) _ _ λ fits.
              Ensures-throw_if (GoesOn c) (confirms && not (is_exact r.currency r.amount_minor x)) _
                _
                λ exact.
                  after_review-GoesOn principal i j x r confirms found at_j other (ground arith)
                    exact

pub perform-GoesOn :
    (operation : Operation) (c : Case) → IsGood c → Ensures (GoesOn c) (perform operation c)
unfolding perform
perform-GoesOn (creating principal provider method) c good =
    create-GoesOn c good principal provider method
perform-GoesOn (requesting i version) c good = request-GoesOn c good i version
perform-GoesOn (approving principal i version) c good = approve-GoesOn c good principal i version
perform-GoesOn (submitting i version) c good = submit-GoesOn c good i version
perform-GoesOn (processing_job i expected_version) c good = process-GoesOn c good i expected_version
perform-GoesOn (reconciling principal i input) c good = reconcile-GoesOn c good principal i input
perform-GoesOn (reviewing principal i j confirms) c good =
    review-GoesOn c good principal i j confirms

pub Reachable-IsGood : (c : Case) → Reachable c → IsGood c
Reachable-IsGood c (uninstructed _ empty first) = inl (empty, first)
Reachable-IsGood _ (performed operation c reached e) =
    (Ensures-ok (GoesOn c) _ (perform-GoesOn operation c (Reachable-IsGood c reached)) e).0
