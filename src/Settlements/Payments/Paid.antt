-- ===== src/Settlements/Payments/Paid.antt =====
-- When a payment is sound (apps/api/src/settlements/settlements.service.ts): it is the one payment
-- of its settlement's net entitlement, sent at most once and after approval by somebody else than
-- who made it, and confirmed only by an exact reconciliation that a second person reviewed.
use clycites_platform.Prelude.{
  ℕ, zero, suc, ◌+◌, ◌≤◌, ◌≡◌, ◌≢◌, ◌⊎◌, inl, inr, refl, sym, ap, ◌∙◌, Bool, true, false, ◌||◌,
  Option, none, some, List, [], ◌∷◌, ◌++◌, String, arith, ◌==◌, length, length-append, get_elem?,
  set, All, All-set, All-append, text_eq_iff, Bool-cases,
}
use mathlib.Core.Path.{subst}
use clycites_platform.Settlements.Payments.{
  PaymentStatus, InstructionStatus, ReconciliationStatus, Reconciliation, ReconciliationInput,
  Instruction, Case, Attempt, is_not_instructed, is_draft, is_pending, is_queued, is_submittable,
  is_reconcilable, is_open, is_exact, queue, with_instruction, after_submission, reconciled,
  after_confirmation, after_rejection, confirm_attempt, succeed,
}

abbrev pub is_confirmed : ReconciliationStatus → Bool
is_confirmed ReconciliationStatus.confirmed = true
is_confirmed _ = false

abbrev pub is_paid : PaymentStatus → Bool
is_paid PaymentStatus.paid = true
is_paid _ = false

-- Not handed to the provider yet.
abbrev pub is_unsent : InstructionStatus → Bool
is_unsent InstructionStatus.draft = true
is_unsent InstructionStatus.pending_approval = true
is_unsent status = is_submittable status

abbrev pub is_unapproved : InstructionStatus → Bool
is_unapproved status = is_draft status || is_pending status

abbrev pub has_confirmed : List Reconciliation → Bool
has_confirmed [] = false
has_confirmed (r ∷ rs) = is_confirmed r.status || has_confirmed rs

-- A confirmation is exact, and made by somebody else than who recorded the match.
abbrev pub IsChecked : String → ℕ → Reconciliation → Type 0
IsChecked currency amount r =
    is_confirmed r.status ≡ true
    → (r.currency ≡ currency)
      × (r.amount_minor ≡ amount)
      × ((reviewer : ℕ) × (r.reviewed_by ≡ some reviewer) × (r.matched_by ≢ reviewer))

abbrev pub FourEyes : Instruction → Type 0
FourEyes x = (approver : ℕ) × (x.approved_by ≡ some approver) × (x.created_by ≢ approver)

pub record IsSound (currency : String) (net : ℕ) (x : Instruction) : Type 0 where
  pub whole : x.amount_minor ≡ net
  pub same_currency : x.currency ≡ currency
  pub four_eyes : is_unapproved x.status ≡ false → FourEyes x
  pub unsent : is_unsent x.status ≡ true → (x.attempts ≡ []) × (x.reconciliations ≡ [])
  pub sent_once : length x.attempts ≤ 1
  pub checked : All (IsChecked currency net) x.reconciliations

-- The one instruction of a case.
pub record IsOnly (c : Case) (x : Instruction) : Type 0 where
  pub only : c.instructions ≡ x ∷ []
  pub started : is_not_instructed c.payment_status ≡ false
  pub sound : IsSound c.currency c.net_entitlement_minor x
  pub settled : is_paid c.payment_status ≡ true → has_confirmed x.reconciliations ≡ true

-- No instruction before the first, and a sound one behind it.
abbrev pub IsGood : Case → Type 0
IsGood c =
    ((c.instructions ≡ []) × (is_not_instructed c.payment_status ≡ true))
    ⊎ ((x : Instruction) × IsOnly c x)

-- A case that stays good, and paid once it is.
abbrev pub GoesOn : Case → Case → Type 0
GoesOn c after =
    IsGood after × (is_paid c.payment_status ≡ true → is_paid after.payment_status ≡ true)

has_confirmed-append :
    (rs ss : List Reconciliation) → has_confirmed rs ≡ true → has_confirmed (rs ++ ss) ≡ true
has_confirmed-append [] ss h = cc
has_confirmed-append (r ∷ rs) ss h = ground (arith, has_confirmed-append rs ss)

pub has_confirmed-set :
    (rs : List Reconciliation) (j : ℕ) (r e : Reconciliation)
    → get_elem? rs j ≡ some r
    → is_open r.status ≡ true
    → has_confirmed rs ≡ true
    → has_confirmed (set rs j e) ≡ true
has_confirmed-set [] j r e h o k = cc
has_confirmed-set (x ∷ rs) zero r e h o k =
    let opened : is_open x.status ≡ true =
      ap (λ (y : Reconciliation). is_open y.status) (let same : x ≡ r = cc in same) ∙ o in
    ground arith
has_confirmed-set (x ∷ rs) (suc j) r e h o k = ground (arith, has_confirmed-set rs j r e h o)

pub has_confirmed-set_new :
    (rs : List Reconciliation) (j : ℕ) (r e : Reconciliation)
    → get_elem? rs j ≡ some r
    → is_confirmed e.status ≡ true
    → has_confirmed (set rs j e) ≡ true
has_confirmed-set_new [] j r e h k = cc
has_confirmed-set_new (x ∷ rs) zero r e h k = ground arith
has_confirmed-set_new (x ∷ rs) (suc j) r e h k = ground (arith, has_confirmed-set_new rs j r e h k)

succeed-length : (xs : List Attempt) (k : ℕ) → length (succeed xs k) ≡ length xs
succeed-length [] k = refl
succeed-length (x ∷ xs) zero = refl
succeed-length (x ∷ xs) (suc k) = ap suc (succeed-length xs k)

confirm_attempt-length :
    (o : Option ℕ) (xs : List Attempt) → length (confirm_attempt o xs) ≡ length xs
confirm_attempt-length none xs = refl
confirm_attempt-length (some k) xs = succeed-length xs k

single :
    (xs : List Instruction) (i : ℕ) (x y : Instruction)
    → xs ≡ y ∷ []
    → get_elem? xs i ≡ some x
    → (i ≡ 0) × (y ≡ x)
single [] i x y e h = cc
single (z ∷ zs) zero x y e h = let left : z ≡ x = cc in (refl, cc)
single (z ∷ []) (suc i) x y e h = cc
single (z ∷ w ∷ zs) (suc i) x y e h = cc

-- Every index in range names the one instruction.
pub get_elem?-IsOnly :
    (c : Case) (i : ℕ) (x : Instruction)
    → IsGood c
    → get_elem? c.instructions i ≡ some x
    → (i ≡ 0) × IsOnly c x
get_elem?-IsOnly c i x (inl (empty, _)) found =
    let missing : none ≡ some x =
      ap (λ (xs : List Instruction). get_elem? xs i) (sym empty) ∙ found in
    cc
get_elem?-IsOnly c i x (inr (y, o)) found =
    let (first, same) = single c.instructions i x y o.only found in (first, subst (IsOnly c) same o)

-- A sound instruction in the place of the one leaves the case good.
pub replaced-IsGood :
    (c : Case) (i : ℕ) (x after : Instruction) (status : PaymentStatus)
    → i ≡ 0
    → IsOnly c x
    → is_not_instructed status ≡ false
    → IsSound c.currency c.net_entitlement_minor after
    → (is_paid status ≡ true → has_confirmed after.reconciliations ≡ true)
    → IsGood (record (with_instruction i after c) { payment_status = status })
replaced-IsGood c i x after status first o instructed sound settled = inr (
  after,
  record {
    only =
        ap (λ (xs : List Instruction). set xs i after) o.only
        ∙ ap (λ k. set (x ∷ []) k after) first;
    started = instructed;
    sound = sound;
    settled = settled;
  },
)

exact_lem :
    (currency : String) (amount : ℕ) (x : Instruction)
    → is_exact currency amount x ≡ true
    → (currency ≡ x.currency) × (amount ≡ x.amount_minor)
exact_lem currency amount x h = ground (arith, text_eq_iff currency x.currency)

module _ {currency : String} {net : ℕ} (x : Instruction) (s : IsSound currency net x) where
  pub request-IsSound :
      is_draft x.status ≡ true
      → IsSound currency net
          (record x { status = InstructionStatus.pending_approval; version = x.version + 1 })
  request-IsSound h = record {
    whole = s.whole;
    same_currency = s.same_currency;
    four_eyes = λ e. cc;
    unsent = λ _. s.unsent (ground arith);
    sent_once = s.sent_once;
    checked = s.checked;
  }

  pub approve-IsSound :
      (principal : ℕ)
      → (x.created_by == principal) ≡ false
      → is_pending x.status ≡ true
      → IsSound currency net (record x {
        status = InstructionStatus.approved;
        approved_by = some principal;
        version = x.version + 1;
      })
  approve-IsSound principal other h = record {
    whole = s.whole;
    same_currency = s.same_currency;
    four_eyes = λ _. (principal, refl, λ same. ground arith);
    unsent = λ _. s.unsent (ground arith);
    sent_once = s.sent_once;
    checked = s.checked;
  }

  pub queue-IsSound : is_submittable x.status ≡ true → IsSound currency net (queue x)
  queue-IsSound h = elim (Bool-cases (is_queued x.status)) [
    | inl e ↦ rw e s
    | inr e ↦ rw e (record {
      whole = s.whole;
      same_currency = s.same_currency;
      four_eyes = λ _. s.four_eyes (ground arith);
      unsent = λ _. s.unsent (ground arith);
      sent_once = s.sent_once;
      checked = s.checked;
    })
  ]

  pub after_submission-IsSound :
      is_queued x.status ≡ true → IsSound currency net (after_submission x)
  after_submission-IsSound h =
      let (unattempted, _) = s.unsent (ground arith) in
      let none_yet : length x.attempts ≡ 0 = ap length unattempted in
      record {
        whole = s.whole;
        same_currency = s.same_currency;
        four_eyes = λ _. s.four_eyes (ground arith);
        unsent = λ e. cc;
        sent_once = rw length-append (omega arith);
        checked = s.checked;
      }

  pub reconciled-IsSound :
      (principal : ℕ) (input : ReconciliationInput)
      → is_reconcilable x.status ≡ true
      → IsSound currency net (reconciled principal input x)
  reconciled-IsSound principal input h =
      elim (Bool-cases (is_exact input.currency input.amount_minor x)) [
        | inl e ↦ rw e (record {
          whole = s.whole;
          same_currency = s.same_currency;
          four_eyes = s.four_eyes;
          unsent = λ k. absurd (ground arith);
          sent_once = s.sent_once;
          checked = All-append (IsChecked currency net) x.reconciliations _ s.checked (λ k. cc, tt);
        })
        | inr e ↦ rw e (record {
          whole = s.whole;
          same_currency = s.same_currency;
          four_eyes = λ _. s.four_eyes (ground arith);
          unsent = λ k. cc;
          sent_once = s.sent_once;
          checked = All-append (IsChecked currency net) x.reconciliations _ s.checked (λ k. cc, tt);
        })
      ]

  -- Reconciliations are there only behind the submission.
  sent-FourEyes : (j : ℕ) (r : Reconciliation) → get_elem? x.reconciliations j ≡ some r → FourEyes x
  sent-FourEyes j r found = elim (Bool-cases (is_unsent x.status)) [
    | inl e ↦
        let (_, none_yet) = s.unsent e in
        let missing : none ≡ some r =
          ap (λ (rs : List Reconciliation). get_elem? rs j) (sym none_yet) ∙ found in
        cc
    | inr e ↦ s.four_eyes (ground arith)
  ]

  pub after_confirmation-IsSound :
      (principal j : ℕ) (r : Reconciliation)
      → get_elem? x.reconciliations j ≡ some r
      → (r.matched_by == principal) ≡ false
      → is_exact r.currency r.amount_minor x ≡ true
      → IsSound currency net (after_confirmation principal j r x)
  after_confirmation-IsSound principal j r found other exact =
      let matches = exact_lem r.currency r.amount_minor x exact in
      record {
        whole = s.whole;
        same_currency = s.same_currency;
        four_eyes = λ _. sent-FourEyes j r found;
        unsent = λ k. cc;
        sent_once = rw (confirm_attempt-length r.attempt x.attempts) s.sent_once;
        checked = All-set (IsChecked currency net) x.reconciliations j _ s.checked λ _. (
          matches.0 ∙ s.same_currency,
          matches.1 ∙ s.whole,
          (principal, refl, λ same. ground arith),
        );
      }

  pub after_rejection-IsSound :
      (principal j : ℕ) (r : Reconciliation)
      → get_elem? x.reconciliations j ≡ some r
      → IsSound currency net (after_rejection principal j r x)
  after_rejection-IsSound principal j r found = record {
    whole = s.whole;
    same_currency = s.same_currency;
    four_eyes = λ _. sent-FourEyes j r found;
    unsent = λ k. cc;
    sent_once = s.sent_once;
    checked = All-set (IsChecked currency net) x.reconciliations j _ s.checked (λ k. cc);
  }

  -- What was confirmed stays so.
  pub reconciled-has_confirmed :
      (principal : ℕ) (input : ReconciliationInput)
      → has_confirmed x.reconciliations ≡ true
      → has_confirmed (reconciled principal input x).reconciliations ≡ true
  reconciled-has_confirmed principal input h =
      elim (Bool-cases (is_exact input.currency input.amount_minor x)) [
        | inl e ↦ rw e (has_confirmed-append x.reconciliations _ h)
        | inr e ↦ rw e (has_confirmed-append x.reconciliations _ h)
      ]

pub confirmed-FourEyes :
    {currency : String} {net : ℕ} (x : Instruction)
    → IsSound currency net x
    → has_confirmed x.reconciliations ≡ true
    → FourEyes x
confirmed-FourEyes x s confirmed = elim (Bool-cases (is_unsent x.status)) [
  | inl e ↦
      let (_, none_yet) = s.unsent e in
      let contradiction : has_confirmed [] ≡ true = ap has_confirmed (sym none_yet) ∙ confirmed in
      cc
  | inr e ↦ s.four_eyes (ground arith)
]
