-- ===== src/Settlements/Approval/Approved.antt =====
-- What holds of an approved settlement run
-- (apps/api/src/settlements/settlements.service.ts).
use clycites_platform.Prelude.{
  ℕ, ◌+◌, ◌≡◌, ◌≢◌, refl, sym, ap, ◌∙◌, Bool, true, false, not, ◌||◌, Option, none, some, String,
  ok, ◌==◌, ltb, if◌then◌else◌, arith, map, Ensures->>=, Ensures, Ensures-ok, Ensures-throw_if,
}
use clycites_platform.Settlements.Run.{
  RunData, RunStatus, SettlementRun, Calculation, is_draft, lineage_of, allocate_orders,
  nothing_allocated, calculate_settlement_run,
}
use clycites_platform.Settlements.Run.Totals.{farmer_total, calculate_settlement_run-Reconciles}
use clycites_platform.Settlements.Approval.{
  RunCase, calculated_case, is_calculated, is_pending_approval, submit_settlement_run, is_user,
  approve_settlement_run,
}

abbrev pub is_approved : RunStatus → Bool
is_approved RunStatus.approved = true
is_approved _ = false

-- Calculated without an exception, or further.
abbrev pub has_passed : RunStatus → Bool
has_passed status = is_calculated status || is_pending_approval status || is_approved status

-- Submitted by one and approved by another.
abbrev pub FourEyes : SettlementRun → Type 0
FourEyes run =
    (submitter : ℕ) × (approver : ℕ) × (run.submitted_by ≡ some submitter)
    × (run.approved_by ≡ some approver)
    × (submitter ≢ approver)

abbrev pub IsWhole : SettlementRun → Type 0
IsWhole run =
    (run.gross_allocated_minor ≡ run.source_total_minor)
    × (run.net_settlement_total_minor + run.deductions_total_minor ≡ run.source_total_minor)

pub record IsSound (c : RunCase) : Type 0 where
  pub whole : IsWhole c.run
  pub unblocked : has_passed c.run.status ≡ true → c.open_blocking ≡ 0
  pub submitted : is_pending_approval c.run.status ≡ true → (s : ℕ) × (c.run.submitted_by ≡ some s)
  pub approved : is_approved c.run.status ≡ true → FourEyes c.run

abbrev status_of : ℕ → RunStatus
status_of exceptions =
    if exceptions == 0 then RunStatus.calculated else RunStatus.exceptions_pending

passed_lem : (n : ℕ) → has_passed (status_of n) ≡ true → n ≡ 0
passed_lem n h = ground arith

unsubmitted_lem : (n : ℕ) → is_pending_approval (status_of n) ≢ true
unsubmitted_lem n h = ground arith

unapproved_lem : (n : ℕ) → is_approved (status_of n) ≢ true
unapproved_lem n h = ground arith

other_user_lem :
    (o : Option ℕ) (submitter principal : ℕ)
    → o ≡ some submitter
    → is_user principal o ≡ false
    → submitter ≢ principal
other_user_lem none submitter principal e h same = cc
other_user_lem (some user) submitter principal e h same =
    let left : user ≡ submitter = cc in ground arith

module _ (locale_le : String → String → Bool) where
  -- The runs that a calculation and the operations behind it lead to.
  pub data Reachable : RunCase → Type 0 where
    calculating :
        (rows : RunData) (now version : ℕ) (run : SettlementRun) {c : Calculation}
        → calculate_settlement_run locale_le rows now version run ≡ ok c
        → Reachable (calculated_case c)
    submitting :
        (principal version : ℕ) (c : RunCase) {after : RunCase}
        → Reachable c
        → submit_settlement_run principal version c ≡ ok after
        → Reachable after
    approving :
        (principal version : ℕ) (c : RunCase) {after : RunCase}
        → Reachable c
        → approve_settlement_run principal version c ≡ ok after
        → Reachable after

  -- The status that a calculation leaves.
  abbrev HasStatus : ℕ → Calculation → Type 0
  HasStatus source_total c =
      (c.run.status ≡ status_of (calculated_case c).open_blocking)
      × (c.run.source_total_minor ≡ source_total)

  calculate_settlement_run-HasStatus :
      (rows : RunData) (now version : ℕ) (run : SettlementRun)
      → Ensures
          (HasStatus run.source_total_minor)
          (calculate_settlement_run locale_le rows now version run)
  unfolding calculate_settlement_run Ensures
  calculate_settlement_run-HasStatus rows now version run =
      let lineage = map lineage_of rows.batches in
      Ensures-throw_if (HasStatus run.source_total_minor) (not (run.version == version)) _ _ λ _.
        Ensures-throw_if (HasStatus run.source_total_minor) (not (is_draft run.status)) _ _ λ _.
          Ensures->>= (HasStatus run.source_total_minor)
            (allocate_orders locale_le lineage nothing_allocated rows.orders) _
            λ allocated _.
              Ensures-throw_if (HasStatus run.source_total_minor)
                (not (farmer_total allocated == run.source_total_minor)) _ _ λ _. (refl, refl)

  calculated-IsSound :
      (c : Calculation)
      → IsWhole c.run
      → c.run.status ≡ status_of (calculated_case c).open_blocking
      → IsSound (calculated_case c)
  calculated-IsSound c whole status =
      let n = (calculated_case c).open_blocking in
      record {
        whole = whole;
        unblocked = λ h. passed_lem n (ap has_passed (sym status) ∙ h);
        submitted = λ h. absurd (unsubmitted_lem n (ap is_pending_approval (sym status) ∙ h));
        approved = λ h. absurd (unapproved_lem n (ap is_approved (sym status) ∙ h));
      }

  submit-IsSound :
      (principal version : ℕ) (c : RunCase)
      → IsSound c
      → Ensures IsSound (submit_settlement_run principal version c)
  unfolding submit_settlement_run Ensures
  submit-IsSound principal version c s =
      Ensures-throw_if IsSound (not (c.run.version == version)) _ _ λ _.
        Ensures-throw_if IsSound (not (is_calculated c.run.status)) _ _ λ fits. record {
          whole = s.whole;
          unblocked = λ _. s.unblocked (ground arith);
          submitted = λ _. (principal, refl);
          approved = λ e. cc;
        }

  approve-IsSound :
      (principal version : ℕ) (c : RunCase)
      → IsSound c
      → Ensures IsSound (approve_settlement_run principal version c)
  unfolding approve_settlement_run Ensures
  approve-IsSound principal version c s =
      Ensures-throw_if IsSound (not (c.run.version == version)) _ _ λ _.
        Ensures-throw_if IsSound (not (is_pending_approval c.run.status)) _ _ λ fits.
          Ensures-throw_if IsSound (is_user principal c.run.submitted_by) _ _ λ other.
            Ensures-throw_if IsSound (ltb 0 c.open_blocking) _ _ λ unblocked.
              let (submitter, by) = s.submitted (ground arith) in
              record {
                whole = s.whole;
                unblocked = λ _. ground arith;
                submitted = λ e. cc;
                approved = λ _. (
                  submitter,
                  principal,
                  by,
                  refl,
                  other_user_lem c.run.submitted_by submitter principal by other,
                );
              }

  Reachable-IsSound : (c : RunCase) → Reachable c → IsSound c
  Reachable-IsSound _ (calculating rows now version run {c} e) =
      let (_, gross, _, _, _, _, paid_out) =
        calculate_settlement_run-Reconciles locale_le rows now version run e in
      let (status, source) =
        Ensures-ok (HasStatus run.source_total_minor) _
          (calculate_settlement_run-HasStatus rows now version run) e in
      calculated-IsSound c (gross ∙ sym source, paid_out ∙ sym source) status
  Reachable-IsSound _ (submitting principal version c reached e) =
      Ensures-ok IsSound _ (submit-IsSound principal version c (Reachable-IsSound c reached)) e
  Reachable-IsSound _ (approving principal version c reached e) =
      Ensures-ok IsSound _ (approve-IsSound principal version c (Reachable-IsSound c reached)) e

  -- An approved run was submitted by one user and approved by another, has no open blocking
  -- exception, and its net total and its deductions add up to the source total.
  pub Reachable-approved :
      (c : RunCase)
      → Reachable c
      → is_approved c.run.status ≡ true
      → FourEyes c.run
        × (c.open_blocking ≡ 0)
        × (c.run.net_settlement_total_minor + c.run.deductions_total_minor
            ≡ c.run.source_total_minor)
  Reachable-approved c reached h =
      let s = Reachable-IsSound c reached in (s.approved h, s.unblocked (ground arith), s.whole.1)
