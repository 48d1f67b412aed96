-- ===== src/Settlements/Approval.antt =====
-- A settlement run from its calculation to its approval: `submitSettlementRun` with
-- `transitionSettlement`, and `approveSettlementRun` of
-- apps/api/src/settlements/settlements.service.ts.
pub mod Approved
use clycites_platform.Prelude.{
  ℕ, ◌+◌, Bool, true, false, not, Option, none, some, List, [], ◌∷◌, map, Result, ok, ◌>>=◌, ◌>>◌,
  throw_if, ltb, ◌==◌, length, sum_by,
}
use clycites_platform.Settlements.Deductions.{FarmerRows}
use clycites_platform.Settlements.Run.{SettlementRun, RunStatus, Calculation}
use clycites_platform.Settlements.Payments.{FarmerStatus}

-- A run with the number of its open blocking exceptions and its farmers' settlements.
pub record RunCase : Type 0 where
  pub run : SettlementRun
  pub open_blocking : ℕ
  pub farmer_statuses : List FarmerStatus

pub data ApprovalFailure : Type 0 where
  version_conflict transition_invalid self_approval has_blocking_exceptions : ApprovalFailure

-- What the calculation leaves: every exception open, every settlement calculated.
abbrev pub calculated_case : Calculation → RunCase
calculated_case c = record {
  run = c.run;
  open_blocking = sum_by (λ (f : FarmerRows). length f.exceptions) c.farmers;
  farmer_statuses = map (λ (f : FarmerRows). FarmerStatus.calculated) c.farmers;
}

abbrev pub is_calculated : RunStatus → Bool
is_calculated RunStatus.calculated = true
is_calculated _ = false

abbrev pub is_pending_approval : RunStatus → Bool
is_pending_approval RunStatus.pending_approval = true
is_pending_approval _ = false

unfoldable pub submit_settlement_run : ℕ → ℕ → RunCase → Result ApprovalFailure RunCase
submit_settlement_run principal version c = do
  throw_if (not (c.run.version == version)) ApprovalFailure.version_conflict
  throw_if (not (is_calculated c.run.status)) ApprovalFailure.transition_invalid
  ok (record c {
    run = record c.run {
      status = RunStatus.pending_approval;
      submitted_by = some principal;
      version = c.run.version + 1;
    };
  })

abbrev pub is_user : ℕ → Option ℕ → Bool
is_user principal none = false
is_user principal (some user) = user == principal

-- `updateMany({ where: { status: 'CALCULATED' }, data: { status: 'APPROVED' } })`
abbrev pub approve_farmer : FarmerStatus → FarmerStatus
approve_farmer FarmerStatus.calculated = FarmerStatus.approved
approve_farmer status = status

unfoldable pub approve_settlement_run : ℕ → ℕ → RunCase → Result ApprovalFailure RunCase
approve_settlement_run principal version c = do
  throw_if (not (c.run.version == version)) ApprovalFailure.version_conflict
  throw_if (not (is_pending_approval c.run.status)) ApprovalFailure.transition_invalid
  throw_if (is_user principal c.run.submitted_by) ApprovalFailure.self_approval
  throw_if (ltb 0 c.open_blocking) ApprovalFailure.has_blocking_exceptions
  ok (record {
    run = record c.run {
      status = RunStatus.approved;
      approved_by = some principal;
      version = c.run.version + 1;
    };
    open_blocking = c.open_blocking;
    farmer_statuses = map approve_farmer c.farmer_statuses;
  })
