-- ===== src/Settlements/Tests.antt =====
-- Settlements of two farmers: the deductions, and a run from verified proceeds to its approval.
use clycites_platform.Prelude.{
  ◌+◌, ◌≡◌, ◌≢◌, refl, Bool, true, false, not, none, some, List, [], ◌∷◌, String, Result, ok, err,
  text_lt, filter, All,
}
use clycites_platform.Settlements.Deductions.{
  PolicyType, Policy, Advance, FarmerRows, plan_advance_recovery, amounts, settle_farmer,
}
use clycites_platform.Settlements.Deductions.Waterfall.{
  parts, is_positive, plan_advance_recovery_lem,
}
use clycites_platform.Settlements.Deductions.Settled.{
  settle_farmer_lem, demanded, amounts_by, is_policy, is_recovery,
}
use clycites_platform.Settlements.Run.{
  BatchRow, PolicyRow, RunData, RunStatus, RunFailure, Calculation, calculate_settlement_run,
}
use clycites_platform.Settlements.Run.Totals.{Reconciles, calculate_settlement_run-Reconciles}
use clycites_platform.Settlements.Proceeds.{
  OrderRow, ProceedsStatus, SaleProceeds, ProceedsFailure, RunInput, CreatedRun,
  create_settlement_run, record_sale_proceeds, verify_sale_proceeds,
}
use clycites_platform.Settlements.Proceeds.Created.{create_settlement_run-no_mismatch}
use clycites_platform.Settlements.Proceeds.Handled.{Follows}
use clycites_platform.Settlements.Proceeds.Once.{create_settlement_run_once}
use clycites_platform.Settlements.Proceeds.Verified.{IsSound, Follows-IsSound}
use clycites_platform.Settlements.Approval.{
  RunCase, ApprovalFailure, submit_settlement_run, approve_settlement_run, calculated_case,
}
use clycites_platform.Settlements.Approval.Approved.{is_approved, Reachable-approved}
use clycites_platform.Settlements.Approval.Approved as Approved

abbrev le : String → String → Bool
le a b = not (text_lt b a)

abbrev two_advances : List Advance
two_advances =
    record {
      id = 1;
      farmer_id = "f1";
      issued_at = 3;
      issued_amount_minor = 60;
      outstanding_minor = 50;
    }
    ∷ record {
      id = 2;
      farmer_id = "f1";
      issued_at = 4;
      issued_amount_minor = 80;
      outstanding_minor = 80;
    }
    ∷ []

plan_advance_recovery_lem_example :
    ((plan_advance_recovery two_advances 100).recoveries
      ≡ filter is_positive (parts 100 0 two_advances))
    × ((plan_advance_recovery two_advances 100).recovered_minor ≡ 100)
    × ((plan_advance_recovery two_advances 100).shortfall_minor ≡ 30)
    × (amounts (plan_advance_recovery two_advances 100).deductions ≡ 100)
plan_advance_recovery_lem_example = plan_advance_recovery_lem two_advances 100

-- Ten per cent, and a fixed amount that needs consent.
abbrev levy : Policy
levy = record {
  code = "LEVY";
  type = PolicyType.percentage;
  value = 1_000_000_000;
  maximum_amount_minor = none;
  requires_farmer_consent = false;
}

abbrev storage : Policy
storage = record {
  code = "STORAGE";
  type = PolicyType.fixed_amount;
  value = 700_000_000;
  maximum_amount_minor = some 5;
  requires_farmer_consent = true;
}

abbrev two_policies : List Policy
two_policies = levy ∷ storage ∷ []

abbrev settled_rows : FarmerRows
settled_rows = settle_farmer two_policies two_advances true "f1" 100 40

settle_farmer_lem_example :
    (amounts_by is_policy settled_rows.deductions ≡ 15)
    × (amounts_by is_recovery settled_rows.deductions ≡ 85)
    × (settled_rows.settlement.deductions_total_minor ≡ 100)
    × (amounts settled_rows.deductions ≡ settled_rows.settlement.deductions_total_minor)
    × (settled_rows.settlement.net_entitlement_minor
          + settled_rows.settlement.deductions_total_minor
        ≡ 100)
    × (settled_rows.settlement.carried_forward_minor ≡ 45)
unfolding demanded
settle_farmer_lem_example = settle_farmer_lem two_policies two_advances true "f1" 100 40

abbrev one_batch : BatchRow
one_batch = record {
  id = "a";
  initial_quantity = 6;
  farmer_contributions =
      record {
        delivery_id = "d1";
        farmer_id = "f1";
        quantity = 4;
        is_reversed = false;
        is_direct = true;
      }
      ∷ record {
        delivery_id = "d2";
        farmer_id = "f2";
        quantity = 2;
        is_reversed = false;
        is_direct = true;
      }
      ∷ record {
        delivery_id = "d3";
        farmer_id = "f2";
        quantity = 2;
        is_reversed = true;
        is_direct = true;
      }
      ∷ [];
  transformation_outputs = [];
}

abbrev sold : OrderRow
sold = record {
  is_completed = true;
  currency = "UGX";
  total_amount_minor = 1_000;
  acceptance = some (record { is_rejected = false; accepted_quantity = 6 });
  lot_contributions = record { batch_id = "a"; quantity_units = 6 } ∷ [];
}

abbrev recorded_proceeds : SaleProceeds
recorded_proceeds = record {
  id = "p1";
  order = sold;
  status = ProceedsStatus.recorded;
  currency = "UGX";
  expected_amount_minor = 1_000;
  recorded_amount_minor = 901;
  recorded_by = 1;
  verified_by = none;
  is_used = false;
  version = 1;
}

abbrev verified_proceeds : SaleProceeds
verified_proceeds = record recorded_proceeds {
  status = ProceedsStatus.partially_received;
  verified_by = some 2;
  version = 2;
}

abbrev run_input : RunInput
run_input = record {
  currency = "UGX";
  sale_proceeds_record_ids = "p1" ∷ [];
  exchange_rate_id = none;
}

abbrev one_proceeds : List SaleProceeds
one_proceeds = verified_proceeds ∷ []

abbrev or_nothing : Result ProceedsFailure CreatedRun → CreatedRun
or_nothing (ok c) = c
or_nothing (err e) = record {
  run = record {
    currency = "";
    status = RunStatus.draft;
    version = 1;
    source_total_minor = 0;
    gross_allocated_minor = 0;
    deductions_total_minor = 0;
    net_settlement_total_minor = 0;
    submitted_by = none;
    approved_by = none;
  };
  orders = [];
  proceeds = [];
}

abbrev created_run : CreatedRun
unfolding create_settlement_run
created_run = or_nothing (create_settlement_run [] run_input one_proceeds)

abbrev levied : PolicyRow
levied = record {
  policy = levy;
  is_active = true;
  effective_from = 5;
  effective_to = none;
  currency = none;
  priority = 1;
  policy_version = 1;
}

abbrev run_data : RunData
unfolding created_run
run_data = record {
  batches = one_batch ∷ [];
  orders = created_run.orders;
  policies = levied ∷ [];
  consented_farmer_ids = [];
  advances = two_advances;
}

create_settlement_run-no_mismatch_example :
    calculate_settlement_run le run_data 10 1 created_run.run ≢ err RunFailure.total_mismatch
unfolding run_data
create_settlement_run-no_mismatch_example =
    create_settlement_run-no_mismatch [] run_input one_proceeds le run_data 10 1 refl refl

Follows-IsSound_example : All IsSound created_run.proceeds
unfolding record_sale_proceeds verify_sale_proceeds create_settlement_run created_run
Follows-IsSound_example = Follows-IsSound created_run.proceeds (
    Follows.settling [] run_input one_proceeds
      (Follows.verifying 2 1 0 (recorded_proceeds ∷ [])
        (Follows.recording 1 "p1"
          (record { currency = "UGX"; expected_amount_minor = 1_000; recorded_amount_minor = 901 })
          (some sold) [] Follows.at_first refl)
        refl refl)
      refl)

-- Other proceeds of the order are recorded and verified after the run.
abbrev later_proceeds : List SaleProceeds
later_proceeds =
    record verified_proceeds { id = "p1"; is_used = true }
    ∷ record verified_proceeds { id = "p2" }
    ∷ []

create_settlement_run_once_example :
    create_settlement_run [] run_input later_proceeds ≡ err ProceedsFailure.not_verified
unfolding record_sale_proceeds verify_sale_proceeds create_settlement_run created_run
create_settlement_run_once_example =
    create_settlement_run_once [] run_input one_proceeds later_proceeds [] run_input 0 refl refl
      refl
      (Follows.verifying 2 1 1
        (record verified_proceeds { is_used = true } ∷ record recorded_proceeds { id = "p2" } ∷ [])
        (Follows.recording 1 "p2"
          (record { currency = "UGX"; expected_amount_minor = 1_000; recorded_amount_minor = 901 })
          (some sold) created_run.proceeds Follows.at_first refl)
        refl refl)
      refl

abbrev or_blank : Result RunFailure Calculation → Calculation
or_blank (ok c) = c
or_blank (err e) = record {
  run = (or_nothing (err ProceedsFailure.not_found)).run;
  allocations = [];
  farmers = [];
}

abbrev calculation : Calculation
unfolding calculate_settlement_run text_lt run_data
calculation = or_blank (calculate_settlement_run le run_data 10 1 created_run.run)

calculate_settlement_run-Reconciles_example : Reconciles run_data.orders 901 calculation
unfolding calculate_settlement_run text_lt run_data calculation
calculate_settlement_run-Reconciles_example =
    calculate_settlement_run-Reconciles le run_data 10 1 created_run.run refl

abbrev or_case : RunCase → Result ApprovalFailure RunCase → RunCase
or_case c (ok d) = d
or_case c (err e) = c

abbrev submitted_case : RunCase
unfolding calculation submit_settlement_run
submitted_case =
    or_case (calculated_case calculation) (submit_settlement_run 3 2 (calculated_case calculation))

abbrev approved_case : RunCase
unfolding submitted_case approve_settlement_run
approved_case = or_case submitted_case (approve_settlement_run 4 3 submitted_case)

Reachable-approved_example :
    Approved.FourEyes approved_case.run
    × (approved_case.open_blocking ≡ 0)
    × (approved_case.run.net_settlement_total_minor + approved_case.run.deductions_total_minor
        ≡ approved_case.run.source_total_minor)
unfolding calculate_settlement_run text_lt run_data calculation submitted_case approved_case
    submit_settlement_run approve_settlement_run
Reachable-approved_example =
    Reachable-approved le approved_case
      (Approved.Reachable.approving 4 3 submitted_case
        (Approved.Reachable.submitting 3 2 (calculated_case calculation)
          (Approved.Reachable.calculating run_data 10 1 created_run.run refl) refl)
        refl)
      refl
