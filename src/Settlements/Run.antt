-- ===== src/Settlements/Run.antt =====
-- `calculateSettlementRun` of apps/api/src/settlements/settlements.service.ts on the rows that it
-- reads: what each order's proceeds give each farmer, the check against the source total, and the
-- settlement of every farmer. Quantities with four decimals are held in units of 1/10000.
pub mod Totals
use clycites_platform.Prelude.{
  ℕ, ◌+◌, ◌-◌, Bool, true, false, not, ◌&&◌, ◌||◌, Option, none, some, List, [], ◌∷◌, ◌++◌, map,
  String, Result, ok, err, ◌>>=◌, ◌>>◌, throw_if, or_throw, leb, ltb, ◌==◌, if◌then◌else◌, length,
  sum_by, filter, flat_map, sort_by, TextMap, lookup, insert, text_eq, text_lt, contains,
}
use clycites_platform.Allocation.Lineage.{
  BatchLineageInput, DeliveryContributionInput, TransformationInput,
}
use clycites_platform.Allocation.Proceeds.{
  AllocationInput, AllocationResult, FarmerAllocationResult, DeliveryAllocationResult,
  LotContributionInput, or_zero, allocate_sale_proceeds,
}
use clycites_platform.Allocation.Apportion.{Failure as AllocationFailure}
use clycites_platform.Settlements.Deductions.{Policy, Advance, FarmerRows, settle_farmer}

pub record ContributionRow : Type 0 where
  pub delivery_id : String
  pub farmer_id : String
  pub quantity : ℕ
  pub is_reversed : Bool
  pub is_direct : Bool

pub record BatchRow : Type 0 where
  pub id : String
  pub initial_quantity : ℕ
  pub farmer_contributions : List ContributionRow
  -- the inputs of the transformation behind each output row
  pub transformation_outputs : List (List TransformationInput)

-- `where: { reversedAt: null, origin: 'DIRECT' }`
abbrev pub settles : ContributionRow → Bool
settles c = not c.is_reversed && c.is_direct

abbrev pub contribution_input : ContributionRow → DeliveryContributionInput
contribution_input c = record {
  delivery_id = c.delivery_id;
  farmer_id = c.farmer_id;
  quantity_units = c.quantity;
}

abbrev some_unless_empty : {A : Type 0} → List A → Option (List A)
some_unless_empty [] = none
some_unless_empty (x ∷ xs) = some (x ∷ xs)

-- `batch.transformationOutputs[0]`
abbrev first : {A : Type 0} → List A → Option A
first [] = none
first (x ∷ xs) = some x

unfoldable pub lineage_of : BatchRow → BatchLineageInput
lineage_of batch = record {
  batch_id = batch.id;
  quantity_units = batch.initial_quantity;
  delivery_contributions =
      some_unless_empty (map contribution_input (filter settles batch.farmer_contributions));
  transformation_inputs = first batch.transformation_outputs;
}

pub record RunOrder : Type 0 where
  pub accepted_quantity : ℕ
  pub allocatable_amount_minor : ℕ
  pub lot_contributions : List LotContributionInput

abbrev pub allocation_input : List BatchLineageInput → RunOrder → AllocationInput
allocation_input lineage order = record {
  accepted_quantity_units = order.accepted_quantity;
  proceeds_minor = order.allocatable_amount_minor;
  batches = lineage;
  lot_contributions = order.lot_contributions;
}

-- `farmerGross`, `farmerQuantity` and `allocationRows`.
pub record Allocated : Type 0 where
  pub farmer_gross : TextMap ℕ
  pub farmer_quantity : TextMap ℕ
  pub allocation_rows : List DeliveryAllocationResult

abbrev pub nothing_allocated : Allocated
nothing_allocated = record { farmer_gross = []; farmer_quantity = []; allocation_rows = [] }

-- `map.set(key, (map.get(key) ?? 0n) + amount)`
abbrev pub add_to : String → ℕ → TextMap ℕ → TextMap ℕ
add_to key amount m = insert key (or_zero (lookup key m) + amount) m

abbrev pub add_farmer : Allocated → FarmerAllocationResult → Allocated
add_farmer allocated farmer = record {
  farmer_gross = add_to farmer.farmer_id farmer.allocated_gross_minor allocated.farmer_gross;
  farmer_quantity =
      add_to farmer.farmer_id farmer.attributable_quantity_units allocated.farmer_quantity;
  allocation_rows = allocated.allocation_rows ++ farmer.deliveries;
}

unfoldable pub add_farmers : Allocated → List FarmerAllocationResult → Allocated
add_farmers allocated [] = allocated
add_farmers allocated (farmer ∷ farmers) = add_farmers (add_farmer allocated farmer) farmers

pub data RunFailure : Type 0 where
  run_not_found version_conflict only_drafts total_mismatch : RunFailure
  allocation_failed : AllocationFailure → RunFailure

-- An error of the engine leaves the service as it is.
abbrev pub rethrown : {A : Type 0} → Result AllocationFailure A → Result RunFailure A
rethrown (ok a) = ok a
rethrown (err e) = err (RunFailure.allocation_failed e)

pub record PolicyRow : Type 0 where
  pub policy : Policy
  pub is_active : Bool
  pub effective_from : ℕ
  pub effective_to : Option ℕ
  pub currency : Option String
  pub priority : ℕ
  pub policy_version : ℕ

abbrev until : ℕ → Option ℕ → Bool
until now none = true
until now (some end) = leb now end

abbrev covers : String → Option String → Bool
covers currency none = true
covers currency (some other) = text_eq other currency

abbrev pub is_effective : String → ℕ → PolicyRow → Bool
is_effective currency now row =
    row.is_active
    && leb row.effective_from now
    && until now row.effective_to
    && covers currency row.currency

-- `orderBy: [{ priority: 'asc' }, { code: 'asc' }, { policyVersion: 'asc' }]`
abbrev pub before : PolicyRow → PolicyRow → Bool
before l r =
    ltb l.priority r.priority
    || (l.priority == r.priority
        && (text_lt l.policy.code r.policy.code
            || (text_eq l.policy.code r.policy.code && leb l.policy_version r.policy_version)))

unfoldable pub effective_policies : String → ℕ → List PolicyRow → List Policy
unfolding text_lt
effective_policies currency now rows =
    map (λ (row : PolicyRow). row.policy) (sort_by before (filter (is_effective currency now) rows))

-- What a run is calculated from. The advances are the outstanding ones of the run's currency.
pub record RunData : Type 0 where
  pub batches : List BatchRow
  pub orders : List RunOrder
  pub policies : List PolicyRow
  pub consented_farmer_ids : List String
  pub advances : List Advance

pub data RunStatus : Type 0 where
  draft calculating calculated exceptions_pending pending_approval approved rejected : RunStatus
  payment_in_progress partially_paid paid failed cancelled superseded : RunStatus

pub record SettlementRun : Type 0 where
  pub currency : String
  pub status : RunStatus
  pub version : ℕ
  pub source_total_minor : ℕ
  pub gross_allocated_minor : ℕ
  pub deductions_total_minor : ℕ
  pub net_settlement_total_minor : ℕ
  pub submitted_by : Option ℕ
  pub approved_by : Option ℕ

-- The rows written beside the run.
pub record Calculation : Type 0 where
  pub run : SettlementRun
  pub allocations : List DeliveryAllocationResult
  pub farmers : List FarmerRows

-- `orderBy: [{ issuedAt: 'asc' }, { id: 'asc' }]`
abbrev pub issued_before : Advance → Advance → Bool
issued_before a b = ltb a.issued_at b.issued_at || (a.issued_at == b.issued_at && leb a.id b.id)

-- `advancesByFarmer.get(farmerId) ?? []`
abbrev pub advances_of : String → List Advance → List Advance
advances_of farmer_id advances =
    filter (λ (advance : Advance). text_eq advance.farmer_id farmer_id)
      (sort_by issued_before advances)

abbrev pub calculated_run : SettlementRun → ℕ → List FarmerRows → SettlementRun
calculated_run run gross farmers =
    let deductions = sum_by (λ (f : FarmerRows). f.settlement.deductions_total_minor) farmers in
    record run {
      status =
          if sum_by (λ (f : FarmerRows). length f.exceptions) farmers == 0
          then RunStatus.calculated
          else RunStatus.exceptions_pending;
      gross_allocated_minor = gross;
      deductions_total_minor = deductions;
      net_settlement_total_minor = gross - deductions;
      version = run.version + 1;
    }

abbrev pub is_draft : RunStatus → Bool
is_draft RunStatus.draft = true
is_draft _ = false

-- The loop over the farmers and their gross entitlements.
unfoldable pub settled : RunData → List Policy → TextMap ℕ → List (String × ℕ) → List FarmerRows
unfolding settle_farmer
settled rows policies farmer_quantity [] = []
settled rows policies farmer_quantity ((farmer_id, gross) ∷ entries) =
    settle_farmer policies (advances_of farmer_id rows.advances)
      (contains farmer_id rows.consented_farmer_ids) farmer_id gross
      (or_zero (lookup farmer_id farmer_quantity))
    ∷ settled rows policies farmer_quantity entries

module _ (locale_le : String → String → Bool) where
  unfoldable pub allocate_orders :
      List BatchLineageInput → Allocated → List RunOrder → Result RunFailure Allocated
  unfolding allocate_sale_proceeds add_farmers
  allocate_orders lineage allocated [] = ok allocated
  allocate_orders lineage allocated (order ∷ orders) =
      rethrown (allocate_sale_proceeds locale_le (allocation_input lineage order)) >>= λ result.
      allocate_orders lineage (add_farmers allocated result.farmers) orders

  unfoldable pub settle_farmers : RunData → List Policy → Allocated → List FarmerRows
  unfolding settled
  settle_farmers rows policies allocated =
      settled rows policies allocated.farmer_quantity
        (sort_by (λ l r. locale_le l.0 r.0) allocated.farmer_gross)

  unfoldable pub calculate_settlement_run :
      RunData → ℕ → ℕ → SettlementRun → Result RunFailure Calculation
  unfolding allocate_orders settle_farmers effective_policies lineage_of
  calculate_settlement_run rows now expected_version run = do
    throw_if (not (run.version == expected_version)) RunFailure.version_conflict
    throw_if (not (is_draft run.status)) RunFailure.only_drafts
    allocated ← allocate_orders (map lineage_of rows.batches) nothing_allocated rows.orders
    let gross = sum_by (λ (entry : String × ℕ). entry.1) allocated.farmer_gross
    throw_if (not (gross == run.source_total_minor)) RunFailure.total_mismatch
    let farmers = settle_farmers rows (effective_policies run.currency now rows.policies) allocated
    ok (record {
      run = calculated_run run gross farmers;
      allocations = allocated.allocation_rows;
      farmers = farmers;
    })
