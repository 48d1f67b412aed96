-- ===== src/Settlements/Run/Totals.antt =====
-- The totals of a calculated run, and that a run whose source total is what its orders allocate
-- never fails on a mismatch.
use clycites_platform.Prelude.{
  ℕ, ◌+◌, ◌≡◌, ◌≢◌, refl, sym, ap, ◌∙◌, Bool, inl, inr, not, List, [], ◌∷◌, map, String, Result, ok,
  err, >>=-eq-ok, throw_if-eq-ok, ◌==◌, arith, sum_by, sum_by-append, sum_by-sort_by, sort_by, All,
  lookup, TextMap, contains, throw_if-eq-err, filter, ltb, map_result, >>=-eq-err, length, Ensures,
  Ensures-ok, Ensures-throw_if, Ensures->>=,
}
use clycites_platform.Allocation.Proceeds.{
  AllocationInput, QuantityShare, add_quantities, farmer_share, farmer_result, allocate_weights,
  lot_weights, quantity_share, AllocationResult, FarmerAllocationResult, DeliveryAllocationResult,
  or_zero, allocate_sale_proceeds,
}
use clycites_platform.Allocation.Proceeds.Conservation.{
  IsBalanced, allocate_sale_proceeds-conserves,
}
use clycites_platform.Allocation.Proceeds.Quantities.{entry_value, sum-insert}
use clycites_platform.Allocation.Apportion.{apportion, Failure}
use clycites_platform.Allocation.Lineage.{BatchLineageInput}
use clycites_platform.Settlements.Deductions.{FarmerRows, Policy, settle_farmer}
use clycites_platform.Settlements.Deductions.Settled.{settle_farmer_lem}
use clycites_platform.Settlements.Run.{
  RunOrder, RunData, RunFailure, SettlementRun, Calculation, Allocated, add_farmer, add_farmers,
  nothing_allocated, rethrown, allocation_input, allocate_orders, settle_farmers,
  effective_policies, lineage_of, is_draft, calculated_run, settled, advances_of,
  calculate_settlement_run,
}

abbrev pub allocatable : List RunOrder → ℕ
allocatable = sum_by (λ (o : RunOrder). o.allocatable_amount_minor)

abbrev pub farmer_total : Allocated → ℕ
farmer_total allocated = sum_by entry_value allocated.farmer_gross

abbrev row_amount : DeliveryAllocationResult → ℕ
row_amount d = d.allocated_gross_minor

abbrev gross_of : FarmerAllocationResult → ℕ
gross_of f = f.allocated_gross_minor

add_farmers-total :
    (allocated : Allocated) (farmers : List FarmerAllocationResult)
    → All IsBalanced farmers
    → (farmer_total (add_farmers allocated farmers)
        ≡ farmer_total allocated + sum_by gross_of farmers)
      × (sum_by row_amount (add_farmers allocated farmers).allocation_rows
          ≡ sum_by row_amount allocated.allocation_rows + sum_by gross_of farmers)
unfolding add_farmers
add_farmers-total allocated [] h = (omega arith, omega arith)
add_farmers-total allocated (f ∷ fs) h =
    let ih = add_farmers-total (add_farmer allocated f) fs h.1 in
    let balanced = h.0.0 in
    let inserted = sum-insert f.farmer_id f.allocated_gross_minor allocated.farmer_gross in
    let appended = sum_by-append row_amount allocated.allocation_rows f.deliveries in
    (omega arith, omega arith)

abbrev pub net_of : FarmerRows → ℕ
net_of f = f.settlement.net_entitlement_minor

abbrev pub entitlement_of : FarmerRows → ℕ
entitlement_of f = f.settlement.gross_entitlement_minor

abbrev pub deductions_of : FarmerRows → ℕ
deductions_of f = f.settlement.deductions_total_minor

rethrown-ok : {A : Type 0} (r : Result _ A) {a : A} → rethrown r ≡ ok a → r ≡ ok a
rethrown-ok (ok b) h = cc
rethrown-ok (err e) h = cc

settled-sums :
    (rows : RunData) (policies : List Policy) (quantity : TextMap ℕ) (entries : List (String × ℕ))
    → (sum_by entitlement_of (settled rows policies quantity entries) ≡ sum_by entry_value entries)
      × (sum_by net_of (settled rows policies quantity entries)
            + sum_by deductions_of (settled rows policies quantity entries)
          ≡ sum_by entry_value entries)
unfolding settled settle_farmer
settled-sums rows policies quantity [] = (refl, omega arith)
settled-sums rows policies quantity ((farmer, gross) ∷ es) =
    let (entitled, paid) = settled-sums rows policies quantity es in
    let (_, _, _, _, whole, _) =
      settle_farmer_lem policies (advances_of farmer rows.advances)
        (contains farmer rows.consented_farmer_ids) farmer gross
        (or_zero (lookup farmer quantity)) in
    (omega arith, omega arith)

-- Everything that a calculation hands out adds up to the source total.
abbrev pub Reconciles : List RunOrder → ℕ → Calculation → Type 0
Reconciles orders source_total c =
    (source_total ≡ allocatable orders)
    × (c.run.gross_allocated_minor ≡ source_total)
    × (sum_by row_amount c.allocations ≡ source_total)
    × (sum_by entitlement_of c.farmers ≡ source_total)
    × (sum_by deductions_of c.farmers ≡ c.run.deductions_total_minor)
    × (sum_by net_of c.farmers ≡ c.run.net_settlement_total_minor)
    × (c.run.net_settlement_total_minor + c.run.deductions_total_minor ≡ source_total)

rethrown-no_mismatch :
    {A : Type 0} (r : Result Failure A) → rethrown r ≢ err RunFailure.total_mismatch
rethrown-no_mismatch (ok b) h = cc
rethrown-no_mismatch (err e) h = cc

module _ (locale_le : String → String → Bool) where
  abbrev AddsUp : AllocationResult → Type 0
  AddsUp r = sum_by gross_of r.farmers ≡ r.allocated_gross_minor

  allocate_sale_proceeds-AddsUp :
      (input : AllocationInput) → Ensures AddsUp (allocate_sale_proceeds locale_le input)
  unfolding allocate_sale_proceeds allocate_weights Ensures
  allocate_sale_proceeds-AddsUp input =
      Ensures-throw_if AddsUp (input.accepted_quantity_units == 0) _ _ λ _.
        Ensures->>= AddsUp (lot_weights input) _ λ weights _.
          Ensures-throw_if AddsUp (length weights == 0) _ _ λ _.
            Ensures->>= AddsUp
              (apportion locale_le input.accepted_quantity_units (map quantity_share weights)) _
              λ shares _.
                let kept = filter (λ (s : QuantityShare). ltb 0 s.amount) shares in
                let quantities = add_quantities [] kept in
                Ensures->>= AddsUp
                  (apportion locale_le input.proceeds_minor
                    (map (farmer_share input.accepted_quantity_units) quantities))
                  _
                  λ farmer_money _.
                    Ensures->>= AddsUp
                      (map_result (farmer_result locale_le kept quantities) farmer_money) _
                      λ results _. refl

  allocate_orders-total :
      (lineage : List BatchLineageInput) (allocated : Allocated) (orders : List RunOrder)
      {end : Allocated}
      → allocate_orders locale_le lineage allocated orders ≡ ok end
      → (farmer_total end ≡ farmer_total allocated + allocatable orders)
        × (sum_by row_amount end.allocation_rows
            ≡ sum_by row_amount allocated.allocation_rows + allocatable orders)
  unfolding allocate_orders
  allocate_orders-total lineage allocated [] {end} h =
      let same : allocated ≡ end = cc in
      (
        ap farmer_total (sym same) ∙ (omega arith),
        ap (λ (a : Allocated). sum_by row_amount a.allocation_rows) (sym same) ∙ (omega arith),
      )
  allocate_orders-total lineage allocated (o ∷ os) {end} h =
      let input = allocation_input lineage o in
      let (r, returned, h1) = >>=-eq-ok (rethrown (allocate_sale_proceeds locale_le input)) _ h in
      let done = rethrown-ok _ returned in
      let (gross, _, balanced) = allocate_sale_proceeds-conserves locale_le input done in
      let adds_up = Ensures-ok AddsUp _ (allocate_sale_proceeds-AddsUp input) done in
      let (money, written) = add_farmers-total allocated r.farmers balanced in
      let ih = allocate_orders-total lineage (add_farmers allocated r.farmers) os h1 in
      (omega arith, omega arith)

  -- A calculated run hands out its source total, which is what its orders allocate: as rows per
  -- delivery, as gross entitlements, and as the net entitlements together with the deductions.
  pub calculate_settlement_run-Reconciles :
      (rows : RunData) (now expected_version : ℕ) (run : SettlementRun) {c : Calculation}
      → calculate_settlement_run locale_le rows now expected_version run ≡ ok c
      → Reconciles rows.orders run.source_total_minor c
  unfolding calculate_settlement_run settle_farmers Ensures
  calculate_settlement_run-Reconciles rows now expected_version run {c} h =
      let lineage = map lineage_of rows.batches in
      let policies = effective_policies run.currency now rows.policies in
      let (_, h1) =
        throw_if-eq-ok (not (run.version == expected_version)) RunFailure.version_conflict _ h in
      let (_, h2) = throw_if-eq-ok (not (is_draft run.status)) RunFailure.only_drafts _ h1 in
      let (allocated, done, h3) =
        >>=-eq-ok (allocate_orders locale_le lineage nothing_allocated rows.orders) _ h2 in
      let (equal, h4) =
        throw_if-eq-ok (not (farmer_total allocated == run.source_total_minor))
          RunFailure.total_mismatch _ h3 in
      let (total, written) = allocate_orders-total lineage nothing_allocated rows.orders done in
      let same : farmer_total allocated ≡ run.source_total_minor = ground arith in
      let sorted = sort_by (λ l r. locale_le l.0 r.0) allocated.farmer_gross in
      let (entitled, whole) = settled-sums rows policies allocated.farmer_quantity sorted in
      let permuted = sum_by-sort_by (λ l r. locale_le l.0 r.0) entry_value allocated.farmer_gross in
      let farmers = settle_farmers locale_le rows policies allocated in
      Ensures-ok (Reconciles rows.orders run.source_total_minor)
        (ok (record {
          run = calculated_run run (farmer_total allocated) farmers;
          allocations = allocated.allocation_rows;
          farmers = farmers;
        }))
        (omega arith, same, omega arith, omega arith, refl, omega arith, omega arith) h4

  allocate_orders-no_mismatch :
      (lineage : List BatchLineageInput) (allocated : Allocated) (orders : List RunOrder)
      → allocate_orders locale_le lineage allocated orders ≢ err RunFailure.total_mismatch
  unfolding allocate_orders
  allocate_orders-no_mismatch lineage allocated [] h = cc
  allocate_orders-no_mismatch lineage allocated (o ∷ os) h =
      elim (>>=-eq-err (rethrown (allocate_sale_proceeds locale_le (allocation_input lineage o))) _
        h) [
          | inl e ↦ rethrown-no_mismatch _ e
          | inr (r, _, e) ↦
              allocate_orders-no_mismatch lineage (add_farmers allocated r.farmers) os e
        ]

  -- A run whose source total is what its orders allocate never fails on a mismatch of the totals.
  pub calculate_settlement_run-no_mismatch :
      (rows : RunData) (now expected_version : ℕ) (run : SettlementRun)
      → run.source_total_minor ≡ allocatable rows.orders
      → calculate_settlement_run locale_le rows now expected_version run
        ≢ err RunFailure.total_mismatch
  unfolding calculate_settlement_run
  calculate_settlement_run-no_mismatch rows now expected_version run whole h =
      let lineage = map lineage_of rows.batches in
      elim (throw_if-eq-err (not (run.version == expected_version)) RunFailure.version_conflict _
        h) [
          | inl (_, e) ↦ cc
          | inr (_, h1) ↦
              elim (throw_if-eq-err (not (is_draft run.status)) RunFailure.only_drafts _ h1) [
                | inl (_, e) ↦ cc
                | inr (_, h2) ↦
                    elim (>>=-eq-err
                      (allocate_orders locale_le lineage nothing_allocated rows.orders) _ h2) [
                        | inl e ↦
                            allocate_orders-no_mismatch lineage nothing_allocated rows.orders e
                        | inr (allocated, done, h3) ↦
                            let total =
                              (allocate_orders-total lineage nothing_allocated rows.orders
                                done).0 in
                            elim (throw_if-eq-err
                              (not (farmer_total allocated == run.source_total_minor))
                              RunFailure.total_mismatch _ h3) [
                                | inl (differ, _) ↦ ground arith
                                | inr (_, e) ↦ cc
                              ]
                      ]
              ]
        ]
