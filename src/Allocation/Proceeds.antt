-- ===== src/Allocation/Proceeds.antt =====
-- `allocateSaleProceeds` of apps/api/src/settlements/allocation-engine.ts: the accepted quantity
-- of a sale is split over the deliveries behind the lot, the proceeds over the farmers, and each
-- farmer's money over that farmer's deliveries.
pub mod Quantities
pub mod Conservation
pub mod Returns
use clycites_platform.Prelude.{
  ℕ, suc, ◌+◌, ◌<◌, Bool, Option, none, some, List, [], ◌∷◌, map, String, Result, ok, err, ◌>>=◌,
  ◌>>◌, throw_if, flat_map_result, map_result, ◌==◌, ltb, if◌then◌else◌, length, sum_by, filter,
  sort_by, TextMap, lookup, insert, text_eq,
}
use clycites_platform.Prelude.Int.{ℤ, pos, negsuc}
use clycites_platform.Allocation.Apportion.{Failure, Share, Apportioned, apportion}
use clycites_platform.Allocation.Lineage.{
  BatchLineageInput, WeightedDelivery, weight_key, scale_weights, merge_weights, resolve_batch,
}

pub record LotContributionInput : Type 0 where
  pub batch_id : String
  pub quantity_units : ℕ

pub record AllocationInput : Type 0 where
  pub accepted_quantity_units : ℕ
  pub proceeds_minor : ℕ
  pub batches : List BatchLineageInput
  pub lot_contributions : List LotContributionInput

pub record DeliveryAllocationResult : Type 0 where
  pub delivery_id : String
  pub farmer_id : String
  pub attributable_quantity_units : ℕ
  pub ratio_numerator : ℕ
  pub ratio_denominator : ℕ
  pub allocated_gross_minor : ℕ
  pub rounding_adjustment_minor : ℕ

pub record FarmerAllocationResult : Type 0 where
  pub farmer_id : String
  pub attributable_quantity_units : ℕ
  pub allocated_gross_minor : ℕ
  pub rounding_adjustment_minor : ℕ
  pub deliveries : List DeliveryAllocationResult

pub record AllocationResult : Type 0 where
  pub attributable_quantity_units : ℕ
  pub allocated_gross_minor : ℕ
  pub farmers : List FarmerAllocationResult

-- `new Map(input.batches.map((batch) => [batch.batchId, batch]))`
unfoldable pub batch_map :
    TextMap BatchLineageInput → List BatchLineageInput → TextMap BatchLineageInput
batch_map m [] = m
batch_map m (b ∷ bs) = batch_map (insert b.batch_id b m) bs

-- The resolved and scaled weights of the lot's contributions, before the merge.
unfoldable pub contribution_weights : AllocationInput → Result Failure (List WeightedDelivery)
unfolding batch_map resolve_batch scale_weights
contribution_weights input =
    let batches = batch_map [] input.batches in
    flat_map_result
      (λ c. resolve_batch (suc (length batches)) batches c.batch_id [] >>= λ ws.
        ok (scale_weights ws c.quantity_units))
      input.lot_contributions

unfoldable pub lot_weights : AllocationInput → Result Failure (List WeightedDelivery)
unfolding contribution_weights merge_weights
lot_weights input = contribution_weights input >>= merge_weights

abbrev pub QuantityShare : Type 0
QuantityShare = Apportioned WeightedDelivery

abbrev pub quantity_share : WeightedDelivery → Share WeightedDelivery
quantity_share w = record {
  item = w;
  numerator = w.numerator;
  denominator = w.denominator;
  stable_key = weight_key w;
}

abbrev pub or_zero : Option ℕ → ℕ
or_zero none = 0
or_zero (some n) = n

-- The loop that fills `farmerQuantities`.
unfoldable pub add_quantities : TextMap ℕ → List QuantityShare → TextMap ℕ
add_quantities m [] = m
add_quantities m (s ∷ ss) =
    add_quantities (insert s.item.farmer_id (or_zero (lookup s.item.farmer_id m) + s.amount) m) ss

abbrev pub farmer_share : ℕ → String × ℕ → Share String
farmer_share accepted (farmer_id, quantity) = record {
  item = farmer_id;
  numerator = quantity;
  denominator = accepted;
  stable_key = farmer_id;
}

abbrev pub delivery_share : ℕ → QuantityShare → Share QuantityShare
delivery_share farmer_quantity s = record {
  item = s;
  numerator = s.amount;
  denominator = farmer_quantity;
  stable_key = s.item.delivery_id;
}

abbrev pub delivery_result : Apportioned QuantityShare → DeliveryAllocationResult
delivery_result money = record {
  delivery_id = money.item.item.delivery_id;
  farmer_id = money.item.item.farmer_id;
  attributable_quantity_units = money.item.amount;
  ratio_numerator = money.item.item.numerator;
  ratio_denominator = money.item.item.denominator;
  allocated_gross_minor = money.amount;
  rounding_adjustment_minor = money.residual_units;
}

module _ (locale_le : String → String → Bool) where
  abbrev pub farmer_of :
      Apportioned String → ℕ → List (Apportioned QuantityShare) → FarmerAllocationResult
  farmer_of farmer_money quantity money = record {
    farmer_id = farmer_money.item;
    attributable_quantity_units = quantity;
    allocated_gross_minor = farmer_money.amount;
    rounding_adjustment_minor = farmer_money.residual_units;
    deliveries = sort_by (λ l r. locale_le l.delivery_id r.delivery_id) (map delivery_result money);
  }

  -- The callback of `farmerMoney.map`.
  unfoldable pub farmer_result :
      List QuantityShare → TextMap ℕ → Apportioned String → Result Failure FarmerAllocationResult
  unfolding apportion
  farmer_result quantity_shares farmer_quantities farmer_money =
      let own = filter (λ s. text_eq s.item.farmer_id farmer_money.item) quantity_shares in
      let quantity = or_zero (lookup farmer_money.item farmer_quantities) in
      apportion locale_le farmer_money.amount (map (delivery_share quantity) own) >>= λ money.
      ok (farmer_of farmer_money quantity money)

  abbrev pub result_of : List FarmerAllocationResult → AllocationResult
  result_of results =
      let farmers = sort_by (λ l r. locale_le l.farmer_id r.farmer_id) results in
      record {
        attributable_quantity_units =
            sum_by (λ (f : FarmerAllocationResult). f.attributable_quantity_units) farmers;
        allocated_gross_minor =
            sum_by (λ (f : FarmerAllocationResult). f.allocated_gross_minor) farmers;
        farmers = farmers;
      }

  -- What follows once the lot's weights are known.
  unfoldable pub allocate_weights :
      AllocationInput → List WeightedDelivery → Result Failure AllocationResult
  unfolding apportion add_quantities farmer_result
  allocate_weights input weights = do
    throw_if (length weights == 0) Failure.no_eligible_deliveries
    shares ← apportion locale_le input.accepted_quantity_units (map quantity_share weights)
    let quantity_shares = filter (λ (s : QuantityShare). ltb 0 s.amount) shares
    let farmer_quantities = add_quantities [] quantity_shares
    farmer_money ←
        apportion locale_le input.proceeds_minor
          (map (farmer_share input.accepted_quantity_units) farmer_quantities)
    results ← map_result (farmer_result quantity_shares farmer_quantities) farmer_money
    ok (result_of results)

  unfoldable pub allocate_sale_proceeds : AllocationInput → Result Failure AllocationResult
  unfolding lot_weights allocate_weights
  allocate_sale_proceeds input = do
    throw_if (input.accepted_quantity_units == 0) Failure.accepted_not_positive
    weights ← lot_weights input
    allocate_weights input weights
