-- ===== src/Allocation/Tests.antt =====
-- Runs of the allocation on a small lot: two batches, one of them transformed from two others.
use clycites_platform.Prelude.{
  ℕ, ◌≡◌, ◌≢◌, refl, Bool, not, none, some, List, [], ◌∷◌, String, Result, ok, err, text_lt,
  text_eq, if◌then◌else◌, sum_by, All, arith,
}
use clycites_platform.Allocation.Fractions.{Fraction, ◌≈◌}
use clycites_platform.Allocation.Ratios.{reduce_sum, zero_ratio, ratio_sum, reduce_sum-≈}
use clycites_platform.Allocation.Apportion.{Failure, Share, Apportioned, apportion}
use clycites_platform.Allocation.Apportion.Reconcile.{amount_of, apportion-sum}
use clycites_platform.Allocation.Apportion.Total.{apportion-returns}
use clycites_platform.Allocation.Apportion.Quota.{WithinQuota, apportion-WithinQuota}
use clycites_platform.Allocation.Lineage.{
  BatchLineageInput, DeliveryContributionInput, TransformationInput, WeightedDelivery,
  merge_weights, resolve_batch,
}
use clycites_platform.Allocation.Lineage.Whole.{IsWeighted, IsWhole, merge_weights-IsWhole}
use clycites_platform.Allocation.Lineage.Termination.{resolve_batch-terminates}
use clycites_platform.Allocation.Proceeds.{
  AllocationInput, AllocationResult, allocate_sale_proceeds, lot_weights,
}
use clycites_platform.Allocation.Proceeds.Conservation.{
  IsBalanced, allocate_sale_proceeds-conserves,
}
use clycites_platform.Allocation.Proceeds.Returns.{allocate_sale_proceeds-returns}

abbrev le : String → String → Bool
le a b = not (text_lt b a)

abbrev direct : String → ℕ → List DeliveryContributionInput → BatchLineageInput
direct id units contributions = record {
  batch_id = id;
  quantity_units = units;
  delivery_contributions = some contributions;
  transformation_inputs = none;
}

abbrev from_farmer : String → String → ℕ → DeliveryContributionInput
from_farmer delivery farmer units = record {
  delivery_id = delivery;
  farmer_id = farmer;
  quantity_units = units;
}

abbrev input_of : String → ℕ → TransformationInput
input_of id units = record { batch_id = id; quantity_units = units }

abbrev transformed : String → ℕ → List TransformationInput → BatchLineageInput
transformed id units inputs = record {
  batch_id = id;
  quantity_units = units;
  delivery_contributions = none;
  transformation_inputs = some inputs;
}

abbrev small_lot : AllocationInput
small_lot = record {
  accepted_quantity_units = 10;
  proceeds_minor = 101;
  batches =
      direct "a" 6 (from_farmer "d1" "f1" 4 ∷ from_farmer "d2" "f2" 2 ∷ [])
      ∷ direct "b" 3 (from_farmer "d3" "f1" 3 ∷ [])
      ∷ transformed "c" 8 (input_of "a" 6 ∷ input_of "b" 3 ∷ [])
      ∷ [];
  lot_contributions = record { batch_id = "c"; quantity_units = 8 } ∷ [];
}

abbrev empty_result : AllocationResult
empty_result = record { attributable_quantity_units = 0; allocated_gross_minor = 0; farmers = [] }

abbrev or_empty_result : Result Failure AllocationResult → AllocationResult
or_empty_result (ok r) = r
or_empty_result (err e) = empty_result

abbrev small_result : AllocationResult
unfolding allocate_sale_proceeds text_lt
small_result = or_empty_result (allocate_sale_proceeds le small_lot)

allocate_sale_proceeds-conserves_example :
    (small_result.allocated_gross_minor ≡ 101)
    × (small_result.attributable_quantity_units ≡ 10)
    × All IsBalanced small_result.farmers
unfolding allocate_sale_proceeds text_lt
allocate_sale_proceeds-conserves_example = allocate_sale_proceeds-conserves le small_lot refl

abbrev or_no_weights : Result Failure (List WeightedDelivery) → List WeightedDelivery
or_no_weights (ok ws) = ws
or_no_weights (err e) = []

abbrev small_weights : List WeightedDelivery
unfolding lot_weights
small_weights = or_no_weights (lot_weights small_lot)

allocate_sale_proceeds-returns_example :
    (r : AllocationResult) × (allocate_sale_proceeds le small_lot ≡ ok r)
unfolding lot_weights
allocate_sale_proceeds-returns_example =
    allocate_sale_proceeds-returns le small_lot small_weights (omega arith) refl

-- One half, a third and a sixth of seven units.
abbrev three_shares : List (Share String)
three_shares =
    record { item = "x"; numerator = 1; denominator = 2; stable_key = "x" }
    ∷ record { item = "y"; numerator = 1; denominator = 3; stable_key = "y" }
    ∷ record { item = "z"; numerator = 1; denominator = 6; stable_key = "z" }
    ∷ []

abbrev three_parts : List (Apportioned String)
three_parts =
    record { item = "x"; amount = 4; residual_units = 1 }
    ∷ record { item = "y"; amount = 2; residual_units = 0 }
    ∷ record { item = "z"; amount = 1; residual_units = 0 }
    ∷ []

apportion-sum_example : sum_by amount_of three_parts ≡ 7
unfolding apportion text_lt
apportion-sum_example = apportion-sum le 7 three_shares refl

apportion-returns_example :
    (out : List (Apportioned String)) × (apportion le 7 three_shares ≡ ok out)
apportion-returns_example =
    apportion-returns le 7 three_shares (λ e. cc) (omega arith, (omega arith, (omega arith, tt)))
      refl

abbrev denominator_of : String → ℕ
denominator_of item = if text_eq item "x" then 2 else if text_eq item "y" then 3 else 6

apportion-WithinQuota_example :
    All (λ (a : Apportioned String). WithinQuota 7 1 (denominator_of a.item) a.amount) three_parts
unfolding apportion text_lt
apportion-WithinQuota_example =
    apportion-WithinQuota (λ item. 1) denominator_of le 7 three_shares
      ((refl, refl), ((refl, refl), ((refl, refl), tt))) refl

abbrev weight : String → String → ℕ → ℕ → WeightedDelivery
weight delivery farmer numerator denominator = record {
  delivery_id = delivery;
  farmer_id = farmer;
  numerator = numerator;
  denominator = denominator;
}

-- The same delivery twice, one of no weight and one without a denominator.
abbrev some_weights : List WeightedDelivery
some_weights =
    weight "d1" "f1" 1 4
    ∷ weight "d2" "f1" 1 2
    ∷ weight "d1" "f1" 1 4
    ∷ weight "d3" "f2" 0 5
    ∷ weight "d4" "f2" 3 0
    ∷ []

abbrev merged_weights : List WeightedDelivery
unfolding merge_weights
merged_weights = or_no_weights (merge_weights some_weights)

merge_weights-IsWhole_example : All IsWeighted merged_weights × IsWhole merged_weights
unfolding merge_weights
merge_weights-IsWhole_example = merge_weights-IsWhole some_weights refl

-- A batch that is made of itself.
resolve_batch-terminates_example :
    resolve_batch 2 (("a", transformed "a" 5 (input_of "a" 5 ∷ [])) ∷ []) "a" []
    ≢ err Failure.out_of_fuel
resolve_batch-terminates_example =
    resolve_batch-terminates (("a", transformed "a" 5 (input_of "a" 5 ∷ [])) ∷ []) "a"

abbrev half : Fraction
half = record { numerator = 1; denominator = 2 }

abbrev quarter : Fraction
quarter = record { numerator = 1; denominator = 4 }

reduce_sum-≈_example : reduce_sum zero_ratio (half ∷ quarter ∷ []) ≈ ratio_sum (half ∷ quarter ∷ [])
reduce_sum-≈_example = reduce_sum-≈ (half ∷ quarter ∷ []) (omega arith, (omega arith, tt))
