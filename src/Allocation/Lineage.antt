-- ===== src/Allocation/Lineage.antt =====
-- The lineage of a lot (apps/api/src/settlements/allocation-engine.ts): `resolveBatch` walks from a
-- batch to the deliveries that it came from, `scaleWeights`, `mergeWeights` and
-- `normalizeWeights` combine their weights. Quantities are natural numbers, so `<= 0n` is
-- `== 0`; the walk takes fuel, and Lineage/Termination says how much is enough.
pub mod Whole
pub mod Termination
use clycites_platform.Prelude.{
  ℕ, zero, suc, ◌+◌, ◌*◌, ◌<◌, Bool, ◌||◌, ◌&&◌, Option, none, some, List, [], ◌∷◌, ◌++◌, map,
  String, Result, ok, err, ◌>>=◌, ◌>>◌, throw_if, or_throw, flat_map_result, ◌==◌, ltb,
  if◌then◌else◌, length, TextMap, lookup, insert, contains,
}
use Prim.Native.String.{◌++◌ as concat}
use clycites_platform.Allocation.Fractions.{Fraction, reduce_fraction, add_fractions}
use clycites_platform.Allocation.Ratios.{reduce_sum, zero_ratio, divide_by}
use clycites_platform.Allocation.Apportion.{Failure}

pub record DeliveryContributionInput : Type 0 where
  pub delivery_id : String
  pub farmer_id : String
  pub quantity_units : ℕ

pub record TransformationInput : Type 0 where
  pub batch_id : String
  pub quantity_units : ℕ

pub record BatchLineageInput : Type 0 where
  pub batch_id : String
  pub quantity_units : ℕ
  pub delivery_contributions : Option (List DeliveryContributionInput)
  pub transformation_inputs : Option (List TransformationInput)

pub record WeightedDelivery : Type 0 where
  pub delivery_id : String
  pub farmer_id : String
  pub numerator : ℕ
  pub denominator : ℕ

abbrev pub weight_ratio : WeightedDelivery → Fraction
weight_ratio w = record { numerator = w.numerator; denominator = w.denominator }

-- `{ ...weight, ...ratio }`
abbrev pub with_ratio : WeightedDelivery → Fraction → WeightedDelivery
with_ratio w f = record w { numerator = f.numerator; denominator = f.denominator }

-- `${weight.farmerId}:${weight.deliveryId}`
unfoldable pub weight_key : WeightedDelivery → String
weight_key w = concat w.farmer_id (concat ":" w.delivery_id)

unfoldable pub scale_weights : List WeightedDelivery → ℕ → List WeightedDelivery
scale_weights weights quantity =
    map {A = WeightedDelivery} (λ w. record w { numerator = w.numerator * quantity }) weights

unfoldable pub normalize_weights : List WeightedDelivery → Result Failure (List WeightedDelivery)
unfolding reduce_sum
normalize_weights weights = do
  let total = reduce_sum zero_ratio (map weight_ratio weights)
  throw_if (total.numerator == 0) Failure.not_positive
  ok (map (λ w. with_ratio w (reduce_fraction (divide_by total (weight_ratio w)))) weights)

-- One round of the loop of `mergeWeights`.
unfoldable pub merge_weight : TextMap WeightedDelivery → WeightedDelivery → TextMap WeightedDelivery
unfolding weight_key
merge_weight merged w =
    if w.numerator == 0 || w.denominator == 0 then merged else elim (lookup (weight_key w) merged) [
      | none ↦ insert (weight_key w) w merged
      | some current ↦
          insert (weight_key w)
            (with_ratio current (add_fractions (weight_ratio current) (weight_ratio w))) merged
    ]

unfoldable pub merge_loop :
    TextMap WeightedDelivery → List WeightedDelivery → TextMap WeightedDelivery
unfolding merge_weight
merge_loop merged [] = merged
merge_loop merged (w ∷ ws) = merge_loop (merge_weight merged w) ws

abbrev pub values : {V : Type 0} → TextMap V → List V
values = map (λ entry. entry.1)

unfoldable pub merge_weights : List WeightedDelivery → Result Failure (List WeightedDelivery)
unfolding merge_loop normalize_weights
merge_weights weights = normalize_weights (values (merge_loop [] weights))

abbrev pub or_empty : {A : Type 0} → Option (List A) → List A
or_empty none = []
or_empty (some xs) = xs

abbrev direct_weight : BatchLineageInput → DeliveryContributionInput → WeightedDelivery
direct_weight batch c = record {
  delivery_id = c.delivery_id;
  farmer_id = c.farmer_id;
  numerator = c.quantity_units;
  denominator = batch.quantity_units;
}

-- The weights of a batch that is found and not being visited, given how its inputs resolve.
unfoldable pub resolve_found :
    (String → Result Failure (List WeightedDelivery))
    → BatchLineageInput
    → Result Failure (List WeightedDelivery)
unfolding scale_weights merge_weights normalize_weights
resolve_found resolve_input batch =
    let direct = or_empty batch.delivery_contributions in
    let transformed = or_empty batch.transformation_inputs in
    throw_if (batch.quantity_units == 0) Failure.invalid_batch
    >> throw_if (ltb 0 (length direct) && ltb 0 (length transformed)) Failure.ambiguous_lineage
    >> (if ltb 0 (length direct)
        then ok (map (direct_weight batch) direct)
        else throw_if (length transformed == 0) Failure.no_sources
          >> (flat_map_result
                (λ input.
                  resolve_input input.batch_id >>= λ ws. ok (scale_weights ws input.quantity_units))
                transformed
              >>= λ scaled. merge_weights scaled >>= normalize_weights))

-- `visiting` is the set of the batches on the way down.
unfoldable pub resolve_batch :
    ℕ → TextMap BatchLineageInput → String → List String → Result Failure (List WeightedDelivery)
unfolding resolve_found
resolve_batch zero batches batch_id visiting = err Failure.out_of_fuel
resolve_batch (suc fuel) batches batch_id visiting =
    throw_if (contains batch_id visiting) Failure.cycle_detected
    >> (or_throw (lookup batch_id batches) Failure.invalid_batch
        >>= resolve_found (λ input_id. resolve_batch fuel batches input_id (batch_id ∷ visiting)))
