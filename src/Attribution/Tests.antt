-- ===== src/Attribution/Tests.antt =====
-- Runs of the attribution on three sources, one of which has no live contributions.
use clycites_platform.Prelude.{ℕ, ◌+◌, ◌*◌, ◌≡◌, List, [], ◌∷◌, String, arith, filter}
use clycites_platform.Attribution.{
  AttributionSource, SourceContribution, merge_attribution_weights, allocate_attribution,
  common_denominator, is_attributable, sum_weights,
}
use clycites_platform.Attribution.Merge.{merge_attribution_weights-exact}
use clycites_platform.Attribution.Allocate.{attribution_complete, allocated_units}

abbrev contribution : String → ℕ → SourceContribution
contribution delivery units = record { delivery_id = delivery; quantity_units = units }

abbrev source : String → ℕ → List SourceContribution → AttributionSource
source batch units contributions = record {
  batch_id = batch;
  requested_units = units;
  contributions = contributions;
}

abbrev three_sources : List AttributionSource
three_sources =
    source "b1" 5 (contribution "d1" 2 ∷ contribution "d2" 1 ∷ [])
    ∷ source "b2" 4 (contribution "d1" 3 ∷ contribution "d3" 0 ∷ [])
    ∷ source "b3" 6 []
    ∷ []

merge_attribution_weights-exact_example :
    ((merge_attribution_weights three_sources).total
      ≡ common_denominator (filter is_attributable three_sources)
        * (merge_attribution_weights three_sources).attributed_units)
    × (sum_weights (merge_attribution_weights three_sources).weights
        ≡ (merge_attribution_weights three_sources).total)
    × ((merge_attribution_weights three_sources).attributed_units
          + (merge_attribution_weights three_sources).unattributed_units
        ≡ 15)
merge_attribution_weights-exact_example = merge_attribution_weights-exact three_sources

attribution_complete_example :
    allocated_units (allocate_attribution (merge_attribution_weights three_sources) 7) ≡ 7
attribution_complete_example = attribution_complete three_sources 7 (omega arith)
