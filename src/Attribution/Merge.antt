-- ===== src/Attribution/Merge.antt =====
-- The merged weights are exact: on the common denominator every attributable source weighs its
-- denominator's multiple of the units drawn from it, and no unit is lost between the two kinds.
use native.Mathlib.Nat.{div-eq_of_eq-mul_left}
use clycites_platform.Prelude.{
  ℕ, ◌+◌, ◌*◌, ◌/◌, ◌<◌, ◌≡◌, refl, ap, ◌∙◌, true, inl, inr, Bool-cases, List, [], ◌∷◌, map, String,
  arith, ◌==◌, length, sum_by, sum_by-map, sum_by-filter, sum_by-sort_by, sort_by, filter, All,
  All-filter, TextMap, lookup, insert,
}
use clycites_platform.Attribution.{
  SourceContribution, AttributionSource, total_of, is_attributable, requested, common_denominator,
  or_zero, add_contributions, add_sources, weight_of, weight_before, sum_weights,
  merge_attribution_weights,
}

abbrev entry_value : String × ℕ → ℕ
entry_value (k, v) = v

sum-insert :
    (k : String) (a : ℕ) (m : TextMap ℕ)
    → sum_by entry_value (insert k (or_zero (lookup k m) + a) m) ≡ sum_by entry_value m + a
sum-insert k a [] = omega arith
sum-insert k a ((i, w) ∷ m) = ground (arith, sum-insert k a m)

sum-add_contributions :
    (scale : ℕ) (m : TextMap ℕ) (cs : List SourceContribution)
    → sum_by entry_value (add_contributions scale m cs) ≡ sum_by entry_value m + total_of cs * scale
unfolding add_contributions
sum-add_contributions scale m [] = omega arith
sum-add_contributions scale m (c ∷ cs) = elim (Bool-cases (c.quantity_units == 0)) [
  | inl skipped ↦
      let none_given : c.quantity_units ≡ 0 = ground arith in
      rw skipped
        (omega (arith, sum-add_contributions scale m cs, ap (λ (t : ℕ). t * scale) none_given))
  | inr given ↦ rw given (
      omega (
        arith,
        sum-add_contributions scale
            (insert c.delivery_id (or_zero (lookup c.delivery_id m) + c.quantity_units * scale) m)
            cs,
        sum-insert c.delivery_id (c.quantity_units * scale) m,
      ))
]

abbrev pub IsAttributable : AttributionSource → Type 0
IsAttributable source = (0 < source.requested_units) × (0 < total_of source.contributions)

-- `factor` is what the other sources contribute to the denominator.
sum-add_sources :
    (factor : ℕ) (m : TextMap ℕ) (sources : List AttributionSource)
    → All IsAttributable sources
    → sum_by entry_value (add_sources (factor * common_denominator sources) m sources)
      ≡ sum_by entry_value m + factor * common_denominator sources * requested sources
unfolding add_sources common_denominator
sum-add_sources factor m [] h = omega arith
sum-add_sources factor m (s ∷ sources) h =
    let t = total_of s.contributions in
    let d = factor * (t * common_denominator sources) in
    let regrouped : d ≡ factor * t * common_denominator sources = omega arith in
    let scale = d / t * s.requested_units in
    let quotient : d / t ≡ factor * common_denominator sources =
      div-eq_of_eq-mul_left h.0.1 (omega arith) in
    let own : t * scale ≡ d * s.requested_units = rw quotient (omega arith) in
    let rest =
      sum-add_sources (factor * t) (add_contributions scale m s.contributions) sources h.1 in
    (rw (← regrouped) at rest) ∙ (omega (arith, own, sum-add_contributions scale m s.contributions))

pub filter-IsAttributable :
    (sources : List AttributionSource) → All IsAttributable (filter is_attributable sources)
filter-IsAttributable sources =
    All-filter IsAttributable is_attributable sources (λ s h. ground arith)

requested-of_empty :
    (sources : List AttributionSource) → (length sources == 0) ≡ true → requested sources ≡ 0
requested-of_empty [] h = refl
requested-of_empty (s ∷ sources) h = ground arith

pub weights_total :
    (sources : List AttributionSource)
    → All IsAttributable sources
    → sum_weights (
        sort_by weight_before (map weight_of (add_sources (common_denominator sources) [] sources)))
      ≡ common_denominator sources * requested sources
weights_total sources h =
    let numerators = add_sources (common_denominator sources) [] sources in
    let one_times : 1 * common_denominator sources ≡ common_denominator sources = omega arith in
    sum_by-sort_by weight_before (λ w. w.numerator) (map weight_of numerators)
    ∙ sum_by-map (λ w. w.numerator) weight_of numerators
    ∙ (rw one_times at (sum-add_sources 1 [] sources h))
    ∙ (omega arith)

-- The merged total is the common denominator times the attributed units, and the attributed and
-- the unattributed units together are the units that were drawn.
pub merge_attribution_weights-exact :
    (sources : List AttributionSource)
    → let merged = merge_attribution_weights sources in
      (merged.total ≡ common_denominator (filter is_attributable sources) * merged.attributed_units)
      × (sum_weights merged.weights ≡ merged.total)
      × (merged.attributed_units + merged.unattributed_units ≡ requested sources)
unfolding merge_attribution_weights
merge_attribution_weights-exact sources =
    let attributable = filter is_attributable sources in
    let partition =
      sum_by-filter (λ (s : AttributionSource). s.requested_units) is_attributable sources in
    elim (Bool-cases (length attributable == 0)) [
      | inl none_left ↦
          rw none_left
            (omega arith, refl, omega (arith, partition, requested-of_empty attributable none_left))
      | inr some_left ↦
          rw some_left (weights_total attributable (filter-IsAttributable sources), refl, partition)
    ]
