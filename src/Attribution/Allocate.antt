-- ===== src/Attribution/Allocate.antt =====
-- The allocation of a transformation's output is complete: the parts add up to the output, with
-- nothing left over and no synthetic row.
use native.Mathlib.Nat.{div-mul-le_self, lt-div-mul-add, le_of_mul-le-mul_right}
use clycites_platform.Prelude.{
  ℕ, zero, suc, ◌+◌, ◌*◌, ◌≤◌, ◌<◌, ◌≡◌, refl, ap, ◌∙◌, true, false, ◌||◌, inl, inr, Bool-cases,
  List, [], ◌∷◌, map, arith, ltb, leb, ◌==◌, length, length-map, length-sort_by, sum_by, filter,
  sort_by, All, All-sort_by,
}
use clycites_platform.Attribution.{
  AttributionSource, AttributionWeight, MergedAttribution, AttributionShare, PendingShare,
  sum_weights, pending_share, referenced, share_before, increment, hand_out, pending_units,
  finished, allocate_attribution, merge_attribution_weights, is_attributable, common_denominator,
  requested, total_of,
}
use clycites_platform.Attribution.Merge.{
  merge_attribution_weights-exact, IsAttributable, filter-IsAttributable, weights_total,
}

-- A reference into a store of `n` objects.
abbrev IsReference : ℕ → ℕ × PendingShare → Type 0
IsReference n (i, _) = i < n

referenced-IsReference :
    (i n : ℕ) (ss : List PendingShare) → i + length ss ≤ n → All (IsReference n) (referenced i ss)
referenced-IsReference i n [] h = tt
referenced-IsReference i n (s ∷ ss) h =
    (omega arith, referenced-IsReference (suc i) n ss (omega arith))

length-referenced : (i : ℕ) (ss : List PendingShare) → length (referenced i ss) ≡ length ss
length-referenced i [] = refl
length-referenced i (s ∷ ss) = ap suc (length-referenced (suc i) ss)

increment_lem :
    (i : ℕ) (store : List PendingShare)
    → i < length store
    → (pending_units (increment i store) ≡ pending_units store + 1)
      × (length (increment i store) ≡ length store)
unfolding increment
increment_lem i [] h = elim h [ ]
increment_lem zero (s ∷ ss) h = (omega arith, refl)
increment_lem (suc i) (s ∷ ss) h = omega (arith, increment_lem i ss (omega arith))

-- With enough references left the loop hands out all that is missing.
pending_units-hand_out :
    (output allocated : ℕ) (ordered : List (ℕ × PendingShare)) (store : List PendingShare)
    → All (IsReference (length store)) ordered
    → allocated ≤ output
    → output ≤ allocated + length ordered
    → pending_units (hand_out output allocated ordered store) + allocated
      ≡ pending_units store + output
unfolding hand_out
pending_units-hand_out output allocated [] store refs low high = omega arith
pending_units-hand_out output allocated ((i, s) ∷ ordered) store refs low high =
    elim (Bool-cases (leb output allocated)) [
      | inl full ↦ rw full (ground arith)
      | inr missing ↦
          let (more, same) = increment_lem i store refs.0 in
          rw missing (
            omega (
              arith,
              more,
              pending_units-hand_out output (allocated + 1) ordered (increment i store)
                  (rw same refs.1) (ground arith) (omega arith),
            ))
    ]

floors_bounds :
    (output total : ℕ) (ws : List AttributionWeight)
    → 0 < total
    → (pending_units (map (pending_share output total) ws) * total ≤ output * sum_weights ws)
      × (output * sum_weights ws
          ≤ (pending_units (map (pending_share output total) ws) + length ws) * total)
floors_bounds output total [] h = omega arith
floors_bounds output total (w ∷ ws) h =
    let (low, high) = floors_bounds output total ws h in
    omega (
      arith,
      low,
      high,
      div-mul-le_self (output * w.numerator) total,
      lt-div-mul-add {a = output * w.numerator} h,
    )

-- Weights that add up to their total leave at most one unit for each share.
residual_bounds :
    (output total : ℕ) (ws : List AttributionWeight)
    → 0 < total
    → sum_weights ws ≡ total
    → (pending_units (map (pending_share output total) ws) ≤ output)
      × (output ≤ pending_units (map (pending_share output total) ws) + length ws)
residual_bounds output total ws h e =
    let (low, high) = floors_bounds output total ws h in
    (le_of_mul-le-mul_right (rw e at low) h, le_of_mul-le-mul_right (rw e at high) h)

sum-finished :
    (ss : List PendingShare)
    → sum_by
        (λ (s : AttributionShare). s.quantity_units)
        (map finished (filter (λ (s : PendingShare). ltb 0 s.quantity_units) ss))
      ≡ pending_units ss
sum-finished [] = refl
sum-finished (s ∷ ss) = ground (arith, sum-finished ss)

weights-of_empty : (ws : List AttributionWeight) → (length ws == 0) ≡ true → sum_weights ws ≡ 0
weights-of_empty [] h = refl
weights-of_empty (w ∷ ws) h = ground arith

abbrev pub allocated_units : List AttributionShare → ℕ
allocated_units = sum_by (λ s. s.quantity_units)

-- Where the weights add up to a positive total, the parts add up to exactly the output.
pub allocate_attribution-sum :
    (merged : MergedAttribution) (output_units : ℕ)
    → 0 < merged.total
    → sum_weights merged.weights ≡ merged.total
    → allocated_units (allocate_attribution merged output_units) ≡ output_units
unfolding allocate_attribution
allocate_attribution-sum merged output_units h e =
    let shares = map (pending_share output_units merged.total) merged.weights in
    let ordered = sort_by share_before (referenced 0 shares) in
    let (low, high) = residual_bounds output_units merged.total merged.weights h e in
    let references : All (IsReference (length shares)) ordered =
      All-sort_by share_before (IsReference (length shares)) (referenced 0 shares)
        (referenced-IsReference 0 (length shares) shares (omega arith)) in
    let counted : length ordered ≡ length merged.weights =
      length-sort_by share_before (referenced 0 shares)
      ∙ length-referenced 0 shares
      ∙ length-map (pending_share output_units merged.total) merged.weights in
    elim (Bool-cases (output_units == 0 || merged.total == 0 || length merged.weights == 0)) [
      | inl nothing ↦ rw nothing (ground (arith, weights-of_empty merged.weights))
      | inr something ↦ rw something (
          sum-finished (hand_out output_units (pending_units shares) ordered shares)
          ∙ (omega (
            arith,
            pending_units-hand_out output_units (pending_units shares) ordered shares references low
                (omega (arith, counted, high)),
          )))
    ]

first_positive :
    (sources : List AttributionSource)
    → All IsAttributable sources
    → 0 < length sources
    → (0 < requested sources)
first_positive [] k h = elim h [ ]
first_positive (s ∷ sources) k h = omega (arith, k.0.0)

product_positive : (a b : ℕ) → 0 < a → 0 < b → 0 < a * b
product_positive a b p q = grind arith

common_denominator_positive :
    (sources : List AttributionSource) → All IsAttributable sources → 0 < common_denominator sources
unfolding common_denominator
common_denominator_positive [] k = omega arith
common_denominator_positive (s ∷ sources) k =
    product_positive (total_of s.contributions) (common_denominator sources) k.0.1
      (common_denominator_positive sources k.1)

merged_total_positive :
    (sources : List AttributionSource)
    → 0 < length (filter is_attributable sources)
    → 0 < (merge_attribution_weights sources).total
unfolding merge_attribution_weights
merged_total_positive sources h =
    let attributable = filter is_attributable sources in
    let k = filter-IsAttributable sources in
    let some_left : (length attributable == 0) ≡ false = ground arith in
    rw (some_left, weights_total attributable k)
      (product_positive (common_denominator attributable) (requested attributable)
        (common_denominator_positive attributable k) (first_positive attributable k h))

-- A transformation that draws from at least one batch with live contributions has its whole
-- output attributed: the parts over the deliveries add up to exactly the output.
pub attribution_complete :
    (sources : List AttributionSource) (output_units : ℕ)
    → 0 < length (filter is_attributable sources)
    → allocated_units (allocate_attribution (merge_attribution_weights sources) output_units)
      ≡ output_units
attribution_complete sources output_units h =
    let merged = merge_attribution_weights sources in
    let (_, summed, _) = merge_attribution_weights-exact sources in
    allocate_attribution-sum merged output_units (merged_total_positive sources h) summed
