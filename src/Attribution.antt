-- ===== src/Attribution.antt =====
-- The delivery-level attribution of a transformation (apps/api/src/batches/attribution.ts):
-- `mergeAttributionWeights` puts the deliveries behind every input batch on one denominator, and
-- `allocateAttribution` splits the output over them by largest remainders. Quantities are natural
-- numbers, so `<= 0n` is `== 0`. `shares` and `ordered` hold the same objects in the source, so
-- the objects are a store here, and `ordered` is a list of references into it.
pub mod Merge
pub mod Allocate
mod Tests
use clycites_platform.Prelude.{
  ℕ, zero, suc, ◌+◌, ◌*◌, ◌/◌, ◌%◌, Bool, true, false, not, ◌&&◌, ◌||◌, Option, none, some, List,
  [], ◌∷◌, map, String, ltb, leb, ◌==◌, if◌then◌else◌, length, sum_by, filter, sort_by, TextMap,
  lookup, insert, text_lt,
}

pub record SourceContribution : Type 0 where
  pub delivery_id : String
  pub quantity_units : ℕ

pub record AttributionSource : Type 0 where
  pub batch_id : String
  pub requested_units : ℕ
  pub contributions : List SourceContribution

pub record AttributionWeight : Type 0 where
  pub delivery_id : String
  pub numerator : ℕ

pub record MergedAttribution : Type 0 where
  pub weights : List AttributionWeight
  pub total : ℕ
  pub attributed_units : ℕ
  pub unattributed_units : ℕ

pub record AttributionShare : Type 0 where
  pub delivery_id : String
  pub quantity_units : ℕ

abbrev pub total_of : List SourceContribution → ℕ
total_of = sum_by (λ c. c.quantity_units)

abbrev pub is_attributable : AttributionSource → Bool
is_attributable source = ltb 0 source.requested_units && ltb 0 (total_of source.contributions)

abbrev pub requested : List AttributionSource → ℕ
requested = sum_by (λ source. source.requested_units)

-- `attributable.reduce((product, source) => product * totalOf(source.contributions), 1n)`
unfoldable pub common_denominator : List AttributionSource → ℕ
common_denominator [] = 1
common_denominator (source ∷ sources) = total_of source.contributions * common_denominator sources

abbrev pub or_zero : Option ℕ → ℕ
or_zero none = 0
or_zero (some n) = n

-- The inner loop of `mergeAttributionWeights`, over the contributions of one source.
unfoldable pub add_contributions : ℕ → TextMap ℕ → List SourceContribution → TextMap ℕ
add_contributions scale m [] = m
add_contributions scale m (c ∷ cs) =
    add_contributions scale
      (if c.quantity_units == 0
        then m
        else insert c.delivery_id (or_zero (lookup c.delivery_id m) + c.quantity_units * scale) m)
      cs

-- The outer loop.
unfoldable pub add_sources : ℕ → TextMap ℕ → List AttributionSource → TextMap ℕ
unfolding add_contributions
add_sources denominator m [] = m
add_sources denominator m (source ∷ sources) =
    let scale = (denominator / total_of source.contributions) * source.requested_units in
    add_sources denominator (add_contributions scale m source.contributions) sources

abbrev pub weight_of : String × ℕ → AttributionWeight
weight_of (delivery_id, numerator) = record { delivery_id = delivery_id; numerator = numerator }

abbrev pub sum_weights : List AttributionWeight → ℕ
sum_weights = sum_by (λ w. w.numerator)

-- The comparator never answers 0, so an equal pair would be put in reverse.
abbrev pub weight_before : AttributionWeight → AttributionWeight → Bool
weight_before left right = text_lt left.delivery_id right.delivery_id

unfoldable pub merge_attribution_weights : List AttributionSource → MergedAttribution
unfolding common_denominator add_sources
merge_attribution_weights sources =
    let attributable = filter is_attributable sources in
    let unattributed = requested (filter (λ source. not (is_attributable source)) sources) in
    let numerators = add_sources (common_denominator attributable) [] attributable in
    let weights = sort_by weight_before (map weight_of numerators) in
    if length attributable == 0
    then record { weights = []; total = 0; attributed_units = 0; unattributed_units = unattributed }
    else record {
      weights = weights;
      total = sum_weights weights;
      attributed_units = requested attributable;
      unattributed_units = unattributed;
    }

pub record PendingShare : Type 0 where
  pub delivery_id : String
  pub quantity_units : ℕ
  pub remainder : ℕ

abbrev pub pending_share : ℕ → ℕ → AttributionWeight → PendingShare
pending_share output_units total w = record {
  delivery_id = w.delivery_id;
  quantity_units = output_units * w.numerator / total;
  remainder = (output_units * w.numerator) % total;
}

-- The objects with their references, counted from `i`.
abbrev pub referenced : ℕ → List PendingShare → List (ℕ × PendingShare)
referenced i [] = []
referenced i (s ∷ ss) = (i, s) ∷ referenced (suc i) ss

-- The larger remainder first, then the smaller delivery id.
abbrev pub share_before : ℕ × PendingShare → ℕ × PendingShare → Bool
share_before (_, left) (_, right) =
    if left.remainder == right.remainder
    then text_lt left.delivery_id right.delivery_id
    else ltb right.remainder left.remainder

-- `share.quantityUnits += 1n` through a reference.
unfoldable pub increment : ℕ → List PendingShare → List PendingShare
increment i [] = []
increment zero (s ∷ ss) = record s { quantity_units = s.quantity_units + 1 } ∷ ss
increment (suc i) (s ∷ ss) = s ∷ increment i ss

-- `for (const share of ordered)`
unfoldable pub hand_out : ℕ → ℕ → List (ℕ × PendingShare) → List PendingShare → List PendingShare
unfolding increment
hand_out output_units allocated [] store = store
hand_out output_units allocated ((i, _) ∷ ordered) store =
    let rest = hand_out output_units (allocated + 1) ordered (increment i store) in
    if leb output_units allocated then store else rest

abbrev pub pending_units : List PendingShare → ℕ
pending_units = sum_by (λ s. s.quantity_units)

abbrev pub finished : PendingShare → AttributionShare
finished s = record { delivery_id = s.delivery_id; quantity_units = s.quantity_units }

unfoldable pub allocate_attribution : MergedAttribution → ℕ → List AttributionShare
unfolding hand_out text_lt
allocate_attribution merged output_units =
    let shares = map (pending_share output_units merged.total) merged.weights in
    let ordered = sort_by share_before (referenced 0 shares) in
    let store = hand_out output_units (pending_units shares) ordered shares in
    if output_units == 0 || merged.total == 0 || length merged.weights == 0
    then []
    else map finished (filter (λ s. ltb 0 s.quantity_units) store)
