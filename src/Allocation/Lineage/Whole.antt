-- ===== src/Allocation/Lineage/Whole.antt =====
-- What `normalizeWeights` and `mergeWeights` return: ratios with denominators that make up one
-- whole, over at least one delivery.
use clycites_platform.Prelude.{
  ◌<◌, ◌≡◌, refl, ◌≢◌, inl, inr, Bool, true, false, ◌||◌, some, Option-cases, Bool-cases, List, [],
  ◌∷◌, map, String, ok, throw_if-eq-ok, ◌==◌, if◌then◌else◌, text_eq, arith, All, TextMap, lookup,
  insert,
}
use clycites_platform.Allocation.Fractions.{
  Fraction, reduce_fraction, add_fractions, reduce_fraction_positive,
}
use clycites_platform.Allocation.Ratios.{
  ratio_sum, reduce_sum, zero_ratio, divide_by, HasDenominator, reduce_sum-≈, divide_by_sum-one,
  add_fractions-HasDenominator, product_positive,
}
use clycites_platform.Allocation.Lineage.{
  WeightedDelivery, weight_ratio, with_ratio, weight_key, normalize_weights, merge_weight,
  merge_loop, merge_weights, values,
}

abbrev pub IsWeighted : WeightedDelivery → Type 0
IsWeighted w = 0 < w.denominator

-- The ratios of the weights make up exactly one whole.
abbrev pub IsWhole : List WeightedDelivery → Type 0
IsWhole ws =
    (ratio_sum (map weight_ratio ws)).numerator ≡ (ratio_sum (map weight_ratio ws)).denominator

ratios-HasDenominator :
    (ws : List WeightedDelivery) → All IsWeighted ws → All HasDenominator (map weight_ratio ws)
ratios-HasDenominator [] h = tt
ratios-HasDenominator (w ∷ ws) h = (h.0, ratios-HasDenominator ws h.1)

normalized : Fraction → WeightedDelivery → WeightedDelivery
normalized total w = with_ratio w (reduce_fraction (divide_by total (weight_ratio w)))

map-normalized-IsWeighted :
    (total : Fraction) (ws : List WeightedDelivery)
    → 0 < total.numerator
    → All IsWeighted ws
    → All IsWeighted (map (normalized total) ws)
unfolding normalized
map-normalized-IsWeighted total [] h k = tt
map-normalized-IsWeighted total (w ∷ ws) h k = (
  (reduce_fraction_positive (divide_by total (weight_ratio w))
      (product_positive w.denominator total.numerator k.0 h)).0,
  map-normalized-IsWeighted total ws h k.1,
)

map-normalized_ratios :
    (total : Fraction) (ws : List WeightedDelivery)
    → map weight_ratio (map (normalized total) ws)
      ≡ map (λ f. reduce_fraction (divide_by total f)) (map weight_ratio ws)
unfolding normalized
map-normalized_ratios total [] = refl
map-normalized_ratios total (w ∷ ws) = cc (map-normalized_ratios total ws)

-- Normalised weights make up one whole, and keep their denominators positive.
pub normalize_weights-IsWhole :
    (ws : List WeightedDelivery) {out : List WeightedDelivery}
    → All IsWeighted ws
    → normalize_weights ws ≡ ok out
    → All IsWeighted out × IsWhole out
unfolding normalize_weights normalized
normalize_weights-IsWhole ws {out} h e =
    let ratios = map weight_ratio ws in
    let total = reduce_sum zero_ratio ratios in
    let dens = ratios-HasDenominator ws h in
    let (nonzero, result) = throw_if-eq-ok (total.numerator == 0) _ _ e in
    let pos_total : 0 < total.numerator = ground arith in
    let out_eq : out ≡ map (normalized total) ws = cc in
    rw out_eq (
      map-normalized-IsWeighted total ws pos_total h,
      rw (map-normalized_ratios total ws)
          (divide_by_sum-one total ratios pos_total dens (reduce_sum-≈ ratios dens)),
    )

-- A list that makes up one whole is not empty.
pub IsWhole-ne-nil : (ws : List WeightedDelivery) → IsWhole ws → ws ≢ []
IsWhole-ne-nil [] h e = absurd (omega arith)
IsWhole-ne-nil (w ∷ ws) h e = cc

insert-IsWeighted :
    (k : String) (w : WeightedDelivery) (m : TextMap WeightedDelivery)
    → IsWeighted w
    → All IsWeighted (values m)
    → All IsWeighted (values (insert k w m))
insert-IsWeighted k w [] h a = (h, tt)
insert-IsWeighted k w ((j, v) ∷ m) h a = place (text_eq j k) (insert-IsWeighted k w m h a.1)
  where
    place :
        (b : Bool)
        → All IsWeighted (values (insert k w m))
        → All IsWeighted (values (if b then (j, w) ∷ m else (j, v) ∷ insert k w m))
    place true r = (h, a.1)
    place false r = (a.0, r)

lookup-IsWeighted :
    (k : String) (m : TextMap WeightedDelivery) {w : WeightedDelivery}
    → All IsWeighted (values m)
    → lookup k m ≡ some w
    → IsWeighted w
lookup-IsWeighted k [] a e = cc
lookup-IsWeighted k ((j, v) ∷ m) {w} a e = ground (arith, lookup-IsWeighted k m {w = w} a.1)

merge_weight-IsWeighted :
    (m : TextMap WeightedDelivery) (w : WeightedDelivery)
    → All IsWeighted (values m)
    → All IsWeighted (values (merge_weight m w))
unfolding merge_weight
merge_weight-IsWeighted m w a = elim (Bool-cases (w.numerator == 0 || w.denominator == 0)) [
  | inl skipped ↦ rw skipped a
  | inr kept ↦ elim (Option-cases (lookup (weight_key w) m)) [
    | inl new ↦ rw (kept, new) (insert-IsWeighted (weight_key w) w m (ground arith) a)
    | inr (v, found) ↦
        rw (kept, found)
          (insert-IsWeighted (weight_key w)
            (with_ratio v (add_fractions (weight_ratio v) (weight_ratio w))) m
            (add_fractions-HasDenominator (weight_ratio v) (weight_ratio w)
              (lookup-IsWeighted (weight_key w) m a found) (ground arith))
            a)
  ]
]

merge_loop-IsWeighted :
    (m : TextMap WeightedDelivery) (ws : List WeightedDelivery)
    → All IsWeighted (values m)
    → All IsWeighted (values (merge_loop m ws))
unfolding merge_loop
merge_loop-IsWeighted m [] a = a
merge_loop-IsWeighted m (w ∷ ws) a =
    merge_loop-IsWeighted (merge_weight m w) ws (merge_weight-IsWeighted m w a)

-- Whatever weights are merged, zero ones and such without a denominator included: if the merge
-- returns, its ratios have denominators and make up exactly one whole.
pub merge_weights-IsWhole :
    (ws : List WeightedDelivery) {out : List WeightedDelivery}
    → merge_weights ws ≡ ok out
    → All IsWeighted out × IsWhole out
unfolding merge_weights
merge_weights-IsWhole ws e =
    normalize_weights-IsWhole (values (merge_loop [] ws)) (merge_loop-IsWeighted [] ws tt) e
