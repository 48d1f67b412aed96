-- ===== src/Allocation/Proceeds/Returns.antt =====
-- Once the lineage of a lot has resolved, the allocation cannot fail: every split in it is over
-- ratios that make up one whole.
use clycites_platform.Prelude.{
  ℕ, ◌+◌, ◌<◌, ◌≡◌, ◌≢◌, refl, ◌∙◌, ap, Bool, false, List, [], ◌∷◌, map, String, ok, >>=-eq-ok,
  map_result-returns, ◌==◌, arith, length, sum_by, sum_by-map, filter, All, All-filter, TextMap,
  lookup, insert, text_eq_refl,
}
use clycites_platform.Allocation.Fractions.{Fraction}
use clycites_platform.Allocation.Ratios.{common_denominator-one, HasDenominatorOf}
use clycites_platform.Allocation.Apportion.{
  Share, RemainderShare, Apportioned, remainder_share, apportion,
}
use clycites_platform.Allocation.Apportion.Reconcile.{apportion-sum}
use clycites_platform.Allocation.Apportion.Total.{HasRatio, ratio_of, apportion-returns}
use clycites_platform.Allocation.Apportion.Quota.{apportion-All, remainder_share_inv}
use clycites_platform.Allocation.Lineage.{WeightedDelivery, weight_ratio, merge_weights}
use clycites_platform.Allocation.Lineage.Whole.{
  IsWeighted, IsWhole, IsWhole-ne-nil, merge_weights-IsWhole,
}
use clycites_platform.Allocation.Proceeds.{
  AllocationInput, AllocationResult, FarmerAllocationResult, QuantityShare, quantity_share,
  farmer_share, delivery_share, or_zero, add_quantities, farmer_of, result_of, contribution_weights,
  lot_weights, farmer_result, allocate_weights, allocate_sale_proceeds,
}
use clycites_platform.Allocation.Proceeds.Quantities.{
  is_own, looked_up, lookup-add_quantities, sum-add_quantities,
}
use clycites_platform.Allocation.Proceeds.Conservation.{is_positive, sum-positive_shares}

module _ {T : Type 0} where
  abbrev IsPart : ℕ → Share T → Type 0
  IsPart whole s = s.denominator ≡ whole

  ratios-HasDenominatorOf :
      (whole : ℕ) (shares : List (Share T))
      → All (IsPart whole) shares
      → All (HasDenominatorOf whole) (map ratio_of shares)
  ratios-HasDenominatorOf whole [] h = tt
  ratios-HasDenominatorOf whole (s ∷ ss) h = (h.0, ratios-HasDenominatorOf whole ss h.1)

  parts-HasRatio :
      (whole : ℕ) (shares : List (Share T))
      → 0 < whole
      → All (IsPart whole) shares
      → All HasRatio shares
  parts-HasRatio whole [] p h = tt
  parts-HasRatio whole (s ∷ ss) p h = (rw h.0 p, parts-HasRatio whole ss p h.1)

  nonempty-of_sum :
      (whole : ℕ) (shares : List (Share T))
      → 0 < whole
      → sum_by (λ s. s.numerator) shares ≡ whole
      → shares ≢ []
  nonempty-of_sum whole [] p e = absurd (omega arith)
  nonempty-of_sum whole (s ∷ ss) p e = cc

  -- Shares that are parts of one positive whole, and add up to it, are always split.
  apportion-returns_parts :
      (le : String → String → Bool) (total whole : ℕ) (shares : List (Share T))
      → 0 < whole
      → All (IsPart whole) shares
      → sum_by (λ s. s.numerator) shares ≡ whole
      → (out : List (Apportioned T)) × (apportion le total shares ≡ ok out)
  apportion-returns_parts le total whole shares p h e =
      apportion-returns le total shares (nonempty-of_sum whole shares p e)
        (parts-HasRatio whole shares p h)
        (common_denominator-one whole (map ratio_of shares) p
          (ratios-HasDenominatorOf whole shares h)
          (sum_by-map (λ f. f.numerator) ratio_of shares ∙ e))

quantity_shares-HasRatio :
    (ws : List WeightedDelivery) → All IsWeighted ws → All HasRatio (map quantity_share ws)
quantity_shares-HasRatio [] h = tt
quantity_shares-HasRatio (w ∷ ws) h = (h.0, quantity_shares-HasRatio ws h.1)

quantity_shares_ratios :
    (ws : List WeightedDelivery) → map ratio_of (map quantity_share ws) ≡ map weight_ratio ws
quantity_shares_ratios [] = refl
quantity_shares_ratios (w ∷ ws) =
    ap (λ (r : List Fraction). weight_ratio w ∷ r) (quantity_shares_ratios ws)

farmer_shares-IsPart :
    (accepted : ℕ) (m : TextMap ℕ) → All (IsPart accepted) (map (farmer_share accepted) m)
farmer_shares-IsPart accepted [] = tt
farmer_shares-IsPart accepted (e ∷ m) = (refl, farmer_shares-IsPart accepted m)

delivery_shares-IsPart :
    (quantity : ℕ) (own : List QuantityShare)
    → All (IsPart quantity) (map (delivery_share quantity) own)
delivery_shares-IsPart quantity [] = tt
delivery_shares-IsPart quantity (s ∷ own) = (refl, delivery_shares-IsPart quantity own)

abbrev IsPositiveEntry : String × ℕ → Type 0
IsPositiveEntry (k, v) = 0 < v

abbrev IsPositiveShare : QuantityShare → Type 0
IsPositiveShare s = 0 < s.amount

insert-IsPositiveEntry :
    (k : String) (v : ℕ) (m : TextMap ℕ)
    → 0 < v
    → All IsPositiveEntry m
    → All IsPositiveEntry (insert k v m)
insert-IsPositiveEntry k v [] p h = (p, tt)
insert-IsPositiveEntry k v ((i, w) ∷ m) p h = ground (arith, insert-IsPositiveEntry k v m p h.1)

add_quantities-IsPositiveEntry :
    (m : TextMap ℕ) (ss : List QuantityShare)
    → All IsPositiveShare ss
    → All IsPositiveEntry m
    → All IsPositiveEntry (add_quantities m ss)
unfolding add_quantities
add_quantities-IsPositiveEntry m [] p h = h
add_quantities-IsPositiveEntry m (s ∷ ss) p h =
    let k = s.item.farmer_id in
    let v = or_zero (lookup k m) + s.amount in
    add_quantities-IsPositiveEntry (insert k v m) ss p.1
      (insert-IsPositiveEntry k v m (omega (arith, p.0)) h)

-- An entry in front keeps what is found positive.
looked_up_cons :
    (k : String) (v : ℕ) (m n : TextMap ℕ)
    → 0 < v
    → All (λ (e : String × ℕ). 0 < looked_up m e.0) n
    → All (λ (e : String × ℕ). 0 < looked_up ((k, v) ∷ m) e.0) n
looked_up_cons k v m [] p h = tt
looked_up_cons k v m ((i, w) ∷ n) p h = (ground arith, looked_up_cons k v m n p h.1)

looked_up_positive :
    (m : TextMap ℕ) → All IsPositiveEntry m → All (λ (e : String × ℕ). 0 < looked_up m e.0) m
looked_up_positive [] h = tt
looked_up_positive ((k, v) ∷ m) h =
    (ground (arith, text_eq_refl k), looked_up_cons k v m m h.0 (looked_up_positive m h.1))

farmer_shares_positive :
    (accepted : ℕ) (m n : TextMap ℕ)
    → All (λ (e : String × ℕ). 0 < looked_up m e.0) n
    → All (λ (s : Share String). 0 < looked_up m s.item) (map (farmer_share accepted) n)
farmer_shares_positive accepted m [] h = tt
farmer_shares_positive accepted m (e ∷ n) h = (h.0, farmer_shares_positive accepted m n h.1)

quantity_shares-ne-nil : (ws : List WeightedDelivery) → ws ≢ [] → map quantity_share ws ≢ []
quantity_shares-ne-nil [] h = absurd (h refl)
quantity_shares-ne-nil (w ∷ ws) h = cc

length-ne-zero : (ws : List WeightedDelivery) → ws ≢ [] → (length ws == 0) ≡ false
length-ne-zero [] h = absurd (h refl)
length-ne-zero (w ∷ ws) h = ground arith

keeps_item :
    (total : ℕ) (m : TextMap ℕ) (s : Share String) (c : RemainderShare String)
    → remainder_share total s ≡ ok c
    → 0 < looked_up m s.item
    → (0 < looked_up m c.item) × (0 < looked_up m c.item)
keeps_item total m s c e h = let (_, same, _) = remainder_share_inv total s e in rw same (h, h)

module _ (locale_le : String → String → Bool) where
  -- A farmer that has a quantity gets a result.
  farmer_result-returns :
      (shares : List QuantityShare) (money : Apportioned String)
      → 0 < looked_up (add_quantities [] shares) money.item
      → (f : FarmerAllocationResult) × (farmer_result locale_le shares
            (add_quantities [] shares)
            money
          ≡ ok f)
  unfolding farmer_result
  farmer_result-returns shares money p =
      let farmer = money.item in
      let quantity = looked_up (add_quantities [] shares) farmer in
      let own = filter (is_own farmer) shares in
      let (split, e) =
        apportion-returns_parts locale_le money.amount quantity (map (delivery_share quantity) own)
          p (delivery_shares-IsPart quantity own)
          (sum_by-map (λ s. s.numerator) (delivery_share quantity) own
            ∙ (omega (arith, lookup-add_quantities farmer [] shares))) in
      (farmer_of locale_le money quantity split, rw e)

  -- Weights that make up one whole are always allocated.
  allocate_weights-returns :
      (input : AllocationInput) (weights : List WeightedDelivery)
      → 0 < input.accepted_quantity_units
      → All IsWeighted weights
      → IsWhole weights
      → (r : AllocationResult) × (allocate_weights locale_le input weights ≡ ok r)
  unfolding allocate_weights
  allocate_weights-returns input weights p weighted whole =
      let accepted = input.accepted_quantity_units in
      let (shares, e1) =
        apportion-returns locale_le accepted (map quantity_share weights)
          (quantity_shares-ne-nil weights (IsWhole-ne-nil weights whole))
          (quantity_shares-HasRatio weights weighted) (rw (quantity_shares_ratios weights) whole) in
      let own = filter is_positive shares in
      let quantities = add_quantities [] own in
      let parts = map (farmer_share accepted) quantities in
      let positive_entries =
        add_quantities-IsPositiveEntry [] own
          (All-filter IsPositiveShare is_positive shares (λ s h. ground arith)) tt in
      let (money, e2) =
        apportion-returns_parts locale_le input.proceeds_minor accepted parts p
          (farmer_shares-IsPart accepted quantities)
          (sum_by-map (λ s. s.numerator) (farmer_share accepted) quantities
            ∙ sum-add_quantities [] own
            ∙ (omega (
              arith,
              sum-positive_shares shares,
              apportion-sum locale_le accepted (map quantity_share weights) e1,
            ))) in
      let (results, e3) =
        map_result-returns (farmer_result locale_le own quantities)
          (λ m. 0 < looked_up quantities m.item) (farmer_result-returns own) money
          (apportion-All (λ s. 0 < looked_up quantities s.item)
            (λ farmer amount. 0 < looked_up quantities farmer) locale_le input.proceeds_minor parts
            (λ s c e h. keeps_item input.proceeds_minor quantities s c e h)
            (farmer_shares_positive accepted quantities quantities
              (looked_up_positive quantities positive_entries))
            e2) in
      (
        result_of locale_le results,
        rw (length-ne-zero weights (IsWhole-ne-nil weights whole), e1, e2, e3),
      )

  lot_weights-IsWhole :
      (input : AllocationInput) {weights : List WeightedDelivery}
      → lot_weights input ≡ ok weights
      → All IsWeighted weights × IsWhole weights
  unfolding lot_weights
  lot_weights-IsWhole input h =
      let (scaled, _, merged) = >>=-eq-ok (contribution_weights input) merge_weights h in
      merge_weights-IsWhole scaled merged

  -- For a positive accepted quantity, whatever the proceeds: if the lineage of the lot resolves,
  -- the allocation returns a result.
  pub allocate_sale_proceeds-returns :
      (input : AllocationInput) (weights : List WeightedDelivery)
      → 0 < input.accepted_quantity_units
      → lot_weights input ≡ ok weights
      → (r : AllocationResult) × (allocate_sale_proceeds locale_le input ≡ ok r)
  unfolding allocate_sale_proceeds
  allocate_sale_proceeds-returns input weights p resolved =
      let (weighted, whole) = lot_weights-IsWhole input resolved in
      let (r, e) = allocate_weights-returns input weights p weighted whole in
      let accepted : (input.accepted_quantity_units == 0) ≡ false = ground arith in
      (r, rw (accepted, resolved) e)
