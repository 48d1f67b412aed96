-- ===== src/Allocation/Proceeds/Conservation.antt =====
-- An allocation hands out exactly the proceeds and the accepted quantity, farmer by farmer and
-- delivery by delivery, and it returns whenever the lineage of the lot resolves.
use clycites_platform.Prelude.{
  ℕ, ◌≡◌, refl, ◌∙◌, Bool, List, [], ◌∷◌, map, String, ok, >>=-eq-ok, throw_if-eq-ok, map_result,
  map_result-All, map_result-sum, ltb, ◌==◌, arith, length, sum_by, filter, sort_by, sum_by-sort_by,
  sum_by-map, All, All-sort_by,
}
use clycites_platform.Allocation.Apportion.{Apportioned, apportion}
use clycites_platform.Allocation.Apportion.Reconcile.{amount_of, apportion-sum, apportion-items}
use clycites_platform.Allocation.Lineage.{WeightedDelivery}
use clycites_platform.Allocation.Proceeds.{
  AllocationInput, AllocationResult, FarmerAllocationResult, DeliveryAllocationResult,
  QuantityShare, quantity_share, farmer_share, delivery_share, delivery_result, add_quantities,
  farmer_of, result_of, lot_weights, farmer_result, allocate_weights, allocate_sale_proceeds,
}
use clycites_platform.Allocation.Proceeds.Quantities.{
  share_amount, is_own, looked_up, lookup-add_quantities, sum-lookup-add_quantities,
}

-- A farmer's deliveries add up to the farmer's money and to the farmer's quantity.
abbrev pub IsBalanced : FarmerAllocationResult → Type 0
IsBalanced f =
    (sum_by (λ (d : DeliveryAllocationResult). d.allocated_gross_minor) f.deliveries
      ≡ f.allocated_gross_minor)
    × (sum_by (λ (d : DeliveryAllocationResult). d.attributable_quantity_units) f.deliveries
        ≡ f.attributable_quantity_units)

All-Unit : {A : Type 0} (xs : List A) → All (λ (_ : A). Unit {0}) xs
All-Unit [] = tt
All-Unit (x ∷ xs) = (tt, All-Unit xs)

abbrev pub is_positive : QuantityShare → Bool
is_positive s = ltb 0 s.amount

pub sum-positive_shares :
    (ss : List QuantityShare) → sum_by share_amount (filter is_positive ss) ≡ sum_by share_amount ss
sum-positive_shares [] = refl
sum-positive_shares (s ∷ ss) = ground (arith, sum-positive_shares ss)

module _ (locale_le : String → String → Bool) where
  abbrev by_farmer : FarmerAllocationResult → FarmerAllocationResult → Bool
  by_farmer l r = locale_le l.farmer_id r.farmer_id

  abbrev by_delivery : DeliveryAllocationResult → DeliveryAllocationResult → Bool
  by_delivery l r = locale_le l.delivery_id r.delivery_id

  -- A sum over a farmer's sorted deliveries is the sum over the split that they came from.
  sum-deliveries :
      (g : DeliveryAllocationResult → ℕ) (split : List (Apportioned QuantityShare))
      → sum_by g (sort_by by_delivery (map delivery_result split))
        ≡ sum_by (λ a. g (delivery_result a)) split
  sum-deliveries g split =
      sum_by-sort_by by_delivery g (map delivery_result split) ∙ sum_by-map g delivery_result split

  -- The farmer's own shares are what its quantity is made of.
  split-quantities :
      (total : ℕ) (farmer : String) (shares : List QuantityShare)
      {split : List (Apportioned QuantityShare)}
      → let quantity = looked_up (add_quantities [] shares) farmer in
        apportion locale_le total (map (delivery_share quantity) (filter (is_own farmer) shares))
          ≡ ok split
        → sum_by (λ (a : Apportioned QuantityShare). a.item.amount) split ≡ quantity
  split-quantities total farmer shares h =
      let quantity = looked_up (add_quantities [] shares) farmer in
      let own = filter (is_own farmer) shares in
      apportion-items share_amount locale_le total (map (delivery_share quantity) own) h
      ∙ sum_by-map (λ s. share_amount s.item) (delivery_share quantity) own
      ∙ (omega (arith, lookup-add_quantities farmer [] shares))

  farmer_result-facts :
      (shares : List QuantityShare) (money : Apportioned String) {f : FarmerAllocationResult}
      → farmer_result locale_le shares (add_quantities [] shares) money ≡ ok f
      → IsBalanced f
        × (f.attributable_quantity_units ≡ looked_up (add_quantities [] shares) money.item)
        × (f.allocated_gross_minor ≡ money.amount)
  unfolding farmer_result
  farmer_result-facts shares money {f} h =
      let quantity = looked_up (add_quantities [] shares) money.item in
      let parts = map (delivery_share quantity) (filter (is_own money.item) shares) in
      let (split, apportioned, built) =
        >>=-eq-ok (apportion locale_le money.amount parts)
          (λ m. ok (farmer_of locale_le money quantity m)) h in
      let f_eq : f ≡ farmer_of locale_le money quantity split = cc in
      rw f_eq (
        (
          sum-deliveries (λ d. d.allocated_gross_minor) split
              ∙ apportion-sum locale_le money.amount parts apportioned,
          sum-deliveries (λ d. d.attributable_quantity_units) split
              ∙ split-quantities money.amount money.item shares apportioned,
        ),
        refl,
        refl,
      )

  IsBalanced-farmers :
      (shares : List QuantityShare) (money : List (Apportioned String))
      {results : List FarmerAllocationResult}
      → map_result (farmer_result locale_le shares (add_quantities [] shares)) money ≡ ok results
      → All IsBalanced results
        × (sum_by (λ (f : FarmerAllocationResult). f.attributable_quantity_units) results
            ≡ sum_by
                (λ (m : Apportioned String). looked_up (add_quantities [] shares) m.item)
                money)
        × (sum_by (λ (f : FarmerAllocationResult). f.allocated_gross_minor) results
            ≡ sum_by amount_of money)
  IsBalanced-farmers shares money h =
      let step = farmer_result locale_le shares (add_quantities [] shares) in
      (
        map_result-All step (λ m. Unit) IsBalanced (λ m f e _. (farmer_result-facts shares m e).0)
            money (All-Unit money) h,
        map_result-sum step (λ f. f.attributable_quantity_units)
            (λ m. looked_up (add_quantities [] shares) m.item)
            (λ m f e. (farmer_result-facts shares m e).1) money h,
        map_result-sum step (λ f. f.allocated_gross_minor) amount_of
            (λ m f e. (farmer_result-facts shares m e).2) money h,
      )

  allocate_weights-conserves :
      (input : AllocationInput) (weights : List WeightedDelivery) {r : AllocationResult}
      → allocate_weights locale_le input weights ≡ ok r
      → (r.allocated_gross_minor ≡ input.proceeds_minor)
        × (r.attributable_quantity_units ≡ input.accepted_quantity_units)
        × All IsBalanced r.farmers
  unfolding allocate_weights
  allocate_weights-conserves input weights {r} h =
      let accepted = input.accepted_quantity_units in
      let (_, h1) = throw_if-eq-ok (length weights == 0) _ _ h in
      let (shares, quantity_split, h2) =
        >>=-eq-ok (apportion locale_le accepted (map quantity_share weights)) _ h1 in
      let own = filter is_positive shares in
      let quantities = add_quantities [] own in
      let parts = map (farmer_share accepted) quantities in
      let (money, money_split, h3) =
        >>=-eq-ok (apportion locale_le input.proceeds_minor parts) _ h2 in
      let (results, mapped, h4) =
        >>=-eq-ok (map_result (farmer_result locale_le own quantities) money)
          (λ fs. ok (result_of locale_le fs)) h3 in
      let r_eq : r ≡ result_of locale_le results = cc in
      let (balanced, attributable, gross) = IsBalanced-farmers own money mapped in
      rw r_eq (
        sum_by-sort_by by_farmer (λ f. f.allocated_gross_minor) results
            ∙ gross
            ∙ apportion-sum locale_le input.proceeds_minor parts money_split,
        sum_by-sort_by by_farmer (λ f. f.attributable_quantity_units) results
            ∙ attributable
            ∙ apportion-items (looked_up quantities) locale_le input.proceeds_minor parts
                money_split
            ∙ sum_by-map (λ s. looked_up quantities s.item) (farmer_share accepted) quantities
            ∙ sum-lookup-add_quantities own
            ∙ sum-positive_shares shares
            ∙ apportion-sum locale_le accepted (map quantity_share weights) quantity_split,
        All-sort_by by_farmer IsBalanced results balanced,
      )

  -- An allocation that returns hands out exactly the proceeds and exactly the accepted quantity,
  -- and each farmer's deliveries add up to the farmer's money and to the farmer's quantity.
  pub allocate_sale_proceeds-conserves :
      (input : AllocationInput) {r : AllocationResult}
      → allocate_sale_proceeds locale_le input ≡ ok r
      → (r.allocated_gross_minor ≡ input.proceeds_minor)
        × (r.attributable_quantity_units ≡ input.accepted_quantity_units)
        × All IsBalanced r.farmers
  unfolding allocate_sale_proceeds
  allocate_sale_proceeds-conserves input h =
      let (_, h1) = throw_if-eq-ok (input.accepted_quantity_units == 0) _ _ h in
      let (weights, _, h2) = >>=-eq-ok (lot_weights input) (allocate_weights locale_le input) h1 in
      allocate_weights-conserves input weights h2
