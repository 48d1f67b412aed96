-- ===== src/Inventory/Sequences.antt =====
-- Sequences of operations on the stock (apps/api/src/batches/batches.service.ts,
-- transformations.service.ts and apps/api/src/lots/lots.service.ts), one after the other.
use clycites_platform.Prelude.{
  List, [], ◌∷◌, ◌>>=◌, >>=-eq-ok, ℕ, ◌+◌, ◌≤◌, ◌≡◌, ap, Bool, Option, none, Result, ok, arith, All,
  Ensures, Ensures-ok,
}
use mathlib.Core.Path.{subst, subst⁻¹}
use clycites_platform.Inventory.{
  Place, taken, returned, Stock, StockFailure, create_batch, contribute, seal,
}
use clycites_platform.Inventory.Transformations.{
  TransformationInput, record_transformation, supersede,
}
use clycites_platform.Inventory.Lots.{LotInput, InspectionStatus, create_lot, approve_lot}
use clycites_platform.Inventory.Covered.{total_of}
use clycites_platform.Inventory.Backed.{live}
use clycites_platform.Inventory.Kept.{
  IsKept, IsBalanced, record_transformation-IsKept, supersede-IsKept,
}
use clycites_platform.Inventory.Contributed.{
  create_batch-IsKept, contribute-IsKept, seal-IsKept, create_lot-IsKept, approve_lot-IsKept,
}

-- The operations on the stock.
pub data Operation : Type 0 where
  creating : ℕ → ℕ → Option Bool → Operation
  contributing : ℕ → ℕ → ℕ → Operation
  sealing : ℕ → Operation
  transforming : TransformationInput → Operation
  superseding : ℕ → TransformationInput → Operation
  allotting : LotInput → Operation
  approving : Option InspectionStatus → ℕ → Operation

module _ (form_active : ℕ → ℕ → Bool) where
  unfoldable pub perform : Operation → Stock → Result StockFailure Stock
  unfolding create_batch contribute seal record_transformation supersede create_lot approve_lot
  perform (creating commodity form location) s = create_batch form_active commodity form location s
  perform (contributing i j requested) s = contribute i j requested s
  perform (sealing j) s = seal j s
  perform (transforming input) s = record_transformation form_active input none 1 s
  perform (superseding k replacement) s = supersede form_active k replacement s
  perform (allotting input) s = create_lot input s
  perform (approving newest n) s = approve_lot newest n s

  perform-IsKept :
      (operation : Operation) (s : Stock) → IsKept s → Ensures IsKept (perform operation s)
  unfolding perform Ensures
  perform-IsKept (creating commodity form location) s k =
      create_batch-IsKept form_active commodity form location s k
  perform-IsKept (contributing i j requested) s k = contribute-IsKept i j requested s k
  perform-IsKept (sealing j) s k = seal-IsKept j s k
  perform-IsKept (transforming input) s k =
      record_transformation-IsKept form_active input none 1 s k
  perform-IsKept (superseding n replacement) s k = supersede-IsKept form_active n replacement s k
  perform-IsKept (allotting input) s k = create_lot-IsKept input s k
  perform-IsKept (approving newest n) s k = approve_lot-IsKept newest n s k

  -- A stock with any deliveries and nothing done yet, and every stock that operations lead to.
  pub data Reachable : Stock → Type 0 where
    delivered : (s : Stock) → s.ledger ≡ [] → s.transformations ≡ [] → Reachable s
    performed :
        (operation : Operation) (s : Stock) {after : Stock}
        → Reachable s
        → perform operation s ≡ ok after
        → Reachable after

  Reachable-IsKept : (s : Stock) → Reachable s → IsKept s
  unfolding taken returned live
  Reachable-IsKept s (delivered _ empty none_yet) = record {
    covers = record {
      covered = λ p. let untaken : taken p s.ledger ≡ 0 = ap (taken p) empty in omega arith;
    };
    backs = record {
      backed = λ i.
          let unreturned : returned (Place.batch i) s.ledger ≡ 0 =
            ap (returned (Place.batch i)) empty in
          let unheld : live i s.transformations ≡ 0 = ap (live i) none_yet in omega arith;
    };
    balances = subst⁻¹ (All IsBalanced) none_yet tt;
  }
  Reachable-IsKept _ (performed operation s reached e) =
      Ensures-ok IsKept _ (perform-IsKept operation s (Reachable-IsKept s reached)) e

  -- After any sequence of operations, what was drawn from a delivery or a batch and not given back
  -- is no more than it holds, and what the standing transformations drew from a batch was drawn
  -- and not given back; and what each transformation drew is what it made and what it lost.
  pub Reachable-conserves :
      (s : Stock)
      → Reachable s
      → ((p : Place) → taken p s.ledger ≤ total_of s.deliveries s.batches p + returned p s.ledger)
        × ((i : ℕ)
            → returned (Place.batch i) s.ledger + live i s.transformations
              ≤ taken (Place.batch i) s.ledger)
        × All IsBalanced s.transformations
  Reachable-conserves s reached =
      let k = Reachable-IsKept s reached in (k.covers.covered, k.backs.backed, k.balances)

  unfoldable pub perform_all : List Operation → Stock → Result StockFailure Stock
  unfolding perform
  perform_all [] s = ok s
  perform_all (operation ∷ operations) s = perform operation s >>= perform_all operations

  pub perform_all-Reachable :
      (operations : List Operation) (s : Stock) {after : Stock}
      → Reachable s
      → perform_all operations s ≡ ok after
      → Reachable after
  unfolding perform_all
  perform_all-Reachable [] s {after} reached e =
      let same : s ≡ after = cc in subst Reachable same reached
  perform_all-Reachable (operation ∷ operations) s reached e =
      let (next, first, rest) = >>=-eq-ok (perform operation s) (perform_all operations) e in
      perform_all-Reachable operations next (performed operation s reached first) rest
