-- ===== src/Inventory/Tests.antt =====
-- A delivery that fills two batches, a merge of the two, its correction, and a lot.
use clycites_platform.Prelude.{
  ℕ, ◌+◌, ◌≤◌, ◌≡◌, refl, Bool, true, none, some, List, [], ◌∷◌, Result, ok, err, All, map,
}
use clycites_platform.Inventory.{Stock, Batch, StockFailure, Place, taken, returned, BatchStatus}
use clycites_platform.Inventory.Transformations.{OperationType, TransformationInput, supersede}
use clycites_platform.Inventory.Covered.{total_of}
use clycites_platform.Inventory.Backed.{live, drawn}
use clycites_platform.Inventory.Kept.{IsBalanced}
use clycites_platform.Inventory.Sequences.{
  Operation, perform_all, perform_all-Reachable, Reachable, Reachable-conserves,
}
use clycites_platform.Inventory.Replaced.{supersede-replaces_draws}

abbrev every_form : ℕ → ℕ → Bool
every_form commodity form = true

abbrev delivered_stock : Stock
delivered_stock = record {
  deliveries = record { commodity = 1; form = 2; is_current = true; net_quantity = some 100 } ∷ [];
  batches = [];
  ledger = [];
  transformations = [];
  lots = [];
}

abbrev merge_of : ℕ → ℕ → TransformationInput
merge_of drawn_quantity made = record {
  type = OperationType.merge;
  inputs = (0, drawn_quantity) ∷ (1, 30) ∷ [];
  outputs = record { commodity = 1; form = 2; quantity = made } ∷ [];
  has_loss_reason = true;
  loss_quantity = none;
}

abbrev or_before : Stock → Result StockFailure Stock → Stock
or_before s (ok after) = after
or_before s (err e) = s

abbrev operations : List Operation
operations =
    Operation.creating 1 2 none
    ∷ Operation.creating 1 2 (some true)
    ∷ Operation.contributing 0 0 60
    ∷ Operation.contributing 0 1 30
    ∷ Operation.sealing 0
    ∷ Operation.sealing 1
    ∷ Operation.transforming (merge_of 60 85)
    ∷ []

abbrev merged_stock : Stock
unfolding perform_all
merged_stock = or_before delivered_stock (perform_all every_form operations delivered_stock)

merged_Reachable : Reachable every_form merged_stock
unfolding perform_all merged_stock
merged_Reachable =
    perform_all-Reachable every_form operations delivered_stock
      (Reachable.delivered delivered_stock refl refl) refl

Reachable-conserves_example :
    ((p : Place)
      → taken p merged_stock.ledger
        ≤ total_of merged_stock.deliveries merged_stock.batches p + returned p merged_stock.ledger)
    × ((i : ℕ)
        → returned (Place.batch i) merged_stock.ledger + live i merged_stock.transformations
          ≤ taken (Place.batch i) merged_stock.ledger)
    × All IsBalanced merged_stock.transformations
Reachable-conserves_example = Reachable-conserves every_form merged_stock merged_Reachable

-- The first batch is emptied by the merge.
merged_statuses :
    map (λ (b : Batch). b.status) merged_stock.batches
    ≡ BatchStatus.consumed ∷ BatchStatus.consumed ∷ BatchStatus.sealed ∷ []
unfolding perform_all merged_stock
merged_statuses = refl

abbrev corrected_stock : Stock
unfolding supersede merged_stock
corrected_stock = or_before merged_stock (supersede every_form 0 (merge_of 50 79) merged_stock)

supersede-replaces_draws_example :
    taken (Place.batch 0) corrected_stock.ledger + 0 + 60
    ≡ 60 + returned (Place.batch 0) corrected_stock.ledger + 50
unfolding perform_all merged_stock supersede corrected_stock taken returned drawn
supersede-replaces_draws_example =
    supersede-replaces_draws every_form 0 0 (merge_of 50 79) merged_stock refl refl
