-- ===== src/Inventory/Lots.antt =====
-- Lots (apps/api/src/lots/lots.service.ts): `create`, which allocates sealed batches, and `approve`.
use clycites_platform.Prelude.{
  ℕ, Bool, true, false, not, ◌&&◌, Option, some, List, [], ◌∷◌, ◌++◌, Result, ok, ◌>>=◌, ◌>>◌,
  throw_if, or_throw, ◌==◌, length, get_elem?, set,
}
use clycites_platform.Inventory.{Batch, Place, EntryType, LotRow, LotStatus, Stock, StockFailure}
use clycites_platform.Inventory.Ledger.{
  is_unique, sealed_batches, quantities, some_exceeds, draw_all,
}

pub record LotInput : Type 0 where
  pub commodity : ℕ
  pub form : ℕ
  pub contributions : List (ℕ × ℕ)
  -- whether the storage location given, if any, is an active one of the organization
  pub location_fits : Bool

unfoldable pub all_match : LotInput → List Batch → Bool
all_match input [] = true
all_match input (b ∷ bs) =
    (b.commodity == input.commodity && b.form == input.form) && all_match input bs

abbrev pub new_lot : LotInput → LotRow
new_lot input = record {
  commodity = input.commodity;
  form = input.form;
  status = LotStatus.ready;
  quantity = quantities input.contributions;
  contributions = input.contributions;
}

unfoldable pub create_lot : LotInput → Stock → Result StockFailure Stock
unfolding is_unique sealed_batches some_exceeds draw_all all_match
create_lot input s = do
  throw_if (not (is_unique input.contributions)) StockFailure.not_unique
  batches ← or_throw (sealed_batches s.batches input.contributions) StockFailure.commodity_mismatch
  throw_if (not (all_match input batches)) StockFailure.commodity_mismatch
  throw_if (some_exceeds s input.contributions) StockFailure.insufficient_available_quantity
  throw_if (not input.location_fits) StockFailure.location_not_found
  ok (
      draw_all EntryType.lot_allocation (some (Place.lot (length s.lots))) input.contributions
        (record s { lots = s.lots ++ new_lot input ∷ [] }))

abbrev pub is_ready : LotStatus → Bool
is_ready LotStatus.ready = true
is_ready _ = false

pub data InspectionStatus : Type 0 where
  draft passed failed : InspectionStatus

abbrev pub has_passed : Option InspectionStatus → Bool
has_passed (some InspectionStatus.passed) = true
has_passed _ = false

-- `newest` is the status of the lot's newest inspection.
unfoldable pub approve_lot : Option InspectionStatus → ℕ → Stock → Result StockFailure Stock
approve_lot newest k s = do
  lot ← or_throw (get_elem? s.lots k) StockFailure.invalid_lot_state
  throw_if (not (is_ready lot.status)) StockFailure.invalid_lot_state
  throw_if (not (has_passed newest)) StockFailure.inspection_required
  ok (record s { lots = set s.lots k (record lot { status = LotStatus.approved }) })
