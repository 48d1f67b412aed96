-- ===== src/Inventory.antt =====
-- What is in stock (apps/api/src/batches/batches.service.ts): deliveries, batches and the ledger
-- of what was drawn from them, `allocatedQuantity`, `batchAvailability`, `create`, `contribute` and
-- `seal`. Rows are named by their places in the lists, quantities are in units of 1/10000. Whose
-- produce a batch holds is the matter of Attribution.
pub mod Ledger
pub mod Transformations
pub mod Lots
pub mod Covered
pub mod Draws
pub mod Backed
pub mod Kept
pub mod Contributed
pub mod Sequences
pub mod Replaced
mod Tests
use clycites_platform.Prelude.{
  ℕ, zero, suc, ◌+◌, Bool, true, false, not, ◌&&◌, ◌||◌, Option, none, some, List, [], ◌∷◌, ◌++◌,
  Result, ok, ◌>>=◌, ◌>>◌, throw_if, or_throw, ltb, ◌==◌, if◌then◌else◌, get_elem?, sum_by,
}

pub data BatchStatus : Type 0 where
  draft open_batch sealed consumed cancelled : BatchStatus

pub record Batch : Type 0 where
  pub commodity : ℕ
  pub form : ℕ
  pub status : BatchStatus
  pub initial_quantity : ℕ

pub record Delivery : Type 0 where
  pub commodity : ℕ
  pub form : ℕ
  -- accepted and not superseded
  pub is_current : Bool
  pub net_quantity : Option ℕ

pub data Place : Type 0 where
  delivery batch lot : ℕ → Place

pub data EntryType : Type 0 where
  delivery_contribution transformation_input transformation_output lot_allocation : EntryType
  transformation_input_reversal transformation_output_reversal : EntryType

pub record Entry : Type 0 where
  pub type : EntryType
  pub source : Option Place
  pub destination : Option Place
  pub quantity : ℕ

abbrev pub place_eq : Place → Place → Bool
place_eq (Place.delivery i) (Place.delivery j) = i == j
place_eq (Place.batch i) (Place.batch j) = i == j
place_eq (Place.lot i) (Place.lot j) = i == j
place_eq _ _ = false

abbrev pub is_from : Place → Option Place → Bool
is_from p none = false
is_from p (some q) = place_eq q p

abbrev pub is_reversal : EntryType → Bool
is_reversal EntryType.transformation_input_reversal = true
is_reversal _ = false

-- The two sides of `allocatedQuantity`: what was taken from a place, and what was given back.
abbrev pub taken_by : Place → Entry → ℕ
taken_by p e = if is_from p e.source && not (is_reversal e.type) then e.quantity else 0

abbrev pub returned_by : Place → Entry → ℕ
returned_by p e = if is_from p e.source && is_reversal e.type then e.quantity else 0

unfoldable pub taken : Place → List Entry → ℕ
taken p = sum_by (taken_by p)

unfoldable pub returned : Place → List Entry → ℕ
returned p = sum_by (returned_by p)

pub record TransformationRow : Type 0 where
  -- the batches drawn from and the batches made, with their quantities
  pub inputs : List (ℕ × ℕ)
  pub outputs : List (ℕ × ℕ)
  pub loss_quantity : ℕ
  pub is_superseded : Bool
  pub version : ℕ
  pub supersedes : Option ℕ

pub data LotStatus : Type 0 where
  draft ready approved closed cancelled : LotStatus

pub record LotRow : Type 0 where
  pub commodity : ℕ
  pub form : ℕ
  pub status : LotStatus
  pub quantity : ℕ
  pub contributions : List (ℕ × ℕ)

pub record Stock : Type 0 where
  pub deliveries : List Delivery
  pub batches : List Batch
  pub ledger : List Entry
  pub transformations : List TransformationRow
  pub lots : List LotRow

pub data StockFailure : Type 0 where
  not_found source_not_accepted invalid_batch_state commodity_mismatch no_weight : StockFailure
  insufficient_available_quantity not_unique mass_gain inactive_form loss_reason_required :
      StockFailure
  loss_quantity_mismatch already_superseded output_not_reversible location_not_found : StockFailure
  invalid_lot_state inspection_required : StockFailure

-- `requested > total - allocated`, in integers.
abbrev pub exceeds : ℕ → ℕ → Place → List Entry → Bool
exceeds requested total p ledger = ltb (total + returned p ledger) (requested + taken p ledger)

-- `available === 0n`
abbrev pub is_exhausted : ℕ → Place → List Entry → Bool
is_exhausted total p ledger = (total + returned p ledger) == taken p ledger

-- The batch at a place with another status.
abbrev pub mark : BatchStatus → List Batch → ℕ → List Batch
mark status [] i = []
mark status (b ∷ bs) zero = record b { status = status } ∷ bs
mark status (b ∷ bs) (suc i) = b ∷ mark status bs i

-- `{ initialQuantity: { increment } }`
abbrev pub increment : ℕ → List Batch → ℕ → List Batch
increment quantity [] i = []
increment quantity (b ∷ bs) zero =
    record b { initial_quantity = b.initial_quantity + quantity } ∷ bs
increment quantity (b ∷ bs) (suc i) = b ∷ increment quantity bs i

abbrev pub is_open : BatchStatus → Bool
is_open BatchStatus.open_batch = true
is_open _ = false

abbrev pub is_sealed : BatchStatus → Bool
is_sealed BatchStatus.sealed = true
is_sealed _ = false

abbrev pub is_missing : Option Bool → Bool
is_missing (some false) = true
is_missing _ = false

abbrev pub new_batch : ℕ → ℕ → Batch
new_batch commodity form = record {
  commodity = commodity;
  form = form;
  status = BatchStatus.open_batch;
  initial_quantity = 0;
}

-- `validateConfiguration`. `location` says of a storage location that is given whether it is an
-- active one of the organization.
abbrev pub validate_configuration :
    (ℕ → ℕ → Bool) → ℕ → ℕ → Option Bool → Result StockFailure (Unit {0})
validate_configuration form_active commodity form location =
    throw_if (not (form_active commodity form)) StockFailure.inactive_form
    >> throw_if (is_missing location) StockFailure.location_not_found

unfoldable pub create_batch :
    (ℕ → ℕ → Bool) → ℕ → ℕ → Option Bool → Stock → Result StockFailure Stock
create_batch form_active commodity form location s =
    validate_configuration form_active commodity form location
    >> ok (record s { batches = s.batches ++ new_batch commodity form ∷ [] })

abbrev pub same_produce : Delivery → Batch → Bool
same_produce d b = d.commodity == b.commodity && d.form == b.form

abbrev pub contribution_entry : ℕ → ℕ → ℕ → Entry
contribution_entry i j quantity = record {
  type = EntryType.delivery_contribution;
  source = some (Place.delivery i);
  destination = some (Place.batch j);
  quantity = quantity;
}

-- A contribution of delivery `i` to batch `j`.
unfoldable pub contribute : ℕ → ℕ → ℕ → Stock → Result StockFailure Stock
unfolding taken returned
contribute i j requested s = do
  d ← or_throw (get_elem? s.deliveries i) StockFailure.source_not_accepted
  throw_if (not d.is_current) StockFailure.source_not_accepted
  b ← or_throw (get_elem? s.batches j) StockFailure.invalid_batch_state
  throw_if (not (is_open b.status)) StockFailure.invalid_batch_state
  throw_if (not (same_produce d b)) StockFailure.commodity_mismatch
  total ← or_throw d.net_quantity StockFailure.no_weight
  throw_if (exceeds requested total (Place.delivery i) s.ledger)
      StockFailure.insufficient_available_quantity
  ok (record s {
    ledger = s.ledger ++ contribution_entry i j requested ∷ [];
    batches = increment requested s.batches j;
  })

unfoldable pub seal : ℕ → Stock → Result StockFailure Stock
seal j s = do
  b ← or_throw (get_elem? s.batches j) StockFailure.invalid_batch_state
  throw_if (not (is_open b.status) || b.initial_quantity == 0) StockFailure.invalid_batch_state
  ok (record s { batches = mark BatchStatus.sealed s.batches j })
