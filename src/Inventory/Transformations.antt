-- ===== src/Inventory/Transformations.antt =====
-- Splits, merges and transformations of batches (apps/api/src/batches/transformations.service.ts):
-- `record`, which `create` calls, and `supersede`. What a yield is assessed as, which instruments
-- weighed and to whom the produce is attributed are the matter of Yield, Deliveries and Attribution.
use clycites_platform.Prelude.{
  ℕ, suc, ◌+◌, ◌-◌, Bool, true, false, not, ◌&&◌, ◌||◌, Option, none, some, List, [], ◌∷◌, ◌++◌,
  Result, ok, ◌>>=◌, ◌>>◌, throw_if, or_throw, ltb, ◌==◌, if◌then◌else◌, length, get_elem?, set,
  sum_by,
}
use clycites_platform.Yield.{loss_requires_reason}
use clycites_platform.Inventory.{
  Batch, BatchStatus, Place, EntryType, Entry, taken, returned, mark, is_sealed, TransformationRow,
  Stock, StockFailure,
}
use clycites_platform.Inventory.Ledger.{
  is_unique, sealed_batches, quantities, some_exceeds, draw_entry, draw_all,
}

pub data OperationType : Type 0 where
  aggregation split merge transformation : OperationType

pub record OutputInput : Type 0 where
  pub commodity : ℕ
  pub form : ℕ
  pub quantity : ℕ

pub record TransformationInput : Type 0 where
  pub type : OperationType
  -- the batches to draw from, with quantities
  pub inputs : List (ℕ × ℕ)
  pub outputs : List OutputInput
  pub has_loss_reason : Bool
  pub loss_quantity : Option ℕ

abbrev pub is_transformation : OperationType → Bool
is_transformation OperationType.transformation = true
is_transformation _ = false

abbrev pub all_of : (Batch → Bool) → List Batch → Bool
all_of test [] = true
all_of test (b ∷ bs) = test b && all_of test bs

abbrev pub any_output : (OutputInput → Bool) → List OutputInput → Bool
any_output test [] = false
any_output test (o ∷ os) = test o || any_output test os

abbrev pub output_entry : EntryType → ℕ → ℕ → Entry
output_entry type i quantity = record {
  type = type;
  source = none;
  destination = some (Place.batch i);
  quantity = quantity;
}

abbrev pub output_batch : OutputInput → Batch
output_batch o = record {
  commodity = o.commodity;
  form = o.form;
  status = BatchStatus.sealed;
  initial_quantity = o.quantity;
}

unfoldable pub put_outputs : List OutputInput → Stock → Stock
put_outputs [] s = s
put_outputs (o ∷ os) s = put_outputs os (record s {
  batches = s.batches ++ output_batch o ∷ [];
  ledger =
      s.ledger ++ output_entry EntryType.transformation_output (length s.batches) o.quantity ∷ [];
})

-- The new batches behind the old ones, with their quantities.
abbrev pub numbered : ℕ → List OutputInput → List (ℕ × ℕ)
numbered next [] = []
numbered next (o ∷ os) = (next, o.quantity) ∷ numbered (suc next) os

abbrev pub output_total : List OutputInput → ℕ
output_total = sum_by (λ (o : OutputInput). o.quantity)

abbrev pub differs_from : ℕ → Option ℕ → Bool
differs_from loss none = false
differs_from loss (some declared) = not (declared == loss)

-- The checks on the commodities and forms. `form_active` says which forms of a commodity are active.
unfoldable pub check_produce :
    (ℕ → ℕ → Bool) → TransformationInput → List Batch → Result StockFailure (Unit {0})
check_produce form_active input [] = throw_if true StockFailure.commodity_mismatch
check_produce form_active input (first ∷ rest) = do
  throw_if (any_output (λ o. not (o.commodity == first.commodity)) input.outputs)
      StockFailure.commodity_mismatch
  throw_if
      (not (is_transformation input.type)
        && any_output (λ o. not (o.form == first.form)) input.outputs)
      StockFailure.commodity_mismatch
  throw_if (any_output (λ o. not (form_active first.commodity o.form)) input.outputs)
      StockFailure.inactive_form

-- The inputs are of one commodity, and of one form unless they are transformed.
unfoldable pub is_compatible : OperationType → List Batch → Bool
is_compatible type [] = false
is_compatible type (first ∷ rest) =
    all_of (λ b. b.commodity == first.commodity) rest
    && (is_transformation type || all_of (λ b. b.form == first.form) rest)

abbrev pub recorded : TransformationInput → Option ℕ → ℕ → Stock → Stock
recorded input supersedes version s =
    let moved =
      put_outputs input.outputs (draw_all EntryType.transformation_input none input.inputs s) in
    record moved {
      transformations =
          moved.transformations
          ++ record {
            inputs = input.inputs;
            outputs = numbered (length s.batches) input.outputs;
            loss_quantity = quantities input.inputs - output_total input.outputs;
            is_superseded = false;
            version = version;
            supersedes = supersedes;
          }
            ∷ [];
    }

unfoldable pub record_transformation :
    (ℕ → ℕ → Bool) → TransformationInput → Option ℕ → ℕ → Stock → Result StockFailure Stock
unfolding is_unique sealed_batches some_exceeds check_produce is_compatible draw_all put_outputs
record_transformation form_active input supersedes version s = do
  throw_if (not (is_unique input.inputs)) StockFailure.not_unique
  sources ← or_throw (sealed_batches s.batches input.inputs) StockFailure.invalid_batch_state
  throw_if (not (is_compatible input.type sources)) StockFailure.commodity_mismatch
  throw_if (some_exceeds s input.inputs) StockFailure.insufficient_available_quantity
  let total_input = quantities input.inputs
  let total_output = output_total input.outputs
  throw_if (ltb total_input total_output) StockFailure.mass_gain
  check_produce form_active input sources
  throw_if (not input.has_loss_reason && loss_requires_reason total_input total_output)
      StockFailure.loss_reason_required
  throw_if (differs_from (total_input - total_output) input.loss_quantity)
      StockFailure.loss_quantity_mismatch
  ok (recorded input supersedes version s)

-- The reversal of one output: only of a batch that nothing was drawn from.
unfoldable pub reverse_outputs : List (ℕ × ℕ) → Stock → Result StockFailure Stock
unfolding taken returned
reverse_outputs [] s = ok s
reverse_outputs ((i, quantity) ∷ rest) s = do
  b ← or_throw (get_elem? s.batches i) StockFailure.not_found
  throw_if
      (not (taken (Place.batch i) s.ledger == returned (Place.batch i) s.ledger)
        || not (is_sealed b.status))
      StockFailure.output_not_reversible
  reverse_outputs rest (record s {
    ledger = s.ledger ++ output_entry EntryType.transformation_output_reversal i quantity ∷ [];
    batches = mark BatchStatus.cancelled s.batches i;
  })

abbrev is_consumed_status : BatchStatus → Bool
is_consumed_status BatchStatus.consumed = true
is_consumed_status _ = false

abbrev pub is_consumed : Option Batch → Bool
is_consumed none = false
is_consumed (some b) = is_consumed_status b.status

unfoldable pub reverse_inputs : List (ℕ × ℕ) → Stock → Stock
reverse_inputs [] s = s
reverse_inputs ((i, quantity) ∷ rest) s = reverse_inputs rest (record s {
  ledger = s.ledger ++ draw_entry EntryType.transformation_input_reversal none i quantity ∷ [];
  batches =
      if is_consumed (get_elem? s.batches i)
      then mark BatchStatus.sealed s.batches i
      else s.batches;
})

abbrev pub superseded : TransformationRow → TransformationRow
superseded t = record t { is_superseded = true }

unfoldable pub supersede :
    (ℕ → ℕ → Bool) → ℕ → TransformationInput → Stock → Result StockFailure Stock
unfolding reverse_outputs reverse_inputs record_transformation
supersede form_active k replacement s = do
  original ← or_throw (get_elem? s.transformations k) StockFailure.not_found
  throw_if original.is_superseded StockFailure.already_superseded
  reversed ← reverse_outputs original.outputs s
  let returned_stock = reverse_inputs original.inputs reversed
  record_transformation form_active replacement (some k) (original.version + 1)
      (record returned_stock {
        transformations = set returned_stock.transformations k (superseded original);
      })
