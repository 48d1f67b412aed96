-- ===== src/Inventory/Replaced.antt =====
-- What superseding a transformation does to the batches (apps/api/src/batches/
-- transformations.service.ts).
use clycites_platform.Prelude.{
  ℕ, ◌+◌, ◌-◌, ◌≡◌, refl, ap, Bool, not, ◌&&◌, Option, none, some, List, ok, arith, ltb, get_elem?,
  set, Ensures, Ensures-throw_if, Ensures-or_throw, Ensures->>=, Ensures-ok, Ensures-weaken,
}
use clycites_platform.Yield.{loss_requires_reason}
use clycites_platform.Inventory.{
  Place, EntryType, taken, returned, TransformationRow, Stock, StockFailure,
}
use clycites_platform.Inventory.Ledger.{
  quantities, is_unique, sealed_batches, some_exceeds, draw_all,
}
use clycites_platform.Inventory.Transformations.{
  TransformationInput, output_total, is_compatible, check_produce, differs_from,
  record_transformation, reverse_outputs, reverse_inputs, superseded, supersede,
}
use clycites_platform.Inventory.Backed.{
  drawn, draw_all-Moves, put_outputs-Moves, reverse_inputs-Moves, Reverses,
  reverse_outputs-Reverses,
}

-- A stock behind draws, with nothing given back.
abbrev Draws : List (ℕ × ℕ) → Stock → Stock → Type 0
Draws items s after =
    (i : ℕ)
    → (taken (Place.batch i) after.ledger ≡ taken (Place.batch i) s.ledger + drawn i items)
      × (returned (Place.batch i) after.ledger ≡ returned (Place.batch i) s.ledger)

record_transformation-Draws :
    (form_active : ℕ → ℕ → Bool) (input : TransformationInput) (supersedes : Option ℕ) (version : ℕ)
    (s : Stock)
    → Ensures (Draws input.inputs s) (record_transformation form_active input supersedes version s)
unfolding record_transformation Ensures
record_transformation-Draws form_active input supersedes version s =
    let P = Draws input.inputs s in
    let total_input = quantities input.inputs in
    let total_output = output_total input.outputs in
    Ensures-throw_if P (not (is_unique input.inputs)) _ _ λ _.
      Ensures-or_throw P (sealed_batches s.batches input.inputs) StockFailure.invalid_batch_state _
        λ sources _. Ensures-throw_if P (not (is_compatible input.type sources)) _ _ λ _.
          Ensures-throw_if P (some_exceeds s input.inputs) _ _ λ _.
            Ensures-throw_if P (ltb total_input total_output) _ _ λ _.
              Ensures->>= P (check_produce form_active input sources) _ λ _ _.
                Ensures-throw_if P
                  (not input.has_loss_reason && loss_requires_reason total_input total_output) _ _
                  λ _.
                    Ensures-throw_if P
                      (differs_from (total_input - total_output) input.loss_quantity) _ _
                      λ _ i.
                        let drawn_stock =
                          draw_all EntryType.transformation_input none input.inputs s in
                        let draws =
                          draw_all-Moves EntryType.transformation_input none input.inputs s refl in
                        let puts = put_outputs-Moves input.outputs drawn_stock in
                        (
                          omega (arith, draws.takes i, puts.takes i),
                          omega (arith, draws.returns i, puts.returns i),
                        )

abbrev Replaces : TransformationRow → TransformationInput → Stock → Stock → Type 0
Replaces original replacement s after =
    (i : ℕ)
    → taken (Place.batch i) after.ledger
        + returned (Place.batch i) s.ledger
        + drawn i original.inputs
      ≡ taken (Place.batch i) s.ledger
        + returned (Place.batch i) after.ledger
        + drawn i replacement.inputs

supersede-Replaces :
    (form_active : ℕ → ℕ → Bool) (k : ℕ) (replacement : TransformationInput) (s : Stock)
    (original : TransformationRow)
    → get_elem? s.transformations k ≡ some original
    → Ensures (Replaces original replacement s) (supersede form_active k replacement s)
unfolding supersede
supersede-Replaces form_active k replacement s original found =
    let P = Replaces original replacement s in
    Ensures-or_throw P (get_elem? s.transformations k) StockFailure.not_found _ λ row found_row.
      Ensures-throw_if P row.is_superseded _ _ λ standing.
        Ensures->>= P (reverse_outputs row.outputs s) _ λ reversed done.
          let same : row ≡ original = cc in
          let r = Ensures-ok (Reverses s) _ (reverse_outputs-Reverses row.outputs s) done in
          let m = reverse_inputs-Moves row.inputs reversed in
          let returned_stock = reverse_inputs row.inputs reversed in
          let ready = record returned_stock {
            transformations = set returned_stock.transformations k (superseded row);
          } in
          Ensures-weaken (Draws replacement.inputs ready) P
            (record_transformation form_active replacement (some k) (row.version + 1) ready)
            (λ after draws i. omega (
              arith,
              (draws i).0,
              (draws i).1,
              m.takes i,
              m.returns i,
              r.moves.takes i,
              r.moves.returns i,
              ap (λ (t : TransformationRow). drawn i t.inputs) same,
            ))
            (record_transformation-Draws form_active replacement (some k) (row.version + 1) ready)

-- Superseding gives every batch back exactly what the original transformation drew from it, and
-- draws what the replacement asks for: what is allocated of the batch changes by the difference.
pub supersede-replaces_draws :
    (form_active : ℕ → ℕ → Bool) (k i : ℕ) (replacement : TransformationInput) (s : Stock)
    {original : TransformationRow} {after : Stock}
    → get_elem? s.transformations k ≡ some original
    → supersede form_active k replacement s ≡ ok after
    → taken (Place.batch i) after.ledger
        + returned (Place.batch i) s.ledger
        + drawn i original.inputs
      ≡ taken (Place.batch i) s.ledger
        + returned (Place.batch i) after.ledger
        + drawn i replacement.inputs
supersede-replaces_draws form_active k i replacement s {original} found e =
    Ensures-ok (Replaces original replacement s) _
      (supersede-Replaces form_active k replacement s original found) e i
