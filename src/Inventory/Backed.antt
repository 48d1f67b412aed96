-- ===== src/Inventory/Backed.antt =====
-- What is given back was taken (apps/api/src/batches/transformations.service.ts): how the ledger and
-- the transformations move together.
use clycites_platform.Prelude.{
  ℕ, ◌+◌, ◌≤◌, ◌≡◌, refl, false, not, ◌||◌, Option, none, List, [], ◌∷◌, ◌++◌, arith, ◌==◌,
  if◌then◌else◌, get_elem?, length, sum_by, Ensures, Ensures-throw_if, Ensures-or_throw,
  Ensures-weaken,
}
use clycites_platform.Inventory.{
  BatchStatus, Place, EntryType, taken, returned, is_reversal, TransformationRow, Stock,
  StockFailure, mark, is_sealed,
}
use clycites_platform.Inventory.Ledger.{draw_entry, draw, draw_all}
use clycites_platform.Inventory.Covered.{
  IsCovered, taken-snoc, returned-snoc, entered-IsCovered, initial-mark_if, initial-mark,
  initial-append,
}
use clycites_platform.Inventory.Transformations.{
  OutputInput, put_outputs, output_entry, reverse_outputs, reverse_inputs, is_consumed,
  output_batch,
}

abbrev pub drawn_by : ℕ → ℕ × ℕ → ℕ
drawn_by i item = if item.0 == i then item.1 else 0

-- What a list of draws takes from a batch.
unfoldable pub drawn : ℕ → List (ℕ × ℕ) → ℕ
drawn i = sum_by (drawn_by i)

abbrev pub live_by : ℕ → TransformationRow → ℕ
live_by i t = if t.is_superseded then 0 else drawn i t.inputs

-- What the transformations that stand took from a batch.
unfoldable pub live : ℕ → List TransformationRow → ℕ
unfolding drawn
live i = sum_by (live_by i)

-- What was given back and what live transformations hold was taken from the batch.
pub record IsBacked (s : Stock) : Type 0 where
  pub backed :
      (i : ℕ)
      → returned (Place.batch i) s.ledger + live i s.transformations
        ≤ taken (Place.batch i) s.ledger

-- The ledger of `after` against that of `s`: what more was taken and given back, batch by batch.
pub record Moves (more back : ℕ → ℕ) (s after : Stock) : Type 0 where
  pub takes : (i : ℕ) → taken (Place.batch i) after.ledger ≡ taken (Place.batch i) s.ledger + more i
  pub returns :
      (i : ℕ) → returned (Place.batch i) after.ledger ≡ returned (Place.batch i) s.ledger + back i
  pub same_transformations : after.transformations ≡ s.transformations

abbrev pub nothing : ℕ → ℕ
nothing i = 0

pub draw_all-Moves :
    (type : EntryType) (destination : Option Place) (items : List (ℕ × ℕ)) (s : Stock)
    → is_reversal type ≡ false
    → Moves (λ i. drawn i items) nothing s (draw_all type destination items s)
unfolding draw_all drawn draw
draw_all-Moves type destination [] s h = record {
  takes = λ i. omega arith;
  returns = λ i. omega arith;
  same_transformations = refl;
}
draw_all-Moves type destination ((j, quantity) ∷ rest) s h =
    let e = draw_entry type destination j quantity in
    let m = draw_all-Moves type destination rest (draw type destination (j, quantity) s) h in
    record {
      takes = λ i.
          let here = taken-snoc (Place.batch i) s.ledger e in let there = m.takes i in ground arith;
      returns = λ i.
          let here = returned-snoc (Place.batch i) s.ledger e in
          let there = m.returns i in ground arith;
      same_transformations = m.same_transformations;
    }

pub put_outputs-Moves :
    (outputs : List OutputInput) (s : Stock) → Moves nothing nothing s (put_outputs outputs s)
unfolding put_outputs
put_outputs-Moves [] s = record {
  takes = λ i. omega arith;
  returns = λ i. omega arith;
  same_transformations = refl;
}
put_outputs-Moves (o ∷ os) s =
    let e = output_entry EntryType.transformation_output (length s.batches) o.quantity in
    let m = put_outputs-Moves os _ in
    record {
      takes = λ i. omega (arith, m.takes i, taken-snoc (Place.batch i) s.ledger e);
      returns = λ i. omega (arith, m.returns i, returned-snoc (Place.batch i) s.ledger e);
      same_transformations = m.same_transformations;
    }

pub reverse_inputs-Moves :
    (items : List (ℕ × ℕ)) (s : Stock)
    → Moves nothing (λ i. drawn i items) s (reverse_inputs items s)
unfolding reverse_inputs drawn
reverse_inputs-Moves [] s = record {
  takes = λ i. omega arith;
  returns = λ i. omega arith;
  same_transformations = refl;
}
reverse_inputs-Moves ((j, quantity) ∷ rest) s =
    let e = draw_entry EntryType.transformation_input_reversal none j quantity in
    let m = reverse_inputs-Moves rest _ in
    record {
      takes = λ i.
          let here = taken-snoc (Place.batch i) s.ledger e in let there = m.takes i in ground arith;
      returns = λ i.
          let here = returned-snoc (Place.batch i) s.ledger e in
          let there = m.returns i in ground arith;
      same_transformations = m.same_transformations;
    }

pub reverse_inputs-IsCovered :
    (items : List (ℕ × ℕ)) (s : Stock) → IsCovered s → IsCovered (reverse_inputs items s)
unfolding reverse_inputs
reverse_inputs-IsCovered [] s c = c
reverse_inputs-IsCovered ((j, quantity) ∷ rest) s c = reverse_inputs-IsCovered rest _ (
    entered-IsCovered s (draw_entry EntryType.transformation_input_reversal none j quantity) _ c
      (λ k. omega (
        arith,
        initial-mark_if (is_consumed (get_elem? s.batches j)) BatchStatus.sealed s.batches j k,
      ))
      (λ p. let before = c.covered p in ground arith))

pub put_outputs-IsCovered :
    (outputs : List OutputInput) (s : Stock) → IsCovered s → IsCovered (put_outputs outputs s)
unfolding put_outputs
put_outputs-IsCovered [] s c = c
put_outputs-IsCovered (o ∷ os) s c = put_outputs-IsCovered os _ (
    entered-IsCovered s _ _ c (initial-append s.batches (output_batch o))
      (λ p. let before = c.covered p in omega arith))

-- A reversal of outputs that goes through.
pub record Reverses (s after : Stock) : Type 0 where
  pub moves : Moves nothing nothing s after
  pub stays_covered : IsCovered s → IsCovered after

reversed_first :
    (s : Stock) (j quantity : ℕ) (after : Stock)
    → Reverses
        (record s {
          ledger =
              s.ledger ++ output_entry EntryType.transformation_output_reversal j quantity ∷ [];
          batches = mark BatchStatus.cancelled s.batches j;
        })
        after
    → Reverses s after
reversed_first s j quantity after r =
    let e = output_entry EntryType.transformation_output_reversal j quantity in
    let m = r.moves in
    record {
      moves = record {
        takes = λ i. omega (arith, m.takes i, taken-snoc (Place.batch i) s.ledger e);
        returns = λ i. omega (arith, m.returns i, returned-snoc (Place.batch i) s.ledger e);
        same_transformations = m.same_transformations;
      };
      stays_covered = λ c. r.stays_covered (
          entered-IsCovered s e _ c
            (λ k. omega (arith, initial-mark BatchStatus.cancelled s.batches j k))
            (λ p. let before = c.covered p in omega arith));
    }

pub reverse_outputs-Reverses :
    (items : List (ℕ × ℕ)) (s : Stock) → Ensures (Reverses s) (reverse_outputs items s)
unfolding reverse_outputs Ensures
reverse_outputs-Reverses [] s = record {
  moves = record {
    takes = λ i. omega arith;
    returns = λ i. omega arith;
    same_transformations = refl;
  };
  stays_covered = λ c. c;
}
reverse_outputs-Reverses ((j, quantity) ∷ rest) s =
    Ensures-or_throw (Reverses s) (get_elem? s.batches j) StockFailure.not_found _ λ b _.
      Ensures-throw_if (Reverses s)
        (not (taken (Place.batch j) s.ledger == returned (Place.batch j) s.ledger)
          || not (is_sealed b.status))
        _ _
        λ _.
          let next = record s {
            ledger =
                s.ledger ++ output_entry EntryType.transformation_output_reversal j quantity ∷ [];
            batches = mark BatchStatus.cancelled s.batches j;
          } in
          Ensures-weaken (Reverses next) (Reverses s) (reverse_outputs rest next)
            (reversed_first s j quantity) (reverse_outputs-Reverses rest next)
