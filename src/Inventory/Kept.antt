-- ===== src/Inventory/Kept.antt =====
-- What transformations and their replacements keep of the stock
-- (apps/api/src/batches/transformations.service.ts).
use clycites_platform.Prelude.{
  ℕ, suc, ◌+◌, ◌-◌, ◌≤◌, ◌≡◌, refl, ap, ◌∙◌, Bool, true, false, not, ◌&&◌, Option, none, some, List,
  [], ◌∷◌, ◌++◌, arith, get_elem?, length, set, sum_by-append, sum_by-set, All, All-append, All-set,
  All-get_elem?, Ensures, Ensures-throw_if, Ensures-or_throw, Ensures->>=, Ensures-ok, ltb,
}
use mathlib.Core.Path.{subst⁻¹}
use clycites_platform.Yield.{loss_requires_reason}
use clycites_platform.Inventory.{EntryType, TransformationRow, Stock, StockFailure}
use clycites_platform.Inventory.Ledger.{
  quantities, is_unique, sealed_batches, some_exceeds, draw_all,
}
use clycites_platform.Inventory.Transformations.{
  TransformationInput, OutputInput, output_total, is_compatible, check_produce, differs_from,
  recorded, record_transformation, numbered, reverse_outputs, reverse_inputs, superseded, supersede,
}
use clycites_platform.Inventory.Covered.{IsCovered}
use clycites_platform.Inventory.Draws.{draw_all-IsCovered}
use clycites_platform.Inventory.Backed.{
  drawn, live, live_by, IsBacked, draw_all-Moves, put_outputs-Moves, put_outputs-IsCovered,
  reverse_inputs-Moves, reverse_inputs-IsCovered, Reverses, reverse_outputs-Reverses,
}

-- What a transformation drew is what it made and lost.
abbrev pub IsBalanced : TransformationRow → Type 0
IsBalanced t = quantities t.inputs ≡ quantities t.outputs + t.loss_quantity

-- Nothing is overdrawn, and nothing is given back that was not taken.
pub record IsKept (s : Stock) : Type 0 where
  pub covers : IsCovered s
  pub backs : IsBacked s
  pub balances : All IsBalanced s.transformations

live-snoc :
    (i : ℕ) (ts : List TransformationRow) (t : TransformationRow)
    → live i (ts ++ t ∷ []) ≡ live i ts + live_by i t
unfolding live
live-snoc i ts t = sum_by-append (live_by i) ts (t ∷ []) ∙ (omega arith)

quantities-numbered :
    (os : List OutputInput) (next : ℕ) → quantities (numbered next os) ≡ output_total os
quantities-numbered [] next = refl
quantities-numbered (o ∷ os) next = omega (arith, quantities-numbered os (suc next))

recorded-IsKept :
    (input : TransformationInput) (supersedes : Option ℕ) (version : ℕ) (s : Stock)
    → is_unique input.inputs ≡ true
    → some_exceeds s input.inputs ≡ false
    → output_total input.outputs ≤ quantities input.inputs
    → IsKept s
    → IsKept (recorded input supersedes version s)
unfolding live
recorded-IsKept input supersedes version s unique fits within k =
    let drawn_stock = draw_all EntryType.transformation_input none input.inputs s in
    let draws = draw_all-Moves EntryType.transformation_input none input.inputs s refl in
    let puts = put_outputs-Moves input.outputs drawn_stock in
    let same = puts.same_transformations ∙ draws.same_transformations in
    let covered = put_outputs-IsCovered input.outputs drawn_stock (
      draw_all-IsCovered EntryType.transformation_input none input.inputs s unique fits k.covers) in
    record {
      covers = record { covered = covered.covered };
      backs = record {
        backed = λ i. omega (
          arith,
          puts.takes i,
          puts.returns i,
          draws.takes i,
          draws.returns i,
          live-snoc i _ _,
          ap (live i) same,
          k.backs.backed i,
        );
      };
      balances =
          All-append IsBalanced _ _ (subst⁻¹ (All IsBalanced) same k.balances)
            (omega (arith, quantities-numbered input.outputs (length s.batches)), tt);
    }

pub record_transformation-IsKept :
    (form_active : ℕ → ℕ → Bool) (input : TransformationInput) (supersedes : Option ℕ) (version : ℕ)
    (s : Stock)
    → IsKept s
    → Ensures IsKept (record_transformation form_active input supersedes version s)
unfolding record_transformation Ensures
record_transformation-IsKept form_active input supersedes version s k =
    let total_input = quantities input.inputs in
    let total_output = output_total input.outputs in
    Ensures-throw_if IsKept (not (is_unique input.inputs)) _ _ λ repeated.
      Ensures-or_throw IsKept (sealed_batches s.batches input.inputs)
        StockFailure.invalid_batch_state _
        λ sources _. Ensures-throw_if IsKept (not (is_compatible input.type sources)) _ _ λ _.
          Ensures-throw_if IsKept (some_exceeds s input.inputs) _ _ λ fits.
            Ensures-throw_if IsKept (ltb total_input total_output) _ _ λ within.
              Ensures->>= IsKept (check_produce form_active input sources) _ λ _ _.
                Ensures-throw_if IsKept
                  (not input.has_loss_reason && loss_requires_reason total_input total_output) _ _
                  λ _.
                    Ensures-throw_if IsKept
                      (differs_from (total_input - total_output) input.loss_quantity) _ _
                      λ _.
                        recorded-IsKept input supersedes version s (ground arith) fits
                          (ground arith) k

-- The stock behind the reversal of a transformation, which no longer stands.
reversed-IsKept :
    (k : ℕ) (original : TransformationRow) (s reversed : Stock)
    → get_elem? s.transformations k ≡ some original
    → original.is_superseded ≡ false
    → IsKept s
    → Reverses s reversed
    → IsKept (record (reverse_inputs original.inputs reversed) {
      transformations =
          set (reverse_inputs original.inputs reversed).transformations k (superseded original);
    })
unfolding live
reversed-IsKept k original s reversed found standing kept r =
    let after = reverse_inputs original.inputs reversed in
    let m = reverse_inputs-Moves original.inputs reversed in
    let c = reverse_inputs-IsCovered original.inputs reversed (r.stays_covered kept.covers) in
    let same = m.same_transformations ∙ r.moves.same_transformations in
    record {
      covers = record { covered = c.covered };
      backs = record {
        backed = λ i.
            let removed =
              sum_by-set (live_by i) s.transformations k original (superseded original) found in
            let held : live_by i original ≡ drawn i original.inputs = rw standing refl in
            omega (
              arith,
              m.takes i,
              m.returns i,
              r.moves.takes i,
              r.moves.returns i,
              ap (λ (ts : List TransformationRow). live i (set ts k (superseded original))) same,
              removed,
              held,
              kept.backs.backed i,
            );
      };
      balances =
          subst⁻¹ (λ ts. All IsBalanced (set ts k (superseded original))) same
            (All-set IsBalanced s.transformations k (superseded original) kept.balances
              (All-get_elem? IsBalanced s.transformations k original kept.balances found));
    }

pub supersede-IsKept :
    (form_active : ℕ → ℕ → Bool) (k : ℕ) (replacement : TransformationInput) (s : Stock)
    → IsKept s
    → Ensures IsKept (supersede form_active k replacement s)
unfolding supersede
supersede-IsKept form_active k replacement s kept =
    Ensures-or_throw IsKept (get_elem? s.transformations k) StockFailure.not_found _
      λ original found. Ensures-throw_if IsKept original.is_superseded _ _ λ standing.
        Ensures->>= IsKept (reverse_outputs original.outputs s) _ λ reversed done.
          record_transformation-IsKept form_active replacement (some k) (original.version + 1) _ (
            reversed-IsKept k original s reversed found standing kept
              (Ensures-ok (Reverses s) _ (reverse_outputs-Reverses original.outputs s) done))
