-- ===== src/Inventory/Ledger.antt =====
-- Drawing from batches, as transformations (apps/api/src/batches/transformations.service.ts) and lots
-- (apps/api/src/lots/lots.service.ts) do: the checks on the batches, the entries, and the batches
-- that are consumed by them.
use clycites_platform.Prelude.{
  ℕ, Bool, true, false, not, ◌&&◌, ◌||◌, Option, none, some, List, [], ◌∷◌, ◌++◌, ◌==◌,
  if◌then◌else◌, get_elem?, sum_by,
}
use clycites_platform.Inventory.{
  Batch, BatchStatus, Place, EntryType, Entry, taken, returned, exceeds, is_exhausted, mark,
  is_sealed, Stock,
}

abbrev pub draws_from : ℕ → List (ℕ × ℕ) → Bool
draws_from i [] = false
draws_from i ((j, quantity) ∷ rest) = i == j || draws_from i rest

unfoldable pub is_unique : List (ℕ × ℕ) → Bool
is_unique [] = true
is_unique ((i, quantity) ∷ rest) = not (draws_from i rest) && is_unique rest

-- The rows of the batches drawn from, each of them sealed.
unfoldable pub sealed_batches : List Batch → List (ℕ × ℕ) → Option (List Batch)
sealed_batches batches [] = some []
sealed_batches batches ((i, quantity) ∷ rest) = elim (get_elem? batches i) [
  | none ↦ none
  | some b ↦ elim (sealed_batches batches rest) [
    | none ↦ none
    | some bs ↦ if is_sealed b.status then some (b ∷ bs) else none
  ]
]

abbrev pub quantities : List (ℕ × ℕ) → ℕ
quantities = sum_by (λ (item : ℕ × ℕ). item.1)

abbrev pub initial_of : Option Batch → ℕ
initial_of none = 0
initial_of (some b) = b.initial_quantity

-- The loop that checks each input against what its batch has.
unfoldable pub some_exceeds : Stock → List (ℕ × ℕ) → Bool
unfolding taken returned
some_exceeds s [] = false
some_exceeds s ((i, requested) ∷ rest) =
    exceeds requested (initial_of (get_elem? s.batches i)) (Place.batch i) s.ledger
    || some_exceeds s rest

abbrev pub draw_entry : EntryType → Option Place → ℕ → ℕ → Entry
draw_entry type destination i quantity = record {
  type = type;
  source = some (Place.batch i);
  destination = destination;
  quantity = quantity;
}

-- One batch: the entry, and the batch consumed if nothing remains.
unfoldable pub draw : EntryType → Option Place → ℕ × ℕ → Stock → Stock
unfolding taken returned
draw type destination (i, quantity) s =
    let ledger = s.ledger ++ draw_entry type destination i quantity ∷ [] in
    record s {
      ledger = ledger;
      batches =
          if is_exhausted (initial_of (get_elem? s.batches i)) (Place.batch i) ledger
          then mark BatchStatus.consumed s.batches i
          else s.batches;
    }

unfoldable pub draw_all : EntryType → Option Place → List (ℕ × ℕ) → Stock → Stock
unfolding draw
draw_all type destination [] s = s
draw_all type destination (item ∷ rest) s =
    draw_all type destination rest (draw type destination item s)
