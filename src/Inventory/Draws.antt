-- ===== src/Inventory/Draws.antt =====
-- Draws within what the batches have overdraw nothing (apps/api/src/batches/transformations.service.ts,
-- apps/api/src/lots/lots.service.ts).
use clycites_platform.Prelude.{
  ℕ, ◌+◌, ◌≤◌, ◌≡◌, refl, ap, Bool, true, false, ◌||◌, Bool-cases, inl, inr, Option, List, [], ◌∷◌,
  ◌++◌, arith, ◌==◌, get_elem?, ltb,
}
use clycites_platform.Inventory.{
  BatchStatus, Place, EntryType, taken_by, returned_by, taken, returned, exceeds, is_exhausted,
  Stock,
}
use clycites_platform.Inventory.Ledger.{
  initial_of, is_unique, draws_from, some_exceeds, draw_entry, draw, draw_all,
}
use clycites_platform.Inventory.Covered.{
  IsCovered, total_of, taken-snoc, returned-snoc, entered-IsCovered, initial-mark_if,
}

-- What a draw within bounds needs of the place that it is from, and of every other.
draw_fits :
    (s : Stock) (type : EntryType) (destination : Option Place) (i quantity : ℕ)
    → IsCovered s
    → exceeds quantity (initial_of (get_elem? s.batches i)) (Place.batch i) s.ledger ≡ false
    → (p : Place)
    → taken p s.ledger + taken_by p (draw_entry type destination i quantity)
      ≤ total_of s.deliveries s.batches p
        + returned p s.ledger
        + returned_by p (draw_entry type destination i quantity)
draw_fits s type destination i quantity c h (Place.delivery j) =
    omega (arith, c.covered (Place.delivery j))
draw_fits s type destination i quantity c h (Place.lot j) = omega (arith, c.covered (Place.lot j))
draw_fits s type destination i quantity c h (Place.batch j) = elim (Bool-cases (i == j)) [
  | inl e ↦
      let same : i ≡ j = ground arith in
      let same_taken = ap (λ k. taken (Place.batch k) s.ledger) same in
      let same_returned = ap (λ k. returned (Place.batch k) s.ledger) same in
      let same_total = ap (λ k. initial_of (get_elem? s.batches k)) same in ground arith
  | inr e ↦ let before = c.covered (Place.batch j) in ground arith
]

ltb-le : (a b : ℕ) → ltb a b ≡ false → b ≤ a
ltb-le a b h = ground arith

le-ltb : (a b : ℕ) → b ≤ a → ltb a b ≡ false
le-ltb a b h = ground arith

or_left : (a b : Bool) → (a || b) ≡ false → a ≡ false
or_left a b h = ground arith

or_right : (a b : Bool) → (a || b) ≡ false → b ≡ false
or_right a b h = ground arith

-- The test whether nothing remains behind a draw.
exhausts : Stock → EntryType → Option Place → ℕ → ℕ → Bool
exhausts s type destination i quantity =
    is_exhausted (initial_of (get_elem? s.batches i)) (Place.batch i)
      (s.ledger ++ draw_entry type destination i quantity ∷ [])

draw-IsCovered :
    (s : Stock) (type : EntryType) (destination : Option Place) (i quantity : ℕ)
    → IsCovered s
    → exceeds quantity (initial_of (get_elem? s.batches i)) (Place.batch i) s.ledger ≡ false
    → IsCovered (draw type destination (i, quantity) s)
unfolding draw exhausts
draw-IsCovered s type destination i quantity c h =
    entered-IsCovered s (draw_entry type destination i quantity) _ c
      (λ j. omega (
        arith,
        initial-mark_if (exhausts s type destination i quantity) BatchStatus.consumed s.batches i j,
      ))
      (draw_fits s type destination i quantity c h)

-- A draw from one batch leaves what another has.
exceeds-draw :
    (s : Stock) (type : EntryType) (destination : Option Place) (i quantity j requested : ℕ)
    → (i == j) ≡ false
    → exceeds requested (initial_of (get_elem? s.batches j)) (Place.batch j) s.ledger ≡ false
    → exceeds requested
        (initial_of (get_elem? (draw type destination (i, quantity) s).batches j))
        (Place.batch j)
        (draw type destination (i, quantity) s).ledger
      ≡ false
unfolding draw exhausts
exceeds-draw s type destination i quantity j requested other h =
    let e = draw_entry type destination i quantity in
    let kept =
      initial-mark_if (exhausts s type destination i quantity) BatchStatus.consumed s.batches i j in
    let same_taken = taken-snoc (Place.batch j) s.ledger e in
    let same_returned = returned-snoc (Place.batch j) s.ledger e in
    let none_taken : taken_by (Place.batch j) e ≡ 0 = ground arith in
    let none_returned : returned_by (Place.batch j) e ≡ 0 = ground arith in
    let fits =
      ltb-le (initial_of (get_elem? s.batches j) + returned (Place.batch j) s.ledger)
        (requested + taken (Place.batch j) s.ledger) h in
    le-ltb _ _ (omega arith)

some_exceeds-cons :
    (s : Stock) (i requested : ℕ) (rest : List (ℕ × ℕ))
    → some_exceeds s ((i, requested) ∷ rest) ≡ false
    → (exceeds requested (initial_of (get_elem? s.batches i)) (Place.batch i) s.ledger ≡ false)
      × (some_exceeds s rest ≡ false)
unfolding some_exceeds
some_exceeds-cons s i requested rest h =
    let test = exceeds requested (initial_of (get_elem? s.batches i)) (Place.batch i) s.ledger in
    (or_left test (some_exceeds s rest) h, or_right test (some_exceeds s rest) h)

some_exceeds-draw :
    (s : Stock) (type : EntryType) (destination : Option Place) (i quantity : ℕ)
    (items : List (ℕ × ℕ))
    → draws_from i items ≡ false
    → some_exceeds s items ≡ false
    → some_exceeds (draw type destination (i, quantity) s) items ≡ false
unfolding some_exceeds
some_exceeds-draw s type destination i quantity [] h k = refl
some_exceeds-draw s type destination i quantity ((j, requested) ∷ rest) h k =
    let (fits, others) = some_exceeds-cons s j requested rest k in
    let apart = or_left (i == j) (draws_from i rest) h in
    let alone = or_right (i == j) (draws_from i rest) h in
    let here = exceeds-draw s type destination i quantity j requested apart fits in
    let there = some_exceeds-draw s type destination i quantity rest alone others in
    rw (here, there) refl

-- Draws from different batches, each within what its batch has before them.
pub draw_all-IsCovered :
    (type : EntryType) (destination : Option Place) (items : List (ℕ × ℕ)) (s : Stock)
    → is_unique items ≡ true
    → some_exceeds s items ≡ false
    → IsCovered s
    → IsCovered (draw_all type destination items s)
unfolding draw_all is_unique
draw_all-IsCovered type destination [] s u h c = c
draw_all-IsCovered type destination ((i, quantity) ∷ rest) s u h c =
    let alone : draws_from i rest ≡ false = ground arith in
    let apart : is_unique rest ≡ true = ground arith in
    let (first, others) = some_exceeds-cons s i quantity rest h in
    draw_all-IsCovered type destination rest (draw type destination (i, quantity) s) apart
      (some_exceeds-draw s type destination i quantity rest alone others)
      (draw-IsCovered s type destination i quantity c first)
