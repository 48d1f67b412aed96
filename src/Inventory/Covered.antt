-- ===== src/Inventory/Covered.antt =====
-- No delivery and no batch gives more than it has: what an operation on the stock keeps of that
-- (apps/api/src/batches/batches.service.ts, transformations.service.ts and
-- apps/api/src/lots/lots.service.ts).
use clycites_platform.Prelude.{
  ℕ, zero, suc, ◌+◌, ◌≤◌, ◌≡◌, refl, ◌∙◌, Bool, true, false, Option, none, some, List, [], ◌∷◌,
  ◌++◌, arith, if◌then◌else◌, get_elem?, sum_by-append,
}
use clycites_platform.Inventory.{
  Batch, BatchStatus, Delivery, Place, Entry, taken_by, returned_by, taken, returned, mark,
  increment, Stock,
}
use clycites_platform.Inventory.Ledger.{initial_of}

abbrev pub weight_of : Option ℕ → ℕ
weight_of none = 0
weight_of (some net) = net

abbrev pub net_of : Option Delivery → ℕ
net_of none = 0
net_of (some d) = weight_of d.net_quantity

-- What a place holds in all.
abbrev pub total_of : List Delivery → List Batch → Place → ℕ
total_of deliveries batches (Place.delivery i) = net_of (get_elem? deliveries i)
total_of deliveries batches (Place.batch i) = initial_of (get_elem? batches i)
total_of deliveries batches (Place.lot i) = 0

-- Nothing is overdrawn.
pub record IsCovered (s : Stock) : Type 0 where
  pub covered :
      (p : Place) → taken p s.ledger ≤ total_of s.deliveries s.batches p + returned p s.ledger

pub taken-snoc :
    (p : Place) (l : List Entry) (e : Entry) → taken p (l ++ e ∷ []) ≡ taken p l + taken_by p e
unfolding taken
taken-snoc p l e = sum_by-append (taken_by p) l (e ∷ []) ∙ (omega arith)

pub returned-snoc :
    (p : Place) (l : List Entry) (e : Entry)
    → returned p (l ++ e ∷ []) ≡ returned p l + returned_by p e
unfolding returned
returned-snoc p l e = sum_by-append (returned_by p) l (e ∷ []) ∙ (omega arith)

pub initial-mark :
    (status : BatchStatus) (bs : List Batch) (i j : ℕ)
    → initial_of (get_elem? (mark status bs i) j) ≡ initial_of (get_elem? bs j)
initial-mark status [] i j = refl
initial-mark status (b ∷ bs) zero zero = refl
initial-mark status (b ∷ bs) zero (suc j) = refl
initial-mark status (b ∷ bs) (suc i) zero = refl
initial-mark status (b ∷ bs) (suc i) (suc j) = initial-mark status bs i j

pub initial-mark_if :
    (t : Bool) (status : BatchStatus) (bs : List Batch) (i j : ℕ)
    → initial_of (get_elem? (if t then mark status bs i else bs) j) ≡ initial_of (get_elem? bs j)
initial-mark_if true status bs i j = initial-mark status bs i j
initial-mark_if false status bs i j = refl

pub initial-increment :
    (q : ℕ) (bs : List Batch) (i j : ℕ)
    → initial_of (get_elem? bs j) ≤ initial_of (get_elem? (increment q bs i) j)
initial-increment q [] i j = omega arith
initial-increment q (b ∷ bs) zero zero = omega arith
initial-increment q (b ∷ bs) zero (suc j) = omega arith
initial-increment q (b ∷ bs) (suc i) zero = omega arith
initial-increment q (b ∷ bs) (suc i) (suc j) = initial-increment q bs i j

pub initial-append :
    (bs : List Batch) (b : Batch) (j : ℕ)
    → initial_of (get_elem? bs j) ≤ initial_of (get_elem? (bs ++ b ∷ []) j)
initial-append [] b j = omega arith
initial-append (c ∷ bs) b zero = omega arith
initial-append (c ∷ bs) b (suc j) = initial-append bs b j

-- More in the batches, and an entry that covers what it takes, keep the stock covered.
pub entered-IsCovered :
    (s : Stock) (e : Entry) (batches : List Batch)
    → IsCovered s
    → ((j : ℕ) → initial_of (get_elem? s.batches j) ≤ initial_of (get_elem? batches j))
    → ((p : Place)
        → taken p s.ledger + taken_by p e
          ≤ total_of s.deliveries s.batches p + returned p s.ledger + returned_by p e)
    → IsCovered (record s { ledger = s.ledger ++ e ∷ []; batches = batches })
entered-IsCovered s e batches c more fits = record { covered = λ p. enough p (total_grows p) }
  where
    total_grows : (p : Place) → total_of s.deliveries s.batches p ≤ total_of s.deliveries batches p
    total_grows (Place.delivery i) = omega arith
    total_grows (Place.batch i) = more i
    total_grows (Place.lot i) = omega arith

    enough :
        (p : Place)
        → total_of s.deliveries s.batches p ≤ total_of s.deliveries batches p
        → taken p (s.ledger ++ e ∷ [])
          ≤ total_of s.deliveries batches p + returned p (s.ledger ++ e ∷ [])
    enough p grows = omega (arith, taken-snoc p s.ledger e, returned-snoc p s.ledger e, fits p)

-- The same without an entry.
pub grown-IsCovered :
    (s : Stock) (batches : List Batch)
    → IsCovered s
    → ((j : ℕ) → initial_of (get_elem? s.batches j) ≤ initial_of (get_elem? batches j))
    → IsCovered (record s { batches = batches })
grown-IsCovered s batches c more = record { covered = λ p. enough p }
  where
    enough : (p : Place) → taken p s.ledger ≤ total_of s.deliveries batches p + returned p s.ledger
    enough (Place.delivery i) = c.covered (Place.delivery i)
    enough (Place.batch i) = omega (arith, c.covered (Place.batch i), more i)
    enough (Place.lot i) = c.covered (Place.lot i)
