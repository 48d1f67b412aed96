-- ===== src/Inventory/Contributed.antt =====
-- What contributions, seals and lots keep of the stock (apps/api/src/batches/batches.service.ts,
-- apps/api/src/lots/lots.service.ts).
use clycites_platform.Prelude.{
  ℕ, ◌+◌, ◌≤◌, ◌≡◌, refl, ap, ◌∙◌, true, false, not, ◌||◌, Bool-cases, inl, inr, Option, some, List,
  [], ◌∷◌, ◌++◌, arith, ◌==◌, get_elem?, length, All, Bool, Ensures, Ensures->>=, Ensures-throw_if,
  Ensures-or_throw,
}
use mathlib.Core.Path.{subst⁻¹}
use clycites_platform.Inventory.{
  BatchStatus, Delivery, Place, EntryType, taken, taken_by, returned, returned_by, LotRow, Stock,
  StockFailure, exceeds, validate_configuration, create_batch, contribute, contribution_entry, seal,
  same_produce, is_open,
}
use clycites_platform.Inventory.Ledger.{
  is_unique, sealed_batches, some_exceeds, draw_all, initial_of,
}
use clycites_platform.Inventory.Lots.{
  LotInput, InspectionStatus, create_lot, approve_lot, all_match, is_ready, has_passed, new_lot,
}
use clycites_platform.Inventory.Covered.{
  IsCovered, total_of, net_of, weight_of, entered-IsCovered, grown-IsCovered, initial-mark,
  initial-increment, initial-append, taken-snoc, returned-snoc,
}
use clycites_platform.Inventory.Draws.{draw_all-IsCovered}
use clycites_platform.Inventory.Backed.{live, draw_all-Moves}
use clycites_platform.Inventory.Kept.{IsKept, IsBalanced}

pub create_batch-IsKept :
    (form_active : ℕ → ℕ → Bool) (commodity form : ℕ) (location : Option Bool) (s : Stock)
    → IsKept s
    → Ensures IsKept (create_batch form_active commodity form location s)
unfolding create_batch Ensures
create_batch-IsKept form_active commodity form location s k =
    Ensures->>= IsKept (validate_configuration form_active commodity form location) _ λ _ _.
      record {
        covers = grown-IsCovered s _ k.covers (initial-append s.batches _);
        backs = record { backed = k.backs.backed };
        balances = k.balances;
      }

contribution_fits :
    (s : Stock) (i j requested : ℕ) (d : Delivery) (total : ℕ)
    → get_elem? s.deliveries i ≡ some d
    → d.net_quantity ≡ some total
    → IsCovered s
    → exceeds requested total (Place.delivery i) s.ledger ≡ false
    → (p : Place)
    → taken p s.ledger + taken_by p (contribution_entry i j requested)
      ≤ total_of s.deliveries s.batches p
        + returned p s.ledger
        + returned_by p (contribution_entry i j requested)
contribution_fits s i j requested d total found weighed c h (Place.batch n) =
    omega (arith, c.covered (Place.batch n))
contribution_fits s i j requested d total found weighed c h (Place.lot n) =
    omega (arith, c.covered (Place.lot n))
contribution_fits s i j requested d total found weighed c h (Place.delivery n) =
    elim (Bool-cases (i == n)) [
      | inl e ↦
          let same : i ≡ n = ground arith in
          let same_taken = ap (λ m. taken (Place.delivery m) s.ledger) same in
          let same_returned = ap (λ m. returned (Place.delivery m) s.ledger) same in
          let same_total = ap (λ m. net_of (get_elem? s.deliveries m)) same in
          let holds : net_of (get_elem? s.deliveries i) ≡ total =
            ap net_of found ∙ ap weight_of weighed in
          ground arith
      | inr e ↦ let before = c.covered (Place.delivery n) in ground arith
    ]

pub contribute-IsKept :
    (i j requested : ℕ) (s : Stock) → IsKept s → Ensures IsKept (contribute i j requested s)
unfolding contribute Ensures
contribute-IsKept i j requested s k =
    Ensures-or_throw IsKept (get_elem? s.deliveries i) StockFailure.source_not_accepted _ λ d found.
      Ensures-throw_if IsKept (not d.is_current) _ _ λ _.
        Ensures-or_throw IsKept (get_elem? s.batches j) StockFailure.invalid_batch_state _ λ b _.
          Ensures-throw_if IsKept (not (is_open b.status)) _ _ λ _.
            Ensures-throw_if IsKept (not (same_produce d b)) _ _ λ _.
              Ensures-or_throw IsKept d.net_quantity StockFailure.no_weight _ λ total weighed.
                Ensures-throw_if IsKept (exceeds requested total (Place.delivery i) s.ledger) _ _
                  λ fits. record {
                    covers =
                        entered-IsCovered s (contribution_entry i j requested) _ k.covers
                          (initial-increment requested s.batches j)
                          (contribution_fits s i j requested d total found weighed k.covers fits);
                    backs = record {
                      backed = λ n. omega (
                        arith,
                        taken-snoc (Place.batch n) s.ledger (contribution_entry i j requested),
                        returned-snoc (Place.batch n) s.ledger (contribution_entry i j requested),
                        k.backs.backed n,
                      );
                    };
                    balances = k.balances;
                  }

pub seal-IsKept : (j : ℕ) (s : Stock) → IsKept s → Ensures IsKept (seal j s)
unfolding seal Ensures
seal-IsKept j s k =
    Ensures-or_throw IsKept (get_elem? s.batches j) StockFailure.invalid_batch_state _ λ b _.
      Ensures-throw_if IsKept (not (is_open b.status) || b.initial_quantity == 0) _ _ λ _. record {
        covers =
            grown-IsCovered s _ k.covers
              (λ i. omega (arith, initial-mark BatchStatus.sealed s.batches j i));
        backs = record { backed = k.backs.backed };
        balances = k.balances;
      }

allocated-IsKept :
    (destination : Option Place) (items : List (ℕ × ℕ)) (s : Stock)
    → is_unique items ≡ true
    → some_exceeds s items ≡ false
    → IsKept s
    → IsKept (draw_all EntryType.lot_allocation destination items s)
allocated-IsKept destination items s unique fits k =
    let m = draw_all-Moves EntryType.lot_allocation destination items s refl in
    record {
      covers = draw_all-IsCovered EntryType.lot_allocation destination items s unique fits k.covers;
      backs = record {
        backed = λ i.
            omega
              (arith, m.takes i, m.returns i, ap (live i) m.same_transformations, k.backs.backed i);
      };
      balances = subst⁻¹ (All IsBalanced) m.same_transformations k.balances;
    }

some_exceeds-lots :
    (s : Stock) (lots : List LotRow) (items : List (ℕ × ℕ))
    → some_exceeds (record s { lots = lots }) items ≡ some_exceeds s items
unfolding some_exceeds
some_exceeds-lots s lots [] = refl
some_exceeds-lots s lots ((i, requested) ∷ rest) =
    ap (λ b. exceeds requested (initial_of (get_elem? s.batches i)) (Place.batch i) s.ledger || b)
      (some_exceeds-lots s lots rest)

pub create_lot-IsKept :
    (input : LotInput) (s : Stock) → IsKept s → Ensures IsKept (create_lot input s)
unfolding create_lot Ensures
create_lot-IsKept input s k =
    Ensures-throw_if IsKept (not (is_unique input.contributions)) _ _ λ repeated.
      Ensures-or_throw IsKept (sealed_batches s.batches input.contributions)
        StockFailure.commodity_mismatch _
        λ batches _. Ensures-throw_if IsKept (not (all_match input batches)) _ _ λ _.
          Ensures-throw_if IsKept (some_exceeds s input.contributions) _ _ λ fits.
            Ensures-throw_if IsKept (not input.location_fits) _ _ λ _.
              let listed = record s { lots = s.lots ++ new_lot input ∷ [] } in
              allocated-IsKept (some (Place.lot (length s.lots))) input.contributions listed
                (ground arith) (some_exceeds-lots s listed.lots input.contributions ∙ fits)
                (record {
                  covers = record { covered = k.covers.covered };
                  backs = record { backed = k.backs.backed };
                  balances = k.balances;
                })

pub approve_lot-IsKept :
    (newest : Option InspectionStatus) (n : ℕ) (s : Stock)
    → IsKept s
    → Ensures IsKept (approve_lot newest n s)
unfolding approve_lot Ensures
approve_lot-IsKept newest n s k =
    Ensures-or_throw IsKept (get_elem? s.lots n) StockFailure.invalid_lot_state _ λ lot _.
      Ensures-throw_if IsKept (not (is_ready lot.status)) _ _ λ _.
        Ensures-throw_if IsKept (not (has_passed newest)) _ _ λ _. record {
          covers = record { covered = k.covers.covered };
          backs = record { backed = k.backs.backed };
          balances = k.balances;
        }
