-- ===== src/Commerce/ExpirationSteps.antt =====
-- A run of the expiration worker keeps a store consistent.
use clycites_platform.Prelude.{
  All-set, ℕ, ◌≡◌, refl, inl, inr, true, Option, none, some, List, [], ◌∷◌, arith, Bool-cases,
}
use clycites_platform.Commerce.State.{Store, Deal, Listing, get_elem?}
use clycites_platform.Commerce.Expiration.{
  expire_listing, expires, is_due, expire_deal, expire_found, expire_reservation, expire_rows,
  expire_reservations, run_once, due,
}
use clycites_platform.Commerce.Balance.{IsBalanced, IsBalanced-release}
use clycites_platform.Commerce.Consistency.{IsConsistent, is_consistent}
use clycites_platform.Commerce.ContractSteps.{found_fits}

expire_deal-IsConsistent :
    (now i : ℕ) (d : Deal) (store : Store)
    → get_elem? store.deals i ≡ some d
    → is_due now d ≡ true
    → IsConsistent store
    → IsConsistent (expire_deal now i d store)
unfolding is_consistent
expire_deal-IsConsistent now i d store found waits c =
    let fits = found_fits store i d c found in
    record {
      balanced =
          IsBalanced-release store.listings store.deals i d (expires d) _ found (ground arith) refl
            refl refl c.balanced;
      fitting =
          All-set (λ x. is_consistent x ≡ true) store.deals i (expires d) c.fitting (ground arith);
    }

expire_found-IsConsistent :
    (now i : ℕ) (o : Option Deal) (store : Store)
    → get_elem? store.deals i ≡ o
    → IsConsistent store
    → IsConsistent (expire_found now i o store)
expire_found-IsConsistent now i none store found c = c
expire_found-IsConsistent now i (some d) store found c = elim (Bool-cases (is_due now d)) [
  | inl waits ↦ rw waits (expire_deal-IsConsistent now i d store found waits c)
  | inr rests ↦ rw rests c
]

pub expire_reservation-IsConsistent :
    (now i : ℕ) (store : Store) → IsConsistent store → IsConsistent (expire_reservation now i store)
unfolding expire_reservation
expire_reservation-IsConsistent now i store c =
    expire_found-IsConsistent now i (get_elem? store.deals i) store refl c

expire_listing-available : (now : ℕ) (l : Listing) → (expire_listing now l).available ≡ l.available
expire_listing-available now l = ground arith

expire_listing-listed : (now : ℕ) (l : Listing) → (expire_listing now l).listed ≡ l.listed
expire_listing-listed now l = ground arith

pub expire_rows-IsConsistent :
    (now : ℕ) (store : Store) → IsConsistent store → IsConsistent (expire_rows now store)
unfolding IsBalanced
expire_rows-IsConsistent now store c = record {
  balanced = λ l.
      rw
        (
          expire_listing-available now (store.listings l),
          expire_listing-listed now (store.listings l),
        )
        (c.balanced l);
  fitting = c.fitting;
}

expire_reservations-IsConsistent :
    (now : ℕ) (rows : List (ℕ × ℕ)) (store : Store)
    → IsConsistent store
    → IsConsistent (expire_reservations now rows store)
unfolding expire_reservations
expire_reservations-IsConsistent now [] store c = c
expire_reservations-IsConsistent now ((i, t) ∷ rest) store c =
    expire_reservations-IsConsistent now rest (expire_reservation now i store)
      (expire_reservation-IsConsistent now i store c)

pub run_once-IsConsistent :
    (now : ℕ) (store : Store) → IsConsistent store → IsConsistent (run_once now store)
unfolding run_once
run_once-IsConsistent now store c =
    expire_reservations-IsConsistent now (due now store.deals) (expire_rows now store)
      (expire_rows-IsConsistent now store c)
