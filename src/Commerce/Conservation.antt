-- ===== src/Commerce/Conservation.antt =====
-- Sequences of transactions of the commerce services, one after the other: row locks and, for most,
-- `serializable` are there to have them so. A throw rolls its transaction back, so a failed step
-- leaves the store as it was.
use clycites_platform.Prelude.{ℕ, ◌+◌, ◌≡◌, ◌≢◌, Option, List, [], ◌∷◌, Result, ok, err}
use clycites_platform.Commerce.State.{Store, Failure, exceeds_listed}
use clycites_platform.Commerce.Contracts.{
  Release, accept_offer, approve_contract, cancel_contract, transition_reservation,
}
use clycites_platform.Commerce.Offers.{
  OfferRules, OfferInput, Response, submit_offer, counter_offer, transition_offer,
}
use clycites_platform.Commerce.OfferSteps.{
  submit_offer-Keeps, counter_offer-Keeps, transition_offer-Keeps,
}
use clycites_platform.Commerce.Orders.{
  AcceptanceInput, create_order, cancel_order, attach_custody_transfer, sync_custody, accept,
  complete,
}
use clycites_platform.Commerce.Listings.{Transition, publish, transition_listing}
use clycites_platform.Commerce.ListingSteps.{publish-Keeps, transition_listing-Keeps}
use clycites_platform.Commerce.Expiration.{run_once, expire_rows, expire_reservation}
use clycites_platform.Commerce.Balance.{IsBalanced, reserved}
use clycites_platform.Commerce.Consistency.{IsConsistent, Keeps}
use clycites_platform.Commerce.ContractSteps.{
  accept_offer-Keeps, approve_contract-Keeps, cancel_contract-Keeps, transition_reservation-Keeps,
}
use clycites_platform.Commerce.OrderSteps.{
  create_order-Keeps, cancel_order-Keeps, attach_custody_transfer-Keeps, sync_custody-Keeps,
  accept-Keeps, complete-Keeps,
}
use clycites_platform.Commerce.ExpirationSteps.{
  run_once-IsConsistent, expire_rows-IsConsistent, expire_reservation-IsConsistent,
}

-- A call with its arguments: the time where the code reads the clock, the caller's organization,
-- the row, the version that the caller has seen.
pub data Step : Type 0 where
  submit_offer_step : (rules : OfferRules) (now user buyer l : ℕ) (input : OfferInput) → Step
  counter_offer_step : (user organization offer_id version : ℕ) (input : OfferInput) → Step
  transition_offer_step :
      (response : Response) (submitter : Option ℕ) (organization offer_id version : ℕ) → Step
  accept_offer_step : (now seller offer_id version : ℕ) → Step
  approve_contract_step : (organization i version : ℕ) → Step
  cancel_contract_step : (now organization i version : ℕ) → Step
  transition_reservation_step : (kind : Release) (now organization i version : ℕ) → Step
  create_order_step : (seller i : ℕ) → Step
  cancel_order_step : (now seller i version : ℕ) → Step
  attach_custody_transfer_step : (seller i version : ℕ) (transfer : Option ℕ) → Step
  sync_custody_step : (organization i : ℕ) → Step
  accept_step : (buyer i : ℕ) (input : AcceptanceInput) → Step
  complete_step : (seller i : ℕ) → Step
  publish_step : (organization l version : ℕ) → Step
  transition_listing_step : (kind : Transition) (organization l version : ℕ) → Step
  expiration_step : (now : ℕ) → Step
  -- the transactions of a run that other calls come between
  expire_rows_step : (now : ℕ) → Step
  expire_reservation_step : (now i : ℕ) → Step

unfoldable pub apply : Step → Store → Result Failure Store
apply (submit_offer_step rules now user buyer l input) store =
    submit_offer rules now user buyer l input store
apply (counter_offer_step user organization offer_id version input) store =
    counter_offer user organization offer_id version input store
apply (transition_offer_step response submitter organization offer_id version) store =
    transition_offer response submitter organization offer_id version store
apply (accept_offer_step now seller offer_id version) store =
    accept_offer now seller offer_id version store
apply (approve_contract_step organization i version) store =
    approve_contract organization i version store
apply (cancel_contract_step now organization i version) store =
    cancel_contract now organization i version store
apply (transition_reservation_step kind now organization i version) store =
    transition_reservation kind now organization i version store
apply (create_order_step seller i) store = create_order seller i store
apply (cancel_order_step now seller i version) store = cancel_order now seller i version store
apply (attach_custody_transfer_step seller i version transfer) store =
    attach_custody_transfer seller i version transfer store
apply (sync_custody_step organization i) store = sync_custody organization i store
apply (accept_step buyer i input) store = accept buyer i input store
apply (complete_step seller i) store = complete seller i store
apply (publish_step organization l version) store = publish organization l version store
apply (transition_listing_step kind organization l version) store =
    transition_listing kind organization l version store
apply (expiration_step now) store = ok (run_once now store)
apply (expire_rows_step now) store = ok (expire_rows now store)
apply (expire_reservation_step now i) store = ok (expire_reservation now i store)

abbrev pub kept_store : Store → Result Failure Store → Store
kept_store store (ok after) = after
kept_store store (err e) = store

unfoldable pub run : List Step → Store → Store
run [] store = store
run (step ∷ steps) store = run steps (kept_store store (apply step store))

apply-Keeps : (step : Step) (store : Store) → IsConsistent store → Keeps (apply step store)
unfolding apply Keeps
apply-Keeps (submit_offer_step rules now user buyer l input) store c =
    submit_offer-Keeps rules now user buyer l input store c
apply-Keeps (counter_offer_step user organization offer_id version input) store c =
    counter_offer-Keeps user organization offer_id version input store c
apply-Keeps (transition_offer_step response submitter organization offer_id version) store c =
    transition_offer-Keeps response submitter organization offer_id version store c
apply-Keeps (accept_offer_step now seller offer_id version) store c =
    accept_offer-Keeps now seller offer_id version store c
apply-Keeps (approve_contract_step organization i version) store c =
    approve_contract-Keeps organization i version store c
apply-Keeps (cancel_contract_step now organization i version) store c =
    cancel_contract-Keeps now organization i version store c
apply-Keeps (transition_reservation_step kind now organization i version) store c =
    transition_reservation-Keeps kind now organization i version store c
apply-Keeps (create_order_step seller i) store c = create_order-Keeps seller i store c
apply-Keeps (cancel_order_step now seller i version) store c =
    cancel_order-Keeps now seller i version store c
apply-Keeps (attach_custody_transfer_step seller i version transfer) store c =
    attach_custody_transfer-Keeps seller i version transfer store c
apply-Keeps (sync_custody_step organization i) store c = sync_custody-Keeps organization i store c
apply-Keeps (accept_step buyer i input) store c = accept-Keeps buyer i input store c
apply-Keeps (complete_step seller i) store c = complete-Keeps seller i store c
apply-Keeps (publish_step organization l version) store c =
    publish-Keeps organization l version store c
apply-Keeps (transition_listing_step kind organization l version) store c =
    transition_listing-Keeps kind organization l version store c
apply-Keeps (expiration_step now) store c = run_once-IsConsistent now store c
apply-Keeps (expire_rows_step now) store c = expire_rows-IsConsistent now store c
apply-Keeps (expire_reservation_step now i) store c = expire_reservation-IsConsistent now i store c

Keeps-other : (r : Result Failure Store) → Keeps r → r ≢ err exceeds_listed
unfolding Keeps
Keeps-other (ok after) k h = cc
Keeps-other (err e) k h = cc

Keeps-kept_store :
    (r : Result Failure Store) (store : Store)
    → IsConsistent store
    → Keeps r
    → IsConsistent (kept_store store r)
unfolding Keeps
Keeps-kept_store (ok after) store c k = k
Keeps-kept_store (err e) store c k = c

pub run-IsConsistent :
    (steps : List Step) (store : Store) → IsConsistent store → IsConsistent (run steps store)
unfolding run
run-IsConsistent [] store c = c
run-IsConsistent (step ∷ steps) store c =
    run-IsConsistent steps (kept_store store (apply step store))
      (Keeps-kept_store (apply step store) store c (apply-Keeps step store c))

-- From a consistent store, after any sequence of steps, failed ones included, what a listing has
-- available and what the live reservations on it hold add up to what was listed.
pub run_conserves_quantity :
    (steps : List Step) (store : Store)
    → IsConsistent store
    → (l : ℕ)
    → let after = run steps store in
      (after.listings l).available + reserved l after.deals ≡ (after.listings l).listed
unfolding IsBalanced
run_conserves_quantity steps store c = (run-IsConsistent steps store c).balanced

-- On a consistent store no step is refused because a release would exceed the listed quantity.
pub apply_never_exceeds_listed :
    (step : Step) (store : Store) → IsConsistent store → apply step store ≢ err exceeds_listed
apply_never_exceeds_listed step store c = Keeps-other (apply step store) (apply-Keeps step store c)
