-- ===== src/Commerce/MatchedRuns.antt =====
-- The statuses of deals over sequences of steps in which custody is synchronised, and acceptances are
-- recorded, while the order is open.
use clycites_platform.Prelude.{
  ℕ, ◌≡◌, Bool, true, not, ◌||◌, ◌&&◌, Option, List, [], ◌∷◌, Result, ok, err, arith, ltb, ◌==◌,
  Ensures, Ensures-throw_if, Ensures-or_throw,
}
use clycites_platform.Commerce.State.{Store, Failure, get_elem?}
use clycites_platform.Commerce.Contracts.{is_submitted}
use clycites_platform.Commerce.Offers.{
  OfferRules, OfferInput, Response, is_open_for_offers, is_over, is_below, is_visible,
  is_offer_party, may_respond, is_organization, submit_offer, counter_offer, transition_offer,
}
use clycites_platform.Commerce.Listings.{
  Transition, publish, transition_listing, is_publishable, starts_from,
}
use clycites_platform.Commerce.Conservation.{Step, apply, run, kept_store}
use clycites_platform.Commerce.Matching.{
  AllMatched, accept_offer-AllMatched, approve_contract-AllMatched, cancel_contract-AllMatched,
  transition_reservation-AllMatched, expire_reservation-AllMatched, run_once-AllMatched,
}
use clycites_platform.Commerce.MatchingOrders.{
  is_open_at, create_order-AllMatched, cancel_order-AllMatched, attach_custody_transfer-AllMatched,
  sync_custody-AllMatched, accept-AllMatched, complete-AllMatched,
}

-- Neither `syncCustody` nor `accept` looks at whether the order is closed.
abbrev pub is_timely : Step → Store → Bool
is_timely (Step.sync_custody_step organization i) store = is_open_at i store
is_timely (Step.accept_step buyer i input) store = is_open_at i store
is_timely _ store = true

unfoldable pub all_timely : List Step → Store → Bool
unfolding run
all_timely [] store = true
all_timely (step ∷ steps) store =
    is_timely step store && all_timely steps (kept_store store (apply step store))

submit_offer-AllMatched :
    (rules : OfferRules) (now user buyer l : ℕ) (input : OfferInput) (store : Store)
    → AllMatched store
    → Ensures AllMatched (submit_offer rules now user buyer l input store)
unfolding submit_offer Ensures
submit_offer-AllMatched rules now user buyer l input store m =
    let listing = store.listings l in
    let P = AllMatched in
    Ensures-throw_if P (not rules.is_active_buyer) _ _ λ _.
      Ensures-throw_if P (not (is_open_for_offers listing.status) || is_over now listing.expires_at)
        _ _
        λ _. Ensures-throw_if P (not (is_visible rules now buyer)) _ _ λ _.
          Ensures-throw_if P (input.quantity == 0 || ltb listing.available input.quantity) _ _ λ _.
            Ensures-throw_if P
              (not rules.allow_partial_quantity && not (input.quantity == listing.available)) _ _
              λ _. Ensures-throw_if P (is_below input.quantity rules.minimum_quantity) _ _ λ _.
                Ensures-throw_if P (is_below input.unit_price rules.minimum_unit_price) _ _
                  λ _. Ensures-throw_if P (not rules.same_currency) _ _ λ _. m

counter_offer-AllMatched :
    (user organization offer_id version : ℕ) (input : OfferInput) (store : Store)
    → AllMatched store
    → Ensures AllMatched (counter_offer user organization offer_id version input store)
unfolding counter_offer Ensures
counter_offer-AllMatched user organization offer_id version input store m =
    let P = AllMatched in
    Ensures-or_throw P (get_elem? store.offers offer_id) _ _ λ offer _.
      Ensures-throw_if P (not (is_offer_party organization offer)) _ _ λ _.
        Ensures-throw_if P (not (is_submitted offer.status) || not (offer.version == version)) _ _
          λ _. Ensures-throw_if P (offer.submitted_by == user) _ _ λ _. m

transition_offer-AllMatched :
    (response : Response) (submitter : Option ℕ) (organization offer_id version : ℕ) (store : Store)
    → AllMatched store
    → Ensures AllMatched (transition_offer response submitter organization offer_id version store)
unfolding transition_offer Ensures
transition_offer-AllMatched response submitter organization offer_id version store m =
    let P = AllMatched in
    Ensures-or_throw P (get_elem? store.offers offer_id) _ _ λ offer _.
      Ensures-throw_if P (not (is_offer_party organization offer)) _ _ λ _.
        Ensures-throw_if P (not (may_respond response (is_organization organization submitter))) _ _
          λ _.
            Ensures-throw_if P (not (is_submitted offer.status) || not (offer.version == version)) _
              _ λ _. m

publish-AllMatched :
    (organization l version : ℕ) (store : Store)
    → AllMatched store
    → Ensures AllMatched (publish organization l version store)
unfolding publish Ensures
publish-AllMatched organization l version store m =
    let listing = store.listings l in
    Ensures-throw_if AllMatched (not (listing.seller == organization)) _ _ λ _.
      Ensures-throw_if AllMatched
        (not (listing.version == version) || not (is_publishable listing.status)) _ _ λ _. m

transition_listing-AllMatched :
    (kind : Transition) (organization l version : ℕ) (store : Store)
    → AllMatched store
    → Ensures AllMatched (transition_listing kind organization l version store)
unfolding transition_listing Ensures
transition_listing-AllMatched kind organization l version store m =
    let listing = store.listings l in
    Ensures-throw_if AllMatched
      (not (listing.seller == organization)
        || not (listing.version == version)
        || not (starts_from kind listing.status))
      _ _ λ _. m

apply-AllMatched :
    (step : Step) (store : Store)
    → AllMatched store
    → is_timely step store ≡ true
    → Ensures AllMatched (apply step store)
unfolding apply Ensures
apply-AllMatched (Step.submit_offer_step rules now user buyer l input) store m t =
    submit_offer-AllMatched rules now user buyer l input store m
apply-AllMatched (Step.counter_offer_step user organization offer_id version input) store m t =
    counter_offer-AllMatched user organization offer_id version input store m
apply-AllMatched (Step.transition_offer_step response submitter organization offer_id version) store
      m t =
    transition_offer-AllMatched response submitter organization offer_id version store m
apply-AllMatched (Step.accept_offer_step now seller offer_id version) store m t =
    accept_offer-AllMatched now seller offer_id version store m
apply-AllMatched (Step.approve_contract_step organization i version) store m t =
    approve_contract-AllMatched organization i version store m
apply-AllMatched (Step.cancel_contract_step now organization i version) store m t =
    cancel_contract-AllMatched now organization i version store m
apply-AllMatched (Step.transition_reservation_step kind now organization i version) store m t =
    transition_reservation-AllMatched kind now organization i version store m
apply-AllMatched (Step.create_order_step seller i) store m t =
    create_order-AllMatched seller i store m
apply-AllMatched (Step.cancel_order_step now seller i version) store m t =
    cancel_order-AllMatched now seller i version store m
apply-AllMatched (Step.attach_custody_transfer_step seller i version transfer) store m t =
    attach_custody_transfer-AllMatched seller i version transfer store m
apply-AllMatched (Step.sync_custody_step organization i) store m t =
    sync_custody-AllMatched organization i store m t
apply-AllMatched (Step.accept_step buyer i input) store m t =
    accept-AllMatched buyer i input store m t
apply-AllMatched (Step.complete_step seller i) store m t = complete-AllMatched seller i store m
apply-AllMatched (Step.publish_step organization l version) store m t =
    publish-AllMatched organization l version store m
apply-AllMatched (Step.transition_listing_step kind organization l version) store m t =
    transition_listing-AllMatched kind organization l version store m
apply-AllMatched (Step.expiration_step now) store m t = run_once-AllMatched now store m
apply-AllMatched (Step.expire_rows_step now) store m t = m
apply-AllMatched (Step.expire_reservation_step now i) store m t =
    expire_reservation-AllMatched now i store m

kept_store-AllMatched :
    (r : Result Failure Store) (store : Store)
    → AllMatched store
    → Ensures AllMatched r
    → AllMatched (kept_store store r)
unfolding Ensures
kept_store-AllMatched (ok after) store m k = k
kept_store-AllMatched (err e) store m k = m

-- From a store whose deals are matched, after any sequence of steps, failed ones included, in which
-- custody is synchronised and acceptances are recorded only where the order is neither completed nor
-- cancelled, all deals are matched: with an open order the contract is active and the reservation
-- consumed, a completed order has a fulfilled contract and a consumed reservation, with a cancelled
-- order all three are cancelled, and without an order the reservation's status is the contract's.
pub run_keeps_deals_matched :
    (steps : List Step) (store : Store)
    → AllMatched store
    → all_timely steps store ≡ true
    → AllMatched (run steps store)
unfolding run all_timely
run_keeps_deals_matched [] store m t = m
run_keeps_deals_matched (step ∷ steps) store m t =
    let now : is_timely step store ≡ true = ground arith in
    let later : all_timely steps (kept_store store (apply step store)) ≡ true = ground arith in
    run_keeps_deals_matched steps (kept_store store (apply step store))
      (kept_store-AllMatched (apply step store) store m (apply-AllMatched step store m now)) later
