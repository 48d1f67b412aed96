-- ===== src/Commerce/OfferSteps.antt =====
-- What is done with offers before one is accepted keeps a store consistent
-- (apps/api/src/marketplace/marketplace.service.ts).
use clycites_platform.Prelude.{ℕ, refl, Option, List, not, ◌||◌, ◌&&◌, ltb, ◌==◌}
use clycites_platform.Commerce.State.{
  Offer, Store, not_found, unprocessable, offer_not_actionable, insufficient_available, forbidden,
  listing_not_active, listing_visibility_denied, get_elem?,
}
use clycites_platform.Commerce.Contracts.{is_submitted}
use clycites_platform.Commerce.Offers.{
  OfferRules, OfferInput, Response, is_open_for_offers, is_over, is_below, is_visible,
  is_offer_party, may_respond, is_organization, submit_offer, counter_offer, transition_offer,
}
use clycites_platform.Commerce.Consistency.{IsConsistent, Keeps, Keeps-throw_if, Keeps-or_throw}

with_offers-IsConsistent :
    (offers : List Offer) (store : Store)
    → IsConsistent store
    → IsConsistent (record store { offers = offers })
with_offers-IsConsistent offers store c = record { balanced = c.balanced; fitting = c.fitting }

pub submit_offer-Keeps :
    (rules : OfferRules) (now user buyer l : ℕ) (input : OfferInput) (store : Store)
    → IsConsistent store
    → Keeps (submit_offer rules now user buyer l input store)
unfolding submit_offer Keeps
submit_offer-Keeps rules now user buyer l input store c =
    let listing = store.listings l in
    Keeps-throw_if (not rules.is_active_buyer) forbidden _ refl λ _.
      Keeps-throw_if (not (is_open_for_offers listing.status) || is_over now listing.expires_at)
        listing_not_active _ refl
        λ _. Keeps-throw_if (not (is_visible rules now buyer)) listing_visibility_denied _ refl λ _.
          Keeps-throw_if (input.quantity == 0 || ltb listing.available input.quantity)
            insufficient_available _ refl
            λ _.
              Keeps-throw_if
                (not rules.allow_partial_quantity && not (input.quantity == listing.available))
                unprocessable _ refl
                λ _.
                  Keeps-throw_if (is_below input.quantity rules.minimum_quantity) unprocessable _
                    refl
                    λ _.
                      Keeps-throw_if (is_below input.unit_price rules.minimum_unit_price)
                        unprocessable _ refl
                        λ _.
                          Keeps-throw_if (not rules.same_currency) unprocessable _ refl
                            λ _. with_offers-IsConsistent _ store c

pub counter_offer-Keeps :
    (user organization offer_id version : ℕ) (input : OfferInput) (store : Store)
    → IsConsistent store
    → Keeps (counter_offer user organization offer_id version input store)
unfolding counter_offer Keeps
counter_offer-Keeps user organization offer_id version input store c =
    Keeps-or_throw (get_elem? store.offers offer_id) not_found _ refl λ offer _.
      Keeps-throw_if (not (is_offer_party organization offer)) not_found _ refl λ _.
        Keeps-throw_if (not (is_submitted offer.status) || not (offer.version == version))
          offer_not_actionable _ refl
          λ _.
            Keeps-throw_if (offer.submitted_by == user) forbidden _ refl
              λ _. with_offers-IsConsistent _ store c

pub transition_offer-Keeps :
    (response : Response) (submitter : Option ℕ) (organization offer_id version : ℕ) (store : Store)
    → IsConsistent store
    → Keeps (transition_offer response submitter organization offer_id version store)
unfolding transition_offer Keeps
transition_offer-Keeps response submitter organization offer_id version store c =
    Keeps-or_throw (get_elem? store.offers offer_id) not_found _ refl λ offer _.
      Keeps-throw_if (not (is_offer_party organization offer)) not_found _ refl λ _.
        Keeps-throw_if (not (may_respond response (is_organization organization submitter)))
          forbidden _ refl
          λ _.
            Keeps-throw_if (not (is_submitted offer.status) || not (offer.version == version))
              offer_not_actionable _ refl λ _. with_offers-IsConsistent _ store c
