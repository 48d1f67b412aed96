-- ===== src/Commerce/Offers.antt =====
-- Offers before they are accepted (apps/api/src/marketplace/marketplace.service.ts): `submitOffer`,
-- `counterOffer`, and `transitionOffer`, which rejects and withdraws.
use clycites_platform.Prelude.{
  ℕ, ◌+◌, Bool, true, false, not, ◌&&◌, ◌||◌, Option, none, some, List, [], ◌∷◌, ◌++◌, Result, ok,
  ◌>>=◌, ◌>>◌, throw_if, or_throw, leb, ltb, ◌==◌,
}
use clycites_platform.Commerce.State.{
  ListingStatus, OfferStatus, Offer, Store, Failure, not_found, unprocessable, offer_not_actionable,
  insufficient_available, forbidden, listing_not_active, listing_visibility_denied, get_elem?, set,
}
use clycites_platform.Commerce.Contracts.{is_submitted}

pub record Invitation : Type 0 where
  pub buyer : ℕ
  pub is_invited : Bool
  pub expires_at : Option ℕ

-- What a listing asks of offers, which no call of these services changes while it is published.
pub record OfferRules : Type 0 where
  -- whether the buyer is an active buyer organization
  pub is_active_buyer : Bool
  pub is_public : Bool
  pub invitations : List Invitation
  pub allow_partial_quantity : Bool
  pub minimum_quantity : Option ℕ
  pub minimum_unit_price : Option ℕ
  -- whether the offer's currency is the listing's
  pub same_currency : Bool

pub record OfferInput : Type 0 where
  pub quantity : ℕ
  pub unit_price : ℕ
  pub valid_until : ℕ

abbrev pub is_open_for_offers : ListingStatus → Bool
is_open_for_offers ListingStatus.published = true
is_open_for_offers ListingStatus.partially_reserved = true
is_open_for_offers _ = false

abbrev pub is_over : ℕ → Option ℕ → Bool
is_over now none = false
is_over now (some end) = leb end now

abbrev pub has_invitation : ℕ → ℕ → List Invitation → Bool
has_invitation now buyer [] = false
has_invitation now buyer (v ∷ vs) =
    (v.buyer == buyer && v.is_invited && not (is_over now v.expires_at))
    || has_invitation now buyer vs

abbrev pub is_visible : OfferRules → ℕ → ℕ → Bool
is_visible rules now buyer = rules.is_public || has_invitation now buyer rules.invitations

-- `minimum && value < minimum`, where a minimum of 0 asks for nothing either way.
abbrev pub is_below : ℕ → Option ℕ → Bool
is_below value none = false
is_below value (some minimum) = ltb value minimum

abbrev pub new_offer : ℕ → ℕ → ℕ → ℕ → OfferInput → Offer
new_offer user listing seller buyer input = record {
  listing = listing;
  seller = seller;
  buyer = buyer;
  status = OfferStatus.submitted;
  version = 1;
  quantity = input.quantity;
  valid_until = input.valid_until;
  submitted_by = user;
  parent = none;
  round_number = 1;
}

unfoldable pub submit_offer : OfferRules → ℕ → ℕ → ℕ → ℕ → OfferInput → Store → Result Failure Store
submit_offer rules now user buyer l input store = do
  let listing = store.listings l
  throw_if (not rules.is_active_buyer) forbidden
  throw_if (not (is_open_for_offers listing.status) || is_over now listing.expires_at)
      listing_not_active
  throw_if (not (is_visible rules now buyer)) listing_visibility_denied
  throw_if (input.quantity == 0 || ltb listing.available input.quantity) insufficient_available
  throw_if (not rules.allow_partial_quantity && not (input.quantity == listing.available))
      unprocessable
  throw_if (is_below input.quantity rules.minimum_quantity) unprocessable
  throw_if (is_below input.unit_price rules.minimum_unit_price) unprocessable
  throw_if (not rules.same_currency) unprocessable
  ok (record store { offers = store.offers ++ new_offer user l listing.seller buyer input ∷ [] })

abbrev pub is_offer_party : ℕ → Offer → Bool
is_offer_party organization offer = offer.seller == organization || offer.buyer == organization

abbrev pub responded : OfferStatus → Offer → Offer
responded status offer = record offer { status = status; version = offer.version + 1 }

abbrev pub counter_of : ℕ → ℕ → Offer → OfferInput → Offer
counter_of user offer_id offer input =
    record (new_offer user offer.listing offer.seller offer.buyer input) {
      parent = some offer_id;
      round_number = offer.round_number + 1;
    }

unfoldable pub counter_offer : ℕ → ℕ → ℕ → ℕ → OfferInput → Store → Result Failure Store
counter_offer user organization offer_id version input store = do
  offer ← or_throw (get_elem? store.offers offer_id) not_found
  throw_if (not (is_offer_party organization offer)) not_found
  throw_if (not (is_submitted offer.status) || not (offer.version == version)) offer_not_actionable
  throw_if (offer.submitted_by == user) forbidden
  ok (record store {
    offers =
        set store.offers offer_id (responded OfferStatus.countered offer)
        ++ counter_of user offer_id offer input ∷ [];
  })

pub data Response : Type 0 where
  reject withdraw : Response

abbrev pub response_status : Response → OfferStatus
response_status reject = OfferStatus.rejected
response_status withdraw = OfferStatus.withdrawn

-- Whether it is the submitter's organization that may respond so.
abbrev pub may_respond : Response → Bool → Bool
may_respond reject is_submitter = not is_submitter
may_respond withdraw is_submitter = is_submitter

abbrev pub is_organization : ℕ → Option ℕ → Bool
is_organization organization none = false
is_organization organization (some other) = other == organization

-- `submitter` is the party that the submitting user is an active member of, if any.
unfoldable pub transition_offer : Response → Option ℕ → ℕ → ℕ → ℕ → Store → Result Failure Store
transition_offer response submitter organization offer_id version store = do
  offer ← or_throw (get_elem? store.offers offer_id) not_found
  throw_if (not (is_offer_party organization offer)) not_found
  throw_if (not (may_respond response (is_organization organization submitter))) forbidden
  throw_if (not (is_submitted offer.status) || not (offer.version == version)) offer_not_actionable
  ok (record store {
    offers = set store.offers offer_id (responded (response_status response) offer);
  })
