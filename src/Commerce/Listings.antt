-- ===== src/Commerce/Listings.antt =====
-- The seller's changes of a listing's status: `MarketplaceService.publish`, and `pause`, `close`
-- and `cancel` by `transitionListing` (apps/api/src/marketplace/marketplace.service.ts). The log of
-- a listing's versions is not in the model's rows.
use clycites_platform.Prelude.{
  ℕ, ◌+◌, Bool, true, false, not, ◌&&◌, ◌||◌, map, Result, ok, ◌>>◌, throw_if, ◌==◌, if◌then◌else◌,
}
use clycites_platform.Commerce.State.{
  ListingStatus, OfferStatus, Listing, Offer, Store, Failure, not_found, version_conflict, update,
}
use clycites_platform.Commerce.Contracts.{is_submitted}

abbrev pub is_publishable : ListingStatus → Bool
is_publishable ListingStatus.draft = true
is_publishable ListingStatus.paused = true
is_publishable _ = false

abbrev pub with_status : ListingStatus → Listing → Listing
with_status status listing = record listing { status = status; version = listing.version + 1 }

abbrev pub put_listing : ℕ → Listing → Store → Store
put_listing l listing store = record store { listings = update store.listings l listing }

unfoldable pub publish : ℕ → ℕ → ℕ → Store → Result Failure Store
publish organization l version store = do
  let listing = store.listings l
  throw_if (not (listing.seller == organization)) not_found
  throw_if (not (listing.version == version) || not (is_publishable listing.status))
      version_conflict
  let status =
      if listing.available == listing.listed
      then ListingStatus.published
      else ListingStatus.partially_reserved
  ok (put_listing l (with_status status listing) store)

-- The three callers of `transitionListing`.
pub data Transition : Type 0 where
  pause close cancel : Transition

-- `fromStatuses`
abbrev pub starts_from : Transition → ListingStatus → Bool
starts_from _ ListingStatus.published = true
starts_from pause ListingStatus.partially_reserved = true
starts_from close ListingStatus.partially_reserved = true
starts_from close ListingStatus.paused = true
starts_from cancel ListingStatus.paused = true
starts_from cancel ListingStatus.draft = true
starts_from _ _ = false

abbrev pub target_status : Transition → ListingStatus
target_status pause = ListingStatus.paused
target_status close = ListingStatus.closed
target_status cancel = ListingStatus.cancelled

-- An open offer on a listing that ends is rejected.
abbrev pub reject_open : ℕ → Offer → Offer
reject_open l offer =
    if (offer.listing == l) && is_submitted offer.status
    then record offer { status = OfferStatus.rejected; version = offer.version + 1 }
    else offer

abbrev pub ends_listing : Transition → Bool
ends_listing pause = false
ends_listing _ = true

unfoldable pub transition_listing : Transition → ℕ → ℕ → ℕ → Store → Result Failure Store
transition_listing kind organization l version store = do
  let listing = store.listings l
  throw_if
      (not (listing.seller == organization)
        || not (listing.version == version)
        || not (starts_from kind listing.status))
      version_conflict
  let after = put_listing l (with_status (target_status kind) listing) store
  ok (record after {
    offers = if ends_listing kind then map (reject_open l) store.offers else store.offers;
  })
