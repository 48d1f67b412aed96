-- ===== src/Commerce/Contracts.antt =====
-- Offers accepted (`MarketplaceService.acceptOffer`), contracts approved and cancelled, and
-- reservations released (`CommerceService`).
use clycites_platform.Prelude.{
  ℕ, ◌+◌, ◌-◌, ◌*◌, Bool, true, false, not, ◌&&◌, ◌||◌, none, is_some, [], ◌∷◌, ◌++◌, Result, ok,
  err, ◌>>=◌, ◌>>◌, throw_if, or_throw, ltb, leb, ◌==◌, if◌then◌else◌,
}
use clycites_platform.Commerce.State.{
  ListingStatus, ReservationStatus, ContractStatus, OfferStatus, Listing, Offer, Deal, Store,
  Failure, not_found, version_conflict, unprocessable, approval_order_invalid, offer_not_actionable,
  offer_expired, insufficient_available, update, get_elem?, set, is_party, restore_allocation,
}

abbrev pub is_submitted : OfferStatus → Bool
is_submitted OfferStatus.submitted = true
is_submitted _ = false

-- 48 hours, in milliseconds
abbrev reservation_time : ℕ
reservation_time = 48 * 60 * 60 * 1000

abbrev pub new_deal : ℕ → Offer → Listing → Deal
new_deal now offer listing = record {
  listing = offer.listing;
  lot = listing.lot;
  seller = offer.seller;
  buyer = offer.buyer;
  quantity = offer.quantity;
  expires_at = now + reservation_time;
  reservation_status = ReservationStatus.active;
  reservation_version = 1;
  contract_status = ContractStatus.pending_seller_approval;
  contract_version = 1;
  seller_approved = false;
  order = none;
}

-- The listing's own status is not looked at.
unfoldable pub accept_offer : ℕ → ℕ → ℕ → ℕ → Store → Result Failure Store
accept_offer now seller offer_id version store = do
  offer ← or_throw (get_elem? store.offers offer_id) not_found
  throw_if (not (offer.seller == seller)) not_found
  let listing = store.listings offer.listing
  throw_if (not (is_submitted offer.status) || not (offer.version == version)) offer_not_actionable
  throw_if (leb offer.valid_until now) offer_expired
  throw_if (ltb listing.available offer.quantity) insufficient_available
  let left = listing.available - offer.quantity
  ok (record store {
    offers =
        set store.offers offer_id
          (record offer { status = OfferStatus.accepted; version = offer.version + 1 });
    listings = update store.listings offer.listing (record listing {
      available = left;
      status = if left == 0 then ListingStatus.fully_reserved else ListingStatus.partially_reserved;
      version = listing.version + 1;
    });
    deals = store.deals ++ new_deal now offer listing ∷ [];
    sale_hold = update store.sale_hold listing.lot true;
  })

abbrev pub is_pending_seller : ContractStatus → Bool
is_pending_seller ContractStatus.pending_seller_approval = true
is_pending_seller _ = false

abbrev pub is_pending_buyer : ContractStatus → Bool
is_pending_buyer ContractStatus.pending_buyer_approval = true
is_pending_buyer _ = false

abbrev pub put_deal : ℕ → Deal → Store → Store
put_deal i d store = record store { deals = set store.deals i d }

abbrev pub seller_approves : Deal → Deal
seller_approves d = record d {
  contract_status = ContractStatus.pending_buyer_approval;
  contract_version = d.contract_version + 1;
  seller_approved = true;
}

abbrev pub activates : Deal → Deal
activates d = record d {
  contract_status = ContractStatus.active;
  contract_version = d.contract_version + 1;
  reservation_status = ReservationStatus.contracted;
  reservation_version = d.reservation_version + 1;
}

-- The two branches of the approval, and the throw after them.
unfoldable pub approves : ℕ → Deal → Result Failure Deal
approves organization d =
    if (organization == d.seller) && is_pending_seller d.contract_status
    then ok (seller_approves d)
    else if (organization == d.buyer) && is_pending_buyer d.contract_status && d.seller_approved
    then ok (activates d)
    else err approval_order_invalid

unfoldable pub approve_contract : ℕ → ℕ → ℕ → Store → Result Failure Store
unfolding approves
approve_contract organization i version store = do
  d ← or_throw (get_elem? store.deals i) not_found
  throw_if (not (is_party organization d)) not_found
  throw_if (not (d.contract_version == version)) version_conflict
  approval ← approves organization d
  ok (put_deal i approval store)

abbrev pub is_cancellable : ContractStatus → Bool
is_cancellable ContractStatus.draft = true
is_cancellable ContractStatus.pending_seller_approval = true
is_cancellable ContractStatus.pending_buyer_approval = true
is_cancellable ContractStatus.active = true
is_cancellable _ = false

abbrev pub cancels_contract : Deal → Deal
cancels_contract d = record d {
  contract_status = ContractStatus.cancelled;
  contract_version = d.contract_version + 1;
}

unfoldable pub cancel_contract : ℕ → ℕ → ℕ → ℕ → Store → Result Failure Store
unfolding restore_allocation
cancel_contract now organization i version store = do
  d ← or_throw (get_elem? store.deals i) not_found
  throw_if (not (is_party organization d)) not_found
  throw_if (not (d.contract_version == version)) version_conflict
  throw_if (is_some d.order || not (is_cancellable d.contract_status)) unprocessable
  restore_allocation now ReservationStatus.cancelled i (cancels_contract d)
      (put_deal i (cancels_contract d) store)

-- The two callers of `transitionReservation`.
pub data Release : Type 0 where
  release cancel : Release

abbrev pub released_status : Release → ReservationStatus
released_status release = ReservationStatus.released
released_status cancel = ReservationStatus.cancelled

abbrev pub may_act : Release → ℕ → Deal → Bool
may_act release organization d = d.seller == organization
may_act cancel organization d = is_party organization d

abbrev pub is_allowed : Release → ReservationStatus → Bool
is_allowed _ ReservationStatus.active = true
is_allowed cancel ReservationStatus.contracted = true
is_allowed _ _ = false

abbrev pub is_ended : ContractStatus → Bool
is_ended ContractStatus.cancelled = true
is_ended ContractStatus.expired = true
is_ended _ = false

unfoldable pub transition_reservation : Release → ℕ → ℕ → ℕ → ℕ → Store → Result Failure Store
unfolding restore_allocation
transition_reservation kind now organization i version store = do
  d ← or_throw (get_elem? store.deals i) not_found
  throw_if (not (may_act kind organization d)) not_found
  throw_if (not (d.reservation_version == version)) version_conflict
  throw_if (not (is_allowed kind d.reservation_status) || is_some d.order) unprocessable
  let d' = if is_ended d.contract_status then d else cancels_contract d
  restore_allocation now (released_status kind) i d' (put_deal i d' store)
