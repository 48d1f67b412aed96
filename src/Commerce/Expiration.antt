-- ===== src/Commerce/Expiration.antt =====
-- `CommercialExpirationWorker.runOnce` (apps/worker/src/commercial-expiration.worker.ts): listings
-- and offers past their time expire, then each due reservation gives its quantity back, in the
-- order of their times. Invitations and shares are not in the model's rows.
use clycites_platform.Prelude.{
  ℕ, ◌+◌, Bool, true, false, ◌&&◌, Option, none, some, List, [], ◌∷◌, map, leb, ◌==◌, if◌then◌else◌,
  sum_by, sort_by,
}
use clycites_platform.Commerce.State.{
  ListingStatus, ReservationStatus, ContractStatus, OfferStatus, Listing, Offer, Deal, Store,
  update, get_elem?, is_past,
}
use clycites_platform.Commerce.Contracts.{put_deal}

abbrev can_expire : ListingStatus → Bool
can_expire ListingStatus.published = true
can_expire ListingStatus.paused = true
can_expire ListingStatus.under_offer = true
can_expire ListingStatus.partially_reserved = true
can_expire _ = false

abbrev pub expire_listing : ℕ → Listing → Listing
expire_listing now listing =
    if can_expire listing.status && is_past listing.expires_at now
    then record listing { status = ListingStatus.expired; version = listing.version + 1 }
    else listing

abbrev is_open_offer : OfferStatus → Bool
is_open_offer OfferStatus.submitted = true
is_open_offer _ = false

abbrev pub expire_offer : ℕ → Offer → Offer
expire_offer now offer =
    if is_open_offer offer.status && leb offer.valid_until now
    then record offer { status = OfferStatus.expired; version = offer.version + 1 }
    else offer

abbrev pub is_active_reservation : ReservationStatus → Bool
is_active_reservation ReservationStatus.active = true
is_active_reservation _ = false

abbrev pub is_due : ℕ → Deal → Bool
is_due now d = is_active_reservation d.reservation_status && leb d.expires_at now

abbrev pub is_unsigned : ContractStatus → Bool
is_unsigned ContractStatus.draft = true
is_unsigned ContractStatus.pending_seller_approval = true
is_unsigned ContractStatus.pending_buyer_approval = true
is_unsigned _ = false

abbrev pub expires : Deal → Deal
expires d = record d {
  reservation_status = ReservationStatus.expired;
  reservation_version = d.reservation_version + 1;
  contract_status =
      if is_unsigned d.contract_status then ContractStatus.expired else d.contract_status;
  contract_version =
      if is_unsigned d.contract_status then d.contract_version + 1 else d.contract_version;
}

-- `status: { in: ['ACTIVE', 'CONTRACTED'] }`
abbrev is_held : ℕ → Deal → Bool
is_held lot d = (d.lot == lot) && (elim d.reservation_status [
  | ReservationStatus.active ↦ true
  | ReservationStatus.contracted ↦ true
  | _ ↦ false
])

unfoldable pub active_reservations : ℕ → List Deal → ℕ
active_reservations lot ds = sum_by (λ d. if is_held lot d then 1 else 0) ds

-- The transaction of one reservation that is due.
abbrev pub expire_deal : ℕ → ℕ → Deal → Store → Store
expire_deal now i d store =
    let listing = store.listings d.listing in
    let after = put_deal i (expires d) store in
    let hold_ends = active_reservations d.lot after.deals == 0 in
    record after {
      listings = update store.listings d.listing (record listing {
        available = listing.available + d.quantity;
        status =
            if is_past listing.expires_at now
            then ListingStatus.expired
            else ListingStatus.published;
        version = listing.version + 1;
      });
      sale_hold = if hold_ends then update store.sale_hold d.lot false else store.sale_hold;
    }

-- The row is read again under its lock: it may have changed since the list of due rows was made.
abbrev pub expire_found : ℕ → ℕ → Option Deal → Store → Store
expire_found now i none store = store
expire_found now i (some d) store = if is_due now d then expire_deal now i d store else store

unfoldable pub expire_reservation : ℕ → ℕ → Store → Store
unfolding active_reservations
expire_reservation now i store = expire_found now i (get_elem? store.deals i) store

-- The due rows, as position and time.
abbrev pub due_from : ℕ → ℕ → List Deal → List (ℕ × ℕ)
due_from now i [] = []
due_from now i (d ∷ ds) =
    let rest = due_from now (i + 1) ds in if is_due now d then (i, d.expires_at) ∷ rest else rest

abbrev pub due : ℕ → List Deal → List (ℕ × ℕ)
due now ds = sort_by (λ a b. leb a.1 b.1) (due_from now 0 ds)

abbrev pub expire_rows : ℕ → Store → Store
expire_rows now store = record store {
  listings = λ l. expire_listing now (store.listings l);
  offers = map (expire_offer now) store.offers;
}

unfoldable pub expire_reservations : ℕ → List (ℕ × ℕ) → Store → Store
expire_reservations now [] store = store
expire_reservations now ((i, t) ∷ rest) store =
    expire_reservations now rest (expire_reservation now i store)

unfoldable pub run_once : ℕ → Store → Store
run_once now store = expire_reservations now (due now store.deals) (expire_rows now store)
