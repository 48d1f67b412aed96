-- ===== src/Commerce/State.antt =====
-- The rows that the commerce services share. A reservation, its contract and its order stand in
-- one-to-one relations (`reservationId`, `contractId` are unique), so they are one `Deal`, named by
-- its position in the list; quantities are in units of 1/10000. `new Date()` is the argument `now`.
pub use clycites_platform.Prelude.{get_elem?, set}
use clycites_platform.Prelude.{
  ℕ, zero, suc, ◌+◌, Bool, true, false, ◌&&◌, ◌||◌, Option, none, some, List, [], ◌∷◌, Result, ok,
  ◌>>◌, throw_if, ltb, leb, ◌==◌, if◌then◌else◌, sum_by,
}

pub data ListingStatus : Type 0 where
  draft published paused under_offer partially_reserved fully_reserved : ListingStatus
  closed expired cancelled : ListingStatus

pub data ReservationStatus : Type 0 where
  active contracted consumed released expired cancelled : ReservationStatus

pub data ContractStatus : Type 0 where
  draft pending_seller_approval pending_buyer_approval active : ContractStatus
  fulfilled cancelled expired disputed : ContractStatus

pub data OrderStatus : Type 0 where
  pending_fulfillment ready_for_dispatch dispatched in_transit received : OrderStatus
  pending_buyer_inspection accepted rejected completed cancelled disputed : OrderStatus

pub data CustodyStatus : Type 0 where
  draft dispatched received rejected cancelled : CustodyStatus

pub data OfferStatus : Type 0 where
  draft submitted countered accepted rejected withdrawn expired superseded : OfferStatus

pub record Listing : Type 0 where
  pub seller : ℕ
  pub lot : ℕ
  pub status : ListingStatus
  pub listed : ℕ
  pub available : ℕ
  pub expires_at : Option ℕ
  pub version : ℕ

pub record Offer : Type 0 where
  pub listing : ℕ
  pub seller : ℕ
  pub buyer : ℕ
  pub status : OfferStatus
  pub version : ℕ
  pub quantity : ℕ
  pub valid_until : ℕ
  -- the user who submitted it, and the offer that it counters
  pub submitted_by : ℕ
  pub parent : Option ℕ
  pub round_number : ℕ

-- The custody transfer that is attached to an order shows here by its status.
pub record Order : Type 0 where
  pub status : OrderStatus
  pub version : ℕ
  pub custody : Option CustodyStatus

pub record Deal : Type 0 where
  pub listing : ℕ
  pub lot : ℕ
  pub seller : ℕ
  pub buyer : ℕ
  pub quantity : ℕ
  pub expires_at : ℕ
  pub reservation_status : ReservationStatus
  pub reservation_version : ℕ
  pub contract_status : ContractStatus
  pub contract_version : ℕ
  pub seller_approved : Bool
  pub order : Option Order

pub data Decision : Type 0 where
  accepted rejected partially_accepted : Decision

-- A buyer's acceptance, with the position of the order's deal.
pub record Acceptance : Type 0 where
  pub deal : ℕ
  pub accepted_quantity : ℕ
  pub rejected_quantity : ℕ
  pub decision : Decision

pub record Store : Type 0 where
  pub listings : ℕ → Listing
  pub offers : List Offer
  pub deals : List Deal
  -- whether the lot is held for a sale, and whether it is closed
  pub sale_hold : ℕ → Bool
  pub lot_closed : ℕ → Bool
  pub acceptances : List Acceptance

-- The exceptions by their code, or by their class where they have none.
pub data Failure : Type 0 where
  not_found version_conflict unprocessable approval_order_invalid : Failure
  exceeds_listed offer_not_actionable offer_expired insufficient_available : Failure
  order_transition_invalid custody_not_received acceptance_quantity_mismatch : Failure
  forbidden listing_not_active listing_visibility_denied listing_not_eligible : Failure

abbrev pub update {ℓ} : {A : Type ℓ} → (ℕ → A) → ℕ → A → ℕ → A
update f k v j = if k == j then v else f j

abbrev pub is_live : ReservationStatus → Bool
is_live active = true
is_live contracted = true
is_live consumed = true
is_live _ = false

abbrev pub is_party : ℕ → Deal → Bool
is_party organization d = (organization == d.seller) || (organization == d.buyer)

-- `status: { in: ['ACTIVE', 'CONTRACTED', 'CONSUMED'] }` over the other reservations of the lot.
abbrev pub holds_lot : ℕ → Deal → Bool
holds_lot lot d = (d.lot == lot) && is_live d.reservation_status

unfoldable pub remaining : ℕ → ℕ → List Deal → ℕ
remaining lot i [] = 0
remaining lot zero (d ∷ ds) = sum_by (λ e. if holds_lot lot e then 1 else 0) ds
remaining lot (suc i) (d ∷ ds) = (if holds_lot lot d then 1 else 0) + remaining lot i ds

abbrev pub is_past : Option ℕ → ℕ → Bool
is_past none now = false
is_past (some t) now = leb t now

-- The status of a listing that gets a quantity back.
unfoldable pub listing_status_restored : ℕ → Listing → ℕ → ListingStatus
listing_status_restored now listing restored = elim listing.status [
  | closed ↦ ListingStatus.closed
  | cancelled ↦ ListingStatus.cancelled
  | expired ↦ ListingStatus.expired
  | paused ↦ ListingStatus.paused
  | _ ↦
      if is_past listing.expires_at now
      then ListingStatus.expired
      else if restored == listing.listed
      then published
      else partially_reserved
]

-- `CommerceService.restoreAllocation`, on the deal at `i`.
unfoldable pub restore_allocation : ℕ → ReservationStatus → ℕ → Deal → Store → Result Failure Store
unfolding listing_status_restored remaining
restore_allocation now status i d store =
    let listing = store.listings d.listing in
    let restored = listing.available + d.quantity in
    let hold_ends = remaining d.lot i store.deals == 0 in
    throw_if (ltb listing.listed restored) exceeds_listed
    >> ok (record store {
      deals = set store.deals i (record d {
        reservation_status = status;
        reservation_version = d.reservation_version + 1;
      });
      listings = update store.listings d.listing (record listing {
        available = restored;
        status = listing_status_restored now listing restored;
        version = listing.version + 1;
      });
      sale_hold = if hold_ends then update store.sale_hold d.lot false else store.sale_hold;
    })
