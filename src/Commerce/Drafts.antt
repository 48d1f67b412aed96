-- ===== src/Commerce/Drafts.antt =====
-- Listings as they are written: `create` and `update` of MarketplaceService
-- (apps/api/src/marketplace/marketplace.service.ts), by the fields that the other calls read.
use clycites_platform.Prelude.{
  ℕ, ◌+◌, Bool, true, false, not, ◌&&◌, ◌||◌, Option, none, some, List, Result, ok, ◌>>=◌, ◌>>◌,
  throw_if, or_throw, ltb, ◌==◌, if◌then◌else◌, sum_by,
}
use clycites_platform.Commerce.State.{
  ListingStatus, Listing, Store, Failure, version_conflict, unprocessable, insufficient_available,
  listing_not_eligible,
}
use clycites_platform.Commerce.Listings.{put_listing}

-- The organization's lot, and whether its latest inspection has passed.
pub record LotRow : Type 0 where
  pub is_approved : Bool
  pub is_passed : Bool
  pub quantity : ℕ

pub record ListingInput : Type 0 where
  pub lot : ℕ
  pub listed_quantity : ℕ
  pub is_fixed_price : Bool
  pub asking_unit_price : Option ℕ
  pub expires_at : Option ℕ

-- `status: { in: ['DRAFT', 'PUBLISHED', ...] }`
abbrev pub takes_quantity : ListingStatus → Bool
takes_quantity ListingStatus.closed = false
takes_quantity ListingStatus.expired = false
takes_quantity ListingStatus.cancelled = false
takes_quantity _ = true

abbrev pub quantity_taken : ℕ → Listing → ℕ
quantity_taken lot listing =
    if (listing.lot == lot) && takes_quantity listing.status then listing.listed else 0

-- `ids` are the listings that there are.
unfoldable pub already_listed : ℕ → List ℕ → (ℕ → Listing) → ℕ
already_listed lot ids listings = sum_by (λ l. quantity_taken lot (listings l)) ids

abbrev pub new_listing : ℕ → ListingInput → Listing
new_listing organization input = record {
  seller = organization;
  lot = input.lot;
  status = ListingStatus.draft;
  listed = input.listed_quantity;
  available = input.listed_quantity;
  expires_at = input.expires_at;
  version = 1;
}

abbrev pub is_none : Option ℕ → Bool
is_none none = true
is_none (some _) = false

-- `l` is the new listing's id.
unfoldable pub create_listing :
    ℕ → Option LotRow → List ℕ → ℕ → ListingInput → Store → Result Failure Store
create_listing organization row ids l input store = do
  lot ← or_throw row listing_not_eligible
  throw_if (not lot.is_approved || not lot.is_passed) listing_not_eligible
  let requested = input.listed_quantity
  throw_if
      (requested == 0 || ltb lot.quantity (requested + already_listed input.lot ids store.listings))
      insufficient_available
  throw_if (input.is_fixed_price && is_none input.asking_unit_price) unprocessable
  ok (put_listing l (new_listing organization input) store)

abbrev pub is_editable : ListingStatus → Bool
is_editable ListingStatus.draft = true
is_editable ListingStatus.paused = true
is_editable _ = false

-- What a change says, where it says it.
pub record ListingChange : Type 0 where
  pub listed_quantity : Option ℕ
  pub expires_at : Option ℕ

abbrev pub with_quantity : Option ℕ → Listing → Listing
with_quantity none listing = listing
with_quantity (some q) listing = record listing { listed = q; available = q }

abbrev pub with_expiry : Option ℕ → Listing → Listing
with_expiry none listing = listing
with_expiry (some end) listing = record listing { expires_at = some end }

abbrev pub changed_listing : ListingChange → Listing → Listing
changed_listing input listing =
    record (with_expiry input.expires_at (with_quantity input.listed_quantity listing)) {
      version = listing.version + 1;
    }

-- Neither the lot's quantity nor the listing's reservations are looked at.
unfoldable pub update_listing : ℕ → ℕ → ℕ → ListingChange → Store → Result Failure Store
update_listing organization l version input store = do
  let listing = store.listings l
  throw_if
      (not (listing.seller == organization)
        || not (listing.version == version)
        || not (is_editable listing.status))
      version_conflict
  ok (put_listing l (changed_listing input listing) store)
