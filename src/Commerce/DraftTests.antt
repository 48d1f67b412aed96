-- ===== src/Commerce/DraftTests.antt =====
-- A second listing of a lot, and a listing that is changed while a part of it is reserved.
use clycites_platform.Prelude.{◌+◌, ◌≡◌, ◌↔◌, refl, true, none, some, [], ◌∷◌, Result, ok, err}
use clycites_platform.Commerce.State.{Store, Failure, insufficient_available}
use clycites_platform.Commerce.Listings.{Transition, transition_listing}
use clycites_platform.Commerce.Contracts.{accept_offer}
use clycites_platform.Commerce.Drafts.{
  LotRow, ListingInput, create_listing, update_listing, already_listed,
}
use clycites_platform.Commerce.DraftSteps.{
  IsWithinLot, create_listing-IsWithinLot, update_listing-IsBalanced_iff,
}
use clycites_platform.Commerce.Balance.{IsBalanced, reserved}
use clycites_platform.Commerce.Conservation.{
  accept_offer_step, transition_listing_step, run, apply, run-IsConsistent,
}
use clycites_platform.Commerce.Tests.{market, market-IsConsistent}

abbrev lot_of_150 : LotRow
lot_of_150 = record { is_approved = true; is_passed = true; quantity = 150 }

abbrev fifty : ListingInput
fifty = record {
  lot = 9;
  listed_quantity = 50;
  is_fixed_price = true;
  asking_unit_price = some 7;
  expires_at = none;
}

abbrev or_market : Result Failure Store → Store
or_market (ok after) = after
or_market (err e) = market

abbrev two_listings : Store
unfolding create_listing
two_listings = or_market (create_listing 1 (some lot_of_150) (0 ∷ []) 1 fifty market)

-- The lot has no room for a third.
third_listing :
    create_listing 1 (some lot_of_150) (0 ∷ 1 ∷ []) 2 fifty two_listings
    ≡ err insufficient_available
unfolding create_listing already_listed two_listings
third_listing = refl

create_listing-IsWithinLot_example : IsWithinLot lot_of_150 9 1 (0 ∷ []) two_listings
unfolding create_listing already_listed reserved two_listings
create_listing-IsWithinLot_example =
    create_listing-IsWithinLot 1 lot_of_150 (0 ∷ []) 1 fifty market two_listings market-IsConsistent
      refl (refl, tt) refl

-- 40 of 100 units are reserved when the listing is paused.
abbrev paused_market : Store
unfolding run apply accept_offer transition_listing
paused_market =
    run (accept_offer_step 5 1 0 1 ∷ transition_listing_step Transition.pause 1 0 2 ∷ []) market

abbrev changed_market : Store
unfolding update_listing paused_market
changed_market =
    or_market (
      update_listing 1 0 3 (record { listed_quantity = some 100; expires_at = none }) paused_market)

-- All 100 are available again, beside the 40 reserved.
reserved_twice : (changed_market.listings 0).available + reserved 0 changed_market.deals ≡ 140
unfolding changed_market paused_market reserved
reserved_twice = refl

update_listing-IsBalanced_iff_example :
    IsBalanced changed_market.listings changed_market.deals ↔ (reserved 0 paused_market.deals ≡ 0)
unfolding update_listing changed_market
update_listing-IsBalanced_iff_example =
    update_listing-IsBalanced_iff 1 0 3 100 none paused_market changed_market
      (run-IsConsistent
        (accept_offer_step 5 1 0 1 ∷ transition_listing_step Transition.pause 1 0 2 ∷ []) market
        market-IsConsistent)
      refl
