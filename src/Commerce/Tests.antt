-- ===== src/Commerce/Tests.antt =====
-- A listing of 100 units and an offer of 40: accepted, signed, ordered, and the order cancelled.
use clycites_platform.Prelude.{
  some, ok, get_elem?, ◌+◌, ◌≡◌, ◌≢◌, refl, true, false, none, List, [], ◌∷◌, err,
}
use clycites_platform.Commerce.Acceptance.{Settles, accept-Settles, approve_contract_once}
use clycites_platform.Commerce.State.{
  Deal, Order, ReservationStatus, ContractStatus, OrderStatus, CustodyStatus, Decision, Listing,
  Offer, Store, ListingStatus, OfferStatus, exceeds_listed, restore_allocation,
}
use clycites_platform.Commerce.Contracts.{accept_offer, approve_contract}
use clycites_platform.Commerce.Offers.{counter_offer}
use clycites_platform.Commerce.Orders.{
  AcceptanceInput, accept, is_buyer, is_received, create_order, cancel_order, sync_custody,
}
use clycites_platform.Commerce.Balance.{IsBalanced, reserved}
use clycites_platform.Commerce.Consistency.{IsConsistent}
use clycites_platform.Commerce.Matching.{AllMatched}
use clycites_platform.Commerce.MatchedRuns.{all_timely, run_keeps_deals_matched}
use clycites_platform.Commerce.Conservation.{
  Step, counter_offer_step, accept_offer_step, approve_contract_step, create_order_step,
  cancel_order_step, run, apply, run-IsConsistent, run_conserves_quantity, sync_custody_step,
  apply_never_exceeds_listed,
}

abbrev coffee : Listing
coffee = record {
  seller = 1;
  lot = 9;
  status = ListingStatus.published;
  listed = 100;
  available = 100;
  expires_at = none;
  version = 1;
}

abbrev offer_of_40 : Offer
offer_of_40 = record {
  listing = 0;
  seller = 1;
  buyer = 2;
  status = OfferStatus.submitted;
  version = 1;
  quantity = 40;
  valid_until = 1_000;
  submitted_by = 20;
  parent = none;
  round_number = 1;
}

abbrev pub market : Store
market = record {
  listings = λ l. coffee;
  offers = offer_of_40 ∷ [];
  deals = [];
  sale_hold = λ l. false;
  lot_closed = λ l. false;
  acceptances = [];
}

pub market-IsConsistent : IsConsistent market
unfolding IsBalanced reserved
market-IsConsistent = record { balanced = λ l. refl; fitting = tt }

abbrev signed_steps : List Step
signed_steps =
    accept_offer_step 10 1 0 1
    ∷ approve_contract_step 1 0 1
    ∷ approve_contract_step 2 0 2
    ∷ create_order_step 1 0
    ∷ []

abbrev cancelled_steps : List Step
cancelled_steps =
    accept_offer_step 10 1 0 1
    ∷ approve_contract_step 1 0 1
    ∷ approve_contract_step 2 0 2
    ∷ create_order_step 1 0
    ∷ cancel_order_step 20 1 0 1
    ∷ []

-- The steps do what they say: 40 units are taken, and given back with the order.
available_while_ordered : ((run signed_steps market).listings 0).available ≡ 60
unfolding run apply create_order approve_contract accept_offer
available_while_ordered = refl

available_after_cancellation : ((run cancelled_steps market).listings 0).available ≡ 100
unfolding run apply cancel_order create_order approve_contract accept_offer restore_allocation
available_after_cancellation = refl

run_conserves_quantity_example :
    ((run signed_steps market).listings 0).available + reserved 0 (run signed_steps market).deals
    ≡ ((run signed_steps market).listings 0).listed
run_conserves_quantity_example = run_conserves_quantity signed_steps market market-IsConsistent 0

run_keeps_deals_matched_example : AllMatched (run cancelled_steps market)
unfolding all_timely run apply cancel_order create_order approve_contract accept_offer
    restore_allocation
run_keeps_deals_matched_example = run_keeps_deals_matched cancelled_steps market tt refl

-- The cancellation gives back what the signed order holds.
apply_never_exceeds_listed_example :
    apply (cancel_order_step 20 1 0 1) (run signed_steps market) ≢ err exceeds_listed
apply_never_exceeds_listed_example =
    apply_never_exceeds_listed (cancel_order_step 20 1 0 1) (run signed_steps market)
      (run-IsConsistent signed_steps market market-IsConsistent)

-- The order of the signed deal, received by the buyer.
abbrev received_deal : Deal
received_deal = record {
  listing = 0;
  lot = 9;
  seller = 1;
  buyer = 2;
  quantity = 40;
  expires_at = 1_000;
  reservation_status = ReservationStatus.consumed;
  reservation_version = 3;
  contract_status = ContractStatus.active;
  contract_version = 3;
  seller_approved = true;
  order = some (record {
    status = OrderStatus.pending_buyer_inspection;
    version = 3;
    custody = some CustodyStatus.received;
  });
}

abbrev received_market : Store
received_market = record market { deals = received_deal ∷ [] }

abbrev partial_input : AcceptanceInput
partial_input = record {
  accepted_quantity = 30;
  rejected_quantity = 10;
  decision = Decision.partially_accepted;
  has_reason = true;
  inspection = some true;
  supersedes = none;
}

accept-Settles_example :
    (d : Deal) × (order : Order) × (get_elem? received_market.deals 0 ≡ some d)
    × (d.order ≡ some order)
    × (is_buyer 2 d ≡ true)
    × (is_received order.custody ≡ true)
    × (30 + 10 ≡ d.quantity)
    × Settles Decision.partially_accepted 30 10
unfolding accept
accept-Settles_example = accept-Settles 2 0 partial_input received_market refl

abbrev unsigned_market : Store
unsigned_market = record market {
  deals =
      record received_deal {
        contract_status = ContractStatus.pending_seller_approval;
        contract_version = 1;
        reservation_status = ReservationStatus.active;
        order = none;
      }
      ∷ [];
}

approve_contract_once_example :
    approve_contract 2 0 1 (run (approve_contract_step 1 0 1 ∷ []) unsigned_market) ≢ ok market
unfolding run apply approve_contract
approve_contract_once_example = approve_contract_once 1 2 0 1 unsigned_market market refl

-- An order that was cancelled before its goods were dispatched.
abbrev cancelled_order : Deal
cancelled_order = record received_deal {
  contract_status = ContractStatus.cancelled;
  reservation_status = ReservationStatus.cancelled;
  order = some (record {
    status = OrderStatus.cancelled;
    version = 3;
    custody = some CustodyStatus.dispatched;
  });
}

-- The order is in transit again, and its contract cancelled: the step is not a timely one.
cancelled_in_transit :
    (run (sync_custody_step 1 0 ∷ []) (record market { deals = cancelled_order ∷ [] })).deals
    ≡ record cancelled_order {
      order = some (record {
        status = OrderStatus.in_transit;
        version = 4;
        custody = some CustodyStatus.dispatched;
      });
    }
      ∷ []
unfolding run apply sync_custody
cancelled_in_transit = refl

-- The seller counters the buyer's offer and accepts the counter itself.
abbrev own_counter : List Step
own_counter =
    counter_offer_step 10 1 0 1 (record { quantity = 100; unit_price = 9; valid_until = 2_000 })
    ∷ accept_offer_step 5 1 1 1
    ∷ []

own_counter_accepted : ((run own_counter market).listings 0).available ≡ 0
unfolding run apply counter_offer accept_offer
own_counter_accepted = refl
