-- ===== src/Commerce/Orders.antt =====
-- Sales orders: `CommerceService.createOrder`, `cancelOrder`, `attachCustodyTransfer`,
-- `syncCustody`, `accept` and `complete` (apps/api/src/marketplace/commerce.service.ts).
use clycites_platform.Prelude.{
  ℕ, ◌+◌, Bool, true, false, not, ◌||◌, Option, none, some, is_some, [], ◌∷◌, ◌++◌, Result, ok,
  ◌>>=◌, ◌>>◌, throw_if, or_throw, ◌==◌, if◌then◌else◌,
}
use clycites_platform.Commerce.State.{
  ReservationStatus, ContractStatus, OrderStatus, CustodyStatus, Decision, Acceptance, Order, Deal,
  Store, Failure, not_found, version_conflict, unprocessable, order_transition_invalid,
  custody_not_received, acceptance_quantity_mismatch, update, get_elem?, is_party,
  restore_allocation,
}
use clycites_platform.Commerce.Contracts.{put_deal, cancels_contract}

abbrev pub is_active_contract : ContractStatus → Bool
is_active_contract ContractStatus.active = true
is_active_contract _ = false

abbrev pub new_order : Order
new_order = record { status = OrderStatus.pending_fulfillment; version = 1; custody = none }

abbrev pub opens_order : Deal → Deal
opens_order d = record d {
  order = some new_order;
  reservation_status = ReservationStatus.consumed;
  reservation_version = d.reservation_version + 1;
}

unfoldable pub create_order : ℕ → ℕ → Store → Result Failure Store
create_order seller i store = do
  d ← or_throw (get_elem? store.deals i) not_found
  throw_if (not (d.seller == seller)) not_found
  throw_if (not (is_active_contract d.contract_status) || is_some d.order) unprocessable
  ok (put_deal i (opens_order d) store)

-- The deal and its order, that one of the parties asks for.
unfoldable pub find_order : (Deal → Bool) → ℕ → Store → Result Failure (Deal × Order)
find_order is_seen i store = do
  d ← or_throw (get_elem? store.deals i) not_found
  throw_if (not (is_seen d)) not_found
  order ← or_throw d.order not_found
  ok (d, order)

abbrev pub is_before_dispatch : OrderStatus → Bool
is_before_dispatch OrderStatus.pending_fulfillment = true
is_before_dispatch OrderStatus.ready_for_dispatch = true
is_before_dispatch _ = false

abbrev pub moves_order : OrderStatus → Deal → Order → Deal
moves_order status d order = record d {
  order = some (record order { status = status; version = order.version + 1 });
}

abbrev pub is_seller : ℕ → Deal → Bool
is_seller organization d = d.seller == organization

abbrev pub is_buyer : ℕ → Deal → Bool
is_buyer organization d = d.buyer == organization

unfoldable pub cancel_order : ℕ → ℕ → ℕ → ℕ → Store → Result Failure Store
unfolding find_order
cancel_order now seller i version store = do
  (d, order) ← find_order (is_seller seller) i store
  throw_if (not (order.version == version)) version_conflict
  throw_if (not (is_before_dispatch order.status)) order_transition_invalid
  let e = cancels_contract (moves_order OrderStatus.cancelled d order)
  restore_allocation now ReservationStatus.cancelled i e (put_deal i e store)

abbrev pub is_pending_fulfillment : OrderStatus → Bool
is_pending_fulfillment OrderStatus.pending_fulfillment = true
is_pending_fulfillment _ = false

abbrev pub attaches : Deal → Order → Deal
attaches d order = record d {
  order = some (record order {
    status = OrderStatus.ready_for_dispatch;
    version = order.version + 1;
    custody = some CustodyStatus.draft;
  });
}

-- `transfer` is the quantity of the draft transfer that the query for the lot and the two parties
-- finds under the given id.
unfoldable pub attach_custody_transfer : ℕ → ℕ → ℕ → Option ℕ → Store → Result Failure Store
unfolding find_order
attach_custody_transfer seller i version transfer store = do
  (d, order) ← find_order (is_seller seller) i store
  throw_if (not (order.version == version) || not (is_pending_fulfillment order.status))
      version_conflict
  quantity ← or_throw transfer unprocessable
  throw_if (not (quantity == d.quantity)) unprocessable
  ok (put_deal i (attaches d order) store)

abbrev pub status_after_custody : CustodyStatus → Option OrderStatus
status_after_custody CustodyStatus.received = some OrderStatus.pending_buyer_inspection
status_after_custody CustodyStatus.dispatched = some OrderStatus.in_transit
status_after_custody _ = none

abbrev pub is_status_after_custody : CustodyStatus → OrderStatus → Bool
is_status_after_custody CustodyStatus.received OrderStatus.pending_buyer_inspection = true
is_status_after_custody CustodyStatus.dispatched OrderStatus.in_transit = true
is_status_after_custody _ _ = false

unfoldable pub sync_custody : ℕ → ℕ → Store → Result Failure Store
unfolding find_order
sync_custody organization i store = do
  (d, order) ← find_order (is_party organization) i store
  custody ← or_throw order.custody unprocessable
  next ← or_throw (status_after_custody custody) unprocessable
  ok (
      if is_status_after_custody custody order.status
      then store
      else put_deal i (moves_order next d order) store)

-- `inspection` and `supersedes` are `none` where the input names no row, and otherwise say
-- whether the query finds the row.
pub record AcceptanceInput : Type 0 where
  pub accepted_quantity : ℕ
  pub rejected_quantity : ℕ
  pub decision : Decision
  pub has_reason : Bool
  pub inspection : Option Bool
  pub supersedes : Option Bool

abbrev pub is_received : Option CustodyStatus → Bool
is_received (some CustodyStatus.received) = true
is_received _ = false

abbrev pub decision_fails : Decision → Bool → ℕ → ℕ → ℕ → Bool
decision_fails Decision.accepted has_reason accepted rejected ordered =
    not (accepted == ordered) || not (rejected == 0)
decision_fails Decision.rejected has_reason accepted rejected ordered =
    not (accepted == 0) || not (rejected == ordered) || not has_reason
decision_fails Decision.partially_accepted has_reason accepted rejected ordered =
    accepted == 0 || rejected == 0 || not has_reason

abbrev pub is_missing : Option Bool → Bool
is_missing (some false) = true
is_missing _ = false

abbrev pub status_after_decision : Decision → OrderStatus
status_after_decision Decision.accepted = OrderStatus.accepted
status_after_decision Decision.rejected = OrderStatus.rejected
status_after_decision Decision.partially_accepted = OrderStatus.disputed

abbrev pub new_acceptance : ℕ → AcceptanceInput → Acceptance
new_acceptance i input = record {
  deal = i;
  accepted_quantity = input.accepted_quantity;
  rejected_quantity = input.rejected_quantity;
  decision = input.decision;
}

-- The order's own status is not looked at.
unfoldable pub accept : ℕ → ℕ → AcceptanceInput → Store → Result Failure Store
unfolding find_order
accept buyer i input store = do
  (d, order) ← find_order (is_buyer buyer) i store
  throw_if (not (is_received order.custody)) custody_not_received
  let accepted_units = input.accepted_quantity
  let rejected_units = input.rejected_quantity
  throw_if (not ((accepted_units + rejected_units) == d.quantity)) acceptance_quantity_mismatch
  throw_if (decision_fails input.decision input.has_reason accepted_units rejected_units d.quantity)
      unprocessable
  throw_if (is_missing input.inspection) unprocessable
  throw_if (is_missing input.supersedes) unprocessable
  ok (record (put_deal i (moves_order (status_after_decision input.decision) d order) store) {
    acceptances = store.acceptances ++ new_acceptance i input ∷ [];
  })

abbrev pub is_accepted : OrderStatus → Bool
is_accepted OrderStatus.accepted = true
is_accepted _ = false

abbrev pub completes : Deal → Order → Deal
completes d order = record (moves_order OrderStatus.completed d order) {
  contract_status = ContractStatus.fulfilled;
  contract_version = d.contract_version + 1;
}

unfoldable pub complete : ℕ → ℕ → Store → Result Failure Store
unfolding find_order
complete seller i store = do
  (d, order) ← find_order (is_seller seller) i store
  throw_if (not (is_accepted order.status)) order_transition_invalid
  ok (record (put_deal i (completes d order) store) {
    sale_hold = update store.sale_hold d.lot false;
    lot_closed = update store.lot_closed d.lot true;
  })
