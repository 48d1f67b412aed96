-- ===== src/Commerce/MatchingOrders.antt =====
-- What the operations on orders keep of the statuses that go together.
use clycites_platform.Prelude.{
  ℕ, ◌+◌, ◌≡◌, refl, ap, ◌∙◌, sym, Bool, true, false, not, ◌||◌, inl, inr, Option, none, some,
  arith, Result, ok, ◌>>=◌, or_throw, ◌==◌, is_some, Option-cases, Bool-cases, Ensures,
  Ensures-throw_if, Ensures-or_throw,
}
use clycites_platform.Commerce.State.{
  ReservationStatus, OrderStatus, Order, Deal, Store, Failure, get_elem?, is_party, not_found,
}
use clycites_platform.Commerce.Contracts.{cancels_contract}
use clycites_platform.Commerce.Orders.{
  attaches, completes, is_accepted, is_pending_fulfillment, status_after_custody,
  is_status_after_custody, is_buyer, is_received, decision_fails, is_missing, status_after_decision,
  create_order, is_active_contract, is_seller, is_before_dispatch, moves_order, opens_order,
  find_order, cancel_order, attach_custody_transfer, sync_custody, accept, complete,
  AcceptanceInput,
}
use clycites_platform.Commerce.Matching.{
  is_matched, is_closed, AllMatched, found_matched, put_deal-AllMatched,
  restore_allocation-AllMatched,
}

-- Whether the order of the deal at `i`, if there is one, is neither completed nor cancelled.
abbrev is_open_order : Option Order → Bool
is_open_order none = true
is_open_order (some order) = not (is_closed order.status)

abbrev is_open_deal : Option Deal → Bool
is_open_deal none = true
is_open_deal (some d) = is_open_order d.order

abbrev pub is_open_at : ℕ → Store → Bool
is_open_at i store = is_open_deal (get_elem? store.deals i)

open_order :
    (i : ℕ) (store : Store) (d : Deal) (order : Order)
    → is_open_at i store ≡ true
    → get_elem? store.deals i ≡ some d
    → d.order ≡ some order
    → is_closed order.status ≡ false
open_order i store d order timely found ordered =
    let still : not (is_closed order.status) ≡ true =
      sym (ap is_open_deal found ∙ ap is_open_order ordered) ∙ timely in
    ground arith

Ensures-pair :
    (d : Deal) (o : Option Order) (f : (Deal × Order) → Result Failure Store)
    → ((order : Order) → o ≡ some order → Ensures AllMatched (f (d, order)))
    → Ensures AllMatched ((or_throw o not_found >>= λ order. ok (d, order)) >>= f)
unfolding Ensures
Ensures-pair d none f k = tt
Ensures-pair d (some order) f k = k order refl

Ensures-find_order :
    (is_seen : Deal → Bool) (i : ℕ) (store : Store) (f : (Deal × Order) → Result Failure Store)
    → ((d : Deal) (order : Order)
        → get_elem? store.deals i ≡ some d
        → d.order ≡ some order
        → Ensures AllMatched (f (d, order)))
    → Ensures AllMatched (find_order is_seen i store >>= f)
unfolding find_order Ensures
Ensures-find_order is_seen i store f k = elim (Option-cases (get_elem? store.deals i)) [
  | inl missing ↦ rw missing tt
  | inr (d, found) ↦ rw found (elim (Bool-cases (is_seen d)) [
    | inr hidden ↦ rw hidden tt
    | inl seen ↦ rw seen (Ensures-pair d d.order f (λ order ordered. k d order found ordered))
  ])
]

pub create_order-AllMatched :
    (seller i : ℕ) (store : Store)
    → AllMatched store
    → Ensures AllMatched (create_order seller i store)
unfolding create_order is_matched Ensures
create_order-AllMatched seller i store m =
    Ensures-or_throw AllMatched (get_elem? store.deals i) _ _ λ d found.
      Ensures-throw_if AllMatched (not (d.seller == seller)) _ _ λ h1.
        Ensures-throw_if AllMatched (not (is_active_contract d.contract_status) || is_some d.order)
          _ _
          λ h2.
            let fits = found_matched store i d m found in
            put_deal-AllMatched i (opens_order d) store m (ground arith)

pub cancel_order-AllMatched :
    (now seller i version : ℕ) (store : Store)
    → AllMatched store
    → Ensures AllMatched (cancel_order now seller i version store)
unfolding cancel_order is_matched
cancel_order-AllMatched now seller i version store m =
    Ensures-find_order (is_seller seller) i store _ λ d order found ordered.
      Ensures-throw_if AllMatched (not (order.version == version)) _ _ λ h1.
        Ensures-throw_if AllMatched (not (is_before_dispatch order.status)) _ _ λ h2.
          restore_allocation-AllMatched now ReservationStatus.cancelled i
            (cancels_contract (moves_order OrderStatus.cancelled d order)) store m (ground arith)

pub attach_custody_transfer-AllMatched :
    (seller i version : ℕ) (transfer : Option ℕ) (store : Store)
    → AllMatched store
    → Ensures AllMatched (attach_custody_transfer seller i version transfer store)
unfolding attach_custody_transfer is_matched Ensures
attach_custody_transfer-AllMatched seller i version transfer store m =
    Ensures-find_order (is_seller seller) i store _ λ d order found ordered.
      Ensures-throw_if AllMatched
        (not (order.version == version) || not (is_pending_fulfillment order.status)) _ _
        λ h1. Ensures-or_throw AllMatched transfer _ _ λ quantity h2.
          Ensures-throw_if AllMatched (not (quantity == d.quantity)) _ _ λ h3.
            let fits = found_matched store i d m found in
            put_deal-AllMatched i (attaches d order) store m (ground arith)

pub complete-AllMatched :
    (seller i : ℕ) (store : Store) → AllMatched store → Ensures AllMatched (complete seller i store)
unfolding complete is_matched Ensures
complete-AllMatched seller i store m =
    Ensures-find_order (is_seller seller) i store _ λ d order found ordered.
      Ensures-throw_if AllMatched (not (is_accepted order.status)) _ _ λ h1.
        let fits = found_matched store i d m found in
        put_deal-AllMatched i (completes d order) store m (ground arith)

pub sync_custody-AllMatched :
    (organization i : ℕ) (store : Store)
    → AllMatched store
    → is_open_at i store ≡ true
    → Ensures AllMatched (sync_custody organization i store)
unfolding sync_custody is_matched Ensures
sync_custody-AllMatched organization i store m timely =
    Ensures-find_order (is_party organization) i store _ λ d order found ordered.
      Ensures-or_throw AllMatched order.custody _ _ λ custody h1.
        Ensures-or_throw AllMatched (status_after_custody custody) _ _ λ next h2.
          let fits = found_matched store i d m found in
          let still = open_order i store d order timely found ordered in
          elim (Bool-cases (is_status_after_custody custody order.status)) [
            | inl t ↦ rw t m
            | inr f ↦ rw f (put_deal-AllMatched i (moves_order next d order) store m (ground arith))
          ]

pub accept-AllMatched :
    (buyer i : ℕ) (input : AcceptanceInput) (store : Store)
    → AllMatched store
    → is_open_at i store ≡ true
    → Ensures AllMatched (accept buyer i input store)
unfolding accept is_matched Ensures
accept-AllMatched buyer i input store m timely =
    let accepted_units = input.accepted_quantity in
    let rejected_units = input.rejected_quantity in
    Ensures-find_order (is_buyer buyer) i store _ λ d order found ordered.
      Ensures-throw_if AllMatched (not (is_received order.custody)) _ _ λ h1.
        Ensures-throw_if AllMatched (not ((accepted_units + rejected_units) == d.quantity)) _ _
          λ h2.
            Ensures-throw_if AllMatched
              (decision_fails input.decision input.has_reason accepted_units rejected_units
                d.quantity)
              _ _
              λ h3. Ensures-throw_if AllMatched (is_missing input.inspection) _ _ λ h4.
                Ensures-throw_if AllMatched (is_missing input.supersedes) _ _ λ h5.
                  let fits = found_matched store i d m found in
                  let still = open_order i store d order timely found ordered in
                  put_deal-AllMatched i (moves_order (status_after_decision input.decision) d order)
                    store m (ground arith)
