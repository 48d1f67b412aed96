-- ===== src/Commerce/OrderSteps.antt =====
-- Every operation on orders keeps a store consistent.
use clycites_platform.Prelude.{
  ℕ, ◌+◌, ◌≡◌, refl, inl, inr, Bool, not, ◌||◌, Option, none, some, arith, Result, ok, ◌>>=◌,
  or_throw, ◌==◌, is_some, Option-cases, Bool-cases,
}
use clycites_platform.Commerce.State.{
  ReservationStatus, OrderStatus, Order, Deal, Store, Failure, get_elem?, is_party, not_found,
  version_conflict, unprocessable, order_transition_invalid, custody_not_received,
  acceptance_quantity_mismatch,
}
use clycites_platform.Commerce.Contracts.{cancels_contract}
use clycites_platform.Commerce.Orders.{
  attaches, completes, is_accepted, is_pending_fulfillment, status_after_custody,
  is_status_after_custody, is_buyer, is_received, decision_fails, is_missing, status_after_decision,
  create_order, is_active_contract, is_seller, is_before_dispatch, moves_order, opens_order,
  find_order, cancel_order, attach_custody_transfer, sync_custody, accept, complete,
  AcceptanceInput,
}
use clycites_platform.Commerce.ContractSteps.{found_fits}
use clycites_platform.Commerce.Consistency.{
  IsConsistent, is_consistent, Keeps, Keeps-throw_if, Keeps-or_throw, put_deal-IsConsistent,
  restore_allocation-Keeps,
}

pub create_order-Keeps :
    (seller i : ℕ) (store : Store) → IsConsistent store → Keeps (create_order seller i store)
unfolding create_order is_consistent Keeps
create_order-Keeps seller i store c =
    Keeps-or_throw (get_elem? store.deals i) not_found _ refl λ d found.
      Keeps-throw_if (not (d.seller == seller)) not_found _ refl λ h1.
        Keeps-throw_if (not (is_active_contract d.contract_status) || is_some d.order) unprocessable
          _ refl
          λ h2.
            let fits = found_fits store i d c found in
            put_deal-IsConsistent store i d (opens_order d) found c refl refl (ground arith)
              (ground arith)

Keeps-pair :
    (d : Deal) (o : Option Order) (f : (Deal × Order) → Result Failure Store)
    → ((order : Order) → o ≡ some order → Keeps (f (d, order)))
    → Keeps ((or_throw o not_found >>= λ order. ok (d, order)) >>= f)
unfolding Keeps
Keeps-pair d none f k = refl
Keeps-pair d (some order) f k = k order refl

Keeps-find_order :
    (is_seen : Deal → Bool) (i : ℕ) (store : Store) (f : (Deal × Order) → Result Failure Store)
    → ((d : Deal) (order : Order)
        → get_elem? store.deals i ≡ some d
        → d.order ≡ some order
        → Keeps (f (d, order)))
    → Keeps (find_order is_seen i store >>= f)
unfolding find_order Keeps
Keeps-find_order is_seen i store f k = elim (Option-cases (get_elem? store.deals i)) [
  | inl missing ↦ rw missing refl
  | inr (d, found) ↦ rw found (elim (Bool-cases (is_seen d)) [
    | inr hidden ↦ rw hidden refl
    | inl seen ↦ rw seen (Keeps-pair d d.order f (λ order ordered. k d order found ordered))
  ])
]

pub cancel_order-Keeps :
    (now seller i version : ℕ) (store : Store)
    → IsConsistent store
    → Keeps (cancel_order now seller i version store)
unfolding cancel_order is_consistent
cancel_order-Keeps now seller i version store c =
    Keeps-find_order (is_seller seller) i store _ λ d order found ordered.
      Keeps-throw_if (not (order.version == version)) version_conflict _ refl λ h1.
        Keeps-throw_if (not (is_before_dispatch order.status)) order_transition_invalid _ refl λ h2.
          let fits = found_fits store i d c found in
          restore_allocation-Keeps store i d
            (cancels_contract (moves_order OrderStatus.cancelled d order)) found c now
            ReservationStatus.cancelled refl refl refl (ground arith) refl (ground arith)

pub attach_custody_transfer-Keeps :
    (seller i version : ℕ) (transfer : Option ℕ) (store : Store)
    → IsConsistent store
    → Keeps (attach_custody_transfer seller i version transfer store)
unfolding attach_custody_transfer is_consistent Keeps
attach_custody_transfer-Keeps seller i version transfer store c =
    Keeps-find_order (is_seller seller) i store _ λ d order found ordered.
      Keeps-throw_if (not (order.version == version) || not (is_pending_fulfillment order.status))
        version_conflict _ refl
        λ h1. Keeps-or_throw transfer unprocessable _ refl λ quantity h2.
          Keeps-throw_if (not (quantity == d.quantity)) unprocessable _ refl λ h3.
            let fits = found_fits store i d c found in
            put_deal-IsConsistent store i d (attaches d order) found c refl refl refl (ground arith)

pub complete-Keeps :
    (seller i : ℕ) (store : Store) → IsConsistent store → Keeps (complete seller i store)
unfolding complete is_consistent Keeps
complete-Keeps seller i store c =
    Keeps-find_order (is_seller seller) i store _ λ d order found ordered.
      Keeps-throw_if (not (is_accepted order.status)) order_transition_invalid _ refl λ h1.
        let fits = found_fits store i d c found in
        let after =
          put_deal-IsConsistent store i d (completes d order) found c refl refl refl
            (ground arith) in
        record { balanced = after.balanced; fitting = after.fitting }

pub sync_custody-Keeps :
    (organization i : ℕ) (store : Store)
    → IsConsistent store
    → Keeps (sync_custody organization i store)
unfolding sync_custody is_consistent Keeps
sync_custody-Keeps organization i store c =
    Keeps-find_order (is_party organization) i store _ λ d order found ordered.
      Keeps-or_throw order.custody unprocessable _ refl λ custody h1.
        Keeps-or_throw (status_after_custody custody) unprocessable _ refl λ next h2.
          let fits = found_fits store i d c found in
          elim (Bool-cases (is_status_after_custody custody order.status)) [
            | inl t ↦ rw t c
            | inr f ↦ rw f (
                put_deal-IsConsistent store i d (moves_order next d order) found c refl refl refl
                  (ground arith))
          ]

pub accept-Keeps :
    (buyer i : ℕ) (input : AcceptanceInput) (store : Store)
    → IsConsistent store
    → Keeps (accept buyer i input store)
unfolding accept is_consistent Keeps
accept-Keeps buyer i input store c =
    Keeps-find_order (is_buyer buyer) i store _ λ d order found ordered.
      Keeps-throw_if (not (is_received order.custody)) custody_not_received _ refl λ h1.
        Keeps-throw_if (not ((input.accepted_quantity + input.rejected_quantity) == d.quantity))
          acceptance_quantity_mismatch _ refl
          λ h2.
            Keeps-throw_if
              (decision_fails input.decision input.has_reason input.accepted_quantity
                input.rejected_quantity d.quantity)
              unprocessable _ refl
              λ h3. Keeps-throw_if (is_missing input.inspection) unprocessable _ refl λ h4.
                Keeps-throw_if (is_missing input.supersedes) unprocessable _ refl λ h5.
                  let fits = found_fits store i d c found in
                  let after =
                    put_deal-IsConsistent store i d
                      (moves_order (status_after_decision input.decision) d order) found c refl refl
                      refl (ground arith) in
                  record { balanced = after.balanced; fitting = after.fitting }
