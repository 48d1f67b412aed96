-- ===== src/Commerce/Acceptance.antt =====
-- What an accepted call has found: a buyer's acceptance, and a contract's approval.
use clycites_platform.Prelude.{
  ℕ, ◌+◌, ◌<◌, ◌≡◌, ◌≢◌, ap, ◌∙◌, Bool, true, false, not, some, ok, >>=-eq-ok, throw_if-eq-ok,
  or_throw, arith, ◌==◌, get_elem?, get_elem?-set,
}
use clycites_platform.Commerce.State.{
  Decision, Deal, Order, Store, not_found, version_conflict, unprocessable, custody_not_received,
  acceptance_quantity_mismatch, is_party,
}
use clycites_platform.Commerce.Contracts.{approve_contract, approves, put_deal}
use clycites_platform.Commerce.Orders.{
  AcceptanceInput, accept, find_order, is_buyer, is_received, decision_fails,
}

-- The quantities that fit a decision.
unfoldable pub Settles : Decision → ℕ → ℕ → Type 0
Settles Decision.accepted accepted rejected = rejected ≡ 0
Settles Decision.rejected accepted rejected = accepted ≡ 0
Settles Decision.partially_accepted accepted rejected = (0 < accepted) × (0 < rejected)

decision_fails-Settles :
    (decision : Decision) (has_reason : Bool) (accepted rejected ordered : ℕ)
    → decision_fails decision has_reason accepted rejected ordered ≡ false
    → Settles decision accepted rejected
unfolding Settles
decision_fails-Settles Decision.accepted has_reason accepted rejected ordered h = ground arith
decision_fails-Settles Decision.rejected has_reason accepted rejected ordered h = ground arith
decision_fails-Settles Decision.partially_accepted has_reason accepted rejected ordered h =
    ground arith

find_order-ok :
    (is_seen : Deal → Bool) (i : ℕ) (store : Store) (d : Deal) (order : Order)
    → find_order is_seen i store ≡ ok (d, order)
    → (get_elem? store.deals i ≡ some d) × (is_seen d ≡ true) × (d.order ≡ some order)
unfolding find_order
find_order-ok is_seen i store d order h = ground arith

-- An acceptance that goes through is the buyer's own, its two quantities add up to the ordered one
-- and fit the decision, and the goods were received.
pub accept-Settles :
    (buyer i : ℕ) (input : AcceptanceInput) (store : Store) {after : Store}
    → accept buyer i input store ≡ ok after
    → (d : Deal) × (order : Order) × (get_elem? store.deals i ≡ some d)
      × (d.order ≡ some order)
      × (is_buyer buyer d ≡ true)
      × (is_received order.custody ≡ true)
      × (input.accepted_quantity + input.rejected_quantity ≡ d.quantity)
      × Settles input.decision input.accepted_quantity input.rejected_quantity
unfolding accept
accept-Settles buyer i input store h =
    let ((d, order), found, h1) = >>=-eq-ok (find_order (is_buyer buyer) i store) _ h in
    let (received, h2) =
      throw_if-eq-ok (not (is_received order.custody)) custody_not_received _ h1 in
    let (split, h3) =
      throw_if-eq-ok (not ((input.accepted_quantity + input.rejected_quantity) == d.quantity))
        acceptance_quantity_mismatch _ h2 in
    let (decided, _) =
      throw_if-eq-ok
        (decision_fails input.decision input.has_reason input.accepted_quantity
          input.rejected_quantity d.quantity)
        unprocessable _ h3 in
    let (at_i, seen, ordered) = find_order-ok (is_buyer buyer) i store d order found in
    (
      d,
      order,
      at_i,
      ordered,
      seen,
      ground arith,
      ground arith,
      decision_fails-Settles input.decision input.has_reason input.accepted_quantity
          input.rejected_quantity d.quantity decided,
    )

approves-version :
    (organization : ℕ) (d e : Deal)
    → approves organization d ≡ ok e
    → e.contract_version ≡ d.contract_version + 1
unfolding approves
approves-version organization d e h = ground arith

approve_contract-ok :
    (organization i version : ℕ) (store : Store) {after : Store}
    → approve_contract organization i version store ≡ ok after
    → (d : Deal) × (e : Deal) × (get_elem? store.deals i ≡ some d)
      × (d.contract_version ≡ version)
      × (e.contract_version ≡ version + 1)
      × (after ≡ put_deal i e store)
unfolding approve_contract
approve_contract-ok organization i version store {after} h =
    let (d, found, h1) = >>=-eq-ok (or_throw (get_elem? store.deals i) not_found) _ h in
    let (_, h2) = throw_if-eq-ok (not (is_party organization d)) not_found _ h1 in
    let (current, h3) =
      throw_if-eq-ok (not (d.contract_version == version)) version_conflict _ h2 in
    let (e, approved, h4) = >>=-eq-ok (approves organization d) _ h3 in
    let seen : d.contract_version ≡ version = ground arith in
    (
      d,
      e,
      ground arith,
      seen,
      approves-version organization d e approved ∙ ap (λ (n : ℕ). n + 1) seen,
      cc,
    )

-- Once an approval went through, no approval of the same contract goes through at the version that
-- it was made at, whoever makes it.
pub approve_contract_once :
    (first second i version : ℕ) (store : Store) {after : Store} (later : Store)
    → approve_contract first i version store ≡ ok after
    → approve_contract second i version after ≢ ok later
approve_contract_once first second i version store {after} later h k =
    let (d, e, found, _, bumped, moved) = approve_contract-ok first i version store h in
    let (d', _, found', seen, _, _) = approve_contract-ok second i version after k in
    let there : get_elem? after.deals i ≡ some e =
      ap (λ (x : Store). get_elem? x.deals i) moved ∙ get_elem?-set store.deals i d e found in
    let same : e ≡ d' = cc in
    let versions : e.contract_version ≡ d'.contract_version =
      ap (λ (x : Deal). x.contract_version) same in
    omega (arith, versions, bumped, seen)
