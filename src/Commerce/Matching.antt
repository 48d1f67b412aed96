-- ===== src/Commerce/Matching.antt =====
-- Which statuses of a deal's reservation, contract and order go together exactly, and what the
-- operations on contracts and the expiration worker keep of it.
use clycites_platform.Prelude.{
  ℕ, ◌+◌, ◌≡◌, refl, Bool, true, false, not, ◌&&◌, ◌||◌, Bool-cases, inl, inr, Option, none, some,
  is_some, List, [], ◌∷◌, arith, ltb, leb, ◌==◌, if◌then◌else◌, All, All-set, All-append,
  All-get_elem?, set-set, Ensures, Ensures-throw_if, Ensures-or_throw,
}
use clycites_platform.Commerce.State.{
  ReservationStatus, ContractStatus, OrderStatus, Deal, Store, get_elem?, is_party, remaining,
  listing_status_restored, restore_allocation,
}
use clycites_platform.Commerce.Contracts.{
  put_deal, accept_offer, is_submitted, new_deal, approve_contract, approves, seller_approves,
  activates, cancel_contract, cancels_contract, is_pending_seller, is_pending_buyer, is_cancellable,
  Release, released_status, is_allowed, may_act, is_ended, transition_reservation,
}
use clycites_platform.Commerce.Expiration.{
  expires, is_due, expire_found, expire_reservation, expire_reservations, expire_rows, run_once,
  due,
}

-- Before there is an order: reserved while the contract is unsigned, CONTRACTED with a signed one,
-- released or cancelled with a cancelled one, expired with an expired one.
abbrev pub matches_contract : ContractStatus → ReservationStatus → Bool
matches_contract ContractStatus.draft ReservationStatus.active = true
matches_contract ContractStatus.pending_seller_approval ReservationStatus.active = true
matches_contract ContractStatus.pending_buyer_approval ReservationStatus.active = true
matches_contract ContractStatus.active ReservationStatus.contracted = true
matches_contract ContractStatus.cancelled ReservationStatus.released = true
matches_contract ContractStatus.cancelled ReservationStatus.cancelled = true
matches_contract ContractStatus.expired ReservationStatus.expired = true
matches_contract _ _ = false

abbrev pub is_closed : OrderStatus → Bool
is_closed OrderStatus.completed = true
is_closed OrderStatus.cancelled = true
is_closed _ = false

abbrev is_underway : ContractStatus → ReservationStatus → Bool
is_underway ContractStatus.active ReservationStatus.consumed = true
is_underway _ _ = false

abbrev is_over : OrderStatus → ContractStatus → ReservationStatus → Bool
is_over OrderStatus.completed ContractStatus.fulfilled ReservationStatus.consumed = true
is_over OrderStatus.cancelled ContractStatus.cancelled ReservationStatus.cancelled = true
is_over _ _ _ = false

-- With an order: a signed contract and a used reservation until it is closed; then a fulfilled
-- contract with a completed order, and all three cancelled with a cancelled one.
unfoldable pub is_matched : Deal → Bool
is_matched d = elim d.order [
  | none ↦ matches_contract d.contract_status d.reservation_status
  | some order ↦
      if is_closed order.status
      then is_over order.status d.contract_status d.reservation_status
      else is_underway d.contract_status d.reservation_status
]

abbrev pub AllMatched : Store → Type 0
AllMatched store = All (λ d. is_matched d ≡ true) store.deals

pub found_matched :
    (store : Store) (i : ℕ) (d : Deal)
    → AllMatched store
    → get_elem? store.deals i ≡ some d
    → is_matched d ≡ true
found_matched store i d m h = All-get_elem? (λ x. is_matched x ≡ true) store.deals i d m h

pub put_deal-AllMatched :
    (i : ℕ) (e : Deal) (store : Store)
    → AllMatched store
    → is_matched e ≡ true
    → AllMatched (put_deal i e store)
put_deal-AllMatched i e store m fits = All-set (λ x. is_matched x ≡ true) store.deals i e m fits

pub restore_allocation-AllMatched :
    (now : ℕ) (status : ReservationStatus) (i : ℕ) (e : Deal) (store : Store)
    → AllMatched store
    → is_matched
        (record e { reservation_status = status; reservation_version = e.reservation_version + 1 })
      ≡ true
    → Ensures AllMatched (restore_allocation now status i e (put_deal i e store))
unfolding restore_allocation listing_status_restored remaining Ensures
restore_allocation-AllMatched now status i e store m fits =
    let listing = store.listings e.listing in
    Ensures-throw_if AllMatched (ltb listing.listed (listing.available + e.quantity)) _ _ λ _.
      rw (set-set store.deals i e _) (All-set (λ x. is_matched x ≡ true) store.deals i _ m fits)

pub accept_offer-AllMatched :
    (now seller offer_id version : ℕ) (store : Store)
    → AllMatched store
    → Ensures AllMatched (accept_offer now seller offer_id version store)
unfolding accept_offer is_matched Ensures
accept_offer-AllMatched now seller offer_id version store m =
    Ensures-or_throw AllMatched (get_elem? store.offers offer_id) _ _ λ offer found.
      let listing = store.listings offer.listing in
      Ensures-throw_if AllMatched (not (offer.seller == seller)) _ _ λ _.
        Ensures-throw_if AllMatched
          (not (is_submitted offer.status) || not (offer.version == version)) _ _
          λ _. Ensures-throw_if AllMatched (leb offer.valid_until now) _ _ λ _.
            Ensures-throw_if AllMatched (ltb listing.available offer.quantity) _ _ λ _.
              All-append (λ x. is_matched x ≡ true) store.deals (new_deal now offer listing ∷ []) m
                (refl, tt)

pub approve_contract-AllMatched :
    (organization i version : ℕ) (store : Store)
    → AllMatched store
    → Ensures AllMatched (approve_contract organization i version store)
unfolding approve_contract approves is_matched Ensures
approve_contract-AllMatched organization i version store m =
    Ensures-or_throw AllMatched (get_elem? store.deals i) _ _ λ d found.
      Ensures-throw_if AllMatched (not (is_party organization d)) _ _ λ h1.
        Ensures-throw_if AllMatched (not (d.contract_version == version)) _ _ λ h2.
          let fits = found_matched store i d m found in
          elim (Bool-cases ((organization == d.seller) && is_pending_seller d.contract_status)) [
            | inl t ↦ rw t (put_deal-AllMatched i (seller_approves d) store m (ground arith))
            | inr f ↦
                rw f
                  (elim (Bool-cases (
                    (organization == d.buyer)
                    && is_pending_buyer d.contract_status
                    && d.seller_approved)) [
                      | inl t ↦ rw t (put_deal-AllMatched i (activates d) store m (ground arith))
                      | inr g ↦ rw g tt
                    ])
          ]

pub cancel_contract-AllMatched :
    (now organization i version : ℕ) (store : Store)
    → AllMatched store
    → Ensures AllMatched (cancel_contract now organization i version store)
unfolding cancel_contract is_matched
cancel_contract-AllMatched now organization i version store m =
    Ensures-or_throw AllMatched (get_elem? store.deals i) _ _ λ d found.
      Ensures-throw_if AllMatched (not (is_party organization d)) _ _ λ h1.
        Ensures-throw_if AllMatched (not (d.contract_version == version)) _ _ λ h2.
          Ensures-throw_if AllMatched (is_some d.order || not (is_cancellable d.contract_status)) _
            _
            λ h3.
              restore_allocation-AllMatched now ReservationStatus.cancelled i (cancels_contract d)
                store m (ground arith)

pub transition_reservation-AllMatched :
    (kind : Release) (now organization i version : ℕ) (store : Store)
    → AllMatched store
    → Ensures AllMatched (transition_reservation kind now organization i version store)
unfolding transition_reservation is_matched
transition_reservation-AllMatched kind now organization i version store m =
    Ensures-or_throw AllMatched (get_elem? store.deals i) _ _ λ d found.
      Ensures-throw_if AllMatched (not (may_act kind organization d)) _ _ λ h1.
        Ensures-throw_if AllMatched (not (d.reservation_version == version)) _ _ λ h2.
          Ensures-throw_if AllMatched
            (not (is_allowed kind d.reservation_status) || is_some d.order) _ _
            λ h3.
              let fits = found_matched store i d m found in
              let ends = if is_ended d.contract_status then d else cancels_contract d in
              restore_allocation-AllMatched now (released_status kind) i ends store m (ground arith)

expire_found-AllMatched :
    (now i : ℕ) (o : Option Deal) (store : Store)
    → get_elem? store.deals i ≡ o
    → AllMatched store
    → AllMatched (expire_found now i o store)
unfolding is_matched
expire_found-AllMatched now i none store found m = m
expire_found-AllMatched now i (some d) store found m = elim (Bool-cases (is_due now d)) [
  | inl waits ↦
      let fits = found_matched store i d m found in
      rw waits (All-set (λ x. is_matched x ≡ true) store.deals i (expires d) m (ground arith))
  | inr rests ↦ rw rests m
]

pub expire_reservation-AllMatched :
    (now i : ℕ) (store : Store) → AllMatched store → AllMatched (expire_reservation now i store)
unfolding expire_reservation
expire_reservation-AllMatched now i store m =
    expire_found-AllMatched now i (get_elem? store.deals i) store refl m

expire_reservations-AllMatched :
    (now : ℕ) (rows : List (ℕ × ℕ)) (store : Store)
    → AllMatched store
    → AllMatched (expire_reservations now rows store)
unfolding expire_reservations
expire_reservations-AllMatched now [] store m = m
expire_reservations-AllMatched now ((i, t) ∷ rest) store m =
    expire_reservations-AllMatched now rest (expire_reservation now i store)
      (expire_reservation-AllMatched now i store m)

pub run_once-AllMatched :
    (now : ℕ) (store : Store) → AllMatched store → AllMatched (run_once now store)
unfolding run_once
run_once-AllMatched now store m =
    expire_reservations-AllMatched now (due now store.deals) (expire_rows now store) m
