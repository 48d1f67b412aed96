-- ===== src/Commerce/ContractSteps.antt =====
-- Offers accepted, contracts approved or cancelled and reservations released keep a store consistent.
use clycites_platform.Prelude.{
  All-get_elem?, All-append, ℕ, ◌≡◌, refl, inl, inr, true, not, ◌&&◌, ◌||◌, some, [], ◌∷◌, arith,
  ltb, leb, ◌==◌, if◌then◌else◌, is_some, Bool-cases,
}
use clycites_platform.Commerce.State.{
  ReservationStatus, Deal, Store, get_elem?, is_party, not_found, version_conflict, unprocessable,
  offer_not_actionable, offer_expired, insufficient_available,
}
use clycites_platform.Commerce.Contracts.{
  accept_offer, is_submitted, new_deal, approve_contract, approves, seller_approves, activates,
  cancel_contract, cancels_contract, is_pending_seller, is_pending_buyer, is_cancellable, Release,
  released_status, is_allowed, may_act, is_ended, transition_reservation,
}
use clycites_platform.Commerce.Balance.{IsBalanced-reserve}
use clycites_platform.Commerce.Consistency.{
  IsConsistent, is_consistent, Keeps, Keeps-throw_if, Keeps-or_throw, put_deal-IsConsistent,
  restore_allocation-Keeps,
}

pub found_fits :
    (store : Store) (i : ℕ) (d : Deal)
    → IsConsistent store
    → get_elem? store.deals i ≡ some d
    → is_consistent d ≡ true
found_fits store i d c h = All-get_elem? (λ x. is_consistent x ≡ true) store.deals i d c.fitting h

pub accept_offer-Keeps :
    (now seller offer_id version : ℕ) (store : Store)
    → IsConsistent store
    → Keeps (accept_offer now seller offer_id version store)
unfolding accept_offer is_consistent Keeps
accept_offer-Keeps now seller offer_id version store c =
    Keeps-or_throw (get_elem? store.offers offer_id) not_found _ refl λ offer found.
      Keeps-throw_if (not (offer.seller == seller)) not_found _ refl λ h1.
        let listing = store.listings offer.listing in
        Keeps-throw_if (not (is_submitted offer.status) || not (offer.version == version))
          offer_not_actionable _ refl
          λ h2. Keeps-throw_if (leb offer.valid_until now) offer_expired _ refl λ h3.
            Keeps-throw_if (ltb listing.available offer.quantity) insufficient_available _ refl
              λ h4.
                let d = new_deal now offer listing in
                record {
                  balanced =
                      IsBalanced-reserve store.listings store.deals d _ refl (ground arith) refl
                        c.balanced;
                  fitting =
                      All-append (λ x. is_consistent x ≡ true) store.deals (d ∷ []) c.fitting
                        (refl, tt);
                }

pub cancel_contract-Keeps :
    (now organization i version : ℕ) (store : Store)
    → IsConsistent store
    → Keeps (cancel_contract now organization i version store)
unfolding cancel_contract is_consistent
cancel_contract-Keeps now organization i version store c =
    Keeps-or_throw (get_elem? store.deals i) not_found _ refl λ d found.
      Keeps-throw_if (not (is_party organization d)) not_found _ refl λ h1.
        Keeps-throw_if (not (d.contract_version == version)) version_conflict _ refl λ h2.
          Keeps-throw_if (is_some d.order || not (is_cancellable d.contract_status)) unprocessable _
            refl
            λ h3.
              let fits = found_fits store i d c found in
              restore_allocation-Keeps store i d (cancels_contract d) found c now
                ReservationStatus.cancelled refl refl refl (ground arith) refl (ground arith)

pub transition_reservation-Keeps :
    (kind : Release) (now organization i version : ℕ) (store : Store)
    → IsConsistent store
    → Keeps (transition_reservation kind now organization i version store)
unfolding transition_reservation is_consistent
transition_reservation-Keeps kind now organization i version store c =
    Keeps-or_throw (get_elem? store.deals i) not_found _ refl λ d found.
      Keeps-throw_if (not (may_act kind organization d)) not_found _ refl λ h1.
        Keeps-throw_if (not (d.reservation_version == version)) version_conflict _ refl λ h2.
          Keeps-throw_if (not (is_allowed kind d.reservation_status) || is_some d.order)
            unprocessable _ refl
            λ h3.
              let fits = found_fits store i d c found in
              let ends = if is_ended d.contract_status then d else cancels_contract d in
              restore_allocation-Keeps store i d ends found c now (released_status kind)
                (ground arith) (ground arith) (ground arith) (ground arith) (ground arith)
                (ground arith)

pub approve_contract-Keeps :
    (organization i version : ℕ) (store : Store)
    → IsConsistent store
    → Keeps (approve_contract organization i version store)
unfolding approve_contract approves is_consistent Keeps
approve_contract-Keeps organization i version store c =
    Keeps-or_throw (get_elem? store.deals i) not_found _ refl λ d found.
      Keeps-throw_if (not (is_party organization d)) not_found _ refl λ h1.
        Keeps-throw_if (not (d.contract_version == version)) version_conflict _ refl λ h2.
          let fits = found_fits store i d c found in
          elim (Bool-cases ((organization == d.seller) && is_pending_seller d.contract_status)) [
            | inl t ↦ rw t (
                put_deal-IsConsistent store i d (seller_approves d) found c refl refl refl
                  (ground arith))
            | inr f ↦
                rw f
                  (elim (Bool-cases (
                    (organization == d.buyer)
                    && is_pending_buyer d.contract_status
                    && d.seller_approved)) [
                      | inl t ↦ rw t (
                          put_deal-IsConsistent store i d (activates d) found c refl refl
                            (ground arith) (ground arith))
                      | inr g ↦ rw g refl
                    ])
          ]
