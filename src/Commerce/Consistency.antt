-- ===== src/Commerce/Consistency.antt =====
-- What a consistent store is: the balance of its listings, and as much about the statuses of its
-- deals as the balance needs, whenever custody is synchronised. Which statuses go together exactly
-- is the matter of Matching.
use clycites_platform.Prelude.{
  All-set, set-set, get_elem?-set, ℕ, ◌+◌, ◌≡◌, refl, ap, Bool, true, false, not, ◌&&◌, Option,
  none, some, arith, Result, ok, err, ◌>>=◌, ◌>>◌, throw_if, or_throw, ltb, if◌then◌else◌, All,
}
use clycites_platform.Commerce.State.{
  ReservationStatus, ContractStatus, Deal, Store, Failure, exceeds_listed, get_elem?, set, is_live,
  remaining, listing_status_restored, restore_allocation,
}
use clycites_platform.Commerce.Contracts.{put_deal}
use clycites_platform.Commerce.Orders.{is_before_dispatch}
use clycites_platform.Commerce.Balance.{
  IsBalanced, IsBalanced-touch, IsBalanced-release, restored_within,
}

-- Without an order: the reservation is ACTIVE while the contract is unsigned, CONTRACTED with an
-- active contract, and ended with an ended one.
abbrev pub fits_contract : ContractStatus → ReservationStatus → Bool
fits_contract ContractStatus.draft ReservationStatus.active = true
fits_contract ContractStatus.pending_seller_approval ReservationStatus.active = true
fits_contract ContractStatus.pending_buyer_approval ReservationStatus.active = true
fits_contract ContractStatus.active ReservationStatus.contracted = true
fits_contract ContractStatus.cancelled r = not (is_live r)
fits_contract ContractStatus.expired r = not (is_live r)
fits_contract _ _ = false

abbrev is_signed_and_consumed : ContractStatus → ReservationStatus → Bool
is_signed_and_consumed ContractStatus.active ReservationStatus.consumed = true
is_signed_and_consumed _ _ = false

abbrev is_signed : ContractStatus → Bool
is_signed ContractStatus.active = true
is_signed ContractStatus.fulfilled = true
is_signed ContractStatus.cancelled = true
is_signed _ = false

-- CONSUMED, or CANCELLED with the order.
abbrev is_spent : ReservationStatus → Bool
is_spent ReservationStatus.consumed = true
is_spent ReservationStatus.cancelled = true
is_spent _ = false

unfoldable pub is_consistent : Deal → Bool
is_consistent d = elim d.order [
  | none ↦ fits_contract d.contract_status d.reservation_status
  | some order ↦
      if is_before_dispatch order.status
      then is_signed_and_consumed d.contract_status d.reservation_status
      else is_signed d.contract_status && is_spent d.reservation_status
]

pub record IsConsistent (store : Store) : Type 0 where
  pub balanced : IsBalanced store.listings store.deals
  pub fitting : All (λ d. is_consistent d ≡ true) store.deals

abbrev pub is_other_failure : Failure → Bool
is_other_failure exceeds_listed = false
is_other_failure _ = true

-- A result that is a consistent store, or a failure other than `exceeds_listed`.
unfoldable pub Keeps : Result Failure Store → Type 0
Keeps (ok store) = IsConsistent store
Keeps (err e) = is_other_failure e ≡ true

pub Keeps-throw_if :
    (test : Bool) (e : Failure) (k : Result Failure Store)
    → is_other_failure e ≡ true
    → (test ≡ false → Keeps k)
    → Keeps (throw_if test e >> k)
unfolding Keeps
Keeps-throw_if true e k other h = other
Keeps-throw_if false e k other h = h refl

pub Keeps-or_throw :
    {A : Type 0} (o : Option A) (e : Failure) (f : A → Result Failure Store)
    → is_other_failure e ≡ true
    → ((a : A) → o ≡ some a → Keeps (f a))
    → Keeps (or_throw o e >>= f)
unfolding Keeps
Keeps-or_throw none e f other h = other
Keeps-or_throw (some a) e f other h = h a refl

module _ (store : Store) (i : ℕ) (d e : Deal) (found : get_elem? store.deals i ≡ some d)
    (c : IsConsistent store) where
  -- A deal that is replaced by one with the same listing, quantity and liveness.
  pub put_deal-IsConsistent :
      e.listing ≡ d.listing
      → e.quantity ≡ d.quantity
      → is_live e.reservation_status ≡ is_live d.reservation_status
      → is_consistent e ≡ true
      → IsConsistent (put_deal i e store)
  put_deal-IsConsistent hl hq hs fits = record {
    balanced = IsBalanced-touch store.listings store.deals i d e found hl hq hs c.balanced;
    fitting = All-set (λ x. is_consistent x ≡ true) store.deals i e c.fitting fits;
  }

  -- A live deal whose quantity goes back to its listing.
  pub restore_allocation-Keeps :
      (now : ℕ) (status : ReservationStatus)
      → e.listing ≡ d.listing
      → e.quantity ≡ d.quantity
      → e.reservation_status ≡ d.reservation_status
      → is_live d.reservation_status ≡ true
      → is_live status ≡ false
      → is_consistent (record e {
        reservation_status = status;
        reservation_version = e.reservation_version + 1;
      })
        ≡ true
      → Keeps (restore_allocation now status i e (put_deal i e store))
  unfolding Keeps restore_allocation listing_status_restored remaining
  restore_allocation-Keeps now status hl hq hs live ended fits =
      let kept =
        IsBalanced-touch store.listings store.deals i d e found hl hq (ap is_live hs) c.balanced in
      let there = get_elem?-set store.deals i d e found in
      let lives : is_live e.reservation_status ≡ true = rw hs live in
      let bound = restored_within store.listings (set store.deals i e) i e there lives kept in
      let fine : ltb (store.listings e.listing).listed
            ((store.listings e.listing).available + e.quantity)
          ≡ false =
        ground arith in
      rw fine (record {
        balanced =
            IsBalanced-release store.listings (set store.deals i e) i e _ _ there lives ended refl
              refl kept;
        fitting =
            rw (set-set store.deals i e _)
              (All-set (λ x. is_consistent x ≡ true) store.deals i _ c.fitting fits);
      })
