-- ===== src/Commerce/DraftSteps.antt =====
-- What creating and changing listings keeps (apps/api/src/marketplace/marketplace.service.ts).
use clycites_platform.Prelude.{
  ℕ, ◌+◌, ◌≤◌, ◌≡◌, refl, ap, inl, inr, true, false, not, ◌&&◌, ◌||◌, ◌↔◌, Option, none, some, List,
  [], ◌∷◌, ok, arith, ltb, ◌==◌, ==_iff, Bool-cases, All, Ensures, Ensures-ok, Ensures-throw_if,
}
use clycites_platform.Commerce.State.{Listing, Store, update}
use clycites_platform.Commerce.Drafts.{
  LotRow, ListingInput, ListingChange, quantity_taken, already_listed, is_none, new_listing,
  create_listing, is_editable, changed_listing, with_quantity, with_expiry, update_listing,
}
use clycites_platform.Commerce.Balance.{IsBalanced, reserved}
use clycites_platform.Commerce.Consistency.{IsConsistent}

-- Listings other than `l` are not touched when it is written.
already_listed-update :
    (lot l : ℕ) (after : Listing) (ids : List ℕ) (listings : ℕ → Listing)
    → All (λ k. (l == k) ≡ false) ids
    → already_listed lot ids (update listings l after) ≡ already_listed lot ids listings
unfolding already_listed
already_listed-update lot l after [] listings other = refl
already_listed-update lot l after (k ∷ ids) listings other =
    let rest = already_listed-update lot l after ids listings other.1 in
    let here : update listings l after k ≡ listings k = rw other.0 refl in
    let same : quantity_taken lot (update listings l after k) ≡ quantity_taken lot (listings k) =
      ap (quantity_taken lot) here in
    omega arith

put_listing-IsBalanced :
    (l : ℕ) (after : Listing) (store : Store)
    → IsBalanced store.listings store.deals
    → after.available + reserved l store.deals ≡ after.listed
    → IsBalanced (update store.listings l after) store.deals
unfolding IsBalanced
put_listing-IsBalanced l after store b own k = elim (Bool-cases (l == k)) [
  | inl t ↦
      let same : reserved l store.deals ≡ reserved k store.deals =
        ap (λ x. reserved x store.deals) ((==_iff l k).0 t) in
      rw t (omega arith)
  | inr f ↦ rw f (b k)
]

with_expiry-available :
    (end : Option ℕ) (listing : Listing)
    → ((with_expiry end listing).available ≡ listing.available)
      × ((with_expiry end listing).listed ≡ listing.listed)
with_expiry-available none listing = (refl, refl)
with_expiry-available (some end) listing = (refl, refl)

updated_itself :
    (listings : ℕ → Listing) (l : ℕ) (after : Listing) → update listings l after l ≡ after
updated_itself listings l after =
    let itself : (l == l) ≡ true = (==_iff l l).1 refl in rw itself refl

own_balance :
    (l : ℕ) (after : Listing) (store : Store)
    → IsBalanced (update store.listings l after) store.deals
    → after.available + reserved l store.deals ≡ after.listed
unfolding IsBalanced
own_balance l after store b =
    let written = updated_itself store.listings l after in
    let available = ap (λ (x : Listing). x.available) written in
    let listed = ap (λ (x : Listing). x.listed) written in omega (arith, b l, available, listed)

-- A listing whose quantity is set is balanced only if nothing of it is reserved.
changed_balance :
    (l quantity : ℕ) (end : Option ℕ) (store : Store)
    → IsBalanced
        (update store.listings l (
          changed_listing
            (record { listed_quantity = some quantity; expires_at = end })
            (store.listings l)))
        store.deals
    → reserved l store.deals ≡ 0
changed_balance l quantity end store b =
    let kept = with_expiry-available end (with_quantity (some quantity) (store.listings l)) in
    let own = own_balance l _ store b in omega (arith, kept.0, kept.1, own)

pub record IsWithinLot (lot : LotRow) (code l : ℕ) (ids : List ℕ) (after : Store) : Type 0 where
  pub consistent : IsConsistent after
  pub within : already_listed code (l ∷ ids) after.listings ≤ lot.quantity

-- A listing that is created under a new id, on which nothing is reserved, leaves a consistent store
-- consistent, and its lot has as much as the open listings of it list, the new one included.
pub create_listing-IsWithinLot :
    (organization : ℕ) (lot : LotRow) (ids : List ℕ) (l : ℕ) (input : ListingInput)
    (store after : Store)
    → IsConsistent store
    → reserved l store.deals ≡ 0
    → All (λ k. (l == k) ≡ false) ids
    → create_listing organization (some lot) ids l input store ≡ ok after
    → IsWithinLot lot input.lot l ids after
unfolding create_listing Ensures already_listed
create_listing-IsWithinLot organization lot ids l input store after c free fresh e =
    let Good : Store → Type 0 = IsWithinLot lot input.lot l ids in
    Ensures-ok Good _
      (Ensures-throw_if Good (not lot.is_approved || not lot.is_passed) _ _ λ _.
        Ensures-throw_if Good
          (input.listed_quantity == 0
            || ltb lot.quantity
                (input.listed_quantity + already_listed input.lot ids store.listings))
          _ _
          λ fits.
            Ensures-throw_if Good (input.is_fixed_price && is_none input.asking_unit_price) _ _ λ _.
              let added = new_listing organization input in
              let here = updated_itself store.listings l added in
              let taken : quantity_taken input.lot (update store.listings l added l)
                  ≤ input.listed_quantity =
                rw here (ground arith) in
              let others = already_listed-update input.lot l added ids store.listings fresh in
              record {
                consistent = record {
                  balanced = put_listing-IsBalanced l added store c.balanced (omega arith);
                  fitting = c.fitting;
                };
                within = ground arith;
              })
      e

-- A change of a listing that sets its quantity keeps the balance of a consistent store exactly if
-- nothing is reserved on the listing.
pub update_listing-IsBalanced_iff :
    (organization l version quantity : ℕ) (end : Option ℕ) (store after : Store)
    → IsConsistent store
    → update_listing organization l version
        (record { listed_quantity = some quantity; expires_at = end })
        store
      ≡ ok after
    → IsBalanced after.listings after.deals ↔ (reserved l store.deals ≡ 0)
unfolding update_listing Ensures
update_listing-IsBalanced_iff organization l version quantity end store after c e =
    let Said : Store → Type 0 = λ x. IsBalanced x.listings x.deals ↔ (reserved l store.deals ≡ 0) in
    let listing = store.listings l in
    let input : ListingChange = record { listed_quantity = some quantity; expires_at = end } in
    let changed = changed_listing input listing in
    Ensures-ok Said _
      (Ensures-throw_if Said
        (not (listing.seller == organization)
          || not (listing.version == version)
          || not (is_editable listing.status))
        _ _
        λ _. (
          changed_balance l quantity end store,
          λ none_reserved. put_listing-IsBalanced l changed store c.balanced (
              let kept = with_expiry-available end (with_quantity (some quantity) listing) in
              omega (arith, kept.0, kept.1)),
        ))
      e
