-- ===== src/Commerce/ListingSteps.antt =====
-- The changes of a listing's status keep a store consistent.
use clycites_platform.Prelude.{ℕ, refl, not, ◌||◌, ◌==◌, ==_iff, inl, inr, Bool-cases}
use clycites_platform.Commerce.State.{ListingStatus, Store, not_found, version_conflict}
use clycites_platform.Commerce.Listings.{
  publish, is_publishable, with_status, put_listing, Transition, transition_listing, starts_from,
  target_status,
}
use clycites_platform.Commerce.Balance.{IsBalanced}
use clycites_platform.Commerce.Consistency.{IsConsistent, Keeps, Keeps-throw_if}

with_status-IsConsistent :
    (l : ℕ) (status : ListingStatus) (store : Store)
    → IsConsistent store
    → IsConsistent (put_listing l (with_status status (store.listings l)) store)
unfolding IsBalanced
with_status-IsConsistent l status store c = record {
  balanced = λ k. elim (Bool-cases (l == k)) [
    | inl same ↦ rw same (rw ((==_iff l k).0 same) (c.balanced k))
    | inr other ↦ rw other (c.balanced k)
  ];
  fitting = c.fitting;
}

pub publish-Keeps :
    (organization l version : ℕ) (store : Store)
    → IsConsistent store
    → Keeps (publish organization l version store)
unfolding publish Keeps
publish-Keeps organization l version store c =
    let listing = store.listings l in
    Keeps-throw_if (not (listing.seller == organization)) not_found _ refl λ h1.
      Keeps-throw_if (not (listing.version == version) || not (is_publishable listing.status))
        version_conflict _ refl λ h2. with_status-IsConsistent l _ store c

pub transition_listing-Keeps :
    (kind : Transition) (organization l version : ℕ) (store : Store)
    → IsConsistent store
    → Keeps (transition_listing kind organization l version store)
unfolding transition_listing Keeps
transition_listing-Keeps kind organization l version store c =
    let listing = store.listings l in
    Keeps-throw_if
      (not (listing.seller == organization)
        || not (listing.version == version)
        || not (starts_from kind listing.status))
      version_conflict _ refl
      λ h1.
        let after = with_status-IsConsistent l (target_status kind) store c in
        record { balanced = after.balanced; fitting = after.fitting }
