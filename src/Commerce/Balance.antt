-- ===== src/Commerce/Balance.antt =====
-- The balance of a listing: what is available and what live reservations hold is what was listed.
-- Facts about the deals of a store when one of them changes.
use clycites_platform.Prelude.{
  ℕ, ◌+◌, ◌≤◌, ◌≡◌, refl, sym, inl, inr, true, false, ◌&&◌, some, List, [], ◌∷◌, ◌++◌, arith, ◌==◌,
  ==_iff, if◌then◌else◌, Bool-cases, sum_by, sum_by-append, sum_by-set, get_elem?-sum_by,
}
use clycites_platform.Commerce.State.{Listing, Deal, update, get_elem?, set, is_live}

-- What a deal holds of the listing `l`.
abbrev pub reserved_by : ℕ → Deal → ℕ
reserved_by l d = if (d.listing == l) && is_live d.reservation_status then d.quantity else 0

unfoldable pub reserved : ℕ → List Deal → ℕ
reserved l ds = sum_by (reserved_by l) ds

unfoldable pub IsBalanced : (ℕ → Listing) → List Deal → Type 0
unfolding reserved
IsBalanced listings ds = (l : ℕ) → (listings l).available + reserved l ds ≡ (listings l).listed

reserved_by-ended : (l : ℕ) (d : Deal) → is_live d.reservation_status ≡ false → reserved_by l d ≡ 0
reserved_by-ended l d h = ground arith

reserved_by-live :
    (l : ℕ) (d : Deal)
    → is_live d.reservation_status ≡ true
    → reserved_by l d ≡ (if d.listing == l then d.quantity else 0)
reserved_by-live l d h = ground arith

reserved_by-own :
    (d : Deal) → is_live d.reservation_status ≡ true → reserved_by d.listing d ≡ d.quantity
reserved_by-own d h = ground arith

-- The listings after a change of the one at `k`, by a case on whether it is the one asked for.
update-balance :
    (listings : ℕ → Listing) (k l : ℕ) (after : Listing) (r : ℕ)
    → (k ≡ l → after.available + r ≡ after.listed)
    → ((k == l) ≡ false → (listings l).available + r ≡ (listings l).listed)
    → (update listings k after l).available + r ≡ (update listings k after l).listed
update-balance listings k l after r own other = elim (Bool-cases (k == l)) [
  | inl t ↦ rw t (own ((==_iff k l).0 t))
  | inr f ↦ rw f (other f)
]

-- A deal that keeps its listing, its quantity and whether its reservation lives.
pub IsBalanced-touch :
    (listings : ℕ → Listing) (ds : List Deal) (i : ℕ) (d e : Deal)
    → get_elem? ds i ≡ some d
    → e.listing ≡ d.listing
    → e.quantity ≡ d.quantity
    → is_live e.reservation_status ≡ is_live d.reservation_status
    → IsBalanced listings ds
    → IsBalanced listings (set ds i e)
unfolding IsBalanced reserved
IsBalanced-touch listings ds i d e h hl hq hs b l =
    let same : reserved_by l e ≡ reserved_by l d = rw (hl, hq, hs) refl in
    omega (arith, b l, sum_by-set (reserved_by l) ds i d e h, same)

-- A live reservation that ends and gives its quantity back to its listing.
pub IsBalanced-release :
    (listings : ℕ → Listing) (ds : List Deal) (i : ℕ) (d e : Deal) (after : Listing)
    → get_elem? ds i ≡ some d
    → is_live d.reservation_status ≡ true
    → is_live e.reservation_status ≡ false
    → after.available ≡ (listings d.listing).available + d.quantity
    → after.listed ≡ (listings d.listing).listed
    → IsBalanced listings ds
    → IsBalanced (update listings d.listing after) (set ds i e)
unfolding IsBalanced reserved
IsBalanced-release listings ds i d e after h live ended ha hl b l =
    let gone = reserved_by-ended l e ended in
    let moved = sum_by-set (reserved_by l) ds i d e h in
    update-balance listings d.listing l after (sum_by (reserved_by l) (set ds i e))
      (λ k.
        let own : reserved_by l d ≡ d.quantity = rw (sym k) (reserved_by-own d live) in
        let here : (listings l).available ≡ (listings d.listing).available = rw k refl in
        let there : (listings l).listed ≡ (listings d.listing).listed = rw k refl in
        omega (arith, b l, gone, moved, own, here, there, ha, hl))
      (λ f.
        let none_here : reserved_by l d ≡ 0 = rw (reserved_by-live l d live, f) refl in
        omega (arith, b l, gone, moved, none_here))

-- A quantity that is taken from a listing for a new live reservation.
pub IsBalanced-reserve :
    (listings : ℕ → Listing) (ds : List Deal) (d : Deal) (after : Listing)
    → is_live d.reservation_status ≡ true
    → after.available + d.quantity ≡ (listings d.listing).available
    → after.listed ≡ (listings d.listing).listed
    → IsBalanced listings ds
    → IsBalanced (update listings d.listing after) (ds ++ d ∷ [])
unfolding IsBalanced reserved
IsBalanced-reserve listings ds d after live ha hl b l =
    let joined = sum_by-append (reserved_by l) ds (d ∷ []) in
    update-balance listings d.listing l after (sum_by (reserved_by l) (ds ++ d ∷ []))
      (λ k.
        let own : reserved_by l d ≡ d.quantity = rw (sym k) (reserved_by-own d live) in
        let here : (listings l).available ≡ (listings d.listing).available = rw k refl in
        let there : (listings l).listed ≡ (listings d.listing).listed = rw k refl in
        omega (arith, b l, joined, own, here, there, ha, hl))
      (λ f.
        let none_here : reserved_by l d ≡ 0 = rw (reserved_by-live l d live, f) refl in
        omega (arith, b l, joined, none_here))

-- What a live deal holds is missing from its listing, so giving it back stays within the listing.
pub restored_within :
    (listings : ℕ → Listing) (ds : List Deal) (i : ℕ) (d : Deal)
    → get_elem? ds i ≡ some d
    → is_live d.reservation_status ≡ true
    → IsBalanced listings ds
    → (listings d.listing).available + d.quantity ≤ (listings d.listing).listed
unfolding IsBalanced reserved
restored_within listings ds i d h live b =
    let bound = get_elem?-sum_by (reserved_by d.listing) ds i d h in
    omega (arith, b d.listing, bound, reserved_by-own d live)
