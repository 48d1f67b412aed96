-- ===== src/Allocation/Apportion/Quota.antt =====
-- No recipient is off its exact ratio by a whole unit, and what holds of every recipient that
-- went in holds of every one that comes out.
use native.Mathlib.Nat.{div-mul-le_self, lt-div-mul-add, add-zero}
use clycites_platform.Prelude.{
  ℕ, ◌+◌, ◌-◌, ◌*◌, ◌/◌, ◌≤◌, ◌<◌, ◌≡◌, Bool, List, [], ◌∷◌, String, ok, ltb, inl, inr, Bool-cases,
  arith, sort_by, sum_by, All, All-sort_by, map_result-All,
}
use clycites_platform.Allocation.Apportion.{
  Share, RemainderShare, Apportioned, remainder_share, larger_remainder, distribute, apportion,
}
use clycites_platform.Allocation.Apportion.Reconcile.{floor_of, apportion-Split}

module _ {T : Type 0} (P : Share T → Type 0) (Q : T → ℕ → Type 0) where
  -- `Q` is about a recipient and the units that it gets.
  abbrev HoldsOfBoth : RemainderShare T → Type 0
  HoldsOfBoth c = Q c.item c.floor × Q c.item (c.floor + 1)

  All-distribute :
      (r : ℕ) (xs : List (RemainderShare T))
      → All HoldsOfBoth xs
      → All (λ (a : Apportioned T). Q a.item a.amount) (distribute r xs)
  unfolding distribute
  All-distribute r [] h = tt
  All-distribute r (x ∷ xs) h = elim (Bool-cases (ltb 0 r)) [
    | inl more ↦ rw more (h.0.1, All-distribute (r - 1) xs h.1)
    | inr done ↦ rw done (rw add-zero h.0.0, All-distribute (r - 0) xs h.1)
  ]

  -- What holds of each recipient at the floor of its exact part and at one unit more holds of
  -- every part that comes out.
  pub apportion-All :
      (le : String → String → Bool) (total : ℕ) (shares : List (Share T))
      {out : List (Apportioned T)}
      → ((s : Share T) (c : RemainderShare T)
          → remainder_share total s ≡ ok c
          → P s
          → HoldsOfBoth c)
      → All P shares
      → apportion le total shares ≡ ok out
      → All (λ (a : Apportioned T). Q a.item a.amount) out
  apportion-All le total shares step a h =
      let split = apportion-Split le total shares h in
      rw split.result (
        All-distribute (total - sum_by floor_of split.calculated)
          (sort_by (larger_remainder le) split.calculated)
          (All-sort_by (larger_remainder le) HoldsOfBoth split.calculated
            (map_result-All (remainder_share total) P HoldsOfBoth step shares a split.mapped)))

pub remainder_share_inv :
    {T : Type 0} (total : ℕ) (s : Share T) {c : RemainderShare T}
    → remainder_share total s ≡ ok c
    → (0 < s.denominator) × (c.item ≡ s.item) × (c.floor ≡ total * s.numerator / s.denominator)
unfolding remainder_share
remainder_share_inv total s h = ground arith

-- Within one unit of the exact part `total * n / d`, from below and from above.
abbrev pub WithinQuota : ℕ → ℕ → ℕ → ℕ → Type 0
WithinQuota total n d amount = (total * n < (amount + 1) * d) × (amount * d ≤ total * n + d)

WithinQuota-floor :
    (t n d : ℕ) → 0 < d → WithinQuota t n d (t * n / d) × WithinQuota t n d (t * n / d + 1)
WithinQuota-floor t n d h = omega (arith, div-mul-le_self (t * n) d, lt-div-mul-add {a = t * n} h)

module _ {T : Type 0} (num den : T → ℕ) where
  abbrev HasRatioOf : Share T → Type 0
  HasRatioOf s = (s.numerator ≡ num s.item) × (s.denominator ≡ den s.item)

  -- Where a recipient fixes its ratio, every part that comes out is within one unit of the
  -- recipient's exact part.
  pub apportion-WithinQuota :
      (le : String → String → Bool) (total : ℕ) (shares : List (Share T))
      {out : List (Apportioned T)}
      → All HasRatioOf shares
      → apportion le total shares ≡ ok out
      → All (λ (a : Apportioned T). WithinQuota total (num a.item) (den a.item) a.amount) out
  apportion-WithinQuota le total shares =
      apportion-All HasRatioOf (λ t amount. WithinQuota total (num t) (den t) amount) le total
        shares quota_step
    where
      quota_step :
          (s : Share T) (c : RemainderShare T)
          → remainder_share total s ≡ ok c
          → HasRatioOf s
          → WithinQuota total (num c.item) (den c.item) c.floor
            × WithinQuota total (num c.item) (den c.item) (c.floor + 1)
      quota_step s c e r =
          let (pos_d, same, at_floor) = remainder_share_inv total s e in
          rw (same, at_floor, ← r.0, ← r.1)
            (WithinQuota-floor total s.numerator s.denominator pos_d)
