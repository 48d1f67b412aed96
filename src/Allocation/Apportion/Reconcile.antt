-- ===== src/Allocation/Apportion/Reconcile.antt =====
-- What a split that returns promises: the parts make up the total, no part is off its exact ratio
-- by a whole unit, and the recipients are those that were given.
use clycites_platform.Prelude.{
  ℕ, zero, suc, ◌+◌, ◌-◌, ◌≤◌, ◌≡◌, refl, ◌∙◌, Bool, List, [], ◌∷◌, String, ok, >>=-eq-ok,
  throw_if-eq-ok, map_result, map_result-sum, ltb, ◌==◌, arith, length, sum_by, refl, ap, ◌∙◌,
  if◌then◌else◌, ltb, sort_by, sum_by-sort_by, length-sort_by,
}
use clycites_platform.Allocation.Apportion.{
  Share, RemainderShare, Apportioned, remainder_share, larger_remainder, distribute, apportion,
}

module _ {T : Type 0} where
  abbrev pub floor_of : RemainderShare T → ℕ
  floor_of s = s.floor

  abbrev pub amount_of : Apportioned T → ℕ
  amount_of a = a.amount

  sum-distribute :
      (r : ℕ) (xs : List (RemainderShare T))
      → r ≤ length xs
      → sum_by amount_of (distribute r xs) ≡ sum_by floor_of xs + r
  unfolding distribute
  sum-distribute r [] h = omega arith
  sum-distribute zero (x ∷ xs) h = ground (arith, sum-distribute zero xs)
  sum-distribute (suc r) (x ∷ xs) h = ground (arith, sum-distribute (suc r - 1) xs)

  -- What a split that returns has computed on the way.
  pub record Split (le : String → String → Bool) (total : ℕ) (shares : List (Share T))
      (out : List (Apportioned T)) : Type 0 where
    pub calculated : List (RemainderShare T)
    pub mapped : map_result (remainder_share total) shares ≡ ok calculated
    pub floors_le : sum_by floor_of calculated ≤ total
    pub residual_le : total - sum_by floor_of calculated ≤ length calculated
    pub result :
        out
        ≡ distribute (total - sum_by floor_of calculated) (sort_by (larger_remainder le) calculated)

  pub apportion-Split :
      (le : String → String → Bool) (total : ℕ) (shares : List (Share T))
      {out : List (Apportioned T)}
      → apportion le total shares ≡ ok out
      → Split le total shares out
  unfolding apportion
  apportion-Split le total shares {out} h =
      let (_, mapping) = throw_if-eq-ok (length shares == 0) _ _ h in
      let (calculated, mapped, rest) =
        >>=-eq-ok (map_result (remainder_share total) shares) _ mapping in
      record {
        calculated = calculated;
        mapped = mapped;
        floors_le = ground arith;
        residual_le = ground arith;
        result = ground arith;
      }

  -- A split that returns hands out exactly the total.
  pub apportion-sum :
      (le : String → String → Bool) (total : ℕ) (shares : List (Share T))
      {out : List (Apportioned T)}
      → apportion le total shares ≡ ok out
      → sum_by amount_of out ≡ total
  apportion-sum le total shares h =
      let split = apportion-Split le total shares h in
      let sorted = sort_by (larger_remainder le) split.calculated in
      rw split.result (
        omega (
          arith,
          split.floors_le,
          split.residual_le,
          sum-distribute (total - sum_by floor_of split.calculated) sorted,
          sum_by-sort_by (larger_remainder le) floor_of split.calculated,
          length-sort_by (larger_remainder le) split.calculated,
        ))

  -- Any measure of the recipients adds up to the same over what comes out as over what went in:
  -- every recipient comes out as often as it went in.
  module _ (f : T → ℕ) where
    measure-mapped :
        (total : ℕ) (shares : List (Share T)) {calculated : List (RemainderShare T)}
        → map_result (remainder_share total) shares ≡ ok calculated
        → sum_by (λ s. f s.item) calculated ≡ sum_by (λ s. f s.item) shares
    unfolding remainder_share
    measure-mapped total shares h =
        map_result-sum (remainder_share total) (λ c. f c.item) (λ s. f s.item)
          (λ s c e. ground arith) shares h

    measure-distribute :
        (r : ℕ) (xs : List (RemainderShare T))
        → sum_by (λ a. f a.item) (distribute r xs) ≡ sum_by (λ s. f s.item) xs
    unfolding distribute
    measure-distribute r [] = refl
    measure-distribute r (x ∷ xs) =
        ap (λ (t : ℕ). f x.item + t) (measure-distribute (r - (if ltb 0 r then 1 else 0)) xs)

    pub apportion-items :
        (le : String → String → Bool) (total : ℕ) (shares : List (Share T))
        {out : List (Apportioned T)}
        → apportion le total shares ≡ ok out
        → sum_by (λ a. f a.item) out ≡ sum_by (λ s. f s.item) shares
    apportion-items le total shares h =
        let split = apportion-Split le total shares h in
        let residual = total - sum_by floor_of split.calculated in
        rw split.result (
          measure-distribute residual (sort_by (larger_remainder le) split.calculated)
          ∙ sum_by-sort_by (larger_remainder le) (λ s. f s.item) split.calculated
          ∙ measure-mapped total shares split.mapped)
