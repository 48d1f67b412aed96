-- ===== src/Allocation/Apportion.antt =====
-- `apportion` of apps/api/src/settlements/allocation-engine.ts: a total in whole units is split
-- over shares by the largest-remainder method. `localeCompare` belongs to the runtime's locale:
-- `locale_le left right` stands for `left.localeCompare(right) <= 0`.
pub mod Reconcile
pub mod Total
pub mod Quota
use clycites_platform.Prelude.{
  ℕ, suc, ◌+◌, ◌-◌, ◌*◌, ◌/◌, ◌%◌, Bool, ◌||◌, ◌&&◌, List, [], ◌∷◌, String, Result, ok, err, ◌>>=◌,
  ◌>>◌, throw_if, map_result, ltb, ◌==◌, if◌then◌else◌, length, sum_by, sort_by,
}

-- The messages of `new Error(...)` in the engine.
pub data Failure : Type 0 where
  accepted_not_positive no_eligible_deliveries no_recipients invalid_ratio : Failure
  not_reconciled cycle_detected invalid_batch ambiguous_lineage no_sources not_positive : Failure
  out_of_fuel : Failure

pub record Share (T : Type 0) : Type 0 where
  pub item : T
  pub numerator : ℕ
  pub denominator : ℕ
  pub stable_key : String

pub record RemainderShare (T : Type 0) : Type 0 where
  pub item : T
  pub floor : ℕ
  pub remainder_numerator : ℕ
  pub remainder_denominator : ℕ
  pub stable_key : String

pub record Apportioned (T : Type 0) : Type 0 where
  pub item : T
  pub amount : ℕ
  pub residual_units : ℕ

module _ {T : Type 0} where
  -- The callback of `shares.map`.
  pub remainder_share : ℕ → Share T → Result Failure (RemainderShare T)
  remainder_share total share =
      let scaled_numerator = total * share.numerator in
      throw_if (share.denominator == 0) invalid_ratio
      >> ok (record {
        item = share.item;
        floor = scaled_numerator / share.denominator;
        remainder_numerator = scaled_numerator % share.denominator;
        remainder_denominator = share.denominator;
        stable_key = share.stable_key;
      })

  -- The comparator of `calculated.sort`: the larger remainder first, then the key.
  pub larger_remainder : (String → String → Bool) → RemainderShare T → RemainderShare T → Bool
  larger_remainder locale_le left right =
      let ours = left.remainder_numerator * right.remainder_denominator in
      let theirs = right.remainder_numerator * left.remainder_denominator in
      ltb theirs ours || (ours == theirs && locale_le left.stable_key right.stable_key)

  -- The final `calculated.map`, which hands out one residual unit a share while any is left.
  pub distribute : ℕ → List (RemainderShare T) → List (Apportioned T)
  distribute residual [] = []
  distribute residual (share ∷ rest) =
      let residual_units = if ltb 0 residual then 1 else 0 in
      record {
        item = share.item;
        amount = share.floor + residual_units;
        residual_units = residual_units;
      }
      ∷ distribute (residual - residual_units) rest

  unfoldable pub apportion :
      (String → String → Bool) → ℕ → List (Share T) → Result Failure (List (Apportioned T))
  unfolding remainder_share larger_remainder distribute
  apportion locale_le total shares = do
    throw_if (length shares == 0) no_recipients
    calculated ← map_result (remainder_share total) shares
    let floors = sum_by (λ (s : RemainderShare T). s.floor) calculated
    throw_if (ltb total floors || ltb (length calculated) (total - floors)) not_reconciled
    ok (distribute (total - floors) (sort_by (larger_remainder locale_le) calculated))
