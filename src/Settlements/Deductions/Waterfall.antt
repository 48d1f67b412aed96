-- ===== src/Settlements/Deductions/Waterfall.antt =====
-- Recovery of advances (`planAdvanceRecovery` of apps/api/src/settlements/settlements.service.ts)
-- against a description without a running remainder.
use clycites_platform.Prelude.{
  ℕ, ◌+◌, ◌-◌, ◌≡◌, refl, sym, ap, ◌∙◌, List, [], ◌∷◌, arith, ltb, min, sum_by, filter, Bool,
}
use clycites_platform.Settlements.Deductions.{
  Advance, Recovery, minimum, plan_advance_recovery, amounts,
}

abbrev pub owed : List Advance → ℕ
owed = sum_by (λ (a : Advance). a.outstanding_minor)

-- What is recovered of an advance when `earlier` is owed on the ones before it.
abbrev pub part_of : ℕ → ℕ → Advance → Recovery
part_of available earlier a = record {
  farmer_advance_id = a.id;
  amount_minor = min a.outstanding_minor (available - earlier);
  outstanding_after_minor = a.outstanding_minor - min a.outstanding_minor (available - earlier);
}

abbrev pub parts : ℕ → ℕ → List Advance → List Recovery
parts available earlier [] = []
parts available earlier (a ∷ xs) =
    part_of available earlier a ∷ parts available (earlier + a.outstanding_minor) xs

abbrev pub is_positive : Recovery → Bool
is_positive r = ltb 0 r.amount_minor

minimum_lem : (a b : ℕ) → minimum a b ≡ min a b
minimum_lem a b = ground arith

remaining_lem :
    (outstanding available earlier : ℕ)
    → (available - earlier) - minimum outstanding (available - earlier)
      ≡ available - (earlier + outstanding)
remaining_lem o available earlier = ground arith

pub plan_advance_recovery-amounts :
    (xs : List Advance) (available : ℕ)
    → ((plan_advance_recovery xs available).recovered_minor ≡ min (owed xs) available)
      × ((plan_advance_recovery xs available).shortfall_minor ≡ owed xs - available)
      × (amounts (plan_advance_recovery xs available).deductions ≡ min (owed xs) available)
unfolding plan_advance_recovery
plan_advance_recovery-amounts [] available = ground arith
plan_advance_recovery-amounts (a ∷ xs) available =
    let ih = plan_advance_recovery-amounts xs (available - minimum a.outstanding_minor available) in
    ground arith

plan-recoveries :
    (available : ℕ) (xs : List Advance) (earlier : ℕ)
    → (plan_advance_recovery xs (available - earlier)).recoveries
      ≡ filter is_positive (parts available earlier xs)
unfolding plan_advance_recovery
plan-recoveries available [] earlier = refl
plan-recoveries available (a ∷ xs) earlier =
    rw (remaining_lem a.outstanding_minor available earlier, minimum_lem)
      (ground (arith, plan-recoveries available xs (earlier + a.outstanding_minor)))

-- Advances are recovered in the order of their list: the recoveries written are the positive parts that each
-- advance has in what is available, in order. Together they are the smaller of what is owed and
-- what is available, also as deductions, and what is owed beyond that is the shortfall.
pub plan_advance_recovery_lem :
    (xs : List Advance) (available : ℕ)
    → ((plan_advance_recovery xs available).recoveries ≡ filter is_positive (parts available 0 xs))
      × ((plan_advance_recovery xs available).recovered_minor ≡ min (owed xs) available)
      × ((plan_advance_recovery xs available).shortfall_minor ≡ owed xs - available)
      × (amounts (plan_advance_recovery xs available).deductions ≡ min (owed xs) available)
plan_advance_recovery_lem xs available =
    let (recovered, short, deducted) = plan_advance_recovery-amounts xs available in
    let whole : available - 0 ≡ available = omega arith in
    (
      ap (λ n. (plan_advance_recovery xs n).recoveries) (sym whole)
          ∙ plan-recoveries available xs 0,
      recovered,
      short,
      deducted,
    )
