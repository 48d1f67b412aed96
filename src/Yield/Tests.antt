-- ===== src/Yield/Tests.antt =====
-- A changed form whose ratio is in the published range, and a loss of three units.
use clycites_platform.Prelude.{◌≡◌, refl, true, some}
use clycites_platform.Yield.{
  ConversionRange, assess_yield, loss_requires_reason, assess_yield_iff, IsAssessed,
}

abbrev milling : ConversionRange
milling = record { id = "milling"; min_ratio_units = 600_000; max_ratio_units = 700_000 }

assess_yield_iff_example : IsAssessed 3 2 true (some milling) (assess_yield 3 2 true (some milling))
assess_yield_iff_example = assess_yield_iff 3 2 true (some milling)

large_loss : loss_requires_reason 2_000 1_997 ≡ true
unfolding loss_requires_reason
large_loss = refl
