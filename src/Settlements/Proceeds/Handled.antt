-- ===== src/Settlements/Proceeds/Handled.antt =====
-- The records of proceeds of an organization as they are recorded, verified, reversed and put into
-- runs (apps/api/src/settlements/settlements.service.ts).
use clycites_platform.Prelude.{
  ℕ, ◌≡◌, Option, some, List, [], ◌∷◌, ◌++◌, String, ok, get_elem?, set,
}
use clycites_platform.Settlements.Proceeds.{
  OrderRow, SaleProceeds, ProceedsInput, RateRow, RunInput, CreatedRun, record_sale_proceeds,
  verify_sale_proceeds, reverse_sale_proceeds, create_settlement_run,
}

-- The stores that come after `first`.
pub data Follows (first : List SaleProceeds) : List SaleProceeds → Type 0 where
  at_first : Follows first first
  recording :
      (principal : ℕ) (id : String) (input : ProceedsInput) (found : Option OrderRow)
      (store : List SaleProceeds) {r : SaleProceeds}
      → Follows first store
      → record_sale_proceeds principal id input found ≡ ok r
      → Follows first (store ++ r ∷ [])
  verifying :
      (principal version k : ℕ) (store : List SaleProceeds) {r s : SaleProceeds}
      → Follows first store
      → get_elem? store k ≡ some r
      → verify_sale_proceeds principal version r ≡ ok s
      → Follows first (set store k s)
  reversing :
      (version k : ℕ) (store : List SaleProceeds) {r s : SaleProceeds}
      → Follows first store
      → get_elem? store k ≡ some r
      → reverse_sale_proceeds version r ≡ ok s
      → Follows first (set store k s)
  settling :
      (rates : List RateRow) (input : RunInput) (store : List SaleProceeds) {c : CreatedRun}
      → Follows first store
      → create_settlement_run rates input store ≡ ok c
      → Follows first c.proceeds
