-- ===== src/Settlements/Proceeds/Created.antt =====
-- What `createSettlementRun` (apps/api/src/settlements/settlements.service.ts) promises the calculation,
-- and when it refuses.
use clycites_platform.Prelude.{
  ℕ, ◌≡◌, ◌≢◌, refl, sym, ap, ◌∙◌, Bool, true, false, not, ◌||◌, Bool-cases, inl, inr, List, map,
  String, ok, err, ◌==◌, arith, Ensures, Ensures-ok, Ensures-throw_if, Ensures->>=, filter, length,
  map_result, contains,
}
use clycites_platform.Settlements.Run.{RunData, RunFailure, calculate_settlement_run}
use clycites_platform.Settlements.Run.Totals.{allocatable, calculate_settlement_run-no_mismatch}
use clycites_platform.Settlements.Proceeds.{
  SaleProceeds, ProceedsFailure, RateRow, RunInput, CreatedRun, create_settlement_run, is_unique,
  all_ready, share_currency, resolve_conversion, run_order, source_currency_of, mark_used,
}

module _ (rates : List RateRow) (input : RunInput) (store : List SaleProceeds) where
  abbrev pub chosen : List SaleProceeds
  chosen = filter (λ (r : SaleProceeds). contains r.id input.sale_proceeds_record_ids) store

  abbrev pub IsWhole : CreatedRun → Type 0
  IsWhole c =
      (c.run.source_total_minor ≡ allocatable c.orders)
      × (c.proceeds ≡ map (mark_used input.sale_proceeds_record_ids) store)
      × (all_ready chosen ≡ true)

  pub create_settlement_run-IsWhole : Ensures IsWhole (create_settlement_run rates input store)
  unfolding create_settlement_run Ensures
  create_settlement_run-IsWhole =
      let ids = input.sale_proceeds_record_ids in
      let source_currency = source_currency_of input.currency chosen in
      Ensures-throw_if IsWhole (not (is_unique ids)) _ _ λ _.
        Ensures-throw_if IsWhole (not (length chosen == length ids) || not (all_ready chosen)) _ _
          λ ready. Ensures-throw_if IsWhole (not (share_currency source_currency chosen)) _ _ λ _.
            Ensures->>= IsWhole
              (resolve_conversion rates source_currency input.currency input.exchange_rate_id) _
              λ rate _.
                Ensures->>= IsWhole (map_result (run_order rate) chosen) _
                  λ orders _. (refl, refl, ground arith)

  -- The calculation of a run with the orders it was created with never fails on a mismatch of the
  -- totals.
  pub create_settlement_run-no_mismatch :
      (locale_le : String → String → Bool) (rows : RunData) (now version : ℕ) {c : CreatedRun}
      → create_settlement_run rates input store ≡ ok c
      → rows.orders ≡ c.orders
      → calculate_settlement_run locale_le rows now version c.run ≢ err RunFailure.total_mismatch
  create_settlement_run-no_mismatch locale_le rows now version {c} created same =
      let (whole, _, _) = Ensures-ok IsWhole _ create_settlement_run-IsWhole created in
      calculate_settlement_run-no_mismatch locale_le rows now version c.run
        (whole ∙ ap allocatable (sym same))

  pub rejected_lem :
      all_ready chosen ≡ false
      → create_settlement_run rates input store ≡ err ProceedsFailure.not_verified
  unfolding create_settlement_run
  rejected_lem unready =
      let ids = input.sale_proceeds_record_ids in
      elim (Bool-cases (is_unique ids)) [
        | inl e ↦ elim (Bool-cases (length chosen == length ids)) [
          | inl f ↦ rw (e, f, unready) refl
          | inr f ↦ rw (e, f) refl
        ]
        | inr e ↦ rw e refl
      ]
