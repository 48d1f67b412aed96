-- ===== src/Settlements/Proceeds.antt =====
-- The proceeds of sales and the settlement runs made from them: `recordSaleProceeds`,
-- `verifySaleProceeds`, `reverseSaleProceeds`, `resolveConversion` and `createSettlementRun` of
-- apps/api/src/settlements/settlements.service.ts. The rows are those of one organization.
pub mod Created
pub mod Handled
pub mod Verified
pub mod Once
use clycites_platform.Prelude.{
  ℕ, suc, ◌+◌, Bool, true, false, not, ◌&&◌, ◌||◌, Option, none, some, is_some, List, [], ◌∷◌, map,
  String, Result, ok, err, ◌>>=◌, ◌>>◌, throw_if, or_throw, map_result, leb, ltb, ◌==◌,
  if◌then◌else◌, length, sum_by, filter, text_eq, contains,
}
use clycites_platform.Prelude.Int.{ℤ, pos, pos_part}
use clycites_platform.ExchangeRate.{convert_minor_units}
use clycites_platform.ExchangeRate.{Failure as RateFailure}
use clycites_platform.Allocation.Proceeds.{LotContributionInput}
use clycites_platform.Settlements.Run.{RunOrder, SettlementRun, RunStatus}

-- The newest acceptance of an order that no other supersedes.
pub record AcceptanceRow : Type 0 where
  pub is_rejected : Bool
  pub accepted_quantity : ℕ

pub record OrderRow : Type 0 where
  pub is_completed : Bool
  pub currency : String
  pub total_amount_minor : ℕ
  pub acceptance : Option AcceptanceRow
  pub lot_contributions : List LotContributionInput

pub data ProceedsStatus : Type 0 where
  draft recorded verified partially_received reversed cancelled : ProceedsStatus

pub record SaleProceeds : Type 0 where
  pub id : String
  pub order : OrderRow
  pub status : ProceedsStatus
  pub currency : String
  pub expected_amount_minor : ℕ
  pub recorded_amount_minor : ℕ
  pub recorded_by : ℕ
  pub verified_by : Option ℕ
  -- whether a settlement run has an order of it
  pub is_used : Bool
  pub version : ℕ

pub data ProceedsFailure : Type 0 where
  not_found version_conflict self_approval not_eligible transition_invalid in_a_run :
      ProceedsFailure
  not_verified rate_not_applicable rate_required rate_mismatch : ProceedsFailure
  conversion_failed : RateFailure → ProceedsFailure

pub record ProceedsInput : Type 0 where
  pub currency : String
  pub expected_amount_minor : ℕ
  pub recorded_amount_minor : ℕ

abbrev pub accepts_something : Option AcceptanceRow → Bool
accepts_something none = false
accepts_something (some a) = not a.is_rejected && ltb 0 a.accepted_quantity

unfoldable pub record_sale_proceeds :
    ℕ → String → ProceedsInput → Option OrderRow → Result ProceedsFailure SaleProceeds
record_sale_proceeds principal id input found = do
  order ← or_throw found ProceedsFailure.not_eligible
  throw_if (not order.is_completed || not (accepts_something order.acceptance))
      ProceedsFailure.not_eligible
  throw_if
      (not (text_eq input.currency order.currency)
        || not (input.expected_amount_minor == order.total_amount_minor))
      ProceedsFailure.not_eligible
  ok (record {
    id = id;
    order = order;
    status = ProceedsStatus.recorded;
    currency = input.currency;
    expected_amount_minor = input.expected_amount_minor;
    recorded_amount_minor = input.recorded_amount_minor;
    recorded_by = principal;
    verified_by = none;
    is_used = false;
    version = 1;
  })

abbrev pub is_recorded : ProceedsStatus → Bool
is_recorded ProceedsStatus.recorded = true
is_recorded _ = false

-- `['VERIFIED', 'PARTIALLY_RECEIVED'].includes(status)`
abbrev pub is_verified : ProceedsStatus → Bool
is_verified ProceedsStatus.verified = true
is_verified ProceedsStatus.partially_received = true
is_verified _ = false

unfoldable pub verify_sale_proceeds : ℕ → ℕ → SaleProceeds → Result ProceedsFailure SaleProceeds
verify_sale_proceeds principal version r = do
  throw_if (not (r.version == version)) ProceedsFailure.version_conflict
  throw_if (r.recorded_by == principal) ProceedsFailure.self_approval
  throw_if (not (is_recorded r.status)) ProceedsFailure.transition_invalid
  ok (record r {
    status =
        if ltb r.recorded_amount_minor r.expected_amount_minor
        then ProceedsStatus.partially_received
        else ProceedsStatus.verified;
    verified_by = some principal;
    version = r.version + 1;
  })

unfoldable pub reverse_sale_proceeds : ℕ → SaleProceeds → Result ProceedsFailure SaleProceeds
reverse_sale_proceeds version r = do
  throw_if (not (r.version == version)) ProceedsFailure.version_conflict
  throw_if (not (is_recorded r.status || is_verified r.status)) ProceedsFailure.transition_invalid
  throw_if r.is_used ProceedsFailure.in_a_run
  ok (record r { status = ProceedsStatus.reversed; version = r.version + 1 })

-- A rate in units of 10^-8.
pub record RateRow : Type 0 where
  pub id : String
  pub base_currency : String
  pub quote_currency : String
  pub rate_units : ℕ

abbrev pub find_rate : String → List RateRow → Option RateRow
find_rate id [] = none
find_rate id (r ∷ rs) = if text_eq r.id id then some r else find_rate id rs

-- `rateUnits`, if there is a conversion.
unfoldable pub resolve_conversion :
    List RateRow → String → String → Option String → Result ProceedsFailure (Option ℕ)
resolve_conversion rates source_currency payout_currency exchange_rate_id =
    if text_eq source_currency payout_currency
    then throw_if (is_some exchange_rate_id) ProceedsFailure.rate_not_applicable >> ok none
    else or_throw exchange_rate_id ProceedsFailure.rate_required >>= λ id.
        or_throw (find_rate id rates) ProceedsFailure.rate_required >>= λ rate.
        throw_if
          (not (text_eq rate.base_currency source_currency)
            || not (text_eq rate.quote_currency payout_currency))
          ProceedsFailure.rate_mismatch
        >> ok (some rate.rate_units)

abbrev rethrown : Result RateFailure ℤ → Result ProceedsFailure ℕ
rethrown (ok amount) = ok (pos_part amount)
rethrown (err e) = err (ProceedsFailure.conversion_failed e)

-- `conversion.rateUnits ? convertMinorUnits(...) : recordedAmountMinor`, where `0n` is falsy.
unfoldable pub converted : Option ℕ → ℕ → Result ProceedsFailure ℕ
unfolding convert_minor_units
converted none amount = ok amount
converted (some rate_units) amount =
    if rate_units == 0
    then ok amount
    else rethrown (convert_minor_units (pos amount) (pos rate_units))

-- The run's order behind a record of proceeds, if the record can be settled.
abbrev pub is_ready : SaleProceeds → Bool
is_ready r = is_verified r.status && not r.is_used && is_some r.order.acceptance

abbrev pub accepted_quantity : Option AcceptanceRow → ℕ
accepted_quantity none = 0
accepted_quantity (some a) = a.accepted_quantity

unfoldable pub run_order : Option ℕ → SaleProceeds → Result ProceedsFailure RunOrder
unfolding converted
run_order rate r = converted rate r.recorded_amount_minor >>= λ amount. ok (record {
  accepted_quantity = accepted_quantity r.order.acceptance;
  allocatable_amount_minor = amount;
  lot_contributions = r.order.lot_contributions;
})

unfoldable pub is_unique : List String → Bool
is_unique [] = true
is_unique (id ∷ ids) = not (contains id ids) && is_unique ids

-- `[...sourceCurrencies][0] ?? input.currency`
abbrev pub source_currency_of : String → List SaleProceeds → String
source_currency_of currency [] = currency
source_currency_of currency (r ∷ rs) = r.currency

unfoldable pub share_currency : String → List SaleProceeds → Bool
share_currency currency [] = true
share_currency currency (r ∷ rs) = text_eq r.currency currency && share_currency currency rs

unfoldable pub all_ready : List SaleProceeds → Bool
all_ready [] = true
all_ready (r ∷ rs) = is_ready r && all_ready rs

pub record RunInput : Type 0 where
  pub currency : String
  pub sale_proceeds_record_ids : List String
  pub exchange_rate_id : Option String

abbrev new_run : String → ℕ → SettlementRun
new_run currency source_total = record {
  currency = currency;
  status = RunStatus.draft;
  version = 1;
  source_total_minor = source_total;
  gross_allocated_minor = 0;
  deductions_total_minor = 0;
  net_settlement_total_minor = 0;
  submitted_by = none;
  approved_by = none;
}

abbrev mark_used : List String → SaleProceeds → SaleProceeds
mark_used ids r = record r { is_used = r.is_used || contains r.id ids }

pub record CreatedRun : Type 0 where
  pub run : SettlementRun
  pub orders : List RunOrder
  -- the proceeds behind the creation
  pub proceeds : List SaleProceeds

abbrev allocatable : List RunOrder → ℕ
allocatable = sum_by (λ (o : RunOrder). o.allocatable_amount_minor)

unfoldable pub create_settlement_run :
    List RateRow → RunInput → List SaleProceeds → Result ProceedsFailure CreatedRun
unfolding is_unique all_ready share_currency resolve_conversion run_order
create_settlement_run rates input store = do
  let ids = input.sale_proceeds_record_ids
  throw_if (not (is_unique ids)) ProceedsFailure.not_verified
  let proceeds = filter (λ (r : SaleProceeds). contains r.id ids) store
  let source_currency = source_currency_of input.currency proceeds
  throw_if (not (length proceeds == length ids) || not (all_ready proceeds))
      ProceedsFailure.not_verified
  throw_if (not (share_currency source_currency proceeds)) ProceedsFailure.not_verified
  rate ← resolve_conversion rates source_currency input.currency input.exchange_rate_id
  orders ← map_result (run_order rate) proceeds
  ok (record {
    run = new_run input.currency (allocatable orders);
    orders = orders;
    proceeds = map (mark_used ids) store;
  })
