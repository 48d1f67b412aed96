-- ===== src/Lib.antt =====
-- Verification library of the ClyCites platform: the logic of the API and of its workers that
-- moves quantities and money. Paths are from the repository's root.
--
-- The parts and the files that model them:
--
-- - Prelude: names of the libraries that all parts share, Boolean tests, lists, stable sorting,
--   texts, maps keyed by texts, code that throws (Result), integers (Int) over the native numbers.
-- - Allocation (apps/api/src/settlements/allocation-engine.ts): `allocateSaleProceeds` splits a
--   sale over farmers and deliveries. Fractions holds the gcd loop, `reduceFraction` and
--   `addFractions`; Ratios their sums; Apportion the largest-remainder method; Lineage
--   `resolveBatch`, `scaleWeights`, `mergeWeights` and `normalizeWeights`; Proceeds the allocation.
--   Amounts and quantities are natural numbers: the checks for negative ones have nothing to do.
--   `localeCompare` is a parameter, `locale_le`. `resolveBatch` takes fuel, and
--   Allocation/Lineage/Termination shows that one unit more than there are batches is enough; the
--   gcd loop recurses on the accessibility of its second argument.
-- - Attribution (apps/api/src/batches/attribution.ts): `mergeAttributionWeights` and
--   `allocateAttribution`, whose shares are shared by two arrays and so a store with references.
-- - Decimal (apps/api/src/batches/quantity.ts, apps/api/src/batches/transformation-yield.ts and
--   apps/api/src/deliveries/delivery-calculation.ts): reading and printing of scaled integers, for
--   texts of character codes. `BigInt` is read for unsigned decimal digits and the empty text.
-- - Deliveries (apps/api/src/deliveries/delivery-calculation.ts, delivery-instrument.ts):
--   `calculateWeight`, `calculatePricing` and `assessWeighingInstrument`, which use Decimal.
-- - Yield (apps/api/src/batches/transformation-yield.ts), ExchangeRate
--   (apps/api/src/settlements/exchange-rate.ts): yields, losses and conversions.
-- - Commerce (apps/api/src/marketplace/marketplace.service.ts, commerce.service.ts and
--   apps/worker/src/commercial-expiration.worker.ts): State has the rows and `restoreAllocation`,
--   Drafts the writing of listings, Offers the offers until one is accepted, Contracts
--   `acceptOffer`, the approval and the cancellation of contracts and the release of
--   reservations, Listings the seller's transitions, Orders the orders up to their completion,
--   Expiration the worker. A call is a function from a store to a store or a failure; a failure
--   rolls the transaction back. `Step` and `run` in Conservation are sequences of calls, one
--   after the other, as row locks and the isolation of the transactions are meant to have them;
--   the retries of `serializable` do not show. A run of the worker is a step, and so is each of
--   its transactions. Balance and Consistency say what a consistent store is, and OfferSteps,
--   ContractSteps, OrderSteps, ListingSteps and ExpirationSteps that each call keeps it;
--   Matching, MatchingOrders and MatchedRuns are about which statuses of a deal go together;
--   Acceptance has what accepted calls found. Creating and changing a listing, which DraftSteps
--   is about, are not steps, and changes of a custody transfer by its own service are not.
-- - Pilots (apps/api/src/pilots/pilot-lifecycle.ts, pilots.service.ts, pilot-evaluation.service.ts):
--   the transition table, `transition` with its guards, and the status that `approveDecision` sets.
--   Counts over other tables, hashes and the principal's rights are arguments.
-- - Settlements (apps/api/src/settlements/settlements.service.ts,
--   apps/worker/src/payment-submission.worker.ts): Deductions has the policies and the recovery
--   of advances for one farmer, with Waterfall and Settled on what they take; Run the calculation
--   of a run with Allocation, and Totals what it adds up to; Proceeds the records of proceeds and
--   the creation of runs, with Created, Handled, Verified and Once; Approval the submission and
--   the approval; Payments the instructions, the worker's job and the reconciliations of one
--   settlement, which Steps makes a step relation of, and Outcome what a payment comes to;
--   Policies the versions of deduction policies, with Versions on which of them is active. The
--   rows read are arguments; quantities, rates and policy values are in units of their last
--   decimal. What a calculation writes on an advance is in the recoveries. The order of rows that
--   a query does not ask for is that of the list.
-- - Inventory (apps/api/src/batches/batches.service.ts, transformations.service.ts and
--   apps/api/src/lots/lots.service.ts): the stock of an organization with its ledger. Ledger has
--   the draws, Transformations `record` and `supersede`, Lots the lots; Covered, Draws, Backed,
--   Kept and Contributed say what each operation keeps, Sequences what holds after any of them,
--   Replaced what a correction does. An allocated quantity is a difference of integers, held as
--   what was taken and what was given back. Storage locations, instruments, yields and the rows of
--   attribution are not in it.
--
-- Not modelled: invitations to listings, amendments, inspections and shares; advances, statements
-- and payment methods; deliveries as a service over the database, inspections and custody
-- transfers of lots; what surrounds a pilot, authentication, synchronisation, anchoring, the
-- other workers, reports and the web application. Audit rows, events, texts of messages and
-- identifiers are left out, and the time is an argument.
pub mod Prelude
pub mod Allocation
pub mod Attribution
pub mod Decimal
pub mod Deliveries
pub mod Yield
pub mod ExchangeRate
pub mod Commerce
pub mod Pilots
pub mod Settlements
pub mod Inventory
