-- ===== src/Commerce.antt =====
-- The commerce of lots: an accepted offer reserves part of a listing and opens a contract, the
-- contract becomes an order, and what falls through gives its quantity back
-- (apps/api/src/marketplace, apps/worker/src/commercial-expiration.worker.ts).
pub mod State
pub mod Contracts
pub mod Listings
pub mod Orders
pub mod Offers
pub mod OfferSteps
pub mod Drafts
pub mod DraftSteps
pub mod Expiration
pub mod Balance
pub mod Consistency
pub mod ContractSteps
pub mod OrderSteps
pub mod ListingSteps
pub mod ExpirationSteps
pub mod Acceptance
pub mod Conservation
pub mod Matching
pub mod MatchingOrders
pub mod MatchedRuns
mod Tests
mod DraftTests
