-- ===== src/Settlements.antt =====
-- Settlements (apps/api/src/settlements/settlements.service.ts): what farmers are owed for the
-- proceeds of sales, what is deducted, and how it is approved and paid.
pub mod Deductions
mod Tests
mod PaymentTests
pub mod Run
pub mod Proceeds
pub mod Payments
pub mod Approval
pub mod Policies
