-- ===== src/Allocation.antt =====
-- The proceeds allocation of a sale (apps/api/src/settlements/allocation-engine.ts): exact
-- fractions, the lineage of a lot, the largest-remainder method, and the allocation over farmers
-- and deliveries. The children prove what each part promises.
pub mod Fractions
pub mod Ratios
pub mod Apportion
pub mod Lineage
pub mod Proceeds
mod Tests
