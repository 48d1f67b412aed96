-- ===== src/Deliveries.antt =====
-- Deliveries: what a captured weight and a captured price come to, and what is said of the scale
-- (apps/api/src/deliveries).
pub mod Weight
pub mod Pricing
pub mod Instrument
mod Tests
