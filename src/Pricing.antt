-- ===== src/Pricing.antt =====
-- The pricing module: vendor prices become base prices by the active ingestion rules.
pub mod Facts
pub mod Conditions
pub mod Rules
pub mod Calculator
pub mod CalculatorCache
mod Tests
