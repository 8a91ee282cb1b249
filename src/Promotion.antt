-- ===== src/Promotion.antt =====
-- The promotion module: discounts, and which candidate a product takes.
pub mod EffectivePrice
pub mod Resolver
pub mod View
pub mod Announcer
pub mod Table
pub mod Repository
pub mod Commands
mod Tests
