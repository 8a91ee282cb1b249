-- ===== src/Storefront.antt =====
-- The storefront module: the read model in Redis, what writes it and what reads it.
pub mod ProductPricer
pub mod StoredProduct
pub mod ProductSource
pub mod WriteRepository
pub mod ProductUpserted
pub mod Rebuild
pub mod PromotionChanged
pub mod ProductReads
pub mod ListProductsInput
pub mod ListProducts
mod Tests
