-- ===== src/Product.antt =====
-- The product module: the table of products and what writes it.
pub mod Repository
pub mod CreateProduct
