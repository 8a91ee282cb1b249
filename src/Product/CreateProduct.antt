-- ===== src/Product/CreateProduct.antt =====
-- The command that creates a product and announces it
-- (src/modules/product/commands/create-product-command.ts).
use promotion_management_api.Base.{ℕ, Option, none, some, List, [], ◌∷◌}
use promotion_management_api.Product.Repository.{CreateProduct, Product, Products, insert}

-- The table, the ids that are announced, and the product, or nothing where the answer is 409. An
-- announcement that the queue refuses is only logged.
pub record Created : Type 0 where
  pub table : Products
  pub announced : List ℕ
  pub product : Option Product

created_of : Products × Option Product → Created
created_of (table, none) = record { table = table; announced = []; product = none }
created_of (table, some product) = record {
  table = table;
  announced = product.id ∷ [];
  product = some product;
}

-- `execute`
unfoldable pub create_product : CreateProduct → Products → Created
unfolding created_of
create_product input products = created_of (insert input products)
