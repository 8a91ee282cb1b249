-- ===== src/Storefront/ListProducts.antt =====
-- A page of the listing (src/modules/storefront/queries/list-products-query.ts).
pub mod Pages
mod Tests
use promotion_management_api.Base.{ℕ, ◌-◌, ◌*◌, Option, none, some, List, [], ◌∷◌}
use promotion_management_api.Base.Texts.{Text}
use promotion_management_api.Base.Result.{Result, ok, err, ◌>>=◌}
use promotion_management_api.Storefront.StoredProduct.{Hash, ProductView, product_view}
use promotion_management_api.Storefront.ProductReads.{
  Redis, ReadFault, unparsed, page, count, find_all, require_ready,
}
use promotion_management_api.Storefront.ListProductsInput.{ListProductsInput}

-- The items of a page, with the members whose entry is gone, which are only logged.
pub record ProductPage : Type 0 where
  pub items : List ProductView
  pub page : ℕ
  pub page_size : ℕ
  pub total : ℕ
  pub dropped : List Text

unfoldable pub dropped_of : List Text → List (Option Hash) → List Text
dropped_of [] hashes = []
dropped_of (id ∷ ids) [] = []
dropped_of (id ∷ ids) (none ∷ hashes) = id ∷ dropped_of ids hashes
dropped_of (id ∷ ids) (some hash ∷ hashes) = dropped_of ids hashes

parsed : Hash → Result ReadFault ProductView
parsed hash = elim (product_view hash) [ none ↦ err unparsed | some view ↦ ok view ]

-- `hashes.filter(...).map((hash) => productView.parse(hash))`
unfoldable pub parse_all : List (Option Hash) → Result ReadFault (List ProductView)
unfolding parsed
parse_all [] = ok []
parse_all (none ∷ hashes) = parse_all hashes
parse_all (some hash ∷ hashes) = do view ← parsed hash; views ← parse_all hashes; ok (view ∷ views)

-- `execute`
unfoldable pub execute : Redis → ListProductsInput → Result ReadFault ProductPage
execute redis input = do
  let offset = (input.page - 1) * input.page_size
  ids ← page redis input.category input.ascending offset input.page_size
  total ← count redis input.category
  hashes ← find_all redis ids
  items ← parse_all hashes
  ok (record {
    items = items;
    page = input.page;
    page_size = input.page_size;
    total = total;
    dropped = dropped_of ids hashes;
  })

-- The route of the listing, behind the readiness of the model.
unfoldable pub list_products : Redis → ListProductsInput → Result ReadFault ProductPage
list_products redis input = do _ ← require_ready redis; execute redis input
