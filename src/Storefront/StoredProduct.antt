-- ===== src/Storefront/StoredProduct.antt =====
-- A product as the hash that the writer stores and the reader parses (`fieldsOf` of
-- src/modules/storefront/db/product-write-repository.ts, and stored-product.ts and product-view.ts
-- of src/modules/storefront/domain/dto).
pub mod Fields
pub mod RoundTrip
use promotion_management_api.Base.{
  ℕ, Bool, true, false, not, ◌||◌, Option, none, some, List, [], ◌∷◌, ◌++◌, if◌then◌else◌, leb,
  ◌==◌,
}
use promotion_management_api.Base.Texts.{Text, codes, text_eq}
use promotion_management_api.Base.Trim.{trim}
use promotion_management_api.Base.Digits.{is_digits, number, to_text, max_safe_integer}
use promotion_management_api.Base.Options.{◌>>=◌, guard}
use promotion_management_api.Storefront.ProductPricer.{ProductEntry}

-- The fields of a hash, as `HSET` takes them and `HGETALL` gives them.
abbrev pub Hash : Type 0
Hash = List (Text × Text)

unfoldable pub field : Text → Hash → Option Text
field key [] = none
field key ((k, v) ∷ rest) = if text_eq k key then some v else field key rest

-- Both or neither.
promotion_fields : Option ℕ → Option Text → Hash
promotion_fields (some id) (some name) =
    (codes "promotionId", to_text id) ∷ (codes "promotionName", name) ∷ []
promotion_fields _ _ = []

version_fields : Option ℕ → Hash
version_fields none = []
version_fields (some version) = (codes "pricingRulesVersion", to_text version) ∷ []

-- `fieldsOf`; `updated_at` is the instant of the token as an ISO text.
unfoldable pub fields_of : ProductEntry → Text → Hash
unfolding promotion_fields version_fields
fields_of entry updated_at =
    (codes "id", to_text entry.id)
    ∷ (codes "sku", entry.sku)
    ∷ (codes "name", entry.name)
    ∷ (codes "category", entry.category)
    ∷ (codes "basePriceCents", to_text entry.base_price_cents)
    ∷ (codes "effectivePriceCents", to_text entry.effective_price_cents)
    ∷ (codes "stockQuantity", to_text entry.stock_quantity)
    ∷ (codes "updatedAt", updated_at)
    ∷ (promotion_fields entry.promotion_id entry.promotion_name
        ++ version_fields entry.pricing_rules_version)

-- `digits`: a text of digits whose number is a safe integer.
unfoldable pub digits : Text → Option ℕ
digits s =
    if is_digits s
    then (if leb (number s) max_safe_integer then some (number s) else none)
    else none

is_empty : Text → Bool
is_empty [] = true
is_empty (c ∷ s) = false

-- `blankIsAbsent`
unfoldable pub blank_is_absent : Option Text → Option Text
unfolding is_empty
blank_is_absent none = none
blank_is_absent (some s) = if is_empty (trim s) then none else some s

pub optional_digits : Option Text → Option (Option ℕ)
optional_digits none = some none
optional_digits (some s) = digits s >>= λ n. some (some n)

pub record StoredProduct : Type 0 where
  pub id : ℕ
  pub sku : Text
  pub name : Text
  pub category : Text
  pub base_price_cents : ℕ
  pub effective_price_cents : ℕ
  pub stock_quantity : ℕ
  pub promotion_id : Option ℕ
  pub promotion_name : Option Text

is_absent {ℓ} : {A : Type ℓ} → Option A → Bool
is_absent none = true
is_absent (some a) = false

-- The first refinement: an id and a name, or neither.
promotion_is_whole : StoredProduct → Bool
unfolding is_absent
promotion_is_whole p =
    if is_absent p.promotion_id
    then is_absent p.promotion_name
    else not (is_absent p.promotion_name)

-- The third: a discounted price names its promotion.
discount_is_named : StoredProduct → Bool
unfolding is_absent
discount_is_named p =
    not (is_absent p.promotion_id) || p.effective_price_cents == p.base_price_cents

-- `storedProduct.parse`; nothing stands for a parse that throws.
unfoldable pub stored_product : Hash → Option StoredProduct
unfolding optional_digits promotion_is_whole discount_is_named
stored_product hash = do
  id ← field (codes "id") hash >>= digits
  sku ← field (codes "sku") hash
  name ← field (codes "name") hash
  category ← field (codes "category") hash
  base ← field (codes "basePriceCents") hash >>= digits
  price ← field (codes "effectivePriceCents") hash >>= digits
  stock ← field (codes "stockQuantity") hash >>= digits
  promotion ← optional_digits (blank_is_absent (field (codes "promotionId") hash))
  let product : StoredProduct = record {
    id = id;
    sku = sku;
    name = name;
    category = category;
    base_price_cents = base;
    effective_price_cents = price;
    stock_quantity = stock;
    promotion_id = promotion;
    promotion_name = blank_is_absent (field (codes "promotionName") hash);
  }
  _ ← guard (promotion_is_whole product)
  _ ← guard (leb price base)
  _ ← guard (discount_is_named product)
  some product

pub record ProductView : Type 0 where
  pub id : ℕ
  pub sku : Text
  pub name : Text
  pub category : Text
  pub base_price_cents : ℕ
  pub effective_price_cents : ℕ
  pub stock_quantity : ℕ
  pub promotion : Option (ℕ × Text)

unfoldable pub promotion_of : Option ℕ → Option Text → Option (ℕ × Text)
promotion_of (some id) (some name) = some (id, name)
promotion_of _ _ = none

-- The transform of `productView`.
unfoldable pub view : StoredProduct → ProductView
unfolding promotion_of
view p = record {
  id = p.id;
  sku = p.sku;
  name = p.name;
  category = p.category;
  base_price_cents = p.base_price_cents;
  effective_price_cents = p.effective_price_cents;
  stock_quantity = p.stock_quantity;
  promotion = promotion_of p.promotion_id p.promotion_name;
}

-- `productView.parse`
unfoldable pub product_view : Hash → Option ProductView
product_view hash = do product ← stored_product hash; some (view product)
