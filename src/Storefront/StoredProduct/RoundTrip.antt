-- ===== src/Storefront/StoredProduct/RoundTrip.antt =====
-- What the writer stores is what the reader shows.
use promotion_management_api.Base.{
  ℕ, ◌≤◌, ◌≡◌, ◌≢◌, inl, inr, refl, true, Option, some, [], arith, leb,
}
use promotion_management_api.Base.Texts.{Text, codes}
use promotion_management_api.Base.Trim.{trim}
use promotion_management_api.Base.Digits.{max_safe_integer}
use promotion_management_api.Base.Result.{ok}
use promotion_management_api.Promotion.Resolver.{Engine, PromotionResolver}
use promotion_management_api.Storefront.ProductPricer.{ProductEntry, SourceRow, price}
use promotion_management_api.Storefront.ProductPricer.Laws.{IsConsistent, price-IsConsistent}
use promotion_management_api.Storefront.StoredProduct.{
  field, fields_of, blank_is_absent, optional_digits, StoredProduct, stored_product, ProductView,
  view, product_view, promotion_is_whole, discount_is_named, is_absent, promotion_of,
}
use promotion_management_api.Storefront.StoredProduct.Fields.{
  digits-to_text, optional_field-id, optional_field-name, field-id, field-sku, field-name,
  field-category, field-base, field-price, field-stock, nothing_read, optional_digits-to_text, seen,
  field-promotion_id, field-promotion_name, field-no_promotion, different_id, different_name,
}

-- What the reader shows of an entry.
abbrev pub shown : ProductEntry → Option (ℕ × Text) → ProductView
shown entry promotion = record {
  id = entry.id;
  sku = entry.sku;
  name = entry.name;
  category = entry.category;
  base_price_cents = entry.base_price_cents;
  effective_price_cents = entry.effective_price_cents;
  stock_quantity = entry.stock_quantity;
  promotion = promotion;
}

-- The numbers are safe integers, and the promotion's name, if there is one, is not blank.
pub record IsSafe (entry : ProductEntry) : Type 0 where
  pub id_safe : entry.id ≤ max_safe_integer
  pub base_safe : entry.base_price_cents ≤ max_safe_integer
  pub price_safe : entry.effective_price_cents ≤ max_safe_integer
  pub stock_safe : entry.stock_quantity ≤ max_safe_integer
  pub promotion_safe : (id : ℕ) → entry.promotion_id ≡ some id → id ≤ max_safe_integer
  pub name_seen : (name : Text) → entry.promotion_name ≡ some name → trim name ≢ []

-- The reader's view once it has read the promotion's fields as such an id and name.
shown_if_read :
    (entry : ProductEntry) (updated_at : Text) (promotion_id : Option ℕ)
    (promotion_name : Option Text)
    → IsSafe entry
    → optional_digits (blank_is_absent (field (codes "promotionId") (fields_of entry updated_at)))
      ≡ some promotion_id
    → blank_is_absent (field (codes "promotionName") (fields_of entry updated_at)) ≡ promotion_name
    → let product : StoredProduct = record {
      id = entry.id;
      sku = entry.sku;
      name = entry.name;
      category = entry.category;
      base_price_cents = entry.base_price_cents;
      effective_price_cents = entry.effective_price_cents;
      stock_quantity = entry.stock_quantity;
      promotion_id = promotion_id;
      promotion_name = promotion_name;
    } in
      promotion_is_whole product ≡ true
      → leb entry.effective_price_cents entry.base_price_cents ≡ true
      → discount_is_named product ≡ true
      → product_view (fields_of entry updated_at)
        ≡ some (shown entry (promotion_of promotion_id promotion_name))
unfolding product_view stored_product view
shown_if_read entry updated_at promotion_id promotion_name safe id_read name_read whole within
      named =
    rw (field-id entry updated_at, digits-to_text entry.id safe.id_safe)
      (rw (field-sku entry updated_at) (
        rw (field-name entry updated_at) (
          rw (field-category entry updated_at) (
            rw (field-base entry updated_at, digits-to_text entry.base_price_cents safe.base_safe)
              (rw
                (
                  field-price entry updated_at,
                  digits-to_text entry.effective_price_cents safe.price_safe,
                )
                (rw
                  (
                    field-stock entry updated_at,
                    digits-to_text entry.stock_quantity safe.stock_safe,
                  )
                  (rw id_read (rw name_read (rw (whole, within, named) refl)))))))))

-- A consistent entry with safe numbers and a promotion name that is not blank is shown by the reader
-- as the entry says, its promotion by id and name.
product_view-fields_of :
    (entry : ProductEntry) (updated_at : Text)
    → IsConsistent entry
    → IsSafe entry
    → product_view (fields_of entry updated_at)
      ≡ some (shown entry (promotion_of entry.promotion_id entry.promotion_name))
unfolding promotion_is_whole discount_is_named is_absent
product_view-fields_of entry updated_at consistent safe =
    let within : leb entry.effective_price_cents entry.base_price_cents ≡ true =
      ground (arith, consistent.within_base) in
    elim consistent.promotion_whole [
      | inl (no_id, no_name) ↦
          shown_if_read entry updated_at entry.promotion_id entry.promotion_name safe
            (rw (optional_field-id entry updated_at) (
              rw (field-no_promotion entry (codes "promotionId") no_id different_id)
                (rw no_id nothing_read.0)))
            (rw (optional_field-name entry updated_at) (
              rw (field-no_promotion entry (codes "promotionName") no_id different_name)
                (rw no_name nothing_read.1)))
            (rw (no_id, no_name) refl) within
            (rw no_id (ground (arith, consistent.discount_named no_id)))
      | inr (id, name, has_id, has_name) ↦
          shown_if_read entry updated_at entry.promotion_id entry.promotion_name safe
            (rw (optional_field-id entry updated_at) (
              rw (field-promotion_id entry id name has_id has_name)
                (rw has_id (optional_digits-to_text id (safe.promotion_safe id has_id)))))
            (rw (optional_field-name entry updated_at) (
              rw (field-promotion_name entry id name has_id has_name)
                (rw has_name (seen name (safe.name_seen name has_name)))))
            (rw (has_id, has_name) refl) within (rw has_id refl)
    ]

-- Whatever the rules choose, an entry that the pricer makes, its numbers safe and its promotion's
-- name not blank, is accepted by the reader and shown as it is, the promotion by id and name.
pub product_view-price :
    (engine : Engine) (resolver : PromotionResolver) (row : SourceRow) (updated_at : Text)
    {entry : ProductEntry}
    → price engine resolver row ≡ ok entry
    → IsSafe entry
    → product_view (fields_of entry updated_at)
      ≡ some (shown entry (promotion_of entry.promotion_id entry.promotion_name))
product_view-price engine resolver row updated_at {entry} h safe =
    product_view-fields_of entry updated_at (price-IsConsistent engine resolver row h) safe
