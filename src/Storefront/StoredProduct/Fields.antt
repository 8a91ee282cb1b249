-- ===== src/Storefront/StoredProduct/Fields.antt =====
-- What the reader finds in each field that the writer stores.
use promotion_management_api.Base.{
  ℕ, ◌≤◌, ◌≡◌, ◌≢◌, inl, inr, refl, true, false, Option, none, some, [], ◌∷◌, ◌++◌, arith, not, all,
  Bool-cases,
}
use promotion_management_api.Base.Texts.{Text, codes, text_eq}
use promotion_management_api.Base.Trim.{trim, trim-visible, is_space}
use promotion_management_api.Base.Digits.{
  is_digits, is_digit, to_text, max_safe_integer, number-to_text, is_digits-to_text,
}
use promotion_management_api.Storefront.ProductPricer.{ProductEntry}
use promotion_management_api.Storefront.StoredProduct.{
  Hash, field, fields_of, digits, blank_is_absent, optional_digits, promotion_fields,
  version_fields, is_empty,
}

pub digits-to_text : (n : ℕ) → n ≤ max_safe_integer → digits (to_text n) ≡ some n
unfolding digits
digits-to_text n h = rw (is_digits-to_text n, number-to_text n) (ground arith)

-- The optional fields, behind the eight that every entry has.
pub optional_fields : ProductEntry → Hash
unfolding promotion_fields version_fields
optional_fields entry =
    promotion_fields entry.promotion_id entry.promotion_name
    ++ version_fields entry.pricing_rules_version

pub optional_field-id :
    (entry : ProductEntry) (updated_at : Text)
    → field (codes "promotionId") (fields_of entry updated_at)
      ≡ field (codes "promotionId") (optional_fields entry)
unfolding field text_eq fields_of optional_fields
optional_field-id entry updated_at = refl

pub optional_field-name :
    (entry : ProductEntry) (updated_at : Text)
    → field (codes "promotionName") (fields_of entry updated_at)
      ≡ field (codes "promotionName") (optional_fields entry)
unfolding field text_eq fields_of optional_fields
optional_field-name entry updated_at = refl

version_fields-none :
    (version : Option ℕ) (key : Text)
    → text_eq (codes "pricingRulesVersion") key ≡ false
    → field key (version_fields version) ≡ none
unfolding field version_fields
version_fields-none none key h = refl
version_fields-none (some v) key h = rw h

pub field-id :
    (entry : ProductEntry) (updated_at : Text)
    → field (codes "id") (fields_of entry updated_at) ≡ some (to_text entry.id)
unfolding field text_eq fields_of
field-id entry updated_at = refl

pub field-sku :
    (entry : ProductEntry) (updated_at : Text)
    → field (codes "sku") (fields_of entry updated_at) ≡ some (entry.sku)
unfolding field text_eq fields_of
field-sku entry updated_at = refl

pub field-name :
    (entry : ProductEntry) (updated_at : Text)
    → field (codes "name") (fields_of entry updated_at) ≡ some (entry.name)
unfolding field text_eq fields_of
field-name entry updated_at = refl

pub field-category :
    (entry : ProductEntry) (updated_at : Text)
    → field (codes "category") (fields_of entry updated_at) ≡ some (entry.category)
unfolding field text_eq fields_of
field-category entry updated_at = refl

pub field-base :
    (entry : ProductEntry) (updated_at : Text)
    → field (codes "basePriceCents") (fields_of entry updated_at)
      ≡ some (to_text entry.base_price_cents)
unfolding field text_eq fields_of
field-base entry updated_at = refl

pub field-price :
    (entry : ProductEntry) (updated_at : Text)
    → field (codes "effectivePriceCents") (fields_of entry updated_at)
      ≡ some (to_text entry.effective_price_cents)
unfolding field text_eq fields_of
field-price entry updated_at = refl

pub field-stock :
    (entry : ProductEntry) (updated_at : Text)
    → field (codes "stockQuantity") (fields_of entry updated_at)
      ≡ some (to_text entry.stock_quantity)
unfolding field text_eq fields_of
field-stock entry updated_at = refl

digits-seen : (s : Text) → all is_digit s ≡ true → all (λ c. not (is_space c)) s ≡ true
digits-seen [] h = refl
digits-seen (c ∷ s) h = elim (Bool-cases (is_digit c)) [
  | inl e ↦ rw (digit-seen c e) (digits-seen s (rw e at h))
  | inr e ↦ cc (rw e at h)
]
  where
    digit-seen : (c : ℕ) → is_digit c ≡ true → is_space c ≡ false
    digit-seen c h = ground arith

number-seen : (s : Text) → is_digits s ≡ true → blank_is_absent (some s) ≡ some s
unfolding blank_is_absent is_empty
number-seen [] h = cc
number-seen (c ∷ s) h = rw (trim-visible (c ∷ s) (digits-seen (c ∷ s) h)) refl

optional_digits-some :
    (s : Text) {n : ℕ} → digits s ≡ some n → optional_digits (some s) ≡ some (some n)
unfolding optional_digits
optional_digits-some s h = rw h refl

pub nothing_read :
    (optional_digits (blank_is_absent none) ≡ some none) × (blank_is_absent none ≡ none)
unfolding optional_digits blank_is_absent
nothing_read = (refl, refl)

pub optional_digits-to_text :
    (n : ℕ)
    → n ≤ max_safe_integer
    → optional_digits (blank_is_absent (some (to_text n))) ≡ some (some n)
optional_digits-to_text n h =
    rw (number-seen (to_text n) (is_digits-to_text n))
      (optional_digits-some (to_text n) (digits-to_text n h))

not_empty : (s : Text) → s ≢ [] → is_empty s ≡ false
unfolding is_empty
not_empty [] h = absurd (h refl)
not_empty (c ∷ s) h = refl

pub seen : (name : Text) → trim name ≢ [] → blank_is_absent (some name) ≡ some name
unfolding blank_is_absent
seen name h = rw (not_empty (trim name) h) refl

pub field-promotion_id :
    (entry : ProductEntry) (id : ℕ) (name : Text)
    → entry.promotion_id ≡ some id
    → entry.promotion_name ≡ some name
    → field (codes "promotionId") (optional_fields entry) ≡ some (to_text id)
unfolding field text_eq optional_fields promotion_fields
field-promotion_id entry id name h k = rw (h, k) refl

pub field-promotion_name :
    (entry : ProductEntry) (id : ℕ) (name : Text)
    → entry.promotion_id ≡ some id
    → entry.promotion_name ≡ some name
    → field (codes "promotionName") (optional_fields entry) ≡ some name
unfolding field text_eq optional_fields promotion_fields
field-promotion_name entry id name h k = rw (h, k) refl

pub field-no_promotion :
    (entry : ProductEntry) (key : Text)
    → entry.promotion_id ≡ none
    → text_eq (codes "pricingRulesVersion") key ≡ false
    → field key (optional_fields entry) ≡ none
unfolding optional_fields promotion_fields
field-no_promotion entry key h k = rw h (version_fields-none entry.pricing_rules_version key k)

pub different_id : text_eq (codes "pricingRulesVersion") (codes "promotionId") ≡ false
unfolding text_eq
different_id = refl

pub different_name : text_eq (codes "pricingRulesVersion") (codes "promotionName") ≡ false
unfolding text_eq
different_name = refl
