-- ===== src/Storefront/WriteRepository/Versions.antt =====
-- The read model as the newest version of each product: what the keys of
-- src/modules/storefront/db/product-write-repository.ts hold, stated without tokens and sets.
use promotion_management_api.Base.{
  ℕ, ◌≡◌, ◌≢◌, refl, inl, inr, Bool, true, false, Option, none, some, [], ◌∷◌, ◌++◌, arith,
  if◌then◌else◌, leb, ltb, ◌==◌, Bool-cases, all,
}
use mathlib.Core.Path.{fun_ext}
use promotion_management_api.Base.Texts.{Text, text_eq}
use promotion_management_api.Base.Digits.{
  to_text, number-to_text, is_digits, is_digit, is_digits-to_text,
}
use promotion_management_api.Storefront.ProductPricer.{ProductEntry}
use promotion_management_api.Storefront.StoredProduct.{Hash, fields_of}
use promotion_management_api.Storefront.WriteRepository.{
  ReadModel, put, split_token, TokenCheck, beaten, free, check_token, token_of,
}

-- What is known of a product at an instant: its entry, or that it is gone.
pub record Version : Type 0 where
  pub source_read_at : ℕ
  pub product : Option ProductEntry

abbrev pub Versions : Type 0
Versions = ℕ → Option Version

-- A version of an instant replaces one of an earlier instant.
abbrev pub is_newer : ℕ → Option Version → Bool
is_newer source_read_at none = true
is_newer source_read_at (some v) = ltb v.source_read_at source_read_at

abbrev pub settle : ℕ → Version → Versions → Versions
settle id version versions =
    if is_newer version.source_read_at (versions id)
    then put id (some version) versions
    else versions

unfoldable pub category_of : Option ProductEntry → Text
category_of none = []
category_of (some entry) = entry.category

unfoldable pub token_in : Option Version → Option Text
unfolding category_of
token_in none = none
token_in (some v) = some (token_of v.source_read_at (category_of v.product))

unfoldable pub score_in : Text → Option ProductEntry → Option ℕ
score_in name none = none
score_in name (some entry) =
    if text_eq name entry.category then some entry.effective_price_cents else none

unfoldable pub price_in : Option ProductEntry → Option ℕ
price_in none = none
price_in (some entry) = some entry.effective_price_cents

abbrev pub product_in : Option Version → Option ProductEntry
product_in none = none
product_in (some v) = v.product

pub split_token-token_of :
    (s category : Text) → all is_digit s ≡ true → split_token (s ++ b':' ∷ category) ≡ (s, category)
unfolding split_token
split_token-token_of [] category h = refl
split_token-token_of (c ∷ s) category h = elim (Bool-cases (is_digit c)) [
  | inl e ↦
      let no_colon : (c == b':') ≡ false = ground arith in
      rw (no_colon, split_token-token_of s category (rw e at h)) refl
  | inr e ↦ cc (rw e at h)
]

all_digits : (s : Text) → is_digits s ≡ true → all is_digit s ≡ true
all_digits [] h = refl
all_digits (c ∷ s) h = h

-- The script's comparison of the token of a version.
pub check_token-token_of :
    (stored source_read_at : ℕ) (category : Text)
    → check_token (split_token (token_of stored category)) source_read_at
      ≡ (if leb source_read_at stored then beaten (to_text stored) else free category)
unfolding check_token token_of
check_token-token_of stored source_read_at category =
    rw
      (split_token-token_of (to_text stored) category
        (all_digits (to_text stored) (is_digits-to_text stored)))
      (rw (number-to_text stored) refl)

module _ (iso : ℕ → Text) where
  unfoldable pub entry_in : Option Version → Option Hash
  entry_in none = none
  entry_in (some v) = hash_of v.product
    where
      hash_of : Option ProductEntry → Option Hash
      hash_of none = none
      hash_of (some entry) = some (fields_of entry (iso v.source_read_at))

  -- The read model that holds these versions.
  unfoldable pub model_of : Versions → ReadModel
  unfolding token_in score_in price_in entry_in
  model_of versions = record {
    tokens = λ id. token_in (versions id);
    entries = λ id. entry_in (versions id);
    categories = λ name id. score_in name (product_in (versions id));
    all_products = λ id. price_in (product_in (versions id));
  }

abbrev pub stored_text : Option Version → Text
stored_text none = []
stored_text (some v) = to_text v.source_read_at

unfoldable pub verdict : ℕ → Option Version → TokenCheck
verdict source_read_at o =
    if is_newer source_read_at o then free (category_of (product_in o)) else beaten (stored_text o)

-- The answer of a script: nothing where it applied, else the instant that beat it.
abbrev pub answer : ℕ → Option Version → Option Text
answer source_read_at o = if is_newer source_read_at o then none else some (stored_text o)

pub put-map :
    {A B : Type 0} (f : Option A → Option B) (k : ℕ) (o : Option A) (m : ℕ → Option A)
    → put k (f o) (λ i. f (m i)) ≡ (λ i. f (put k o m i))
put-map f k o m =
    fun_ext (λ i. elim (Bool-cases (i == k)) [ inl e ↦ rw e refl | inr e ↦ rw e refl ])

pub ReadModel-eq :
    {a b : ReadModel}
    → a.tokens ≡ b.tokens
    → a.entries ≡ b.entries
    → a.categories ≡ b.categories
    → a.all_products ≡ b.all_products
    → a ≡ b
ReadModel-eq p q r s =
    λ i. record { tokens = p i; entries = q i; categories = r i; all_products = s i }

-- An entry's category is never the empty text, which is the token's sign of a product that is gone.
abbrev pub IsNamed : Option ProductEntry → Type 0
IsNamed none = Unit
IsNamed (some entry) = entry.category ≢ []
