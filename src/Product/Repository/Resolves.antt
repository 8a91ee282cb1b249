-- ===== src/Product/Repository/Resolves.antt =====
-- What a stored batch leaves of each sku (`upsertMany` of
-- src/modules/product/db/product-repository.ts).
use mathlib.Core.Path.{subst}
use promotion_management_api.Base.{
  ℕ, ◌<◌, ◌≡◌, ◌↔◌, refl, ◌∙◌, ◌⊎◌, inl, inr, Bool, true, false, ◌&&◌, ◌||◌, Option, none, some,
  List, [], ◌∷◌, ltb, ◌==◌, ==_iff, arith, Bool-cases, All,
}
use promotion_management_api.Base.Texts.{Text, text_eq, text_eq_iff}
use promotion_management_api.Product.Repository.{
  Product, ProductUpsert, Products, find, set_where, product_of, upsert, upsert_all, upsert_many,
  is_newer_source, is_after, same_values, same_version, map_get, map_of, values, distinct_rows,
}
use promotion_management_api.Product.Repository.Table.{
  after, stored_product, find-upsert, find-upsert_other,
}
use promotion_management_api.Product.Repository.Entries.{IsMap, map_of-IsMap}
use promotion_management_api.Product.Repository.Batch.{or_else, last_of, map_get-map_of}

-- The product has the values of the row.
pub record HasValues (p : Product) (row : ProductUpsert) : Type 0 where
  pub name : p.name ≡ row.name
  pub category : p.category ≡ row.category
  pub base_price_cents : p.base_price_cents ≡ row.base_price_cents
  pub stock_quantity : p.stock_quantity ≡ row.stock_quantity
  pub pricing_rules_version : p.pricing_rules_version ≡ some row.pricing_rules_version

-- The product is the row, under its sku and with its source.
pub record IsStoredAs (row : ProductUpsert) (p : Product) : Type 0 where
  pub sku : p.sku ≡ row.sku
  pub values : HasValues p row
  pub ingest_source : p.ingest_source ≡ some (row.ingest_job_id, row.ingest_source_offset)

-- A source comes before the row's: none, an earlier job, or earlier in the same file.
abbrev pub IsBefore : Option (ℕ × ℕ) → ProductUpsert → Type 0
IsBefore none row = Unit
IsBefore (some (job, offset)) row =
    (job < row.ingest_job_id) ⊎ ((job ≡ row.ingest_job_id) × (offset < row.ingest_source_offset))

abbrev pub Differs : Product → ProductUpsert → Type 0
Differs p row = HasValues p row → ⊥

abbrev pub IsNotBefore : Option (ℕ × ℕ) → ProductUpsert → Type 0
IsNotBefore source row = IsBefore source row → ⊥

-- What a table holds of a sku before and after a batch, by the batch's last row of the sku.
pub data Resolves (before after : Option Product) : Option ProductUpsert → Type 0 where
  untouched : after ≡ before → Resolves before after none
  created :
      {row : ProductUpsert} {p : Product}
      → before ≡ none
      → after ≡ some p
      → IsStoredAs row p
      → Resolves before after (some row)
  overwritten :
      {row : ProductUpsert} {old p : Product}
      → before ≡ some old
      → IsBefore old.ingest_source row
      → Differs old row
      → after ≡ some p
      → p.id ≡ old.id
      → IsStoredAs row p
      → Resolves before after (some row)
  kept :
      {row : ProductUpsert} {old : Product}
      → before ≡ some old
      → IsNotBefore old.ingest_source row ⊎ HasValues old row
      → after ≡ some old
      → Resolves before after (some row)

product_of-IsStoredAs : (id : ℕ) (row : ProductUpsert) → IsStoredAs row (product_of id row)
unfolding product_of
product_of-IsStoredAs id row = record {
  sku = refl;
  values = record {
    name = refl;
    category = refl;
    base_price_cents = refl;
    stock_quantity = refl;
    pricing_rules_version = refl;
  };
  ingest_source = refl;
}

product_of-id : (id : ℕ) (row : ProductUpsert) → (product_of id row).id ≡ id
unfolding product_of
product_of-id id row = refl

is_newer_source_iff :
    (row : ProductUpsert) (source : Option (ℕ × ℕ))
    → (is_newer_source row source ≡ true) ↔ IsBefore source row
unfolding is_newer_source is_after
is_newer_source_iff row none = (λ h. tt, λ b. refl)
is_newer_source_iff row (some (job, offset)) = (λ h. grind arith, λ b. after_of b)
  where
    after_of :
        (job < row.ingest_job_id)
          ⊎ ((job ≡ row.ingest_job_id) × (offset < row.ingest_source_offset))
        → (ltb job row.ingest_job_id
            || job == row.ingest_job_id && ltb offset row.ingest_source_offset)
          ≡ true
    after_of (inl h) = ground arith
    after_of (inr (e, h)) = ground arith

same_version_iff :
    (v : Option ℕ) (version : ℕ) → (same_version v version ≡ true) ↔ (v ≡ some version)
unfolding same_version
same_version_iff none version = (λ h. cc, λ h. cc)
same_version_iff (some v) version =
    (λ h. rw ((==_iff v version).0 h) refl, λ h. (==_iff v version).1 cc)

both : {a b : Bool} → (a && b) ≡ true → (a ≡ true) × (b ≡ true)
both h = (ground arith, ground arith)

same_values_iff : (p : Product) (row : ProductUpsert) → (same_values p row ≡ true) ↔ HasValues p row
unfolding same_values
same_values_iff p row = (
  λ h.
      let all : (text_eq p.name row.name
            && text_eq p.category row.category
            && p.base_price_cents == row.base_price_cents
            && p.stock_quantity == row.stock_quantity
            && same_version p.pricing_rules_version row.pricing_rules_version)
          ≡ true =
        h in
      let (h3, v) = both all in
      let (h2, q) = both h3 in
      let (h1, b) = both h2 in
      let (n, c) = both h1 in
      record {
        name = (text_eq_iff p.name row.name).0 n;
        category = (text_eq_iff p.category row.category).0 c;
        base_price_cents = (==_iff p.base_price_cents row.base_price_cents).0 b;
        stock_quantity = (==_iff p.stock_quantity row.stock_quantity).0 q;
        pricing_rules_version =
            (same_version_iff p.pricing_rules_version row.pricing_rules_version).0 v;
      },
  λ h.
      rw
        (
          (text_eq_iff p.name row.name).1 h.name,
          (text_eq_iff p.category row.category).1 h.category,
          (==_iff p.base_price_cents row.base_price_cents).1 h.base_price_cents,
          (==_iff p.stock_quantity row.stock_quantity).1 h.stock_quantity,
          (same_version_iff p.pricing_rules_version row.pricing_rules_version).1
              h.pricing_rules_version,
        )
        refl,
)

clash : {b : Bool} → b ≡ false → b ≡ true → ⊥
clash e h = cc

-- One row of a statement against the row that the table holds of its sku.
stored_product-Resolves :
    (row : ProductUpsert) (next_id : ℕ) (before after : Option Product)
    → after ≡ some (stored_product row next_id before)
    → Resolves before after (some row)
unfolding set_where
stored_product-Resolves row next_id none after e =
    created refl e (product_of-IsStoredAs next_id row)
stored_product-Resolves row next_id (some p) after e =
    elim (Bool-cases (is_newer_source row p.ingest_source)) [
      | inl n ↦ elim (Bool-cases (same_values p row)) [
        | inl v ↦ kept refl (inr ((same_values_iff p row).0 v)) (e ∙ rw n (rw v refl))
        | inr v ↦
            overwritten refl ((is_newer_source_iff row p.ingest_source).0 n)
              (λ h. clash v ((same_values_iff p row).1 h)) (e ∙ rw n (rw v refl))
              (product_of-id p.id row) (product_of-IsStoredAs p.id row)
      ]
      | inr n ↦
          kept refl (inl (λ b. clash n ((is_newer_source_iff row p.ingest_source).1 b)))
            (e ∙ rw n refl)
    ]

-- The entries of the map, stored one after the other, meet each sku once.
upsert_all-other :
    (sku : Text) (entries : List (Text × ProductUpsert)) (products : Products)
    → IsMap entries
    → All (λ (entry : Text × ProductUpsert). text_eq entry.0 sku ≡ false) entries
    → find sku (upsert_all (values entries) products).0.rows ≡ find sku products.rows
unfolding upsert_all values
upsert_all-other sku [] products m a = refl
upsert_all-other sku ((k, row) ∷ rest) products (own, different, m) (h, a) =
    upsert_all-other sku rest (upsert row products).0 m a
    ∙ find-upsert_other row sku products (rw own h)

-- The entries of a sku resolve it.
upsert_all-Resolves :
    (sku : Text) (entries : List (Text × ProductUpsert)) (products : Products)
    → IsMap entries
    → Resolves
        (find sku products.rows)
        (find sku (upsert_all (values entries) products).0.rows)
        (map_get sku entries)
unfolding upsert_all values map_get
upsert_all-Resolves sku [] products m = untouched refl
upsert_all-Resolves sku ((k, row) ∷ rest) products (own, different, m) =
    elim (Bool-cases (text_eq k sku)) [
      | inl e ↦
          let same : k ≡ sku = (text_eq_iff k sku).0 e in
          let mine : row.sku ≡ sku = own ∙ same in
          rw e (
            stored_product-Resolves row products.next_id (find sku products.rows) _ (
              upsert_all-other sku rest (upsert row products).0 m (
                subst
                  (λ (s : Text).
                    All (λ (entry : Text × ProductUpsert). text_eq entry.0 s ≡ false) rest)
                  same different)
              ∙ subst
                  (λ (s : Text).
                    find s (upsert row products).0.rows
                    ≡ some (stored_product row products.next_id (find s products.rows)))
                  mine (find-upsert row products)))
      | inr e ↦ rw e (
          subst
            (λ (o : Option Product).
              Resolves o (find sku (upsert_all (values rest) (upsert row products).0).0.rows)
                (map_get sku rest))
            (find-upsert_other row sku products (rw own e))
            (upsert_all-Resolves sku rest (upsert row products).0 m))
    ]

or_else-none : (o : Option ProductUpsert) → or_else o none ≡ o
or_else-none none = refl
or_else-none (some row) = refl

-- A stored batch settles every sku by the last row that the batch has of it. A sku without one keeps
-- what the table held. A new sku is created with the row's values and source. A stored row is
-- overwritten under its own id, if its source is none or comes before the batch's row (an earlier
-- job, or earlier in the same job's file) and a value differs, and is otherwise kept as it is.
pub upsert_many-Resolves :
    (batch : List ProductUpsert) (products : Products) (sku : Text)
    → Resolves
        (find sku products.rows)
        (find sku (upsert_many batch products).0.rows)
        (last_of sku batch)
unfolding upsert_many distinct_rows map_get
upsert_many-Resolves batch products sku =
    subst
      (λ (o : Option ProductUpsert).
        Resolves (find sku products.rows) (find sku (upsert_many batch products).0.rows) o)
      (map_get-map_of sku batch [] ∙ or_else-none (last_of sku batch))
      (upsert_all-Resolves sku (map_of batch []) products (map_of-IsMap batch [] tt))
