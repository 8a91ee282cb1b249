-- ===== src/Product/Repository.antt =====
-- The writes of the products table (src/modules/product/db/product-repository.ts, and the table of
-- src/modules/product/db/schema/products.ts).
pub mod Table
pub mod Statement
pub mod SkuMap
pub mod Ids
pub mod Entries
pub mod Batch
pub mod Resolves
mod Tests
use promotion_management_api.Base.{
  ℕ, ◌+◌, Bool, true, false, not, ◌&&◌, ◌||◌, Option, none, some, List, [], ◌∷◌, ◌++◌, map,
  if◌then◌else◌, ltb, ◌==◌, filterb,
}
use promotion_management_api.Base.Texts.{Text, text_eq}

-- A row of the table; the offset stands with the job, as the provenance check asks.
pub record Product : Type 0 where
  pub id : ℕ
  pub sku : Text
  pub name : Text
  pub category : Text
  pub base_price_cents : ℕ
  pub stock_quantity : ℕ
  pub pricing_rules_version : Option ℕ
  pub ingest_source : Option (ℕ × ℕ)

-- `ProductUpsert`
pub record ProductUpsert : Type 0 where
  pub sku : Text
  pub name : Text
  pub category : Text
  pub base_price_cents : ℕ
  pub stock_quantity : ℕ
  pub pricing_rules_version : ℕ
  pub ingest_job_id : ℕ
  pub ingest_source_offset : ℕ

-- `CreateProduct`
pub record CreateProduct : Type 0 where
  pub sku : Text
  pub name : Text
  pub category : Text
  pub base_price_cents : ℕ
  pub stock_quantity : ℕ

-- The table and the next id of its identity column.
pub record Products : Type 0 where
  pub rows : List Product
  pub next_id : ℕ

unfoldable pub find : Text → List Product → Option Product
find sku [] = none
find sku (p ∷ rows) = if text_eq p.sku sku then some p else find sku rows

-- `insert`; nothing is the refusal `sku-exists`. The id is taken before the unique index refuses.
unfoldable pub insert : CreateProduct → Products → Products × Option Product
insert input products =
    let product : Product = record {
      id = products.next_id;
      sku = input.sku;
      name = input.name;
      category = input.category;
      base_price_cents = input.base_price_cents;
      stock_quantity = input.stock_quantity;
      pricing_rules_version = none;
      ingest_source = none;
    } in
    elim (find input.sku products.rows) [
      | some taken ↦ (record { rows = products.rows; next_id = products.next_id + 1 }, none)
      | none ↦ (
        record { rows = products.rows ++ product ∷ []; next_id = products.next_id + 1 },
        some product,
      )
    ]

-- `Map.set`: a key that is there keeps its place.
unfoldable pub map_set {ℓ} : {A : Type ℓ} → Text → A → List (Text × A) → List (Text × A)
map_set key value [] = (key, value) ∷ []
map_set key value ((k, v) ∷ rest) =
    if text_eq k key then (k, value) ∷ rest else (k, v) ∷ map_set key value rest

unfoldable pub map_get {ℓ} : {A : Type ℓ} → Text → List (Text × A) → Option A
map_get key [] = none
map_get key ((k, v) ∷ rest) = if text_eq k key then some v else map_get key rest

pub map_of : List ProductUpsert → List (Text × ProductUpsert) → List (Text × ProductUpsert)
map_of [] entries = entries
map_of (row ∷ batch) entries = map_of batch (map_set row.sku row entries)

pub values : List (Text × ProductUpsert) → List ProductUpsert
values [] = []
values ((k, row) ∷ rest) = row ∷ values rest

-- `[...new Map(batch.map((row) => [row.sku, row])).values()]`
unfoldable pub distinct_rows : List ProductUpsert → List ProductUpsert
unfolding map_of values
distinct_rows batch = values (map_of batch [])

-- A row comparison of the two sources.
is_after : ℕ × ℕ → ℕ × ℕ → Bool
is_after (job, offset) (stored_job, stored_offset) =
    ltb stored_job job || stored_job == job && ltb stored_offset offset

is_newer_source : ProductUpsert → Option (ℕ × ℕ) → Bool
unfolding is_after
is_newer_source row none = true
is_newer_source row (some stored) = is_after (row.ingest_job_id, row.ingest_source_offset) stored

same_version : Option ℕ → ℕ → Bool
same_version none version = false
same_version (some v) version = v == version

-- The values are not distinct.
same_values : Product → ProductUpsert → Bool
unfolding same_version
same_values p row =
    text_eq p.name row.name
    && text_eq p.category row.category
    && p.base_price_cents == row.base_price_cents
    && p.stock_quantity == row.stock_quantity
    && same_version p.pricing_rules_version row.pricing_rules_version

-- `setWhere`
unfoldable pub set_where : Product → ProductUpsert → Bool
unfolding is_newer_source same_values
set_where p row = is_newer_source row p.ingest_source && not (same_values p row)

-- The row as stored under an id; `updatedAt`, which nothing reads, is left out.
unfoldable pub product_of : ℕ → ProductUpsert → Product
product_of id row = record {
  id = id;
  sku = row.sku;
  name = row.name;
  category = row.category;
  base_price_cents = row.base_price_cents;
  stock_quantity = row.stock_quantity;
  pricing_rules_version = some row.pricing_rules_version;
  ingest_source = some (row.ingest_job_id, row.ingest_source_offset);
}

-- The row of a sku, updated where `setWhere` allows it.
unfoldable pub update_rows : ProductUpsert → List Product → List Product
update_rows row [] = []
update_rows row (p ∷ rows) =
    if text_eq p.sku row.sku
    then (if set_where p row then product_of p.id row ∷ rows else p ∷ rows)
    else p ∷ update_rows row rows

-- `INSERT ... ON CONFLICT DO UPDATE ... RETURNING sku, id` for one row, which takes an id whether it
-- is inserted or not.
returned : ProductUpsert → Products → Option Product → List (Text × ℕ)
returned row products none = (row.sku, products.next_id) ∷ []
returned row products (some p) = if set_where p row then (p.sku, p.id) ∷ [] else []

stored_rows : ProductUpsert → Products → Option Product → List Product
stored_rows row products none = products.rows ++ product_of products.next_id row ∷ []
stored_rows row products (some p) = update_rows row products.rows

unfoldable pub upsert : ProductUpsert → Products → Products × List (Text × ℕ)
unfolding returned stored_rows
upsert row products = (
  record {
    rows = stored_rows row products (find row.sku products.rows);
    next_id = products.next_id + 1;
  },
  returned row products (find row.sku products.rows),
)

unfoldable pub upsert_all : List ProductUpsert → Products → Products × List (Text × ℕ)
upsert_all [] products = (products, [])
upsert_all (row ∷ batch) products =
    let (next, stored) = upsert row products in
    let (last, more) = upsert_all batch next in (last, stored ++ more)

pub map_set_all : List (Text × ℕ) → List (Text × ℕ) → List (Text × ℕ)
map_set_all [] entries = entries
map_set_all ((sku, id) ∷ stored) entries = map_set_all stored (map_set sku id entries)

is_none {ℓ} : {A : Type ℓ} → Option A → Bool
is_none none = true
is_none (some a) = false

-- The rows that returned nothing.
skipped_of : List ProductUpsert → List (Text × ℕ) → List ProductUpsert
unfolding is_none
skipped_of rows by_their_sku = filterb (λ row. is_none (map_get row.sku by_their_sku)) rows

pub found_row : Option Product → List (Text × ℕ)
found_row none = []
found_row (some p) = (p.sku, p.id) ∷ []

-- The `SELECT` of the skipped rows' skus, whose order no caller sees.
pub found_of : List ProductUpsert → List Product → List (Text × ℕ)
unfolding found_row
found_of [] rows = []
found_of (row ∷ skipped) rows = found_row (find row.sku rows) ++ found_of skipped rows

ids_of : List ProductUpsert → List (Text × ℕ) → List (Option ℕ)
ids_of [] by_their_sku = []
ids_of (row ∷ rows) by_their_sku = map_get row.sku by_their_sku ∷ ids_of rows by_their_sku

-- `upsertMany`; an id that is not there, which the code takes for one that is, is nothing.
unfoldable pub upsert_many : List ProductUpsert → Products → Products × List (Option ℕ)
unfolding map_set_all skipped_of found_of ids_of
upsert_many batch products =
    let rows = distinct_rows batch in
    let (last, stored) = upsert_all rows products in
    let by_their_sku = map_set_all stored [] in
    let found = found_of (skipped_of rows by_their_sku) last.rows in
    (last, ids_of rows (map_set_all found by_their_sku))
