-- ===== src/Product/Repository/Statement.antt =====
-- One statement's effect on the ids of the table (`upsertMany` of
-- src/modules/product/db/product-repository.ts).
use promotion_management_api.Base.{
  ℕ, ◌≡◌, refl, sym, ap, ◌∙◌, ◌⊎◌, inl, inr, Option, none, some, List, [], ◌∷◌, Bool-cases,
  Option-cases, All, All-append, All-imp,
}
use promotion_management_api.Base.Texts.{Text, text_eq, text_eq_iff}
use promotion_management_api.Product.Repository.{
  Product, ProductUpsert, Products, find, set_where, product_of, upsert, returned, upsert_all,
}
use promotion_management_api.Product.Repository.Table.{
  after, stored_product, find-sku, find-upsert, find-upsert_other,
}

abbrev pub id_of : Option Product → Option ℕ
id_of none = none
id_of (some p) = some p.id

-- The id under which a table holds a sku.
abbrev pub id_at : Text → List Product → Option ℕ
id_at sku rows = id_of (find sku rows)

after-id : (row : ProductUpsert) (p : Product) → (after row p).id ≡ p.id
unfolding product_of
after-id row p = elim (Bool-cases (set_where p row)) [ inl e ↦ rw e refl | inr e ↦ rw e refl ]

-- A sku keeps its id.
upsert-id :
    (row : ProductUpsert) (sku : Text) (products : Products) {id : ℕ}
    → id_at sku products.rows ≡ some id
    → id_at sku (upsert row products).0.rows ≡ some id
upsert-id row sku products {id} h = elim (Bool-cases (text_eq row.sku sku)) [
  | inl e ↦ here (sym ((text_eq_iff row.sku sku).0 e)) (Option-cases (find sku products.rows))
  | inr e ↦ rw (find-upsert_other row sku products e) h
]
  where
    here :
        sku ≡ row.sku
        → (find sku products.rows ≡ none) ⊎ ((p : Product) × (find sku products.rows ≡ some p))
        → id_at sku (upsert row products).0.rows ≡ some id
    here e (inl n) = cc (rw n at h)
    here e (inr (p, f)) =
        rw e (rw (find-upsert row products) (rw (rw e at f) (ap some (after-id row p) ∙ rw f at h)))

upsert_all-id :
    (rows : List ProductUpsert) (sku : Text) (products : Products) {id : ℕ}
    → id_at sku products.rows ≡ some id
    → id_at sku (upsert_all rows products).0.rows ≡ some id
unfolding upsert_all
upsert_all-id [] sku products h = h
upsert_all-id (row ∷ rows) sku products h =
    upsert_all-id rows sku (upsert row products).0 (upsert-id row sku products h)

-- Every pair is a sku and its id in the table.
abbrev pub AreIds : List Product → List (Text × ℕ) → Type 0
AreIds table = All (λ (entry : Text × ℕ). id_at entry.0 table ≡ some entry.1)

product_of-id : (id : ℕ) (row : ProductUpsert) → (product_of id row).id ≡ id
unfolding product_of
product_of-id id row = refl

-- An upsert leaves its sku in the table, under the id that was there or the next one.
upsert-id_at :
    (row : ProductUpsert) (products : Products) (o : Option Product)
    → find row.sku products.rows ≡ o
    → id_at row.sku (upsert row products).0.rows ≡ some (stored_product row products.next_id o).id
upsert-id_at row products o h =
    rw (find-upsert row products)
      (ap (λ (o : Option Product). some (stored_product row products.next_id o).id) h)

returned-AreIds :
    (row : ProductUpsert) (products : Products) (o : Option Product)
    → find row.sku products.rows ≡ o
    → AreIds (upsert row products).0.rows (returned row products o)
unfolding returned
returned-AreIds row products none h =
    (upsert-id_at row products none h ∙ ap some (product_of-id products.next_id row), tt)
returned-AreIds row products (some p) h = elim (Bool-cases (set_where p row)) [
  | inl e ↦
      let own : p.sku ≡ row.sku =
        (text_eq_iff p.sku row.sku).0 (find-sku row.sku products.rows h) in
      rw e (rw own (upsert-id_at row products (some p) h ∙ ap some (after-id row p)), tt)
  | inr e ↦ rw e tt
]

upsert-AreIds :
    (row : ProductUpsert) (products : Products)
    → AreIds (upsert row products).0.rows (upsert row products).1
unfolding upsert returned
upsert-AreIds row products = returned-AreIds row products (find row.sku products.rows) refl

pub upsert_all-AreIds :
    (rows : List ProductUpsert) (products : Products)
    → AreIds (upsert_all rows products).0.rows (upsert_all rows products).1
unfolding upsert_all
upsert_all-AreIds [] products = tt
upsert_all-AreIds (row ∷ rows) products =
    let next = (upsert row products).0 in
    All-append (λ (entry : Text × ℕ). id_at entry.0 (upsert_all rows next).0.rows ≡ some entry.1)
      (upsert row products).1 (upsert_all rows next).1
      (All-imp (upsert row products).1 (λ entry h. upsert_all-id rows entry.0 next h)
        (upsert-AreIds row products))
      (upsert_all-AreIds rows next)

-- Every row of the statement is in the table after it.
pub record IsStored (table : List Product) (row : ProductUpsert) : Type 0 where
  pub id : ℕ
  pub stored : id_at row.sku table ≡ some id

pub upsert_all-IsStored :
    (rows : List ProductUpsert) (products : Products)
    → All (IsStored (upsert_all rows products).0.rows) rows
unfolding upsert_all
upsert_all-IsStored [] products = tt
upsert_all-IsStored (row ∷ rows) products = (
  record {
    id = (stored_product row products.next_id (find row.sku products.rows)).id;
    stored =
        upsert_all-id rows row.sku (upsert row products).0
          (upsert-id_at row products (find row.sku products.rows) refl);
  },
  upsert_all-IsStored rows (upsert row products).0,
)
