-- ===== src/Product/Repository/Table.antt =====
-- One row of a batch against the table (src/modules/product/db/product-repository.ts).
use promotion_management_api.Base.{
  ℕ, ◌≡◌, refl, ap, ◌∙◌, inl, inr, true, false, Option, none, some, List, [], ◌∷◌, ◌++◌,
  if◌then◌else◌, Bool-cases, Option-cases,
}
use promotion_management_api.Base.Texts.{Text, text_eq, text_eq_iff}
use promotion_management_api.Product.Repository.{
  Product, ProductUpsert, Products, find, set_where, product_of, update_rows, stored_rows, upsert,
}

text_eq_refl : (s : Text) → text_eq s s ≡ true
text_eq_refl s = (text_eq_iff s s).1 refl

find-append :
    (sku : Text) (rows : List Product) (p : Product)
    → find sku rows ≡ none
    → find sku (rows ++ p ∷ []) ≡ find sku (p ∷ [])
unfolding find
find-append sku [] p h = refl
find-append sku (q ∷ rows) p h = elim (Bool-cases (text_eq q.sku sku)) [
  | inl e ↦ cc (rw e at h)
  | inr e ↦ rw e (find-append sku rows p (rw e at h))
]

find-append_other :
    (sku : Text) (rows : List Product) (p : Product)
    → text_eq p.sku sku ≡ false
    → find sku (rows ++ p ∷ []) ≡ find sku rows
unfolding find
find-append_other sku [] p h = rw h refl
find-append_other sku (q ∷ rows) p h = elim (Bool-cases (text_eq q.sku sku)) [
  | inl e ↦ rw e refl
  | inr e ↦ rw e (find-append_other sku rows p h)
]

pub find-sku :
    (sku : Text) (rows : List Product) {p : Product}
    → find sku rows ≡ some p
    → text_eq p.sku sku ≡ true
unfolding find
find-sku sku [] h = cc
find-sku sku (q ∷ rows) {p} h = elim (Bool-cases (text_eq q.sku sku)) [
  | inl e ↦ let same : some q ≡ some p = rw e at h in cc
  | inr e ↦ find-sku sku rows (rw e at h)
]

-- The row that an upsert leaves where it found `p`.
abbrev pub after : ProductUpsert → Product → Product
after row p = if set_where p row then product_of p.id row else p

find-update_rows :
    (row : ProductUpsert) (rows : List Product) {p : Product}
    → find row.sku rows ≡ some p
    → find row.sku (update_rows row rows) ≡ some (after row p)
unfolding find update_rows product_of
find-update_rows row [] h = cc
find-update_rows row (q ∷ rows) {p} h = elim (Bool-cases (text_eq q.sku row.sku)) [
  | inl e ↦
      let same : q ≡ p = cc (rw e at h) in
      rw e (elim (Bool-cases (set_where q row)) [
        | inl s ↦ rw s (rw (text_eq_refl row.sku) refl)
        | inr s ↦ rw s (rw e refl)
      ])
      ∙ ap (λ (x : Product). some (after row x)) same
  | inr e ↦ rw e (rw e (find-update_rows row rows (rw e at h)))
]

find-update_rows_other :
    (row : ProductUpsert) (sku : Text) (rows : List Product)
    → text_eq row.sku sku ≡ false
    → find sku (update_rows row rows) ≡ find sku rows
unfolding find update_rows product_of
find-update_rows_other row sku [] h = refl
find-update_rows_other row sku (q ∷ rows) h = elim (Bool-cases (text_eq q.sku row.sku)) [
  | inl e ↦
      let no : text_eq q.sku sku ≡ false = rw ((text_eq_iff q.sku row.sku).0 e) h in
      rw e
        (elim (Bool-cases (set_where q row)) [ inl s ↦ rw s (rw (h, no) refl) | inr s ↦ rw s refl ])
  | inr e ↦ rw e (elim (Bool-cases (text_eq q.sku sku)) [
    | inl k ↦ rw k refl
    | inr k ↦ rw k (find-update_rows_other row sku rows h)
  ])
]

-- A row that changes nothing leaves the table as it is.
pub update_rows-skipped :
    (row : ProductUpsert) (rows : List Product) {p : Product}
    → find row.sku rows ≡ some p
    → set_where p row ≡ false
    → update_rows row rows ≡ rows
unfolding find update_rows
update_rows-skipped row [] h s = refl
update_rows-skipped row (q ∷ rows) {p} h s = elim (Bool-cases (text_eq q.sku row.sku)) [
  | inl e ↦
      let same : q ≡ p = cc (rw e at h) in
      let skipped : set_where q row ≡ false = rw same s in rw (e, skipped) refl
  | inr e ↦ rw e (ap (◌∷◌ q) (update_rows-skipped row rows (rw e at h) s))
]

-- The row of a sku after an upsert of that sku.
abbrev pub stored_product : ProductUpsert → ℕ → Option Product → Product
stored_product row next_id none = product_of next_id row
stored_product row next_id (some p) = after row p

find-product_of :
    (row : ProductUpsert) (id : ℕ)
    → find row.sku (product_of id row ∷ []) ≡ some (product_of id row)
unfolding find product_of
find-product_of row id = rw (text_eq_refl row.sku) refl

product_of-sku : (row : ProductUpsert) (id : ℕ) → (product_of id row).sku ≡ row.sku
unfolding product_of
product_of-sku row id = refl

pub find-upsert :
    (row : ProductUpsert) (products : Products)
    → find row.sku (upsert row products).0.rows
      ≡ some (stored_product row products.next_id (find row.sku products.rows))
unfolding upsert stored_rows
find-upsert row products = elim (Option-cases (find row.sku products.rows)) [
  | inl e ↦ rw e (
      find-append row.sku products.rows (product_of products.next_id row) e
      ∙ find-product_of row products.next_id)
  | inr (p, e) ↦ rw e (find-update_rows row products.rows e)
]

pub find-upsert_other :
    (row : ProductUpsert) (sku : Text) (products : Products)
    → text_eq row.sku sku ≡ false
    → find sku (upsert row products).0.rows ≡ find sku products.rows
unfolding upsert stored_rows
find-upsert_other row sku products h = elim (Option-cases (find row.sku products.rows)) [
  | inl e ↦ rw e (
      find-append_other sku products.rows (product_of products.next_id row)
        (rw (product_of-sku row products.next_id) h))
  | inr (p, e) ↦ rw e (find-update_rows_other row sku products.rows h)
]
