-- ===== src/Product/Repository/Ids.antt =====
-- The ids that a batch's store answers (`upsertMany` of
-- src/modules/product/db/product-repository.ts).
use promotion_management_api.Base.{
  ℕ, ◌≡◌, refl, sym, ap, ◌∙◌, ◌⊎◌, inl, inr, true, false, none, some, List, [], ◌∷◌, ◌++◌, map,
  Bool-cases, Option-cases, All, All-imp,
}
use mathlib.Core.Path.{subst}
use promotion_management_api.Base.Texts.{Text}
use promotion_management_api.Product.Repository.{
  Product, ProductUpsert, Products, find, upsert_all, upsert_many, map_get, distinct_rows,
  map_set_all, is_none, skipped_of, found_of, found_row, ids_of,
}
use promotion_management_api.Product.Repository.Statement.{
  id_at, AreIds, IsStored, upsert_all-AreIds, upsert_all-IsStored,
}
use promotion_management_api.Product.Repository.Batch.{first_skus, skus-distinct_rows}
use promotion_management_api.Product.Repository.SkuMap.{
  map_set_all-AreIds, found_of-AreIds, map_get-AreIds, has, map_get-has, has-map_get,
  has-map_set_all_kept, has-map_set_all_new, has-append_left, has-append_right, found_row-has,
}

module _ (table : List Product) (by_their_sku : List (Text × ℕ)) where
  IsCovered : List (Text × ℕ) → ProductUpsert → Type 0
  IsCovered found row = is_none (map_get row.sku by_their_sku) ≡ true → has row.sku found ≡ true

  found_skipped : List ProductUpsert → List (Text × ℕ)
  found_skipped rows = found_of (skipped_of rows by_their_sku) table

  found_skipped-kept :
      (row : ProductUpsert) (rows : List ProductUpsert)
      → is_none (map_get row.sku by_their_sku) ≡ true
      → found_skipped (row ∷ rows) ≡ found_row (find row.sku table) ++ found_skipped rows
  unfolding found_of skipped_of found_skipped
  found_skipped-kept row rows e = rw e refl

  found_skipped-dropped :
      (row : ProductUpsert) (rows : List ProductUpsert)
      → is_none (map_get row.sku by_their_sku) ≡ false
      → found_skipped (row ∷ rows) ≡ found_skipped rows
  unfolding skipped_of found_skipped
  found_skipped-dropped row rows e = rw e refl

  AllCovered : List (Text × ℕ) → List ProductUpsert → Type 0
  AllCovered found = All (IsCovered found)

  found_skipped-covers :
      (rows : List ProductUpsert) → All (IsStored table) rows → AllCovered (found_skipped rows) rows
  unfolding IsCovered AllCovered
  found_skipped-covers [] s = tt
  found_skipped-covers (row ∷ rows) (s, stored) =
      elim (Bool-cases (is_none (map_get row.sku by_their_sku))) [
        | inl e ↦
            subst (λ (found : List (Text × ℕ)). AllCovered found (row ∷ rows))
              (sym (found_skipped-kept row rows e))
              (
                λ h.
                    has-append_left row.sku (found_row (find row.sku table)) (found_skipped rows)
                      (found_row-has row.sku table s.stored),
                All-imp rows
                    (λ other covered h.
                      has-append_right other.sku (found_row (find row.sku table))
                        (found_skipped rows) (covered h))
                    (found_skipped-covers rows stored),
              )
        | inr e ↦
            subst (λ (found : List (Text × ℕ)). AllCovered found (row ∷ rows))
              (sym (found_skipped-dropped row rows e)) (λ h. cc, found_skipped-covers rows stored)
      ]

  -- The id that the last map gives a row is the id of the row in the table.
  row_id :
      (found : List (Text × ℕ)) (row : ProductUpsert)
      → AreIds table by_their_sku
      → AreIds table found
      → IsCovered found row
      → map_get row.sku (map_set_all found by_their_sku) ≡ id_at row.sku table
  unfolding IsCovered is_none
  row_id found row a b covered =
      let (id, e) =
        map_get-has row.sku (map_set_all found by_their_sku)
          (there (Option-cases (map_get row.sku by_their_sku))) in
      e
      ∙ sym (
          map_get-AreIds table row.sku (map_set_all found by_their_sku)
            (map_set_all-AreIds table found by_their_sku b a) e)
    where
      there :
          (map_get row.sku by_their_sku ≡ none)
            ⊎ ((id : ℕ) × (map_get row.sku by_their_sku ≡ some id))
          → has row.sku (map_set_all found by_their_sku) ≡ true
      there (inl e) = has-map_set_all_new row.sku found by_their_sku (covered (rw e refl))
      there (inr (id, e)) =
          has-map_set_all_kept row.sku found by_their_sku (has-map_get row.sku by_their_sku e)

ids_of-map :
    (rows : List ProductUpsert) (final : List (Text × ℕ)) (table : List Product)
    → All (λ (row : ProductUpsert). map_get row.sku final ≡ id_at row.sku table) rows
    → ids_of rows final ≡ map (λ (row : ProductUpsert). id_at row.sku table) rows
unfolding ids_of
ids_of-map [] final table h = refl
ids_of-map (row ∷ rows) final table (e, h) = rw (e, ids_of-map rows final table h) refl

map-sku :
    (rows : List ProductUpsert) (table : List Product)
    → map (λ (row : ProductUpsert). id_at row.sku table) rows
      ≡ map (λ (sku : Text). id_at sku table) (map (λ (row : ProductUpsert). row.sku) rows)
map-sku [] table = refl
map-sku (row ∷ rows) table = ap (◌∷◌ (id_at row.sku table)) (map-sku rows table)

-- A table holds a sku under some id.
abbrev pub IsKnown : List Product → Text → Type 0
IsKnown table sku = (id : ℕ) × (id_at sku table ≡ some id)

IsStored-IsKnown :
    (rows : List ProductUpsert) (table : List Product)
    → All (IsStored table) rows
    → All (IsKnown table) (map (λ (row : ProductUpsert). row.sku) rows)
IsStored-IsKnown [] table s = tt
IsStored-IsKnown (row ∷ rows) table (s, stored) =
    ((s.id, s.stored), IsStored-IsKnown rows table stored)

upsert_many-row_ids :
    (batch : List ProductUpsert) (products : Products)
    → ((upsert_many batch products).1
        ≡ map
            (λ (row : ProductUpsert). id_at row.sku (upsert_many batch products).0.rows)
            (distinct_rows batch))
      × All (IsStored (upsert_many batch products).0.rows) (distinct_rows batch)
unfolding upsert_many AllCovered found_skipped
upsert_many-row_ids batch products =
    let rows = distinct_rows batch in
    let last = (upsert_all rows products).0 in
    let by_their_sku = map_set_all (upsert_all rows products).1 [] in
    let found = found_of (skipped_of rows by_their_sku) last.rows in
    let stored = upsert_all-IsStored rows products in
    let known =
      map_set_all-AreIds last.rows (upsert_all rows products).1 [] (upsert_all-AreIds rows products)
        tt in
    (
      ids_of-map rows (map_set_all found by_their_sku) last.rows (
          All-imp rows
            (λ row covered.
              row_id last.rows by_their_sku found row known
                (found_of-AreIds last.rows (skipped_of rows by_their_sku)) covered)
            (found_skipped-covers last.rows by_their_sku rows stored)),
      stored,
    )

-- A batch is answered with one id for each of its skus, in the order in which they first stand in it:
-- the id under which the table then holds that sku, and it holds each of them. The rows that were
-- skipped are answered too.
pub upsert_many-ids :
    (batch : List ProductUpsert) (products : Products)
    → ((upsert_many batch products).1
        ≡ map (λ (sku : Text). id_at sku (upsert_many batch products).0.rows) (first_skus batch))
      × All (IsKnown (upsert_many batch products).0.rows) (first_skus batch)
upsert_many-ids batch products =
    let table = (upsert_many batch products).0.rows in
    let (ids, stored) = upsert_many-row_ids batch products in
    let skus = skus-distinct_rows batch in
    (
      ids ∙ map-sku (distinct_rows batch) table ∙ ap (map (λ (sku : Text). id_at sku table)) skus,
      subst (All (IsKnown table)) skus (IsStored-IsKnown (distinct_rows batch) table stored),
    )
