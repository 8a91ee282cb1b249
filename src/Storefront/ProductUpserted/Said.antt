-- ===== src/Storefront/ProductUpserted/Said.antt =====
-- What one read says of each product, and the rows and prices that a batch makes of it
-- (src/modules/storefront/events/product-upserted-handler.ts).
use mathlib.Core.Path.{subst}
use promotion_management_api.Base.{
  ℕ, ◌≡◌, ◌≢◌, refl, sym, ap, ◌∙◌, inl, inr, Option, none, some, List, [], ◌∷◌, ◌++◌, map, ◌==◌,
  ==_iff, eq_refl, Bool-cases, Option-cases, All, All-append,
}
use mathlib.Core.List.{append_assoc, append-nil}
use promotion_management_api.Base.Texts.{Text}
use promotion_management_api.Base.Rows.{
  first_match, In, In-All, All-of_In, Pairs, In-unique, first_match-some, first_match-none,
}
use promotion_management_api.Base.Result.{Result, ok, err, >>=-ok, ok-injective}
use promotion_management_api.Product.Repository.{Product}
use promotion_management_api.Promotion.Table.{Promotions}
use promotion_management_api.Promotion.Resolver.{Engine, PromotionResolver}
use promotion_management_api.Storefront.ProductPricer.{SourceRow, ProductEntry, entry_of, price}
use promotion_management_api.Storefront.ProductPricer.Laws.{
  IsEntryOf, at_base, under, price-IsEntryOf,
}
use promotion_management_api.Storefront.ProductSource.{Source, row_of}
use promotion_management_api.Storefront.ProductSource.OneRow.{joined_row}
use promotion_management_api.Storefront.ProductUpserted.{
  put_row, put_rows, found_of, price_all, entry_ids,
}
use promotion_management_api.Storefront.WriteRepository.Versions.{IsNamed}

abbrev pub row_ids : List SourceRow → List ℕ
row_ids = map (λ (row : SourceRow). row.id)

-- A row of a new id is put behind the others.
put_row-new :
    (row : SourceRow) (found : List SourceRow)
    → All (λ (r : SourceRow). r.id ≢ row.id) found
    → put_row row found ≡ found ++ row ∷ []
put_row-new row [] h = refl
put_row-new row (r ∷ found) (d, h) = elim (Bool-cases (r.id == row.id)) [
  | inl e ↦ absurd (d ((==_iff r.id row.id).0 e))
  | inr e ↦ rw e (ap (◌∷◌ r) (put_row-new row found h))
]

put_rows-new :
    (rows found : List SourceRow)
    → Pairs (λ (r s : SourceRow). r.id ≢ s.id) rows
    → All (λ (r : SourceRow). All (λ (s : SourceRow). s.id ≢ r.id) found) rows
    → put_rows rows found ≡ found ++ rows
put_rows-new [] found d h = sym (append-nil found)
put_rows-new (row ∷ rows) found (e, d) (k, h) = rw (put_row-new row found k) (
    put_rows-new rows (found ++ row ∷ []) d (
      All-of_In _ rows
        (λ r i. All-append _ found (row ∷ []) (In-All _ rows h i) (In-All _ rows e i, tt)))
    ∙ append_assoc found (row ∷ []) rows)

-- Rows of distinct products are all kept.
pub found_of-distinct :
    (rows : List SourceRow) → Pairs (λ (r s : SourceRow). r.id ≢ s.id) rows → found_of rows ≡ rows
unfolding found_of
found_of-distinct rows d = put_rows-new rows [] d (All-of_In _ rows (λ r i. tt))

pub IsEntryOf-id :
    {row : SourceRow} {entry : ProductEntry} → IsEntryOf row entry → entry.id ≡ row.id
unfolding entry_of
IsEntryOf-id (at_base e) = ap (λ (x : ProductEntry). x.id) e
IsEntryOf-id (under applied chosen p e) = ap (λ (x : ProductEntry). x.id) e

pub IsEntryOf-category :
    {row : SourceRow} {entry : ProductEntry} → IsEntryOf row entry → entry.category ≡ row.category
unfolding entry_of
IsEntryOf-category (at_base e) = ap (λ (x : ProductEntry). x.category) e
IsEntryOf-category (under applied chosen p e) = ap (λ (x : ProductEntry). x.category) e

pub joined_row-id :
    (now : ℕ) (promotions : Promotions) (p : Product) → (joined_row now promotions p).id ≡ p.id
unfolding row_of
joined_row-id now promotions p = refl

pub joined_row-category :
    (now : ℕ) (promotions : Promotions) (p : Product)
    → (joined_row now promotions p).category ≡ p.category
unfolding row_of
joined_row-category now promotions p = refl

abbrev pub priced_entry : Result Text ProductEntry → Option ProductEntry
priced_entry (err fault) = none
priced_entry (ok entry) = some entry

module _ (engine : Engine) (resolver : PromotionResolver) (now : ℕ) (source : Source) where
  abbrev pub said_of : Option Product → Option ProductEntry
  said_of none = none
  said_of (some p) = priced_entry (price engine resolver (joined_row now source.promotions p))

  -- What PostgreSQL says of a product at an instant: the entry of its row under the promotions that
  -- are active, or that there is none.
  abbrev pub said : ℕ → Option ProductEntry
  said id = said_of (first_match (λ (p : Product). p.id == id) source.products)

  pub price_all-said :
      (rows : List SourceRow) {entries : List ProductEntry}
      → price_all engine resolver rows ≡ ok entries
      → All (λ (row : SourceRow). said row.id ≡ priced_entry (price engine resolver row)) rows
      → All (λ (entry : ProductEntry). said entry.id ≡ some entry) entries
        × (entry_ids entries ≡ row_ids rows)
  unfolding price_all
  price_all-said [] {entries} h k =
      subst
        (λ (es : List ProductEntry).
          All (λ (entry : ProductEntry). said entry.id ≡ some entry) es × (entry_ids es ≡ []))
        (ok-injective h) (tt, refl)
  price_all-said (row ∷ rows) {entries} h (e, k) =
      let (entry, made, h1) = >>=-ok (price engine resolver row) _ h in
      let (rest, all_made, h2) = >>=-ok (price_all engine resolver rows) _ h1 in
      let (others, ids) = price_all-said rows all_made k in
      let own = IsEntryOf-id (price-IsEntryOf engine resolver row made) in
      subst
        (λ (es : List ProductEntry).
          All (λ (x : ProductEntry). said x.id ≡ some x) es
          × (entry_ids es ≡ row.id ∷ row_ids rows))
        (ok-injective h2) ((rw own (e ∙ ap priced_entry made), others), λ i. own i ∷ ids i)

  module _ (distinct : Pairs (λ (p q : Product). p.id ≢ q.id) source.products) where
    -- A product of the table is the one that its id finds.
    pub said-product :
        (p : Product)
        → In p source.products
        → said p.id ≡ priced_entry (price engine resolver (joined_row now source.promotions p))
    said-product p m =
        elim (Option-cases (first_match (λ (q : Product). q.id == p.id) source.products)) [
          | inl e ↦
              cc
                (first_match-none (λ (q : Product). q.id == p.id) source.products e m, eq_refl p.id)
          | inr (q, e) ↦
              let (i, same) = first_match-some (λ (r : Product). r.id == p.id) source.products e in
              let found : q ≡ p =
                In-unique (λ (r : Product). r.id) source.products distinct i m
                  ((==_iff q.id p.id).0 same) in
              rw e (
                ap
                  (λ (r : Product).
                    priced_entry (price engine resolver (joined_row now source.promotions r)))
                  found)
        ]

  pub said-IsNamed :
      All (λ (p : Product). p.category ≢ []) source.products → (id : ℕ) → IsNamed (said id)
  said-IsNamed named id =
      elim (Option-cases (first_match (λ (p : Product). p.id == id) source.products)) [
        | inl e ↦ rw e tt
        | inr (p, e) ↦ rw e (
            named_entry p
              (In-All _ source.products named
                (first_match-some (λ (r : Product). r.id == id) source.products e).0)
              _ refl)
      ]
    where
      named_entry :
          (p : Product)
          → p.category ≢ []
          → (result : Result Text ProductEntry)
          → price engine resolver (joined_row now source.promotions p) ≡ result
          → IsNamed (priced_entry result)
      named_entry p seen (err fault) made = tt
      named_entry p seen (ok entry) made = λ empty. seen (
          sym (joined_row-category now source.promotions p)
          ∙ sym (IsEntryOf-category (price-IsEntryOf engine resolver _ made))
          ∙ empty)
