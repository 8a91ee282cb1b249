-- ===== src/Storefront/Rebuild/Coverage.antt =====
-- Which products a rebuild recomputes.
use promotion_management_api.Base.{
  ℕ, zero, suc, ◌+◌, ◌≤◌, ◌<◌, ◌≡◌, ◌≢◌, refl, ap, ◌∙◌, inl, inr, Bool, List, [], ◌∷◌, ◌++◌, arith,
  ltb, Bool-cases, All, filterb, length, take, drop, take-append-drop, length-drop,
}
use promotion_management_api.Base.Texts.{Text, text_eq}
use promotion_management_api.Base.Rows.{Pairs, Pairs-map, All-of_In, In-All}
use promotion_management_api.Base.Members.{In-filterb_cases, Pairs-filterb}
use promotion_management_api.Base.Sort.{sort_by, length-sort_by}
use promotion_management_api.Base.Keyset.{pages, concat, ids_page, filterb-all}
use promotion_management_api.Base.Keyset.Walk.{pages-ids_page}
use promotion_management_api.Base.Result.{Result, ok, ◌>>=◌, >>=-congr}
use promotion_management_api.Product.Repository.{Product}
use promotion_management_api.Storefront.ProductSource.{
  Source, ids_of, ids_after, ids_in_category, page_size,
}
use promotion_management_api.Storefront.Rebuild.{recompute_pages, recompute_all, slices}
use promotion_management_api.Storefront.Rebuild.Walk.{walk_pages-after_calls}

-- What the identity column keeps of the products table.
pub record IsNumbered (products : List Product) : Type 0 where
  pub distinct : Pairs (λ (p q : Product). p.id ≢ q.id) products
  pub positive : All (λ (p : Product). 0 < p.id) products

abbrev pub in_category : Text → List Product → List Product
in_category category = filterb (λ (p : Product). text_eq p.category category)

length-filterb : {A : Type 0} (p : A → Bool) (xs : List A) → length (filterb p xs) ≤ length xs
length-filterb p [] = omega arith
length-filterb p (x ∷ xs) = elim (Bool-cases (p x)) [
  | inl e ↦ rw e (omega (arith, length-filterb p xs))
  | inr e ↦ rw e (omega (arith, length-filterb p xs))
]

length-ids_of : (products : List Product) → length (ids_of products) ≡ length products
length-ids_of [] = refl
length-ids_of (p ∷ products) = ap suc (length-ids_of products)

pub filterb-IsNumbered :
    (p : Product → Bool) (products : List Product)
    → IsNumbered products
    → IsNumbered (filterb p products)
filterb-IsNumbered p products n = record {
  distinct = Pairs-filterb _ p products n.distinct;
  positive =
      All-of_In _ (filterb p products)
        (λ r i. In-All _ products n.positive (In-filterb_cases p products i).0);
}

ids_positive :
    (products : List Product)
    → All (λ (p : Product). 0 < p.id) products
    → All (λ id. 0 < id) (ids_of products)
ids_positive [] h = tt
ids_positive (p ∷ products) (q, h) = (q, ids_positive products h)

pub ids_distinct :
    (products : List Product)
    → Pairs (λ (p q : Product). p.id ≢ q.id) products
    → Pairs (λ (x y : ℕ). x ≢ y) (ids_of products)
ids_distinct products h =
    Pairs-map _ _ (λ (p : Product). p.id) products (λ p q i j differ. differ) h

-- The pages of the ids of some products are those ids, in order, on as many rounds as there are
-- products in the table.
pages_of_products :
    (products some_of : List Product)
    → IsNumbered some_of
    → length some_of ≤ length products
    → concat (pages (suc (length products)) (ids_page page_size (ids_of some_of)) 0)
      ≡ sort_by ltb (ids_of some_of)
pages_of_products products some_of n h =
    let whole = filterb-all 0 (ids_of some_of) (ids_positive some_of n.positive) in
    let few : length (filterb (ltb 0) (ids_of some_of)) < suc (length products) =
      rw (whole, length-ids_of some_of) (omega arith) in
    pages-ids_page 999 (ids_of some_of) (ids_distinct some_of n.distinct) (suc (length products)) 0
      few
    ∙ ap (sort_by ltb) whole

module _ {M : Type 0} (recompute : List ℕ → M → Result Text M) (source : Source)
    (numbered : IsNumbered source.products) (model : M) where
  abbrev pub calls_of : (ℕ → List ℕ) → List (List ℕ)
  calls_of page = pages (suc (length source.products)) page 0

  recompute_pages-calls :
      (page : ℕ → List ℕ) (ids : List ℕ) (n : ℕ)
      → concat (calls_of page) ≡ ids
      → length ids ≡ n
      → recompute_pages recompute source page model ≡ (
          recompute_all recompute (calls_of page) model >>= λ next.
          ok (record { model = next; handled = ids; seen = n }))
  unfolding recompute_pages
  recompute_pages-calls page ids n whole count =
      let seen : 0 + length (concat (calls_of page)) ≡ n = omega (arith, ap length whole, count) in
      walk_pages-after_calls recompute (suc (length source.products)) page
        (record { model = model; handled = []; seen = 0 }) 0
      ∙ >>=-congr (recompute_all recompute (calls_of page) model)
          (λ next. λ i. ok (record { model = next; handled = whole i; seen = seen i }))

  -- The walk over the catalogue ends: it is a list of calls that together name every product of the
  -- table once, in the order of the ids, and it reports that list and its length.
  pub recompute_pages-ids_after :
      (calls : List (List ℕ)) × (concat calls ≡ sort_by ltb (ids_of source.products))
      × (recompute_pages recompute source (λ after. ids_after after source) model ≡ (
          recompute_all recompute calls model >>= λ next. ok (record {
            model = next;
            handled = sort_by ltb (ids_of source.products);
            seen = length source.products;
          })))
  unfolding ids_after
  recompute_pages-ids_after =
      let whole = pages_of_products source.products source.products numbered (omega arith) in
      (
        calls_of (λ after. ids_after after source),
        whole,
        recompute_pages-calls (λ after. ids_after after source)
            (sort_by ltb (ids_of source.products)) (length source.products) whole
            (length-sort_by ltb (ids_of source.products) ∙ length-ids_of source.products),
      )

  abbrev pub category_ids : Text → List ℕ
  category_ids category = sort_by ltb (ids_of (in_category category source.products))

  pub recompute_pages-ids_in_category :
      (category : Text)
      → (concat (calls_of (λ after. ids_in_category category after source)) ≡ category_ids category)
        × (recompute_pages recompute source (λ after. ids_in_category category after source) model
            ≡ (recompute_all recompute
                  (calls_of (λ after. ids_in_category category after source))
                  model
                >>= λ next. ok (record {
                  model = next;
                  handled = category_ids category;
                  seen = length (category_ids category);
                })))
  unfolding ids_in_category
  recompute_pages-ids_in_category category =
      let whole =
        pages_of_products source.products (in_category category source.products)
          (filterb-IsNumbered _ source.products numbered) (length-filterb _ source.products) in
      (
        whole,
        recompute_pages-calls (λ after. ids_in_category category after source)
            (category_ids category) (length (category_ids category)) whole refl,
      )

-- The slices of a list are the list.
pub slices-concat :
    (rounds : ℕ) (ids : List ℕ) → length ids ≤ rounds → concat (slices rounds ids) ≡ ids
unfolding slices
slices-concat zero [] h = refl
slices-concat zero (x ∷ xs) h = absurd (omega arith)
slices-concat (suc rounds) [] h = refl
slices-concat (suc rounds) (x ∷ xs) h =
    ap (◌++◌ (take page_size (x ∷ xs))) (
      slices-concat rounds (drop page_size (x ∷ xs))
        (omega (arith, length-drop page_size (x ∷ xs))))
    ∙ take-append-drop page_size (x ∷ xs)
