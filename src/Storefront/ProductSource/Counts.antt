-- ===== src/Storefront/ProductSource/Counts.antt =====
-- The counts of the categories (`categoryCounts` of
-- src/modules/storefront/db/product-source-repository.ts) against the products themselves.
use promotion_management_api.Base.{
  ℕ, suc, ◌≤◌, ◌≡◌, ◌↔◌, refl, sym, ◌∙◌, inl, inr, true, false, List, [], ◌∷◌, arith, All, All-imp,
  Bool-cases, length, filterb, if◌then◌else◌,
}
use mathlib.Core.Path.{subst}
use promotion_management_api.Base.Texts.{Text, text_eq, text_eq_iff}
use promotion_management_api.Product.Repository.{Product}
use promotion_management_api.Storefront.ProductSource.{counted, category_counts}

-- How many of some products are in a category.
abbrev pub in_category : Text → List Product → ℕ
in_category category products =
    length (filterb (λ (p : Product). text_eq p.category category) products)

abbrev count_of : Text → List (Text × ℕ) → ℕ
count_of category [] = 0
count_of category ((name, n) ∷ counts) =
    if text_eq name category then n else count_of category counts

count_of-counted :
    (category other : Text) (counts : List (Text × ℕ))
    → count_of category (counted other counts) ≡ (
        if text_eq other category then suc (count_of category counts) else count_of category counts)
unfolding counted
count_of-counted category other [] = elim (Bool-cases (text_eq other category)) [
  | inl e ↦ rw e refl
  | inr e ↦ rw e refl
]
count_of-counted category other ((name, n) ∷ counts) = elim (Bool-cases (text_eq name other)) [
  | inl e ↦
      rw (e, (text_eq_iff name other).0 e)
        (elim (Bool-cases (text_eq other category)) [
          | inl f ↦ rw f (omega arith)
          | inr f ↦ rw f refl
        ])
  | inr e ↦ rw e (elim (Bool-cases (text_eq name category)) [
    | inl f ↦
        let apart : text_eq other category ≡ false = elim (Bool-cases (text_eq other category)) [
          | inl g ↦
              let same : text_eq name other ≡ true =
                (text_eq_iff name other).1
                  ((text_eq_iff name category).0 f ∙ sym ((text_eq_iff other category).0 g)) in
              cc
          | inr g ↦ g
        ] in
        rw (f, apart) refl
    | inr f ↦ rw f (count_of-counted category other counts)
  ])
]

count_of-category_counts :
    (category : Text) (products : List Product)
    → count_of category (category_counts products) ≡ in_category category products
unfolding category_counts
count_of-category_counts category [] = refl
count_of-category_counts category (p ∷ products) =
    count_of-counted category p.category (category_counts products)
    ∙ rw (count_of-category_counts category products)
        (elim (Bool-cases (text_eq p.category category)) [ inl e ↦ rw e refl | inr e ↦ rw e refl ])

-- Every category once, none with nothing.
abbrev IsTally : List (Text × ℕ) → Type 0
IsTally [] = Unit
IsTally ((name, n) ∷ counts) =
    (1 ≤ n) × All (λ (c : Text × ℕ). text_eq name c.0 ≡ false) counts × IsTally counts

counted-All :
    (name other : Text) (counts : List (Text × ℕ))
    → text_eq name other ≡ false
    → All (λ (c : Text × ℕ). text_eq name c.0 ≡ false) counts
    → All (λ (c : Text × ℕ). text_eq name c.0 ≡ false) (counted other counts)
unfolding counted
counted-All name other [] h a = (h, tt)
counted-All name other ((k, n) ∷ counts) h (p, a) = elim (Bool-cases (text_eq k other)) [
  | inl e ↦ rw e (p, a)
  | inr e ↦ rw e (p, counted-All name other counts h a)
]

counted-IsTally :
    (other : Text) (counts : List (Text × ℕ)) → IsTally counts → IsTally (counted other counts)
unfolding counted
counted-IsTally other [] t = (omega arith, tt, tt)
counted-IsTally other ((name, n) ∷ counts) (some_there, apart, t) =
    elim (Bool-cases (text_eq name other)) [
      | inl e ↦ rw e (omega arith, apart, t)
      | inr e ↦
          rw e (some_there, counted-All name other counts e apart, counted-IsTally other counts t)
    ]

category_counts-IsTally : (products : List Product) → IsTally (category_counts products)
unfolding category_counts
category_counts-IsTally [] = tt
category_counts-IsTally (p ∷ products) =
    counted-IsTally p.category (category_counts products) (category_counts-IsTally products)

tally-count_of :
    (counts : List (Text × ℕ))
    → IsTally counts
    → All (λ (c : Text × ℕ). (count_of c.0 counts ≡ c.1) × (1 ≤ c.1)) counts
tally-count_of [] t = tt
tally-count_of ((name, n) ∷ counts) (some_there, apart, t) = (
  (rw ((text_eq_iff name name).1 refl) refl, some_there),
  behind counts counts apart (tally-count_of counts t),
)
  where
    behind :
        (known rest : List (Text × ℕ))
        → All (λ (c : Text × ℕ). text_eq name c.0 ≡ false) rest
        → All (λ (c : Text × ℕ). (count_of c.0 known ≡ c.1) × (1 ≤ c.1)) rest
        → All (λ (c : Text × ℕ). (count_of c.0 ((name, n) ∷ known) ≡ c.1) × (1 ≤ c.1)) rest
    behind known [] a h = tt
    behind known (c ∷ rest) (d, a) ((e, k), h) = ((rw d e, k), behind known rest a h)

in_category-own :
    (p : Product) (products : List Product) → 1 ≤ in_category p.category (p ∷ products)
in_category-own p products = rw ((text_eq_iff p.category p.category).1 refl) (omega arith)

in_category-more :
    (category : Text) (p : Product) (products : List Product)
    → in_category category products ≤ in_category category (p ∷ products)
in_category-more category p products = elim (Bool-cases (text_eq p.category category)) [
  | inl e ↦ rw e (omega arith)
  | inr e ↦ rw e (omega arith)
]

module _ (P : Text → ℕ → Type 0) where
  All-count_of :
      (category : Text) (counts : List (Text × ℕ))
      → All (λ (c : Text × ℕ). P c.0 c.1) counts
      → 1 ≤ count_of category counts
      → P category (count_of category counts)
  All-count_of category [] a h = absurd (omega (arith, h))
  All-count_of category ((name, n) ∷ counts) (p, a) h = elim (Bool-cases (text_eq name category)) [
    | inl e ↦ rw e (subst (λ (c : Text). P c n) ((text_eq_iff name category).0 e) p)
    | inr e ↦ rw e (All-count_of category counts a (rw e at h))
  ]

  All-in_category :
      (number : Text → ℕ) (category : Text) (products : List Product)
      → All (λ (p : Product). P p.category (number p.category)) products
      → 1 ≤ in_category category products
      → P category (number category)
  All-in_category number category [] a h = absurd (omega (arith, h))
  All-in_category number category (p ∷ products) (q, a) h =
      elim (Bool-cases (text_eq p.category category)) [
        | inl e ↦ subst (λ (c : Text). P c (number c)) ((text_eq_iff p.category category).0 e) q
        | inr e ↦ All-in_category number category products a (rw e at h)
      ]

  each_counted :
      (whole rest : List Product)
      → ((category : Text) → in_category category rest ≤ in_category category whole)
      → All (λ (c : Text × ℕ). P c.0 c.1) (category_counts whole)
      → All (λ (p : Product). P p.category (in_category p.category whole)) rest
  each_counted whole [] h a = tt
  each_counted whole (p ∷ rest) h a = (
    subst (P p.category) (count_of-category_counts p.category whole) (
        All-count_of p.category (category_counts whole) a (
          omega (
            arith,
            in_category-own p rest,
            h p.category,
            count_of-category_counts p.category whole,
          ))),
    each_counted whole rest
        (λ category. omega (arith, in_category-more category p rest, h category)) a,
  )

  -- What holds of every count holds of every product's category and the number of its products, and
  -- the other way round.
  pub category_counts-All :
      (products : List Product)
      → All (λ (c : Text × ℕ). P c.0 c.1) (category_counts products)
        ↔ All (λ (p : Product). P p.category (in_category p.category products)) products
  category_counts-All products = (
    each_counted products products (λ category. omega arith),
    λ a.
        All-imp (category_counts products)
          (λ c (e, k).
            let counted_there : in_category c.0 products ≡ c.1 =
              sym (count_of-category_counts c.0 products) ∙ e in
            subst (P c.0) counted_there (
              All-in_category (λ category. in_category category products) c.0 products a
                (omega (arith, counted_there, k))))
          (tally-count_of (category_counts products) (category_counts-IsTally products)),
  )
