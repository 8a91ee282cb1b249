-- ===== src/Storefront/ProductSource/OneRow.antt =====
-- The joins of a read do not multiply a product: at most one promotion of each target is active.
use promotion_management_api.Base.{
  ℕ, ◌≤◌, ◌≡◌, refl, sym, ap, ◌∙◌, inl, inr, Bool, true, false, ◌&&◌, ◌||◌, Option, none, some,
  List, [], ◌∷◌, map, arith, leb, ltb, Bool-cases, filterb, length,
}
use promotion_management_api.Base.Texts.{Text, text_eq_iff}
use promotion_management_api.Base.Rows.{length-filterb_one}
use promotion_management_api.Product.Repository.{Product}
use promotion_management_api.Promotion.Table.{
  Promotion, Promotions, is_active, same_product, same_category, conflicts,
}
use promotion_management_api.Promotion.Repository.{active_promotions}
use promotion_management_api.Promotion.Repository.Soundness.{IsConstrained}
use promotion_management_api.Promotion.Repository.Reachable.{Reachable, Reachable-IsConstrained}
use promotion_management_api.Storefront.ProductPricer.{SourceRow}
use promotion_management_api.Storefront.ProductSource.{
  Source, left_joined, promotes_product, promotes_category, row_of, each, rows_of, is_one_of,
  selected,
}

same_product_meet :
    (a b c : Option ℕ) → same_product a c ≡ true → same_product b c ≡ true → same_product a b ≡ true
same_product_meet none b c h k = cc
same_product_meet (some a) none c h k = cc
same_product_meet (some a) (some b) none h k = cc
same_product_meet (some a) (some b) (some c) h k = ground arith

same_category_meet :
    (a b c : Option Text)
    → same_category a c ≡ true
    → same_category b c ≡ true
    → same_category a b ≡ true
same_category_meet none b c h k = cc
same_category_meet (some a) none c h k = cc
same_category_meet (some a) (some b) none h k = cc
same_category_meet (some a) (some b) (some c) h k =
    (text_eq_iff a b).1 ((text_eq_iff a c).0 h ∙ sym ((text_eq_iff b c).0 k))

abbrev is_running : ℕ → Promotion → Bool
is_running now row = is_active row.status && leb row.starts_at now && ltb now row.ends_at

filterb-filterb_and :
    {A : Type 0} (p q : A → Bool) (xs : List A)
    → filterb p (filterb q xs) ≡ filterb (λ x. q x && p x) xs
filterb-filterb_and p q [] = refl
filterb-filterb_and p q (x ∷ xs) = elim (Bool-cases (q x)) [
  | inl e ↦ rw e (elim (Bool-cases (p x)) [
    | inl d ↦ rw d (ap (◌∷◌ x) (filterb-filterb_and p q xs))
    | inr d ↦ rw d (filterb-filterb_and p q xs)
  ])
  | inr e ↦ rw e (filterb-filterb_and p q xs)
]

and_true : (a b : Bool) → (a && b) ≡ true → (a ≡ true) × (b ≡ true)
and_true a b h = (ground arith, ground arith)

-- Two active promotions of one target overlap at an instant in which both run.
clash :
    (now : ℕ) (r s : Promotion)
    → (same_product r.product_id s.product_id || same_category r.category s.category) ≡ true
    → is_running now r ≡ true
    → is_running now s ≡ true
    → conflicts r s ≡ true
unfolding conflicts
clash now r s same h k = ground arith

module _ (now : ℕ) (table : Promotions) (sound : IsConstrained table) where
  one_running :
      (targets : Promotion → Bool)
      → ((r s : Promotion)
          → targets r ≡ true
          → targets s ≡ true
          → (same_product r.product_id s.product_id || same_category r.category s.category) ≡ true)
      → length (filterb targets (active_promotions now table)) ≤ 1
  unfolding active_promotions
  one_running targets meet = rw (filterb-filterb_and targets (is_running now) table.rows) (
      length-filterb_one (λ (r s : Promotion). conflicts r s ≡ false)
        (λ r. is_running now r && targets r) table.rows
        (λ r s apart p. elim (Bool-cases (is_running now s && targets s)) [
          | inl q ↦
              let (u, v) = and_true (is_running now r) (targets r) p in
              let (w, x) = and_true (is_running now s) (targets s) q in
              cc (clash now r s (meet r s v x) u w, apart)
          | inr q ↦ q
        ])
        sound.apart)

  pub one_on_product :
      (id : ℕ) → length (filterb (promotes_product id) (active_promotions now table)) ≤ 1
  one_on_product id = one_running (promotes_product id) (λ r s h k.
      let same = same_product_meet r.product_id s.product_id (some id) h k in rw same refl)

  pub one_on_category :
      (category : Text)
      → length (filterb (promotes_category category) (active_promotions now table)) ≤ 1
  one_on_category category = one_running (promotes_category category) (λ r s h k.
      let same = same_category_meet r.category s.category (some category) h k in
      elim (Bool-cases (same_product r.product_id s.product_id)) [
        | inl e ↦ rw e refl
        | inr e ↦ rw (e, same) refl
      ])

-- The promotion that a join finds, where there is at most one.
abbrev pub head? : {A : Type 0} → List A → Option A
head? [] = none
head? (x ∷ xs) = some x

left_joined_one : {A : Type 0} (xs : List A) → length xs ≤ 1 → left_joined xs ≡ head? xs ∷ []
left_joined_one [] h = refl
left_joined_one (x ∷ []) h = refl
left_joined_one (x ∷ y ∷ xs) h = absurd (omega arith)

-- The row of a product under the promotion that runs for it and the one that runs for its category.
abbrev pub joined_row : ℕ → Promotions → Product → SourceRow
joined_row now table p =
    row_of p (head? (filterb (promotes_product p.id) (active_promotions now table)))
      (head? (filterb (promotes_category p.category) (active_promotions now table)))

rows_of_one :
    (now : ℕ) (table : Promotions)
    → IsConstrained table
    → (p : Product) → rows_of (active_promotions now table) p ≡ joined_row now table p ∷ []
unfolding rows_of
rows_of_one now table sound p =
    rw
      (
        left_joined_one _ (one_on_product now table sound p.id),
        left_joined_one _ (one_on_category now table sound p.category),
      )
      refl

each_one :
    (now : ℕ) (table : Promotions)
    → IsConstrained table
    → (ps : List Product)
    → each (rows_of (active_promotions now table)) ps ≡ map (joined_row now table) ps
each_one now table sound [] = refl
each_one now table sound (p ∷ ps) =
    rw (rows_of_one now table sound p)
      (ap (◌∷◌ (joined_row now table p)) (each_one now table sound ps))

-- On promotions that the statements led to, a read gives one row for each product of the table that
-- was asked for, with the one active promotion of the product and of its category, if there is one.
pub selected-once :
    (ids : List ℕ) (now : ℕ) (source : Source)
    → Reachable source.promotions
    → selected ids now source
      ≡ map
          (joined_row now source.promotions)
          (filterb (λ (p : Product). is_one_of ids p.id) source.products)
unfolding selected
selected-once ids now source r =
    each_one now source.promotions (Reachable-IsConstrained r)
      (filterb (λ (p : Product). is_one_of ids p.id) source.products)
