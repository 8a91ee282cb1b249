-- ===== src/Storefront/ProductPricer/Laws.antt =====
-- What every entry satisfies, whatever the rules choose.
use mathlib.Core.Path.{subst}
use promotion_management_api.Base.{
  ℕ, ap, sym, ◌≤◌, ◌≡◌, ◌⊎◌, inl, inr, refl, Option, none, some, arith, Option-cases,
}
use promotion_management_api.Base.Int.{pos}
use promotion_management_api.Base.Texts.{Text}
use promotion_management_api.Base.Result.{ok, >>=-ok}
use promotion_management_api.Promotion.EffectivePrice.{
  whole, PricingOutcome, effective, refused, calculate,
}
use promotion_management_api.Promotion.EffectivePrice.Laws.{IsPriced, calculate_iff}
use promotion_management_api.Promotion.EffectivePrice.Order.{Leaves-le}
use promotion_management_api.Promotion.Resolver.{
  CandidateLevel, product, category, Engine, PromotionResolver, select,
}
use promotion_management_api.Storefront.ProductPricer.{
  PromotionCandidate, SourceRow, ProductEntry, Applied, applied_of, priced, at, entry_of, price,
  facts_of,
}

-- The entry of a row: its own facts, and either the base price with no promotion, or the price that
-- one of the row's two promotions gives, with that promotion's id and name.
pub data IsEntryOf (row : SourceRow) (entry : ProductEntry) : Type 0 where
  at_base : entry ≡ entry_of row none → IsEntryOf row entry
  under :
      (applied : Applied)
      → (row.product_promotion ≡ some applied.promotion)
        ⊎ (row.category_promotion ≡ some applied.promotion)
      → IsPriced
          (whole (pos row.base_price_cents))
          applied.promotion.discount_type
          (whole applied.promotion.value)
          applied.effective_price_cents
      → entry ≡ entry_of row (some applied)
      → IsEntryOf row entry

applied_of-some :
    (promotion : PromotionCandidate) (o : PricingOutcome) {applied : Applied}
    → applied_of promotion o ≡ some applied
    → (o ≡ effective applied.effective_price_cents) × (promotion ≡ applied.promotion)
unfolding applied_of
applied_of-some promotion (effective p) h = ground arith
applied_of-some promotion (refused reason) h = cc

priced-some :
    (row : SourceRow) (candidate : Option PromotionCandidate) {applied : Applied}
    → priced row candidate ≡ some applied
    → (candidate ≡ some applied.promotion)
      × IsPriced
          (whole (pos row.base_price_cents))
          applied.promotion.discount_type
          (whole applied.promotion.value)
          applied.effective_price_cents
unfolding priced
priced-some row none h = cc
priced-some row (some promotion) {applied} h =
    let (is_priced, same) = applied_of-some promotion _ h in
    let e : (calculate (whole (pos row.base_price_cents)) applied.promotion.discount_type
          (whole applied.promotion.value))
        ≡ effective applied.effective_price_cents =
      subst
        (λ (p : PromotionCandidate).
          calculate (whole (pos row.base_price_cents)) p.discount_type (whole p.value)
          ≡ effective applied.effective_price_cents)
        same is_priced in
    (ap some same, (calculate_iff _ _ _ _).0 e)

entry_of-IsEntryOf :
    (row : SourceRow) (level : Option CandidateLevel)
    → IsEntryOf row (
        entry_of row
          (at level (priced row row.product_promotion) (priced row row.category_promotion)))
unfolding at
entry_of-IsEntryOf row none = at_base refl
entry_of-IsEntryOf row (some product) = elim (Option-cases (priced row row.product_promotion)) [
  | inl e ↦ at_base (ap (entry_of row) e)
  | inr (applied, e) ↦
      let (chosen, is_priced) = priced-some row row.product_promotion e in
      under applied (inl chosen) is_priced (ap (entry_of row) e)
]
entry_of-IsEntryOf row (some category) = elim (Option-cases (priced row row.category_promotion)) [
  | inl e ↦ at_base (ap (entry_of row) e)
  | inr (applied, e) ↦
      let (chosen, is_priced) = priced-some row row.category_promotion e in
      under applied (inr chosen) is_priced (ap (entry_of row) e)
]

-- Whatever the rules answer, the entry is the row at its base price without a promotion, or at the
-- price of one of its two promotions, under that promotion's id and name.
pub price-IsEntryOf :
    (engine : Engine) (resolver : PromotionResolver) (row : SourceRow) {entry : ProductEntry}
    → price engine resolver row ≡ ok entry
    → IsEntryOf row entry
unfolding price
price-IsEntryOf engine resolver row {entry} h =
    let on_product = priced row row.product_promotion in
    let on_category = priced row row.category_promotion in
    let (level, chosen, made) =
      >>=-ok (select engine resolver (facts_of row on_product on_category)) _ h in
    let same : entry_of row (at level on_product on_category) ≡ entry = cc in
    subst (IsEntryOf row) same (entry_of-IsEntryOf row level)

-- What the reader of the read model asks of an entry's prices and promotion.
pub record IsConsistent (entry : ProductEntry) : Type 0 where
  pub within_base : entry.effective_price_cents ≤ entry.base_price_cents
  pub promotion_whole :
      ((entry.promotion_id ≡ none) × (entry.promotion_name ≡ none))
      ⊎ ((id : ℕ) × (name : Text) × (entry.promotion_id ≡ some id)
          × (entry.promotion_name ≡ some name))
  pub discount_named :
      entry.promotion_id ≡ none → entry.effective_price_cents ≡ entry.base_price_cents

IsEntryOf-IsConsistent :
    {row : SourceRow} {entry : ProductEntry} → IsEntryOf row entry → IsConsistent entry
unfolding entry_of
IsEntryOf-IsConsistent {row} (at_base e) = subst IsConsistent (sym e) (record {
  within_base = omega arith;
  promotion_whole = inl (refl, refl);
  discount_named = λ h. refl;
})
IsEntryOf-IsConsistent {row} (under applied chosen p e) =
    let b : p.cents ≡ row.base_price_cents = ground (arith, p.base_whole) in
    subst IsConsistent (sym e) (record {
      within_base = rw b at (Leaves-le p.leaves);
      promotion_whole = inr (applied.promotion.id, applied.promotion.name, refl, refl);
      discount_named = λ h. cc;
    })

-- No product is priced above its base price, a promotion is named by id and name or not at all, and
-- a price below the base price names the promotion that made it.
pub price-IsConsistent :
    (engine : Engine) (resolver : PromotionResolver) (row : SourceRow) {entry : ProductEntry}
    → price engine resolver row ≡ ok entry
    → IsConsistent entry
price-IsConsistent engine resolver row h =
    IsEntryOf-IsConsistent (price-IsEntryOf engine resolver row h)
