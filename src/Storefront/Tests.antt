-- ===== src/Storefront/Tests.antt =====
-- The storefront theorems at a concrete product, engine and run of writes.
use promotion_management_api.Base.{
  ℕ, ◌≡◌, ◌≢◌, refl, none, some, List, [], ◌∷◌, arith, if◌then◌else◌, ◌==◌, ==_iff, leb, Bool-cases,
  inl, inr, ap, sym, ◌∙◌,
}
use promotion_management_api.Base.Int.{pos}
use promotion_management_api.Base.Texts.{Text, codes, text_eq}
use promotion_management_api.Base.Trim.{trim}
use promotion_management_api.Base.Result.{ok}
use promotion_management_api.Promotion.EffectivePrice.{calculate}
use promotion_management_api.Promotion.Resolver.{
  Engine, PromotionResolver, product, winner_from, select,
}
use promotion_management_api.Storefront.ProductPricer.{
  PromotionCandidate, SourceRow, ProductEntry, price, priced, at, entry_of,
}
use promotion_management_api.Storefront.ProductPricer.Laws.{IsConsistent, price-IsConsistent}
use promotion_management_api.Storefront.StoredProduct.{fields_of, promotion_of, product_view}
use promotion_management_api.Storefront.StoredProduct.RoundTrip.{IsSafe, shown, product_view-price}
use promotion_management_api.Storefront.WriteRepository.{empty_model, write_script, run_all}
use promotion_management_api.Storefront.WriteRepository.Versions.{model_of, settle, answer, IsNamed}
use promotion_management_api.Storefront.WriteRepository.Sets.{version}
use promotion_management_api.Storefront.WriteRepository.Refinement.{write_script-model_of}
use promotion_management_api.Storefront.WriteRepository.Order.{
  History, IsHistory, recompute, latest, versions_at, run_all-latest,
}

-- The engine answers with the product's own promotion, whatever the rules.
abbrev own_promotion : Engine
own_promotion compiled facts = ok (record { priority = pos 1; event = product } ∷ [])

abbrev resolver : PromotionResolver
resolver = record { rules = []; rule_ids = [] }

abbrev sale : PromotionCandidate
sale = record { id = 9; name = codes "Sale"; discount_type = codes "fixed"; value = pos 100 }

abbrev source_row : SourceRow
source_row = record {
  id = 3;
  sku = codes "A-1";
  name = codes "Shirt";
  category = codes "Tops";
  base_price_cents = 500;
  stock_quantity = 2;
  pricing_rules_version = some 7;
  product_promotion = some sale;
  category_promotion = none;
}

abbrev shirt_entry : ProductEntry
shirt_entry = record {
  id = 3;
  sku = codes "A-1";
  name = codes "Shirt";
  category = codes "Tops";
  base_price_cents = 500;
  effective_price_cents = 400;
  stock_quantity = 2;
  promotion_id = some 9;
  promotion_name = some (codes "Sale");
  pricing_rules_version = some 7;
}

source_row-priced : price own_promotion resolver source_row ≡ ok shirt_entry
unfolding price priced at entry_of calculate text_eq select winner_from
source_row-priced = refl

price-IsConsistent_example : IsConsistent shirt_entry
price-IsConsistent_example = price-IsConsistent own_promotion resolver source_row source_row-priced

sale-seen : trim (codes "Sale") ≢ []
unfolding trim
sale-seen h = cc

shirt_entry-IsSafe : IsSafe shirt_entry
shirt_entry-IsSafe = record {
  id_safe = omega arith;
  base_safe = omega arith;
  price_safe = omega arith;
  stock_safe = omega arith;
  promotion_safe = λ id h. ground arith;
  name_seen = λ name h. nine name h;
}
  where
    nine : (name : Text) → some (codes "Sale") ≡ some name → trim name ≢ []
    nine name h = let same : codes "Sale" ≡ name = cc in rw (← same) sale-seen

product_view-price_example :
    product_view (fields_of shirt_entry (codes "2026-01-01"))
    ≡ some (shown shirt_entry (promotion_of (some 9) (some (codes "Sale"))))
product_view-price_example =
    product_view-price own_promotion resolver source_row (codes "2026-01-01") source_row-priced
      shirt_entry-IsSafe

abbrev iso : ℕ → Text
iso t = codes "2026"

-- Product 3 is there from instant 2 on.
abbrev history : History
history id t = if id == 3 then (if leb 2 t then some shirt_entry else none) else none

tops_named : codes "Tops" ≢ []
tops_named h = cc

history-IsHistory : IsHistory history
history-IsHistory = record { own_id = own; named = named }
  where
    own : (id t : ℕ) {entry : ProductEntry} → history id t ≡ some entry → entry.id ≡ id
    own id t {entry} h = elim (Bool-cases (id == 3)) [
      | inl e ↦ elim (Bool-cases (leb 2 t)) [
        | inl k ↦
            let same : some shirt_entry ≡ some entry = rw (e, k) at h in
            let own : shirt_entry ≡ entry = cc in
            ap (λ (x : ProductEntry). x.id) (sym own) ∙ sym ((==_iff id 3).0 e)
        | inr k ↦ cc (rw (e, k) at h)
      ]
      | inr e ↦ cc (rw e at h)
    ]

    named : (id t : ℕ) → IsNamed (history id t)
    named id t = elim (Bool-cases (id == 3)) [
      | inl e ↦ elim (Bool-cases (leb 2 t)) [ inl k ↦ rw (e, k) tops_named | inr k ↦ rw (e, k) tt ]
      | inr e ↦ rw e tt
    ]

abbrev reads : List (ℕ × ℕ)
reads = (3, 5) ∷ (3, 1) ∷ (4, 2) ∷ []

run_all-latest_example :
    (run_all (recompute iso history) reads empty_model).0
    ≡ model_of iso (versions_at history (λ id. latest id reads none))
run_all-latest_example = run_all-latest iso history history-IsHistory reads

write_script-model_of_example :
    write_script iso shirt_entry 5 (model_of iso (λ id. none))
    ≡ (model_of iso (settle 3 (version 5 shirt_entry) (λ id. none)), answer 5 none)
write_script-model_of_example = write_script-model_of iso shirt_entry 5 (λ id. none) tt
