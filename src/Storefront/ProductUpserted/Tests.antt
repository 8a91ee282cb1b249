-- ===== src/Storefront/ProductUpserted/Tests.antt =====
-- A recompute of a product on sale and of one that is gone.
use promotion_management_api.Base.{
  ℕ, Bool, true, ◌≡◌, ◌≢◌, refl, none, some, List, [], ◌∷◌, if◌then◌else◌, Bool-cases, inl, inr,
}
use promotion_management_api.Base.Int.{pos}
use promotion_management_api.Base.Texts.{Text, codes, text_eq}
use promotion_management_api.Base.Digits.{value_from, to_text}
use promotion_management_api.Base.Result.{Result, ok}
use promotion_management_api.Product.Repository.{Product}
use promotion_management_api.Promotion.View.{fixed}
use promotion_management_api.Promotion.Repository.{
  CreatePromotion, insert, inserted, active_promotions,
}
use promotion_management_api.Promotion.Table.{violation, passes_checks}
use promotion_management_api.Promotion.EffectivePrice.{calculate}
use promotion_management_api.Promotion.Repository.Reachable.{Reachable}
use promotion_management_api.Promotion.Resolver.{
  Engine, PromotionResolver, product, select, winner_from,
}
use promotion_management_api.Storefront.ProductPricer.{ProductEntry, price, entry_of, at, priced}
use promotion_management_api.Storefront.ProductSource.{
  Source, Clocks, read, is_one_of, selected, rows_of, row_of, candidate_of,
}
use promotion_management_api.Storefront.ProductUpserted.{
  Refusal, written, report, handle, price_all, found_of, deleted_of,
}
use promotion_management_api.Storefront.ProductUpserted.Batch.{newest}
use promotion_management_api.Storefront.ProductUpserted.Said.{said}
use promotion_management_api.Storefront.ProductUpserted.Settled.{IsReadable, handle-settles}
use promotion_management_api.Storefront.WriteRepository.{
  ReadModel, write_all, remove_all, applied_all, replied, replies_of, run_all, write_script,
  remove_script, split_token,
}
use promotion_management_api.Storefront.WriteRepository.Versions.{
  Versions, model_of, product_in, IsNamed,
}

abbrev own_promotion : Engine
own_promotion compiled facts = ok (record { priority = pos 1; event = product } ∷ [])

abbrev resolver : PromotionResolver
resolver = record { rules = []; rule_ids = [] }

abbrev iso : ℕ → Text
iso t = codes "2026"

abbrev all_exist : ℕ → Bool
all_exist id = true

abbrev sale : CreatePromotion
sale = record {
  name = codes "Sale";
  discount_type = fixed;
  value = 100;
  starts_at = 10;
  ends_at = 20;
  product_id = some 3;
  category = none;
}

abbrev shirt : Product
shirt = record {
  id = 3;
  sku = codes "A-1";
  name = codes "Shirt";
  category = codes "Tops";
  base_price_cents = 500;
  stock_quantity = 2;
  pricing_rules_version = some 7;
  ingest_source = none;
}

abbrev tables : Source
tables = record {
  products = shirt ∷ [];
  promotions = (insert all_exist sale 5000 (record { rows = []; next_id = 1 })).0;
}

seen_category : codes "Tops" ≢ []
seen_category h = cc

tables-IsReadable : IsReadable tables
tables-IsReadable = record {
  reachable = Reachable.inserts all_exist sale 5000 Reachable.empty;
  distinct = (tt, tt);
  named = (seen_category, tt);
}

abbrev clocks : Clocks
clocks = record { now = 15000; row_instant = 15001; later_instant = 15002 }

abbrev shirt_entry : ProductEntry
shirt_entry = record {
  id = 3;
  sku = codes "A-1";
  name = codes "Shirt";
  category = codes "Tops";
  base_price_cents = 500;
  effective_price_cents = 400;
  stock_quantity = 2;
  promotion_id = some 1;
  promotion_name = some (codes "Sale");
  pricing_rules_version = some 7;
}

-- Product 7 was there once.
abbrev versions : Versions
versions id =
    if is_one_of (7 ∷ []) id then some (record { source_read_at = 20; product = none }) else none

abbrev outcome : ReadModel × Result Text (List Refusal)
outcome = written iso (shirt_entry ∷ []) (7 ∷ []) 15001 (model_of iso versions)

version_named : (i : ℕ) → IsNamed (product_in (versions i))
version_named i = elim (Bool-cases (is_one_of (7 ∷ []) i)) [ inl e ↦ rw e tt | inr e ↦ rw e tt ]

handled :
    handle own_promotion resolver iso tables clocks (3 ∷ 7 ∷ []) (model_of iso versions)
    ≡ (outcome.0, ok [])
unfolding handle price_all found_of read selected rows_of active_promotions insert violation
    passes_checks inserted price select entry_of deleted_of at row_of winner_from priced calculate
    text_eq candidate_of written write_all remove_all applied_all replied replies_of run_all
    write_script remove_script report model_of value_from split_token to_text
handled = refl

handle-settles_example :
    outcome.0
    ≡ model_of iso (λ i.
      if is_one_of (3 ∷ 7 ∷ []) i
      then newest
          (read (3 ∷ 7 ∷ []) clocks tables).1
          (said own_promotion resolver 15000 tables i)
          (versions i)
      else versions i)
handle-settles_example =
    handle-settles own_promotion resolver iso tables clocks (3 ∷ 7 ∷ []) versions tables-IsReadable
      version_named handled
