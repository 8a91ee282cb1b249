-- ===== src/Promotion/Tests.antt =====
-- The promotion theorems at concrete discounts, rules and results.
use promotion_management_api.Base.{
  Bool, true, All, ◌≤◌, ◌≡◌, ℕ, ◌↔◌, refl, none, some, List, [], ◌∷◌, arith,
}
use promotion_management_api.Base.Int.{pos}
use promotion_management_api.Base.Texts.{Text, codes, text_eq}
use promotion_management_api.Base.Json.{null}
use promotion_management_api.Promotion.EffectivePrice.{whole, effective, calculate}
use promotion_management_api.Promotion.EffectivePrice.Laws.{IsPriced, calculate_iff}
use promotion_management_api.Promotion.EffectivePrice.Order.{calculate_mono}
use promotion_management_api.Promotion.Resolver.{
  PromotionRuleRow, promotion, product, category, RuleResult,
}
use promotion_management_api.Promotion.View.{PromotionView, active, live, percentage}
use promotion_management_api.Promotion.Announcer.{
  QueueCall, publish, announce, announce_cancellation,
}
use promotion_management_api.Promotion.Announcer.JobIds.{
  delayed_ids, removed_ids, Among, announce_cancellation-job_ids,
}

calculate_iff_example :
    (calculate (whole (pos 999)) (codes "percentage") (whole (pos 1000)) ≡ effective 900)
    ↔ IsPriced (whole (pos 999)) (codes "percentage") (whole (pos 1000)) 900
calculate_iff_example = calculate_iff (whole (pos 999)) (codes "percentage") (whole (pos 1000)) 900

calculate_mono_example : (900 ≤ 950) × (950 ≤ 1000)
unfolding calculate text_eq
calculate_mono_example =
    calculate_mono 999 1000 (codes "percentage") 1000 500 900 950 (omega arith) (omega arith) refl
      refl

abbrev results : List RuleResult
results =
    record { priority = pos 1; event = category }
    ∷ record { priority = pos 2; event = product }
    ∷ record { priority = pos 2; event = category }
    ∷ []

abbrev rule_rows : List PromotionRuleRow
rule_rows =
    record {
      id = 4;
      type = promotion;
      name = codes "own first";
      conditions = null;
      event = null;
      priority = pos 3;
      active = true;
      updated_at = 0;
    }
    ∷ []

abbrev summer : PromotionView
summer = record {
  id = 12;
  name = codes "Summer";
  discount_type = percentage;
  value = 1000;
  starts_at = 100;
  ends_at = 900;
  product_id = some 3;
  category = none;
  status = active;
  state = live;
}

abbrev another : ℕ
another = 1

abbrev all_settle : QueueCall → Bool
all_settle call = true

announce_cancellation-job_ids_example :
    All
      (λ (job : Text).
        Among job (removed_ids (announce_cancellation all_settle another))
        ↔ ((all_settle (publish another) ≡ true) × (summer.id ≡ another)))
      (delayed_ids (announce summer 50))
announce_cancellation-job_ids_example = announce_cancellation-job_ids all_settle summer 50 another
