-- ===== src/Pricing/Tests.antt =====
-- The pricing theorems at concrete rules, rows and engines.
use promotion_management_api.Base.{◌≤◌, ◌≡◌, ◌↔◌, refl, true, none, List, [], ◌∷◌, map, All}
use promotion_management_api.Base.Int.{pos, negsuc, ◌+ℤ◌}
use promotion_management_api.Base.Texts.{codes, text_eq}
use promotion_management_api.Base.Trim.{trim}
use promotion_management_api.Base.Digits.{max_safe_integer}
use promotion_management_api.Base.Json.{
  Json, str, obj, whole, arr, entry, end, nil, cons, get, only_keys,
}
use promotion_management_api.Base.Sort.{sort_by}
use promotion_management_api.Base.Result.{ok}
use promotion_management_api.Pricing.Facts.{
  PricingRuleRow, ingestion, adjust_percent_bps, adjust_cents, parse_adjustment, VendorRowFacts,
  check_facts, checked_number,
}
use promotion_management_api.Pricing.Conditions.{has_empty_group, has_empty_group_key}
use promotion_management_api.Pricing.Rules.{
  RuleProperties, Engine, fired, threw, higher, is_active_ingestion, active_ingestion_rules,
  rule_name, newest_version, Calculator, to_rule, add_rules, from_rules,
}
use promotion_management_api.Pricing.Rules.Laws.{IsCompiledFrom, from_rules-IsCompiledFrom}
use promotion_management_api.Pricing.Calculator.{rules, engine_error, apply, adjust, run, calculate}
use promotion_management_api.Pricing.Calculator.Arithmetic.{IsAdjusted, apply_iff}
use promotion_management_api.Pricing.Calculator.Laws.{IsPriced}
use promotion_management_api.Pricing.Calculator.Outcomes.{
  calculate_all, IsRefused, Blames, calculate-IsPriced, calculate-Blames, calculate_all-IsRefused,
}

abbrev condition : Json
condition =
    obj (
      entry (codes "all") (arr (cons (obj (entry (codes "priority") (whole (pos 2)) end)) nil)) end)

-- Ten percent off, and a hundred cents more.
abbrev discount : PricingRuleRow
discount = record {
  id = 1;
  type = ingestion;
  name = codes "ten off";
  conditions = condition;
  event = obj (
      entry (codes "type") (str (codes "adjustPercentBps"))
        (entry (codes "params") (obj (entry (codes "value") (whole (negsuc 999)) end)) end));
  priority = pos 1;
  active = true;
  updated_at = 5;
}

abbrev surcharge : PricingRuleRow
surcharge = record discount {
  id = 2;
  event = obj (
      entry (codes "type") (str (codes "adjustCents"))
        (entry (codes "params") (obj (entry (codes "value") (whole (pos 100)) end)) end));
  priority = pos 2;
}

abbrev rule_rows : List PricingRuleRow
rule_rows = discount ∷ surcharge ∷ []

-- An engine that fires every rule, and one that throws.
abbrev fire_all : Engine
fire_all compiled facts =
    fired (map (λ (r : RuleProperties). record { name = r.name; event = r.event }) compiled)

abbrev throw : Engine
throw compiled facts = threw (codes "bad")

abbrev calculator : Calculator
calculator = record {
  rules =
      record {
        name = rule_name surcharge;
        priority = 2;
        conditions = condition;
        event = adjust_cents (pos 100);
      }
      ∷ record {
        name = rule_name discount;
        priority = 1;
        conditions = condition;
        event = adjust_percent_bps (negsuc 999);
      }
      ∷ [];
  rule_ids = 2 ∷ 1 ∷ [];
  pricing_rules_version = 5;
  spent_by = none;
}

rule_rows-compiled : from_rules fire_all rule_rows ≡ ok calculator
unfolding from_rules active_ingestion_rules is_active_ingestion higher sort_by add_rules to_rule
    parse_adjustment get only_keys text_eq has_empty_group has_empty_group_key newest_version
rule_rows-compiled = refl

from_rules-IsCompiledFrom_example : IsCompiledFrom rule_rows calculator
from_rules-IsCompiledFrom_example = from_rules-IsCompiledFrom fire_all rule_rows rule_rows-compiled

-- Ten percent off nineteen cents.
apply_iff_example :
    (apply 19 (adjust_percent_bps (negsuc 999)) ≡ pos 17)
    ↔ IsAdjusted 19 (adjust_percent_bps (negsuc 999)) 17
apply_iff_example = apply_iff 19 (adjust_percent_bps (negsuc 999)) 17

abbrev shirt_facts : VendorRowFacts
shirt_facts = record {
  category = codes " Tops";
  vendor_price_cents = pos 900;
  stock_quantity = pos 3;
}

calculate-IsPriced_example :
    IsPriced fire_all calculator shirt_facts 900
    × (900 ≤ max_safe_integer)
    × (calculator.pricing_rules_version ≡ 5)
unfolding calculate check_facts checked_number trim run adjust apply ◌+ℤ◌
calculate-IsPriced_example =
    calculate-IsPriced fire_all calculator shirt_facts {price = 900} {version = 5} refl

calculate-Blames_example : Blames throw calculator shirt_facts rules none
unfolding calculate check_facts checked_number trim run
calculate-Blames_example =
    calculate-Blames throw calculator shirt_facts {fault = rules} {by = none}
      {reason = engine_error (codes "bad")} refl

calculate_all-IsRefused_example :
    All IsRefused (calculate_all throw calculator (shirt_facts ∷ shirt_facts ∷ []))
unfolding calculate check_facts checked_number trim run
calculate_all-IsRefused_example =
    calculate_all-IsRefused throw calculator shirt_facts (shirt_facts ∷ []) {by = none}
      {reason = engine_error (codes "bad")} refl
