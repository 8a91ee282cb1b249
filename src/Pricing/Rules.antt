-- ===== src/Pricing/Rules.antt =====
-- The rules of a calculator: `BasePriceCalculator.fromRules` and what it calls
-- (src/modules/pricing/domain/base-price-calculator.ts).
pub mod Laws
use promotion_management_api.Base.{
  ℕ, ◌+◌, Bool, true, false, ◌&&◌, ◌||◌, Option, none, some, List, [], ◌∷◌, ◌++◌, map,
  if◌then◌else◌, length, filterb, ltb, ◌==◌, max,
}
use promotion_management_api.Base.Int.{ℤ, ltb_ℤ}
use promotion_management_api.Base.Texts.{Text, codes}
use promotion_management_api.Base.Digits.{to_text}
use promotion_management_api.Base.Json.{Json}
use promotion_management_api.Base.Sort.{sort_by}
use promotion_management_api.Base.Result.{Result, ok, err, ◌>>=◌}
use promotion_management_api.Pricing.Facts.{
  RuleType, ingestion, promotion, PricingRuleRow, AdjustmentEvent, parse_adjustment, CheckedFacts,
  probe_row,
}
use promotion_management_api.Pricing.Conditions.{without_priorities, has_empty_group}

-- What the engine of `json-rules-engine` is given, and what a run of it answers.
pub record RuleProperties : Type 0 where
  pub name : Text
  pub priority : ℕ
  pub conditions : Json
  pub event : AdjustmentEvent

pub record FiredRule : Type 0 where
  pub name : Text
  pub event : AdjustmentEvent

pub data EngineReply : Type 0 where
  fired : List FiredRule → EngineReply
  threw : Text → EngineReply

-- A new engine over some rules, run on one row. The package is not part of the repository.
abbrev pub Engine : Type 0
Engine = List RuleProperties → CheckedFacts → EngineReply

-- What `fromRules` throws. The rule is named as in `where`.
pub data RuleFault : Type 0 where
  no_active_rules : RuleFault
  malformed_event : Text → RuleFault
  empty_group : Text → RuleFault
  cannot_compile : Text → Text → RuleFault

is_ingestion : RuleType → Bool
is_ingestion ingestion = true
is_ingestion promotion = false

-- `b.priority - a.priority || a.id - b.id` is negative.
unfoldable pub higher : PricingRuleRow → PricingRuleRow → Bool
higher a b =
    ltb_ℤ b.priority a.priority || (if ltb_ℤ a.priority b.priority then false else ltb a.id b.id)

unfoldable pub is_active_ingestion : PricingRuleRow → Bool
unfolding is_ingestion
is_active_ingestion row = row.active && is_ingestion row.type

-- `activeIngestionRules`
unfoldable pub active_ingestion_rules : List PricingRuleRow → List PricingRuleRow
active_ingestion_rules rows = sort_by higher (filterb is_active_ingestion rows)

-- `pricing rule <id> ("<name>")`
unfoldable pub rule_name : PricingRuleRow → Text
rule_name row =
    codes "pricing rule " ++ to_text row.id ++ codes " (" ++ b'"' ∷ row.name ++ b'"' ∷ codes ")"

-- `newestVersion`
newest_from : ℕ → List PricingRuleRow → ℕ
newest_from newest [] = newest
newest_from newest (row ∷ rows) = newest_from (max newest row.updated_at) rows

unfoldable pub newest_version : List PricingRuleRow → ℕ
unfolding newest_from
newest_version rows = newest_from 0 rows

pub record Calculator : Type 0 where
  pub rules : List RuleProperties
  pub rule_ids : List ℕ
  pub pricing_rules_version : ℕ
  -- The error of the first run that failed.
  pub spent_by : Option Text

abbrev properties_of : PricingRuleRow → ℕ → AdjustmentEvent → RuleProperties
properties_of row priority event = record {
  name = rule_name row;
  priority = priority;
  conditions = row.conditions;
  event = event;
}

module _ (engine : Engine) where
  -- `parseEvent`
  parse_event : PricingRuleRow → Result RuleFault AdjustmentEvent
  parse_event row = elim (parse_adjustment row.event) [
    | some event ↦ ok event
    | none ↦ err (malformed_event (rule_name row))
  ]

  -- `rejectEmptyGroup`
  reject_empty_group : PricingRuleRow → Result RuleFault (Unit {0})
  reject_empty_group row =
      if has_empty_group row.conditions then err (empty_group (rule_name row)) else ok tt

  -- `probe`: the rule alone, without the priorities of its conditions.
  probe : RuleProperties → PricingRuleRow → Result RuleFault (Unit {0})
  probe properties row =
      let stripped : RuleProperties = record properties {
        conditions = without_priorities row.conditions;
      } in
      elim (engine (stripped ∷ []) probe_row) [
        | fired results ↦ ok tt
        | threw message ↦ err (cannot_compile (rule_name row) message)
      ]

  -- `toRule`
  unfoldable pub to_rule : PricingRuleRow → ℕ → Result RuleFault RuleProperties
  unfolding parse_event reject_empty_group probe
  to_rule row priority = do
    event ← parse_event row
    _ ← reject_empty_group row
    _ ← probe (properties_of row priority event) row
    ok (properties_of row priority event)

  -- The loop over `active.entries()`: `active.length - rank` is the number of rules not yet added.
  unfoldable pub add_rules : List PricingRuleRow → Result RuleFault (List RuleProperties)
  add_rules [] = ok []
  add_rules (row ∷ rows) = do
    rule ← to_rule row (length (row ∷ rows))
    rest ← add_rules rows
    ok (rule ∷ rest)

  compiled : List PricingRuleRow → Result RuleFault Calculator
  compiled [] = err no_active_rules
  compiled (row ∷ rows) = do
    rules ← add_rules (row ∷ rows)
    ok (record {
      rules = rules;
      rule_ids = map (λ r. r.id) (row ∷ rows);
      pricing_rules_version = newest_version (row ∷ rows);
      spent_by = none;
    })

  -- `fromRules`
  unfoldable pub from_rules : List PricingRuleRow → Result RuleFault Calculator
  unfolding compiled
  from_rules rows = compiled (active_ingestion_rules rows)
