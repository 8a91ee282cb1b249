-- ===== src/Promotion/Resolver.antt =====
-- Which candidate price a product takes, by the promotion rules
-- (src/modules/promotion/domain/promotion-resolver.ts).
pub mod Laws
use promotion_management_api.Base.{
  ℕ, ◌+◌, Bool, true, false, ◌&&◌, ◌||◌, Option, none, some, List, [], ◌∷◌, ◌++◌, map,
  if◌then◌else◌, length, filterb, ltb, ◌==◌,
}
use promotion_management_api.Base.Int.{ℤ, ltb_ℤ}
use promotion_management_api.Base.Texts.{Text, codes, text_eq}
use promotion_management_api.Base.Digits.{to_text}
use promotion_management_api.Base.Json.{
  Json, null, bool, whole, fractional, str, arr, obj, Entries, get, only_keys,
}
use promotion_management_api.Base.Sort.{sort_by}
use promotion_management_api.Base.Result.{Result, ok, err, ◌>>=◌}

pub data RuleType : Type 0 where
  ingestion promotion : RuleType

pub record PromotionRuleRow : Type 0 where
  pub id : ℕ
  pub type : RuleType
  pub name : Text
  pub conditions : Json
  pub event : Json
  pub priority : ℤ
  pub active : Bool
  pub updated_at : ℕ

pub data CandidateLevel : Type 0 where
  product category : CandidateLevel

level_named : Text → Option CandidateLevel
level_named name =
    if text_eq name (codes "product")
    then some product
    else (if text_eq name (codes "category") then some category else none)

level_of : Option Json → Option CandidateLevel
unfolding level_named
level_of (some (obj fields)) =
    if only_keys (codes "level") (codes "level") fields
    then elim (get (codes "level") fields) [ some (str name) ↦ level_named name | _ ↦ none ]
    else none
level_of _ = none

event_of : Option Json → Option CandidateLevel → Option CandidateLevel
event_of (some (str type)) level = if text_eq type (codes "selectCandidate") then level else none
event_of _ level = none

-- `selectCandidateEvent.safeParse`, whose one datum is the level.
unfoldable pub parse_select_candidate : Json → Option CandidateLevel
unfolding level_of event_of
parse_select_candidate (obj fields) =
    if only_keys (codes "type") (codes "params") fields
    then event_of (get (codes "type") fields) (level_of (get (codes "params") fields))
    else none
parse_select_candidate _ = none

-- What the engine of `json-rules-engine` is given. The event is the parsed one.
pub record RuleProperties : Type 0 where
  pub name : Text
  pub priority : ℤ
  pub conditions : Json
  pub event : CandidateLevel

pub data RuleFault : Type 0 where
  no_active_rules : RuleFault
  malformed_event : Text → RuleFault

is_promotion : RuleType → Bool
is_promotion ingestion = false
is_promotion promotion = true

-- `b.priority - a.priority || a.id - b.id` is negative.
unfoldable pub higher : PromotionRuleRow → PromotionRuleRow → Bool
higher a b =
    ltb_ℤ b.priority a.priority || (if ltb_ℤ a.priority b.priority then false else ltb a.id b.id)

unfoldable pub is_active_promotion : PromotionRuleRow → Bool
unfolding is_promotion
is_active_promotion row = row.active && is_promotion row.type

unfoldable pub active_promotion_rules : List PromotionRuleRow → List PromotionRuleRow
active_promotion_rules rows = sort_by higher (filterb is_active_promotion rows)

-- `===` on whole numbers
same_priority : PromotionRuleRow → PromotionRuleRow → Bool
same_priority a b =
    if ltb_ℤ a.priority b.priority
    then false
    else (if ltb_ℤ b.priority a.priority then false else true)

-- What `reportSharedPriorities` logs: the rows whose next row has the same priority.
unfoldable pub shared_priorities : List PromotionRuleRow → List PromotionRuleRow
unfolding same_priority
shared_priorities [] = []
shared_priorities (row ∷ []) = []
shared_priorities (row ∷ next ∷ rows) =
    let rest = shared_priorities (next ∷ rows) in
    if same_priority next row then row ∷ rest else rest

-- `promotion rule <id> ("<name>")`
unfoldable pub rule_name : PromotionRuleRow → Text
rule_name row =
    codes "promotion rule " ++ to_text row.id ++ codes " (" ++ b'"' ∷ row.name ++ b'"' ∷ codes ")"

-- `toRule`
unfoldable pub to_rule : PromotionRuleRow → Result RuleFault RuleProperties
to_rule row = elim (parse_select_candidate row.event) [
  | some level ↦ ok (record {
    name = rule_name row;
    priority = row.priority;
    conditions = row.conditions;
    event = level;
  })
  | none ↦ err (malformed_event (rule_name row))
]

unfoldable pub add_rules : List PromotionRuleRow → Result RuleFault (List RuleProperties)
add_rules [] = ok []
add_rules (row ∷ rows) = do rule ← to_rule row; rest ← add_rules rows; ok (rule ∷ rest)

pub record PromotionResolver : Type 0 where
  pub rules : List RuleProperties
  pub rule_ids : List ℕ

resolver_of : List PromotionRuleRow → Result RuleFault PromotionResolver
resolver_of [] = err no_active_rules
resolver_of (row ∷ rows) = do
  rules ← add_rules (row ∷ rows)
  ok (record { rules = rules; rule_ids = map (λ r. r.id) (row ∷ rows) })

-- `fromRules`
unfoldable pub from_rules : List PromotionRuleRow → Result RuleFault PromotionResolver
unfolding resolver_of
from_rules rows = resolver_of (active_promotion_rules rows)

-- The facts of a product, with the price under each candidate that could be priced.
pub record CandidateFacts : Type 0 where
  pub category : Text
  pub stock_quantity : ℕ
  pub base_price_cents : ℕ
  pub product_price_cents : Option ℕ
  pub category_price_cents : Option ℕ

-- A fired rule, as the engine reports it.
pub record RuleResult : Type 0 where
  pub priority : ℤ
  pub event : CandidateLevel

-- `best === undefined || result.priority > best.priority ? result : best`
better : Option RuleResult → RuleResult → Option RuleResult
better none result = some result
better (some best) result = if ltb_ℤ best.priority result.priority then some result else some best

unfoldable pub winner_from : Option RuleResult → List RuleResult → Option RuleResult
unfolding better
winner_from best [] = best
winner_from best (result ∷ results) = winner_from (better best result) results

-- The `results` of a run, or the message of what it threw. The package is not in the repository.
abbrev pub Engine : Type 0
Engine = List RuleProperties → CandidateFacts → Result Text (List RuleResult)

level_of_winner : Option RuleResult → Option CandidateLevel
level_of_winner none = none
level_of_winner (some winner) = some winner.event

-- `select`: no level is `undefined`.
unfoldable pub select :
    Engine → PromotionResolver → CandidateFacts → Result Text (Option CandidateLevel)
unfolding level_of_winner
select engine resolver facts = do
  results ← engine resolver.rules facts
  ok (level_of_winner (winner_from none results))
