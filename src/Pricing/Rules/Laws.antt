-- ===== src/Pricing/Rules/Laws.antt =====
-- What a calculator is made of, and in which order.
use mathlib.Core.List.{Perm}
use mathlib.Core.Path.{subst}
use promotion_management_api.Base.{
  ℕ, ◌≤◌, ◌≡◌, ◌⊎◌, inl, inr, refl, ap, Bool, ◌&&◌, Bool-cases, All-imp, true, false, none, some,
  List, [], ◌∷◌, map, arith, length, filterb, All, max, ◌≢◌,
}
use promotion_management_api.Base.Int.{ltb_ℤ, ◌≤ℤ◌}
use promotion_management_api.Base.Sort.{sort_by-perm, IsSortedBy, IsOrder, sort_by-IsSortedBy}
use promotion_management_api.Base.Result.{ok, >>=-ok}
use promotion_management_api.Pricing.Facts.{
  RuleType, ingestion, promotion, PricingRuleRow, parse_adjustment,
}
use promotion_management_api.Pricing.Conditions.{has_empty_group}
use promotion_management_api.Pricing.Rules.{
  RuleProperties, Engine, higher, is_ingestion, is_active_ingestion, active_ingestion_rules,
  rule_name, newest_version, newest_from, Calculator, to_rule, add_rules, compiled, from_rules,
  properties_of,
}

higher_asym : (a b : PricingRuleRow) → higher a b ≡ true → higher b a ≡ false
unfolding higher
higher_asym a b h = ground arith

higher_trans :
    (a b c : PricingRuleRow) → higher b a ≡ false → higher c b ≡ false → higher c a ≡ false
unfolding higher
higher_trans a b c h k = ground arith

higher-IsOrder : IsOrder higher
higher-IsOrder = record { asym = higher_asym; trans = higher_trans }

-- The active ingestion rules, none lost and none added, highest priority first and among equal
-- priorities the lowest id first.
pub active_ingestion_rules_lem :
    (rows : List PricingRuleRow)
    → Perm (active_ingestion_rules rows) (filterb is_active_ingestion rows)
      × IsSortedBy higher (active_ingestion_rules rows)
unfolding active_ingestion_rules
active_ingestion_rules_lem rows =
    (sort_by-perm higher _, sort_by-IsSortedBy higher-IsOrder (filterb is_active_ingestion rows))

-- Rule by rule: the name and the conditions of the row, its parsed event, no empty group, and a
-- priority that counts down to one.
abbrev pub IsCompiled : List PricingRuleRow → List RuleProperties → Type 0
IsCompiled [] [] = Unit
IsCompiled (row ∷ rows) (rule ∷ rules) =
    (rule.name ≡ rule_name row)
    × (rule.priority ≡ length (row ∷ rows))
    × (rule.conditions ≡ row.conditions)
    × (parse_adjustment row.event ≡ some rule.event)
    × (has_empty_group row.conditions ≡ false)
    × IsCompiled rows rules
IsCompiled _ _ = ⊥

to_rule-ok :
    (engine : Engine) (row : PricingRuleRow) (n : ℕ) {rule : RuleProperties}
    → to_rule engine row n ≡ ok rule
    → (rule ≡ properties_of row n rule.event)
      × (parse_adjustment row.event ≡ some rule.event)
      × (has_empty_group row.conditions ≡ false)
unfolding to_rule
to_rule-ok engine row n h = ground arith

add_rules-IsCompiled :
    (engine : Engine) (rows : List PricingRuleRow) {rules : List RuleProperties}
    → add_rules engine rows ≡ ok rules
    → IsCompiled rows rules
unfolding add_rules
add_rules-IsCompiled engine [] {rules} h = let e : rules ≡ [] = ground arith in rw e tt
add_rules-IsCompiled engine (row ∷ rows) {rules} h =
    let (rule, made, later) = >>=-ok (to_rule engine row (length (row ∷ rows))) _ h in
    let (rest, added, last) = >>=-ok (add_rules engine rows) _ later in
    let (same, parses, grouped) = to_rule-ok engine row (length (row ∷ rows)) made in
    let e : rule ∷ rest ≡ rules = cc in
    rw (← e) (
      ap (λ (r : RuleProperties). r.name) same,
      ap (λ (r : RuleProperties). r.priority) same,
      ap (λ (r : RuleProperties). r.conditions) same,
      parses,
      grouped,
      add_rules-IsCompiled engine rows added,
    )

-- The newest of the versions: none is newer, and it is one of them, or zero.
newest_from_bound :
    (n : ℕ) (rows : List PricingRuleRow)
    → (n ≤ newest_from n rows) × All (λ r. r.updated_at ≤ newest_from n rows) rows
unfolding newest_from
newest_from_bound n [] = (omega arith, tt)
newest_from_bound n (row ∷ rows) =
    let (up, rest) = newest_from_bound (max n row.updated_at) rows in
    (omega arith, (omega arith, rest))

abbrev pub IsMadeFrom : List PricingRuleRow → Calculator → Type 0
IsMadeFrom rows c =
    (rows ≢ [])
    × IsCompiled rows c.rules
    × (c.rule_ids ≡ map (λ r. r.id) rows)
    × All (λ r. r.updated_at ≤ c.pricing_rules_version) rows
    × (c.spent_by ≡ none)

abbrev calculator_of : List PricingRuleRow → List RuleProperties → Calculator
unfolding newest_version
calculator_of rows rules = record {
  rules = rules;
  rule_ids = map (λ r. r.id) rows;
  pricing_rules_version = newest_version rows;
  spent_by = none;
}

compiled-ok :
    (engine : Engine) (rows : List PricingRuleRow) {c : Calculator}
    → compiled engine rows ≡ ok c
    → IsMadeFrom rows c
unfolding compiled newest_version
compiled-ok engine [] h = cc
compiled-ok engine (row ∷ rows) {c} h =
    let (rules, added, last) = >>=-ok (add_rules engine (row ∷ rows)) _ h in
    let made : calculator_of (row ∷ rows) rules ≡ c = cc in
    subst (IsMadeFrom (row ∷ rows)) made (
      λ e. cc,
      add_rules-IsCompiled engine (row ∷ rows) added,
      refl,
      (newest_from_bound 0 (row ∷ rows)).1,
      refl,
    )

-- A rule that the import follows.
abbrev pub ingests : Bool → RuleType → Bool
ingests true ingestion = true
ingests _ _ = false

ingests-is_active_ingestion :
    (row : PricingRuleRow) → is_active_ingestion row ≡ ingests row.active row.type
unfolding is_active_ingestion is_ingestion
ingests-is_active_ingestion row = by_case row.active row.type
  where
    by_case :
        (active : Bool) (type : RuleType) → (active && is_ingestion type) ≡ ingests active type
    by_case true ingestion = refl
    by_case true promotion = refl
    by_case false type = refl

-- The first of two rules is not behind the second: it has the higher priority, or the same priority
-- and no higher id.
abbrev pub IsAhead : PricingRuleRow → PricingRuleRow → Type 0
IsAhead a b =
    (ltb_ℤ b.priority a.priority ≡ true)
    ⊎ ((a.priority ≤ℤ b.priority) × (b.priority ≤ℤ a.priority) × (a.id ≤ b.id))

abbrev pub IsRanked : List PricingRuleRow → Type 0
IsRanked [] = Unit
IsRanked (row ∷ rows) = All (IsAhead row) rows × IsRanked rows

higher-IsAhead : (a b : PricingRuleRow) → higher b a ≡ false → IsAhead a b
unfolding higher
higher-IsAhead a b h = elim (Bool-cases (ltb_ℤ b.priority a.priority)) [
  | inl e ↦ inl e
  | inr e ↦ inr (ground arith, ground arith, ground arith)
]

IsSortedBy-IsRanked : (rows : List PricingRuleRow) → IsSortedBy higher rows → IsRanked rows
IsSortedBy-IsRanked [] s = tt
IsSortedBy-IsRanked (row ∷ rows) (later, s) =
    (All-imp rows (λ other h. higher-IsAhead row other h) later, IsSortedBy-IsRanked rows s)

filterb-ingests :
    (rows : List PricingRuleRow)
    → filterb is_active_ingestion rows ≡ filterb (λ row. ingests row.active row.type) rows
filterb-ingests [] = refl
filterb-ingests (row ∷ rows) = rw (ingests-is_active_ingestion row, filterb-ingests rows) refl

-- A calculator is made of the active ingestion rules, ranked.
pub record IsCompiledFrom (rows : List PricingRuleRow) (c : Calculator) : Type 0 where
  pub ranked : List PricingRuleRow
  pub whole : Perm ranked (filterb (λ row. ingests row.active row.type) rows)
  pub in_order : IsRanked ranked
  pub made : IsMadeFrom ranked c

-- A calculator that is made holds the active ingestion rules of the rows, all of them and no other,
-- of which there is at least one: highest priority first and among equal priorities by ascending id.
-- Each is compiled with a priority that counts down to one, so that no two are equal; its ids are
-- theirs, its version is no older than any of them, and no run has failed yet.
pub from_rules-IsCompiledFrom :
    (engine : Engine) (rows : List PricingRuleRow) {c : Calculator}
    → from_rules engine rows ≡ ok c
    → IsCompiledFrom rows c
unfolding from_rules
from_rules-IsCompiledFrom engine rows {c} h =
    let (perm, sorted) = active_ingestion_rules_lem rows in
    record {
      ranked = active_ingestion_rules rows;
      whole = subst (Perm (active_ingestion_rules rows)) (filterb-ingests rows) perm;
      in_order = IsSortedBy-IsRanked (active_ingestion_rules rows) sorted;
      made = compiled-ok engine (active_ingestion_rules rows) h;
    }
