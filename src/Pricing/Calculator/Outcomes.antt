-- ===== src/Pricing/Calculator/Outcomes.antt =====
-- The outcomes of `calculate`, for one row and for the rows after a failed run.
use Prim.Native.String.{String}
use mathlib.Core.Path.{subst, subst₂}
use promotion_management_api.Base.{
  ℕ, ◌≤◌, ◌≡◌, refl, sym, Option, none, some, List, [], ◌∷◌, arith, All, Option-cases, inl, inr,
  ◌⊎◌,
}
use promotion_management_api.Base.Texts.{Text}
use promotion_management_api.Base.Digits.{max_safe_integer}
use promotion_management_api.Pricing.Facts.{
  VendorRowFacts, CheckedFacts, FactsResult, valid, invalid, check_facts,
}
use promotion_management_api.Pricing.Rules.{
  FiredRule, EngineReply, fired, threw, Engine, Calculator,
}
use promotion_management_api.Pricing.Calculator.{
  PricingFault, row, rules, Reason, PricingOutcome, priced, refused, adjust, run, calculate,
  engine_error, invalid_fact,
}
use promotion_management_api.Pricing.Calculator.Laws.{
  Prices-le, IsRejectedBy, adjust-Adjusts, IsPriced,
}

FactsResult-cases :
    (r : FactsResult) → ((f : CheckedFacts) × (r ≡ valid f)) ⊎ ((s : String) × (r ≡ invalid s))
FactsResult-cases (valid f) = inl (f, refl)
FactsResult-cases (invalid s) = inr (s, refl)

EngineReply-cases :
    (r : EngineReply)
    → ((results : List FiredRule) × (r ≡ fired results)) ⊎ ((message : Text) × (r ≡ threw message))
EngineReply-cases (fired results) = inl (results, refl)
EngineReply-cases (threw message) = inr (message, refl)

-- The checked price is a safe integer.
check_facts-le :
    (facts : VendorRowFacts) {checked : CheckedFacts}
    → check_facts facts ≡ valid checked
    → checked.vendor_price_cents ≤ max_safe_integer
unfolding check_facts
check_facts-le facts h = ground arith

-- The four ways that a row can end.
data Way (engine : Engine) (c : Calculator) (facts : VendorRowFacts)
    (r : Calculator × PricingOutcome) : Type 0 where
  bad_facts :
      (field : String)
      → check_facts facts ≡ invalid field
      → r ≡ (c, refused row none (invalid_fact field))
      → Way engine c facts r
  was_spent :
      (checked : CheckedFacts) (message : Text)
      → check_facts facts ≡ valid checked
      → c.spent_by ≡ some message
      → r ≡ (c, refused rules none (engine_error message))
      → Way engine c facts r
  failed :
      (checked : CheckedFacts) (message : Text)
      → check_facts facts ≡ valid checked
      → c.spent_by ≡ none
      → engine c.rules checked ≡ threw message
      → r ≡ (record c { spent_by = some message }, refused rules none (engine_error message))
      → Way engine c facts r
  ran :
      (checked : CheckedFacts) (results : List FiredRule)
      → check_facts facts ≡ valid checked
      → c.spent_by ≡ none
      → engine c.rules checked ≡ fired results
      → r ≡ (c, adjust c.pricing_rules_version checked.vendor_price_cents results)
      → Way engine c facts r

calculate-Way :
    (engine : Engine) (c : Calculator) (facts : VendorRowFacts)
    → Way engine c facts (calculate engine c facts)
unfolding calculate run
calculate-Way engine c facts = elim (FactsResult-cases (check_facts facts)) [
  | inr (field, e) ↦ bad_facts field e (rw e)
  | inl (checked, e) ↦ elim (Option-cases c.spent_by) [
    | inr (message, spent) ↦ was_spent checked message e spent (ground arith)
    | inl unspent ↦ elim (EngineReply-cases (engine c.rules checked)) [
      | inl (results, went) ↦ ran checked results e unspent went (ground arith)
      | inr (message, went) ↦ failed checked message e unspent went (ground arith)
    ]
  ]
]

Way-IsPriced :
    (engine : Engine) (c : Calculator) (facts : VendorRowFacts) {r : Calculator × PricingOutcome}
    {price version : ℕ}
    → Way engine c facts r
    → r.1 ≡ priced price version
    → IsPriced engine c facts price
      × (price ≤ max_safe_integer)
      × (version ≡ c.pricing_rules_version)
Way-IsPriced engine c facts (bad_facts field e out) h = absurd (ground arith)
Way-IsPriced engine c facts (was_spent checked m e s out) h = absurd (ground arith)
Way-IsPriced engine c facts (failed checked m e s w out) h = absurd (ground arith)
Way-IsPriced engine c facts {price} (ran checked results e s w out) h =
    elim (adjust-Adjusts c.pricing_rules_version checked.vendor_price_cents results) [
      | inl (p, steps, q) ↦
          let same : p ≡ price = ground arith in
          (
            record {
              checked = checked;
              facts_valid = e;
              unspent = s;
              results = results;
              ran = w;
              prices = rw same at steps;
            },
            rw same at (Prices-le steps (check_facts-le facts e)),
            ground arith,
          )
      | inr (name, reason, steps, q) ↦ absurd (ground arith)
    ]

-- A row that is priced had valid facts, a run that did not fail, and the price to which the fired
-- rules lead. It is a safe integer, and it carries the version of the calculator.
pub calculate-IsPriced :
    (engine : Engine) (c : Calculator) (facts : VendorRowFacts) {price version : ℕ}
    → (calculate engine c facts).1 ≡ priced price version
    → IsPriced engine c facts price
      × (price ≤ max_safe_integer)
      × (version ≡ c.pricing_rules_version)
calculate-IsPriced engine c facts h = Way-IsPriced engine c facts (calculate-Way engine c facts) h

-- Whom a refusal blames.
pub data Blames (engine : Engine) (c : Calculator) (facts : VendorRowFacts)
    : PricingFault → Option Text → Type 0 where
  the_facts : (field : String) → check_facts facts ≡ invalid field → Blames engine c facts row none
  the_engine :
      (checked : CheckedFacts) (message : Text)
      → check_facts facts ≡ valid checked
      → (c.spent_by ≡ some message)
        ⊎ ((c.spent_by ≡ none) × (engine c.rules checked ≡ threw message))
      → Blames engine c facts rules none
  the_rule :
      (checked : CheckedFacts) (results : List FiredRule) (name : Text)
      → check_facts facts ≡ valid checked
      → c.spent_by ≡ none
      → engine c.rules checked ≡ fired results
      → IsRejectedBy checked.vendor_price_cents results name
      → Blames engine c facts row (some name)

Way-Blames :
    (engine : Engine) (c : Calculator) (facts : VendorRowFacts) {r : Calculator × PricingOutcome}
    {fault : PricingFault} {by : Option Text} {reason : Reason}
    → Way engine c facts r
    → r.1 ≡ refused fault by reason
    → Blames engine c facts fault by
Way-Blames engine c facts {fault} {by} (bad_facts field e out) h =
    let f : row ≡ fault = ground arith in
    let b : none ≡ by = ground arith in subst₂ (Blames engine c facts) f b (the_facts field e)
Way-Blames engine c facts {fault} {by} (was_spent checked m e s out) h =
    let f : rules ≡ fault = ground arith in
    let b : none ≡ by = ground arith in
    subst₂ (Blames engine c facts) f b (the_engine checked m e (inl s))
Way-Blames engine c facts {fault} {by} (failed checked m e s w out) h =
    let f : rules ≡ fault = ground arith in
    let b : none ≡ by = ground arith in
    subst₂ (Blames engine c facts) f b (the_engine checked m e (inr (s, w)))
Way-Blames engine c facts {fault} {by} (ran checked results e s w out) h =
    elim (adjust-Adjusts c.pricing_rules_version checked.vendor_price_cents results) [
      | inl (p, steps, q) ↦ absurd (ground arith)
      | inr (name, reason, steps, q) ↦
          let f : row ≡ fault = ground arith in
          let b : some name ≡ by = ground arith in
          subst₂ (Blames engine c facts) f b (the_rule checked results name e s w steps)
    ]

-- A refusal with fault `row` and no rule has facts that do not pass the check, and one that names a
-- rule has valid facts and the first rule to take the price out of range. A fault of the rules names
-- no rule either, with valid facts, and comes from a run that failed now or before.
pub calculate-Blames :
    (engine : Engine) (c : Calculator) (facts : VendorRowFacts) {fault : PricingFault}
    {by : Option Text} {reason : Reason}
    → (calculate engine c facts).1 ≡ refused fault by reason
    → Blames engine c facts fault by
calculate-Blames engine c facts h = Way-Blames engine c facts (calculate-Way engine c facts) h

-- The rows of a chunk, one after the other.
abbrev pub calculate_all : Engine → Calculator → List VendorRowFacts → List PricingOutcome
calculate_all engine c [] = []
calculate_all engine c (facts ∷ rows) =
    let (c', outcome) = calculate engine c facts in outcome ∷ calculate_all engine c' rows

abbrev pub IsRefused : PricingOutcome → Type 0
IsRefused (priced price version) = ⊥
IsRefused (refused fault by reason) = Unit

Way-spent :
    (engine : Engine) (c : Calculator) (facts : VendorRowFacts) {r : Calculator × PricingOutcome}
    {message : Text}
    → Way engine c facts r
    → c.spent_by ≡ some message
    → (r.0 ≡ c) × IsRefused r.1
Way-spent engine c facts (bad_facts field e out) h = rw out (refl, tt)
Way-spent engine c facts (was_spent checked m e s out) h = rw out (refl, tt)
Way-spent engine c facts (failed checked m e s w out) h = absurd (ground arith)
Way-spent engine c facts (ran checked results e s w out) h = absurd (ground arith)

calculate_all-spent :
    (engine : Engine) (c : Calculator) (rows : List VendorRowFacts) {message : Text}
    → c.spent_by ≡ some message
    → All IsRefused (calculate_all engine c rows)
calculate_all-spent engine c [] h = tt
calculate_all-spent engine c (facts ∷ rows) h =
    let (same, refusal) = Way-spent engine c facts (calculate-Way engine c facts) h in
    (
      refusal,
      subst (λ c'. All IsRefused (calculate_all engine c' rows)) (sym same)
          (calculate_all-spent engine c rows h),
    )

Way-rules :
    (engine : Engine) (c : Calculator) (facts : VendorRowFacts) {r : Calculator × PricingOutcome}
    {by : Option Text} {reason : Reason}
    → Way engine c facts r
    → r.1 ≡ refused rules by reason
    → (message : Text) × (r.0.spent_by ≡ some message)
Way-rules engine c facts (bad_facts field e out) h = absurd (ground arith)
Way-rules engine c facts (was_spent checked m e s out) h = (m, rw out s)
Way-rules engine c facts (failed checked m e s w out) h = (m, rw out refl)
Way-rules engine c facts (ran checked results e s w out) h =
    elim (adjust-Adjusts c.pricing_rules_version checked.vendor_price_cents results) [
      | inl (p, steps, q) ↦ absurd (ground arith)
      | inr (name, reason, steps, q) ↦ absurd (ground arith)
    ]

-- Once a row has ended in a fault of the rules, no row after it is priced.
pub calculate_all-IsRefused :
    (engine : Engine) (c : Calculator) (facts : VendorRowFacts) (rows : List VendorRowFacts)
    {by : Option Text} {reason : Reason}
    → (calculate engine c facts).1 ≡ refused rules by reason
    → All IsRefused (calculate_all engine c (facts ∷ rows))
calculate_all-IsRefused engine c facts rows h =
    let (message, spent) = Way-rules engine c facts (calculate-Way engine c facts) h in
    (rw h tt, calculate_all-spent engine (calculate engine c facts).0 rows spent)
