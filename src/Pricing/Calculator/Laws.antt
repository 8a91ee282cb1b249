-- ===== src/Pricing/Calculator/Laws.antt =====
-- The arithmetic of an adjustment, and the range and the refusals of a price.
use promotion_management_api.Base.{
  ℕ, ◌+◌, ◌≤◌, ◌≡◌, refl, ◌∙◌, true, false, none, some, List, [], ◌∷◌, arith, Bool-cases, inl, inr,
  ◌⊎◌, leb,
}
use promotion_management_api.Base.Int.{ℤ, pos, negsuc, pos_part, neg_part, ℤ-cases, ◌+ℤ◌, ◌≤ℤ◌}
use promotion_management_api.Base.Texts.{Text}
use promotion_management_api.Base.Digits.{max_safe_integer}
use promotion_management_api.Pricing.Facts.{
  adjust_cents, VendorRowFacts, CheckedFacts, valid, check_facts, checked_number,
}
use promotion_management_api.Pricing.Rules.{FiredRule, fired, Engine, Calculator}
use promotion_management_api.Pricing.Calculator.{
  row, Reason, price_below_zero, price_above_max, priced, refused, apply, adjust,
}

-- Amounts in cents are added exactly.
pub apply-adjust_cents :
    (cents : ℕ) (value : ℤ)
    → pos_part (apply cents (adjust_cents value)) + neg_part value
      ≡ neg_part (apply cents (adjust_cents value)) + cents + pos_part value
unfolding apply ◌+ℤ◌
apply-adjust_cents cents value = ground arith

-- Where one adjustment leaves the price in range, the rest go on from there.
adjust-next :
    (version cents next : ℕ) (r : FiredRule) (rs : List FiredRule)
    → apply cents r.event ≡ pos next
    → next ≤ max_safe_integer
    → adjust version cents (r ∷ rs) ≡ adjust version next rs
unfolding adjust
adjust-next version cents next r rs e h =
    let fits : leb next max_safe_integer ≡ true = ground arith in rw (e, adjust, fits) refl

-- Where it does not, the row is refused in the name of that rule.
adjust-out :
    (version cents : ℕ) (r : FiredRule) (rs : List FiredRule)
    → ¬ (apply cents r.event ≤ℤ pos max_safe_integer × (pos 0 ≤ℤ apply cents r.event))
    → (reason : Reason) × (adjust version cents (r ∷ rs) ≡ refused row (some r.name) reason)
unfolding adjust
adjust-out version cents r rs h = elim (ℤ-cases (apply cents r.event)) [
  | inl (n, e) ↦
      let over : leb n max_safe_integer ≡ false = elim (Bool-cases (leb n max_safe_integer)) [
        | inl fits ↦ absurd (h (rw e (ground arith, ground arith)))
        | inr over ↦ over
      ] in
      (price_above_max (pos n), rw (e, adjust, over) refl)
  | inr (n, e) ↦ (price_below_zero (negsuc n), rw (e, adjust) refl)
]

-- A price in the range that a number of cents is stored in.
abbrev pub IsInRange : ℤ → Type 0
IsInRange z = (z ≤ℤ pos max_safe_integer) × (pos 0 ≤ℤ z)

-- The fired rules, applied one after the other, with every price on the way in range.
pub data Prices : ℕ → List FiredRule → ℕ → Type 0 where
  done : (cents : ℕ) → Prices cents [] cents
  step :
      {cents price : ℕ} (next : ℕ) {r : FiredRule} {rs : List FiredRule}
      → apply cents r.event ≡ pos next
      → next ≤ max_safe_integer
      → Prices next rs price
      → Prices cents (r ∷ rs) price

-- The first rule whose price is out of range.
pub data IsRejectedBy : ℕ → List FiredRule → Text → Type 0 where
  here :
      {cents : ℕ} {r : FiredRule} {rs : List FiredRule} (name : Text)
      → ¬ IsInRange (apply cents r.event)
      → name ≡ r.name
      → IsRejectedBy cents (r ∷ rs) name
  later :
      {cents : ℕ} (next : ℕ) {r : FiredRule} {rs : List FiredRule} {name : Text}
      → apply cents r.event ≡ pos next
      → next ≤ max_safe_integer
      → IsRejectedBy next rs name
      → IsRejectedBy cents (r ∷ rs) name

abbrev pub Adjusts : ℕ → ℕ → List FiredRule → Type 0
Adjusts version cents results =
    ((price : ℕ) × Prices cents results price
      × (adjust version cents results ≡ priced price version))
    ⊎ ((name : Text) × (reason : Reason) × IsRejectedBy cents results name
        × (adjust version cents results ≡ refused row (some name) reason))

Adjusts-next :
    (version cents next : ℕ) (r : FiredRule) (rs : List FiredRule)
    → apply cents r.event ≡ pos next
    → next ≤ max_safe_integer
    → Adjusts version next rs
    → Adjusts version cents (r ∷ rs)
Adjusts-next version cents next r rs e h (inl (price, p, q)) =
    inl (price, step next e h p, adjust-next version cents next r rs e h ∙ q)
Adjusts-next version cents next r rs e h (inr (name, reason, p, q)) =
    inr (name, reason, later next e h p, adjust-next version cents next r rs e h ∙ q)

Adjusts-out :
    (version cents : ℕ) (r : FiredRule) (rs : List FiredRule)
    → ¬ IsInRange (apply cents r.event)
    → Adjusts version cents (r ∷ rs)
Adjusts-out version cents r rs h =
    let (reason, e) = adjust-out version cents r rs h in inr (r.name, reason, here r.name h refl, e)

-- The loop over the fired rules gives the price that they lead to while each price on the way is a
-- safe integer, or else a refusal in the name of the first rule that leaves the range.
pub adjust-Adjusts : (version cents : ℕ) (results : List FiredRule) → Adjusts version cents results
unfolding adjust
adjust-Adjusts version cents [] = inl (cents, done cents, refl)
adjust-Adjusts version cents (r ∷ rs) = elim (ℤ-cases (apply cents r.event)) [
  | inl (n, e) ↦ elim (Bool-cases (leb n max_safe_integer)) [
    | inl fits ↦ Adjusts-next version cents n r rs e (ground arith) (adjust-Adjusts version n rs)
    | inr over ↦ Adjusts-out version cents r rs (rw e (λ h. ground arith))
  ]
  | inr (n, e) ↦ Adjusts-out version cents r rs (rw e (λ h. omega arith))
]

pub Prices-le :
    {cents : ℕ} {results : List FiredRule} {price : ℕ}
    → Prices cents results price
    → cents ≤ max_safe_integer
    → price ≤ max_safe_integer
Prices-le (done cents) h = h
Prices-le (step next e k p) h = Prices-le p k

pub checked_number-le : (z : ℤ) {n : ℕ} → checked_number z ≡ some n → n ≤ max_safe_integer
unfolding checked_number
checked_number-le (pos m) h = ground arith
checked_number-le (negsuc m) h = cc

-- How a row was priced: valid facts, a run that did not fail, and the price that its results give.
pub record IsPriced (engine : Engine) (c : Calculator) (facts : VendorRowFacts) (price : ℕ)
    : Type 0 where
  pub checked : CheckedFacts
  pub facts_valid : check_facts facts ≡ valid checked
  pub unspent : c.spent_by ≡ none
  pub results : List FiredRule
  pub ran : engine c.rules checked ≡ fired results
  pub prices : Prices checked.vendor_price_cents results price
