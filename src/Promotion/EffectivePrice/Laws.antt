-- ===== src/Promotion/EffectivePrice/Laws.antt =====
-- When a price is given, which one, and how it moves with its base.
use mathlib.Core.Path.{subst}
use promotion_management_api.Base.{
  ℕ, ◌+◌, ◌-◌, ◌*◌, ◌≤◌, ◌<◌, ◌≡◌, ◌↔◌, ◌⊎◌, inl, inr, refl, ap, ◌∙◌, none, some, arith, leb,
  Bool-cases, Option-cases,
}
use promotion_management_api.Base.Int.{pos}
use promotion_management_api.Base.Texts.{Text, codes, text_eq, text_eq_iff}
use promotion_management_api.Base.Digits.{max_safe_integer}
use promotion_management_api.Promotion.EffectivePrice.{
  JsNumber, whole, effective, refused, Discount, percentage_discount, fixed_discount,
  percentage_cents, discount_of, safe_from, calculate, discounted, known_type, percentage_error,
  fixed_cents, less_discount,
}

-- The two discounts that can be meant, with the price each leaves. A percentage takes off its exact
-- share rounded down; a fixed discount takes off its value, and at most everything.
pub data Leaves (base : ℕ) : Text → ℕ → ℕ → Type 0 where
  by_percentage :
      (value price : ℕ)
      → value ≤ 10000
      → price ≤ base
      → (base - price) * 10000 ≤ base * value
      → base * value < (base - price + 1) * 10000
      → Leaves base (codes "percentage") value price
  by_fixed : (value : ℕ) → Leaves base (codes "fixed") value (base - value)

percentage-le : (base value : ℕ) → value ≤ 10000 → percentage_cents base value ≤ base
unfolding percentage_cents
percentage-le base value h = grind arith

discounted-percentage :
    (base value : ℕ)
    → value ≤ 10000
    → discounted percentage_discount base value ≡ effective (base - percentage_cents base value)
unfolding discounted percentage_error less_discount
discounted-percentage base value h = ground (arith, percentage-le base value h)

discounted-fixed :
    (base value : ℕ) → discounted fixed_discount base value ≡ effective (base - value)
unfolding discounted fixed_cents less_discount
discounted-fixed base value = ground arith

percentage-Leaves :
    (base value : ℕ)
    → value ≤ 10000
    → Leaves base (codes "percentage") value (base - percentage_cents base value)
unfolding percentage_cents
percentage-Leaves base value h =
    let le = percentage-le base value h in
    by_percentage value _ h (omega arith) (omega arith) (omega arith)

safe_from-some :
    (least : ℕ) (x : JsNumber) {n : ℕ}
    → safe_from least x ≡ some n
    → (x ≡ whole (pos n)) × (least ≤ n) × (n ≤ max_safe_integer)
unfolding safe_from
safe_from-some least (whole (pos m)) h = (ground arith, ground arith, ground arith)
safe_from-some least _ h = cc

safe_from-fits :
    (least n : ℕ) → least ≤ n → n ≤ max_safe_integer → safe_from least (whole (pos n)) ≡ some n
unfolding safe_from
safe_from-fits least n h k = ground arith

-- What a number and a known discount must be.
pub record IsPriced (base : JsNumber) (type : Text) (value : JsNumber) (price : ℕ) : Type 0 where
  pub cents : ℕ
  pub base_whole : base ≡ whole (pos cents)
  pub base_safe : cents ≤ max_safe_integer
  pub amount : ℕ
  pub value_whole : value ≡ whole (pos amount)
  pub value_positive : 1 ≤ amount
  pub value_safe : amount ≤ max_safe_integer
  pub leaves : Leaves cents type amount price

discount_of-cases :
    (type : Text)
    → ((type ≡ codes "percentage") × (discount_of type ≡ some percentage_discount))
      ⊎ (((type ≡ codes "fixed") × (discount_of type ≡ some fixed_discount))
          ⊎ (discount_of type ≡ none))
unfolding discount_of
discount_of-cases type = elim (Bool-cases (text_eq type (codes "percentage"))) [
  | inl e ↦ inl ((text_eq_iff type (codes "percentage")).0 e, rw e)
  | inr e ↦ elim (Bool-cases (text_eq type (codes "fixed"))) [
    | inl f ↦ inr (inl ((text_eq_iff type (codes "fixed")).0 f, rw (e, f)))
    | inr f ↦ inr (inr (rw (e, f)))
  ]
]

known_type-some :
    (d : Discount) (base value : JsNumber) {price : ℕ}
    → known_type (some d) base value ≡ effective price
    → (b v : ℕ) × (safe_from 0 base ≡ some b)
      × (safe_from 1 value ≡ some v)
      × (discounted d b v ≡ effective price)
unfolding known_type
known_type-some d base value h = elim (Option-cases (safe_from 0 base)) [
  | inl e ↦ absurd (ground arith)
  | inr (b, e) ↦ elim (Option-cases (safe_from 1 value)) [
    | inl f ↦ absurd (ground arith)
    | inr (v, f) ↦ (b, v, e, f, ground arith)
  ]
]

IsPriced-known :
    (type : Text) (d : Discount) (base value : JsNumber) {price : ℕ}
    → ((b v : ℕ) → discounted d b v ≡ effective price → Leaves b type v price)
    → known_type (some d) base value ≡ effective price
    → IsPriced base type value price
IsPriced-known type d base value leaves h =
    let (b, v, e, f, g) = known_type-some d base value h in
    let (base_whole, _, base_safe) = safe_from-some 0 base e in
    let (value_whole, value_positive, value_safe) = safe_from-some 1 value f in
    record {
      cents = b;
      base_whole = base_whole;
      base_safe = base_safe;
      amount = v;
      value_whole = value_whole;
      value_positive = value_positive;
      value_safe = value_safe;
      leaves = leaves b v g;
    }

percentage_unique :
    (base value price : ℕ)
    → value ≤ 10000
    → price ≤ base
    → (base - price) * 10000 ≤ base * value
    → base * value < (base - price + 1) * 10000
    → base - percentage_cents base value ≡ price
unfolding percentage_cents
percentage_unique base value price h le low high = omega (arith, percentage-le base value h)

discounted-over :
    (base value : ℕ)
    → 10000 < value
    → discounted percentage_discount base value ≡ refused "discount is above 10000 basis points"
unfolding discounted percentage_error
discounted-over base value h = ground arith

percentage-priced :
    (base value : ℕ) {price : ℕ}
    → discounted percentage_discount base value ≡ effective price
    → Leaves base (codes "percentage") value price
percentage-priced base value {price} h = elim (Bool-cases (leb value 10000)) [
  | inl e ↦
      let same : base - percentage_cents base value ≡ price =
        ground (arith, discounted-percentage base value) in
      rw same at (percentage-Leaves base value (ground arith))
  | inr e ↦ absurd (ground (arith, discounted-over base value))
]

fixed-priced :
    (base value : ℕ) {price : ℕ}
    → discounted fixed_discount base value ≡ effective price
    → Leaves base (codes "fixed") value price
fixed-priced base value {price} h =
    let same : base - value ≡ price = ground (arith, discounted-fixed base value) in
    subst (Leaves base (codes "fixed") value) same (by_fixed value)

calculate_sound :
    (base : JsNumber) (type : Text) (value : JsNumber) {price : ℕ}
    → known_type (discount_of type) base value ≡ effective price
    → IsPriced base type value price
unfolding known_type
calculate_sound base type value h = elim (discount_of-cases type) [
  | inl (named, e) ↦
      IsPriced-known type percentage_discount base value
        (λ b v g. rw named (percentage-priced b v g)) (rw e at h)
  | inr (inl (named, e)) ↦
      IsPriced-known type fixed_discount base value (λ b v g. rw named (fixed-priced b v g))
        (rw e at h)
  | inr (inr e) ↦ absurd (let h' = rw e at h in ground arith)
]

Leaves-discounted :
    {base : ℕ} {type : Text} {value price : ℕ}
    → Leaves base type value price
    → (d : Discount) × (discount_of type ≡ some d) × (discounted d base value ≡ effective price)
unfolding discount_of text_eq
Leaves-discounted {base} (by_percentage value price h le low high) =
    let same : base - percentage_cents base value ≡ price =
      percentage_unique base value price h le low high in
    (percentage_discount, refl, discounted-percentage base value h ∙ ap effective same)
Leaves-discounted {base} (by_fixed value) = (fixed_discount, refl, discounted-fixed base value)

known_type-fits :
    (d : Discount) (b v : ℕ)
    → b ≤ max_safe_integer
    → 1 ≤ v
    → v ≤ max_safe_integer
    → known_type (some d) (whole (pos b)) (whole (pos v)) ≡ discounted d b v
unfolding known_type
known_type-fits d b v hb hv kv =
    rw (safe_from-fits 0 b (omega arith) hb, safe_from-fits 1 v hv kv) refl

calculate_complete :
    (base : JsNumber) (type : Text) (value : JsNumber) {price : ℕ}
    → IsPriced base type value price
    → known_type (discount_of type) base value ≡ effective price
calculate_complete base type value p =
    let (d, known, e) = Leaves-discounted p.leaves in
    rw (p.base_whole, p.value_whole, known)
      (known_type-fits d p.cents p.amount p.base_safe p.value_positive p.value_safe ∙ e)

-- A price is given exactly for a whole base price from zero and a whole positive value, both safe
-- integers, with one of the two discounts: a percentage of at most 10 000 basis points, whose share
-- is rounded down, or a fixed amount, which takes off at most the whole price.
pub calculate_iff :
    (base : JsNumber) (type : Text) (value : JsNumber) (price : ℕ)
    → (calculate base type value ≡ effective price) ↔ IsPriced base type value price
unfolding calculate
calculate_iff base type value price =
    (calculate_sound base type value, calculate_complete base type value)
