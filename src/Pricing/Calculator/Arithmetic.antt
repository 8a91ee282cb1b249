-- ===== src/Pricing/Calculator/Arithmetic.antt =====
-- What one adjustment makes of a price (`apply` of
-- src/modules/pricing/domain/base-price-calculator.ts), by inequalities on whole numbers.
use promotion_management_api.Base.{
  ℕ, ◌+◌, ◌-◌, ◌*◌, ◌/◌, ◌≤◌, ◌<◌, ◌≡◌, ◌↔◌, ◌⊎◌, refl, ap, inl, inr, arith, leb, suc, Bool-cases,
  ltb,
}
use promotion_management_api.Base.Int.{ℤ, pos, negsuc, pos_part, neg_part, sub_ℕ, ◌+ℤ◌}
use promotion_management_api.Pricing.Facts.{AdjustmentEvent, adjust_percent_bps, adjust_cents}
use promotion_management_api.Pricing.Calculator.{basis_points, scaled, apply}
use promotion_management_api.Pricing.Calculator.Laws.{apply-adjust_cents}

-- The price that an adjustment leaves. An amount in cents is added. A percentage gives the price and
-- that many ten-thousandths of it, without its fraction: rounded down, or, where less than a cent is
-- missing to nothing, nothing.
pub data IsAdjusted (cents : ℕ) : AdjustmentEvent → ℕ → Type 0 where
  by_cents :
      (value : ℤ) (next : ℕ)
      → next + neg_part value ≡ cents + pos_part value
      → IsAdjusted cents (adjust_cents value) next
  by_percent :
      (value : ℤ) (next : ℕ)
      → next * 10000 + cents * neg_part value ≤ cents * 10000 + cents * pos_part value
      → cents * 10000 + cents * pos_part value < (next + 1) * 10000 + cents * neg_part value
      → IsAdjusted cents (adjust_percent_bps value) next
  by_all :
      (value : ℤ)
      → cents * 10000 + cents * pos_part value < cents * neg_part value
      → cents * neg_part value < cents * 10000 + cents * pos_part value + 10000
      → IsAdjusted cents (adjust_percent_bps value) 0

-- What the factor of a percentage is.
factor_cases :
    (value : ℤ)
    → ((m : ℕ) × (pos basis_points +ℤ value ≡ pos m)
        × (m + neg_part value ≡ basis_points + pos_part value))
      ⊎ ((n : ℕ) × (pos basis_points +ℤ value ≡ negsuc n)
          × (basis_points + pos_part value + (n + 1) ≡ neg_part value))
unfolding ◌+ℤ◌
factor_cases (pos v) = inl (basis_points + v, ground arith, omega arith)
factor_cases (negsuc v) = elim (Bool-cases (leb (suc v) basis_points)) [
  | inl e ↦ inl (basis_points - suc v, ground arith, ground arith)
  | inr e ↦ inr (suc v - basis_points - 1, ground arith, ground arith)
]

sub_ℕ-zero : (q next : ℕ) → sub_ℕ 0 q ≡ pos next → (q ≡ 0) × (next ≡ 0)
sub_ℕ-zero q next h = (ground arith, ground arith)

percent-IsAdjusted :
    (cents : ℕ) (value : ℤ) (next : ℕ)
    → apply cents (adjust_percent_bps value) ≡ pos next
    → IsAdjusted cents (adjust_percent_bps value) next
unfolding apply scaled
percent-IsAdjusted cents value next h = elim (factor_cases value) [
  | inl (m, factor, exact) ↦
      let spread = ap (λ (t : ℕ). cents * t) exact in
      let same : pos (cents * m / 10000) ≡ pos next = rw factor at h in
      let result : cents * m / 10000 ≡ next = ground arith in
      by_percent value next (omega (arith, spread, result)) (omega (arith, spread, result))
  | inr (n, factor, exact) ↦
      let spread = ap (λ (t : ℕ). cents * t) exact in
      let (none_left, nothing) = sub_ℕ-zero (cents * (n + 1) / 10000) next (rw factor at h) in
      rw nothing (elim (Bool-cases (ltb 0 (cents * (n + 1)))) [
        | inl some_off ↦
            let some_there : 0 < cents * (n + 1) = ground arith in
            by_all value (omega (arith, spread, some_there, none_left))
              (omega (arith, spread, some_there, none_left))
        | inr none_off ↦
            let nothing_off : cents * (n + 1) ≡ 0 = ground arith in
            by_percent value 0 (omega (arith, spread, nothing_off))
              (omega (arith, spread, nothing_off))
      ])
]

apply-percent :
    (cents : ℕ) (value : ℤ) (next : ℕ)
    → next * 10000 + cents * neg_part value ≤ cents * 10000 + cents * pos_part value
    → cents * 10000 + cents * pos_part value < (next + 1) * 10000 + cents * neg_part value
    → apply cents (adjust_percent_bps value) ≡ pos next
unfolding apply scaled
apply-percent cents value next low high = elim (factor_cases value) [
  | inl (m, factor, exact) ↦
      let spread = ap (λ (t : ℕ). cents * t) exact in
      let result : cents * m / 10000 ≡ next = omega (arith, spread, low, high) in
      rw factor (ap pos result)
  | inr (n, factor, exact) ↦
      let spread = ap (λ (t : ℕ). cents * t) exact in
      let result : cents * (n + 1) / 10000 ≡ 0 = omega (arith, spread, low, high) in
      let nothing : next ≡ 0 = omega (arith, spread, low, high) in
      rw factor (rw (result, nothing) refl)
]

apply-all :
    (cents : ℕ) (value : ℤ)
    → cents * 10000 + cents * pos_part value < cents * neg_part value
    → cents * neg_part value < cents * 10000 + cents * pos_part value + 10000
    → apply cents (adjust_percent_bps value) ≡ pos 0
unfolding apply scaled
apply-all cents value low high = elim (factor_cases value) [
  | inl (m, factor, exact) ↦
      let spread = ap (λ (t : ℕ). cents * t) exact in absurd (omega (arith, spread, low, high))
  | inr (n, factor, exact) ↦
      let spread = ap (λ (t : ℕ). cents * t) exact in
      let result : cents * (n + 1) / 10000 ≡ 0 = omega (arith, spread, low, high) in
      rw factor (rw result refl)
]

cents-IsAdjusted :
    (cents : ℕ) (value : ℤ) (next : ℕ)
    → apply cents (adjust_cents value) ≡ pos next
    → IsAdjusted cents (adjust_cents value) next
cents-IsAdjusted cents value next h =
    let sum = apply-adjust_cents cents value in by_cents value next (omega (arith, rw h at sum))

apply-cents :
    (cents : ℕ) (value : ℤ) (next : ℕ)
    → next + neg_part value ≡ cents + pos_part value
    → apply cents (adjust_cents value) ≡ pos next
unfolding apply ◌+ℤ◌
apply-cents cents value next e = ground arith

IsAdjusted-apply :
    {cents next : ℕ} {event : AdjustmentEvent}
    → IsAdjusted cents event next
    → apply cents event ≡ pos next
IsAdjusted-apply {cents} (by_cents value next e) = apply-cents cents value next e
IsAdjusted-apply {cents} (by_percent value next low high) = apply-percent cents value next low high
IsAdjusted-apply {cents} (by_all value low high) = apply-all cents value low high

apply-IsAdjusted :
    (cents : ℕ) (event : AdjustmentEvent) (next : ℕ)
    → apply cents event ≡ pos next
    → IsAdjusted cents event next
apply-IsAdjusted cents (adjust_cents value) next h = cents-IsAdjusted cents value next h
apply-IsAdjusted cents (adjust_percent_bps value) next h = percent-IsAdjusted cents value next h

-- An adjustment gives a certain price, which is not negative, exactly if it is the price that the
-- amounts ask for: the price before and the value in cents, or the price before and the value's
-- ten-thousandths of it, with a fraction of a cent dropped towards zero.
pub apply_iff :
    (cents : ℕ) (event : AdjustmentEvent) (next : ℕ)
    → (apply cents event ≡ pos next) ↔ IsAdjusted cents event next
apply_iff cents event next = (apply-IsAdjusted cents event next, IsAdjusted-apply)
