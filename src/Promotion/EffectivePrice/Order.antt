-- ===== src/Promotion/EffectivePrice/Order.antt =====
-- How a promotion's price moves with the base price and with the discount.
use mathlib.Core.Path.{subst}
use native.Mathlib.Nat.{mul-le-mul, le_refl}
use promotion_management_api.Base.{ℕ, ◌≢◌, ◌+◌, ◌-◌, ◌*◌, ◌≤◌, ◌<◌, ◌≡◌, refl, arith, sym}
use promotion_management_api.Base.Int.{pos}
use promotion_management_api.Base.Texts.{Text, codes}
use promotion_management_api.Promotion.EffectivePrice.{whole, effective, calculate}
use promotion_management_api.Promotion.EffectivePrice.Laws.{
  Leaves, by_percentage, by_fixed, calculate_iff,
}

pub Leaves-le :
    {base : ℕ} {type : Text} {value price : ℕ} → Leaves base type value price → price ≤ base
Leaves-le (by_percentage value price h le low high) = le
Leaves-le (by_fixed value) = omega arith

percentage_mono :
    (b k v v' p p' : ℕ)
    → v' ≤ v
    → v ≤ 10000
    → p ≤ b
    → p' ≤ b + k
    → b * v < (b - p + 1) * 10000
    → (b + k - p') * 10000 ≤ (b + k) * v'
    → p ≤ p'
percentage_mono b k v v' p p' hv h le le' high low' =
    let over : k * v' ≤ k * 10000 = mul-le-mul (le_refl k) (omega arith) in
    omega (arith, mul-le-mul (le_refl b) hv)

codes_apart : ◌≢◌ {A = Text} (codes "percentage") (codes "fixed")
codes_apart = λ e. cc

Leaves-mono :
    (k : ℕ) {type type' : Text} {base value price value' price' : ℕ}
    → value' ≤ value
    → Leaves base type value price
    → type ≡ type'
    → Leaves (base + k) type' value' price'
    → price ≤ price'
Leaves-mono k {base} hv (by_percentage v p h le low high) e
      (by_percentage v' p' h' le' low' high') =
    percentage_mono base k v v' p p' hv h le le' high low'
Leaves-mono k hv (by_percentage v p h le low high) e (by_fixed v') = absurd (codes_apart e)
Leaves-mono k hv (by_fixed v) e (by_percentage v' p' h' le' low' high') =
    absurd (codes_apart (sym e))
Leaves-mono k hv (by_fixed v) e (by_fixed v') = omega arith

-- On a higher base price, or with a smaller value, a promotion of the same type never gives a lower
-- price; and no promotion gives a price above its base.
pub calculate_mono :
    (base base' : ℕ) (type : Text) (value value' : ℕ) (price price' : ℕ)
    → base ≤ base'
    → value' ≤ value
    → calculate (whole (pos base)) type (whole (pos value)) ≡ effective price
    → calculate (whole (pos base')) type (whole (pos value')) ≡ effective price'
    → (price ≤ price') × (price' ≤ base')
calculate_mono base base' type value value' price price' h hv e e' =
    let p = (calculate_iff _ type _ price).0 e in
    let p' = (calculate_iff _ type _ price').0 e' in
    let b : p.cents ≡ base = ground (arith, p.base_whole) in
    let b' : p'.cents ≡ base' = ground (arith, p'.base_whole) in
    let v : p.amount ≡ value = ground (arith, p.value_whole) in
    let v' : p'.amount ≡ value' = ground (arith, p'.value_whole) in
    let k : p'.cents ≡ p.cents + (base' - base) = omega arith in
    let l' = rw b' at (Leaves-le p'.leaves) in
    (
      Leaves-mono (base' - base) (rw (v, v') hv) p.leaves refl
          (subst (λ (n : ℕ). Leaves n type p'.amount price') k p'.leaves),
      l',
    )
