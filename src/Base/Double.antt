-- ===== src/Base/Double.antt =====
-- Whole numbers as doubles: rounded to 53 binary digits, to the nearest and from the middle to the
-- even one. What is above the largest double stays a number here and is `Infinity` in the code; a
-- test for a safe integer refuses either.
use promotion_management_api.Base.{
  ℕ, zero, suc, ◌+◌, ◌*◌, ◌/◌, ◌%◌, ◌^◌, ◌≤◌, ◌<◌, ◌≡◌, refl, inl, inr, Bool, true, false, ◌&&◌,
  ◌||◌, arith, ltb, ◌==◌, if◌then◌else◌, Bool-cases,
}
use promotion_management_api.Base.Digits.{max_safe_integer}

is_odd : ℕ → Bool
is_odd n = n % 2 == 1

-- The digits that were dropped are a half or more by their first, and more by the others.
rounded : (half others : Bool) → ℕ → ℕ
rounded half others n = if half && (others || is_odd n) then n + 1 else n

-- One digit is dropped a round.
round_to : (rounds : ℕ) → (half others : Bool) → ℕ → ℕ
unfolding rounded is_odd
round_to zero half others n = n
round_to (suc rounds) half others n =
    let shorter = 2 * round_to rounds (is_odd n) (half || others) (n / 2) in
    if ltb n (2 ^ 53) then rounded half others n else shorter

-- The double of a whole number; a number has fewer digits than its value.
unfoldable pub to_double : ℕ → ℕ
unfolding round_to
to_double n = round_to (suc n) false false n

round_to-least :
    (rounds : ℕ) (half others : Bool) (n : ℕ) → 2 ^ 52 ≤ n → 2 ^ 52 ≤ round_to rounds half others n
unfolding round_to rounded
round_to-least zero half others n h = h
round_to-least (suc rounds) half others n h = elim (Bool-cases (ltb n (2 ^ 53))) [
  | inl e ↦ rw e (elim (Bool-cases (half && (others || is_odd n))) [
    | inl d ↦ rw d (omega arith)
    | inr d ↦ rw d h
  ])
  | inr e ↦
      let large : 2 ^ 53 ≤ n = ground arith in
      let rest = round_to-least rounds (is_odd n) (half || others) (n / 2) (omega arith) in
      rw e (omega (arith, rest))
]

-- A safe integer is a double.
pub to_double-safe : (n : ℕ) → n ≤ max_safe_integer → to_double n ≡ n
unfolding to_double round_to rounded
to_double-safe n h = let small : ltb n (2 ^ 53) ≡ true = ground arith in rw small refl

-- A number that is no safe integer does not round to one.
pub to_double-large : (n : ℕ) → max_safe_integer < n → max_safe_integer < to_double n
unfolding to_double round_to
to_double-large n h =
    let large : ltb n (2 ^ 53) ≡ false = ground arith in
    let rest = round_to-least n (is_odd n) (false || false) (n / 2) (omega arith) in
    rw large (omega (arith, rest))
