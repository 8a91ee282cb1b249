-- ===== src/Base/Digits.antt =====
-- Decimal digits: the pattern `\d`, `Number` of a text of digits, and `String` of a number. The
-- last two are exact for the whole numbers up to 2^53 - 1; Double.antt rounds what is above.
use promotion_management_api.Base.{
  ℕ, zero, suc, ◌+◌, ◌-◌, ◌*◌, ◌/◌, ◌%◌, ◌^◌, ◌<◌, ◌≡◌, refl, ap, inl, inr, Bool, true, false, ◌&&◌,
  [], ◌∷◌, ◌++◌, arith, leb, ltb, if◌then◌else◌, all, Bool-cases,
}
use promotion_management_api.Base.Texts.{Text}

-- `Number.MAX_SAFE_INTEGER`
abbrev pub max_safe_integer : ℕ
max_safe_integer = 2 ^ 53 - 1

abbrev pub is_digit : ℕ → Bool
is_digit c = leb b'0' c && leb c b'9'

-- `/^\d+$/`
abbrev pub is_digits : Text → Bool
is_digits [] = false
is_digits (c ∷ s) = all is_digit (c ∷ s)

unfoldable pub value_from : ℕ → Text → ℕ
value_from acc [] = acc
value_from acc (c ∷ s) = value_from (acc * 10 + (c - b'0')) s

-- `Number(s)` for a text of digits
abbrev pub number : Text → ℕ
number s = value_from 0 s

digits_onto : ℕ → ℕ → Text → Text
digits_onto zero n rest = rest
digits_onto (suc fuel) n rest =
    let more = digits_onto fuel (n / 10) ((b'0' + n % 10) ∷ rest) in
    if ltb n 10 then (b'0' + n) ∷ rest else more

-- `String(n)`; each round divides by ten, so `n + 1` rounds are enough.
unfoldable pub to_text : ℕ → Text
unfolding digits_onto
to_text n = digits_onto (suc n) n []

value_from-digits_onto :
    (fuel n : ℕ) (rest : Text)
    → n < fuel
    → value_from 0 (digits_onto fuel n rest) ≡ value_from n rest
unfolding digits_onto value_from
value_from-digits_onto zero n rest h = elim h [ ]
value_from-digits_onto (suc fuel) n rest h = elim (Bool-cases (ltb n 10)) [
  | inl last ↦ rw last (ap (λ (m : ℕ). value_from m rest) (omega arith))
  | inr more ↦
      rw more (
        ground
          (arith, value_from-digits_onto fuel (n / 10) ((b'0' + n % 10) ∷ rest), split_digit n))
]
  where
    split_digit : (n : ℕ) → n / 10 * 10 + (b'0' + n % 10 - b'0') ≡ n
    split_digit n = omega arith

pub number-to_text : (n : ℕ) → number (to_text n) ≡ n
unfolding to_text value_from
number-to_text n = value_from-digits_onto (suc n) n [] (omega arith)

is_digits-digits_onto :
    (fuel n : ℕ) (rest : Text)
    → n < fuel
    → all is_digit rest ≡ true
    → is_digits (digits_onto fuel n rest) ≡ true
unfolding digits_onto
is_digits-digits_onto zero n rest h k = elim h [ ]
is_digits-digits_onto (suc fuel) n rest h k =
    ground (arith, is_digits-digits_onto fuel (n / 10) ((b'0' + n % 10) ∷ rest))

pub is_digits-to_text : (n : ℕ) → is_digits (to_text n) ≡ true
unfolding to_text
is_digits-to_text n = is_digits-digits_onto (suc n) n [] (omega arith) refl

pub value_from-append :
    (acc : ℕ) (s t : Text) → value_from acc (s ++ t) ≡ value_from (value_from acc s) t
unfolding value_from
value_from-append acc [] t = refl
value_from-append acc (c ∷ s) t = value_from-append (acc * 10 + (c - b'0')) s t
