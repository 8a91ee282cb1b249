-- ===== src/Ingestion/ParseVendorRow/Laws.antt =====
-- What a parsed row satisfies, and the exactness of its price.
use promotion_management_api.Base.{
  ℕ, ◌+◌, ◌-◌, ◌*◌, ◌≤◌, ◌<◌, ◌⊎◌, inl, inr, Bool-cases, leb, ◌≡◌, ◌≢◌, refl, true, [], ◌∷◌, ◌++◌,
  arith, all,
}
use promotion_management_api.Base.Trim.{trim}
use promotion_management_api.Base.Texts.{Text}
use promotion_management_api.Base.Digits.{
  is_digit, is_digits, number, value_from, value_from-append, max_safe_integer,
}
use promotion_management_api.Base.Double.{to_double-safe, to_double-large}
use promotion_management_api.Ingestion.ParseVendorRow.{
  VendorRow, is_price, cents_of, price_tail, is_fraction, whole_part, fraction_part, pad_end,
}

-- The digits before the point.
whole_part-append : (w s : Text) → all is_digit w ≡ true → whole_part (w ++ b'.' ∷ s) ≡ w
unfolding whole_part
whole_part-append [] s h = refl
whole_part-append (c ∷ w) s h = ground (arith, whole_part-append w s)

whole_part-digits : (w : Text) → all is_digit w ≡ true → whole_part w ≡ w
unfolding whole_part
whole_part-digits [] h = refl
whole_part-digits (c ∷ w) h = ground (arith, whole_part-digits w)

fraction_part-append :
    (w s : Text) → all is_digit w ≡ true → fraction_part (w ++ b'.' ∷ s) ≡ whole_part s
unfolding fraction_part
fraction_part-append [] s h = refl
fraction_part-append (c ∷ w) s h = ground (arith, fraction_part-append w s)

fraction_part-digits : (w : Text) → all is_digit w ≡ true → fraction_part w ≡ []
unfolding fraction_part
fraction_part-digits [] h = refl
fraction_part-digits (c ∷ w) h = ground (arith, fraction_part-digits w)

-- The whole number that `Number` is given.
digits_value : Text → ℕ
unfolding whole_part fraction_part pad_end
digits_value price = number (whole_part price ++ pad_end 2 (fraction_part price))

-- A price without a fraction is a hundred times its number.
digits_value-whole : (w : Text) → all is_digit w ≡ true → digits_value w ≡ number w * 100
unfolding digits_value value_from
digits_value-whole w h =
    rw (whole_part-digits w h, fraction_part-digits w h)
      (rw (value_from-append 0 w (b'0' ∷ b'0' ∷ [])) (omega arith))

-- One fraction place counts ten cents a unit.
digits_value-tenths :
    (w : Text) (d : ℕ)
    → all is_digit w ≡ true
    → is_digit d ≡ true
    → digits_value (w ++ b'.' ∷ d ∷ []) ≡ number w * 100 + (d - b'0') * 10
unfolding digits_value value_from
digits_value-tenths w d h k =
    rw
      (
        whole_part-append w (d ∷ []) h,
        fraction_part-append w (d ∷ []) h,
        whole_part-digits (d ∷ []) (ground arith),
      )
      (rw (value_from-append 0 w (d ∷ b'0' ∷ [])) (omega arith))

-- Two fraction places are the cents themselves.
digits_value-hundredths :
    (w : Text) (d e : ℕ)
    → all is_digit w ≡ true
    → is_digit d ≡ true
    → is_digit e ≡ true
    → digits_value (w ++ b'.' ∷ d ∷ e ∷ []) ≡ number w * 100 + (d - b'0') * 10 + (e - b'0')
unfolding digits_value value_from
digits_value-hundredths w d e h k l =
    rw
      (
        whole_part-append w (d ∷ e ∷ []) h,
        fraction_part-append w (d ∷ e ∷ []) h,
        whole_part-digits (d ∷ e ∷ []) (ground arith),
      )
      (rw (value_from-append 0 w (d ∷ e ∷ [])) (omega arith))

-- The three forms that the price pattern allows.
pub data IsPriceText : Text → ℕ → Type 0 where
  units : (w : Text) → is_digits w ≡ true → IsPriceText w (number w * 100)
  tenths :
      (w : Text) (d : ℕ)
      → is_digits w ≡ true
      → is_digit d ≡ true
      → IsPriceText (w ++ b'.' ∷ d ∷ []) (number w * 100 + (d - b'0') * 10)
  hundredths :
      (w : Text) (d e : ℕ)
      → is_digits w ≡ true
      → is_digit d ≡ true
      → is_digit e ≡ true
      → IsPriceText (w ++ b'.' ∷ d ∷ e ∷ []) (number w * 100 + (d - b'0') * 10 + (e - b'0'))

-- The value of a price text is read exactly, and the text is accepted.
all_of_is_digits : (w : Text) → is_digits w ≡ true → all is_digit w ≡ true
all_of_is_digits [] h = refl
all_of_is_digits (c ∷ w) h = h

price_tail-append :
    (w s : Text) → all is_digit w ≡ true → is_fraction s ≡ true → price_tail (w ++ b'.' ∷ s) ≡ true
unfolding price_tail
price_tail-append [] s h k = k
price_tail-append (c ∷ w) s h k = ground (arith, price_tail-append w s)

price_tail-digits : (w : Text) → all is_digit w ≡ true → price_tail w ≡ true
unfolding price_tail
price_tail-digits [] h = refl
price_tail-digits (c ∷ w) h = ground (arith, price_tail-digits w)

is_price-append :
    (w s : Text) → is_digits w ≡ true → is_fraction s ≡ true → is_price (w ++ b'.' ∷ s) ≡ true
unfolding is_price
is_price-append [] s h k = cc
is_price-append (c ∷ w) s h k = ground (arith, price_tail-append w s)

is_price-digits : (w : Text) → is_digits w ≡ true → is_price w ≡ true
unfolding is_price
is_price-digits [] h = h
is_price-digits (c ∷ w) h = ground (arith, price_tail-digits w)

digits_value_exact :
    {price : Text} {cents : ℕ}
    → IsPriceText price cents
    → (is_price price ≡ true) × (digits_value price ≡ cents)
unfolding is_price
digits_value_exact (units w h) = (is_price-digits w h, digits_value-whole w (all_of_is_digits w h))
digits_value_exact (tenths w d h k) =
    (is_price-append w (d ∷ []) h k, digits_value-tenths w d (all_of_is_digits w h) k)
digits_value_exact (hundredths w d e h k l) = (
  is_price-append w (d ∷ e ∷ []) h (ground arith),
  digits_value-hundredths w d e (all_of_is_digits w h) k l,
)

-- Every price of the vendor contract has the form that is asked for: a hundred cents for each unit,
-- ten for a first fraction place and one for a second. If the cents are a safe integer they are read
-- exactly, and else as a number that is out of range.
pub cents_of_exact :
    {price : Text} {cents : ℕ}
    → IsPriceText price cents
    → (is_price price ≡ true)
      × (((cents ≤ max_safe_integer) × (cents_of price ≡ cents))
          ⊎ ((max_safe_integer < cents) × (max_safe_integer < cents_of price)))
unfolding cents_of digits_value
cents_of_exact {cents = cents} text =
    let (form, exact) = digits_value_exact text in
    (
      form,
      elim (Bool-cases (leb cents max_safe_integer)) [
        | inl e ↦
            let safe : cents ≤ max_safe_integer = ground arith in
            inl (safe, rw exact (to_double-safe cents safe))
        | inr e ↦
            let large : max_safe_integer < cents = ground arith in
            inr (large, rw exact (to_double-large cents large))
      ],
    )

-- A row that the contract allows.
pub record IsValid (row : VendorRow) : Type 0 where
  pub sku_given : row.sku ≢ []
  pub sku_trimmed : trim row.sku ≡ row.sku
  pub name_given : row.name ≢ []
  pub name_trimmed : trim row.name ≡ row.name
  pub category_given : row.category ≢ []
  pub category_trimmed : trim row.category ≡ row.category
  pub price_safe : row.vendor_price_cents ≤ max_safe_integer
  pub stock_safe : row.stock_quantity ≤ max_safe_integer
