-- ===== src/Ingestion/ParseVendorRow/RoundTrip.antt =====
-- A row that the contract allows survives being written as a line and parsed again.
use mathlib.Core.List.{append-nil}
use promotion_management_api.Base.{
  ℕ, ◌+◌, ◌/◌, ◌%◌, ◌≤◌, inl, inr, ◌≡◌, ◌≢◌, refl, ap, Bool, true, false, not, List, [], ◌∷◌, ◌++◌,
  none, arith, all, ◌∙◌,
}
use promotion_management_api.Base.Trim.{is_space, trim}
use promotion_management_api.Base.Texts.{Text}
use promotion_management_api.Base.Digits.{
  is_digit, is_digits, to_text, number-to_text, is_digits-to_text, max_safe_integer,
}
use promotion_management_api.Base.Double.{to_double-safe}
use promotion_management_api.Ingestion.SplitCsvLine.{split_csv_line}
use promotion_management_api.Ingestion.SplitCsvLine.RoundTrip.{
  Written, IsWritable, IsPlain, write_line, split_csv_line-write_line,
}
use promotion_management_api.Ingestion.ParseVendorRow.{
  VendorRow, parsed, strip_cr, is_price, field_rejection, cents_of, stock_of, parse_vendor_row,
  checked_row, row_of_fields, row_or_reason, parse_fields, is_empty,
}
use promotion_management_api.Base.Trim.{trim-visible}
use promotion_management_api.Ingestion.ParseVendorRow.Laws.{IsValid, hundredths, cents_of_exact}

strip_cr-append : (s : Text) → strip_cr (s ++ 13 ∷ []) ≡ s
unfolding strip_cr
strip_cr-append [] = refl
strip_cr-append (c ∷ []) = refl
strip_cr-append (c ∷ d ∷ s) = ap (◌∷◌ c) (strip_cr-append (d ∷ s))

-- A price in cents with its two fraction places.
abbrev pub price_text : ℕ → Text
price_text cents =
    to_text (cents / 100) ++ b'.' ∷ (b'0' + cents % 100 / 10) ∷ (b'0' + cents % 10) ∷ []

price_text-read :
    (cents : ℕ)
    → cents ≤ max_safe_integer
    → (is_price (price_text cents) ≡ true) × (cents_of (price_text cents) ≡ cents)
price_text-read cents safe =
    let (ok, read) = cents_of_exact (
      hundredths (to_text (cents / 100)) (b'0' + cents % 100 / 10) (b'0' + cents % 10)
        (is_digits-to_text (cents / 100)) (ground arith) (ground arith)) in
    (
      ok,
      elim read [
        | inl (_, exact) ↦ exact ∙ omega (arith, number-to_text (cents / 100))
        | inr (large, _) ↦ absurd (omega (arith, number-to_text (cents / 100), large, safe))
      ],
    )

stock_of-to_text : (n : ℕ) → n ≤ max_safe_integer → stock_of (to_text n) ≡ n
unfolding stock_of
stock_of-to_text n safe = rw (number-to_text n) (to_double-safe n safe)

digits-visible :
    (s t : Text)
    → all is_digit s ≡ true
    → all (λ c. not (is_space c)) t ≡ true
    → all (λ c. not (is_space c)) (s ++ t) ≡ true
digits-visible [] t h k = k
digits-visible (c ∷ s) t h k = ground (arith, digits-visible s t)

all_of_is_digits : (s : Text) → is_digits s ≡ true → all is_digit s ≡ true
all_of_is_digits [] h = refl
all_of_is_digits (c ∷ s) h = h

to_text-visible :
    (n : ℕ) (t : Text)
    → all (λ c. not (is_space c)) t ≡ true
    → trim (to_text n ++ t) ≡ to_text n ++ t
to_text-visible n t h =
    trim-visible (to_text n ++ t)
      (digits-visible (to_text n) t (all_of_is_digits (to_text n) (is_digits-to_text n)) h)

price_text-trimmed : (cents : ℕ) → trim (price_text cents) ≡ price_text cents
price_text-trimmed cents = to_text-visible (cents / 100) _ (ground arith)

stock_text-trimmed : (n : ℕ) → trim (to_text n) ≡ to_text n
stock_text-trimmed n = rw append-nil at (to_text-visible n [] refl)

nonempty-is_empty : (s : Text) → s ≢ [] → is_empty s ≡ false
unfolding is_empty
nonempty-is_empty [] h = absurd (h refl)
nonempty-is_empty (c ∷ s) h = refl

-- A valid row's own fields are not rejected.
field_rejection-valid :
    (row : VendorRow) (price stock : Text)
    → IsValid row
    → is_price price ≡ true
    → is_digits stock ≡ true
    → field_rejection row.sku row.name row.category price stock ≡ none
unfolding field_rejection
field_rejection-valid row price stock v p s = rw (
  nonempty-is_empty row.sku v.sku_given,
  nonempty-is_empty row.name v.name_given,
  nonempty-is_empty row.category v.category_given,
  p,
  s,
)

checked_row-valid :
    (row : VendorRow) (price stock : Text)
    → IsValid row
    → cents_of price ≡ row.vendor_price_cents
    → stock_of stock ≡ row.stock_quantity
    → checked_row row.sku row.name row.category price stock ≡ parsed row
unfolding checked_row
checked_row-valid row price stock v p s = rw (p, s) (ground arith)

parse_fields-valid :
    (row : VendorRow) (price stock : Text)
    → IsValid row
    → (is_price price ≡ true) × (cents_of price ≡ row.vendor_price_cents)
    → (is_digits stock ≡ true) × (stock_of stock ≡ row.stock_quantity)
    → parse_fields row.sku row.name row.category price stock ≡ parsed row
unfolding parse_fields row_or_reason
parse_fields-valid row price stock v (a, b) (c, d) =
    rw (field_rejection-valid row price stock v a c) (checked_row-valid row price stock v b d)

row_of_fields-valid :
    (row : VendorRow)
    → IsValid row
    → row_of_fields (
        row.sku
        ∷ row.name
        ∷ row.category
        ∷ price_text row.vendor_price_cents
        ∷ to_text row.stock_quantity
        ∷ [])
      ≡ parsed row
unfolding row_of_fields
row_of_fields-valid row v =
    rw
      (
        v.sku_trimmed,
        v.name_trimmed,
        v.category_trimmed,
        price_text-trimmed row.vendor_price_cents,
        stock_text-trimmed row.stock_quantity,
      )
      (parse_fields-valid row (price_text row.vendor_price_cents) (to_text row.stock_quantity) v
        (price_text-read row.vendor_price_cents v.price_safe)
        (is_digits-to_text row.stock_quantity, stock_of-to_text row.stock_quantity v.stock_safe))

abbrev written : Bool → Text → Written
written quoted field = record { quoted = quoted; field = field }

digits-IsPlain : (s t : Text) → all is_digit s ≡ true → IsPlain t → IsPlain (s ++ t)
digits-IsPlain [] t h k = k
digits-IsPlain (c ∷ s) t h k = (ground arith, digits-IsPlain s t (ground arith) k)

price_text-IsPlain : (cents : ℕ) → IsPlain (price_text cents)
price_text-IsPlain cents =
    digits-IsPlain (to_text (cents / 100)) _
      (all_of_is_digits (to_text (cents / 100)) (is_digits-to_text (cents / 100))) (omega arith)

stock_text-IsPlain : (n : ℕ) → IsPlain (to_text n)
stock_text-IsPlain n =
    rw append-nil at
      (digits-IsPlain (to_text n) [] (all_of_is_digits (to_text n) (is_digits-to_text n)) tt)

abbrev after_sku : (quote_name quote_category : Bool) → VendorRow → List Written
after_sku b c row =
    written b row.name
    ∷ written c row.category
    ∷ written false (price_text row.vendor_price_cents)
    ∷ written false (to_text row.stock_quantity)
    ∷ []

-- The line of a row: the three texts quoted or bare, the price with two places, CR at the end.
abbrev pub row_line : (quote_sku quote_name quote_category : Bool) → VendorRow → Text
row_line a b c row = write_line (written a row.sku) (after_sku b c row) ++ 13 ∷ []

-- A valid row, written with any of its three texts quoted (bare ones without a quote or a comma)
-- and a carriage return at the end, is parsed to itself.
pub parse_vendor_row-row_line :
    (quote_sku quote_name quote_category : Bool) (row : VendorRow)
    → IsValid row
    → IsWritable quote_sku row.sku
    → IsWritable quote_name row.name
    → IsWritable quote_category row.category
    → parse_vendor_row (row_line quote_sku quote_name quote_category row) ≡ parsed row
unfolding parse_vendor_row
parse_vendor_row-row_line a b c row v p q r =
    ap (λ line. row_of_fields (split_csv_line line)) (strip_cr-append _)
    ∙ ap row_of_fields (
        split_csv_line-write_line (written a row.sku) (after_sku b c row) p (
          q,
          (
            r,
            (
              price_text-IsPlain row.vendor_price_cents,
              (stock_text-IsPlain row.stock_quantity, tt),
            ),
          ),
        ))
    ∙ row_of_fields-valid row v
