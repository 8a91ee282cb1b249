-- ===== src/Ingestion/ParseVendorRow/Valid.antt =====
-- Every row that the parser lets through is one that the contract allows.
use promotion_management_api.Base.{
  ◌≤◌, ◌≡◌, ◌≢◌, true, false, List, [], ◌∷◌, none, arith, Option-cases, inl, inr,
}
use promotion_management_api.Base.Trim.{trim}
use promotion_management_api.Base.Texts.{Text}
use promotion_management_api.Base.Digits.{is_digits, max_safe_integer}
use promotion_management_api.Ingestion.SplitCsvLine.{split_csv_line}
use promotion_management_api.Ingestion.ParseVendorRow.{
  VendorRow, parsed, strip_cr, is_price, field_rejection, cents_of, stock_of, parse_vendor_row,
  checked_row, row_of_fields, row_or_reason, parse_fields, is_empty,
}
use promotion_management_api.Base.Trim.{trim_idem}
use promotion_management_api.Ingestion.ParseVendorRow.Laws.{IsValid}

is_empty-nonempty : (s : Text) → is_empty s ≡ false → s ≢ []
unfolding is_empty
is_empty-nonempty [] h = cc
is_empty-nonempty (c ∷ s) h = λ e. cc

abbrev record_of : (sku name category price stock : Text) → VendorRow
record_of sku name category price stock = record {
  sku = sku;
  name = name;
  category = category;
  vendor_price_cents = cents_of price;
  stock_quantity = stock_of stock;
}

-- What the five tests say together.
field_rejection-none :
    (sku name category price stock : Text)
    → field_rejection sku name category price stock ≡ none
    → (is_empty sku ≡ false)
      × (is_empty name ≡ false)
      × (is_empty category ≡ false)
      × (is_price price ≡ true)
      × (is_digits stock ≡ true)
unfolding field_rejection
field_rejection-none sku name category price stock h =
    (ground arith, ground arith, ground arith, ground arith, ground arith)

checked_row-parsed :
    (sku name category price stock : Text) {row : VendorRow}
    → checked_row sku name category price stock ≡ parsed row
    → (record_of sku name category price stock ≡ row)
      × (cents_of price ≤ max_safe_integer)
      × (stock_of stock ≤ max_safe_integer)
unfolding checked_row
checked_row-parsed sku name category price stock h = (ground arith, ground arith, ground arith)

parse_fields-IsValid :
    (sku name category price stock : Text) {row : VendorRow}
    → trim sku ≡ sku
    → trim name ≡ name
    → trim category ≡ category
    → parse_fields sku name category price stock ≡ parsed row
    → IsValid row
unfolding parse_fields row_or_reason
parse_fields-IsValid sku name category price stock p q r h =
    elim (Option-cases (field_rejection sku name category price stock)) [
      | inl e ↦
          let (a, b, c, d, f) = field_rejection-none sku name category price stock e in
          let (same, cheap, few) = checked_row-parsed sku name category price stock (rw e at h) in
          rw (← same) (record {
            sku_given = is_empty-nonempty sku a;
            sku_trimmed = p;
            name_given = is_empty-nonempty name b;
            name_trimmed = q;
            category_given = is_empty-nonempty category c;
            category_trimmed = r;
            price_safe = cheap;
            stock_safe = few;
          })
      | inr (reason, e) ↦ cc (rw e at h)
    ]

row_of_fields-IsValid :
    (fields : List Text) {row : VendorRow} → row_of_fields fields ≡ parsed row → IsValid row
unfolding row_of_fields
row_of_fields-IsValid (a ∷ b ∷ c ∷ d ∷ e ∷ []) h =
    parse_fields-IsValid (trim a) (trim b) (trim c) (trim d) (trim e) (trim_idem a) (trim_idem b)
      (trim_idem c) h
row_of_fields-IsValid _ h = cc

-- Whatever the line, a row that is not rejected has a trimmed, non-empty SKU, name and category,
-- and a price and a stock that are safe integers.
pub parse_vendor_row-IsValid :
    (line : Text) {row : VendorRow} → parse_vendor_row line ≡ parsed row → IsValid row
unfolding parse_vendor_row
parse_vendor_row-IsValid line h = row_of_fields-IsValid (split_csv_line (strip_cr line)) h
