-- ===== src/Ingestion/ParseVendorRow.antt =====
-- One line into a vendor row, or into the reason it is not one
-- (src/modules/ingestion/domain/parse-vendor-row.ts and the types of its result).
pub mod Laws
pub mod Valid
pub mod RoundTrip
use Prim.Native.String.{String}
use promotion_management_api.Base.{
  ℕ, zero, suc, Bool, true, false, ◌&&◌, ◌||◌, not, List, [], ◌∷◌, ◌++◌, Option, none, some, ◌==◌,
  leb, if◌then◌else◌,
}
use promotion_management_api.Base.Texts.{Text}
use promotion_management_api.Base.Trim.{trim}
use promotion_management_api.Base.Digits.{is_digit, is_digits, number, max_safe_integer}
use promotion_management_api.Base.Double.{to_double}
use promotion_management_api.Ingestion.SplitCsvLine.{split_csv_line}

pub record VendorRow : Type 0 where
  pub sku : Text
  pub name : Text
  pub category : Text
  pub vendor_price_cents : ℕ
  pub stock_quantity : ℕ

pub data VendorRowOutcome : Type 0 where
  parsed : VendorRow → VendorRowOutcome
  rejected : String → VendorRowOutcome

-- `line.endsWith('\r') ? line.slice(0, -1) : line`
unfoldable pub strip_cr : Text → Text
strip_cr [] = []
strip_cr (c ∷ []) = if c == 13 then [] else c ∷ []
strip_cr (c ∷ d ∷ s) = c ∷ strip_cr (d ∷ s)

-- `PRICE`: digits, then at most a point with one or two digits.
is_fraction : Text → Bool
is_fraction (d ∷ []) = is_digit d
is_fraction (d ∷ e ∷ []) = is_digit d && is_digit e
is_fraction _ = false

price_tail : Text → Bool
price_tail [] = true
price_tail (c ∷ s) = if is_digit c then price_tail s else (c == b'.' && is_fraction s)

unfoldable pub is_price : Text → Bool
unfolding price_tail is_fraction
is_price [] = false
is_price (c ∷ s) = is_digit c && price_tail s

is_empty : Text → Bool
is_empty [] = true
is_empty (c ∷ s) = false

-- `fieldRejection`: each field against the contract, in order.
unfoldable pub field_rejection : (sku name category price stock : Text) → Option String
unfolding is_empty
field_rejection sku name category price stock =
    if is_empty sku
    then some "sku is empty"
    else (if is_empty name
        then some "name is empty"
        else (if is_empty category
            then some "category is empty"
            else (if not (is_price price)
                then some "vendor_price is not a decimal with at most two fraction places"
                else (if not (is_digits stock)
                    then some "stock_quantity is not a whole number"
                    else none))))

-- `price.split('.')`: the first part, and the second with its default.
whole_part : Text → Text
whole_part [] = []
whole_part (c ∷ s) = if c == b'.' then [] else c ∷ whole_part s

fraction_part : Text → Text
unfolding whole_part
fraction_part [] = []
fraction_part (c ∷ s) = if c == b'.' then whole_part s else fraction_part s

-- `padEnd(n, '0')`
pad_end : ℕ → Text → Text
pad_end zero s = s
pad_end (suc n) [] = b'0' ∷ pad_end n []
pad_end (suc n) (c ∷ s) = c ∷ pad_end n s

-- `Number(`${whole}${fraction.padEnd(2, '0')}`)`
unfoldable pub cents_of : Text → ℕ
unfolding whole_part fraction_part pad_end
cents_of price = to_double (number (whole_part price ++ pad_end 2 (fraction_part price)))

-- `Number(stock)`
unfoldable pub stock_of : Text → ℕ
stock_of stock = to_double (number stock)

-- What follows once no field is rejected.
checked_row : (sku name category price stock : Text) → VendorRowOutcome
checked_row sku name category price stock =
    if not (leb (cents_of price) max_safe_integer)
    then rejected "vendor_price is out of range"
    else (if not (leb (stock_of stock) max_safe_integer)
        then rejected "stock_quantity is out of range"
        else parsed (record {
          sku = sku;
          name = name;
          category = category;
          vendor_price_cents = cents_of price;
          stock_quantity = stock_of stock;
        }))

row_or_reason : (sku name category price stock : Text) → Option String → VendorRowOutcome
row_or_reason sku name category price stock none = checked_row sku name category price stock
row_or_reason sku name category price stock (some reason) = rejected reason

parse_fields : (sku name category price stock : Text) → VendorRowOutcome
unfolding checked_row row_or_reason
parse_fields sku name category price stock =
    row_or_reason sku name category price stock (field_rejection sku name category price stock)

row_of_fields : List Text → VendorRowOutcome
unfolding parse_fields
row_of_fields (sku ∷ name ∷ category ∷ price ∷ stock ∷ []) =
    parse_fields (trim sku) (trim name) (trim category) (trim price) (trim stock)
row_of_fields _ = rejected "expected 5 columns"

unfoldable pub parse_vendor_row : Text → VendorRowOutcome
unfolding row_of_fields
parse_vendor_row line = row_of_fields (split_csv_line (strip_cr line))
