-- ===== src/Ingestion/Tests.antt =====
-- The ingestion theorems at concrete inputs.
use promotion_management_api.Base.{
  ◌⊎◌, ◌<◌, ◌≤◌, ◌≡◌, ◌≢◌, refl, true, false, [], ◌∷◌, ◌++◌, arith, length,
}
use promotion_management_api.Base.Texts.{Text, codes}
use promotion_management_api.Base.Digits.{value_from, max_safe_integer}
use promotion_management_api.Base.Trim.{trim}
use promotion_management_api.Base.Double.{to_double}
use promotion_management_api.Ingestion.SplitCsvLine.{split_csv_line}
use promotion_management_api.Ingestion.SplitCsvLine.RoundTrip.{
  IsWritable, write_line, split_csv_line-write_line,
}
use promotion_management_api.Ingestion.ParseVendorRow.{
  VendorRow, parsed, is_price, cents_of, stock_of, parse_vendor_row, strip_cr, field_rejection,
}
use promotion_management_api.Ingestion.ParseVendorRow.Laws.{hundredths, IsValid, cents_of_exact}
use promotion_management_api.Ingestion.ParseVendorRow.Valid.{parse_vendor_row-IsValid}
use promotion_management_api.Ingestion.ParseVendorRow.RoundTrip.{
  row_line, parse_vendor_row-row_line,
}
use promotion_management_api.Ingestion.ChunkBoundaries.{
  Bytes, first_row_offset, next_newline_after, chunk_boundaries, index_of_newline, starts_with_bom,
}
use promotion_management_api.Ingestion.ChunkBoundaries.Header.{file_of, chunk_boundaries-header}
use promotion_management_api.Ingestion.ChunkBoundaries.Tiling.{IsTiling, chunk_boundaries-IsTiling}

abbrev shirt : VendorRow
shirt = record {
  sku = codes "A-1";
  name = codes "Shirt";
  category = codes "Tops";
  vendor_price_cents = 1990;
  stock_quantity = 7;
}

abbrev shirt_line : Text
shirt_line = codes "A-1,Shirt,Tops,19.9,7"

shirt_line-parsed : parse_vendor_row shirt_line ≡ parsed shirt
unfolding parse_vendor_row strip_cr split_csv_line field_rejection trim is_price cents_of value_from
    stock_of to_double
shirt_line-parsed = refl

shirt-IsValid : IsValid shirt
shirt-IsValid = parse_vendor_row-IsValid shirt_line shirt_line-parsed

parse_vendor_row-IsValid_example : IsValid shirt
parse_vendor_row-IsValid_example = parse_vendor_row-IsValid shirt_line shirt_line-parsed

shirt-plain : IsWritable false (codes "Tops")
shirt-plain = (
  (ground arith, ground arith),
  (
    (ground arith, ground arith),
    ((ground arith, ground arith), ((ground arith, ground arith), tt)),
  ),
)

parse_vendor_row-row_line_example : parse_vendor_row (row_line true true false shirt) ≡ parsed shirt
parse_vendor_row-row_line_example =
    parse_vendor_row-row_line true true false shirt shirt-IsValid tt tt shirt-plain

cents_of_exact_example :
    (is_price (codes "19.90") ≡ true)
    × (((1990 ≤ max_safe_integer) × (cents_of (codes "19.90") ≡ 1990))
        ⊎ ((max_safe_integer < 1990) × (max_safe_integer < cents_of (codes "19.90"))))
unfolding value_from
cents_of_exact_example = cents_of_exact (hundredths (codes "19") b'9' b'0' refl refl refl)

split_csv_line-write_line_example :
    split_csv_line (
      write_line
        (record { quoted = true; field = codes "a,b" })
        (record { quoted = true; field = codes "c" } ∷ []))
    ≡ codes "a,b" ∷ codes "c" ∷ []
split_csv_line-write_line_example =
    split_csv_line-write_line (record { quoted = true; field = codes "a,b" })
      (record { quoted = true; field = codes "c" } ∷ []) tt (tt, tt)

-- A header and two rows of two bytes.
abbrev two_rows : Bytes
two_rows = codes "h" ++ 10 ∷ codes "a" ++ 10 ∷ codes "b" ++ 10 ∷ []

chunk_boundaries-IsTiling_example :
    ((first_row_offset two_rows < length two_rows)
      × IsTiling two_rows 1 0 (first_row_offset two_rows) (chunk_boundaries two_rows 1))
    ⊎ ((length two_rows ≤ first_row_offset two_rows) × (chunk_boundaries two_rows 1 ≡ []))
chunk_boundaries-IsTiling_example = chunk_boundaries-IsTiling two_rows 1

-- A byte order mark, a header and a row.
chunk_boundaries-header_example :
    ((codes "a" ≢ [])
      × IsTiling
          (file_of true (codes "h") (codes "a"))
          1
          0
          5
          (chunk_boundaries (file_of true (codes "h") (codes "a")) 1))
    ⊎ ((codes "a" ≡ []) × (chunk_boundaries (file_of true (codes "h") (codes "a")) 1 ≡ []))
chunk_boundaries-header_example =
    chunk_boundaries-header true (codes "h") (codes "a") 1 (refl, tt) tt (omega arith)

-- The two rows are two chunks, each up to its newline.
two_rows-cut :
    chunk_boundaries two_rows 1
    ≡ record { chunk_index = 0; start_offset = 2; end_offset = 4 }
      ∷ record { chunk_index = 1; start_offset = 4; end_offset = 6 }
      ∷ []
unfolding chunk_boundaries first_row_offset next_newline_after index_of_newline starts_with_bom
two_rows-cut = refl
