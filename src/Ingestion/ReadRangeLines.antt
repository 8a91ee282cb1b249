-- ===== src/Ingestion/ReadRangeLines.antt =====
-- The rows of one chunk, read back window by window
-- (src/modules/ingestion/domain/read-range-lines.ts). A file is the list of its bytes.
pub mod Offsets
use promotion_management_api.Base.{
  ℕ, zero, suc, ◌+◌, ◌-◌, ◌*◌, Bool, List, [], ◌∷◌, ◌++◌, if◌then◌else◌, ltb, leb, ◌==◌, length,
  take, drop,
}
use promotion_management_api.Base.Texts.{Text}
use promotion_management_api.Ingestion.ChunkBoundaries.{Bytes, newline, read}

pub record RangeLine : Type 0 where
  pub line : Text
  pub end_offset : ℕ

-- `StringDecoder`, of the language's own library: a state that keeps the bytes of a character whose
-- rest is still to come.
pub record Decoder (S : Type 0) : Type 0 where
  pub initial : S
  pub write : S → Bytes → S × Text
  pub finish : S → Text

-- `MAX_ROW_CHARS`
abbrev pub max_row_chars : ℕ
max_row_chars = 1024 * 1024

-- `keep`
unfoldable pub keep : Text → Text → Text
keep pending next_text =
    if leb max_row_chars (length pending) then pending else pending ++ next_text

-- What the loop carries from window to window.
pub record Scan (S : Type 0) : Type 0 where
  pub pending : Text
  pub state : S
  pub line_start : ℕ

module _ {S : Type 0} (decoder : Decoder S) where
  abbrev pub kept : Scan S → Bytes → Text
  kept scan piece = keep scan.pending (decoder.write scan.state piece).1

  -- The loop over a window from the byte at `offset`; `piece` is the window from `cut` up to there.
  unfoldable pub scan_window : ℕ → Bytes → Scan S → Bytes → List RangeLine × Scan S
  scan_window offset piece scan [] = (
    [],
    record {
      pending = kept scan piece;
      state = (decoder.write scan.state piece).0;
      line_start = scan.line_start;
    },
  )
  scan_window offset piece scan (b ∷ window) =
      let after : Scan S = record {
        pending = [];
        state = (decoder.write scan.state piece).0;
        line_start = offset + 1;
      } in
      let found = scan_window (offset + 1) [] after window in
      let going = scan_window (offset + 1) (piece ++ b ∷ []) scan window in
      if b == newline
      then (record { line = kept scan piece; end_offset = offset + 1 } ∷ found.0, found.1)
      else going

  -- The loop over the windows of `size` bytes, at most `rounds` of them.
  scan_windows : ℕ → ℕ → ℕ → Scan S → Bytes → List RangeLine × Scan S
  scan_windows zero size offset scan bytes = ([], scan)
  scan_windows (suc rounds) size offset scan [] = ([], scan)
  scan_windows (suc rounds) size offset scan (b ∷ bytes) =
      let window = take size (b ∷ bytes) in
      let (lines, next_scan) = scan_window offset [] scan window in
      let (more, last_scan) =
        scan_windows rounds size (offset + length window) next_scan (drop size (b ∷ bytes)) in
      (lines ++ more, last_scan)

  -- The row that has no terminator.
  last_row : ℕ → Scan S → List RangeLine
  last_row to scan =
      if ltb scan.line_start to
      then record { line = scan.pending ++ decoder.finish scan.state; end_offset = to } ∷ []
      else []

  -- `readRangeLines`; a window has at least a byte, so there are no more rounds than bytes.
  unfoldable pub read_range_lines : Bytes → ℕ → ℕ → ℕ → List RangeLine
  unfolding scan_windows last_row
  read_range_lines file from to window_bytes =
      let range = read file from (to - from) in
      let start : Scan S = record { pending = []; state = decoder.initial; line_start = from } in
      let (lines, scan) = scan_windows (length range) window_bytes from start range in
      if leb to from then [] else lines ++ last_row to scan
