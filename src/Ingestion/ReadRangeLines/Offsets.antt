-- ===== src/Ingestion/ReadRangeLines/Offsets.antt =====
-- Where the rows of a range end.
use promotion_management_api.Base.{
  ℕ, zero, suc, ◌+◌, ◌-◌, ◌≤◌, ◌<◌, ◌≡◌, refl, ap, ◌∙◌, inl, inr, false, List, [], ◌∷◌, ◌++◌, arith,
  if◌then◌else◌, ltb, leb, ◌==◌, Bool-cases, length, take, drop, take-append-drop, length-drop,
}
use promotion_management_api.Ingestion.ChunkBoundaries.{Bytes, newline, read}
use promotion_management_api.Ingestion.ReadRangeLines.{
  RangeLine, Decoder, Scan, scan_window, scan_windows, last_row, read_range_lines,
}

-- The offset past each newline, and the end of the range if a row is open there.
abbrev pub row_ends : ℕ → ℕ → ℕ → Bytes → List ℕ
row_ends to offset row_start [] = if ltb row_start to then to ∷ [] else []
row_ends to offset row_start (b ∷ bytes) =
    if b == newline
    then (offset + 1) ∷ row_ends to (offset + 1) (offset + 1) bytes
    else row_ends to (offset + 1) row_start bytes

abbrev pub end_offsets : List RangeLine → List ℕ
end_offsets [] = []
end_offsets (l ∷ lines) = l.end_offset ∷ end_offsets lines

end_offsets-append :
    (xs ys : List RangeLine) → end_offsets (xs ++ ys) ≡ end_offsets xs ++ end_offsets ys
end_offsets-append [] ys = refl
end_offsets-append (l ∷ xs) ys = ap (◌∷◌ l.end_offset) (end_offsets-append xs ys)

append_assoc_ℕ : (xs ys zs : List ℕ) → (xs ++ ys) ++ zs ≡ xs ++ (ys ++ zs)
append_assoc_ℕ [] ys zs = refl
append_assoc_ℕ (x ∷ xs) ys zs = ap (◌∷◌ x) (append_assoc_ℕ xs ys zs)

module _ {S : Type 0} (decoder : Decoder S) (to : ℕ) where
  scan_window-row_ends :
      (offset : ℕ) (piece : Bytes) (scan : Scan S) (window rest : Bytes)
      → end_offsets (scan_window decoder offset piece scan window).0
          ++ row_ends to
              (offset + length window)
              (scan_window decoder offset piece scan window).1.line_start
              rest
        ≡ row_ends to offset scan.line_start (window ++ rest)
  unfolding scan_window
  scan_window-row_ends offset piece scan [] rest =
      ap (λ (k : ℕ). row_ends to k scan.line_start rest) (omega arith)
  scan_window-row_ends offset piece scan (b ∷ window) rest =
      let same : offset + length (b ∷ window) ≡ offset + 1 + length window = omega arith in
      elim (Bool-cases (b == newline)) [
        | inl e ↦
            rw (same, e)
              (ap (◌∷◌ (offset + 1)) (scan_window-row_ends (offset + 1) [] _ window rest))
        | inr e ↦
            rw (same, e) (scan_window-row_ends (offset + 1) (piece ++ b ∷ []) scan window rest)
      ]

  last_row-row_ends :
      (offset : ℕ) (scan : Scan S)
      → end_offsets (last_row decoder to scan) ≡ row_ends to offset scan.line_start []
  unfolding last_row
  last_row-row_ends offset scan = elim (Bool-cases (ltb scan.line_start to)) [
    | inl e ↦ rw e refl
    | inr e ↦ rw e refl
  ]

  scan_windows-row_ends :
      (rounds size offset : ℕ) (scan : Scan S) (bytes : Bytes)
      → 1 ≤ size
      → length bytes ≤ rounds
      → end_offsets (scan_windows decoder rounds size offset scan bytes).0
          ++ end_offsets
              (last_row decoder to (scan_windows decoder rounds size offset scan bytes).1)
        ≡ row_ends to offset scan.line_start bytes
  unfolding scan_windows
  scan_windows-row_ends zero size offset scan [] h k = last_row-row_ends offset scan
  scan_windows-row_ends zero size offset scan (b ∷ bytes) h k = absurd (omega arith)
  scan_windows-row_ends (suc rounds) size offset scan [] h k = last_row-row_ends offset scan
  scan_windows-row_ends (suc rounds) size offset scan (b ∷ bytes) h k =
      let window = take size (b ∷ bytes) in
      let rest = drop size (b ∷ bytes) in
      let went = scan_window decoder offset [] scan window in
      let later = scan_windows decoder rounds size (offset + length window) went.1 rest in
      let again : end_offsets later.0 ++ end_offsets (last_row decoder to later.1)
          ≡ row_ends to (offset + length window) went.1.line_start rest =
        scan_windows-row_ends rounds size (offset + length window) went.1 rest h
          (omega (arith, length-drop size (b ∷ bytes))) in
      ap (λ (l : List ℕ). l ++ end_offsets (last_row decoder to later.1))
        (end_offsets-append went.0 later.0)
      ∙ append_assoc_ℕ (end_offsets went.0) (end_offsets later.0)
          (end_offsets (last_row decoder to later.1))
      ∙ ap (λ (l : List ℕ). end_offsets went.0 ++ l) again
      ∙ scan_window-row_ends offset [] scan window rest
      ∙ ap (row_ends to offset scan.line_start) (take-append-drop size (b ∷ bytes))

  -- Whatever the size of the windows and whatever the decoder makes of the bytes, the rows of a range
  -- that is not empty end just past its newlines, and at its end where a row is open there: a resume
  -- from any of these offsets starts at the first byte of a row.
  pub read_range_lines-row_ends :
      (file : Bytes) (from window_bytes : ℕ)
      → from < to
      → 1 ≤ window_bytes
      → end_offsets (read_range_lines decoder file from to window_bytes)
        ≡ row_ends to from from (read file from (to - from))
  unfolding read_range_lines
  read_range_lines-row_ends file from window_bytes h k =
      let range = read file from (to - from) in
      let start : Scan S = record { pending = []; state = decoder.initial; line_start = from } in
      let scanned = scan_windows decoder (length range) window_bytes from start range in
      let open_range : leb to from ≡ false = ground arith in
      rw open_range (
        end_offsets-append scanned.0 (last_row decoder to scanned.1)
        ∙ scan_windows-row_ends (length range) window_bytes from start range k (omega arith))
