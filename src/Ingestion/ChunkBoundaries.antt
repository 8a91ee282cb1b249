-- ===== src/Ingestion/ChunkBoundaries.antt =====
-- Byte ranges that workers process on their own (src/modules/ingestion/domain/chunk-boundaries.ts).
-- A file is the list of its bytes, and a read of a range past its end is cut short.
pub mod Search
pub mod Tiling
pub mod Header
use mathlib.Core.Option
use promotion_management_api.Base.{
  ℕ, zero, suc, ◌+◌, ◌-◌, ◌*◌, min, Bool, true, false, List, [], ◌∷◌, Option, none, some, ◌==◌, leb,
  ltb, if◌then◌else◌, length, take, drop,
}

abbrev pub Bytes : Type 0
Bytes = List ℕ

pub record ChunkBoundary : Type 0 where
  pub chunk_index : ℕ
  pub start_offset : ℕ
  pub end_offset : ℕ

abbrev pub newline : ℕ
newline = 0x0a

-- `read`
abbrev pub read : Bytes → ℕ → ℕ → Bytes
read file start count = take count (drop start file)

-- `buffer.indexOf(NEWLINE)`
unfoldable pub index_of_newline : Bytes → Option ℕ
index_of_newline [] = none
index_of_newline (b ∷ bs) = if b == newline then some 0 else Option.map suc (index_of_newline bs)

-- `head.subarray(0, 3).equals(BOM)`
unfoldable pub starts_with_bom : Bytes → Bool
starts_with_bom (a ∷ b ∷ c ∷ rest) =
    if a == 0xef then (if b == 0xbb then c == 0xbf else false) else false
starts_with_bom _ = false

row_offset : ℕ → ℕ → Option ℕ → ℕ
row_offset size after_bom none = size
row_offset size after_bom (some i) = after_bom + i + 1

-- `firstRowOffset`: past the byte order mark, if any, and past the header line.
unfoldable pub first_row_offset : Bytes → ℕ
unfolding row_offset
first_row_offset file =
    let size = length file in
    let head = read file 0 (min size (64 * 1024)) in
    let after_bom = (if starts_with_bom head then 3 else 0) in
    row_offset size after_bom (index_of_newline (drop after_bom head))

-- The loop of `nextNewlineAfter`, a window of `step` bytes at a time.
next_from : ℕ → ℕ → Bytes → ℕ → ℕ → ℕ
next_from zero step file at size = size
next_from (suc fuel) step file at size =
    let later = next_from fuel step file (at + step) size in
    let window = index_of_newline (read file at (min step (size - at))) in
    if ltb at size then elim window [ some i ↦ at + i + 1 | none ↦ later ] else size

abbrev pub window_bytes : ℕ
window_bytes = 64 * 1024

-- Each window moves on by at least a byte, so `size` rounds are enough.
unfoldable pub next_newline_after : Bytes → ℕ → ℕ → ℕ
unfolding next_from
next_newline_after file from size = next_from (suc size) window_bytes file from size

abbrev boundary : ℕ → ℕ → ℕ → ChunkBoundary
boundary i start end = record { chunk_index = i; start_offset = start; end_offset = end }

-- The loop of `chunkBoundaries`; `i` is `boundaries.length`.
boundaries_from : ℕ → Bytes → ℕ → ℕ → ℕ → List ChunkBoundary
boundaries_from zero file target_bytes i chunk_start = []
boundaries_from (suc fuel) file target_bytes i chunk_start =
    let size = length file in
    let target = chunk_start + target_bytes in
    let end = next_newline_after file target size in
    let rest = boundaries_from fuel file target_bytes (i + 1) end in
    if leb size target
    then boundary i chunk_start size ∷ []
    else (if leb size end
        then boundary i chunk_start end ∷ []
        else boundary i chunk_start end ∷ rest)

-- Every boundary lies past the one before, so `size` rounds are enough.
unfoldable pub chunk_boundaries : Bytes → ℕ → List ChunkBoundary
unfolding boundaries_from
chunk_boundaries file target_bytes =
    let start = first_row_offset file in
    if leb (length file) start
    then []
    else boundaries_from (suc (length file)) file target_bytes 0 start
