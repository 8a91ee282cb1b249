-- ===== src/Ingestion/ChunkBoundaries/Header.antt =====
-- Where the rows of a file begin (`firstRowOffset` of
-- src/modules/ingestion/domain/chunk-boundaries.ts).
use mathlib.Core.Option
use mathlib.Core.Path.{subst}
use promotion_management_api.Base.{
  ℕ, zero, suc, ◌+◌, ◌-◌, ◌*◌, ◌≤◌, ◌<◌, ◌≡◌, ◌≢◌, ◌⊎◌, refl, ap, ◌∙◌, min, inl, inr, Bool, true,
  false, [], ◌∷◌, ◌++◌, some, ◌==◌, arith, length, length-append, take, All,
}
use promotion_management_api.Ingestion.ChunkBoundaries.{
  Bytes, newline, index_of_newline, starts_with_bom, row_offset, first_row_offset, chunk_boundaries,
}
use promotion_management_api.Ingestion.ChunkBoundaries.Tiling.{IsTiling, chunk_boundaries-IsTiling}

-- The byte order mark of UTF-8.
abbrev pub bom : Bytes
bom = 0xef ∷ 0xbb ∷ 0xbf ∷ []

-- Bytes of one line.
abbrev pub IsLine : Bytes → Type 0
IsLine = All (λ b. (b == newline) ≡ false)

index_of_newline-line :
    (k : ℕ) (line rows : Bytes)
    → IsLine line
    → length line < k
    → index_of_newline (take k (line ++ newline ∷ rows)) ≡ some (length line)
unfolding index_of_newline
index_of_newline-line zero line rows l h = absurd (omega arith)
index_of_newline-line (suc k) [] rows l h = refl
index_of_newline-line (suc k) (b ∷ line) rows (e, l) h =
    rw e (ap (Option.map suc) (index_of_newline-line k line rows l (omega arith)))

starts_with_bom-take :
    (k : ℕ) (file : Bytes) → starts_with_bom file ≡ false → starts_with_bom (take k file) ≡ false
unfolding starts_with_bom
starts_with_bom-take zero file h = refl
starts_with_bom-take (suc k) [] h = refl
starts_with_bom-take (suc zero) (a ∷ file) h = refl
starts_with_bom-take (suc (suc k)) (a ∷ []) h = refl
starts_with_bom-take (suc (suc zero)) (a ∷ b ∷ file) h = refl
starts_with_bom-take (suc (suc (suc k))) (a ∷ b ∷ []) h = refl
starts_with_bom-take (suc (suc (suc k))) (a ∷ b ∷ c ∷ file) h = h

-- The header of a file without a byte order mark.
first_row_offset-header :
    (header rows : Bytes)
    → IsLine header
    → starts_with_bom (header ++ newline ∷ rows) ≡ false
    → length header < 64 * 1024
    → first_row_offset (header ++ newline ∷ rows) ≡ length header + 1
unfolding first_row_offset row_offset
first_row_offset-header header rows l plain h =
    let file = header ++ newline ∷ rows in
    let k = min (length file) (64 * 1024) in
    rw (starts_with_bom-take k file plain) (
      rw
        (index_of_newline-line k header rows l
          (omega (arith, h, length-append header (newline ∷ rows))))
        (omega arith))

-- The header of a file with one.
first_row_offset-bom :
    (header rows : Bytes)
    → IsLine header
    → 3 + length header < 64 * 1024
    → first_row_offset (bom ++ (header ++ newline ∷ rows)) ≡ 3 + length header + 1
unfolding first_row_offset row_offset starts_with_bom
first_row_offset-bom header rows l h =
    let rest = header ++ newline ∷ rows in
    let m = min (length rest) (64 * 1024 - 3) in
    let k : min (length (bom ++ rest)) (64 * 1024) ≡ suc (suc (suc m)) = omega arith in
    rw k (
      rw
        (index_of_newline-line m header rows l
          (omega (arith, h, length-append header (newline ∷ rows))))
        refl)

-- What stands before the header line.
abbrev pub mark : Bool → Bytes
mark true = bom
mark false = []

abbrev pub file_of : Bool → Bytes → Bytes → Bytes
file_of marked header rows = mark marked ++ (header ++ newline ∷ rows)

-- A file without a mark does not begin as one with it.
abbrev pub IsPlain : Bool → Bytes → Type 0
IsPlain true lines = Unit
IsPlain false lines = starts_with_bom lines ≡ false

first_row_offset-mark :
    (marked : Bool) (header rows : Bytes)
    → IsLine header
    → IsPlain marked (header ++ newline ∷ rows)
    → length (mark marked) + length header < 64 * 1024
    → first_row_offset (file_of marked header rows) ≡ length (mark marked) + length header + 1
first_row_offset-mark true header rows l plain h = first_row_offset-bom header rows l h
first_row_offset-mark false header rows l plain h =
    first_row_offset-header header rows l plain (omega (arith, h)) ∙ omega arith

rows_or_none :
    (rows : Bytes) → ((rows ≢ []) × (1 ≤ length rows)) ⊎ ((rows ≡ []) × (length rows ≡ 0))
rows_or_none [] = inr (refl, refl)
rows_or_none (b ∷ rows) = inl (λ e. cc, omega arith)

-- A file that begins with a header line, behind a byte order mark or not, and whose header ends in
-- its first 64 KiB: if there are rows behind that line, the chunks tile them, from the byte behind
-- the header's newline to the end of the file, and if there are none there is no chunk.
pub chunk_boundaries-header :
    (marked : Bool) (header rows : Bytes) (target_bytes : ℕ)
    → IsLine header
    → IsPlain marked (header ++ newline ∷ rows)
    → length (mark marked) + length header < 64 * 1024
    → ((rows ≢ [])
        × IsTiling
            (file_of marked header rows)
            target_bytes
            0
            (length (mark marked) + length header + 1)
            (chunk_boundaries (file_of marked header rows) target_bytes))
      ⊎ ((rows ≡ []) × (chunk_boundaries (file_of marked header rows) target_bytes ≡ []))
chunk_boundaries-header marked header rows t l plain h =
    let file = file_of marked header rows in
    let start = first_row_offset-mark marked header rows l plain h in
    let outer = length-append (mark marked) (header ++ newline ∷ rows) in
    let inner = length-append header (newline ∷ rows) in
    elim (chunk_boundaries-IsTiling file t) [
      | inl (inside, tiled) ↦ elim (rows_or_none rows) [
        | inl (some_rows, n) ↦ inl (
          some_rows,
          subst (λ (n : ℕ). IsTiling file t 0 n (chunk_boundaries file t)) start tiled,
        )
        | inr (no_rows, n) ↦ absurd (omega (arith, start, outer, inner, n, inside))
      ]
      | inr (outside, none_left) ↦ elim (rows_or_none rows) [
        | inl (some_rows, n) ↦ absurd (omega (arith, start, outer, inner, n, outside))
        | inr (no_rows, n) ↦ inr (no_rows, none_left)
      ]
    ]
