-- ===== src/Ingestion/ChunkBoundaries/Tiling.antt =====
-- The chunks tile the rows of the file, and every cut stands after a newline.
use promotion_management_api.Base.{
  ℕ, zero, suc, ◌+◌, ◌-◌, ◌≤◌, ◌<◌, ◌≡◌, refl, ap, sym, ◌∙◌, min, List, [], ◌∷◌, some, ◌⊎◌, arith,
  ◌==◌, leb, length, drop, get_elem?, length-drop, get_elem?-drop, inl, inr, Bool-cases,
}
use promotion_management_api.Ingestion.ChunkBoundaries.{
  Bytes, ChunkBoundary, newline, first_row_offset, next_newline_after, boundary, boundaries_from,
  chunk_boundaries,
}
use promotion_management_api.Ingestion.ChunkBoundaries.Search.{
  next_row, next_newline_after-next_row,
}

next_row_bounds :
    (at : ℕ) (bs : Bytes)
    → (at ≤ next_row at bs)
      × (next_row at bs ≤ at + length bs)
      × (0 < length bs → at < next_row at bs)
unfolding next_row
next_row_bounds at [] = omega arith
next_row_bounds at (b ∷ bs) = ground (arith, next_row_bounds (at + 1) bs)

next_row-newline :
    (at : ℕ) (bs : Bytes)
    → next_row at bs < at + length bs
    → get_elem? bs (next_row at bs - 1 - at) ≡ some newline
unfolding next_row
next_row-newline at [] h = absurd (omega arith)
next_row-newline at (b ∷ bs) h = elim (Bool-cases (b == newline)) [
  | inl e ↦
      let here : at + 1 - 1 - at ≡ 0 = omega arith in
      let same : b ≡ newline = ground arith in rw (e, here) (ap some same)
  | inr e ↦
      let bounds = next_row_bounds (at + 1) bs in
      let lt : next_row (at + 1) bs < at + 1 + length bs = ground arith in
      let pos : 0 < length bs = omega arith in
      let later : next_row (at + 1) bs - 1 - at ≡ suc (next_row (at + 1) bs - 1 - (at + 1)) =
        omega (arith, bounds.2 pos) in
      rw (e, later) (next_row-newline (at + 1) bs lt)
]

-- What a cut inside the file satisfies.
next_newline_after_cut :
    (file : Bytes) (target : ℕ)
    → target < length file
    → let end = next_newline_after file target (length file) in
      (target < end)
      × (end ≤ length file)
      × (end < length file → get_elem? file (end - 1) ≡ some newline)
next_newline_after_cut file target h =
    let e : min target (length file) ≡ target = omega arith in
    rw (next_newline_after-next_row file target, e)
      (let row = next_row target (drop target file) in
        let len = length-drop target file in
        let bounds = next_row_bounds target (drop target file) in
        (
          omega arith,
          omega arith,
          λ inside.
              let at : target + (row - 1 - target) ≡ row - 1 = omega arith in
              rw at at (
                sym (get_elem?-drop target (row - 1 - target) file)
                ∙ next_row-newline target (drop target file) (omega arith)),
        ))

-- Consecutive chunks from a row's first byte to the end of the file, numbered in order. A chunk that
-- is not the last is longer than the target and ends just past a newline.
pub data IsTiling (file : Bytes) (target_bytes : ℕ) : ℕ → ℕ → List ChunkBoundary → Type 0 where
  last :
      {i start : ℕ}
      → start < length file
      → IsTiling file target_bytes i start (boundary i start (length file) ∷ [])
  cut :
      {i start : ℕ} (end : ℕ) {rest : List ChunkBoundary}
      → start + target_bytes < end
      → end < length file
      → get_elem? file (end - 1) ≡ some newline
      → IsTiling file target_bytes (i + 1) end rest
      → IsTiling file target_bytes i start (boundary i start end ∷ rest)

boundaries_from-IsTiling :
    (fuel : ℕ) (file : Bytes) (target_bytes i start : ℕ)
    → start < length file
    → length file - start < fuel
    → IsTiling file target_bytes i start (boundaries_from fuel file target_bytes i start)
unfolding boundaries_from
boundaries_from-IsTiling zero file t i start h k = elim k [ ]
boundaries_from-IsTiling (suc fuel) file t i start h k =
    elim (Bool-cases (leb (length file) (start + t))) [
      | inl past ↦ rw past (last h)
      | inr inside ↦
          let end = next_newline_after file (start + t) (length file) in
          let (after, within, ended) = next_newline_after_cut file (start + t) (ground arith) in
          elim (Bool-cases (leb (length file) end)) [
            | inl stop ↦ let e : end ≡ length file = ground arith in rw (inside, stop, e) (last h)
            | inr more ↦
                let lt : end < length file = ground arith in
                rw (inside, more)
                  (cut end after lt (ended lt)
                    (boundaries_from-IsTiling fuel file t (i + 1) end lt (omega arith)))
          ]
    ]

-- A file with a row is cut into chunks that tile it from its first row to its end, in order, each
-- but the last longer than the target and cut just past a newline; a file without rows has no chunk.
pub chunk_boundaries-IsTiling :
    (file : Bytes) (target_bytes : ℕ)
    → ((first_row_offset file < length file)
        × IsTiling file target_bytes 0 (first_row_offset file) (chunk_boundaries file target_bytes))
      ⊎ ((length file ≤ first_row_offset file) × (chunk_boundaries file target_bytes ≡ []))
unfolding chunk_boundaries
chunk_boundaries-IsTiling file t = elim (Bool-cases (leb (length file) (first_row_offset file))) [
  | inl none_left ↦ inr (ground arith, rw none_left refl)
  | inr e ↦
      let h : first_row_offset file < length file = ground arith in
      inl (
        h,
        rw e (
            boundaries_from-IsTiling (suc (length file)) file t 0 (first_row_offset file) h
              (omega arith)),
      )
]
