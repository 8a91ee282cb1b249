-- ===== src/Ingestion/ChunkBoundaries/Search.antt =====
-- The search for a newline by windows finds the first one.
use promotion_management_api.Base.{
  ℕ, zero, suc, ◌+◌, ◌-◌, ◌<◌, ◌≡◌, refl, ap, sym, ◌∙◌, min, [], ◌∷◌, none, some, arith, ◌==◌, leb,
  ltb, if◌then◌else◌, length, take, drop, length-drop, drop-drop, drop-past, inl, inr, Option-cases,
  Bool-cases,
}
use promotion_management_api.Ingestion.ChunkBoundaries.{
  Bytes, newline, read, index_of_newline, next_from, next_newline_after, window_bytes,
}

-- The position past the first newline of a text that begins at `at`, or else its end.
unfoldable pub next_row : ℕ → Bytes → ℕ
next_row at [] = at
next_row at (b ∷ bs) = if b == newline then at + 1 else next_row (at + 1) bs

next_row-found :
    (k at i : ℕ) (bs : Bytes) → index_of_newline (take k bs) ≡ some i → next_row at bs ≡ at + i + 1
unfolding next_row index_of_newline
next_row-found zero at i bs h = cc
next_row-found (suc k) at i [] h = cc
next_row-found (suc k) at i (b ∷ bs) h = elim (Option-cases (index_of_newline (take k bs))) [
  | inl e ↦ ground (arith)
  | inr (j, e) ↦ ground (arith, next_row-found k (at + 1) j bs e)
]

next_row-passed :
    (k at : ℕ) (bs : Bytes)
    → index_of_newline (take k bs) ≡ none
    → next_row at bs ≡ next_row (at + min k (length bs)) (drop k bs)
unfolding next_row index_of_newline
next_row-passed zero at bs h = ap (λ (n : ℕ). next_row n bs) (omega arith)
next_row-passed (suc k) at [] h = omega arith
next_row-passed (suc k) at (b ∷ bs) h =
    let e : at + 1 + min k (length bs) ≡ at + min (suc k) (suc (length bs)) = omega arith in
    ground (arith, next_row-passed k (at + 1) bs, e)

drop-min :
    (step at : ℕ) (file : Bytes)
    → drop (at + min step (length file - at)) file ≡ drop (at + step) file
drop-min step at file = elim (Bool-cases (leb step (length file - at))) [
  | inl fits ↦
      let e : min step (length file - at) ≡ step = ground arith in
      ap (λ (k : ℕ). drop (at + k) file) e
  | inr over ↦
      drop-past (at + min step (length file - at)) file (ground arith)
      ∙ sym (drop-past (at + step) file (ground arith))
]

-- One window without a newline moves the search on by its length.
next_row-window :
    (step at : ℕ) (file : Bytes)
    → at < length file
    → index_of_newline (read file at (min step (length file - at))) ≡ none
    → next_row at (drop at file) ≡ next_row (min (at + step) (length file)) (drop (at + step) file)
next_row-window step at file lt h =
    let k = min step (length file - at) in
    let e : at + min k (length (drop at file)) ≡ min (at + step) (length file) =
      omega (arith, length-drop at file) in
    next_row-passed k at (drop at file) h
    ∙ rw e (
        ap (next_row (min (at + step) (length file))) (drop-drop k at file ∙ drop-min step at file))

next_from-next_row :
    (fuel step : ℕ) (file : Bytes) (at : ℕ)
    → 0 < step
    → length file - at < fuel
    → next_from fuel step file at (length file) ≡ next_row (min at (length file)) (drop at file)
unfolding next_from next_row
next_from-next_row zero step file at s h = elim h [ ]
next_from-next_row (suc fuel) step file at s h =
    let window = index_of_newline (read file at (min step (length file - at))) in
    elim (Bool-cases (ltb at (length file))) [
      | inr done ↦
          let e : min at (length file) ≡ length file = ground arith in
          rw (done, e, drop-past at file (ground arith)) refl
      | inl inside ↦
          let lt : at < length file = ground arith in
          let e : min at (length file) ≡ at = omega arith in
          elim (Option-cases window) [
            | inr (i, found) ↦
                rw (inside, e, found) (sym (next_row-found _ at i (drop at file) found))
            | inl none_here ↦
                rw (inside, e, none_here)
                  (next_from-next_row fuel step file (at + step) s (omega arith)
                    ∙ sym (next_row-window step at file lt none_here))
          ]
    ]

-- `nextNewlineAfter` finds the first newline at or after `from`, whatever the windows.
pub next_newline_after-next_row :
    (file : Bytes) (from : ℕ)
    → next_newline_after file from (length file)
      ≡ next_row (min from (length file)) (drop from file)
unfolding next_newline_after
next_newline_after-next_row file from =
    next_from-next_row (suc (length file)) window_bytes file from (omega arith) (omega arith)
