-- ===== src/Base/Keyset/Walk.antt =====
-- The walk over the pages of distinct ids meets each id above the start once, in order, and ends.
use mathlib.Core.Path.{subst}
use promotion_management_api.Base.{
  ℕ, zero, suc, ◌<◌, ◌≡◌, ◌≢◌, refl, sym, ap, ◌∙◌, inl, inr, Bool, List, [], ◌∷◌, ◌++◌, arith, ltb,
  Bool-cases, All, filterb, take, drop, length, take-append-drop, length-drop,
}
use promotion_management_api.Base.Rows.{Pairs}
use promotion_management_api.Base.Sort.{sort_by, length-sort_by}
use promotion_management_api.Base.Keyset.{
  ids_page, last, visit, pages, concat, IsAscending, sort_by-IsAscending, filterb-sort_by, All-last,
  filterb_last, filterb-filterb,
}

-- A query that gives, after each id, the front of what is left of some ascending ids.
module _ (size : ℕ) (page : ℕ → List ℕ) (ids : List ℕ) (ascending : IsAscending ids)
    (pages_of : (after : ℕ) → page after ≡ take (suc size) (filterb (ltb after) ids)) where
  abbrev pub above : ℕ → List ℕ
  above after = filterb (ltb after) ids

  IsAscending-filterb : (p : ℕ → Bool) (xs : List ℕ) → IsAscending xs → IsAscending (filterb p xs)
  IsAscending-filterb p [] a = tt
  IsAscending-filterb p (x ∷ xs) (h, a) = elim (Bool-cases (p x)) [
    | inl e ↦ rw e (below xs h, IsAscending-filterb p xs a)
    | inr e ↦ rw e (IsAscending-filterb p xs a)
  ]
    where
      below : (ys : List ℕ) → All (λ y. x < y) ys → All (λ y. x < y) (filterb p ys)
      below [] h = tt
      below (y ∷ ys) (q, h) = elim (Bool-cases (p y)) [
        | inl e ↦ rw e (q, below ys h)
        | inr e ↦ rw e (below ys h)
      ]

  All-above : (after : ℕ) (xs : List ℕ) → All (λ x. after < x) (filterb (ltb after) xs)
  All-above after [] = tt
  All-above after (x ∷ xs) = elim (Bool-cases (ltb after x)) [
    | inl e ↦ rw e (ground arith, All-above after xs)
    | inr e ↦ rw e (All-above after xs)
  ]

  -- What is left after a page.
  above_last :
      (after x : ℕ) (xs : List ℕ)
      → above after ≡ x ∷ xs
      → above (last x (take size xs)) ≡ drop size xs
  above_last after x xs e =
      let split : x ∷ xs ≡ x ∷ take size xs ++ drop size xs =
        ap (◌∷◌ x) (sym (take-append-drop size xs)) in
      let up : IsAscending (x ∷ take size xs ++ drop size xs) =
        subst IsAscending (e ∙ split) (IsAscending-filterb (ltb after) ids ascending) in
      let above_all : All (λ y. after < y) (x ∷ take size xs ++ drop size xs) =
        subst (All (λ y. after < y)) (e ∙ split) (All-above after ids) in
      let past : after < last x (take size xs) =
        All-last x (take size xs) (drop size xs) (λ y. after < y) above_all.0 above_all.1 in
      sym (filterb-filterb after (last x (take size xs)) ids (omega arith))
      ∙ ap (filterb (ltb (last x (take size xs)))) (e ∙ split)
      ∙ filterb_last x (take size xs) (drop size xs) up

  visit-above :
      (rounds after : ℕ) (xs : List ℕ)
      → above after ≡ xs
      → ((next : ℕ) → length (above next) < rounds → concat (pages rounds page next) ≡ above next)
      → length xs < suc rounds
      → concat (visit (pages rounds page) (take (suc size) xs)) ≡ xs
  visit-above rounds after [] e go_on h = refl
  visit-above rounds after (x ∷ xs) e go_on h =
      let left = above_last after x xs e in
      ap (◌∷◌ x) (
        ap (◌++◌ (take size xs))
          (go_on (last x (take size xs)) (rw left (omega (arith, length-drop size xs))) ∙ left)
        ∙ take-append-drop size xs)

  -- With a round more than there are ids left, the pages together are those ids.
  pub pages-above :
      (rounds after : ℕ)
      → length (above after) < rounds
      → concat (pages rounds page after) ≡ above after
  unfolding pages
  pages-above zero after h = absurd (omega arith)
  pages-above (suc rounds) after h =
      rw (pages_of after)
        (visit-above rounds after (above after) refl (λ next k. pages-above rounds next k) h)

-- The walk over the pages of a table's ids, of which no two are equal.
pub pages-ids_page :
    (size : ℕ) (ids : List ℕ)
    → Pairs (λ x y. x ≢ y) ids
    → (rounds after : ℕ) → length (filterb (ltb after) ids) < rounds
    → concat (pages rounds (ids_page (suc size) ids) after) ≡ sort_by ltb (filterb (ltb after) ids)
unfolding ids_page
pages-ids_page size ids distinct rounds after h =
    pages-above size (ids_page (suc size) ids) (sort_by ltb ids) (sort_by-IsAscending ids distinct)
      (λ from. ap (take (suc size)) (filterb-sort_by (ltb from) ids)) rounds after
      (subst (λ (n : ℕ). n < rounds)
        (sym (length-sort_by ltb (filterb (ltb after) ids))
          ∙ ap length (filterb-sort_by (ltb after) ids))
        h)
    ∙ sym (filterb-sort_by (ltb after) ids)
