-- ===== src/Storefront/Rebuild/Walk.antt =====
-- The rebuild recomputes each product of the catalogue or of the category once, and ends.
use promotion_management_api.Base.{
  ℕ, zero, suc, ◌+◌, ◌≡◌, refl, sym, ap, ◌∙◌, List, [], ◌∷◌, ◌++◌, arith, length, length-append,
}
use mathlib.Core.List.{append_assoc, append-nil}
use promotion_management_api.Base.Texts.{Text}
use promotion_management_api.Base.Keyset.{last, visit, pages, concat}
use promotion_management_api.Base.Result.{Result, ok, err, ◌>>=◌, >>=-congr}
use promotion_management_api.Storefront.Rebuild.{Walked, walk_page, walk_pages, recompute_all}

module _ {M : Type 0} (recompute : List ℕ → M → Result Text M) where
  -- The walk is its calls, one after the other.
  abbrev pub walked : Walked M → List (List ℕ) → M → Walked M
  walked w calls next = record {
    model = next;
    handled = w.handled ++ concat calls;
    seen = w.seen + length (concat calls);
  }

  abbrev pub after_calls : Walked M → List (List ℕ) → Result Text (Walked M)
  after_calls w calls = recompute_all recompute calls w.model >>= λ next. ok (walked w calls next)

  walked-none : (w : Walked M) → w ≡ walked w [] w.model
  walked-none w =
      let seen : w.seen ≡ w.seen + 0 = omega arith in
      λ i. record { model = w.model; handled = sym (append-nil w.handled) i; seen = seen i }

  after_page : Walked M → List ℕ → M → Walked M
  after_page w page next = record {
    model = next;
    handled = w.handled ++ page;
    seen = w.seen + length page;
  }

  walked-after_page :
      (w : Walked M) (page : List ℕ) (calls : List (List ℕ)) (next last : M)
      → walked (after_page w page next) calls last ≡ walked w (page ∷ calls) last
  unfolding after_page
  walked-after_page w page calls next end =
      let handled : (w.handled ++ page) ++ concat calls ≡ w.handled ++ (page ++ concat calls) =
        append_assoc w.handled page (concat calls) in
      let seen : w.seen + length page + length (concat calls)
          ≡ w.seen + length (page ++ concat calls) =
        omega (arith, length-append page (concat calls)) in
      λ i. record { model = end; handled = handled i; seen = seen i }

  walk_page-after_calls :
      (rounds : ℕ) (page : ℕ → List ℕ) (w : Walked M) (xs : List ℕ)
      → ((next : Walked M) (after : ℕ)
          → walk_pages recompute rounds page next after
            ≡ after_calls next (pages rounds page after))
      → walk_page recompute (walk_pages recompute rounds page) w xs
        ≡ after_calls w (visit (pages rounds page) xs)
  unfolding recompute_all after_page
  walk_page-after_calls rounds page w [] go_on = ap ok (walked-none w)
  walk_page-after_calls rounds page w (x ∷ xs) go_on = called (recompute (x ∷ xs) w.model)
    where
      called :
          (result : Result Text M)
          → (result >>= λ next.
              walk_pages recompute rounds page (after_page w (x ∷ xs) next) (last x xs))
            ≡ ((result >>= λ next. recompute_all recompute (pages rounds page (last x xs)) next)
                >>= λ next. ok (walked w ((x ∷ xs) ∷ pages rounds page (last x xs)) next))
      called (err fault) = refl
      called (ok next) =
          go_on (after_page w (x ∷ xs) next) (last x xs)
          ∙ >>=-congr (recompute_all recompute (pages rounds page (last x xs)) next)
              (λ end. ap ok (walked-after_page w (x ∷ xs) (pages rounds page (last x xs)) next end))

  pub walk_pages-after_calls :
      (rounds : ℕ) (page : ℕ → List ℕ) (w : Walked M) (after : ℕ)
      → walk_pages recompute rounds page w after ≡ after_calls w (pages rounds page after)
  unfolding walk_pages recompute_all pages
  walk_pages-after_calls zero page w after = ap ok (walked-none w)
  walk_pages-after_calls (suc rounds) page w after =
      walk_page-after_calls rounds page w (page after)
        (λ next from. walk_pages-after_calls rounds page next from)
