-- ===== src/Storefront/Rebuild/Category.antt =====
-- The rebuild of one category: what PostgreSQL says is in it, and what Redis still lists.
use promotion_management_api.Base.{
  ℕ, ◌<◌, ◌≡◌, ◌≢◌, ◌↔◌, ◌⊎◌, refl, ap, inl, inr, true, not, List, ◌++◌, ◌+◌, length-append, arith,
  ltb, Bool-cases, filterb, length,
}
use promotion_management_api.Base.Texts.{Text}
use promotion_management_api.Base.Rows.{In, Pairs, In-filterb}
use promotion_management_api.Base.Members.{
  In-append_left, In-append_right, In-append_cases, In-filterb_cases, In-sort_by, Pairs-imp,
  Pairs-filterb, Pairs-append, is_one_of_iff,
}
use promotion_management_api.Base.Keyset.{concat, sort_by-IsAscending}
use promotion_management_api.Base.Result.{Result, ok, err, ◌>>=◌}
use promotion_management_api.Storefront.ProductSource.{Source, ids_of, is_one_of, ids_in_category}
use promotion_management_api.Storefront.Rebuild.{
  Walked, recompute_all, slices, left_of, rebuild_category,
}
use promotion_management_api.Storefront.Rebuild.Coverage.{
  IsNumbered, in_category, filterb-IsNumbered, ids_distinct, calls_of, category_ids,
  recompute_pages-ids_in_category, slices-concat,
}

module _ {M : Type 0} (recompute : List ℕ → M → Result Text M) (listed : Text → M → List ℕ)
    (source : Source) (category : Text) (model : M) where
  -- The calls of a rebuild, with the model between its two passes.
  pub record Rebuilds (w : Walked M) : Type 0 where
    pub between : M
    pub first : List (List ℕ)
    pub rest : List (List ℕ)
    pub passed : recompute_all recompute first model ≡ ok between
    pub finished : recompute_all recompute rest between ≡ ok w.model
    pub named : concat first ++ concat rest ≡ w.handled
    pub counted : w.seen ≡ length w.handled
    pub once : Pairs (λ (x y : ℕ). x ≢ y) w.handled
    pub covers :
        (id : ℕ)
        → In id w.handled ↔ (
            In id (ids_of (in_category category source.products)) ⊎ In id (listed category between))

  -- The ids of the first pass, and those that it left.
  together :
      (front others : List ℕ) (id : ℕ)
      → In id (front ++ filterb (λ i. not (is_one_of front i)) others)
        ↔ (In id front ⊎ In id others)
  together front others id = (
    λ m. elim (In-append_cases front _ m) [
      | inl n ↦ inl n
      | inr n ↦ inr (In-filterb_cases _ others n).0
    ],
    λ m. elim m [
      | inl n ↦ In-append_left front _ n
      | inr n ↦ elim (Bool-cases (is_one_of front id)) [
        | inl e ↦ In-append_left front _ ((is_one_of_iff front id).0 e)
        | inr e ↦
            In-append_right front _ (In-filterb (λ i. not (is_one_of front i)) others n (rw e refl))
      ]
    ],
  )

  together_distinct :
      (front others : List ℕ)
      → Pairs (λ (x y : ℕ). x ≢ y) front
      → Pairs (λ (x y : ℕ). x ≢ y) others
      → Pairs (λ (x y : ℕ). x ≢ y) (front ++ filterb (λ i. not (is_one_of front i)) others)
  together_distinct front others d e =
      Pairs-append _ front _ d (Pairs-filterb _ _ others e) (λ x y m n same.
        let fresh : not (is_one_of front y) ≡ true = (In-filterb_cases _ others n).1 in
        let old : is_one_of front y ≡ true = (is_one_of_iff front y).1 (rw (← same) m) in cc)

  after_first : List ℕ → M → Walked M
  after_first ids next = record { model = next; handled = ids; seen = length ids }

  -- The second pass, from what the first one handled.
  second_pass : Walked M → Result Text (Walked M)
  second_pass w =
      let left = left_of w.handled (listed category w.model) in
      recompute_all recompute (slices (length left) left) w.model >>= λ next.
      ok (record { model = next; handled = w.handled ++ left; seen = w.seen + length left })

  first_ok :
      (ids : List ℕ) (first : Result Text M) {w : Walked M}
      → ((first >>= λ next. ok (after_first ids next)) >>= second_pass) ≡ ok w
      → (next : M) × (first ≡ ok next) × (second_pass (after_first ids next) ≡ ok w)
  first_ok ids (err fault) h = cc
  first_ok ids (ok next) h = (next, refl, h)

  last_ok :
      (start : Walked M) (left : List ℕ) (last : Result Text M) {w : Walked M}
      → (last >>= λ next. ok (record {
        model = next;
        handled = start.handled ++ left;
        seen = start.seen + length left;
      }))
        ≡ ok w
      → (last ≡ ok w.model)
        × (w.handled ≡ start.handled ++ left)
        × (w.seen ≡ start.seen + length left)
  last_ok start left (err fault) h = cc
  last_ok start left (ok next) h = (ground arith, ground arith, ground arith)

  -- Where a sorted set lists each member once, a rebuild of a category that does not throw recomputes
  -- each product that PostgreSQL has in it and each that the set still lists after the first pass,
  -- those and no others, each of them once; and it answers their number.
  pub rebuild_category-Rebuilds :
      IsNumbered source.products
      → ((m : M) → Pairs (λ (x y : ℕ). x ≢ y) (listed category m))
      → {w : Walked M} → rebuild_category recompute listed source category model ≡ ok w
      → Rebuilds w
  unfolding rebuild_category second_pass after_first left_of
  rebuild_category-Rebuilds numbered members {w} h =
      let (whole, walk) =
        recompute_pages-ids_in_category recompute source numbered model category in
      let calls =
        calls_of recompute source numbered model (λ after. ids_in_category category after source) in
      let ids = category_ids recompute source numbered model category in
      let (between, passed, later) =
        first_ok ids (recompute_all recompute calls model) {w = w} (rw walk at h) in
      let left = left_of ids (listed category between) in
      let (finished, handled, seen) =
        last_ok (after_first ids between) left
          (recompute_all recompute (slices (length left) left) between) later in
      let distinct =
        Pairs-imp {R = ◌<◌} {S = λ (x y : ℕ). x ≢ y} ids (λ x y below same. omega arith)
          (sort_by-IsAscending (ids_of (in_category category source.products)) (
            ids_distinct (in_category category source.products)
              (filterb-IsNumbered _ source.products numbered).distinct)) in
      record {
        between = between;
        first = calls;
        rest = slices (length left) left;
        passed = passed;
        finished = finished;
        named = rw (whole, slices-concat (length left) left (omega arith), handled) refl;
        counted = omega (arith, seen, ap length handled, length-append ids left);
        once =
            rw handled (together_distinct ids (listed category between) distinct (members between));
        covers = λ id.
            let (forth, back) = together ids (listed category between) id in
            let (out, into) =
              In-sort_by ltb {x = id} (ids_of (in_category category source.products)) in
            rw handled (
              λ m. elim (forth m) [ inl n ↦ inl (out n) | inr n ↦ inr n ],
              λ m. back (elim m [ inl n ↦ inl (into n) | inr n ↦ inr n ]),
            );
      }
