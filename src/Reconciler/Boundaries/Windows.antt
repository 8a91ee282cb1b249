-- ===== src/Reconciler/Boundaries/Windows.antt =====
-- One window of the boundary sweep: where it ends, what falls into two windows that meet, and the
-- calls that a run makes for it (src/modules/reconciler/db/boundary-repository.ts).
use promotion_management_api.Base.{
  ℕ, ◌+◌, ◌*◌, ◌≤◌, ◌<◌, ◌≡◌, ◌⊎◌, inl, inr, refl, Bool, true, false, not, ◌||◌, Option, none, some,
  List, [], ◌∷◌, arith, ltb, leb, ◌==◌, filterb, Bool-cases,
}
use promotion_management_api.Base.Rows.{In, here, later, In-filterb}
use promotion_management_api.Base.Members.{In-map, In-sort_by}
use promotion_management_api.Promotion.Table.{Promotion, is_draft}
use promotion_management_api.Reconciler.Boundaries.{
  commit_lag_ms, max_window_ms, window_end_of, is_within, is_within?, is_crossed, distinct_ids,
  crossed_ids, Publish, publish_all,
}

pub window_end_reaches :
    (now since instant : ℕ)
    → (instant + commit_lag_ms) * 1000 ≤ now
    → (instant ≤ window_end_of now since) ⊎ (window_end_of now since ≡ since + max_window_ms)
unfolding window_end_of
window_end_reaches now since instant h = elim (Bool-cases (leb instant (since + max_window_ms))) [
  | inl near ↦ let d : instant ≤ since + max_window_ms = ground arith in inl (omega arith)
  | inr far ↦ let d : since + max_window_ms < instant = ground arith in inr (omega arith)
]

within_split :
    (a b c instant : ℕ)
    → is_within a c instant ≡ true
    → (is_within a b instant ≡ true) ⊎ (is_within b c instant ≡ true)
within_split a b c instant h = elim (Bool-cases (leb instant (b * 1000))) [
  | inl e ↦ inl (ground arith)
  | inr e ↦ inr (ground arith)
]

within_split? :
    (a b c : ℕ) (instant : Option ℕ)
    → is_within? a c instant ≡ true
    → (is_within? a b instant ≡ true) ⊎ (is_within? b c instant ≡ true)
within_split? a b c none h = cc
within_split? a b c (some instant) h = within_split a b c instant h

or_cases : (a b : Bool) → (a || b) ≡ true → (a ≡ true) ⊎ (b ≡ true)
or_cases true b h = inl refl
or_cases false b h = inr h

or_split :
    (a b : Bool) {a1 a2 b1 b2 : Bool}
    → (a ≡ true → (a1 ≡ true) ⊎ (a2 ≡ true))
    → (b ≡ true → (b1 ≡ true) ⊎ (b2 ≡ true))
    → (a || b) ≡ true
    → ((a1 || b1) ≡ true) ⊎ ((a2 || b2) ≡ true)
or_split a b f g h = elim (or_cases a b h) [
  | inl p ↦ elim (f p) [ inl q ↦ inl (ground arith) | inr q ↦ inr (ground arith) ]
  | inr p ↦ elim (g p) [ inl q ↦ inl (ground arith) | inr q ↦ inr (ground arith) ]
]

-- A boundary within two windows that meet is within one of them.
pub crossed_split :
    (a b c : ℕ) (r : Promotion)
    → is_crossed a c r ≡ true
    → (is_crossed a b r ≡ true) ⊎ (is_crossed b c r ≡ true)
unfolding is_crossed
crossed_split a b c r h = elim (Bool-cases (is_draft r.status)) [
  | inl e ↦ cc (rw e at h)
  | inr e ↦ rw e (
      or_split _ _
        (or_split _ _ (or_split _ _ (within_split a b c r.starts_at) (within_split a b c r.ends_at))
          (within_split? a b c r.cancelled_at))
        (within_split a b c r.created_at) (rw e at h))
]

not_within : (a b instant : ℕ) → b ≤ a → is_within a b instant ≡ false
not_within a b instant h = ground arith

not_within? : (a b : ℕ) (instant : Option ℕ) → b ≤ a → is_within? a b instant ≡ false
not_within? a b none h = refl
not_within? a b (some instant) h = not_within a b instant h

-- A window that ends where it starts, or before, has no boundary.
pub not_crossed : (a b : ℕ) (r : Promotion) → b ≤ a → is_crossed a b r ≡ false
unfolding is_crossed
not_crossed a b r h = elim (Bool-cases (is_draft r.status)) [
  | inl e ↦ rw e refl
  | inr e ↦
      rw
        (
          e,
          not_within a b r.starts_at h,
          not_within a b r.ends_at h,
          not_within? a b r.cancelled_at h,
          not_within a b r.created_at h,
        )
        refl
]

In-distinct_ids : {id : ℕ} (ids : List ℕ) → In id ids → In id (distinct_ids ids)
unfolding distinct_ids
In-distinct_ids [] m = elim m [ ]
In-distinct_ids (i ∷ ids) (here e) = here e
In-distinct_ids {id} (i ∷ ids) (later m) = elim (Bool-cases (id == i)) [
  | inl e ↦ here (ground arith)
  | inr e ↦
      later (In-filterb (λ k. not (k == i)) (distinct_ids ids) (In-distinct_ids ids m) (rw e refl))
]

pub In-crossed_ids :
    (since window_end : ℕ) (rows : List Promotion) {r : Promotion}
    → In r rows
    → is_crossed since window_end r ≡ true
    → In r.id (crossed_ids since window_end rows)
unfolding crossed_ids
In-crossed_ids since window_end rows m h = In-distinct_ids _ (
    In-map (λ (row : Promotion). row.id) _
      ((In-sort_by (λ (a b : Promotion). ltb a.id b.id)
          (filterb (is_crossed since window_end) rows)).1
        (In-filterb (is_crossed since window_end) rows m h)))

pub publish_all_cases :
    (accepts : Publish → Bool) (calls : List Publish)
    → ((publish_all accepts calls).1 ≡ false) ⊎ (publish_all accepts calls ≡ (calls, true))
unfolding publish_all
publish_all_cases accepts [] = inr refl
publish_all_cases accepts (call ∷ calls) = elim (Bool-cases (accepts call)) [
  | inl e ↦
      rw e (elim (publish_all_cases accepts calls) [ inl h ↦ inl h | inr h ↦ inr (rw h refl) ])
  | inr e ↦ rw e (inl refl)
]

pub publish_all-accepted :
    (accepts : Publish → Bool) (calls : List Publish)
    → ((call : Publish) → accepts call ≡ true)
    → publish_all accepts calls ≡ (calls, true)
unfolding publish_all
publish_all-accepted accepts [] h = refl
publish_all-accepted accepts (call ∷ calls) h =
    rw (h call, publish_all-accepted accepts calls h) refl
