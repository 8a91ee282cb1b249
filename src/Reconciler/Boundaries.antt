-- ===== src/Reconciler/Boundaries.antt =====
-- The sweep over the boundaries that promotions have crossed
-- (src/modules/reconciler/db/boundary-repository.ts and commands/sweep-boundaries-command.ts). The
-- mark is in milliseconds, as its column is; the table's instants are microseconds.
pub mod Windows
pub mod Coverage
pub mod Liveness
mod Tests
use promotion_management_api.Base.{
  ℕ, ◌+◌, ◌-◌, ◌*◌, ◌/◌, min, Bool, true, false, not, ◌&&◌, ◌||◌, Option, none, some, List, [], ◌∷◌,
  ◌++◌, map, if◌then◌else◌, ltb, leb, ◌==◌, filterb, any, length,
}
use promotion_management_api.Base.Texts.{Text, codes}
use promotion_management_api.Base.Digits.{to_text}
use promotion_management_api.Base.Sort.{sort_by}
use promotion_management_api.Base.Result.{Result, ok, err, ◌>>=◌}
use promotion_management_api.Promotion.Table.{Promotion, Promotions, is_draft}

abbrev pub commit_lag_ms : ℕ
commit_lag_ms = 30000

abbrev pub max_window_ms : ℕ
max_window_ms = 3600000

-- `BoundaryWindow`
pub record BoundaryWindow : Type 0 where
  pub since : ℕ
  pub window_end : ℕ
  pub promotion_ids : List ℕ

-- The end of the window as the statement computes it, in microseconds, and as the `Date` of its text.
unfoldable pub window_end_of : (now since : ℕ) → ℕ
window_end_of now since =
    min (now - commit_lag_ms * 1000) (since * 1000 + max_window_ms * 1000) / 1000

-- Half-open at both ends.
abbrev pub is_within : (since window_end instant : ℕ) → Bool
is_within since window_end instant = ltb (since * 1000) instant && leb instant (window_end * 1000)

abbrev pub is_within? : (since window_end : ℕ) → Option ℕ → Bool
is_within? since window_end none = false
is_within? since window_end (some instant) = is_within since window_end instant

unfoldable pub is_crossed : (since window_end : ℕ) → Promotion → Bool
is_crossed since window_end row =
    not (is_draft row.status)
    && (is_within since window_end row.starts_at
        || is_within since window_end row.ends_at
        || is_within? since window_end row.cancelled_at
        || is_within since window_end row.created_at)

-- `[...new Set(ids)]`
unfoldable pub distinct_ids : List ℕ → List ℕ
distinct_ids [] = []
distinct_ids (id ∷ ids) = id ∷ filterb (λ i. not (i == id)) (distinct_ids ids)

unfoldable pub crossed_ids : (since window_end : ℕ) → List Promotion → List ℕ
crossed_ids since window_end rows = distinct_ids (
    map (λ (row : Promotion). row.id)
      (sort_by (λ a b. ltb a.id b.id) (filterb (is_crossed since window_end) rows)))

window_from : (now since : ℕ) → Promotions → BoundaryWindow
window_from now since table =
    let window_end = window_end_of now since in
    if leb window_end since
    then record { since = since; window_end = since; promotion_ids = [] }
    else record {
      since = since;
      window_end = window_end;
      promotion_ids = crossed_ids since window_end table.rows;
    }

-- `crossedSince`, on the mark of the one row of `reconciler_state`.
unfoldable pub crossed_since : (now : ℕ) → Promotions → Option ℕ → Result Text BoundaryWindow
unfolding window_from
crossed_since now table none = err (codes "reconciler_state holds no row")
crossed_since now table (some since) = ok (window_from now since table)

advanced : (from to : ℕ) → Option ℕ → Option ℕ × Bool
advanced from to none = (none, false)
advanced from to (some mark) = if mark == from then (some to, true) else (some mark, false)

-- `advance`
unfoldable pub advance : (from to : ℕ) → Option ℕ → Option ℕ × Bool
unfolding advanced
advance from to mark = advanced from to mark

-- `jobId`
unfoldable pub job_id : (promotion_id since : ℕ) → Text
job_id promotion_id since = codes "sweep:" ++ to_text promotion_id ++ b':' ∷ to_text since

-- A call of `queue.publish('promotion.changed', ...)`.
pub record Publish : Type 0 where
  pub promotion_id : ℕ
  pub job_id : Text

pub record Sweep : Type 0 where
  pub published : List Publish
  pub mark : Option ℕ
  pub repaired : Option ℕ

publish_of : ℕ → ℕ → Publish
publish_of since promotion_id = record {
  promotion_id = promotion_id;
  job_id = job_id promotion_id since;
}

-- The calls up to the first that the queue does not take, and whether it took them all.
unfoldable pub publish_all : (Publish → Bool) → List Publish → List Publish × Bool
publish_all accepts [] = ([], true)
publish_all accepts (call ∷ calls) =
    let rest = publish_all accepts calls in
    if accepts call then (call ∷ rest.0, rest.1) else (call ∷ [], false)

sweep_window : (Publish → Bool) → Option ℕ → BoundaryWindow → Sweep
unfolding publish_of
sweep_window accepts mark window =
    let (published, taken) =
      publish_all accepts (map (publish_of window.since) window.promotion_ids) in
    if taken
    then record {
      published = published;
      mark = (advance window.since window.window_end mark).0;
      repaired = some (length window.promotion_ids);
    }
    else record { published = published; mark = mark; repaired = none }

-- `execute`; nothing is repaired where it throws. A mark that another sweep has moved between the read
-- and `advance` is the argument `moved`.
unfoldable pub execute :
    (Publish → Bool)
    → (moved : Option ℕ → Option ℕ) → (now : ℕ) → Promotions
    → Option ℕ
    → Result Text Sweep
unfolding sweep_window
execute accepts moved now table mark = do
  window ← crossed_since now table mark
  ok (sweep_window accepts (moved mark) window)
