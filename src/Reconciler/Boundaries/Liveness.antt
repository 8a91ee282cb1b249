-- ===== src/Reconciler/Boundaries/Liveness.antt =====
-- Enough sweeps reach every boundary (src/modules/reconciler/commands/sweep-boundaries-command.ts).
use promotion_management_api.Base.{
  ℕ, ◌+◌, ◌*◌, ◌≤◌, ◌≡◌, refl, inl, inr, true, Option, some, List, [], ◌∷◌, ◌++◌, arith, length,
  All,
}
use promotion_management_api.Base.Rows.{In}
use promotion_management_api.Base.Members.{In-append_left, In-append_right}
use promotion_management_api.Base.Result.{ok}
use promotion_management_api.Promotion.Table.{Promotion}
use promotion_management_api.Reconciler.Boundaries.{
  commit_lag_ms, max_window_ms, is_crossed, Publish,
}
use promotion_management_api.Reconciler.Boundaries.Windows.{crossed_split, not_crossed}
use promotion_management_api.Reconciler.Boundaries.Coverage.{
  Run, sweeps, announced, execute-Step, sweeps-Swept, announced-append,
}

-- A run that meets the row, at a clock that is past the instant and the lag, and whose calls are taken.
pub record Meets (r : Promotion) (instant : ℕ) (run : Run) : Type 0 where
  pub meets : In r run.table.rows
  pub late : (instant + commit_lag_ms) * 1000 ≤ run.now
  pub taken : (call : Publish) → run.accepts call ≡ true

-- The runs end, and one of their calls names the promotion.
pub record Reaches (r : Promotion) (runs : List Run) (mark : ℕ) : Type 0 where
  pub published : List Publish
  pub last : Option ℕ
  pub ran : sweeps runs (some mark) ≡ ok (published, last)
  pub announces : In r.id (announced published)

-- A boundary between the mark and an instant is announced after as many sweeps as there are hours
-- between them, if the promotion's row is there, the clock past the instant and its lag, and every
-- call taken.
pub sweeps-Reaches :
    (r : Promotion) (instant : ℕ) (runs : List Run) (mark : ℕ)
    → All (Meets r instant) runs
    → instant ≤ mark + max_window_ms * length runs
    → is_crossed mark instant r ≡ true
    → Reaches r runs mark
unfolding sweeps
sweeps-Reaches r instant [] mark met near crossed =
    cc (crossed, not_crossed mark instant r (omega arith))
sweeps-Reaches r instant (run ∷ runs) mark (met, rest) near crossed =
    let s = execute-Step run mark in
    elim (crossed_split mark s.next instant r crossed) [
      | inl d ↦
          let t = sweeps-Swept runs s.next in
          record {
            published = s.sweep.published ++ t.published;
            last = some t.last;
            ran = rw (s.ran, s.marked, t.ran) refl;
            announces =
                rw (announced-append s.sweep.published t.published)
                  (In-append_left _ _ (s.announces r met.meets d));
          }
      | inr d ↦
          let t =
            sweeps-Reaches r instant runs s.next rest
              (elim (s.reaches met.taken instant met.late) [
                | inl e ↦ omega arith
                | inr e ↦ omega arith
              ])
              d in
          record {
            published = s.sweep.published ++ t.published;
            last = t.last;
            ran = rw (s.ran, s.marked, t.ran) refl;
            announces =
                rw (announced-append s.sweep.published t.published)
                  (In-append_right (announced s.sweep.published) _ t.announces);
          }
    ]
