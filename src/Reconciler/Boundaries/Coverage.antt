-- ===== src/Reconciler/Boundaries/Coverage.antt =====
-- Sweep after sweep, no boundary falls between two windows
-- (src/modules/reconciler/commands/sweep-boundaries-command.ts).
use promotion_management_api.Base.{
  ℕ, ◌+◌, ◌*◌, ◌≤◌, ◌≡◌, ◌⊎◌, inl, inr, refl, ap, Bool, true, Option, none, some, List, [], ◌∷◌,
  ◌++◌, map, arith, leb, length, All, Bool-cases, eq_refl,
}
use promotion_management_api.Base.Texts.{Text}
use promotion_management_api.Base.Rows.{In}
use promotion_management_api.Base.Members.{In-append_left, In-append_right}
use promotion_management_api.Base.Result.{Result, ok, ◌>>=◌}
use promotion_management_api.Promotion.Table.{Promotion, Promotions}
use promotion_management_api.Reconciler.Boundaries.{
  commit_lag_ms, max_window_ms, window_end_of, is_crossed, crossed_ids, Publish, Sweep, publish_of,
  publish_all, advance, crossed_since, execute,
}
use promotion_management_api.Reconciler.Boundaries.Windows.{
  window_end_reaches, crossed_split, not_crossed, In-crossed_ids, publish_all_cases,
  publish_all-accepted,
}

-- A run of the sweep: which calls the queue takes, the database's clock, and the table it meets.
pub record Run : Type 0 where
  pub accepts : Publish → Bool
  pub now : ℕ
  pub table : Promotions

-- One run after the other, with all their calls; no other sweep moves the mark.
unfoldable pub sweeps : List Run → Option ℕ → Result Text (List Publish × Option ℕ)
sweeps [] mark = ok ([], mark)
sweeps (run ∷ runs) mark = do
  sweep ← execute run.accepts (λ m. m) run.now run.table mark
  (published, last) ← sweeps runs sweep.mark
  ok (sweep.published ++ published, last)

abbrev pub announced : List Publish → List ℕ
announced = map (λ (call : Publish). call.promotion_id)

-- What one run does to a mark: it moves it forward, or not at all, and announces every promotion with
-- a boundary that the mark has passed.
pub record Step (run : Run) (mark : ℕ) : Type 0 where
  pub sweep : Sweep
  pub next : ℕ
  pub ran : execute run.accepts (λ m. m) run.now run.table (some mark) ≡ ok sweep
  pub marked : sweep.mark ≡ some next
  pub forward : mark ≤ next
  pub announces :
      (r : Promotion)
      → In r run.table.rows
      → is_crossed mark next r ≡ true
      → In r.id (announced sweep.published)
  pub reaches :
      ((call : Publish) → run.accepts call ≡ true)
      → (instant : ℕ) → (instant + commit_lag_ms) * 1000 ≤ run.now
      → (instant ≤ next) ⊎ (mark + max_window_ms ≤ next)

announced_all : (since : ℕ) (ids : List ℕ) → announced (map (publish_of since) ids) ≡ ids
unfolding publish_of
announced_all since [] = refl
announced_all since (id ∷ ids) = ap (◌∷◌ id) (announced_all since ids)

pub execute-Step : (run : Run) (mark : ℕ) → Step run mark
unfolding execute crossed_since advance publish_all
execute-Step run mark =
    let window_end = window_end_of run.now mark in
    elim (Bool-cases (leb window_end mark)) [
      | inl e ↦ record {
        sweep = record { published = []; mark = some mark; repaired = some 0 };
        next = mark;
        ran = rw (e, publish_all) (rw (eq_refl mark) refl);
        marked = refl;
        forward = omega arith;
        announces = λ r i crossed. cc (crossed, not_crossed mark mark r (omega arith));
        reaches = λ taken instant late. elim (window_end_reaches run.now mark instant late) [
          | inl d ↦ inl (ground arith)
          | inr d ↦ absurd (ground arith)
        ];
      }
      | inr e ↦
          let ids = crossed_ids mark window_end run.table.rows in
          elim (publish_all_cases run.accepts (map (publish_of mark) ids)) [
            | inl h ↦ record {
              sweep = record {
                published = (publish_all run.accepts (map (publish_of mark) ids)).0;
                mark = some mark;
                repaired = none;
              };
              next = mark;
              ran = rw e (rw h refl);
              marked = refl;
              forward = omega arith;
              announces = λ r i crossed. cc (crossed, not_crossed mark mark r (omega arith));
              reaches = λ taken instant late.
                  cc (h, publish_all-accepted run.accepts (map (publish_of mark) ids) taken);
            }
            | inr h ↦ record {
              sweep = record {
                published = map (publish_of mark) ids;
                mark = some window_end;
                repaired = some (length ids);
              };
              next = window_end;
              ran = rw e (rw h (rw (eq_refl mark) refl));
              marked = refl;
              forward = ground arith;
              announces = λ r i crossed.
                  rw (announced_all mark ids)
                    (In-crossed_ids mark window_end run.table.rows i crossed);
              reaches = λ taken instant late. elim (window_end_reaches run.now mark instant late) [
                | inl d ↦ inl d
                | inr d ↦ inr (omega arith)
              ];
            }
          ]
    ]

pub announced-append : (xs ys : List Publish) → announced (xs ++ ys) ≡ announced xs ++ announced ys
announced-append [] ys = refl
announced-append (x ∷ xs) ys = ap (◌∷◌ x.promotion_id) (announced-append xs ys)

-- The sweeps that ran, with all their calls and the mark they left.
pub record Swept (runs : List Run) (mark : ℕ) : Type 0 where
  pub published : List Publish
  pub last : ℕ
  pub ran : sweeps runs (some mark) ≡ ok (published, some last)
  pub forward : mark ≤ last
  pub announces :
      (r : Promotion)
      → All (λ (run : Run). In r run.table.rows) runs
      → is_crossed mark last r ≡ true
      → In r.id (announced published)

pub sweeps-Swept : (runs : List Run) (mark : ℕ) → Swept runs mark
unfolding sweeps
sweeps-Swept [] mark = record {
  published = [];
  last = mark;
  ran = refl;
  forward = omega arith;
  announces = λ r present crossed. cc (crossed, not_crossed mark mark r (omega arith));
}
sweeps-Swept (run ∷ runs) mark =
    let s = execute-Step run mark in
    let t = sweeps-Swept runs s.next in
    record {
      published = s.sweep.published ++ t.published;
      last = t.last;
      ran = rw (s.ran, s.marked, t.ran) refl;
      forward = omega (arith, s.forward, t.forward);
      announces = λ r (there, present) crossed.
          rw (announced-append s.sweep.published t.published)
            (elim (crossed_split mark s.next t.last r crossed) [
              | inl d ↦ In-append_left _ _ (s.announces r there d)
              | inr d ↦ In-append_right (announced s.sweep.published) _ (t.announces r present d)
            ]);
    }
