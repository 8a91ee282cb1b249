-- ===== src/Reconciler/Drift.antt =====
-- The repair of categories whose read model has drifted
-- (src/modules/reconciler/commands/repair-drift-command.ts), the run of the reconciler's three parts
-- (events/reconciler-run-handler.ts) and the dispatch to it (src/events/maintenance-dispatcher.ts).
pub mod Repaired
mod Tests
use promotion_management_api.Base.{
  ℕ, ◌+◌, Bool, true, false, Option, none, some, List, [], ◌∷◌, ◌++◌, if◌then◌else◌, ◌==◌, ltb,
}
use promotion_management_api.Base.Texts.{Text, codes, text_eq}
use promotion_management_api.Base.Result.{Result, ok, err, ◌>>=◌}

-- What the command answers, with the categories that it rebuilt.
pub record Repair {ℓ} (M : Type ℓ) : Type ℓ where
  pub model : M
  pub rebuilt : List Text
  pub repaired : ℕ

module _ {ℓ κ} {M : Type ℓ} {Fault : Type κ} (count : Text → M → Result Fault ℕ)
    (rebuild_category : Text → M → Result Fault (M × ℕ)) where
  abbrev pub with_rebuilt : Text → Repair M → M × ℕ → Repair M
  with_rebuilt category r (next, recomputed) = record {
    model = next;
    rebuilt = r.rebuilt ++ category ∷ [];
    repaired = r.repaired + 1;
  }

  -- The body of the loop, from the count that Redis gives.
  abbrev pub repair_one : Text → (products listed : ℕ) → Repair M → Result Fault (Repair M)
  repair_one category products listed r =
      let rebuilt : Result Fault (Repair M) = do
        next ← rebuild_category category r.model
        ok (with_rebuilt category r next)
      in if listed == products then ok r else rebuilt

  -- The loop over the counts of PostgreSQL.
  unfoldable pub repair_all : List (Text × ℕ) → Repair M → Result Fault (Repair M)
  repair_all [] r = ok r
  repair_all ((category, products) ∷ expected) r = do
    listed ← count category r.model
    next ← repair_one category products listed r
    repair_all expected next

  -- `execute`
  unfoldable pub repair_drift : List (Text × ℕ) → M → Result Fault (Repair M)
  repair_drift expected model =
      repair_all expected (record { model = model; rebuilt = []; repaired = 0 })

-- The three parts of a run, on the state that they share: each changes it and gives a number, or
-- throws and ends the run.
module _ {ℓ κ} {S : Type ℓ} {Fault : Type κ} where
  -- `ReconcilerRunHandler.handle`, with the number of repaired categories that it logs.
  unfoldable pub handle_run :
      (boundaries imports drift : S → Result Fault (S × ℕ)) → S → Result Fault (S × ℕ)
  handle_run boundaries imports drift state = do
    (swept, announced) ← boundaries state
    (requeued, enqueued) ← imports swept
    drift requeued

  -- `MaintenanceDispatcher.handle`
  unfoldable pub dispatch :
      {P : Type ℓ}
      → (unhandled : Text → Fault) → (reconciler : S → Result Fault S)
      → (rebuild : P → S → Result Fault S) → (name : Text) → P
      → S
      → Result Fault S
  dispatch unhandled reconciler rebuild name payload state =
      if text_eq name (codes "reconciler.run")
      then reconciler state
      else if text_eq name (codes "readmodel.rebuild")
      then rebuild payload state
      else err (unhandled name)
