-- ===== src/Queue/RetryFailed.antt =====
-- The retry of a queue's failed jobs (`retryFailed` of src/shared/queue/event-queue.ts). BullMQ is the
-- parameter: what it lists of the failed set, and what a retry does, on a state of its own that other
-- consumers change too. Either may throw, also by the bound on an operation's time.
pub mod Seen
pub mod Terminates
mod Tests
use promotion_management_api.Base.{
  ℕ, zero, suc, Bool, true, false, not, Option, none, some, List, [], ◌∷◌, ◌++◌, if◌then◌else◌, any,
}
use promotion_management_api.Base.Texts.{Text, text_eq}
use promotion_management_api.Base.Result.{Result, ok, err, ◌>>=◌}

-- `seen.has`
abbrev pub has : List Text → Text → Bool
has seen id = any (text_eq id) seen

-- `seen.add`
abbrev pub add : Text → List Text → List Text
add id seen = if has seen id then seen else id ∷ seen

-- The ids of a page that were not seen; a job may have none.
unfoldable pub fresh_of : List Text → List (Option Text) → List Text
fresh_of seen [] = []
fresh_of seen (none ∷ failed) = fresh_of seen failed
fresh_of seen (some id ∷ failed) =
    if has seen id then fresh_of seen failed else id ∷ fresh_of seen failed

-- What the loop keeps, with the calls of `retry` in order.
pub record Retried {ℓ} (S : Type ℓ) : Type ℓ where
  pub seen : List Text
  pub retried : List Text
  pub state : S

-- How a number of rounds ends: the function returned, or the rounds were not enough.
pub record Rounds {ℓ} (S : Type ℓ) : Type ℓ where
  pub after : Retried S
  pub is_finished : Bool

module _ {ℓ} {S : Type ℓ} (get_failed : S → Result Text (List (Option Text) × S))
    (retry : Text → S → Result Text S) where
  -- The inner loop.
  unfoldable pub retry_each : List Text → Retried S → Result Text (Retried S)
  retry_each [] r = ok r
  retry_each (id ∷ ids) r = do
    next ← retry id r.state
    retry_each ids (record { seen = add id r.seen; retried = r.retried ++ id ∷ []; state = next })

  abbrev pub retry_page :
      (Retried S → Result Text (Rounds S)) → Retried S → List Text → Result Text (Rounds S)
  retry_page go_on r [] = ok (record { after = r; is_finished = true })
  retry_page go_on r (id ∷ ids) = do next ← retry_each (id ∷ ids) r; go_on next

  -- The outer loop, at most `rounds` pages of it.
  unfoldable pub retry_rounds : (rounds : ℕ) → Retried S → Result Text (Rounds S)
  retry_rounds zero r = ok (record { after = r; is_finished = false })
  retry_rounds (suc rounds) r = do
    (failed, state) ← get_failed r.state
    retry_page (retry_rounds rounds) (record { seen = r.seen; retried = r.retried; state = state })
        (fresh_of r.seen failed)

  -- `retryFailed`; the number that it answers is the size of `seen`.
  unfoldable pub retry_failed : (rounds : ℕ) → S → Result Text (Rounds S)
  retry_failed rounds state =
      retry_rounds rounds (record { seen = []; retried = []; state = state })
