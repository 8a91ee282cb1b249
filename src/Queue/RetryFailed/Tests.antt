-- ===== src/Queue/RetryFailed/Tests.antt =====
-- The retry at a queue whose consumer rejects everything: what is retried has failed again.
use mathlib.Core.Path.{subst}
use promotion_management_api.Base.{
  ℕ, ◌≡◌, ◌≢◌, ◌+◌, refl, ap, some, none, Option, List, [], ◌∷◌, arith, All,
}
use promotion_management_api.Base.Texts.{Text, codes}
use promotion_management_api.Base.Rows.{In, here, later, Pairs}
use promotion_management_api.Base.Result.{Result, ok, ok-injective}
use promotion_management_api.Queue.RetryFailed.{retry_failed}
use promotion_management_api.Queue.RetryFailed.Seen.{named}
use promotion_management_api.Queue.RetryFailed.Terminates.{IsQueue, Ends, retry_failed-Ends}

abbrev jobs : List Text
jobs = codes "7" ∷ codes "promo:4:expire" ∷ []

abbrev page : List (Option Text)
page = none ∷ some (codes "7") ∷ some (codes "promo:4:expire") ∷ []

-- The state is how often a job was retried.
abbrev get_failed : ℕ → Result Text (List (Option Text) × ℕ)
get_failed retries = ok (page, retries)

abbrev retry : Text → ℕ → Result Text ℕ
retry id retries = ok (retries + 1)

of_page :
    (P : List (Option Text) → Type 0) (state : ℕ) {failed : List (Option Text)} {next : ℕ}
    → P page
    → get_failed state ≡ ok (failed, next)
    → P failed
of_page P state p e = subst P (ap (λ (r : List (Option Text) × ℕ). r.0) (ok-injective e)) p

failing-IsQueue : IsQueue get_failed retry jobs
failing-IsQueue = record {
  known = λ state e.
      of_page (λ failed. All (λ id. In id jobs) (named failed)) state
        (here refl, (later (here refl), tt)) e;
  distinct = λ state e.
      of_page (λ failed. Pairs (λ (x y : Text). x ≢ y) (named failed)) state
        (((λ same. cc), tt), (tt, tt)) e;
}

retry_failed-Ends_example : Ends get_failed retry jobs (retry_failed get_failed retry 3 0)
retry_failed-Ends_example =
    retry_failed-Ends get_failed retry jobs failing-IsQueue 3 0 (omega arith)
