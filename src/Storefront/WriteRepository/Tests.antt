-- ===== src/Storefront/WriteRepository/Tests.antt =====
-- A bulk write of which one call is replied to by an error.
use promotion_management_api.Base.{ℕ, ◌+◌, ◌≡◌, refl, List, [], ◌∷◌, if◌then◌else◌, ◌==◌}
use promotion_management_api.Base.Texts.{Text, codes}
use promotion_management_api.Base.Result.{Result, ok, err}
use promotion_management_api.Storefront.WriteRepository.{run_all, replies_of, applied_all}
use promotion_management_api.Storefront.WriteRepository.Replies.{IsApplied, applied_all-IsApplied}

-- The model counts the calls.
abbrev fails_at_two : ℕ → ℕ → ℕ × Result Text ℕ
fails_at_two call calls = (calls + 1, if call == 2 then err (codes "down") else ok call)

abbrev three_calls : List ℕ
three_calls = 1 ∷ 2 ∷ 3 ∷ []

second-thrown : applied_all fails_at_two three_calls 0 ≡ (3, err (codes "down"))
unfolding applied_all run_all replies_of
second-thrown = refl

applied_all-IsApplied_example :
    IsApplied fails_at_two 1000 three_calls 0 (applied_all fails_at_two three_calls 0)
applied_all-IsApplied_example = applied_all-IsApplied fails_at_two three_calls 0
