-- ===== src/Promotion/Resolver/Laws.antt =====
-- The rule that decides, and what the report of shared priorities is worth.
use mathlib.Core.List.{append_assoc}
use mathlib.Core.List.{append-nil}
use mathlib.Core.Path.{subst}
use promotion_management_api.Base.{
  ◌≡◌, refl, ap, ◌∙◌, sym, true, false, none, some, List, [], ◌∷◌, ◌++◌, arith, All, All-imp,
  All-append, Bool-cases, inl, inr, ◌⊎◌,
}
use promotion_management_api.Base.Int.{ltb_ℤ}
use promotion_management_api.Promotion.Resolver.{PromotionRuleRow, RuleResult, winner_from}

-- A result that is above all before it and at least equal to all after it.
pub record IsWinner (results : List RuleResult) (winner : RuleResult) : Type 0 where
  pub before : List RuleResult
  pub after : List RuleResult
  pub stands : results ≡ before ++ winner ∷ after
  pub above : All (λ r. ltb_ℤ r.priority winner.priority ≡ true) before
  pub unbeaten : All (λ r. ltb_ℤ winner.priority r.priority ≡ false) after

-- A result that beats the best so far beats all before it.
IsWinner-beaten :
    (seen : List RuleResult) (best r : RuleResult)
    → IsWinner seen best
    → ltb_ℤ best.priority r.priority ≡ true
    → IsWinner (seen ++ r ∷ []) r
IsWinner-beaten seen best r w h = record {
  before = seen;
  after = [];
  stands = refl;
  above = subst (All (λ x. ltb_ℤ x.priority r.priority ≡ true)) (sym w.stands) (
      All-append _ w.before (best ∷ w.after) (All-imp w.before (λ x p. ground arith) w.above)
        (h, All-imp w.after (λ x p. ground arith) w.unbeaten));
  unbeaten = tt;
}

IsWinner-kept :
    (seen : List RuleResult) (best r : RuleResult)
    → IsWinner seen best
    → ltb_ℤ best.priority r.priority ≡ false
    → IsWinner (seen ++ r ∷ []) best
IsWinner-kept seen best r w h = record {
  before = w.before;
  after = w.after ++ r ∷ [];
  stands = ap (λ s. s ++ r ∷ []) w.stands ∙ append_assoc w.before (best ∷ w.after) (r ∷ []);
  above = w.above;
  unbeaten = All-append _ w.after (r ∷ []) w.unbeaten (h, tt);
}

winner_from-IsWinner :
    (seen results : List RuleResult) (best : RuleResult)
    → IsWinner seen best
    → (w : RuleResult) × (winner_from (some best) results ≡ some w) × IsWinner (seen ++ results) w
unfolding winner_from
winner_from-IsWinner seen [] best h =
    (best, refl, subst (λ s. IsWinner s best) (sym (append-nil seen)) h)
winner_from-IsWinner seen (r ∷ rs) best h = elim (Bool-cases (ltb_ℤ best.priority r.priority)) [
  | inl e ↦
      let (w, won, is) =
        winner_from-IsWinner (seen ++ r ∷ []) rs r (IsWinner-beaten seen best r h e) in
      (w, rw e won, subst (λ s. IsWinner s w) (append_assoc seen (r ∷ []) rs) is)
  | inr e ↦
      let (w, won, is) =
        winner_from-IsWinner (seen ++ r ∷ []) rs best (IsWinner-kept seen best r h e) in
      (w, rw e won, subst (λ s. IsWinner s w) (append_assoc seen (r ∷ []) rs) is)
]

first_wins : (r : RuleResult) → IsWinner (r ∷ []) r
first_wins r = record { before = []; after = []; stands = refl; above = tt; unbeaten = tt }

-- Of one result or more the one with the highest priority decides, the first of them where several
-- have it; of none, none does.
pub winner_from_lem :
    (results : List RuleResult)
    → ((results ≡ []) × (winner_from none results ≡ none))
      ⊎ ((w : RuleResult) × (winner_from none results ≡ some w) × IsWinner results w)
unfolding winner_from
winner_from_lem [] = inl (refl, refl)
winner_from_lem (r ∷ rs) = inr (winner_from-IsWinner (r ∷ []) rs r (first_wins r))

-- With every priority once, the place of a result in the list does not matter.
abbrev pub IsStrict : List PromotionRuleRow → Type 0
IsStrict [] = Unit
IsStrict (row ∷ rows) = All (λ r. ltb_ℤ r.priority row.priority ≡ true) rows × IsStrict rows
