-- ===== src/Reconciler/Boundaries/Tests.antt =====
-- The theorems on the boundary sweep at runs over one sale.
use promotion_management_api.Base.{true, false, ◌≡◌, refl, none, some, [], ◌∷◌, arith}
use promotion_management_api.Base.Rows.{here}
use promotion_management_api.Base.Texts.{codes}
use promotion_management_api.Promotion.View.{fixed, active}
use promotion_management_api.Promotion.Table.{Promotion, Promotions}
use promotion_management_api.Reconciler.Boundaries.{is_crossed}
use promotion_management_api.Reconciler.Boundaries.Coverage.{Run}
use promotion_management_api.Reconciler.Boundaries.Liveness.{Meets, Reaches, sweeps-Reaches}

-- A sale that starts two hours after the mark.
abbrev sale : Promotion
sale = record {
  id = 4;
  name = codes "Sale";
  discount_type = fixed;
  value = 100;
  starts_at = 7200001000;
  ends_at = 9000000000;
  product_id = some 3;
  category = none;
  status = active;
  created_at = 0;
  cancelled_at = none;
}

abbrev table : Promotions
table = record { rows = sale ∷ []; next_id = 5 }

abbrev run : Run
run = record { accepts = λ call. true; now = 8000000000; table = table }

abbrev refused_run : Run
refused_run = record run { accepts = λ call. false }

sale_crossed : is_crossed 0 7200001 sale ≡ true
unfolding is_crossed
sale_crossed = refl

met : Meets sale 7200001 run
met = record { meets = here refl; late = omega arith; taken = λ call. refl }

sweeps-Reaches_example : Reaches sale (run ∷ run ∷ run ∷ []) 0
sweeps-Reaches_example =
    sweeps-Reaches sale 7200001 (run ∷ run ∷ run ∷ []) 0 (met, (met, (met, tt))) (omega arith)
      sale_crossed
