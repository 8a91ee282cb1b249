-- ===== src/Promotion/Repository/Tests.antt =====
-- The theorems on the promotions table at a table that holds a sale and refuses another.
use promotion_management_api.Base.{ℕ, Bool, true, ◌≡◌, refl, none, some, []}
use promotion_management_api.Base.Texts.{codes}
use promotion_management_api.Promotion.View.{fixed}
use promotion_management_api.Promotion.Table.{Promotions, violation, passes_checks, conflicts}
use promotion_management_api.Promotion.Repository.{
  CreatePromotion, refused, overlap, inserted, insert, assign,
}
use promotion_management_api.Promotion.Repository.Reachable.{Reachable}

abbrev all_exist : ℕ → Bool
all_exist id = true

abbrev sale : CreatePromotion
sale = record {
  name = codes "Sale";
  discount_type = fixed;
  value = 100;
  starts_at = 10;
  ends_at = 20;
  product_id = some 3;
  category = none;
}

abbrev later_sale : CreatePromotion
later_sale = record sale { starts_at = 19; ends_at = 30 }

abbrev draft_sale : CreatePromotion
draft_sale = record sale { starts_at = 20; ends_at = 30; product_id = none }

abbrev no_promotions : Promotions
no_promotions = record { rows = []; next_id = 1 }

abbrev on_sale : Promotions
on_sale = (insert all_exist sale 5000 no_promotions).0

-- The second sale of a product is refused while the first is active, whatever the clock.
second_sale-refused : (insert all_exist later_sale 6000 on_sale).1 ≡ refused overlap
unfolding insert inserted violation passes_checks conflicts
second_sale-refused = refl

abbrev written : Promotions
written =
    (assign all_exist 3 (record { product_id = some 3; category = none }) 7000
      (insert all_exist draft_sale 6500 (insert all_exist later_sale 6000 on_sale).0).0).0
