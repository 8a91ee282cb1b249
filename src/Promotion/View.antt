-- ===== src/Promotion/View.antt =====
-- A promotion as the admin API returns it, with its stored status and its state of the moment
-- (src/modules/promotion/domain/dto).
use promotion_management_api.Base.{ℕ, Option}
use promotion_management_api.Base.Texts.{Text}

-- `PromotionStatus`
pub data PromotionStatus : Type 0 where
  draft active cancelled : PromotionStatus

-- `PromotionState`
pub data PromotionState : Type 0 where
  in_draft scheduled live expired called_off : PromotionState

-- `DiscountType`
pub data DiscountType : Type 0 where
  percentage fixed : DiscountType

-- `PromotionView`; a `Date` is a number of milliseconds.
pub record PromotionView : Type 0 where
  pub id : ℕ
  pub name : Text
  pub discount_type : DiscountType
  pub value : ℕ
  pub starts_at : ℕ
  pub ends_at : ℕ
  pub product_id : Option ℕ
  pub category : Option Text
  pub status : PromotionStatus
  pub state : PromotionState
