-- ===== src/Promotion/Commands.antt =====
-- The commands of the admin API (src/modules/promotion/commands): a write, its refusal as an HTTP
-- error, and the announcement of a write that went through.
use promotion_management_api.Base.{ℕ, Bool, List, [], if◌then◌else◌}
use promotion_management_api.Base.Texts.{Text, codes}
use promotion_management_api.Promotion.View.{PromotionView}
use promotion_management_api.Promotion.Table.{Promotions, Violation}
use promotion_management_api.Promotion.Repository.{
  CreatePromotion, AssignPromotion, RefusedReason, overlap, not_assignable, not_found,
  no_such_product, WriteOutcome, written, refused, thrown, insert, assign, CancelOutcome,
  cancelled_now, cancel,
}
use promotion_management_api.Promotion.Announcer.{QueueCall, announce, announce_cancellation}

-- An error of `http-errors`.
pub record HttpError : Type 0 where
  pub status : ℕ
  pub message : Text

-- `promotionWriteError`
unfoldable pub promotion_write_error : RefusedReason → HttpError
promotion_write_error no_such_product = record { status = 404; message = codes "No such product" }
promotion_write_error not_found = record { status = 404; message = codes "No such promotion" }
promotion_write_error not_assignable = record {
  status = 409;
  message = codes "Only a draft whose window has not passed can be assigned a target";
}
promotion_write_error overlap = record {
  status = 409;
  message = codes "An active promotion already covers that target for this window";
}

-- What a command answers: the promotion, or what it throws.
pub data Answer : Type 0 where
  shown : (promotion : PromotionView) → Answer
  http_error : (error : HttpError) → Answer
  failed : (violation : Violation) → Answer

-- The table that a command leaves, its calls on the queue, and its answer.
pub record Executed : Type 0 where
  pub table : Promotions
  pub calls : List QueueCall
  pub answer : Answer

after_write : Promotions × WriteOutcome → Executed
after_write (table, written promotion now) = record {
  table = table;
  calls = announce promotion now;
  answer = shown promotion;
}
after_write (table, refused reason) = record {
  table = table;
  calls = [];
  answer = http_error (promotion_write_error reason);
}
after_write (table, thrown violation) = record {
  table = table;
  calls = [];
  answer = failed violation;
}

-- `CreatePromotionCommand.execute`
unfoldable pub create_promotion : (ℕ → Bool) → CreatePromotion → (now : ℕ) → Promotions → Executed
unfolding after_write
create_promotion exists input now table = after_write (insert exists input now table)

-- `AssignPromotionCommand.execute`
unfoldable pub assign_promotion :
    (ℕ → Bool) → (id : ℕ) → AssignPromotion → (now : ℕ) → Promotions → Executed
unfolding after_write
assign_promotion exists id target now table = after_write (assign exists id target now table)

after_cancel : (QueueCall → Bool) → ℕ → Promotions × CancelOutcome → Executed
after_cancel settles id (table, cancelled_now promotion changed) = record {
  table = table;
  calls = if changed then announce_cancellation settles id else [];
  answer = shown promotion;
}
after_cancel settles id (table, CancelOutcome.not_found) = record {
  table = table;
  calls = [];
  answer = http_error (promotion_write_error not_found);
}

-- `CancelPromotionCommand.execute`
unfoldable pub cancel_promotion : (QueueCall → Bool) → (id now : ℕ) → Promotions → Executed
unfolding after_cancel
cancel_promotion settles id now table = after_cancel settles id (cancel id now table)
