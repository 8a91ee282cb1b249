-- ===== src/Promotion/Repository.antt =====
-- The statements on the promotions table (src/modules/promotion/db/promotion-repository.ts).
pub mod Soundness
pub mod Reachable
mod Tests
use promotion_management_api.Base.{
  ℕ, ◌+◌, ◌*◌, ◌/◌, Bool, true, false, not, ◌&&◌, ◌||◌, Option, none, some, List, [], ◌∷◌, ◌++◌,
  map, if◌then◌else◌, ltb, leb, ◌==◌, filterb, take,
}
use promotion_management_api.Base.Texts.{Text}
use promotion_management_api.Base.Rows.{update, first_match}
use promotion_management_api.Base.Sort.{sort_by}
use promotion_management_api.Promotion.View.{
  PromotionStatus, draft, active, cancelled, DiscountType, PromotionView,
}
use promotion_management_api.Promotion.Table.{
  Promotion, Promotions, is_draft, is_active, is_cancelled, is_null, view_of, same_product,
  same_category, Violation, check_violation, exclusion_violation, foreign_key_violation, violation,
}

-- `CreatePromotion`, its dates in milliseconds.
pub record CreatePromotion : Type 0 where
  pub name : Text
  pub discount_type : DiscountType
  pub value : ℕ
  pub starts_at : ℕ
  pub ends_at : ℕ
  pub product_id : Option ℕ
  pub category : Option Text

-- `AssignPromotion`
pub record AssignPromotion : Type 0 where
  pub product_id : Option ℕ
  pub category : Option Text

pub data RefusedReason : Type 0 where
  overlap not_assignable not_found no_such_product : RefusedReason

-- `PromotionWriteOutcome`, and the errors that are thrown on.
pub data WriteOutcome : Type 0 where
  written : (promotion : PromotionView) (now : ℕ) → WriteOutcome
  refused : (reason : RefusedReason) → WriteOutcome
  thrown : (violation : Violation) → WriteOutcome

-- The `catch` of a write.
refused_by : Violation → WriteOutcome
refused_by foreign_key_violation = refused no_such_product
refused_by exclusion_violation = refused overlap
refused_by check_violation = thrown check_violation

-- The row that an insert stores.
unfoldable pub inserted : CreatePromotion → (id now : ℕ) → Promotion
inserted input id now = record {
  id = id;
  name = input.name;
  discount_type = input.discount_type;
  value = input.value;
  starts_at = input.starts_at * 1000;
  ends_at = input.ends_at * 1000;
  product_id = input.product_id;
  category = input.category;
  status = if not (is_null input.product_id) || not (is_null input.category) then active else draft;
  created_at = now;
  cancelled_at = none;
}

insert_unless : Option Violation → Promotion → ℕ → Promotions → Promotions × WriteOutcome
unfolding refused_by
insert_unless none row now table = (
  record { rows = table.rows ++ row ∷ []; next_id = table.next_id + 1 },
  written (view_of now row) (now / 1000),
)
insert_unless (some fault) row now table =
    (record { rows = table.rows; next_id = table.next_id + 1 }, refused_by fault)

-- `insert`; the identity column's next value is spent also by a row that is refused.
unfoldable pub insert :
    (ℕ → Bool) → CreatePromotion → (now : ℕ) → Promotions → Promotions × WriteOutcome
unfolding insert_unless
insert exists input now table =
    let row = inserted input table.next_id now in
    insert_unless (violation exists row table.rows) row now table

-- `set` of an assignment.
unfoldable pub assigned : AssignPromotion → Promotion → Promotion
assigned target row = record row {
  product_id = target.product_id;
  category = target.category;
  status = active;
}

abbrev pub is_assignable : (id now : ℕ) → Promotion → Bool
is_assignable id now row = row.id == id && is_draft row.status && ltb now row.ends_at

abbrev pub is_other : ℕ → Promotion → Bool
is_other id row = not (row.id == id)

assign_unless :
    Option Violation
    → AssignPromotion
    → (id now : ℕ) → Promotion
    → Promotions
    → Promotions × WriteOutcome
unfolding refused_by
assign_unless none target id now row table = (
  record table { rows = update (is_assignable id now) (assigned target) table.rows },
  written (view_of now (assigned target row)) (now / 1000),
)
assign_unless (some fault) target id now row table = (table, refused_by fault)

not_assigned : Option Promotion → WriteOutcome
not_assigned none = refused not_found
not_assigned (some row) = refused not_assignable

assign_row :
    (ℕ → Bool)
    → AssignPromotion
    → (id now : ℕ) → Option Promotion
    → Promotions
    → Promotions × WriteOutcome
unfolding assign_unless not_assigned
assign_row exists target id now none table =
    (table, not_assigned (first_match (λ row. row.id == id) table.rows))
assign_row exists target id now (some row) table =
    assign_unless (violation exists (assigned target row) (filterb (is_other id) table.rows)) target
      id now row table

-- `assign`
unfoldable pub assign :
    (ℕ → Bool) → (id : ℕ) → AssignPromotion → (now : ℕ) → Promotions → Promotions × WriteOutcome
unfolding assign_row
assign exists id target now table =
    assign_row exists target id now (first_match (is_assignable id now) table.rows) table

-- `CancelPromotionOutcome`
pub data CancelOutcome : Type 0 where
  cancelled_now : (promotion : PromotionView) (changed : Bool) → CancelOutcome
  not_found : CancelOutcome

abbrev pub is_cancellable : ℕ → Promotion → Bool
is_cancellable id row = row.id == id && not (is_cancelled row.status)

unfoldable pub with_cancellation : ℕ → Promotion → Promotion
with_cancellation now row = record row { status = cancelled; cancelled_at = some now }

already : ℕ → Option Promotion → CancelOutcome
already now none = not_found
already now (some row) = cancelled_now (view_of now row) false

cancel_row : (id now : ℕ) → Option Promotion → Promotions → Promotions × CancelOutcome
unfolding already
cancel_row id now none table = (table, already now (first_match (λ row. row.id == id) table.rows))
cancel_row id now (some row) table = (
  record table { rows = update (is_cancellable id) (with_cancellation now) table.rows },
  cancelled_now (view_of now (with_cancellation now row)) true,
)

-- `cancel`
unfoldable pub cancel : (id now : ℕ) → Promotions → Promotions × CancelOutcome
unfolding cancel_row
cancel id now table = cancel_row id now (first_match (is_cancellable id) table.rows) table

viewed : ℕ → Option Promotion → Option PromotionView
viewed now none = none
viewed now (some row) = some (view_of now row)

-- `find`
unfoldable pub find : (id now : ℕ) → Promotions → Option PromotionView
unfolding viewed
find id now table = viewed now (first_match (λ row. row.id == id) table.rows)

-- `ListPromotionsInput`
pub record ListPromotions : Type 0 where
  pub status : Option PromotionStatus
  pub category : Option Text
  pub product_id : Option ℕ
  pub after : Option ℕ
  pub limit : ℕ

same_status : PromotionStatus → PromotionStatus → Bool
same_status draft s = is_draft s
same_status active s = is_active s
same_status cancelled s = is_cancelled s

has_status : Option PromotionStatus → PromotionStatus → Bool
unfolding same_status
has_status none s = true
has_status (some t) s = same_status t s

is_after : Option ℕ → ℕ → Bool
is_after none id = true
is_after (some after) id = ltb after id

-- The conditions of a list but for `after`; a null column equals nothing.
unfoldable pub is_listed : ListPromotions → Promotion → Bool
unfolding has_status
is_listed filters row =
    has_status filters.status row.status
    && (is_null filters.category || same_category row.category filters.category)
    && (is_null filters.product_id || same_product row.product_id filters.product_id)

-- `list`
unfoldable pub list : ListPromotions → (now : ℕ) → Promotions → List PromotionView
unfolding is_after
list filters now table = map (view_of now) (
    take filters.limit (
      sort_by (λ a b. ltb a.id b.id)
        (filterb (λ row. is_listed filters row && is_after filters.after row.id) table.rows)))

-- The view `active_promotions`.
unfoldable pub active_promotions : (now : ℕ) → Promotions → List Promotion
active_promotions now table =
    filterb (λ row. is_active row.status && leb row.starts_at now && ltb now row.ends_at) table.rows
