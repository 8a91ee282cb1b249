-- ===== src/Promotion/Table.antt =====
-- The promotions table and its constraints (src/modules/promotion/db/schema/promotions.ts and the
-- exclusion constraints of src/shared/db/migrations). Instants in the table are microseconds.
use promotion_management_api.Base.{
  ℕ, ◌/◌, Bool, true, false, not, ◌&&◌, ◌||◌, Option, none, some, List, if◌then◌else◌, ltb, leb,
  ◌==◌, any,
}
use promotion_management_api.Base.Texts.{Text, text_eq}
use promotion_management_api.Promotion.View.{
  PromotionStatus, draft, active, cancelled, PromotionState, in_draft, scheduled, live, expired,
  called_off, DiscountType, percentage, fixed, PromotionView,
}

-- A row of `promotions`.
pub record Promotion : Type 0 where
  pub id : ℕ
  pub name : Text
  pub discount_type : DiscountType
  pub value : ℕ
  pub starts_at : ℕ
  pub ends_at : ℕ
  pub product_id : Option ℕ
  pub category : Option Text
  pub status : PromotionStatus
  pub created_at : ℕ
  pub cancelled_at : Option ℕ

pub record Promotions : Type 0 where
  pub rows : List Promotion
  pub next_id : ℕ

abbrev pub is_draft : PromotionStatus → Bool
is_draft draft = true
is_draft _ = false

abbrev pub is_active : PromotionStatus → Bool
is_active active = true
is_active _ = false

abbrev pub is_cancelled : PromotionStatus → Bool
is_cancelled cancelled = true
is_cancelled _ = false

abbrev pub is_null {ℓ} : {A : Type ℓ} → Option A → Bool
is_null none = true
is_null (some a) = false

-- `case ... end`: the order of the arms is the definition.
unfoldable pub state_at : ℕ → Promotion → PromotionState
state_at now row =
    if is_cancelled row.status
    then called_off
    else if is_draft row.status
    then in_draft
    else if ltb now row.starts_at
    then scheduled
    else if leb row.ends_at now
    then expired
    else live

-- `columns`, with the table's instants as dates.
unfoldable pub view_of : ℕ → Promotion → PromotionView
unfolding state_at
view_of now row = record {
  id = row.id;
  name = row.name;
  discount_type = row.discount_type;
  value = row.value;
  starts_at = row.starts_at / 1000;
  ends_at = row.ends_at / 1000;
  product_id = row.product_id;
  category = row.category;
  status = row.status;
  state = state_at now row;
}

abbrev pub is_percentage : DiscountType → Bool
is_percentage percentage = true
is_percentage fixed = false

-- The five checks of the table, and the range of its integer column.
unfoldable pub passes_checks : Promotion → Bool
passes_checks row =
    ltb row.starts_at row.ends_at
    && ltb 0 row.value
    && leb row.value 2147483647
    && (not (is_percentage row.discount_type) || leb row.value 10000)
    && (not (is_active row.status)
        || (is_null row.product_id && not (is_null row.category)
            || not (is_null row.product_id) && is_null row.category))
    && (not (is_draft row.status) || is_null row.product_id && is_null row.category)

abbrev pub same_product : Option ℕ → Option ℕ → Bool
same_product (some a) (some b) = a == b
same_product _ _ = false

abbrev pub same_category : Option Text → Option Text → Bool
same_category (some a) (some b) = text_eq a b
same_category _ _ = false

-- `tstzrange(...) && tstzrange(...)` for ranges that are not empty.
abbrev pub overlaps : Promotion → Promotion → Bool
overlaps a b = ltb a.starts_at b.ends_at && ltb b.starts_at a.ends_at

-- The two exclusion constraints.
unfoldable pub conflicts : Promotion → Promotion → Bool
conflicts a b =
    is_active a.status
    && is_active b.status
    && (same_product a.product_id b.product_id || same_category a.category b.category)
    && overlaps a b

pub data Violation : Type 0 where
  check_violation exclusion_violation foreign_key_violation : Violation

refers_to_nothing : (ℕ → Bool) → Option ℕ → Bool
refers_to_nothing exists none = false
refers_to_nothing exists (some id) = not (exists id)

-- What refuses a row beside the others: the checks before the indexes, the foreign key at the end of
-- the statement.
unfoldable pub violation : (ℕ → Bool) → Promotion → List Promotion → Option Violation
unfolding refers_to_nothing
violation exists row others =
    if not (passes_checks row)
    then some check_violation
    else if any (conflicts row) others
    then some exclusion_violation
    else if refers_to_nothing exists row.product_id
    then some foreign_key_violation
    else none
