-- ===== src/Promotion/Repository/Reachable.antt =====
-- The tables that the statements can lead to, in any order and at any instants.
use promotion_management_api.Base.{
  ℕ, ◌≡◌, ◌≢◌, refl, sym, ◌∙◌, inl, inr, Bool, true, false, some, [], arith, Option-cases, any,
  filterb,
}
use promotion_management_api.Base.Rows.{
  update, first_match, In, In-All, any-In, In-filterb, In-unique, first_match-some,
}
use promotion_management_api.Promotion.Table.{
  Promotion, Promotions, passes_checks, conflicts, violation,
}
use promotion_management_api.Promotion.Repository.{
  CreatePromotion, insert, AssignPromotion, assigned, is_assignable, is_other, assign,
  is_cancellable, with_cancellation, cancel,
}
use promotion_management_api.Promotion.Repository.Soundness.{
  IsConstrained, violation-checks, insert-IsConstrained, update-IsConstrained,
}

cancelled-conflicts :
    (now : ℕ) (r s : Promotion)
    → conflicts r s ≡ false
    → (conflicts (with_cancellation now r) s ≡ false)
      × (conflicts (with_cancellation now r) (with_cancellation now s) ≡ false)
unfolding conflicts with_cancellation
cancelled-conflicts now r s h = (ground arith, ground arith)

cancelled-checks :
    (now : ℕ) (r : Promotion)
    → passes_checks r ≡ true
    → passes_checks (with_cancellation now r) ≡ true
unfolding passes_checks with_cancellation
cancelled-checks now r h = ground arith

cancel-IsConstrained :
    (id now : ℕ) (table : Promotions) → IsConstrained table → IsConstrained (cancel id now table).0
unfolding cancel with_cancellation
cancel-IsConstrained id now table sound =
    elim (Option-cases (first_match (is_cancellable id) table.rows)) [
      | inl e ↦ rw e sound
      | inr (row, e) ↦ rw e (
          update-IsConstrained table sound (is_cancellable id) (with_cancellation now) (λ r. refl)
            (λ r i m. cancelled-checks now r (In-All _ table.rows sound.checked i))
            (λ r s i j differ clear m.
              let (left, both) = cancelled-conflicts now r s clear in (λ n. left, λ n. both)))
    ]

-- What an assignment has checked of the row that it found holds of each row that it changes.
module _ (id now : ℕ) (target : AssignPromotion) (table : Promotions) (sound : IsConstrained table)
    (row : Promotion) (found : first_match (is_assignable id now) table.rows ≡ some row)
    (passes : passes_checks (assigned target row) ≡ true)
    (free : any (conflicts (assigned target row)) (filterb (is_other id) table.rows) ≡ false) where
  of_id : (r : Promotion) → is_assignable id now r ≡ true → r.id ≡ id
  of_id r m = ground arith

  same_row : (r : Promotion) → In r table.rows → is_assignable id now r ≡ true → r ≡ row
  same_row r i m =
      let (j, n) = first_match-some (is_assignable id now) table.rows found in
      In-unique (λ (p : Promotion). p.id) table.rows sound.distinct i j
        (of_id r m ∙ sym (of_id row n))

  is_other_of : (s : Promotion) → s.id ≢ id → is_other id s ≡ true
  is_other_of s differ = ground arith

  pub update-assigned :
      IsConstrained
        (record table { rows = update (is_assignable id now) (assigned target) table.rows })
  unfolding assigned
  update-assigned =
      update-IsConstrained table sound (is_assignable id now) (assigned target) (λ r. refl)
        (λ r i m. rw (same_row r i m) passes)
        (λ r s i j differ clear m. (
          λ n. rw (same_row r i m) (
              any-In (conflicts (assigned target row)) (filterb (is_other id) table.rows) free (
                In-filterb (is_other id) table.rows j
                  (is_other_of s (λ e. differ (of_id r m ∙ sym e))))),
          λ n. absurd (differ (of_id r m ∙ sym (of_id s n))),
        ))

assign-IsConstrained :
    (exists : ℕ → Bool) (id : ℕ) (target : AssignPromotion) (now : ℕ) (table : Promotions)
    → IsConstrained table
    → IsConstrained (assign exists id target now table).0
unfolding assign
assign-IsConstrained exists id target now table sound =
    elim (Option-cases (first_match (is_assignable id now) table.rows)) [
      | inl e ↦ rw e sound
      | inr (row, e) ↦
          rw e
            (elim (Option-cases
              (violation exists (assigned target row) (filterb (is_other id) table.rows))) [
                | inl v ↦
                    let (passes, free) =
                      violation-checks exists (assigned target row)
                        (filterb (is_other id) table.rows) v in
                    rw v (update-assigned id now target table sound row e passes free)
                | inr (fault, v) ↦ rw v sound
              ])
    ]

-- The statements that write, in any order.
pub data Reachable : Promotions → Type 0 where
  empty : Reachable (record { rows = []; next_id = 1 })
  inserts :
      {table : Promotions} (exists : ℕ → Bool) (input : CreatePromotion) (now : ℕ)
      → Reachable table
      → Reachable (insert exists input now table).0
  assigns :
      {table : Promotions} (exists : ℕ → Bool) (id : ℕ) (target : AssignPromotion) (now : ℕ)
      → Reachable table
      → Reachable (assign exists id target now table).0
  cancels : {table : Promotions} (id now : ℕ) → Reachable table → Reachable (cancel id now table).0

pub Reachable-IsConstrained : {table : Promotions} → Reachable table → IsConstrained table
Reachable-IsConstrained empty = record { checked = tt; numbered = tt; distinct = tt; apart = tt }
Reachable-IsConstrained (inserts exists input now r) =
    insert-IsConstrained exists input now _ (Reachable-IsConstrained r)
Reachable-IsConstrained (assigns exists id target now r) =
    assign-IsConstrained exists id target now _ (Reachable-IsConstrained r)
Reachable-IsConstrained (cancels id now r) =
    cancel-IsConstrained id now _ (Reachable-IsConstrained r)
