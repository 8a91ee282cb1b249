-- ===== src/Queue/RetryFailed/Terminates.antt =====
-- The retry of failed jobs ends (`retryFailed` of src/shared/queue/event-queue.ts).
use mathlib.Core.Path.{subst}
use promotion_management_api.Base.{
  ℕ, zero, suc, ◌+◌, ◌≤◌, ◌<◌, ◌≡◌, ◌≢◌, ◌⊎◌, refl, sym, ap, ◌∙◌, inl, inr, Bool, true, false, not,
  Option, List, [], ◌∷◌, ◌++◌, arith, All, All-imp, All-append, filterb, length, length-append,
}
use promotion_management_api.Base.Texts.{Text}
use promotion_management_api.Base.Rows.{In, Pairs, Pairs-snoc, All-of_In, In-All}
use promotion_management_api.Base.Members.{In-filterb_cases, Pairs-filterb}
use promotion_management_api.Base.Result.{Result, ok, err, Result-cases}
use promotion_management_api.Queue.RetryFailed.{
  has, fresh_of, Retried, Rounds, retry_each, retry_page, retry_rounds, retry_failed,
}
use promotion_management_api.Queue.RetryFailed.Seen.{
  unseen, unseen_fewer, named, fresh_of-named, none_unseen, has_more, has_none, has_first,
}

-- No job was retried twice, and each retried job is seen and counted.
pub record IsOnce {S : Type 0} (r : Retried S) : Type 0 where
  pub once : Pairs (λ (x y : Text). x ≢ y) r.retried
  pub recorded : All (λ id. has r.seen id ≡ true) r.retried
  pub counted : length r.seen ≡ length r.retried

module _ {S : Type 0} (get_failed : S → Result Text (List (Option Text) × S))
    (retry : Text → S → Result Text S) (jobs : List Text) where
  -- A page lists jobs of the queue, none of them twice.
  pub record IsQueue : Type 0 where
    pub known :
        (state : S) {failed : List (Option Text)} {next : S}
        → get_failed state ≡ ok (failed, next)
        → All (λ id. In id jobs) (named failed)
    pub distinct :
        (state : S) {failed : List (Option Text)} {next : S}
        → get_failed state ≡ ok (failed, next)
        → Pairs (λ (x y : Text). x ≢ y) (named failed)

  again : Retried S → Text → S → Retried S
  again r id next = record { seen = id ∷ r.seen; retried = r.retried ++ id ∷ []; state = next }

  again-IsOnce :
      (r : Retried S) (id : Text) (next : S)
      → IsOnce r
      → has r.seen id ≡ false
      → IsOnce (again r id next)
  unfolding again
  again-IsOnce r id next o h = record {
    once =
        Pairs-snoc _ r.retried id o.once
          (All-imp r.retried (λ x seen same. cc (seen, h, ap (has r.seen) same)) o.recorded);
    recorded =
        All-append _ r.retried (id ∷ [])
          (All-imp r.retried (λ x seen. has_more id x r.seen seen) o.recorded)
          (has_first id r.seen, tt);
    counted = omega (arith, o.counted, length-append r.retried (id ∷ []));
  }

  retry_each_cases :
      (ids : List Text) (r : Retried S)
      → IsOnce r
      → Pairs (λ (x y : Text). x ≢ y) ids
      → All (λ id. has r.seen id ≡ false) ids
      → All (λ id. In id jobs) ids
      → ((fault : Text) × (retry_each get_failed retry ids r ≡ err fault))
        ⊎ ((next : Retried S) × (retry_each get_failed retry ids r ≡ ok next)
            × IsOnce next
            × (unseen jobs next.seen + length ids ≤ unseen jobs r.seen))
  unfolding retry_each again
  retry_each_cases [] r o d h k = inr (r, refl, o, omega arith)
  retry_each_cases (id ∷ ids) r o (differ, d) (new, h) (m, k) =
      elim (Result-cases (retry id r.state)) [
        | inl (fault, e) ↦ inl (fault, rw e refl)
        | inr (state, e) ↦
            let fewer = unseen_fewer id r.seen jobs m new in
            elim (retry_each_cases ids (again r id state) (again-IsOnce r id state o new) d
              (All-of_In _ ids
                (λ x i. has_none id x r.seen (In-All _ ids differ i) (In-All _ ids h i)))
              k) [
                | inl (fault, f) ↦ inl (fault, rw (e, new) f)
                | inr (next, f, p, less) ↦ inr (next, rw (e, new) f, p, omega (arith, less, fewer))
              ]
      ]

  -- The last page, which names only jobs that were retried.
  pub record Settles (e : Rounds S) : Type 0 where
    pub finished : e.is_finished ≡ true
    pub single : IsOnce e.after
    pub before_last : S
    pub last_page : List (Option Text)
    pub listed : get_failed before_last ≡ ok (last_page, e.after.state)
    pub nothing_left : All (λ id. has e.after.seen id ≡ true) (named last_page)

  -- The function throws what an operation threw, or it returns.
  abbrev pub Ends : Result Text (Rounds S) → Type 0
  Ends result =
      ((fault : Text) × (result ≡ err fault)) ⊎ ((e : Rounds S) × (result ≡ ok e) × Settles e)

  module _ (queue : IsQueue) where
    retry_page-Ends :
        (go_on : Retried S → Result Text (Rounds S)) (r : Retried S) (before : S)
        (failed : List (Option Text)) (ids : List Text)
        → fresh_of r.seen failed ≡ ids
        → IsOnce r
        → get_failed before ≡ ok (failed, r.state)
        → ((next : Retried S)
            → IsOnce next
            → unseen jobs next.seen < unseen jobs r.seen
            → Ends (go_on next))
        → Ends (retry_page get_failed retry go_on r ids)
    retry_page-Ends go_on r before failed [] empty o h f = inr (
      record { after = r; is_finished = true },
      refl,
      record {
        finished = refl;
        single = o;
        before_last = before;
        last_page = failed;
        listed = h;
        nothing_left =
            none_unseen r.seen (named failed) (sym (fresh_of-named r.seen failed) ∙ empty);
      },
    )
    retry_page-Ends go_on r before failed (id ∷ ids) fresh o h f =
        let split : filterb (λ i. not (has r.seen i)) (named failed) ≡ id ∷ ids =
          sym (fresh_of-named r.seen failed) ∙ fresh in
        let new : All (λ i. has r.seen i ≡ false) (id ∷ ids) = All-of_In _ (id ∷ ids) (λ x i.
          not_true (In-filterb_cases (λ i. not (has r.seen i)) (named failed) (rw split i)).1) in
        let known : All (λ i. In i jobs) (id ∷ ids) = All-of_In _ (id ∷ ids) (λ x i.
          In-All _ (named failed) (queue.known before h)
            (In-filterb_cases (λ i. not (has r.seen i)) (named failed) (rw split i)).0) in
        let distinct =
          subst (Pairs (λ (x y : Text). x ≢ y)) split
            (Pairs-filterb _ (λ i. not (has r.seen i)) (named failed) (queue.distinct before h)) in
        elim (retry_each_cases (id ∷ ids) r o distinct new known) [
          | inl (fault, e) ↦ inl (fault, rw e refl)
          | inr (next, e, p, less) ↦ rw e (f next p (omega (arith, less)))
        ]
      where
        not_true : {a : Bool} → not a ≡ true → a ≡ false
        not_true h = ground arith

    retry_rounds-Ends :
        (rounds : ℕ) (r : Retried S)
        → IsOnce r
        → unseen jobs r.seen < rounds
        → Ends (retry_rounds get_failed retry rounds r)
    unfolding retry_rounds
    retry_rounds-Ends zero r o h = absurd (omega arith)
    retry_rounds-Ends (suc rounds) r o h = elim (Result-cases (get_failed r.state)) [
      | inl (fault, e) ↦ inl (fault, rw e refl)
      | inr ((failed, state), e) ↦ rw e (
          retry_page-Ends (retry_rounds get_failed retry rounds)
            (record { seen = r.seen; retried = r.retried; state = state }) r.state failed _ refl
            (record { once = o.once; recorded = o.recorded; counted = o.counted }) e
            (λ next p less. retry_rounds-Ends rounds next p (omega (arith, less, h))))
    ]

    -- On a queue whose pages list jobs of a finite number, none of them twice on a page, the retry
    -- ends within a round more than there are jobs, whatever is retried fails again: it throws what an
    -- operation threw, or it returns with no job retried twice, the number of the retried jobs, and a
    -- last page that lists no other job.
    pub retry_failed-Ends :
        (rounds : ℕ) (state : S)
        → length jobs < rounds
        → Ends (retry_failed get_failed retry rounds state)
    unfolding retry_failed
    retry_failed-Ends rounds state h =
        retry_rounds-Ends rounds (record { seen = []; retried = []; state = state })
          (record { once = tt; recorded = tt; counted = refl }) (omega (arith, unseen_all jobs, h))
      where
        unseen_all : (ids : List Text) → unseen ids [] ≡ length ids
        unseen_all [] = refl
        unseen_all (id ∷ ids) = ap suc (unseen_all ids)
