-- ===== src/Promotion/Announcer/JobIds.antt =====
-- The delayed jobs that a cancellation removes (`jobId` and its uses in
-- src/modules/promotion/domain/promotion-scheduler.ts).
use mathlib.Core.Path.{subst}
use promotion_management_api.Base.{
  ℕ, ◌≡◌, ◌↔◌, refl, sym, ap, ◌∙◌, ◌⊎◌, inl, inr, Bool, true, false, List, [], ◌∷◌, ◌++◌, arith,
  leb, Bool-cases, All, all,
}
use promotion_management_api.Base.Texts.{Text}
use promotion_management_api.Base.Digits.{
  to_text, number, number-to_text, is_digit, is_digits, is_digits-to_text,
}
use promotion_management_api.Promotion.View.{PromotionView}
use promotion_management_api.Promotion.Announcer.{
  PromotionBoundary, activate, expire, QueueCall, publish, publish_later, remove, boundary_name,
  job_id, schedule, cancel, is_active, announce, announce_cancellation,
}

-- Digits before a colon are told apart by the text.
before_colon :
    (s t s' t' : Text)
    → all is_digit s ≡ true
    → all is_digit t ≡ true
    → s ++ b':' ∷ s' ≡ t ++ b':' ∷ t'
    → (s ≡ t) × (s' ≡ t')
before_colon [] [] s' t' h k e = (refl, cc)
before_colon [] (d ∷ t) s' t' h k e = absurd (ground arith)
before_colon (c ∷ s) [] s' t' h k e = absurd (ground arith)
before_colon (c ∷ s) (d ∷ t) s' t' h k e =
    let (p, q) = before_colon s t s' t' (ground arith) (ground arith) cc in
    let same : c ≡ d = cc in (rw (same, p) refl, q)

all_of_is_digits : (s : Text) → is_digits s ≡ true → all is_digit s ≡ true
all_of_is_digits [] h = refl
all_of_is_digits (c ∷ s) h = h

same_boundary : (b c : PromotionBoundary) → boundary_name b ≡ boundary_name c → b ≡ c
unfolding boundary_name
same_boundary activate activate h = refl
same_boundary activate expire h = absurd (ground arith)
same_boundary expire activate h = absurd (ground arith)
same_boundary expire expire h = refl

six_codes :
    {a b c d e f : ℕ} {s t : Text} → a ∷ b ∷ c ∷ d ∷ e ∷ f ∷ s ≡ a ∷ b ∷ c ∷ d ∷ e ∷ f ∷ t → s ≡ t
six_codes h = cc

-- A job's id tells its promotion and its boundary.
job_id_injective : (p q : ℕ) (b c : PromotionBoundary) → job_id p b ≡ job_id q c → (p ≡ q) × (b ≡ c)
unfolding job_id
job_id_injective p q b c h =
    let (ids, names) =
      before_colon (to_text p) (to_text q) (boundary_name b) (boundary_name c)
        (all_of_is_digits (to_text p) (is_digits-to_text p))
        (all_of_is_digits (to_text q) (is_digits-to_text q)) (six_codes h) in
    (sym (number-to_text p) ∙ ap number ids ∙ number-to_text q, same_boundary b c names)

abbrev pub delayed_ids : List QueueCall → List Text
delayed_ids [] = []
delayed_ids (publish_later promotion_id id delay ∷ calls) = id ∷ delayed_ids calls
delayed_ids (publish promotion_id ∷ calls) = delayed_ids calls
delayed_ids (remove id ∷ calls) = delayed_ids calls

abbrev pub removed_ids : List QueueCall → List Text
removed_ids [] = []
removed_ids (remove id ∷ calls) = id ∷ removed_ids calls
removed_ids (publish promotion_id ∷ calls) = removed_ids calls
removed_ids (publish_later promotion_id id delay ∷ calls) = removed_ids calls

abbrev pub Among : Text → List Text → Type 0
Among s [] = ⊥
Among s (t ∷ ts) = (s ≡ t) ⊎ Among s ts

-- A property of both of a promotion's job ids holds of every id that its announcement delays.
announced_ids :
    (P : Text → Type 0) (promotion : PromotionView) (now : ℕ)
    → P (job_id promotion.id activate)
    → P (job_id promotion.id expire)
    → All P (delayed_ids (announce promotion now))
unfolding announce schedule
announced_ids P promotion now a e = elim (Bool-cases (is_active promotion.status)) [
  | inl on ↦ rw on (elim (Bool-cases (leb promotion.starts_at now)) [
    | inl r ↦ rw r (e, tt)
    | inr r ↦ rw r (e, (a, tt))
  ])
  | inr off ↦ rw off tt
]

removed-cancelled :
    (settles : QueueCall → Bool) (id : ℕ)
    → settles (publish id) ≡ true
    → removed_ids (announce_cancellation settles id) ≡ job_id id activate ∷ job_id id expire ∷ []
unfolding announce_cancellation cancel
removed-cancelled settles id h = rw h refl

removed-kept :
    (settles : QueueCall → Bool) (id : ℕ)
    → settles (publish id) ≡ false
    → removed_ids (announce_cancellation settles id) ≡ []
unfolding announce_cancellation
removed-kept settles id h = rw h refl

-- A job of a boundary is removed exactly if the cancellation is published and of its promotion.
cancels_job :
    (settles : QueueCall → Bool) (promotion_id id : ℕ) (boundary : PromotionBoundary)
    → (job_id promotion_id boundary ≡ job_id id activate)
      ⊎ (job_id promotion_id boundary ≡ job_id id expire)
      ⊎ ⊥
    → promotion_id ≡ id
cancels_job settles promotion_id id boundary (inl e) = (job_id_injective _ _ _ _ e).0
cancels_job settles promotion_id id boundary (inr (inl e)) = (job_id_injective _ _ _ _ e).0
cancels_job settles promotion_id id boundary (inr (inr e)) = absurd e

own_job :
    (id : ℕ) (boundary : PromotionBoundary)
    → Among (job_id id boundary) (job_id id activate ∷ job_id id expire ∷ [])
own_job id activate = inl refl
own_job id expire = inr (inl refl)

abbrev IsRemovedByOwn : (QueueCall → Bool) → ℕ → ℕ → Text → Type 0
IsRemovedByOwn settles promotion_id id job =
    Among job (removed_ids (announce_cancellation settles id))
    ↔ ((settles (publish id) ≡ true) × (promotion_id ≡ id))

removed_iff :
    (settles : QueueCall → Bool) (promotion_id id : ℕ) (boundary : PromotionBoundary)
    → IsRemovedByOwn settles promotion_id id (job_id promotion_id boundary)
removed_iff settles promotion_id id boundary = elim (Bool-cases (settles (publish id))) [
  | inl on ↦ rw (removed-cancelled settles id on) (
    λ among. (on, cancels_job settles promotion_id id boundary among),
    λ (_, same).
        subst (λ p. Among (job_id p boundary) (job_id id activate ∷ job_id id expire ∷ []))
          (sym same) (own_job id boundary),
  )
  | inr off ↦ rw (removed-kept settles id off) (λ among. absurd among, λ (on, _). absurd cc)
]

-- Each job that the announcement of a promotion delays is removed by a cancellation if and only if
-- the publication of that cancellation settled and the cancellation is of the same promotion: one
-- that could not be published, and one of another promotion, leave the job in the queue.
pub announce_cancellation-job_ids :
    (settles : QueueCall → Bool) (promotion : PromotionView) (now id : ℕ)
    → All
        (λ (job : Text).
          Among job (removed_ids (announce_cancellation settles id))
          ↔ ((settles (publish id) ≡ true) × (promotion.id ≡ id)))
        (delayed_ids (announce promotion now))
announce_cancellation-job_ids settles promotion now id =
    announced_ids (IsRemovedByOwn settles promotion.id id) promotion now
      (removed_iff settles promotion.id id activate) (removed_iff settles promotion.id id expire)
