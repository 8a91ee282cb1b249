-- ===== src/Promotion/Announcer.antt =====
-- What a change of a promotion asks of the queue: the announcements and the delayed jobs of its two
-- boundaries (src/modules/promotion/domain/promotion-scheduler.ts and promotion-announcer.ts).
pub mod JobIds
use promotion_management_api.Base.{
  ℕ, ◌-◌, Bool, true, false, not, List, [], ◌∷◌, ◌++◌, if◌then◌else◌, leb,
}
use promotion_management_api.Base.Texts.{Text, codes}
use promotion_management_api.Base.Digits.{to_text}
use promotion_management_api.Promotion.View.{PromotionStatus, active, PromotionView}

-- `PromotionBoundary`
pub data PromotionBoundary : Type 0 where
  activate expire : PromotionBoundary

-- The calls on the queue, each for `promotion.changed`.
pub data QueueCall : Type 0 where
  publish : (promotion_id : ℕ) → QueueCall
  publish_later : (promotion_id : ℕ) (job_id : Text) (delay : ℕ) → QueueCall
  remove : (job_id : Text) → QueueCall

boundary_name : PromotionBoundary → Text
boundary_name activate = codes "activate"
boundary_name expire = codes "expire"

-- `jobId`
unfoldable pub job_id : ℕ → PromotionBoundary → Text
unfolding boundary_name
job_id promotion_id b = codes "promo:" ++ to_text promotion_id ++ b':' ∷ boundary_name b

-- `schedule`; the subtraction stops at zero, as `Math.max(0, ...)` does.
unfoldable pub schedule : ℕ → PromotionBoundary → (instant now : ℕ) → QueueCall
schedule promotion_id b instant now =
    publish_later promotion_id (job_id promotion_id b) (instant - now)

-- `cancel`
unfoldable pub cancel : ℕ → List QueueCall
cancel promotion_id =
    remove (job_id promotion_id activate) ∷ remove (job_id promotion_id expire) ∷ []

is_active : PromotionStatus → Bool
is_active active = true
is_active _ = false

-- `announce`: every call settles on its own, so the calls do not depend on the queue's answers.
unfoldable pub announce : PromotionView → ℕ → List QueueCall
unfolding is_active
announce promotion now =
    let already_running = leb promotion.starts_at now in
    if is_active promotion.status
    then (if already_running then publish promotion.id ∷ [] else [])
      ++ schedule promotion.id expire promotion.ends_at now
        ∷ (if already_running
            then []
            else schedule promotion.id activate promotion.starts_at now ∷ [])
    else []

-- `announceCancellation`, where `settles` is whether a call succeeds.
unfoldable pub announce_cancellation : (QueueCall → Bool) → ℕ → List QueueCall
announce_cancellation settles promotion_id =
    publish promotion_id ∷ (if settles (publish promotion_id) then cancel promotion_id else [])
