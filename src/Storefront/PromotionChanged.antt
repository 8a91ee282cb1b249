-- ===== src/Storefront/PromotionChanged.antt =====
-- What a changed promotion announces (src/modules/storefront/events/promotion-changed-handler.ts).
use promotion_management_api.Base.{
  ℕ, zero, suc, Bool, Option, none, some, List, [], ◌∷◌, if◌then◌else◌, length,
}
use promotion_management_api.Base.Texts.{Text}
use promotion_management_api.Base.Keyset.{last}
use promotion_management_api.Promotion.View.{PromotionView}
use promotion_management_api.Promotion.Repository.{find}
use promotion_management_api.Storefront.ProductSource.{Source, ids_in_category}

-- The calls of `queue.publish('product.upserted', ...)`, and how the handler ended.
pub data Ending : Type 0 where
  announced unaddressed thrown : Ending

pub record Announced : Type 0 where
  pub published : List (List ℕ)
  pub ending : Ending

abbrev pub after_publish : List ℕ → Announced → Announced
after_publish ids rest = record { published = ids ∷ rest.published; ending = rest.ending }

-- `accepts` is whether the queue takes a call.
module _ (accepts : List ℕ → Bool) where
  unfoldable pub publish_then : List ℕ → Announced → Announced
  publish_then ids rest =
      if accepts ids
      then after_publish ids rest
      else record { published = ids ∷ []; ending = thrown }

  unfoldable pub announce_page : (ℕ → Announced) → List ℕ → Announced
  unfolding publish_then
  announce_page go_on [] = record { published = []; ending = announced }
  announce_page go_on (x ∷ xs) = publish_then (x ∷ xs) (go_on (last x xs))

  -- The loop of `recomputeCategory`, at most `rounds` pages of it.
  unfoldable pub announce_pages : (rounds : ℕ) → (ℕ → List ℕ) → (after : ℕ) → Announced
  unfolding announce_page
  announce_pages zero page after = record { published = []; ending = announced }
  announce_pages (suc rounds) page after = announce_page (announce_pages rounds page) (page after)

  -- `recomputeCategory`
  unfoldable pub announce_category : Source → Text → Announced
  announce_category source category =
      announce_pages (suc (length source.products)) (λ after. ids_in_category category after source)
        0

  announce_target : Source → Option ℕ → Option Text → Announced
  unfolding publish_then
  announce_target source (some product_id) category =
      publish_then (product_id ∷ []) (record { published = []; ending = announced })
  announce_target source none (some category) = announce_category source category
  announce_target source none none = record { published = []; ending = unaddressed }

  announce_found : Source → Option PromotionView → Announced
  unfolding announce_target
  announce_found source none = record { published = []; ending = unaddressed }
  announce_found source (some promotion) =
      announce_target source promotion.product_id promotion.category

  -- `handle`: the promotion is read again.
  unfoldable pub handle : Source → (promotion_id now : ℕ) → Announced
  unfolding announce_found
  handle source promotion_id now = announce_found source (find promotion_id now source.promotions)
