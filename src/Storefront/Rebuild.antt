-- ===== src/Storefront/Rebuild.antt =====
-- The rebuild of the read model (src/modules/storefront/commands/rebuild-read-model-command.ts), with
-- the handler that serves it (src/modules/storefront/events/readmodel-rebuild-handler.ts).
pub mod Walk
pub mod Coverage
pub mod Category
mod Tests
use promotion_management_api.Base.{
  ℕ, zero, suc, ◌+◌, Bool, true, false, not, Option, none, some, List, [], ◌∷◌, ◌++◌, map,
  if◌then◌else◌, ◌==◌, filterb, length, take, drop,
}
use promotion_management_api.Base.Texts.{Text}
use promotion_management_api.Base.Digits.{number}
use promotion_management_api.Base.Keyset.{last}
use promotion_management_api.Base.Result.{Result, ok, err, ◌>>=◌}
use promotion_management_api.Storefront.ProductSource.{
  Source, is_one_of, ids_after, ids_in_category, present_ids, page_size,
}

-- Redis as the rebuild sees it: the model and the key `readmodel:ready`.
pub record Published {ℓ} (M : Type ℓ) : Type ℓ where
  pub model : M
  pub is_ready : Bool

-- The model, the ids that were handled, and `seen`.
pub record Walked {ℓ} (M : Type ℓ) : Type ℓ where
  pub model : M
  pub handled : List ℕ
  pub seen : ℕ

-- `pages`: slices of the ids, at most `rounds` of them.
unfoldable pub slices : (rounds : ℕ) → List ℕ → List (List ℕ)
slices zero ids = []
slices (suc rounds) [] = []
slices (suc rounds) (x ∷ xs) = take page_size (x ∷ xs) ∷ slices rounds (drop page_size (x ∷ xs))

-- The listed ids that the source pass did not handle.
unfoldable pub left_of : (handled listed : List ℕ) → List ℕ
left_of handled listed = filterb (λ id. not (is_one_of handled id)) listed

after_colon : Text → Text
after_colon [] = []
after_colon (c ∷ key) = if c == b':' then key else after_colon key

-- `Number(key.slice(key.indexOf(':') + 1))`
unfoldable pub id_of_key : Text → ℕ
unfolding after_colon
id_of_key key = number (after_colon key)

-- The keys of a reply that have no product behind them.
orphans_of : Source → List Text → List ℕ
orphans_of source keys =
    let ids = map id_of_key keys in
    let present = present_ids ids source in filterb (λ id. not (is_one_of present id)) ids

-- `recompute.handle` on the model, which may throw.
module _ {ℓ} {M : Type ℓ} (recompute : List ℕ → M → Result Text M) where
  abbrev pub walk_page :
      (Walked M → (after : ℕ) → Result Text (Walked M)) → Walked M → List ℕ → Result Text (Walked M)
  walk_page go_on w [] = ok w
  walk_page go_on w (x ∷ xs) = do
    next ← recompute (x ∷ xs) w.model
    go_on (record { model = next; handled = w.handled ++ x ∷ xs; seen = w.seen + length (x ∷ xs) })
        (last x xs)

  -- The loop of `recomputePages`, at most `rounds` pages of it.
  unfoldable pub walk_pages :
      (rounds : ℕ) → (ℕ → List ℕ) → Walked M → (after : ℕ) → Result Text (Walked M)
  walk_pages zero page w after = ok w
  walk_pages (suc rounds) page w after = walk_page (walk_pages rounds page) w (page after)

  -- `recomputePages`; each page but the last has a product, so there are no more than these.
  unfoldable pub recompute_pages : Source → (ℕ → List ℕ) → M → Result Text (Walked M)
  recompute_pages source page model =
      walk_pages (suc (length source.products)) page
        (record { model = model; handled = []; seen = 0 }) 0

  unfoldable pub recompute_all : List (List ℕ) → M → Result Text M
  recompute_all [] model = ok model
  recompute_all (ids ∷ rest) model = do next ← recompute ids model; recompute_all rest next

  -- `zrange` of a category's sorted set.
  module _ (listed : Text → M → List ℕ) (source : Source) where
    -- `rebuildCategory`, with the ids that it recomputed.
    unfoldable pub rebuild_category : Text → M → Result Text (Walked M)
    rebuild_category category model = do
      w ← recompute_pages source (λ after. ids_in_category category after source) model
      let left = left_of w.handled (listed category w.model)
      next ← recompute_all (slices (length left) left) w.model
      ok (record { model = next; handled = w.handled ++ left; seen = w.seen + length left })

    abbrev pub recompute_orphans :
        (M → ℕ → Result Text (M × ℕ)) → M → (dropped : ℕ) → List ℕ → Result Text (M × ℕ)
    recompute_orphans go_on model dropped [] = go_on model dropped
    recompute_orphans go_on model dropped (x ∷ xs) = do
      next ← recompute (x ∷ xs) model
      go_on next (dropped + length (x ∷ xs))

    -- `dropOrphans`, over the replies that `SCAN` gives until its cursor is '0' again.
    unfoldable pub drop_orphans : List (List Text) → M → (dropped : ℕ) → Result Text (M × ℕ)
    unfolding orphans_of
    drop_orphans [] model dropped = ok (model, dropped)
    drop_orphans (keys ∷ replies) model dropped =
        recompute_orphans (drop_orphans replies) model dropped (orphans_of source keys)

    -- `rebuildAll`: the key is set last. The replies of `SCAN` are those on the model that it meets.
    unfoldable pub rebuild_all : (M → List (List Text)) → Published M → Result Text (Published M)
    rebuild_all scan redis = do
      w ← recompute_pages source (λ after. ids_after after source) redis.model
      (model, dropped) ← drop_orphans (scan w.model) w.model 0
      ok (record { model = model; is_ready = true })

    -- `rebuildUnlessReady`, with its answer.
    unfoldable pub rebuild_unless_ready :
        (M → List (List Text)) → Published M → Result Text (Published M × Bool)
    rebuild_unless_ready scan redis =
        let rebuilt : Result Text (Published M × Bool) = do
          next ← rebuild_all scan redis
          ok (next, true)
        in if redis.is_ready then ok (redis, false) else rebuilt

    -- `ReadModelRebuildHandler.handle`
    unfoldable pub handle_rebuild :
        (M → List (List Text)) → Option Text → Published M → Result Text (Published M)
    handle_rebuild scan none redis = rebuild_all scan redis
    handle_rebuild scan (some category) redis = do
      w ← rebuild_category category redis.model
      ok (record { model = w.model; is_ready = redis.is_ready })
