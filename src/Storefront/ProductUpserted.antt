-- ===== src/Storefront/ProductUpserted.antt =====
-- The recompute of the products that an announcement named
-- (src/modules/storefront/events/product-upserted-handler.ts).
pub mod Batch
pub mod Said
pub mod Settled
mod Tests
use promotion_management_api.Base.{
  ℕ, Bool, not, Option, none, some, List, [], ◌∷◌, ◌++◌, map, if◌then◌else◌, ◌==◌, filterb, any,
}
use promotion_management_api.Base.Texts.{Text}
use promotion_management_api.Base.Result.{Result, ok, err, ◌>>=◌}
use promotion_management_api.Promotion.Resolver.{Engine, PromotionResolver}
use promotion_management_api.Storefront.ProductPricer.{ProductEntry, SourceRow, price}
use promotion_management_api.Storefront.ProductSource.{Source, Clocks, read}
use promotion_management_api.Storefront.WriteRepository.{ReadModel, write_all, remove_all}

-- `new Map(rows.map((row) => [row.id, row]))`, whose values keep the place of their first row.
abbrev pub put_row : SourceRow → List SourceRow → List SourceRow
put_row row [] = row ∷ []
put_row row (r ∷ rows) = if r.id == row.id then row ∷ rows else r ∷ put_row row rows

abbrev pub put_rows : List SourceRow → List SourceRow → List SourceRow
put_rows [] found = found
put_rows (row ∷ rows) found = put_rows rows (put_row row found)

unfoldable pub found_of : List SourceRow → List SourceRow
found_of rows = put_rows rows []

abbrev pub is_found : List SourceRow → ℕ → Bool
is_found found id = any (λ (row : SourceRow). row.id == id) found

-- The ids that the read did not return.
unfoldable pub deleted_of : List ℕ → List SourceRow → List ℕ
deleted_of product_ids found = filterb (λ id. not (is_found found id)) product_ids

module _ (engine : Engine) (resolver : PromotionResolver) where
  -- `Promise.all` of the prices: one that throws refuses them all.
  unfoldable pub price_all : List SourceRow → Result Text (List ProductEntry)
  price_all [] = ok []
  price_all (row ∷ rows) = do
    entry ← price engine resolver row
    entries ← price_all rows
    ok (entry ∷ entries)

-- A write that a stored token refused.
pub record Refusal : Type 0 where
  pub product_id : ℕ
  pub stored_token : Text

refusal_of : ℕ → Option Text → List Refusal
refusal_of id none = []
refusal_of id (some token) = record { product_id = id; stored_token = token } ∷ []

-- What `report` logs.
unfoldable pub report : List ℕ → List (Option Text) → List Refusal
unfolding refusal_of
report (id ∷ ids) (outcome ∷ outcomes) = refusal_of id outcome ++ report ids outcomes
report _ _ = []

abbrev pub entry_ids : List ProductEntry → List ℕ
entry_ids = map (λ (entry : ProductEntry). entry.id)

-- The refusals of the writes and those of the removals; an error that Redis replied is thrown on.
reported :
    List ProductEntry
    → List ℕ
    → List (Option Text)
    → Result Text (List (Option Text))
    → Result Text (List Refusal)
reported entries deleted outcomes removals = do
  removed ← removals
  ok (report (entry_ids entries) outcomes ++ report deleted removed)

after_writes :
    List ProductEntry
    → List ℕ
    → (source_read_at : ℕ) → ReadModel × Result Text (List (Option Text))
    → ReadModel × Result Text (List Refusal)
unfolding reported
after_writes entries deleted source_read_at (next, err fault) = (next, err fault)
after_writes entries deleted source_read_at (next, ok outcomes) =
    let (last, removals) = remove_all deleted source_read_at next in
    (last, reported entries deleted outcomes removals)

-- The writes of a batch and then its removals, at the instant of the read.
unfoldable pub written :
    (ℕ → Text)
    → List ProductEntry
    → List ℕ
    → (source_read_at : ℕ) → ReadModel
    → ReadModel × Result Text (List Refusal)
unfolding after_writes
written iso entries deleted source_read_at model =
    after_writes entries deleted source_read_at (write_all iso entries source_read_at model)

after_prices :
    (ℕ → Text)
    → List ℕ
    → (source_read_at : ℕ) → ReadModel
    → Result Text (List ProductEntry)
    → ReadModel × Result Text (List Refusal)
after_prices iso deleted source_read_at model (err fault) = (model, err fault)
after_prices iso deleted source_read_at model (ok entries) =
    written iso entries deleted source_read_at model

-- `handle`
unfoldable pub handle :
    Engine
    → PromotionResolver
    → (ℕ → Text)
    → Source
    → Clocks
    → List ℕ
    → ReadModel
    → ReadModel × Result Text (List Refusal)
unfolding after_prices
handle engine resolver iso source clocks product_ids model =
    let (rows, source_read_at) = read product_ids clocks source in
    let found = found_of rows in
    after_prices iso (deleted_of product_ids found) source_read_at model
      (price_all engine resolver found)
