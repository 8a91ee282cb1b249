-- ===== src/Storefront/WriteRepository.antt =====
-- The scripts that write and remove a product in Redis, and their pipelines
-- (src/modules/storefront/db/product-write-repository.ts).
pub mod Versions
pub mod Sets
pub mod Refinement
pub mod Order
pub mod Pipeline
pub mod Replies
mod Tests
use promotion_management_api.Base.{
  ℕ, zero, suc, Bool, true, false, ◌&&◌, Option, none, some, List, [], ◌∷◌, ◌++◌, if◌then◌else◌,
  leb, ◌==◌, take, drop, length, not,
}
use promotion_management_api.Base.Texts.{Text, text_eq}
use promotion_management_api.Base.Digits.{number, to_text}
use promotion_management_api.Base.Result.{Result, ok, err, ◌>>=◌}
use promotion_management_api.Storefront.ProductPricer.{ProductEntry}
use promotion_management_api.Storefront.StoredProduct.{Hash, fields_of}

-- The keys of the read model: the hash of tokens by product id, `product:<id>`, the sorted set
-- `category:<name>` with its members' scores, and the sorted set of all products.
pub record ReadModel : Type 0 where
  pub tokens : ℕ → Option Text
  pub entries : ℕ → Option Hash
  pub categories : Text → ℕ → Option ℕ
  pub all_products : ℕ → Option ℕ

abbrev pub empty_model : ReadModel
empty_model = record {
  tokens = λ id. none;
  entries = λ id. none;
  categories = λ name id. none;
  all_products = λ id. none;
}

-- One key of a map set to a value, or deleted.
abbrev pub put {ℓ} : {A : Type ℓ} → ℕ → Option A → (ℕ → Option A) → ℕ → Option A
put id value map i = if i == id then value else map i

abbrev pub put_in : Text → ℕ → Option ℕ → (Text → ℕ → Option ℕ) → Text → ℕ → Option ℕ
put_in name id score sets n = if text_eq n name then put id score (sets n) else sets n

-- The text before the first colon, and the text after it.
unfoldable pub split_token : Text → Text × Text
split_token [] = ([], [])
split_token (c ∷ s) =
    let rest = split_token s in if c == b':' then ([], s) else (c ∷ rest.0, rest.1)

pub data TokenCheck : Type 0 where
  beaten : (stored : Text) → TokenCheck
  free : (was_category : Text) → TokenCheck

unfoldable pub check_token : Text × Text → ℕ → TokenCheck
check_token (stored, was_category) source_read_at =
    if leb source_read_at (number stored) then beaten stored else free was_category

check_stored : Option Text → ℕ → TokenCheck
unfolding check_token
check_stored none source_read_at = free []
check_stored (some token) source_read_at = check_token (split_token token) source_read_at

-- `READ_TOKEN`: the stored token where it is not older, or the category the product is listed in.
read_token : ℕ → ℕ → ReadModel → TokenCheck
unfolding check_stored
read_token id source_read_at model = check_stored (model.tokens id) source_read_at

is_empty : Text → Bool
is_empty [] = true
is_empty (c ∷ s) = false

unfoldable pub leave_category : Text → ℕ → (Text → ℕ → Option ℕ) → Text → ℕ → Option ℕ
unfolding is_empty
leave_category was_category id sets =
    if is_empty was_category then sets else put_in was_category id none sets

unfoldable pub token_of : ℕ → Text → Text
token_of source_read_at category = to_text source_read_at ++ b':' ∷ category

-- `new Date(micros / 1000).toISOString()` is the argument `iso`.
module _ (iso : ℕ → Text) where
  write_free : ProductEntry → ℕ → ReadModel → Text → ReadModel
  unfolding leave_category is_empty token_of
  write_free entry source_read_at model was_category =
      let left =
        if text_eq was_category entry.category
        then model.categories
        else leave_category was_category entry.id model.categories in
      record {
        tokens = put entry.id (some (token_of source_read_at entry.category)) model.tokens;
        entries = put entry.id (some (fields_of entry (iso source_read_at))) model.entries;
        categories = put_in entry.category entry.id (some entry.effective_price_cents) left;
        all_products = put entry.id (some entry.effective_price_cents) model.all_products;
      }

  write_checked : ProductEntry → ℕ → ReadModel → TokenCheck → ReadModel × Option Text
  unfolding write_free
  write_checked entry source_read_at model (beaten stored) = (model, some stored)
  write_checked entry source_read_at model (free was_category) =
      (write_free entry source_read_at model was_category, none)

  -- `WRITE`, with its answer: nothing where it applied, else the token that beat it.
  unfoldable pub write_script : ProductEntry → ℕ → ReadModel → ReadModel × Option Text
  unfolding read_token write_checked
  write_script entry source_read_at model =
      write_checked entry source_read_at model (read_token entry.id source_read_at model)

remove_free : ℕ → ℕ → ReadModel → Text → ReadModel
unfolding leave_category token_of
remove_free id source_read_at model was_category = record {
  tokens = put id (some (token_of source_read_at [])) model.tokens;
  entries = put id none model.entries;
  categories = leave_category was_category id model.categories;
  all_products = put id none model.all_products;
}

remove_checked : ℕ → ℕ → ReadModel → TokenCheck → ReadModel × Option Text
unfolding remove_free
remove_checked id source_read_at model (beaten stored) = (model, some stored)
remove_checked id source_read_at model (free was_category) =
    (remove_free id source_read_at model was_category, none)

-- `REMOVE`
unfoldable pub remove_script : ℕ → ℕ → ReadModel → ReadModel × Option Text
unfolding read_token remove_checked
remove_script id source_read_at model =
    remove_checked id source_read_at model (read_token id source_read_at model)

-- The commands of a pipeline, in order, with their answers.
module _ {ℓ κ μ} {C : Type ℓ} {M : Type κ} {R : Type μ} (call : C → M → M × R) where
  unfoldable pub run_all : List C → M → M × List R
  run_all [] model = (model, [])
  run_all (c ∷ calls) model =
      let (next, answer) = call c model in
      let (last, answers) = run_all calls next in (last, answer ∷ answers)

-- The script of a call that Redis does not refuse to run.
unfoldable pub replied {ℓ κ μ} :
    {C : Type ℓ} {M : Type κ} {R : Type μ} → (C → M → M × R) → C → M → M × Result Text R
replied call c model = let (next, reply) = call c model in (next, ok reply)

-- The loop over the replies of a pipeline: the first error is thrown, and the replies are lost.
unfoldable pub replies_of {μ} : {R : Type μ} → List (Result Text R) → Result Text (List R)
replies_of [] = ok []
replies_of (reply ∷ replies) = do
  answer ← reply
  answers ← replies_of replies
  ok (answer ∷ answers)

module _ {ℓ κ μ} {C : Type ℓ} {M : Type κ} {R : Type μ} (call : C → M → M × Result Text R) where
  -- What follows a pipeline: after an error no further one is sent, and the calls of this one stay
  -- made.
  after_replies : M → M × Result Text (List R) → Result Text (List R) → M × Result Text (List R)
  after_replies next later (err fault) = (next, err fault)
  after_replies next (last, more) (ok answers) = (last, do rest ← more; ok (answers ++ rest))

  -- The loop of `appliedAll`: a pipeline of `size` calls a round, at most `rounds` of them.
  in_pipelines : ℕ → ℕ → List C → M → M × Result Text (List R)
  unfolding after_replies
  in_pipelines size zero calls model = (model, ok [])
  in_pipelines size (suc rounds) [] model = (model, ok [])
  in_pipelines size (suc rounds) (c ∷ calls) model =
      let (next, replies) = run_all call (take size (c ∷ calls)) model in
      let later = in_pipelines size rounds (drop size (c ∷ calls)) next in
      after_replies next later (replies_of replies)

  abbrev pub chunk : ℕ
  chunk = 1000

  -- `appliedAll`; a round takes at least one call, so there are no more rounds than calls.
  unfoldable pub applied_all : List C → M → M × Result Text (List R)
  unfolding in_pipelines
  applied_all calls model = in_pipelines chunk (length calls) calls model

-- `writeAll`
unfoldable pub write_all :
    (ℕ → Text) → List ProductEntry → ℕ → ReadModel → ReadModel × Result Text (List (Option Text))
write_all iso entries source_read_at =
    applied_all (replied (λ entry. write_script iso entry source_read_at)) entries

-- `removeAll`
unfoldable pub remove_all : List ℕ → ℕ → ReadModel → ReadModel × Result Text (List (Option Text))
remove_all ids source_read_at = applied_all (replied (λ id. remove_script id source_read_at)) ids
