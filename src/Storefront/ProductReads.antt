-- ===== src/Storefront/ProductReads.antt =====
-- The reads of the read model (src/modules/storefront/db/product-read-repository.ts), and the queries
-- of one product and of the model's readiness (src/modules/storefront/queries).
use promotion_management_api.Base.{
  ℕ, Bool, true, false, ◌&&◌, Option, none, some, List, [], ◌∷◌, ◌++◌, if◌then◌else◌, ◌==◌,
}
use promotion_management_api.Base.Texts.{Text, codes}
use promotion_management_api.Base.Digits.{to_text}
use promotion_management_api.Base.Result.{Result, ok, err, ◌>>=◌}
use promotion_management_api.Storefront.StoredProduct.{Hash, ProductView, product_view}

-- What a command of Redis answers: a value, or an error with its message.
pub data Reply {ℓ} (A : Type ℓ) : Type ℓ where
  replied : A → Reply A
  failed : (message : Text) → Reply A

-- The commands that the repository sends. A member of a sorted set is a text, and `zrange` has its
-- offset and size behind the flag of an ascending order.
pub record Redis : Type 0 where
  pub exists : Text → Reply ℕ
  pub hgetall : Text → Reply Hash
  pub zrange : Text → Bool → ℕ → ℕ → Reply (List Text)
  pub zcard : Text → Reply ℕ

-- What a read throws: the model is not there, the store refused a key of ours, a stored product does
-- not parse, or the product is not there.
pub data ReadFault : Type 0 where
  unavailable : (message : Text) → ReadFault
  wrong_type : (message : Text) → ReadFault
  unparsed : ReadFault
  product_not_found : ReadFault

abbrev pub all_products : Text
all_products = codes "products:all"

abbrev pub ready_key : Text
ready_key = codes "readmodel:ready"

unfoldable pub product_key : Text → Text
product_key id = codes "product:" ++ id

unfoldable pub category_key : Text → Text
category_key category = codes "category:" ++ category

-- `listKey`
unfoldable pub list_key : Option Text → Text
unfolding category_key
list_key none = all_products
list_key (some category) = category_key category

starts_with : Text → Text → Bool
starts_with [] s = true
starts_with (c ∷ prefix) [] = false
starts_with (c ∷ prefix) (d ∷ s) = c == d && starts_with prefix s

-- `classify`
unfoldable pub classify : (message our_key : Text) → ReadFault
unfolding starts_with
classify message our_key =
    if starts_with (codes "WRONGTYPE") message
    then wrong_type (message ++ codes " at " ++ our_key)
    else unavailable (codes "The read model cannot be reached")

-- `reached`
abbrev pub reached {ℓ} : {A : Type ℓ} → Reply A → (our_key : Text) → Result ReadFault A
reached (replied a) our_key = ok a
reached (failed message) our_key = err (classify message our_key)

-- An empty hash is no key.
unfoldable pub non_empty : Hash → Option Hash
non_empty [] = none
non_empty (f ∷ fields) = some (f ∷ fields)

module _ (redis : Redis) where
  -- `isReady`
  unfoldable pub is_ready : Result ReadFault Bool
  is_ready = do count ← reached (redis.exists ready_key) ready_key; ok (count == 1)

  -- `find`
  unfoldable pub find : Text → Result ReadFault (Option Hash)
  find id = do let key = product_key id; hash ← reached (redis.hgetall key) key; ok (non_empty hash)

  -- `page`
  unfoldable pub page : Option Text → Bool → (offset size : ℕ) → Result ReadFault (List Text)
  page category ascending offset size =
      let key = list_key category in reached (redis.zrange key ascending offset size) key

  -- `count`
  unfoldable pub count : Option Text → Result ReadFault ℕ
  count category = let key = list_key category in reached (redis.zcard key) key

  -- `findAll`: the replies of one pipeline, each under its key.
  unfoldable pub find_all : List Text → Result ReadFault (List (Option Hash))
  find_all [] = ok []
  find_all (id ∷ ids) = do hash ← find id; hashes ← find_all ids; ok (hash ∷ hashes)

  -- `ReadModelReadinessQuery.execute`
  unfoldable pub require_ready : Result ReadFault (Unit {0})
  require_ready = do
    ready ← is_ready
    if ready then ok tt else err (unavailable (codes "The read model is still being built"))

  parsed : Option Hash → Result ReadFault ProductView
  parsed none = err product_not_found
  parsed (some hash) = elim (product_view hash) [ none ↦ err unparsed | some view ↦ ok view ]

  -- `FindProductQuery.execute`
  unfoldable pub find_product : ℕ → Result ReadFault ProductView
  unfolding parsed
  find_product id = do hash ← find (to_text id); parsed hash
