-- ===== src/Storefront/ListProducts/Pages.antt =====
-- The pages of a listing, one after the other, are the listing.
use mathlib.Core.Path.{subst}
use promotion_management_api.Base.{
  ℕ, zero, suc, ◌+◌, ◌-◌, ◌*◌, ◌≡◌, refl, ap, ◌∙◌, Bool, Option, none, some, List, [], ◌∷◌, ◌++◌,
  arith, take, drop, length,
}
use promotion_management_api.Base.Texts.{Text}
use promotion_management_api.Base.Result.{Result, ok, err, ◌>>=◌, >>=-ok, ok-injective}
use promotion_management_api.Storefront.StoredProduct.{Hash, ProductView}
use promotion_management_api.Storefront.ProductReads.{
  Redis, ReadFault, replied, list_key, page, count, find, find_all,
}
use promotion_management_api.Storefront.ListProductsInput.{ListProductsInput}
use promotion_management_api.Storefront.ListProducts.{
  ProductPage, parsed, dropped_of, parse_all, execute,
}

-- What `ZRANGE ... BYSCORE LIMIT` and `ZCARD` answer of a sorted set with such members, in the order
-- that is asked for.
pub record IsListing (redis : Redis) (category : Option Text) (ascending : Bool)
    (members : List Text) : Type 0 where
  pub ranged :
      (offset size : ℕ)
      → redis.zrange (list_key category) ascending offset size
        ≡ replied (take size (drop offset members))
  pub counted : redis.zcard (list_key category) ≡ replied (length members)

module _ (redis : Redis) where
  -- What the reader shows of some members.
  abbrev pub shown : List Text → Result ReadFault (List ProductView)
  shown ids = find_all redis ids >>= parse_all

  find_all-append :
      (xs ys : List Text) {hs ks : List (Option Hash)}
      → find_all redis xs ≡ ok hs
      → find_all redis ys ≡ ok ks
      → find_all redis (xs ++ ys) ≡ ok (hs ++ ks)
  unfolding find_all
  find_all-append [] ys {ks = ks} h k =
      subst (λ (hs : List (Option Hash)). find_all redis ys ≡ ok (hs ++ ks)) (ok-injective h) k
  find_all-append (x ∷ xs) ys {ks = ks} h k =
      let (hash, e, h1) = >>=-ok (find redis x) _ h in
      let (hashes, d, h2) = >>=-ok (find_all redis xs) _ h1 in
      subst (λ (hs : List (Option Hash)). find_all redis (x ∷ xs ++ ys) ≡ ok (hs ++ ks))
        (ok-injective h2) (rw (e, find_all-append xs ys d k) refl)

  parse_all-append :
      (hs ks : List (Option Hash)) {us vs : List ProductView}
      → parse_all hs ≡ ok us
      → parse_all ks ≡ ok vs
      → parse_all (hs ++ ks) ≡ ok (us ++ vs)
  unfolding parse_all
  parse_all-append [] ks {vs = vs} h k =
      subst (λ (us : List ProductView). parse_all ks ≡ ok (us ++ vs)) (ok-injective h) k
  parse_all-append (none ∷ hs) ks h k = parse_all-append hs ks h k
  parse_all-append (some hash ∷ hs) ks {vs = vs} h k =
      let (view, e, h1) = >>=-ok (parsed hash) _ h in
      let (views, d, h2) = >>=-ok (parse_all hs) _ h1 in
      subst (λ (us : List ProductView). parse_all (some hash ∷ hs ++ ks) ≡ ok (us ++ vs))
        (ok-injective h2) (rw (e, parse_all-append hs ks d k) refl)

  shown-append :
      (xs ys : List Text) {us vs : List ProductView}
      → shown xs ≡ ok us
      → shown ys ≡ ok vs
      → shown (xs ++ ys) ≡ ok (us ++ vs)
  shown-append xs ys h k =
      let (hs, found_xs, parsed_xs) = >>=-ok (find_all redis xs) parse_all h in
      let (ks, found_ys, parsed_ys) = >>=-ok (find_all redis ys) parse_all k in
      rw (find_all-append xs ys found_xs found_ys) (parse_all-append hs ks parsed_xs parsed_ys)

  abbrev page_of :
      ListProductsInput → List Text → ℕ → List (Option Hash) → List ProductView → ProductPage
  page_of input ids total hashes items = record {
    items = items;
    page = input.page;
    page_size = input.page_size;
    total = total;
    dropped = dropped_of ids hashes;
  }

  parsed_page :
      (input : ListProductsInput) (ids : List Text) (n : ℕ) (hashes : List (Option Hash))
      (views : Result ReadFault (List ProductView)) {r : ProductPage}
      → (views >>= λ items. ok (page_of input ids n hashes items)) ≡ ok r
      → (views ≡ ok r.items) × (r.total ≡ n)
  parsed_page input ids n hashes (err fault) h = cc
  parsed_page input ids n hashes (ok items) h = (ground arith, ground arith)

  found_page :
      (input : ListProductsInput) (ids : List Text) (n : ℕ)
      (found : Result ReadFault (List (Option Hash))) {r : ProductPage}
      → (found >>= λ hashes. parse_all hashes >>= λ items. ok (page_of input ids n hashes items))
        ≡ ok r
      → ((found >>= parse_all) ≡ ok r.items) × (r.total ≡ n)
  found_page input ids n (err fault) h = cc
  found_page input ids n (ok hashes) h = parsed_page input ids n hashes (parse_all hashes) h

  -- A page shows its part of the members, and their number as the total.
  execute-shown :
      (input : ListProductsInput) (members : List Text) {r : ProductPage}
      → IsListing redis input.category input.ascending members
      → execute redis input ≡ ok r
      → (shown (take input.page_size (drop ((input.page - 1) * input.page_size) members))
          ≡ ok r.items)
        × (r.total ≡ length members)
  unfolding execute page count
  execute-shown input members {r} listing h =
      let offset = (input.page - 1) * input.page_size in
      found_page input (take input.page_size (drop offset members)) (length members)
        (find_all redis (take input.page_size (drop offset members))) {r = r}
        (rw (listing.ranged offset input.page_size, listing.counted) at h)

  shown_none : shown [] ≡ ok []
  unfolding find_all parse_all
  shown_none = refl

  -- The first `n` pages, one query after the other.
  abbrev pub first_pages :
      Option Text → (ascending : Bool) → (page_size n : ℕ) → Result ReadFault (List ProductView)
  first_pages category ascending page_size zero = ok []
  first_pages category ascending page_size (suc n) = do
    items ← first_pages category ascending page_size n
    next ←
        execute redis (record {
          category = category;
          ascending = ascending;
          page = suc n;
          page_size = page_size;
        })
    ok (items ++ next.items)

  take-add : (n m : ℕ) (xs : List Text) → take n xs ++ take m (drop n xs) ≡ take (n + m) xs
  take-add zero m xs = ap (λ (k : ℕ). take k xs) (omega arith)
  take-add (suc n) zero [] = let e : suc n + 0 ≡ suc n = omega arith in rw e refl
  take-add (suc n) (suc m) [] = let e : suc n + suc m ≡ suc (n + suc m) = omega arith in rw e refl
  take-add (suc n) m (x ∷ xs) =
      let e : suc n + m ≡ suc (n + m) = omega arith in rw e (ap (◌∷◌ x) (take-add n m xs))

  -- Over a listing that does not change, the first pages together show what its front shows, each
  -- member once and in its order, whatever the page size.
  pub first_pages-shown :
      (category : Option Text) (ascending : Bool) (page_size n : ℕ) (members : List Text)
      {items : List ProductView}
      → IsListing redis category ascending members
      → first_pages category ascending page_size n ≡ ok items
      → shown (take (n * page_size) members) ≡ ok items
  first_pages-shown category ascending page_size zero members listing h =
      let e : 0 * page_size ≡ 0 = omega arith in rw e (shown_none ∙ h)
  first_pages-shown category ascending page_size (suc n) members {items = items} listing h =
      let (front, e, h1) = >>=-ok (first_pages category ascending page_size n) _ h in
      let (r, d, h2) =
        >>=-ok
          (execute redis (record {
            category = category;
            ascending = ascending;
            page = suc n;
            page_size = page_size;
          }))
          _ h1 in
      let before = first_pages-shown category ascending page_size n members listing e in
      let less : suc n - 1 ≡ n = omega arith in
      let (here, _) = execute-shown _ members listing d in
      let whole : take (n * page_size) members ++ take page_size (drop (n * page_size) members)
          ≡ take (suc n * page_size) members =
        take-add (n * page_size) page_size members ∙ ap (λ (k : ℕ). take k members) (grind arith) in
      subst (λ (ids : List Text). shown ids ≡ ok items) whole
        (shown-append (take (n * page_size) members) (take page_size (drop (n * page_size) members))
            before (rw less at here)
          ∙ h2)
