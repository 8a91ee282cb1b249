-- ===== src/Storefront/ProductUpserted/Settled.antt =====
-- What a recompute leaves in the read model
-- (src/modules/storefront/events/product-upserted-handler.ts).
use mathlib.Core.Path.{subst, fun_ext}
use promotion_management_api.Base.{
  ℕ, ◌≡◌, ◌≢◌, refl, sym, ap, ◌∙◌, inl, inr, Bool, true, false, not, ◌||◌, Option, none, some, List,
  [], ◌∷◌, map, if◌then◌else◌, ◌==◌, ==_iff, eq_refl, arith, Bool-cases, Option-cases, All, filterb,
}
use promotion_management_api.Base.Texts.{Text}
use promotion_management_api.Base.Rows.{
  first_match, In, All-of_In, Pairs, Pairs-map, first_match-some, In-filterb,
}
use promotion_management_api.Base.Members.{
  In-filterb_cases, In-map, In-map_cases, Pairs-filterb, is_one_of_iff,
}
use promotion_management_api.Base.Result.{Result, err, ok}
use promotion_management_api.Product.Repository.{Product}
use promotion_management_api.Promotion.Resolver.{Engine, PromotionResolver}
use promotion_management_api.Promotion.Repository.Reachable.{Reachable}
use promotion_management_api.Storefront.ProductPricer.{SourceRow, ProductEntry, price}
use promotion_management_api.Storefront.ProductSource.{
  Source, Clocks, read, selected, is_one_of, row_of,
}
use promotion_management_api.Storefront.ProductSource.OneRow.{joined_row, selected-once}
use promotion_management_api.Storefront.ProductUpserted.{
  found_of, is_found, deleted_of, price_all, entry_ids, Refusal, written, after_writes,
  after_prices, handle,
}
use promotion_management_api.Storefront.ProductUpserted.Batch.{
  newest, settle_ids, settle_ids_at, AllNamed, settle_ids-AllNamed, run_all-write_script,
  run_all-remove_script,
}
use promotion_management_api.Storefront.ProductUpserted.Said.{
  row_ids, found_of-distinct, joined_row-id, priced_entry, said, price_all-said, said-product,
  said-IsNamed,
}
use promotion_management_api.Storefront.WriteRepository.{
  ReadModel, write_script, remove_script, write_all, remove_all,
}
use promotion_management_api.Storefront.WriteRepository.Pipeline.{applied_all-run_all}
use promotion_management_api.Storefront.WriteRepository.Versions.{
  Versions, product_in, model_of, IsNamed,
}

-- The tables of a read: the statements led to the promotions, the ids of the products are distinct,
-- and no category is empty.
pub record IsReadable (source : Source) : Type 0 where
  pub reachable : Reachable source.promotions
  pub distinct : Pairs (λ (p q : Product). p.id ≢ q.id) source.products
  pub named : All (λ (p : Product). p.category ≢ []) source.products

is_found-row_ids : (rows : List SourceRow) (id : ℕ) → is_found rows id ≡ is_one_of (row_ids rows) id
is_found-row_ids [] id = refl
is_found-row_ids (row ∷ rows) id = ap (λ b. (row.id == id) || b) (is_found-row_ids rows id)

module _ (iso : ℕ → Text) (t : ℕ) (stated : ℕ → Option ProductEntry)
    (named : (id : ℕ) → IsNamed (stated id)) where
  -- The writes and then the removals of a batch.
  written-settles :
      (entries : List ProductEntry) (deleted : List ℕ) (versions : Versions)
      → AllNamed t stated versions
      → All (λ (entry : ProductEntry). stated entry.id ≡ some entry) entries
      → All (λ id. stated id ≡ none) deleted
      → (written iso entries deleted t (model_of iso versions)).0
        ≡ model_of iso
            (settle_ids t stated deleted (settle_ids t stated (entry_ids entries) versions))
  unfolding written after_writes write_all remove_all
  written-settles entries deleted versions h made gone =
      let between = settle_ids t stated (entry_ids entries) versions in
      let wrote = run_all-write_script t stated iso named entries versions h made in
      rw (applied_all-run_all (λ entry. write_script iso entry t) entries (model_of iso versions)) (
        ap (λ (m : ReadModel). (remove_all deleted t m).0) wrote
        ∙ ap (λ (r : ReadModel × Result Text (List (Option Text))). r.0)
            (applied_all-run_all (λ id. remove_script id t) deleted (model_of iso between))
        ∙ run_all-remove_script t stated iso named deleted between
            (settle_ids-AllNamed t stated iso named (entry_ids entries) versions h) gone)

is_one_of-filterb :
    (q : ℕ → Bool) (ids : List ℕ) (i : ℕ)
    → is_one_of (filterb q ids) i ≡ (if q i then is_one_of ids i else false)
is_one_of-filterb q [] i = elim (Bool-cases (q i)) [ inl e ↦ rw e refl | inr e ↦ rw e refl ]
is_one_of-filterb q (x ∷ ids) i = elim (Bool-cases (x == i)) [
  | inl same ↦ rw ((==_iff x i).0 same) (elim (Bool-cases (q i)) [
    | inl e ↦ rw (e, eq_refl i) refl
    | inr e ↦ rw e (is_one_of-filterb q ids i ∙ rw e refl)
  ])
  | inr other ↦ elim (Bool-cases (q x)) [
    | inl e ↦ rw (e, other) (is_one_of-filterb q ids i)
    | inr e ↦ rw (e, other) (is_one_of-filterb q ids i)
  ]
]

-- A batch: the rows of the products that were asked for and found, and the ids that were not found.
module _ (engine : Engine) (resolver : PromotionResolver) (now : ℕ) (source : Source) (ids : List ℕ)
    (readable : IsReadable source) where
  asked : List Product
  asked = filterb (λ (p : Product). is_one_of ids p.id) source.products

  rows : List SourceRow
  unfolding asked
  rows = map (joined_row now source.promotions) asked

  rows_distinct : Pairs (λ (r s : SourceRow). r.id ≢ s.id) rows
  unfolding rows asked
  rows_distinct =
      Pairs-map (λ (p q : Product). p.id ≢ q.id) (λ (r s : SourceRow). r.id ≢ s.id)
        (joined_row now source.promotions) asked
        (λ p q i j differ same. differ (
          sym (joined_row-id now source.promotions p)
          ∙ same
          ∙ joined_row-id now source.promotions q))
        (Pairs-filterb _ _ source.products readable.distinct)

  row-asked :
      (row : SourceRow)
      → In row rows
      → (p : Product) × In p source.products
        × (is_one_of ids p.id ≡ true)
        × (row ≡ joined_row now source.promotions p)
  unfolding rows asked
  row-asked row m =
      let (p, i, e) = In-map_cases (joined_row now source.promotions) asked m in
      let (j, k) = In-filterb_cases (λ (q : Product). is_one_of ids q.id) source.products i in
      (p, j, k, e)

  rows-said :
      All
        (λ (row : SourceRow).
          said engine resolver now source row.id ≡ priced_entry (price engine resolver row))
        rows
  unfolding row_of
  rows-said = All-of_In _ rows (λ row m.
      let (p, j, k, e) = row-asked row m in
      rw e (
        rw (joined_row-id now source.promotions p)
          (said-product engine resolver now source readable.distinct p j)))

  deleted : List ℕ
  unfolding rows
  deleted = deleted_of ids rows

  row_ids-asked : (i : ℕ) → is_one_of (row_ids rows) i ≡ true → is_one_of ids i ≡ true
  row_ids-asked i h =
      let (row, m, e) =
        In-map_cases (λ (r : SourceRow). r.id) rows ((is_one_of_iff (row_ids rows) i).0 h) in
      let (p, j, k, d) = row-asked row m in
      let own : i ≡ p.id =
        e ∙ ap (λ (r : SourceRow). r.id) d ∙ joined_row-id now source.promotions p in
      rw own k

  found-product :
      (p : Product)
      → In p source.products
      → is_one_of ids p.id ≡ true
      → is_one_of (row_ids rows) p.id ≡ true
  unfolding rows asked
  found-product p j k = (is_one_of_iff (row_ids rows) p.id).1 (
      subst (λ i. In i (row_ids rows)) (joined_row-id now source.promotions p)
        (In-map (λ (r : SourceRow). r.id) rows
          (In-map (joined_row now source.promotions) asked
            (In-filterb (λ (q : Product). is_one_of ids q.id) source.products j k))))

  deleted-said : All (λ id. said engine resolver now source id ≡ none) deleted
  unfolding deleted deleted_of
  deleted-said = All-of_In _ deleted (λ id m.
      let (asked_for, missing) = In-filterb_cases (λ i. not (is_found rows i)) ids m in
      elim (Option-cases (first_match (λ (p : Product). p.id == id) source.products)) [
        | inl e ↦ rw e refl
        | inr (p, e) ↦
            let (j, same) = first_match-some (λ (q : Product). q.id == id) source.products e in
            let own : p.id ≡ id = (==_iff p.id id).0 same in
            let found = found-product p j (
              subst (λ i. is_one_of ids i ≡ true) (sym own) ((is_one_of_iff ids id).1 asked_for)) in
            absurd (
              clash (is_found-row_ids rows id)
                (subst (λ i. is_one_of (row_ids rows) i ≡ true) own found) missing)
      ])
    where
      clash : {a b : Bool} → a ≡ b → b ≡ true → not a ≡ true → ⊥
      clash e h k = ground arith

  -- The two lists of a batch together name the products that were asked for.
  settled_ids :
      (t : ℕ) (versions : Versions) (i : ℕ)
      → settle_ids t
          (said engine resolver now source)
          deleted
          (settle_ids t (said engine resolver now source) (row_ids rows) versions)
          i
        ≡ (if is_one_of ids i
            then newest t (said engine resolver now source i) (versions i)
            else versions i)
  unfolding deleted deleted_of
  settled_ids t versions i =
      let stated = said engine resolver now source in
      settle_ids_at t stated deleted (settle_ids t stated (row_ids rows) versions) i
      ∙ rw (settle_ids_at t stated (row_ids rows) versions i) (
          rw (is_one_of-filterb (λ id. not (is_found rows id)) ids i, is_found-row_ids rows i)
            (elim (Bool-cases (is_one_of (row_ids rows) i)) [
              | inl e ↦ rw (e, row_ids-asked i e) refl
              | inr e ↦ rw e refl
            ]))

-- A batch that ends well has its prices.
after_prices-ok :
    (iso : ℕ → Text) (deleted : List ℕ) (t : ℕ) (model : ReadModel)
    (prices : Result Text (List ProductEntry)) {next : ReadModel} {refusals : List Refusal}
    → after_prices iso deleted t model prices ≡ (next, ok refusals)
    → (entries : List ProductEntry) × (prices ≡ ok entries)
      × (written iso entries deleted t model ≡ (next, ok refusals))
unfolding after_prices
after_prices-ok iso deleted t model (err fault) h = cc
after_prices-ok iso deleted t model (ok entries) h = (entries, refl, h)

-- A recompute of some products, on the tables that the statements lead to and on a read model that
-- holds some versions of which none has an empty category: if it does not throw, the model holds for
-- each of those products the newer of its version and of what PostgreSQL said of it at the instant
-- of the read, its entry or that it is gone, and every other product's version as it was.
pub handle-settles :
    (engine : Engine) (resolver : PromotionResolver) (iso : ℕ → Text) (source : Source)
    (clocks : Clocks) (ids : List ℕ) (versions : Versions)
    → IsReadable source
    → ((i : ℕ) → IsNamed (product_in (versions i)))
    → {next : ReadModel} {refusals : List Refusal}
    → handle engine resolver iso source clocks ids (model_of iso versions) ≡ (next, ok refusals)
    → next
      ≡ model_of iso (λ i.
        if is_one_of ids i
        then newest
            (read ids clocks source).1
            (said engine resolver clocks.now source i)
            (versions i)
        else versions i)
unfolding handle read rows deleted asked
handle-settles engine resolver iso source clocks ids versions readable named {next} {refusals} h =
    let now = clocks.now in
    let t = (read ids clocks source).1 in
    let stated = said engine resolver now source in
    let found = found_of (selected ids now source) in
    let own = rows engine resolver now source ids readable in
    let gone = deleted engine resolver now source ids readable in
    let whole : found ≡ own =
      ap found_of (selected-once ids now source readable.reachable)
      ∙ found_of-distinct own (rows_distinct engine resolver now source ids readable) in
    let (entries, priced, h1) =
      after_prices-ok iso (deleted_of ids found) t (model_of iso versions)
        (price_all engine resolver found) h in
    let (made, same_ids) =
      price_all-said engine resolver now source own
        (subst (λ (rs : List SourceRow). price_all engine resolver rs ≡ ok entries) whole priced)
        (rows-said engine resolver now source ids readable) in
    sym (ap (λ (r : ReadModel × Result Text (List Refusal)). r.0) h1)
    ∙ ap
        (λ (rs : List SourceRow).
          (written iso entries (deleted_of ids rs) t (model_of iso versions)).0)
        whole
    ∙ written-settles iso t stated (said-IsNamed engine resolver now source readable.named) entries
        gone versions named made (deleted-said engine resolver now source ids readable)
    ∙ ap
        (λ (es : List ℕ). model_of iso (settle_ids t stated gone (settle_ids t stated es versions)))
        same_ids
    ∙ ap (model_of iso) (fun_ext (settled_ids engine resolver now source ids readable t versions))
