-- ===== src/Storefront/ProductUpserted/Batch.antt =====
-- The writes and removals of one batch, on the newest versions of the products
-- (src/modules/storefront/events/product-upserted-handler.ts).
use mathlib.Core.Path.{subst}
use promotion_management_api.Base.{
  ℕ, ◌≡◌, refl, sym, ◌∙◌, inl, inr, false, Option, none, some, List, [], ◌∷◌, if◌then◌else◌, ltb,
  ◌==◌, ==_iff, eq_refl, arith, Bool-cases, All,
}
use promotion_management_api.Base.Texts.{Text}
use promotion_management_api.Storefront.ProductPricer.{ProductEntry}
use promotion_management_api.Storefront.ProductSource.{is_one_of}
use promotion_management_api.Storefront.ProductUpserted.{entry_ids}
use promotion_management_api.Storefront.WriteRepository.{run_all, write_script, remove_script}
use promotion_management_api.Storefront.WriteRepository.Versions.{
  Version, Versions, is_newer, settle, product_in, model_of, IsNamed,
}
use promotion_management_api.Storefront.WriteRepository.Refinement.{
  write_script-model_of, remove_script-model_of,
}

-- The newer of a stored version and what was read at an instant.
abbrev pub newest : ℕ → Option ProductEntry → Option Version → Option Version
newest t product old =
    if is_newer t old then some (record { source_read_at = t; product = product }) else old

-- `said` is what one read said of each product.
module _ (t : ℕ) (said : ℕ → Option ProductEntry) where
  abbrev pub settle_ids : List ℕ → Versions → Versions
  settle_ids [] versions = versions
  settle_ids (id ∷ ids) versions =
      settle_ids ids (settle id (record { source_read_at = t; product = said id }) versions)

  newest_twice :
      (id : ℕ) (old : Option Version)
      → newest t (said id) (newest t (said id) old) ≡ newest t (said id) old
  newest_twice id old = elim (Bool-cases (is_newer t old)) [
    | inl e ↦ let same : ltb t t ≡ false = ground arith in rw e (rw same refl)
    | inr e ↦ rw e (rw e refl)
  ]

  settle_at :
      (id i : ℕ) (versions : Versions)
      → settle id (record { source_read_at = t; product = said id }) versions i
        ≡ (if i == id then newest t (said i) (versions i) else versions i)
  settle_at id i versions = elim (Bool-cases (i == id)) [
    | inl here ↦
        let same : i ≡ id = (==_iff i id).0 here in
        rw here (
          rw same (elim (Bool-cases (is_newer t (versions id))) [
            | inl e ↦ rw e (rw (eq_refl id) refl)
            | inr e ↦ rw e refl
          ]))
    | inr there ↦ rw there (elim (Bool-cases (is_newer t (versions id))) [
      | inl e ↦ rw e (rw there refl)
      | inr e ↦ rw e refl
    ])
  ]

  eq_comm : (a b : ℕ) → (a == b) ≡ (b == a)
  eq_comm a b = ground arith

  -- A batch settles the newest version of each of its products, however often it names them.
  pub settle_ids_at :
      (ids : List ℕ) (versions : Versions) (i : ℕ)
      → settle_ids ids versions i
        ≡ (if is_one_of ids i then newest t (said i) (versions i) else versions i)
  settle_ids_at [] versions i = refl
  settle_ids_at (id ∷ ids) versions i =
      settle_ids_at ids (settle id (record { source_read_at = t; product = said id }) versions) i
      ∙ rw (settle_at id i versions, eq_comm id i)
          (elim (Bool-cases (i == id)) [
            | inl here ↦ rw here (elim (Bool-cases (is_one_of ids i)) [
              | inl e ↦ rw e (newest_twice i (versions i))
              | inr e ↦ rw e refl
            ])
            | inr there ↦ rw there refl
          ])

  abbrev pub AllNamed : Versions → Type 0
  AllNamed versions = (i : ℕ) → IsNamed (product_in (versions i))

  module _ (iso : ℕ → Text) (named : (i : ℕ) → IsNamed (said i)) where
    settle-AllNamed :
        (id : ℕ) (versions : Versions)
        → AllNamed versions
        → AllNamed (settle id (record { source_read_at = t; product = said id }) versions)
    settle-AllNamed id versions h i =
        subst (λ (v : Option Version). IsNamed (product_in v)) (sym (settle_at id i versions))
          (elim (Bool-cases (i == id)) [
            | inl here ↦ rw here (elim (Bool-cases (is_newer t (versions i))) [
              | inl e ↦ rw e (named i)
              | inr e ↦ rw e (h i)
            ])
            | inr there ↦ rw there (h i)
          ])

    pub settle_ids-AllNamed :
        (ids : List ℕ) (versions : Versions)
        → AllNamed versions
        → AllNamed (settle_ids ids versions)
    settle_ids-AllNamed [] versions h = h
    settle_ids-AllNamed (id ∷ ids) versions h =
        settle_ids-AllNamed ids _ (settle-AllNamed id versions h)

    -- The writes of entries that say what the read said.
    pub run_all-write_script :
        (entries : List ProductEntry) (versions : Versions)
        → AllNamed versions
        → All (λ (entry : ProductEntry). said entry.id ≡ some entry) entries
        → (run_all (λ entry. write_script iso entry t) entries (model_of iso versions)).0
          ≡ model_of iso (settle_ids (entry_ids entries) versions)
    unfolding run_all
    run_all-write_script [] versions h k = refl
    run_all-write_script (entry ∷ entries) versions h (e, k) =
        rw (write_script-model_of iso entry t versions (h entry.id)) (
          subst
            (λ (product : Option ProductEntry).
              (run_all (λ entry. write_script iso entry t) entries
                (model_of iso
                  (settle entry.id (record { source_read_at = t; product = product }) versions))).0
              ≡ model_of iso (
                  settle_ids (entry_ids entries) (
                    settle entry.id (record { source_read_at = t; product = said entry.id })
                      versions)))
            e (run_all-write_script entries _ (settle-AllNamed entry.id versions h) k))

    -- The removals of products that were gone.
    pub run_all-remove_script :
        (ids : List ℕ) (versions : Versions)
        → AllNamed versions
        → All (λ id. said id ≡ none) ids
        → (run_all (λ id. remove_script id t) ids (model_of iso versions)).0
          ≡ model_of iso (settle_ids ids versions)
    unfolding run_all
    run_all-remove_script [] versions h k = refl
    run_all-remove_script (id ∷ ids) versions h (e, k) =
        rw (remove_script-model_of iso id t versions (h id)) (
          subst
            (λ (product : Option ProductEntry).
              (run_all (λ i. remove_script i t) ids
                (model_of iso
                  (settle id (record { source_read_at = t; product = product }) versions))).0
              ≡ model_of iso (
                  settle_ids ids
                    (settle id (record { source_read_at = t; product = said id }) versions)))
            e (run_all-remove_script ids _ (settle-AllNamed id versions h) k))
