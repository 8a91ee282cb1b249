-- ===== src/Storefront/WriteRepository/Refinement.antt =====
-- The scripts of src/modules/storefront/db/product-write-repository.ts keep the newest version.
use promotion_management_api.Base.{
  ℕ, ◌≡◌, refl, ap, ◌∙◌, inl, inr, true, false, Option, none, some, arith, leb, ltb, Bool-cases,
}
use mathlib.Core.Path.{fun_ext}
use promotion_management_api.Base.Texts.{Text}
use promotion_management_api.Storefront.ProductPricer.{ProductEntry}
use promotion_management_api.Storefront.WriteRepository.{
  ReadModel, put, check_stored, read_token, write_free, write_checked, write_script, remove_free,
  remove_checked, remove_script,
}
use promotion_management_api.Storefront.WriteRepository.Versions.{
  Version, Versions, is_newer, settle, category_of, token_in, price_in, product_in, entry_in,
  model_of, verdict, answer, IsNamed, check_token-token_of, put-map, ReadModel-eq,
}
use promotion_management_api.Storefront.WriteRepository.Sets.{
  version, written_categories, removed_categories, gone,
}

check_stored-token_in :
    (o : Option Version) (source_read_at : ℕ)
    → check_stored (token_in o) source_read_at ≡ verdict source_read_at o
unfolding check_stored token_in verdict category_of
check_stored-token_in none source_read_at = refl
check_stored-token_in (some v) source_read_at =
    elim (Bool-cases (leb source_read_at v.source_read_at)) [
      | inl e ↦
          let older : ltb v.source_read_at source_read_at ≡ false = ground arith in
          check_token-token_of v.source_read_at source_read_at (category_of v.product)
          ∙ rw (e, older) refl
      | inr e ↦
          let newer : ltb v.source_read_at source_read_at ≡ true = ground arith in
          check_token-token_of v.source_read_at source_read_at (category_of v.product)
          ∙ rw (e, newer) refl
    ]

module _ (iso : ℕ → Text) where
  read_token-model_of :
      (id source_read_at : ℕ) (versions : Versions)
      → read_token id source_read_at (model_of iso versions) ≡ verdict source_read_at (versions id)
  unfolding read_token model_of
  read_token-model_of id source_read_at versions =
      check_stored-token_in (versions id) source_read_at

  write_free-model_of :
      (entry : ProductEntry) (source_read_at : ℕ) (versions : Versions)
      → IsNamed (product_in (versions entry.id))
      → write_free iso entry source_read_at
          (model_of iso versions)
          (category_of (product_in (versions entry.id)))
        ≡ model_of iso (put entry.id (some (version source_read_at entry)) versions)
  unfolding write_free model_of
  write_free-model_of entry source_read_at versions named =
      ReadModel-eq (put-map token_in entry.id (some (version source_read_at entry)) versions)
        (put-map (entry_in iso) entry.id (some (version source_read_at entry)) versions)
        (fun_ext
          (λ name. fun_ext (λ i. written_categories entry source_read_at versions name i named)))
        (put-map (λ o. price_in (product_in o)) entry.id (some (version source_read_at entry))
          versions)

  remove_free-model_of :
      (id source_read_at : ℕ) (versions : Versions)
      → IsNamed (product_in (versions id))
      → remove_free id source_read_at
          (model_of iso versions)
          (category_of (product_in (versions id)))
        ≡ model_of iso (put id (some (gone source_read_at)) versions)
  unfolding remove_free model_of
  remove_free-model_of id source_read_at versions named =
      ReadModel-eq (put-map token_in id (some (gone source_read_at)) versions)
        (put-map (entry_in iso) id (some (gone source_read_at)) versions)
        (fun_ext
          (λ name. fun_ext (λ i. removed_categories id source_read_at versions name i named)))
        (put-map (λ o. price_in (product_in o)) id (some (gone source_read_at)) versions)

  -- A write against a read model that holds some versions, the category of the product's own not the
  -- empty text: if the stored version is not as new, the model holds the entry as the product's
  -- version, out of the set of its old category, and the answer is nothing; else the model is as it
  -- was and the answer is the instant of the stored version.
  pub write_script-model_of :
      (entry : ProductEntry) (source_read_at : ℕ) (versions : Versions)
      → IsNamed (product_in (versions entry.id))
      → write_script iso entry source_read_at (model_of iso versions) ≡ (
        model_of iso (settle entry.id (version source_read_at entry) versions),
        answer source_read_at (versions entry.id),
      )
  unfolding write_script write_checked verdict
  write_script-model_of entry source_read_at versions named =
      rw (read_token-model_of entry.id source_read_at versions)
        (elim (Bool-cases (is_newer source_read_at (versions entry.id))) [
          | inl e ↦ rw e (
              ap (λ (m : ReadModel). (m, none))
                (write_free-model_of entry source_read_at versions named))
          | inr e ↦ rw e refl
        ])

  pub remove_script-model_of :
      (id source_read_at : ℕ) (versions : Versions)
      → IsNamed (product_in (versions id))
      → remove_script id source_read_at (model_of iso versions) ≡ (
        model_of iso (settle id (gone source_read_at) versions),
        answer source_read_at (versions id),
      )
  unfolding remove_script remove_checked verdict
  remove_script-model_of id source_read_at versions named =
      rw (read_token-model_of id source_read_at versions)
        (elim (Bool-cases (is_newer source_read_at (versions id))) [
          | inl e ↦ rw e (
              ap (λ (m : ReadModel). (m, none))
                (remove_free-model_of id source_read_at versions named))
          | inr e ↦ rw e refl
        ])
