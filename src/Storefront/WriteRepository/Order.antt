-- ===== src/Storefront/WriteRepository/Order.antt =====
-- Writes that arrive in any order (src/modules/storefront/db/product-write-repository.ts): each one
-- carries what PostgreSQL said of a product, and the instant at which it said so.
use mathlib.Core.Path.{subst, fun_ext}
use promotion_management_api.Base.{
  ℕ, ◌≡◌, refl, ap, ◌∙◌, inl, inr, false, Option, none, some, List, [], ◌∷◌, if◌then◌else◌, ltb,
  ◌==◌, ==_iff, Bool-cases,
}
use promotion_management_api.Base.Texts.{Text}
use promotion_management_api.Storefront.ProductPricer.{ProductEntry}
use promotion_management_api.Storefront.WriteRepository.{
  ReadModel, empty_model, write_script, remove_script, run_all,
}
use promotion_management_api.Storefront.WriteRepository.Versions.{
  Version, Versions, is_newer, settle, product_in, model_of, answer, IsNamed,
}
use promotion_management_api.Storefront.WriteRepository.Sets.{version}
use promotion_management_api.Storefront.WriteRepository.Refinement.{
  write_script-model_of, remove_script-model_of,
}

-- What PostgreSQL says of a product at an instant.
abbrev pub History : Type 0
History = ℕ → ℕ → Option ProductEntry

pub record IsHistory (history : History) : Type 0 where
  pub own_id : (id t : ℕ) {entry : ProductEntry} → history id t ≡ some entry → entry.id ≡ id
  pub named : (id t : ℕ) → IsNamed (history id t)

-- A product that was there is written, one that was gone is removed.
unfoldable pub call_of :
    (ℕ → Text) → Option ProductEntry → ℕ → ℕ → ReadModel → ReadModel × Option Text
call_of iso none id t = remove_script id t
call_of iso (some entry) id t = write_script iso entry t

-- The call that follows a read of a product at an instant.
abbrev pub recompute : (ℕ → Text) → History → ℕ × ℕ → ReadModel → ReadModel × Option Text
recompute iso history (id, t) = call_of iso (history id t) id t

abbrev pub later : ℕ → Option ℕ → Option ℕ
later t none = some t
later t (some u) = if ltb u t then some t else some u

-- The latest instant at which a product was read.
unfoldable pub latest : ℕ → List (ℕ × ℕ) → Option ℕ → Option ℕ
latest id [] acc = acc
latest id ((i, t) ∷ reads) acc = latest id reads (if id == i then later t acc else acc)

abbrev pub version_at : History → ℕ → Option ℕ → Option Version
version_at history id none = none
version_at history id (some t) = some (record { source_read_at = t; product = history id t })

abbrev pub versions_at : History → (ℕ → Option ℕ) → Versions
versions_at history instants id = version_at history id (instants id)

module _ (iso : ℕ → Text) (history : History) (is_history : IsHistory history) where
  version_at-IsNamed : (id : ℕ) (o : Option ℕ) → IsNamed (product_in (version_at history id o))
  version_at-IsNamed id none = tt
  version_at-IsNamed id (some t) = is_history.named id t

  call_of-model_of :
      (o : Option ProductEntry) (id t : ℕ) (versions : Versions)
      → ((entry : ProductEntry) → o ≡ some entry → entry.id ≡ id)
      → IsNamed (product_in (versions id))
      → call_of iso o id t (model_of iso versions) ≡ (
        model_of iso (settle id (record { source_read_at = t; product = o }) versions),
        answer t (versions id),
      )
  unfolding call_of
  call_of-model_of none id t versions own named = remove_script-model_of iso id t versions named
  call_of-model_of (some entry) id t versions own named =
      let e : entry.id ≡ id = own entry refl in
      subst
        (λ (k : ℕ).
          IsNamed (product_in (versions k))
          → write_script iso entry t (model_of iso versions)
            ≡ (model_of iso (settle k (version t entry) versions), answer t (versions k)))
        e (write_script-model_of iso entry t versions) named

  settle-later :
      (id t : ℕ) (o : Option ℕ)
      → (if is_newer t (version_at history id o)
          then some (record { source_read_at = t; product = history id t })
          else version_at history id o)
        ≡ version_at history id (later t o)
  settle-later id t none = refl
  settle-later id t (some u) = elim (Bool-cases (ltb u t)) [ inl e ↦ rw e refl | inr e ↦ rw e refl ]

  settle-here :
      (id : ℕ) (v : Version) (versions : Versions)
      → settle id v versions id
        ≡ (if is_newer v.source_read_at (versions id) then some v else versions id)
  settle-here id v versions = elim (Bool-cases (is_newer v.source_read_at (versions id))) [
    | inl e ↦ rw e (rw ((==_iff id id).1 refl) refl)
    | inr e ↦ rw e refl
  ]

  settle-other :
      (id i : ℕ) (v : Version) (versions : Versions)
      → (i == id) ≡ false
      → settle id v versions i ≡ versions i
  settle-other id i v versions h = elim (Bool-cases (is_newer v.source_read_at (versions id))) [
    | inl e ↦ rw e (rw h refl)
    | inr e ↦ rw e refl
  ]

  settle-versions_at :
      (id t : ℕ) (instants : ℕ → Option ℕ)
      → settle id
          (record { source_read_at = t; product = history id t })
          (versions_at history instants)
        ≡ versions_at history (λ i. if i == id then later t (instants i) else instants i)
  settle-versions_at id t instants = fun_ext (λ i. elim (Bool-cases (i == id)) [
    | inl here ↦ rw here (
        rw ((==_iff i id).0 here) (
          settle-here id (record { source_read_at = t; product = history id t })
            (versions_at history instants)
          ∙ settle-later id t (instants id)))
    | inr there ↦
        settle-other id i (record { source_read_at = t; product = history id t })
          (versions_at history instants) there
        ∙ rw there refl
  ])

  recompute-versions_at :
      (id t : ℕ) (instants : ℕ → Option ℕ)
      → (recompute iso history (id, t) (model_of iso (versions_at history instants))).0
        ≡ model_of iso
            (versions_at history (λ i. if i == id then later t (instants i) else instants i))
  recompute-versions_at id t instants =
      ap (λ (r : ReadModel × Option Text). r.0)
        (call_of-model_of (history id t) id t (versions_at history instants)
          (λ entry h. is_history.own_id id t h) (version_at-IsNamed id (instants id)))
      ∙ ap (model_of iso) (settle-versions_at id t instants)

  recomputes-versions_at :
      (reads : List (ℕ × ℕ)) (instants : ℕ → Option ℕ)
      → (run_all (recompute iso history) reads (model_of iso (versions_at history instants))).0
        ≡ model_of iso (versions_at history (λ id. latest id reads (instants id)))
  unfolding run_all latest
  recomputes-versions_at [] instants = refl
  recomputes-versions_at ((id, t) ∷ reads) instants =
      rw (recompute-versions_at id t instants)
        (recomputes-versions_at reads (λ i. if i == id then later t (instants i) else instants i))

  -- After any number of recomputes of any products, in any order and any number of times each, the
  -- read model holds for every product what PostgreSQL said at the latest instant at which that
  -- product was read: its token, its hash, its one category set and its score in the set of all
  -- products, or only a token if it was gone. A product that was never read is nowhere.
  pub run_all-latest :
      (reads : List (ℕ × ℕ))
      → (run_all (recompute iso history) reads empty_model).0
        ≡ model_of iso (versions_at history (λ id. latest id reads none))
  unfolding model_of
  run_all-latest reads = recomputes-versions_at reads (λ id. none)
