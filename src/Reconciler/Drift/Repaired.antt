-- ===== src/Reconciler/Drift/Repaired.antt =====
-- When a repair finds nothing to do (src/modules/reconciler/commands/repair-drift-command.ts).
use mathlib.Core.Path.{subst}
use promotion_management_api.Base.{
  ℕ, ◌+◌, ◌≤◌, ◌≡◌, ◌⊎◌, ◌↔◌, refl, sym, ap, ◌∙◌, inl, inr, List, [], ◌∷◌, arith, All, Bool-cases,
  ◌==◌, ==_iff, eq_refl,
}
use promotion_management_api.Base.Texts.{Text}
use promotion_management_api.Base.Result.{Result, ok, >>=-ok, ok-injective}
use promotion_management_api.Product.Repository.{Product}
use promotion_management_api.Storefront.ProductSource.{category_counts}
use promotion_management_api.Storefront.ProductSource.Counts.{in_category, category_counts-All}
use promotion_management_api.Reconciler.Drift.{
  Repair, with_rebuilt, repair_one, repair_all, repair_drift,
}

module _ {M Fault : Type 0} (count : Text → M → Result Fault ℕ)
    (rebuild_category : Text → M → Result Fault (M × ℕ)) where
  -- What one pass of the loop does: nothing where the counts agree, else one more repair.
  repair_one_cases :
      (category : Text) (products listed : ℕ) (r : Repair M) {next : Repair M}
      → repair_one count rebuild_category category products listed r ≡ ok next
      → ((listed ≡ products) × (next ≡ r)) ⊎ (next.repaired ≡ r.repaired + 1)
  repair_one_cases category products listed r {next} h = elim (Bool-cases (listed == products)) [
    | inl e ↦ inl ((==_iff listed products).0 e, sym (ok-injective (rw e at h)))
    | inr e ↦
        let (result, _, k) =
          >>=-ok (rebuild_category category r.model)
            (λ n. ok (with_rebuilt count rebuild_category category r n)) {last = next}
            (rw e at h) in
        inr (sym (ap (λ (s : Repair M). s.repaired) (ok-injective k)))
  ]

  repaired_grows :
      (expected : List (Text × ℕ)) (r : Repair M) {s : Repair M}
      → repair_all count rebuild_category expected r ≡ ok s
      → r.repaired ≤ s.repaired
  unfolding repair_all
  repaired_grows [] r {s} h =
      subst (λ (t : Repair M). r.repaired ≤ t.repaired) (ok-injective h) (omega arith)
  repaired_grows ((category, products) ∷ expected) r {s} h =
      let (listed, e, h1) = >>=-ok (count category r.model) _ h in
      let (next, d, h2) =
        >>=-ok (repair_one count rebuild_category category products listed r)
          (repair_all count rebuild_category expected) h1 in
      let after = repaired_grows expected next h2 in
      elim (repair_one_cases category products listed r d) [
        | inl (_, same) ↦ subst (λ (t : Repair M). t.repaired ≤ s.repaired) same after
        | inr more ↦ omega (arith, after, more)
      ]

  repair_all-quiet :
      (expected : List (Text × ℕ)) (r : Repair M) {s : Repair M}
      → repair_all count rebuild_category expected r ≡ ok s
      → s.repaired ≤ r.repaired
      → All (λ (c : Text × ℕ). count c.0 r.model ≡ ok c.1) expected
  unfolding repair_all
  repair_all-quiet [] r h k = tt
  repair_all-quiet ((category, products) ∷ expected) r {s} h k =
      let (listed, e, h1) = >>=-ok (count category r.model) _ h in
      let (next, d, h2) =
        >>=-ok (repair_one count rebuild_category category products listed r)
          (repair_all count rebuild_category expected) h1 in
      elim (repair_one_cases category products listed r d) [
        | inl (agree, same) ↦ (
          e ∙ ap ok agree,
          repair_all-quiet expected r
              (subst (λ (t : Repair M). repair_all count rebuild_category expected t ≡ ok s) same
                h2)
              k,
        )
        | inr more ↦ absurd (omega (arith, repaired_grows expected next h2, more, k))
      ]

  repair_all-agreed :
      (expected : List (Text × ℕ)) (r : Repair M)
      → All (λ (c : Text × ℕ). count c.0 r.model ≡ ok c.1) expected
      → repair_all count rebuild_category expected r ≡ ok r
  unfolding repair_all
  repair_all-agreed [] r h = refl
  repair_all-agreed ((category, products) ∷ expected) r (e, h) =
      rw e (rw (eq_refl products) (repair_all-agreed expected r h))

  repair_drift-agreed :
      (expected : List (Text × ℕ)) (model : M) {r : Repair M}
      → repair_drift count rebuild_category expected model ≡ ok r
      → (r.repaired ≡ 0) ↔ All (λ (c : Text × ℕ). count c.0 model ≡ ok c.1) expected
  unfolding repair_drift
  repair_drift-agreed expected model {r} h = (
    λ none. repair_all-quiet expected _ h (omega (arith, none)),
    λ agreed.
        ap (λ (s : Repair M). s.repaired)
          (ok-injective (sym h ∙ repair_all-agreed expected _ agreed)),
  )

  -- A run that does not throw repairs nothing exactly if, in the category of every product of the
  -- table, Redis lists as many products as the table has in it. A category that only Redis lists is
  -- not compared.
  pub repair_drift-quiet :
      (products : List Product) (model : M) {r : Repair M}
      → repair_drift count rebuild_category (category_counts products) model ≡ ok r
      → (r.repaired ≡ 0)
        ↔ All
            (λ (p : Product). count p.category model ≡ ok (in_category p.category products))
            products
  repair_drift-quiet products model {r} h =
      let (quiet, agreed) = repair_drift-agreed (category_counts products) model h in
      let (each, all) = category_counts-All (λ category n. count category model ≡ ok n) products in
      (λ none. each (quiet none), λ a. agreed (all a))
