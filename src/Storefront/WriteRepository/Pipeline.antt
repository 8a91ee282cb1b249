-- ===== src/Storefront/WriteRepository/Pipeline.antt =====
-- The pipelines of a bulk write (`appliedAll` of
-- src/modules/storefront/db/product-write-repository.ts) against one run of all the calls.
use promotion_management_api.Base.{
  ℕ, zero, suc, ◌≤◌, ◌≡◌, refl, sym, ap, ◌∙◌, List, [], ◌∷◌, ◌++◌, arith, take, drop, length, map,
  length-drop, take-append-drop,
}
use promotion_management_api.Base.Texts.{Text}
use promotion_management_api.Base.Result.{Result, ok}
use promotion_management_api.Storefront.WriteRepository.{
  run_all, replied, replies_of, in_pipelines, applied_all,
}

module _ {ℓ κ μ} {C : Type ℓ} {M : Type κ} {R : Type μ} (call : C → M → M × R) where
  pub run_all-append :
      (xs ys : List C) (model : M)
      → run_all call (xs ++ ys) model ≡ (
        (run_all call ys (run_all call xs model).0).0,
        (run_all call xs model).1 ++ (run_all call ys (run_all call xs model).0).1,
      )
  unfolding run_all
  run_all-append [] ys model = refl
  run_all-append (x ∷ xs) ys model = rw (run_all-append xs ys (call x model).0) refl

  run_all-nil : (model : M) → run_all call [] model ≡ (model, [])
  unfolding run_all
  run_all-nil model = refl

  run_all-replied :
      (calls : List C) (model : M)
      → run_all (replied call) calls model
        ≡ ((run_all call calls model).0, map ok (run_all call calls model).1)
  unfolding run_all replied
  run_all-replied [] model = refl
  run_all-replied (c ∷ calls) model = rw (run_all-replied calls (call c model).0) refl

  replies_of-ok : (answers : List R) → replies_of (map ok answers) ≡ ok answers
  unfolding replies_of
  replies_of-ok [] = refl
  replies_of-ok (answer ∷ answers) = rw (replies_of-ok answers) refl

  answered : M × List R → M × Result Text (List R)
  answered (model, answers) = (model, ok answers)

  in_pipelines-run_all :
      (size rounds : ℕ) (calls : List C) (model : M)
      → 1 ≤ size
      → length calls ≤ rounds
      → in_pipelines (replied call) size rounds calls model ≡ answered (run_all call calls model)
  unfolding in_pipelines answered
  in_pipelines-run_all size zero [] model h k = rw (run_all-nil model) refl
  in_pipelines-run_all size zero (x ∷ xs) model h k = absurd (omega arith)
  in_pipelines-run_all size (suc rounds) [] model h k = rw (run_all-nil model) refl
  in_pipelines-run_all size (suc rounds) (x ∷ xs) model h k =
      let calls = x ∷ xs in
      let next = (run_all call (take size calls) model).0 in
      let again : in_pipelines (replied call) size rounds (drop size calls) next
          ≡ answered (run_all call (drop size calls) next) =
        in_pipelines-run_all size rounds (drop size calls) next h
          (omega (arith, length-drop size calls)) in
      rw (run_all-replied (take size calls) model) (
        rw (replies_of-ok (run_all call (take size calls) model).1, again)
          (ap answered (
            sym (run_all-append (take size calls) (drop size calls) model)
            ∙ ap (λ (l : List C). run_all call l model) (take-append-drop size calls))))

  -- If every call of a bulk write is replied to, its pipelines have the effect of all the calls, in
  -- order, and answer what all the calls answer.
  pub applied_all-run_all :
      (calls : List C) (model : M)
      → applied_all (replied call) calls model
        ≡ ((run_all call calls model).0, ok (run_all call calls model).1)
  unfolding applied_all answered
  applied_all-run_all calls model =
      in_pipelines-run_all 1000 (length calls) calls model (omega arith) (omega arith)
