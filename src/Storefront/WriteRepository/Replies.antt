-- ===== src/Storefront/WriteRepository/Replies.antt =====
-- The replies of a bulk write, an error among them included (`appliedAll` of
-- src/modules/storefront/db/product-write-repository.ts).
use promotion_management_api.Base.{
  ℕ, zero, suc, ◌+◌, ◌*◌, ◌≤◌, ◌<◌, ◌≡◌, refl, sym, ap, ◌∙◌, List, [], ◌∷◌, ◌++◌, map, arith, take,
  drop, length, length-drop, length-append, take-append-drop,
}
use mathlib.Core.List.{append_assoc}
use promotion_management_api.Base.Texts.{Text}
use promotion_management_api.Base.Result.{Result, ok, err}
use promotion_management_api.Storefront.WriteRepository.{
  run_all, replies_of, after_replies, in_pipelines, applied_all,
}
use promotion_management_api.Storefront.WriteRepository.Pipeline.{run_all-append}

take_nil {ℓ} : {A : Type ℓ} (n : ℕ) → take {A = A} n [] ≡ []
take_nil zero = refl
take_nil (suc n) = refl

take_add {ℓ} :
    {A : Type ℓ} (m n : ℕ) (xs : List A) → take (m + n) xs ≡ take m xs ++ take n (drop m xs)
take_add zero n xs =
    let none_first : 0 + n ≡ n = omega arith in ap (λ (k : ℕ). take k xs) none_first
take_add (suc m) n [] = take_nil (suc m + n) ∙ sym (take_nil n)
take_add (suc m) n (x ∷ xs) =
    let one_first : suc m + n ≡ suc (m + n) = omega arith in
    ap (λ (k : ℕ). take k (x ∷ xs)) one_first ∙ ap (◌∷◌ x) (take_add m n xs)

-- What is taken is bounded by both, and what is left is the rest.
length-take {ℓ} :
    {A : Type ℓ} (m : ℕ) (xs : List A)
    → (length (take m xs) ≤ m)
      × (length (take m xs) ≤ length xs)
      × (length xs ≤ length (take m xs) + length (drop m xs))
length-take zero xs = (omega arith, omega arith, omega arith)
length-take (suc m) [] = (omega arith, omega arith, omega arith)
length-take (suc m) (x ∷ xs) =
    let (small, part, rest) = length-take m xs in (omega arith, omega arith, omega arith)

length-map {ℓ κ} :
    {A : Type ℓ} {B : Type κ} (f : A → B) (xs : List A) → length (map f xs) ≡ length xs
length-map f [] = refl
length-map f (x ∷ xs) = ap suc (length-map f xs)

map-append {ℓ κ} :
    {A : Type ℓ} {B : Type κ} (f : A → B) (xs ys : List A) → map f xs ++ map f ys ≡ map f (xs ++ ys)
map-append f [] ys = refl
map-append f (x ∷ xs) ys = ap (◌∷◌ (f x)) (map-append f xs ys)

-- Replies without an error, or with a first one.
pub data Replied {μ} {R : Type μ} (replies : List (Result Text R)) : Type μ where
  without_error :
      (answers : List R)
      → replies ≡ map ok answers
      → replies_of replies ≡ ok answers
      → Replied replies
  with_error :
      (answers : List R) (fault : Text) (later : List (Result Text R))
      → replies ≡ map ok answers ++ err fault ∷ later
      → replies_of replies ≡ err fault
      → Replied replies

Replied-cases {μ} : {R : Type μ} (replies : List (Result Text R)) → Replied replies
unfolding replies_of
Replied-cases [] = without_error [] refl refl
Replied-cases (err fault ∷ replies) = with_error [] fault replies refl refl
Replied-cases (ok answer ∷ replies) = elim (Replied-cases replies) [
  | without_error answers same read ↦
      without_error (answer ∷ answers) (ap (◌∷◌ (ok answer)) same) (rw read refl)
  | with_error answers fault later same read ↦
      with_error (answer ∷ answers) fault later (ap (◌∷◌ (ok answer)) same) (rw read refl)
]

module _ {ℓ κ μ} {C : Type ℓ} {M : Type κ} {R : Type μ} (call : C → M → M × Result Text R) where
  length-run_all : (calls : List C) (model : M) → length (run_all call calls model).1 ≡ length calls
  unfolding run_all
  length-run_all [] model = refl
  length-run_all (c ∷ calls) model = ap suc (length-run_all calls (call c model).0)

  length-ok : (answers : List R) → length (map {B = Result Text R} ok answers) ≡ length answers
  length-ok answers = length-map {B = Result Text R} ok answers

  -- How a bulk write ends that sends `size` calls a pipeline: with all calls made and all answers,
  -- or with the calls of the first pipelines made, up to and with the one of the first error, and
  -- that error.
  pub data IsApplied (size : ℕ) (calls : List C) (model : M) (outcome : M × Result Text (List R))
      : Type (κ ⊔ μ) where
    all_replied :
        (answers : List R)
        → run_all call calls model ≡ (outcome.0, map ok answers)
        → outcome.1 ≡ ok answers
        → IsApplied size calls model outcome
    stopped :
        (pipelines : ℕ) (answers : List R) (fault : Text) (later : List (Result Text R))
        → size * pipelines ≤ length answers
        → length answers < size * (pipelines + 1)
        → run_all call (take (size * (pipelines + 1)) calls) model
          ≡ (outcome.0, map ok answers ++ err fault ∷ later)
        → outcome.1 ≡ err fault
        → IsApplied size calls model outcome

  -- A pipeline whose replies have an error ends the bulk write.
  stopped_here :
      (size : ℕ) (calls : List C) (model : M) (outcome : M × Result Text (List R))
      (answers : List R) (fault : Text) (later : List (Result Text R))
      → run_all call (take size calls) model ≡ (outcome.0, map ok answers ++ err fault ∷ later)
      → outcome.1 ≡ err fault
      → IsApplied size calls model outcome
  stopped_here size calls model outcome answers fault later ran threw =
      let (small, part, rest) = length-take size calls in
      let whole = length-run_all (take size calls) model in
      let replied_to = sym (ap (λ (r : M × List (Result Text R)). length r.1) ran) ∙ whole in
      let parts = length-append (map ok answers) (err fault ∷ later) in
      let same = length-ok answers in
      stopped 0 answers fault later (omega arith) (omega (arith, small, replied_to, parts, same))
        (ap (λ (n : ℕ). run_all call (take n calls) model) (omega arith) ∙ ran) threw

  run_two :
      (xs ys : List C) (model : M) {next last : M} {rs ss : List (Result Text R)}
      → run_all call xs model ≡ (next, rs)
      → run_all call ys next ≡ (last, ss)
      → run_all call (xs ++ ys) model ≡ (last, rs ++ ss)
  run_two xs ys model e f = run_all-append call xs ys model ∙ rw e (rw f refl)

  -- The calls were answered one by one.
  answered_by :
      (calls : List C) (model : M) {next : M} {replies : List (Result Text R)}
      → run_all call calls model ≡ (next, replies)
      → length replies ≡ length calls
  answered_by calls model ran =
      sym (ap (λ (r : M × List (Result Text R)). length r.1) ran) ∙ length-run_all calls model

  -- A pipeline without an error that is followed by another one is full.
  full_pipeline :
      (size n : ℕ) (calls : List C) (model next last : M) (answers : List R) (reply : Result Text R)
      (before later : List (Result Text R))
      → run_all call (take size calls) model ≡ (next, map ok answers)
      → run_all call (take n (drop size calls)) next ≡ (last, before ++ reply ∷ later)
      → length answers ≡ size
  full_pipeline size n calls model next last answers reply before later ran run_rest =
      let (small, part, rest) = length-take size calls in
      let (_, more, _) = length-take n (drop size calls) in
      let here = answered_by (take size calls) model ran in
      let there = answered_by (take n (drop size calls)) next run_rest in
      let parts = length-append before (reply ∷ later) in
      let same = length-ok answers in
      let left = length-drop size calls in
      omega (arith, small, part, rest, more, here, there, parts, same, left)

  -- A pipeline without an error goes before the others.
  after_answers :
      (size : ℕ) (calls : List C) (model next : M) (answers : List R)
      (outcome : M × Result Text (List R))
      → run_all call (take size calls) model ≡ (next, map ok answers)
      → IsApplied size (drop size calls) next outcome
      → IsApplied size calls model (after_replies call next outcome (ok answers))
  unfolding after_replies
  after_answers size calls model next answers (last, result) ran (all_replied more run_rest ended) =
      rw ended (
        all_replied (answers ++ more)
          (ap (λ (l : List C). run_all call l model) (sym (take-append-drop size calls))
            ∙ run_two (take size calls) (drop size calls) model ran run_rest
            ∙ ap (λ (rs : List (Result Text R)). (last, rs)) (map-append ok answers more))
          refl)
  after_answers size calls model next answers (last, result) ran
        (stopped p a fault later low high run_rest threw) =
      let n = size * (p + 1) in
      let full =
        full_pipeline size n calls model next last answers (err fault) (map ok a) later ran
          run_rest in
      let both = length-append answers a in
      let count : size * ((p + 1) + 1) ≡ size + n = omega arith in
      rw threw (
        stopped (p + 1) (answers ++ a) fault later (omega (arith, full, both, low))
          (omega (arith, full, both, high))
          (ap (λ (k : ℕ). run_all call (take k calls) model) count
            ∙ ap (λ (l : List C). run_all call l model) (take_add size n calls)
            ∙ run_two (take size calls) (take n (drop size calls)) model ran run_rest
            ∙ ap (λ (rs : List (Result Text R)). (last, rs))
                (sym (append_assoc (map ok answers) (map ok a) (err fault ∷ later))
                  ∙ ap (λ (rs : List (Result Text R)). rs ++ err fault ∷ later)
                      (map-append ok answers a)))
          refl)

  no_calls : (model : M) → run_all call [] model ≡ (model, [])
  unfolding run_all
  no_calls model = refl

  in_pipelines-IsApplied :
      (size rounds : ℕ) (calls : List C) (model : M)
      → 1 ≤ size
      → length calls ≤ rounds
      → IsApplied size calls model (in_pipelines call size rounds calls model)
  unfolding in_pipelines
  in_pipelines-IsApplied size zero [] model h k = all_replied [] (no_calls model) refl
  in_pipelines-IsApplied size zero (c ∷ cs) model h k = absurd (omega arith)
  in_pipelines-IsApplied size (suc rounds) [] model h k = all_replied [] (no_calls model) refl
  in_pipelines-IsApplied size (suc rounds) (c ∷ cs) model h k =
      let calls = c ∷ cs in
      let next = (run_all call (take size calls) model).0 in
      let rest =
        in_pipelines-IsApplied size rounds (drop size calls) next h
          (omega (arith, length-drop size calls)) in
      elim (Replied-cases (run_all call (take size calls) model).1) [
        | without_error answers same read ↦ rw read (
            after_answers size calls model next answers _
              (ap (λ (rs : List (Result Text R)). (next, rs)) same) rest)
        | with_error answers fault later same read ↦ rw read (
            stopped_here size calls model (next, err fault) answers fault later
              (ap (λ (rs : List (Result Text R)). (next, rs)) same) refl)
      ]

  -- A bulk write of any calls, of which any may be replied to by an error, ends in one of two ways.
  -- If none of the replies is an error, all calls are made, in order, and their answers are the
  -- answers. Else the calls of the pipelines up to and with the one of the first error are made, in
  -- order, a thousand calls each or what is left of them, and no other; that error is thrown.
  pub applied_all-IsApplied :
      (calls : List C) (model : M) → IsApplied 1000 calls model (applied_all call calls model)
  unfolding applied_all
  applied_all-IsApplied calls model =
      in_pipelines-IsApplied 1000 (length calls) calls model (omega arith) (omega arith)
