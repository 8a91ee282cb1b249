-- ===== src/Base/Sort.antt =====
-- `Array.prototype.sort`: a stable sort by a comparator, here by insertion.
use mathlib.Core.List.{Perm}
use mathlib.Core.List.Perm
use promotion_management_api.Base.{
  suc, ◌≡◌, refl, ap, ◌∙◌, length, Bool, true, false, List, [], ◌∷◌, All, if◌then◌else◌, Bool-cases,
  inl, inr,
}

-- `before a b` is `compare(a, b) < 0`.
module _ {ℓ} {A : Type ℓ} (before : A → A → Bool) where
  unfoldable pub insert_by : A → List A → List A
  insert_by x [] = x ∷ []
  insert_by x (y ∷ ys) = if before y x then y ∷ insert_by x ys else x ∷ y ∷ ys

  unfoldable pub sort_by : List A → List A
  unfolding insert_by
  sort_by [] = []
  sort_by (x ∷ xs) = insert_by x (sort_by xs)

  length-insert_by : (x : A) (xs : List A) → length (insert_by x xs) ≡ suc (length xs)
  unfolding insert_by
  length-insert_by x [] = refl
  length-insert_by x (y ∷ ys) = elim (Bool-cases (before y x)) [
    | inl e ↦ rw e (ap suc (length-insert_by x ys))
    | inr e ↦ rw e refl
  ]

  pub length-sort_by : (xs : List A) → length (sort_by xs) ≡ length xs
  unfolding sort_by
  length-sort_by [] = refl
  length-sort_by (x ∷ xs) = length-insert_by x (sort_by xs) ∙ ap suc (length-sort_by xs)

  -- No later item stands before an earlier one.
  abbrev pub IsSortedBy : List A → Type 0
  IsSortedBy [] = Unit
  IsSortedBy (x ∷ xs) = All (λ y. before y x ≡ false) xs × IsSortedBy xs

  insert_by-perm : (x : A) (xs : List A) → Perm (insert_by x xs) (x ∷ xs)
  unfolding insert_by
  insert_by-perm x [] = Perm.refl (x ∷ [])
  insert_by-perm x (y ∷ ys) = elim (Bool-cases (before y x)) [
    | inl e ↦ rw e (Perm.trans (Perm.cons y (insert_by-perm x ys)) (Perm.swap x y ys))
    | inr e ↦ rw e (Perm.refl (x ∷ y ∷ ys))
  ]

  pub sort_by-perm : (xs : List A) → Perm (sort_by xs) xs
  unfolding sort_by
  sort_by-perm [] = Perm.refl []
  sort_by-perm (x ∷ xs) = Perm.trans (insert_by-perm x (sort_by xs)) (Perm.cons x (sort_by-perm xs))

-- What a comparator owes: `before` is the strict part of a total preorder.
pub record IsOrder {ℓ} {A : Type ℓ} (before : A → A → Bool) : Type ℓ where
  pub asym : (x y : A) → before x y ≡ true → before y x ≡ false
  pub trans : (x y z : A) → before y x ≡ false → before z y ≡ false → before z x ≡ false

module _ {ℓ} {A : Type ℓ} {before : A → A → Bool} (order : IsOrder before) where
  pub All-later :
      (x y : A) (ys : List A)
      → before y x ≡ false
      → All (λ z. before z y ≡ false) ys
      → All (λ z. before z x ≡ false) ys
  All-later x y [] h k = tt
  All-later x y (z ∷ ys) h (p, k) = (order.trans x y z h p, All-later x y ys h k)

  All-insert_by :
      (x y : A) (ys : List A)
      → before x y ≡ false
      → All (λ z. before z y ≡ false) ys
      → All (λ z. before z y ≡ false) (insert_by before x ys)
  unfolding insert_by
  All-insert_by x y [] h k = (h, tt)
  All-insert_by x y (z ∷ ys) h (p, k) = elim (Bool-cases (before z x)) [
    | inl e ↦ rw e (p, All-insert_by x y ys h k)
    | inr e ↦ rw e (h, (p, k))
  ]

  insert_by-IsSortedBy :
      (x : A) (xs : List A) → IsSortedBy before xs → IsSortedBy before (insert_by before x xs)
  unfolding insert_by
  insert_by-IsSortedBy x [] s = (tt, tt)
  insert_by-IsSortedBy x (y ∷ ys) (k, s) = elim (Bool-cases (before y x)) [
    | inl e ↦ rw e (All-insert_by x y ys (order.asym y x e) k, insert_by-IsSortedBy x ys s)
    | inr e ↦ rw e ((e, All-later x y ys e k), (k, s))
  ]

  pub sort_by-IsSortedBy : (xs : List A) → IsSortedBy before (sort_by before xs)
  unfolding sort_by
  sort_by-IsSortedBy [] = tt
  sort_by-IsSortedBy (x ∷ xs) = insert_by-IsSortedBy x (sort_by before xs) (sort_by-IsSortedBy xs)
