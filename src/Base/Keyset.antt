-- ===== src/Base/Keyset.antt =====
-- Keyset pages: `WHERE key > after ORDER BY key LIMIT n`, and the loop that walks them until a page
-- is empty.
pub mod Walk
use promotion_management_api.Base.{
  ℕ, zero, suc, ◌+◌, ◌-◌, ◌≤◌, ◌<◌, ◌≡◌, ◌≢◌, refl, sym, ap, ◌∙◌, inl, inr, Bool, true, false, List,
  [], ◌∷◌, ◌++◌, arith, if◌then◌else◌, ltb, Bool-cases, All, All-imp, filterb, take, drop, length,
  take-append-drop, length-drop,
}
use promotion_management_api.Base.Rows.{Pairs}
use promotion_management_api.Base.Sort.{
  insert_by, sort_by, IsSortedBy, IsOrder, All-later, sort_by-IsSortedBy,
}

-- The ids above `after`, in order, at most `limit` of them.
unfoldable pub ids_page : (limit : ℕ) → (ids : List ℕ) → (after : ℕ) → List ℕ
ids_page limit ids after = take limit (sort_by ltb (filterb (ltb after) ids))

abbrev pub last : ℕ → List ℕ → ℕ
last x [] = x
last x (y ∷ ys) = last y ys

abbrev pub visit : (ℕ → List (List ℕ)) → List ℕ → List (List ℕ)
visit go_on [] = []
visit go_on (x ∷ xs) = (x ∷ xs) ∷ go_on (last x xs)

-- The pages that the loop visits before one that is empty, at most `rounds` of them.
unfoldable pub pages : (rounds : ℕ) → (ℕ → List ℕ) → (after : ℕ) → List (List ℕ)
pages zero page after = []
pages (suc rounds) page after = visit (pages rounds page) (page after)

abbrev pub concat : List (List ℕ) → List ℕ
concat [] = []
concat (xs ∷ xss) = xs ++ concat xss

abbrev pub IsAscending : List ℕ → Type 0
IsAscending = Pairs ◌<◌

ltb-IsOrder : IsOrder ltb
ltb-IsOrder = record { asym = λ x y h. ground arith; trans = λ x y z h k. ground arith }

-- Distinct ids are sorted into ascending ones.
All-insert_by {κ} :
    (P : ℕ → Type κ) (x : ℕ) (ys : List ℕ) → P x → All P ys → All P (insert_by ltb x ys)
unfolding insert_by
All-insert_by P x [] p h = (p, tt)
All-insert_by P x (y ∷ ys) p (q, h) = elim (Bool-cases (ltb y x)) [
  | inl e ↦ rw e (q, All-insert_by P x ys p h)
  | inr e ↦ rw e (p, (q, h))
]

All-sort_by {κ} : (P : ℕ → Type κ) (xs : List ℕ) → All P xs → All P (sort_by ltb xs)
unfolding sort_by
All-sort_by P [] h = tt
All-sort_by P (x ∷ xs) (p, h) = All-insert_by P x (sort_by ltb xs) p (All-sort_by P xs h)

insert_by-IsAscending :
    (x : ℕ) (ys : List ℕ) → All (λ y. x ≢ y) ys → IsAscending ys → IsAscending (insert_by ltb x ys)
unfolding insert_by
insert_by-IsAscending x [] d a = (tt, tt)
insert_by-IsAscending x (y ∷ ys) (d, ds) (h, a) = elim (Bool-cases (ltb y x)) [
  | inl e ↦ rw e (All-insert_by (λ z. y < z) x ys (ground arith) h, insert_by-IsAscending x ys ds a)
  | inr e ↦
      let below : x < y = ground arith in rw e ((below, All-imp ys (λ z k. omega arith) h), (h, a))
]

pub sort_by-IsAscending : (xs : List ℕ) → Pairs (λ x y. x ≢ y) xs → IsAscending (sort_by ltb xs)
unfolding sort_by
sort_by-IsAscending [] d = tt
sort_by-IsAscending (x ∷ xs) (d, ds) =
    insert_by-IsAscending x (sort_by ltb xs) (All-sort_by (λ y. x ≢ y) xs d)
      (sort_by-IsAscending xs ds)

-- Filtering before the sort is filtering after it.
insert_by-front :
    (x : ℕ) (ys : List ℕ) → All (λ y. ltb y x ≡ false) ys → insert_by ltb x ys ≡ x ∷ ys
unfolding insert_by
insert_by-front x [] h = refl
insert_by-front x (y ∷ ys) (p, h) = rw p refl

All-filterb {κ} : (P : ℕ → Type κ) (p : ℕ → Bool) (xs : List ℕ) → All P xs → All P (filterb p xs)
All-filterb P p [] h = tt
All-filterb P p (x ∷ xs) (q, h) = elim (Bool-cases (p x)) [
  | inl e ↦ rw e (q, All-filterb P p xs h)
  | inr e ↦ rw e (All-filterb P p xs h)
]

filterb-insert_by :
    (p : ℕ → Bool) (x : ℕ) (ys : List ℕ)
    → IsSortedBy ltb ys
    → filterb p (insert_by ltb x ys)
      ≡ (if p x then insert_by ltb x (filterb p ys) else filterb p ys)
unfolding insert_by
filterb-insert_by p x [] s = elim (Bool-cases (p x)) [ inl e ↦ rw e refl | inr e ↦ rw e refl ]
filterb-insert_by p x (y ∷ ys) (h, s) = elim (Bool-cases (ltb y x)) [
  | inl before ↦ rw before (elim (Bool-cases (p y)) [
    | inl d ↦ elim (Bool-cases (p x)) [
      | inl e ↦ rw (d, e, before) (ap (◌∷◌ y) (filterb-insert_by p x ys s ∙ rw e refl))
      | inr e ↦ rw (d, e) (ap (◌∷◌ y) (filterb-insert_by p x ys s ∙ rw e refl))
    ]
    | inr d ↦ rw d (filterb-insert_by p x ys s)
  ])
  | inr behind ↦ rw behind (elim (Bool-cases (p x)) [
    | inl e ↦ rw e (
        sym (
          insert_by-front x (filterb p (y ∷ ys)) (
            All-filterb (λ z. ltb z x ≡ false) p (y ∷ ys)
              (behind, All-later ltb-IsOrder x y ys behind h))))
    | inr e ↦ rw e refl
  ])
]

pub filterb-sort_by :
    (p : ℕ → Bool) (xs : List ℕ) → sort_by ltb (filterb p xs) ≡ filterb p (sort_by ltb xs)
unfolding sort_by
filterb-sort_by p [] = refl
filterb-sort_by p (x ∷ xs) =
    let split = filterb-insert_by p x (sort_by ltb xs) (sort_by-IsSortedBy ltb-IsOrder xs) in
    elim (Bool-cases (p x)) [
      | inl e ↦ rw (split, e) (ap (insert_by ltb x) (filterb-sort_by p xs))
      | inr e ↦ rw (split, e) (filterb-sort_by p xs)
    ]

-- The ids past the last of the front ones are the others.
pub All-last : (x : ℕ) (ys zs : List ℕ) (P : ℕ → Type 0) → P x → All P (ys ++ zs) → P (last x ys)
All-last x [] zs P p h = p
All-last x (y ∷ ys) zs P p (q, h) = All-last y ys zs P q h

pub filterb-all : (a : ℕ) (xs : List ℕ) → All (λ x. a < x) xs → filterb (ltb a) xs ≡ xs
filterb-all a [] h = refl
filterb-all a (x ∷ xs) (p, h) =
    let e : ltb a x ≡ true = ground arith in rw e (ap (◌∷◌ x) (filterb-all a xs h))

pub filterb_last :
    (x : ℕ) (ys zs : List ℕ)
    → IsAscending (x ∷ ys ++ zs)
    → filterb (ltb (last x ys)) (x ∷ ys ++ zs) ≡ zs
filterb_last x [] zs (h, a) = let e : ltb x x ≡ false = ground arith in rw e (filterb-all x zs h)
filterb_last x (y ∷ ys) zs ((below, h), a) =
    let past : x < last y ys = All-last y ys zs (λ z. x < z) below h in
    let e : ltb (last y ys) x ≡ false = ground arith in rw e (filterb_last y ys zs a)

pub filterb-filterb :
    (a b : ℕ) (xs : List ℕ) → a ≤ b → filterb (ltb b) (filterb (ltb a) xs) ≡ filterb (ltb b) xs
filterb-filterb a b [] h = refl
filterb-filterb a b (x ∷ xs) h = elim (Bool-cases (ltb a x)) [
  | inl e ↦ rw e (elim (Bool-cases (ltb b x)) [
    | inl d ↦ rw d (ap (◌∷◌ x) (filterb-filterb a b xs h))
    | inr d ↦ rw d (filterb-filterb a b xs h)
  ])
  | inr e ↦ let d : ltb b x ≡ false = ground arith in rw (e, d) (filterb-filterb a b xs h)
]
