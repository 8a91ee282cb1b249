-- ===== src/Base/Members.antt =====
-- Membership and distinctness through the list functions.
use promotion_management_api.Base.{
  ℕ, zero, suc, ap, map, take, ◌≡◌, ◌↔◌, ◌⊎◌, refl, sym, inl, inr, Bool, true, List, [], ◌∷◌, ◌++◌,
  ◌==◌, ==_iff, Bool-cases, All, All-imp, All-append, any, filterb,
}
use promotion_management_api.Base.Rows.{In, here, later, Pairs, All-of_In}
use promotion_management_api.Base.Sort.{insert_by, sort_by}

module _ {ℓ} {A : Type ℓ} where
  pub In-append_left : {x : A} (xs ys : List A) → In x xs → In x (xs ++ ys)
  In-append_left [] ys m = elim m [ ]
  In-append_left (x ∷ xs) ys (here e) = here e
  In-append_left (x ∷ xs) ys (later m) = later (In-append_left xs ys m)

  pub In-append_right : {x : A} (xs ys : List A) → In x ys → In x (xs ++ ys)
  In-append_right [] ys m = m
  In-append_right (x ∷ xs) ys m = later (In-append_right xs ys m)

  pub In-append_cases : {x : A} (xs ys : List A) → In x (xs ++ ys) → In x xs ⊎ In x ys
  In-append_cases [] ys m = inr m
  In-append_cases (x ∷ xs) ys (here e) = inl (here e)
  In-append_cases (x ∷ xs) ys (later m) = elim (In-append_cases xs ys m) [
    | inl n ↦ inl (later n)
    | inr n ↦ inr n
  ]

  In-cases : {x y : A} {ys : List A} → In x (y ∷ ys) → (x ≡ y) ⊎ In x ys
  In-cases (here e) = inl e
  In-cases (later m) = inr m

  pub In-filterb_cases :
      (p : A → Bool) {x : A} (xs : List A) → In x (filterb p xs) → In x xs × (p x ≡ true)
  In-filterb_cases p [] m = elim m [ ]
  In-filterb_cases p (y ∷ ys) m = elim (Bool-cases (p y)) [
    | inl e ↦ elim (In-cases (rw e at m)) [
      | inl d ↦ (here d, rw d e)
      | inr n ↦ let (k, q) = In-filterb_cases p ys n in (later k, q)
    ]
    | inr e ↦ let (n, q) = In-filterb_cases p ys (rw e at m) in (later n, q)
  ]

  -- A sort has the items of its list.
  module _ (before : A → A → Bool) where
    In-insert_by : {x : A} (y : A) (ys : List A) → In x (y ∷ ys) → In x (insert_by before y ys)
    unfolding insert_by
    In-insert_by y [] m = m
    In-insert_by y (z ∷ zs) m = elim (Bool-cases (before z y)) [
      | inl e ↦ rw e (elim (In-cases m) [
        | inl d ↦ later (In-insert_by y zs (here d))
        | inr n ↦ elim (In-cases n) [ inl d ↦ here d | inr k ↦ later (In-insert_by y zs (later k)) ]
      ])
      | inr e ↦ rw e m
    ]

    In-insert_by_cases :
        {x : A} (y : A) (ys : List A) → In x (insert_by before y ys) → In x (y ∷ ys)
    unfolding insert_by
    In-insert_by_cases y [] m = m
    In-insert_by_cases y (z ∷ zs) m = elim (Bool-cases (before z y)) [
      | inl e ↦ elim (In-cases (rw e at m)) [
        | inl d ↦ later (here d)
        | inr n ↦ elim (In-cases (In-insert_by_cases y zs n)) [
          | inl d ↦ here d
          | inr k ↦ later (later k)
        ]
      ]
      | inr e ↦ rw e at m
    ]

    pub In-sort_by : {x : A} (xs : List A) → In x (sort_by before xs) ↔ In x xs
    unfolding sort_by
    In-sort_by [] = (λ m. m, λ m. m)
    In-sort_by (y ∷ ys) = (
      λ m. elim (In-cases (In-insert_by_cases y (sort_by before ys) m)) [
        | inl e ↦ here e
        | inr n ↦ later ((In-sort_by ys).0 n)
      ],
      λ m.
          In-insert_by y (sort_by before ys)
            (elim (In-cases m) [ inl e ↦ here e | inr n ↦ later ((In-sort_by ys).1 n) ]),
    )

  pub Pairs-imp {κ μ} :
      {R : A → A → Type κ} {S : A → A → Type μ} (xs : List A)
      → ((x y : A) → R x y → S x y)
      → Pairs R xs
      → Pairs S xs
  Pairs-imp [] f h = tt
  Pairs-imp (x ∷ xs) f (h, k) = (All-imp xs (λ y r. f x y r) h, Pairs-imp xs f k)

  pub Pairs-filterb {κ} :
      (R : A → A → Type κ) (p : A → Bool) (xs : List A) → Pairs R xs → Pairs R (filterb p xs)
  Pairs-filterb R p [] h = tt
  Pairs-filterb R p (x ∷ xs) (h, k) = elim (Bool-cases (p x)) [
    | inl e ↦ rw e (front xs h, Pairs-filterb R p xs k)
    | inr e ↦ rw e (Pairs-filterb R p xs k)
  ]
    where
      front : (ys : List A) → All (R x) ys → All (R x) (filterb p ys)
      front [] h = tt
      front (y ∷ ys) (q, h) = elim (Bool-cases (p y)) [
        | inl e ↦ rw e (q, front ys h)
        | inr e ↦ rw e (front ys h)
      ]

  pub Pairs-append {κ} :
      (R : A → A → Type κ) (xs ys : List A)
      → Pairs R xs
      → Pairs R ys
      → ((x y : A) → In x xs → In y ys → R x y)
      → Pairs R (xs ++ ys)
  Pairs-append R [] ys h k f = k
  Pairs-append R (x ∷ xs) ys (h, t) k f = (
    All-append (R x) xs ys h (All-of_In (R x) ys (λ y m. f x y (here refl) m)),
    Pairs-append R xs ys t k (λ u v m n. f u v (later m) n),
  )

pub is_one_of_iff : (ids : List ℕ) (id : ℕ) → (any (λ i. i == id) ids ≡ true) ↔ In id ids
is_one_of_iff [] id = (λ h. cc, λ m. elim m [ ])
is_one_of_iff (i ∷ ids) id = elim (Bool-cases (i == id)) [
  | inl e ↦ rw e (λ h. here (sym ((==_iff i id).0 e)), λ m. refl)
  | inr e ↦ rw e (
    λ h. later ((is_one_of_iff ids id).0 h),
    λ m. elim (In-cases m) [
      | inl d ↦ cc (e, (==_iff i id).1 (sym d))
      | inr n ↦ (is_one_of_iff ids id).1 n
    ],
  )
]

pub In-map {ℓ κ} :
    {A : Type ℓ} {B : Type κ} (f : A → B) {x : A} (xs : List A) → In x xs → In (f x) (map f xs)
In-map f [] m = elim m [ ]
In-map f (y ∷ ys) (here e) = here (ap f e)
In-map f (y ∷ ys) (later m) = later (In-map f ys m)

pub In-map_cases {ℓ κ} :
    {A : Type ℓ} {B : Type κ} (f : A → B) {y : B} (xs : List A)
    → In y (map f xs)
    → (x : A) × In x xs × (y ≡ f x)
In-map_cases f [] m = elim m [ ]
In-map_cases f (x ∷ xs) (here e) = (x, here refl, e)
In-map_cases f (x ∷ xs) (later m) = let (z, i, e) = In-map_cases f xs m in (z, later i, e)

pub In-take {ℓ} : {A : Type ℓ} {x : A} (n : ℕ) (xs : List A) → In x (take n xs) → In x xs
In-take zero xs m = elim m [ ]
In-take (suc n) [] m = m
In-take (suc n) (y ∷ ys) (here e) = here e
In-take (suc n) (y ∷ ys) (later m) = later (In-take n ys m)
