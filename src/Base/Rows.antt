-- ===== src/Base/Rows.antt =====
-- The rows of a table: the statements that change or find some of them, membership, and facts about
-- every two rows.
use promotion_management_api.Base.{
  ◌≤◌, ◌≡◌, ◌≢◌, refl, sym, ap, ◌∙◌, inl, inr, Bool, true, false, ◌||◌, Option, none, some, List,
  [], ◌∷◌, ◌++◌, map, arith, if◌then◌else◌, Bool-cases, All, any, filterb, length,
}

-- `UPDATE ... SET ... WHERE`
abbrev pub update {ℓ} : {A : Type ℓ} → (A → Bool) → (A → A) → List A → List A
update matches set [] = []
update matches set (row ∷ rows) =
    if matches row then set row ∷ update matches set rows else row ∷ update matches set rows

-- The first row of a `SELECT` or a `RETURNING`.
abbrev pub first_match {ℓ} : {A : Type ℓ} → (A → Bool) → List A → Option A
first_match p [] = none
first_match p (row ∷ rows) = if p row then some row else first_match p rows

-- A row that stands in a list.
pub data In {ℓ} {A : Type ℓ} (x : A) : List A → Type ℓ where
  here : {y : A} {ys : List A} → x ≡ y → In x (y ∷ ys)
  later : {y : A} {ys : List A} → In x ys → In x (y ∷ ys)

module _ {ℓ} {A : Type ℓ} where
  pub In-All {κ} : (P : A → Type κ) {x : A} (xs : List A) → All P xs → In x xs → P x
  In-All P [] h m = elim m [ ]
  In-All P (y ∷ ys) (p, h) (here e) = rw e p
  In-All P (y ∷ ys) (p, h) (later m) = In-All P ys h m

  pub All-of_In {κ} : (P : A → Type κ) (xs : List A) → ((x : A) → In x xs → P x) → All P xs
  All-of_In P [] f = tt
  All-of_In P (x ∷ xs) f = (f x (here refl), All-of_In P xs (λ y m. f y (later m)))

  pub any-In : (p : A → Bool) {x : A} (xs : List A) → any p xs ≡ false → In x xs → p x ≡ false
  any-In p [] h m = elim m [ ]
  any-In p (y ∷ ys) h (here e) = rw e (or_left (p y) _ h)
    where
      or_left : (a b : Bool) → (a || b) ≡ false → a ≡ false
      or_left a b h = ground arith
  any-In p (y ∷ ys) h (later m) = any-In p ys (or_right (p y) _ h) m
    where
      or_right : (a b : Bool) → (a || b) ≡ false → b ≡ false
      or_right a b h = ground arith

  -- A fact about every row and each one behind it.
  abbrev pub Pairs {κ} : (A → A → Type κ) → List A → Type κ
  Pairs R [] = Unit
  Pairs R (x ∷ xs) = All (R x) xs × Pairs R xs

  pub Pairs-snoc {κ} :
      (R : A → A → Type κ) (xs : List A) (y : A)
      → Pairs R xs
      → All (λ x. R x y) xs
      → Pairs R (xs ++ y ∷ [])
  Pairs-snoc R [] y h k = (tt, tt)
  Pairs-snoc R (x ∷ xs) y (h, t) (k, l) = (All-snoc xs h, Pairs-snoc R xs y t l)
    where
      All-snoc : (zs : List A) → All (R x) zs → All (R x) (zs ++ y ∷ [])
      All-snoc [] u = (k, tt)
      All-snoc (z ∷ zs) (u, v) = (u, All-snoc zs v)

  pub All-both {κ μ} :
      (P : A → Type κ) (Q : A → Type μ) (xs : List A)
      → All P xs
      → All Q xs
      → All (λ x. P x × Q x) xs
  All-both P Q [] h k = tt
  All-both P Q (x ∷ xs) (p, h) (q, k) = ((p, q), All-both P Q xs h k)

  pub Pairs-both {κ μ} :
      (R : A → A → Type κ) (S : A → A → Type μ) (xs : List A)
      → Pairs R xs
      → Pairs S xs
      → Pairs (λ x y. R x y × S x y) xs
  Pairs-both R S [] h k = tt
  Pairs-both R S (x ∷ xs) (p, h) (q, k) = (All-both (R x) (S x) xs p q, Pairs-both R S xs h k)

  pub In-filterb : (p : A → Bool) {x : A} (xs : List A) → In x xs → p x ≡ true → In x (filterb p xs)
  In-filterb p [] m h = elim m [ ]
  In-filterb p (y ∷ ys) (here e) h = rw (rw e at h) (here e)
  In-filterb p (y ∷ ys) (later m) h = elim (Bool-cases (p y)) [
    | inl e ↦ rw e (later (In-filterb p ys m h))
    | inr e ↦ rw e (In-filterb p ys m h)
  ]

  -- Rows of distinct keys are told apart by them.
  pub In-unique {κ} :
      {K : Type κ} (key : A → K) {x y : A} (xs : List A)
      → Pairs (λ u v. key u ≢ key v) xs
      → In x xs
      → In y xs
      → key x ≡ key y
      → x ≡ y
  In-unique key [] d m n e = elim m [ ]
  In-unique key (z ∷ zs) d (here p) (here q) e = p ∙ sym q
  In-unique key (z ∷ zs) (d, _) (here p) (later n) e =
      absurd (In-All (λ v. key z ≢ key v) zs d n (ap key (sym p) ∙ e))
  In-unique key (z ∷ zs) (d, _) (later m) (here q) e =
      absurd (In-All (λ v. key z ≢ key v) zs d m (sym (e ∙ ap key q)))
  In-unique key (z ∷ zs) (_, d) (later m) (later n) e = In-unique key zs d m n e

  pub update-map :
      (m : A → Bool) (set : A → A) (xs : List A)
      → update m set xs ≡ map (λ x. if m x then set x else x) xs
  update-map m set [] = refl
  update-map m set (x ∷ xs) = elim (Bool-cases (m x)) [
    | inl e ↦ rw e (ap (◌∷◌ (set x)) (update-map m set xs))
    | inr e ↦ rw e (ap (◌∷◌ x) (update-map m set xs))
  ]

  pub first_match-some :
      (m : A → Bool) (xs : List A) {x : A} → first_match m xs ≡ some x → In x xs × (m x ≡ true)
  first_match-some m [] h = cc
  first_match-some m (y ∷ ys) h = elim (Bool-cases (m y)) [
    | inl e ↦ let same = some_injective (rw e at h) in (here same, rw same e)
    | inr e ↦ let (i, k) = first_match-some m ys (rw e at h) in (later i, k)
  ]
    where
      some_injective : {a b : A} → some a ≡ some b → b ≡ a
      some_injective h = cc

  pub first_match-none :
      (m : A → Bool) (xs : List A) {x : A} → first_match m xs ≡ none → In x xs → m x ≡ false
  first_match-none m [] h i = elim i [ ]
  first_match-none m (y ∷ ys) h (here same) = elim (Bool-cases (m y)) [
    | inl e ↦ cc (rw e at h)
    | inr e ↦ rw same e
  ]
  first_match-none m (y ∷ ys) h (later i) = elim (Bool-cases (m y)) [
    | inl e ↦ cc (rw e at h)
    | inr e ↦ first_match-none m ys (rw e at h) i
  ]

-- A relation of every two rows goes over to the changed rows, if it does for each two of them.
pub Pairs-map {ℓ κ μ ν} :
    {A : Type ℓ} {B : Type κ} (R : A → A → Type μ) (S : B → B → Type ν) (f : A → B) (xs : List A)
    → ((x y : A) → In x xs → In y xs → R x y → S (f x) (f y))
    → Pairs R xs
    → Pairs S (map f xs)
Pairs-map R S f [] g h = tt
Pairs-map R S f (x ∷ xs) g (h, k) =
    (front xs (λ y m. m) h, Pairs-map R S f xs (λ y z m n. g y z (later m) (later n)) k)
  where
    front : (ys : List _) → ((y : _) → In y ys → In y xs) → All (R x) ys → All (S (f x)) (map f ys)
    front [] into h = tt
    front (y ∷ ys) into (r, h) =
        (g x y (here refl) (later (into y (here refl))) r, front ys (λ z m. into z (later m)) h)

-- Of rows of which no two pass a test, at most one passes.
pub length-filterb_one {ℓ κ} :
    {A : Type ℓ} (R : A → A → Type κ) (p : A → Bool) (xs : List A)
    → ((x y : A) → R x y → p x ≡ true → p y ≡ false)
    → Pairs R xs
    → length (filterb p xs) ≤ 1
length-filterb_one R p [] clash h = omega arith
length-filterb_one R p (x ∷ xs) clash (h, k) = elim (Bool-cases (p x)) [
  | inl e ↦ rw (e, none_left xs h e) (omega arith)
  | inr e ↦ rw e (length-filterb_one R p xs clash k)
]
  where
    none_left : (ys : List _) → All (R x) ys → p x ≡ true → filterb p ys ≡ []
    none_left [] h e = refl
    none_left (y ∷ ys) (r, h) e = rw (clash x y r e) (none_left ys h e)
