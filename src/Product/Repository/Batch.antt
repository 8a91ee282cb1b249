-- ===== src/Product/Repository/Batch.antt =====
-- What a batch says of a sku, read off its rows (`upsertMany` of
-- src/modules/product/db/product-repository.ts), and the map that the batch becomes.
use promotion_management_api.Base.{
  ◌≡◌, refl, sym, ap, ◌∙◌, inl, inr, arith, Bool, true, false, not, ◌&&◌, Option, none, some, List,
  [], ◌∷◌, ◌++◌, map, filterb, if◌then◌else◌, Bool-cases,
}
use mathlib.Core.List.{append_assoc, append-nil}
use promotion_management_api.Base.Texts.{Text, text_eq, text_eq_iff}
use promotion_management_api.Product.Repository.{
  ProductUpsert, map_set, map_get, map_of, values, distinct_rows,
}
use promotion_management_api.Product.Repository.Entries.{IsMap, map_of-IsMap}

-- The skus of a batch, each where it first stands.
abbrev pub first_skus : List ProductUpsert → List Text
first_skus [] = []
first_skus (row ∷ batch) = row.sku ∷ filterb (λ sku. not (text_eq sku row.sku)) (first_skus batch)

abbrev pub or_else : Option ProductUpsert → Option ProductUpsert → Option ProductUpsert
or_else (some row) other = some row
or_else none other = other

-- The last row of a sku in a batch.
abbrev pub last_of : Text → List ProductUpsert → Option ProductUpsert
last_of sku [] = none
last_of sku (row ∷ batch) =
    or_else (last_of sku batch) (if text_eq row.sku sku then some row else none)

map_get-map_set :
    (sku : Text) (row : ProductUpsert) (entries : List (Text × ProductUpsert))
    → map_get sku (map_set row.sku row entries)
      ≡ or_else (if text_eq row.sku sku then some row else none) (map_get sku entries)
unfolding map_get map_set
map_get-map_set sku row [] = elim (Bool-cases (text_eq row.sku sku)) [
  | inl e ↦ rw e refl
  | inr e ↦ rw e refl
]
map_get-map_set sku row ((k, v) ∷ rest) = elim (Bool-cases (text_eq k row.sku)) [
  | inl e ↦
      rw (e, (text_eq_iff k row.sku).0 e)
        (elim (Bool-cases (text_eq row.sku sku)) [ inl f ↦ rw f refl | inr f ↦ rw f refl ])
  | inr e ↦ rw e (elim (Bool-cases (text_eq k sku)) [
    | inl f ↦
        let other : text_eq row.sku sku ≡ false = elim (Bool-cases (text_eq row.sku sku)) [
          | inl g ↦
              let same : text_eq k row.sku ≡ true =
                (text_eq_iff k row.sku).1
                  ((text_eq_iff k sku).0 f ∙ sym ((text_eq_iff row.sku sku).0 g)) in
              cc
          | inr g ↦ g
        ] in
        rw (f, other) refl
    | inr f ↦ rw f (map_get-map_set sku row rest)
  ])
]

or_else_assoc : (a b c : Option ProductUpsert) → or_else (or_else a b) c ≡ or_else a (or_else b c)
or_else_assoc none b c = refl
or_else_assoc (some row) b c = refl

-- The map holds the last row of each sku.
pub map_get-map_of :
    (sku : Text) (batch : List ProductUpsert) (entries : List (Text × ProductUpsert))
    → map_get sku (map_of batch entries) ≡ or_else (last_of sku batch) (map_get sku entries)
unfolding map_of
map_get-map_of sku [] entries = refl
map_get-map_of sku (row ∷ batch) entries =
    map_get-map_of sku batch (map_set row.sku row entries)
    ∙ rw (map_get-map_set sku row entries) (
        sym (
          or_else_assoc (last_of sku batch) (if text_eq row.sku sku then some row else none)
            (map_get sku entries)))

abbrev is_in : Text → List Text → Bool
is_in sku [] = false
is_in sku (k ∷ ks) = if text_eq k sku then true else is_in sku ks

abbrev keys : List (Text × ProductUpsert) → List Text
keys = map (λ (entry : Text × ProductUpsert). entry.0)

is_in-append :
    (sku k : Text) (ks : List Text)
    → is_in sku (ks ++ k ∷ []) ≡ (if text_eq k sku then true else is_in sku ks)
is_in-append sku k [] = refl
is_in-append sku k (j ∷ ks) = elim (Bool-cases (text_eq j sku)) [
  | inl e ↦ rw e (elim (Bool-cases (text_eq k sku)) [ inl f ↦ rw f refl | inr f ↦ rw f refl ])
  | inr e ↦ rw e (is_in-append sku k ks)
]

keys-map_set :
    (k : Text) (row : ProductUpsert) (entries : List (Text × ProductUpsert))
    → keys (map_set k row entries)
      ≡ (if is_in k (keys entries) then keys entries else keys entries ++ k ∷ [])
unfolding map_set
keys-map_set k row [] = refl
keys-map_set k row ((j, v) ∷ rest) = elim (Bool-cases (text_eq j k)) [
  | inl e ↦ rw e refl
  | inr e ↦ rw e (ap (◌∷◌ j) (keys-map_set k row rest) ∙ push (is_in k (keys rest)))
]
  where
    push :
        (b : Bool)
        → j ∷ (if b then keys rest else keys rest ++ k ∷ [])
          ≡ (if b then j ∷ keys rest else j ∷ keys rest ++ k ∷ [])
    push true = refl
    push false = refl

filterb_twice :
    (p q r : Text → Bool) (skus : List Text)
    → ((sku : Text) → r sku ≡ (p sku && q sku))
    → filterb p (filterb q skus) ≡ filterb r skus
filterb_twice p q r [] h = refl
filterb_twice p q r (s ∷ skus) h = elim (Bool-cases (q s)) [
  | inl e ↦ elim (Bool-cases (p s)) [
    | inl f ↦
        let both : r s ≡ true = h s ∙ rw (f, e) refl in
        rw (e, both) (rw f (ap (◌∷◌ s) (filterb_twice p q r skus h)))
    | inr f ↦
        let neither : r s ≡ false = h s ∙ rw f refl in
        rw (e, neither) (rw f (filterb_twice p q r skus h))
  ]
  | inr e ↦
      let dropped : r s ≡ false = h s ∙ and_false (p s) (q s) e in
      rw (e, dropped) (filterb_twice p q r skus h)
]
  where
    and_false : (a b : Bool) → b ≡ false → (a && b) ≡ false
    and_false a b e = ground arith

abbrev new_skus : List Text → List Text → List Text
new_skus known = filterb (λ sku. not (is_in sku known))

-- A sku that is new to the keys, or known to them, ahead of the others.
new_skus-known :
    (k : Text) (known skus : List Text)
    → is_in k known ≡ true
    → new_skus known (filterb (λ sku. not (text_eq sku k)) skus) ≡ new_skus known skus
new_skus-known k known skus h = filterb_twice _ _ _ skus (λ sku. elim (Bool-cases (text_eq sku k)) [
  | inl e ↦ rw (e, (text_eq_iff sku k).0 e) (rw h refl)
  | inr e ↦ rw e (sym_and (not (is_in sku known)))
])
  where
    sym_and : (a : Bool) → a ≡ (a && true)
    sym_and a = ground arith

text_eq_comm : (s t : Text) → text_eq s t ≡ text_eq t s
text_eq_comm s t = elim (Bool-cases (text_eq s t)) [
  | inl e ↦ e ∙ sym ((text_eq_iff t s).1 (sym ((text_eq_iff s t).0 e)))
  | inr e ↦ elim (Bool-cases (text_eq t s)) [
    | inl f ↦
        let same : text_eq s t ≡ true = (text_eq_iff s t).1 (sym ((text_eq_iff t s).0 f)) in cc
    | inr f ↦ e ∙ sym f
  ]
]

new_skus-added :
    (k : Text) (known skus : List Text)
    → new_skus known (filterb (λ sku. not (text_eq sku k)) skus) ≡ new_skus (known ++ k ∷ []) skus
new_skus-added k known skus = filterb_twice _ _ _ skus (λ sku.
    rw (is_in-append sku k known, text_eq_comm sku k)
      (elim (Bool-cases (text_eq k sku)) [
        | inl e ↦ rw e (and_no (not (is_in sku known)))
        | inr e ↦ rw e (and_yes (not (is_in sku known)))
      ]))
  where
    and_no : (a : Bool) → false ≡ (a && false)
    and_no a = ground arith

    and_yes : (a : Bool) → a ≡ (a && true)
    and_yes a = ground arith

keys-map_of :
    (batch : List ProductUpsert) (entries : List (Text × ProductUpsert))
    → keys (map_of batch entries) ≡ keys entries ++ new_skus (keys entries) (first_skus batch)
unfolding map_of
keys-map_of [] entries = sym (append-nil (keys entries))
keys-map_of (row ∷ batch) entries =
    let skus = first_skus batch in
    let known = keys entries in
    keys-map_of batch (map_set row.sku row entries)
    ∙ rw (keys-map_set row.sku row entries) (elim (Bool-cases (is_in row.sku known)) [
      | inl e ↦ rw e (ap (◌++◌ known) (sym (new_skus-known row.sku known skus e)))
      | inr e ↦ rw e (
          append_assoc known (row.sku ∷ []) (new_skus (known ++ row.sku ∷ []) skus)
          ∙ ap (λ (l : List Text). known ++ row.sku ∷ l) (sym (new_skus-added row.sku known skus)))
    ])

skus-values :
    (entries : List (Text × ProductUpsert))
    → IsMap entries
    → map (λ (row : ProductUpsert). row.sku) (values entries) ≡ keys entries
unfolding values
skus-values [] m = refl
skus-values ((k, row) ∷ rest) (own, different, m) =
    rw (sym own) (ap (◌∷◌ row.sku) (skus-values rest m))

new_skus-nil : (skus : List Text) → new_skus [] skus ≡ skus
new_skus-nil [] = refl
new_skus-nil (s ∷ skus) = ap (◌∷◌ s) (new_skus-nil skus)

-- The rows that are stored are of the skus of the batch, each once.
pub skus-distinct_rows :
    (batch : List ProductUpsert)
    → map (λ (row : ProductUpsert). row.sku) (distinct_rows batch) ≡ first_skus batch
unfolding distinct_rows
skus-distinct_rows batch =
    skus-values (map_of batch []) (map_of-IsMap batch [] tt)
    ∙ keys-map_of batch []
    ∙ new_skus-nil (first_skus batch)
