-- ===== src/Product/Repository/SkuMap.antt =====
-- The maps from a sku to its id that a batch's store keeps (`upsertMany` of
-- src/modules/product/db/product-repository.ts).
use promotion_management_api.Base.{
  ℕ, ◌≡◌, refl, sym, ◌∙◌, inl, inr, Bool, true, some, List, [], ◌∷◌, ◌++◌, Bool-cases, Option-cases,
  any,
}
use promotion_management_api.Base.Texts.{Text, text_eq, text_eq_iff}
use promotion_management_api.Product.Repository.{
  Product, ProductUpsert, find, map_set, map_get, map_set_all, found_of, found_row,
}
use promotion_management_api.Product.Repository.Table.{find-sku}
use promotion_management_api.Product.Repository.Statement.{id_at, AreIds}

map_set-AreIds :
    (table : List Product) (sku : Text) (id : ℕ) (entries : List (Text × ℕ))
    → id_at sku table ≡ some id
    → AreIds table entries
    → AreIds table (map_set sku id entries)
unfolding map_set
map_set-AreIds table sku id [] h a = (h, tt)
map_set-AreIds table sku id ((k, v) ∷ rest) h (p, a) = elim (Bool-cases (text_eq k sku)) [
  | inl e ↦ rw e (rw ((text_eq_iff k sku).0 e) h, a)
  | inr e ↦ rw e (p, map_set-AreIds table sku id rest h a)
]

pub map_set_all-AreIds :
    (table : List Product) (stored entries : List (Text × ℕ))
    → AreIds table stored
    → AreIds table entries
    → AreIds table (map_set_all stored entries)
unfolding map_set_all
map_set_all-AreIds table [] entries a b = b
map_set_all-AreIds table ((sku, id) ∷ stored) entries (h, a) b =
    map_set_all-AreIds table stored (map_set sku id entries) a
      (map_set-AreIds table sku id entries h b)

pub found_of-AreIds :
    (table : List Product) (rows : List ProductUpsert) → AreIds table (found_of rows table)
unfolding found_of found_row
found_of-AreIds table [] = tt
found_of-AreIds table (row ∷ rows) = elim (Option-cases (find row.sku table)) [
  | inl e ↦ rw e (found_of-AreIds table rows)
  | inr (p, e) ↦
      let own : p.sku ≡ row.sku = (text_eq_iff p.sku row.sku).0 (find-sku row.sku table e) in
      rw e (rw own (rw e refl), found_of-AreIds table rows)
]

pub map_get-AreIds :
    (table : List Product) (sku : Text) (entries : List (Text × ℕ)) {id : ℕ}
    → AreIds table entries
    → map_get sku entries ≡ some id
    → id_at sku table ≡ some id
unfolding map_get
map_get-AreIds table sku [] a h = cc
map_get-AreIds table sku ((k, v) ∷ rest) (p, a) h = elim (Bool-cases (text_eq k sku)) [
  | inl e ↦ rw (sym ((text_eq_iff k sku).0 e)) (p ∙ rw e at h)
  | inr e ↦ map_get-AreIds table sku rest a (rw e at h)
]

-- Whether a map or a list of pairs has a key.
abbrev pub has : Text → List (Text × ℕ) → Bool
has sku = any (λ (entry : Text × ℕ). text_eq entry.0 sku)

pub map_get-has :
    (sku : Text) (entries : List (Text × ℕ))
    → has sku entries ≡ true
    → (id : ℕ) × (map_get sku entries ≡ some id)
unfolding map_get
map_get-has sku [] h = cc
map_get-has sku ((k, v) ∷ rest) h = elim (Bool-cases (text_eq k sku)) [
  | inl e ↦ rw e (v, refl)
  | inr e ↦ rw e (map_get-has sku rest (rw e at h))
]

pub has-map_get :
    (sku : Text) (entries : List (Text × ℕ)) {id : ℕ}
    → map_get sku entries ≡ some id
    → has sku entries ≡ true
unfolding map_get
has-map_get sku [] h = cc
has-map_get sku ((k, v) ∷ rest) h = elim (Bool-cases (text_eq k sku)) [
  | inl e ↦ rw e refl
  | inr e ↦ rw e (has-map_get sku rest (rw e at h))
]

has-map_set_kept :
    (sku k : Text) (id : ℕ) (entries : List (Text × ℕ))
    → has sku entries ≡ true
    → has sku (map_set k id entries) ≡ true
unfolding map_set
has-map_set_kept sku k id [] h = cc
has-map_set_kept sku k id ((j, v) ∷ rest) h = elim (Bool-cases (text_eq j k)) [
  | inl e ↦ rw e h
  | inr e ↦ rw e (elim (Bool-cases (text_eq j sku)) [
    | inl f ↦ rw f refl
    | inr f ↦ rw f (has-map_set_kept sku k id rest (rw f at h))
  ])
]

has-map_set_new :
    (sku k : Text) (id : ℕ) (entries : List (Text × ℕ))
    → text_eq k sku ≡ true
    → has sku (map_set k id entries) ≡ true
unfolding map_set
has-map_set_new sku k id [] h = rw h refl
has-map_set_new sku k id ((j, v) ∷ rest) h = elim (Bool-cases (text_eq j k)) [
  | inl e ↦ rw e (rw ((text_eq_iff j k).0 e, h) refl)
  | inr e ↦ rw e (elim (Bool-cases (text_eq j sku)) [
    | inl f ↦ rw f refl
    | inr f ↦ rw f (has-map_set_new sku k id rest h)
  ])
]

pub has-map_set_all_kept :
    (sku : Text) (stored entries : List (Text × ℕ))
    → has sku entries ≡ true
    → has sku (map_set_all stored entries) ≡ true
unfolding map_set_all
has-map_set_all_kept sku [] entries h = h
has-map_set_all_kept sku ((k, id) ∷ stored) entries h =
    has-map_set_all_kept sku stored (map_set k id entries) (has-map_set_kept sku k id entries h)

pub has-map_set_all_new :
    (sku : Text) (stored entries : List (Text × ℕ))
    → has sku stored ≡ true
    → has sku (map_set_all stored entries) ≡ true
unfolding map_set_all
has-map_set_all_new sku [] entries h = cc
has-map_set_all_new sku ((k, id) ∷ stored) entries h = elim (Bool-cases (text_eq k sku)) [
  | inl e ↦
      has-map_set_all_kept sku stored (map_set k id entries) (has-map_set_new sku k id entries e)
  | inr e ↦ has-map_set_all_new sku stored (map_set k id entries) (rw e at h)
]

pub has-append_left :
    (sku : Text) (xs ys : List (Text × ℕ)) → has sku xs ≡ true → has sku (xs ++ ys) ≡ true
has-append_left sku [] ys h = cc
has-append_left sku ((k, v) ∷ xs) ys h = elim (Bool-cases (text_eq k sku)) [
  | inl e ↦ rw e refl
  | inr e ↦ rw e (has-append_left sku xs ys (rw e at h))
]

pub has-append_right :
    (sku : Text) (xs ys : List (Text × ℕ)) → has sku ys ≡ true → has sku (xs ++ ys) ≡ true
has-append_right sku [] ys h = h
has-append_right sku ((k, v) ∷ xs) ys h = elim (Bool-cases (text_eq k sku)) [
  | inl e ↦ rw e refl
  | inr e ↦ rw e (has-append_right sku xs ys h)
]

pub found_row-has :
    (sku : Text) (rows : List Product) {id : ℕ}
    → id_at sku rows ≡ some id
    → has sku (found_row (find sku rows)) ≡ true
unfolding found_row
found_row-has sku rows h = elim (Option-cases (find sku rows)) [
  | inl e ↦ cc (rw e at h)
  | inr (p, e) ↦ rw e (rw (find-sku sku rows e) refl)
]
