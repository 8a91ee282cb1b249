-- ===== src/Product/Repository/Entries.antt =====
-- The map that a batch becomes, by its keys (`upsertMany` of
-- src/modules/product/db/product-repository.ts).
use promotion_management_api.Base.{
  ◌≡◌, refl, sym, inl, inr, true, false, List, [], ◌∷◌, Bool-cases, All,
}
use promotion_management_api.Base.Texts.{Text, text_eq, text_eq_iff}
use promotion_management_api.Product.Repository.{ProductUpsert, map_set, map_of}

-- The entries of a map by sku: every key once, each row under its own.
abbrev pub IsMap : List (Text × ProductUpsert) → Type 0
IsMap [] = Unit
IsMap ((k, row) ∷ rest) =
    (row.sku ≡ k)
    × All (λ (entry : Text × ProductUpsert). text_eq entry.0 k ≡ false) rest
    × IsMap rest

map_set-All :
    (k : Text) (row : ProductUpsert) (entries : List (Text × ProductUpsert))
    → text_eq row.sku k ≡ false
    → All (λ (entry : Text × ProductUpsert). text_eq entry.0 k ≡ false) entries
    → All
        (λ (entry : Text × ProductUpsert). text_eq entry.0 k ≡ false)
        (map_set row.sku row entries)
unfolding map_set
map_set-All k row [] h a = (h, tt)
map_set-All k row ((j, v) ∷ rest) h (p, a) = elim (Bool-cases (text_eq j row.sku)) [
  | inl e ↦ rw e (p, a)
  | inr e ↦ rw e (p, map_set-All k row rest h a)
]

text_eq-sym : (s t : Text) → text_eq s t ≡ false → text_eq t s ≡ false
text_eq-sym s t h = elim (Bool-cases (text_eq t s)) [
  | inl e ↦ let same : text_eq s t ≡ true = (text_eq_iff s t).1 (sym ((text_eq_iff t s).0 e)) in cc
  | inr e ↦ e
]

map_set-IsMap :
    (row : ProductUpsert) (entries : List (Text × ProductUpsert))
    → IsMap entries
    → IsMap (map_set row.sku row entries)
unfolding map_set
map_set-IsMap row [] m = (refl, tt, tt)
map_set-IsMap row ((k, v) ∷ rest) (own, different, m) = elim (Bool-cases (text_eq k row.sku)) [
  | inl e ↦ rw e (sym ((text_eq_iff k row.sku).0 e), different, m)
  | inr e ↦
      rw e
        (own, map_set-All k row rest (text_eq-sym k row.sku e) different, map_set-IsMap row rest m)
]

pub map_of-IsMap :
    (batch : List ProductUpsert) (entries : List (Text × ProductUpsert))
    → IsMap entries
    → IsMap (map_of batch entries)
unfolding map_of
map_of-IsMap [] entries m = m
map_of-IsMap (row ∷ batch) entries m =
    map_of-IsMap batch (map_set row.sku row entries) (map_set-IsMap row entries m)
