-- ===== src/Storefront/WriteRepository/Sets.antt =====
-- The category sets under the scripts of src/modules/storefront/db/product-write-repository.ts.
use promotion_management_api.Base.{
  ℕ, ◌≡◌, ◌≢◌, refl, sym, ◌∙◌, inl, inr, true, false, Option, none, some, [], ◌∷◌, if◌then◌else◌,
  ◌==◌, ==_iff, Bool-cases,
}
use mathlib.Core.Path.{subst}
use promotion_management_api.Base.Texts.{Text, text_eq, text_eq_iff}
use promotion_management_api.Storefront.ProductPricer.{ProductEntry}
use promotion_management_api.Storefront.WriteRepository.{put, put_in, is_empty, leave_category}
use promotion_management_api.Storefront.WriteRepository.Versions.{
  Version, Versions, category_of, score_in, product_in, IsNamed,
}

is_empty-false : (s : Text) → s ≢ [] → is_empty s ≡ false
unfolding is_empty
is_empty-false [] h = absurd (h refl)
is_empty-false (c ∷ s) h = refl

-- Leaving its category, a product is in no set.
leave_category-none :
    (o : Option ProductEntry) (sets : Text → ℕ → Option ℕ) (id : ℕ) (name : Text)
    → IsNamed o
    → ((n : Text) → sets n id ≡ score_in n o)
    → leave_category (category_of o) id sets name id ≡ none
unfolding leave_category score_in category_of is_empty
leave_category-none none sets id name h k = k name
leave_category-none (some e) sets id name h k =
    rw (is_empty-false e.category h) (elim (Bool-cases (text_eq name e.category)) [
      | inl t ↦ rw t (rw ((==_iff id id).1 refl) refl)
      | inr t ↦ rw t (k name ∙ rw t refl)
    ])

leave_category-other :
    (was : Text) (sets : Text → ℕ → Option ℕ) (id i : ℕ) (name : Text)
    → (i == id) ≡ false
    → leave_category was id sets name i ≡ sets name i
unfolding leave_category
leave_category-other was sets id i name h = elim (Bool-cases (is_empty was)) [
  | inl e ↦ rw e refl
  | inr e ↦
      rw e (elim (Bool-cases (text_eq name was)) [ inl t ↦ rw t (rw h refl) | inr t ↦ rw t refl ])
]

-- The sets after a write, one product and one category at a time.
written_sets :
    (entry : ProductEntry) (old : Option ProductEntry) (sets : Text → ℕ → Option ℕ) (name : Text)
    → IsNamed old
    → ((n : Text) → sets n entry.id ≡ score_in n old)
    → text_eq name entry.category ≡ false
    → (if text_eq (category_of old) entry.category
          then sets
          else leave_category (category_of old) entry.id sets)
        name entry.id
      ≡ none
unfolding score_in category_of
written_sets entry old sets name named k h =
    elim (Bool-cases (text_eq (category_of old) entry.category)) [
      | inl e ↦ rw e (k name ∙ not_listed old e)
      | inr e ↦ rw e (leave_category-none old sets entry.id name named k)
    ]
  where
    not_listed :
        (o : Option ProductEntry)
        → text_eq (category_of o) entry.category ≡ true
        → score_in name o ≡ none
    not_listed none e = refl
    not_listed (some was) e = rw ((text_eq_iff was.category entry.category).0 e, h) refl

put_in-listed :
    (category : Text) (id : ℕ) (score : Option ℕ) (sets : Text → ℕ → Option ℕ) (name : Text)
    → text_eq name category ≡ true
    → put_in category id score sets name id ≡ score
put_in-listed category id score sets name t = rw t (rw ((==_iff id id).1 refl) refl)

put_in-unlisted :
    (category : Text) (id : ℕ) (score : Option ℕ) (sets : Text → ℕ → Option ℕ) (name : Text) (i : ℕ)
    → text_eq name category ≡ false
    → put_in category id score sets name i ≡ sets name i
put_in-unlisted category id score sets name i t = rw t refl

put_in-other :
    (category : Text) (id : ℕ) (score : Option ℕ) (sets : Text → ℕ → Option ℕ) (name : Text) (i : ℕ)
    → (i == id) ≡ false
    → put_in category id score sets name i ≡ sets name i
put_in-other category id score sets name i h = elim (Bool-cases (text_eq name category)) [
  | inl t ↦ rw t (rw h refl)
  | inr t ↦ rw t refl
]

abbrev pub scores : Versions → Text → ℕ → Option ℕ
scores versions name id = score_in name (product_in (versions id))

-- The category sets once a product has left the set of its old category.
abbrev pub left_sets : ProductEntry → Versions → Text → ℕ → Option ℕ
left_sets entry versions =
    let was = category_of (product_in (versions entry.id)) in
    if text_eq was entry.category
    then scores versions
    else leave_category was entry.id (scores versions)

left_sets-other :
    (entry : ProductEntry) (versions : Versions) (name : Text) (i : ℕ)
    → (i == entry.id) ≡ false
    → left_sets entry versions name i ≡ scores versions name i
left_sets-other entry versions name i h =
    elim (Bool-cases (text_eq (category_of (product_in (versions entry.id))) entry.category)) [
      | inl e ↦ rw e refl
      | inr e ↦ rw e (
          leave_category-other (category_of (product_in (versions entry.id))) (scores versions)
            entry.id i name h)
    ]

abbrev pub version : ℕ → ProductEntry → Version
version source_read_at entry = record { source_read_at = source_read_at; product = some entry }

abbrev pub Written : ProductEntry → ℕ → Versions → Text → ℕ → Type 0
Written entry source_read_at versions name i =
    put_in entry.category entry.id (some entry.effective_price_cents) (left_sets entry versions)
      name i
    ≡ scores (put entry.id (some (version source_read_at entry)) versions) name i

written_here :
    (entry : ProductEntry) (source_read_at : ℕ) (versions : Versions) (name : Text)
    → IsNamed (product_in (versions entry.id))
    → Written entry source_read_at versions name entry.id
unfolding score_in
written_here entry source_read_at versions name named =
    rw ((==_iff entry.id entry.id).1 refl) (elim (Bool-cases (text_eq name entry.category)) [
      | inl t ↦
          put_in-listed entry.category entry.id (some entry.effective_price_cents)
            (left_sets entry versions) name t
          ∙ sym (rw t refl)
      | inr t ↦
          put_in-unlisted entry.category entry.id (some entry.effective_price_cents)
            (left_sets entry versions) name entry.id t
          ∙ written_sets entry (product_in (versions entry.id)) (scores versions) name named
              (λ n. refl) t
          ∙ sym (rw t refl)
    ])

pub written_categories :
    (entry : ProductEntry) (source_read_at : ℕ) (versions : Versions) (name : Text) (i : ℕ)
    → IsNamed (product_in (versions entry.id))
    → Written entry source_read_at versions name i
written_categories entry source_read_at versions name i named = elim (Bool-cases (i == entry.id)) [
  | inl here ↦
      subst (Written entry source_read_at versions name) (sym ((==_iff i entry.id).0 here))
        (written_here entry source_read_at versions name named)
  | inr there ↦
      put_in-other entry.category entry.id (some entry.effective_price_cents)
        (left_sets entry versions) name i there
      ∙ left_sets-other entry versions name i there
      ∙ sym (rw there refl)
]

abbrev pub gone : ℕ → Version
gone source_read_at = record { source_read_at = source_read_at; product = none }

pub removed_categories :
    (id source_read_at : ℕ) (versions : Versions) (name : Text) (i : ℕ)
    → IsNamed (product_in (versions id))
    → leave_category (category_of (product_in (versions id))) id (scores versions) name i
      ≡ scores (put id (some (gone source_read_at)) versions) name i
unfolding score_in
removed_categories id source_read_at versions name i named = elim (Bool-cases (i == id)) [
  | inl here ↦ rw ((==_iff i id).0 here) (
      leave_category-none (product_in (versions id)) (scores versions) id name named (λ n. refl)
      ∙ sym (rw ((==_iff id id).1 refl) refl))
  | inr there ↦
      leave_category-other (category_of (product_in (versions id))) (scores versions) id i name
        there
      ∙ sym (rw there refl)
]
