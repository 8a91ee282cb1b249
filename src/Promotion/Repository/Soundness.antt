-- ===== src/Promotion/Repository/Soundness.antt =====
-- What the constraints keep true of the promotions table, whatever statements run on it.
use promotion_management_api.Base.{
  ℕ, ◌+◌, ◌<◌, ◌≡◌, ◌≢◌, refl, sym, ◌∙◌, inl, inr, Bool, true, false, Option, none, some, List, [],
  ◌∷◌, map, arith, if◌then◌else◌, Bool-cases, Option-cases, All, All-imp, All-append, any,
}
use promotion_management_api.Base.Texts.{Text, text_eq, text_eq_iff}
use promotion_management_api.Base.Rows.{
  update, In, here, later, In-All, Pairs-both, All-of_In, any-In, Pairs, Pairs-snoc, Pairs-map,
  update-map,
}
use promotion_management_api.Promotion.Table.{
  Promotion, Promotions, passes_checks, same_product, same_category, conflicts, violation,
}
use promotion_management_api.Promotion.Repository.{CreatePromotion, inserted, insert}

text_eq_comm : (s t : Text) → text_eq s t ≡ text_eq t s
text_eq_comm s t = elim (Bool-cases (text_eq s t)) [
  | inl e ↦ rw e (sym ((text_eq_iff t s).1 (sym ((text_eq_iff s t).0 e))))
  | inr e ↦ elim (Bool-cases (text_eq t s)) [
    | inl d ↦ cc (e, (text_eq_iff s t).1 (sym ((text_eq_iff t s).0 d)))
    | inr d ↦ rw (e, d) refl
  ]
]

same_product_comm : (a b : Option ℕ) → same_product a b ≡ same_product b a
same_product_comm none none = refl
same_product_comm none (some b) = refl
same_product_comm (some a) none = refl
same_product_comm (some a) (some b) = ground arith

same_category_comm : (a b : Option Text) → same_category a b ≡ same_category b a
same_category_comm none none = refl
same_category_comm none (some b) = refl
same_category_comm (some a) none = refl
same_category_comm (some a) (some b) = text_eq_comm a b

pub conflicts_comm : (a b : Promotion) → conflicts a b ≡ false → conflicts b a ≡ false
unfolding conflicts
conflicts_comm a b h =
    ground
      (arith, same_product_comm a.product_id b.product_id, same_category_comm a.category b.category)

-- Every row passes the checks, the ids are distinct and already given out, and no two rows conflict.
pub record IsConstrained (table : Promotions) : Type 0 where
  pub checked : All (λ (r : Promotion). passes_checks r ≡ true) table.rows
  pub numbered : All (λ (r : Promotion). r.id < table.next_id) table.rows
  pub distinct : Pairs (λ (r s : Promotion). r.id ≢ s.id) table.rows
  pub apart : Pairs (λ (r s : Promotion). conflicts r s ≡ false) table.rows

pub violation-checks :
    (exists : ℕ → Bool) (row : Promotion) (others : List Promotion)
    → violation exists row others ≡ none
    → (passes_checks row ≡ true) × (any (conflicts row) others ≡ false)
unfolding violation
violation-checks exists row others h = ground arith

All-suc :
    (next : ℕ) (rows : List Promotion)
    → All (λ (r : Promotion). r.id < next) rows
    → All (λ (r : Promotion). r.id < next + 1) rows
All-suc next rows h = All-imp rows (λ r p. omega arith) h

pub insert-IsConstrained :
    (exists : ℕ → Bool) (input : CreatePromotion) (now : ℕ) (table : Promotions)
    → IsConstrained table
    → IsConstrained (insert exists input now table).0
unfolding insert inserted
insert-IsConstrained exists input now table sound =
    let row = inserted input table.next_id now in
    elim (Option-cases (violation exists row table.rows)) [
      | inl e ↦
          let (passes, free) = violation-checks exists row table.rows e in
          rw e (record {
            checked = All-append _ table.rows (row ∷ []) sound.checked (passes, tt);
            numbered =
                All-append _ table.rows (row ∷ []) (All-suc table.next_id table.rows sound.numbered)
                  (omega arith, tt);
            distinct =
                Pairs-snoc _ table.rows row sound.distinct
                  (All-imp table.rows (λ r p same. omega arith) sound.numbered);
            apart = Pairs-snoc _ table.rows row sound.apart (
                All-of_In _ table.rows
                  (λ r i. conflicts_comm row r (any-In (conflicts row) table.rows free i)));
          })
      | inr (fault, e) ↦ rw e (record {
        checked = sound.checked;
        numbered = All-suc table.next_id table.rows sound.numbered;
        distinct = sound.distinct;
        apart = sound.apart;
      })
    ]

-- A change of some rows that keeps their ids.
module _ (table : Promotions) (sound : IsConstrained table) (matches : Promotion → Bool)
    (set : Promotion → Promotion) (keeps_id : (r : Promotion) → (set r).id ≡ r.id) where
  changed : Promotion → Promotion
  changed r = if matches r then set r else r

  changed_id : (r : Promotion) → (changed r).id ≡ r.id
  unfolding changed
  changed_id r = elim (Bool-cases (matches r)) [ inl e ↦ rw e (keeps_id r) | inr e ↦ rw e refl ]

  All-changed :
      (P : Promotion → Type 0) (rows : List Promotion)
      → ((r : Promotion) → In r rows → P (changed r))
      → All P (map changed rows)
  All-changed P [] f = tt
  All-changed P (r ∷ rows) f = (f r (here refl), All-changed P rows (λ s i. f s (later i)))

  abbrev pub Clears : Type 0
  Clears =
      (r s : Promotion)
      → In r table.rows
      → In s table.rows
      → r.id ≢ s.id
      → conflicts r s ≡ false
      → matches r ≡ true
      → (matches s ≡ false → conflicts (set r) s ≡ false)
        × (matches s ≡ true → conflicts (set r) (set s) ≡ false)

  changed-conflicts :
      Clears
      → (r s : Promotion) → In r table.rows
      → In s table.rows
      → r.id ≢ s.id
      → conflicts r s ≡ false
      → conflicts (changed r) (changed s) ≡ false
  unfolding changed
  changed-conflicts free r s i j differ clear = elim (Bool-cases (matches r)) [
    | inl m ↦ elim (Bool-cases (matches s)) [
      | inl n ↦ rw (m, n) ((free r s i j differ clear m).1 n)
      | inr n ↦ rw (m, n) ((free r s i j differ clear m).0 n)
    ]
    | inr m ↦ elim (Bool-cases (matches s)) [
      | inl n ↦
          rw (m, n)
            (conflicts_comm (set s) r
              ((free s r j i (λ e. differ (sym e)) (conflicts_comm r s clear) n).0 m))
      | inr n ↦ rw (m, n) clear
    ]
  ]

  -- Sound rows stay sound if each changed one passes the checks and conflicts with no other id.
  pub update-IsConstrained :
      ((r : Promotion) → In r table.rows → matches r ≡ true → passes_checks (set r) ≡ true)
      → Clears
      → IsConstrained (record table { rows = update matches set table.rows })
  unfolding changed
  update-IsConstrained passes free = rw (update-map matches set table.rows) (record {
    checked = All-changed _ table.rows (λ r i. elim (Bool-cases (matches r)) [
      | inl e ↦ rw e (passes r i e)
      | inr e ↦ rw e (In-All _ table.rows sound.checked i)
    ]);
    numbered =
        All-changed _ table.rows (λ r i. rw (changed_id r) (In-All _ table.rows sound.numbered i));
    distinct =
        Pairs-map _ _ changed table.rows
          (λ r s i j apart same. apart (sym (changed_id r) ∙ same ∙ changed_id s)) sound.distinct;
    apart =
        Pairs-map _ _ changed table.rows
          (λ r s i j (differ, clear). changed-conflicts free r s i j differ clear)
          (Pairs-both _ _ table.rows sound.distinct sound.apart);
  })
