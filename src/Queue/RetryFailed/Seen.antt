-- ===== src/Queue/RetryFailed/Seen.antt =====
-- The jobs that a retry has seen (`retryFailed` of src/shared/queue/event-queue.ts).
use promotion_management_api.Base.{
  ℕ, ◌≤◌, ◌<◌, ◌≡◌, ◌≢◌, refl, sym, ap, inl, inr, true, false, not, Option, none, some, List, [],
  ◌∷◌, arith, All, Bool-cases, filterb, length,
}
use promotion_management_api.Base.Texts.{Text, text_eq, text_eq_iff}
use promotion_management_api.Base.Rows.{In, here, later}
use promotion_management_api.Queue.RetryFailed.{has, fresh_of}

abbrev pub unseen : List Text → List Text → ℕ
unseen jobs seen = length (filterb (λ id. not (has seen id)) jobs)

-- One more seen id leaves fewer jobs, if it is one of them.
unseen_less : (id : Text) (seen jobs : List Text) → (unseen jobs (id ∷ seen) ≤ unseen jobs seen)
unseen_less id seen [] = omega arith
unseen_less id seen (j ∷ jobs) =
    let rest = unseen_less id seen jobs in
    elim (Bool-cases (has seen j)) [
      | inl e ↦ elim (Bool-cases (text_eq j id)) [ inl d ↦ rw (e, d) rest | inr d ↦ rw (e, d) rest ]
      | inr e ↦ elim (Bool-cases (text_eq j id)) [
        | inl d ↦ rw (e, d) (omega (arith, rest))
        | inr d ↦ rw (e, d) (omega (arith, rest))
      ]
    ]

pub unseen_fewer :
    (id : Text) (seen jobs : List Text)
    → In id jobs
    → has seen id ≡ false
    → unseen jobs (id ∷ seen) < unseen jobs seen
unseen_fewer id seen [] m h = elim m [ ]
unseen_fewer id seen (j ∷ jobs) (here same) h =
    let rest = unseen_less id seen jobs in
    let d : text_eq j id ≡ true = (text_eq_iff j id).1 (sym same) in
    let e : has seen j ≡ false = rw (← same) h in rw (e, d) (omega (arith, rest))
unseen_fewer id seen (j ∷ jobs) (later m) h =
    let rest = unseen_fewer id seen jobs m h in
    elim (Bool-cases (has seen j)) [
      | inl e ↦ elim (Bool-cases (text_eq j id)) [ inl d ↦ rw (e, d) rest | inr d ↦ rw (e, d) rest ]
      | inr e ↦ elim (Bool-cases (text_eq j id)) [
        | inl d ↦ rw (e, d) (omega (arith, rest))
        | inr d ↦ rw (e, d) (omega (arith, rest))
      ]
    ]

-- The ids of a page.
abbrev pub named : List (Option Text) → List Text
named [] = []
named (none ∷ failed) = named failed
named (some id ∷ failed) = id ∷ named failed

pub fresh_of-named :
    (seen : List Text) (failed : List (Option Text))
    → fresh_of seen failed ≡ filterb (λ id. not (has seen id)) (named failed)
unfolding fresh_of
fresh_of-named seen [] = refl
fresh_of-named seen (none ∷ failed) = fresh_of-named seen failed
fresh_of-named seen (some id ∷ failed) = elim (Bool-cases (has seen id)) [
  | inl e ↦ rw e (fresh_of-named seen failed)
  | inr e ↦ rw e (ap (◌∷◌ id) (fresh_of-named seen failed))
]

pub none_unseen :
    (seen ids : List Text)
    → filterb (λ id. not (has seen id)) ids ≡ []
    → All (λ id. has seen id ≡ true) ids
none_unseen seen [] h = tt
none_unseen seen (id ∷ ids) h = elim (Bool-cases (has seen id)) [
  | inl e ↦ (e, none_unseen seen ids (rw e at h))
  | inr e ↦ absurd (cons_not_nil (rw e at h))
]
  where
    cons_not_nil : {x : Text} {xs : List Text} → x ∷ xs ≡ [] → ⊥
    cons_not_nil h = cc

text_neq : (s t : Text) → t ≢ s → text_eq s t ≡ false
text_neq s t differ = elim (Bool-cases (text_eq s t)) [
  | inl e ↦ absurd (differ (sym ((text_eq_iff s t).0 e)))
  | inr e ↦ e
]

pub has_more : (id x : Text) (seen : List Text) → has seen x ≡ true → has (id ∷ seen) x ≡ true
has_more id x seen h = ground arith

pub has_none :
    (id x : Text) (seen : List Text) → id ≢ x → has seen x ≡ false → has (id ∷ seen) x ≡ false
has_none id x seen differ h = rw (text_neq x id differ) h

pub has_first : (id : Text) (seen : List Text) → has (id ∷ seen) id ≡ true
has_first id seen = rw ((text_eq_iff id id).1 refl) refl
