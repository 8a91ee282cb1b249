-- ===== src/Base/Trim.antt =====
-- `String.prototype.trim`: it changes nothing the second time, and nothing where no space stands.
use promotion_management_api.Base.{
  ◌≡◌, refl, Bool, true, false, not, ◌&&◌, ◌||◌, [], ◌∷◌, all, ℕ, ◌∙◌, ap, if◌then◌else◌, inl, inr,
  Bool-cases, leb, ◌==◌,
}
use promotion_management_api.Base.Texts.{Text}

-- The characters that `String.prototype.trim` removes.
abbrev pub is_space : ℕ → Bool
is_space c =
    leb 9 c && leb c 13
    || c == 32
    || c == 0xa0
    || c == 0x1680
    || leb 0x2000 c && leb c 0x200a
    || c == 0x2028
    || c == 0x2029
    || c == 0x202f
    || c == 0x205f
    || c == 0x3000
    || c == 0xfeff

unfoldable pub trim_start : Text → Text
trim_start [] = []
trim_start (c ∷ s) = if is_space c then trim_start s else c ∷ s

-- Keeps a space only before a character that stays.
keep_space : ℕ → Text → Text
keep_space c [] = if is_space c then [] else c ∷ []
keep_space c (d ∷ s) = c ∷ d ∷ s

trim_end : Text → Text
trim_end [] = []
trim_end (c ∷ s) = keep_space c (trim_end s)

unfoldable pub trim : Text → Text
unfolding trim_start trim_end keep_space
trim s = trim_end (trim_start s)

keep_space_idem : (c : ℕ) (t : Text) → trim_end t ≡ t → trim_end (keep_space c t) ≡ keep_space c t
unfolding trim_end keep_space
keep_space_idem c [] h = elim (Bool-cases (is_space c)) [ inl e ↦ rw e | inr e ↦ rw e (rw e) ]
keep_space_idem c (d ∷ t) h = ap (keep_space c) h

trim_end_idem : (s : Text) → trim_end (trim_end s) ≡ trim_end s
unfolding trim_end
trim_end_idem [] = refl
trim_end_idem (c ∷ s) = keep_space_idem c (trim_end s) (trim_end_idem s)

-- After a character that is no space nothing is dropped at the start.
trim_start-keep_space :
    (c : ℕ) (t : Text) → is_space c ≡ false → trim_start (keep_space c t) ≡ keep_space c t
unfolding trim_start keep_space
trim_start-keep_space c [] h = rw h (rw h)
trim_start-keep_space c (d ∷ t) h = rw h

trim_start-trim_end : (s : Text) → trim_start (trim_end (trim_start s)) ≡ trim_end (trim_start s)
unfolding trim_start trim_end
trim_start-trim_end [] = refl
trim_start-trim_end (c ∷ s) = elim (Bool-cases (is_space c)) [
  | inl e ↦ rw e (trim_start-trim_end s)
  | inr e ↦ rw e (trim_start-keep_space c (trim_end s) e)
]

pub trim_idem : (s : Text) → trim (trim s) ≡ trim s
unfolding trim
trim_idem s = ap trim_end (trim_start-trim_end s) ∙ trim_end_idem (trim_start s)

keep_space-visible : (c : ℕ) (s : Text) → is_space c ≡ false → keep_space c s ≡ c ∷ s
unfolding keep_space
keep_space-visible c [] e = rw e
keep_space-visible c (d ∷ s) e = refl

trim_end-visible : (s : Text) → all (λ c. not (is_space c)) s ≡ true → trim_end s ≡ s
unfolding trim_end keep_space
trim_end-visible [] h = refl
trim_end-visible (c ∷ s) h = elim (Bool-cases (is_space c)) [
  | inl e ↦ cc (rw e at h)
  | inr e ↦ rw (trim_end-visible s (rw e at h)) (keep_space-visible c s e)
]

pub trim-visible : (s : Text) → all (λ c. not (is_space c)) s ≡ true → trim s ≡ s
unfolding trim trim_start
trim-visible [] h = refl
trim-visible (c ∷ s) h = elim (Bool-cases (is_space c)) [
  | inl e ↦ cc (rw e at h)
  | inr e ↦ rw e (trim_end-visible (c ∷ s) h)
]
