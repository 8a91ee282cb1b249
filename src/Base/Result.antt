-- ===== src/Base/Result.antt =====
-- A computation that may throw, as a value.
use promotion_management_api.Base.{◌≡◌, ◌⊎◌, inl, inr, refl}

pub data Result {ℓ κ} (Fault : Type ℓ) (Value : Type κ) : Type (ℓ ⊔ κ) where
  err : Fault → Result Fault Value
  ok : Value → Result Fault Value

-- The next step is taken with the value of the first, and not at all after a fault.
module _ {ℓ κ μ} {Fault : Type ℓ} {Value : Type κ} {Last : Type μ} where
  infixl 5 ◌>>=◌
  abbrev pub ◌>>=◌ : Result Fault Value → (Value → Result Fault Last) → Result Fault Last
  err fault >>= next_step = err fault
  ok value >>= next_step = next_step value

  -- A chain that ends well went well at its first step and at the rest.
  pub >>=-ok :
      (first : Result Fault Value) (next_step : Value → Result Fault Last) {last : Last}
      → first >>= next_step ≡ ok last
      → (value : Value) × (first ≡ ok value) × (next_step value ≡ ok last)
  >>=-ok (err fault) next_step h = cc
  >>=-ok (ok value) next_step h = (value, refl, h)

  -- Steps that agree on every value give one chain.
  pub >>=-congr :
      (first : Result Fault Value) {f g : Value → Result Fault Last}
      → ((value : Value) → f value ≡ g value)
      → first >>= f ≡ first >>= g
  >>=-congr (err fault) h = refl
  >>=-congr (ok value) h = h value

pub Result-cases {ℓ κ} :
    {Fault : Type ℓ} {Value : Type κ} (result : Result Fault Value)
    → ((fault : Fault) × (result ≡ err fault)) ⊎ ((value : Value) × (result ≡ ok value))
Result-cases (err fault) = inl (fault, refl)
Result-cases (ok value) = inr (value, refl)

pub ok-injective {ℓ κ} :
    {Fault : Type ℓ} {Value : Type κ} {a b : Value}
    → ◌≡◌ {A = Result Fault Value} (ok a) (ok b)
    → a ≡ b
ok-injective h = cc
