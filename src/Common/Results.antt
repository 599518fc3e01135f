-- ===== src/Common/Results.antt =====
-- What a function of the source returns: a value, or the error that it throws.
use mathlib.Core.Path.{◌≡◌, refl}
use mathlib.Core.Logic.{◌⊎◌, inl, inr}

module _ {ℓ} where
  pub data Result (E A : Type ℓ) : Type ℓ where
    ok : A → Result E A
    throw : E → Result E A

  infixl 5 ◌>>=◌
  abbrev pub ◌>>=◌ : {E A B : Type ℓ} → Result E A → (A → Result E B) → Result E B
  r >>= next = elim r [ ok a ↦ next a | throw e ↦ throw e ]

  -- Where the whole returns, the first part has returned, and the rest returns on its value.
  pub returned-first :
      {E A B : Type ℓ} {b : B} (next : A → Result E B) (r : Result E A)
      → (r >>= next) ≡ ok b
      → (a : A) × (next a ≡ ok b) × (r ≡ ok a)
  returned-first next (throw e) h = cc
  returned-first next (ok a) h = (a, h, refl)

  pub ok_injective : {E A : Type ℓ} {a b : A} → ◌≡◌ {A = Result E A} (ok a) (ok b) → a ≡ b
  ok_injective h = cc

  pub Result-cases :
      {E A : Type ℓ} (r : Result E A) → ((a : A) × (r ≡ ok a)) ⊎ ((e : E) × (r ≡ throw e))
  Result-cases (ok a) = inl (a, refl)
  Result-cases (throw e) = inr (e, refl)
