-- ===== src/Common/Outcome.antt =====
-- A Go pair `(value, error)`, of which exactly one is set, and the early return on an error.
use mathlib.Core.Path.{◌≡◌, refl, ap}
use mathlib.Core.Logic.{◌⊎◌, inl, inr}

pub data Result {ℓ} (Error : Type ℓ) (Value : Type ℓ) : Type ℓ where
  err : Error → Result Error Value
  ok : Value → Result Error Value

module _ {ℓ} {Error : Type ℓ} where
  infixl 5 ◌>>=◌ ◌>>◌
  abbrev pub ◌>>=◌ : {A B : Type ℓ} → Result Error A → (A → Result Error B) → Result Error B
  first >>= next = elim first [ err e ↦ err e | ok a ↦ next a ]

  abbrev pub ◌>>◌ : {A B : Type ℓ} → Result Error A → Result Error B → Result Error B
  first >> next = elim first [ err e ↦ err e | ok _ ↦ next ]

  -- Inversion of a successful bind.
  pub >>=-eq-ok :
      {A B : Type ℓ} (first : Result Error A) (next : A → Result Error B) {b : B}
      → (first >>= next) ≡ ok b
      → (a : A) × (first ≡ ok a) × (next a ≡ ok b)
  >>=-eq-ok (err e) next h = cc
  >>=-eq-ok (ok a) next h = (a, refl, h)

  pub Result-cases :
      {A : Type ℓ} (r : Result Error A) → ((a : A) × (r ≡ ok a)) ⊎ ((e : Error) × (r ≡ err e))
  Result-cases (ok a) = inl (a, refl)
  Result-cases (err e) = inr (e, refl)

  pub ok_inj : {A : Type ℓ} {a b : A} → Path (Result Error A) (ok a) (ok b) → a ≡ b
  ok_inj {A} {a} e = ap (λ (r : Result Error A). elim r [ ok x ↦ x | err _ ↦ a ]) e
