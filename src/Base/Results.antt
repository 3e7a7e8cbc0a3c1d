-- ===== src/Base/Results.antt =====
-- Go's pair of a value and an error: a value, or an error of a type that the caller chooses.
use mathlib.Core.Path.{◌≡◌, refl}
use mathlib.Core.Logic.{◌⊎◌, inl, inr}

pub data Result (E A : Type 0) : Type 0 where
  ok : A → Result E A
  err : E → Result E A

module _ {E A : Type 0} where
  abbrev pub bind : {B : Type 0} → Result E A → (A → Result E B) → Result E B
  bind (ok a) f = f a
  bind (err e) f = err e

  pub Result-cases : (r : Result E A) → ((a : A) × (r ≡ ok a)) ⊎ ((e : E) × (r ≡ err e))
  Result-cases (ok a) = inl (a, refl)
  Result-cases (err e) = inr (e, refl)

-- What holds of both cases of a result holds of the elimination.
pub result_cases {κ} :
    {E A B : Type 0} (P : B → Type κ) (r : Result E A) (f : A → B) (g : E → B)
    → ((a : A) → r ≡ ok a → P (f a))
    → ((e : E) → r ≡ err e → P (g e))
    → P (elim r [ ok a ↦ f a | err e ↦ g e ])
result_cases P (ok a) f g h k = h a refl
result_cases P (err e) f g h k = k e refl
