-- ===== src/Common/Results.antt =====
-- What a function that may throw returns.
use mathlib.Core.Path.{◌≡◌, refl, ap}
use mathlib.Core.Bool.{Bool, true, false}
use errorcore.Common.Tests.{false_ne_true}
use mathlib.Core.Logic.{◌⊎◌, inl, inr}

pub data Result {ℓ κ} (E : Type ℓ) (A : Type κ) : Type (ℓ ⊔ κ) where
  thrown : E → Result E A
  returned : A → Result E A

module _ {ℓ κ} {E : Type ℓ} {A : Type κ} where
  -- Go on with the value, if there is one.
  abbrev pub and_then {ι} : {B : Type ι} → Result E A → (A → Result E B) → Result E B
  and_then (thrown e) f = thrown e
  and_then (returned a) f = f a

  pub Result-cases : (r : Result E A) → ((e : E) × (r ≡ thrown e)) ⊎ ((a : A) × (r ≡ returned a))
  Result-cases (thrown e) = inl (e, refl)
  Result-cases (returned a) = inr (a, refl)

module _ {ℓ} {E A : Type ℓ} where
  value_or : A → Result E A → A
  value_or d (thrown e) = d
  value_or d (returned a) = a

  pub value_of : {a b : A} → ◌≡◌ {A = Result E A} (returned a) (returned b) → a ≡ b
  unfolding value_or
  value_of {a} h = ap (value_or a) h

  is_returned : Result E A → Bool
  is_returned (thrown e) = false
  is_returned (returned a) = true

  pub no_value : {e : E} {a : A} → ¬ (◌≡◌ {A = Result E A} (thrown e) (returned a))
  unfolding is_returned
  no_value h = false_ne_true (ap is_returned h)
