-- ===== src/Common/Results.antt =====
-- A C function that returns a negative code, or 0 and what it has written through a pointer.
use mathlib.Core.Path.{◌≡◌, refl, ap}
use mathlib.Core.Logic.{◌⊎◌, inl, inr}
use fhdb_bootstrap_manager.Common.Ints.{ℤ}

pub data Result (A : Type 0) : Type 0 where
  err : ℤ → Result A
  ok : A → Result A

abbrev value_or : {A : Type 0} → A → Result A → A
value_or default (err code) = default
value_or default (ok a) = a

pub ok-exact : {A : Type 0} (a b : A) → ok a ≡ ok b → a ≡ b
ok-exact a b e = ap (value_or a) e

pub Result-cases :
    {A : Type 0} (r : Result A) → ((code : ℤ) × (r ≡ err code)) ⊎ ((a : A) × (r ≡ ok a))
Result-cases (err code) = inl (code, refl)
Result-cases (ok a) = inr (a, refl)
