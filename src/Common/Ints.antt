-- ===== src/Common/Ints.antt =====
-- The C `int` of a return code: `negsuc n` is -(n + 1).
use Prim.Native.Nat.{ℕ, zero, suc, ◌-◌, compare, Ordering}
use mathlib.Core.Bool.{Bool, true, false}

pub data ℤ : Type 0 where
  pos : ℕ → ℤ
  negsuc : ℕ → ℤ

-- `neg n` is -n.
abbrev pub neg : ℕ → ℤ
neg zero = pos 0
neg (suc n) = negsuc n

-- `code < 0`
abbrev pub is_neg : ℤ → Bool
is_neg (pos n) = false
is_neg (negsuc n) = true

-- `a - b` in an `int` that has room for it.
abbrev pub minus : ℕ → ℕ → ℤ
minus a b = elim (compare a b) [ Ordering.lt ↦ neg (b - a) | _ ↦ pos (a - b) ]
