-- ===== src/Common/Digits.antt =====
-- Both bit operations of the code recurse on the binary digits of their first number. One step of that
-- recursion, for any operation on digits.
use Prim.Native.Nat.{
  ℕ, zero, suc, ◌+◌, ◌*◌, ◌/◌, ◌%◌, ◌≤◌, min, max, bit_and, bit_or, digits, bitwise,
  bit_and-bitwise, bit_or-bitwise,
}
use mathlib.Core.Path.{◌≡◌, refl, sym, ap, ◌∙◌}
use native.Mathlib.Decide.{ℕ_discrete}
use native.Mathlib.Omega.{arith}

module _ (rest : ℕ → ℕ) (op : ℕ → ℕ → ℕ) where
  digits_end : (count b : ℕ) → digits rest op count 0 b ≡ rest b
  digits_end zero b = refl
  digits_end (suc count) b = refl

  digits_half :
      (count a b : ℕ)
      → 1 ≤ a
      → digits rest op (suc count) a b
        ≡ digits rest op count (a / 2) (b / 2) * 2 + op (a % 2) (b % 2)
  digits_half count zero b h = absurd (omega arith)
  digits_half count (suc a) b h = refl

  digits_none : (count a b : ℕ) → a ≡ 0 → digits rest op count a b ≡ rest b
  digits_none count a b e = ap (λ x. digits rest op count x b) e ∙ digits_end count b

  -- A count of at least the first number is enough, whatever it is.
  digits_enough :
      (count other a b : ℕ)
      → a ≤ count
      → a ≤ other
      → digits rest op count a b ≡ digits rest op other a b
  digits_enough zero other a b p q =
      digits_none zero a b (omega arith) ∙ sym (digits_none other a b (omega arith))
  digits_enough (suc count) zero a b p q =
      digits_none (suc count) a b (omega arith) ∙ sym (digits_none zero a b (omega arith))
  digits_enough (suc count) (suc other) a b p q = elim (ℕ_discrete a 0) [
    | yes none ↦ digits_none (suc count) a b none ∙ sym (digits_none (suc other) a b none)
    | no some ↦
        digits_half count a b (omega arith)
        ∙ ap (λ high. high * 2 + op (a % 2) (b % 2))
            (digits_enough count other (a / 2) (b / 2) (omega arith) (omega arith))
        ∙ sym (digits_half other a b (omega arith))
  ]

  bitwise_step :
      (a b : ℕ)
      → rest b ≡ rest (b / 2) * 2 + op 0 (b % 2)
      → bitwise rest op a b ≡ bitwise rest op (a / 2) (b / 2) * 2 + op (a % 2) (b % 2)
  bitwise_step zero b e = e
  bitwise_step (suc a) b e =
      ap (λ high. high * 2 + op (suc a % 2) (b % 2))
        (digits_enough a (suc a / 2) (suc a / 2) (b / 2) (omega arith) (omega arith))

pub bit_or_step : (a b : ℕ) → bit_or a b ≡ bit_or (a / 2) (b / 2) * 2 + max (a % 2) (b % 2)
bit_or_step a b =
    bit_or-bitwise a b
    ∙ bitwise_step (λ x. x) max a b (omega arith)
    ∙ ap (λ high. high * 2 + max (a % 2) (b % 2)) (sym (bit_or-bitwise (a / 2) (b / 2)))

pub bit_and_step : (a b : ℕ) → bit_and a b ≡ bit_and (a / 2) (b / 2) * 2 + min (a % 2) (b % 2)
bit_and_step a b =
    bit_and-bitwise a b
    ∙ bitwise_step (λ x. 0) min a b (omega arith)
    ∙ ap (λ high. high * 2 + min (a % 2) (b % 2)) (sym (bit_and-bitwise (a / 2) (b / 2)))

pub or-zero_left : (b : ℕ) → bit_or 0 b ≡ b
or-zero_left b = bit_or-bitwise 0 b

pub and-zero_left : (b : ℕ) → bit_and 0 b ≡ 0
and-zero_left b = bit_and-bitwise 0 b
