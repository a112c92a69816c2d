-- ===== src/Common/Masks.antt =====
-- `bit_and` with the masks of the code, as a remainder or a quotient.
use Prim.Native.Nat.{ℕ, zero, suc, ◌+◌, ◌*◌, ◌/◌, ◌%◌, ◌^◌, ◌≤◌, ◌<◌, bit_and, bit_or}
use mathlib.Core.Path.{◌≡◌, refl, ap, ◌∙◌}
use native.Mathlib.Decide.{ℕ_discrete}
use native.Mathlib.Omega.{arith}
use native.Mathlib.Nat.{pow-suc}
use fhdb_bootstrap_manager.Common.Digits.{bit_and_step, bit_or_step, and-zero_left, or-zero_left}

and-zero_right : (a : ℕ) → bit_and a 0 ≡ 0
and-zero_right a = bounded a a (omega arith)
  where
    bounded : (n m : ℕ) → m ≤ n → bit_and m 0 ≡ 0
    bounded zero m h = let e : m ≡ 0 = omega arith in ap (λ x. bit_and x 0) e ∙ and-zero_left 0
    bounded (suc n) m h = elim (ℕ_discrete m 0) [
      | yes e ↦ ap (λ x. bit_and x 0) e ∙ and-zero_left 0
      | no some ↦ omega (arith, bit_and_step m 0, bounded n (m / 2) (omega arith))
    ]

bit_and_low : (k a m : ℕ) → m + 1 ≡ 2 ^ k → a < 2 ^ k → bit_and a m ≡ a
bit_and_low zero a m e h =
    let none_left : a ≡ 0 = omega arith in
    ap (λ x. bit_and x m) none_left ∙ and-zero_left m ∙ omega arith
bit_and_low (suc k) a m e h = omega (
  arith,
  bit_and_step a m,
  pow-suc 2 k,
  bit_and_low k (a / 2) (m / 2) (omega (arith, pow-suc 2 k)) (omega (arith, pow-suc 2 k)),
)

-- The bits above the lowest three of a `uint32_t`.
pub bit_and_above_3 : (f : ℕ) → f < 2 ^ 32 → bit_and f 0xfffffff8 ≡ f / 8 * 8
bit_and_above_3 f h = omega (
  arith,
  bit_and_step f 0xfffffff8,
  bit_and_step (f / 2) 0x7ffffffc,
  bit_and_step (f / 2 / 2) 0x3ffffffe,
  bit_and_low 29 (f / 2 / 2 / 2) 0x1fffffff refl (omega arith),
)

pub bit_and_1 : (f : ℕ) → bit_and f 1 ≡ f % 2
bit_and_1 f = omega (arith, bit_and_step f 1, and-zero_right (f / 2))

pub bit_and_2 : (f : ℕ) → bit_and f 2 ≡ f / 2 % 2 * 2
bit_and_2 f = omega (arith, bit_and_step f 2, bit_and_1 (f / 2))

pub bit_and_4 : (f : ℕ) → bit_and f 4 ≡ f / 4 % 2 * 4
bit_and_4 f = omega (arith, bit_and_step f 4, bit_and_2 (f / 2))

-- The remainder by a sector of 2048 bytes, from its eleven bits.
pub bit_and_2047 : (f : ℕ) → bit_and f 2047 ≡ f % 2048
bit_and_2047 f = omega (
  arith,
  bit_and_step f 2047,
  bit_and_step (f / 2) 1023,
  bit_and_step (f / 2 / 2) 511,
  bit_and_step (f / 2 / 2 / 2) 255,
  bit_and_step (f / 2 / 2 / 2 / 2) 127,
  six (f / 2 / 2 / 2 / 2 / 2),
)
  where
    six : (x : ℕ) → bit_and x 63 ≡ x % 64
    six x = omega (
      arith,
      bit_and_step x 63,
      bit_and_step (x / 2) 31,
      bit_and_step (x / 2 / 2) 15,
      bit_and_step (x / 2 / 2 / 2) 7,
      bit_and_step (x / 2 / 2 / 2 / 2) 3,
      bit_and_1 (x / 2 / 2 / 2 / 2 / 2),
    )

-- The remainder by 8, from its three bits.
pub bit_and_7 : (f : ℕ) → bit_and f 7 ≡ f % 8
bit_and_7 f = omega (arith, bit_and_step f 7, bit_and_step (f / 2) 3, bit_and_1 (f / 2 / 2))

-- Bits joined by `bit_or` keep those of the first number, and have all of the second.
bit_kept_to : (n a x m : ℕ) → a ≤ n → bit_and a m ≤ bit_and (bit_or a x) m
bit_kept_to zero a x m h =
    let none : a ≡ 0 = omega arith in omega (arith, ap (λ b. bit_and b m) none, and-zero_left m)
bit_kept_to (suc n) a x m h = elim (ℕ_discrete a 0) [
  | yes none ↦ omega (arith, ap (λ b. bit_and b m) none, and-zero_left m)
  | no some ↦
      let half : bit_or a x / 2 ≡ bit_or (a / 2) (x / 2) = omega (arith, bit_or_step a x) in
      omega (
        arith,
        bit_or_step a x,
        bit_and_step a m,
        bit_and_step (bit_or a x) m,
        bit_kept_to n (a / 2) (x / 2) (m / 2) (omega arith),
        ap (λ b. bit_and b (m / 2)) half,
      )
]

pub bit_kept : (a x m : ℕ) → bit_and a m ≤ bit_and (bit_or a x) m
bit_kept a x m = bit_kept_to a a x m (omega arith)

bit_set_to : (n a x : ℕ) → x ≤ n → x ≤ bit_and (bit_or a x) x
bit_set_to zero a x h = omega arith
bit_set_to (suc n) a x h =
    let half : bit_or a x / 2 ≡ bit_or (a / 2) (x / 2) = omega (arith, bit_or_step a x) in
    elim (ℕ_discrete x 0) [
      | yes none ↦ omega arith
      | no some ↦ omega (
        arith,
        bit_or_step a x,
        bit_and_step (bit_or a x) x,
        bit_set_to n (a / 2) (x / 2) (omega arith),
        ap (λ b. bit_and b (x / 2)) half,
      )
    ]

pub bit_set : (a x : ℕ) → x ≤ bit_and (bit_or a x) x
bit_set a x = bit_set_to x a x (omega arith)

pub bit_or-lt : (k a b : ℕ) → a < 2 ^ k → b < 2 ^ k → bit_or a b < 2 ^ k
bit_or-lt zero a b p q =
    let x : a ≡ 0 = omega arith in omega (arith, ap (λ c. bit_or c b) x, or-zero_left b)
bit_or-lt (suc k) a b p q = omega (
  arith,
  bit_or_step a b,
  pow-suc 2 k,
  bit_or-lt k (a / 2) (b / 2) (omega (arith, pow-suc 2 k)) (omega (arith, pow-suc 2 k)),
)
