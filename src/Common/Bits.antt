-- ===== src/Common/Bits.antt =====
-- Laws of `bit_or` at variables, and a test of every small value.
use Prim.Native.Nat.{ℕ, zero, suc, ◌+◌, ◌*◌, ◌/◌, ◌^◌, ◌<◌, bit_or}
use mathlib.Core.Path.{◌≡◌}
use mathlib.Core.Bool.{Bool, true, false}
use native.Mathlib.Decide.{ℕ_discrete}
use native.Mathlib.Omega.{arith}
use native.Mathlib.Nat.{pow-suc}
use fhdb_bootstrap_manager.Common.Digits.{bit_or_step, or-zero_left}
use fhdb_bootstrap_manager.Common.Tests.{◌==◌, ==_iff, if◌then◌else◌}

twice_shift : (k b : ℕ) → b * 2 ^ suc k ≡ b * 2 ^ k * 2
twice_shift k b = rw pow-suc (omega arith)

-- Fields that do not overlap are joined by an addition.
bit_or_shifted : (k a b : ℕ) → a < 2 ^ k → bit_or a (b * 2 ^ k) ≡ a + b * 2 ^ k
bit_or_shifted zero a b h =
    rw (let e : a ≡ 0 = omega arith in e) (omega (arith, or-zero_left (b * 2 ^ 0)))
bit_or_shifted (suc k) a b h = rw (twice_shift k b) (
    omega (
      arith,
      bit_or_step a (b * 2 ^ k * 2),
      bit_or_shifted k (a / 2) b (omega (arith, pow-suc 2 k)),
      half,
    ))
  where
    half : bit_or (a / 2) (b * 2 ^ k * 2 / 2) ≡ bit_or (a / 2) (b * 2 ^ k)
    half = rw (let e : b * 2 ^ k * 2 / 2 ≡ b * 2 ^ k = omega arith in e)

pub bit_or_8 : (a b : ℕ) → a < 2 ^ 8 → bit_or a (b * 2 ^ 8) ≡ a + b * 2 ^ 8
bit_or_8 = bit_or_shifted 8

pub bit_or_16 : (a b : ℕ) → a < 2 ^ 16 → bit_or a (b * 2 ^ 16) ≡ a + b * 2 ^ 16
bit_or_16 = bit_or_shifted 16

pub bit_or_24 : (a b : ℕ) → a < 2 ^ 24 → bit_or a (b * 2 ^ 24) ≡ a + b * 2 ^ 24
bit_or_24 = bit_or_shifted 24

pub bit_or_32 : (a b : ℕ) → a < 2 ^ 32 → bit_or a (b * 2 ^ 32) ≡ a + b * 2 ^ 32
bit_or_32 = bit_or_shifted 32

-- A test that every number under a bound passes, for facts that a table settles.
unfoldable pub every : (ℕ → Bool) → ℕ → Bool
every test zero = true
every test (suc last) = if test last then every test last else false

pub every_passes :
    (test : ℕ → Bool) (bound i : ℕ) → i < bound → every test bound ≡ true → test i ≡ true
unfolding every
every_passes test zero i below e = absurd (omega arith)
every_passes test (suc last) i below e = elim (ℕ_discrete i last) [
  | yes here ↦ ground (arith, e, here)
  | no before ↦ every_passes test last i (omega arith) (ground (arith, e))
]

pub every_equal :
    (f g : ℕ → ℕ) (bound : ℕ)
    → every (λ i. f i == g i) bound ≡ true
    → (i : ℕ) → i < bound
    → f i ≡ g i
every_equal f g bound e i below =
    (==_iff (f i) (g i)).0 (every_passes (λ j. f j == g j) bound i below e)
