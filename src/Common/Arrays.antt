-- ===== src/Common/Arrays.antt =====
-- Arrays of a fixed length in memory, and the operations that depend on so many bytes alone.
use Prim.Native.Nat.{ℕ, zero, suc, ◌+◌, ◌≤◌, ◌<◌}
use mathlib.Core.Path.{◌≡◌, refl, fun_ext}
use native.Mathlib.Omega.{arith}
use native.Mathlib.Decide.{dec_lt}
use fhdb_bootstrap_manager.Common.Bytes.{Bytes, shift, zeros, memeq, memcpy, bytes_list}

-- An array of `n` bytes, and nothing behind it.
abbrev pub IsArray : ℕ → Bytes → Type 0
IsArray n b = (i : ℕ) → n ≤ i → b i ≡ 0

pub array_copied :
    (source field : Bytes) (n : ℕ)
    → IsArray n field
    → ((i : ℕ) → i < n → source i ≡ field i)
    → memcpy zeros 0 source n ≡ field
array_copied source field n a h = fun_ext (λ i. elim (dec_lt i n) [
  | yes inside ↦ ground (arith, h i inside)
  | no behind ↦ ground (arith, a i (omega arith))
])

pub memeq-congr :
    (a b c : Bytes) (n : ℕ) → ((i : ℕ) → i < n → a i ≡ b i) → memeq a c n ≡ memeq b c n
unfolding memeq
memeq-congr a b c zero h = refl
memeq-congr a b c (suc n) h = rw (h n (omega arith), memeq-congr a b c n (λ i p. h i (omega arith)))

pub bytes_list-congr :
    (a b : Bytes) (n : ℕ) → ((i : ℕ) → i < n → a i ≡ b i) → bytes_list a n ≡ bytes_list b n
unfolding bytes_list
bytes_list-congr a b zero h = refl
bytes_list-congr a b (suc n) h =
    rw (
      h 0 (omega arith),
      bytes_list-congr (shift a 1) (shift b 1) n (λ i p. h (1 + i) (omega arith)),
    )

pub memcpy_before :
    (dst : Bytes) (off : ℕ) (src : Bytes) (n i : ℕ) → i < off → memcpy dst off src n i ≡ dst i
memcpy_before dst off src n i h = ground arith

pub memcpy_behind :
    (dst : Bytes) (off : ℕ) (src : Bytes) (n i : ℕ) → off + n ≤ i → memcpy dst off src n i ≡ dst i
memcpy_behind dst off src n i h = ground arith
