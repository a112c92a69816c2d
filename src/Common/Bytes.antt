-- ===== src/Common/Bytes.antt =====
-- Memory: a pointer to unsigned char is the function from an offset to the byte there. Little-endian
-- fields, `memcmp`, `memcpy` and `memset` over it.
use Prim.Native.Nat.{ℕ, zero, suc, ◌+◌, ◌-◌, ◌*◌, ◌/◌, ◌%◌, ◌^◌, ◌≤◌, ◌<◌, bit_or}
use Prim.Native.Char.{code}
use Prim.Native.String.{String}
use mathlib.Core.Path.{◌≡◌, refl, sym, ap, ◌∙◌, subst}
use mathlib.Core.Bool.{Bool, true, ◌&&◌}
use mathlib.Core.List.{List, [], ◌∷◌}
use native.Mathlib.Omega.{arith}
use fhdb_bootstrap_manager.Common.Tests.{ltb, leb, ◌==◌, if◌then◌else◌, get_or}
use fhdb_bootstrap_manager.Common.Bits.{bit_or_8, bit_or_16, bit_or_24}

abbrev pub Bytes : Type 0
Bytes = ℕ → ℕ

abbrev pub IsBytes : Bytes → Type 0
IsBytes b = (i : ℕ) → b i < 256

-- `b + off`
abbrev pub shift : Bytes → ℕ → Bytes
shift b off = λ i. b (off + i)

abbrev pub zeros : Bytes
zeros = λ i. 0

-- An array with the given first bytes, and zeros behind them.
abbrev pub of_list : List ℕ → Bytes
of_list xs = λ i. get_or xs i 0

abbrev pub codes : String → List ℕ
codes String.[] = []
codes (String.◌∷◌ c s) = code c ∷ codes s

-- The first `n` bytes.
unfoldable pub bytes_list : Bytes → ℕ → List ℕ
bytes_list b zero = []
bytes_list b (suc n) = b 0 ∷ bytes_list (shift b 1) n

-- `memcmp(a, b, n) == 0`
unfoldable pub memeq : Bytes → Bytes → ℕ → Bool
memeq a b zero = true
memeq a b (suc n) = a n == b n && memeq a b n

-- `memcpy(dst + off, src, n)`
abbrev pub memcpy : Bytes → ℕ → Bytes → ℕ → Bytes
memcpy dst off src n = λ i. if leb off i && ltb i (off + n) then src (i - off) else dst i

-- `memset(dst + off, value, n)`
abbrev pub memset : Bytes → ℕ → ℕ → ℕ → Bytes
memset dst off value n = memcpy dst off (λ i. value) n

-- `dst[off] = (unsigned char)value`
abbrev pub write_8 : Bytes → ℕ → ℕ → Bytes
write_8 dst off value = λ i. if i == off then value % 2 ^ 8 else dst i

abbrev pub le16_bytes : ℕ → Bytes
le16_bytes v = of_list (v % 2 ^ 8 ∷ v / 2 ^ 8 % 2 ^ 8 ∷ [])

abbrev pub le32_bytes : ℕ → Bytes
le32_bytes v =
    of_list (v % 2 ^ 8 ∷ v / 2 ^ 8 % 2 ^ 8 ∷ v / 2 ^ 16 % 2 ^ 8 ∷ v / 2 ^ 24 % 2 ^ 8 ∷ [])

-- `write_le16(dst + off, value)` and `write_le32(dst + off, value)`: two and four byte stores.
abbrev pub write_le16 : Bytes → ℕ → ℕ → Bytes
write_le16 dst off v = memcpy dst off (le16_bytes v) 2

abbrev pub write_le32 : Bytes → ℕ → ℕ → Bytes
write_le32 dst off v = memcpy dst off (le32_bytes v) 4

abbrev pub write_le64 : Bytes → ℕ → ℕ → Bytes
write_le64 dst off v = write_le32 (write_le32 dst off (v % 2 ^ 32)) (off + 4) (v / 2 ^ 32)

unfoldable pub read_le16 : Bytes → ℕ
read_le16 s = bit_or (s 0) (s 1 * 2 ^ 8)

unfoldable pub read_le32 : Bytes → ℕ
read_le32 s = bit_or (bit_or (bit_or (s 0) (s 1 * 2 ^ 8)) (s 2 * 2 ^ 16)) (s 3 * 2 ^ 24)

unfoldable pub read_le64 : Bytes → ℕ
read_le64 s = bit_or (read_le32 s) (read_le32 (shift s 4) * 2 ^ 32)

-- The field read is the sum of its bytes by their weights.
pub read_le16_sum : (s : Bytes) → IsBytes s → read_le16 s ≡ s 0 + s 1 * 2 ^ 8
unfolding read_le16
read_le16_sum s b = bit_or_8 (s 0) (s 1) (b 0)

pub read_le32_sum :
    (s : Bytes) → IsBytes s → read_le32 s ≡ s 0 + s 1 * 2 ^ 8 + s 2 * 2 ^ 16 + s 3 * 2 ^ 24
unfolding read_le32
read_le32_sum s b = rw (
  bit_or_8 (s 0) (s 1) (b 0),
  bit_or_16 (s 0 + s 1 * 2 ^ 8) (s 2) (omega (arith, b 0, b 1)),
  bit_or_24 (s 0 + s 1 * 2 ^ 8 + s 2 * 2 ^ 16) (s 3) (omega (arith, b 0, b 1, b 2)),
)

pub read_le16-lt : (s : Bytes) → IsBytes s → read_le16 s < 2 ^ 16
read_le16-lt s b = omega (arith, read_le16_sum s b, b 0, b 1)

pub read_le32-lt : (s : Bytes) → IsBytes s → read_le32 s < 2 ^ 32
read_le32-lt s b = omega (arith, read_le32_sum s b, b 0, b 1, b 2, b 3)

-- A field depends on its own bytes alone.
pub read_le16-congr : (s t : Bytes) → s 0 ≡ t 0 → s 1 ≡ t 1 → read_le16 s ≡ read_le16 t
unfolding read_le16
read_le16-congr s t e0 e1 = rw (e0, e1)

pub read_le32-congr :
    (s t : Bytes) → s 0 ≡ t 0 → s 1 ≡ t 1 → s 2 ≡ t 2 → s 3 ≡ t 3 → read_le32 s ≡ read_le32 t
unfolding read_le32
read_le32-congr s t e0 e1 e2 e3 = rw (e0, e1, e2, e3)

-- What the four stores of a value leave is read back as that value.
pub read_le32-le32_bytes : (v : ℕ) → v < 2 ^ 32 → read_le32 (le32_bytes v) ≡ v
unfolding read_le32
read_le32-le32_bytes v h =
    rw
      (
        bit_or_8 (v % 2 ^ 8) (v / 2 ^ 8 % 2 ^ 8) (omega arith),
        bit_or_16 (v % 2 ^ 8 + v / 2 ^ 8 % 2 ^ 8 * 2 ^ 8) (v / 2 ^ 16 % 2 ^ 8) (omega arith),
        bit_or_24 (v % 2 ^ 8 + v / 2 ^ 8 % 2 ^ 8 * 2 ^ 8 + v / 2 ^ 16 % 2 ^ 8 * 2 ^ 16)
            (v / 2 ^ 24 % 2 ^ 8) (omega arith),
      )
      (omega arith)

pub read_le16-le16_bytes : (v : ℕ) → v < 2 ^ 16 → read_le16 (le16_bytes v) ≡ v
unfolding read_le16
read_le16-le16_bytes v h = rw (bit_or_8 (v % 2 ^ 8) (v / 2 ^ 8 % 2 ^ 8) (omega arith)) (omega arith)

pub memeq_sound : (a b : Bytes) (n i : ℕ) → memeq a b n ≡ true → i < n → a i ≡ b i
unfolding memeq
memeq_sound a b zero i e h = absurd (omega arith)
memeq_sound a b (suc n) i e h = ground (arith, memeq_sound a b n i)

pub memeq_complete : (a b : Bytes) (n : ℕ) → ((i : ℕ) → i < n → a i ≡ b i) → memeq a b n ≡ true
unfolding memeq
memeq_complete a b zero h = refl
memeq_complete a b (suc n) h =
    ground (arith, h n (omega arith), memeq_complete a b n (λ i p. h i (omega arith)))

-- A comparison from offset `k` on.
pub memeq-shift_sound :
    (a b : Bytes) (k n i : ℕ)
    → memeq (shift a k) (shift b k) n ≡ true
    → k ≤ i
    → i < k + n
    → a i ≡ b i
memeq-shift_sound a b k n i e p q =
    let back : k + (i - k) ≡ i = omega arith in
    subst (λ j. a j ≡ b j) back (memeq_sound (shift a k) (shift b k) n (i - k) e (omega arith))

pub memeq-shift_complete :
    (a b : Bytes) (k n : ℕ)
    → ((i : ℕ) → k ≤ i → i < k + n → a i ≡ b i)
    → memeq (shift a k) (shift b k) n ≡ true
memeq-shift_complete a b k n h =
    memeq_complete (shift a k) (shift b k) n (λ i p. h (k + i) (omega arith) (omega arith))

pub memcpy_inside :
    (dst : Bytes) (off : ℕ) (src : Bytes) (n i : ℕ)
    → off ≤ i
    → i < off + n
    → memcpy dst off src n i ≡ src (i - off)
memcpy_inside dst off src n i p q = ground arith

pub memeq_at :
    (a b : Bytes) (k n i : ℕ) → memeq (shift a k) b n ≡ true → k ≤ i → i < k + n → a i ≡ b (i - k)
memeq_at a b k n i e p q =
    let back : k + (i - k) ≡ i = omega arith in
    subst (λ j. a j ≡ b (i - k)) back (memeq_sound (shift a k) b n (i - k) e (omega arith))

-- The bytes of a field are those that its value would be stored as.
pub le32_bytes-read : (s : Bytes) (j : ℕ) → IsBytes s → j < 4 → s j ≡ le32_bytes (read_le32 s) j
le32_bytes-read s zero b h = omega (arith, read_le32_sum s b, b 0, b 1, b 2, b 3)
le32_bytes-read s (suc zero) b h = omega (arith, read_le32_sum s b, b 0, b 1, b 2, b 3)
le32_bytes-read s (suc (suc zero)) b h = omega (arith, read_le32_sum s b, b 0, b 1, b 2, b 3)
le32_bytes-read s (suc (suc (suc zero))) b h = omega (arith, read_le32_sum s b, b 0, b 1, b 2, b 3)
le32_bytes-read s (suc (suc (suc (suc j)))) b h = absurd (omega arith)

pub le16_bytes-read : (s : Bytes) (j : ℕ) → IsBytes s → j < 2 → s j ≡ le16_bytes (read_le16 s) j
le16_bytes-read s zero b h = omega (arith, read_le16_sum s b, b 0, b 1)
le16_bytes-read s (suc zero) b h = omega (arith, read_le16_sum s b, b 0, b 1)
le16_bytes-read s (suc (suc j)) b h = absurd (omega arith)

-- Storing the value that a field holds changes nothing.
pub write_le32_held :
    (d o : Bytes) (off v i : ℕ)
    → IsBytes o
    → read_le32 (shift o off) ≡ v
    → off ≤ i
    → i < off + 4
    → write_le32 d off v i ≡ o i
write_le32_held d o off v i b e p q =
    let back : off + (i - off) ≡ i = omega arith in
    memcpy_inside d off (le32_bytes v) 4 i p q
    ∙ ap (λ w. le32_bytes w (i - off)) (sym e)
    ∙ sym (le32_bytes-read (shift o off) (i - off) (λ j. b (off + j)) (omega arith))
    ∙ ap o back

pub write_le16_held :
    (d o : Bytes) (off v i : ℕ)
    → IsBytes o
    → read_le16 (shift o off) ≡ v
    → off ≤ i
    → i < off + 2
    → write_le16 d off v i ≡ o i
write_le16_held d o off v i b e p q =
    let back : off + (i - off) ≡ i = omega arith in
    memcpy_inside d off (le16_bytes v) 2 i p q
    ∙ ap (λ w. le16_bytes w (i - off)) (sym e)
    ∙ sym (le16_bytes-read (shift o off) (i - off) (λ j. b (off + j)) (omega arith))
    ∙ ap o back

pub memcpy_held :
    (d o src : Bytes) (off n i : ℕ)
    → memeq (shift o off) src n ≡ true
    → off ≤ i
    → i < off + n
    → memcpy d off src n i ≡ o i
memcpy_held d o src off n i e p q =
    memcpy_inside d off src n i p q ∙ sym (memeq_at o src off n i e p q)
