-- ===== src/Apa/Checksum.antt =====
-- What `apa_checksum` depends on, and which damage it detects.
use fhdb_bootstrap_manager.Common.{
  ℕ, zero, suc, ◌+◌, ◌*◌, ◌%◌, ◌^◌, ◌≤◌, ◌<◌, ◌≡◌, ◌≢◌, refl, ◌∙◌, ap, arith,
}
use fhdb_bootstrap_manager.Common.Bytes.{
  Bytes, IsBytes, shift, read_le32, read_le32-congr, read_le32-lt, write_le32,
}
use native.Mathlib.Nat.{zero-add}
use native.Mathlib.Decide.{ℕ_discrete}
use fhdb_bootstrap_manager.Apa.{sum_words, apa_checksum}

-- Word `i` of a header.
abbrev pub word : Bytes → ℕ → ℕ
word h i = read_le32 (shift h (i * 4))

pub word-zero : (h : Bytes) → word h 0 ≡ read_le32 h
word-zero h = read_le32-congr (shift h (0 * 4)) h refl refl refl refl

sum_words-congr :
    (h g : Bytes) (n i s : ℕ)
    → ((j : ℕ) → i ≤ j → j < i + n → word h j ≡ word g j)
    → sum_words h n i s ≡ sum_words g n i s
unfolding sum_words
sum_words-congr h g zero i s e = refl
sum_words-congr h g (suc n) i s e = rw (e i (omega arith) (omega arith)) (
    sum_words-congr h g n (i + 1) ((s + word g i) % 2 ^ 32)
      (λ j p q. e j (omega arith) (omega arith)))

word-congr :
    (h g : Bytes) (j : ℕ) → ((i : ℕ) → j * 4 ≤ i → i < j * 4 + 4 → h i ≡ g i) → word h j ≡ word g j
word-congr h g j e =
    read_le32-congr (shift h (j * 4)) (shift g (j * 4)) (e _ (omega arith) (omega arith))
      (e _ (omega arith) (omega arith)) (e _ (omega arith) (omega arith))
      (e _ (omega arith) (omega arith))

pub checksum_of_words :
    (h g : Bytes)
    → ((j : ℕ) → 1 ≤ j → j < 256 → word h j ≡ word g j)
    → apa_checksum h ≡ apa_checksum g
unfolding apa_checksum
checksum_of_words h g e = sum_words-congr h g 255 1 0 e

-- The checksum depends on the bytes from 4 to 1023 alone.
pub checksum-congr :
    (h g : Bytes) → ((i : ℕ) → 4 ≤ i → i < 1024 → h i ≡ g i) → apa_checksum h ≡ apa_checksum g
checksum-congr h g e =
    checksum_of_words h g (λ j p q. word-congr h g j (λ i a b. e i (omega arith) (omega arith)))

-- Storing a new checksum does not change it.
pub checksum-write_le32 : (h : Bytes) (v : ℕ) → apa_checksum (write_le32 h 0 v) ≡ apa_checksum h
checksum-write_le32 h v = checksum-congr (write_le32 h 0 v) h (λ i a b. ground arith)

sum_words-lt : (h : Bytes) (n i s : ℕ) → s < 2 ^ 32 → sum_words h n i s < 2 ^ 32
unfolding sum_words
sum_words-lt h zero i s p = p
sum_words-lt h (suc n) i s p = sum_words-lt h n (i + 1) ((s + word h i) % 2 ^ 32) (omega arith)

pub checksum-lt : (h : Bytes) → apa_checksum h < 2 ^ 32
unfolding apa_checksum
checksum-lt h = sum_words-lt h 255 1 0 (omega arith)

-- The sum of `n` words from word `i` on, with no wrap.
total : Bytes → ℕ → ℕ → ℕ
total h zero i = 0
total h (suc n) i = word h i + total h n (i + 1)

sum_words-total :
    (h : Bytes) (n i s : ℕ) → s < 2 ^ 32 → sum_words h n i s ≡ (s + total h n i) % 2 ^ 32
unfolding sum_words total
sum_words-total h zero i s p = omega arith
sum_words-total h (suc n) i s p =
    omega (arith, sum_words-total h n (i + 1) ((s + word h i) % 2 ^ 32) (omega arith))

total-congr :
    (h g : Bytes) (n i : ℕ)
    → ((j : ℕ) → i ≤ j → j < i + n → word h j ≡ word g j)
    → total h n i ≡ total g n i
unfolding total
total-congr h g zero i e = refl
total-congr h g (suc n) i e = omega (
  arith,
  e i (omega arith) (omega arith),
  total-congr h g n (i + 1) (λ j p q. e j (omega arith) (omega arith)),
)

-- Two sums that differ in word `k` alone differ by that word.
total_swap :
    (h g : Bytes) (n i k : ℕ)
    → i ≤ k
    → k < i + n
    → ((j : ℕ) → i ≤ j → j < i + n → j ≢ k → word h j ≡ word g j)
    → total h n i + word g k ≡ total g n i + word h k
unfolding total
total_swap h g zero i k p q e = absurd (omega arith)
total_swap h g (suc n) i k p q e = elim (ℕ_discrete i k) [
  | yes here ↦ omega (
    arith,
    ap (word h) here,
    ap (word g) here,
    total-congr h g n (i + 1) (λ j a b. e j (omega arith) (omega arith) (omega arith)),
  )
  | no later ↦ omega (
    arith,
    e i (omega arith) (omega arith) later,
    total_swap h g n (i + 1) k (omega arith) (omega arith)
        (λ j a b. e j (omega arith) (omega arith)),
  )
]

checksum-total : (h : Bytes) → apa_checksum h ≡ total h 255 1 % 2 ^ 32
unfolding apa_checksum
checksum-total h =
    sum_words-total h 255 1 0 (omega arith) ∙ ap (λ (t : ℕ). t % 2 ^ 32) (zero-add (total h 255 1))

-- A header whose words 1 to 255 differ in exactly one place has another checksum.
pub checksum_one_word :
    (h g : Bytes) (k : ℕ)
    → IsBytes h
    → IsBytes g
    → 1 ≤ k
    → k < 256
    → ((j : ℕ) → 1 ≤ j → j < 256 → j ≢ k → word h j ≡ word g j)
    → word h k ≢ word g k
    → apa_checksum h ≢ apa_checksum g
checksum_one_word h g k bh bg p q e ne c = ne (
    omega (
      arith,
      checksum-total h,
      checksum-total g,
      total_swap h g 255 1 k p q e,
      read_le32-lt (shift h (k * 4)) (λ i. bh (k * 4 + i)),
      read_le32-lt (shift g (k * 4)) (λ i. bg (k * 4 + i)),
      c,
    ))
