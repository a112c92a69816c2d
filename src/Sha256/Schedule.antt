-- ===== src/Sha256/Schedule.antt =====
-- The rolling schedule of 16 words computes the standard's 64 words.
use fhdb_bootstrap_manager.Common.{
  ℕ, zero, suc, ◌+◌, ◌-◌, ◌*◌, ◌%◌, ◌^◌, ◌≤◌, ◌<◌, ◌≡◌, ◌≢◌, refl, sym, subst, ap, ◌∙◌, bit_and,
  arith, ltb, ge→ltb, ◌==◌, if◌then◌else◌, get_or,
}
use native.Mathlib.Decide.{dec_lt, ℕ_discrete}
use fhdb_bootstrap_manager.Common.Bits.{every, every_equal}
use fhdb_bootstrap_manager.Common.Bytes.{Bytes, shift, zeros}
use fhdb_bootstrap_manager.Sha256.{
  State, round_constants, read_be32, small_sigma0, small_sigma1, round, next_word, store_word,
  rounds, add_states, transform,
}

-- Word `i` of the standard's schedule, from the words before it.
abbrev standard_word : Bytes → ℕ → (ℕ → ℕ) → ℕ
standard_word block i w =
    if ltb i 16
    then read_be32 (shift block (i * 4))
    else (small_sigma1 (w (i - 2)) + w (i - 7) + small_sigma0 (w (i - 15)) + w (i - 16)) % 2 ^ 32

-- The first `n` words.
words : Bytes → ℕ → ℕ → ℕ
words block zero j = 0
words block (suc n) j = if j == n then standard_word block n (words block n) else words block n j

standard_rounds : ℕ → ℕ → (ℕ → ℕ) → State → State
standard_rounds zero i w s = s
standard_rounds (suc left) i w s =
    standard_rounds left (i + 1) w (round (get_or round_constants i 0) (w i) s)

-- The compression function of the standard, with its whole schedule.
pub standard_transform : State → Bytes → State
standard_transform state block = add_states state (standard_rounds 64 0 (words block 64) state)

mask : (i : ℕ) → i < 64 → bit_and i 15 ≡ i % 16
unfolding every
mask = every_equal (λ i. bit_and i 15) (λ i. i % 16) 64 refl

words_skip : (block : Bytes) (n j : ℕ) → j < n → words block (suc n) j ≡ words block n j
unfolding words
words_skip block n j h = ground arith

words_last : (block : Bytes) (n : ℕ) → words block (suc n) n ≡ standard_word block n (words block n)
unfolding words
words_last block n = ground arith

words_kept : (block : Bytes) (k n j : ℕ) → j < n → words block (k + n) j ≡ words block n j
words_kept block zero n j h = let e : 0 + n ≡ n = omega arith in ap (λ m. words block m j) e
words_kept block (suc k) n j h =
    let e : suc k + n ≡ suc (k + n) = omega arith in
    ap (λ m. words block m j) e
    ∙ words_skip block (k + n) j (omega arith)
    ∙ words_kept block k n j h

words_at : (block : Bytes) (n j : ℕ) → j < n → n ≤ 64 → words block 64 j ≡ words block n j
words_at block n j h q =
    let back : 64 - n + n ≡ 64 = omega arith in
    subst (λ m. words block m j ≡ words block n j) back (words_kept block (64 - n) n j h)

-- The last 16 words stand in the schedule at their number modulo 16.
abbrev IsRolling : Bytes → ℕ → Bytes → Type 0
IsRolling block i schedule = (j : ℕ) → j < i → i ≤ j + 16 → schedule (j % 16) ≡ words block i j

rolling_at :
    (block schedule : Bytes) (i back : ℕ)
    → i < 64
    → 16 ≤ i
    → 1 ≤ back
    → back ≤ 15
    → IsRolling block i schedule
    → schedule (bit_and (i - back) 15) ≡ words block i (i - back)
rolling_at block schedule i back h late p q r =
    ap schedule (mask (i - back) (omega arith)) ∙ r (i - back) (omega arith) (omega arith)

oldest :
    (block schedule : Bytes) (i : ℕ)
    → i < 64
    → 16 ≤ i
    → IsRolling block i schedule
    → schedule (bit_and i 15) ≡ words block i (i - 16)
oldest block schedule i h late r =
    let same : i % 16 ≡ (i - 16) % 16 = omega arith in
    ap schedule (mask i h ∙ same) ∙ r (i - 16) (omega arith) (omega arith)

next_word-IsRolling :
    (block schedule : Bytes) (i : ℕ)
    → i < 64
    → IsRolling block i schedule
    → next_word i block schedule ≡ standard_word block i (words block i)
unfolding next_word
next_word-IsRolling block schedule i h r = elim (dec_lt i 16) [
  | yes early ↦ ground arith
  | no late ↦
      let l : 16 ≤ i = omega arith in
      rw
        (
          ge→ltb i 16 l,
          oldest block schedule i h l r,
          rolling_at block schedule i 15 h l (omega arith) (omega arith) r,
          rolling_at block schedule i 7 h l (omega arith) (omega arith) r,
          rolling_at block schedule i 2 h l (omega arith) (omega arith) r,
        )
        (omega arith)
]

store-IsRolling :
    (block schedule : Bytes) (i : ℕ)
    → i < 64
    → IsRolling block i schedule
    → IsRolling block (suc i) (store_word i (standard_word block i (words block i)) schedule)
unfolding words
store-IsRolling block schedule i h r j p q = elim (ℕ_discrete j i) [
  | yes same ↦ ground (arith, mask i h)
  | no other ↦
      let apart : j % 16 ≢ i % 16 = omega arith in
      ground (arith, mask i h, r j (omega arith) (omega arith))
]

word_standard :
    (block : Bytes) (i : ℕ) → i < 64 → words block 64 i ≡ standard_word block i (words block i)
word_standard block i h = words_at block (suc i) i (omega arith) (omega arith) ∙ words_last block i

-- The word of round `i`, and the schedule after it.
step_standard :
    (block schedule : Bytes) (i : ℕ)
    → i < 64
    → IsRolling block i schedule
    → (next_word i block schedule ≡ words block 64 i)
      × IsRolling block (i + 1) (store_word i (next_word i block schedule) schedule)
step_standard block schedule i h r =
    let word = next_word-IsRolling block schedule i h r in
    let next : suc i ≡ i + 1 = omega arith in
    (
      word ∙ sym (word_standard block i h),
      subst (λ w. IsRolling block (i + 1) (store_word i w schedule)) (sym word)
          (subst
            (λ n. IsRolling block n (store_word i (standard_word block i (words block i)) schedule))
            next (store-IsRolling block schedule i h r)),
    )

rounds_standard :
    (left i : ℕ) (block schedule : Bytes) (s : State)
    → i + left ≡ 64
    → IsRolling block i schedule
    → rounds left i block schedule s ≡ standard_rounds left i (words block 64) s
unfolding rounds standard_rounds
rounds_standard zero i block schedule s e r = refl
rounds_standard (suc left) i block schedule s e r =
    let (word, rolls) = step_standard block schedule i (omega arith) r in
    rounds_standard left (i + 1) block (store_word i (next_word i block schedule) schedule)
      (round (get_or round_constants i 0) (next_word i block schedule) s) (omega arith) rolls
    ∙ ap
        (λ w.
          standard_rounds left (i + 1) (words block 64) (round (get_or round_constants i 0) w s))
        word

-- The transform, with its rolling schedule of 16 words, is the standard's compression function with
-- the whole schedule of 64 words.
pub transform_standard :
    (state : State) (block : Bytes) → transform state block ≡ standard_transform state block
unfolding transform standard_transform
transform_standard state block =
    ap (add_states state)
      (rounds_standard 64 0 block zeros state refl (λ j p q. absurd (omega arith)))
