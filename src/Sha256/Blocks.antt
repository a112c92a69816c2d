-- ===== src/Sha256/Blocks.antt =====
-- The blocks that close a message, as `sha256_final` writes them and as the standard's padding has them.
use fhdb_bootstrap_manager.Common.{
  ℕ, zero, suc, ◌+◌, ◌-◌, ◌%◌, ◌≤◌, ◌<◌, ◌≡◌, refl, sym, ap, ◌∙◌, List, [], ◌∷◌, ◌++◌, arith, ltb,
  ◌==◌, if◌then◌else◌, length, length-append, get_or, get_or-append_left, get_or-append_right,
  get_or-replicate, replicate, replicate-add, length-replicate, lt→ltb, ge→ltb,
}
use mathlib.Core.List.{append-nil, append_assoc}
use native.Mathlib.Decide.{dec_lt}
use fhdb_bootstrap_manager.Common.Bytes.{Bytes, of_list, memcpy, memset, write_8}
use fhdb_bootstrap_manager.Sha256.{transform, be64_bytes, length_field}
use fhdb_bootstrap_manager.Sha256.Stream.{Progress, absorb, absorb-append, absorb_full}

zeros_at :
    (k : ℕ) (t : List ℕ) (i : ℕ)
    → get_or (replicate k 0 ++ t) i 0 ≡ (if ltb i k then 0 else get_or t (i - k) 0)
zeros_at k t i = elim (dec_lt i k) [
  | yes inside ↦ rw (lt→ltb i k inside) (
      get_or-append_left (replicate k 0) t i 0 (omega (arith, length-replicate {A = ℕ} k 0, inside))
      ∙ get_or-replicate k 0 i)
  | no behind ↦ rw (ge→ltb i k (omega arith)) (
      get_or-append_right (replicate k 0) t i 0 (omega (arith, length-replicate {A = ℕ} k 0))
      ∙ ap (λ n. get_or t (i - n) 0) (length-replicate {A = ℕ} k 0))
]

head_at :
    (x : ℕ) (r : List ℕ) (j : ℕ) → get_or (x ∷ r) j 0 ≡ (if j == 0 then x else get_or r (j - 1) 0)
head_at x r zero = refl
head_at x r (suc j) = ground arith

-- The pending bytes, 0x80, `k` zeros, and a tail.
pub padded : List ℕ → ℕ → List ℕ → List ℕ
padded p k t = p ++ 0x80 ∷ (replicate k 0 ++ t)

padded_at :
    (p : List ℕ) (k : ℕ) (t : List ℕ) (i : ℕ)
    → get_or (padded p k t) i 0 ≡ (
        if ltb i (length p)
        then get_or p i 0
        else if i == length p
        then 0x80
        else if ltb i (length p + 1 + k)
        then 0
        else get_or t (i - (length p + 1 + k)) 0)
unfolding padded
padded_at p k t i = elim (dec_lt i (length p)) [
  | yes old ↦ ground (arith, get_or-append_left p (0x80 ∷ (replicate k 0 ++ t)) i 0 old)
  | no new ↦
      let same : i - length p - 1 - k ≡ i - (length p + 1 + k) = omega arith in
      ground (
        arith,
        get_or-append_right p (0x80 ∷ (replicate k 0 ++ t)) i 0 (omega arith),
        head_at 0x80 (replicate k 0 ++ t) (i - length p),
        zeros_at k t (i - length p - 1),
        ap (λ n. get_or t n 0) same,
      )
]

marked_block : Bytes → ℕ → ℕ → Bytes
marked_block block used k = memset (write_8 block used 0x80) (used + 1) 0 k

marked_at :
    (block : Bytes) (p t : List ℕ) (k i : ℕ)
    → ((j : ℕ) → j < length p → block j ≡ get_or p j 0)
    → i < length p + 1 + k
    → marked_block block (length p) k i ≡ get_or (padded p k t) i 0
unfolding marked_block
marked_at block p t k i h q = ground (arith, padded_at p k t i, h i)

-- The two blocks that close a message where the length field does not fit.
pub length_at :
    (block : Bytes) (k : ℕ) (t : List ℕ) (i : ℕ)
    → i < k + 8
    → memcpy (memset block 0 0 k) k (of_list t) 8 i ≡ get_or (replicate k 0 ++ t) i 0
length_at block k t i q = ground (arith, zeros_at k t i)

length-padded :
    (p : List ℕ) (k : ℕ) (t : List ℕ) → length (padded p k t) ≡ length p + 1 + k + length t
unfolding padded
length-padded p k t = omega (
  arith,
  length-append p (0x80 ∷ (replicate k 0 ++ t)),
  length-append (replicate k 0) t,
  length-replicate {A = ℕ} k 0,
)

-- The last block, where the length field fits behind the pending bytes.
last_block :
    (block : Bytes) (p : List ℕ) (bits i : ℕ)
    → ((j : ℕ) → j < length p → block j ≡ get_or p j 0)
    → length p < 56
    → i < 64
    → length_field (marked_block block (length p) (55 - length p)) bits i
      ≡ get_or (padded p (55 - length p) (be64_bytes bits)) i 0
last_block block p bits i h room q = elim (dec_lt i 56) [
  | yes before ↦
      ground (arith, marked_at block p (be64_bytes bits) (55 - length p) i h (omega arith))
  | no field ↦ ground (arith, padded_at p (55 - length p) (be64_bytes bits) i)
]

-- The same blocks as `sha256_final` writes them.
pub short_block :
    (block : Bytes) (used : ℕ) (p : List ℕ) (bits i : ℕ)
    → used ≡ length p
    → ((j : ℕ) → j < length p → block j ≡ get_or p j 0)
    → length p < 56
    → i < 64
    → length_field (memset (write_8 block used 0x80) (used + 1) 0 (56 - (used + 1))) bits i
      ≡ get_or (padded p (55 - length p) (be64_bytes bits)) i 0
unfolding marked_block
short_block block used p bits i u h room q =
    let gap : 56 - (length p + 1) ≡ 55 - length p = omega arith in
    rw (u, gap) (last_block block p bits i h room q)

pub spilled_block :
    (block : Bytes) (used : ℕ) (p : List ℕ) (i : ℕ)
    → used ≡ length p
    → ((j : ℕ) → j < length p → block j ≡ get_or p j 0)
    → length p < 64
    → i < 64
    → memset (write_8 block used 0x80) (used + 1) 0 (64 - (used + 1)) i
      ≡ get_or (padded p (63 - length p) []) i 0
unfolding marked_block
spilled_block block used p i u h room q =
    let gap : 64 - (length p + 1) ≡ 63 - length p = omega arith in
    rw (u, gap) (marked_at block p [] (63 - length p) i h (omega arith))

-- The number of zeros, by the number of pending bytes.
unfoldable pub gap : ℕ → ℕ
gap m = (119 - m) % 64

pub absorb_padding_short :
    (p : Progress) (t : List ℕ)
    → length p.pending < 56
    → length t ≡ 8
    → absorb p (0x80 ∷ (replicate (gap (length p.pending)) 0 ++ t)) ≡ record {
      state = transform p.state (of_list (padded p.pending (55 - length p.pending) t));
      pending = [];
    }
unfolding gap padded
absorb_padding_short p t room l =
    let zeros_count : (119 - length p.pending) % 64 ≡ 55 - length p.pending = omega arith in
    rw zeros_count (
      absorb_full p.state p.pending (0x80 ∷ (replicate (55 - length p.pending) 0 ++ t))
        (omega (
          arith,
          length-append (replicate (55 - length p.pending) 0) t,
          length-replicate {A = ℕ} (55 - length p.pending) 0,
        ))
        (omega arith))

padding_split :
    (m : ℕ) (t : List ℕ)
    → 56 ≤ m
    → m < 64
    → 0x80 ∷ (replicate (gap m) 0 ++ t)
      ≡ (0x80 ∷ (replicate (63 - m) 0 ++ [])) ++ (replicate 56 0 ++ t)
unfolding gap
padding_split m t tight room =
    let count : (119 - m) % 64 ≡ 63 - m + 56 = omega arith in
    ap (λ n. 0x80 ∷ (replicate n 0 ++ t)) count
    ∙ ap (λ r. 0x80 ∷ (r ++ t)) (replicate-add (63 - m) 56 0)
    ∙ ap (λ r. 0x80 ∷ r) (append_assoc (replicate (63 - m) 0) (replicate 56 0) t)
    ∙ ap (λ r. 0x80 ∷ (r ++ (replicate 56 0 ++ t))) (sym (append-nil (replicate (63 - m) 0)))

pub absorb_padding_long :
    (p : Progress) (t : List ℕ)
    → 56 ≤ length p.pending
    → length p.pending < 64
    → length t ≡ 8
    → absorb p (0x80 ∷ (replicate (gap (length p.pending)) 0 ++ t)) ≡ record {
      state =
          transform
            (transform p.state (of_list (padded p.pending (63 - length p.pending) [])))
            (of_list (replicate 56 0 ++ t));
      pending = [];
    }
absorb_padding_long p t tight room l =
    let k = 63 - length p.pending in
    let first : List ℕ = 0x80 ∷ (replicate k 0 ++ []) in
    rw (padding_split (length p.pending) t tight room) (
      absorb-append p first (replicate 56 0 ++ t)
      ∙ ap (λ q. absorb q (replicate 56 0 ++ t))
          (absorb_full p.state p.pending first
            (omega (arith, length-append {A = ℕ} (replicate k 0) [], length-replicate {A = ℕ} k 0))
            (omega arith))
      ∙ unfold padded in
        absorb_full (transform p.state (of_list (p.pending ++ first))) [] (replicate 56 0 ++ t)
          (omega (arith, l)) (omega arith))
