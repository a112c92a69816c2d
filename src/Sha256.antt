-- ===== src/Sha256.antt =====
-- src/sha256.c and include/sha256.h: the streaming hash. A `uint32_t` sum is reduced modulo 2 ^ 32, and the
-- data given to an update is the list of its bytes.
pub mod Schedule
pub mod Stream
pub mod Fill
pub mod Update
pub mod Blocks
pub mod Padding
pub mod Digest
mod Vectors
use fhdb_bootstrap_manager.Common.{
  ℕ, zero, suc, ◌+◌, ◌-◌, ◌*◌, ◌/◌, ◌%◌, ◌^◌, bit_and, bit_or, Bool, true, false, ◌&&◌, List, [],
  ◌∷◌, ◌++◌, ltb, leb, ◌==◌, ◌!=◌, if◌then◌else◌, length, get_or, drop,
}
use fhdb_bootstrap_manager.Common.Bytes.{
  Bytes, shift, zeros, of_list, bytes_list, memcpy, memset, write_8, codes,
}
use Prim.Native.Nat.{bit_xor}

abbrev pub round_constants : List ℕ
round_constants =
    0x428a2f98 ∷ 0x71374491 ∷ 0xb5c0fbcf ∷ 0xe9b5dba5 ∷ 0x3956c25b ∷ 0x59f111f1 ∷ 0x923f82a4
    ∷ 0xab1c5ed5 ∷ 0xd807aa98 ∷ 0x12835b01 ∷ 0x243185be ∷ 0x550c7dc3 ∷ 0x72be5d74 ∷ 0x80deb1fe
    ∷ 0x9bdc06a7 ∷ 0xc19bf174 ∷ 0xe49b69c1 ∷ 0xefbe4786 ∷ 0x0fc19dc6 ∷ 0x240ca1cc ∷ 0x2de92c6f
    ∷ 0x4a7484aa ∷ 0x5cb0a9dc ∷ 0x76f988da ∷ 0x983e5152 ∷ 0xa831c66d ∷ 0xb00327c8 ∷ 0xbf597fc7
    ∷ 0xc6e00bf3 ∷ 0xd5a79147 ∷ 0x06ca6351 ∷ 0x14292967 ∷ 0x27b70a85 ∷ 0x2e1b2138 ∷ 0x4d2c6dfc
    ∷ 0x53380d13 ∷ 0x650a7354 ∷ 0x766a0abb ∷ 0x81c2c92e ∷ 0x92722c85 ∷ 0xa2bfe8a1 ∷ 0xa81a664b
    ∷ 0xc24b8b70 ∷ 0xc76c51a3 ∷ 0xd192e819 ∷ 0xd6990624 ∷ 0xf40e3585 ∷ 0x106aa070 ∷ 0x19a4c116
    ∷ 0x1e376c08 ∷ 0x2748774c ∷ 0x34b0bcb5 ∷ 0x391c0cb3 ∷ 0x4ed8aa4a ∷ 0x5b9cca4f ∷ 0x682e6ff3
    ∷ 0x748f82ee ∷ 0x78a5636f ∷ 0x84c87814 ∷ 0x8cc70208 ∷ 0x90befffa ∷ 0xa4506ceb ∷ 0xbef9a3f7
    ∷ 0xc67178f2 ∷ []

rotate_right : ℕ → ℕ → ℕ
rotate_right value bits = bit_or (value / 2 ^ bits) (value * 2 ^ (32 - bits) % 2 ^ 32)

read_be32 : Bytes → ℕ
read_be32 s = bit_or (bit_or (bit_or (s 0 * 2 ^ 24) (s 1 * 2 ^ 16)) (s 2 * 2 ^ 8)) (s 3)

be32_bytes : ℕ → List ℕ
be32_bytes v = v / 2 ^ 24 % 2 ^ 8 ∷ v / 2 ^ 16 % 2 ^ 8 ∷ v / 2 ^ 8 % 2 ^ 8 ∷ v % 2 ^ 8 ∷ []

-- `state`, and the eight working variables of a transform.
pub record State : Type 0 where
  pub a : ℕ
  pub b : ℕ
  pub c : ℕ
  pub d : ℕ
  pub e : ℕ
  pub f : ℕ
  pub g : ℕ
  pub h : ℕ

pub record Context : Type 0 where
  pub state : State
  pub total_bytes : ℕ
  pub block : Bytes
  pub block_used : ℕ

-- `s0` and `s1` of the message schedule.
small_sigma0 : ℕ → ℕ
unfolding rotate_right
small_sigma0 w = bit_xor (bit_xor (rotate_right w 7) (rotate_right w 18)) (w / 2 ^ 3)

small_sigma1 : ℕ → ℕ
unfolding rotate_right
small_sigma1 w = bit_xor (bit_xor (rotate_right w 17) (rotate_right w 19)) (w / 2 ^ 10)

-- One round, with the round constant and the message word.
round : ℕ → ℕ → State → State
round constant word s =
    let sum1 = bit_xor (bit_xor (rotate_right s.e 6) (rotate_right s.e 11)) (rotate_right s.e 25) in
    let choose = bit_xor (bit_and s.e s.f) (bit_and (2 ^ 32 - 1 - s.e) s.g) in
    let temporary1 = (s.h + sum1 + choose + constant + word) % 2 ^ 32 in
    let sum0 = bit_xor (bit_xor (rotate_right s.a 2) (rotate_right s.a 13)) (rotate_right s.a 22) in
    let majority = bit_xor (bit_xor (bit_and s.a s.b) (bit_and s.a s.c)) (bit_and s.b s.c) in
    let temporary2 = (sum0 + majority) % 2 ^ 32 in
    record {
      a = (temporary1 + temporary2) % 2 ^ 32;
      b = s.a;
      c = s.b;
      d = s.c;
      e = (s.d + temporary1) % 2 ^ 32;
      f = s.e;
      g = s.f;
      h = s.g;
    }

-- The message word of round `i`, from the block or from the rolling schedule of 16 words.
next_word : ℕ → Bytes → Bytes → ℕ
next_word i block schedule =
    if ltb i 16
    then read_be32 (shift block (i * 4))
    else (schedule (bit_and i 15)
        + small_sigma0 (schedule (bit_and (i - 15) 15))
        + schedule (bit_and (i - 7) 15)
        + small_sigma1 (schedule (bit_and (i - 2) 15)))
      % 2 ^ 32

-- `schedule[i & 15] = word`; in the first 16 rounds `i & 15` is `i`.
abbrev store_word : ℕ → ℕ → Bytes → Bytes
store_word i word schedule = λ j. if j == bit_and i 15 then word else schedule j

-- The loop of `sha256_transform` from round `i` on, with `left` rounds to go.
rounds : ℕ → ℕ → Bytes → Bytes → State → State
rounds zero i block schedule s = s
rounds (suc left) i block schedule s =
    let word = next_word i block schedule in
    rounds left (i + 1) block (store_word i word schedule)
      (round (get_or round_constants i 0) word s)

add_states : State → State → State
add_states s t = record {
  a = (s.a + t.a) % 2 ^ 32;
  b = (s.b + t.b) % 2 ^ 32;
  c = (s.c + t.c) % 2 ^ 32;
  d = (s.d + t.d) % 2 ^ 32;
  e = (s.e + t.e) % 2 ^ 32;
  f = (s.f + t.f) % 2 ^ 32;
  g = (s.g + t.g) % 2 ^ 32;
  h = (s.h + t.h) % 2 ^ 32;
}

-- The schedule array starts with no defined value; every word is stored before it is read.
pub transform : State → Bytes → State
transform state block = add_states state (rounds 64 0 block zeros state)

abbrev pub initial_state : State
initial_state = record {
  a = 0x6a09e667;
  b = 0xbb67ae85;
  c = 0x3c6ef372;
  d = 0xa54ff53a;
  e = 0x510e527f;
  f = 0x9b05688c;
  g = 0x1f83d9ab;
  h = 0x5be0cd19;
}

abbrev pub sha256_init : Context
sha256_init = record { state = initial_state; total_bytes = 0; block = zeros; block_used = 0 }

-- `context->block_used == sizeof(context->block)` after a copy into the block.
abbrev pub close_block : Context → Context
close_block context =
    if context.block_used == 64
    then record context { state = transform context.state context.block; block_used = 0 }
    else context

abbrev pub chunk_size : Context → List ℕ → ℕ
chunk_size context source =
    if ltb (length source) (64 - context.block_used) then length source else 64 - context.block_used

-- "Finish a partial buffered block first."
pub fill_partial : Context → List ℕ → Context × List ℕ
fill_partial context source =
    if context.block_used != 0 && length source != 0
    then (
      close_block (record context {
        block =
            memcpy context.block context.block_used (of_list source) (chunk_size context source);
        block_used = context.block_used + chunk_size context source;
      }),
      drop (chunk_size context source) source,
    )
    else (context, source)

-- "Hash complete caller-owned blocks in place."; each round takes 64 bytes.
whole_blocks : ℕ → Context → List ℕ → Context × List ℕ
whole_blocks zero context source = (context, source)
whole_blocks (suc fuel) context source =
    let rest =
      whole_blocks fuel (record context { state = transform context.state (of_list source) })
        (drop 64 source) in
    if context.block_used == 0 && leb 64 (length source) then rest else (context, source)

keep_rest : Context → List ℕ → Context
keep_rest context source =
    if length source != 0
    then record context {
      block = memcpy context.block 0 (of_list source) (length source);
      block_used = length source;
    }
    else context

-- As many rounds as bytes are enough: every round takes some.
pub sha256_update : Context → List ℕ → Context
sha256_update context source =
    let counted = record context { total_bytes = (context.total_bytes + length source) % 2 ^ 64 } in
    let (filled, left) = fill_partial counted source in
    let (hashed, last) = whole_blocks (length left) filled left in keep_rest hashed last

abbrev pub be64_bytes : ℕ → List ℕ
be64_bytes v =
    v / 2 ^ 56 % 2 ^ 8
    ∷ v / 2 ^ 48 % 2 ^ 8
    ∷ v / 2 ^ 40 % 2 ^ 8
    ∷ v / 2 ^ 32 % 2 ^ 8
    ∷ v / 2 ^ 24 % 2 ^ 8
    ∷ v / 2 ^ 16 % 2 ^ 8
    ∷ v / 2 ^ 8 % 2 ^ 8
    ∷ v % 2 ^ 8
    ∷ []

-- `block[63 - i] = (unsigned char)(total_bits >> (i * 8))` for i from 0 to 7.
abbrev length_field : Bytes → ℕ → Bytes
length_field block total_bits = memcpy block 56 (of_list (be64_bytes total_bits)) 8

pub digest_of : State → List ℕ
digest_of s =
    be32_bytes s.a
    ++ be32_bytes s.b
    ++ be32_bytes s.c
    ++ be32_bytes s.d
    ++ be32_bytes s.e
    ++ be32_bytes s.f
    ++ be32_bytes s.g
    ++ be32_bytes s.h

-- The block closed by its 0x80 byte, and how many of its bytes are used then.
abbrev marked : Context → Context
marked context = record context {
  block = write_8 context.block context.block_used 0x80;
  block_used = context.block_used + 1;
}

abbrev spill : Context → Context
spill context =
    if ltb 56 context.block_used
    then record context {
      state =
          transform context.state
            (memset context.block context.block_used 0 (64 - context.block_used));
      block = memset context.block context.block_used 0 (64 - context.block_used);
      block_used = 0;
    }
    else context

-- The 32 bytes of the digest.
pub sha256_final : Context → List ℕ
sha256_final context =
    let total_bits = context.total_bytes * 8 % 2 ^ 64 in
    let last = spill (marked context) in
    digest_of (
      transform last.state
        (length_field (memset last.block last.block_used 0 (56 - last.block_used)) total_bits))

pub sha256_buffer : List ℕ → List ℕ
sha256_buffer source = sha256_final (sha256_update sha256_init source)

abbrev hex_digit : ℕ → ℕ
hex_digit d = get_or (codes "0123456789abcdef") d 0

-- The 64 characters before the terminating zero.
unfoldable pub sha256_hex : List ℕ → List ℕ
sha256_hex [] = []
sha256_hex (x ∷ digest) = hex_digit (x / 2 ^ 4) ∷ hex_digit (bit_and x 0x0f) ∷ sha256_hex digest
