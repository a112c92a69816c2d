-- ===== src/Sha256/Padding.antt =====
-- `sha256_final` hashes the padding that the standard prescribes.
use fhdb_bootstrap_manager.Common.{
  ℕ, zero, suc, ◌+◌, ◌-◌, ◌*◌, ◌%◌, ◌^◌, ◌≤◌, ◌<◌, ◌≡◌, refl, sym, ap, ap₂, subst, ◌∙◌, true, false,
  List, [], ◌∷◌, ◌++◌, arith, ltb, length, length-append, drop, replicate,
}
use native.Mathlib.Decide.{dec_lt, ℕ_discrete}
use fhdb_bootstrap_manager.Common.Bytes.{of_list, memset, write_8}
use fhdb_bootstrap_manager.Sha256.{
  Context, transform, fill_partial, whole_blocks, keep_rest, sha256_init, sha256_update,
  sha256_final, sha256_buffer, digest_of, be64_bytes,
}
use fhdb_bootstrap_manager.Sha256.Stream.{
  Progress, absorb, absorb_byte, start, absorb-nil, absorb-append, transform-congr,
}
use fhdb_bootstrap_manager.Sha256.Fill.{Represents}
use fhdb_bootstrap_manager.Sha256.Update.{update_absorbs, init-Represents}
use fhdb_bootstrap_manager.Sha256.Blocks.{
  padded, length_at, short_block, spilled_block, gap, absorb_padding_short, absorb_padding_long,
}

-- What the standard appends to a message of `n` bytes.
abbrev pub padding : ℕ → List ℕ
padding n = 0x80 ∷ (replicate ((119 - n % 64) % 64) 0 ++ be64_bytes (n * 8 % 2 ^ 64))

bits_of : Context → ℕ
bits_of c = c.total_bytes * 8 % 2 ^ 64

final_short :
    (c : Context) (p : Progress)
    → Represents c p
    → length p.pending < 56
    → sha256_final c
      ≡ digest_of (
          transform p.state
            (of_list (padded p.pending (55 - length p.pending) (be64_bytes (bits_of c)))))
unfolding sha256_final bits_of
final_short c p r room =
    let fits : ltb 56 (c.block_used + 1) ≡ false = ground (arith, r.used) in
    rw fits (
      ap digest_of (
        ap₂ transform r.state refl
        ∙ transform-congr p.state _ _ (λ i q.
          short_block c.block c.block_used p.pending (bits_of c) i r.used r.bytes room q)))

final_long :
    (c : Context) (p : Progress)
    → Represents c p
    → 56 ≤ length p.pending
    → sha256_final c
      ≡ digest_of (
          transform
            (transform p.state (of_list (padded p.pending (63 - length p.pending) [])))
            (of_list (replicate 56 0 ++ be64_bytes (bits_of c))))
unfolding sha256_final bits_of
final_long c p r tight =
    let spills : ltb 56 (c.block_used + 1) ≡ true = ground (arith, r.used) in
    let block =
      memset (write_8 c.block c.block_used 0x80) (c.block_used + 1) 0 (64 - (c.block_used + 1)) in
    rw spills (
      ap digest_of (
        ap₂ transform
          (ap₂ transform r.state refl
            ∙ transform-congr p.state _ _
                (λ i q. spilled_block c.block c.block_used p.pending i r.used r.bytes r.room q))
          refl
        ∙ transform-congr
            (transform p.state (of_list (padded p.pending (63 - length p.pending) []))) _ _
            (λ i q. length_at block 56 (be64_bytes (bits_of c)) i (omega (arith, q)))))

-- A finished hash is that of the pending bytes followed by the padding.
final_absorbs :
    (c : Context) (p : Progress)
    → Represents c p
    → sha256_final c
      ≡ digest_of
          (absorb p (0x80 ∷ (replicate (gap (length p.pending)) 0 ++ be64_bytes (bits_of c)))).state
final_absorbs c p r = elim (dec_lt (length p.pending) 56) [
  | yes room ↦
      final_short c p r room
      ∙ ap (λ q. digest_of q.state)
          (sym (absorb_padding_short p (be64_bytes (bits_of c)) room refl))
  | no tight ↦
      final_long c p r (omega arith)
      ∙ ap (λ q. digest_of q.state)
          (sym (absorb_padding_long p (be64_bytes (bits_of c)) (omega arith) r.room refl))
]

absorb_byte_pending :
    (p : Progress) (x n : ℕ)
    → length p.pending < 64
    → (length (absorb_byte p x).pending < 64)
      × ((length (absorb_byte p x).pending + n) % 64 ≡ (length p.pending + suc n) % 64)
absorb_byte_pending p x n h = elim (ℕ_discrete (length p.pending + 1) 64) [
  | yes closes ↦ ground (arith, length-append p.pending (x ∷ []))
  | no keeps ↦ ground (arith, length-append p.pending (x ∷ []))
]

absorb_pending :
    (p : Progress) (xs : List ℕ)
    → length p.pending < 64
    → length (absorb p xs).pending ≡ (length p.pending + length xs) % 64
unfolding absorb
absorb_pending p [] h = omega arith
absorb_pending p (x ∷ xs) h =
    let (room, count) = absorb_byte_pending p x (length xs) h in
    absorb_pending (absorb_byte p x) xs room ∙ count

fill_total : (c : Context) (xs : List ℕ) → (fill_partial c xs).0.total_bytes ≡ c.total_bytes
unfolding fill_partial
fill_total c xs = ground arith

blocks_total :
    (fuel : ℕ) (c : Context) (xs : List ℕ) → (whole_blocks fuel c xs).0.total_bytes ≡ c.total_bytes
unfolding whole_blocks
blocks_total zero c xs = refl
blocks_total (suc fuel) c xs =
    ground
      (arith, blocks_total fuel (record c { state = transform c.state (of_list xs) }) (drop 64 xs))

rest_total : (c : Context) (xs : List ℕ) → (keep_rest c xs).total_bytes ≡ c.total_bytes
unfolding keep_rest
rest_total c xs = ground arith

update_total :
    (c : Context) (xs : List ℕ)
    → (sha256_update c xs).total_bytes ≡ (c.total_bytes + length xs) % 2 ^ 64
unfolding sha256_update
update_total c xs = rest_total _ _ ∙ blocks_total _ _ _ ∙ fill_total _ _

-- The digest of a context that holds a whole message.
message_digest :
    (c : Context) (xs : List ℕ)
    → Represents c (absorb start xs)
    → c.total_bytes ≡ length xs % 2 ^ 64
    → sha256_final c ≡ digest_of (absorb start (xs ++ padding (length xs))).state
unfolding gap bits_of
message_digest c xs r total =
    let p : Progress = absorb start xs in
    let zeros_count : gap (length p.pending) ≡ (119 - length xs % 64) % 64 =
      omega (arith, absorb_pending start xs (omega arith)) in
    let bits : bits_of c ≡ length xs * 8 % 2 ^ 64 = omega (arith, total) in
    final_absorbs c p r
    ∙ ap (λ q. digest_of q.state)
        (ap₂ (λ k b. absorb p (0x80 ∷ (replicate k 0 ++ be64_bytes b))) zeros_count bits
          ∙ sym (absorb-append start xs (padding (length xs))))

-- The updates of a message that comes in pieces, and the message.
unfoldable pub update_pieces : Context → List (List ℕ) → Context
update_pieces c [] = c
update_pieces c (xs ∷ rest) = update_pieces (sha256_update c xs) rest

unfoldable pub join : List (List ℕ) → List ℕ
join [] = []
join (xs ∷ rest) = xs ++ join rest

pieces_absorb :
    (c : Context) (p : Progress) (pieces : List (List ℕ))
    → Represents c p
    → Represents (update_pieces c pieces) (absorb p (join pieces))
unfolding update_pieces join
pieces_absorb c p [] r = subst (Represents c) (sym (absorb-nil p)) r
pieces_absorb c p (xs ∷ rest) r =
    subst (Represents (update_pieces (sha256_update c xs) rest))
      (sym (absorb-append p xs (join rest)))
      (pieces_absorb (sha256_update c xs) (absorb p xs) rest (update_absorbs c p xs r))

pieces_total :
    (c : Context) (pieces : List (List ℕ))
    → c.total_bytes < 2 ^ 64
    → (update_pieces c pieces).total_bytes ≡ (c.total_bytes + length (join pieces)) % 2 ^ 64
unfolding update_pieces join
pieces_total c [] h = omega arith
pieces_total c (xs ∷ rest) h = omega (
  arith,
  update_total c xs,
  pieces_total (sha256_update c xs) rest (omega (arith, update_total c xs)),
  length-append xs (join rest),
)

-- However a message is cut into pieces for the updates, its digest is that of its bytes followed by the
-- padding of the standard, taken in blocks of 64 bytes from the standard's initial state.
pub pieces_digest :
    (pieces : List (List ℕ))
    → sha256_final (update_pieces sha256_init pieces)
      ≡ digest_of (absorb start (join pieces ++ padding (length (join pieces)))).state
pieces_digest pieces =
    message_digest (update_pieces sha256_init pieces) (join pieces)
      (pieces_absorb sha256_init start pieces init-Represents)
      (omega (arith, pieces_total sha256_init pieces (omega arith)))

-- `sha256_buffer` gives the digest of the same message in one piece.
pub buffer_digest :
    (xs : List ℕ) → sha256_buffer xs ≡ digest_of (absorb start (xs ++ padding (length xs))).state
unfolding sha256_buffer
buffer_digest xs =
    message_digest (sha256_update sha256_init xs) xs
      (update_absorbs sha256_init start xs init-Represents)
      (omega (arith, update_total sha256_init xs))
