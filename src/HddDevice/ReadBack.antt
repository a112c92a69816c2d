-- ===== src/HddDevice/ReadBack.antt =====
-- A payload write that returns no error has been read back from the disk, byte for byte.
use fhdb_bootstrap_manager.Common.{
  congr_fun, ℕ, zero, suc, ◌+◌, ◌-◌, ◌*◌, ◌%◌, ◌^◌, ◌≤◌, ◌<◌, ◌≡◌, ◌⊎◌, inl, inr, refl, sym, ap,
  ◌∙◌, true, false, Bool-cases, lt→ltb, ge→ltb, arith,
}
use native.Mathlib.Decide.{dec_lt}
use fhdb_bootstrap_manager.Common.Ints.{is_neg}
use fhdb_bootstrap_manager.Common.Bytes.{Bytes, zeros, memeq, memeq_sound}
use fhdb_bootstrap_manager.HddDevice.{
  Device, write_loop, verify_loop, write_payload_verified, chunk_bytes, sectors_of, packet_data,
}

-- What a read promises: the bytes of the disk, which it leaves as they are.
pub record ReadLaws (S : Type 0) (device : Device S) : Type 1 where
  pub content : S → Bytes
  pub read_holds :
      (lba sectors : ℕ) (destination : Bytes) (s : S)
      → is_neg (device.read_sector lba sectors destination s).0 ≡ false
      → (i : ℕ) → i < sectors * 512
      → (device.read_sector lba sectors destination s).1 i ≡ content s (lba * 512 + i)
  pub read_keeps :
      (lba sectors : ℕ) (destination : Bytes) (s : S)
      → content (device.read_sector lba sectors destination s).2 ≡ content s

chunk_cases :
    (left : ℕ)
    → 1 ≤ left
    → (1 ≤ chunk_bytes left)
      × (chunk_bytes left ≤ left)
      × (chunk_bytes left ≤ sectors_of (chunk_bytes left) * 512)
      × ((chunk_bytes left ≡ sectors_of (chunk_bytes left) * 512) ⊎ (chunk_bytes left ≡ left))
chunk_cases left some = ground arith

module _ (S : Type 0) (device : Device S) (laws : ReadLaws S device) where
  -- One compared chunk.
  chunk_same :
      (payload : Bytes) (start offset sector_offset bytes sectors : ℕ) (s : S) (i : ℕ)
      → offset ≡ sector_offset * 512
      → start + sector_offset < 2 ^ 32
      → bytes ≤ sectors * 512
      → is_neg (device.read_sector ((start + sector_offset) % 2 ^ 32) sectors zeros s).0 ≡ false
      → memeq
          (packet_data payload offset bytes)
          (device.read_sector ((start + sector_offset) % 2 ^ 32) sectors zeros s).1
          (sectors * 512)
        ≡ true
      → offset ≤ i
      → i < offset + bytes
      → laws.content s (start * 512 + i) ≡ payload i
  chunk_same payload start offset sector_offset bytes sectors s i at fits within reads same low
        high =
      let lba : ℕ = (start + sector_offset) % 2 ^ 32 in
      let place : lba * 512 + (i - offset) ≡ start * 512 + i = omega arith in
      let back : offset + (i - offset) ≡ i = omega arith in
      let held = laws.read_holds lba sectors zeros s reads (i - offset) (omega arith) in
      let compared = memeq_sound _ _ (sectors * 512) (i - offset) same (omega arith) in
      let packed : packet_data payload offset bytes (i - offset) ≡ payload (offset + (i - offset)) =
        ground arith in
      ap (laws.content s) (sym place) ∙ sym held ∙ sym compared ∙ packed ∙ ap payload back

  verify_sound :
      (fuel : ℕ) (payload : Bytes) (size start offset sector_offset : ℕ) (s : S)
      → size ≤ offset + fuel
      → (offset ≡ sector_offset * 512) ⊎ (size ≤ offset)
      → start + size < 2 ^ 32
      → is_neg (verify_loop S device fuel payload size start offset sector_offset s).0 ≡ false
      → (laws.content (verify_loop S device fuel payload size start offset sector_offset s).1
          ≡ laws.content s)
        × ((i : ℕ) → offset ≤ i → i < size → laws.content s (start * 512 + i) ≡ payload i)
  unfolding verify_loop
  verify_sound zero payload size start offset sector_offset s enough at fits h =
      (refl, λ i p q. absurd (omega arith))
  verify_sound (suc fuel) payload size start offset sector_offset s enough at fits h =
      elim (dec_lt offset size) [
        | no done ↦ rw (ge→ltb offset size (omega arith)) (refl, λ i p q. absurd (omega arith))
        | yes more ↦
            let bytes : ℕ = chunk_bytes (size - offset) in
            let sectors : ℕ = sectors_of bytes in
            let lba : ℕ = (start + sector_offset) % 2 ^ 32 in
            let after : S = (device.read_sector lba sectors zeros s).2 in
            let (some, within, room, whole) = chunk_cases (size - offset) (omega arith) in
            let here : offset ≡ sector_offset * 512 = ground (arith, at) in
            elim (Bool-cases (is_neg (device.read_sector lba sectors zeros s).0)) [
              | inl fails ↦ absurd (ground (arith, h, fails, lt→ltb offset size more))
              | inr reads ↦
                  elim (Bool-cases (
                    memeq (packet_data payload offset bytes)
                      (device.read_sector lba sectors zeros s).1 (sectors * 512))) [
                        | inr differs ↦
                            absurd (ground (arith, h, reads, differs, lt→ltb offset size more))
                        | inl same ↦
                            let on : is_neg
                                  (verify_loop S device fuel payload size start (offset + bytes)
                                    (sector_offset + sectors) after).0
                                ≡ false =
                              ground (arith, h, reads, same, lt→ltb offset size more) in
                            let (kept, rest) =
                              verify_sound fuel payload size start (offset + bytes)
                                (sector_offset + sectors) after (omega (arith, some))
                                (ground (arith, here, whole, within)) fits on in
                            let keeps : laws.content after ≡ laws.content s =
                              laws.read_keeps lba sectors zeros s in
                            rw (lt→ltb offset size more, reads, same)
                              (
                                kept ∙ keeps,
                                λ i p q. elim (dec_lt i (offset + bytes)) [
                                  | yes inside ↦
                                      chunk_same payload start offset sector_offset bytes sectors s
                                        i here (omega (arith, here)) room reads same p inside
                                  | no later ↦
                                      congr_fun (sym keeps) (start * 512 + i)
                                      ∙ rest i (omega arith) q
                                ],
                              )
                      ]
            ]
      ]

  -- On a device whose reads give the bytes of the disk and leave them, a payload write that returns no
  -- error leaves every byte of the payload on the disk, where the start sector and the payload's length
  -- in bytes sum up to less than 2 ^ 32.
  pub payload_on_disk :
      (payload : Bytes) (payload_size start_sector : ℕ) (s : S)
      → start_sector + payload_size < 2 ^ 32
      → is_neg (write_payload_verified S device payload payload_size start_sector s).0 ≡ false
      → (i : ℕ) → i < payload_size
      → laws.content
          (write_payload_verified S device payload payload_size start_sector s).1
          (start_sector * 512 + i)
        ≡ payload i
  unfolding write_payload_verified
  payload_on_disk payload payload_size start_sector s fits h i below =
      let wrote = write_loop S device payload_size payload payload_size start_sector 0 0 s in
      let clean : S = (device.flush wrote.1).1 in
      elim (Bool-cases (is_neg wrote.0)) [
        | inl fails ↦ absurd (ground (arith, h, fails))
        | inr writes ↦ elim (Bool-cases (is_neg (device.flush wrote.1).0)) [
          | inl fails ↦ absurd (ground (arith, h, writes, fails))
          | inr flushes ↦
              let verified : is_neg
                    (verify_loop S device payload_size payload payload_size start_sector 0 0
                      clean).0
                  ≡ false =
                ground (arith, h, writes, flushes) in
              let (kept, same) =
                verify_sound payload_size payload payload_size start_sector 0 0 clean (omega arith)
                  (inl refl) fits verified in
              rw (writes, flushes)
                (congr_fun kept (start_sector * 512 + i) ∙ same i (omega arith) below)
        ]
      ]
