-- ===== src/HddDevice/Writes.antt =====
-- What the writes of a device promise, and that a payload write leaves the disk in front of its place.
use fhdb_bootstrap_manager.Common.{
  congr_fun, ℕ, zero, suc, ◌+◌, ◌-◌, ◌*◌, ◌%◌, ◌^◌, ◌≤◌, ◌<◌, ◌≡◌, ◌⊎◌, inl, inr, refl, ◌∙◌, true,
  ltb, Bool-cases, arith,
}
use fhdb_bootstrap_manager.Common.Ints.{is_neg}
use fhdb_bootstrap_manager.Common.Bytes.{Bytes, zeros, memeq}
use fhdb_bootstrap_manager.HddDevice.{
  Device, write_loop, verify_loop, write_payload_verified, chunk_bytes, sectors_of, packet_data,
}
use fhdb_bootstrap_manager.HddDevice.ReadBack.{ReadLaws}

-- What a write and a flush promise: the bytes in front of the sectors written stay as they are.
pub record WriteLaws (S : Type 0) (device : Device S) (reads : ReadLaws S device) : Type 0 where
  pub write_keeps :
      (lba sectors : ℕ) (source : Bytes) (s : S) (i : ℕ)
      → i < lba * 512
      → reads.content (device.write_sector lba sectors source s).1 i ≡ reads.content s i
  pub flush_keeps : (s : S) → reads.content (device.flush s).1 ≡ reads.content s

chunk_whole :
    (left : ℕ)
    → (sectors_of (chunk_bytes left) * 512 ≤ chunk_bytes left) ⊎ (chunk_bytes left ≡ left)
chunk_whole left = ground arith

next_at :
    (offset sector_offset size : ℕ)
    → (sector_offset * 512 ≤ offset) ⊎ (size ≤ offset)
    → ltb offset size ≡ true
    → let bytes = chunk_bytes (size - offset) in
      ((sector_offset + sectors_of bytes) * 512 ≤ offset + bytes) ⊎ (size ≤ offset + bytes)
next_at offset sector_offset size at more = ground (arith, at, more, chunk_whole (size - offset))

module _ (S : Type 0) (device : Device S) (reads : ReadLaws S device)
    (writes : WriteLaws S device reads) where
  -- As long as sectors are to be written, they stand behind the start sector and below 2 ^ 32.
  write_loop-keeps :
      (fuel : ℕ) (payload : Bytes) (size start offset sector_offset : ℕ) (s : S) (i : ℕ)
      → (sector_offset * 512 ≤ offset) ⊎ (size ≤ offset)
      → start + size < 2 ^ 32
      → i < start * 512
      → reads.content (write_loop S device fuel payload size start offset sector_offset s).1 i
        ≡ reads.content s i
  unfolding write_loop
  write_loop-keeps zero payload size start offset sector_offset s i at fits h = refl
  write_loop-keeps (suc fuel) payload size start offset sector_offset s i at fits h =
      elim (Bool-cases (ltb offset size)) [
        | inr done ↦ rw done refl
        | inl more ↦
            let bytes = chunk_bytes (size - offset) in
            let lba : ℕ = (start + sector_offset) % 2 ^ 32 in
            let source = packet_data payload offset bytes in
            let (result, after) = device.write_sector lba (sectors_of bytes) source s in
            let place : i < lba * 512 = ground (arith, more, at) in
            let kept = writes.write_keeps lba (sectors_of bytes) source s i place in
            elim (Bool-cases (is_neg result)) [
              | inl fails ↦ rw (more, fails) kept
              | inr wrote ↦
                  rw (more, wrote)
                    (write_loop-keeps fuel payload size start (offset + bytes)
                        (sector_offset + sectors_of bytes) after i
                        (next_at offset sector_offset size at more) fits h
                      ∙ kept)
            ]
      ]

  verify_loop-keeps :
      (fuel : ℕ) (payload : Bytes) (size start offset sector_offset : ℕ) (s : S)
      → reads.content (verify_loop S device fuel payload size start offset sector_offset s).1
        ≡ reads.content s
  unfolding verify_loop
  verify_loop-keeps zero payload size start offset sector_offset s = refl
  verify_loop-keeps (suc fuel) payload size start offset sector_offset s =
      let bytes = chunk_bytes (size - offset) in
      let sectors = sectors_of bytes in
      let lba : ℕ = (start + sector_offset) % 2 ^ 32 in
      let (result, buffer, after) = device.read_sector lba sectors zeros s in
      let kept = reads.read_keeps lba sectors zeros s in
      elim (Bool-cases (ltb offset size)) [
        | inr done ↦ rw done refl
        | inl more ↦ elim (Bool-cases (is_neg result)) [
          | inl fails ↦ rw (more, fails) kept
          | inr read ↦
              elim (Bool-cases (memeq (packet_data payload offset bytes) buffer (sectors * 512))) [
                | inr differs ↦ rw (more, read, differs) kept
                | inl same ↦
                    rw (more, read, same)
                      (verify_loop-keeps fuel payload size start (offset + bytes)
                          (sector_offset + sectors) after
                        ∙ kept)
              ]
        ]
      ]

  -- A payload write leaves the bytes of the disk in front of its start sector, whatever its outcome.
  pub write_payload-keeps :
      (payload : Bytes) (size start : ℕ) (s : S) (i : ℕ)
      → start + size < 2 ^ 32
      → i < start * 512
      → reads.content (write_payload_verified S device payload size start s).1 i ≡ reads.content s i
  unfolding write_payload_verified
  write_payload-keeps payload size start s i fits h =
      let (result, wrote) = write_loop S device size payload size start 0 0 s in
      let (flushed, clean) = device.flush wrote in
      let one = write_loop-keeps size payload size start 0 0 s i (inl (omega arith)) fits h in
      let two = congr_fun (writes.flush_keeps wrote) i ∙ one in
      elim (Bool-cases (is_neg result)) [
        | inl fails ↦ rw fails one
        | inr good ↦ elim (Bool-cases (is_neg flushed)) [
          | inl fails ↦ rw (good, fails) two
          | inr done ↦
              rw (good, done)
                (congr_fun (verify_loop-keeps size payload size start 0 0 clean) i ∙ two)
        ]
      ]
