-- ===== src/HddDevice/Image.antt =====
-- A payload image that is read holds the sectors of the disk.
use fhdb_bootstrap_manager.Common.{
  congr_fun, ℕ, zero, suc, ◌+◌, ◌-◌, ◌*◌, ◌%◌, ◌^◌, ◌≤◌, ◌<◌, ◌≡◌, refl, sym, ap, ◌∙◌, false, inl,
  inr, Bool-cases, ◌==◌, ◌||◌, ltb, lt→ltb, ge→ltb, arith,
}
use native.Mathlib.Decide.{dec_lt}
use fhdb_bootstrap_manager.Common.Ints.{is_neg}
use fhdb_bootstrap_manager.Common.Bytes.{Bytes, zeros, memcpy, memcpy_inside}
use fhdb_bootstrap_manager.Common.Arrays.{memcpy_before}
use fhdb_bootstrap_manager.HddDevice.{Device, read_loop, read_payload_image, chunk_sectors}
use fhdb_bootstrap_manager.HddDevice.ReadBack.{ReadLaws}

-- What no read of sectors changes, the read of an image leaves as well.
module _ (S A : Type 0) (device : Device S) (look : S → A)
    (same : (lba n : ℕ) (d : Bytes) (s : S) → look (device.read_sector lba n d s).2 ≡ look s) where
  read_loop-keeps :
      (fuel start sectors sector_offset : ℕ) (payload : Bytes) (s : S)
      → look (read_loop S device fuel start sectors sector_offset payload s).2 ≡ look s
  unfolding read_loop
  read_loop-keeps zero start sectors sector_offset payload s = refl
  read_loop-keeps (suc fuel) start sectors sector_offset payload s =
      let chunk = chunk_sectors (sectors - sector_offset) in
      let lba : ℕ = (start + sector_offset) % 2 ^ 32 in
      let (result, buffer, after) = device.read_sector lba chunk zeros s in
      let read = same lba chunk zeros s in
      elim (Bool-cases (ltb sector_offset sectors)) [
        | inr done ↦ rw (done, read_loop) refl
        | inl more ↦ elim (Bool-cases (is_neg result)) [
          | inl fails ↦ rw (more, fails, read_loop) read
          | inr good ↦
              rw (more, good, read_loop)
                (read_loop-keeps fuel start sectors (sector_offset + chunk)
                    (memcpy payload (sector_offset * 512) buffer (chunk * 512)) after
                  ∙ read)
        ]
      ]

  pub read_payload_image-keeps :
      (start sectors : ℕ) (s : S) → look (read_payload_image S device start sectors s).2 ≡ look s
  unfolding read_payload_image
  read_payload_image-keeps start sectors s = elim (Bool-cases (sectors == 0 || ltb 8192 sectors)) [
    | inl refused ↦ rw refused refl
    | inr accepted ↦ rw accepted (read_loop-keeps sectors start sectors 0 zeros s)
  ]

module _ (S : Type 0) (device : Device S) (laws : ReadLaws S device) where
  -- The image up to a sector.
  abbrev HasRead : ℕ → ℕ → Bytes → S → Type 0
  HasRead start sectors payload s =
      (i : ℕ) → i < sectors * 512 → payload i ≡ laws.content s (start * 512 + i)

  chunk_added :
      (start sector_offset chunk : ℕ) (payload : Bytes) (s : S)
      → start + sector_offset < 2 ^ 32
      → is_neg (device.read_sector ((start + sector_offset) % 2 ^ 32) chunk zeros s).0 ≡ false
      → HasRead start sector_offset payload s
      → HasRead start
          (sector_offset + chunk)
          (memcpy payload
            (sector_offset * 512)
            (device.read_sector ((start + sector_offset) % 2 ^ 32) chunk zeros s).1
            (chunk * 512))
          (device.read_sector ((start + sector_offset) % 2 ^ 32) chunk zeros s).2
  chunk_added start sector_offset chunk payload s fits reads done i below =
      let lba : ℕ = (start + sector_offset) % 2 ^ 32 in
      let buffer : Bytes = (device.read_sector lba chunk zeros s).1 in
      let kept = congr_fun (sym (laws.read_keeps lba chunk zeros s)) (start * 512 + i) in
      elim (dec_lt i (sector_offset * 512)) [
        | yes earlier ↦
            memcpy_before payload (sector_offset * 512) buffer (chunk * 512) i earlier
            ∙ done i earlier
            ∙ kept
        | no here ↦
            let place : lba * 512 + (i - sector_offset * 512) ≡ start * 512 + i = omega arith in
            memcpy_inside payload (sector_offset * 512) buffer (chunk * 512) i (omega arith)
              (omega arith)
            ∙ laws.read_holds lba chunk zeros s reads (i - sector_offset * 512) (omega arith)
            ∙ ap (laws.content s) place
            ∙ kept
      ]

  loop_reads :
      (fuel start sectors sector_offset : ℕ) (payload : Bytes) (s : S)
      → sectors ≤ sector_offset + fuel
      → sector_offset ≤ sectors
      → start + sectors < 2 ^ 32
      → HasRead start sector_offset payload s
      → is_neg (read_loop S device fuel start sectors sector_offset payload s).0 ≡ false
      → HasRead start sectors
          (read_loop S device fuel start sectors sector_offset payload s).1
          (read_loop S device fuel start sectors sector_offset payload s).2
  unfolding read_loop
  loop_reads zero start sectors sector_offset payload s enough within fits done h =
      λ i below. done i (omega arith)
  loop_reads (suc fuel) start sectors sector_offset payload s enough within fits done h =
      elim (dec_lt sector_offset sectors) [
        | no finished ↦
            rw (ge→ltb sector_offset sectors (omega arith)) (λ i below. done i (omega arith))
        | yes more ↦
            let chunk : ℕ = chunk_sectors (sectors - sector_offset) in
            let some : 1 ≤ chunk = ground (arith, more) in
            let part : chunk ≤ sectors - sector_offset = ground (arith, more) in
            let lba : ℕ = (start + sector_offset) % 2 ^ 32 in
            elim (Bool-cases (is_neg (device.read_sector lba chunk zeros s).0)) [
              | inl fails ↦ absurd (ground (arith, h, fails, lt→ltb sector_offset sectors more))
              | inr reads ↦
                  let next : Bytes =
                    memcpy payload (sector_offset * 512) (device.read_sector lba chunk zeros s).1
                      (chunk * 512) in
                  let after : S = (device.read_sector lba chunk zeros s).2 in
                  let on : is_neg
                        (read_loop S device fuel start sectors (sector_offset + chunk) next after).0
                      ≡ false =
                    ground (arith, h, reads, lt→ltb sector_offset sectors more) in
                  rw (lt→ltb sector_offset sectors more, reads)
                    (loop_reads fuel start sectors (sector_offset + chunk) next after
                      (omega (arith, some)) (omega (arith, part)) fits
                      (chunk_added start sector_offset chunk payload s (omega arith) reads done) on)
            ]
      ]

  -- On a device whose reads give the bytes of the disk and leave them, an image that is read without an
  -- error holds, byte for byte, the sectors of the disk from the start on, where these lie below sector
  -- 2 ^ 32.
  pub image_read :
      (start sectors : ℕ) (s : S)
      → start + sectors < 2 ^ 32
      → is_neg (read_payload_image S device start sectors s).0 ≡ false
      → (i : ℕ) → i < sectors * 512
      → (read_payload_image S device start sectors s).1 i
        ≡ laws.content (read_payload_image S device start sectors s).2 (start * 512 + i)
  unfolding read_payload_image
  image_read start sectors s fits h = elim (Bool-cases (sectors == 0 || ltb 8192 sectors)) [
    | inl refused ↦ absurd (ground (arith, h, refused))
    | inr accepted ↦
        let on : is_neg (read_loop S device sectors start sectors 0 zeros s).0 ≡ false =
          ground (arith, h, accepted) in
        rw accepted (
          loop_reads sectors start sectors 0 zeros s (omega arith) (omega arith) fits
            (λ i below. absurd (omega arith)) on)
  ]
