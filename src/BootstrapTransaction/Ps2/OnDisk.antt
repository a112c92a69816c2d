-- ===== src/BootstrapTransaction/Ps2/OnDisk.antt =====
-- What an activation leaves on the disk, wherever it fails.
use fhdb_bootstrap_manager.Common.{
  congr_fun, ℕ, ◌+◌, ◌*◌, ◌^◌, ◌≤◌, ◌<◌, ◌≡◌, ◌⊎◌, inl, inr, refl, ◌∙◌, ◌==◌, ◌!=◌, Bool-cases,
  arith,
}
use fhdb_bootstrap_manager.Common.Ints.{is_neg}
use fhdb_bootstrap_manager.Common.Bytes.{Bytes, shift, zeros, read_le32}
use fhdb_bootstrap_manager.Apa.{is_standard_apa_header, osd_start_offset, osd_size_offset}
use fhdb_bootstrap_manager.HddDevice.{
  Device, read_raw_sectors, write_payload_verified, write_set_osd_mbr, write_verify_osd_mbr,
}
use fhdb_bootstrap_manager.HddDevice.ReadBack.{ReadLaws, payload_on_disk}
use fhdb_bootstrap_manager.HddDevice.Writes.{WriteLaws, write_payload-keeps}
use fhdb_bootstrap_manager.BootstrapTransaction.{set_pointer, activate}
use fhdb_bootstrap_manager.BootstrapTransaction.Ps2.{ps2_ops, ps2_activate}

-- What the pointer update promises: it changes nothing behind the master header.
pub record PointerLaws (S : Type 0) (device : Device S) (reads : ReadLaws S device) : Type 0 where
  pub set_keeps :
      (start size : ℕ) (s : S) (i : ℕ)
      → 1024 ≤ i
      → reads.content (device.set_osd start size s).1 i ≡ reads.content s i

module _ (S : Type 0) (device : Device S) (reads : ReadLaws S device)
    (writes : WriteLaws S device reads) (pointers : PointerLaws S device reads) where
  set_osd-keeps :
      (start size : ℕ) (s : S) (i : ℕ)
      → 1024 ≤ i
      → reads.content (write_set_osd_mbr S device start size s).1 i ≡ reads.content s i
  unfolding write_set_osd_mbr
  set_osd-keeps start size s i behind =
      let (result, after) = device.set_osd start size s in
      let kept = pointers.set_keeps start size s i behind in
      elim (Bool-cases (is_neg result)) [
        | inl fails ↦ rw fails kept
        | inr good ↦ rw good (congr_fun (writes.flush_keeps after) i ∙ kept)
      ]

  verify_osd-keeps :
      (header : Bytes) (start size : ℕ) (s : S)
      → reads.content (write_verify_osd_mbr S device header start size s).2 ≡ reads.content s
  unfolding write_verify_osd_mbr
  verify_osd-keeps header start size s =
      let (result, found, after) = read_raw_sectors S device 0 2 s in
      let kept = reads.read_keeps 0 2 zeros s in
      elim (Bool-cases (is_neg result)) [
        | inl fails ↦ rw fails kept
        | inr read ↦ elim (Bool-cases (is_standard_apa_header found)) [
          | inr odd ↦ rw (read, odd) kept
          | inl good ↦ elim (Bool-cases (read_le32 (shift found osd_start_offset) != start)) [
            | inl other ↦ rw (read, good, other) kept
            | inr here ↦ elim (Bool-cases (read_le32 (shift found osd_size_offset) != size)) [
              | inl other ↦ rw (read, good, here, other) kept
              | inr same ↦ rw (read, good, here, same) kept
            ]
          ]
        ]
      ]

  set_pointer-keeps :
      (header : Bytes) (start size : ℕ) (s : S) (i : ℕ)
      → 1024 ≤ i
      → reads.content (set_pointer (ps2_ops S device) header start size s).device i
        ≡ reads.content s i
  unfolding set_pointer ps2_ops
  set_pointer-keeps header start size s i behind =
      let (set_code, set_device) = write_set_osd_mbr S device start size s in
      let (code, found, last) = write_verify_osd_mbr S device header start size set_device in
      let one = set_osd-keeps start size s i behind in
      let two = congr_fun (verify_osd-keeps header start size set_device) i ∙ one in
      elim (Bool-cases (is_neg set_code)) [
        | inl fails ↦ rw fails one
        | inr sets ↦ elim (Bool-cases (is_neg code)) [
          | inl differs ↦ rw (sets, differs) two
          | inr same ↦ rw (sets, same) two
        ]
      ]

  -- The whole payload is on the disk, from the start sector on.
  abbrev pub HasPayload : Bytes → ℕ → ℕ → S → Type 0
  HasPayload payload n start s = (i : ℕ) → i < n → reads.content s (start * 512 + i) ≡ payload i

  -- The master header is as it was.
  abbrev pub SameHeader : S → S → Type 0
  SameHeader s t = (i : ℕ) → i < 1024 → reads.content t i ≡ reads.content s i

  -- Whatever fails and wherever, an activation leaves the master header as it was, byte for byte, or has
  -- every byte of the payload on the disk: for a payload behind the header, a start sector and a payload
  -- length with a sum below 2 ^ 32, and a device whose reads give the bytes of the disk, whose writes leave
  -- the bytes in front of their place and whose pointer update leaves those behind the header.
  pub activation_on_disk :
      (header payload : Bytes) (n start size : ℕ) (release : S → S) (s : S)
      → ((t : S) → reads.content (release t) ≡ reads.content t)
      → 2 ≤ start
      → start + n < 2 ^ 32
      → let after = (ps2_activate S device header payload n start size release s).device in
        SameHeader s after ⊎ HasPayload payload n start after
  unfolding ps2_activate activate ps2_ops
  activation_on_disk header payload n start size release s freed behind fits =
      let (code, wrote) = write_payload_verified S device payload n start s in
      elim (Bool-cases (n == 0)) [
        | inl empty ↦ rw empty (inl (λ i h. refl))
        | inr some ↦ elim (Bool-cases (is_neg code)) [
          | inl fails ↦
              rw (some, fails)
                (inl (λ i h.
                  congr_fun (freed wrote) i
                  ∙ write_payload-keeps S device reads writes payload n start s i fits
                      (omega arith)))
          | inr good ↦
              rw (some, good)
                (inr (λ i h.
                  set_pointer-keeps header start size (release wrote) (start * 512 + i)
                    (omega arith)
                  ∙ congr_fun (freed wrote) (start * 512 + i)
                  ∙ payload_on_disk S device reads payload n start s fits good i h))
        ]
      ]
