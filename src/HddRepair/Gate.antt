-- ===== src/HddRepair/Gate.antt =====
-- What a master write that succeeds has left, what a refused one has left alone, and that the planner's
-- headers are not refused.
use fhdb_bootstrap_manager.Common.{
  congr_fun, ℕ, ◌+◌, ◌-◌, ◌*◌, ◌<◌, ◌≡◌, ◌⊎◌, inl, inr, refl, sym, ap, ◌∙◌, true, false, some,
  Bool-cases, arith,
}
use fhdb_bootstrap_manager.Common.Ints.{ℤ, pos, is_neg}
use fhdb_bootstrap_manager.Common.Bytes.{Bytes, zeros, memcpy, memcpy_inside, memeq, memeq_sound}
use fhdb_bootstrap_manager.Apa.{header_size}
use fhdb_bootstrap_manager.ApaRepair.{analyze, build_header}
use fhdb_bootstrap_manager.ApaRepair.Fields.{start, kind, version}
use fhdb_bootstrap_manager.ApaRepair.Outcome.{repaired_accepted}
use fhdb_bootstrap_manager.HddDevice.{Device, read_raw_sectors}
use fhdb_bootstrap_manager.HddDevice.ReadBack.{ReadLaws}
use fhdb_bootstrap_manager.HddRepair.{
  unsafe_header, write_failed, flush_failed, readback_failed, compare_failed, is_refused, packet,
  write_master_header_verified,
}

-- A code that tells of a failed transfer or comparison.
abbrev pub IsDeviceFailure : ℤ → Type 0
IsDeviceFailure code =
    (code ≡ write_failed)
    ⊎ (code ≡ flush_failed)
    ⊎ (code ≡ readback_failed)
    ⊎ (code ≡ compare_failed)

module _ (S : Type 0) (device : Device S) (laws : ReadLaws S device) where
  -- The ways in which a master write ends.
  abbrev pub IsEnd : Bytes → Bytes → S → ℤ × Bytes × S → Type 0
  IsEnd repaired readback s (code, back, after) =
      ((is_refused repaired ≡ true) × (code ≡ unsafe_header) × (back ≡ readback) × (after ≡ s))
      ⊎ ((is_refused repaired ≡ false) × IsDeviceFailure code × (back ≡ readback))
      ⊎ ((is_refused repaired ≡ false)
          × (code ≡ pos 0)
          × ((i : ℕ) → i < 1024 → (back i ≡ repaired i) × (laws.content after i ≡ repaired i)))

  compared :
      (repaired readback : Bytes) (s : S)
      → let (result, verify, last) = read_raw_sectors S device 0 2 s in
        is_neg result ≡ false
        → memeq verify repaired header_size ≡ true
        → (i : ℕ) → i < 1024
        → (memcpy readback 0 verify header_size i ≡ repaired i) × (laws.content last i ≡ repaired i)
  compared repaired readback s reads same i h =
      let (result, verify, last) = read_raw_sectors S device 0 2 s in
      let held = laws.read_holds 0 2 zeros s reads i (omega arith) in
      let equal = memeq_sound verify repaired header_size i same h in
      let at : 0 * 512 + i ≡ i = omega arith in
      let off : i - 0 ≡ i = omega arith in
      (
        memcpy_inside readback 0 verify header_size i (omega arith) (omega arith)
            ∙ ap verify off
            ∙ equal,
        congr_fun (laws.read_keeps 0 2 zeros s) i ∙ sym (ap (laws.content s) at) ∙ sym held ∙ equal,
      )

  -- A master write ends in one of three ways, on a device whose reads give the bytes of the disk and
  -- leave them: a header that the validation refuses is not written, and the disk and the buffer are left
  -- alone; a failed transfer or comparison gives its code and leaves the buffer alone; and where 0 is
  -- returned, sectors 0 and 1 of the disk and the buffer hold the repaired header, byte for byte.
  pub master_write-IsEnd :
      (repaired readback : Bytes) (s : S)
      → IsEnd repaired readback s (write_master_header_verified S device repaired readback s)
  unfolding write_master_header_verified
  master_write-IsEnd repaired readback s =
      let (written, after) = device.write_sector 0 2 (packet repaired) s in
      let (flushed, clean) = device.flush after in
      let (result, verify, last) = read_raw_sectors S device 0 2 clean in
      elim (Bool-cases (is_refused repaired)) [
        | inl refused ↦ rw refused (inl (refl, refl, refl, refl))
        | inr good ↦ elim (Bool-cases (is_neg written)) [
          | inl w ↦ rw (good, w) (inr (inl (refl, inl refl, refl)))
          | inr w ↦ elim (Bool-cases (is_neg flushed)) [
            | inl f ↦ rw (good, w, f) (inr (inl (refl, inr (inl refl), refl)))
            | inr f ↦ elim (Bool-cases (is_neg result)) [
              | inl r ↦ rw (good, w, f, r) (inr (inl (refl, inr (inr (inl refl)), refl)))
              | inr r ↦ elim (Bool-cases (memeq verify repaired header_size)) [
                | inr c ↦ rw (good, w, f, r, c) (inr (inl (refl, inr (inr (inr refl)), refl)))
                | inl c ↦
                    rw (good, w, f, r, c)
                      (inr (inr (refl, refl, compared repaired readback clean r c)))
              ]
            ]
          ]
        ]
      ]

-- The headers of the planner pass the validation before the write.
planned_passes : (h r : Bytes) → build_header h (analyze h) ≡ some r → is_refused r ≡ false
unfolding is_refused
planned_passes h r e =
    let (standard, single, all) = repaired_accepted h r e in
    ground (arith, standard, single, all start, all kind, all version)

-- The planner and the writer together: a header built from a plan is never refused by the write, which on a
-- device whose reads give the bytes of the disk and leave them fails with the code of a transfer or a
-- comparison, or leaves the header on the disk, byte for byte.
pub planned_write :
    (S : Type 0) (device : Device S) (laws : ReadLaws S device) (h r readback : Bytes) (s : S)
    → build_header h (analyze h) ≡ some r
    → let (code, back, after) = write_master_header_verified S device r readback s in
      IsDeviceFailure code ⊎ ((code ≡ pos 0) × ((i : ℕ) → i < 1024 → laws.content after i ≡ r i))
planned_write S device laws h r readback s e =
    let passes = planned_passes h r e in
    elim (master_write-IsEnd S device laws r readback s) [
      | inl (refused, _, _, _) ↦ absurd (ground (arith, refused, passes))
      | inr (inl (_, failed, _)) ↦ inl failed
      | inr (inr (_, done, holds)) ↦ inr (done, λ i h. (holds i h).1)
    ]
