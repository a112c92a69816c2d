-- ===== src/ForensicRepair/Order.antt =====
-- The order of the writes of a forensic repair: sector 0 of the disk is not touched before every interior
-- header has been written and read back.
use fhdb_bootstrap_manager.Common.{
  congr_fun, ℕ, ◌<◌, ◌≡◌, ◌≢◌, refl, ◌∙◌, true, false, not, ◌||◌, List, [], ◌∷◌, ◌==◌, inl, inr,
  Bool-cases, arith, leb, length,
}
use fhdb_bootstrap_manager.Common.Ints.{is_neg}
use fhdb_bootstrap_manager.Common.Results.{Result, err, ok}
use fhdb_bootstrap_manager.Common.Bytes.{Bytes, zeros, memeq}
use fhdb_bootstrap_manager.Apa.{header_size}
use fhdb_bootstrap_manager.ApaForensic.{ScanResult, node_at}
use fhdb_bootstrap_manager.ApaForensic.RepairPlan.{Patch, RepairPlan, build_patched_header}
use fhdb_bootstrap_manager.HddDevice.{Device, read_raw_sectors}
use fhdb_bootstrap_manager.HddDevice.ReadBack.{ReadLaws}
use fhdb_bootstrap_manager.HddDevice.Writes.{WriteLaws}
use fhdb_bootstrap_manager.ForensicRepair.{
  packet, commit_header, patch_header_is_safe, commit_built, write_one, write_loop, apply_verified,
}

module _ (S : Type 0) (device : Device S) (reads : ReadLaws S device)
    (writes : WriteLaws S device reads) (scan : ScanResult) where
  -- `t` has the first sector of `s`.
  abbrev pub SameSector : S → S → Type 0
  SameSector s t = (i : ℕ) → i < 512 → reads.content t i ≡ reads.content s i

  read-SameSector :
      (lba : ℕ) (s t : S) → SameSector s t → SameSector s (read_raw_sectors S device lba 2 t).2
  read-SameSector lba s t h i l = congr_fun (reads.read_keeps lba 2 zeros t) i ∙ h i l

  commit-SameSector :
      (lba : ℕ) (header : Bytes) (s t : S)
      → lba ≢ 0
      → SameSector s t
      → SameSector s (commit_header S device lba header t).1
  unfolding commit_header
  commit-SameSector lba header s t n h =
      let (written, after) = device.write_sector lba 2 (packet header) t in
      let (flushed, clean) = device.flush after in
      let (result, verify, last) = read_raw_sectors S device lba 2 clean in
      let one : SameSector s after =
        λ i l. writes.write_keeps lba 2 (packet header) t i (omega arith) ∙ h i l in
      let two : SameSector s clean = λ i l. congr_fun (writes.flush_keeps after) i ∙ one i l in
      let three : SameSector s last = read-SameSector lba s clean two in
      elim (Bool-cases (is_neg written)) [
        | inl w ↦ rw w one
        | inr w ↦ elim (Bool-cases (is_neg flushed)) [
          | inl f ↦ rw (w, f) two
          | inr f ↦ elim (Bool-cases (is_neg result)) [
            | inl r ↦ rw (w, f, r) three
            | inr r ↦ elim (Bool-cases (memeq verify header header_size)) [
              | inl c ↦ rw (w, f, r, c) three
              | inr c ↦ rw (w, f, r, c) three
            ]
          ]
        ]
      ]

  built-SameSector :
      (patch : Patch) (built : Result Bytes) (s t : S)
      → patch.lba ≢ 0
      → SameSector s t
      → SameSector s (commit_built S device scan patch built t).1
  unfolding commit_built
  built-SameSector patch (err code) s t n h = h
  built-SameSector patch (ok header) s t n h =
      elim (Bool-cases (patch_header_is_safe scan patch header)) [
        | inl safe ↦ rw safe (commit-SameSector patch.lba header s t n h)
        | inr unsafe ↦ rw unsafe h
      ]

  write_one-SameSector :
      (patch : Patch) (s t : S)
      → patch.lba ≢ 0
      → SameSector s t
      → SameSector s (write_one S device scan patch t).1
  unfolding write_one
  write_one-SameSector patch s t n h =
      let node = node_at scan.nodes patch.node_index in
      let (result, source, after) = read_raw_sectors S device patch.lba 2 t in
      let read = read-SameSector patch.lba s t h in
      elim (Bool-cases (is_neg result)) [
        | inl r ↦ rw r read
        | inr r ↦ elim (Bool-cases (memeq source node.header header_size)) [
          | inl c ↦
              rw (r, c) (built-SameSector patch (build_patched_header scan patch) s after n read)
          | inr c ↦ rw (r, c) read
        ]
      ]

  interior-SameSector :
      (patches : List Patch) (s t : S)
      → SameSector s t
      → SameSector s (write_loop S device scan false patches t).1
  unfolding write_loop
  interior-SameSector [] s t h = h
  interior-SameSector (patch ∷ patches) s t h =
      let (result, after) = write_one S device scan patch t in
      elim (Bool-cases (patch.lba == 0)) [
        | inl master ↦ rw master (interior-SameSector patches s t h)
        | inr interior ↦
            let apart : patch.lba ≢ 0 = λ e. absurd (ground (arith, e, interior)) in
            let kept = write_one-SameSector patch s t apart h in
            elim (Bool-cases (is_neg result)) [
              | inl r ↦ rw (interior, r) kept
              | inr r ↦ rw (interior, r) (interior-SameSector patches s after kept)
            ]
      ]

  -- The master header is written last: a repair in which the write of an interior header fails returns an
  -- error, and has left the first sector of the disk as it was; on a device whose reads leave the disk and
  -- whose writes leave the sectors before the place written.
  pub master_last :
      (plan : RepairPlan) (s : S)
      → is_neg (write_loop S device scan false plan.patches s).0 ≡ true
      → (is_neg (apply_verified S device scan plan s).0 ≡ true)
        × SameSector s (apply_verified S device scan plan s).1
  unfolding apply_verified
  master_last plan s failed =
      let blocked =
        scan.truncated
        || not plan.manual_allowed
        || length plan.patches == 0
        || leb (length scan.maps) plan.map_index in
      elim (Bool-cases blocked) [
        | inl b ↦ rw b (refl, λ i l. refl)
        | inr b ↦ rw (b, failed) (failed, interior-SameSector plan.patches s s (λ i l. refl))
      ]
