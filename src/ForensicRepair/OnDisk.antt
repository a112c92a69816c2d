-- ===== src/ForensicRepair/OnDisk.antt =====
-- A forensic repair that returns 0 has left every header of its plan on the disk, and it writes the master
-- header last.
use fhdb_bootstrap_manager.Common.{
  congr_fun, ℕ, ◌+◌, ◌*◌, ◌<◌, ◌≡◌, inl, inr, refl, sym, ◌∙◌, true, false, not, ◌||◌, List, [], ◌∷◌,
  leb, ◌==◌, length, get_or, All, All-at, All-map, Bool-cases, arith,
}
use fhdb_bootstrap_manager.Common.Ints.{is_neg}
use fhdb_bootstrap_manager.Common.Results.{Result, err, ok}
use fhdb_bootstrap_manager.Common.Bytes.{Bytes, zeros, memeq, memeq_sound}
use fhdb_bootstrap_manager.Apa.{header_size}
use fhdb_bootstrap_manager.ApaForensic.{ScanResult}
use fhdb_bootstrap_manager.ApaForensic.RepairPlan.{
  Patch, no_patch, RepairPlan, build_patched_header,
}
use fhdb_bootstrap_manager.HddDevice.{Device, read_raw_sectors}
use fhdb_bootstrap_manager.HddDevice.ReadBack.{ReadLaws}
use fhdb_bootstrap_manager.ForensicRepair.{
  verify_built, verify_one_final, final_loop, write_loop, apply_verified,
}

module _ (S : Type 0) (device : Device S) (laws : ReadLaws S device) (scan : ScanResult) where
  -- The disk holds the header that the patch builds.
  abbrev pub IsOnDisk : S → Patch → Type 0
  IsOnDisk s patch =
      (header : Bytes) × (build_patched_header scan patch ≡ ok header)
      × ((i : ℕ) → i < 1024 → laws.content s (patch.lba * 512 + i) ≡ header i)

  IsOnDisk-congr :
      (s t : S) (patch : Patch)
      → laws.content t ≡ laws.content s
      → IsOnDisk s patch
      → IsOnDisk t patch
  IsOnDisk-congr s t patch e (header, built, holds) =
      (header, built, λ i h. congr_fun e (patch.lba * 512 + i) ∙ holds i h)

  -- A final check of one header leaves the disk, and where it passes, the header is there.
  verify_built-IsOnDisk :
      (patch : Patch) (built : Result Bytes) (s : S)
      → build_patched_header scan patch ≡ built
      → let (result, after) = verify_built S device patch built s in
        (laws.content after ≡ laws.content s) × (is_neg result ≡ false → IsOnDisk s patch)
  unfolding verify_built
  verify_built-IsOnDisk patch (err code) s e = (refl, λ p. absurd (ground arith))
  verify_built-IsOnDisk patch (ok header) s e =
      let (result, verify, after) = read_raw_sectors S device patch.lba 2 s in
      let kept = laws.read_keeps patch.lba 2 zeros s in
      elim (Bool-cases (is_neg result)) [
        | inl r ↦ rw r (kept, λ p. absurd (ground arith))
        | inr r ↦ elim (Bool-cases (memeq verify header header_size)) [
          | inr c ↦ rw (r, c) (kept, λ p. absurd (ground arith))
          | inl c ↦
              rw (r, c)
                (
                  kept,
                  λ p. (
                    header,
                    e,
                    λ i h.
                        sym (laws.read_holds patch.lba 2 zeros s r i (omega arith))
                        ∙ memeq_sound verify header header_size i c h,
                  ),
                )
        ]
      ]

  final_loop-IsOnDisk :
      (patches : List Patch) (s : S)
      → is_neg (final_loop S device scan patches s).0 ≡ false
      → (laws.content (final_loop S device scan patches s).1 ≡ laws.content s)
        × All (IsOnDisk s) patches
  unfolding final_loop verify_one_final
  final_loop-IsOnDisk [] s p = (refl, tt)
  final_loop-IsOnDisk (patch ∷ patches) s p =
      let (result, after) = verify_one_final S device scan patch s in
      let (kept, there) = verify_built-IsOnDisk patch (build_patched_header scan patch) s refl in
      elim (Bool-cases (is_neg result)) [
        | inl r ↦ absurd (ground (arith, r, rw r at p))
        | inr r ↦
            let (same, rest) = final_loop-IsOnDisk patches after (rw r at p) in
            let moved =
              All-map (IsOnDisk after) (IsOnDisk s) (λ p. IsOnDisk-congr after s p (sym kept))
                patches rest in
            rw r (same ∙ kept, (there r, moved))
      ]

  -- A repair that returns no error was of a whole scan and an allowed plan, and for each patch of the plan,
  -- the header that it builds is on the disk, byte for byte; on a device whose reads give the bytes of the
  -- disk and leave them.
  pub applied-IsOnDisk :
      (plan : RepairPlan) (s : S)
      → is_neg (apply_verified S device scan plan s).0 ≡ false
      → (scan.truncated ≡ false)
        × (plan.manual_allowed ≡ true)
        × ((j : ℕ)
            → j < length plan.patches
            → IsOnDisk (apply_verified S device scan plan s).1 (get_or plan.patches j no_patch))
  unfolding apply_verified
  applied-IsOnDisk plan s p =
      let (interior, between) = write_loop S device scan false plan.patches s in
      let (master, written) = write_loop S device scan true plan.patches between in
      let blocked =
        scan.truncated
        || not plan.manual_allowed
        || length plan.patches == 0
        || leb (length scan.maps) plan.map_index in
      elim (Bool-cases blocked) [
        | inl b ↦ absurd (ground (arith, rw b at p))
        | inr b ↦ elim (Bool-cases (is_neg interior)) [
          | inl i ↦ absurd (ground (arith, i, rw (b, i) at p))
          | inr i ↦ elim (Bool-cases (is_neg master)) [
            | inl m ↦ absurd (ground (arith, m, rw (b, i, m) at p))
            | inr m ↦
                let (same, all) = final_loop-IsOnDisk plan.patches written (rw (b, i, m) at p) in
                let last = (final_loop S device scan plan.patches written).1 in
                rw (b, i, m)
                  (
                    ground (arith, b),
                    ground (arith, b),
                    λ j h.
                        IsOnDisk-congr written last (get_or plan.patches j no_patch) same
                          (All-at (IsOnDisk written) plan.patches j no_patch all h),
                  )
          ]
        ]
      ]
