-- ===== src/RescueStorage/Writes.antt =====
-- The write of a rescue file changes no file but the one of its path.
use fhdb_bootstrap_manager.Common.{
  congr_fun, ℕ, zero, suc, ◌+◌, ◌-◌, ◌≡◌, inl, inr, refl, ◌∙◌, true, false, List, [], ◌∷◌, some,
  ltb, ◌==◌, if◌then◌else◌, Bool-cases, arith,
}
use fhdb_bootstrap_manager.Common.Ints.{ℤ, neg, is_neg}
use fhdb_bootstrap_manager.Common.Bytes.{Bytes, shift}
use fhdb_bootstrap_manager.Apa.{header_size}
use fhdb_bootstrap_manager.Capsule.{metadata_size}
use fhdb_bootstrap_manager.Storage.{Files, write_truncate}
use fhdb_bootstrap_manager.Storage.ReadBack.{ℤ-cases}
use fhdb_bootstrap_manager.Storage.Laws.{FileLaws}
use fhdb_bootstrap_manager.RescueStorage.Save.{open_loop, part_loop, write_parts, write_rescue_file}

module _ (S : Type 0) (files : Files S) (laws : FileLaws S files) (path other : List ℕ)
    (differs : ¬ (path ≡ other)) where
  -- A descriptor of the path.
  abbrev IsOpen : ℤ → S → Type 0
  IsOpen fd s = (at : ℕ) × (laws.handle s fd ≡ some (path, at))

  -- The other file is as it was.
  abbrev Kept : S → S → Type 0
  Kept s t = laws.content t other ≡ laws.content s other

  closed : (fd : ℤ) (s : S) → Kept s (files.close fd s)
  closed fd s = congr_fun (laws.close_reads fd s) other

  open_loop-keeps :
      (attempts : ℕ) (fd : ℤ) (s : S)
      → is_neg fd ≡ true
      → let (result, after) = open_loop S files attempts fd path s in
        Kept s after × (is_neg result ≡ false → IsOpen result after)
  unfolding open_loop
  open_loop-keeps zero fd s bad = (refl, λ good. absurd (ground (arith, bad, good)))
  open_loop-keeps (suc attempts) fd s bad =
      let (result, opened) = files.open_file path write_truncate s in
      let kept = laws.open_others path other write_truncate s differs in
      elim (Bool-cases (is_neg result)) [
        | inr good ↦ rw (good, open_loop) (kept, λ e. (0, laws.opened path write_truncate s good))
        | inl fails ↦
            let (rest, ready) = open_loop-keeps attempts result opened fails in
            rw (fails, open_loop) (rest ∙ kept, ready)
      ]

  part_loop-keeps :
      (fuel : ℕ) (fd : ℤ) (part : Bytes) (size total : ℕ) (s : S)
      → IsOpen fd s
      → let (result, after) = part_loop S files fuel fd part size total s in
        Kept s after × (is_neg result ≡ false → IsOpen fd after)
  unfolding part_loop
  part_loop-keeps zero fd part size total s ready = (refl, λ e. ready)
  part_loop-keeps (suc fuel) fd part size total s (at, ready) =
      let source = shift part total in
      let (result, after) = files.write fd source (size - total) s in
      let kept = laws.write_others fd source (size - total) s path other at ready differs in
      elim (Bool-cases (ltb total size)) [
        | inr done ↦ rw (done, part_loop) (refl, λ e. (at, ready))
        | inl more ↦ elim (ℤ-cases result) [
          | inl (n, e) ↦
              rw (more, e, part_loop)
                (closed fd after ∙ kept, λ good. absurd (ground (arith, good)))
          | inr (inl e) ↦
              rw (more, e, part_loop)
                (closed fd after ∙ kept, λ good. absurd (ground (arith, good)))
          | inr (inr (n, e)) ↦
              let moved = laws.written fd source (size - total) s path at (suc n) ready e in
              let (rest, still) =
                part_loop-keeps fuel fd part size (total + suc n) after (at + suc n, moved) in
              rw (more, e, part_loop) (rest ∙ kept, still)
        ]
      ]

  write_parts-keeps :
      (fd : ℤ) (parts : List (Bytes × ℕ)) (s : S)
      → IsOpen fd s
      → Kept s (write_parts S files fd parts s).1
  unfolding write_parts
  write_parts-keeps fd [] s ready = closed fd s
  write_parts-keeps fd ((part, size) ∷ parts) s ready =
      let (result, after) = part_loop S files size fd part size 0 s in
      let (kept, still) = part_loop-keeps size fd part size 0 s ready in
      elim (Bool-cases (is_neg result)) [
        | inl fails ↦ rw (fails, write_parts) kept
        | inr good ↦ rw (good, write_parts) (write_parts-keeps fd parts after (still good) ∙ kept)
      ]

  pub write_rescue_file-keeps :
      (storage : ℕ) (metadata header payload : Bytes) (payload_bytes : ℕ) (s : S)
      → Kept s (write_rescue_file S files storage path metadata header payload payload_bytes s).1
  unfolding write_rescue_file
  write_rescue_file-keeps storage metadata header payload payload_bytes s =
      let attempts = if storage == 2 then 20 else 1 in
      let (fd, opened) = open_loop S files attempts (neg 1) path s in
      let (kept, ready) = open_loop-keeps attempts (neg 1) s refl in
      let parts =
        (metadata, metadata_size) ∷ (header, header_size) ∷ (payload, payload_bytes) ∷ [] in
      elim (Bool-cases (is_neg fd)) [
        | inl bad ↦ rw bad kept
        | inr good ↦ rw good (write_parts-keeps fd parts opened (ready good) ∙ kept)
      ]
