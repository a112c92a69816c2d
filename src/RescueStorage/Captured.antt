-- ===== src/RescueStorage/Captured.antt =====
-- The state that a save of a rescue file records, and the save as a whole.
use fhdb_bootstrap_manager.Common.{
  congr_fun, ℕ, zero, suc, ◌+◌, ◌*◌, ◌≤◌, ◌%◌, ◌^◌, ◌<◌, ◌≡◌, inl, inr, refl, ap, ◌∙◌, false, ◌&&◌,
  List, [], ◌∷◌, Option, none, some, leb, ◌==◌, ◌!=◌, Bool-cases, Option-cases, arith, subst,
}
use fhdb_bootstrap_manager.Common.Ints.{ℤ, pos, negsuc, is_neg}
use fhdb_bootstrap_manager.Common.Bytes.{Bytes, shift, of_list, read_le32}
use fhdb_bootstrap_manager.Sha256.{sha256_buffer}
use fhdb_bootstrap_manager.Common.Arrays.{bytes_list-congr}
use fhdb_bootstrap_manager.Apa.{osd_start_offset, osd_size_offset}
use fhdb_bootstrap_manager.HddBounds.{validate_payload_shape, validate_payload_bounds_geometry}
use fhdb_bootstrap_manager.HddDevice.{Device, validate_payload_bounds, read_payload_image}
use fhdb_bootstrap_manager.HddDevice.ReadBack.{ReadLaws}
use fhdb_bootstrap_manager.HddDevice.Image.{read_payload_image-keeps, image_read}
use fhdb_bootstrap_manager.Kelf.{size_from_disk_image}
use fhdb_bootstrap_manager.Capsule.{Info}
use fhdb_bootstrap_manager.Storage.{Files}
use fhdb_bootstrap_manager.Storage.Laws.{FileLaws}
use fhdb_bootstrap_manager.RescueStorage.Saved.{IsRescued, IsKept, save_loop-IsKept}
use fhdb_bootstrap_manager.RescueStorage.Save.{
  Texts, digest_of_buffer, header_state, with_kelf, with_payload, capture,
  rescue_storage_save_current,
}

-- What the disk promises beside its reads: asking for the partition and reading sectors leave the files and
-- the disk, and the size of the partition is a `u32`.
pub record QuietLaws (S : Type 0) (files : Files S) (laws : FileLaws S files) (device : Device S)
    (reads : ReadLaws S device) : Type 0 where
  pub stat_files : (s : S) → laws.content (device.get_stat s).3 ≡ laws.content s
  pub stat_disk : (s : S) → reads.content (device.get_stat s).3 ≡ reads.content s
  pub stat_fits : (s : S) → (device.get_stat s).2 < 2 ^ 32
  pub read_files :
      (lba n : ℕ) (d : Bytes) (s : S)
      → laws.content (device.read_sector lba n d s).2 ≡ laws.content s

abbrev start_of : Bytes → ℕ
start_of header = read_le32 (shift header osd_start_offset)

abbrev sectors_of : Bytes → ℕ
sectors_of header = read_le32 (shift header osd_size_offset)

-- A state with the digest of the header, no payload where the pointer is empty, and else with the digest of
-- the sectors of the disk that the pointer covers.
abbrev pub IsCaptured : Bytes → Bytes → Info → Type 0
IsCaptured disk header info =
    (info.apa_sha256 ≡ digest_of_buffer header 1024)
    × (start_of header ≡ 0 → info.flags ≡ 1)
    × (¬ (start_of header ≡ 0)
        → (info.flags % 4 ≡ 3)
          × (info.payload_sha256
              ≡ digest_of_buffer (shift disk (start_of header * 512)) (sectors_of header * 512)))

with_kelf-fields :
    (found : ℤ × Option ℕ) (info : Info)
    → info.flags ≡ 3
    → ((with_kelf found info).apa_sha256 ≡ info.apa_sha256)
      × ((with_kelf found info).payload_sha256 ≡ info.payload_sha256)
      × ((with_kelf found info).flags % 4 ≡ 3)
with_kelf-fields (pos zero, some n) info e = (refl, refl, rw e refl)
with_kelf-fields (pos zero, none) info e = (refl, refl, rw e refl)
with_kelf-fields (pos (suc n), found) info e = (refl, refl, rw e refl)
with_kelf-fields (negsuc n, found) info e = (refl, refl, rw e refl)

payload-IsCaptured :
    (disk header payload : Bytes) (texts : Texts)
    → ¬ (start_of header ≡ 0)
    → ((i : ℕ) → i < sectors_of header * 512 → payload i ≡ disk (start_of header * 512 + i))
    → IsCaptured disk header
        (with_payload payload (sectors_of header * 512) (header_state header texts))
payload-IsCaptured disk header payload texts full held =
    let n = sectors_of header * 512 in
    let state = record (header_state header texts) {
      flags = 3;
      payload_bytes = n;
      payload_sha256 = digest_of_buffer payload n;
    } in
    let (apa, digest, flags) = with_kelf-fields (size_from_disk_image payload n) state refl in
    (
      apa,
      λ empty. absurd (full empty),
      λ _. (
        flags,
        digest
            ∙ ap (λ (l : List ℕ). of_list (sha256_buffer l))
                (bytes_list-congr payload (shift disk (start_of header * 512)) n held),
      ),
    )

-- A pointer that is accepted ends below the size of the partition.
bounds_inside :
    (start sectors mbr_start mbr_size : ℕ)
    → is_neg (validate_payload_bounds_geometry start sectors mbr_start mbr_size) ≡ false
    → start + sectors ≤ mbr_size
unfolding validate_payload_bounds_geometry
bounds_inside start sectors mbr_start mbr_size e = ground (arith, e)

abbrev IsCapture : Bytes → Option (Info × Bytes) → Bytes → Type 0
IsCapture header none disk = Unit
IsCapture header (some (info, payload)) disk = IsCaptured disk header info

-- What a save promises: a path that is returned has a file of a captured state.
abbrev pub HasBackup : Bytes → Bytes → Option (List ℕ) → (List ℕ → Option (ℕ × Bytes)) → Type 0
HasBackup disk header none content = Unit
HasBackup disk header (some path) content =
    (info : Info) × IsCaptured disk header info × IsRescued info path content

kept-HasBackup :
    (disk header : Bytes) (info : Info) (saved : Option (List ℕ))
    (content : List ℕ → Option (ℕ × Bytes))
    → IsCaptured disk header info
    → IsKept info saved content
    → HasBackup disk header saved content
kept-HasBackup disk header info none content captured kept = tt
kept-HasBackup disk header info (some path) content captured kept = (info, captured, kept)

module _ (S : Type 0) (files : Files S) (laws : FileLaws S files) (device : Device S)
    (reads : ReadLaws S device) (quiet : QuietLaws S files laws device reads) where
  -- The bounds that are checked: what the state still holds, and where the pointer ends.
  bounds_checked :
      (start sectors : ℕ) (s : S)
      → let (code, after) = validate_payload_bounds S device start sectors s in
        (laws.content after ≡ laws.content s)
        × (reads.content after ≡ reads.content s)
        × (is_neg code ≡ false → start + sectors < 2 ^ 32)
  unfolding validate_payload_bounds
  bounds_checked start sectors s =
      let (code, mbr_start, mbr_size, after) = device.get_stat s in
      elim (Bool-cases (is_neg (validate_payload_shape start sectors))) [
        | inl shape ↦ rw shape (refl, refl, λ good. absurd (ground (arith, shape, good)))
        | inr shape ↦ elim (Bool-cases (is_neg code)) [
          | inl bad ↦
              rw (shape, bad)
                (quiet.stat_files s, quiet.stat_disk s, λ good. absurd (ground (arith, bad, good)))
          | inr fine ↦
              rw (shape, fine)
                (
                  quiet.stat_files s,
                  quiet.stat_disk s,
                  λ good. omega (
                    arith,
                    bounds_inside start sectors mbr_start mbr_size good,
                    quiet.stat_fits s,
                  ),
                )
        ]
      ]

  capture-IsCapture :
      (header : Bytes) (texts : Texts) (s : S)
      → let (captured, after) = capture S device header texts s in
        (laws.content after ≡ laws.content s) × IsCapture header captured (reads.content s)
  unfolding capture
  capture-IsCapture header texts s =
      let start = start_of header in
      let sectors = sectors_of header in
      let (code, checked) = validate_payload_bounds S device start sectors s in
      let (result, payload, after) = read_payload_image S device start sectors checked in
      let (files_kept, disk_kept, inside) = bounds_checked start sectors s in
      let read_kept =
        read_payload_image-keeps S (List ℕ → Option (ℕ × Bytes)) device laws.content
          quiet.read_files start sectors checked
        ∙ files_kept in
      let disk_read =
        read_payload_image-keeps S Bytes device reads.content reads.read_keeps start sectors checked
        ∙ disk_kept in
      elim (Bool-cases ((start == 0) && (sectors != 0))) [
        | inl odd ↦ rw odd (refl, tt)
        | inr one ↦ elim (Bool-cases ((start != 0) && (sectors == 0))) [
          | inl odd ↦ rw (one, odd) (refl, tt)
          | inr two ↦ elim (Bool-cases (start == 0)) [
            | inl empty ↦
                rw (one, two, empty)
                  (refl, (refl, λ e. refl, λ full. absurd (full (ground (arith, empty)))))
            | inr full ↦ elim (Bool-cases (is_neg code)) [
              | inl bad ↦ rw (one, two, full, bad) (files_kept, tt)
              | inr good ↦ elim (Bool-cases (is_neg result)) [
                | inl bad ↦ rw (one, two, full, good, bad) (read_kept, tt)
                | inr done ↦
                    rw (one, two, full, good, done)
                      (
                        read_kept,
                        payload-IsCaptured (reads.content s) header payload texts
                            (λ e. ground (arith, full, e))
                            (λ i h.
                              image_read S device reads start sectors checked (inside good) done i h
                              ∙ congr_fun disk_read (start * 512 + i)),
                      )
              ]
            ]
          ]
        ]
      ]

  -- Saving a rescue file changes no file that is there, whatever its outcome. Where it succeeds, the path that
  -- is returned has a file that passes the validation of rescue files, with the digest of the header, and
  -- either the pointer is empty and the file is marked as one without a payload, or it is marked as one with
  -- a payload and has the digest of the sectors of the disk that the pointer covers.
  pub rescue_saved-HasBackup :
      (storage : ℕ) (header : Bytes) (texts : Texts) (s : S) (other : List ℕ) (file : ℕ × Bytes)
      → laws.content s other ≡ some file
      → let (saved, after) = rescue_storage_save_current S files device storage header texts s in
        (laws.content after other ≡ some file)
        × HasBackup (reads.content s) header saved (laws.content after)
  unfolding rescue_storage_save_current
  rescue_saved-HasBackup storage header texts s other file there =
      let (captured, ready) = capture S device header texts s in
      let (kept, is_capture) = capture-IsCapture header texts s in
      let present = congr_fun kept other ∙ there in
      elim (Bool-cases (leb 3 storage)) [
        | inl bad ↦ rw bad (there, tt)
        | inr good ↦ elim (Option-cases captured) [
          | inl refused ↦ rw (good, refused) (present, tt)
          | inr ((info, payload), known) ↦
              let (same, saved) =
                save_loop-IsKept S files laws storage info header payload (0 ∷ 1 ∷ []) ready other
                  file present in
              rw (good, known)
                (
                  same,
                  kept-HasBackup (reads.content s) header info _ _
                      (subst (λ c. IsCapture header c (reads.content s)) known is_capture) saved,
                )
        ]
      ]
