-- ===== src/RescueStorage/Save.antt =====
-- src/rescue_storage.c: the save of the current header and payload as a rescue file, over the calls for the
-- disk and those for files on one state. The waits between the attempts to open a file and the log are left
-- out; the texts are the empty ones where the source has a null pointer.
use fhdb_bootstrap_manager.Common.{
  ℕ, zero, suc, ◌+◌, ◌-◌, ◌*◌, bit_or, Bool, true, false, ◌&&◌, List, [], ◌∷◌, Option, none, some,
  ltb, leb, ◌==◌, ◌!=◌, if◌then◌else◌,
}
use fhdb_bootstrap_manager.Common.Ints.{ℤ, pos, negsuc, neg, is_neg}
use fhdb_bootstrap_manager.Common.Results.{Result, err, ok}
use fhdb_bootstrap_manager.Common.Bytes.{Bytes, shift, zeros, of_list, bytes_list, memeq, read_le32}
use fhdb_bootstrap_manager.Apa.{header_size, osd_start_offset, osd_size_offset}
use fhdb_bootstrap_manager.Kelf.{size_from_disk_image}
use fhdb_bootstrap_manager.Sha256.{sha256_buffer}
use fhdb_bootstrap_manager.Capsule.{
  Info, metadata_size, flag_valid_apa, flag_has_payload, flag_valid_kelf, encode,
}
use fhdb_bootstrap_manager.HddBounds.{sector_size}
use fhdb_bootstrap_manager.HddDevice.{Device, validate_payload_bounds, read_payload_image}
use fhdb_bootstrap_manager.Storage.{Files, write_truncate, printed, path_exists}
use fhdb_bootstrap_manager.RescueStorage.{Entry, rescue_path, load_rescue_file, rescue_file_matches}

abbrev pub write_stopped : ℤ
write_stopped = neg 180

-- What is written in the texts of a rescue file.
pub record Texts : Type 0 where
  pub romver : List ℕ
  pub family : List ℕ
  pub confidence : List ℕ

-- The digest in an array.
abbrev pub digest_of_buffer : Bytes → ℕ → Bytes
digest_of_buffer source n = of_list (sha256_buffer (bytes_list source n))

-- The state of a header, without a payload.
abbrev pub header_state : Bytes → Texts → Info
header_state header texts = record {
  flags = flag_valid_apa;
  payload_start = read_le32 (shift header osd_start_offset);
  payload_sectors = read_le32 (shift header osd_size_offset);
  payload_bytes = 0;
  kelf_file_bytes = 0;
  apa_sha256 = digest_of_buffer header header_size;
  payload_sha256 = zeros;
  romver = of_list (printed 16 texts.romver);
  family = of_list (printed 32 texts.family);
  confidence = of_list (printed 16 texts.confidence);
}

-- `result == 0` adds the length of the KELF and its flag.
abbrev pub with_kelf : ℤ × Option ℕ → Info → Info
with_kelf (pos zero, some n) info = record info {
  kelf_file_bytes = n;
  flags = bit_or info.flags flag_valid_kelf;
}
with_kelf (pos zero, none) info = info
with_kelf (pos (suc n), found) info = info
with_kelf (negsuc n, found) info = info

abbrev pub with_payload : Bytes → ℕ → Info → Info
with_payload payload n info = with_kelf (size_from_disk_image payload n) (record info {
  flags = bit_or info.flags flag_has_payload;
  payload_bytes = n;
  payload_sha256 = digest_of_buffer payload n;
})

-- The comparison of the file that was read back.
unfoldable pub is_saved : Info → Result Entry → Bool
is_saved info (err code) = false
is_saved info (ok entry) =
    entry.info.flags == info.flags
    && memeq entry.info.apa_sha256 info.apa_sha256 32
    && memeq entry.info.payload_sha256 info.payload_sha256 32

module _ (S : Type 0) (files : Files S) where
  -- The attempts to open the file; `fd` is the result of the last one.
  unfoldable pub open_loop : ℕ → ℤ → List ℕ → S → ℤ × S
  open_loop zero fd path s = (fd, s)
  open_loop (suc attempts) fd path s =
      let (result, opened) = files.open_file path write_truncate s in
      elim (is_neg result) [
        | false ↦ (result, opened)
        | true ↦ open_loop attempts result path opened
      ]

  -- The loop over the bytes of a part, with at most `fuel` rounds to go; a round takes some bytes.
  unfoldable pub part_loop : ℕ → ℤ → Bytes → ℕ → ℕ → S → ℤ × S
  part_loop zero fd part size total s = (pos 0, s)
  part_loop (suc fuel) fd part size total s =
      let (written, after) = files.write fd (shift part total) (size - total) s in
      elim (ltb total size) [
        | false ↦ (pos 0, s)
        | true ↦ elim written [
          | negsuc n ↦ (negsuc n, files.close fd after)
          | pos zero ↦ (write_stopped, files.close fd after)
          | pos (suc n) ↦ part_loop fuel fd part size (total + suc n) after
        ]
      ]

  -- The loop over the parts.
  unfoldable pub write_parts : ℤ → List (Bytes × ℕ) → S → ℤ × S
  unfolding part_loop
  write_parts fd [] s = (pos 0, files.close fd s)
  write_parts fd ((part, size) ∷ parts) s =
      let (result, after) = part_loop size fd part size 0 s in
      elim (is_neg result) [ true ↦ (result, after) | false ↦ write_parts fd parts after ]

  unfoldable pub write_rescue_file : ℕ → List ℕ → Bytes → Bytes → Bytes → ℕ → S → ℤ × S
  unfolding open_loop write_parts
  write_rescue_file storage path metadata header payload payload_bytes s =
      let (fd, opened) = open_loop (if storage == 2 then 20 else 1) (neg 1) path s in
      let parts =
        (metadata, metadata_size) ∷ (header, header_size) ∷ (payload, payload_bytes) ∷ [] in
      if is_neg fd then (fd, opened) else write_parts fd parts opened

  -- The part of a round for a slot without a file: whether its path is returned.
  unfoldable pub store_rescue : ℕ → List ℕ → Info → Bytes → Bytes → S → Bool × S
  unfolding write_rescue_file load_rescue_file is_saved
  store_rescue storage path info header payload s =
      let (written, stored) =
        write_rescue_file storage path (encode info) header payload info.payload_bytes s in
      let (loaded, last) = load_rescue_file S files path stored in
      if is_neg written then (false, stored) else (is_saved info loaded, last)

  -- A round for a slot.
  unfoldable pub try_save : ℕ → List ℕ → Info → Bytes → Bytes → S → Bool × S
  unfolding path_exists rescue_file_matches store_rescue
  try_save storage path info header payload s =
      let (exists, found) = path_exists S files path s in
      if exists
      then rescue_file_matches S files path info found
      else store_rescue storage path info header payload found

  -- The loop over the slots: the path that is returned.
  unfoldable pub save_loop : ℕ → Info → Bytes → Bytes → List ℕ → S → Option (List ℕ) × S
  unfolding try_save
  save_loop storage info header payload [] s = (none, s)
  save_loop storage info header payload (slot ∷ slots) s =
      let path = rescue_path storage slot in
      let (done, after) = try_save storage path info header payload s in
      elim done [
        | true ↦ (some path, after)
        | false ↦ save_loop storage info header payload slots after
      ]

module _ (S : Type 0) (device : Device S) where
  -- The state that is saved and the payload, or none where the pointer or the payload is refused.
  unfoldable pub capture : Bytes → Texts → S → Option (Info × Bytes) × S
  unfolding validate_payload_bounds read_payload_image
  capture header texts s =
      let start = read_le32 (shift header osd_start_offset) in
      let sectors = read_le32 (shift header osd_size_offset) in
      let (bounds, checked) = validate_payload_bounds S device start sectors s in
      let (result, payload, after) = read_payload_image S device start sectors checked in
      let info = header_state header texts in
      if (start == 0) && (sectors != 0)
      then (none, s)
      else if (start != 0) && (sectors == 0)
      then (none, s)
      else if start == 0
      then (some (info, zeros), s)
      else if is_neg bounds
      then (none, checked)
      else if is_neg result
      then (none, after)
      else (some (with_payload payload (sectors * sector_size) info, payload), after)

module _ (S : Type 0) (files : Files S) (device : Device S) where
  unfoldable pub rescue_storage_save_current : ℕ → Bytes → Texts → S → Option (List ℕ) × S
  unfolding capture save_loop
  rescue_storage_save_current storage header texts s =
      let (captured, ready) = capture S device header texts s in
      if leb 3 storage then (none, s) else elim captured [
        | none ↦ (none, ready)
        | some (info, payload) ↦ save_loop S files storage info header payload (0 ∷ 1 ∷ []) ready
      ]
