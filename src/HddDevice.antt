-- ===== src/HddDevice.antt =====
-- src/hdd_read.c and src/hdd_write.c: raw transfers over the device calls of fileXio, which are an interface
-- over the state of the disk. The status display and the error log are left out.
pub mod ReadBack
pub mod Image
pub mod Writes
use fhdb_bootstrap_manager.Common.{
  ℕ, zero, suc, ◌+◌, ◌-◌, ◌*◌, ◌/◌, ◌%◌, ◌^◌, Bool, ◌||◌, not, ltb, ◌==◌, ◌!=◌, if◌then◌else◌,
}
use fhdb_bootstrap_manager.Common.Ints.{ℤ, pos, neg, is_neg}
use fhdb_bootstrap_manager.Common.Bytes.{Bytes, shift, zeros, memcpy, memeq, read_le32}
use fhdb_bootstrap_manager.Apa.{is_standard_apa_header, osd_start_offset, osd_size_offset}
use fhdb_bootstrap_manager.HddBounds.{
  validate_payload_shape, validate_payload_bounds_geometry, transfer_bytes, transfer_sectors,
  sector_size, max_mbr_payload_size,
}

-- The calls that the code makes of the file service: fileXioGetStat of `hdd0:__mbr`, and the fileXioDevctl commands.
pub record Device (S : Type 0) : Type 0 where
  pub get_stat : S → ℤ × ℕ × ℕ × S
  pub read_sector : ℕ → ℕ → Bytes → S → ℤ × Bytes × S
  pub write_sector : ℕ → ℕ → Bytes → S → ℤ × S
  pub flush : S → ℤ × S
  pub set_osd : ℕ → ℕ → S → ℤ × S

abbrev pub err_image_sectors : ℤ
err_image_sectors = neg 174

abbrev pub header_read_failed : ℤ
header_read_failed = neg 1

abbrev pub header_invalid : ℤ
header_invalid = neg 2

abbrev pub start_mismatch : ℤ
start_mismatch = neg 3

abbrev pub size_mismatch : ℤ
size_mismatch = neg 4

abbrev pub payload_flush_failed : ℤ
payload_flush_failed = neg 130

abbrev pub payload_compare_failed : ℤ
payload_compare_failed = neg 131

abbrev pub chunk_sectors : ℕ → ℕ
chunk_sectors left = if ltb transfer_sectors left then transfer_sectors else left

abbrev pub chunk_bytes : ℕ → ℕ
chunk_bytes remaining = if ltb transfer_bytes remaining then transfer_bytes else remaining

abbrev pub sectors_of : ℕ → ℕ
sectors_of bytes = (bytes + sector_size - 1) / sector_size

-- `write_packet.data` with the next bytes of the payload.
abbrev pub packet_data : Bytes → ℕ → ℕ → Bytes
packet_data payload offset bytes = memcpy zeros 0 (shift payload offset) bytes

module _ (S : Type 0) (device : Device S) where
  -- The destination is cleared first.
  abbrev pub read_raw_sectors : ℕ → ℕ → S → ℤ × Bytes × S
  read_raw_sectors lba sectors s = device.read_sector lba sectors zeros s

  unfoldable pub validate_payload_bounds : ℕ → ℕ → S → ℤ × S
  validate_payload_bounds start sectors s =
      let shape = validate_payload_shape start sectors in
      let (result, mbr_start, mbr_size, after) = device.get_stat s in
      if is_neg shape
      then (shape, s)
      else if is_neg result
      then (result, after)
      else (validate_payload_bounds_geometry start sectors mbr_start mbr_size, after)

  -- The loop of `hdd_read_payload_image`, with at most `fuel` rounds to go; a round takes some sectors.
  unfoldable pub read_loop : ℕ → ℕ → ℕ → ℕ → Bytes → S → ℤ × Bytes × S
  read_loop zero start sectors sector_offset payload s = (pos 0, payload, s)
  read_loop (suc fuel) start sectors sector_offset payload s =
      let chunk = chunk_sectors (sectors - sector_offset) in
      let (result, buffer, after) = read_raw_sectors ((start + sector_offset) % 2 ^ 32) chunk s in
      let rest =
        read_loop fuel start sectors (sector_offset + chunk)
          (memcpy payload (sector_offset * sector_size) buffer (chunk * sector_size)) after in
      if not (ltb sector_offset sectors)
      then (pos 0, payload, s)
      else if is_neg result
      then (result, payload, after)
      else rest

  -- The allocation succeeds; the length of the image is `sectors * 512`.
  unfoldable pub read_payload_image : ℕ → ℕ → S → ℤ × Bytes × S
  read_payload_image start sectors s =
      if sectors == 0 || ltb (max_mbr_payload_size / sector_size) sectors
      then (err_image_sectors, zeros, s)
      else read_loop sectors start sectors 0 zeros s

  -- The flush follows a pointer update that succeeded.
  unfoldable pub write_set_osd_mbr : ℕ → ℕ → S → ℤ × S
  write_set_osd_mbr start size s =
      let (result, after) = device.set_osd start size s in
      if is_neg result then (result, after) else device.flush after

  unfoldable pub write_verify_osd_mbr : Bytes → ℕ → ℕ → S → ℤ × Bytes × S
  write_verify_osd_mbr destination expected_start expected_size s =
      let (result, header, after) = read_raw_sectors 0 2 s in
      if is_neg result
      then (header_read_failed, destination, after)
      else if not (is_standard_apa_header header)
      then (header_invalid, destination, after)
      else if read_le32 (shift header osd_start_offset) != expected_start
      then (start_mismatch, destination, after)
      else if read_le32 (shift header osd_size_offset) != expected_size
      then (size_mismatch, destination, after)
      else (pos 0, memcpy destination 0 header 1024, after)

  -- The first loop of `hdd_write_payload_verified`, with at most `fuel` rounds to go.
  unfoldable pub write_loop : ℕ → Bytes → ℕ → ℕ → ℕ → ℕ → S → ℤ × S
  write_loop zero payload payload_size start_sector offset sector_offset s = (pos 0, s)
  write_loop (suc fuel) payload payload_size start_sector offset sector_offset s =
      let bytes = chunk_bytes (payload_size - offset) in
      let (result, after) =
        device.write_sector ((start_sector + sector_offset) % 2 ^ 32) (sectors_of bytes)
          (packet_data payload offset bytes) s in
      let rest =
        write_loop fuel payload payload_size start_sector (offset + bytes)
          (sector_offset + sectors_of bytes) after in
      if not (ltb offset payload_size)
      then (pos 0, s)
      else if is_neg result
      then (result, after)
      else rest

  -- Its second loop, the read-back.
  unfoldable pub verify_loop : ℕ → Bytes → ℕ → ℕ → ℕ → ℕ → S → ℤ × S
  verify_loop zero payload payload_size start_sector offset sector_offset s = (pos 0, s)
  verify_loop (suc fuel) payload payload_size start_sector offset sector_offset s =
      let bytes = chunk_bytes (payload_size - offset) in
      let sectors = sectors_of bytes in
      let (result, buffer, after) =
        read_raw_sectors ((start_sector + sector_offset) % 2 ^ 32) sectors s in
      let rest =
        verify_loop fuel payload payload_size start_sector (offset + bytes)
          (sector_offset + sectors) after in
      if not (ltb offset payload_size)
      then (pos 0, s)
      else if is_neg result
      then (result, after)
      else if not (memeq (packet_data payload offset bytes) buffer (sectors * sector_size))
      then (payload_compare_failed, after)
      else rest

  -- As many rounds as bytes are enough for either loop.
  unfoldable pub write_payload_verified : Bytes → ℕ → ℕ → S → ℤ × S
  write_payload_verified payload payload_size start_sector s =
      let (result, written) = write_loop payload_size payload payload_size start_sector 0 0 s in
      let (flushed, clean) = device.flush written in
      if is_neg result
      then (result, written)
      else if is_neg flushed
      then (payload_flush_failed, clean)
      else verify_loop payload_size payload payload_size start_sector 0 0 clean
