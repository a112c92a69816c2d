-- ===== src/HddRepair.antt =====
-- src/hdd_repair_ps2.c: the write of a repaired master header, over the device calls. The status display and
-- the error log are left out. A result is the returned code, the read-back buffer and the disk.
pub mod Gate
use fhdb_bootstrap_manager.Common.{ℕ, ◌+◌, ◌^◌, Bool, not, ◌||◌, ◌==◌, ◌!=◌, if◌then◌else◌}
use fhdb_bootstrap_manager.Common.Ints.{ℤ, pos, neg, is_neg}
use fhdb_bootstrap_manager.Common.Bytes.{Bytes, shift, zeros, memcpy, memeq, read_le16, read_le32}
use fhdb_bootstrap_manager.Apa.{
  header_size, start_offset, type_offset, mbr_version_offset, master_type, master_version,
  is_standard_apa_header, is_hybrid_gpt,
}
use fhdb_bootstrap_manager.HddDevice.{Device, read_raw_sectors}

abbrev pub unsafe_header : ℤ
unsafe_header = neg 331

abbrev pub write_failed : ℤ
write_failed = neg 332

abbrev pub flush_failed : ℤ
flush_failed = neg 333

abbrev pub readback_failed : ℤ
readback_failed = neg 334

abbrev pub compare_failed : ℤ
compare_failed = neg 335

-- The validation before the write.
unfoldable pub is_refused : Bytes → Bool
is_refused repaired =
    not (is_standard_apa_header repaired)
    || is_hybrid_gpt repaired
    || read_le32 (shift repaired start_offset) != 0
    || read_le16 (shift repaired type_offset) != master_type
    || read_le32 (shift repaired mbr_version_offset) != master_version

-- `repair_packet.data`
abbrev pub packet : Bytes → Bytes
packet repaired = memcpy zeros 0 repaired header_size

unfoldable pub write_master_header_verified :
    (S : Type 0) → Device S → Bytes → Bytes → S → ℤ × Bytes × S
unfolding is_refused
write_master_header_verified S device repaired readback s =
    let (written, after) = device.write_sector 0 2 (packet repaired) s in
    let (flushed, clean) = device.flush after in
    let (result, verify, last) = read_raw_sectors S device 0 2 clean in
    if is_refused repaired
    then (unsafe_header, readback, s)
    else if is_neg written
    then (write_failed, readback, after)
    else if is_neg flushed
    then (flush_failed, readback, clean)
    else if is_neg result
    then (readback_failed, readback, last)
    else if not (memeq verify repaired header_size)
    then (compare_failed, readback, last)
    else (pos 0, memcpy readback 0 verify header_size, last)
