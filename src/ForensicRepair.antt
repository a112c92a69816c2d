-- ===== src/ForensicRepair.antt =====
-- src/hdd_forensic_repair_ps2.c: the writes of a forensic repair plan, over the device calls. The status
-- display and the error log are left out.
pub mod OnDisk
pub mod Order
use fhdb_bootstrap_manager.Common.{
  ℕ, ◌+◌, ◌^◌, bit_and, Bool, true, false, not, ◌&&◌, ◌||◌, List, [], ◌∷◌, leb, ◌==◌, ◌!=◌,
  if◌then◌else◌, length,
}
use fhdb_bootstrap_manager.Common.Ints.{ℤ, pos, neg, is_neg}
use fhdb_bootstrap_manager.Common.Results.{Result, err, ok}
use fhdb_bootstrap_manager.Common.Bytes.{Bytes, shift, zeros, memcpy, memeq, read_le32}
use fhdb_bootstrap_manager.Apa.{
  header_size, magic_offset, start_offset, length_offset, apa_magic, apa_checksum,
}
use fhdb_bootstrap_manager.ApaForensic.{Node, node_at, ScanResult}
use fhdb_bootstrap_manager.ApaForensic.Evaluate.{repair_evidence}
use fhdb_bootstrap_manager.ApaForensic.RepairPlan.{Patch, RepairPlan, build_patched_header}
use fhdb_bootstrap_manager.HddDevice.{Device, read_raw_sectors}

abbrev pub plan_blocked : ℤ
plan_blocked = neg 371

abbrev pub source_changed : ℤ
source_changed = neg 372

abbrev pub patch_invalid : ℤ
patch_invalid = neg 373

abbrev pub write_failed : ℤ
write_failed = neg 374

abbrev pub flush_failed : ℤ
flush_failed = neg 375

abbrev pub readback_failed : ℤ
readback_failed = neg 376

abbrev pub compare_failed : ℤ
compare_failed = neg 377

unfoldable pub patch_header_is_safe : ScanResult → Patch → Bytes → Bool
patch_header_is_safe scan patch header =
    let node = node_at scan.nodes patch.node_index in
    if leb (length scan.nodes) patch.node_index
    then false
    else if node.lba != patch.lba || bit_and node.evidence repair_evidence != repair_evidence
    then false
    else if not (memeq (shift header magic_offset) apa_magic 4)
        || read_le32 (shift header start_offset) != patch.lba
        || read_le32 (shift header length_offset) == 0
        || read_le32 header != apa_checksum header
    then false
    else true

-- `write_packet.data`
abbrev pub packet : Bytes → Bytes
packet header = memcpy zeros 0 header header_size

module _ (S : Type 0) (device : Device S) where
  -- The part of `write_one` from the packet on: write, flush, and read back.
  unfoldable pub commit_header : ℕ → Bytes → S → ℤ × S
  commit_header lba header s =
      let (written, after) = device.write_sector lba 2 (packet header) s in
      let (flushed, clean) = device.flush after in
      let (result, verify, last) = read_raw_sectors S device lba 2 clean in
      if is_neg written
      then (write_failed, after)
      else if is_neg flushed
      then (flush_failed, clean)
      else if is_neg result
      then (readback_failed, last)
      else if not (memeq verify header header_size)
      then (compare_failed, last)
      else (pos 0, last)

  -- A header that is built and passes the final validation is committed.
  unfoldable pub commit_built : ScanResult → Patch → Result Bytes → S → ℤ × S
  unfolding commit_header patch_header_is_safe
  commit_built scan patch (err code) s = (patch_invalid, s)
  commit_built scan patch (ok header) s =
      if not (patch_header_is_safe scan patch header)
      then (patch_invalid, s)
      else commit_header patch.lba header s

  unfoldable pub write_one : ScanResult → Patch → S → ℤ × S
  unfolding commit_built
  write_one scan patch s =
      let node = node_at scan.nodes patch.node_index in
      let (result, source, after) = read_raw_sectors S device patch.lba 2 s in
      if is_neg result
      then (readback_failed, after)
      else if not (memeq source node.header header_size)
      then (source_changed, after)
      else commit_built scan patch (build_patched_header scan patch) after

  -- `master` tells the two loops apart: the first takes the patches whose lba is not 0, the second those
  -- whose lba is 0.
  unfoldable pub write_loop : ScanResult → Bool → List Patch → S → ℤ × S
  unfolding write_one
  write_loop scan master [] s = (pos 0, s)
  write_loop scan master (patch ∷ patches) s =
      let (result, after) = write_one scan patch s in
      let taken = write_loop scan master patches after in
      let passed = write_loop scan master patches s in
      if (patch.lba == 0) && not master || not (patch.lba == 0) && master
      then passed
      else if is_neg result
      then (result, after)
      else taken

  unfoldable pub verify_built : Patch → Result Bytes → S → ℤ × S
  verify_built patch (err code) s = (patch_invalid, s)
  verify_built patch (ok header) s =
      let (result, verify, after) = read_raw_sectors S device patch.lba 2 s in
      if is_neg result
      then (readback_failed, after)
      else if not (memeq verify header header_size)
      then (compare_failed, after)
      else (pos 0, after)

  unfoldable pub verify_one_final : ScanResult → Patch → S → ℤ × S
  unfolding verify_built
  verify_one_final scan patch s = verify_built patch (build_patched_header scan patch) s

  unfoldable pub final_loop : ScanResult → List Patch → S → ℤ × S
  unfolding verify_one_final
  final_loop scan [] s = (pos 0, s)
  final_loop scan (patch ∷ patches) s =
      let (result, after) = verify_one_final scan patch s in
      let rest = final_loop scan patches after in if is_neg result then (result, after) else rest

  unfoldable pub apply_verified : ScanResult → RepairPlan → S → ℤ × S
  unfolding write_loop final_loop
  apply_verified scan plan s =
      let (interior, between) = write_loop scan false plan.patches s in
      let (master, written) = write_loop scan true plan.patches between in
      if scan.truncated
        || not plan.manual_allowed
        || length plan.patches == 0
        || leb (length scan.maps) plan.map_index
      then (plan_blocked, s)
      else if is_neg interior
      then (interior, between)
      else if is_neg master
      then (master, written)
      else final_loop scan plan.patches written
