-- ===== src/Witnesses/Repairs.antt =====
-- The writes of repaired headers to a disk in memory.
use fhdb_bootstrap_manager.Common.{
  ℕ, ◌*◌, ◌<◌, ◌≡◌, ◌⊎◌, refl, true, false, [], ◌∷◌, length, get_or, arith,
}
use fhdb_bootstrap_manager.Common.Arrays.{memcpy_before}
use fhdb_bootstrap_manager.Common.Ints.{pos, is_neg}
use fhdb_bootstrap_manager.Common.Bytes.{Bytes, zeros, memcpy, memeq, write_le32, read_le32}
use fhdb_bootstrap_manager.Apa.{apa_checksum, next_offset, start_offset, length_offset}
use fhdb_bootstrap_manager.ApaForensic.{Node, empty_node, ScanResult, plain_map, forward}
use fhdb_bootstrap_manager.ApaForensic.Evaluate.{repair_evidence}
use fhdb_bootstrap_manager.ApaForensic.RepairPlan.{
  Patch, no_patch, RepairPlan, no_patches, build_patched_header,
}
use fhdb_bootstrap_manager.HddRepair.{write_master_header_verified}
use fhdb_bootstrap_manager.HddRepair.Gate.{
  IsEnd, IsDeviceFailure, master_write-IsEnd, planned_write,
}
use fhdb_bootstrap_manager.ForensicRepair.{
  patch_header_is_safe, commit_header, commit_built, write_one, write_loop, verify_built,
  verify_one_final, final_loop, apply_verified,
}
use fhdb_bootstrap_manager.ForensicRepair.OnDisk.{IsOnDisk, applied-IsOnDisk}
use fhdb_bootstrap_manager.HddDevice.Writes.{WriteLaws}
use fhdb_bootstrap_manager.ForensicRepair.Order.{SameSector, master_last}
use fhdb_bootstrap_manager.BootstrapTransaction.Ps2.{ps2_activate}
use fhdb_bootstrap_manager.BootstrapTransaction.Ps2.OnDisk.{
  PointerLaws, SameHeader, HasPayload, activation_on_disk,
}
use fhdb_bootstrap_manager.Witnesses.{master}
use fhdb_bootstrap_manager.Witnesses.Headers.{damaged, rebuilt}
use fhdb_bootstrap_manager.Witnesses.Devices.{memory_disk, disk_laws}

master_write-IsEnd_example :
    IsEnd Bytes memory_disk disk_laws master zeros zeros
      (write_master_header_verified Bytes memory_disk master zeros zeros)
master_write-IsEnd_example = master_write-IsEnd Bytes memory_disk disk_laws master zeros zeros

planned_write_example :
    let (code, back, after) = write_master_header_verified Bytes memory_disk master zeros zeros in
    IsDeviceFailure code
    ⊎ ((code ≡ pos 0) × ((i : ℕ) → i < 1024 → disk_laws.content after i ≡ master i))
planned_write_example = planned_write Bytes memory_disk disk_laws damaged master zeros zeros rebuilt

disk_writes : WriteLaws Bytes memory_disk disk_laws
unfolding disk_laws
disk_writes = record {
  write_keeps = λ lba n source s i h. memcpy_before s (lba * 512) source (n * 512) i h;
  flush_keeps = λ s. refl;
}

disk_pointers : PointerLaws Bytes memory_disk disk_laws
unfolding disk_laws
disk_pointers = record { set_keeps = λ start size s i h. refl }

-- A header at sector 2 with a link to sector 8, which is to be 16.
abbrev interior : Bytes
interior = write_le32 (write_le32 (write_le32 master start_offset 2) length_offset 6) next_offset 8

abbrev node : Node
node = record empty_node {
  lba = 2;
  next = 8;
  start = 2;
  length = 6;
  evidence = repair_evidence;
  header = interior;
}

abbrev patch : Patch
patch = record no_patch { lba = 2; old_next = 8; new_next = 16 }

abbrev found : ScanResult
found = record {
  total_sectors = 64;
  grid_step = 0x40000;
  grid_reads = 1;
  reference_reads = 1;
  unreadable_reads = 0;
  dormant_free_nodes = 0;
  truncated = false;
  nodes = node ∷ [];
  maps = plain_map forward [] ∷ [];
}

abbrev plan : RepairPlan
plan = record (no_patches 0 95) { patches = patch ∷ []; manual_allowed = true }

abbrev disk : Bytes
disk = memcpy zeros 1024 interior 1024

applied : is_neg (apply_verified Bytes memory_disk found plan disk).0 ≡ false
unfolding apply_verified write_loop write_one commit_built commit_header patch_header_is_safe
    final_loop verify_one_final verify_built build_patched_header apa_checksum memeq read_le32
applied = refl

applied-IsOnDisk_example :
    (found.truncated ≡ false)
    × (plan.manual_allowed ≡ true)
    × ((j : ℕ)
        → j < length plan.patches
        → IsOnDisk Bytes memory_disk disk_laws found
            (apply_verified Bytes memory_disk found plan disk).1
            (get_or plan.patches j no_patch))
applied-IsOnDisk_example = applied-IsOnDisk Bytes memory_disk disk_laws found plan disk applied

-- The header was overwritten after the scan.
changed : is_neg (write_loop Bytes memory_disk found false plan.patches zeros).0 ≡ true
unfolding write_loop write_one memeq
changed = refl

master_last_example :
    (is_neg (apply_verified Bytes memory_disk found plan zeros).0 ≡ true)
    × SameSector Bytes memory_disk disk_laws disk_writes found zeros
        (apply_verified Bytes memory_disk found plan zeros).1
master_last_example = master_last Bytes memory_disk disk_laws disk_writes found plan zeros changed

activation_on_disk_example :
    let after = (ps2_activate Bytes memory_disk zeros master 600 16 2 (λ t. t) zeros).device in
    SameHeader Bytes memory_disk disk_laws disk_writes disk_pointers zeros after
    ⊎ HasPayload Bytes memory_disk disk_laws disk_writes disk_pointers master 600 16 after
activation_on_disk_example =
    activation_on_disk Bytes memory_disk disk_laws disk_writes disk_pointers zeros master 600 16 2
      (λ t. t) zeros (λ t. refl) (omega arith) (omega arith)
