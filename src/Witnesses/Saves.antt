-- ===== src/Witnesses/Saves.antt =====
-- Snapshots and backups in a store that has one file.
use fhdb_bootstrap_manager.Common.{
  congr_fun, ℕ, ◌*◌, ◌+◌, ◌≡◌, refl, true, List, [], ◌∷◌, none, some, length, get_or, arith,
}
use fhdb_bootstrap_manager.Common.Results.{ok}
use fhdb_bootstrap_manager.Common.Bytes.{
  Bytes, shift, zeros, of_list, read_le32, codes, memcpy, memeq, memeq_complete,
}
use fhdb_bootstrap_manager.Apa.{
  header_size, osd_start_offset, apa_checksum, is_standard_apa_header, headers_match_same_disk,
}
use fhdb_bootstrap_manager.ApaForensic.{Node, empty_node, ScanResult}
use fhdb_bootstrap_manager.ApaForensic.Evaluate.{blank}
use fhdb_bootstrap_manager.ApaForensic.RepairPlan.{Patch, no_patch, RepairPlan, no_patches}
use fhdb_bootstrap_manager.Storage.{
  printed, storage_path, write_loop, write_in_mode, write_whole_file, read_loop, read_exact_file,
}
use fhdb_bootstrap_manager.Snapshots.{store_slot, try_slot, save_loop, repair_snapshot_save}
use fhdb_bootstrap_manager.Snapshots.Saved.{IsGood, repair_snapshot-IsSaved}
use fhdb_bootstrap_manager.Snapshots.Image.{
  header_bytes, entry_bytes, size_for, digest, put_header, put_entry, put_entries, seal,
  build_snapshot_image, save_image, forensic_snapshot_save,
}
use fhdb_bootstrap_manager.Snapshots.Image.Restores.{IsEntry, snapshot_restores}
use fhdb_bootstrap_manager.HeaderBackup.{
  Enabled, header_backup_save, enabled_loop, header_backup_find_enabled,
}
use fhdb_bootstrap_manager.HeaderBackup.Saved.{IsRestorable, found-IsRestorable}
use fhdb_bootstrap_manager.HeaderBackup.Stored.{IsBackedUp, header_backup-IsBackedUp}
use fhdb_bootstrap_manager.Witnesses.{master}
use fhdb_bootstrap_manager.Witnesses.Stores.{stored_laws, memory_laws}
use fhdb_bootstrap_manager.Witnesses.Memory.{Store, put, same_path, memory_files}

abbrev note : List ℕ
note = codes "mc0:/NOTE.TXT"

abbrev start : Store
start = record { content = put (λ q. none) note (5, zeros); path = []; position = 0 }

there : memory_laws.content start note ≡ some (5, zeros)
unfolding same_path
there = congr_fun (stored_laws.1 start) note

repair_snapshot-IsSaved_example :
    let (outcome, after) = repair_snapshot_save Store memory_files 0 master start in
    (memory_laws.content after note ≡ some (5, zeros))
    × IsGood Store memory_files memory_laws header_size master (some outcome) after
repair_snapshot-IsSaved_example =
    repair_snapshot-IsSaved Store memory_files memory_laws 0 master start note (5, zeros) there

header_backup-IsBackedUp_example :
    let (saved, tried, after) = header_backup_save Store memory_files 1 master [] start in
    (memory_laws.content after note ≡ some (5, zeros))
    × IsBackedUp Store memory_files memory_laws master saved after
header_backup-IsBackedUp_example =
    header_backup-IsBackedUp Store memory_files memory_laws 1 master [] start note (5, zeros) there

abbrev node : Node
node = record empty_node { lba = 8; next = 16; header = master }

abbrev patch : Patch
patch = record no_patch { lba = 8; old_next = 16; new_next = 24 }

abbrev scanned : ScanResult
scanned = record (blank 100).result { nodes = node ∷ [] }

abbrev plan : RepairPlan
plan = record (no_patches 0 90) { patches = patch ∷ [] }

abbrev out : Bytes
out = put_entry (put_header scanned plan) 64 patch node

abbrev image : Bytes
image = memcpy out 1124 (digest out 1124) 32

built : build_snapshot_image scanned plan ≡ ok (1156, image)
unfolding build_snapshot_image put_entries seal
built = refl

abbrev meta : List ℕ
meta = codes "mc0:/HDDMETA.BIN"

-- What a new file holds after it was written and read.
abbrev copied : Bytes → Bytes
copied source = memcpy zeros 0 (shift (memcpy zeros 0 (shift source 0) 1156) 0) 1156

copied_same : (source : Bytes) → memeq (copied source) source 1156 ≡ true
copied_same source = memeq_complete (copied source) source 1156 (λ i h. ground arith)

saves : (source : Bytes) → (save_image Store memory_files 0 (ok (1156, source)) start).0 ≡ ok meta
unfolding save_image save_loop try_slot store_slot write_whole_file write_in_mode write_loop
    read_exact_file read_loop storage_path printed same_path
saves source = rw (copied_same source) refl

saved : (forensic_snapshot_save Store memory_files 0 scanned plan start).0 ≡ ok meta
unfolding forensic_snapshot_save build_snapshot_image put_entries seal
saved = saves image

snapshot_restores_example :
    (bytes : Bytes) × (memory_laws.content
        (forensic_snapshot_save Store memory_files 0 scanned plan start).1
        meta
      ≡ some (size_for (length plan.patches), bytes))
    × IsEntry scanned (get_or plan.patches 0 no_patch) bytes (header_bytes + 0 * entry_bytes)
snapshot_restores_example =
    snapshot_restores Store memory_files memory_laws 0 scanned plan start meta 0 saved (omega arith)

-- The master header with a pointer to 0x800 sectors at 0x4000, and its checksum.
abbrev pointed : Bytes
pointed =
    memcpy (memcpy master 0 (of_list (0xed ∷ 0xeb ∷ 0xfe ∷ 0x4d ∷ [])) 4) osd_start_offset
      (of_list (0 ∷ 0x40 ∷ 0 ∷ 0 ∷ 0 ∷ 8 ∷ 0 ∷ 0 ∷ [])) 8

abbrev backup : List ℕ
backup = codes "mc0:/HDDMBR.BIN"

abbrev backed_up : Store
backed_up = record start { content = put start.content backup (1024, pointed) }

abbrev enabled : Enabled
enabled = record { path = backup; start = 0x4000; size = 0x800 }

found : (header_backup_find_enabled Store memory_files 0 master backed_up).0 ≡ some enabled
unfolding header_backup_find_enabled enabled_loop read_exact_file read_loop storage_path printed
    same_path is_standard_apa_header apa_checksum memeq read_le32 headers_match_same_disk
found = refl

found-IsRestorable_example : IsRestorable master enabled (memory_laws.content backed_up)
found-IsRestorable_example =
    found-IsRestorable Store memory_files memory_laws 0 master backed_up enabled found
