-- ===== src/Witnesses/Rescues.antt =====
-- A save of a rescue file next to one that is there, and the disk with the payload.
use fhdb_bootstrap_manager.Common.{congr_fun, ◌*◌, ◌≡◌, refl, ◌∙◌, some, arith}
use fhdb_bootstrap_manager.Common.Ints.{pos, neg}
use fhdb_bootstrap_manager.Common.Bytes.{Bytes, shift, zeros, codes, memcpy, write_le32}
use fhdb_bootstrap_manager.Apa.{apa_checksum, osd_start_offset, osd_size_offset}
use fhdb_bootstrap_manager.HddDevice.{Device}
use fhdb_bootstrap_manager.HddDevice.ReadBack.{ReadLaws}
use fhdb_bootstrap_manager.Storage.{printed, storage_path}
use fhdb_bootstrap_manager.RescueStorage.{rescue_path}
use fhdb_bootstrap_manager.RescueStorage.Save.{Texts, rescue_storage_save_current}
use fhdb_bootstrap_manager.RescueStorage.Captured.{QuietLaws, HasBackup, rescue_saved-HasBackup}
use fhdb_bootstrap_manager.Witnesses.{master}
use fhdb_bootstrap_manager.Witnesses.Layouts.{kelf}
use fhdb_bootstrap_manager.Witnesses.Devices.{disk_holds}
use fhdb_bootstrap_manager.Witnesses.Stores.{memory_laws, stored_laws}
use fhdb_bootstrap_manager.Witnesses.Memory.{Store, same_path, memory_files}
use fhdb_bootstrap_manager.Witnesses.Finds.{disk, file}

-- A disk that cannot be written, with a KELF at sector 0x4000.
abbrev sectors : Bytes
sectors = memcpy zeros (0x4000 * 512) kelf 512

abbrev fixed_disk : Device Store
fixed_disk = record {
  get_stat = λ s. (pos 0, 0, 0x40000, s);
  read_sector =
      λ lba n destination s. (pos 0, memcpy destination 0 (shift sectors (lba * 512)) (n * 512), s);
  write_sector = λ lba n packet s. (neg 1, s);
  flush = λ s. (pos 0, s);
  set_osd = λ start size s. (neg 1, s);
}

fixed_laws : ReadLaws Store fixed_disk
fixed_laws = record {
  content = λ s. sectors;
  read_holds = λ lba n destination s e i h. disk_holds lba n destination sectors i h;
  read_keeps = λ lba n destination s. refl;
}

quiet_disk : QuietLaws Store memory_files memory_laws fixed_disk fixed_laws
quiet_disk = record {
  stat_files = λ s. refl;
  stat_disk = λ s. refl;
  stat_fits = λ s. omega arith;
  read_files = λ lba n d s. refl;
}

-- The master header with a pointer to the KELF.
abbrev pointing : Bytes
pointing =
    let header = write_le32 (write_le32 master osd_start_offset 0x4000) osd_size_offset 1 in
    write_le32 header 0 (apa_checksum header)

abbrev texts : Texts
texts = record { romver = codes "0160EC20010704"; family = codes "PS2"; confidence = codes "HIGH" }

present : disk.content (rescue_path 0 0) ≡ some (1792, file)
unfolding storage_path printed same_path
present = refl

rescue_saved-HasBackup_example :
    let (saved, after) =
      rescue_storage_save_current Store memory_files fixed_disk 0 pointing texts disk in
    (memory_laws.content after (rescue_path 0 0) ≡ some (1792, file))
    × HasBackup (fixed_laws.content disk) pointing saved (memory_laws.content after)
rescue_saved-HasBackup_example =
    rescue_saved-HasBackup Store memory_files memory_laws fixed_disk fixed_laws quiet_disk 0
      pointing texts disk (rescue_path 0 0) (1792, file)
      (congr_fun (stored_laws.1 disk) (rescue_path 0 0) ∙ present)
