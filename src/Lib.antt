-- ===== src/Lib.antt =====
-- PS2 HDD Bootstrap Manager: the portable policy code that decides what is written to a console's disk.
--
-- The manager reads the APA master header in sector zero of the disk, validates and repairs it, installs a
-- bootstrap program (a KELF) in the reserved area of the `__mbr` partition and points the header's osdStart
-- and osdSize at it, keeps rescue files of header and program, and installs game images in HDLoader
-- partitions through a journal of stages. The parts modelled, and their files:
--
--   Common            memory as a function from offsets to bytes, little-endian fields, memcmp, memcpy and
--                     memset, return codes, and laws of the bit operations
--   Apa               src/apa.c: apa_checksum, is_standard_apa_header, is_hybrid_gpt, headers_match_same_disk
--   ApaRepair         src/apa_repair.c: apa_repair_analyze (analyze), apa_repair_build_header (build_header)
--   RepairHealth      src/repair_health.c: repair_health_assess (assess), over Apa and ApaRepair
--   HddBounds         src/hdd_bounds.c: the shape and the bounds of a payload pointer
--   Kelf              src/kelf.c: kelf_validate_layout, kelf_size_from_disk_image
--   Sha256            src/sha256.c: sha256_init, sha256_update, sha256_final, sha256_buffer, sha256_hex
--   Capsule           src/capsule_format.c: rescue_capsule_encode (encode), rescue_capsule_decode (decode)
--   RescueImage       src/rescue_image.c: rescue_image_validate (validate), over Apa, Kelf, Sha256, Capsule
--   HdlTransaction    src/hdl_transaction.c: stages, validity, encode and decode, over Sha256
--   HddDevice         src/hdd_read.c, src/hdd_write.c: raw transfers over an interface of device calls (Device);
--                     HddDevice/Writes has the laws of a device that is written (WriteLaws)
--   ApaForensic       src/apa_forensic.c: apa_forensic_scan (scan) and the repair plan; its child modules follow
--                     the source: Inspect (inspect_header), Index (find_node, index_node), Search (add_candidate,
--                     chase_references), Forward, Reverse and Geometry (the three maps), Evaluate
--                     (evaluate_map, apa_forensic_scan) and RepairPlan (build_repair_plan,
--                     build_patched_header). The proofs are in Index/Laws, Index/Insert, Search/Rule,
--                     Search/Copied, Search/Table, Search/Later, Search/Ends, Complete, NodeSet, Entries, Orders,
--                     RepairPlan/Patched, Remarked and Planned
--   HddRepair         src/hdd_repair_ps2.c: the write of a repaired master header, over HddDevice
--   ForensicRepair    src/hdd_forensic_repair_ps2.c: the writes of a repair plan, over HddDevice, ApaForensic
--   Storage           src/storage.c: write_whole_file, append_log_file, read_exact_file, read_bounded_file,
--                     read_text_file, read_romver and storage_path, over an interface of file calls (Files);
--                     Storage/Launch has the selected target and the launch directory
--                     (select_launch_storage, storage_launch_file_path), Storage/Laws what the file calls
--                     promise (FileLaws)
--   Snapshots         src/repair_snapshot.c and, in Snapshots/Image, src/forensic_snapshot.c, over Storage
--   HeaderBackup      src/header_backup.c: header_backup_save, header_backup_find_enabled, over Storage
--   RescueStorage     src/rescue_storage.c: rescue_storage_find and, in RescueStorage/Save,
--                     rescue_storage_save_current, over Storage, HddDevice and RescueImage
--   HdlIso            src/hdl_iso.c: Directory (find_system_cnf), SystemCnf (parse_system_cnf), Probe
--                     (hdl_iso_probe) and Scans, the searches in a text
--   HdlPartition      src/hdl_partition.c: hdl_partition_plan (partition_plan) and choose_allocation
--   HdlMetadata       src/hdl_partition.c: hdl_metadata_build (metadata_build), hdl_metadata_parse
--                     (metadata_parse)
--   HdlName           src/hdl_partition.c: hdl_partition_id (partition_id)
--   BootstrapTransaction  src/bootstrap_transaction.c: the order of payload and pointer writes, over an
--                     interface of operations (Ops);
--                     BootstrapTransaction/Ps2 fills the interface with the transfers of HddDevice, as
--                     src/bootstrap_transaction_ps2.c does
--   Witnesses         concrete inputs
--
-- Conventions. A pointer to unsigned char is a function from an offset to the byte there; a fixed array in a
-- structure is such a function with zeros behind its end. A `uint32_t` or `uint64_t` sum keeps its reduction
-- modulo 2 ^ 32 or 2 ^ 64 where it can wrap. A function that returns a negative code, or 0 and a result through
-- a pointer, returns a Result; codes are integers (Common.Ints). Tests for null pointers are left out, as
-- every buffer is present, but for the path of the program in Storage/Launch; a missing text in
-- RescueStorage/Save is the empty one.
--
-- Loops. The checksum, the SHA-256 rounds and the text searches run over a count. `sha256_update` gets one
-- round for each byte left, and a round takes 64; `bit_count32` gets 32 rounds, one for each bit. The loops
-- of the raw transfers get one round for each byte or sector, and a round takes some. The loop of
-- `hdl_partition_plan` is a recursion on the free entries of its table, so that it needs no fuel. In
-- ApaForensic, the binary search gets one round for each entry of the index, the walk over the grid 2 ^ 14
-- rounds (a disk has less than 2 ^ 32 sectors and a step is 2 ^ 18 of them), and the chase of the references
-- and the walks of the maps 2048 rounds, the most nodes that the table takes. In HdlIso, the records of a
-- sector get 61 rounds, as a record has at least 34 bytes, and the lines of SYSTEM.CNF one round for each
-- character; the search of the root directory gets two rounds more than the directory has sectors, and is
-- `none` where it has not ended then, since the loop of the source does not always end. The loops over the
-- bytes of a file get one round for each byte, and a round takes some.
--
-- Devices. The sector reader of the forensic scan is a function of the sector: the disk does not change
-- during the scan. The calls of the console for the disk (Device) and for files (Files) take and return the
-- state, and a theorem that needs more than that states what the calls promise as laws (ReadLaws, WriteLaws,
-- PointerLaws, QuietLaws, FileLaws), which a disk and a store in memory keep in Witnesses. The display of the
-- progress and the log of errors change none of these states and are left out, and allocations succeed.
--
-- Not modelled. The user interface, the console's file and device services and the text reports are I/O. Of
-- src/storage.c, the preferences of the display are not modelled.
-- The sources src/boot_chain.c, src/boot_payload.c, src/bootstrap_source.c, src/video_mode.c and
-- src/ui_layout.c are not modelled, nor are the fragments of the installer in src/hdl_tools and the module of the
-- I/O processor in iop/hdl_stream.
pub mod Common
pub mod Apa
pub mod ApaRepair
pub mod ApaForensic
pub mod HddBounds
pub mod HddDevice
pub mod HddRepair
pub mod ForensicRepair
pub mod Storage
pub mod Snapshots
pub mod HeaderBackup
pub mod RescueStorage
pub mod Kelf
pub mod Sha256
pub mod Capsule
pub mod RescueImage
pub mod HdlTransaction
pub mod HdlPartition
pub mod HdlName
pub mod HdlIso
pub mod HdlMetadata
pub mod BootstrapTransaction
mod Witnesses
pub mod RepairHealth
