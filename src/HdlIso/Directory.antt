-- ===== src/HdlIso/Directory.antt =====
-- src/hdl_iso.c, `find_system_cnf`: the search of the root directory.
pub mod Ends
use fhdb_bootstrap_manager.Common.{
  ℕ, zero, suc, ◌+◌, ◌-◌, ◌*◌, ◌/◌, ◌%◌, ◌^◌, Bool, true, false, not, ◌&&◌, ◌||◌, Option, none,
  some, ltb, ◌==◌, ◌!=◌, if◌then◌else◌,
}
use fhdb_bootstrap_manager.Common.Results.{Result, err, ok}
use fhdb_bootstrap_manager.Common.Bytes.{Bytes, shift, of_list, codes, read_le32}
use fhdb_bootstrap_manager.HdlIso.{
  Source, sector_size, invalid_root, system_cnf_missing, read_be32, read_source, equal_nocase,
}

-- How the walk over the records of a sector ends: it goes on with the next sector, the file is found, or the
-- directory is invalid.
pub data Walk : Type 0 where
  next_sector : Walk
  found : ℕ → ℕ → Walk
  invalid : Walk

abbrev system_cnf_name : Bytes
system_cnf_name = of_list (codes "SYSTEM.CNF;1")

-- The extent and the length of a record with the name.
abbrev file_of : Bytes → Walk
file_of record_ =
    let extent = read_le32 (shift record_ 2) in
    let bytes = read_le32 (shift record_ 10) in
    if extent != read_be32 (shift record_ 6) || bytes != read_be32 (shift record_ 14) || bytes == 0
    then invalid
    else found extent bytes

-- The inner loop, for at most `fuel` rounds.
unfoldable pub record_loop : Bytes → ℕ → ℕ → ℕ → Walk
unfolding equal_nocase
record_loop sector available zero position = next_sector
record_loop sector available (suc fuel) position =
    let record_length = sector position in
    let record_ = shift sector position in
    let rest = record_loop sector available fuel (position + record_length) in
    if not (ltb position available) || record_length == 0
    then next_sector
    else if ltb record_length 34 || ltb available (position + record_length)
    then invalid
    else if ltb record_length (33 + record_ 32)
    then invalid
    else if record_ 32 == 12 && equal_nocase (shift record_ 33) system_cnf_name 12
    then file_of record_
    else rest

abbrev pub available_in : ℕ → ℕ → ℕ
available_in root_bytes consumed =
    if ltb sector_size (root_bytes - consumed) then sector_size else root_bytes - consumed

-- A record has at least 34 bytes, so that 61 rounds are enough for a sector.
abbrev pub walk_sector : Bytes → ℕ → Walk
walk_sector sector available = record_loop sector available 61 0

-- The outer loop; `none` where `fuel` rounds do not end it. `consumed` is a `uint32_t`.
unfoldable pub directory_loop : Source → ℕ → ℕ → ℕ → ℕ → Option (Result (ℕ × ℕ))
unfolding read_source record_loop
directory_loop source directory_offset root_bytes zero consumed = none
directory_loop source directory_offset root_bytes (suc fuel) consumed =
    elim (ltb consumed root_bytes) [
      | false ↦ some (err system_cnf_missing)
      | true ↦ elim (read_source source (directory_offset + consumed) sector_size) [
        | err code ↦ some (err code)
        | ok sector ↦ elim (walk_sector sector (available_in root_bytes consumed)) [
          | invalid ↦ some (err invalid_root)
          | found extent bytes ↦ some (ok (extent, bytes))
          | next_sector ↦
              directory_loop source directory_offset root_bytes fuel
                ((consumed + sector_size) % 2 ^ 32)
        ]
      ]
    ]

-- One round for each sector of the directory, and one for the test at its end.
unfoldable pub find_system_cnf : Source → ℕ → ℕ → Option (Result (ℕ × ℕ))
unfolding directory_loop
find_system_cnf source root_extent root_bytes =
    directory_loop source (root_extent * sector_size) root_bytes (root_bytes / sector_size + 2) 0
