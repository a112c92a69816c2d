-- ===== src/HdlIso/Directory/Ends.antt =====
-- The search of the directory ends for every length that a `uint32_t` can count in sectors, and runs around
-- for ever for a longer one.
use fhdb_bootstrap_manager.Common.{
  ℕ, zero, suc, ◌+◌, ◌-◌, ◌*◌, ◌/◌, ◌%◌, ◌^◌, ◌≤◌, ◌<◌, ◌≡◌, refl, true, Option, none, some, ltb,
  Bool-cases, inl, inr, lt→ltb, arith,
}
use fhdb_bootstrap_manager.Common.Bytes.{Bytes}
use fhdb_bootstrap_manager.Common.Results.{Result, err, ok}
use fhdb_bootstrap_manager.HdlIso.{
  Source, sector_size, invalid_root, system_cnf_missing, read_source,
}
use fhdb_bootstrap_manager.HdlIso.Directory.{
  Walk, next_sector, found, invalid, available_in, walk_sector, directory_loop, find_system_cnf,
}

abbrev Ended : Option (Result (ℕ × ℕ)) → Type 0
Ended result = (r : Result (ℕ × ℕ)) × (result ≡ some r)

module _ (source : Source) (directory_offset root_bytes : ℕ) where
  directory_loop-Ended :
      (fuel consumed : ℕ)
      → root_bytes ≤ 2 ^ 32 - sector_size
      → consumed < root_bytes + sector_size
      → root_bytes + sector_size ≤ consumed + fuel * sector_size
      → Ended (directory_loop source directory_offset root_bytes fuel consumed)
  unfolding directory_loop
  directory_loop-Ended zero consumed small near h = absurd (omega arith)
  directory_loop-Ended (suc fuel) consumed small near h =
      elim (Bool-cases (ltb consumed root_bytes)) [
        | inr over ↦ rw (over, directory_loop) (err system_cnf_missing, refl)
        | inl more ↦
            let below : consumed < root_bytes = ground (arith, more) in
            let flat : (consumed + sector_size) % 2 ^ 32 ≡ consumed + sector_size = omega arith in
            let rest =
              directory_loop-Ended fuel (consumed + sector_size) small (omega arith)
                (omega arith) in
            rw (more, directory_loop)
              (fetched (rw flat rest)
                (read_source source (directory_offset + consumed) sector_size))
      ]
    where
      walked :
          Ended (
            directory_loop source directory_offset root_bytes fuel
              ((consumed + sector_size) % 2 ^ 32))
          → (walk : Walk)
          → Ended (elim walk [
            | invalid ↦ some (err invalid_root)
            | found extent bytes ↦ some (ok (extent, bytes))
            | next_sector ↦
                directory_loop source directory_offset root_bytes fuel
                  ((consumed + sector_size) % 2 ^ 32)
          ])
      walked rest next_sector = rest
      walked rest (found extent bytes) = (ok (extent, bytes), refl)
      walked rest invalid = (err invalid_root, refl)

      fetched :
          Ended (
            directory_loop source directory_offset root_bytes fuel
              ((consumed + sector_size) % 2 ^ 32))
          → (read : Result Bytes)
          → Ended (elim read [
            | err code ↦ some (err code)
            | ok sector ↦ elim (walk_sector sector (available_in root_bytes consumed)) [
              | invalid ↦ some (err invalid_root)
              | found extent bytes ↦ some (ok (extent, bytes))
              | next_sector ↦
                  directory_loop source directory_offset root_bytes fuel
                    ((consumed + sector_size) % 2 ^ 32)
            ]
          ])
      fetched rest (err code) = (err code, refl)
      fetched rest (ok sector) = walked rest (walk_sector sector (available_in root_bytes consumed))

  -- Every sector of the directory, which start at the multiples of 2048 bytes in it, is read and holds neither
  -- the file nor an invalid record.
  abbrev pub IsBarren : Type 0
  IsBarren =
      (consumed : ℕ)
      → consumed < root_bytes
      → consumed % sector_size ≡ 0
      → (sector : Bytes) × (read_source source (directory_offset + consumed) sector_size
          ≡ ok sector)
        × (walk_sector sector (available_in root_bytes consumed) ≡ next_sector)

  directory_loop-none :
      (fuel consumed : ℕ)
      → 2 ^ 32 - sector_size < root_bytes
      → IsBarren
      → consumed < 2 ^ 32
      → consumed % sector_size ≡ 0
      → directory_loop source directory_offset root_bytes fuel consumed ≡ none
  unfolding directory_loop
  directory_loop-none zero consumed large barren below whole = refl
  directory_loop-none (suc fuel) consumed large barren below whole =
      let more : ltb consumed root_bytes ≡ true = lt→ltb consumed root_bytes (omega arith) in
      let (sector, read, walk) = barren consumed (omega arith) whole in
      rw (more, read, walk, directory_loop)
        (directory_loop-none fuel ((consumed + sector_size) % 2 ^ 32) large barren (omega arith)
          (omega arith))

-- The search of the root directory ends in the rounds given to it, for a directory of at most
-- 2 ^ 32 - 2048 bytes.
pub find_system_cnf-Ended :
    (source : Source) (root_extent root_bytes : ℕ)
    → root_bytes ≤ 2 ^ 32 - sector_size
    → (r : Result (ℕ × ℕ)) × (find_system_cnf source root_extent root_bytes ≡ some r)
unfolding find_system_cnf
find_system_cnf-Ended source root_extent root_bytes small =
    directory_loop-Ended source (root_extent * sector_size) root_bytes
      (root_bytes / sector_size + 2) 0 small (omega arith) (omega arith)

-- For a directory of more than 2 ^ 32 - 2048 bytes, all of whose sectors can be read and hold neither the
-- file nor an invalid record, no number of rounds ends the search, as its counter wraps to 0.
pub directory_wraps :
    (source : Source) (directory_offset root_bytes fuel : ℕ)
    → 2 ^ 32 - sector_size < root_bytes
    → IsBarren source directory_offset root_bytes
    → directory_loop source directory_offset root_bytes fuel 0 ≡ none
directory_wraps source directory_offset root_bytes fuel large barren =
    directory_loop-none source directory_offset root_bytes fuel 0 large barren (omega arith)
      (omega arith)
