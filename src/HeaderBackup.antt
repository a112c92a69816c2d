-- ===== src/HeaderBackup.antt =====
-- src/header_backup.c: copies of the master header in files, and the search for one that can be restored.
pub mod Saved
pub mod Stored
use fhdb_bootstrap_manager.Common.{
  ℕ, ◌+◌, ◌^◌, Bool, true, false, not, ◌&&◌, ◌||◌, List, [], ◌∷◌, Option, none, some, leb, ◌==◌,
  if◌then◌else◌,
}
use fhdb_bootstrap_manager.Common.Ints.{ℤ, pos, neg, is_neg}
use fhdb_bootstrap_manager.Common.Bytes.{Bytes, shift, zeros, codes, memeq, read_le32}
use fhdb_bootstrap_manager.Apa.{
  header_size, osd_start_offset, osd_size_offset, is_standard_apa_header, headers_match_same_disk,
}
use fhdb_bootstrap_manager.Storage.{Files, is_size, storage_path, read_exact_file, write_whole_file}

abbrev pub path_size : ℕ
path_size = 64

abbrev pub not_tried : ℤ
not_tried = pos 999999

abbrev pub occupied : ℤ
occupied = pos 999998

-- The diagnostics of one slot.
pub record SlotReport : Type 0 where
  pub path : List ℕ
  pub read_result : ℤ
  pub write_result : ℤ
  pub verify_result : ℤ

abbrev pub backup_path : ℕ → ℕ → List ℕ
backup_path storage slot =
    storage_path path_size storage (if slot == 0 then codes "HDDMBR.BIN" else codes "HDDMBR2.BIN")

abbrev pub fresh_report : List ℕ → SlotReport
fresh_report path = record {
  path = path;
  read_result = not_tried;
  write_result = not_tried;
  verify_result = not_tried;
}

abbrev pub enabled_names : List (List ℕ)
enabled_names =
    codes "HDDMBR.BIN" ∷ codes "HDDMBR2.BIN" ∷ codes "FHDBMBR.BIN" ∷ codes "FHDBMBR2.BIN" ∷ []

-- A backup that can be restored, with its pointer.
pub record Enabled : Type 0 where
  pub path : List ℕ
  pub start : ℕ
  pub size : ℕ

module _ (S : Type 0) (files : Files S) where
  -- The part of a round for a slot with a file: whether its path is returned, its report and the state.
  unfoldable pub reuse_backup : Bytes → SlotReport → ℕ → S → Bool × SlotReport × S
  reuse_backup current report existing_size s =
      let (read, existing, compared) = read_exact_file S files report.path zeros header_size s in
      if not (existing_size == header_size)
      then (false, record report { write_result = occupied }, s)
      else if is_size read 0
          && is_standard_apa_header existing
          && memeq current existing header_size
      then (true, report, compared)
      else (false, record report { write_result = occupied }, compared)

  -- The part of a round for a slot without a file.
  unfoldable pub store_backup : Bytes → SlotReport → S → Bool × SlotReport × S
  store_backup current report s =
      let (written, stored) = write_whole_file S files report.path current header_size s in
      let (verified, back, last) = read_exact_file S files report.path zeros header_size stored in
      let tried = record report { write_result = written } in
      if not (is_size written 0)
      then (false, tried, stored)
      else if not (is_size verified 0)
      then (false, record tried { verify_result = verified }, last)
      else if memeq current back header_size
      then (true, record tried { verify_result = verified }, last)
      else (false, record tried { verify_result = neg 1 }, last)

  unfoldable pub try_backup : Bytes → SlotReport → S → Bool × SlotReport × S
  unfolding reuse_backup store_backup
  try_backup current report s =
      let (result, existing_size, found) = files.get_stat report.path s in
      let seen = record report { read_result = result } in
      if is_neg result
      then store_backup current seen found
      else reuse_backup current seen existing_size found

  -- The loop over the slots: the path that is returned, and the reports.
  unfoldable pub backup_loop : Bytes → List SlotReport → S → Option (List ℕ) × List SlotReport × S
  unfolding try_backup
  backup_loop current [] s = (none, [], s)
  backup_loop current (report ∷ reports) s =
      let (done, tried, after) = try_backup current report s in
      elim done [
        | true ↦ (some report.path, tried ∷ reports, after)
        | false ↦
            let (saved, others, last) = backup_loop current reports after in
            (saved, tried ∷ others, last)
      ]

  -- A storage target that there is not leaves the diagnostics alone.
  unfoldable pub header_backup_save :
      ℕ → Bytes → List SlotReport → S → Option (List ℕ) × List SlotReport × S
  unfolding backup_loop
  header_backup_save storage current diagnostics s =
      if leb 3 storage
      then (none, diagnostics, s)
      else backup_loop current
          (fresh_report (backup_path storage 0) ∷ fresh_report (backup_path storage 1) ∷ []) s

  -- The loop over the file names; `none` is -1.
  unfoldable pub enabled_loop : ℕ → Bytes → List (List ℕ) → S → Option Enabled × S
  enabled_loop storage current [] s = (none, s)
  enabled_loop storage current (name ∷ names) s =
      let path = storage_path path_size storage name in
      let (read, header, after) = read_exact_file S files path zeros header_size s in
      let start = read_le32 (shift header osd_start_offset) in
      let size = read_le32 (shift header osd_size_offset) in
      let rest = enabled_loop storage current names after in
      if is_neg read
        || not (is_standard_apa_header header)
        || not (headers_match_same_disk current header)
      then rest
      else if start == 0 || size == 0
      then rest
      else (some (record { path = path; start = start; size = size }), after)

  unfoldable pub header_backup_find_enabled : ℕ → Bytes → S → Option Enabled × S
  unfolding enabled_loop
  header_backup_find_enabled storage current s =
      if leb 3 storage then (none, s) else enabled_loop storage current enabled_names s
