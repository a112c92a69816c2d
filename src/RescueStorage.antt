-- ===== src/RescueStorage.antt =====
-- src/rescue_storage.c: the search for the rescue file of a disk, over the files and the validation of rescue
-- files. The save of a rescue file is in Save.
pub mod Found
pub mod Save
pub mod Writes
pub mod Saved
pub mod Captured
use fhdb_bootstrap_manager.Common.{
  ℕ, ◌+◌, ◌^◌, bit_and, Bool, true, false, not, ◌||◌, List, [], ◌∷◌, Option, none, some, leb, ◌==◌,
  if◌then◌else◌,
}
use fhdb_bootstrap_manager.Common.Ints.{ℤ, pos, negsuc, neg}
use fhdb_bootstrap_manager.Common.Results.{Result, err, ok}
use fhdb_bootstrap_manager.Common.Bytes.{Bytes, shift, codes}
use fhdb_bootstrap_manager.Apa.{header_size, headers_match_same_disk}
use fhdb_bootstrap_manager.HddBounds.{max_mbr_payload_size}
use fhdb_bootstrap_manager.Capsule.{Info, metadata_size, flag_has_payload, flag_valid_kelf}
use fhdb_bootstrap_manager.RescueImage.{validate, state_matches}
use fhdb_bootstrap_manager.Storage.{Files, storage_path, path_exists, read_bounded_file}

abbrev pub path_size : ℕ
path_size = 64

abbrev pub not_found : ℤ
not_found = neg 200

abbrev pub wrong_disk : ℤ
wrong_disk = neg 201

abbrev pub header_only : ℤ
header_only = neg 202

abbrev pub invalid_kelf : ℤ
invalid_kelf = neg 203

abbrev pub max_capsule_size : ℕ
max_capsule_size = metadata_size + header_size + max_mbr_payload_size

abbrev pub rescue_path : ℕ → ℕ → List ℕ
rescue_path storage slot =
    storage_path path_size storage
      (if slot == 0 then codes "HDDRESCUE.BIN" else codes "HDDRESCUE2.BIN")

-- A rescue file in memory.
pub record Entry : Type 0 where
  pub path : List ℕ
  pub info : Info
  pub file_size : ℕ
  pub file_data : Bytes

-- What the search has seen so far.
pub record Seen : Type 0 where
  pub saw_existing : Bool
  pub saw_invalid : Bool
  pub saw_header_only : Bool
  pub first_error : ℤ

abbrev pub seen_nothing : Seen
seen_nothing = record {
  saw_existing = false;
  saw_invalid = false;
  saw_header_only = false;
  first_error = not_found;
}

unfoldable pub same_code : ℤ → ℤ → Bool
same_code (pos a) (pos b) = a == b
same_code (pos a) (negsuc b) = false
same_code (negsuc a) (pos b) = false
same_code (negsuc a) (negsuc b) = a == b

abbrev pub note_invalid : ℤ → Seen → Seen
note_invalid code seen = record seen {
  saw_invalid = true;
  first_error =
      if same_code seen.first_error not_found || same_code seen.first_error header_only
      then code
      else seen.first_error;
}

abbrev pub note_header_only : Seen → Seen
note_header_only seen = record seen {
  saw_header_only = true;
  first_error = if same_code seen.first_error not_found then header_only else seen.first_error;
}

unfoldable pub validated : List ℕ → Result (ℕ × Bytes) → Result Entry
validated path (err code) = err code
validated path (ok (size, bytes)) = elim (validate bytes size) [
  | err code ↦ err code
  | ok info ↦ ok (record { path = path; info = info; file_size = size; file_data = bytes })
]

-- A loaded file: the entry that is returned, or what is seen.
unfoldable pub judge_file : Bytes → Seen → Result Entry → Option Entry × Seen
unfolding same_code
judge_file current seen (err code) = (none, note_invalid code seen)
judge_file current seen (ok entry) =
    if not (headers_match_same_disk current (shift entry.file_data metadata_size))
    then (none, note_invalid wrong_disk seen)
    else if bit_and entry.info.flags flag_has_payload == 0
    then (none, note_header_only seen)
    else if bit_and entry.info.flags flag_valid_kelf == 0
    then (none, note_invalid invalid_kelf seen)
    else (some entry, seen)

-- The code where no file is returned.
abbrev pub find_failure : Seen → ℤ
find_failure seen =
    if not seen.saw_existing
    then not_found
    else if seen.saw_invalid
    then seen.first_error
    else if seen.saw_header_only
    then header_only
    else seen.first_error

-- `none` is NULL.
unfoldable pub rescue_storage_payload : Entry → Option Bytes
rescue_storage_payload entry =
    if bit_and entry.info.flags flag_has_payload == 0
    then none
    else some (shift entry.file_data (metadata_size + header_size))

module _ (S : Type 0) (files : Files S) where
  unfoldable pub load_rescue_file : List ℕ → S → Result Entry × S
  unfolding validated
  load_rescue_file path s =
      let (read, after) = read_bounded_file S files path max_capsule_size s in
      (validated path read, after)

  unfoldable pub rescue_file_matches : List ℕ → Info → S → Bool × S
  rescue_file_matches path expected s =
      let (loaded, after) = load_rescue_file path s in
      elim loaded [
        | err code ↦ (false, after)
        | ok entry ↦ (state_matches entry.info expected, after)
      ]

  -- A round of the search for a slot with a file.
  unfoldable pub try_rescue : Bytes → List ℕ → Seen → S → Option Entry × Seen × S
  unfolding load_rescue_file judge_file
  try_rescue current path seen s =
      let (loaded, after) = load_rescue_file path s in
      let (entry, next) = judge_file current (record seen { saw_existing = true }) loaded in
      (entry, next, after)

  -- The loop over the slots.
  unfoldable pub find_loop : ℕ → Bytes → List ℕ → Seen → S → Result Entry × S
  unfolding path_exists try_rescue
  find_loop storage current [] seen s = (err (find_failure seen), s)
  find_loop storage current (slot ∷ slots) seen s =
      let (exists, found) = path_exists S files (rescue_path storage slot) s in
      let (entry, next, after) = try_rescue current (rescue_path storage slot) seen found in
      elim exists [
        | false ↦ find_loop storage current slots seen found
        | true ↦ elim entry [
          | some e ↦ (ok e, after)
          | none ↦ find_loop storage current slots next after
        ]
      ]

  unfoldable pub rescue_storage_find : ℕ → Bytes → S → Result Entry × S
  unfolding find_loop
  rescue_storage_find storage current s =
      if leb 3 storage
      then (err not_found, s)
      else find_loop storage current (0 ∷ 1 ∷ []) seen_nothing s
