-- ===== src/Snapshots.antt =====
-- src/repair_snapshot.c and src/forensic_snapshot.c: files of the bytes that a repair is about to change. The
-- status display and the error log are left out, and an allocation succeeds. The two sources have the same
-- loop over their slots, which is `save_loop` here.
pub mod Saved
pub mod Image
use fhdb_bootstrap_manager.Common.{
  ℕ, zero, ◌+◌, ◌*◌, ◌/◌, ◌%◌, ◌^◌, ◌-◌, bit_and, Bool, true, false, not, ◌&&◌, ◌||◌, List, [], ◌∷◌,
  ltb, Option, none, some, leb, ◌==◌, ◌!=◌, if◌then◌else◌, length,
}
use Prim.Native.Nat.{bit_xor}
use fhdb_bootstrap_manager.Common.Ints.{ℤ, pos, negsuc, neg, is_neg}
use fhdb_bootstrap_manager.Common.Results.{Result, err, ok}
use fhdb_bootstrap_manager.Common.Bytes.{
  Bytes, zeros, of_list, bytes_list, codes, memcpy, memeq, write_le32,
}
use fhdb_bootstrap_manager.Apa.{header_size}
use fhdb_bootstrap_manager.ApaRepair.{bit_count32}
use fhdb_bootstrap_manager.ApaForensic.{ScanResult, node_at, max_patches}
use fhdb_bootstrap_manager.ApaForensic.RepairPlan.{Patch, RepairPlan}
use fhdb_bootstrap_manager.Sha256.{sha256_buffer}
use fhdb_bootstrap_manager.Storage.{Files, is_size, storage_path, read_exact_file, write_whole_file}

-- The codes of a snapshot module.
pub record Failures : Type 0 where
  pub invalid_argument : ℤ
  pub no_slot : ℤ
  pub write_failed : ℤ
  pub verify_failed : ℤ

abbrev pub repair_failures : Failures
repair_failures = record {
  invalid_argument = neg 320;
  no_slot = neg 321;
  write_failed = neg 322;
  verify_failed = neg 323;
}

abbrev pub forensic_failures : Failures
forensic_failures = record {
  invalid_argument = neg 360;
  no_slot = neg 362;
  write_failed = neg 363;
  verify_failed = neg 364;
}

abbrev pub path_size : ℕ
path_size = 64

abbrev pub repair_names : List (List ℕ)
repair_names = codes "HDDRAW.BIN" ∷ codes "HDDRAW2.BIN" ∷ []

abbrev pub forensic_names : List (List ℕ)
forensic_names = codes "HDDMETA.BIN" ∷ codes "HDDMETA2.BIN" ∷ []

module _ (S : Type 0) (files : Files S) where
  -- The part of a round for a slot without a file.
  unfoldable pub store_slot : Failures → List ℕ → Bytes → ℕ → S → Result (List ℕ) × S
  store_slot failures path image size s =
      let (written, stored) = write_whole_file S files path image size s in
      let (verified, back, last) = read_exact_file S files path zeros size stored in
      if is_neg written
      then (err failures.write_failed, stored)
      else if is_neg verified || not (memeq back image size)
      then (err failures.verify_failed, last)
      else (ok path, last)

  -- The part of a round for a slot with a file of the size `existing_size`; `none` is `continue`.
  unfoldable pub reuse_slot : List ℕ → ℕ → Bytes → ℕ → S → Option (Result (List ℕ)) × S
  reuse_slot path existing_size image size s =
      let (read, existing, compared) = read_exact_file S files path zeros size s in
      if not (existing_size == size)
      then (none, s)
      else if is_size read 0 && memeq existing image size
      then (some (ok path), compared)
      else (none, compared)

  unfoldable pub try_slot : Failures → List ℕ → Bytes → ℕ → S → Option (Result (List ℕ)) × S
  unfolding store_slot reuse_slot
  try_slot failures path image size s =
      let (result, existing_size, found) = files.get_stat path s in
      let (outcome, stored) = store_slot failures path image size found in
      if is_neg result
      then (some outcome, stored)
      else reuse_slot path existing_size image size found

  -- The loop over the slots. A result is the path, or the code of the failure.
  unfoldable pub save_loop : Failures → ℕ → Bytes → ℕ → List (List ℕ) → S → Result (List ℕ) × S
  unfolding try_slot
  save_loop failures storage image size [] s = (err failures.no_slot, s)
  save_loop failures storage image size (name ∷ names) s =
      let (outcome, after) = try_slot failures (storage_path path_size storage name) image size s in
      elim outcome [
        | some result ↦ (result, after)
        | none ↦ save_loop failures storage image size names after
      ]

  unfoldable pub repair_snapshot_save : ℕ → Bytes → S → Result (List ℕ) × S
  unfolding save_loop
  repair_snapshot_save storage header s =
      if leb 3 storage
      then (err repair_failures.invalid_argument, s)
      else save_loop repair_failures storage header header_size repair_names s
