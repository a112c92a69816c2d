-- ===== src/Snapshots/Image.antt =====
-- src/forensic_snapshot.c: the file of every header that a forensic repair is about to change.
pub mod Restores
use fhdb_bootstrap_manager.Common.{
  ℕ, zero, suc, ◌+◌, ◌*◌, ◌-◌, ◌/◌, ◌^◌, bit_and, Bool, true, false, ◌||◌, List, [], ◌∷◌, ltb, leb,
  ◌==◌, ◌!=◌, if◌then◌else◌, length,
}
use Prim.Native.Nat.{bit_xor}
use fhdb_bootstrap_manager.Common.Results.{Result, err, ok}
use fhdb_bootstrap_manager.Common.Bytes.{
  Bytes, zeros, of_list, bytes_list, codes, memcpy, write_le32,
}
use fhdb_bootstrap_manager.Apa.{header_size}
use fhdb_bootstrap_manager.ApaForensic.{Node, ScanResult, node_at, max_patches}
use fhdb_bootstrap_manager.ApaForensic.RepairPlan.{Patch, RepairPlan}
use fhdb_bootstrap_manager.Sha256.{sha256_buffer}
use fhdb_bootstrap_manager.Storage.{Files}
use fhdb_bootstrap_manager.Snapshots.{forensic_failures, forensic_names, save_loop}

abbrev pub header_bytes : ℕ
header_bytes = 64

abbrev pub entry_bytes : ℕ
entry_bytes = 4 + 32 + header_size

abbrev pub trailer_bytes : ℕ
trailer_bytes = 32

-- Each round makes the value smaller, so that as many rounds as the value are enough.
unfoldable pub clear_loop : ℕ → ℕ → ℕ → ℕ
clear_loop zero value count = count
clear_loop (suc fuel) value count = elim (value == 0) [
  | true ↦ count
  | false ↦ clear_loop fuel (bit_and value (value - 1)) (count + 1)
]

unfoldable pub patch_bit_distance : Patch → ℕ
unfolding clear_loop
patch_bit_distance patch =
    let next = bit_xor patch.old_next patch.new_next in
    let prev = bit_xor patch.old_prev patch.new_prev in
    clear_loop prev prev (clear_loop next next 0)

unfoldable pub one_or_two_bit_count : List Patch → ℕ
unfolding patch_bit_distance
one_or_two_bit_count [] = 0
one_or_two_bit_count (patch ∷ patches) =
    let distance = patch_bit_distance patch in
    let rest = one_or_two_bit_count patches in
    if distance == 1 || distance == 2 then rest + 1 else rest

abbrev pub digest : Bytes → ℕ → Bytes
digest bytes size = of_list (sha256_buffer (bytes_list bytes size))

abbrev pub put_header : ScanResult → RepairPlan → Bytes
put_header result plan =
    let magic = memcpy zeros 0 (of_list (codes "APAMETA1")) 8 in
    let version = write_le32 magic 8 1 in
    let total = write_le32 version 12 result.total_sectors in
    let map = write_le32 total 16 plan.map_index in
    let confidence = write_le32 map 20 plan.confidence in
    let count = write_le32 confidence 24 (length plan.patches) in
    let corroborated = write_le32 count 28 plan.corroborated_count in
    let speculative = write_le32 corroborated 32 plan.speculative_count in
    write_le32 speculative 36 (one_or_two_bit_count plan.patches)

abbrev pub put_entry : Bytes → ℕ → Patch → Node → Bytes
put_entry image offset patch node =
    memcpy
      (memcpy (write_le32 image offset patch.lba) (offset + 4) (digest node.header header_size) 32)
      (offset + 36) node.header header_size

unfoldable pub put_entries : ScanResult → List Patch → ℕ → Bytes → Result Bytes
put_entries result [] offset image = ok image
put_entries result (patch ∷ patches) offset image =
    let node = node_at result.nodes patch.node_index in
    let rest =
      put_entries result patches (offset + entry_bytes) (put_entry image offset patch node) in
    if leb (length result.nodes) patch.node_index
    then err forensic_failures.invalid_argument
    else if node.lba != patch.lba
    then err forensic_failures.invalid_argument
    else rest

abbrev pub size_for : ℕ → ℕ
size_for count = header_bytes + count * entry_bytes + trailer_bytes

unfoldable pub seal : ℕ → Result Bytes → Result (ℕ × Bytes)
seal size (err code) = err code
seal size (ok image) =
    ok (
      size,
      memcpy image (size - trailer_bytes) (digest image (size - trailer_bytes)) trailer_bytes,
    )

-- The result is the size of the image and its bytes.
unfoldable pub build_snapshot_image : ScanResult → RepairPlan → Result (ℕ × Bytes)
unfolding one_or_two_bit_count put_entries seal
build_snapshot_image result plan =
    let count = length plan.patches in
    if count == 0 || ltb max_patches count
    then err forensic_failures.invalid_argument
    else if ltb ((2 ^ 32 - 1 - header_bytes - trailer_bytes) / entry_bytes) count
    then err forensic_failures.invalid_argument
    else seal (size_for count)
        (put_entries result plan.patches header_bytes (put_header result plan))

module _ (S : Type 0) (files : Files S) where
  unfoldable pub save_image : ℕ → Result (ℕ × Bytes) → S → Result (List ℕ) × S
  save_image storage (err code) s = (err code, s)
  save_image storage (ok (size, image)) s =
      save_loop S files forensic_failures storage image size forensic_names s

  unfoldable pub forensic_snapshot_save : ℕ → ScanResult → RepairPlan → S → Result (List ℕ) × S
  unfolding save_image build_snapshot_image
  forensic_snapshot_save storage result plan s =
      if leb 3 storage
      then (err forensic_failures.invalid_argument, s)
      else save_image storage (build_snapshot_image result plan) s
