-- ===== src/ApaForensic/RepairPlan.antt =====
-- src/apa_forensic.c: apa_forensic_build_repair_plan (build_repair_plan) and
-- apa_forensic_build_patched_header (build_patched_header).
pub mod Patched
use fhdb_bootstrap_manager.Common.{
  ℕ, zero, suc, ◌+◌, ◌-◌, ◌%◌, ◌^◌, Bool, true, false, not, ◌&&◌, ◌||◌, List, [], ◌∷◌, ◌++◌, leb,
  ltb, ◌==◌, ◌!=◌, if◌then◌else◌, length, get_or,
}
use fhdb_bootstrap_manager.Common.Bytes.{Bytes, write_le32}
use fhdb_bootstrap_manager.Common.Ints.{negsuc}
use fhdb_bootstrap_manager.Common.Results.{Result, err, ok}
use fhdb_bootstrap_manager.Apa.{next_offset, prev_offset, apa_checksum}
use fhdb_bootstrap_manager.ApaForensic.{
  Node, node_at, Map, plain_map, forward, ScanResult, max_patches,
}
use fhdb_bootstrap_manager.ApaForensic.Evaluate.{desired_prev, desired_next}

pub record Patch : Type 0 where
  pub node_index : ℕ
  pub lba : ℕ
  pub old_next : ℕ
  pub old_prev : ℕ
  pub new_next : ℕ
  pub new_prev : ℕ
  pub checksum_corroborated : Bool

-- `patch_count` is the length of `patches`.
pub record RepairPlan : Type 0 where
  pub map_index : ℕ
  pub corroborated_count : ℕ
  pub speculative_count : ℕ
  pub confidence : ℕ
  pub automatic_safe : Bool
  pub manual_allowed : Bool
  pub patches : List Patch

-- A patch as `memset` leaves it.
abbrev pub no_patch : Patch
no_patch = record {
  node_index = 0;
  lba = 0;
  old_next = 0;
  old_prev = 0;
  new_next = 0;
  new_prev = 0;
  checksum_corroborated = false;
}

-- The two stores that both builders make.
abbrev pub relink : Bytes → ℕ → ℕ → Bytes
relink header new_next new_prev =
    write_le32 (write_le32 header next_offset new_next) prev_offset new_prev

unfoldable pub patch_checksum_corroborated : Node → ℕ → ℕ → Bool
patch_checksum_corroborated node new_next new_prev =
    apa_checksum (relink node.header new_next new_prev) == node.stored_checksum

-- The patch of the entry `i`.
unfoldable pub patch_for : ScanResult → Map → ℕ → Patch
unfolding patch_checksum_corroborated
patch_for result map i =
    let node_index = get_or map.order i 0 in
    let node = node_at result.nodes node_index in
    let next = desired_next result.nodes map.order i in
    let prev = desired_prev result.nodes map.order i in
    record {
      node_index = node_index;
      lba = node.lba;
      old_next = node.next;
      old_prev = node.prev;
      new_next = next;
      new_prev = prev;
      checksum_corroborated = patch_checksum_corroborated node next prev;
    }

abbrev pub is_linked : ScanResult → Map → ℕ → Bool
is_linked result map i =
    let node = node_at result.nodes (get_or map.order i 0) in
    node.prev == desired_prev result.nodes map.order i
    && node.next == desired_next result.nodes map.order i

abbrev pub add_patch : RepairPlan → Patch → RepairPlan
add_patch plan patch = record plan {
  patches = plan.patches ++ patch ∷ [];
  corroborated_count =
      if patch.checksum_corroborated then plan.corroborated_count + 1 else plan.corroborated_count;
  speculative_count =
      if patch.checksum_corroborated then plan.speculative_count else plan.speculative_count + 1;
}

-- The loop over the entries, with `rounds` to go from `i` on.
unfoldable pub plan_loop : ScanResult → Map → ℕ → ℕ → RepairPlan → Result RepairPlan
unfolding patch_for
plan_loop result map zero i plan = ok plan
plan_loop result map (suc rounds) i plan = elim (is_linked result map i) [
  | true ↦ plan_loop result map rounds (i + 1) plan
  | false ↦ elim (leb max_patches (length plan.patches)) [
    | true ↦ err (negsuc 1)
    | false ↦ plan_loop result map rounds (i + 1) (add_patch plan (patch_for result map i))
  ]
]

abbrev pub map_at : ScanResult → ℕ → Map
map_at result i = get_or result.maps i (plain_map forward [])

abbrev pub no_patches : ℕ → ℕ → RepairPlan
no_patches map_index confidence = record {
  map_index = map_index;
  corroborated_count = 0;
  speculative_count = 0;
  confidence = confidence;
  automatic_safe = false;
  manual_allowed = false;
  patches = [];
}

-- The two verdicts behind the loop.
abbrev pub judge : ScanResult → Map → RepairPlan → RepairPlan
judge result map plan = record plan {
  automatic_safe =
      not result.truncated
      && leb 1 (length plan.patches)
      && plan.speculative_count == 0
      && leb 90 map.confidence;
  manual_allowed =
      not result.truncated
      && leb 1 (length plan.patches)
      && leb 90 map.confidence
      && map.conflicts == 0
      && map.overlaps == 0;
}

abbrev pub judged : ScanResult → Map → Result RepairPlan → Result RepairPlan
judged result map (err code) = err code
judged result map (ok plan) = ok (judge result map plan)

unfoldable pub build_repair_plan : ScanResult → ℕ → Result RepairPlan
unfolding plan_loop
build_repair_plan result map_index =
    let map = map_at result map_index in
    let plan = no_patches map_index map.confidence in
    if leb (length result.maps) map_index
    then err (negsuc 0)
    else if result.truncated || not map.repairable
    then ok plan
    else judged result map (plan_loop result map (length map.order) 0 plan)

unfoldable pub build_patched_header : ScanResult → Patch → Result Bytes
build_patched_header result patch =
    let node = node_at result.nodes patch.node_index in
    let linked = relink node.header patch.new_next patch.new_prev in
    if leb (length result.nodes) patch.node_index
    then err (negsuc 0)
    else if node.lba != patch.lba || node.next != patch.old_next || node.prev != patch.old_prev
    then err (negsuc 1)
    else ok (write_le32 linked 0 (apa_checksum linked))
