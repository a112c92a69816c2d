-- ===== src/Witnesses/Forensics.antt =====
-- A disk whose every header is the master header, and its search.
use fhdb_bootstrap_manager.Common.{
  ℕ, ◌+◌, ◌*◌, ◌^◌, ◌≤◌, ◌<◌, ◌≡◌, ◌⊎◌, ◌↔◌, refl, subst, Bool, true, false, some, zero, suc, [],
  ◌∷◌, get_or, ◌==◌, if◌then◌else◌, not, ◌&&◌, ltb, length, arith,
}
use fhdb_bootstrap_manager.Common.Bytes.{
  Bytes, IsBytes, le32_bytes, write_le32, memeq, read_le16, read_le32,
}
use fhdb_bootstrap_manager.Common.Results.{Result, err, ok}
use fhdb_bootstrap_manager.Apa.{apa_checksum, length_offset, start_offset, next_offset, prev_offset}
use fhdb_bootstrap_manager.ApaForensic.{
  ScanResult, node_at, max_nodes, scan_step, node_set_contains, node_set_add,
}
use fhdb_bootstrap_manager.ApaForensic.Inspect.{
  inspect_header, type_plausible, id_plausible, clamp_confidence,
}
use fhdb_bootstrap_manager.ApaForensic.Index.{Index, find_node, index_node, search_loop}
use fhdb_bootstrap_manager.ApaForensic.Index.Laws.{find_node_exact}
use fhdb_bootstrap_manager.ApaForensic.Search.{
  mark_node, admit, add_candidate, follow_reference, referenced_node_candidate, chase_node,
  chase_loop, chase_references, read_grid, grid_loop,
}
use fhdb_bootstrap_manager.ApaForensic.Search.Copied.{IsTable}
use fhdb_bootstrap_manager.ApaForensic.Search.Ends.{IsAdmissible}
use fhdb_bootstrap_manager.ApaForensic.Search.Later.{Has}
use fhdb_bootstrap_manager.ApaForensic.Forward.{
  forward_order, forward_loop, forward_step, unique_link_candidate, link_scan,
  classify_dormant_free_remnants, clear_all, dormant_loop, is_covered, canonical_empty_node,
}
use fhdb_bootstrap_manager.ApaForensic.Reverse.{
  reverse_order, reverse_walk, reverse_step, reverse_indices, reverse_loop, set_at,
}
use fhdb_bootstrap_manager.ApaForensic.Geometry.{
  sort_map_by_lba, sort_loop, shift_loop, geometry_loop, in_geometry,
}
use fhdb_bootstrap_manager.ApaForensic.Evaluate.{
  blank, search_disk, build_maps, scan, evaluate_map, evaluate_loop, evaluate_entry, conclude,
  count_high, count_weak, all_anchored, add_map_if_unique, is_known, orders_equal,
}
use fhdb_bootstrap_manager.ApaForensic.Complete.{
  search_disk-IsTable, search_ends, grid_header_found,
}
use fhdb_bootstrap_manager.ApaForensic.NodeSet.{IsDistinct, forward_order-IsDistinct}
use fhdb_bootstrap_manager.ApaForensic.RepairPlan.{
  RepairPlan, build_repair_plan, plan_loop, patch_for, patch_checksum_corroborated,
}
use fhdb_bootstrap_manager.ApaForensic.RepairPlan.Patched.{IsPlanned}
use fhdb_bootstrap_manager.ApaForensic.Planned.{scan_plans}
use fhdb_bootstrap_manager.Witnesses.{master, master-IsBytes, memcpy-IsBytes}

le32_bytes-IsBytes : (v : ℕ) → IsBytes (le32_bytes v)
le32_bytes-IsBytes v zero = omega arith
le32_bytes-IsBytes v (suc zero) = omega arith
le32_bytes-IsBytes v (suc (suc zero)) = omega arith
le32_bytes-IsBytes v (suc (suc (suc zero))) = omega arith
le32_bytes-IsBytes v (suc (suc (suc (suc i)))) = omega arith

write_le32-IsBytes : (dst : Bytes) (off v : ℕ) → IsBytes dst → IsBytes (write_le32 dst off v)
write_le32-IsBytes dst off v b = memcpy-IsBytes dst off (le32_bytes v) 4 b (le32_bytes-IsBytes v)

abbrev placed : ℕ → ℕ → ℕ → Bytes
placed lba next prev =
    write_le32
      (write_le32 (write_le32 (write_le32 master length_offset 0x40000) start_offset lba)
        next_offset next)
      prev_offset prev

abbrev sealed : Bytes → Bytes
sealed h = write_le32 h 0 (apa_checksum h)

-- The first header has lost its link to the second one, and its checksum still tells of it.
abbrev first : Bytes
first = write_le32 (sealed (placed 0 0x40000 0x40000)) next_offset 0

abbrev second : Bytes
second = sealed (placed 0x40000 0 0)

abbrev reader : ℕ → Result Bytes
reader lba = ok (if lba == 0 then first else second)

placed-IsBytes : (lba next prev : ℕ) → IsBytes (placed lba next prev)
placed-IsBytes lba next prev = write_le32-IsBytes _ prev_offset prev (
    write_le32-IsBytes _ next_offset next (
      write_le32-IsBytes _ start_offset lba
        (write_le32-IsBytes master length_offset 0x40000 master-IsBytes)))

header-IsBytes : (b : Bool) → IsBytes (if b then first else second)
header-IsBytes true =
    write_le32-IsBytes (sealed (placed 0 0x40000 0x40000)) next_offset 0
      (write_le32-IsBytes (placed 0 0x40000 0x40000) 0 _ (placed-IsBytes 0 0x40000 0x40000))
header-IsBytes false = write_le32-IsBytes (placed 0x40000 0 0) 0 _ (placed-IsBytes 0x40000 0 0)

reader-IsBytes : (lba : ℕ) (h : Bytes) → reader lba ≡ ok h → IsBytes h
reader-IsBytes lba h e =
    let same : (if lba == 0 then first else second) ≡ h = ground (arith, e) in
    subst IsBytes same (header-IsBytes (lba == 0))

-- Two sectors of the grid are on the disk.
abbrev total : ℕ
total = 0x80000

abbrev disk : Index
disk = search_disk reader total

disk-IsTable : IsTable reader total disk
disk-IsTable = search_disk-IsTable reader reader-IsBytes total

search_disk-IsTable_example : IsTable reader 0x80000 (search_disk reader 0x80000)
search_disk-IsTable_example = search_disk-IsTable reader reader-IsBytes 0x80000

program : Unit {0}
unfolding search_disk grid_loop chase_references chase_loop chase_node follow_reference
    referenced_node_candidate add_candidate admit mark_node find_node index_node search_loop
    inspect_header type_plausible id_plausible clamp_confidence apa_checksum memeq read_le16
    read_le32
program = tt

disk_whole : disk.result.truncated ≡ false
unfolding program
disk_whole = refl

nodes_found : length disk.result.nodes ≡ 2
unfolding program
nodes_found = refl

find_node_exact_example :
    (find_node disk 0x40000 ≡ some 1)
    ↔ ((1 < length disk.result.nodes) × ((node_at disk.result.nodes 1).lba ≡ 0x40000))
find_node_exact_example = find_node_exact disk disk-IsTable.indexed 0x40000 1

search_ends_example :
    let (lba, walk) =
      grid_loop reader total (2 ^ 14) scan_step (read_grid reader (blank total) 0 total) in
    let (cursor, after) = chase_loop reader total max_nodes 0 walk in
    (((ltb lba total && not walk.result.truncated) ≡ false) ⊎ (total ≤ lba + scan_step))
    × ((ltb cursor (length after.result.nodes) && not after.result.truncated) ≡ false)
search_ends_example = search_ends reader reader-IsBytes total (omega arith)

second-IsAdmissible : IsAdmissible reader total (1 * scan_step)
unfolding program
second-IsAdmissible = (second, refl, omega arith, refl)

grid_header_found_example : Has disk (1 * scan_step)
grid_header_found_example =
    grid_header_found reader reader-IsBytes total 1 (omega arith) second-IsAdmissible disk_whole

forward_order-IsDistinct_example :
    IsDistinct (forward_order disk)
    × ((i : ℕ)
        → i < length disk.result.nodes
        → (node_at disk.result.nodes i).lba ≡ 0
        → (1 ≤ length (forward_order disk)) × (get_or (forward_order disk) 0 0 ≡ i))
forward_order-IsDistinct_example = forward_order-IsDistinct disk disk-IsTable.indexed

abbrev result : ScanResult
result = (build_maps disk).result

scanned : scan reader total ≡ some result
unfolding scan
scanned = refl

maps_program : Unit {0}
unfolding program build_maps forward_order forward_loop forward_step unique_link_candidate link_scan
    node_set_contains node_set_add reverse_order reverse_walk reverse_step reverse_indices
    reverse_loop set_at sort_map_by_lba sort_loop shift_loop geometry_loop in_geometry
    classify_dormant_free_remnants clear_all dormant_loop is_covered canonical_empty_node
    evaluate_map evaluate_loop evaluate_entry conclude count_high count_weak all_anchored
    add_map_if_unique is_known orders_equal
maps_program = tt

forward_found : forward_order disk ≡ 0 ∷ 1 ∷ []
unfolding maps_program
forward_found = refl

one_map : length result.maps ≡ 1
unfolding maps_program
one_map = refl

scan_plans_example :
    (plan : RepairPlan) × (build_repair_plan result 0 ≡ ok plan) × IsPlanned reader result plan
scan_plans_example =
    scan_plans reader total result 0 reader-IsBytes (omega arith) scanned (omega (arith, one_map))

-- The number of patches of a plan that is safe for an automatic repair.
safe_patches : Result RepairPlan → ℕ
safe_patches (err code) = 0
safe_patches (ok plan) = if plan.automatic_safe then length plan.patches else 0

lost_link_planned : safe_patches (build_repair_plan result 0) ≡ 1
unfolding maps_program safe_patches build_repair_plan plan_loop patch_for
    patch_checksum_corroborated
lost_link_planned = refl
