-- ===== src/ApaForensic/Planned.antt =====
-- A whole scan: its table, its maps, and the plans built from it.
use fhdb_bootstrap_manager.Common.{
  ℕ, zero, suc, ◌+◌, ◌<◌, ◌^◌, ◌≡◌, refl, ◌∙◌, subst, List, [], some, ltb, leb, ◌==◌, ◌||◌, length,
  All, All-snoc, All-at, Bool-cases, inl, inr, arith,
}
use fhdb_bootstrap_manager.Common.Bytes.{Bytes, IsBytes}
use fhdb_bootstrap_manager.Common.Results.{Result, ok}
use fhdb_bootstrap_manager.ApaForensic.{
  Map, plain_map, forward, ScanResult, max_maps, max_nodes, scan_step,
}
use fhdb_bootstrap_manager.ApaForensic.Inspect.{inspect_header}
use fhdb_bootstrap_manager.ApaForensic.Search.{
  is_admitted, admit, chase_references, read_grid, grid_loop,
}
use fhdb_bootstrap_manager.ApaForensic.Search.Rule.{
  IsKept, chase_loop-keeps, grid_loop-keeps, read_grid-keeps,
}
use fhdb_bootstrap_manager.ApaForensic.Index.{Index, index_node}
use fhdb_bootstrap_manager.ApaForensic.Search.Table.{IsTable-congr}
use fhdb_bootstrap_manager.ApaForensic.Search.Copied.{IsTable}
use fhdb_bootstrap_manager.ApaForensic.Forward.{build_forward_map, classify_dormant_free_remnants}
use fhdb_bootstrap_manager.ApaForensic.Reverse.{build_reverse_map}
use fhdb_bootstrap_manager.ApaForensic.Geometry.{build_geometry_map}
use fhdb_bootstrap_manager.ApaForensic.Evaluate.{
  evaluate_entry, evaluate_loop, evaluate_map, conclude, is_known, add_map_if_unique, add_evaluated,
  blank, search_disk, build_maps, scan,
}
use fhdb_bootstrap_manager.ApaForensic.Complete.{search_disk-IsTable}
use fhdb_bootstrap_manager.ApaForensic.Orders.{
  forward_order-All, reverse_order-All, geometry_order-All,
}
use fhdb_bootstrap_manager.ApaForensic.RepairPlan.{RepairPlan, build_repair_plan}
use fhdb_bootstrap_manager.ApaForensic.RepairPlan.Patched.{IsMapped, IsPlanned, plan_builds}
use fhdb_bootstrap_manager.ApaForensic.Remarked.{classified, classified-IsTable, classified-length}

evaluate_entry-order :
    (index : Index) (i : ℕ) (map : Map) → (evaluate_entry index i map).order ≡ map.order
unfolding evaluate_entry
evaluate_entry-order index i map = ground arith

evaluate_loop-order :
    (index : Index) (rounds i : ℕ) (map : Map)
    → (evaluate_loop index rounds i map).order ≡ map.order
unfolding evaluate_loop
evaluate_loop-order index zero i map = refl
evaluate_loop-order index (suc rounds) i map =
    evaluate_loop-order index rounds (i + 1) (evaluate_entry index i map)
    ∙ evaluate_entry-order index i map

-- The evaluation of a map keeps its order.
evaluate_map-order : (index : Index) (map : Map) → (evaluate_map index map).order ≡ map.order
unfolding evaluate_map conclude
evaluate_map-order index map = elim (Bool-cases (length map.order == 0)) [
  | inl empty ↦ rw empty refl
  | inr filled ↦ rw filled (evaluate_loop-order index (length map.order) 0 map)
]

-- A table whose maps have numbers of its nodes.
record IsScanned (reader : ℕ → Result Bytes) (total : ℕ) (index : Index) : Type 0 where
  table : IsTable reader total index
  mapped : All (IsMapped (length index.result.nodes)) index.result.maps

add_evaluated-IsScanned :
    (reader : ℕ → Result Bytes) (total : ℕ) (index : Index) (map : Map)
    → IsMapped (length index.result.nodes) map
    → IsScanned reader total index
    → IsScanned reader total (add_evaluated index map)
unfolding add_map_if_unique
add_evaluated-IsScanned reader total index map m s =
    let result = index.result in
    let done = evaluate_map index map in
    elim (Bool-cases (length done.order == 0 || leb max_maps (length result.maps))) [
      | inl full ↦ rw full s
      | inr room ↦ elim (Bool-cases (is_known result.maps done)) [
        | inl known ↦ rw (room, known) s
        | inr new ↦
            rw (room, new)
              (record {
                table = IsTable-congr reader total index _ refl refl s.table;
                mapped =
                    All-snoc (IsMapped (length result.nodes)) result.maps done s.mapped
                      (rw (evaluate_map-order index map) m);
              })
      ]
    ]

classified-maps :
    (index : Index) (order : List ℕ) → (classified index order).result.maps ≡ index.result.maps
unfolding classified classify_dormant_free_remnants
classified-maps index order = refl

admit-maps :
    (index : Index) (header : Bytes) (lba total source : ℕ)
    → (admit index header lba total source).result.maps ≡ index.result.maps
unfolding admit index_node
admit-maps index header lba total source =
    elim (Bool-cases (is_admitted lba (inspect_header header lba total source).confidence)) [
      | inr refused ↦ rw refused refl
      | inl admitted ↦ elim (Bool-cases (leb max_nodes (length index.result.nodes))) [
        | inl full ↦ rw (admitted, full) refl
        | inr room ↦ rw (admitted, room) refl
      ]
    ]

build_maps-IsScanned :
    (reader : ℕ → Result Bytes) (total : ℕ) (index : Index)
    → IsTable reader total index
    → index.result.maps ≡ []
    → IsScanned reader total (build_maps index)
unfolding build_maps classified
build_maps-IsScanned reader total index t none_yet =
    let candidate = build_forward_map index in
    let one = classified index candidate.order in
    let same = classified-length index candidate.order in
    let first : IsScanned reader total one = record {
      table = classified-IsTable reader total index candidate.order t;
      mapped = rw (classified-maps index candidate.order, none_yet) tt;
    } in
    let forward : IsMapped (length one.result.nodes) candidate =
      rw same (forward_order-All index t.indexed) in
    let two = add_evaluated-IsScanned reader total one candidate forward first in
    let walked = add_evaluated one candidate in
    let three =
      add_evaluated-IsScanned reader total walked (build_reverse_map walked)
        (reverse_order-All walked two.table.indexed) two in
    let reversed = add_evaluated walked (build_reverse_map walked) in
    add_evaluated-IsScanned reader total reversed (build_geometry_map reversed.result)
      (geometry_order-All reversed three.table.indexed) three

no_maps-IsKept :
    (reader : ℕ → Result Bytes) (total : ℕ) → IsKept reader total (λ index. index.result.maps ≡ [])
no_maps-IsKept reader total = record {
  marks = λ index i bits e. e;
  counts = λ index other _ _ _ m e. m ∙ e;
  admits = λ index lba header source _ _ _ e. admit-maps index header lba total source ∙ e;
}

no_maps_yet : (reader : ℕ → Result Bytes) (total : ℕ) → (search_disk reader total).result.maps ≡ []
unfolding search_disk chase_references
no_maps_yet reader total =
    let kept = no_maps-IsKept reader total in
    let none = λ (index : Index). index.result.maps ≡ [] in
    let first : Index = read_grid reader (blank total) 0 total in
    let walked : Index = (grid_loop reader total (2 ^ 14) scan_step first).1 in
    chase_loop-keeps reader total none kept max_nodes 0 walked (
      grid_loop-keeps reader total none kept (2 ^ 14) scan_step first
        (read_grid-keeps reader total none kept (blank total) 0 refl))

-- The scan of a disk by a reader that gives bytes, with less than 2 ^ 32 sectors, leaves plans for all of
-- its maps. The reader gives a header at the sector of each patch, and the patch builds one that differs from
-- it in the two links and the checksum alone over its 1024 bytes, has the links of the patch and passes the
-- checksum; where a plan is safe for an automatic repair, the checksum word too is as it was.
pub scan_plans :
    (reader : ℕ → Result Bytes) (total : ℕ) (result : ScanResult) (map_index : ℕ)
    → ((lba : ℕ) (h : Bytes) → reader lba ≡ ok h → IsBytes h)
    → total < 2 ^ 32
    → scan reader total ≡ some result
    → map_index < length result.maps
    → (plan : RepairPlan) × (build_repair_plan result map_index ≡ ok plan)
      × IsPlanned reader result plan
unfolding scan
scan_plans reader total result map_index bytes small e known = elim (Bool-cases (ltb total 2)) [
  | inl tiny ↦ absurd (ground (arith, rw tiny at e))
  | inr disk ↦
      let index = build_maps (search_disk reader total) in
      let s =
        build_maps-IsScanned reader total (search_disk reader total)
          (search_disk-IsTable reader bytes total) (no_maps_yet reader total) in
      let is : index.result ≡ result = ground (arith, rw disk at e) in
      let promised = λ (r : ScanResult).
        map_index < length r.maps
        → (plan : RepairPlan) × (build_repair_plan r map_index ≡ ok plan)
          × IsPlanned reader r plan in
      subst promised is
        (λ h. plan_builds reader total index.result map_index (omega arith) s.table.read h (
          All-at (IsMapped (length index.result.nodes)) index.result.maps map_index
            (plain_map forward []) s.mapped h))
        known
]
