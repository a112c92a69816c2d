-- ===== src/ApaForensic/Evaluate.antt =====
-- src/apa_forensic.c: evaluate_map, maps_equal, add_map_if_unique and apa_forensic_scan.
use fhdb_bootstrap_manager.Common.{
  ℕ, zero, suc, ◌+◌, ◌-◌, ◌*◌, ◌^◌, bit_and, bit_or, Bool, true, false, not, ◌&&◌, ◌||◌, List, [],
  ◌∷◌, ◌++◌, Option, none, some, ltb, leb, ◌==◌, ◌!=◌, if◌then◌else◌, length, get_or,
}
use fhdb_bootstrap_manager.Common.Bytes.{Bytes}
use fhdb_bootstrap_manager.Common.Ints.{minus}
use fhdb_bootstrap_manager.Common.Results.{Result}
use fhdb_bootstrap_manager.ApaForensic.{
  Node, node_at, Map, ScanResult, scan_step, max_maps, evidence_magic, evidence_self_start,
  evidence_length, evidence_dormant_free,
}
use fhdb_bootstrap_manager.ApaForensic.Inspect.{clamp_confidence}
use fhdb_bootstrap_manager.ApaForensic.Index.{Index, find_node}
use fhdb_bootstrap_manager.ApaForensic.Search.{read_grid, grid_loop, chase_references}
use fhdb_bootstrap_manager.ApaForensic.Forward.{build_forward_map, classify_dormant_free_remnants}
use fhdb_bootstrap_manager.ApaForensic.Reverse.{build_reverse_map}
use fhdb_bootstrap_manager.ApaForensic.Geometry.{build_geometry_map}

-- `result->nodes[map->order[i]].lba`
abbrev pub order_lba : List Node → List ℕ → ℕ → ℕ
order_lba nodes order i = (node_at nodes (get_or order i 0)).lba

-- `desired_prev` and `desired_next` of the entry `i`.
abbrev pub desired_prev : List Node → List ℕ → ℕ → ℕ
desired_prev nodes order i =
    if i == 0
    then if ltb 1 (length order) then order_lba nodes order (length order - 1) else 0
    else if i == 1
    then 0
    else order_lba nodes order (i - 1)

abbrev pub desired_next : List Node → List ℕ → ℕ → ℕ
desired_next nodes order i =
    if i == 0
    then if ltb 1 (length order) then order_lba nodes order 1 else 0
    else if ltb (i + 1) (length order)
    then order_lba nodes order (i + 1)
    else 0

abbrev is_found : Option ℕ → Bool
is_found (some i) = true
is_found none = false

abbrev count_when : Bool → ℕ → ℕ
count_when test n = if test then n + 1 else n

unfoldable pub count_high : List Node → ℕ
count_high [] = 0
count_high (node ∷ nodes) =
    count_when (leb 60 node.confidence && bit_and node.evidence evidence_dormant_free == 0)
      (count_high nodes)

-- The comparison of one link with the one desired.
abbrev compare_link : Index → ℕ → ℕ → Map → Map
compare_link index link desired map =
    if link != desired
    then record map {
      inferred_links = map.inferred_links + 1;
      conflicts =
          count_when (is_found (if link != 0 then find_node index link else none)) map.conflicts;
    }
    else map

-- The comparison of an entry with the one behind it.
abbrev compare_pair : ℕ → Node → Node → Map → Map
compare_pair i node next map = record map {
  reciprocal_links =
      count_when (node.next == next.lba && next.prev == node.lba) map.reciprocal_links;
  overlaps = count_when (ltb 0 i && ltb next.start (node.start + node.length)) map.overlaps;
}

unfoldable pub evaluate_entry : Index → ℕ → Map → Map
unfolding find_node
evaluate_entry index i map =
    let nodes = index.result.nodes in
    let order = map.order in
    let node = node_at nodes (get_or order i 0) in
    let linked =
      compare_link index node.next (desired_next nodes order i)
        (compare_link index node.prev (desired_prev nodes order i) map) in
    if ltb (i + 1) (length order)
    then compare_pair i node (node_at nodes (get_or order (i + 1) 0)) linked
    else linked

-- The loop over the entries, with `rounds` to go from `i` on.
unfoldable pub evaluate_loop : Index → ℕ → ℕ → Map → Map
unfolding evaluate_entry
evaluate_loop index zero i map = map
evaluate_loop index (suc rounds) i map =
    evaluate_loop index rounds (i + 1) (evaluate_entry index i map)

unfoldable pub count_weak : List Node → List ℕ → ℕ
count_weak nodes [] = 0
count_weak nodes (i ∷ order) =
    count_when (ltb (node_at nodes i).confidence 60) (count_weak nodes order)

-- What is taken from the score of 100.
abbrev penalties : Index → Map → ℕ
penalties index map =
    let high_nodes = count_high index.result.nodes in
    let count = length map.order in
    map.conflicts * 15
    + map.overlaps * 30
    + map.inferred_links * 2
    + count_weak index.result.nodes map.order * 4
    + (if ltb count high_nodes then (high_nodes - count) * 5 else 0)
    + (if index.result.truncated then 10 else 0)

abbrev pub repair_evidence : ℕ
repair_evidence = bit_or (bit_or evidence_magic evidence_self_start) evidence_length

unfoldable pub all_anchored : List Node → List ℕ → Bool
all_anchored nodes [] = true
all_anchored nodes (i ∷ order) =
    if bit_and (node_at nodes i).evidence repair_evidence != repair_evidence
    then false
    else all_anchored nodes order

-- The part behind the loop over the entries.
unfoldable pub conclude : Index → Map → Map
unfolding clamp_confidence count_high count_weak all_anchored
conclude index map =
    let nodes = index.result.nodes in
    let confidence = clamp_confidence (minus 100 (penalties index map)) in
    record map {
      confidence = confidence;
      repairable =
          not index.result.truncated
          && leb 2 (length map.order)
          && order_lba nodes map.order 0 == 0
          && leb 85 confidence
          && map.conflicts == 0
          && map.overlaps == 0
          && all_anchored nodes map.order;
    }

unfoldable pub evaluate_map : Index → Map → Map
unfolding evaluate_loop conclude
evaluate_map index map =
    if length map.order == 0
    then record map { confidence = 0 }
    else conclude index (evaluate_loop index (length map.order) 0 map)

unfoldable pub orders_equal : List ℕ → List ℕ → Bool
orders_equal [] [] = true
orders_equal (i ∷ a) (j ∷ b) = if i != j then false else orders_equal a b
orders_equal _ _ = false

-- `maps_equal` with one of the maps known.
unfoldable pub is_known : List Map → Map → Bool
unfolding orders_equal
is_known [] candidate = false
is_known (map ∷ maps) candidate =
    if orders_equal map.order candidate.order then true else is_known maps candidate

unfoldable pub add_map_if_unique : ScanResult → Map → ScanResult
unfolding is_known
add_map_if_unique result candidate =
    if length candidate.order == 0 || leb max_maps (length result.maps)
    then result
    else if is_known result.maps candidate
    then result
    else record result { maps = result.maps ++ candidate ∷ [] }

abbrev pub add_evaluated : Index → Map → Index
add_evaluated index candidate = record index {
  result = add_map_if_unique index.result (evaluate_map index candidate);
}

abbrev pub blank : ℕ → Index
blank total_sectors = record {
  result = record {
    total_sectors = total_sectors;
    grid_step = scan_step;
    grid_reads = 0;
    reference_reads = 0;
    unreadable_reads = 0;
    dormant_free_nodes = 0;
    truncated = false;
    nodes = [];
    maps = [];
  };
  by_lba = [];
}

-- The part of `apa_forensic_scan` behind the search.
unfoldable pub build_maps : Index → Index
unfolding evaluate_map add_map_if_unique classify_dormant_free_remnants
build_maps index =
    let candidate = build_forward_map index in
    let classified = record index {
      result = classify_dormant_free_remnants index.result candidate.order;
    } in
    let walked = add_evaluated classified candidate in
    let reversed = add_evaluated walked (build_reverse_map walked) in
    add_evaluated reversed (build_geometry_map reversed.result)

-- The walk over the grid and the references. A disk of 2 ^ 32 sectors has 2 ^ 14 sectors on the grid.
unfoldable pub search_disk : (ℕ → Result Bytes) → ℕ → Index
unfolding grid_loop chase_references
search_disk reader total_sectors =
    let first = read_grid reader (blank total_sectors) 0 total_sectors in
    chase_references reader (grid_loop reader total_sectors (2 ^ 14) scan_step first).1
      total_sectors

-- `none` for a disk without the two sectors of a header.
unfoldable pub scan : (ℕ → Result Bytes) → ℕ → Option ScanResult
unfolding search_disk build_maps
scan reader total_sectors =
    if ltb total_sectors 2
    then none
    else some (build_maps (search_disk reader total_sectors)).result
