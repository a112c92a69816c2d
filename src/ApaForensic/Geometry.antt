-- ===== src/ApaForensic/Geometry.antt =====
-- src/apa_forensic.c: build_geometry_map and sort_map_by_lba.
use fhdb_bootstrap_manager.Common.{
  ℕ, zero, suc, ◌+◌, ◌-◌, bit_and, bit_or, Bool, true, false, ◌&&◌, ◌||◌, List, [], ◌∷◌, leb, ltb,
  ◌==◌, ◌!=◌, if◌then◌else◌, length, get_or,
}
use fhdb_bootstrap_manager.ApaForensic.{
  Node, node_at, Map, plain_map, geometry, ScanResult, evidence_self_start, evidence_length,
  evidence_dormant_free,
}
use fhdb_bootstrap_manager.ApaForensic.Reverse.{set_at}

-- The inner loop of `sort_map_by_lba` with `j` entries before the gap, and the store behind it.
unfoldable pub shift_loop : List Node → ℕ → ℕ → List ℕ → List ℕ
unfolding set_at
shift_loop nodes value zero order = set_at order 0 value
shift_loop nodes value (suc j) order =
    elim (ltb (node_at nodes value).lba (node_at nodes (get_or order j 0)).lba) [
      | true ↦ shift_loop nodes value j (set_at order (suc j) (get_or order j 0))
      | false ↦ set_at order (suc j) value
    ]

-- The outer loop, with `rounds` to go from the entry `i` on.
unfoldable pub sort_loop : List Node → ℕ → ℕ → List ℕ → List ℕ
unfolding shift_loop
sort_loop nodes zero i order = order
sort_loop nodes (suc rounds) i order =
    sort_loop nodes rounds (i + 1) (shift_loop nodes (get_or order i 0) i order)

unfoldable pub sort_map_by_lba : List Node → List ℕ → List ℕ
unfolding sort_loop
sort_map_by_lba nodes order = sort_loop nodes (length order - 1) 1 order

abbrev geometry_evidence : ℕ
geometry_evidence = bit_or evidence_self_start evidence_length

unfoldable pub in_geometry : Node → Bool
in_geometry node =
    if bit_and node.evidence evidence_dormant_free != 0
    then false
    else node.lba == 0
      || leb 50 node.confidence && bit_and node.evidence geometry_evidence == geometry_evidence

-- The numbers of the nodes taken, from node `i` on. The table has no more nodes than a map has room for.
unfoldable pub geometry_loop : List Node → ℕ → List ℕ
unfolding in_geometry
geometry_loop [] i = []
geometry_loop (node ∷ nodes) i =
    let rest = geometry_loop nodes (i + 1) in if in_geometry node then i ∷ rest else rest

abbrev pub build_geometry_map : ScanResult → Map
build_geometry_map result =
    plain_map geometry (sort_map_by_lba result.nodes (geometry_loop result.nodes 0))
