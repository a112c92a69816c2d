-- ===== src/ApaForensic/Reverse.antt =====
-- src/apa_forensic.c: build_reverse_map.
use fhdb_bootstrap_manager.Common.{
  ℕ, zero, suc, ◌+◌, ◌-◌, ◌/◌, true, false, List, [], ◌∷◌, ◌++◌, Option, none, some, ◌==◌, ◌!=◌,
  if◌then◌else◌, length, get_or,
}
use fhdb_bootstrap_manager.Common.Bytes.{Bytes, zeros}
use fhdb_bootstrap_manager.ApaForensic.{
  node_at, Map, plain_map, reverse, max_nodes, node_set_contains, node_set_add,
}
use fhdb_bootstrap_manager.ApaForensic.Index.{Index, find_node}
use fhdb_bootstrap_manager.ApaForensic.Forward.{unique_link_candidate}

-- `values[i] = value` inside the array.
unfoldable pub set_at : List ℕ → ℕ → ℕ → List ℕ
set_at [] i value = []
set_at (x ∷ xs) zero value = value ∷ xs
set_at (x ∷ xs) (suc i) value = x ∷ set_at xs i value

-- The loop of `reverse_indices`, with `rounds` exchanges to go from `i` on.
unfoldable pub reverse_loop : ℕ → ℕ → List ℕ → List ℕ
unfolding set_at
reverse_loop zero i values = values
reverse_loop (suc rounds) i values =
    let count = length values in
    let tmp = get_or values i 0 in
    reverse_loop rounds (i + 1)
      (set_at (set_at values i (get_or values (count - 1 - i) 0)) (count - 1 - i) tmp)

unfoldable pub reverse_indices : List ℕ → List ℕ
unfolding reverse_loop
reverse_indices values = reverse_loop (length values / 2) 0 values

abbrev pub or_unique : Index → Bytes → ℕ → Option ℕ → Option ℕ
or_unique index seen lba (some i) = some i
or_unique index seen lba none = unique_link_candidate index seen lba false

-- The node that the walk goes to from `current`, which is in `seen` by then.
unfoldable pub reverse_step : Index → Bytes → ℕ → Option ℕ
unfolding find_node unique_link_candidate
reverse_step index seen current =
    let node = node_at index.result.nodes current in
    if node.prev == 0 then none else or_unique index seen node.lba (find_node index node.prev)

-- The loop of `build_reverse_map`; `reverse_order` takes one node in each round.
unfoldable pub reverse_walk : Index → ℕ → Bytes → List ℕ → Option ℕ → List ℕ
unfolding reverse_step node_set_contains node_set_add
reverse_walk index zero seen reverse_order current = reverse_order
reverse_walk index (suc fuel) seen reverse_order none = reverse_order
reverse_walk index (suc fuel) seen reverse_order (some current) =
    elim (node_set_contains seen current) [
      | true ↦ reverse_order
      | false ↦
          let marked = node_set_add seen current in
          reverse_walk index fuel marked (reverse_order ++ current ∷ [])
            (reverse_step index marked current)
    ]

-- The loop ends at `max_nodes - 1` entries.
unfoldable pub reverse_order : Index → List ℕ
unfolding find_node reverse_walk unique_link_candidate reverse_indices
reverse_order index = elim (find_node index 0) [
  | none ↦ []
  | some master ↦
      let back = (node_at index.result.nodes master).prev in
      let linked = if back != 0 then find_node index back else none in
      master
      ∷ reverse_indices
          (reverse_walk index (max_nodes - 1) zeros [] (or_unique index zeros 0 linked))
]

abbrev pub build_reverse_map : Index → Map
build_reverse_map index = plain_map reverse (reverse_order index)
