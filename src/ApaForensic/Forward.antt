-- ===== src/ApaForensic/Forward.antt =====
-- src/apa_forensic.c: unique_link_candidate, build_forward_map and the classification of dormant remnants.
use fhdb_bootstrap_manager.Common.{
  ℕ, zero, suc, ◌+◌, ◌-◌, ◌^◌, bit_and, bit_or, Bool, true, false, not, ◌&&◌, ◌||◌, List, [], ◌∷◌,
  ◌++◌, Option, none, some, ltb, leb, ◌==◌, ◌!=◌, if◌then◌else◌,
}
use fhdb_bootstrap_manager.Common.Bytes.{Bytes, zeros, of_list, codes, memeq}
use fhdb_bootstrap_manager.ApaForensic.{
  Node, node_at, Map, plain_map, forward, max_nodes, node_set_contains, node_set_add, ScanResult,
  evidence_magic, evidence_self_start, evidence_checksum, evidence_length, evidence_type,
  evidence_id, evidence_dormant_free,
}
use fhdb_bootstrap_manager.ApaForensic.Index.{Index, find_node}

abbrev is_found : Option ℕ → Bool
is_found (some i) = true
is_found none = false

-- The loop of `unique_link_candidate` over the nodes from number `i` on. `link` is the field compared:
-- `prev` or `next`, by `match_prev`.
unfoldable pub link_scan : (Node → ℕ) → Bytes → ℕ → List Node → ℕ → Option ℕ → Option ℕ
unfolding node_set_contains
link_scan link excluded current_lba [] i found = found
link_scan link excluded current_lba (node ∷ nodes) i found =
    let matches =
      not (node_set_contains excluded i || ltb node.confidence 55) && link node == current_lba in
    let rest =
      link_scan link excluded current_lba nodes (i + 1) (if matches then some i else found) in
    if matches && is_found found then none else rest

unfoldable pub unique_link_candidate : Index → Bytes → ℕ → Bool → Option ℕ
unfolding link_scan
unique_link_candidate index excluded current_lba match_prev =
    link_scan (λ node. if match_prev then node.prev else node.next) excluded current_lba
      index.result.nodes 0 none

abbrev pub is_fresh : Bytes → Option ℕ → Bool
is_fresh set (some i) = not (node_set_contains set i)
is_fresh set none = false

-- What the link of `node` leads to, from the master also where it is 0.
abbrev pub forward_linked : Index → Bytes → Node → Option ℕ
forward_linked index in_map node =
    if node.next != 0 then find_node index node.next else unique_link_candidate index in_map 0 true

abbrev pub forward_chosen : Index → Bytes → Node → Option ℕ
forward_chosen index in_map node =
    if is_fresh in_map (forward_linked index in_map node)
    then forward_linked index in_map node
    else unique_link_candidate index in_map node.lba true

-- The choice of the node behind `current`, with the `break`s of the loop's body as `none`.
unfoldable pub forward_step : Index → ℕ → Bytes → ℕ → Option ℕ
unfolding find_node unique_link_candidate
forward_step index master in_map current =
    let node = node_at index.result.nodes current in
    let chosen = forward_chosen index in_map node in
    if node.next == 0 && not (current == master)
    then none
    else if is_fresh in_map chosen
    then chosen
    else none

-- The loop of `build_forward_map`; `order` is the map so far, which takes one node in each round.
unfoldable pub forward_loop : Index → ℕ → ℕ → Bytes → List ℕ → ℕ → List ℕ
unfolding forward_step node_set_add
forward_loop index master zero in_map order current = order
forward_loop index master (suc fuel) in_map order current =
    elim (forward_step index master in_map current) [
      | none ↦ order
      | some next ↦
          forward_loop index master fuel (node_set_add in_map next) (order ++ next ∷ []) next
    ]

-- The map has one node before the loop, which ends at `max_nodes`.
unfoldable pub forward_order : Index → List ℕ
unfolding forward_loop
forward_order index = elim (find_node index 0) [
  | none ↦ []
  | some master ↦
      forward_loop index master (max_nodes - 1) (node_set_add zeros master) (master ∷ []) master
]

abbrev pub build_forward_map : Index → Map
build_forward_map index = plain_map forward (forward_order index)

abbrev empty_id : Bytes
empty_id = of_list (codes "__empty")

abbrev empty_evidence : ℕ
empty_evidence =
    bit_or
      (bit_or
        (bit_or (bit_or (bit_or evidence_magic evidence_self_start) evidence_checksum)
          evidence_length)
        evidence_type)
      evidence_id

-- `strcmp` compares the seven characters and the end of the text.
unfoldable pub canonical_empty_node : Node → Bool
canonical_empty_node node =
    node.kind == 0
    && node.flags == 0
    && node.length != 0
    && memeq node.id empty_id 8
    && node.stored_checksum == node.calculated_checksum
    && bit_and node.evidence empty_evidence == empty_evidence

-- `node_set_add` of every entry of an order.
pub set_of : Bytes → List ℕ → Bytes
set_of set [] = set
set_of set (i ∷ order) = set_of (node_set_add set i) order

-- One round of the inner loop, over the entries of the forward map.
abbrev pub covers : Node → Node → Bool
covers container node =
    canonical_empty_node container
    && not (leb node.start container.start)
    && leb (node.start + node.length) (container.start + container.length)

unfoldable pub is_covered : List Node → Node → List ℕ → Bool
unfolding canonical_empty_node
is_covered nodes node [] = false
is_covered nodes node (j ∷ order) =
    if covers (node_at nodes j) node then true else is_covered nodes node order

-- `evidence &= ~APA_FORENSIC_EVIDENCE_DORMANT_FREE` on a `uint32_t`.
abbrev clear_dormant : Node → Node
clear_dormant node = record node {
  evidence = bit_and node.evidence (2 ^ 32 - 1 - evidence_dormant_free);
}

unfoldable pub clear_all : List Node → List Node
clear_all [] = []
clear_all (node ∷ nodes) = clear_dormant node ∷ clear_all nodes

abbrev pub is_dormant : List Node → Bytes → List ℕ → ℕ → Node → Bool
is_dormant nodes in_forward order i node =
    not (node_set_contains in_forward i || not (canonical_empty_node node))
    && is_covered nodes node order

-- The outer loop from node `i` on: the nodes, and how many are dormant. The marks it sets are no part of
-- what it tests, so that every test reads the table as it was before the loop.
unfoldable pub dormant_loop : List Node → Bytes → List ℕ → ℕ → List Node → List Node × ℕ
unfolding node_set_contains canonical_empty_node is_covered
dormant_loop nodes in_forward order i [] = ([], 0)
dormant_loop nodes in_forward order i (node ∷ rest) =
    let (marked, count) = dormant_loop nodes in_forward order (i + 1) rest in
    if is_dormant nodes in_forward order i node
    then (record node { evidence = bit_or node.evidence evidence_dormant_free } ∷ marked, count + 1)
    else (node ∷ marked, count)

unfoldable pub classify_dormant_free_remnants : ScanResult → List ℕ → ScanResult
unfolding clear_all dormant_loop set_of
classify_dormant_free_remnants result order =
    let cleared = clear_all result.nodes in
    let (nodes, dormant) = dormant_loop cleared (set_of zeros order) order 0 cleared in
    record result { nodes = nodes; dormant_free_nodes = dormant }
