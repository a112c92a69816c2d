-- ===== src/ApaForensic/Search.antt =====
-- src/apa_forensic.c: add_candidate, follow_reference, chase_references and the walk over the grid. The
-- reader is a parameter: the bytes of the two sectors from an lba on, or the negative code it returns. The
-- code that `add_candidate` returns is discarded by its callers and left out, as are the calls of `progress`.
pub mod Rule
pub mod Copied
pub mod Table
pub mod Later
pub mod Ends
use fhdb_bootstrap_manager.Common.{
  ℕ, zero, suc, ◌+◌, ◌-◌, ◌*◌, ◌^◌, bit_and, bit_or, Bool, true, false, not, ◌&&◌, ◌||◌, List, [],
  ◌∷◌, ◌++◌, Option, none, some, ltb, leb, ◌==◌, if◌then◌else◌, length,
}
use fhdb_bootstrap_manager.Common.Bytes.{Bytes, zeros, shift, memcpy, read_le16, read_le32}
use fhdb_bootstrap_manager.Common.Results.{Result, err, ok}
use fhdb_bootstrap_manager.Apa.{
  header_size, next_offset, prev_offset, id_offset, id_size, start_offset, length_offset,
  type_offset, flags_offset, nsub_offset, main_offset, number_offset, subs_offset, sub_entry_size,
  max_subs,
}
use fhdb_bootstrap_manager.ApaForensic.{
  Node, node_at, ScanResult, scan_step, max_nodes, evidence_magic, evidence_length, evidence_grid,
  evidence_referenced,
}
use fhdb_bootstrap_manager.ApaForensic.Inspect.{Inspection, inspect_header}
use fhdb_bootstrap_manager.ApaForensic.Index.{Index, find_node, index_node}

-- `result->nodes[i].evidence |= bits`
unfoldable pub mark_node : List Node → ℕ → ℕ → List Node
mark_node [] i bits = []
mark_node (node ∷ nodes) zero bits = record node { evidence = bit_or node.evidence bits } ∷ nodes
mark_node (node ∷ nodes) (suc i) bits = node ∷ mark_node nodes i bits

abbrev pub mark_index : Index → ℕ → ℕ → Index
mark_index index i bits = record index {
  result = record index.result { nodes = mark_node index.result.nodes i bits };
}

-- The node of a header read at `lba`.
abbrev pub new_node : Bytes → ℕ → Inspection → Node
new_node header lba seen = record {
  lba = lba;
  stored_checksum = read_le32 header;
  calculated_checksum = seen.checksum;
  next = read_le32 (shift header next_offset);
  prev = read_le32 (shift header prev_offset);
  start = read_le32 (shift header start_offset);
  length = read_le32 (shift header length_offset);
  main = read_le32 (shift header main_offset);
  nsub = read_le32 (shift header nsub_offset);
  number = read_le32 (shift header number_offset);
  kind = read_le16 (shift header type_offset);
  flags = read_le16 (shift header flags_offset);
  evidence = seen.evidence;
  confidence = seen.confidence;
  id = memcpy zeros 0 (shift header id_offset) id_size;
  header = memcpy zeros 0 header header_size;
}

-- `if (confidence < 30 && !(lba == 0 && confidence >= 20)) return 0;`, the other way round.
abbrev pub is_admitted : ℕ → ℕ → Bool
is_admitted lba confidence = not (ltb confidence 30 && not (lba == 0 && leb 20 confidence))

-- The part of `add_candidate` behind the reading.
unfoldable pub admit : Index → Bytes → ℕ → ℕ → ℕ → Index
unfolding inspect_header index_node
admit index header lba total_sectors source_evidence =
    let seen = inspect_header header lba total_sectors source_evidence in
    let result = index.result in
    if not (is_admitted lba seen.confidence)
    then index
    else if leb max_nodes (length result.nodes)
    then record index { result = record result { truncated = true } }
    else index_node
        (record index {
          result = record result { nodes = result.nodes ++ new_node header lba seen ∷ [] };
        })
        (length result.nodes)

unfoldable pub referenced_node_candidate : Node → Bool
referenced_node_candidate node =
    leb 50 node.confidence
    && bit_and node.evidence (bit_or evidence_magic evidence_length)
      == bit_or evidence_magic evidence_length

abbrev pub count_reference : Index → Index
count_reference index = record index {
  result = record index.result { reference_reads = index.result.reference_reads + 1 };
}

module _ (reader : ℕ → Result Bytes) where
  unfoldable pub add_candidate : Index → ℕ → ℕ → ℕ → Index
  unfolding find_node admit mark_node
  add_candidate index lba total_sectors source_evidence =
      if leb total_sectors lba || ltb (total_sectors - lba) 2
      then index
      else elim (find_node index lba) [
        | some existing ↦ mark_index index existing source_evidence
        | none ↦ elim (reader lba) [
          | err code ↦ record index {
            result = record index.result { unreadable_reads = index.result.unreadable_reads + 1 };
          }
          | ok header ↦ admit index header lba total_sectors source_evidence
        ]
      ]

  unfoldable pub follow_reference : Index → ℕ → ℕ → Index
  unfolding add_candidate
  follow_reference index lba total_sectors =
      if lba == 0 || leb total_sectors lba then index else elim (find_node index lba) [
        | some before ↦ mark_index index before evidence_referenced
        | none ↦ add_candidate (count_reference index) lba total_sectors evidence_referenced
      ]

  -- The loop over the sub-partitions, with `rounds` to go from the entry `i` on. `header` is the copy in
  -- the node, which no step of the loop changes.
  pub follow_subs : Bytes → ℕ → ℕ → ℕ → Index → Index
  unfolding follow_reference
  follow_subs header total_sectors zero i index = index
  follow_subs header total_sectors (suc rounds) i index =
      follow_subs header total_sectors rounds (i + 1) (
        follow_reference index (read_le32 (shift header (subs_offset + i * sub_entry_size)))
          total_sectors)

  -- The body of the loop of `chase_references` for one node.
  unfoldable pub chase_node : Index → Node → ℕ → Index
  unfolding follow_subs referenced_node_candidate
  chase_node index node total_sectors =
      if not (referenced_node_candidate node)
      then index
      else let linked =
          follow_reference
            (follow_reference (follow_reference index node.next total_sectors) node.prev
              total_sectors)
            node.main total_sectors in
        if leb node.nsub max_subs && leb 60 node.confidence
        then follow_subs node.header total_sectors node.nsub 0 linked
        else linked

  -- The cursor at the end, and the index.
  unfoldable pub chase_loop : ℕ → ℕ → ℕ → Index → ℕ × Index
  unfolding chase_node
  chase_loop total_sectors zero cursor index = (cursor, index)
  chase_loop total_sectors (suc fuel) cursor index =
      elim (ltb cursor (length index.result.nodes) && not index.result.truncated) [
        | true ↦
            chase_loop total_sectors fuel (cursor + 1)
              (chase_node index (node_at index.result.nodes cursor) total_sectors)
        | false ↦ (cursor, index)
      ]

  -- The table of nodes ends at `max_nodes`, so that one round for each entry is enough.
  unfoldable pub chase_references : Index → ℕ → Index
  unfolding chase_loop
  chase_references index total_sectors = (chase_loop total_sectors max_nodes 0 index).1

  abbrev pub read_grid : Index → ℕ → ℕ → Index
  read_grid index lba total_sectors =
      add_candidate
        (record index { result = record index.result { grid_reads = index.result.grid_reads + 1 } })
        lba total_sectors evidence_grid

  -- The loop of `apa_forensic_scan` over the grid, and the sector where it stops.
  unfoldable pub grid_loop : ℕ → ℕ → ℕ → Index → ℕ × Index
  unfolding add_candidate
  grid_loop total_sectors zero lba index = (lba, index)
  grid_loop total_sectors (suc fuel) lba index =
      elim (ltb lba total_sectors && not index.result.truncated) [
        | false ↦ (lba, index)
        | true ↦
            let read = read_grid index lba total_sectors in
            elim (ltb (2 ^ 32 - 1 - lba) scan_step) [
              | true ↦ (lba, read)
              | false ↦ grid_loop total_sectors fuel (lba + scan_step) read
            ]
      ]
