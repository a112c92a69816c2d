-- ===== src/ApaForensic.antt =====
-- src/apa_forensic.c and include/apa_forensic.h: the read-only search of a disk for APA headers, the
-- candidate maps of their order, and the repair plan of a map. The child modules follow the source from
-- top to bottom. An array with a count is the list of its used part, and an index that is not found,
-- -1 in the source, is `none`.
pub mod Inspect
pub mod Index
pub mod Search
pub mod Forward
pub mod Reverse
pub mod Geometry
pub mod Evaluate
pub mod RepairPlan
pub mod Complete
pub mod Remarked
pub mod Entries
pub mod Orders
pub mod NodeSet
pub mod Planned
use fhdb_bootstrap_manager.Common.{
  ℕ, zero, suc, ◌+◌, ◌-◌, ◌*◌, ◌/◌, ◌%◌, ◌^◌, bit_and, bit_or, Bool, true, false, List, [], ◌∷◌,
  ◌!=◌, get_or,
}
use fhdb_bootstrap_manager.Common.Bytes.{Bytes, zeros, write_8}

abbrev pub scan_step : ℕ
scan_step = 0x40000

abbrev pub max_nodes : ℕ
max_nodes = 2048

abbrev pub max_maps : ℕ
max_maps = 3

abbrev pub max_patches : ℕ
max_patches = max_nodes

abbrev pub evidence_magic : ℕ
evidence_magic = 2 ^ 0

abbrev pub evidence_self_start : ℕ
evidence_self_start = 2 ^ 1

abbrev pub evidence_checksum : ℕ
evidence_checksum = 2 ^ 2

abbrev pub evidence_length : ℕ
evidence_length = 2 ^ 3

abbrev pub evidence_nsub : ℕ
evidence_nsub = 2 ^ 4

abbrev pub evidence_type : ℕ
evidence_type = 2 ^ 5

abbrev pub evidence_id : ℕ
evidence_id = 2 ^ 6

abbrev pub evidence_grid : ℕ
evidence_grid = 2 ^ 7

abbrev pub evidence_referenced : ℕ
evidence_referenced = 2 ^ 8

abbrev pub evidence_dormant_free : ℕ
evidence_dormant_free = 2 ^ 9

-- A header found; `kind` is the source's field `type`.
pub record Node : Type 0 where
  pub lba : ℕ
  pub stored_checksum : ℕ
  pub calculated_checksum : ℕ
  pub next : ℕ
  pub prev : ℕ
  pub start : ℕ
  pub length : ℕ
  pub main : ℕ
  pub nsub : ℕ
  pub number : ℕ
  pub kind : ℕ
  pub flags : ℕ
  pub evidence : ℕ
  pub confidence : ℕ
  pub id : Bytes
  pub header : Bytes

-- What `memset` leaves in an entry of the node table that is not yet used.
abbrev pub empty_node : Node
empty_node = record {
  lba = 0;
  stored_checksum = 0;
  calculated_checksum = 0;
  next = 0;
  prev = 0;
  start = 0;
  length = 0;
  main = 0;
  nsub = 0;
  number = 0;
  kind = 0;
  flags = 0;
  evidence = 0;
  confidence = 0;
  id = zeros;
  header = zeros;
}

pub data MapKind : Type 0 where
  forward reverse geometry : MapKind

pub record Map : Type 0 where
  pub kind : MapKind
  pub reciprocal_links : ℕ
  pub inferred_links : ℕ
  pub conflicts : ℕ
  pub overlaps : ℕ
  pub confidence : ℕ
  pub repairable : Bool
  pub order : List ℕ

-- A map whose fields other than the order are those that `memset` leaves.
abbrev pub plain_map : MapKind → List ℕ → Map
plain_map kind order = record {
  kind = kind;
  reciprocal_links = 0;
  inferred_links = 0;
  conflicts = 0;
  overlaps = 0;
  confidence = 0;
  repairable = false;
  order = order;
}

pub record ScanResult : Type 0 where
  pub total_sectors : ℕ
  pub grid_step : ℕ
  pub grid_reads : ℕ
  pub reference_reads : ℕ
  pub unreadable_reads : ℕ
  pub dormant_free_nodes : ℕ
  pub truncated : Bool
  pub nodes : List Node
  pub maps : List Map

-- `result->nodes[i]`
abbrev pub node_at : List Node → ℕ → Node
node_at nodes i = get_or nodes i empty_node

-- A `node_set` has one bit for each node.
unfoldable pub node_set_contains : Bytes → ℕ → Bool
node_set_contains set index = bit_and (set (index / 2 ^ 3)) (2 ^ bit_and index 7) != 0

unfoldable pub node_set_add : Bytes → ℕ → Bytes
node_set_add set index =
    write_8 set (index / 2 ^ 3) (bit_or (set (index / 2 ^ 3)) (2 ^ bit_and index 7 % 2 ^ 8))
