-- ===== src/ApaForensic/Index.antt =====
-- src/apa_forensic.c: the index of the nodes by their sectors, find_node and index_node.
pub mod Laws
pub mod Insert
use fhdb_bootstrap_manager.Common.{
  ℕ, zero, suc, ◌+◌, ◌-◌, ◌/◌, ◌%◌, ◌^◌, Bool, true, false, List, ◌∷◌, ◌++◌, Option, none, some,
  ltb, ◌==◌, if◌then◌else◌, length, get_or, take, drop,
}
use fhdb_bootstrap_manager.ApaForensic.{Node, node_at, ScanResult}

-- `forensic_index_t`; `count` is the length of `by_lba`.
pub record Index : Type 0 where
  pub result : ScanResult
  pub by_lba : List ℕ

-- `index->result->nodes[index->by_lba[position]].lba`
abbrev pub lba_at : List Node → List ℕ → ℕ → ℕ
lba_at nodes by_lba position = (node_at nodes (get_or by_lba position 0)).lba

-- The loop of `find_node` and of `index_node`, for at most `fuel` rounds.
unfoldable pub search_loop : List Node → List ℕ → ℕ → ℕ → ℕ → ℕ → ℕ
search_loop nodes by_lba lba zero low high = low
search_loop nodes by_lba lba (suc fuel) low high =
    let middle = low + (high - low) / 2 in
    let below = ltb (lba_at nodes by_lba middle) lba in
    let rest =
      search_loop nodes by_lba lba fuel (if below then middle + 1 else low)
        (if below then high else middle) in
    if ltb low high then rest else low

-- The range shrinks in every round, so that one round for each entry is enough.
unfoldable pub find_node : Index → ℕ → Option ℕ
find_node index lba =
    let nodes = index.result.nodes in
    let count = length index.by_lba in
    let low = search_loop nodes index.by_lba lba count 0 count in
    if ltb low count
    then if lba_at nodes index.by_lba low == lba then some (get_or index.by_lba low 0) else none
    else none

-- `memmove` makes room at `low` for the new entry.
unfoldable pub index_node : Index → ℕ → Index
index_node index node_index =
    let nodes = index.result.nodes in
    let count = length index.by_lba in
    let lba = (node_at nodes node_index).lba in
    let low = search_loop nodes index.by_lba lba count 0 count in
    record index { by_lba = take low index.by_lba ++ node_index % 2 ^ 16 ∷ drop low index.by_lba }
