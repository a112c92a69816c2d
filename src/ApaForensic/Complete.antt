-- ===== src/ApaForensic/Complete.antt =====
-- The search of a whole disk: its table, its end, and what it cannot miss.
use fhdb_bootstrap_manager.Common.{
  ℕ, zero, suc, ◌+◌, ◌*◌, ◌^◌, ◌≤◌, ◌<◌, ◌≡◌, ◌⊎◌, refl, false, not, ◌&&◌, ltb, length, subst,
  arith,
}
use fhdb_bootstrap_manager.Common.Bytes.{Bytes, IsBytes}
use fhdb_bootstrap_manager.Common.Results.{Result, ok}
use fhdb_bootstrap_manager.ApaForensic.{max_nodes, scan_step}
use fhdb_bootstrap_manager.ApaForensic.Index.{Index}
use fhdb_bootstrap_manager.ApaForensic.Search.{read_grid, grid_loop, chase_loop, chase_references}
use fhdb_bootstrap_manager.ApaForensic.Search.Rule.{
  read_grid-keeps, grid_loop-keeps, chase_loop-keeps,
}
use fhdb_bootstrap_manager.ApaForensic.Search.Table.{IsTable-IsKept}
use fhdb_bootstrap_manager.ApaForensic.Search.Copied.{IsTable}
use fhdb_bootstrap_manager.ApaForensic.Search.Ends.{
  IsLater-IsKept, same-IsLater, IsAdmissible, chase_loop-ends, grid_loop-ends, read_grid-Has,
  grid_loop-Has,
}
use fhdb_bootstrap_manager.ApaForensic.Search.Later.{Has, IsLater}
use fhdb_bootstrap_manager.ApaForensic.Evaluate.{blank, search_disk}

blank-IsTable : (reader : ℕ → Result Bytes) (total : ℕ) → IsTable reader total (blank total)
blank-IsTable reader total = record {
  indexed = record {
    sized = refl;
    room = omega arith;
    ascending = λ p q h l. absurd (omega arith);
    valid = λ p h. absurd (omega arith);
    complete = λ k h. absurd (omega arith);
  };
  read = λ i h. absurd (omega arith);
}

module _ (reader : ℕ → Result Bytes) (bytes : (lba : ℕ) (h : Bytes) → reader lba ≡ ok h → IsBytes h)
    (total : ℕ) where
  abbrev first : Index
  first = read_grid reader (blank total) 0 total

  abbrev walked : ℕ × Index
  walked = grid_loop reader total (2 ^ 14) scan_step first

  first-IsTable : IsTable reader total first
  first-IsTable =
      read_grid-keeps reader total (IsTable reader total) (IsTable-IsKept reader total bytes)
        (blank total) 0 (blank-IsTable reader total)

  walked-IsTable : IsTable reader total walked.1
  walked-IsTable =
      grid_loop-keeps reader total (IsTable reader total) (IsTable-IsKept reader total bytes)
        (2 ^ 14) scan_step first first-IsTable

  -- After the search of a disk, the index is ascending by sector and has every node once, so that no two
  -- nodes have the same sector, and there are at most 2048 nodes. Each node keeps the 1024 bytes that the
  -- reader gives at its sector, with the fields that these bytes hold and the checksum that they have, and
  -- its confidence was enough. This is for a reader that gives bytes.
  pub search_disk-IsTable : IsTable reader total (search_disk reader total)
  unfolding search_disk chase_references
  search_disk-IsTable =
      chase_loop-keeps reader total (IsTable reader total) (IsTable-IsKept reader total bytes)
        max_nodes 0 walked.1 walked-IsTable

  -- The rounds given to the loops of the search are enough, for a disk of less than 2 ^ 32 sectors: the walk
  -- over the grid stops at the end of the disk or where the table is full, and the chase of the references
  -- stops behind the last node or where the table is full.
  pub search_ends :
      total < 2 ^ 32
      → let (lba, walk) =
          grid_loop reader total (2 ^ 14) scan_step (read_grid reader (blank total) 0 total) in
        let (cursor, after) = chase_loop reader total max_nodes 0 walk in
        (((ltb lba total && not walk.result.truncated) ≡ false) ⊎ (total ≤ lba + scan_step))
        × ((ltb cursor (length after.result.nodes) && not after.result.truncated) ≡ false)
  search_ends small = (
    grid_loop-ends reader total (2 ^ 14) scan_step first small (omega arith),
    chase_loop-ends reader total bytes max_nodes 0 walked.1 walked-IsTable (omega arith),
  )

  chased-IsLater : IsLater walked.1 (search_disk reader total)
  unfolding search_disk chase_references
  chased-IsLater =
      chase_loop-keeps reader total (IsLater walked.1) (IsLater-IsKept reader total walked.1)
        max_nodes 0 walked.1 (same-IsLater reader total walked.1)

  first-IsLater : IsLater first walked.1
  first-IsLater =
      grid_loop-keeps reader total (IsLater first) (IsLater-IsKept reader total first) (2 ^ 14)
        scan_step first (same-IsLater reader total first)

  -- A search that is not truncated misses no header on the grid: where a sector that is a multiple of the
  -- grid's step has a readable header that its evidence admits, two sectors before the end of the disk at
  -- the latest, a node lies there.
  pub grid_header_found :
      (k : ℕ)
      → total < 2 ^ 32
      → IsAdmissible reader total (k * scan_step)
      → (search_disk reader total).result.truncated ≡ false
      → Has (search_disk reader total) (k * scan_step)
  grid_header_found zero small a u =
      let none : 0 * scan_step ≡ 0 = omega arith in
      let at : IsAdmissible reader total 0 = subst (IsAdmissible reader total) none a in
      let whole = first-IsLater.whole (chased-IsLater.whole u) in
      rw none (
        chased-IsLater.holds 0 (
          first-IsLater.holds 0 (
            read_grid-Has reader total bytes (blank total) 0 (blank-IsTable reader total) at
              whole)))
  grid_header_found (suc k) small a u =
      let (header, e, fits, good) = a in
      let further : suc k * scan_step ≡ scan_step + k * scan_step = omega arith in
      rw further (
        chased-IsLater.holds (scan_step + k * scan_step) (
          grid_loop-Has reader total bytes k (2 ^ 14) scan_step first small (omega arith)
            first-IsTable (subst (IsAdmissible reader total) further a) (chased-IsLater.whole u)))
