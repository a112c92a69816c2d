-- ===== src/ApaForensic/Search/Rule.antt =====
-- What a step of the search keeps, all of it keeps: one rule for the loops, used with each invariant.
use fhdb_bootstrap_manager.Common.{
  ℕ, zero, suc, ◌+◌, ◌-◌, ◌^◌, ◌≤◌, ◌≡◌, refl, not, ◌&&◌, ◌||◌, Option, none, some, ltb, leb, ◌==◌,
  length, Bool-cases, inl, inr, arith,
}
use fhdb_bootstrap_manager.Common.Bytes.{Bytes}
use fhdb_bootstrap_manager.Common.Results.{Result, err, ok}
use fhdb_bootstrap_manager.Apa.{max_subs}
use fhdb_bootstrap_manager.ApaForensic.{
  Node, node_at, evidence_grid, evidence_referenced, scan_step,
}
use fhdb_bootstrap_manager.ApaForensic.Index.{Index, find_node}
use fhdb_bootstrap_manager.ApaForensic.Search.{
  mark_index, admit, add_candidate, follow_reference, follow_subs, count_reference,
  referenced_node_candidate, chase_node, chase_loop, read_grid, grid_loop,
}

-- The three ways in which the state changes: a mark on a node, a count, and a header read.
pub record IsKept (reader : ℕ → Result Bytes) (total : ℕ) (P : Index → Type 0) : Type 0 where
  pub marks : (index : Index) (i bits : ℕ) → P index → P (mark_index index i bits)
  pub counts :
      (index other : Index)
      → other.result.nodes ≡ index.result.nodes
      → other.by_lba ≡ index.by_lba
      → other.result.truncated ≡ index.result.truncated
      → other.result.maps ≡ index.result.maps
      → P index
      → P other
  pub admits :
      (index : Index) (lba : ℕ) (header : Bytes) (source : ℕ)
      → reader lba ≡ ok header
      → find_node index lba ≡ none
      → lba + 2 ≤ total
      → P index
      → P (admit index header lba total source)

module _ (reader : ℕ → Result Bytes) (total : ℕ) (P : Index → Type 0)
    (kept : IsKept reader total P) where
  pub add_candidate-keeps :
      (index : Index) (lba source : ℕ) → P index → P (add_candidate reader index lba total source)
  unfolding add_candidate
  add_candidate-keeps index lba source t =
      elim (Bool-cases (leb total lba || ltb (total - lba) 2)) [
        | inl out ↦ rw out t
        | inr within ↦ rw within (looked (ground (arith, within)) (find_node index lba) refl)
      ]
    where
      fetched :
          (r : Result Bytes)
          → reader lba ≡ r
          → find_node index lba ≡ none
          → lba + 2 ≤ total
          → P (elim r [
            | err code ↦ record index {
              result = record index.result { unreadable_reads = index.result.unreadable_reads + 1 };
            }
            | ok header ↦ admit index header lba total source
          ])
      fetched (err code) e n w = kept.counts index _ refl refl refl refl t
      fetched (ok header) e n w = kept.admits index lba header source e n w t

      looked :
          lba + 2 ≤ total
          → (found : Option ℕ) → find_node index lba ≡ found
          → P (elim found [
            | some existing ↦ mark_index index existing source
            | none ↦ elim (reader lba) [
              | err code ↦ record index {
                result = record index.result {
                  unreadable_reads = index.result.unreadable_reads + 1;
                };
              }
              | ok header ↦ admit index header lba total source
            ]
          ])
      looked w (some existing) e = kept.marks index existing source t
      looked w none e = fetched (reader lba) refl e w

  follow_reference-keeps :
      (index : Index) (lba : ℕ) → P index → P (follow_reference reader index lba total)
  unfolding follow_reference
  follow_reference-keeps index lba t = elim (Bool-cases (lba == 0 || leb total lba)) [
    | inl out ↦ rw out t
    | inr within ↦ rw within (looked (find_node index lba))
  ]
    where
      looked :
          (found : Option ℕ)
          → P (elim found [
            | some before ↦ mark_index index before evidence_referenced
            | none ↦ add_candidate reader (count_reference index) lba total evidence_referenced
          ])
      looked (some before) = kept.marks index before evidence_referenced t
      looked none =
          add_candidate-keeps (count_reference index) lba evidence_referenced
            (kept.counts index _ refl refl refl refl t)

  follow_subs-keeps :
      (header : Bytes) (rounds i : ℕ) (index : Index)
      → P index
      → P (follow_subs reader header total rounds i index)
  unfolding follow_subs
  follow_subs-keeps header zero i index t = t
  follow_subs-keeps header (suc rounds) i index t =
      follow_subs-keeps header rounds (i + 1) _ (follow_reference-keeps index _ t)

  pub chase_node-keeps :
      (index : Index) (node : Node) → P index → P (chase_node reader index node total)
  unfolding chase_node
  chase_node-keeps index node t =
      let linked =
        follow_reference-keeps _ node.main
          (follow_reference-keeps _ node.prev (follow_reference-keeps index node.next t)) in
      elim (Bool-cases (referenced_node_candidate node)) [
        | inr weak ↦ rw weak t
        | inl strong ↦ elim (Bool-cases (leb node.nsub max_subs && leb 60 node.confidence)) [
          | inl deep ↦ rw (strong, deep) (follow_subs-keeps node.header node.nsub 0 _ linked)
          | inr flat ↦ rw (strong, flat) linked
        ]
      ]

  pub chase_loop-keeps :
      (fuel cursor : ℕ) (index : Index) → P index → P (chase_loop reader total fuel cursor index).1
  unfolding chase_loop
  chase_loop-keeps zero cursor index t = t
  chase_loop-keeps (suc fuel) cursor index t =
      elim (Bool-cases (ltb cursor (length index.result.nodes) && not index.result.truncated)) [
        | inl more ↦
            rw (more, chase_loop)
              (chase_loop-keeps fuel (cursor + 1) _
                (chase_node-keeps index (node_at index.result.nodes cursor) t))
        | inr over ↦ rw (over, chase_loop) t
      ]

  pub read_grid-keeps : (index : Index) (lba : ℕ) → P index → P (read_grid reader index lba total)
  read_grid-keeps index lba t =
      add_candidate-keeps _ lba evidence_grid (kept.counts index _ refl refl refl refl t)

  pub grid_loop-keeps :
      (fuel lba : ℕ) (index : Index) → P index → P (grid_loop reader total fuel lba index).1
  unfolding grid_loop
  grid_loop-keeps zero lba index t = t
  grid_loop-keeps (suc fuel) lba index t =
      let read = read_grid-keeps index lba t in
      elim (Bool-cases (ltb lba total && not index.result.truncated)) [
        | inr over ↦ rw (over, grid_loop) t
        | inl more ↦ elim (Bool-cases (ltb (2 ^ 32 - 1 - lba) scan_step)) [
          | inl last ↦ rw (more, last, grid_loop) read
          | inr next ↦ rw (more, next, grid_loop) (grid_loop-keeps fuel (lba + scan_step) _ read)
        ]
      ]
