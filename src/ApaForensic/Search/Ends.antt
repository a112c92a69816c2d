-- ===== src/ApaForensic/Search/Ends.antt =====
-- The rounds given to the loops of the search are enough, and what the grid holds is found.
use fhdb_bootstrap_manager.Common.{
  ℕ, zero, suc, ◌+◌, ◌-◌, ◌*◌, ◌^◌, ◌≤◌, ◌<◌, ◌≡◌, ◌⊎◌, refl, sym, ap, ◌∙◌, subst, true, false, not,
  ◌&&◌, ◌||◌, [], ◌∷◌, Option, none, some, ltb, leb, length, length-append, Bool-cases, inl, inr,
  arith,
}
use fhdb_bootstrap_manager.Common.Bytes.{Bytes, IsBytes}
use fhdb_bootstrap_manager.Common.Results.{Result, err, ok}
use fhdb_bootstrap_manager.ApaForensic.{Node, node_at, max_nodes, scan_step, evidence_grid}
use fhdb_bootstrap_manager.ApaForensic.Inspect.{inspect_header}
use fhdb_bootstrap_manager.ApaForensic.Index.{Index, find_node, index_node}
use fhdb_bootstrap_manager.ApaForensic.Index.Laws.{find_node_exact}
use fhdb_bootstrap_manager.ApaForensic.Index.Insert.{node_at-new}
use fhdb_bootstrap_manager.ApaForensic.Search.{
  mark_node, mark_index, new_node, is_admitted, admit, add_candidate, chase_node, chase_loop,
  read_grid, grid_loop,
}
use fhdb_bootstrap_manager.ApaForensic.Search.Rule.{
  IsKept, chase_node-keeps, read_grid-keeps, grid_loop-keeps,
}
use fhdb_bootstrap_manager.ApaForensic.Search.Table.{IsTable-IsKept}
use fhdb_bootstrap_manager.ApaForensic.Search.Copied.{IsTable, mark_node-length, mark_node-at}
use fhdb_bootstrap_manager.ApaForensic.Search.Later.{
  Has, IsLater, mark_index-IsLater, admit-IsLater,
}

module _ (reader : ℕ → Result Bytes) (total : ℕ) where
  pub IsLater-IsKept : (before : Index) → IsKept reader total (IsLater before)
  IsLater-IsKept before = record {
    marks = mark_index-IsLater before;
    counts = λ index other n b t _ l. record {
      whole = λ e. l.whole (sym t ∙ e);
      holds = λ lba h. rw n (l.holds lba h);
    };
    admits =
        λ index lba header source e n w l. admit-IsLater before index header lba total source l;
  }

  pub same-IsLater : (index : Index) → IsLater index index
  same-IsLater index = record { whole = λ e. e; holds = λ lba h. h }

  -- A readable header at `lba` that passes for what it holds.
  abbrev pub IsAdmissible : ℕ → Type 0
  IsAdmissible lba =
      (header : Bytes) × (reader lba ≡ ok header)
      × (lba + 2 ≤ total)
      × (is_admitted lba (inspect_header header lba total evidence_grid).confidence ≡ true)

  admit-Has :
      (index : Index) (header : Bytes) (lba : ℕ)
      → is_admitted lba (inspect_header header lba total evidence_grid).confidence ≡ true
      → (admit index header lba total evidence_grid).result.truncated ≡ false
      → Has (admit index header lba total evidence_grid) lba
  unfolding admit index_node
  admit-Has index header lba a e =
      let nodes = index.result.nodes in
      let seen = inspect_header header lba total evidence_grid in
      elim (Bool-cases (leb max_nodes (length nodes))) [
        | inl full ↦ absurd (ground (arith, a, full, e))
        | inr room ↦
            rw (a, room)
              (
                length nodes,
                omega (arith, length-append nodes (new_node header lba seen ∷ [])),
                ap (λ (n : Node). n.lba) (node_at-new nodes (new_node header lba seen)),
              )
      ]

  add_candidate-Has :
      (index : Index) (lba : ℕ)
      → IsTable reader total index
      → IsAdmissible lba
      → (add_candidate reader index lba total evidence_grid).result.truncated ≡ false
      → Has (add_candidate reader index lba total evidence_grid) lba
  unfolding add_candidate
  add_candidate-Has index lba t (header, e, fits, a) =
      let out : (leb total lba || ltb (total - lba) 2) ≡ false = ground arith in
      rw out (looked (find_node index lba) refl)
    where
      looked :
          (found : Option ℕ)
          → find_node index lba ≡ found
          → let after : Index = elim found [
            | some existing ↦ mark_index index existing evidence_grid
            | none ↦ elim (reader lba) [
              | err code ↦ record index {
                result = record index.result {
                  unreadable_reads = index.result.unreadable_reads + 1;
                };
              }
              | ok header ↦ admit index header lba total evidence_grid
            ]
          ] in
            after.result.truncated ≡ false → Has after lba
      looked (some existing) f = λ u.
          let (small, at) = (find_node_exact index t.indexed lba existing).0 f in
          let nodes = index.result.nodes in
          let inside : existing < length (mark_node nodes existing evidence_grid) =
            omega (arith, mark_node-length nodes existing evidence_grid) in
          let e : (node_at (mark_node nodes existing evidence_grid) existing).lba ≡ lba =
            ap (λ (n : Node). n.lba) (mark_node-at nodes existing evidence_grid existing).1 ∙ at in
          (existing, inside, e)
      looked none f = rw e (λ u. admit-Has index header lba a u)

  pub grid_loop-ends :
      (fuel lba : ℕ) (index : Index)
      → total < 2 ^ 32
      → 2 ^ 32 ≤ lba + fuel * scan_step
      → let (last, after) = grid_loop reader total fuel lba index in
        ((ltb last total && not after.result.truncated) ≡ false) ⊎ (total ≤ last + scan_step)
  unfolding grid_loop
  grid_loop-ends zero lba index h e = inl (ground arith)
  grid_loop-ends (suc fuel) lba index h e =
      elim (Bool-cases (ltb lba total && not index.result.truncated)) [
        | inr over ↦ rw (over, grid_loop) (inl over)
        | inl more ↦ elim (Bool-cases (ltb (2 ^ 32 - 1 - lba) scan_step)) [
          | inl last ↦ rw (more, last, grid_loop) (inr (ground arith))
          | inr next ↦
              rw (more, next, grid_loop)
                (grid_loop-ends fuel (lba + scan_step) (read_grid reader index lba total) h
                  (omega arith))
        ]
      ]

  module _ (bytes : (lba : ℕ) (h : Bytes) → reader lba ≡ ok h → IsBytes h) where
    pub chase_loop-ends :
        (fuel cursor : ℕ) (index : Index)
        → IsTable reader total index
        → max_nodes ≤ cursor + fuel
        → let (last, after) = chase_loop reader total fuel cursor index in
          (ltb last (length after.result.nodes) && not after.result.truncated) ≡ false
    unfolding chase_loop
    chase_loop-ends zero cursor index t h = let room = t.indexed.room in ground arith
    chase_loop-ends (suc fuel) cursor index t h =
        elim (Bool-cases (ltb cursor (length index.result.nodes) && not index.result.truncated)) [
          | inr over ↦ rw (over, chase_loop) over
          | inl more ↦
              rw (more, chase_loop)
                (chase_loop-ends fuel (cursor + 1)
                  (chase_node reader index (node_at index.result.nodes cursor) total)
                  (chase_node-keeps reader total (IsTable reader total)
                    (IsTable-IsKept reader total bytes) index (node_at index.result.nodes cursor) t)
                  (omega arith))
        ]

    pub read_grid-Has :
        (index : Index) (lba : ℕ)
        → IsTable reader total index
        → IsAdmissible lba
        → (read_grid reader index lba total).result.truncated ≡ false
        → Has (read_grid reader index lba total) lba
    read_grid-Has index lba t a u =
        add_candidate-Has _ lba
          ((IsTable-IsKept reader total bytes).counts index _ refl refl refl refl t) a u

    -- Where the walk is not truncated at its end, it was not so in any of its rounds.
    walked_whole :
        (fuel lba : ℕ) (index : Index)
        → (grid_loop reader total fuel lba index).1.result.truncated ≡ false
        → index.result.truncated ≡ false
    walked_whole fuel lba index u =
        (grid_loop-keeps reader total (IsLater index) (IsLater-IsKept index) fuel lba index
            (same-IsLater index)).whole
          u

    walked_holds :
        (fuel lba : ℕ) (index : Index) (at : ℕ)
        → Has index at
        → Has (grid_loop reader total fuel lba index).1 at
    walked_holds fuel lba index at h =
        (grid_loop-keeps reader total (IsLater index) (IsLater-IsKept index) fuel lba index
            (same-IsLater index)).holds
          at h

    -- One round that is not the end of the walk.
    grid_loop-more :
        (fuel lba : ℕ) (index : Index)
        → lba < total
        → total < 2 ^ 32
        → index.result.truncated ≡ false
        → let read = read_grid reader index lba total in
          (grid_loop reader total (suc fuel) lba index ≡ (lba, read)) × (total ≤ lba + scan_step)
          ⊎ (grid_loop reader total (suc fuel) lba index
              ≡ grid_loop reader total fuel (lba + scan_step) read)
    unfolding grid_loop
    grid_loop-more fuel lba index h small u =
        let more : (ltb lba total && not index.result.truncated) ≡ true =
          rw u (ground (arith, h)) in
        elim (Bool-cases (ltb (2 ^ 32 - 1 - lba) scan_step)) [
          | inl last ↦ inl (rw (more, last, grid_loop) (refl, ground arith))
          | inr next ↦ inr (rw (more, next, grid_loop) refl)
        ]

    -- A header on the grid, `k` steps ahead, is found in `k` rounds and stays.
    pub grid_loop-Has :
        (k fuel lba : ℕ) (index : Index)
        → total < 2 ^ 32
        → k < fuel
        → IsTable reader total index
        → IsAdmissible (lba + k * scan_step)
        → (grid_loop reader total fuel lba index).1.result.truncated ≡ false
        → Has (grid_loop reader total fuel lba index).1 (lba + k * scan_step)
    grid_loop-Has k zero lba index small h t a u = absurd (omega arith)
    grid_loop-Has zero (suc fuel) lba index small h t a u =
        let (header, e, fits, good) = a in
        let here : lba + 0 * scan_step ≡ lba = omega arith in
        let at : IsAdmissible lba = subst IsAdmissible here a in
        elim (grid_loop-more fuel lba index (omega arith) small (walked_whole _ lba index u)) [
          | inl (stop, _) ↦ rw (here, stop) (read_grid-Has index lba t at (rw stop at u))
          | inr go ↦
              let v = rw go at u in
              rw (here, go)
                (walked_holds fuel (lba + scan_step) _ lba
                  (read_grid-Has index lba t at (walked_whole fuel (lba + scan_step) _ v)))
        ]
    grid_loop-Has (suc k) (suc fuel) lba index small h t a u =
        let (header, e, fits, good) = a in
        let further : lba + suc k * scan_step ≡ lba + scan_step + k * scan_step = omega arith in
        elim (grid_loop-more fuel lba index (omega arith) small (walked_whole _ lba index u)) [
          | inl (stop, over) ↦ absurd (omega arith)
          | inr go ↦
              rw (further, go)
                (grid_loop-Has k fuel (lba + scan_step) _ small (omega arith)
                  (read_grid-keeps reader total (IsTable reader total)
                    (IsTable-IsKept reader total bytes) index lba t)
                  (subst IsAdmissible further a) (rw go at u))
        ]
