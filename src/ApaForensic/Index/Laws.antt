-- ===== src/ApaForensic/Index/Laws.antt =====
-- The index is ascending and has every node once, and the binary search finds what a node has.
use fhdb_bootstrap_manager.Common.{
  ℕ, zero, suc, ◌+◌, ◌-◌, ◌/◌, ◌≤◌, ◌<◌, ◌≡◌, ◌↔◌, ap, ◌∙◌, List, some, lt→ltb, ge→ltb, length,
  get_or, arith,
}
use native.Mathlib.Decide.{dec_lt, ℕ_discrete}
use fhdb_bootstrap_manager.ApaForensic.{Node, node_at, max_nodes}
use fhdb_bootstrap_manager.ApaForensic.Index.{Index, lba_at, search_loop, find_node}

abbrev pub IsAscending : List Node → List ℕ → Type 0
IsAscending nodes by_lba =
    (p q : ℕ) → p < q → q < length by_lba → lba_at nodes by_lba p < lba_at nodes by_lba q

-- The index of a table of nodes.
pub record IsIndexed (nodes : List Node) (by_lba : List ℕ) : Type 0 where
  pub sized : length by_lba ≡ length nodes
  pub room : length nodes ≤ max_nodes
  pub ascending : IsAscending nodes by_lba
  pub valid : (p : ℕ) → p < length by_lba → get_or by_lba p 0 < length nodes
  pub complete :
      (k : ℕ) → k < length nodes → (p : ℕ) × (p < length by_lba) × (get_or by_lba p 0 ≡ k)

-- The place `r` divides the index at `lba`.
pub record IsSplit (nodes : List Node) (by_lba : List ℕ) (lba r : ℕ) : Type 0 where
  pub inside : r ≤ length by_lba
  pub below : (p : ℕ) → p < r → lba_at nodes by_lba p < lba
  pub above : (p : ℕ) → r ≤ p → p < length by_lba → lba ≤ lba_at nodes by_lba p

module _ (nodes : List Node) (by_lba : List ℕ) (sorted : IsAscending nodes by_lba) where
  up_to : (p q : ℕ) → p ≤ q → q < length by_lba → lba_at nodes by_lba p ≤ lba_at nodes by_lba q
  up_to p q h e = elim (ℕ_discrete p q) [
    | yes same ↦ omega (arith, ap (lba_at nodes by_lba) same)
    | no apart ↦ omega (arith, sorted p q (omega arith) e)
  ]

  search_loop-IsSplit :
      (lba fuel low high : ℕ)
      → low ≤ high
      → high ≤ length by_lba
      → high - low ≤ fuel
      → ((p : ℕ) → p < low → lba_at nodes by_lba p < lba)
      → ((p : ℕ) → high ≤ p → p < length by_lba → lba ≤ lba_at nodes by_lba p)
      → IsSplit nodes by_lba lba (search_loop nodes by_lba lba fuel low high)
  unfolding search_loop
  search_loop-IsSplit lba zero low high o e f b a = record {
    inside = omega arith;
    below = b;
    above = λ p l r. a p (omega arith) r;
  }
  search_loop-IsSplit lba (suc fuel) low high o e f b a = elim (dec_lt low high) [
    | no met ↦
        rw (ge→ltb low high (omega arith))
          (record { inside = omega arith; below = b; above = λ p l r. a p (omega arith) r })
    | yes h ↦
        let middle : ℕ = low + (high - low) / 2 in
        elim (dec_lt (lba_at nodes by_lba middle) lba) [
          | yes d ↦
              rw (lt→ltb low high h, lt→ltb (lba_at nodes by_lba middle) lba d)
                (search_loop-IsSplit lba fuel (middle + 1) high (omega arith) e (omega arith)
                  (λ p l. omega (arith, up_to p middle (omega arith) (omega arith))) a)
          | no d ↦
              rw (lt→ltb low high h, ge→ltb (lba_at nodes by_lba middle) lba (omega arith))
                (search_loop-IsSplit lba fuel low middle (omega arith) (omega arith) (omega arith) b
                  (λ p l r. omega (arith, up_to middle p l r)))
        ]
  ]

  pub search-IsSplit :
      (lba : ℕ)
      → IsSplit nodes by_lba lba (search_loop nodes by_lba lba (length by_lba) 0 (length by_lba))
  search-IsSplit lba =
      search_loop-IsSplit lba (length by_lba) 0 (length by_lba) (omega arith) (omega arith)
        (omega arith) (λ p h. absurd (omega arith)) (λ p h r. absurd (omega arith))

abbrev Holds : Index → ℕ → ℕ → Type 0
Holds index lba i = (i < length index.result.nodes) × ((node_at index.result.nodes i).lba ≡ lba)

module _ (index : Index) (ix : IsIndexed index.result.nodes index.by_lba) where
  found-Holds : (lba i : ℕ) → find_node index lba ≡ some i → Holds index lba i
  unfolding find_node
  found-Holds lba i e =
      let nodes = index.result.nodes in
      let count : ℕ = length index.by_lba in
      let low : ℕ = search_loop nodes index.by_lba lba count 0 count in
      ground (arith, e, ix.valid low)

  held_found : (lba i : ℕ) → Holds index lba i → find_node index lba ≡ some i
  unfolding find_node
  held_found lba i (small, at) =
      let nodes = index.result.nodes in
      let (p, inside, e) = ix.complete i small in
      let s = search-IsSplit nodes index.by_lba ix.ascending lba in
      let count : ℕ = length index.by_lba in
      let low : ℕ = search_loop nodes index.by_lba lba count 0 count in
      let here : lba_at nodes index.by_lba p ≡ lba = ap (λ j. (node_at nodes j).lba) e ∙ at in
      let place : low ≡ p = elim (dec_lt low p) [
        | yes h ↦ absurd (
            omega
              (arith, here, s.above low (omega arith) (omega arith), ix.ascending low p h inside))
        | no h ↦ elim (dec_lt p low) [
          | yes g ↦ absurd (omega (arith, here, s.below p g))
          | no g ↦ omega arith
        ]
      ] in
      rw place (ground (arith, here, e, inside))

  -- In an indexed table, the search returns the number `i` if and only if the node `i` has the sector
  -- asked for.
  pub find_node_exact : (lba i : ℕ) → (find_node index lba ≡ some i) ↔ Holds index lba i
  find_node_exact lba i = (found-Holds lba i, held_found lba i)
