-- ===== src/ApaForensic/Orders.antt =====
-- The entries of the three candidate maps are numbers of nodes, and no map has more than it has room for.
use fhdb_bootstrap_manager.Common.{
  ℕ, zero, suc, ◌+◌, ◌-◌, ◌/◌, ◌≤◌, ◌<◌, ◌≡◌, refl, Bool, true, false, List, [], ◌∷◌, ◌++◌, Option,
  none, some, length, length-append, All, All-snoc, Bool-cases, Option-cases, subst, inl, inr,
  arith, ◌!=◌, if◌then◌else◌, ◌&&◌, ◌==◌, not,
}
use fhdb_bootstrap_manager.Common.Bytes.{Bytes, zeros}
use fhdb_bootstrap_manager.ApaForensic.{node_at, max_nodes, node_set_add, node_set_contains}
use fhdb_bootstrap_manager.ApaForensic.Index.{Index, find_node}
use fhdb_bootstrap_manager.ApaForensic.Index.Laws.{IsIndexed, find_node_exact}
use fhdb_bootstrap_manager.ApaForensic.Forward.{
  unique_link_candidate, is_fresh, forward_linked, forward_chosen, forward_step, forward_loop,
  forward_order,
}
use fhdb_bootstrap_manager.ApaForensic.Reverse.{
  reverse_indices, reverse_step, reverse_walk, reverse_order, or_unique,
}
use fhdb_bootstrap_manager.ApaForensic.Geometry.{sort_loop, sort_map_by_lba, geometry_loop}
use fhdb_bootstrap_manager.ApaForensic.Entries.{
  Every, Every-if, reverse_loop-All, sort_loop-All, link_scan-lt, geometry_loop-All,
}

module _ (index : Index) (ix : IsIndexed index.result.nodes index.by_lba) where
  abbrev IsNumber : ℕ → Type 0
  IsNumber k = k < length index.result.nodes

  find_node-lt : (lba : ℕ) → Every IsNumber (find_node index lba)
  find_node-lt lba = decided (find_node index lba) refl
    where
      decided : (found : Option ℕ) → find_node index lba ≡ found → Every IsNumber found
      decided none e = tt
      decided (some k) e = ((find_node_exact index ix lba k).0 e).0

  unique-lt :
      (excluded : Bytes) (lba : ℕ) (match_prev : Bool)
      → Every IsNumber (unique_link_candidate index excluded lba match_prev)
  unfolding unique_link_candidate
  unique-lt excluded lba match_prev =
      link_scan-lt _ excluded lba index.result.nodes 0 (length index.result.nodes) none
        (omega arith) tt

  forward_step-lt :
      (master : ℕ) (in_map : Bytes) (current : ℕ)
      → Every IsNumber (forward_step index master in_map current)
  unfolding forward_step
  forward_step-lt master in_map current =
      let node = node_at index.result.nodes current in
      let linked = forward_linked index in_map node in
      let chosen = forward_chosen index in_map node in
      let lead : Every IsNumber linked =
        Every-if IsNumber (node.next != 0) (find_node index node.next)
          (unique_link_candidate index in_map 0 true) (find_node-lt node.next)
          (unique-lt in_map 0 true) in
      let choice : Every IsNumber chosen =
        Every-if IsNumber (is_fresh in_map linked) linked
          (unique_link_candidate index in_map node.lba true) lead
          (unique-lt in_map node.lba true) in
      Every-if IsNumber (node.next == 0 && not (current == master)) none
        (if is_fresh in_map chosen then chosen else none) tt
        (Every-if IsNumber (is_fresh in_map chosen) chosen none choice tt)

  forward_loop-All :
      (master fuel : ℕ) (in_map : Bytes) (order : List ℕ) (current : ℕ)
      → All IsNumber order
      → length order + fuel ≤ max_nodes
      → All IsNumber (forward_loop index master fuel in_map order current)
        × (length (forward_loop index master fuel in_map order current) ≤ max_nodes)
  unfolding forward_loop
  forward_loop-All master zero in_map order current h f = (h, omega arith)
  forward_loop-All master (suc fuel) in_map order current h f =
      elim (Option-cases (forward_step index master in_map current)) [
        | inl stop ↦
            let short : length order ≤ max_nodes = omega arith in rw (stop, forward_loop) (h, short)
        | inr (k, e) ↦
            let number = subst (Every IsNumber) e (forward_step-lt master in_map current) in
            rw (e, forward_loop)
              (forward_loop-All master fuel (node_set_add in_map k) (order ++ k ∷ []) k
                (All-snoc IsNumber order k h number) (omega (arith, length-append order (k ∷ []))))
      ]

  pub forward_order-All :
      All IsNumber (forward_order index) × (length (forward_order index) ≤ max_nodes)
  unfolding forward_order
  forward_order-All = begun (find_node index 0) (find_node-lt 0)
    where
      begun :
          (master : Option ℕ)
          → Every IsNumber master
          → let order : List ℕ = elim master [
            | none ↦ []
            | some k ↦ forward_loop index k (max_nodes - 1) (node_set_add zeros k) (k ∷ []) k
          ] in
            All IsNumber order × (length order ≤ max_nodes)
      begun none p = (tt, omega arith)
      begun (some k) p =
          forward_loop-All k (max_nodes - 1) (node_set_add zeros k) (k ∷ []) k (p, tt) (omega arith)

  or_unique-lt :
      (seen : Bytes) (lba : ℕ) (found : Option ℕ)
      → Every IsNumber found
      → Every IsNumber (or_unique index seen lba found)
  or_unique-lt seen lba none p = unique-lt seen lba false
  or_unique-lt seen lba (some k) p = p

  reverse_step-lt : (seen : Bytes) (current : ℕ) → Every IsNumber (reverse_step index seen current)
  unfolding reverse_step
  reverse_step-lt seen current =
      let node = node_at index.result.nodes current in
      Every-if IsNumber (node.prev == 0) none _ tt
        (or_unique-lt seen node.lba (find_node index node.prev) (find_node-lt node.prev))

  reverse_walk-All :
      (fuel : ℕ) (seen : Bytes) (order : List ℕ) (current : Option ℕ)
      → All IsNumber order
      → Every IsNumber current
      → All IsNumber (reverse_walk index fuel seen order current)
        × (length (reverse_walk index fuel seen order current) ≤ length order + fuel)
  unfolding reverse_walk
  reverse_walk-All zero seen order current h p = (h, omega arith)
  reverse_walk-All (suc fuel) seen order none h p = (h, omega arith)
  reverse_walk-All (suc fuel) seen order (some k) h p =
      let marked = node_set_add seen k in
      let (all, short) =
        reverse_walk-All fuel marked (order ++ k ∷ []) (reverse_step index marked k)
          (All-snoc IsNumber order k h p) (reverse_step-lt marked k) in
      elim (Bool-cases (node_set_contains seen k)) [
        | inl again ↦
            rw (again, reverse_walk)
              (h, let e : length order ≤ length order + suc fuel = omega arith in e)
        | inr new ↦
            let bounded = short in
            rw (new, reverse_walk) (all, omega (arith, length-append order (k ∷ [])))
      ]

  some-IsNumber : (k : ℕ) → IsNumber k → IsNumber 0
  some-IsNumber k h = omega arith

  one_more : (n : ℕ) → n ≤ max_nodes - 1 → suc n ≤ max_nodes
  one_more n h = omega arith

  reverse_indices-All :
      (xs : List ℕ)
      → IsNumber 0
      → All IsNumber xs
      → length xs ≤ 0 + (max_nodes - 1)
      → All IsNumber (reverse_indices xs) × (length (reverse_indices xs) ≤ max_nodes - 1)
  unfolding reverse_indices
  reverse_indices-All xs z h short =
      let (turned, long) = reverse_loop-All IsNumber (length xs / 2) 0 xs z h in
      (turned, omega arith)

  pub reverse_order-All :
      All IsNumber (reverse_order index) × (length (reverse_order index) ≤ max_nodes)
  unfolding reverse_order
  reverse_order-All = begun (find_node index 0) (find_node-lt 0)
    where
      begun :
          (master : Option ℕ)
          → Every IsNumber master
          → let order : List ℕ = elim master [
            | none ↦ []
            | some k ↦
                let back = (node_at index.result.nodes k).prev in
                let linked = if back != 0 then find_node index back else none in
                k
                ∷ reverse_indices
                    (reverse_walk index (max_nodes - 1) zeros [] (or_unique index zeros 0 linked))
          ] in
            All IsNumber order × (length order ≤ max_nodes)
      begun none p = (tt, omega arith)
      begun (some k) p =
          let back = (node_at index.result.nodes k).prev in
          let linked =
            Every-if IsNumber (back != 0) (find_node index back) none (find_node-lt back) tt in
          let (all, short) =
            reverse_walk-All (max_nodes - 1) zeros [] _ tt (or_unique-lt zeros 0 _ linked) in
          let (turned, fits) =
            reverse_indices-All
              (reverse_walk index (max_nodes - 1) zeros []
                (or_unique index zeros 0 (if back != 0 then find_node index back else none)))
              (some-IsNumber k p) all short in
          ((p, turned), one_more _ fits)

  kept : (xs ys : List ℕ) → length xs ≡ length ys → length ys ≤ max_nodes → length xs ≤ max_nodes
  kept xs ys e h = omega arith

  pub geometry_order-All :
      let order = sort_map_by_lba index.result.nodes (geometry_loop index.result.nodes 0) in
      All IsNumber order × (length order ≤ max_nodes)
  unfolding sort_map_by_lba
  geometry_order-All =
      let nodes = index.result.nodes in
      let (all, short) = geometry_loop-All nodes 0 (length nodes) (omega arith) in
      sorted (geometry_loop nodes 0) all (omega (arith, ix.room))
    where
      sorted :
          (order : List ℕ)
          → All IsNumber order
          → length order ≤ max_nodes
          → let after = sort_loop index.result.nodes (length order - 1) 1 order in
            All IsNumber after × (length after ≤ max_nodes)
      sorted [] h s = (tt, omega arith)
      sorted (k ∷ order) (p, h) s =
          let (all, long) =
            sort_loop-All IsNumber index.result.nodes (suc (length order) - 1) 1 (k ∷ order)
              (omega arith) (p, h) in
          (all, kept _ (k ∷ order) long s)
