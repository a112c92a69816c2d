-- ===== src/ApaForensic/Index/Insert.antt =====
-- A new node behind the table, put into the index at its place.
use fhdb_bootstrap_manager.Common.{
  ℕ, zero, suc, ◌+◌, ◌-◌, ◌%◌, ◌^◌, ◌≤◌, ◌<◌, ◌≡◌, ◌≢◌, refl, sym, ap, ◌∙◌, List, [], ◌∷◌, ◌++◌,
  length, get_or, take, drop, length-append, get_or-append_left, get_or-append_right, arith,
}
use native.Mathlib.Decide.{dec_lt, ℕ_discrete}
use fhdb_bootstrap_manager.ApaForensic.{Node, node_at, empty_node, max_nodes}
use fhdb_bootstrap_manager.ApaForensic.Index.{Index, lba_at, search_loop, index_node}
use fhdb_bootstrap_manager.ApaForensic.Index.Laws.{IsAscending, IsIndexed, IsSplit, search-IsSplit}

abbrev insert_at : List ℕ → ℕ → ℕ → List ℕ
insert_at xs r k = take r xs ++ k ∷ drop r xs

insert_at-length :
    (xs : List ℕ) (r k : ℕ) → r ≤ length xs → length (insert_at xs r k) ≡ length xs + 1
insert_at-length xs zero k h = omega arith
insert_at-length [] (suc r) k h = absurd (omega arith)
insert_at-length (x ∷ xs) (suc r) k h = omega (arith, insert_at-length xs r k (omega arith))

insert_at-before :
    (xs : List ℕ) (r k p : ℕ)
    → r ≤ length xs
    → p < r
    → get_or (insert_at xs r k) p 0 ≡ get_or xs p 0
insert_at-before xs zero k p h q = absurd (omega arith)
insert_at-before [] (suc r) k p h q = absurd (omega arith)
insert_at-before (x ∷ xs) (suc r) k zero h q = refl
insert_at-before (x ∷ xs) (suc r) k (suc p) h q =
    insert_at-before xs r k p (omega arith) (omega arith)

insert_at-here : (xs : List ℕ) (r k : ℕ) → r ≤ length xs → get_or (insert_at xs r k) r 0 ≡ k
insert_at-here xs zero k h = refl
insert_at-here [] (suc r) k h = absurd (omega arith)
insert_at-here (x ∷ xs) (suc r) k h = insert_at-here xs r k (omega arith)

insert_at-behind :
    (xs : List ℕ) (r k p : ℕ) → r ≤ p → get_or (insert_at xs r k) (suc p) 0 ≡ get_or xs p 0
insert_at-behind xs zero k p q = refl
insert_at-behind [] (suc r) k zero q = absurd (omega arith)
insert_at-behind [] (suc r) k (suc p) q = refl
insert_at-behind (x ∷ xs) (suc r) k zero q = absurd (omega arith)
insert_at-behind (x ∷ xs) (suc r) k (suc p) q = insert_at-behind xs r k p (omega arith)

module _ (nodes : List Node) (node : Node) where
  pub node_at-old : (i : ℕ) → i < length nodes → node_at (nodes ++ node ∷ []) i ≡ node_at nodes i
  node_at-old i h = get_or-append_left nodes (node ∷ []) i empty_node h

  pub node_at-new : node_at (nodes ++ node ∷ []) (length nodes) ≡ node
  node_at-new =
      get_or-append_right nodes (node ∷ []) (length nodes) empty_node (omega arith)
      ∙ ap (λ j. get_or (node ∷ []) j empty_node)
          (let e : length nodes - length nodes ≡ 0 = omega arith in e)

  module _ (by_lba : List ℕ) (ix : IsIndexed nodes by_lba) (room : length nodes < max_nodes)
      (fresh : (i : ℕ) → i < length nodes → (node_at nodes i).lba ≢ node.lba) (r : ℕ)
      (split : IsSplit nodes by_lba node.lba r) where
    abbrev grown : List Node
    grown = nodes ++ node ∷ []

    abbrev inserted : List ℕ
    inserted = insert_at by_lba r (length nodes)

    -- Where an entry of the new index comes from, and its sector.
    lba-before : (p : ℕ) → p < r → lba_at grown inserted p ≡ lba_at nodes by_lba p
    lba-before p h =
        ap (λ j. (node_at grown j).lba) (insert_at-before by_lba r (length nodes) p split.inside h)
        ∙ ap (λ (n : Node). n.lba)
            (node_at-old (get_or by_lba p 0) (ix.valid p (omega (arith, split.inside))))

    lba-here : lba_at grown inserted r ≡ node.lba
    lba-here =
        ap (λ j. (node_at grown j).lba) (insert_at-here by_lba r (length nodes) split.inside)
        ∙ ap (λ (n : Node). n.lba) node_at-new

    lba-behind :
        (p : ℕ) → r ≤ p → p < length by_lba → lba_at grown inserted (suc p) ≡ lba_at nodes by_lba p
    lba-behind p h e =
        ap (λ j. (node_at grown j).lba) (insert_at-behind by_lba r (length nodes) p h)
        ∙ ap (λ (n : Node). n.lba) (node_at-old (get_or by_lba p 0) (ix.valid p e))

    above-strict : (q : ℕ) → r ≤ q → q < length by_lba → node.lba < lba_at nodes by_lba q
    above-strict q h e = omega (arith, split.above q h e, fresh (get_or by_lba q 0) (ix.valid q e))

    -- The entry `q + 1` against one before it.
    ascending_behind :
        (p q : ℕ)
        → p < suc q
        → r ≤ q
        → q < length by_lba
        → lba_at grown inserted p < lba_at nodes by_lba q
    ascending_behind p q h l e = elim (dec_lt p r) [
      | yes b ↦ omega (arith, lba-before p b, split.below p b, above-strict q l e)
      | no b ↦ elim (ℕ_discrete p r) [
        | yes same ↦ omega (arith, ap (lba_at grown inserted) same, lba-here, above-strict q l e)
        | no apart ↦ later p h b apart
      ]
    ]
      where
        later :
            (p : ℕ)
            → p < suc q
            → ¬ (p < r)
            → p ≢ r
            → lba_at grown inserted p < lba_at nodes by_lba q
        later zero h b apart = absurd (omega arith)
        later (suc p) h b apart =
            omega
              (arith, lba-behind p (omega arith) (omega arith), ix.ascending p q (omega arith) e)

    inserted-IsAscending : IsAscending grown inserted
    inserted-IsAscending p zero h e = absurd (omega arith)
    inserted-IsAscending p (suc q) h e =
        let longer = insert_at-length by_lba r (length nodes) split.inside in
        elim (dec_lt (suc q) r) [
          | yes b ↦ omega (
            arith,
            lba-before p (omega arith),
            lba-before (suc q) b,
            ix.ascending p (suc q) h (omega (arith, split.inside)),
          )
          | no b ↦ elim (ℕ_discrete (suc q) r) [
            | yes same ↦ omega (
              arith,
              lba-before p (omega arith),
              ap (lba_at grown inserted) same,
              lba-here,
              split.below p (omega arith),
            )
            | no apart ↦ omega (
              arith,
              lba-behind q (omega arith) (omega arith),
              ascending_behind p q h (omega arith) (omega arith),
            )
          ]
        ]

    inserted-valid : (p : ℕ) → p < length inserted → get_or inserted p 0 < length grown
    inserted-valid p e =
        let longer = insert_at-length by_lba r (length nodes) split.inside in
        let more = length-append nodes (node ∷ []) in
        elim (dec_lt p r) [
          | yes b ↦ omega (
            arith,
            insert_at-before by_lba r (length nodes) p split.inside b,
            ix.valid p (omega (arith, split.inside)),
          )
          | no b ↦ elim (ℕ_discrete p r) [
            | yes same ↦ omega (
              arith,
              ap (λ j. get_or inserted j 0) same,
              insert_at-here by_lba r (length nodes) split.inside,
            )
            | no apart ↦ later p e b apart longer more
          ]
        ]
      where
        later :
            (p : ℕ)
            → p < length inserted
            → ¬ (p < r)
            → p ≢ r
            → length inserted ≡ length by_lba + 1
            → length grown ≡ length nodes + 1
            → get_or inserted p 0 < length grown
        later zero e b apart longer more = absurd (omega arith)
        later (suc p) e b apart longer more = omega (
          arith,
          insert_at-behind by_lba r (length nodes) p (omega arith),
          ix.valid p (omega arith),
        )

    inserted_complete :
        (k : ℕ) → k < length grown → (p : ℕ) × (p < length inserted) × (get_or inserted p 0 ≡ k)
    inserted_complete k h =
        let longer = insert_at-length by_lba r (length nodes) split.inside in
        let more = length-append nodes (node ∷ []) in
        elim (ℕ_discrete k (length nodes)) [
          | yes new ↦ (
            r,
            omega (arith, split.inside),
            insert_at-here by_lba r (length nodes) split.inside ∙ sym new,
          )
          | no old ↦
              let (p, e, at) = ix.complete k (omega arith) in
              elim (dec_lt p r) [
                | yes b ↦
                    (p, omega arith, insert_at-before by_lba r (length nodes) p split.inside b ∙ at)
                | no b ↦ (
                  suc p,
                  omega arith,
                  insert_at-behind by_lba r (length nodes) p (omega arith) ∙ at,
                )
              ]
        ]

    pub inserted-IsIndexed : IsIndexed grown inserted
    inserted-IsIndexed = record {
      sized = omega (
        arith,
        insert_at-length by_lba r (length nodes) split.inside,
        length-append nodes (node ∷ []),
        ix.sized,
      );
      room = omega (arith, length-append nodes (node ∷ []));
      ascending = inserted-IsAscending;
      valid = inserted-valid;
      complete = inserted_complete;
    }

-- The node behind the table is put into the index by `index_node`.
pub index_node-IsIndexed :
    (index : Index) (nodes : List Node) (node : Node)
    → index.result.nodes ≡ nodes ++ node ∷ []
    → IsIndexed nodes index.by_lba
    → length nodes < max_nodes
    → ((i : ℕ) → i < length nodes → (node_at nodes i).lba ≢ node.lba)
    → IsIndexed
        (index_node index (length nodes)).result.nodes
        (index_node index (length nodes)).by_lba
unfolding index_node
index_node-IsIndexed index nodes node e ix room fresh =
    let by_lba = index.by_lba in
    let grown : List Node = nodes ++ node ∷ [] in
    let same : (p : ℕ) → p < length by_lba → lba_at grown by_lba p ≡ lba_at nodes by_lba p =
      λ p h. ap (λ (n : Node). n.lba) (node_at-old nodes node (get_or by_lba p 0) (ix.valid p h)) in
    let sorted : IsAscending grown by_lba =
      λ p q h l. omega (arith, same p (omega arith), same q l, ix.ascending p q h l) in
    let s = search-IsSplit grown by_lba sorted node.lba in
    let count = length by_lba in
    let low = search_loop grown by_lba node.lba count 0 count in
    let split : IsSplit nodes by_lba node.lba low = record {
      inside = s.inside;
      below = λ p h. omega (arith, s.inside, same p (omega (arith, s.inside)), s.below p h);
      above = λ p h l. omega (arith, same p l, s.above p h l);
    } in
    let small : length nodes % 2 ^ 16 ≡ length nodes = omega arith in
    rw (e, node_at-new nodes node, small)
      (inserted-IsIndexed nodes node by_lba ix room fresh low split)
