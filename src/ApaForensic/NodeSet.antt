-- ===== src/ApaForensic/NodeSet.antt =====
-- A node set has what is added to it, and the forward map has every node at most once.
use fhdb_bootstrap_manager.Common.{
  ℕ, zero, suc, ◌-◌, ◌/◌, ◌%◌, ◌^◌, ◌≤◌, ◌<◌, bit_and, bit_or, ◌≡◌, ◌≢◌, refl, sym, ap, ◌∙◌, true,
  false, not, ◌&&◌, List, [], ◌∷◌, ◌++◌, Option, none, some, Option-cases, inl, inr, leb, ltb, ◌==◌,
  if◌then◌else◌, length, get_or, length-append, get_or-append_left, get_or-append_right, All,
  All-snoc, All-map, All-at, arith,
}
use native.Mathlib.Decide.{dec_lt, ℕ_discrete}
use fhdb_bootstrap_manager.Common.Bits.{every, every_passes}
use fhdb_bootstrap_manager.Common.Bytes.{Bytes, IsBytes, zeros}
use fhdb_bootstrap_manager.Common.Masks.{bit_and_7, bit_kept, bit_set, bit_or-lt}
use fhdb_bootstrap_manager.ApaForensic.{max_nodes, node_set_contains, node_set_add, node_at}
use fhdb_bootstrap_manager.ApaForensic.Index.{Index, find_node}
use fhdb_bootstrap_manager.ApaForensic.Index.Laws.{IsIndexed, find_node_exact}
use fhdb_bootstrap_manager.ApaForensic.Forward.{
  is_fresh, forward_chosen, forward_step, forward_loop, forward_order,
}

shift_bounds : (k : ℕ) → k < 8 → (1 ≤ 2 ^ k) × (2 ^ k < 2 ^ 8)
unfolding every
shift_bounds k h =
    let test = every_passes (λ j. leb 1 (2 ^ j) && ltb (2 ^ j) (2 ^ 8)) 8 k h refl in
    ground (arith, test)

index_bit : (i : ℕ) → (1 ≤ 2 ^ bit_and i 7) × (2 ^ bit_and i 7 < 2 ^ 8)
index_bit i = shift_bounds (bit_and i 7) (omega (arith, bit_and_7 i))

-- The byte that an addition stores.
byte_added : (b p : ℕ) → b < 256 → p < 2 ^ 8 → bit_or b (p % 2 ^ 8) % 2 ^ 8 ≡ bit_or b p
byte_added b p h q =
    let small : p % 2 ^ 8 ≡ p = omega arith in rw small (omega (arith, bit_or-lt 8 b p h q))

node_set_add-IsBytes : (set : Bytes) (i : ℕ) → IsBytes set → IsBytes (node_set_add set i)
unfolding node_set_add
node_set_add-IsBytes set i b j = ground (arith, b j)

contains_added :
    (set : Bytes) (i : ℕ) → IsBytes set → node_set_contains (node_set_add set i) i ≡ true
unfolding node_set_add node_set_contains
contains_added set i b =
    let p = 2 ^ bit_and i 7 in
    let (some_bit, small) = index_bit i in
    let stored = byte_added (set (i / 2 ^ 3)) p (b (i / 2 ^ 3)) small in
    ground (arith, stored, bit_set (set (i / 2 ^ 3)) p)

contains_kept :
    (set : Bytes) (i j : ℕ)
    → IsBytes set
    → node_set_contains set j ≡ true
    → node_set_contains (node_set_add set i) j ≡ true
unfolding node_set_add node_set_contains
contains_kept set i j b h = elim (ℕ_discrete (j / 2 ^ 3) (i / 2 ^ 3)) [
  | no apart ↦ ground (arith, h)
  | yes same ↦
      let p = 2 ^ bit_and i 7 in
      let stored = byte_added (set (i / 2 ^ 3)) p (b (i / 2 ^ 3)) (index_bit i).1 in
      ground (arith, h, same, ap set same, stored, bit_kept (set (i / 2 ^ 3)) p (2 ^ bit_and j 7))
]

-- No number stands at two places.
abbrev pub IsDistinct : List ℕ → Type 0
IsDistinct xs = (i j : ℕ) → i < j → j < length xs → get_or xs i 0 ≢ get_or xs j 0

IsDistinct-snoc :
    (xs : List ℕ) (k : ℕ)
    → ((i : ℕ) → i < length xs → get_or xs i 0 ≢ k)
    → IsDistinct xs
    → IsDistinct (xs ++ k ∷ [])
IsDistinct-snoc xs k new old i j h l = elim (dec_lt j (length xs)) [
  | yes inside ↦ λ e. old i j h inside (
      sym (get_or-append_left xs (k ∷ []) i 0 (omega arith))
      ∙ e
      ∙ get_or-append_left xs (k ∷ []) j 0 inside)
  | no end ↦
      let last : j - length xs ≡ 0 = omega (arith, length-append xs (k ∷ [])) in
      λ e. new i (omega (arith, length-append xs (k ∷ []))) (
        sym (get_or-append_left xs (k ∷ []) i 0 (omega (arith, length-append xs (k ∷ []))))
        ∙ e
        ∙ get_or-append_right xs (k ∷ []) j 0 (omega arith)
        ∙ ap (λ p. get_or (k ∷ []) p 0) last)
]

-- Between the rounds: every entry is in the set, and no entry is there twice.
record IsMarked (set : Bytes) (order : List ℕ) : Type 0 where
  bytes : IsBytes set
  marked : All (λ k. node_set_contains set k ≡ true) order
  distinct : IsDistinct order

IsMarked-add :
    (set : Bytes) (order : List ℕ) (k : ℕ)
    → node_set_contains set k ≡ false
    → IsMarked set order
    → IsMarked (node_set_add set k) (order ++ k ∷ [])
IsMarked-add set order k new m = record {
  bytes = node_set_add-IsBytes set k m.bytes;
  marked =
      All-snoc (λ j. node_set_contains (node_set_add set k) j ≡ true) order k
        (All-map (λ j. node_set_contains set j ≡ true)
          (λ j. node_set_contains (node_set_add set k) j ≡ true)
          (λ j h. contains_kept set k j m.bytes h) order m.marked)
        (contains_added set k m.bytes);
  distinct =
      IsDistinct-snoc order k
        (λ i h e. absurd (
          ground
            (arith, new, e, All-at (λ j. node_set_contains set j ≡ true) order i 0 m.marked h)))
        m.distinct;
}

-- The loop takes only a node that is not yet in the map.
step_fresh :
    (index : Index) (master : ℕ) (set : Bytes) (current k : ℕ)
    → forward_step index master set current ≡ some k
    → node_set_contains set k ≡ false
unfolding forward_step
step_fresh index master set current k e =
    decided (forward_chosen index set (node_at index.result.nodes current)) e
  where
    decided :
        (chosen : Option ℕ)
        → (if (node_at index.result.nodes current).next == 0 && not (current == master)
            then none
            else if is_fresh set chosen
            then chosen
            else none)
          ≡ some k
        → node_set_contains set k ≡ false
    decided none h = ground (arith, h)
    decided (some c) h = ground (arith, h)

module _ (index : Index) (master : ℕ) where
  forward_loop-IsMarked :
      (fuel : ℕ) (set : Bytes) (order : List ℕ) (current : ℕ)
      → IsMarked set order
      → IsDistinct (forward_loop index master fuel set order current)
  unfolding forward_loop
  forward_loop-IsMarked zero set order current m = m.distinct
  forward_loop-IsMarked (suc fuel) set order current m =
      elim (Option-cases (forward_step index master set current)) [
        | inl stop ↦ rw (stop, forward_loop) m.distinct
        | inr (k, e) ↦
            rw (e, forward_loop)
              (forward_loop-IsMarked fuel (node_set_add set k) (order ++ k ∷ []) k
                (IsMarked-add set order k (step_fresh index master set current k e) m))
      ]

  forward_loop-head :
      (fuel : ℕ) (set : Bytes) (order : List ℕ) (current : ℕ)
      → 1 ≤ length order
      → (1 ≤ length (forward_loop index master fuel set order current))
        × (get_or (forward_loop index master fuel set order current) 0 0 ≡ get_or order 0 0)
  unfolding forward_loop
  forward_loop-head zero set order current h = (h, refl)
  forward_loop-head (suc fuel) set order current h =
      elim (Option-cases (forward_step index master set current)) [
        | inl stop ↦ rw (stop, forward_loop) (h, refl)
        | inr (k, e) ↦
            let longer : 1 ≤ length (order ++ k ∷ []) =
              omega (arith, length-append order (k ∷ [])) in
            let (some_, first) =
              forward_loop-head fuel (node_set_add set k) (order ++ k ∷ []) k longer in
            rw (e, forward_loop)
              (some_, first ∙ get_or-append_left order (k ∷ []) 0 0 (omega arith))
      ]

-- The forward map of an indexed table has no node twice, and it is empty only where no node lies at sector
-- 0; otherwise that node is its first entry.
pub forward_order-IsDistinct :
    (index : Index)
    → IsIndexed index.result.nodes index.by_lba
    → IsDistinct (forward_order index)
      × ((i : ℕ)
          → i < length index.result.nodes
          → (node_at index.result.nodes i).lba ≡ 0
          → (1 ≤ length (forward_order index)) × (get_or (forward_order index) 0 0 ≡ i))
unfolding forward_order
forward_order-IsDistinct index ix = (distinct (find_node index 0), first)
  where
    single : (k : ℕ) → IsMarked (node_set_add zeros k) (k ∷ [])
    single k = record {
      bytes = node_set_add-IsBytes zeros k (λ i. omega arith);
      marked = (contains_added zeros k (λ i. omega arith), tt);
      distinct = λ i j h l. absurd (omega arith);
    }

    distinct :
        (found : Option ℕ)
        → let order : List ℕ = elim found [
          | none ↦ []
          | some k ↦ forward_loop index k (max_nodes - 1) (node_set_add zeros k) (k ∷ []) k
        ] in
          IsDistinct order
    distinct none = λ i j h l. absurd (omega arith)
    distinct (some k) =
        forward_loop-IsMarked index k (max_nodes - 1) (node_set_add zeros k) (k ∷ []) k (single k)

    first :
        (i : ℕ)
        → i < length index.result.nodes
        → (node_at index.result.nodes i).lba ≡ 0
        → (1 ≤ length (forward_order index)) × (get_or (forward_order index) 0 0 ≡ i)
    first i small at =
        let found = (find_node_exact index ix 0 i).1 (small, at) in
        rw (found, forward_order)
          (forward_loop-head index i (max_nodes - 1) (node_set_add zeros i) (i ∷ []) i
            (omega arith))
