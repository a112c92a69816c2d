-- ===== src/ApaForensic/Entries.antt =====
-- Lists of node numbers: what the loops of the reverse and the geometry map keep of their entries.
use fhdb_bootstrap_manager.Common.{
  ℕ, zero, suc, ◌+◌, ◌-◌, ◌≤◌, ◌<◌, ◌≡◌, refl, ap, ◌∙◌, Bool, true, false, List, [], ◌∷◌, Option,
  none, some, ltb, length, get_or, All, Bool-cases, inl, inr, arith, if◌then◌else◌,
}
use fhdb_bootstrap_manager.Common.Bytes.{Bytes}
use fhdb_bootstrap_manager.ApaForensic.{Node, node_at}
use fhdb_bootstrap_manager.ApaForensic.Forward.{link_scan}
use fhdb_bootstrap_manager.ApaForensic.Reverse.{set_at, reverse_loop}
use fhdb_bootstrap_manager.ApaForensic.Geometry.{shift_loop, sort_loop, geometry_loop, in_geometry}

-- `P` of what is found.
abbrev pub Every : (ℕ → Type 0) → Option ℕ → Type 0
Every P none = Unit
Every P (some k) = P k

pub Every-if :
    (P : ℕ → Type 0) (b : Bool) (x y : Option ℕ)
    → Every P x
    → Every P y
    → Every P (if b then x else y)
Every-if P true x y p q = p
Every-if P false x y p q = q

set_at-length : (xs : List ℕ) (i v : ℕ) → length (set_at xs i v) ≡ length xs
unfolding set_at
set_at-length [] i v = refl
set_at-length (x ∷ xs) zero v = refl
set_at-length (x ∷ xs) (suc i) v = ap suc (set_at-length xs i v)

module _ (P : ℕ → Type 0) where
  set_at-All : (xs : List ℕ) (i v : ℕ) → All P xs → P v → All P (set_at xs i v)
  unfolding set_at
  set_at-All [] i v h p = tt
  set_at-All (x ∷ xs) zero v (q, h) p = (p, h)
  set_at-All (x ∷ xs) (suc i) v (q, h) p = (q, set_at-All xs i v h p)

  get_or-All : (xs : List ℕ) (i d : ℕ) → All P xs → P d → P (get_or xs i d)
  get_or-All [] i d h p = p
  get_or-All (x ∷ xs) zero d (q, h) p = q
  get_or-All (x ∷ xs) (suc i) d (q, h) p = get_or-All xs i d h p

  pub reverse_loop-All :
      (rounds i : ℕ) (xs : List ℕ)
      → P 0
      → All P xs
      → All P (reverse_loop rounds i xs) × (length (reverse_loop rounds i xs) ≡ length xs)
  unfolding reverse_loop
  reverse_loop-All zero i xs z h = (h, refl)
  reverse_loop-All (suc rounds) i xs z h =
      let j = length xs - 1 - i in
      let once = set_at xs i (get_or xs j 0) in
      let (all, long) = reverse_loop-All rounds (i + 1) (set_at once j (get_or xs i 0)) z (
        set_at-All once j (get_or xs i 0)
          (set_at-All xs i (get_or xs j 0) h (get_or-All xs j 0 h z)) (get_or-All xs i 0 h z)) in
      (all, long ∙ set_at-length once j (get_or xs i 0) ∙ set_at-length xs i (get_or xs j 0))

  shift_loop-All :
      (nodes : List Node) (v j : ℕ) (xs : List ℕ)
      → P 0
      → P v
      → All P xs
      → All P (shift_loop nodes v j xs) × (length (shift_loop nodes v j xs) ≡ length xs)
  unfolding shift_loop
  shift_loop-All nodes v zero xs z p h = (set_at-All xs 0 v h p, set_at-length xs 0 v)
  shift_loop-All nodes v (suc j) xs z p h =
      let moved = get_or xs j 0 in
      elim (Bool-cases (ltb (node_at nodes v).lba (node_at nodes moved).lba)) [
        | inl more ↦
            let (all, long) =
              shift_loop-All nodes v j (set_at xs (suc j) moved) z p
                (set_at-All xs (suc j) moved h (get_or-All xs j 0 h z)) in
            rw (more, shift_loop) (all, long ∙ set_at-length xs (suc j) moved)
        | inr over ↦ rw (over, shift_loop) (set_at-All xs (suc j) v h p, set_at-length xs (suc j) v)
      ]

  pub sort_loop-All :
      (nodes : List Node) (rounds i : ℕ) (xs : List ℕ)
      → P 0
      → All P xs
      → All P (sort_loop nodes rounds i xs) × (length (sort_loop nodes rounds i xs) ≡ length xs)
  unfolding sort_loop
  sort_loop-All nodes zero i xs z h = (h, refl)
  sort_loop-All nodes (suc rounds) i xs z h =
      let (once, long) = shift_loop-All nodes (get_or xs i 0) i xs z (get_or-All xs i 0 h z) h in
      let (all, longer) =
        sort_loop-All nodes rounds (i + 1) (shift_loop nodes (get_or xs i 0) i xs) z once in
      (all, longer ∙ long)

pub link_scan-lt :
    (link : Node → ℕ) (excluded : Bytes) (lba : ℕ) (nodes : List Node) (i bound : ℕ)
    (found : Option ℕ)
    → i + length nodes ≤ bound
    → Every (λ k. k < bound) found
    → Every (λ k. k < bound) (link_scan link excluded lba nodes i found)
unfolding link_scan
link_scan-lt link excluded lba [] i bound found h f = f
link_scan-lt link excluded lba (node ∷ nodes) i bound found h f =
    Every-if (λ k. k < bound) _ none _ tt
      (link_scan-lt link excluded lba nodes (i + 1) bound _ (omega arith)
        (Every-if (λ k. k < bound) _ (some i) found (omega arith) f))

pub geometry_loop-All :
    (nodes : List Node) (i bound : ℕ)
    → i + length nodes ≤ bound
    → All (λ k. k < bound) (geometry_loop nodes i) × (length (geometry_loop nodes i) ≤ length nodes)
unfolding geometry_loop
geometry_loop-All [] i bound h = (tt, omega arith)
geometry_loop-All (node ∷ nodes) i bound h =
    let (all, short) = geometry_loop-All nodes (i + 1) bound (omega arith) in
    elim (Bool-cases (in_geometry node)) [
      | inl taken ↦
          let inside : i < bound = omega arith in
          let bounded : suc (length (geometry_loop nodes (i + 1))) ≤ suc (length nodes) =
            omega arith in
          rw taken ((inside, all), bounded)
      | inr left ↦
          let bounded : length (geometry_loop nodes (i + 1)) ≤ suc (length nodes) = omega arith in
          rw left (all, bounded)
    ]
