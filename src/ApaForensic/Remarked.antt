-- ===== src/ApaForensic/Remarked.antt =====
-- The classification of dormant remnants changes only the evidence of nodes.
use fhdb_bootstrap_manager.Common.{
  ℕ, zero, suc, ◌+◌, ◌≡◌, refl, ap, ◌∙◌, List, [], ◌∷◌, length, Bool-cases, inl, inr,
}
use fhdb_bootstrap_manager.Common.Bytes.{Bytes, zeros}
use fhdb_bootstrap_manager.Common.Results.{Result}
use fhdb_bootstrap_manager.ApaForensic.{Node, node_at}
use fhdb_bootstrap_manager.ApaForensic.Index.{Index}
use fhdb_bootstrap_manager.ApaForensic.Search.Table.{remarked-IsTable}
use fhdb_bootstrap_manager.ApaForensic.Search.Copied.{IsTable}
use fhdb_bootstrap_manager.ApaForensic.Forward.{
  clear_all, dormant_loop, is_dormant, set_of, classify_dormant_free_remnants,
}

-- `marked` has the nodes of `nodes`, with some other evidence.
record IsRemarked (nodes marked : List Node) : Type 0 where
  pub long : length marked ≡ length nodes
  pub at : (k : ℕ) → (e : ℕ) × (node_at marked k ≡ record (node_at nodes k) { evidence = e })

cons-IsRemarked :
    (node : Node) (e : ℕ) (nodes marked : List Node)
    → IsRemarked nodes marked
    → IsRemarked (node ∷ nodes) (record node { evidence = e } ∷ marked)
cons-IsRemarked node e nodes marked r = record { long = ap suc r.long; at = each }
  where
    each :
        (k : ℕ)
        → (d : ℕ) × (node_at (record node { evidence = e } ∷ marked) k
            ≡ record (node_at (node ∷ nodes) k) { evidence = d })
    each zero = (e, refl)
    each (suc k) = r.at k

trans-IsRemarked : (a b c : List Node) → IsRemarked a b → IsRemarked b c → IsRemarked a c
trans-IsRemarked a b c r s = record {
  long = s.long ∙ r.long;
  at = λ k.
      let (d, e) = r.at k in
      let (f, g) = s.at k in (f, g ∙ ap (λ (n : Node). record n { evidence = f }) e);
}

clear_all-IsRemarked : (nodes : List Node) → IsRemarked nodes (clear_all nodes)
unfolding clear_all
clear_all-IsRemarked [] = record { long = refl; at = λ k. (0, refl) }
clear_all-IsRemarked (node ∷ nodes) =
    cons-IsRemarked node _ nodes (clear_all nodes) (clear_all-IsRemarked nodes)

dormant_loop-IsRemarked :
    (table : List Node) (in_forward : Bytes) (order : List ℕ) (i : ℕ) (nodes : List Node)
    → IsRemarked nodes (dormant_loop table in_forward order i nodes).0
unfolding dormant_loop
dormant_loop-IsRemarked table in_forward order i [] = record { long = refl; at = λ k. (0, refl) }
dormant_loop-IsRemarked table in_forward order i (node ∷ nodes) =
    let rest = dormant_loop-IsRemarked table in_forward order (i + 1) nodes in
    let marked = (dormant_loop table in_forward order (i + 1) nodes).0 in
    elim (Bool-cases (is_dormant table in_forward order i node)) [
      | inl dormant ↦ rw dormant (cons-IsRemarked node _ nodes marked rest)
      | inr active ↦ rw active (cons-IsRemarked node node.evidence nodes marked rest)
    ]

unfoldable pub classified : Index → List ℕ → Index
classified index order = record index { result = classify_dormant_free_remnants index.result order }

classified-IsRemarked :
    (index : Index) (order : List ℕ)
    → IsRemarked index.result.nodes (classified index order).result.nodes
unfolding classified classify_dormant_free_remnants
classified-IsRemarked index order =
    let nodes = index.result.nodes in
    let cleared = clear_all nodes in
    let marked = (dormant_loop cleared (set_of zeros order) order 0 cleared).0 in
    trans-IsRemarked nodes cleared marked (clear_all-IsRemarked nodes)
      (dormant_loop-IsRemarked cleared (set_of zeros order) order 0 cleared)

pub classified-IsTable :
    (reader : ℕ → Result Bytes) (total : ℕ) (index : Index) (order : List ℕ)
    → IsTable reader total index
    → IsTable reader total (classified index order)
unfolding classified
classified-IsTable reader total index order t =
    let r = classified-IsRemarked index order in
    remarked-IsTable reader total index (classified index order) refl r.long r.at t

pub classified-length :
    (index : Index) (order : List ℕ)
    → length (classified index order).result.nodes ≡ length index.result.nodes
classified-length index order = (classified-IsRemarked index order).long
