-- ===== src/ApaForensic/Search/Later.antt =====
-- What a search keeps while it goes on: what is found stays.
use fhdb_bootstrap_manager.Common.{
  ℕ, ◌<◌, ◌≡◌, ap, ◌∙◌, false, List, [], ◌∷◌, ◌++◌, leb, length, length-append, Bool-cases, inl,
  inr, arith,
}
use fhdb_bootstrap_manager.Common.Bytes.{Bytes}
use fhdb_bootstrap_manager.ApaForensic.{Node, node_at, max_nodes}
use fhdb_bootstrap_manager.ApaForensic.Inspect.{inspect_header}
use fhdb_bootstrap_manager.ApaForensic.Index.{Index, index_node}
use fhdb_bootstrap_manager.ApaForensic.Index.Insert.{node_at-old}
use fhdb_bootstrap_manager.ApaForensic.Search.{mark_index, new_node, is_admitted, admit}
use fhdb_bootstrap_manager.ApaForensic.Search.Copied.{mark_node-length, mark_node-at}

-- A node of the table lies at the sector.
abbrev pub Has : Index → ℕ → Type 0
Has index lba =
    (i : ℕ) × (i < length index.result.nodes) × ((node_at index.result.nodes i).lba ≡ lba)

-- What is found stays, and a table once truncated stays so.
pub record IsLater (before index : Index) : Type 0 where
  pub whole : index.result.truncated ≡ false → before.result.truncated ≡ false
  pub holds : (lba : ℕ) → Has before lba → Has index lba

pub mark_index-IsLater :
    (before index : Index) (i bits : ℕ)
    → IsLater before index
    → IsLater before (mark_index index i bits)
mark_index-IsLater before index i bits l =
    let nodes = index.result.nodes in
    record {
      whole = l.whole;
      holds = λ lba h.
          let (k, small, at) = l.holds lba h in
          (
            k,
            omega (arith, mark_node-length nodes i bits),
            ap (λ (n : Node). n.lba) (mark_node-at nodes i bits k).1 ∙ at,
          );
    }

grown-Has :
    (nodes : List Node) (node : Node) (lba k : ℕ)
    → k < length nodes
    → (node_at nodes k).lba ≡ lba
    → (k < length (nodes ++ node ∷ [])) × ((node_at (nodes ++ node ∷ []) k).lba ≡ lba)
grown-Has nodes node lba k small at = (
  omega (arith, length-append nodes (node ∷ [])),
  ap (λ (n : Node). n.lba) (node_at-old nodes node k small) ∙ at,
)

pub admit-IsLater :
    (before index : Index) (header : Bytes) (lba total source : ℕ)
    → IsLater before index
    → IsLater before (admit index header lba total source)
unfolding admit index_node
admit-IsLater before index header lba total source l =
    let nodes = index.result.nodes in
    let seen = inspect_header header lba total source in
    elim (Bool-cases (is_admitted lba seen.confidence)) [
      | inr refused ↦ rw refused l
      | inl admitted ↦ elim (Bool-cases (leb max_nodes (length nodes))) [
        | inl full ↦
            rw (admitted, full)
              (record { whole = λ e. absurd (ground (arith, e)); holds = l.holds })
        | inr room ↦
            rw (admitted, room)
              (record {
                whole = l.whole;
                holds = λ at h.
                    let (k, small, e) = l.holds at h in
                    let (inside, there) = grown-Has nodes (new_node header lba seen) at k small e in
                    (k, inside, there);
              })
      ]
    ]
