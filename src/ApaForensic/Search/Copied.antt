-- ===== src/ApaForensic/Search/Copied.antt =====
-- What a node of the table keeps of the header that was read, and what a mark leaves of it.
use fhdb_bootstrap_manager.Common.{
  ℕ, zero, suc, ◌+◌, ◌-◌, ◌≤◌, ◌<◌, ◌≡◌, refl, ap, ◌∙◌, true, List, [], ◌∷◌, bit_and, ◌&&◌, ◌==◌,
  length, Bool-cases, inl, inr, arith,
}
use fhdb_bootstrap_manager.Common.Bytes.{
  Bytes, IsBytes, zeros, shift, memcpy, memcpy_inside, memeq, read_le16, read_le32,
}
use fhdb_bootstrap_manager.Common.Results.{Result, ok}
use fhdb_bootstrap_manager.Apa.{
  next_offset, prev_offset, id_offset, start_offset, length_offset, type_offset, flags_offset,
  nsub_offset, main_offset, number_offset, magic_offset, apa_magic, apa_checksum,
}
use fhdb_bootstrap_manager.ApaForensic.{
  Node, node_at, evidence_self_start, evidence_magic, evidence_referenced,
}
use fhdb_bootstrap_manager.ApaForensic.Inspect.{inspect_header, mark_if, direct_grid_anchor_mask}
use fhdb_bootstrap_manager.ApaForensic.Index.{Index}
use fhdb_bootstrap_manager.ApaForensic.Index.Laws.{IsIndexed}
use fhdb_bootstrap_manager.ApaForensic.Search.{mark_node, is_admitted}

-- A node keeps the 1024 bytes `original`, its fields are what these say, and its checksum is theirs.
pub record IsCopied (original : Bytes) (node : Node) : Type 0 where
  pub header : (i : ℕ) → i < 1024 → node.header i ≡ original i
  pub bytes : IsBytes node.header
  pub stored : node.stored_checksum ≡ read_le32 original
  pub calculated : node.calculated_checksum ≡ apa_checksum original
  pub next : node.next ≡ read_le32 (shift original next_offset)
  pub prev : node.prev ≡ read_le32 (shift original prev_offset)
  pub start : node.start ≡ read_le32 (shift original start_offset)
  pub size : node.length ≡ read_le32 (shift original length_offset)
  pub main : node.main ≡ read_le32 (shift original main_offset)
  pub nsub : node.nsub ≡ read_le32 (shift original nsub_offset)
  pub number : node.number ≡ read_le32 (shift original number_offset)
  pub kind : node.kind ≡ read_le16 (shift original type_offset)
  pub flags : node.flags ≡ read_le16 (shift original flags_offset)
  pub id : (i : ℕ) → i < 32 → node.id i ≡ original (id_offset + i)

-- A node keeps the header that the reader gives at its sector, and its confidence was enough.
pub record IsRead (reader : ℕ → Result Bytes) (total : ℕ) (node : Node) : Type 0 where
  pub original : Bytes
  pub given : reader node.lba ≡ ok original
  pub copied : IsCopied original node
  pub placed : node.lba + 2 ≤ total
  pub admitted : is_admitted node.lba node.confidence ≡ true

pub record IsTable (reader : ℕ → Result Bytes) (total : ℕ) (index : Index) : Type 0 where
  pub indexed : IsIndexed index.result.nodes index.by_lba
  pub read :
      (i : ℕ) → i < length index.result.nodes → IsRead reader total (node_at index.result.nodes i)

pub mark_node-length :
    (nodes : List Node) (i bits : ℕ) → length (mark_node nodes i bits) ≡ length nodes
unfolding mark_node
mark_node-length [] i bits = refl
mark_node-length (node ∷ nodes) zero bits = refl
mark_node-length (node ∷ nodes) (suc i) bits = ap suc (mark_node-length nodes i bits)

-- A mark changes the evidence of a node alone.
pub mark_node-at :
    (nodes : List Node) (i bits k : ℕ)
    → (e : ℕ) × (node_at (mark_node nodes i bits) k ≡ record (node_at nodes k) { evidence = e })
unfolding mark_node
mark_node-at [] i bits k = (0, refl)
mark_node-at (node ∷ nodes) zero bits zero = (_, refl)
mark_node-at (node ∷ nodes) zero bits (suc k) = ((node_at nodes k).evidence, refl)
mark_node-at (node ∷ nodes) (suc i) bits zero = (node.evidence, refl)
mark_node-at (node ∷ nodes) (suc i) bits (suc k) = mark_node-at nodes i bits k

-- A header with enough confidence had its checksum calculated.
pub admitted_checksum :
    (header : Bytes) (lba total source : ℕ)
    → is_admitted lba (inspect_header header lba total source).confidence ≡ true
    → (inspect_header header lba total source).checksum ≡ apa_checksum header
unfolding inspect_header
admitted_checksum header lba total source a =
    let magic = memeq (shift header magic_offset) apa_magic 4 in
    let self = read_le32 (shift header start_offset) == lba in
    let anchored = mark_if self evidence_self_start (mark_if magic evidence_magic source) in
    let unanchored =
      bit_and source evidence_referenced == 0 && bit_and anchored direct_grid_anchor_mask == 0 in
    elim (Bool-cases unanchored) [
      | inl skipped ↦ absurd (ground (arith, rw skipped at a))
      | inr walked ↦ rw walked refl
    ]

-- The bytes copied to the front.
pub memcpy_start : (source : Bytes) (n i : ℕ) → i < n → memcpy zeros 0 source n i ≡ source i
memcpy_start source n i h =
    let back : i - 0 ≡ i = omega arith in
    memcpy_inside zeros 0 source n i (omega arith) (omega arith) ∙ ap source back
