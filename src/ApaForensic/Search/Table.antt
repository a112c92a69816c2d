-- ===== src/ApaForensic/Search/Table.antt =====
-- The table of nodes keeps its order and its headers through the whole search.
use fhdb_bootstrap_manager.Common.{
  ℕ, ◌+◌, ◌-◌, ◌≤◌, ◌<◌, ◌≡◌, ◌≢◌, refl, sym, ap, ◌∙◌, true, false, List, [], ◌∷◌, ◌++◌, none, leb,
  length, length-append, Bool-cases, inl, inr, arith,
}
use native.Mathlib.Decide.{dec_lt}
use fhdb_bootstrap_manager.Common.Bytes.{Bytes, IsBytes, zeros, shift, memcpy}
use fhdb_bootstrap_manager.Common.Results.{Result, ok}
use fhdb_bootstrap_manager.Apa.{id_offset}
use fhdb_bootstrap_manager.ApaForensic.{Node, node_at, max_nodes}
use fhdb_bootstrap_manager.ApaForensic.Inspect.{inspect_header}
use fhdb_bootstrap_manager.ApaForensic.Index.{Index, find_node, index_node}
use fhdb_bootstrap_manager.ApaForensic.Index.Laws.{IsIndexed, find_node_exact}
use fhdb_bootstrap_manager.ApaForensic.Index.Insert.{node_at-old, node_at-new, index_node-IsIndexed}
use fhdb_bootstrap_manager.ApaForensic.Search.Rule.{IsKept}
use fhdb_bootstrap_manager.ApaForensic.Search.{mark_index, new_node, is_admitted, admit}
use fhdb_bootstrap_manager.ApaForensic.Search.Copied.{
  IsRead, IsTable, mark_node-length, mark_node-at, admitted_checksum, memcpy_start,
}

module _ (reader : ℕ → Result Bytes) (total : ℕ) where
  IsRead-evidence :
      (node : Node) (e : ℕ)
      → IsRead reader total node
      → IsRead reader total (record node { evidence = e })
  IsRead-evidence node e h = record {
    original = h.original;
    given = h.given;
    copied = record {
      header = h.copied.header;
      bytes = h.copied.bytes;
      stored = h.copied.stored;
      calculated = h.copied.calculated;
      next = h.copied.next;
      prev = h.copied.prev;
      start = h.copied.start;
      size = h.copied.size;
      main = h.copied.main;
      nsub = h.copied.nsub;
      number = h.copied.number;
      kind = h.copied.kind;
      flags = h.copied.flags;
      id = h.copied.id;
    };
    placed = h.placed;
    admitted = h.admitted;
  }

  IsIndexed-congr :
      (nodes marked : List Node) (by_lba : List ℕ)
      → length marked ≡ length nodes
      → ((k : ℕ) → (node_at marked k).lba ≡ (node_at nodes k).lba)
      → IsIndexed nodes by_lba
      → IsIndexed marked by_lba
  IsIndexed-congr nodes marked by_lba e same ix = record {
    sized = ix.sized ∙ sym e;
    room = omega (arith, ix.room);
    ascending = λ p q h l. omega (arith, same _, same _, ix.ascending p q h l);
    valid = λ p h. omega (arith, ix.valid p h);
    complete = λ k h. ix.complete k (omega arith);
  }

  -- A table whose nodes have other evidence.
  pub remarked-IsTable :
      (index other : Index)
      → other.by_lba ≡ index.by_lba
      → length other.result.nodes ≡ length index.result.nodes
      → ((k : ℕ)
          → (e : ℕ) × (node_at other.result.nodes k
              ≡ record (node_at index.result.nodes k) { evidence = e }))
      → IsTable reader total index
      → IsTable reader total other
  remarked-IsTable index other b long at t = record {
    indexed = rw b (
        IsIndexed-congr index.result.nodes other.result.nodes index.by_lba long
          (λ k. ap (λ (n : Node). n.lba) (at k).1) t.indexed);
    read = λ k h.
        rw ((at k).1)
          (IsRead-evidence (node_at index.result.nodes k) (at k).0 (t.read k (omega arith)));
  }

  mark_index-IsTable :
      (index : Index) (i bits : ℕ)
      → IsTable reader total index
      → IsTable reader total (mark_index index i bits)
  mark_index-IsTable index i bits t =
      remarked-IsTable index (mark_index index i bits) refl
        (mark_node-length index.result.nodes i bits) (mark_node-at index.result.nodes i bits) t

  -- A change of the counters leaves the table.
  pub IsTable-congr :
      (index other : Index)
      → other.result.nodes ≡ index.result.nodes
      → other.by_lba ≡ index.by_lba
      → IsTable reader total index
      → IsTable reader total other
  IsTable-congr index other e b t = record { indexed = rw (e, b) t.indexed; read = rw e t.read }

  grown-IsRead :
      (nodes : List Node) (node : Node)
      → ((i : ℕ) → i < length nodes → IsRead reader total (node_at nodes i))
      → IsRead reader total node
      → (i : ℕ) → i < length (nodes ++ node ∷ [])
      → IsRead reader total (node_at (nodes ++ node ∷ []) i)
  grown-IsRead nodes node old new i h = elim (dec_lt i (length nodes)) [
    | yes below ↦ rw (node_at-old nodes node i below) (old i below)
    | no last ↦
        let end : i ≡ length nodes = omega (arith, length-append nodes (node ∷ [])) in
        rw (end, node_at-new nodes node) new
  ]

  -- A table with one more node, which the index does not have yet, after `index_node`.
  index_node-IsTable :
      (index : Index) (nodes : List Node) (node : Node)
      → index.result.nodes ≡ nodes ++ node ∷ []
      → IsIndexed nodes index.by_lba
      → ((i : ℕ) → i < length nodes → IsRead reader total (node_at nodes i))
      → length nodes < max_nodes
      → ((i : ℕ) → i < length nodes → (node_at nodes i).lba ≢ node.lba)
      → IsRead reader total node
      → IsTable reader total (index_node index (length nodes))
  unfolding index_node
  index_node-IsTable index nodes node e ix old room fresh new = record {
    indexed = index_node-IsIndexed index nodes node e ix room fresh;
    read = rw e (grown-IsRead nodes node old new);
  }

  -- A sector that is not found belongs to no node.
  absent :
      (index : Index) (lba : ℕ)
      → IsTable reader total index
      → find_node index lba ≡ none
      → (i : ℕ) → i < length index.result.nodes
      → (node_at index.result.nodes i).lba ≢ lba
  absent index lba t none_yet i h e =
      ground (arith, none_yet, (find_node_exact index t.indexed lba i).1 (h, e))

  module _ (bytes : (lba : ℕ) (h : Bytes) → reader lba ≡ ok h → IsBytes h) where
    copied-IsBytes : (h : Bytes) (n : ℕ) → IsBytes h → IsBytes (memcpy zeros 0 h n)
    copied-IsBytes h n b i = ground (arith, b (i - 0))

    new_node-IsRead :
        (header : Bytes) (lba source : ℕ)
        → reader lba ≡ ok header
        → IsBytes header
        → lba + 2 ≤ total
        → is_admitted lba (inspect_header header lba total source).confidence ≡ true
        → IsRead reader total (new_node header lba (inspect_header header lba total source))
    new_node-IsRead header lba source given b w a = record {
      original = header;
      given = given;
      copied = record {
        header = λ i h. memcpy_start header 1024 i h;
        bytes = copied-IsBytes header 1024 b;
        stored = refl;
        calculated = admitted_checksum header lba total source a;
        next = refl;
        prev = refl;
        start = refl;
        size = refl;
        main = refl;
        nsub = refl;
        number = refl;
        kind = refl;
        flags = refl;
        id = λ i h. memcpy_start (shift header id_offset) 32 i h;
      };
      placed = w;
      admitted = a;
    }

    admit-IsTable :
        (index : Index) (header : Bytes) (lba source : ℕ)
        → reader lba ≡ ok header
        → IsBytes header
        → find_node index lba ≡ none
        → lba + 2 ≤ total
        → IsTable reader total index
        → IsTable reader total (admit index header lba total source)
    unfolding admit
    admit-IsTable index header lba source given b none_yet w t =
        let nodes = index.result.nodes in
        let seen = inspect_header header lba total source in
        elim (Bool-cases (is_admitted lba seen.confidence)) [
          | inr refused ↦ rw refused t
          | inl admitted ↦ elim (dec_lt (length nodes) max_nodes) [
            | no full ↦
                rw (admitted, let e : leb max_nodes (length nodes) ≡ true = ground arith in e)
                  (IsTable-congr index _ refl refl t)
            | yes room ↦
                rw (admitted, let e : leb max_nodes (length nodes) ≡ false = ground arith in e)
                  (index_node-IsTable _ nodes (new_node header lba seen) refl t.indexed t.read room
                    (absent index lba t none_yet)
                    (new_node-IsRead header lba source given b w admitted))
          ]
        ]

    pub IsTable-IsKept : IsKept reader total (IsTable reader total)
    IsTable-IsKept = record {
      marks = mark_index-IsTable;
      counts = λ index other n b _ _ t. IsTable-congr index other n b t;
      admits = λ index lba header source e n w t.
          admit-IsTable index header lba source e (bytes lba header e) n w t;
    }
