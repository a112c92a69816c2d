-- ===== src/HdlMetadata/Entries.antt =====
-- The slices that the block of a game is built from.
use fhdb_bootstrap_manager.Common.{
  ℕ, ◌+◌, ◌%◌, ◌^◌, ◌≤◌, ◌<◌, ◌≡◌, subst, false, List, [], ◌∷◌, get_or, arith, length,
}
use fhdb_bootstrap_manager.Common.Masks.{bit_and_2047}
use fhdb_bootstrap_manager.Common.Bytes.{Bytes}
use fhdb_bootstrap_manager.Common.Results.{ok}
use fhdb_bootstrap_manager.HdlPartition.{Slice, Plan}
use fhdb_bootstrap_manager.HdlMetadata.{
  Options, data_offset_at, data_start_at, slice_refused, put_entry, build_entries, build_fixed,
  metadata_build,
}

-- Slices from number `i` on that hold the image from `from` to `end`, each inside its partition.
pub data Follows (starts : List ℕ) : ℕ → ℕ → ℕ → List Slice → Type 0 where
  ended : (i end : ℕ) → Follows starts i end end []
  slice_next :
      (i from end : ℕ) (slice : Slice) (slices : List Slice)
      → slice.payload_offset ≡ from
      → from % 2048 ≡ 0
      → slice.payload_bytes % 2048 ≡ 0
      → data_offset_at i + slice.payload_bytes ≤ slice.allocation_bytes
      → data_start_at i (get_or starts i 0) < 2 ^ 32
      → Follows starts (i + 1) (from + slice.payload_bytes) end slices
      → Follows starts i from end (slice ∷ slices)

accepted_slice :
    (i start from : ℕ) (slice : Slice)
    → slice_refused i start from slice ≡ false
    → (slice.payload_offset ≡ from)
      × (from % 2048 ≡ 0)
      × (slice.payload_bytes % 2048 ≡ 0)
      × (data_offset_at i + slice.payload_bytes ≤ slice.allocation_bytes)
      × (data_start_at i start < 2 ^ 32)
unfolding slice_refused
accepted_slice i start from slice e =
    ground (arith, e, bit_and_2047 slice.payload_offset, bit_and_2047 slice.payload_bytes)

entries-Follows :
    (slices : List Slice) (starts : List ℕ) (i from end : ℕ) (metadata out : Bytes)
    → build_entries slices starts i from end metadata ≡ ok out
    → Follows starts i from end slices
unfolding build_entries
entries-Follows [] starts i from end metadata out e =
    let reached : from ≡ end = ground (arith, e) in
    subst (λ n. Follows starts i from n []) reached (ended i from)
entries-Follows (slice ∷ slices) starts i from end metadata out e =
    let fits : slice_refused i (get_or starts i 0) from slice ≡ false = ground (arith, e) in
    let (here, whole, sectors, room, low) = accepted_slice i (get_or starts i 0) from slice fits in
    slice_next i from end slice slices here whole sectors room low (
      entries-Follows slices starts (i + 1) (from + slice.payload_bytes) end
        (put_entry metadata i (get_or starts i 0) slice) out (ground (arith, e, fits)))

-- A block is built only from a plan whose slices follow one another from the image's first byte to its
-- last in whole sectors, each inside its partition and with data that starts below sector 2 ^ 32; the
-- plan's count is 1 to 65, and there are as many partition starts.
pub build-Follows :
    (plan : Plan) (starts : List ℕ) (options : Options) (out : Bytes)
    → metadata_build plan starts options ≡ ok out
    → Follows starts 0 0 plan.image_bytes plan.slices
      × (1 ≤ plan.count)
      × (plan.count ≤ 65)
      × (length starts ≡ plan.count)
unfolding metadata_build
build-Follows plan starts options out e = (
  entries-Follows plan.slices starts 0 0 plan.image_bytes (build_fixed plan options) out
      (ground (arith, e)),
  ground (arith, e),
  ground (arith, e),
  ground (arith, e),
)
