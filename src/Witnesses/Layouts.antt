-- ===== src/Witnesses/Layouts.antt =====
-- Pointers, a KELF of 72 bytes and the plan of a 200 MiB image.
use fhdb_bootstrap_manager.Common.{
  ℕ, List, ◌*◌, ◌≤◌, ◌<◌, ◌≡◌, ◌↔◌, inr, refl, sym, some, [], ◌∷◌, arith,
}
use fhdb_bootstrap_manager.Common.Ints.{pos}
use fhdb_bootstrap_manager.Common.Results.{ok}
use fhdb_bootstrap_manager.Common.Bytes.{Bytes, of_list, codes, memcpy, read_le16, read_le32}
use fhdb_bootstrap_manager.Common.Arrays.{memcpy_before}
use fhdb_bootstrap_manager.HddBounds.{
  validate_payload_bounds_geometry, IsInsideMbr, bounds_accepted_iff,
}
use fhdb_bootstrap_manager.Kelf.{validate_layout, size_from_disk_image}
use fhdb_bootstrap_manager.Kelf.Layout.{image_size_complete}
use fhdb_bootstrap_manager.HdlPartition.{
  Plan, partition_plan, plan_loop, first_fit, first_allowed, choose_allocation, allocation_for,
  payload_for, limited,
}
use fhdb_bootstrap_manager.HdlMetadata.{
  Options, metadata_build, metadata_parse, printable, build_entries, build_fixed, put_entry,
  slice_refused,
}
use fhdb_bootstrap_manager.HdlMetadata.RoundTrip.{plan_info, parse-build}
use fhdb_bootstrap_manager.HdlMetadata.Texts.{IsOptions}
use fhdb_bootstrap_manager.HdlPartition.Tiling.{Tiles, plan-Tiles}
use fhdb_bootstrap_manager.HdlPartition.Completes.{plan_found, room}

bounds_accepted_iff_example :
    (validate_payload_bounds_geometry 0x2000 640 0 0x40000 ≡ pos 0)
    ↔ IsInsideMbr 0x2000 640 0 0x40000
bounds_accepted_iff_example = bounds_accepted_iff 0x2000 640 0 0x40000

-- 64 bytes of header, whose optional area is left out, and 8 bytes of payload.
abbrev pub kelf : Bytes
kelf = of_list (
    1 ∷ 0 ∷ 0 ∷ 0 ∷ 0 ∷ 0 ∷ 0 ∷ 0 ∷ 0 ∷ 0 ∷ 0 ∷ 0 ∷ 0 ∷ 0 ∷ 0 ∷ 0 ∷ 8 ∷ 0 ∷ 0 ∷ 0 ∷ 64 ∷ 0 ∷ 0 ∷ 0
    ∷ 0 ∷ 0x10 ∷ 0 ∷ 0 ∷ [])

kelf_passes : validate_layout kelf 72 ≡ pos 0
unfolding validate_layout read_le16 read_le32
kelf_passes = refl

kelf_found : size_from_disk_image kelf 512 ≡ (pos 0, some 72)
unfolding size_from_disk_image validate_layout read_le16 read_le32
kelf_found = refl

image_size_complete_example : size_from_disk_image kelf 512 ≡ (pos 0, some 72)
image_size_complete_example =
    image_size_complete kelf 72 512 (omega arith) kelf_passes (omega arith)

abbrev padded_kelf : Bytes
padded_kelf = memcpy kelf 512 (of_list (7 ∷ [])) 1

padded_same : (i : ℕ) → i < 72 → kelf i ≡ padded_kelf i
padded_same i h = sym (memcpy_before kelf 512 (of_list (7 ∷ [])) 1 i (omega arith))

-- With partitions of 128 MiB.
abbrev two_slices : Plan
two_slices = record {
  image_bytes = 209715200;
  allocation_bytes = 268435456;
  count = 2;
  slices =
      record { allocation_bytes = 134217728; payload_offset = 0; payload_bytes = 130023424 }
      ∷ record {
        allocation_bytes = 134217728;
        payload_offset = 130023424;
        payload_bytes = 79691776;
      }
      ∷ [];
}

two_slices_planned : partition_plan 209715200 262144 ≡ ok two_slices
unfolding partition_plan plan_loop first_fit first_allowed choose_allocation allocation_for
    payload_for
two_slices_planned = refl

plan-Tiles_example :
    Tiles (limited (262144 * 512)) 2 209715200 268435456 two_slices.slices
    × (2 ≤ 65)
    × (two_slices.image_bytes ≡ 209715200)
plan-Tiles_example = plan-Tiles 209715200 262144 two_slices two_slices_planned

plan_found_example : (plan : Plan) × (partition_plan 209715200 262144 ≡ ok plan)
unfolding room first_allowed
plan_found_example = plan_found 209715200 262144 (omega arith) refl (omega arith) (omega arith)

abbrev options : Options
options = record {
  game_title = codes "A";
  startup = codes "SLUS_123.45";
  disc_type = 0x14;
  layer1_start = 0;
  hdl_compat_flags = 0;
  opl_compat_flags = 0;
  dma_type = 0;
  dma_mode = 0;
}

abbrev starts : List ℕ
starts = 0x40000 ∷ 0x80000 ∷ []

abbrev block : Bytes
block =
    put_entry
      (put_entry (build_fixed two_slices options) 0 0x40000
        (record { allocation_bytes = 134217728; payload_offset = 0; payload_bytes = 130023424 }))
      1 0x80000
      (record {
        allocation_bytes = 134217728;
        payload_offset = 130023424;
        payload_bytes = 79691776;
      })

block_built : metadata_build two_slices starts options ≡ ok block
unfolding metadata_build build_entries slice_refused
block_built = refl

options-IsOptions : IsOptions options
unfolding printable
options-IsOptions = record {
  title = (refl, λ i h. ground arith);
  startup = (refl, λ i h. ground arith);
  disc = inr refl;
  layer = omega arith;
  hdl = omega arith;
  opl = omega arith;
  dma = omega arith;
  mode = omega arith;
}

parse-build_example : metadata_parse block ≡ ok (plan_info two_slices options)
parse-build_example = parse-build two_slices starts options block options-IsOptions block_built
