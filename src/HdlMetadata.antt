-- ===== src/HdlMetadata.antt =====
-- src/hdl_partition.c, `hdl_metadata_build` and `hdl_metadata_parse`: the HDLoader block of a game. A C string is
-- the list of its characters in front of the zero, the starts are a list, and null pointers are left out. What a failed
-- call leaves behind is not modelled.
pub mod Entries
pub mod Texts
pub mod RoundTrip
use fhdb_bootstrap_manager.Common.{
  ℕ, zero, suc, ◌+◌, ◌-◌, ◌*◌, ◌/◌, ◌%◌, ◌^◌, List, [], ◌∷◌, Bool, true, false, ◌&&◌, ◌||◌, not,
  ltb, leb, ◌==◌, ◌!=◌, if◌then◌else◌, length, get_or, bit_and,
}
use fhdb_bootstrap_manager.Common.Results.{Result, err, ok}
use fhdb_bootstrap_manager.Common.Bytes.{
  Bytes, shift, zeros, of_list, memcpy, write_8, write_le16, write_le32, read_le32,
}
use fhdb_bootstrap_manager.Common.Ints.{ℤ, neg}
use fhdb_bootstrap_manager.HdlPartition.{Slice, Plan, main_data_offset, sub_data_offset}

abbrev pub err_invalid_argument : ℤ
err_invalid_argument = neg 520

abbrev pub err_physical_range : ℤ
err_physical_range = neg 524

abbrev pub err_text_invalid : ℤ
err_text_invalid = neg 525

abbrev pub err_metadata_invalid : ℤ
err_metadata_invalid = neg 526

abbrev pub info_magic : ℕ
info_magic = 0xdeadfeed

pub record Options : Type 0 where
  pub game_title : List ℕ
  pub startup : List ℕ
  pub disc_type : ℕ
  pub layer1_start : ℕ
  pub hdl_compat_flags : ℕ
  pub opl_compat_flags : ℕ
  pub dma_type : ℕ
  pub dma_mode : ℕ

pub record MetadataInfo : Type 0 where
  pub game_title : List ℕ
  pub startup : List ℕ
  pub metadata_version : ℕ
  pub disc_type : ℕ
  pub layer1_start : ℕ
  pub partition_count : ℕ
  pub hdl_compat_flags : ℕ
  pub opl_compat_flags : ℕ
  pub dma_type : ℕ
  pub dma_mode : ℕ

-- `copy_metadata_text` refuses an empty text, and one that does not fit with its zero.
abbrev pub text_refused : List ℕ → ℕ → Bool
text_refused text capacity = length text == 0 || leb capacity (length text)

abbrev put_text : Bytes → ℕ → List ℕ → Bytes
put_text metadata off text = memcpy metadata off (of_list text) (length text)

-- The fields in front of the partition entries, over the two texts.
abbrev pub build_fixed : Plan → Options → Bytes
build_fixed plan options =
    let t0 = put_text (put_text zeros 8 options.game_title) 172 options.startup in
    let t1 = write_le16 (write_le16 (write_le32 t0 0 info_magic) 4 0) 6 1 in
    let t2 = write_8 (write_8 t1 168 options.hdl_compat_flags) 169 options.opl_compat_flags in
    let t3 = write_8 (write_8 t2 170 options.dma_type) 171 options.dma_mode in
    write_le32 (write_le32 (write_le32 t3 232 options.layer1_start) 236 options.disc_type) 240
      plan.count

abbrev pub data_offset_at : ℕ → ℕ
data_offset_at i = if i == 0 then main_data_offset else sub_data_offset

abbrev pub data_start_at : ℕ → ℕ → ℕ
data_start_at i start = start + data_offset_at i / 512

-- The condition of the loop that refuses a slice.
unfoldable pub slice_refused : ℕ → ℕ → ℕ → Slice → Bool
slice_refused i start expected_offset slice =
    leb slice.allocation_bytes (data_offset_at i)
    || slice.payload_offset != expected_offset
    || bit_and slice.payload_offset 2047 != 0
    || bit_and slice.payload_bytes 2047 != 0
    || ltb (slice.allocation_bytes - data_offset_at i) slice.payload_bytes
    || ltb (2 ^ 32 - 1) (data_start_at i start)
    || ltb (2 ^ 32 - 1) (slice.payload_offset / 2048)

abbrev pub put_entry : Bytes → ℕ → ℕ → Slice → Bytes
put_entry metadata i start slice =
    let entry = 244 + i * 12 in
    write_le32
      (write_le32 (write_le32 metadata entry (slice.payload_offset / 2048)) (entry + 4)
        (data_start_at i start))
      (entry + 8) slice.payload_bytes

-- The loop over the slices; at the end the slices have to reach the end of the image.
unfoldable pub build_entries : List Slice → List ℕ → ℕ → ℕ → ℕ → Bytes → Result Bytes
build_entries [] starts i expected_offset image_bytes metadata =
    if expected_offset != image_bytes then err err_physical_range else ok metadata
build_entries (slice ∷ slices) starts i expected_offset image_bytes metadata =
    let start = get_or starts i 0 in
    let rest =
      build_entries slices starts (i + 1) (expected_offset + slice.payload_bytes) image_bytes
        (put_entry metadata i start slice) in
    if slice_refused i start expected_offset slice then err err_physical_range else rest

unfoldable pub metadata_build : Plan → List ℕ → Options → Result Bytes
metadata_build plan starts options =
    if plan.count == 0 || ltb 65 plan.count || length starts != plan.count
    then err err_invalid_argument
    else if text_refused options.game_title 160 || text_refused options.startup 60
    then err err_text_invalid
    else build_entries plan.slices starts 0 0 plan.image_bytes (build_fixed plan options)

-- The characters in front of the first zero, up to `size`.
unfoldable pub text_at : Bytes → ℕ → List ℕ
text_at source zero = []
text_at source (suc size) =
    let rest = text_at (shift source 1) size in if source 0 == 0 then [] else source 0 ∷ rest

unfoldable pub printable : List ℕ → Bool
printable [] = true
printable (c ∷ text) = not (ltb c 0x20 || c == 0x7f) && printable text

-- `read_metadata_text` returns a negative code; the destination has room for one byte more than the source.
abbrev pub read_refused : Bytes → ℕ → Bool
read_refused source size =
    length (text_at source size) == 0
    || leb (size + 1) (length (text_at source size))
    || not (printable (text_at source size))

unfoldable pub metadata_parse : Bytes → Result MetadataInfo
metadata_parse metadata =
    let partition_count = read_le32 (shift metadata 240) in
    let disc = read_le32 (shift metadata 236) in
    if read_le32 metadata != info_magic
      || partition_count == 0
      || ltb 65 partition_count
      || (disc != 0x12 && disc != 0x14)
      || read_refused (shift metadata 8) 160
      || read_refused (shift metadata 172) 60
    then err err_metadata_invalid
    else ok (record {
      game_title = text_at (shift metadata 8) 160;
      startup = text_at (shift metadata 172) 60;
      metadata_version = read_le32 (shift metadata 4);
      disc_type = disc;
      layer1_start = read_le32 (shift metadata 232);
      partition_count = partition_count;
      hdl_compat_flags = metadata 168;
      opl_compat_flags = metadata 169;
      dma_type = metadata 170;
      dma_mode = metadata 171;
    })
