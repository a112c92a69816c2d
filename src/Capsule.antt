-- ===== src/Capsule.antt =====
-- src/capsule_format.c and include/capsule_format.h: the metadata in front of a rescue file. What a decoding
-- that fails leaves in `*info` is not modelled; no caller reads it.
pub mod Accepts
pub mod RoundTrip
pub mod Extent
use fhdb_bootstrap_manager.Common.{
  ℕ, ◌+◌, ◌-◌, ◌*◌, ◌/◌, ◌%◌, ◌^◌, Bool, List, [], ◌∷◌, ◌&&◌, ◌||◌, not, ltb, ◌==◌, ◌!=◌,
  if◌then◌else◌, bit_and,
}
use fhdb_bootstrap_manager.Common.Ints.{ℤ, neg}
use fhdb_bootstrap_manager.Common.Results.{Result, err, ok}
use fhdb_bootstrap_manager.Common.Bytes.{
  Bytes, shift, zeros, of_list, memeq, memcpy, write_8, write_le32, read_le32,
}

abbrev pub metadata_size : ℕ
metadata_size = 256

abbrev pub apa_header_size : ℕ
apa_header_size = 1024

abbrev pub flag_valid_apa : ℕ
flag_valid_apa = 0x00000001

abbrev pub flag_has_payload : ℕ
flag_has_payload = 0x00000002

abbrev pub flag_valid_kelf : ℕ
flag_valid_kelf = 0x00000004

-- `~known_flags` as a `uint32_t`.
abbrev pub unknown_flags : ℕ
unknown_flags = 0xfffffff8

pub record Info : Type 0 where
  pub flags : ℕ
  pub payload_start : ℕ
  pub payload_sectors : ℕ
  pub payload_bytes : ℕ
  pub kelf_file_bytes : ℕ
  pub apa_sha256 : Bytes
  pub payload_sha256 : Bytes
  pub romver : Bytes
  pub family : Bytes
  pub confidence : Bytes

-- "PS2HBRC" and its zero.
abbrev pub capsule_magic : Bytes
capsule_magic = of_list (b'P' ∷ b'S' ∷ b'2' ∷ b'H' ∷ b'B' ∷ b'R' ∷ b'C' ∷ 0 ∷ [])

-- The integer fields in front of the digests, `complete_size` reduced as the `uint32_t` it is.
abbrev pub encode_numbers : Info → Bytes
encode_numbers info =
    let m0 = memcpy zeros 0 capsule_magic 8 in
    let m1 = write_le32 m0 8 1 in
    let m2 = write_le32 m1 12 metadata_size in
    let m3 = write_le32 m2 16 ((metadata_size + apa_header_size + info.payload_bytes) % 2 ^ 32) in
    let m4 = write_le32 m3 20 info.flags in
    let m5 = write_le32 m4 24 info.payload_start in
    let m6 = write_le32 m5 28 info.payload_sectors in
    let m7 = write_le32 m6 32 info.payload_bytes in write_le32 m7 36 apa_header_size

unfoldable pub encode : Info → Bytes
encode info =
    let m8 = encode_numbers info in
    let m9 = memcpy m8 40 info.apa_sha256 32 in
    let m10 = memcpy m9 72 info.payload_sha256 32 in
    let m11 = memcpy m10 104 info.romver 16 in
    let m12 = memcpy m11 120 info.family 32 in
    let m13 = memcpy m12 152 info.confidence 16 in write_le32 m13 168 info.kelf_file_bytes

abbrev flag_set : ℕ → ℕ → Bool
flag_set flags flag = bit_and flags flag != 0

-- A text field: the bytes of an array of `n`, the last one overwritten by a zero.
abbrev terminated_copy : Bytes → ℕ → Bytes
terminated_copy source n = write_8 (memcpy zeros 0 source n) (n - 1) 0

abbrev pub decoded : Bytes → Info
decoded metadata = record {
  flags = read_le32 (shift metadata 20);
  payload_start = read_le32 (shift metadata 24);
  payload_sectors = read_le32 (shift metadata 28);
  payload_bytes = read_le32 (shift metadata 32);
  kelf_file_bytes = read_le32 (shift metadata 168);
  apa_sha256 = memcpy zeros 0 (shift metadata 40) 32;
  payload_sha256 = memcpy zeros 0 (shift metadata 72) 32;
  romver = terminated_copy (shift metadata 104) 16;
  family = terminated_copy (shift metadata 120) 32;
  confidence = terminated_copy (shift metadata 152) 16;
}

-- The checks from `known_flags` on, over the fields read.
unfoldable pub check_flags : Info → Result Info
check_flags info =
    if bit_and info.flags unknown_flags != 0
    then err (neg 8)
    else if ltb info.payload_bytes info.kelf_file_bytes
    then err (neg 9)
    else if not (flag_set info.flags flag_has_payload)
        && (info.payload_start != 0 || info.payload_sectors != 0 || info.payload_bytes != 0)
    then err (neg 10)
    else if flag_set info.flags flag_has_payload
        && (info.payload_start == 0 || info.payload_sectors == 0)
    then err (neg 11)
    else if flag_set info.flags flag_valid_kelf
        && (not (flag_set info.flags flag_has_payload) || info.kelf_file_bytes == 0)
    then err (neg 12)
    else if not (flag_set info.flags flag_valid_kelf) && info.kelf_file_bytes != 0
    then err (neg 13)
    else ok info

unfoldable pub decode : Bytes → ℕ → Result Info
decode metadata complete_file_size =
    let info = decoded metadata in
    let recorded_size = read_le32 (shift metadata 16) in
    if not (memeq metadata capsule_magic 8)
    then err (neg 1)
    else if read_le32 (shift metadata 8) != 1
    then err (neg 2)
    else if read_le32 (shift metadata 12) != metadata_size
    then err (neg 3)
    else if read_le32 (shift metadata 36) != apa_header_size
    then err (neg 4)
    else if ltb ((2 ^ 32 - 1) / 512) info.payload_sectors
        || info.payload_bytes != info.payload_sectors * 512
    then err (neg 5)
    else if ltb (2 ^ 32 - 1 - metadata_size - apa_header_size) info.payload_bytes
    then err (neg 6)
    else if recorded_size != metadata_size + apa_header_size + info.payload_bytes
        || complete_file_size != recorded_size
    then err (neg 7)
    else check_flags info
