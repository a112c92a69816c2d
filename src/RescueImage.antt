-- ===== src/RescueImage.antt =====
-- src/rescue_image.c and include/rescue_image.h: the validation of a complete rescue file in memory.
-- A null `image` or `info` is not modelled.
pub mod Accepts
use fhdb_bootstrap_manager.Common.{
  ℕ, zero, suc, ◌+◌, ◌-◌, Bool, ◌&&◌, ◌||◌, not, Option, none, some, ltb, leb, ◌==◌, ◌!=◌,
  if◌then◌else◌, bit_and,
}
use fhdb_bootstrap_manager.Common.Ints.{ℤ, pos, negsuc, neg, is_neg}
use fhdb_bootstrap_manager.Common.Results.{Result, err, ok}
use fhdb_bootstrap_manager.Common.Bytes.{Bytes, shift, of_list, bytes_list, memeq}
use fhdb_bootstrap_manager.Apa.{is_standard_apa_header}
use fhdb_bootstrap_manager.Kelf.{size_from_disk_image}
use fhdb_bootstrap_manager.Sha256.{sha256_buffer}
use fhdb_bootstrap_manager.Capsule.{
  Info, decode, metadata_size, apa_header_size, flag_valid_apa, flag_has_payload, flag_valid_kelf,
}

abbrev pub too_small : ℤ
too_small = neg 181

abbrev pub apa_invalid : ℤ
apa_invalid = neg 182

abbrev pub payload_hash_mismatch : ℤ
payload_hash_mismatch = neg 183

abbrev pub kelf_mismatch : ℤ
kelf_mismatch = neg 184

-- `-190 + result`
abbrev pub decode_failure : ℤ → ℤ
decode_failure (pos n) = if leb 190 n then pos (n - 190) else negsuc (189 - n)
decode_failure (negsuc n) = negsuc (n + 190)

-- `memcmp(digest, expected, 32) == 0` after the buffer was hashed into `digest`.
unfoldable pub digest_matches : Bytes → ℕ → Bytes → Bool
digest_matches image n expected = memeq (of_list (sha256_buffer (bytes_list image n))) expected 32

-- `kelf_bytes`, 0 where the search left it alone.
abbrev kelf_bytes_found : Option ℕ → ℕ
kelf_bytes_found none = 0
kelf_bytes_found (some n) = n

abbrev pub kelf_wrong : Bytes → Info → Bool
kelf_wrong saved_payload info =
    let (code, found) = size_from_disk_image saved_payload info.payload_bytes in
    is_neg code || kelf_bytes_found found != info.kelf_file_bytes

unfoldable pub check_payload : Bytes → Info → Result Info
check_payload saved_payload info =
    if bit_and info.flags flag_has_payload != 0
    then if not (digest_matches saved_payload info.payload_bytes info.payload_sha256)
      then err payload_hash_mismatch
      else if bit_and info.flags flag_valid_kelf != 0 && kelf_wrong saved_payload info
      then err kelf_mismatch
      else ok info
    else ok info

unfoldable pub check_header : Bytes → Info → Result Info
check_header image info =
    let saved_header = shift image metadata_size in
    let saved_payload = shift image (metadata_size + apa_header_size) in
    if not (digest_matches saved_header apa_header_size info.apa_sha256)
      || not (is_standard_apa_header saved_header)
      || bit_and info.flags flag_valid_apa == 0
    then err apa_invalid
    else check_payload saved_payload info

unfoldable pub check_decoded : Bytes → Result Info → Result Info
check_decoded image (err code) = err (decode_failure code)
check_decoded image (ok info) = check_header image info

unfoldable pub validate : Bytes → ℕ → Result Info
validate image size =
    if ltb size (metadata_size + apa_header_size)
    then err too_small
    else check_decoded image (decode image size)

unfoldable pub state_matches : Info → Info → Bool
state_matches existing expected =
    existing.flags == expected.flags
    && existing.payload_start == expected.payload_start
    && existing.payload_sectors == expected.payload_sectors
    && existing.payload_bytes == expected.payload_bytes
    && memeq existing.apa_sha256 expected.apa_sha256 32
    && memeq existing.payload_sha256 expected.payload_sha256 32
