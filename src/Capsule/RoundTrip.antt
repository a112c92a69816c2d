-- ===== src/Capsule/RoundTrip.antt =====
-- Decoding the metadata that was encoded.
use fhdb_bootstrap_manager.Common.{ℕ, ◌+◌, ◌-◌, ◌%◌, ◌^◌, ◌<◌, ◌≡◌, refl, fun_ext, ◌∙◌, true, arith}
use native.Mathlib.Decide.{dec_lt}
use fhdb_bootstrap_manager.Common.Bytes.{Bytes, shift, memeq, read_le32, read_le32-le32_bytes}
use fhdb_bootstrap_manager.Common.Arrays.{IsArray, array_copied}
use fhdb_bootstrap_manager.Common.Results.{ok}
use fhdb_bootstrap_manager.Capsule.{Info, encode, decode, decoded, terminated_copy, capsule_magic}
use fhdb_bootstrap_manager.Capsule.Accepts.{IsCoherent, coherent_flags}

pub record IsSavable (info : Info) : Type 0 where
  pub coherent : IsCoherent info
  pub start_fits : info.payload_start < 2 ^ 32
  pub file_fits : 1280 + info.payload_bytes < 2 ^ 32
  pub apa_digest : IsArray 32 info.apa_sha256
  pub payload_digest : IsArray 32 info.payload_sha256
  pub romver_text : IsArray 15 info.romver
  pub family_text : IsArray 31 info.family
  pub confidence_text : IsArray 15 info.confidence

text_copied :
    (source field : Bytes) (n : ℕ)
    → IsArray (n - 1) field
    → ((i : ℕ) → i < n → source i ≡ field i)
    → terminated_copy source n ≡ field
text_copied source field n a h = fun_ext (λ i. elim (dec_lt i (n - 1)) [
  | yes inside ↦ ground (arith, h i (omega arith))
  | no behind ↦ ground (arith, a i (omega arith))
])

-- A number that was stored at an offset is read back there.
abbrev HoldsNumber : Info → ℕ → ℕ → Type 0
HoldsNumber info off v = v < 2 ^ 32 → read_le32 (shift (encode info) off) ≡ v

held_flags : (info : Info) → HoldsNumber info 20 info.flags
unfolding encode read_le32
held_flags info = read_le32-le32_bytes info.flags

held_start : (info : Info) → HoldsNumber info 24 info.payload_start
unfolding encode read_le32
held_start info = read_le32-le32_bytes info.payload_start

held_sectors : (info : Info) → HoldsNumber info 28 info.payload_sectors
unfolding encode read_le32
held_sectors info = read_le32-le32_bytes info.payload_sectors

held_payload : (info : Info) → HoldsNumber info 32 info.payload_bytes
unfolding encode read_le32
held_payload info = read_le32-le32_bytes info.payload_bytes

held_kelf : (info : Info) → HoldsNumber info 168 info.kelf_file_bytes
unfolding encode read_le32
held_kelf info = read_le32-le32_bytes info.kelf_file_bytes

held_size : (info : Info) → HoldsNumber info 16 ((1280 + info.payload_bytes) % 2 ^ 32)
unfolding encode read_le32
held_size info = read_le32-le32_bytes ((1280 + info.payload_bytes) % 2 ^ 32)

held_apa : (info : Info) (i : ℕ) → i < 32 → encode info (40 + i) ≡ info.apa_sha256 i
unfolding encode
held_apa info i h = ground arith

held_digest : (info : Info) (i : ℕ) → i < 32 → encode info (72 + i) ≡ info.payload_sha256 i
unfolding encode
held_digest info i h = ground arith

held_romver : (info : Info) (i : ℕ) → i < 16 → encode info (104 + i) ≡ info.romver i
unfolding encode
held_romver info i h = ground arith

held_family : (info : Info) (i : ℕ) → i < 32 → encode info (120 + i) ≡ info.family i
unfolding encode
held_family info i h = ground arith

held_confidence : (info : Info) (i : ℕ) → i < 16 → encode info (152 + i) ≡ info.confidence i
unfolding encode
held_confidence info i h = ground arith

fields_held : (info : Info) → IsSavable info → decoded (encode info) ≡ info
fields_held info s = λ k. record {
  flags = (held_flags info (omega (arith, s.coherent.known))) k;
  payload_start = (held_start info s.start_fits) k;
  payload_sectors = (held_sectors info (omega (arith, s.file_fits, s.coherent.whole_sectors))) k;
  payload_bytes = (held_payload info (omega (arith, s.file_fits))) k;
  kelf_file_bytes = (held_kelf info (omega (arith, s.file_fits, s.coherent.kelf_inside))) k;
  apa_sha256 =
      (array_copied (shift (encode info) 40) info.apa_sha256 32 s.apa_digest (held_apa info)) k;
  payload_sha256 =
      (array_copied (shift (encode info) 72) info.payload_sha256 32 s.payload_digest
          (held_digest info))
        k;
  romver =
      (text_copied (shift (encode info) 104) info.romver 16 s.romver_text (held_romver info)) k;
  family =
      (text_copied (shift (encode info) 120) info.family 32 s.family_text (held_family info)) k;
  confidence =
      (text_copied (shift (encode info) 152) info.confidence 16 s.confidence_text
          (held_confidence info))
        k;
}

marks_held :
    (info : Info)
    → (memeq (encode info) capsule_magic 8 ≡ true)
      × (read_le32 (shift (encode info) 8) ≡ 1)
      × (read_le32 (shift (encode info) 12) ≡ 256)
      × (read_le32 (shift (encode info) 36) ≡ 1024)
unfolding encode memeq read_le32
marks_held info = (refl, refl, refl, refl)

-- The metadata of a coherent state whose numbers fit and whose texts end inside their arrays decodes
-- to that state, for a file of the length it records.
pub decode-encode :
    (info : Info) → IsSavable info → decode (encode info) (1280 + info.payload_bytes) ≡ ok info
unfolding decode
decode-encode info s =
    let same = fields_held info s in
    let (magic, version, size, apa) = marks_held info in
    let total : read_le32 (shift (encode info) 16) ≡ 1280 + info.payload_bytes =
      held_size info (omega arith) ∙ omega (arith, s.file_fits) in
    rw (magic, version, size, apa, total, same)
      (ground (arith, s.file_fits, s.coherent.whole_sectors, coherent_flags info s.coherent))
