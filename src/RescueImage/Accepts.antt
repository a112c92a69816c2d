-- ===== src/RescueImage/Accepts.antt =====
-- Which images are accepted.
use fhdb_bootstrap_manager.Common.{
  ℕ, ◌+◌, ◌/◌, ◌%◌, ◌≡◌, refl, sym, subst, ◌∙◌, true, false, arith, some,
}
use fhdb_bootstrap_manager.Common.Masks.{bit_and_1, bit_and_2, bit_and_4}
use fhdb_bootstrap_manager.Common.Ints.{pos}
use fhdb_bootstrap_manager.Common.Results.{Result, err, ok}
use fhdb_bootstrap_manager.Common.Bytes.{Bytes, IsBytes, shift, memcpy}
use fhdb_bootstrap_manager.Apa.{is_standard_apa_header}
use fhdb_bootstrap_manager.Kelf.{size_from_disk_image}
use fhdb_bootstrap_manager.Capsule.{Info, encode, decode}
use fhdb_bootstrap_manager.Capsule.Accepts.{IsCoherent, decode_sound}
use fhdb_bootstrap_manager.Capsule.RoundTrip.{IsSavable, decode-encode}
use fhdb_bootstrap_manager.Capsule.Extent.{decode-congr}
use fhdb_bootstrap_manager.RescueImage.{
  digest_matches, check_payload, check_header, check_decoded, validate, kelf_wrong,
}

-- A saved header and payload that are what the capsule records of them.
pub record IsRecorded (header payload : Bytes) (info : Info) : Type 0 where
  pub apa_flag : info.flags % 2 ≡ 1
  pub standard : is_standard_apa_header header ≡ true
  pub header_digest : digest_matches header 1024 info.apa_sha256 ≡ true
  pub payload_digest :
      info.flags / 2 % 2 ≡ 1 → digest_matches payload info.payload_bytes info.payload_sha256 ≡ true
  pub kelf :
      info.flags / 4 % 2 ≡ 1
      → size_from_disk_image payload info.payload_bytes ≡ (pos 0, some info.kelf_file_bytes)

kelf_right :
    (payload : Bytes) (info : Info)
    → kelf_wrong payload info ≡ false
    → size_from_disk_image payload info.payload_bytes ≡ (pos 0, some info.kelf_file_bytes)
unfolding size_from_disk_image
kelf_right payload info h = ground arith

header_sound :
    (image : Bytes) (info out : Info)
    → IsCoherent info
    → check_header image info ≡ ok out
    → IsRecorded (shift image 256) (shift image 1280) info × (out ≡ info)
unfolding check_header check_payload
header_sound image info out c h = (
  record {
    apa_flag = ground (arith, bit_and_1 info.flags);
    standard = ground arith;
    header_digest = ground arith;
    payload_digest = λ f. ground (arith, bit_and_2 info.flags);
    kelf = λ f.
        kelf_right (shift image 1280) info
          (ground (arith, bit_and_2 info.flags, bit_and_4 info.flags, c.kelf_present));
  },
  ground arith,
)

header_complete :
    (image : Bytes) (info : Info)
    → IsCoherent info
    → IsRecorded (shift image 256) (shift image 1280) info
    → check_header image info ≡ ok info
unfolding check_header check_payload
header_complete image info c r = ground (
  arith,
  r.apa_flag,
  r.standard,
  r.header_digest,
  r.payload_digest,
  r.kelf,
  c.known,
  c.kelf_present,
  bit_and_1 info.flags,
  bit_and_2 info.flags,
  bit_and_4 info.flags,
)

decoded_ok :
    (image : Bytes) (r : Result Info) (info : Info)
    → check_decoded image r ≡ ok info
    → (found : Info) × (r ≡ ok found) × (check_header image found ≡ ok info)
unfolding check_decoded
decoded_ok image (err code) info h = absurd (ground (arith, h))
decoded_ok image (ok found) info h = (found, refl, h)

-- An accepted image of bytes has coherent metadata, is exactly as long as the metadata says, and its
-- saved header is a standard one with the recorded digest; where it has a payload, the digest of the
-- payload is the recorded one, and where that is a KELF, the length found in it is the recorded one.
pub validate_sound :
    (image : Bytes) (size : ℕ) (info : Info)
    → IsBytes image
    → validate image size ≡ ok info
    → IsCoherent info
      × (size ≡ 1280 + info.payload_bytes)
      × IsRecorded (shift image 256) (shift image 1280) info
unfolding validate
validate_sound image size info b h =
    let run : check_decoded image (decode image size) ≡ ok info = ground (arith, h) in
    let (found, decodes, checks) = decoded_ok image (decode image size) info run in
    let (_, coherent, whole) = decode_sound image size found b decodes in
    let (recorded, same) = header_sound image found info coherent checks in
    subst
      (λ i.
        IsCoherent i
        × (size ≡ 1280 + i.payload_bytes)
        × IsRecorded (shift image 256) (shift image 1280) i)
      (sym same) (coherent, whole, recorded)

-- The three parts of a rescue file, one behind the other.
abbrev pub assemble : Info → Bytes → Bytes → Bytes
assemble info header payload =
    memcpy (memcpy (encode info) 256 header 1024) 1280 payload info.payload_bytes

-- A file assembled from a state that can be saved and that records the file's header and payload is
-- accepted, with that state.
pub assembled_accepted :
    (info : Info) (header payload : Bytes)
    → IsSavable info
    → IsRecorded
        (shift (assemble info header payload) 256)
        (shift (assemble info header payload) 1280)
        info
    → validate (assemble info header payload) (1280 + info.payload_bytes) ≡ ok info
unfolding validate check_decoded
assembled_accepted info header payload s r =
    let file : Bytes = assemble info header payload in
    let decodes : decode file (1280 + info.payload_bytes) ≡ ok info =
      decode-congr file (encode info) (λ i h. ground arith) (1280 + info.payload_bytes)
      ∙ decode-encode info s in
    rw decodes (ground (arith, header_complete file info s.coherent r))
