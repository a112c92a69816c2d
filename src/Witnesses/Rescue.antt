-- ===== src/Witnesses/Rescue.antt =====
-- A rescue file of the master header, without a payload.
use fhdb_bootstrap_manager.Common.{ℕ, ◌+◌, ◌-◌, ◌<◌, ◌≡◌, refl, ap, ◌∙◌, true, List, [], ◌∷◌, arith}
use fhdb_bootstrap_manager.Common.Results.{ok}
use fhdb_bootstrap_manager.Common.Bytes.{
  Bytes, IsBytes, shift, zeros, of_list, bytes_list, memcpy, memeq, memeq_complete, read_le32,
  memcpy_inside,
}
use fhdb_bootstrap_manager.Common.Arrays.{bytes_list-congr, memcpy_before}
use fhdb_bootstrap_manager.Apa.{apa_checksum, is_standard_apa_header}
use fhdb_bootstrap_manager.Sha256.{sha256_buffer}
use fhdb_bootstrap_manager.Sha256.Digest.{buffer-IsArray, buffer-IsBytes}
use fhdb_bootstrap_manager.Capsule.{Info, encode, encode_numbers, decode}
use fhdb_bootstrap_manager.Capsule.Accepts.{IsCoherent}
use fhdb_bootstrap_manager.Capsule.RoundTrip.{IsSavable, decode-encode}
use fhdb_bootstrap_manager.RescueImage.{digest_matches, validate}
use fhdb_bootstrap_manager.RescueImage.Accepts.{
  IsRecorded, validate_sound, assembled_accepted, assemble,
}
use fhdb_bootstrap_manager.Witnesses.{
  master, master-IsBytes, memcpy-IsBytes, put-IsBytes, all_bytes,
}

abbrev pub header_digest : List ℕ
header_digest = sha256_buffer (bytes_list master 1024)

abbrev info : Info
info = record {
  flags = 1;
  payload_start = 0;
  payload_sectors = 0;
  payload_bytes = 0;
  kelf_file_bytes = 0;
  apa_sha256 = of_list header_digest;
  payload_sha256 = zeros;
  romver = zeros;
  family = zeros;
  confidence = zeros;
}

info-IsCoherent : IsCoherent info
info-IsCoherent = record {
  known = omega arith;
  whole_sectors = refl;
  kelf_inside = omega arith;
  absent = λ f. (refl, refl);
  present = λ f. absurd (omega (arith, f));
  kelf_absent = λ f. refl;
  kelf_present = λ f. absurd (omega (arith, f));
}

info-IsSavable : IsSavable info
info-IsSavable = record {
  coherent = info-IsCoherent;
  start_fits = omega arith;
  file_fits = omega arith;
  apa_digest = buffer-IsArray (bytes_list master 1024);
  payload_digest = λ i h. refl;
  romver_text = λ i h. refl;
  family_text = λ i h. refl;
  confidence_text = λ i h. refl;
}

abbrev file : Bytes
file = assemble info master zeros

file_header : (i : ℕ) → i < 1024 → shift file 256 i ≡ master i
file_header i h =
    let back : 256 + i - 256 ≡ i = omega arith in
    memcpy_before (memcpy (encode info) 256 master 1024) 1280 zeros 0 (256 + i) (omega arith)
    ∙ memcpy_inside (encode info) 256 master 1024 (256 + i) (omega arith) (omega arith)
    ∙ ap master back

header_standard : is_standard_apa_header (shift file 256) ≡ true
unfolding is_standard_apa_header apa_checksum memeq read_le32
header_standard = refl

header_hashed : digest_matches (shift file 256) 1024 (of_list header_digest) ≡ true
unfolding digest_matches
header_hashed =
    memeq_complete (of_list (sha256_buffer (bytes_list (shift file 256) 1024)))
      (of_list header_digest) 32
      (λ i h.
        ap (λ l. of_list (sha256_buffer l) i)
          (bytes_list-congr (shift file 256) master 1024 file_header))

file-IsRecorded : IsRecorded (shift file 256) (shift file 1280) info
file-IsRecorded = record {
  apa_flag = refl;
  standard = header_standard;
  header_digest = header_hashed;
  payload_digest = λ f. absurd (omega (arith, f));
  kelf = λ f. absurd (omega (arith, f));
}

assembled_accepted_example : validate file (1280 + 0) ≡ ok info
assembled_accepted_example = assembled_accepted info master zeros info-IsSavable file-IsRecorded

numbers-IsBytes : IsBytes (encode_numbers info)
unfolding all_bytes
numbers-IsBytes =
    put-IsBytes _ 36 (0 ∷ 4 ∷ 0 ∷ 0 ∷ []) 4
      (put-IsBytes _ 32 (0 ∷ 0 ∷ 0 ∷ 0 ∷ []) 4
        (put-IsBytes _ 28 (0 ∷ 0 ∷ 0 ∷ 0 ∷ []) 4
          (put-IsBytes _ 24 (0 ∷ 0 ∷ 0 ∷ 0 ∷ []) 4
            (put-IsBytes _ 20 (1 ∷ 0 ∷ 0 ∷ 0 ∷ []) 4
              (put-IsBytes _ 16 (0 ∷ 5 ∷ 0 ∷ 0 ∷ []) 4
                (put-IsBytes _ 12 (0 ∷ 1 ∷ 0 ∷ 0 ∷ []) 4
                  (put-IsBytes _ 8 (1 ∷ 0 ∷ 0 ∷ 0 ∷ []) 4
                    (put-IsBytes zeros 0 (b'P' ∷ b'S' ∷ b'2' ∷ b'H' ∷ b'B' ∷ b'R' ∷ b'C' ∷ 0 ∷ []) 8
                      (λ i. omega arith) refl)
                    refl)
                  refl)
                refl)
              refl)
            refl)
          refl)
        refl)
      refl

encoded-IsBytes : IsBytes (encode info)
unfolding encode all_bytes
encoded-IsBytes =
    put-IsBytes _ 168 (0 ∷ 0 ∷ 0 ∷ 0 ∷ []) 4
      (memcpy-IsBytes _ 152 zeros 16
        (memcpy-IsBytes _ 120 zeros 32
          (memcpy-IsBytes _ 104 zeros 16
            (memcpy-IsBytes _ 72 zeros 32
              (memcpy-IsBytes (encode_numbers info) 40 (of_list header_digest) 32 numbers-IsBytes
                (buffer-IsBytes (bytes_list master 1024)))
              (λ i. omega arith))
            (λ i. omega arith))
          (λ i. omega arith))
        (λ i. omega arith))
      refl

file-IsBytes : IsBytes file
file-IsBytes =
    memcpy-IsBytes (memcpy (encode info) 256 master 1024) 1280 zeros 0
      (memcpy-IsBytes (encode info) 256 master 1024 encoded-IsBytes master-IsBytes)
      (λ i. omega arith)

accepted : validate file (1280 + 0) ≡ ok info
accepted = assembled_accepted info master zeros info-IsSavable file-IsRecorded

validate_sound_example :
    IsCoherent info
    × (1280 + 0 ≡ 1280 + info.payload_bytes)
    × IsRecorded (shift file 256) (shift file 1280) info
validate_sound_example = validate_sound file (1280 + 0) info file-IsBytes accepted

decoded_back : decode (encode info) (1280 + 0) ≡ ok info
decoded_back = decode-encode info info-IsSavable
