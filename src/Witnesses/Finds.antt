-- ===== src/Witnesses/Finds.antt =====
-- A rescue file with a payload of one sector, in a store.
use fhdb_bootstrap_manager.Common.{
  ℕ, ◌+◌, ◌-◌, ◌≤◌, ◌<◌, ◌≡◌, inl, inr, refl, sym, ap, ◌∙◌, fun_ext, Bool, true, List, [], ◌∷◌,
  none, some, ltb, Bool-cases, arith, subst,
}
use fhdb_bootstrap_manager.Common.Ints.{pos}
use fhdb_bootstrap_manager.Common.Results.{Result, ok}
use fhdb_bootstrap_manager.Common.Bytes.{
  Bytes, shift, zeros, of_list, bytes_list, memcpy, memeq, memeq_complete, read_le16, read_le32,
  memcpy_inside,
}
use fhdb_bootstrap_manager.Common.Arrays.{bytes_list-congr, memcpy_before, memcpy_behind}
use fhdb_bootstrap_manager.Apa.{apa_checksum, is_standard_apa_header, headers_match_same_disk}
use fhdb_bootstrap_manager.Kelf.{size_from_disk_image, validate_layout}
use fhdb_bootstrap_manager.Sha256.{sha256_buffer}
use fhdb_bootstrap_manager.Sha256.Digest.{buffer-IsArray}
use fhdb_bootstrap_manager.Capsule.{Info, encode}
use fhdb_bootstrap_manager.Capsule.RoundTrip.{IsSavable}
use fhdb_bootstrap_manager.RescueImage.{digest_matches, validate}
use fhdb_bootstrap_manager.RescueImage.Accepts.{assembled_accepted, assemble}
use fhdb_bootstrap_manager.RescueStorage.{
  max_capsule_size, Entry, Seen, seen_nothing, rescue_path, validated, judge_file, load_rescue_file,
  try_rescue, find_loop, rescue_storage_find,
}
use fhdb_bootstrap_manager.Storage.{
  printed, storage_path, read_loop, read_sized, read_bounded_file, path_exists,
}
use fhdb_bootstrap_manager.RescueStorage.Found.{IsUsable, rescue_found-IsUsable}
use fhdb_bootstrap_manager.Witnesses.{master}
use fhdb_bootstrap_manager.Witnesses.Rescue.{header_digest}
use fhdb_bootstrap_manager.Witnesses.Layouts.{kelf}
use fhdb_bootstrap_manager.Witnesses.Stores.{memory_laws}
use fhdb_bootstrap_manager.Witnesses.Memory.{Store, put, same_path, memory_files}

abbrev payload_digest : List ℕ
payload_digest = sha256_buffer (bytes_list kelf 512)

abbrev info : Info
info = record {
  flags = 7;
  payload_start = 0x4000;
  payload_sectors = 1;
  payload_bytes = 512;
  kelf_file_bytes = 72;
  apa_sha256 = of_list header_digest;
  payload_sha256 = of_list payload_digest;
  romver = zeros;
  family = zeros;
  confidence = zeros;
}

info-IsSavable : IsSavable info
info-IsSavable = record {
  coherent = record {
    known = omega arith;
    whole_sectors = refl;
    kelf_inside = omega arith;
    absent = λ f. absurd (omega (arith, f));
    present = λ f. (omega arith, omega arith);
    kelf_absent = λ f. absurd (omega (arith, f));
    kelf_present = λ f. (refl, omega arith);
  };
  start_fits = omega arith;
  file_fits = omega arith;
  apa_digest = buffer-IsArray (bytes_list master 1024);
  payload_digest = buffer-IsArray (bytes_list kelf 512);
  romver_text = λ i h. refl;
  family_text = λ i h. refl;
  confidence_text = λ i h. refl;
}

abbrev pub file : Bytes
file = assemble info master kelf

file_header : (i : ℕ) → i < 1024 → shift file 256 i ≡ master i
file_header i h =
    let back : 256 + i - 256 ≡ i = omega arith in
    memcpy_before (memcpy (encode info) 256 master 1024) 1280 kelf 512 (256 + i) (omega arith)
    ∙ memcpy_inside (encode info) 256 master 1024 (256 + i) (omega arith) (omega arith)
    ∙ ap master back

file_payload : (i : ℕ) → i < 512 → shift file 1280 i ≡ kelf i
file_payload i h =
    let back : 1280 + i - 1280 ≡ i = omega arith in
    memcpy_inside (memcpy (encode info) 256 master 1024) 1280 kelf 512 (1280 + i) (omega arith)
      (omega arith)
    ∙ ap kelf back

hashed :
    (a b : Bytes) (n : ℕ)
    → ((i : ℕ) → i < n → a i ≡ b i)
    → digest_matches a n (of_list (sha256_buffer (bytes_list b n))) ≡ true
unfolding digest_matches
hashed a b n same =
    memeq_complete (of_list (sha256_buffer (bytes_list a n)))
      (of_list (sha256_buffer (bytes_list b n))) 32
      (λ i h. ap (λ l. of_list (sha256_buffer l) i) (bytes_list-congr a b n same))

header_standard : is_standard_apa_header (shift file 256) ≡ true
unfolding is_standard_apa_header apa_checksum memeq read_le32
header_standard = refl

payload_found : size_from_disk_image (shift file 1280) 512 ≡ (pos 0, some 72)
unfolding size_from_disk_image validate_layout read_le16 read_le32
payload_found = refl

accepted : validate file (1280 + 512) ≡ ok info
accepted = assembled_accepted info master kelf info-IsSavable (record {
  apa_flag = refl;
  standard = header_standard;
  header_digest = hashed (shift file 256) master 1024 file_header;
  payload_digest = λ f. hashed (shift file 1280) kelf 512 file_payload;
  kelf = λ f. payload_found;
})

behind : (i : ℕ) → 1792 ≤ i → encode info i ≡ 0
unfolding encode
behind i h = ground arith

-- What is read of the file.
abbrev loaded : Bytes
loaded = memcpy zeros 0 (shift file 0) 1792

loaded_same : loaded ≡ file
loaded_same = fun_ext (λ i. elim (Bool-cases (ltb i 1792)) [
  | inl inside ↦ ground (arith, inside)
  | inr outside ↦
      let beyond : 1792 ≤ i = ground (arith, outside) in
      memcpy_behind zeros 0 (shift file 0) 1792 i beyond
      ∙ sym (
          memcpy_behind (memcpy (encode info) 256 master 1024) 1280 kelf 512 i beyond
          ∙ memcpy_behind (encode info) 256 master 1024 i (omega arith)
          ∙ behind i beyond)
])

abbrev pub disk : Store
disk = record { content = put (λ q. none) (rescue_path 0 0) (1792, file); path = []; position = 0 }

abbrev entry : Entry
entry = record { path = rescue_path 0 0; info = info; file_size = 1792; file_data = loaded }

validated_here : validate loaded 1792 ≡ ok info
validated_here = ap (λ (b : Bytes). validate b 1792) loaded_same ∙ accepted

same_disk : headers_match_same_disk master (shift loaded 256) ≡ true
unfolding headers_match_same_disk memeq
same_disk = refl

abbrev after : Store
after = record disk { path = rescue_path 0 0; position = 1792 }

reads :
    read_bounded_file Store memory_files (rescue_path 0 0) max_capsule_size disk
    ≡ (ok (1792, loaded), after)
unfolding read_bounded_file read_sized read_loop storage_path printed same_path
reads = refl

checks : validated (rescue_path 0 0) (ok (1792, loaded)) ≡ ok entry
unfolding validated
checks = rw (validated_here, validated) refl

abbrev seen : Seen
seen = record seen_nothing { saw_existing = true }

judges : (judge_file master seen (ok entry)).0 ≡ some entry
unfolding judge_file
judges = rw same_disk refl

tries : (try_rescue Store memory_files master (rescue_path 0 0) seen_nothing disk).0 ≡ some entry
unfolding try_rescue load_rescue_file
tries =
    ap
      (λ (r : Result (ℕ × Bytes) × Store).
        (judge_file master seen (validated (rescue_path 0 0) r.0)).0)
      reads
    ∙ ap (λ (l : Result Entry). (judge_file master seen l).0) checks
    ∙ judges

exists : path_exists Store memory_files (rescue_path 0 0) disk ≡ (true, disk)
unfolding path_exists storage_path printed same_path
exists = refl

-- A round that returns an entry.
first_found :
    (current : Bytes) (slots : List ℕ) (s : Store) (e : Entry)
    → (path_exists Store memory_files (rescue_path 0 0) s).0 ≡ true
    → (try_rescue Store memory_files current
        (rescue_path 0 0)
        seen_nothing
        (path_exists Store memory_files (rescue_path 0 0) s).1).0
      ≡ some e
    → (find_loop Store memory_files 0 current (0 ∷ slots) seen_nothing s).0 ≡ ok e
unfolding find_loop
first_found current slots s e present known = rw (present, known, find_loop) refl

found : (rescue_storage_find Store memory_files 0 master disk).0 ≡ ok entry
unfolding rescue_storage_find
found = first_found master (1 ∷ []) disk entry (ap (λ (p : Bool × Store). p.0) exists) (
    subst
      (λ (s : Store).
        (try_rescue Store memory_files master (rescue_path 0 0) seen_nothing s).0 ≡ some entry)
      (sym (ap (λ (p : Bool × Store). p.1) exists)) tries)

rescue_found-IsUsable_example : IsUsable master entry (memory_laws.content disk)
rescue_found-IsUsable_example =
    rescue_found-IsUsable Store memory_files memory_laws 0 master disk entry found
