-- ===== src/RescueStorage/Found.antt =====
-- The rescue file that is found is a valid one of this disk.
use fhdb_bootstrap_manager.Common.{
  some-exact, ℕ, ◌<◌, ◌≡◌, inl, inr, refl, ap, ◌∙◌, bit_and, true, false, List, [], ◌∷◌, Option,
  some, leb, ◌==◌, Bool-cases, Option-cases, arith, subst,
}
use fhdb_bootstrap_manager.Common.Results.{Result, err, ok, ok-exact, Result-cases}
use fhdb_bootstrap_manager.Common.Bytes.{Bytes, shift}
use fhdb_bootstrap_manager.Apa.{headers_match_same_disk}
use fhdb_bootstrap_manager.Capsule.{metadata_size, flag_has_payload, flag_valid_kelf}
use fhdb_bootstrap_manager.RescueImage.{validate}
use fhdb_bootstrap_manager.Storage.{Files, path_exists, read_bounded_file}
use fhdb_bootstrap_manager.Storage.Laws.{FileLaws}
use fhdb_bootstrap_manager.Storage.Bounded.{read_bounded_file-holds, read_bounded_file-keeps}
use fhdb_bootstrap_manager.RescueStorage.{
  max_capsule_size, rescue_path, Entry, Seen, seen_nothing, validated, judge_file, load_rescue_file,
  try_rescue, find_loop, rescue_storage_find,
}

-- The bytes of an entry are those of a file.
abbrev pub IsFile : Entry → (List ℕ → Option (ℕ × Bytes)) → Type 0
IsFile entry content =
    (bytes : Bytes) × (content entry.path ≡ some (entry.file_size, bytes))
    × ((i : ℕ) → i < entry.file_size → entry.file_data i ≡ bytes i)

-- The bytes of an entry are a file, a rescue file that is valid, of this disk, with a payload and a KELF.
abbrev pub IsUsable : Bytes → Entry → (List ℕ → Option (ℕ × Bytes)) → Type 0
IsUsable current entry content =
    IsFile entry content
    × (validate entry.file_data entry.file_size ≡ ok entry.info)
    × (headers_match_same_disk current (shift entry.file_data metadata_size) ≡ true)
    × ((bit_and entry.info.flags flag_has_payload == 0) ≡ false)
    × ((bit_and entry.info.flags flag_valid_kelf == 0) ≡ false)

validated-valid :
    (path : List ℕ) (read : Result (ℕ × Bytes)) (entry : Entry)
    → validated path read ≡ ok entry
    → (entry.path ≡ path)
      × (read ≡ ok (entry.file_size, entry.file_data))
      × (validate entry.file_data entry.file_size ≡ ok entry.info)
unfolding validated
validated-valid path (err code) entry e = absurd (ground (arith, e))
validated-valid path (ok (size, bytes)) entry e = elim (Result-cases (validate bytes size)) [
  | inl (code, bad) ↦ absurd (ground (arith, rw (bad, validated) at e))
  | inr (info, good) ↦
      let made : Entry = record { path = path; info = info; file_size = size; file_data = bytes } in
      let this : made ≡ entry = ok-exact made entry (rw (good, validated) at e) in
      let first : Result (ℕ × Bytes) = ok (size, bytes) in
      subst
        (λ (x : Entry).
          (x.path ≡ path)
          × (first ≡ ok (x.file_size, x.file_data))
          × (validate x.file_data x.file_size ≡ ok x.info))
        this (refl, refl, good)
]

judge_file-some :
    (current : Bytes) (seen : Seen) (loaded : Result Entry) (entry : Entry)
    → (judge_file current seen loaded).0 ≡ some entry
    → (loaded ≡ ok entry)
      × (headers_match_same_disk current (shift entry.file_data metadata_size) ≡ true)
      × ((bit_and entry.info.flags flag_has_payload == 0) ≡ false)
      × ((bit_and entry.info.flags flag_valid_kelf == 0) ≡ false)
unfolding judge_file
judge_file-some current seen (err code) entry e = absurd (ground (arith, e))
judge_file-some current seen (ok made) entry e =
    elim (Bool-cases (headers_match_same_disk current (shift made.file_data metadata_size))) [
      | inr other ↦ absurd (ground (arith, rw other at e))
      | inl ours ↦ elim (Bool-cases (bit_and made.info.flags flag_has_payload == 0)) [
        | inl bare ↦ absurd (ground (arith, rw (ours, bare) at e))
        | inr full ↦ elim (Bool-cases (bit_and made.info.flags flag_valid_kelf == 0)) [
          | inl bad ↦ absurd (ground (arith, rw (ours, full, bad) at e))
          | inr kelf ↦
              subst
                (λ (x : Entry).
                  (ok made ≡ ok x)
                  × (headers_match_same_disk current (shift x.file_data metadata_size) ≡ true)
                  × ((bit_and x.info.flags flag_has_payload == 0) ≡ false)
                  × ((bit_and x.info.flags flag_valid_kelf == 0) ≡ false))
                (some-exact made entry (rw (ours, full, kelf) at e)) (refl, ours, full, kelf)
        ]
      ]
    ]

module _ (S : Type 0) (files : Files S) (laws : FileLaws S files) where
  pub loaded-IsFile :
      (path : List ℕ) (s : S) (entry : Entry)
      → (load_rescue_file S files path s).0 ≡ ok entry
      → (entry.path ≡ path)
        × IsFile entry (laws.content s)
        × (validate entry.file_data entry.file_size ≡ ok entry.info)
  unfolding load_rescue_file
  loaded-IsFile path s entry e =
      let read = (read_bounded_file S files path max_capsule_size s).0 in
      let (at, got, valid) = validated-valid path read entry e in
      let (bytes, file, held) =
        read_bounded_file-holds S files laws path max_capsule_size s
          (entry.file_size, entry.file_data) got in
      (at, (bytes, ap (laws.content s) at ∙ file, held), valid)

  pub load_rescue_file-keeps :
      (path : List ℕ) (s : S) → laws.content (load_rescue_file S files path s).1 ≡ laws.content s
  unfolding load_rescue_file
  load_rescue_file-keeps path s = read_bounded_file-keeps S files laws path max_capsule_size s

  try_rescue-IsUsable :
      (current : Bytes) (path : List ℕ) (seen : Seen) (s : S) (entry : Entry)
      → (try_rescue S files current path seen s).0 ≡ some entry
      → IsUsable current entry (laws.content s)
  unfolding try_rescue
  try_rescue-IsUsable current path seen s entry e =
      let (loaded, ours, full, kelf) =
        judge_file-some current (record seen { saw_existing = true })
          (load_rescue_file S files path s).0 entry e in
      let (at, file, valid) = loaded-IsFile path s entry loaded in (file, valid, ours, full, kelf)

  try_rescue-keeps :
      (current : Bytes) (path : List ℕ) (seen : Seen) (s : S)
      → laws.content (try_rescue S files current path seen s).2 ≡ laws.content s
  unfolding try_rescue
  try_rescue-keeps current path seen s = load_rescue_file-keeps path s

  find_loop-IsUsable :
      (storage : ℕ) (current : Bytes) (slots : List ℕ) (seen : Seen) (s : S) (entry : Entry)
      → (find_loop S files storage current slots seen s).0 ≡ ok entry
      → IsUsable current entry (laws.content s)
  unfolding find_loop path_exists
  find_loop-IsUsable storage current [] seen s entry e = absurd (ground (arith, e))
  find_loop-IsUsable storage current (slot ∷ slots) seen s entry e =
      let path = rescue_path storage slot in
      let (exists, found) = path_exists S files path s in
      let (outcome, next, after) = try_rescue S files current path seen found in
      let stat = laws.stat_reads path s in
      let kept = try_rescue-keeps current path seen found ∙ stat in
      elim (Bool-cases exists) [
        | inr absent ↦ subst (IsUsable current entry) stat (
            find_loop-IsUsable storage current slots seen found entry (rw (absent, find_loop) at e))
        | inl present ↦ elim (Option-cases outcome) [
          | inl more ↦ subst (IsUsable current entry) kept (
              find_loop-IsUsable storage current slots next after entry
                (rw (present, more, find_loop) at e))
          | inr (made, known) ↦
              let this : made ≡ entry = ok-exact made entry (rw (present, known, find_loop) at e) in
              subst (IsUsable current entry) stat
                (try_rescue-IsUsable current path seen found entry (known ∙ ap some this))
        ]
      ]

  -- A rescue file that is found is in the file of its path, byte for byte, passes the validation of rescue
  -- files with its metadata, is of the disk with the current header, and has a payload that is a valid KELF.
  pub rescue_found-IsUsable :
      (storage : ℕ) (current : Bytes) (s : S) (entry : Entry)
      → (rescue_storage_find S files storage current s).0 ≡ ok entry
      → IsUsable current entry (laws.content s)
  unfolding rescue_storage_find
  rescue_found-IsUsable storage current s entry e = elim (Bool-cases (leb 3 storage)) [
    | inl bad ↦ absurd (ground (arith, rw bad at e))
    | inr good ↦ find_loop-IsUsable storage current (0 ∷ 1 ∷ []) seen_nothing s entry (rw good at e)
  ]
