-- ===== src/HeaderBackup/Saved.antt =====
-- A header backup that is saved is in its file, and one that is found can be restored to this disk.
use fhdb_bootstrap_manager.Common.{
  some-exact, ℕ, ◌<◌, ◌≡◌, inl, inr, refl, true, false, List, [], ◌∷◌, Option, some, leb, ◌==◌,
  Bool-cases, arith, subst,
}
use fhdb_bootstrap_manager.Common.Ints.{is_neg}
use fhdb_bootstrap_manager.Common.Bytes.{Bytes, shift, zeros, read_le32}
use fhdb_bootstrap_manager.Apa.{
  header_size, osd_start_offset, osd_size_offset, is_standard_apa_header, headers_match_same_disk,
}
use fhdb_bootstrap_manager.Storage.{Files, storage_path, read_exact_file}
use fhdb_bootstrap_manager.Storage.ReadBack.{read_exact_file-keeps, read_exact_file-holds}
use fhdb_bootstrap_manager.Storage.Laws.{FileLaws}
use fhdb_bootstrap_manager.HeaderBackup.{
  path_size, enabled_names, Enabled, enabled_loop, header_backup_find_enabled,
}

-- The file of a backup has a standard header of this disk, whose pointer is set, and it is the pointer that
-- is found.
abbrev pub IsRestorable : Bytes → Enabled → (List ℕ → Option (ℕ × Bytes)) → Type 0
IsRestorable current found content =
    (bytes header : Bytes) × (content found.path ≡ some (header_size, bytes))
    × ((i : ℕ) → i < header_size → header i ≡ bytes i)
    × (is_standard_apa_header header ≡ true)
    × (headers_match_same_disk current header ≡ true)
    × (found.start ≡ read_le32 (shift header osd_start_offset))
    × (found.size ≡ read_le32 (shift header osd_size_offset))
    × ((found.start == 0) ≡ false)
    × ((found.size == 0) ≡ false)

module _ (S : Type 0) (files : Files S) (laws : FileLaws S files) where
  enabled_loop-IsRestorable :
      (storage : ℕ) (current : Bytes) (names : List (List ℕ)) (s : S) (found : Enabled)
      → (enabled_loop S files storage current names s).0 ≡ some found
      → IsRestorable current found (laws.content s)
  unfolding enabled_loop
  enabled_loop-IsRestorable storage current [] s found e = absurd (ground (arith, e))
  enabled_loop-IsRestorable storage current (name ∷ names) s found e =
      let path = storage_path path_size storage name in
      let (read, header, after) = read_exact_file S files path zeros header_size s in
      let start = read_le32 (shift header osd_start_offset) in
      let size = read_le32 (shift header osd_size_offset) in
      let here : Enabled = record { path = path; start = start; size = size } in
      let kept = read_exact_file-keeps S files laws path zeros header_size s in
      let later = λ (p : (enabled_loop S files storage current names after).0 ≡ some found).
        subst (IsRestorable current found) kept
          (enabled_loop-IsRestorable storage current names after found p) in
      elim (Bool-cases (is_neg read)) [
        | inl bad ↦ later (rw bad at e)
        | inr done ↦ elim (Bool-cases (is_standard_apa_header header)) [
          | inr odd ↦ later (rw (done, odd) at e)
          | inl standard ↦ elim (Bool-cases (headers_match_same_disk current header)) [
            | inr other ↦ later (rw (done, standard, other) at e)
            | inl ours ↦ elim (Bool-cases (start == 0)) [
              | inl unset ↦ later (rw (done, standard, ours, unset) at e)
              | inr started ↦ elim (Bool-cases (size == 0)) [
                | inl unset ↦ later (rw (done, standard, ours, started, unset) at e)
                | inr sized ↦
                    let (bytes, file, held) =
                      read_exact_file-holds S files laws path zeros header_size s done in
                    let this : some here ≡ some found =
                      rw (done, standard, ours, started, sized) at e in
                    subst (λ (f : Enabled). IsRestorable current f (laws.content s))
                      (some-exact here found this)
                      (bytes, header, file, held, standard, ours, refl, refl, started, sized)
              ]
            ]
          ]
        ]
      ]

  -- A header backup that is found is in the file of the path that is returned: 1024 bytes with a standard
  -- header that matches the current one, and the pointer returned is the one there, neither part of it 0.
  pub found-IsRestorable :
      (storage : ℕ) (current : Bytes) (s : S) (found : Enabled)
      → (header_backup_find_enabled S files storage current s).0 ≡ some found
      → IsRestorable current found (laws.content s)
  unfolding header_backup_find_enabled
  found-IsRestorable storage current s found e = elim (Bool-cases (leb 3 storage)) [
    | inl bad ↦ absurd (ground (arith, rw bad at e))
    | inr good ↦ enabled_loop-IsRestorable storage current enabled_names s found (rw good at e)
  ]
