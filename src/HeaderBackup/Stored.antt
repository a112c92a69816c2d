-- ===== src/HeaderBackup/Stored.antt =====
-- What saving a header backup leaves in the files.
use fhdb_bootstrap_manager.Common.{
  congr_fun, ℕ, ◌≡◌, inl, inr, refl, sym, ◌∙◌, Bool, true, false, ◌&&◌, List, [], ◌∷◌, Option, none,
  some, leb, ◌==◌, Bool-cases, subst,
}
use fhdb_bootstrap_manager.Common.Ints.{is_neg}
use fhdb_bootstrap_manager.Common.Bytes.{Bytes, zeros, memeq, memeq_complete, memeq_sound}
use fhdb_bootstrap_manager.Apa.{header_size, is_standard_apa_header}
use fhdb_bootstrap_manager.Storage.{Files, is_size, read_exact_file, write_whole_file}
use fhdb_bootstrap_manager.Storage.ReadBack.{read_exact_file-keeps, write_whole_file-others}
use fhdb_bootstrap_manager.Storage.Laws.{FileLaws}
use fhdb_bootstrap_manager.Snapshots.Saved.{Holds, compared-Holds, absent-differs, size_no_error}
use fhdb_bootstrap_manager.HeaderBackup.{
  SlotReport, fresh_report, backup_path, reuse_backup, store_backup, try_backup, backup_loop,
  header_backup_save,
}

-- The comparison with its arguments in the other order.
memeq_flip : (a b : Bytes) (n : ℕ) → memeq a b n ≡ true → memeq b a n ≡ true
memeq_flip a b n e = memeq_complete b a n (λ i h. sym (memeq_sound a b n i e h))

module _ (S : Type 0) (files : Files S) (laws : FileLaws S files) where
  -- A slot whose path is returned holds the header.
  abbrev IsStored : Bytes → SlotReport → Bool → S → Type 0
  IsStored current report true s = Holds S files laws s report.path header_size current
  IsStored current report false s = Unit

  reuse_backup-IsStored :
      (current : Bytes) (report : SlotReport) (existing_size : ℕ) (s : S)
      → let (done, tried, after) = reuse_backup S files current report existing_size s in
        IsStored current report done after
  unfolding reuse_backup
  reuse_backup-IsStored current report existing_size s =
      let (read, existing, compared) = read_exact_file S files report.path zeros header_size s in
      elim (Bool-cases (existing_size == header_size)) [
        | inr other ↦ rw other tt
        | inl fits ↦ elim (Bool-cases (is_size read 0)) [
          | inr bad ↦ rw (fits, bad) tt
          | inl done ↦ elim (Bool-cases (is_standard_apa_header existing)) [
            | inr odd ↦ rw (fits, done, odd) tt
            | inl standard ↦ elim (Bool-cases (memeq current existing header_size)) [
              | inr unlike ↦ rw (fits, done, standard, unlike) tt
              | inl same ↦
                  rw (fits, done, standard, same)
                    (compared-Holds S files laws report.path header_size current s
                      (size_no_error read done) (memeq_flip current existing header_size same))
            ]
          ]
        ]
      ]

  store_backup-IsStored :
      (current : Bytes) (report : SlotReport) (s : S)
      → let (done, tried, after) = store_backup S files current report s in
        IsStored current report done after
  unfolding store_backup
  store_backup-IsStored current report s =
      let (written, stored) = write_whole_file S files report.path current header_size s in
      let (verified, back, last) = read_exact_file S files report.path zeros header_size stored in
      elim (Bool-cases (is_size written 0)) [
        | inr bad ↦ rw bad tt
        | inl good ↦ elim (Bool-cases (is_size verified 0)) [
          | inr bad ↦ rw (good, bad) tt
          | inl done ↦ elim (Bool-cases (memeq current back header_size)) [
            | inr unlike ↦ rw (good, done, unlike) tt
            | inl same ↦
                rw (good, done, same)
                  (compared-Holds S files laws report.path header_size current stored
                    (size_no_error verified done) (memeq_flip current back header_size same))
          ]
        ]
      ]

  reuse_backup-keeps :
      (current : Bytes) (report : SlotReport) (existing_size : ℕ) (s : S)
      → laws.content (reuse_backup S files current report existing_size s).2 ≡ laws.content s
  unfolding reuse_backup
  reuse_backup-keeps current report existing_size s =
      let (read, existing, compared) = read_exact_file S files report.path zeros header_size s in
      let kept = read_exact_file-keeps S files laws report.path zeros header_size s in
      let same =
        is_size read 0 && is_standard_apa_header existing && memeq current existing header_size in
      elim (Bool-cases (existing_size == header_size)) [
        | inr other ↦ rw other refl
        | inl fits ↦ elim (Bool-cases same) [
          | inl e ↦ rw (fits, e) kept
          | inr e ↦ rw (fits, e) kept
        ]
      ]

  store_backup-keeps :
      (current : Bytes) (report : SlotReport) (other : List ℕ) (s : S)
      → ¬ (report.path ≡ other)
      → laws.content (store_backup S files current report s).2 other ≡ laws.content s other
  unfolding store_backup
  store_backup-keeps current report other s differs =
      let (written, stored) = write_whole_file S files report.path current header_size s in
      let (verified, back, last) = read_exact_file S files report.path zeros header_size stored in
      let kept =
        write_whole_file-others S files laws report.path other current header_size s differs in
      let read =
        congr_fun (read_exact_file-keeps S files laws report.path zeros header_size stored) other in
      elim (Bool-cases (is_size written 0)) [
        | inr bad ↦ rw bad kept
        | inl good ↦ elim (Bool-cases (is_size verified 0)) [
          | inr bad ↦ rw (good, bad) (read ∙ kept)
          | inl done ↦ elim (Bool-cases (memeq current back header_size)) [
            | inr unlike ↦ rw (good, done, unlike) (read ∙ kept)
            | inl same ↦ rw (good, done, same) (read ∙ kept)
          ]
        ]
      ]

  try_backup-IsStored :
      (current : Bytes) (report : SlotReport) (s : S) (other : List ℕ) (file : ℕ × Bytes)
      → laws.content s other ≡ some file
      → let (done, tried, after) = try_backup S files current report s in
        (laws.content after other ≡ some file) × IsStored current report done after
  unfolding try_backup
  try_backup-IsStored current report s other file there =
      let (result, existing_size, found) = files.get_stat report.path s in
      let seen = record report { read_result = result } in
      let kept = congr_fun (laws.stat_reads report.path s) other ∙ there in
      elim (Bool-cases (is_neg result)) [
        | inl absent ↦ rw absent (
          store_backup-keeps current seen other found
                (absent-differs S files laws report.path other file s there absent)
              ∙ kept,
          store_backup-IsStored current seen found,
        )
        | inr present ↦ rw present (
          congr_fun (reuse_backup-keeps current seen existing_size found) other ∙ kept,
          reuse_backup-IsStored current seen existing_size found,
        )
      ]

  -- What a result promises: the file of a path that is returned holds the header.
  abbrev pub IsBackedUp : Bytes → Option (List ℕ) → S → Type 0
  IsBackedUp current (some path) s = Holds S files laws s path header_size current
  IsBackedUp current none s = Unit

  backup_loop-IsBackedUp :
      (current : Bytes) (reports : List SlotReport) (s : S) (other : List ℕ) (file : ℕ × Bytes)
      → laws.content s other ≡ some file
      → let (saved, tried, after) = backup_loop S files current reports s in
        (laws.content after other ≡ some file) × IsBackedUp current saved after
  unfolding backup_loop
  backup_loop-IsBackedUp current [] s other file there = (there, tt)
  backup_loop-IsBackedUp current (report ∷ reports) s other file there =
      let (done, tried, after) = try_backup S files current report s in
      let (kept, stored) = try_backup-IsStored current report s other file there in
      elim (Bool-cases done) [
        | inl e ↦ rw (e, backup_loop) (kept, subst (λ b. IsStored current report b after) e stored)
        | inr e ↦ rw (e, backup_loop) (backup_loop-IsBackedUp current reports after other file kept)
      ]

  -- Saving a backup of the header changes no file that is there, whatever its outcome, and where it succeeds
  -- the header is in the file of the path that is returned, byte for byte.
  pub header_backup-IsBackedUp :
      (storage : ℕ) (current : Bytes) (diagnostics : List SlotReport) (s : S) (other : List ℕ)
      (file : ℕ × Bytes)
      → laws.content s other ≡ some file
      → let (saved, tried, after) = header_backup_save S files storage current diagnostics s in
        (laws.content after other ≡ some file) × IsBackedUp current saved after
  unfolding header_backup_save
  header_backup-IsBackedUp storage current diagnostics s other file there =
      let reports =
        fresh_report (backup_path storage 0) ∷ fresh_report (backup_path storage 1) ∷ [] in
      elim (Bool-cases (leb 3 storage)) [
        | inl bad ↦ rw bad (there, tt)
        | inr good ↦ rw good (backup_loop-IsBackedUp current reports s other file there)
      ]
