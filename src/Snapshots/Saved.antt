-- ===== src/Snapshots/Saved.antt =====
-- A snapshot that is saved is in its file, and no file that was there is changed.
use fhdb_bootstrap_manager.Common.{
  congr_fun, ℕ, ◌<◌, ◌≡◌, inl, inr, refl, sym, ◌∙◌, true, false, not, ◌||◌, ◌&&◌, List, [], ◌∷◌,
  Option, none, some, ◌==◌, Bool-cases, Option-cases, arith, subst, leb,
}
use fhdb_bootstrap_manager.Common.Ints.{ℤ, pos, negsuc, is_neg}
use fhdb_bootstrap_manager.Common.Results.{Result, err, ok}
use fhdb_bootstrap_manager.Common.Bytes.{Bytes, zeros, memeq, memeq_sound}
use fhdb_bootstrap_manager.Storage.{Files, is_size, storage_path, read_exact_file, write_whole_file}
use fhdb_bootstrap_manager.Storage.ReadBack.{
  read_exact_file-keeps, read_exact_file-holds, write_whole_file-others,
}
use fhdb_bootstrap_manager.Storage.Laws.{FileLaws}
use fhdb_bootstrap_manager.Snapshots.{
  Failures, path_size, store_slot, reuse_slot, try_slot, save_loop, repair_failures, repair_names,
  repair_snapshot_save,
}
use fhdb_bootstrap_manager.Apa.{header_size}

pub size_no_error : (z : ℤ) → is_size z 0 ≡ true → is_neg z ≡ false
size_no_error (pos n) e = refl
size_no_error (negsuc n) e = absurd (ground (arith, e))

module _ (S : Type 0) (files : Files S) (laws : FileLaws S files) where
  -- The file of a path has the first `size` bytes of an image, and no more.
  abbrev pub Holds : S → List ℕ → ℕ → Bytes → Type 0
  Holds s path size image =
      (bytes : Bytes) × (laws.content s path ≡ some (size, bytes))
      × ((i : ℕ) → i < size → bytes i ≡ image i)

  -- A file that was read and compared.
  pub compared-Holds :
      (path : List ℕ) (size : ℕ) (image : Bytes) (s : S)
      → is_neg (read_exact_file S files path zeros size s).0 ≡ false
      → memeq (read_exact_file S files path zeros size s).1 image size ≡ true
      → Holds (read_exact_file S files path zeros size s).2 path size image
  compared-Holds path size image s done same =
      let (bytes, file, held) = read_exact_file-holds S files laws path zeros size s done in
      let kept = read_exact_file-keeps S files laws path zeros size s in
      (
        bytes,
        congr_fun kept path ∙ file,
        λ i h.
            sym (held i h)
            ∙ memeq_sound (read_exact_file S files path zeros size s).1 image size i same h,
      )

  -- What an outcome promises of the state that is left.
  abbrev pub IsGood : ℕ → Bytes → Option (Result (List ℕ)) → S → Type 0
  IsGood size image (some (ok path)) s = Holds s path size image
  IsGood size image (some (err code)) s = Unit
  IsGood size image none s = Unit

  store_slot-IsGood :
      (failures : Failures) (path : List ℕ) (image : Bytes) (size : ℕ) (s : S)
      → let (outcome, after) = store_slot S files failures path image size s in
        IsGood size image (some outcome) after
  unfolding store_slot
  store_slot-IsGood failures path image size s =
      let (written, stored) = write_whole_file S files path image size s in
      let (verified, back, last) = read_exact_file S files path zeros size stored in
      elim (Bool-cases (is_neg written)) [
        | inl bad ↦ rw bad tt
        | inr good ↦ elim (Bool-cases (is_neg verified)) [
          | inl bad ↦ rw (good, bad) tt
          | inr done ↦ elim (Bool-cases (memeq back image size)) [
            | inr unlike ↦ rw (good, done, unlike) tt
            | inl same ↦ rw (good, done, same) (compared-Holds path size image stored done same)
          ]
        ]
      ]

  reuse_slot-IsGood :
      (path : List ℕ) (existing_size : ℕ) (image : Bytes) (size : ℕ) (s : S)
      → let (outcome, after) = reuse_slot S files path existing_size image size s in
        IsGood size image outcome after
  unfolding reuse_slot
  reuse_slot-IsGood path existing_size image size s =
      let (read, existing, compared) = read_exact_file S files path zeros size s in
      elim (Bool-cases (existing_size == size)) [
        | inr other ↦ rw other tt
        | inl fits ↦ elim (Bool-cases (is_size read 0)) [
          | inr bad ↦ rw (fits, bad) tt
          | inl done ↦ elim (Bool-cases (memeq existing image size)) [
            | inr unlike ↦ rw (fits, done, unlike) tt
            | inl same ↦
                rw (fits, done, same)
                  (compared-Holds path size image s (size_no_error read done) same)
          ]
        ]
      ]

  try_slot-IsGood :
      (failures : Failures) (path : List ℕ) (image : Bytes) (size : ℕ) (s : S)
      → let (outcome, after) = try_slot S files failures path image size s in
        IsGood size image outcome after
  unfolding try_slot
  try_slot-IsGood failures path image size s =
      let (result, existing_size, found) = files.get_stat path s in
      elim (Bool-cases (is_neg result)) [
        | inl absent ↦ rw absent (store_slot-IsGood failures path image size found)
        | inr there ↦ rw there (reuse_slot-IsGood path existing_size image size found)
      ]

  save_loop-IsGood :
      (failures : Failures) (storage : ℕ) (image : Bytes) (size : ℕ) (names : List (List ℕ)) (s : S)
      → let (outcome, after) = save_loop S files failures storage image size names s in
        IsGood size image (some outcome) after
  unfolding save_loop
  save_loop-IsGood failures storage image size [] s = tt
  save_loop-IsGood failures storage image size (name ∷ names) s =
      let slot = storage_path path_size storage name in
      let (outcome, after) = try_slot S files failures slot image size s in
      let good = try_slot-IsGood failures slot image size s in
      elim (Option-cases outcome) [
        | inl next ↦ rw (next, save_loop) (save_loop-IsGood failures storage image size names after)
        | inr (r, known) ↦ rw (known, save_loop) (subst (λ o. IsGood size image o after) known good)
      ]

  -- A saved snapshot is in the file of the path that is returned, byte for byte.
  pub save_loop-Holds :
      (failures : Failures) (storage : ℕ) (image : Bytes) (size : ℕ) (names : List (List ℕ)) (s : S)
      (path : List ℕ)
      → (save_loop S files failures storage image size names s).0 ≡ ok path
      → Holds (save_loop S files failures storage image size names s).1 path size image
  save_loop-Holds failures storage image size names s path e =
      let (outcome, after) = save_loop S files failures storage image size names s in
      subst (λ r. IsGood size image (some r) after) e
        (save_loop-IsGood failures storage image size names s)

  -- A slot that has no file is not that of a file which is there.
  pub absent-differs :
      (path other : List ℕ) (file : ℕ × Bytes) (s : S)
      → laws.content s other ≡ some file
      → is_neg (files.get_stat path s).0 ≡ true
      → ¬ (path ≡ other)
  absent-differs path other file s there absent same =
      let at : laws.content s path ≡ some file = rw same there in
      absurd (ground (arith, absent, laws.stat_finds path s file at))

  store_slot-keeps :
      (failures : Failures) (path other : List ℕ) (image : Bytes) (size : ℕ) (s : S)
      → ¬ (path ≡ other)
      → laws.content (store_slot S files failures path image size s).1 other ≡ laws.content s other
  unfolding store_slot
  store_slot-keeps failures path other image size s differs =
      let (written, stored) = write_whole_file S files path image size s in
      let (verified, back, last) = read_exact_file S files path zeros size stored in
      let kept = write_whole_file-others S files laws path other image size s differs in
      let read = congr_fun (read_exact_file-keeps S files laws path zeros size stored) other in
      elim (Bool-cases (is_neg written)) [
        | inl bad ↦ rw bad kept
        | inr good ↦ elim (Bool-cases (is_neg verified || not (memeq back image size))) [
          | inl bad ↦ rw (good, bad) (read ∙ kept)
          | inr done ↦ rw (good, done) (read ∙ kept)
        ]
      ]

  reuse_slot-keeps :
      (path : List ℕ) (existing_size : ℕ) (image : Bytes) (size : ℕ) (s : S)
      → laws.content (reuse_slot S files path existing_size image size s).1 ≡ laws.content s
  unfolding reuse_slot
  reuse_slot-keeps path existing_size image size s =
      let (read, existing, compared) = read_exact_file S files path zeros size s in
      let kept = read_exact_file-keeps S files laws path zeros size s in
      elim (Bool-cases (existing_size == size)) [
        | inr other ↦ rw other refl
        | inl fits ↦ elim (Bool-cases (is_size read 0 && memeq existing image size)) [
          | inl same ↦ rw (fits, same) kept
          | inr unlike ↦ rw (fits, unlike) kept
        ]
      ]

  try_slot-keeps :
      (failures : Failures) (path other : List ℕ) (image : Bytes) (size : ℕ) (s : S)
      (file : ℕ × Bytes)
      → laws.content s other ≡ some file
      → laws.content (try_slot S files failures path image size s).1 other ≡ some file
  unfolding try_slot
  try_slot-keeps failures path other image size s file there =
      let (result, existing_size, found) = files.get_stat path s in
      let kept = congr_fun (laws.stat_reads path s) other ∙ there in
      elim (Bool-cases (is_neg result)) [
        | inl absent ↦ rw absent (
            store_slot-keeps failures path other image size found
              (absent-differs path other file s there absent)
            ∙ kept)
        | inr found_ ↦
            rw found_
              (congr_fun (reuse_slot-keeps path existing_size image size found) other ∙ kept)
      ]

  -- Saving a snapshot changes no file that is there, whatever its outcome.
  pub save_loop-keeps :
      (failures : Failures) (storage : ℕ) (image : Bytes) (size : ℕ) (names : List (List ℕ)) (s : S)
      (other : List ℕ) (file : ℕ × Bytes)
      → laws.content s other ≡ some file
      → laws.content (save_loop S files failures storage image size names s).1 other ≡ some file
  unfolding save_loop
  save_loop-keeps failures storage image size [] s other file there = there
  save_loop-keeps failures storage image size (name ∷ names) s other file there =
      let slot = storage_path path_size storage name in
      let (outcome, after) = try_slot S files failures slot image size s in
      let kept = try_slot-keeps failures slot other image size s file there in
      elim (Option-cases outcome) [
        | inl next ↦
            rw (next, save_loop)
              (save_loop-keeps failures storage image size names after other file kept)
        | inr (r, known) ↦ rw (known, save_loop) kept
      ]

  -- Before a repair of the master header, the snapshot of its two sectors changes no file that is there,
  -- whatever its outcome, and where it succeeds it is in the file of the path that is returned, byte for byte.
  pub repair_snapshot-IsSaved :
      (storage : ℕ) (header : Bytes) (s : S) (other : List ℕ) (file : ℕ × Bytes)
      → laws.content s other ≡ some file
      → let (outcome, after) = repair_snapshot_save S files storage header s in
        (laws.content after other ≡ some file) × IsGood header_size header (some outcome) after
  unfolding repair_snapshot_save
  repair_snapshot-IsSaved storage header s other file there = elim (Bool-cases (leb 3 storage)) [
    | inl bad ↦ rw bad (there, tt)
    | inr good ↦ rw good (
      save_loop-keeps repair_failures storage header header_size repair_names s other file there,
      save_loop-IsGood repair_failures storage header header_size repair_names s,
    )
  ]
