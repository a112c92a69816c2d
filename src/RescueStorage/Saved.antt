-- ===== src/RescueStorage/Saved.antt =====
-- What the save of a rescue file leaves in the files.
use fhdb_bootstrap_manager.Common.{
  congr_fun, ℕ, ◌<◌, ◌≡◌, inl, inr, refl, sym, ap, ◌∙◌, Bool, true, false, List, [], ◌∷◌, Option,
  none, some, Bool-cases, arith, subst,
}
use fhdb_bootstrap_manager.Common.Ints.{ℤ, is_neg}
use fhdb_bootstrap_manager.Common.Results.{err, ok, Result-cases}
use fhdb_bootstrap_manager.Common.Bytes.{Bytes, memeq, memeq_sound}
use fhdb_bootstrap_manager.Capsule.{Info, encode}
use fhdb_bootstrap_manager.RescueImage.{validate, state_matches}
use fhdb_bootstrap_manager.Storage.{Files, path_exists}
use fhdb_bootstrap_manager.Storage.Laws.{FileLaws}
use fhdb_bootstrap_manager.Snapshots.Saved.{absent-differs}
use fhdb_bootstrap_manager.RescueStorage.{Entry, rescue_path, load_rescue_file, rescue_file_matches}
use fhdb_bootstrap_manager.RescueStorage.Found.{IsFile, loaded-IsFile, load_rescue_file-keeps}
use fhdb_bootstrap_manager.RescueStorage.Writes.{write_rescue_file-keeps}
use fhdb_bootstrap_manager.RescueStorage.Save.{
  is_saved, write_rescue_file, store_rescue, try_save, save_loop,
}

-- A file of the path that passes the validation of rescue files with the flags and the digests of a state.
abbrev pub IsRescued : Info → List ℕ → (List ℕ → Option (ℕ × Bytes)) → Type 0
IsRescued info path content =
    (entry : Entry) × (entry.path ≡ path)
    × IsFile entry content
    × (validate entry.file_data entry.file_size ≡ ok entry.info)
    × (entry.info.flags ≡ info.flags)
    × ((i : ℕ) → i < 32 → entry.info.apa_sha256 i ≡ info.apa_sha256 i)
    × ((i : ℕ) → i < 32 → entry.info.payload_sha256 i ≡ info.payload_sha256 i)

-- What a result promises: a path that is returned has such a file.
abbrev pub IsKept : Info → Option (List ℕ) → (List ℕ → Option (ℕ × Bytes)) → Type 0
IsKept info (some path) content = IsRescued info path content
IsKept info none content = Unit

is_saved-same :
    (info : Info) (entry : Entry)
    → is_saved info (ok entry) ≡ true
    → (entry.info.flags ≡ info.flags)
      × (memeq entry.info.apa_sha256 info.apa_sha256 32 ≡ true)
      × (memeq entry.info.payload_sha256 info.payload_sha256 32 ≡ true)
unfolding is_saved
is_saved-same info entry e = ground (arith, e)

state_matches-saved :
    (info : Info) (entry : Entry)
    → state_matches entry.info info ≡ true
    → is_saved info (ok entry) ≡ true
unfolding state_matches is_saved
state_matches-saved info entry e = ground (arith, e)

failed_load : (info : Info) (code : ℤ) → is_saved info (err code) ≡ false
unfolding is_saved
failed_load info code = refl

module _ (S : Type 0) (files : Files S) (laws : FileLaws S files) where
  -- A file that was loaded and compared.
  loaded-IsRescued :
      (info : Info) (path : List ℕ) (s : S)
      → is_saved info (load_rescue_file S files path s).0 ≡ true
      → IsRescued info path (laws.content (load_rescue_file S files path s).1)
  loaded-IsRescued info path s e =
      let (loaded, after) = load_rescue_file S files path s in
      elim (Result-cases loaded) [
        | inl (code, bad) ↦
            let never = failed_load info code in
            let saved : is_saved info (err code) ≡ true = rw bad at e in
            absurd (ground (arith, never, saved))
        | inr (entry, good) ↦
            let (at, file, valid) = loaded-IsFile S files laws path s entry good in
            let (flags, apa, payload) = is_saved-same info entry (rw good at e) in
            (
              entry,
              at,
              subst (IsFile entry) (sym (load_rescue_file-keeps S files laws path s)) file,
              valid,
              flags,
              λ i h. memeq_sound entry.info.apa_sha256 info.apa_sha256 32 i apa h,
              λ i h. memeq_sound entry.info.payload_sha256 info.payload_sha256 32 i payload h,
            )
      ]

  rescue_file_matches-keeps :
      (path : List ℕ) (info : Info) (s : S)
      → laws.content (rescue_file_matches S files path info s).1 ≡ laws.content s
  unfolding rescue_file_matches
  rescue_file_matches-keeps path info s =
      let (loaded, after) = load_rescue_file S files path s in
      let kept = load_rescue_file-keeps S files laws path s in
      elim (Result-cases loaded) [
        | inl (code, bad) ↦ rw (bad, rescue_file_matches) kept
        | inr (entry, good) ↦ rw (good, rescue_file_matches) kept
      ]

  matching-IsRescued :
      (path : List ℕ) (info : Info) (s : S)
      → (rescue_file_matches S files path info s).0 ≡ true
      → IsRescued info path (laws.content (rescue_file_matches S files path info s).1)
  unfolding rescue_file_matches
  matching-IsRescued path info s e =
      let (loaded, after) = load_rescue_file S files path s in
      elim (Result-cases loaded) [
        | inl (code, bad) ↦ absurd (ground (arith, rw (bad, rescue_file_matches) at e))
        | inr (entry, good) ↦
            let matches : state_matches entry.info info ≡ true =
              rw (good, rescue_file_matches) at e in
            let saved : is_saved info loaded ≡ true =
              ap (is_saved info) good ∙ state_matches-saved info entry matches in
            rw (good, rescue_file_matches) (loaded-IsRescued info path s saved)
      ]

  store_rescue-keeps :
      (storage : ℕ) (path other : List ℕ) (info : Info) (header payload : Bytes) (s : S)
      → ¬ (path ≡ other)
      → laws.content (store_rescue S files storage path info header payload s).1 other
        ≡ laws.content s other
  unfolding store_rescue
  store_rescue-keeps storage path other info header payload s differs =
      let n = info.payload_bytes in
      let (written, stored) =
        write_rescue_file S files storage path (encode info) header payload n s in
      let kept =
        write_rescue_file-keeps S files laws path other differs storage (encode info) header payload
          n s in
      elim (Bool-cases (is_neg written)) [
        | inl bad ↦ rw bad kept
        | inr good ↦
            rw good (congr_fun (load_rescue_file-keeps S files laws path stored) other ∙ kept)
      ]

  stored-IsRescued :
      (storage : ℕ) (path : List ℕ) (info : Info) (header payload : Bytes) (s : S)
      → (store_rescue S files storage path info header payload s).0 ≡ true
      → IsRescued info path
          (laws.content (store_rescue S files storage path info header payload s).1)
  unfolding store_rescue
  stored-IsRescued storage path info header payload s e =
      let (written, stored) =
        write_rescue_file S files storage path (encode info) header payload info.payload_bytes s in
      elim (Bool-cases (is_neg written)) [
        | inl bad ↦ absurd (ground (arith, rw bad at e))
        | inr good ↦ rw good (loaded-IsRescued info path stored (rw good at e))
      ]

  -- What a round promises of a slot whose path is returned.
  abbrev IsDone : Info → List ℕ → Bool → S → Type 0
  IsDone info path true s = IsRescued info path (laws.content s)
  IsDone info path false s = Unit

  round_holds :
      (info : Info) (path : List ℕ) (done : Bool) (s : S)
      → (done ≡ true → IsRescued info path (laws.content s))
      → IsDone info path done s
  round_holds info path true s holds = holds refl
  round_holds info path false s holds = tt

  try_save-IsDone :
      (storage : ℕ) (path : List ℕ) (info : Info) (header payload : Bytes) (s : S) (other : List ℕ)
      (file : ℕ × Bytes)
      → laws.content s other ≡ some file
      → let (done, after) = try_save S files storage path info header payload s in
        (laws.content after other ≡ some file) × IsDone info path done after
  unfolding try_save path_exists
  try_save-IsDone storage path info header payload s other file there =
      let (code, size, found) = files.get_stat path s in
      let (matches, compared) = rescue_file_matches S files path info found in
      let (stored, last) = store_rescue S files storage path info header payload found in
      let kept = congr_fun (laws.stat_reads path s) other ∙ there in
      elim (Bool-cases (is_neg code)) [
        | inr present ↦ rw present (
          congr_fun (rescue_file_matches-keeps path info found) other ∙ kept,
          round_holds info path matches compared (matching-IsRescued path info found),
        )
        | inl absent ↦ rw absent (
          store_rescue-keeps storage path other info header payload found
                (absent-differs S files laws path other file s there absent)
              ∙ kept,
          round_holds info path stored last
              (stored-IsRescued storage path info header payload found),
        )
      ]

  -- The loop over the slots changes no file that is there, and a path that is returned has a file with the
  -- state that is saved.
  pub save_loop-IsKept :
      (storage : ℕ) (info : Info) (header payload : Bytes) (slots : List ℕ) (s : S) (other : List ℕ)
      (file : ℕ × Bytes)
      → laws.content s other ≡ some file
      → let (saved, after) = save_loop S files storage info header payload slots s in
        (laws.content after other ≡ some file) × IsKept info saved (laws.content after)
  unfolding save_loop
  save_loop-IsKept storage info header payload [] s other file there = (there, tt)
  save_loop-IsKept storage info header payload (slot ∷ slots) s other file there =
      let path = rescue_path storage slot in
      let (done, after) = try_save S files storage path info header payload s in
      let (kept, saved) = try_save-IsDone storage path info header payload s other file there in
      elim (Bool-cases done) [
        | inl e ↦ rw (e, save_loop) (kept, subst (λ b. IsDone info path b after) e saved)
        | inr e ↦
            rw (e, save_loop)
              (save_loop-IsKept storage info header payload slots after other file kept)
      ]
