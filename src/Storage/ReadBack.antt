-- ===== src/Storage/ReadBack.antt =====
-- What the whole-file routines of src/storage.c make of the promises of the file service: a file that is read
-- exactly holds the bytes that are returned, and a write changes no file but the one of its path.
use fhdb_bootstrap_manager.Common.{
  congr_fun, ℕ, zero, suc, ◌+◌, ◌-◌, ◌≤◌, ◌<◌, ◌≡◌, ◌⊎◌, inl, inr, refl, sym, ap, ◌∙◌, true, false,
  List, some, ltb, Bool-cases, arith,
}
use fhdb_bootstrap_manager.Common.Ints.{ℤ, pos, negsuc, neg, is_neg}
use fhdb_bootstrap_manager.Common.Bytes.{Bytes, shift, memcpy, memcpy_inside}
use fhdb_bootstrap_manager.Common.Arrays.{memcpy_before}
use fhdb_bootstrap_manager.Storage.{
  read_only, write_truncate, seek_set, seek_end, Files, is_size, write_loop, write_in_mode,
  write_whole_file, read_loop, read_exact_file,
}
use fhdb_bootstrap_manager.Storage.Laws.{FileLaws}

pub ℤ-cases : (z : ℤ) → ((n : ℕ) × (z ≡ negsuc n)) ⊎ (z ≡ pos 0) ⊎ ((n : ℕ) × (z ≡ pos (suc n)))
ℤ-cases (negsuc n) = inl (n, refl)
ℤ-cases (pos zero) = inr (inl refl)
ℤ-cases (pos (suc n)) = inr (inr (n, refl))

is_size-exact : (z : ℤ) (size : ℕ) → is_size z size ≡ true → z ≡ pos size
is_size-exact (pos n) size e = ap pos (ground (arith, e))
is_size-exact (negsuc n) size e = absurd (ground (arith, e))

module _ (S : Type 0) (files : Files S) (laws : FileLaws S files) where
  -- The readers leave all files.
  pub read_loop-keeps :
      (fuel : ℕ) (short fd : ℤ) (size total : ℕ) (data_ : Bytes) (s : S)
      → laws.content (read_loop S files fuel short fd size total data_ s).2 ≡ laws.content s
  unfolding read_loop
  read_loop-keeps zero short fd size total data_ s = laws.close_reads fd s
  read_loop-keeps (suc fuel) short fd size total data_ s =
      let (result, bytes, after) = files.read fd (size - total) s in
      let read = laws.read_reads fd (size - total) s in
      elim (Bool-cases (ltb total size)) [
        | inr done ↦ rw (done, read_loop) (laws.close_reads fd s)
        | inl more ↦ elim (ℤ-cases result) [
          | inl (n, e) ↦ rw (more, e, read_loop) (laws.close_reads fd after ∙ read)
          | inr (inl e) ↦ rw (more, e, read_loop) (laws.close_reads fd after ∙ read)
          | inr (inr (n, e)) ↦
              rw (more, e, read_loop)
                (read_loop-keeps fuel short fd size (total + suc n)
                    (memcpy data_ total bytes (suc n)) after
                  ∙ read)
        ]
      ]

  pub read_exact_file-keeps :
      (path : List ℕ) (data_ : Bytes) (size : ℕ) (s : S)
      → laws.content (read_exact_file S files path data_ size s).2 ≡ laws.content s
  unfolding read_exact_file
  read_exact_file-keeps path data_ size s =
      let (fd, opened) = files.open_file path read_only s in
      let (result, ended) = files.seek fd seek_end opened in
      let (reset, ready) = files.seek fd seek_set ended in
      let kept = laws.open_reads path s in
      let end = (laws.seek_reads fd opened).0 ∙ kept in
      let back = (laws.seek_reads fd ended).1 ∙ end in
      elim (Bool-cases (is_neg fd)) [
        | inl bad ↦ rw bad kept
        | inr good ↦ elim (Bool-cases (is_size result size)) [
          | inr other ↦ rw (good, other) (laws.close_reads fd ended ∙ end)
          | inl same ↦ elim (Bool-cases (is_neg reset)) [
            | inl bad ↦ rw (good, same, bad) (laws.close_reads fd ready ∙ back)
            | inr set ↦
                rw (good, same, set) (read_loop-keeps size (neg 1) fd size 0 data_ ready ∙ back)
          ]
        ]
      ]

  -- A read that succeeds gives the bytes of the file from its position on, behind those read before.
  pub read_loop-holds :
      (fuel : ℕ) (short fd : ℤ) (size total : ℕ) (data_ : Bytes) (s : S) (path : List ℕ)
      (bytes : Bytes)
      → is_neg short ≡ true
      → laws.handle s fd ≡ some (path, total)
      → laws.content s path ≡ some (size, bytes)
      → size ≤ total + fuel
      → ((i : ℕ) → i < total → data_ i ≡ bytes i)
      → is_neg (read_loop S files fuel short fd size total data_ s).0 ≡ false
      → (i : ℕ) → i < size
      → (read_loop S files fuel short fd size total data_ s).1 i ≡ bytes i
  unfolding read_loop
  read_loop-holds zero short fd size total data_ s path bytes bad open_at file fuel before e i h =
      before i (omega arith)
  read_loop-holds (suc fuel) short fd size total data_ s path bytes bad open_at file enough before e
        i h =
      let (result, part, after) = files.read fd (size - total) s in
      elim (Bool-cases (ltb total size)) [
        | inr done ↦ rw (done, read_loop) (before i (ground (arith, done)))
        | inl more ↦ elim (ℤ-cases result) [
          | inl (n, failed) ↦ absurd (ground (arith, rw (more, failed, read_loop) at e))
          | inr (inl failed) ↦ absurd (ground (arith, bad, rw (more, failed, read_loop) at e))
          | inr (inr (n, got)) ↦
              let (held, moved) =
                laws.read_holds fd (size - total) s path total size n bytes open_at file got in
              let filled : (j : ℕ)
                  → j < total + suc n
                  → memcpy data_ total part (suc n) j ≡ bytes j =
                λ j below. elim (Bool-cases (ltb j total)) [
                  | inl early ↦
                      memcpy_before data_ total part (suc n) j (ground (arith, early))
                      ∙ before j (ground (arith, early))
                  | inr late ↦
                      let back : total + (j - total) ≡ j = ground (arith, late) in
                      memcpy_inside data_ total part (suc n) j (ground (arith, late)) below
                      ∙ held (j - total) (ground (arith, late))
                      ∙ ap bytes back
                ] in
              rw (more, got, read_loop)
                (read_loop-holds fuel short fd size (total + suc n)
                  (memcpy data_ total part (suc n)) after path bytes bad moved
                  (congr_fun (laws.read_reads fd (size - total) s) path ∙ file) (omega arith) filled
                  (rw (more, got, read_loop) at e) i h)
        ]
      ]

  -- A file that is read exactly, without an error, has the size asked for and the bytes that are returned.
  pub read_exact_file-holds :
      (path : List ℕ) (data_ : Bytes) (size : ℕ) (s : S)
      → is_neg (read_exact_file S files path data_ size s).0 ≡ false
      → (bytes : Bytes) × (laws.content s path ≡ some (size, bytes))
        × ((i : ℕ) → i < size → (read_exact_file S files path data_ size s).1 i ≡ bytes i)
  unfolding read_exact_file
  read_exact_file-holds path data_ size s e =
      let (fd, opened) = files.open_file path read_only s in
      let (result, ended) = files.seek fd seek_end opened in
      let (reset, ready) = files.seek fd seek_set ended in
      elim (Bool-cases (is_neg fd)) [
        | inl bad ↦ absurd (ground (arith, bad, rw bad at e))
        | inr good ↦ elim (Bool-cases (is_size result size)) [
          | inr other ↦ absurd (ground (arith, rw (good, other) at e))
          | inl same ↦ elim (Bool-cases (is_neg reset)) [
            | inl bad ↦ absurd (ground (arith, rw (good, same, bad) at e))
            | inr set ↦
                let start = laws.opened path read_only s good in
                let ((bytes, file), moved) =
                  laws.size_found fd opened path 0 size start (is_size-exact result size same) in
                let back = laws.rewound fd ended path size moved set in
                let (kept_end, _) = laws.seek_reads fd opened in
                let (_, kept_set) = laws.seek_reads fd ended in
                let whole = congr_fun (kept_set ∙ kept_end) path ∙ file in
                (
                  bytes,
                  congr_fun (sym (laws.open_reads path s)) path ∙ file,
                  rw (good, same, set)
                      (read_loop-holds size (neg 1) fd size 0 data_ ready path bytes refl back whole
                        (omega arith) (λ i h. absurd (omega arith)) (rw (good, same, set) at e)),
                )
          ]
        ]
      ]

  -- A write leaves the files of other paths.
  write_loop-others :
      (fuel : ℕ) (fd : ℤ) (data_ : Bytes) (size total : ℕ) (s : S) (path other : List ℕ) (at : ℕ)
      → laws.handle s fd ≡ some (path, at)
      → ¬ (path ≡ other)
      → laws.content (write_loop S files fuel fd data_ size total s).1 other ≡ laws.content s other
  unfolding write_loop
  write_loop-others zero fd data_ size total s path other at open_at differs =
      congr_fun (laws.close_reads fd s) other
  write_loop-others (suc fuel) fd data_ size total s path other at open_at differs =
      let source = shift data_ total in
      let (result, after) = files.write fd source (size - total) s in
      let closed = λ (t : S). congr_fun (laws.close_reads fd t) other in
      let kept = laws.write_others fd source (size - total) s path other at open_at differs in
      elim (Bool-cases (ltb total size)) [
        | inr done ↦ rw (done, write_loop) (closed s)
        | inl more ↦ elim (ℤ-cases result) [
          | inl (n, e) ↦ rw (more, e, write_loop) (closed after ∙ kept)
          | inr (inl e) ↦ rw (more, e, write_loop) (closed after ∙ kept)
          | inr (inr (n, e)) ↦
              rw (more, e, write_loop)
                (write_loop-others fuel fd data_ size (total + suc n) after path other (at + suc n)
                    (laws.written fd source (size - total) s path at (suc n) open_at e) differs
                  ∙ kept)
        ]
      ]

  pub write_whole_file-others :
      (path other : List ℕ) (data_ : Bytes) (size : ℕ) (s : S)
      → ¬ (path ≡ other)
      → laws.content (write_whole_file S files path data_ size s).1 other ≡ laws.content s other
  unfolding write_whole_file write_in_mode
  write_whole_file-others path other data_ size s differs =
      let (fd, opened) = files.open_file path write_truncate s in
      let kept = laws.open_others path other write_truncate s differs in
      elim (Bool-cases (is_neg fd)) [
        | inl bad ↦ rw bad kept
        | inr good ↦ rw good (
            write_loop-others size fd data_ size 0 opened path other 0
              (laws.opened path write_truncate s good) differs
            ∙ kept)
      ]
