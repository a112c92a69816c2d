-- ===== src/Storage/Bounded.antt =====
-- What `read_bounded_file` and `read_text_file` of src/storage.c make of the promises of the file service.
use fhdb_bootstrap_manager.Common.{
  congr_fun, ℕ, zero, suc, ◌<◌, ◌≡◌, inl, inr, refl, sym, ◌∙◌, List, some, ltb, leb, ◌||◌, false,
  Bool-cases, arith, subst,
}
use fhdb_bootstrap_manager.Common.Ints.{ℤ, pos, negsuc, neg, is_neg}
use fhdb_bootstrap_manager.Common.Results.{ok, ok-exact}
use fhdb_bootstrap_manager.Common.Bytes.{Bytes, zeros, memcpy_inside}
use fhdb_bootstrap_manager.Common.Arrays.{memcpy_before}
use fhdb_bootstrap_manager.Storage.{
  Files, read_only, seek_set, seek_end, read_loop, read_sized, read_bounded_file, read_text_file,
  to_nat,
}
use fhdb_bootstrap_manager.Storage.ReadBack.{read_loop-keeps, read_loop-holds}
use fhdb_bootstrap_manager.Storage.Laws.{FileLaws}

pos-to_nat : (z : ℤ) → is_neg z ≡ false → z ≡ pos (to_nat z)
pos-to_nat (pos n) e = refl
pos-to_nat (negsuc n) e = absurd (ground (arith, e))

module _ (S : Type 0) (files : Files S) (laws : FileLaws S files) where
  read_sized-keeps :
      (fd : ℤ) (maximum_size : ℕ) (size : ℤ) (s : S)
      → laws.content (read_sized S files fd maximum_size size s).1 ≡ laws.content s
  unfolding read_sized
  read_sized-keeps fd maximum_size (negsuc n) s = laws.close_reads fd s
  read_sized-keeps fd maximum_size (pos zero) s = laws.close_reads fd s
  read_sized-keeps fd maximum_size (pos (suc n)) s =
      let (reset, ready) = files.seek fd seek_set s in
      let (_, set) = laws.seek_reads fd s in
      let read = read_loop-keeps S files laws (suc n) (neg 162) fd (suc n) 0 zeros ready ∙ set in
      let result = (read_loop S files (suc n) (neg 162) fd (suc n) 0 zeros ready).0 in
      elim (Bool-cases (ltb maximum_size (suc n))) [
        | inl large ↦ rw large (laws.close_reads fd s)
        | inr fits ↦ elim (Bool-cases (is_neg reset)) [
          | inl bad ↦ rw (fits, bad) (laws.close_reads fd ready ∙ set)
          | inr good ↦ elim (Bool-cases (is_neg result)) [
            | inl bad ↦ rw (fits, good, bad) read
            | inr done ↦ rw (fits, good, done) read
          ]
        ]
      ]

  -- Reading a file leaves all files.
  pub read_bounded_file-keeps :
      (path : List ℕ) (maximum_size : ℕ) (s : S)
      → laws.content (read_bounded_file S files path maximum_size s).1 ≡ laws.content s
  unfolding read_bounded_file
  read_bounded_file-keeps path maximum_size s =
      let (fd, opened) = files.open_file path read_only s in
      let (size, ended) = files.seek fd seek_end opened in
      let kept = laws.open_reads path s in
      let (end, _) = laws.seek_reads fd opened in
      elim (Bool-cases (is_neg fd)) [
        | inl bad ↦ rw bad kept
        | inr good ↦ rw good (read_sized-keeps fd maximum_size size ended ∙ end ∙ kept)
      ]

  -- A read that succeeds is of a file of the size found, and gives its bytes.
  read_sized-holds :
      (fd : ℤ) (maximum_size : ℕ) (found : ℤ) (s : S) (path : List ℕ) (got : ℕ × Bytes)
      → ((n : ℕ)
          → found ≡ pos n
          → ((bytes : Bytes) × (laws.content s path ≡ some (n, bytes)))
            × (laws.handle s fd ≡ some (path, n)))
      → (read_sized S files fd maximum_size found s).0 ≡ ok got
      → (bytes : Bytes) × (laws.content s path ≡ some (got.0, bytes))
        × ((i : ℕ) → i < got.0 → got.1 i ≡ bytes i)
  unfolding read_sized
  read_sized-holds fd maximum_size (negsuc n) s path got file e = absurd (ground (arith, e))
  read_sized-holds fd maximum_size (pos zero) s path got file e = absurd (ground (arith, e))
  read_sized-holds fd maximum_size (pos (suc n)) s path got file e =
      let (reset, ready) = files.seek fd seek_set s in
      let (_, set) = laws.seek_reads fd s in
      let (result, data_, after) = read_loop S files (suc n) (neg 162) fd (suc n) 0 zeros ready in
      elim (Bool-cases (ltb maximum_size (suc n))) [
        | inl large ↦ absurd (ground (arith, rw large at e))
        | inr fits ↦ elim (Bool-cases (is_neg reset)) [
          | inl bad ↦ absurd (ground (arith, rw (fits, bad) at e))
          | inr good ↦ elim (Bool-cases (is_neg result)) [
            | inl bad ↦ absurd (ground (arith, rw (fits, good, bad) at e))
            | inr done ↦
                let ((bytes, here), open_at) = file (suc n) refl in
                let this : (suc n, data_) ≡ got =
                  ok-exact (suc n, data_) got (rw (fits, good, done) at e) in
                let whole : laws.content ready path ≡ some (suc n, bytes) =
                  congr_fun set path ∙ here in
                subst
                  (λ (g : ℕ × Bytes).
                    (b : Bytes) × (laws.content s path ≡ some (g.0, b))
                    × ((i : ℕ) → i < g.0 → g.1 i ≡ b i))
                  this
                  (
                    bytes,
                    here,
                    read_loop-holds S files laws (suc n) (neg 162) fd (suc n) 0 zeros ready path
                        bytes refl (laws.rewound fd s path (suc n) open_at good) whole (omega arith)
                        (λ i h. absurd (omega arith)) done,
                  )
          ]
        ]
      ]

  -- A bounded file that is read without an error has the size and the bytes that are returned.
  pub read_bounded_file-holds :
      (path : List ℕ) (maximum_size : ℕ) (s : S) (got : ℕ × Bytes)
      → (read_bounded_file S files path maximum_size s).0 ≡ ok got
      → (bytes : Bytes) × (laws.content s path ≡ some (got.0, bytes))
        × ((i : ℕ) → i < got.0 → got.1 i ≡ bytes i)
  unfolding read_bounded_file
  read_bounded_file-holds path maximum_size s got e =
      let (fd, opened) = files.open_file path read_only s in
      let (size, ended) = files.seek fd seek_end opened in
      let (end, _) = laws.seek_reads fd opened in
      elim (Bool-cases (is_neg fd)) [
        | inl bad ↦ absurd (ground (arith, rw bad at e))
        | inr good ↦
            let start = laws.opened path read_only s good in
            let (bytes, file, held) =
              read_sized-holds fd maximum_size size ended path got
                (λ n known.
                  let ((b, here), moved) = laws.size_found fd opened path 0 n start known in
                  ((b, congr_fun end path ∙ here), moved))
                (rw good at e) in
            (bytes, congr_fun (sym (end ∙ laws.open_reads path s)) path ∙ file, held)
      ]

  -- A file of a known size that is read from its start.
  rewound-holds :
      (path : List ℕ) (buffer : Bytes) (fd : ℤ) (n : ℕ) (s : S)
      → let (size, ended) = files.seek fd seek_end s in
        let (rewound, ready) = files.seek fd seek_set ended in
        let (result, text, after) = read_loop S files n (neg 3) fd n 0 buffer ready in
        laws.handle s fd ≡ some (path, 0)
        → size ≡ pos n
        → is_neg rewound ≡ false
        → is_neg result ≡ false
        → (bytes : Bytes) × (laws.content s path ≡ some (n, bytes))
          × ((i : ℕ) → i < n → text i ≡ bytes i)
  rewound-holds path buffer fd n s start known set done =
      let (size, ended) = files.seek fd seek_end s in
      let (rewound, ready) = files.seek fd seek_set ended in
      let ((bytes, here), moved) = laws.size_found fd s path 0 n start known in
      let whole =
        congr_fun (laws.seek_reads fd ended).1 path
        ∙ congr_fun (laws.seek_reads fd s).0 path
        ∙ here in
      (
        bytes,
        here,
        read_loop-holds S files laws n (neg 3) fd n 0 buffer ready path bytes refl
            (laws.rewound fd ended path n moved set) whole (omega arith)
            (λ i h. absurd (omega arith)) done,
      )

  -- A text that is read without an error is the whole file with a zero behind it, and fits the buffer.
  pub read_text_file-holds :
      (path : List ℕ) (buffer : Bytes) (capacity : ℕ) (s : S)
      → let (code, text, after) = read_text_file S files path buffer capacity s in
        is_neg code ≡ false
        → (n : ℕ) × (bytes : Bytes) × (code ≡ pos n)
          × (laws.content s path ≡ some (n, bytes))
          × (n < capacity)
          × ((i : ℕ) → i < n → text i ≡ bytes i)
          × (text n ≡ 0)
  unfolding read_text_file
  read_text_file-holds path buffer capacity s e =
      let (fd, opened) = files.open_file path read_only s in
      let (size, ended) = files.seek fd seek_end opened in
      let (rewound, ready) = files.seek fd seek_set ended in
      let n = to_nat size in
      let (result, text, after) = read_loop S files n (neg 3) fd n 0 buffer ready in
      elim (Bool-cases (ltb capacity 2)) [
        | inl small ↦ absurd (ground (arith, rw small at e))
        | inr room ↦ elim (Bool-cases (is_neg fd)) [
          | inl bad ↦ absurd (ground (arith, bad, rw (room, bad) at e))
          | inr good ↦ elim (Bool-cases (is_neg size || leb capacity n)) [
            | inl bad ↦ absurd (ground (arith, rw (room, good, bad) at e))
            | inr fits ↦ elim (Bool-cases (is_neg rewound)) [
              | inl bad ↦ absurd (ground (arith, rw (room, good, fits, bad) at e))
              | inr set ↦ elim (Bool-cases (is_neg result)) [
                | inl bad ↦ absurd (ground (arith, bad, rw (room, good, fits, set, bad) at e))
                | inr done ↦
                    let known : size ≡ pos n = pos-to_nat size (ground (arith, fits)) in
                    let (bytes, here, held) =
                      rewound-holds path buffer fd n opened (laws.opened path read_only s good)
                        known set done in
                    rw (room, good, fits, set, done)
                      (
                        n,
                        bytes,
                        known,
                        congr_fun (sym (laws.open_reads path s)) path ∙ here,
                        ground (arith, fits),
                        λ i h. memcpy_before text n (λ j. 0) 1 i h ∙ held i h,
                        memcpy_inside text n (λ j. 0) 1 n (omega arith) (omega arith),
                      )
              ]
            ]
          ]
        ]
      ]
