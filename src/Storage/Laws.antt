-- ===== src/Storage/Laws.antt =====
-- What the file service promises.
use fhdb_bootstrap_manager.Common.{ℕ, suc, ◌+◌, ◌<◌, ◌≡◌, false, List, Option, some}
use fhdb_bootstrap_manager.Common.Ints.{ℤ, pos, is_neg}
use fhdb_bootstrap_manager.Common.Bytes.{Bytes}
use fhdb_bootstrap_manager.Storage.{OpenMode, read_only, seek_set, seek_end, Files}

-- A file is its size and its bytes. An open descriptor has a path and a position. A call that only reads
-- leaves all files; opening a file for writing and writing to it leave the others; where there is a file,
-- its status is found.
pub record FileLaws (S : Type 0) (files : Files S) : Type 1 where
  pub content : S → List ℕ → Option (ℕ × Bytes)
  pub handle : S → ℤ → Option (List ℕ × ℕ)
  pub opened :
      (path : List ℕ) (mode : OpenMode) (s : S)
      → is_neg (files.open_file path mode s).0 ≡ false
      → handle (files.open_file path mode s).1 (files.open_file path mode s).0 ≡ some (path, 0)
  pub open_reads :
      (path : List ℕ) (s : S) → content (files.open_file path read_only s).1 ≡ content s
  pub open_others :
      (path other : List ℕ) (mode : OpenMode) (s : S)
      → ¬ (path ≡ other)
      → content (files.open_file path mode s).1 other ≡ content s other
  pub seek_reads :
      (fd : ℤ) (s : S)
      → (content (files.seek fd seek_end s).1 ≡ content s)
        × (content (files.seek fd seek_set s).1 ≡ content s)
  pub size_found :
      (fd : ℤ) (s : S) (path : List ℕ) (at size : ℕ)
      → handle s fd ≡ some (path, at)
      → (files.seek fd seek_end s).0 ≡ pos size
      → ((bytes : Bytes) × (content s path ≡ some (size, bytes)))
        × (handle (files.seek fd seek_end s).1 fd ≡ some (path, size))
  pub rewound :
      (fd : ℤ) (s : S) (path : List ℕ) (at : ℕ)
      → handle s fd ≡ some (path, at)
      → is_neg (files.seek fd seek_set s).0 ≡ false
      → handle (files.seek fd seek_set s).1 fd ≡ some (path, 0)
  pub read_reads : (fd : ℤ) (count : ℕ) (s : S) → content (files.read fd count s).2 ≡ content s
  pub read_holds :
      (fd : ℤ) (count : ℕ) (s : S) (path : List ℕ) (at size n : ℕ) (bytes : Bytes)
      → handle s fd ≡ some (path, at)
      → content s path ≡ some (size, bytes)
      → (files.read fd count s).0 ≡ pos (suc n)
      → ((i : ℕ) → i < suc n → (files.read fd count s).1 i ≡ bytes (at + i))
        × (handle (files.read fd count s).2 fd ≡ some (path, at + suc n))
  pub write_others :
      (fd : ℤ) (data_ : Bytes) (count : ℕ) (s : S) (path other : List ℕ) (at : ℕ)
      → handle s fd ≡ some (path, at)
      → ¬ (path ≡ other)
      → content (files.write fd data_ count s).1 other ≡ content s other
  pub written :
      (fd : ℤ) (data_ : Bytes) (count : ℕ) (s : S) (path : List ℕ) (at n : ℕ)
      → handle s fd ≡ some (path, at)
      → (files.write fd data_ count s).0 ≡ pos n
      → handle (files.write fd data_ count s).1 fd ≡ some (path, at + n)
  pub close_reads : (fd : ℤ) (s : S) → content (files.close fd s) ≡ content s
  pub stat_reads : (path : List ℕ) (s : S) → content (files.get_stat path s).2 ≡ content s
  pub stat_finds :
      (path : List ℕ) (s : S) (file : ℕ × Bytes)
      → content s path ≡ some file
      → is_neg (files.get_stat path s).0 ≡ false
