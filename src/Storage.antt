-- ===== src/Storage.antt =====
-- src/storage.c: whole files over the calls of fileXio, which are an interface over the state of the storage.
-- A path is the list of its characters.

pub mod ReadBack
pub mod Bounded
pub mod Launch
pub mod Laws
use fhdb_bootstrap_manager.Common.{
  ℕ, zero, suc, ◌+◌, ◌-◌, Bool, true, false, not, List, [], ◌∷◌, ◌++◌, ◌||◌, ltb, leb, ◌==◌,
  if◌then◌else◌,
}
use fhdb_bootstrap_manager.Common.Ints.{ℤ, pos, negsuc, neg, is_neg}
use fhdb_bootstrap_manager.Common.Results.{Result, err, ok}
use fhdb_bootstrap_manager.Common.Bytes.{Bytes, zeros, shift, memcpy, memset, write_8, codes}

pub data OpenMode : Type 0 where
  read_only : OpenMode
  write_truncate : OpenMode
  write_append : OpenMode

pub data Whence : Type 0 where
  seek_set : Whence
  seek_end : Whence

-- The calls that the code makes of the file service. A descriptor is what `open_file` returns; `seek` is by
-- 0 bytes; `get_stat` returns the code and the size.
pub record Files (S : Type 0) : Type 0 where
  pub open_file : List ℕ → OpenMode → S → ℤ × S
  pub seek : ℤ → Whence → S → ℤ × S
  pub read : ℤ → ℕ → S → ℤ × Bytes × S
  pub write : ℤ → Bytes → ℕ → S → ℤ × S
  pub close : ℤ → S → S
  pub get_stat : List ℕ → S → ℤ × ℕ × S

-- What `snprintf` leaves of a text in `capacity` characters.
unfoldable pub printed : ℕ → List ℕ → List ℕ
printed zero text = []
printed (suc zero) text = []
printed (suc (suc room)) [] = []
printed (suc (suc room)) (c ∷ text) = c ∷ printed (suc room) text

-- `storage_targets[storage].prefix`
abbrev pub target_prefix : ℕ → List ℕ
target_prefix storage =
    if storage == 0 then codes "mc0:" else if storage == 1 then codes "mc1:" else codes "mass:"

unfoldable pub storage_path : ℕ → ℕ → List ℕ → List ℕ
unfolding printed
storage_path capacity storage filename =
    printed capacity (target_prefix storage ++ codes "/" ++ filename)

-- A size that is not negative.
abbrev pub to_nat : ℤ → ℕ
to_nat (pos n) = n
to_nat (negsuc n) = 0

-- `result == size`
abbrev pub is_size : ℤ → ℕ → Bool
is_size (pos n) size = n == size
is_size (negsuc n) size = false

module _ (S : Type 0) (files : Files S) where
  -- The loop of the two writers, with at most `fuel` rounds to go; a round takes some bytes.
  unfoldable pub write_loop : ℕ → ℤ → Bytes → ℕ → ℕ → S → ℤ × S
  write_loop zero fd data_ size total s = (pos 0, files.close fd s)
  write_loop (suc fuel) fd data_ size total s =
      let (written, after) = files.write fd (shift data_ total) (size - total) s in
      elim (ltb total size) [
        | false ↦ (pos 0, files.close fd s)
        | true ↦ elim written [
          | negsuc n ↦ (negsuc n, files.close fd after)
          | pos zero ↦ (neg 1, files.close fd after)
          | pos (suc n) ↦ write_loop fuel fd data_ size (total + suc n) after
        ]
      ]

  unfoldable pub write_in_mode : OpenMode → List ℕ → Bytes → ℕ → S → ℤ × S
  unfolding write_loop
  write_in_mode mode path data_ size s =
      let (fd, opened) = files.open_file path mode s in
      if is_neg fd then (fd, opened) else write_loop size fd data_ size 0 opened

  unfoldable pub write_whole_file : List ℕ → Bytes → ℕ → S → ℤ × S
  unfolding write_in_mode
  write_whole_file path data_ size s = write_in_mode write_truncate path data_ size s

  unfoldable pub append_log_file : List ℕ → Bytes → ℕ → Bool → S → ℤ × S
  unfolding write_in_mode
  append_log_file path data_ size truncate s =
      write_in_mode (if truncate then write_truncate else write_append) path data_ size s

  -- The loop of the readers; `short` is the code where the file ends early.
  unfoldable pub read_loop : ℕ → ℤ → ℤ → ℕ → ℕ → Bytes → S → ℤ × Bytes × S
  read_loop zero short fd size total data_ s = (pos 0, data_, files.close fd s)
  read_loop (suc fuel) short fd size total data_ s =
      let (result, bytes, after) = files.read fd (size - total) s in
      elim (ltb total size) [
        | false ↦ (pos 0, data_, files.close fd s)
        | true ↦ elim result [
          | negsuc n ↦ (negsuc n, data_, files.close fd after)
          | pos zero ↦ (short, data_, files.close fd after)
          | pos (suc n) ↦
              read_loop fuel short fd size (total + suc n) (memcpy data_ total bytes (suc n)) after
        ]
      ]

  unfoldable pub read_exact_file : List ℕ → Bytes → ℕ → S → ℤ × Bytes × S
  unfolding read_loop
  read_exact_file path data_ size s =
      let (fd, opened) = files.open_file path read_only s in
      let (result, ended) = files.seek fd seek_end opened in
      let (rewound, ready) = files.seek fd seek_set ended in
      if is_neg fd
      then (fd, data_, opened)
      else if not (is_size result size)
      then (neg 1, data_, files.close fd ended)
      else if is_neg rewound
      then (neg 1, data_, files.close fd ready)
      else read_loop size (neg 1) fd size 0 data_ ready

  unfoldable pub path_exists : List ℕ → S → Bool × S
  path_exists path s =
      let (result, size, after) = files.get_stat path s in (not (is_neg result), after)

  -- The part of `read_bounded_file` behind the search for the end of the file.
  unfoldable pub read_sized : ℤ → ℕ → ℤ → S → Result (ℕ × Bytes) × S
  unfolding read_loop
  read_sized fd maximum_size (negsuc n) s = (err (neg 160), files.close fd s)
  read_sized fd maximum_size (pos zero) s = (err (neg 160), files.close fd s)
  read_sized fd maximum_size (pos (suc n)) s =
      let (rewound, ready) = files.seek fd seek_set s in
      let (result, data_, after) = read_loop (suc n) (neg 162) fd (suc n) 0 zeros ready in
      if ltb maximum_size (suc n)
      then (err (neg 160), files.close fd s)
      else if is_neg rewound
      then (err (neg 160), files.close fd ready)
      else if is_neg result
      then (err result, after)
      else (ok (suc n, data_), after)

  -- The allocation succeeds.
  unfoldable pub read_bounded_file : List ℕ → ℕ → S → Result (ℕ × Bytes) × S
  unfolding read_sized
  read_bounded_file path maximum_size s =
      let (fd, opened) = files.open_file path read_only s in
      let (size, ended) = files.seek fd seek_end opened in
      if is_neg fd then (err fd, opened) else read_sized fd maximum_size size ended

  -- The text with a zero behind it and its length; a read gives at most what was asked for, so that the loop
  -- ends at the size of the file.
  unfoldable pub read_text_file : List ℕ → Bytes → ℕ → S → ℤ × Bytes × S
  unfolding read_loop
  read_text_file path buffer capacity s =
      let (fd, opened) = files.open_file path read_only s in
      let (size, ended) = files.seek fd seek_end opened in
      let (rewound, ready) = files.seek fd seek_set ended in
      let (result, text, after) = read_loop (to_nat size) (neg 3) fd (to_nat size) 0 buffer ready in
      if ltb capacity 2
      then (neg 1, buffer, s)
      else if is_neg fd
      then (fd, buffer, opened)
      else if is_neg size || leb capacity (to_nat size)
      then (neg 2, buffer, files.close fd ended)
      else if is_neg rewound
      then (neg 2, buffer, files.close fd ready)
      else if is_neg result
      then (result, text, after)
      else (size, memset text (to_nat size) 0 1, after)

  -- One read, of up to 15 characters.
  unfoldable pub read_romver : S → ℤ × Bytes × S
  read_romver s =
      let (fd, opened) = files.open_file (codes "rom0:ROMVER") read_only s in
      let (received, bytes, after) = files.read fd 15 opened in
      let closed = files.close fd after in
      if is_neg fd then (fd, zeros, opened) else elim received [
        | negsuc n ↦ (negsuc n, memcpy zeros 0 bytes 15, closed)
        | pos zero ↦ (neg 1, memcpy zeros 0 bytes 15, closed)
        | pos (suc n) ↦
            let kept = if leb 16 (suc n) then 15 else suc n in
            (pos kept, write_8 (memcpy zeros 0 bytes 15) kept 0, closed)
      ]
