-- ===== src/Witnesses/Memory.antt =====
-- Files in memory.
use fhdb_bootstrap_manager.Common.{
  ℕ, ◌+◌, ◌-◌, ◌≡◌, refl, Bool, true, false, ◌&&◌, List, [], ◌∷◌, Option, none, some, ltb, ◌==◌,
  if◌then◌else◌, arith,
}
use fhdb_bootstrap_manager.Common.Ints.{ℤ, pos, neg}
use fhdb_bootstrap_manager.Common.Bytes.{Bytes, shift, zeros, memcpy}
use fhdb_bootstrap_manager.Storage.{OpenMode, Whence, Files}

unfoldable pub same_path : List ℕ → List ℕ → Bool
same_path [] [] = true
same_path [] (y ∷ ys) = false
same_path (x ∷ xs) [] = false
same_path (x ∷ xs) (y ∷ ys) = x == y && same_path xs ys

pub same_path-exact : (xs ys : List ℕ) → same_path xs ys ≡ true → xs ≡ ys
unfolding same_path
same_path-exact [] [] e = refl
same_path-exact [] (y ∷ ys) e = absurd (ground (arith, e))
same_path-exact (x ∷ xs) [] e = absurd (ground (arith, e))
same_path-exact (x ∷ xs) (y ∷ ys) e =
    let head : x ≡ y = ground (arith, e) in
    let tail : xs ≡ ys = same_path-exact xs ys (ground (arith, e)) in rw (head, tail)

-- The files, and the one open file with its position.
pub record Store : Type 0 where
  pub content : List ℕ → Option (ℕ × Bytes)
  pub path : List ℕ
  pub position : ℕ

abbrev pub put : (List ℕ → Option (ℕ × Bytes)) → List ℕ → ℕ × Bytes → List ℕ → Option (ℕ × Bytes)
put content path file other = if same_path path other then some file else content other

abbrev pub open_found : Option (ℕ × Bytes) → List ℕ → Store → ℤ × Store
open_found none path s = (neg 2, s)
open_found (some file) path s = (pos 3, record s { path = path; position = 0 })

abbrev pub open_store : List ℕ → OpenMode → Store → ℤ × Store
open_store path OpenMode.read_only s = open_found (s.content path) path s
open_store path OpenMode.write_truncate s =
    (pos 3, record { content = put s.content path (0, zeros); path = path; position = 0 })
open_store path OpenMode.write_append s = (neg 1, s)

abbrev pub end_of : Option (ℕ × Bytes) → Store → ℤ × Store
end_of none s = (neg 1, s)
end_of (some (size, bytes)) s = (pos size, record s { position = size })

abbrev seek_store : ℤ → Whence → Store → ℤ × Store
seek_store fd Whence.seek_end s = end_of (s.content s.path) s
seek_store fd Whence.seek_set s = (pos 0, record s { position = 0 })

abbrev pub read_part : Option (ℕ × Bytes) → ℕ → Store → ℤ × Bytes × Store
read_part none count s = (neg 1, zeros, s)
read_part (some (size, bytes)) count s =
    let left = size - s.position in
    let n = if ltb left count then left else count in
    (pos n, shift bytes s.position, record s { position = s.position + n })

abbrev pub write_part : Option (ℕ × Bytes) → Bytes → ℕ → Store → ℤ × Store
write_part none source count s = (neg 1, s)
write_part (some (size, bytes)) source count s = (
  pos count,
  record s {
    content = put s.content s.path (s.position + count, memcpy bytes s.position source count);
    position = s.position + count;
  },
)

abbrev pub status_of : Option (ℕ × Bytes) → Store → ℤ × ℕ × Store
status_of none s = (neg 2, 0, s)
status_of (some (size, bytes)) s = (pos 0, size, s)

abbrev pub memory_files : Files Store
memory_files = record {
  open_file = open_store;
  seek = seek_store;
  read = λ fd count s. read_part (s.content s.path) count s;
  write = λ fd source count s. write_part (s.content s.path) source count s;
  close = λ fd s. s;
  get_stat = λ path s. status_of (s.content path) s;
}
