-- ===== src/Witnesses/Stores.antt =====
-- The laws that the files in memory keep.
use fhdb_bootstrap_manager.Common.{
  congr_fun, ℕ, suc, ◌+◌, ◌-◌, ◌<◌, ◌≡◌, inl, inr, refl, ap, ◌∙◌, false, List, [], Option, none,
  some, ltb, if◌then◌else◌, Bool-cases, arith, subst,
}
use fhdb_bootstrap_manager.Common.Ints.{ℤ, pos, negsuc, is_neg}
use fhdb_bootstrap_manager.Common.Bytes.{Bytes, zeros, memcpy}
use fhdb_bootstrap_manager.Storage.{OpenMode}
use fhdb_bootstrap_manager.Storage.Laws.{FileLaws}
use fhdb_bootstrap_manager.Witnesses.Memory.{
  same_path, same_path-exact, Store, put, open_found, open_store, end_of, read_part, write_part,
  status_of, memory_files,
}

abbrev to_nat : ℤ → ℕ
to_nat (pos n) = n
to_nat (negsuc n) = 0

to_nat-exact : (a b : ℕ) → pos a ≡ pos b → a ≡ b
to_nat-exact a b e = ap to_nat e

put-others :
    (content : List ℕ → Option (ℕ × Bytes)) (path other : List ℕ) (file : ℕ × Bytes)
    → ¬ (path ≡ other)
    → put content path file other ≡ content other
put-others content path other file differs = elim (Bool-cases (same_path path other)) [
  | inl same ↦ absurd (differs (same_path-exact path other same))
  | inr apart ↦ rw apart refl
]

abbrev handle_of : Store → Option (List ℕ × ℕ)
handle_of s = some (s.path, s.position)

abbrev pair_of : Option (List ℕ × ℕ) → List ℕ × ℕ
pair_of none = ([], 0)
pair_of (some pair) = pair

-- A statement about the open file.
at_handle :
    (P : List ℕ → ℕ → Type 0) (s : Store) (path : List ℕ) (at : ℕ)
    → handle_of s ≡ some (path, at)
    → P s.path s.position
    → P path at
at_handle P s path at e base = subst (λ (h : List ℕ × ℕ). P h.0 h.1) (ap pair_of e) base

open_found-opens :
    (o : Option (ℕ × Bytes)) (path : List ℕ) (s : Store)
    → is_neg (open_found o path s).0 ≡ false
    → handle_of (open_found o path s).1 ≡ some (path, 0)
open_found-opens none path s e = absurd (ground (arith, e))
open_found-opens (some file) path s e = refl

open_found-reads :
    (o : Option (ℕ × Bytes)) (path : List ℕ) (s : Store)
    → (open_found o path s).1.content ≡ s.content
open_found-reads none path s = refl
open_found-reads (some file) path s = refl

open_store-opens :
    (path : List ℕ) (mode : OpenMode) (s : Store)
    → is_neg (open_store path mode s).0 ≡ false
    → handle_of (open_store path mode s).1 ≡ some (path, 0)
open_store-opens path OpenMode.read_only s e = open_found-opens (s.content path) path s e
open_store-opens path OpenMode.write_truncate s e = refl
open_store-opens path OpenMode.write_append s e = absurd (ground (arith, e))

open_store-others :
    (path other : List ℕ) (mode : OpenMode) (s : Store)
    → ¬ (path ≡ other)
    → (open_store path mode s).1.content other ≡ s.content other
open_store-others path other OpenMode.read_only s differs =
    congr_fun (open_found-reads (s.content path) path s) other
open_store-others path other OpenMode.write_truncate s differs =
    put-others s.content path other (0, zeros) differs
open_store-others path other OpenMode.write_append s differs = refl

end_of-reads : (o : Option (ℕ × Bytes)) (s : Store) → (end_of o s).1.content ≡ s.content
end_of-reads none s = refl
end_of-reads (some (size, bytes)) s = refl

end_of-finds :
    (o : Option (ℕ × Bytes)) (s : Store) (size : ℕ)
    → (end_of o s).0 ≡ pos size
    → ((bytes : Bytes) × (o ≡ some (size, bytes)))
      × (handle_of (end_of o s).1 ≡ some (s.path, size))
end_of-finds none s size e = absurd (ground (arith, e))
end_of-finds (some (n, bytes)) s size e =
    let same : n ≡ size = ground (arith, e) in
    ((bytes, ap (λ (k : ℕ). some (k, bytes)) same), ap (λ (k : ℕ). some (s.path, k)) same)

read_part-reads :
    (o : Option (ℕ × Bytes)) (count : ℕ) (s : Store) → (read_part o count s).2.content ≡ s.content
read_part-reads none count s = refl
read_part-reads (some (size, bytes)) count s = refl

abbrev bytes_of : Option (ℕ × Bytes) → Bytes
bytes_of none = zeros
bytes_of (some (size, bytes)) = bytes

read_part-holds :
    (o : Option (ℕ × Bytes)) (count : ℕ) (s : Store) (n : ℕ)
    → (read_part o count s).0 ≡ pos (suc n)
    → ((i : ℕ) → i < suc n → (read_part o count s).1 i ≡ bytes_of o (s.position + i))
      × (handle_of (read_part o count s).2 ≡ some (s.path, s.position + suc n))
read_part-holds none count s n e = absurd (ground (arith, e))
read_part-holds (some (size, bytes)) count s n e =
    let left = size - s.position in
    let got : ℕ = if ltb left count then left else count in
    let same : got ≡ suc n = to_nat-exact got (suc n) e in
    (λ i h. refl, ap (λ (k : ℕ). some (s.path, s.position + k)) same)

write_part-others :
    (o : Option (ℕ × Bytes)) (source : Bytes) (count : ℕ) (s : Store) (other : List ℕ)
    → ¬ (s.path ≡ other)
    → (write_part o source count s).1.content other ≡ s.content other
write_part-others none source count s other differs = refl
write_part-others (some (size, bytes)) source count s other differs =
    put-others s.content s.path other (s.position + count, memcpy bytes s.position source count)
      differs

write_part-moves :
    (o : Option (ℕ × Bytes)) (source : Bytes) (count : ℕ) (s : Store) (n : ℕ)
    → (write_part o source count s).0 ≡ pos n
    → handle_of (write_part o source count s).1 ≡ some (s.path, s.position + n)
write_part-moves none source count s n e = absurd (ground (arith, e))
write_part-moves (some (size, bytes)) source count s n e =
    ap (λ (k : ℕ). some (s.path, s.position + k)) (to_nat-exact count n e)

status_of-reads : (o : Option (ℕ × Bytes)) (s : Store) → (status_of o s).2.content ≡ s.content
status_of-reads none s = refl
status_of-reads (some (size, bytes)) s = refl

-- The laws hold, of the files of the store.
pub stored_laws : (laws : FileLaws Store memory_files) × ((s : Store) → laws.content s ≡ s.content)
stored_laws = (
  record {
    content = λ s. s.content;
    handle = λ s fd. handle_of s;
    opened = open_store-opens;
    open_reads = λ path s. open_found-reads (s.content path) path s;
    open_others = open_store-others;
    seek_reads = λ fd s. (end_of-reads (s.content s.path) s, refl);
    size_found = λ fd s path at size e found.
        at_handle
          (λ p k.
            ((bytes : Bytes) × (s.content p ≡ some (size, bytes)))
            × (handle_of (end_of (s.content s.path) s).1 ≡ some (p, size)))
          s path at e (end_of-finds (s.content s.path) s size found);
    rewound = λ fd s path at e done.
        at_handle (λ p k. handle_of (record s { position = 0 }) ≡ some (p, 0)) s path at e refl;
    read_reads = λ fd count s. read_part-reads (s.content s.path) count s;
    read_holds = λ fd count s path at size n bytes e file got.
        at_handle
          (λ p k.
            s.content p ≡ some (size, bytes)
            → ((i : ℕ) → i < suc n → (read_part (s.content s.path) count s).1 i ≡ bytes (k + i))
              × (handle_of (read_part (s.content s.path) count s).2 ≡ some (p, k + suc n)))
          s path at e
          (λ here.
            let (held, moved) = read_part-holds (s.content s.path) count s n got in
            (
              λ i h. held i h ∙ ap (λ (o : Option (ℕ × Bytes)). bytes_of o (s.position + i)) here,
              moved,
            ))
          file;
    write_others = λ fd source count s path other at e differs.
        write_part-others (s.content s.path) source count s other
          (λ same. differs (at_handle (λ p k. p ≡ other) s path at e same));
    written = λ fd source count s path at n e done.
        at_handle
          (λ p k. handle_of (write_part (s.content s.path) source count s).1 ≡ some (p, k + n)) s
          path at e (write_part-moves (s.content s.path) source count s n done);
    close_reads = λ fd s. refl;
    stat_reads = λ path s. status_of-reads (s.content path) s;
    stat_finds = λ path s file there. rw there refl;
  },
  λ s. refl,
)

abbrev pub memory_laws : FileLaws Store memory_files
memory_laws = stored_laws.0
