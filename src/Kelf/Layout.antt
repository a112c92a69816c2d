-- ===== src/Kelf/Layout.antt =====
-- What the structural checks of a KELF establish.
use fhdb_bootstrap_manager.Common.{ℕ, ◌+◌, ◌^◌, ◌≤◌, ◌<◌, ◌≡◌, true, false, some, arith}
use fhdb_bootstrap_manager.Common.Ints.{pos, is_neg}
use fhdb_bootstrap_manager.Common.Bytes.{
  Bytes, shift, read_le16, read_le32, read_le16-congr, read_le32-congr,
}
use native.Mathlib.Decide.{dec_lt}
use fhdb_bootstrap_manager.Kelf.{
  elf_size, header_size, table_end, key_area, has_variable_section, validate_layout,
  size_from_disk_image,
}

pub record IsKelf (kelf : Bytes) (size : ℕ) : Type 0 where
  pub header_room : 32 ≤ header_size kelf
  pub exact : header_size kelf + elf_size kelf ≡ size
  pub payload : 1 ≤ elf_size kelf
  pub table_inside : table_end kelf ≤ header_size kelf
  pub length_inside : has_variable_section kelf ≡ true → table_end kelf < header_size kelf
  pub key_inside : key_area kelf + 32 ≤ header_size kelf

-- A file that passes is exactly its header and its payload long, and its BIT table, the length byte of
-- its variable section and its key area lie inside the header.
pub layout_sound :
    (kelf : Bytes) (size : ℕ) → size < 2 ^ 32 → validate_layout kelf size ≡ pos 0 → IsKelf kelf size
unfolding validate_layout
layout_sound kelf size w e = record {
  header_room = ground arith;
  exact = ground arith;
  payload = ground arith;
  table_inside = ground arith;
  length_inside = λ v. ground arith;
  key_inside = ground arith;
}

-- The length found in a sector image is that of a KELF that fits the image and passes the checks.
pub image_size_sound :
    (kelf : Bytes) (disk_bytes n : ℕ)
    → disk_bytes < 2 ^ 32
    → size_from_disk_image kelf disk_bytes ≡ (pos 0, some n)
    → (n ≤ disk_bytes)
      × (is_neg (validate_layout kelf n) ≡ false)
      × (n ≡ header_size kelf + elf_size kelf)
unfolding size_from_disk_image
image_size_sound kelf disk_bytes n w e = ground arith

-- A KELF that passes the checks is found again, with its exact length, in any image that holds it,
-- whatever the padding behind it.
pub image_size_complete :
    (kelf : Bytes) (size disk_bytes : ℕ)
    → disk_bytes < 2 ^ 32
    → validate_layout kelf size ≡ pos 0
    → size ≤ disk_bytes
    → size_from_disk_image kelf disk_bytes ≡ (pos 0, some size)
unfolding size_from_disk_image
image_size_complete kelf size disk_bytes w e p =
    let k = layout_sound kelf size (omega arith) e in
    ground (arith, k.exact, k.payload, k.header_room, e)

same_half :
    (a b : Bytes) (k : ℕ)
    → ((i : ℕ) → i < 32 → a i ≡ b i)
    → k + 1 < 32
    → read_le16 (shift a k) ≡ read_le16 (shift b k)
same_half a b k h p =
    read_le16-congr (shift a k) (shift b k) (h _ (omega arith)) (h _ (omega arith))

same_word :
    (a b : Bytes) (k : ℕ)
    → ((i : ℕ) → i < 32 → a i ≡ b i)
    → k + 3 < 32
    → read_le32 (shift a k) ≡ read_le32 (shift b k)
same_word a b k h p =
    read_le32-congr (shift a k) (shift b k) (h _ (omega arith)) (h _ (omega arith))
      (h _ (omega arith)) (h _ (omega arith))

-- The checks read no byte at or behind `size`.
pub layout_reads_inside :
    (a b : Bytes) (size : ℕ)
    → ((i : ℕ) → i < size → a i ≡ b i)
    → validate_layout a size ≡ validate_layout b size
unfolding validate_layout
layout_reads_inside a b size h = elim (dec_lt size 32) [
  | yes short ↦ ground arith
  | no long ↦
      let at = λ (i : ℕ) (p : i < 32). h i (omega arith) in
      ground (
        arith,
        at 0 (omega arith),
        at 1 (omega arith),
        at 2 (omega arith),
        at 3 (omega arith),
        same_word a b 16 at (omega arith),
        same_half a b 20 at (omega arith),
        same_half a b 24 at (omega arith),
        same_half a b 26 at (omega arith),
        h (table_end a),
      )
]
