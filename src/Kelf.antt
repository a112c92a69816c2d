-- ===== src/Kelf.antt =====
-- src/kelf.c and include/kelf.h: structural checks of a KELF file, and its length in a sector image.
pub mod Layout
use fhdb_bootstrap_manager.Common.{
  ℕ, ◌+◌, ◌-◌, ◌*◌, ◌%◌, ◌^◌, bit_and, Bool, ◌&&◌, ◌||◌, ltb, leb, ◌==◌, ◌!=◌, if◌then◌else◌,
  Option, none, some,
}
use fhdb_bootstrap_manager.Common.Ints.{ℤ, pos, negsuc, neg, is_neg}
use fhdb_bootstrap_manager.Common.Bytes.{Bytes, shift, read_le16, read_le32}

abbrev pub fixed_header_size : ℕ
fixed_header_size = 32

abbrev pub bit_block_size : ℕ
bit_block_size = 16

abbrev pub max_bit_count : ℕ
max_bit_count = 63

abbrev pub elf_size_offset : ℕ
elf_size_offset = 0x10

abbrev pub header_size_offset : ℕ
header_size_offset = 0x14

abbrev pub flags_offset : ℕ
flags_offset = 0x18

abbrev pub bit_count_offset : ℕ
bit_count_offset = 0x1a

abbrev pub optional_area_bytes : ℕ
optional_area_bytes = 8

abbrev pub key_area_bytes : ℕ
key_area_bytes = 32

abbrev pub elf_size : Bytes → ℕ
elf_size kelf = read_le32 (shift kelf elf_size_offset)

abbrev pub header_size : Bytes → ℕ
header_size kelf = read_le16 (shift kelf header_size_offset)

abbrev pub has_variable_section : Bytes → Bool
has_variable_section kelf = bit_and (read_le16 (shift kelf flags_offset)) 1 != 0

abbrev pub has_optional_area : Bytes → Bool
has_optional_area kelf = bit_and (read_le16 (shift kelf flags_offset)) 0xf000 == 0

-- `offset` behind the BIT table, then behind the variable section, then behind the optional area.
-- With at most 63 BIT entries these sums stay far below 2 ^ 32.
abbrev pub table_end : Bytes → ℕ
table_end kelf = fixed_header_size + read_le16 (shift kelf bit_count_offset) * bit_block_size

abbrev pub variable_end : Bytes → ℕ
variable_end kelf =
    if has_variable_section kelf
    then table_end kelf + (kelf (table_end kelf) + 1)
    else table_end kelf

abbrev pub key_area : Bytes → ℕ
key_area kelf =
    if has_optional_area kelf then variable_end kelf + optional_area_bytes else variable_end kelf

unfoldable pub validate_layout : Bytes → ℕ → ℤ
validate_layout kelf size =
    if ltb size fixed_header_size
    then neg 1
    else if kelf 0 == 0x7f && kelf 1 == b'E' && kelf 2 == b'L' && kelf 3 == b'F'
    then neg 2
    else if ltb (header_size kelf) fixed_header_size || ltb size (header_size kelf)
    then neg 3
    else if ltb max_bit_count (read_le16 (shift kelf bit_count_offset))
    then neg 4
    else if elf_size kelf == 0
        || ltb (size - header_size kelf) (elf_size kelf)
        || (header_size kelf + elf_size kelf) % 2 ^ 32 != size
    then neg 5
    else if ltb (header_size kelf) (table_end kelf)
    then neg 6
    else if has_variable_section kelf && leb (header_size kelf) (table_end kelf)
    then neg 7
    else if ltb (header_size kelf) (key_area kelf)
        || ltb (header_size kelf - key_area kelf) key_area_bytes
    then neg 8
    else pos 0

-- The result code, and the value left in `*file-IsBytes` where the code is 0.
unfoldable pub size_from_disk_image : Bytes → ℕ → ℤ × Option ℕ
size_from_disk_image kelf disk_bytes =
    let calculated = (header_size kelf + elf_size kelf) % 2 ^ 32 in
    if ltb disk_bytes fixed_header_size
    then (neg 1, none)
    else if ltb disk_bytes (elf_size kelf) || ltb (disk_bytes - elf_size kelf) (header_size kelf)
    then (neg 2, none)
    else if calculated == 0 || ltb disk_bytes calculated
    then (neg 3, none)
    else if is_neg (validate_layout kelf calculated)
    then (neg 4, none)
    else (pos 0, some calculated)
