-- ===== src/Apa.antt =====
-- src/apa.c and include/apa.h: reading and checking an APA master header. A result of 1 or 0 is a Bool.
pub mod Checksum
pub mod Identity
use fhdb_bootstrap_manager.Common.{
  ℕ, zero, suc, ◌+◌, ◌-◌, ◌*◌, ◌%◌, ◌^◌, Bool, true, false, not, ◌&&◌, [], ◌∷◌, ◌==◌, ◌!=◌,
  if◌then◌else◌,
}
use fhdb_bootstrap_manager.Common.Bytes.{Bytes, shift, of_list, codes, memeq, read_le32}

abbrev pub header_size : ℕ
header_size = 1024

abbrev pub magic_offset : ℕ
magic_offset = 0x004

abbrev pub next_offset : ℕ
next_offset = 0x008

abbrev pub prev_offset : ℕ
prev_offset = 0x00c

abbrev pub id_offset : ℕ
id_offset = 0x010

abbrev pub id_size : ℕ
id_size = 32

abbrev pub start_offset : ℕ
start_offset = 0x040

abbrev pub length_offset : ℕ
length_offset = 0x044

abbrev pub type_offset : ℕ
type_offset = 0x048

abbrev pub flags_offset : ℕ
flags_offset = 0x04a

abbrev pub nsub_offset : ℕ
nsub_offset = 0x04c

abbrev pub main_offset : ℕ
main_offset = 0x058

abbrev pub number_offset : ℕ
number_offset = 0x05c

abbrev pub mbr_magic_offset : ℕ
mbr_magic_offset = 0x100

abbrev pub mbr_version_offset : ℕ
mbr_version_offset = 0x120

abbrev pub osd_start_offset : ℕ
osd_start_offset = 0x130

abbrev pub osd_size_offset : ℕ
osd_size_offset = 0x134

abbrev pub pc_signature_offset : ℕ
pc_signature_offset = 0x1fe

abbrev pub subs_offset : ℕ
subs_offset = 0x200

abbrev pub sub_entry_size : ℕ
sub_entry_size = 8

abbrev pub max_subs : ℕ
max_subs = 64

abbrev pub master_type : ℕ
master_type = 0x0001

abbrev pub master_version : ℕ
master_version = 2

abbrev pub apa_magic : Bytes
apa_magic = of_list (0x41 ∷ 0x50 ∷ 0x41 ∷ 0x00 ∷ [])

abbrev pub mbr_id : Bytes
mbr_id = of_list (codes "__mbr")

abbrev pub sce_magic : Bytes
sce_magic = of_list (codes "Sony Computer Entertainment Inc.")

-- The loop of `apa_checksum` with `rounds` still to go; `i` is the next word.
sum_words : Bytes → ℕ → ℕ → ℕ → ℕ
sum_words header zero i sum = sum
sum_words header (suc rounds) i sum =
    sum_words header rounds (i + 1) ((sum + read_le32 (shift header (i * 4))) % 2 ^ 32)

unfoldable pub apa_checksum : Bytes → ℕ
unfolding sum_words
apa_checksum header = sum_words header 255 1 0

unfoldable pub is_standard_apa_header : Bytes → Bool
is_standard_apa_header header =
    if not (memeq (shift header magic_offset) apa_magic 4)
    then false
    else if not (memeq (shift header id_offset) mbr_id 5)
    then false
    else if not (memeq (shift header mbr_magic_offset) sce_magic 32)
    then false
    else if read_le32 header != apa_checksum header
    then false
    else true

unfoldable pub is_hybrid_gpt : Bytes → Bool
is_hybrid_gpt header =
    header pc_signature_offset == 0x55 && header (pc_signature_offset + 1) == 0xaa

abbrev pub mutable_end : ℕ
mutable_end = osd_size_offset + 4

unfoldable pub headers_match_same_disk : Bytes → Bytes → Bool
headers_match_same_disk a b =
    memeq (shift a 4) (shift b 4) (osd_start_offset - 4)
    && memeq (shift a mutable_end) (shift b mutable_end) (header_size - mutable_end)
