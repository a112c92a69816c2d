-- ===== src/ApaRepair/Fields.antt =====
-- The six canonical fields of a master header that the planner knows.
use fhdb_bootstrap_manager.Common.{
  ℕ, ◌+◌, ◌≤◌, ◌<◌, ◌≡◌, ◌≢◌, ◌⊎◌, inl, inr, refl, Bool, true, ◌==◌, ==_iff, arith,
}
use fhdb_bootstrap_manager.Common.Bytes.{
  Bytes, IsBytes, shift, memeq, memcpy, write_le16, write_le32, read_le16, read_le32, memcpy_held,
  write_le16_held, write_le32_held,
}
use fhdb_bootstrap_manager.Apa.{
  magic_offset, id_offset, mbr_magic_offset, start_offset, type_offset, mbr_version_offset,
  master_type, master_version, apa_magic, mbr_id, sce_magic, is_hybrid_gpt,
}
use fhdb_bootstrap_manager.ApaRepair.{apply_known_fixes}

pub data Field : Type 0 where
  magic id sony start kind version : Field

Field-discrete : Discrete Field
Field-discrete = hlevel

-- The issue bit of a field.
abbrev pub bit : Field → ℕ
bit magic = 2
bit id = 4
bit sony = 8
bit start = 16
bit kind = 32
bit version = 64

abbrev pub offset : Field → ℕ
offset magic = 0x004
offset id = 0x010
offset sony = 0x100
offset start = 0x040
offset kind = 0x048
offset version = 0x120

abbrev pub size : Field → ℕ
size magic = 4
size id = 5
size sony = 32
size start = 4
size kind = 2
size version = 4

-- The comparison that the planner makes of a field.
abbrev pub canonical : Field → Bytes → Bool
canonical magic h = memeq (shift h magic_offset) apa_magic 4
canonical id h = memeq (shift h id_offset) mbr_id 5
canonical sony h = memeq (shift h mbr_magic_offset) sce_magic 32
canonical start h = read_le32 (shift h start_offset) == 0
canonical kind h = read_le16 (shift h type_offset) == master_type
canonical version h = read_le32 (shift h mbr_version_offset) == master_version

abbrev pub fix : Field → Bytes → Bytes
fix magic h = memcpy h magic_offset apa_magic 4
fix id h = memcpy h id_offset mbr_id 5
fix sony h = memcpy h mbr_magic_offset sce_magic 32
fix start h = write_le32 h start_offset 0
fix kind h = write_le16 h type_offset master_type
fix version h = write_le32 h mbr_version_offset master_version

pub apply_known_fixes-bit : (f : Field) (h : Bytes) → apply_known_fixes h (bit f) ≡ fix f h
unfolding apply_known_fixes
apply_known_fixes-bit magic h = refl
apply_known_fixes-bit id h = refl
apply_known_fixes-bit sony h = refl
apply_known_fixes-bit start h = refl
apply_known_fixes-bit kind h = refl
apply_known_fixes-bit version h = refl

abbrev pub IsInside : Field → ℕ → Type 0
IsInside f i = (offset f ≤ i) × (i < offset f + size f)

abbrev pub IsOutside : Field → ℕ → Type 0
IsOutside f i = (i < offset f) ⊎ (offset f + size f ≤ i)

pub fix-outside : (f : Field) (h : Bytes) (i : ℕ) → IsOutside f i → fix f h i ≡ h i
fix-outside magic h i r = ground arith
fix-outside id h i r = ground arith
fix-outside sony h i r = ground arith
fix-outside start h i r = ground arith
fix-outside kind h i r = ground arith
fix-outside version h i r = ground arith

pub canonical-fix : (f : Field) (h : Bytes) → canonical f (fix f h) ≡ true
unfolding memeq read_le16 read_le32
canonical-fix magic h = refl
canonical-fix id h = refl
canonical-fix sony h = refl
canonical-fix start h = refl
canonical-fix kind h = refl
canonical-fix version h = refl

pub canonical-fix_other : (f g : Field) (h : Bytes) → g ≢ f → canonical g (fix f h) ≡ canonical g h
unfolding memeq read_le16 read_le32
canonical-fix_other magic magic h r = absurd (r refl)
canonical-fix_other id id h r = absurd (r refl)
canonical-fix_other sony sony h r = absurd (r refl)
canonical-fix_other start start h r = absurd (r refl)
canonical-fix_other kind kind h r = absurd (r refl)
canonical-fix_other version version h r = absurd (r refl)
canonical-fix_other _ _ h r = refl

-- The checksum word and the PC signature lie outside every field.
pub canonical-write_checksum :
    (g : Field) (h : Bytes) (v : ℕ) → canonical g (write_le32 h 0 v) ≡ canonical g h
unfolding memeq read_le16 read_le32
canonical-write_checksum magic h v = refl
canonical-write_checksum _ h v = refl

pub hybrid-fix : (f : Field) (h : Bytes) → is_hybrid_gpt (fix f h) ≡ is_hybrid_gpt h
unfolding is_hybrid_gpt
hybrid-fix magic h = refl
hybrid-fix _ h = refl

-- A field that passes its comparison holds the bytes that the repair would store.
pub canonical_bytes :
    (f : Field) (o h : Bytes) (i : ℕ)
    → IsBytes o
    → canonical f o ≡ true
    → IsInside f i
    → fix f h i ≡ o i
canonical_bytes magic o h i b c (lo, hi) = memcpy_held h o apa_magic magic_offset 4 i c lo hi
canonical_bytes id o h i b c (lo, hi) = memcpy_held h o mbr_id id_offset 5 i c lo hi
canonical_bytes sony o h i b c (lo, hi) = memcpy_held h o sce_magic mbr_magic_offset 32 i c lo hi
canonical_bytes start o h i b c (lo, hi) =
    write_le32_held h o start_offset 0 i b ((==_iff _ _).0 c) lo hi
canonical_bytes kind o h i b c (lo, hi) =
    write_le16_held h o type_offset master_type i b ((==_iff _ _).0 c) lo hi
canonical_bytes version o h i b c (lo, hi) =
    write_le32_held h o mbr_version_offset master_version i b ((==_iff _ _).0 c) lo hi

pub Field-split : (g f : Field) → (g ≡ f) ⊎ (g ≢ f)
Field-split g f = elim (Field-discrete g f) [ yes same ↦ inl same | no other ↦ inr other ]
