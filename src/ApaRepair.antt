-- ===== src/ApaRepair.antt =====
-- src/apa_repair.c and include/apa_repair.h: the planner of a sector-zero repair, and the repaired
-- header. Flag words are numbers, set by `bit_or` and tested by `bit_and`.
pub mod Fields
pub mod Marks
pub mod Plans
pub mod Outcome
pub mod Pointer
pub mod Counts
use fhdb_bootstrap_manager.Common.{
  ℕ, zero, suc, ◌+◌, ◌-◌, ◌*◌, ◌/◌, ◌%◌, ◌^◌, bit_and, bit_or, Bool, true, false, not, ◌&&◌, ◌||◌,
  [], ◌∷◌, Option, none, some, leb, ◌==◌, ◌!=◌, if◌then◌else◌,
}
use fhdb_bootstrap_manager.Common.Bytes.{
  Bytes, shift, memeq, memcpy, write_le16, write_le32, read_le16, read_le32,
}
use fhdb_bootstrap_manager.Apa.{
  magic_offset, id_offset, mbr_magic_offset, start_offset, type_offset, mbr_version_offset,
  osd_start_offset, osd_size_offset, master_type, master_version, apa_magic, mbr_id, sce_magic,
  header_size, apa_checksum, is_hybrid_gpt,
}

abbrev pub issue_checksum : ℕ
issue_checksum = 2 ^ 0

abbrev pub issue_apa_magic : ℕ
issue_apa_magic = 2 ^ 1

abbrev pub issue_mbr_id : ℕ
issue_mbr_id = 2 ^ 2

abbrev pub issue_sony_magic : ℕ
issue_sony_magic = 2 ^ 3

abbrev pub issue_master_start : ℕ
issue_master_start = 2 ^ 4

abbrev pub issue_master_type : ℕ
issue_master_type = 2 ^ 5

abbrev pub issue_mbr_version : ℕ
issue_mbr_version = 2 ^ 6

abbrev pub issue_pointer_inconsistent : ℕ
issue_pointer_inconsistent = 2 ^ 7

abbrev pub blocker_hybrid_gpt : ℕ
blocker_hybrid_gpt = 2 ^ 0

abbrev pub blocker_low_identity : ℕ
blocker_low_identity = 2 ^ 1

abbrev pub blocker_not_master : ℕ
blocker_not_master = 2 ^ 2

abbrev pub blocker_unexplained_checksum : ℕ
blocker_unexplained_checksum = 2 ^ 3

pub record Plan : Type 0 where
  pub issues : ℕ
  pub safe_header_fixes : ℕ
  pub blockers : ℕ
  pub identity_matches : ℕ
  pub master_anchor_matches : ℕ
  pub header_patch_safe : Bool
  pub pointer_clear_recommended : Bool

-- `while (value != 0) { count += value & 1u; value >>= 1; }`, for at most `fuel` rounds.
pub bit_count_loop : ℕ → ℕ → ℕ → ℕ
bit_count_loop zero value count = count
bit_count_loop (suc fuel) value count =
    let rest = bit_count_loop fuel (value / 2) (count + bit_and value 1) in
    if value != 0 then rest else count

-- A `uint32_t` is 0 after 32 halvings.
unfoldable pub bit_count32 : ℕ → ℕ
unfolding bit_count_loop
bit_count32 value = bit_count_loop 32 value 0

abbrev fix_when : ℕ → ℕ → (Bytes → Bytes) → Bytes → Bytes
fix_when fixes bit store header = if bit_and fixes bit != 0 then store header else header

unfoldable pub apply_known_fixes : Bytes → ℕ → Bytes
apply_known_fixes header fixes =
    fix_when fixes issue_mbr_version (λ h. write_le32 h mbr_version_offset master_version)
      (fix_when fixes issue_master_type (λ h. write_le16 h type_offset master_type)
        (fix_when fixes issue_master_start (λ h. write_le32 h start_offset 0)
          (fix_when fixes issue_sony_magic (λ h. memcpy h mbr_magic_offset sce_magic 32)
            (fix_when fixes issue_mbr_id (λ h. memcpy h id_offset mbr_id 5)
              (fix_when fixes issue_apa_magic (λ h. memcpy h magic_offset apa_magic 4) header)))))

-- A test that raises `bit` where it fails, and counts where it passes.
abbrev raise_unless : Bool → ℕ → ℕ → ℕ
raise_unless passed bit flags = if passed then flags else bit_or flags bit

abbrev count_if : Bool → ℕ → ℕ
count_if passed matches = if passed then matches + 1 else matches

-- The block "Identity repair is considered only when exactly one ... marker is damaged".
abbrev judge_identity : ℕ → Plan → Plan
judge_identity identity_issues plan =
    if identity_issues != 0
    then if leb 2 plan.identity_matches
        && plan.master_anchor_matches == 3
        && bit_count32 identity_issues == 1
      then record plan { safe_header_fixes = bit_or plan.safe_header_fixes identity_issues }
      else record plan { blockers = bit_or plan.blockers blocker_low_identity }
    else plan

abbrev judge_anchors : ℕ → Plan → Plan
judge_anchors anchor_issues plan =
    if anchor_issues != 0
    then if plan.identity_matches == 3
        && leb 2 plan.master_anchor_matches
        && bit_count32 anchor_issues == 1
      then record plan { safe_header_fixes = bit_or plan.safe_header_fixes anchor_issues }
      else record plan { blockers = bit_or plan.blockers blocker_not_master }
    else plan

abbrev block_unexplained : Plan → Plan
block_unexplained plan = record plan {
  blockers = bit_or plan.blockers blocker_unexplained_checksum;
}

-- The checksum has to corroborate the proposed fix.
abbrev judge_checksum : Bytes → ℕ → ℕ → Plan → Plan
judge_checksum header stored calculated plan =
    if plan.safe_header_fixes != 0 && plan.blockers == 0
    then if stored == calculated
      then block_unexplained plan
      else if apa_checksum (apply_known_fixes header plan.safe_header_fixes) != stored
      then block_unexplained plan
      else plan
    else if stored != calculated
    then block_unexplained plan
    else plan

abbrev conclude : Plan → Plan
conclude plan = record plan {
  header_patch_safe = plan.blockers == 0 && plan.safe_header_fixes != 0;
}

-- The analysis after its six comparisons, whose results are the first arguments behind the header.
unfoldable pub analyze_marks : Bytes → Bool → Bool → Bool → Bool → Bool → Bool → Plan
unfolding bit_count32
analyze_marks header magic id sony start kind version =
    let identity_issues =
      raise_unless sony issue_sony_magic
        (raise_unless id issue_mbr_id (raise_unless magic issue_apa_magic 0)) in
    let anchor_issues =
      raise_unless version issue_mbr_version
        (raise_unless kind issue_master_type (raise_unless start issue_master_start 0)) in
    let stored = read_le32 header in
    let calculated = apa_checksum header in
    let no_start = read_le32 (shift header osd_start_offset) == 0 in
    let no_size = read_le32 (shift header osd_size_offset) == 0 in
    let consistent = if no_start then no_size else not no_size in
    let observed : Plan = record {
      issues = raise_unless consistent issue_pointer_inconsistent (
          raise_unless (stored == calculated) issue_checksum
            (bit_or identity_issues anchor_issues));
      safe_header_fixes = 0;
      blockers = 0;
      identity_matches = count_if sony (count_if id (count_if magic 0));
      master_anchor_matches = count_if version (count_if kind (count_if start 0));
      header_patch_safe = false;
      pointer_clear_recommended = not consistent;
    } in
    if is_hybrid_gpt header
    then record observed { blockers = bit_or observed.blockers blocker_hybrid_gpt }
    else conclude (
        judge_checksum header stored calculated
          (judge_anchors anchor_issues (judge_identity identity_issues observed)))

unfoldable pub analyze : Bytes → Plan
analyze header =
    analyze_marks header (memeq (shift header magic_offset) apa_magic 4)
      (memeq (shift header id_offset) mbr_id 5) (memeq (shift header mbr_magic_offset) sce_magic 32)
      (read_le32 (shift header start_offset) == 0)
      (read_le16 (shift header type_offset) == master_type)
      (read_le32 (shift header mbr_version_offset) == master_version)

-- `none` is the result -1; else the header written to `repaired`.
unfoldable pub build_header : Bytes → Plan → Option Bytes
build_header source plan =
    if not plan.header_patch_safe || plan.blockers != 0
    then none
    else let repaired = apply_known_fixes source plan.safe_header_fixes in
      some (write_le32 repaired 0 (apa_checksum repaired))
