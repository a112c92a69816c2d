-- ===== src/RepairHealth.antt =====
-- src/repair_health.c and include/repair_health.h: which repairs a mounted disk is recommended. Of the evidence
-- on the boot chain, only the two results that this file reads are modelled.
pub mod Pointer
use fhdb_bootstrap_manager.Common.{
  ℕ, Bool, true, false, not, ◌&&◌, ◌||◌, Option, none, some, ◌==◌, ◌!=◌, if◌then◌else◌,
}
use fhdb_bootstrap_manager.Common.Ints.{ℤ, is_neg}
use fhdb_bootstrap_manager.Common.Bytes.{Bytes, shift, read_le32}
use fhdb_bootstrap_manager.Apa.{osd_start_offset, osd_size_offset}
use fhdb_bootstrap_manager.ApaRepair.{Plan, analyze}

pub record ChainResults : Type 0 where
  pub payload_read_result : ℤ
  pub payload_kelf_result : ℤ

pub record Health : Type 0 where
  pub header_plan : Plan
  pub osd_start : ℕ
  pub osd_size : ℕ
  pub bounds_result : ℤ
  pub pointer_clear_recommended : Bool

-- `boot_chain != NULL && (... < 0 || ... < 0)`
unfoldable pub chain_fails : Option ChainResults → Bool
chain_fails none = false
chain_fails (some chain) = is_neg chain.payload_read_result || is_neg chain.payload_kelf_result

unfoldable pub assess : Bytes → Option ChainResults → ℤ → Health
assess header boot_chain bounds_result =
    let plan = analyze header in
    let start = read_le32 (shift header osd_start_offset) in
    let size = read_le32 (shift header osd_size_offset) in
    let mismatched = if start == 0 then size != 0 else size == 0 in
    let recommended =
      if mismatched
      then true
      else if start != 0
      then is_neg bounds_result || chain_fails boot_chain
      else false in
    record {
      header_plan = plan;
      osd_start = start;
      osd_size = size;
      bounds_result = bounds_result;
      pointer_clear_recommended = if plan.pointer_clear_recommended then true else recommended;
    }
