-- ===== src/BootstrapTransaction.antt =====
-- src/bootstrap_transaction.c and include/bootstrap_transaction.h: the order of the writes that activate a
-- bootstrap. The operations are an interface over the state of the device; null pointers are not modelled.
pub mod Ps2
use fhdb_bootstrap_manager.Common.{ℕ, ◌==◌, if◌then◌else◌}
use fhdb_bootstrap_manager.Common.Ints.{ℤ, pos, neg, is_neg}
use fhdb_bootstrap_manager.Common.Bytes.{Bytes}

-- `bootstrap_transaction_ops_t`, its context in the state `S`.
pub record Ops (S : Type 0) : Type 0 where
  pub write_payload_verified : Bytes → ℕ → ℕ → S → ℤ × S
  pub set_osd_mbr : ℕ → ℕ → S → ℤ × S
  pub verify_osd_mbr : Bytes → ℕ → ℕ → S → ℤ × Bytes × S

pub data Stage : Type 0 where
  stage_none : Stage
  stage_payload : Stage
  stage_pointer_set : Stage
  stage_pointer_verify : Stage

pub record Outcome (S : Type 0) : Type 0 where
  pub code : ℤ
  pub stage : Stage
  pub result_code : ℤ
  pub header : Bytes
  pub device : S

abbrev pub err_invalid_argument : ℤ
err_invalid_argument = neg 300

-- `fail_result`: the code is returned, and stands in `*result` with its stage.
abbrev pub failed : {S : Type 0} → Stage → ℤ → Bytes → S → Outcome S
failed stage code header device = record {
  code = code;
  stage = stage;
  result_code = code;
  header = header;
  device = device;
}

abbrev pub done : {S : Type 0} → Bytes → S → Outcome S
done header device = record {
  code = pos 0;
  stage = stage_none;
  result_code = pos 0;
  header = header;
  device = device;
}

unfoldable pub set_pointer : {S : Type 0} → Ops S → Bytes → ℕ → ℕ → S → Outcome S
set_pointer ops header start size device =
    let (set_code, set_device) = ops.set_osd_mbr start size device in
    let (verify_code, read, verified) = ops.verify_osd_mbr header start size set_device in
    if is_neg set_code
    then failed stage_pointer_set set_code header set_device
    else if is_neg verify_code
    then failed stage_pointer_verify verify_code read verified
    else done read verified

-- `release` is `release_payload`, or the identity where that is NULL.
unfoldable pub activate : {S : Type 0} → Ops S → Bytes → Bytes → ℕ → ℕ → ℕ → (S → S) → S → Outcome S
activate ops header payload payload_size start size release device =
    let (code, written) = ops.write_payload_verified payload payload_size start device in
    let released = release written in
    if payload_size == 0
    then failed stage_none err_invalid_argument header device
    else if is_neg code
    then failed stage_payload code header released
    else set_pointer ops header start size released
