-- ===== src/HdlTransaction.antt =====
-- src/hdl_transaction.c and include/hdl_transaction.h: the record of a resumable installation. A stage is the
-- number that the record holds, since a decoding casts any number to the enumeration. Null pointers are
-- not modelled.
pub mod Stages
pub mod Completes
pub mod Fields
mod Texts
pub mod RoundTrip
use fhdb_bootstrap_manager.Common.{
  ℕ, zero, suc, ◌+◌, ◌-◌, ◌*◌, ◌/◌, ◌%◌, ◌^◌, List, [], ◌∷◌, Bool, true, false, ◌&&◌, ◌||◌, not,
  ltb, leb, ◌==◌, ◌!=◌, if◌then◌else◌, bit_and,
}
use fhdb_bootstrap_manager.Common.Ints.{ℤ, neg}
use fhdb_bootstrap_manager.Common.Results.{Result, err, ok}
use fhdb_bootstrap_manager.Common.Bytes.{
  Bytes, shift, zeros, of_list, bytes_list, memeq, memcpy, write_8, write_le32, write_le64,
  read_le32, read_le64,
}
use fhdb_bootstrap_manager.Sha256.{sha256_buffer}

abbrev pub invalid_argument : ℤ
invalid_argument = neg 540

abbrev pub invalid_record : ℤ
invalid_record = neg 541

abbrev pub hash_mismatch : ℤ
hash_mismatch = neg 542

abbrev pub invalid_stage : ℤ
invalid_stage = neg 543

abbrev pub progress_invalid : ℤ
progress_invalid = neg 544

abbrev pub stage_planned : ℕ
stage_planned = 1

abbrev pub stage_partitions_created : ℕ
stage_partitions_created = 2

abbrev pub stage_copying : ℕ
stage_copying = 3

abbrev pub stage_payload_verified : ℕ
stage_payload_verified = 4

abbrev pub stage_metadata_committed : ℕ
stage_metadata_committed = 5

abbrev pub stage_complete : ℕ
stage_complete = 6

abbrev pub stage_aborted : ℕ
stage_aborted = 7

pub record Transaction : Type 0 where
  pub stage : ℕ
  pub source_bytes : ℕ
  pub total_sectors : ℕ
  pub completed_sectors : ℕ
  pub partition_count : ℕ
  pub source_fingerprint : Bytes
  pub target : Bytes
  pub startup : Bytes
  pub source_path : Bytes
  pub game_title : Bytes
  pub disc_type : ℕ
  pub layer1_start : ℕ
  pub hdl_compat_flags : ℕ
  pub opl_compat_flags : ℕ
  pub dma_type : ℕ
  pub dma_mode : ℕ

-- "HDLTXN", 1, 0
abbrev pub transaction_magic : Bytes
transaction_magic = of_list (b'H' ∷ b'D' ∷ b'L' ∷ b'T' ∷ b'X' ∷ b'N' ∷ 1 ∷ 0 ∷ [])

-- `memchr(text, '\0', capacity) != NULL`
unfoldable pub terminated : Bytes → ℕ → Bool
terminated text zero = false
terminated text (suc capacity) = text 0 == 0 || terminated (shift text 1) capacity

unfoldable pub bounded_length : Bytes → ℕ → ℕ
bounded_length text zero = 0
bounded_length text (suc capacity) =
    let rest = bounded_length (shift text 1) capacity in if text 0 == 0 then 0 else suc rest

-- The first condition of `transaction_valid`: what it refuses at any stage.
unfoldable pub malformed : Transaction → Bool
malformed t =
    ltb t.stage stage_planned
    || ltb stage_aborted t.stage
    || t.source_bytes == 0
    || t.total_sectors == 0
    || bit_and t.source_bytes 2047 != 0
    || t.total_sectors != t.source_bytes / 2048
    || ltb t.total_sectors t.completed_sectors
    || t.partition_count == 0
    || ltb 65 t.partition_count
    || not (terminated t.target 33)
    || not (terminated t.startup 60)
    || not (terminated t.source_path 160)
    || not (terminated t.game_title 128)
    || t.target 0 == 0
    || t.startup 0 == 0
    || t.source_path 0 == 0
    || t.game_title 0 == 0
    || (t.disc_type != 0x12 && t.disc_type != 0x14)

unfoldable pub transaction_valid : Transaction → Bool
transaction_valid t =
    if malformed t
    then false
    else if t.stage == stage_planned || t.stage == stage_partitions_created
    then t.completed_sectors == 0
    else if leb stage_payload_verified t.stage && leb t.stage stage_complete
    then t.completed_sectors == t.total_sectors
    else true

unfoldable pub transition_allowed : ℕ → ℕ → Bool
transition_allowed from to =
    if from == stage_copying && to == stage_copying
    then true
    else if to == stage_aborted && leb stage_planned from && ltb from stage_metadata_committed
    then true
    else (from == stage_planned && to == stage_partitions_created)
      || (from == stage_partitions_created && to == stage_copying)
      || (from == stage_copying && to == stage_payload_verified)
      || (from == stage_payload_verified && to == stage_metadata_committed)
      || (from == stage_metadata_committed && to == stage_complete)

-- The transaction after the call where it returns 0; a refused call leaves it as it was.
unfoldable pub set_stage : Transaction → ℕ → ℕ → Result Transaction
set_stage t stage completed_sectors =
    let updated : Transaction = record t { stage = stage; completed_sectors = completed_sectors } in
    if not (transition_allowed t.stage stage)
    then err invalid_stage
    else if ltb completed_sectors t.completed_sectors
    then err progress_invalid
    else if not (transaction_valid updated)
    then err progress_invalid
    else ok updated

-- The text fields: `memcpy(record + off, text, bounded_length(text, capacity))`.
abbrev put_text : Bytes → ℕ → Bytes → ℕ → Bytes
put_text dst off text capacity = memcpy dst off text (bounded_length text capacity)

abbrev encode_numbers : Transaction → Bytes
encode_numbers t =
    let r0 = memcpy zeros 0 transaction_magic 8 in
    let r1 = write_le32 r0 8 2 in
    let r2 = write_le32 r1 12 t.stage in
    let r3 = write_le64 r2 16 t.source_bytes in
    let r4 = write_le64 r3 24 t.total_sectors in
    let r5 = write_le64 r4 32 t.completed_sectors in write_le32 r5 40 t.partition_count

abbrev put_fingerprint : Transaction → Bytes
put_fingerprint t = memcpy (encode_numbers t) 48 t.source_fingerprint 32

abbrev put_target : Transaction → Bytes
put_target t = put_text (put_fingerprint t) 80 t.target 33

abbrev put_startup : Transaction → Bytes
put_startup t = put_text (put_target t) 116 t.startup 60

abbrev put_path : Transaction → Bytes
put_path t = put_text (put_startup t) 176 t.source_path 160

abbrev put_title : Transaction → Bytes
put_title t = put_text (put_path t) 336 t.game_title 128

-- The stores behind the texts.
abbrev put_settings : Bytes → Transaction → Bytes
put_settings r t =
    let disc = write_le32 r 464 t.disc_type in
    let layer = write_le32 disc 468 t.layer1_start in
    let hdl = write_8 layer 472 t.hdl_compat_flags in
    let opl = write_8 hdl 473 t.opl_compat_flags in
    write_8 (write_8 opl 474 t.dma_type) 475 t.dma_mode

-- The record in front of its digest.
unfoldable pub encode_body : Transaction → Bytes
encode_body t = put_settings (put_title t) t

-- The digest of the first 480 bytes.
abbrev pub record_digest : Bytes → Bytes
record_digest r = of_list (sha256_buffer (bytes_list r 480))

unfoldable pub encode : Transaction → Result Bytes
encode t =
    if not (transaction_valid t)
    then err invalid_argument
    else ok (memcpy (encode_body t) 480 (record_digest (encode_body t)) 32)

-- A text field of `n` bytes: all but the last are copied, over zeros.
abbrev get_text : Bytes → ℕ → Bytes
get_text source n = memcpy zeros 0 source (n - 1)

abbrev pub decoded : Bytes → Transaction
decoded r = record {
  stage = read_le32 (shift r 12);
  source_bytes = read_le64 (shift r 16);
  total_sectors = read_le64 (shift r 24);
  completed_sectors = read_le64 (shift r 32);
  partition_count = read_le32 (shift r 40);
  source_fingerprint = memcpy zeros 0 (shift r 48) 32;
  target = get_text (shift r 80) 33;
  startup = get_text (shift r 116) 60;
  source_path = get_text (shift r 176) 160;
  game_title = get_text (shift r 336) 128;
  disc_type = read_le32 (shift r 464);
  layer1_start = read_le32 (shift r 468);
  hdl_compat_flags = r 472;
  opl_compat_flags = r 473;
  dma_type = r 474;
  dma_mode = r 475;
}

unfoldable pub decode : Bytes → Result Transaction
decode r =
    if not (memeq r transaction_magic 8) || read_le32 (shift r 8) != 2
    then err invalid_record
    else if not (memeq (record_digest r) (shift r 480) 32)
    then err hash_mismatch
    else if not (transaction_valid (decoded r))
    then err invalid_record
    else ok (decoded r)
