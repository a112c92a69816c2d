-- ===== src/HdlTransaction/Fields.antt =====
-- The numbers of a valid transaction, where its record holds them.
use fhdb_bootstrap_manager.Common.{
  ℕ, zero, suc, ◌*◌, ◌/◌, ◌%◌, ◌^◌, ◌≤◌, ◌<◌, ◌≡◌, ◌⊎◌, ap₂, ◌∙◌, true, bit_or, arith,
}
use fhdb_bootstrap_manager.Common.Bits.{bit_or_32}
use fhdb_bootstrap_manager.Common.Bytes.{Bytes, shift, read_le32, read_le64, read_le32-le32_bytes}
use fhdb_bootstrap_manager.Common.Arrays.{IsArray}
use fhdb_bootstrap_manager.HdlTransaction.{
  Transaction, terminated, bounded_length, malformed, transaction_valid, encode_body, put_settings,
  encode_numbers,
}

-- A text in an array: zeros behind its end.
abbrev pub IsText : ℕ → Bytes → Type 0
IsText n b = IsArray (bounded_length b n) b

pub record IsStored (t : Transaction) : Type 0 where
  pub valid : transaction_valid t ≡ true
  pub source_fits : t.source_bytes < 2 ^ 64
  pub layer_fits : t.layer1_start < 2 ^ 32
  pub fingerprint : IsArray 32 t.source_fingerprint
  pub target_text : IsText 33 t.target
  pub startup_text : IsText 60 t.startup
  pub path_text : IsText 160 t.source_path
  pub title_text : IsText 128 t.game_title
  pub bytes_fit :
      (t.hdl_compat_flags < 256)
      × (t.opl_compat_flags < 256)
      × (t.dma_type < 256)
      × (t.dma_mode < 256)

pub length_bound : (b : Bytes) (n : ℕ) → bounded_length b n ≤ n
unfolding bounded_length
length_bound b zero = omega arith
length_bound b (suc n) = ground (arith, length_bound (shift b 1) n)

length_terminated : (b : Bytes) (n : ℕ) → terminated b n ≡ true → bounded_length b n < n
unfolding bounded_length terminated
length_terminated b zero h = absurd (ground (arith, h))
length_terminated b (suc n) h = ground (arith, length_terminated (shift b 1) n)

-- What a valid transaction says of its numbers and its texts.
pub record Facts (t : Transaction) : Type 0 where
  pub stage_fits : t.stage ≤ 7
  pub total_fits : t.total_sectors ≤ t.source_bytes
  pub completed_fits : t.completed_sectors ≤ t.total_sectors
  pub count_fits : t.partition_count ≤ 65
  pub disc : (t.disc_type ≡ 0x12) ⊎ (t.disc_type ≡ 0x14)
  pub target_ends : bounded_length t.target 33 < 33
  pub startup_ends : bounded_length t.startup 60 < 60
  pub path_ends : bounded_length t.source_path 160 < 160
  pub title_ends : bounded_length t.game_title 128 < 128

pub valid-Facts : (t : Transaction) → transaction_valid t ≡ true → Facts t
unfolding transaction_valid malformed
valid-Facts t v = record {
  stage_fits = ground arith;
  total_fits = ground arith;
  completed_fits = ground arith;
  count_fits = ground arith;
  disc = ground arith;
  target_ends = length_terminated t.target 33 (ground arith);
  startup_ends = length_terminated t.startup 60 (ground arith);
  path_ends = length_terminated t.source_path 160 (ground arith);
  title_ends = length_terminated t.game_title 128 (ground arith);
}

number_64 :
    (s : Bytes) (v : ℕ)
    → v < 2 ^ 64
    → read_le32 s ≡ v % 2 ^ 32
    → read_le32 (shift s 4) ≡ v / 2 ^ 32
    → read_le64 s ≡ v
unfolding read_le64
number_64 s v h low high =
    ap₂ (λ a b. bit_or a (b * 2 ^ 32)) low high
    ∙ bit_or_32 (v % 2 ^ 32) (v / 2 ^ 32) (omega arith)
    ∙ omega arith

-- A number that was stored at an offset is read back there.
abbrev pub HoldsNumber : Transaction → ℕ → ℕ → Type 0
HoldsNumber t off v = v < 2 ^ 32 → read_le32 (shift (encode_body t) off) ≡ v

module _ (t : Transaction) where
  pub held_stage : HoldsNumber t 12 t.stage
  unfolding encode_body read_le32
  held_stage = read_le32-le32_bytes t.stage

  pub held_count : HoldsNumber t 40 t.partition_count
  unfolding encode_body read_le32
  held_count = read_le32-le32_bytes t.partition_count

  pub held_disc : HoldsNumber t 464 t.disc_type
  unfolding encode_body read_le32
  held_disc = read_le32-le32_bytes t.disc_type

  pub held_layer : HoldsNumber t 468 t.layer1_start
  unfolding encode_body read_le32
  held_layer = read_le32-le32_bytes t.layer1_start

  pub held_source : t.source_bytes < 2 ^ 64 → read_le64 (shift (encode_body t) 16) ≡ t.source_bytes
  unfolding encode_body read_le32
  held_source h =
      number_64 (shift (encode_body t) 16) t.source_bytes h
        (read_le32-le32_bytes (t.source_bytes % 2 ^ 32) (omega arith))
        (read_le32-le32_bytes (t.source_bytes / 2 ^ 32) (omega arith))

  pub held_total : t.total_sectors < 2 ^ 64 → read_le64 (shift (encode_body t) 24) ≡ t.total_sectors
  unfolding encode_body read_le32
  held_total h =
      number_64 (shift (encode_body t) 24) t.total_sectors h
        (read_le32-le32_bytes (t.total_sectors % 2 ^ 32) (omega arith))
        (read_le32-le32_bytes (t.total_sectors / 2 ^ 32) (omega arith))

  pub held_completed :
      t.completed_sectors < 2 ^ 64 → read_le64 (shift (encode_body t) 32) ≡ t.completed_sectors
  unfolding encode_body read_le32
  held_completed h =
      number_64 (shift (encode_body t) 32) t.completed_sectors h
        (read_le32-le32_bytes (t.completed_sectors % 2 ^ 32) (omega arith))
        (read_le32-le32_bytes (t.completed_sectors / 2 ^ 32) (omega arith))

  pub below_settings : (r : Bytes) (i : ℕ) → i < 464 → put_settings r t i ≡ r i
  below_settings r i h = ground arith

  pub numbers_end : (i : ℕ) → 44 ≤ i → encode_numbers t i ≡ 0
  numbers_end i h = ground arith
