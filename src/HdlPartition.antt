-- ===== src/HdlPartition.antt =====
-- src/hdl_partition.c and include/hdl_partition.h: the division of an image into APA partitions
-- (`hdl_partition_plan`). The loop is a recursion on the free entries of `plan->slices`, so that its last
-- clause is the refusal at `HDL_MAX_PARTITIONS`.
pub mod Sizes
pub mod Tiling
pub mod Completes
use fhdb_bootstrap_manager.Common.{
  ℕ, zero, suc, ◌+◌, ◌-◌, ◌*◌, ◌%◌, ◌^◌, List, [], ◌∷◌, ◌++◌, Bool, ◌&&◌, ◌||◌, ltb, leb, ◌==◌,
  ◌!=◌, if◌then◌else◌,
}
use fhdb_bootstrap_manager.Common.Ints.{ℤ, neg}
use fhdb_bootstrap_manager.Common.Results.{Result, err, ok}

abbrev pub invalid_argument : ℤ
invalid_argument = neg 520

abbrev pub image_alignment : ℤ
image_alignment = neg 521

abbrev pub too_many : ℤ
too_many = neg 522

abbrev pub max_size_invalid : ℤ
max_size_invalid = neg 523

abbrev pub physical_range_invalid : ℤ
physical_range_invalid = neg 524

abbrev pub mib : ℕ
mib = 1024 * 1024

abbrev pub main_data_offset : ℕ
main_data_offset = 4 * mib

abbrev pub sub_data_offset : ℕ
sub_data_offset = mib

abbrev pub max_partitions : ℕ
max_partitions = 65

abbrev pub allocation_sizes : List ℕ
allocation_sizes = 128 * mib ∷ 256 * mib ∷ 512 * mib ∷ 1024 * mib ∷ 2048 * mib ∷ 4096 * mib ∷ []

-- The same sizes, as the second loop of `choose_allocation` visits them.
abbrev pub sizes_downwards : List ℕ
sizes_downwards = 4096 * mib ∷ 2048 * mib ∷ 1024 * mib ∷ 512 * mib ∷ 256 * mib ∷ 128 * mib ∷ []

pub record Slice : Type 0 where
  pub allocation_bytes : ℕ
  pub payload_offset : ℕ
  pub payload_bytes : ℕ

-- The slices in use are a list; `count` is the number of them.
pub record Plan : Type 0 where
  pub image_bytes : ℕ
  pub allocation_bytes : ℕ
  pub count : ℕ
  pub slices : List Slice

-- The first loop: the first size that has room and is allowed, else 0.
unfoldable pub first_fit : List ℕ → ℕ → ℕ → ℕ
first_fit [] required maximum = 0
first_fit (size ∷ sizes) required maximum =
    let later = first_fit sizes required maximum in
    if leb required size && leb size maximum then size else later

-- The second loop: the first size that is allowed, else 0.
unfoldable pub first_allowed : List ℕ → ℕ → ℕ
first_allowed [] maximum = 0
first_allowed (size ∷ sizes) maximum =
    let later = first_allowed sizes maximum in if leb size maximum then size else later

unfoldable pub choose_allocation : ℕ → ℕ → ℕ
choose_allocation required maximum =
    let found = first_fit allocation_sizes required maximum in
    if found != 0 then found else first_allowed sizes_downwards maximum

-- `overhead`, by the slices so far.
abbrev pub overhead_at : ℕ → ℕ
overhead_at count = if count == 0 then main_data_offset else sub_data_offset

-- `allocation` after the second try, 0 where the code refuses.
unfoldable pub allocation_for : ℕ → ℕ → ℕ → ℕ
allocation_for remaining overhead maximum =
    let allocation = choose_allocation ((remaining + overhead) % 2 ^ 64) maximum in
    let whole = choose_allocation maximum maximum in
    if allocation == 0 then (if leb whole overhead then 0 else whole) else allocation

unfoldable pub payload_for : ℕ → ℕ → ℕ
payload_for remaining capacity = if ltb remaining capacity then remaining else capacity

abbrev pub add_slice : Plan → ℕ → ℕ → ℕ → Plan
add_slice plan allocation offset payload = record plan {
  allocation_bytes = plan.allocation_bytes + allocation;
  count = plan.count + 1;
  slices =
      plan.slices
      ++ (record { allocation_bytes = allocation; payload_offset = offset; payload_bytes = payload }
          ∷ []);
}

-- `while (remaining != 0)`, with `left` entries of the plan free.
unfoldable pub plan_loop : ℕ → ℕ → Plan → ℕ → ℕ → Result Plan
plan_loop zero maximum plan offset remaining = if remaining == 0 then ok plan else err too_many
plan_loop (suc left) maximum plan offset remaining =
    let overhead = overhead_at plan.count in
    let allocation = allocation_for remaining overhead maximum in
    let payload = payload_for remaining (allocation - overhead) in
    let rest =
      plan_loop left maximum (add_slice plan allocation offset payload) (offset + payload)
        (remaining - payload) in
    if remaining == 0
    then ok plan
    else if allocation == 0
    then err max_size_invalid
    else if ltb (2 ^ 32 - 1) payload
    then err physical_range_invalid
    else rest

abbrev pub empty_plan : Plan
empty_plan = record { image_bytes = 0; allocation_bytes = 0; count = 0; slices = [] }

abbrev pub largest_size : ℕ
largest_size = 4096 * mib

-- `maximum` after it is limited to the largest size.
abbrev pub limited : ℕ → ℕ
limited maximum = if ltb largest_size maximum then largest_size else maximum

abbrev with_image : ℕ → Result Plan → Result Plan
with_image image_bytes (err code) = err code
with_image image_bytes (ok plan) = ok (record plan { image_bytes = image_bytes })

unfoldable pub partition_plan : ℕ → ℕ → Result Plan
partition_plan image_bytes max_partition_sectors =
    let maximum = max_partition_sectors * 512 in
    if image_bytes == 0
    then err invalid_argument
    else if image_bytes % 2048 != 0
    then err image_alignment
    else if ltb maximum (128 * mib)
    then err max_size_invalid
    else with_image image_bytes
        (plan_loop max_partitions (limited maximum) empty_plan 0 image_bytes)
