-- ===== src/HdlPartition/Completes.antt =====
-- A plan is found for every image that the largest allowed partitions have room for.
use fhdb_bootstrap_manager.Common.{
  ℕ, zero, suc, ◌+◌, ◌-◌, ◌*◌, ◌%◌, ◌^◌, ◌≤◌, ◌<◌, ◌≡◌, inl, inr, ◌∙◌, arith,
}
use native.Mathlib.Decide.{ℕ_discrete}
use fhdb_bootstrap_manager.Common.Results.{ok}
use fhdb_bootstrap_manager.HdlPartition.{
  Plan, mib, overhead_at, add_slice, payload_for, plan_loop, empty_plan, limited, partition_plan,
}
use fhdb_bootstrap_manager.HdlPartition.Sizes.{IsSize, top, top-IsSize, IsChosen}
use fhdb_bootstrap_manager.HdlPartition.Tiling.{round_of, loop_done}

-- What `left` partitions of `size` bytes hold of an image, behind the first.
unfoldable pub room : ℕ → ℕ → ℕ
room zero size = 0
room (suc left) size = size - mib + room left size

room_bound : (left size : ℕ) → size ≤ 4096 * mib → room left size ≤ left * (4096 * mib)
unfolding room
room_bound zero size h = omega arith
room_bound (suc left) size h = omega (arith, room_bound left size h)

-- A slice takes all that remains, or all that the largest partition holds.
remaining_after :
    (remaining overhead maximum allocation payload left : ℕ)
    → IsSize maximum (top maximum)
    → IsChosen ((remaining + overhead) % 2 ^ 64) maximum allocation
    → payload ≡ payload_for remaining (allocation - overhead)
    → remaining + overhead < 2 ^ 64
    → remaining ≤ top maximum - overhead + left
    → remaining - payload ≤ left
unfolding payload_for
remaining_after remaining overhead maximum allocation payload left t chosen p w fits = elim chosen [
  | inl e ↦ ground (arith, e, p)
  | inr (required, _) ↦ ground (arith, required, p)
]

loop_completes :
    (left maximum : ℕ) (plan : Plan) (offset remaining : ℕ)
    → 128 * mib ≤ maximum
    → remaining % 2048 ≡ 0
    → 1 ≤ plan.count
    → left ≤ 64
    → remaining ≤ room left (top maximum)
    → (out : Plan) × (plan_loop left maximum plan offset remaining ≡ ok out)
unfolding room
loop_completes zero maximum plan offset remaining h whole c l fits =
    (plan, loop_done zero maximum plan offset remaining (omega arith))
loop_completes (suc left) maximum plan offset remaining h whole c l fits =
    elim (ℕ_discrete remaining 0) [
      | yes none ↦ (plan, loop_done (suc left) maximum plan offset remaining none)
      | no some ↦
          let (allocation, payload, size, chosen, taken, _, part, sectors, within, turn) =
            round_of left maximum plan offset remaining h (omega arith) whole in
          let largest = top-IsSize maximum h in
          let overhead : overhead_at plan.count ≡ mib = ground (arith, c) in
          let bound = room_bound left (top maximum) largest.large in
          let after : remaining - payload ≤ room left (top maximum) =
            remaining_after remaining (overhead_at plan.count) maximum allocation payload
              (room left (top maximum)) largest chosen taken
              (omega (arith, overhead, fits, bound, largest.large, l))
              (omega (arith, overhead, fits)) in
          let (out, rest) =
            loop_completes left maximum (add_slice plan allocation offset payload)
              (offset + payload) (remaining - payload) h (omega (arith, sectors, whole, within))
              (omega arith) (omega (arith, l)) after in
          (out, turn ∙ rest)
    ]

-- Every image of whole sectors, but the empty one, gets a plan where a partition may have 128 MiB and
-- the image is no longer than what 65 partitions of the largest allowed size hold, less the 4 MiB
-- header of the first and the 1 MiB header of each other one.
pub plan_found :
    (image_bytes max_partition_sectors : ℕ)
    → 1 ≤ image_bytes
    → image_bytes % 2048 ≡ 0
    → 128 * mib ≤ max_partition_sectors * 512
    → image_bytes
      ≤ top (limited (max_partition_sectors * 512))
        - 4 * mib
        + room 64 (top (limited (max_partition_sectors * 512)))
    → (plan : Plan) × (partition_plan image_bytes max_partition_sectors ≡ ok plan)
unfolding partition_plan
plan_found image_bytes max_partition_sectors some whole large fits =
    let maximum : ℕ = limited (max_partition_sectors * 512) in
    let h : 128 * mib ≤ maximum = ground arith in
    let start : Plan = empty_plan in
    let (allocation, payload, size, chosen, taken, _, part, sectors, within, turn) =
      round_of 64 maximum start 0 image_bytes h some whole in
    let largest = top-IsSize maximum h in
    let after : image_bytes - payload ≤ room 64 (top maximum) =
      remaining_after image_bytes (4 * mib) maximum allocation payload (room 64 (top maximum))
        largest chosen taken
        (omega (arith, fits, room_bound 64 (top maximum) largest.large, largest.large)) fits in
    let (out, rest) =
      loop_completes 64 maximum (add_slice start allocation 0 payload) (0 + payload)
        (image_bytes - payload) h (omega (arith, sectors, whole, within)) (omega arith)
        (omega arith) after in
    let found : plan_loop 65 maximum start 0 image_bytes ≡ ok out = turn ∙ rest in
    (record out { image_bytes = image_bytes }, ground (arith, found, some, whole, large))
