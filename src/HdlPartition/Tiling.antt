-- ===== src/HdlPartition/Tiling.antt =====
-- The slices of a plan cover the image, one behind the other, and a plan is found for every image that the
-- largest allowed partitions have room for.
use fhdb_bootstrap_manager.Common.{
  ℕ, zero, suc, ◌+◌, ◌-◌, ◌*◌, ◌%◌, ◌^◌, ◌≤◌, ◌<◌, ◌≡◌, ◌≢◌, refl, sym, subst, ◌∙◌, List, [], ◌∷◌,
  ◌++◌, arith,
}
use native.Mathlib.Decide.{ℕ_discrete}
use fhdb_bootstrap_manager.Common.Results.{Result, err, ok}
use fhdb_bootstrap_manager.HdlPartition.{
  Slice, Plan, mib, overhead_at, add_slice, allocation_for, payload_for, plan_loop, empty_plan,
  limited, partition_plan, too_many, with_image,
}
use fhdb_bootstrap_manager.HdlPartition.Sizes.{IsSize, IsChosen, allocation_cases}

-- `count` slices with `total` bytes of partitions, which hold the image up to `end`.
pub data Tiles (maximum : ℕ) : ℕ → ℕ → ℕ → List Slice → Type 0 where
  nothing : Tiles maximum 0 0 0 []
  next :
      (count end total allocation payload : ℕ) (slices : List Slice)
      → Tiles maximum count end total slices
      → IsSize maximum allocation
      → payload + overhead_at count ≤ allocation
      → 1 ≤ payload
      → payload % 2048 ≡ 0
      → Tiles maximum (count + 1) (end + payload) (total + allocation) (
          slices
          ++ (record {
            allocation_bytes = allocation;
            payload_offset = end;
            payload_bytes = payload;
          }
              ∷ []))

overhead_bound :
    (count : ℕ)
    → (overhead_at count ≤ 4 * mib) × (1 ≤ overhead_at count) × (overhead_at count % mib ≡ 0)
overhead_bound count = ground arith

-- The payload of a slice, whatever its size.
payload_cases :
    (remaining overhead allocation maximum : ℕ)
    → IsSize maximum allocation
    → overhead ≤ 4 * mib
    → 1 ≤ overhead
    → overhead % mib ≡ 0
    → 1 ≤ remaining
    → remaining % 2048 ≡ 0
    → (payload_for remaining (allocation - overhead) + overhead ≤ allocation)
      × (1 ≤ payload_for remaining (allocation - overhead))
      × (payload_for remaining (allocation - overhead) % 2048 ≡ 0)
      × (payload_for remaining (allocation - overhead) ≤ remaining)
      × (payload_for remaining (allocation - overhead) < 2 ^ 32)
unfolding payload_for
payload_cases remaining overhead allocation maximum s p o a q b =
    ground (arith, s.small, s.large, s.whole)

-- The loop's first round, where bytes remain.
pub round_of :
    (left maximum : ℕ) (plan : Plan) (offset remaining : ℕ)
    → 128 * mib ≤ maximum
    → 1 ≤ remaining
    → remaining % 2048 ≡ 0
    → (allocation payload : ℕ) × IsSize maximum allocation
      × IsChosen ((remaining + overhead_at plan.count) % 2 ^ 64) maximum allocation
      × (payload ≡ payload_for remaining (allocation - overhead_at plan.count))
      × (payload + overhead_at plan.count ≤ allocation)
      × (1 ≤ payload)
      × (payload % 2048 ≡ 0)
      × (payload ≤ remaining)
      × (plan_loop (suc left) maximum plan offset remaining
          ≡ plan_loop left maximum
              (add_slice plan allocation offset payload)
              (offset + payload)
              (remaining - payload))
unfolding plan_loop
round_of left maximum plan offset remaining h some whole =
    let overhead : ℕ = overhead_at plan.count in
    let allocation : ℕ = allocation_for remaining overhead maximum in
    let payload : ℕ = payload_for remaining (allocation - overhead) in
    let (low, some_overhead, mibs) = overhead_bound plan.count in
    let (size, chosen) = allocation_cases remaining overhead maximum h in
    let (fits, part, sectors, within, word) =
      payload_cases remaining overhead allocation maximum size low some_overhead mibs some whole in
    (
      allocation,
      payload,
      size,
      chosen,
      refl,
      fits,
      part,
      sectors,
      within,
      ground (arith, size.small, word, some),
    )

pub loop_done :
    (left maximum : ℕ) (plan : Plan) (offset remaining : ℕ)
    → remaining ≡ 0
    → plan_loop left maximum plan offset remaining ≡ ok plan
unfolding plan_loop
loop_done zero maximum plan offset remaining e = ground (arith, e)
loop_done (suc left) maximum plan offset remaining e = ground (arith, e)

loop_full :
    (maximum : ℕ) (plan : Plan) (offset remaining : ℕ)
    → remaining ≢ 0
    → plan_loop zero maximum plan offset remaining ≡ err too_many
unfolding plan_loop
loop_full maximum plan offset remaining e = ground (arith, e)

ok_same : {A : Type 0} → (x y : A) → ok x ≡ ok y → x ≡ y
ok_same x y e = ground (arith, e)

abbrev Covers : ℕ → ℕ → ℕ → Plan → Type 0
Covers maximum most end out =
    Tiles maximum out.count end out.allocation_bytes out.slices × (out.count ≤ most)

stopped :
    (left maximum : ℕ) (plan out : Plan) (offset remaining : ℕ)
    → Tiles maximum plan.count offset plan.allocation_bytes plan.slices
    → remaining ≡ 0
    → plan_loop left maximum plan offset remaining ≡ ok out
    → Covers maximum (plan.count + left) (offset + remaining) out
stopped left maximum plan out offset remaining t none e =
    let same : plan ≡ out =
      ok_same plan out (sym (loop_done left maximum plan offset remaining none) ∙ e) in
    let end : offset ≡ offset + remaining = omega (arith, none) in
    subst (Covers maximum (plan.count + left) (offset + remaining)) same
      (subst (λ n. Tiles maximum plan.count n plan.allocation_bytes plan.slices) end t, omega arith)

loop-Tiles :
    (left maximum : ℕ) (plan out : Plan) (offset remaining : ℕ)
    → 128 * mib ≤ maximum
    → Tiles maximum plan.count offset plan.allocation_bytes plan.slices
    → remaining % 2048 ≡ 0
    → plan_loop left maximum plan offset remaining ≡ ok out
    → Covers maximum (plan.count + left) (offset + remaining) out
loop-Tiles zero maximum plan out offset remaining h t whole e = elim (ℕ_discrete remaining 0) [
  | yes none ↦ stopped zero maximum plan out offset remaining t none e
  | no some ↦ absurd (ground (arith, e, loop_full maximum plan offset remaining some))
]
loop-Tiles (suc left) maximum plan out offset remaining h t whole e =
    elim (ℕ_discrete remaining 0) [
      | yes none ↦ stopped (suc left) maximum plan out offset remaining t none e
      | no some ↦
          let (allocation, payload, size, _, _, fits, part, sectors, within, turn) =
            round_of left maximum plan offset remaining h (omega arith) whole in
          let (tiles, few) =
            loop-Tiles left maximum (add_slice plan allocation offset payload) out
              (offset + payload) (remaining - payload) h
              (next plan.count offset plan.allocation_bytes allocation payload plan.slices t size
                fits part sectors)
              (omega (arith, sectors, whole, within)) (sym turn ∙ e) in
          let end : offset + payload + (remaining - payload) ≡ offset + remaining =
            omega (arith, within) in
          (
            subst (λ n. Tiles maximum out.count n out.allocation_bytes out.slices) end tiles,
            omega (arith, few),
          )
    ]

with_image_ok :
    (image_bytes : ℕ) (r : Result Plan) (plan : Plan)
    → with_image image_bytes r ≡ ok plan
    → (found : Plan) × (r ≡ ok found) × (plan ≡ record found { image_bytes = image_bytes })
with_image_ok image_bytes (err code) plan e = absurd (ground (arith, e))
with_image_ok image_bytes (ok found) plan e =
    (found, refl, sym (ok_same (record found { image_bytes = image_bytes }) plan e))

-- A plan divides the image: its slices follow one another from the image's first byte to its last, each with
-- whole sectors of 2048 bytes, in a partition that has room for them behind its header and one of the six
-- standard sizes, 128 MiB doubled up to five times, that the largest size allows; there are at most 65, and `allocation_bytes` is the sum of the partitions.
pub plan-Tiles :
    (image_bytes max_partition_sectors : ℕ) (plan : Plan)
    → partition_plan image_bytes max_partition_sectors ≡ ok plan
    → Tiles
        (limited (max_partition_sectors * 512))
        plan.count
        image_bytes
        plan.allocation_bytes
        plan.slices
      × (plan.count ≤ 65)
      × (plan.image_bytes ≡ image_bytes)
unfolding partition_plan
plan-Tiles image_bytes max_partition_sectors plan e =
    let start : Plan = empty_plan in
    let maximum : ℕ = limited (max_partition_sectors * 512) in
    let aligned : image_bytes % 2048 ≡ 0 = ground (arith, e) in
    let large : 128 * mib ≤ maximum = ground (arith, e) in
    let run : with_image image_bytes (plan_loop 65 maximum start 0 image_bytes) ≡ ok plan =
      ground (arith, e) in
    let (found, loops, same) =
      with_image_ok image_bytes (plan_loop 65 maximum start 0 image_bytes) plan run in
    let (tiles, few) =
      loop-Tiles 65 maximum start found 0 image_bytes large nothing aligned loops in
    let end : 0 + image_bytes ≡ image_bytes = omega arith in
    let covered : Tiles maximum found.count image_bytes found.allocation_bytes found.slices =
      subst (λ n. Tiles maximum found.count n found.allocation_bytes found.slices) end tiles in
    let count_bound : found.count ≤ 65 = omega (arith, few) in
    subst
      (λ p.
        Tiles maximum p.count image_bytes p.allocation_bytes p.slices
        × (p.count ≤ 65)
        × (p.image_bytes ≡ image_bytes))
      (sym same) (covered, count_bound, refl)
