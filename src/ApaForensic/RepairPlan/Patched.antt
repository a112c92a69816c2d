-- ===== src/ApaForensic/RepairPlan/Patched.antt =====
-- What a repair plan holds, and the headers built from its patches.
use fhdb_bootstrap_manager.Common.{
  ℕ, zero, suc, ◌+◌, ◌-◌, ◌≤◌, ◌<◌, ◌^◌, ◌≡◌, ◌⊎◌, inl, inr, refl, sym, ◌∙◌, true, false, not, ◌||◌,
  List, [], ◌∷◌, leb, length, get_or, length-append, All, All-snoc, All-at, Bool-cases, arith,
}
use fhdb_bootstrap_manager.Common.Bytes.{
  Bytes, shift, read_le32, write_le32, write_le32_held, read_le32-congr, le32_bytes,
  read_le32-le32_bytes,
}
use fhdb_bootstrap_manager.Common.Results.{Result, ok}
use fhdb_bootstrap_manager.Apa.{next_offset, prev_offset, apa_checksum}
use fhdb_bootstrap_manager.Apa.Checksum.{checksum-lt, checksum-write_le32}
use fhdb_bootstrap_manager.ApaForensic.{Node, node_at, Map, ScanResult}
use fhdb_bootstrap_manager.ApaForensic.Search.Copied.{IsRead}
use fhdb_bootstrap_manager.ApaForensic.Evaluate.{desired_next, desired_prev}
use fhdb_bootstrap_manager.ApaForensic.RepairPlan.{
  Patch, no_patch, RepairPlan, relink, patch_checksum_corroborated, patch_for, is_linked, add_patch,
  plan_loop, map_at, no_patches, judge, build_repair_plan, build_patched_header,
}

-- `repaired` is the header `original` with the links of the patch and a checksum that fits; where the patch
-- is corroborated, the checksum word is the one stored in the header before.
pub record IsPatched (original : Bytes) (patch : Patch) (repaired : Bytes) : Type 0 where
  pub next : read_le32 (shift repaired next_offset) ≡ patch.new_next
  pub prev : read_le32 (shift repaired prev_offset) ≡ patch.new_prev
  pub summed : read_le32 repaired ≡ apa_checksum repaired
  pub kept :
      (i : ℕ)
      → ((4 ≤ i) × (i < next_offset)) ⊎ ((prev_offset + 4 ≤ i) × (i < 1024))
      → repaired i ≡ original i
  pub corroborated : patch.checksum_corroborated ≡ true → (i : ℕ) → i < 4 → repaired i ≡ original i

-- A patch builds a header of the one that the reader gives at its sector.
abbrev pub IsBuilt : (ℕ → Result Bytes) → ScanResult → Patch → Type 0
IsBuilt reader result patch =
    (original repaired : Bytes) × (reader patch.lba ≡ ok original)
    × (build_patched_header result patch ≡ ok repaired)
    × IsPatched original patch repaired

abbrev sealed : Bytes → Bytes
sealed h = write_le32 h 0 (apa_checksum h)

read-sealed : (h : Bytes) → read_le32 (sealed h) ≡ apa_checksum (sealed h)
read-sealed h =
    read_le32-congr (sealed h) (le32_bytes (apa_checksum h)) refl refl refl refl
    ∙ read_le32-le32_bytes (apa_checksum h) (checksum-lt h)
    ∙ sym (checksum-write_le32 h (apa_checksum h))

next-sealed :
    (h : Bytes) (n p : ℕ) → n < 2 ^ 32 → read_le32 (shift (sealed (relink h n p)) next_offset) ≡ n
unfolding read_le32
next-sealed h n p small = read_le32-le32_bytes n small

prev-sealed :
    (h : Bytes) (n p : ℕ) → p < 2 ^ 32 → read_le32 (shift (sealed (relink h n p)) prev_offset) ≡ p
unfolding read_le32
prev-sealed h n p small = read_le32-le32_bytes p small

module _ (reader : ℕ → Result Bytes) (total : ℕ) (in_range : total ≤ 2 ^ 32) (result : ScanResult)
    (map : Map)
    (reads : (i : ℕ) → i < length result.nodes → IsRead reader total (node_at result.nodes i)) where
  lba-lt :
      (nodes : List Node)
      → ((i : ℕ) → i < length nodes → IsRead reader total (node_at nodes i))
      → (k : ℕ) → (node_at nodes k).lba < 2 ^ 32
  lba-lt [] r k = omega arith
  lba-lt (node ∷ nodes) r zero = omega (arith, (r 0 (omega arith)).placed)
  lba-lt (node ∷ nodes) r (suc k) = lba-lt nodes (λ i h. r (suc i) (omega arith)) k

  desired_next-lt : (order : List ℕ) (i : ℕ) → desired_next result.nodes order i < 2 ^ 32
  desired_next-lt order i =
      let bound = lba-lt result.nodes reads in
      ground (arith, bound (get_or order 1 0), bound (get_or order (i + 1) 0))

  desired_prev-lt : (order : List ℕ) (i : ℕ) → desired_prev result.nodes order i < 2 ^ 32
  desired_prev-lt order i =
      let bound = lba-lt result.nodes reads in
      ground (arith, bound (get_or order (length order - 1) 0), bound (get_or order (i - 1) 0))

  -- Every patch is that of an entry of the map.
  abbrev IsMade : Patch → Type 0
  IsMade patch = (i : ℕ) × (i < length map.order) × (patch ≡ patch_for result map i)

  made_builds :
      ((i : ℕ) → i < length map.order → get_or map.order i 0 < length result.nodes)
      → (patch : Patch) → IsMade patch
      → IsBuilt reader result patch
  unfolding build_patched_header patch_for patch_checksum_corroborated
  made_builds valid patch (i, inside, e) =
      let k = get_or map.order i 0 in
      let node = node_at result.nodes k in
      let next = desired_next result.nodes map.order i in
      let prev = desired_prev result.nodes map.order i in
      let read = reads k (valid i inside) in
      let same = λ (j : ℕ) (h : j < 1024). read.copied.header j h in
      let stored : node.stored_checksum ≡ read_le32 node.header =
        read.copied.stored
        ∙ read_le32-congr read.original node.header (sym (same 0 (omega arith)))
            (sym (same 1 (omega arith))) (sym (same 2 (omega arith)))
            (sym (same 3 (omega arith))) in
      rw e (
        read.original,
        sealed (relink node.header next prev),
        read.given,
        ground (arith, valid i inside),
        record {
          next = next-sealed node.header next prev (desired_next-lt map.order i);
          prev = prev-sealed node.header next prev (desired_prev-lt map.order i);
          summed = read-sealed (relink node.header next prev);
          kept = λ j h.
              let held : sealed (relink node.header next prev) j ≡ node.header j =
                ground (arith, h) in
              held ∙ same j (ground (arith, h));
          corroborated = λ c j h.
              write_le32_held (relink node.header next prev) node.header 0
                (apa_checksum (relink node.header next prev)) j read.copied.bytes
                (ground (arith, c, stored)) (omega arith) (omega arith)
              ∙ same j (omega arith);
        },
      )

  abbrev IsSure : RepairPlan → Type 0
  IsSure plan =
      plan.speculative_count ≡ 0
      → All (λ (patch : Patch). patch.checksum_corroborated ≡ true) plan.patches

  record IsMadePlan (plan : RepairPlan) : Type 0 where
    made : All IsMade plan.patches
    sure : IsSure plan

  add_patch-IsMadePlan :
      (plan : RepairPlan) (patch : Patch)
      → IsMade patch
      → IsMadePlan plan
      → IsMadePlan (add_patch plan patch)
  add_patch-IsMadePlan plan patch m h = record {
    made = All-snoc IsMade plan.patches patch h.made m;
    sure = λ z. elim (Bool-cases patch.checksum_corroborated) [
      | inl sure ↦
          All-snoc (λ (p : Patch). p.checksum_corroborated ≡ true) plan.patches patch
            (h.sure (ground (arith, z, sure))) sure
      | inr guess ↦ absurd (ground (arith, z, guess))
    ];
  }

  -- The loop ends with a plan, as no map has more entries than a plan has room for patches.
  plan_loop-IsMadePlan :
      (rounds i : ℕ) (plan : RepairPlan)
      → i + rounds ≤ length map.order
      → length plan.patches ≤ i
      → i + rounds ≤ 2048
      → IsMadePlan plan
      → (after : RepairPlan) × (plan_loop result map rounds i plan ≡ ok after) × IsMadePlan after
  unfolding plan_loop
  plan_loop-IsMadePlan zero i plan h few room m = (plan, refl, m)
  plan_loop-IsMadePlan (suc rounds) i plan h few room m =
      elim (Bool-cases (is_linked result map i)) [
        | inl linked ↦
            rw (linked, plan_loop)
              (plan_loop-IsMadePlan rounds (i + 1) plan (omega arith) (omega arith) (omega arith) m)
        | inr broken ↦
            let space : leb 2048 (length plan.patches) ≡ false = ground arith in
            rw (broken, space, plan_loop)
              (plan_loop-IsMadePlan rounds (i + 1) (add_patch plan (patch_for result map i))
                (omega arith)
                (omega (arith, length-append plan.patches (patch_for result map i ∷ [])))
                (omega arith)
                (add_patch-IsMadePlan plan (patch_for result map i) (i, omega arith, refl) m))
      ]

-- A map whose entries are numbers of nodes, no more than a map has room for.
abbrev pub IsMapped : ℕ → Map → Type 0
IsMapped count map = All (λ k. k < count) map.order × (length map.order ≤ 2048)

-- What a plan promises: its patches build headers, and all of them are corroborated where it is safe.
pub record IsPlanned (reader : ℕ → Result Bytes) (result : ScanResult) (plan : RepairPlan)
    : Type 0 where
  pub builds :
      (j : ℕ) → j < length plan.patches → IsBuilt reader result (get_or plan.patches j no_patch)
  pub safe :
      plan.automatic_safe ≡ true
      → (j : ℕ) → j < length plan.patches
      → (get_or plan.patches j no_patch).checksum_corroborated ≡ true

-- A plan is built for every map of a table of read headers, whose entries are nodes of it. Each of its
-- patches builds a header that differs from the one the reader gives at its sector in the two links and the checksum alone, has
-- the links of the patch and passes the checksum; and a plan that is safe for an automatic repair leaves
-- the checksum word too as it was stored.
pub plan_builds :
    (reader : ℕ → Result Bytes) (total : ℕ) (result : ScanResult) (map_index : ℕ)
    → total ≤ 2 ^ 32
    → ((i : ℕ) → i < length result.nodes → IsRead reader total (node_at result.nodes i))
    → map_index < length result.maps
    → IsMapped (length result.nodes) (map_at result map_index)
    → (plan : RepairPlan) × (build_repair_plan result map_index ≡ ok plan)
      × IsPlanned reader result plan
unfolding build_repair_plan
plan_builds reader total result map_index in_range reads known (numbers, short) =
    let map = map_at result map_index in
    let valid = λ (i : ℕ) (h : i < length map.order). All-at _ map.order i 0 numbers h in
    let there : leb (length result.maps) map_index ≡ false = ground arith in
    let start = no_patches map_index map.confidence in
    elim (Bool-cases (result.truncated || not map.repairable)) [
      | inl blocked ↦
          rw (there, blocked)
            (
              start,
              refl,
              record { builds = λ j h. absurd (omega arith); safe = λ e j h. absurd (omega arith) },
            )
      | inr open_ ↦
          let (plan, e, m) =
            plan_loop-IsMadePlan reader total in_range result map reads (length map.order) 0 start
              (omega arith) (omega arith) (omega arith) (record { made = tt; sure = λ z. tt }) in
          rw (there, open_, e)
            (
              judge result map plan,
              refl,
              record {
                builds = λ j h.
                    made_builds reader total in_range result map reads valid
                      (get_or plan.patches j no_patch) (All-at _ plan.patches j no_patch m.made h);
                safe = λ s j h.
                    All-at (λ (p : Patch). p.checksum_corroborated ≡ true) plan.patches j no_patch
                      (m.sure (ground (arith, s))) h;
              },
            )
    ]
