-- ===== src/ApaRepair/Outcome.antt =====
-- The header that `apa_repair_build_header` makes from the plan of `apa_repair_analyze`.
use fhdb_bootstrap_manager.Common.{
  ℕ, ◌+◌, ◌<◌, ◌≡◌, ◌≢◌, ◌⊎◌, inl, inr, refl, sym, ap, ◌∙◌, fun_ext, true, false, some, arith,
}
use fhdb_bootstrap_manager.Common.Bytes.{
  Bytes, IsBytes, read_le32, write_le32, write_le32_held, read_le32-le32_bytes, le32_bytes,
  read_le32-congr,
}
use fhdb_bootstrap_manager.Apa.{apa_checksum, is_standard_apa_header, is_hybrid_gpt}
use fhdb_bootstrap_manager.Apa.Checksum.{word-zero, checksum-write_le32, checksum-lt}
use fhdb_bootstrap_manager.Apa.Identity.{IsStandard-sound, standard_complete}
use fhdb_bootstrap_manager.ApaRepair.{Plan, analyze, build_header, apply_known_fixes}
use fhdb_bootstrap_manager.ApaRepair.Fields.{
  Field, magic, id, sony, bit, canonical, fix, offset, size, IsInside, IsOutside, canonical-fix,
  canonical-fix_other, canonical-write_checksum, hybrid-fix, fix-outside, canonical_bytes,
  apply_known_fixes-bit, Field-split,
}
use fhdb_bootstrap_manager.ApaRepair.Plans.{analyze-Patchable, analyze_allowed}
use fhdb_bootstrap_manager.ApaRepair.Marks.{Patchable}
use native.Mathlib.Decide.{dec_lt}

abbrev sealed : Bytes → Bytes
sealed h = write_le32 h 0 (apa_checksum h)

read-sealed : (h : Bytes) → read_le32 (sealed h) ≡ apa_checksum (sealed h)
read-sealed h =
    read_le32-congr (sealed h) (le32_bytes (apa_checksum h)) refl refl refl refl
    ∙ read_le32-le32_bytes (apa_checksum h) (checksum-lt h)
    ∙ sym (checksum-write_le32 h (apa_checksum h))

-- What the planner's patch comes to.
pub record Repaired (h r : Bytes) (f : Field) : Type 0 where
  pub plan : Patchable h (λ g. canonical g h) (analyze h) f
  pub result : r ≡ sealed (fix f h)

build_inverts :
    (h r : Bytes) (p : Plan)
    → build_header h p ≡ some r
    → (p.header_patch_safe ≡ true) × (r ≡ sealed (apply_known_fixes h p.safe_header_fixes))
unfolding build_header
build_inverts h r p e = ground arith

pub build-Repaired :
    (h r : Bytes) → build_header h (analyze h) ≡ some r → (f : Field) × Repaired h r f
build-Repaired h r e =
    let (safe, made) = build_inverts h r (analyze h) e in
    let (f, p) = analyze-Patchable h safe in
    (
      f,
      record {
        plan = p;
        result =
            made
            ∙ ap (λ x. sealed (apply_known_fixes h x)) p.fixes
            ∙ ap sealed (apply_known_fixes-bit f h);
      },
    )

hybrid-sealed : (h : Bytes) → is_hybrid_gpt (sealed h) ≡ is_hybrid_gpt h
unfolding is_hybrid_gpt
hybrid-sealed h = refl

before : (f : Field) (i : ℕ) → i < 4 → i < offset f
before magic i l = l
before _ i l = omega arith

stored_kept :
    (o h : Bytes) (f : Field) → ((i : ℕ) → IsOutside f i → h i ≡ o i) → read_le32 h ≡ read_le32 o
stored_kept o h f a =
    let out = λ (i : ℕ) (l : i < 4). a i (inl (before f i l)) in
    read_le32-congr h o (out 0 (omega arith)) (out 1 (omega arith)) (out 2 (omega arith))
      (out 3 (omega arith))

IsInside-or_IsOutside : (f : Field) (i : ℕ) → IsInside f i ⊎ IsOutside f i
IsInside-or_IsOutside f i = elim (dec_lt i (offset f)) [
  | yes low ↦ inr (inl low)
  | no high ↦ elim (dec_lt i (offset f + size f)) [
    | yes below ↦ inl (omega arith, below)
    | no above ↦ inr (inr (omega arith))
  ]
]

sealed_same : (o : Bytes) (i : ℕ) → IsBytes o → read_le32 o ≡ apa_checksum o → sealed o i ≡ o i
sealed_same o i b e = elim (dec_lt i 4) [
  | yes low ↦
      write_le32_held o o 0 (apa_checksum o) i b (word-zero o ∙ e) (omega arith) (omega arith)
  | no high ↦ ground arith
]

all_canonical :
    (h : Bytes) (f g : Field)
    → Patchable h (λ k. canonical k h) (analyze h) f
    → canonical g (sealed (fix f h)) ≡ true
all_canonical h f g p =
    canonical-write_checksum g (fix f h) (apa_checksum (fix f h)) ∙ elim (Field-split g f) [
      | inl same ↦ rw same (canonical-fix f h)
      | inr other ↦ canonical-fix_other f g h other ∙ p.others g other
    ]

-- On bytes, sealing a corroborated repair stores the checksum that is there already.
sealed-fix :
    (h : Bytes) (f : Field) (i : ℕ)
    → IsBytes h
    → apa_checksum (fix f h) ≡ read_le32 h
    → sealed (fix f h) i ≡ fix f h i
sealed-fix h f i b e = elim (dec_lt i 4) [
  | yes low ↦
      write_le32_held (fix f h) h 0 (apa_checksum (fix f h)) i b (word-zero h ∙ sym e) (omega arith)
        (omega arith)
      ∙ sym (fix-outside f h i (inl (before f i low)))
  | no high ↦ ground arith
]

-- A header built from a plan passes every check of a master header: it is accepted by
-- `is_standard_apa_header`, all six fields are canonical, and it is no hybrid.
pub repaired_accepted :
    (h r : Bytes)
    → build_header h (analyze h) ≡ some r
    → (is_standard_apa_header r ≡ true)
      × (is_hybrid_gpt r ≡ false)
      × ((g : Field) → canonical g r ≡ true)
repaired_accepted h r e =
    let (f, p) = build-Repaired h r e in
    rw p.result (
      standard_complete (sealed (fix f h)) (record {
        magic = all_canonical h f magic p.plan;
        id = all_canonical h f id p.plan;
        sony = all_canonical h f sony p.plan;
        checksum = read-sealed (fix f h);
      }),
      hybrid-sealed (fix f h) ∙ hybrid-fix f h ∙ p.plan.single,
      λ g. all_canonical h f g p.plan,
    )

corroborated-fix :
    (h : Bytes) (f : Field)
    → Patchable h (λ g. canonical g h) (analyze h) f
    → apa_checksum (fix f h) ≡ read_le32 h
corroborated-fix h f p = ap apa_checksum (sym (apply_known_fixes-bit f h)) ∙ p.corroborated

-- A header built from a plan differs from the damaged one only inside the one field repaired; the
-- checksum word too keeps its bytes.
pub repaired-IsOutside :
    (h r : Bytes)
    → IsBytes h
    → build_header h (analyze h) ≡ some r
    → (f : Field) × (canonical f h ≡ false) × ((i : ℕ) → IsOutside f i → r i ≡ h i)
repaired-IsOutside h r b e =
    let (f, p) = build-Repaired h r e in
    (
      f,
      p.plan.damaged,
      λ i out.
          ap (λ (x : Bytes). x i) p.result
          ∙ sealed-fix h f i b (corroborated-fix h f p.plan)
          ∙ fix-outside f h i out,
    )

restored :
    (o h : Bytes) (f : Field)
    → IsBytes o
    → canonical f o ≡ true
    → ((i : ℕ) → IsOutside f i → h i ≡ o i)
    → fix f h ≡ o
restored o h f b c a = fun_ext λ i. elim (IsInside-or_IsOutside f i) [
  | inl inside ↦ canonical_bytes f o h i b c inside
  | inr outside ↦ fix-outside f h i outside ∙ a i outside
]

build-safe :
    (h : Bytes) (p : Plan)
    → p.header_patch_safe ≡ true
    → p.blockers ≡ 0
    → build_header h p ≡ some (sealed (apply_known_fixes h p.safe_header_fixes))
unfolding build_header
build-safe h p s e = ground arith

-- Damage to one field of a sound master header is undone: if `h` differs from `o` only inside the
-- field `f`, the field fails its comparison, and the damage shows in the checksum, then the plan
-- allows a patch and the header built is `o`.
pub repair_recovers :
    (o h : Bytes) (f : Field)
    → IsBytes o
    → is_standard_apa_header o ≡ true
    → is_hybrid_gpt o ≡ false
    → ((g : Field) → canonical g o ≡ true)
    → ((i : ℕ) → IsOutside f i → h i ≡ o i)
    → canonical f h ≡ false
    → apa_checksum h ≢ apa_checksum o
    → build_header h (analyze h) ≡ some o
repair_recovers o h f b s y c a d ne =
    let whole : fix f h ≡ o = restored o h f b (c f) a in
    let stored : read_le32 h ≡ read_le32 o = stored_kept o h f a in
    let sum : read_le32 o ≡ apa_checksum o = (IsStandard-sound o s).checksum in
    let fixed : apa_checksum (apply_known_fixes h (bit f)) ≡ read_le32 h =
      ap apa_checksum (apply_known_fixes-bit f h ∙ whole) ∙ sym sum ∙ sym stored in
    let (safe, fixes, clear) =
      analyze_allowed f h d
        (λ k r. sym (canonical-fix_other f k h r) ∙ ap (canonical k) whole ∙ c k)
        (λ e. ne (sym e ∙ stored ∙ sum)) fixed
        (sym (hybrid-fix f h) ∙ ap is_hybrid_gpt whole ∙ y) in
    build-safe h (analyze h) safe clear
    ∙ ap (λ x. some (sealed (apply_known_fixes h x))) fixes
    ∙ ap (λ x. some (sealed x)) (apply_known_fixes-bit f h ∙ whole)
    ∙ ap some (fun_ext λ i. sealed_same o i b sum)
