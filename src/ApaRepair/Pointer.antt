-- ===== src/ApaRepair/Pointer.antt =====
-- What the analysis says of the payload pointer.
use fhdb_bootstrap_manager.Common.{
  ℕ, ◌≡◌, refl, ◌∙◌, Bool, not, inl, inr, Bool-cases, ◌==◌, if◌then◌else◌, arith,
}
use fhdb_bootstrap_manager.Common.Bytes.{Bytes, shift, read_le32}
use fhdb_bootstrap_manager.Apa.{osd_start_offset, osd_size_offset, is_hybrid_gpt}
use fhdb_bootstrap_manager.ApaRepair.{
  Plan, analyze, analyze_marks, judge_identity, judge_anchors, judge_checksum, conclude,
}

identity_keeps :
    (i : ℕ) (p : Plan)
    → (judge_identity i p).pointer_clear_recommended ≡ p.pointer_clear_recommended
identity_keeps i p = ground arith

anchors_keep :
    (i : ℕ) (p : Plan) → (judge_anchors i p).pointer_clear_recommended ≡ p.pointer_clear_recommended
anchors_keep i p = ground arith

checksum_keeps :
    (h : Bytes) (s c : ℕ) (p : Plan)
    → (conclude (judge_checksum h s c p)).pointer_clear_recommended ≡ p.pointer_clear_recommended
checksum_keeps h s c p = ground arith

judged_keeps :
    (h : Bytes) (i a s c : ℕ) (p : Plan)
    → (conclude
        (judge_checksum h s c (judge_anchors a (judge_identity i p)))).pointer_clear_recommended
      ≡ p.pointer_clear_recommended
judged_keeps h i a s c p =
    checksum_keeps h s c (judge_anchors a (judge_identity i p))
    ∙ anchors_keep a (judge_identity i p)
    ∙ identity_keeps i p

marks_pointer :
    (header : Bytes) (magic id sony start kind version : Bool)
    → (analyze_marks header magic id sony start kind version).pointer_clear_recommended
      ≡ not (
          if read_le32 (shift header osd_start_offset) == 0
          then read_le32 (shift header osd_size_offset) == 0
          else not (read_le32 (shift header osd_size_offset) == 0))
unfolding analyze_marks
marks_pointer header magic id sony start kind version = elim (Bool-cases (is_hybrid_gpt header)) [
  | inl hybrid ↦ rw hybrid refl
  | inr plain ↦ rw plain (search judged_keeps)
]

-- The analysis recommends a cleared pointer exactly where one of its fields is zero and the other is not.
pub analyze_pointer :
    (header : Bytes)
    → (analyze header).pointer_clear_recommended
      ≡ not (
          if read_le32 (shift header osd_start_offset) == 0
          then read_le32 (shift header osd_size_offset) == 0
          else not (read_le32 (shift header osd_size_offset) == 0))
unfolding analyze
analyze_pointer header = marks_pointer header _ _ _ _ _ _
