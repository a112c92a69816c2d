-- ===== src/ApaForensic/Inspect.antt =====
-- src/apa_forensic.c: the plausibility tests of a header's fields, and inspect_header.
use fhdb_bootstrap_manager.Common.{
  ℕ, zero, suc, ◌+◌, bit_and, bit_or, Bool, true, false, ◌&&◌, ◌||◌, ltb, leb, ◌==◌, ◌!=◌,
  if◌then◌else◌,
}
use fhdb_bootstrap_manager.Common.Ints.{ℤ, pos, negsuc}
use fhdb_bootstrap_manager.Common.Bytes.{Bytes, shift, memeq, read_le16, read_le32}
use fhdb_bootstrap_manager.Apa.{
  magic_offset, id_offset, id_size, start_offset, length_offset, type_offset, nsub_offset, max_subs,
  apa_magic, apa_checksum,
}
use fhdb_bootstrap_manager.ApaForensic.{
  evidence_magic, evidence_self_start, evidence_checksum, evidence_length, evidence_nsub,
  evidence_type, evidence_id, evidence_referenced,
}

unfoldable pub type_plausible : ℕ → Bool
type_plausible type =
    type == 0x0000
    || type == 0x0001
    || type == 0x0082
    || type == 0x0083
    || type == 0x0088
    || type == 0x0100
    || type == 0x0101
    || type == 0x1337

-- The loop of `id_plausible` with `rounds` characters left, from the character `i` on.
pub id_scan : Bytes → ℕ → ℕ → Bool → Bool
id_scan id zero i saw_character = saw_character
id_scan id (suc rounds) i saw_character =
    let rest = id_scan id rounds (i + 1) true in
    if id i == 0 then saw_character else if ltb (id i) 0x20 || ltb 0x7e (id i) then false else rest

unfoldable pub id_plausible : Bytes → Bool
unfolding id_scan
id_plausible id = id_scan id id_size 0 false

unfoldable pub clamp_confidence : ℤ → ℕ
clamp_confidence (negsuc n) = 0
clamp_confidence (pos value) = if ltb 100 value then 100 else value

-- `evidence |= bit` and `score += points`, each under its test.
abbrev pub mark_if : Bool → ℕ → ℕ → ℕ
mark_if passed bit evidence = if passed then bit_or evidence bit else evidence

abbrev award_if : Bool → ℕ → ℕ → ℕ
award_if passed points score = if passed then score + points else score

abbrev semantic_anchor_mask : ℕ
semantic_anchor_mask = bit_or (bit_or evidence_magic evidence_length) evidence_id

abbrev pub direct_grid_anchor_mask : ℕ
direct_grid_anchor_mask = bit_or evidence_magic evidence_self_start

-- The value returned, and what is written through the pointers.
pub record Inspection : Type 0 where
  pub confidence : ℕ
  pub evidence : ℕ
  pub checksum : ℕ

-- The part behind the checksum walk, over the evidence and the score of the two anchors.
abbrev inspect_rest : Bytes → ℕ → ℕ → ℕ → ℕ → Inspection
inspect_rest header total_sectors checksum anchored points =
    let start = read_le32 (shift header start_offset) in
    let size = read_le32 (shift header length_offset) in
    let summed = read_le32 header == checksum in
    let bounded = size != 0 && ltb start total_sectors && leb (start + size) total_sectors in
    let few = leb (read_le32 (shift header nsub_offset)) max_subs in
    let typed = type_plausible (read_le16 (shift header type_offset)) in
    let named = id_plausible (shift header id_offset) in
    let evidence = mark_if named evidence_id (
      mark_if typed evidence_type (
        mark_if few evidence_nsub
          (mark_if bounded evidence_length (mark_if summed evidence_checksum anchored)))) in
    let score =
      award_if named 10
        (award_if typed 5 (award_if few 5 (award_if bounded 15 (award_if summed 20 points)))) in
    record {
      confidence =
          clamp_confidence (pos (if bit_and evidence semantic_anchor_mask == 0 then 0 else score));
      evidence = evidence;
      checksum = checksum;
    }

unfoldable pub inspect_header : Bytes → ℕ → ℕ → ℕ → Inspection
unfolding type_plausible id_plausible clamp_confidence
inspect_header header lba total_sectors source_evidence =
    let magic = memeq (shift header magic_offset) apa_magic 4 in
    let self = read_le32 (shift header start_offset) == lba in
    let anchored =
      mark_if self evidence_self_start (mark_if magic evidence_magic source_evidence) in
    let points = award_if self 20 (award_if magic 25 0) in
    if bit_and source_evidence evidence_referenced == 0
      && bit_and anchored direct_grid_anchor_mask == 0
    then record { confidence = 0; evidence = anchored; checksum = 0 }
    else inspect_rest header total_sectors (apa_checksum header) anchored points
