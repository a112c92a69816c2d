-- ===== src/Witnesses/Headers.antt =====
-- Headers: a master whose identifier was damaged.
use fhdb_bootstrap_manager.Common.{
  ℕ, ◌<◌, ◌≡◌, ◌≢◌, inl, inr, refl, true, false, some, [], ◌∷◌, ◌==◌, ◌||◌, arith,
}
use fhdb_bootstrap_manager.Common.Bits.{every, every_passes}
use fhdb_bootstrap_manager.Common.Bytes.{
  Bytes, IsBytes, of_list, codes, memcpy, memeq, read_le16, read_le32,
}
use fhdb_bootstrap_manager.Common.Arrays.{memcpy_before, memcpy_behind}
use fhdb_bootstrap_manager.Apa.{apa_checksum, is_standard_apa_header, is_hybrid_gpt}
use fhdb_bootstrap_manager.Apa.Checksum.{word}
use fhdb_bootstrap_manager.Apa.Identity.{damaged_word_refused}
use fhdb_bootstrap_manager.ApaRepair.{
  analyze, analyze_marks, build_header, apply_known_fixes, bit_count32,
}
use fhdb_bootstrap_manager.ApaRepair.Fields.{
  Field, magic, id, sony, start, kind, version, canonical, IsOutside,
}
use fhdb_bootstrap_manager.ApaRepair.Outcome.{repair_recovers, repaired_accepted}
use fhdb_bootstrap_manager.Witnesses.{
  master, master-IsBytes, put-IsBytes, master_standard, master_single, all_bytes,
}

abbrev pub damaged : Bytes
damaged = memcpy master 16 (of_list (codes "__mbX")) 5

damaged-IsBytes : IsBytes damaged
unfolding all_bytes
damaged-IsBytes = put-IsBytes master 16 (codes "__mbX") 5 master-IsBytes refl

master-canonical : (g : Field) → canonical g master ≡ true
unfolding memeq read_le16 read_le32
master-canonical magic = refl
master-canonical id = refl
master-canonical sony = refl
master-canonical start = refl
master-canonical kind = refl
master-canonical version = refl

damaged_outside : (i : ℕ) → IsOutside id i → damaged i ≡ master i
damaged_outside i (inl low) = memcpy_before master 16 (of_list (codes "__mbX")) 5 i low
damaged_outside i (inr high) = memcpy_behind master 16 (of_list (codes "__mbX")) 5 i high

damaged_id : canonical id damaged ≡ false
unfolding memeq
damaged_id = refl

damaged_sum : apa_checksum damaged ≢ apa_checksum master
unfolding apa_checksum read_le32
damaged_sum e = absurd (ground (arith, e))

repair_recovers_example : build_header damaged (analyze damaged) ≡ some master
repair_recovers_example =
    repair_recovers master damaged id master-IsBytes master_standard master_single master-canonical
      damaged_outside damaged_id damaged_sum

pub rebuilt : build_header damaged (analyze damaged) ≡ some master
rebuilt =
    repair_recovers master damaged id master-IsBytes master_standard master_single master-canonical
      damaged_outside damaged_id damaged_sum

repaired_accepted_example :
    (is_standard_apa_header master ≡ true)
    × (is_hybrid_gpt master ≡ false)
    × ((g : Field) → canonical g master ≡ true)
repaired_accepted_example = repaired_accepted damaged master rebuilt

damaged_safe : (analyze damaged).header_patch_safe ≡ true
unfolding analyze analyze_marks apply_known_fixes bit_count32 is_hybrid_gpt apa_checksum memeq
    read_le16 read_le32
damaged_safe = refl

-- The other disk's header, whose word 0x4f differs.
abbrev other : Bytes
other = memcpy master 0x13c (of_list (7 ∷ [])) 1

other-IsBytes : IsBytes other
unfolding all_bytes
other-IsBytes = put-IsBytes master 0x13c (7 ∷ []) 1 master-IsBytes refl

agree_but :
    (a b : ℕ → ℕ) (k n j : ℕ)
    → every (λ i. i == k || a i == b i) n ≡ true
    → j < n
    → j ≢ k
    → a j ≡ b j
agree_but a b k n j e h ne = ground (arith, every_passes (λ i. i == k || a i == b i) n j h e)

other_words : (j : ℕ) → j < 256 → j ≢ 0x4f → word master j ≡ word other j
unfolding read_le32 every
other_words j h ne = agree_but (word master) (word other) 0x4f 256 j refl h ne

other-word : word master 0x4f ≢ word other 0x4f
unfolding read_le32
other-word e = absurd (ground (arith, e))

damaged_word_refused_example : is_standard_apa_header other ≡ false
damaged_word_refused_example =
    damaged_word_refused master other 0x4f master-IsBytes other-IsBytes master_standard
      (omega arith) (omega arith) other_words other-word
