-- ===== src/Apa/Identity.antt =====
-- What the identity checks of apa.c accept.
use fhdb_bootstrap_manager.Common.{
  ℕ, ◌-◌, ◌≤◌, ◌<◌, ◌≡◌, ◌≢◌, ◌⊎◌, ◌↔◌, inl, inr, sym, ◌∙◌, true, false, arith, Bool-cases,
  &&-eq-true,
}
use fhdb_bootstrap_manager.Common.Bytes.{
  Bytes, IsBytes, shift, read_le32, memeq, memeq-shift_sound, memeq-shift_complete,
}
use fhdb_bootstrap_manager.Apa.{
  magic_offset, id_offset, mbr_magic_offset, apa_magic, mbr_id, sce_magic, apa_checksum,
  is_standard_apa_header, headers_match_same_disk,
}
use fhdb_bootstrap_manager.Apa.Checksum.{word, word-zero, checksum_one_word}

pub record IsStandard (h : Bytes) : Type 0 where
  pub magic : memeq (shift h magic_offset) apa_magic 4 ≡ true
  pub id : memeq (shift h id_offset) mbr_id 5 ≡ true
  pub sony : memeq (shift h mbr_magic_offset) sce_magic 32 ≡ true
  pub checksum : read_le32 h ≡ apa_checksum h

pub IsStandard-sound : (h : Bytes) → is_standard_apa_header h ≡ true → IsStandard h
unfolding is_standard_apa_header
IsStandard-sound h e = ground arith

pub standard_complete : (h : Bytes) → IsStandard h → is_standard_apa_header h ≡ true
unfolding is_standard_apa_header
standard_complete h s = ground arith

-- A header that differs from an accepted one in exactly one of its words 1 to 255 is refused.
pub damaged_word_refused :
    (h g : Bytes) (k : ℕ)
    → IsBytes h
    → IsBytes g
    → is_standard_apa_header h ≡ true
    → 1 ≤ k
    → k < 256
    → ((j : ℕ) → j < 256 → j ≢ k → word h j ≡ word g j)
    → word h k ≢ word g k
    → is_standard_apa_header g ≡ false
damaged_word_refused h g k bh bg s p q e ne = elim (Bool-cases (is_standard_apa_header g)) [
  | inr refused ↦ refused
  | inl accepted ↦ absurd (
      checksum_one_word h g k bh bg p q (λ j a b. e j b) ne
        (sym (IsStandard-sound h s).checksum
          ∙ sym (word-zero h)
          ∙ e 0 (omega arith) (omega arith)
          ∙ word-zero g
          ∙ (IsStandard-sound g accepted).checksum))
]

-- Offsets that `headers_match_same_disk` compares: all but the checksum and osdStart/osdSize.
abbrev pub IsImmutable : ℕ → Type 0
IsImmutable i = (4 ≤ i) × (i < 1024) × ((i < 0x130) ⊎ (0x138 ≤ i))

-- Two headers match exactly when they agree at every offset other than the checksum's and those of
-- osdStart and osdSize.
pub headers_match_iff :
    (a b : Bytes) → (headers_match_same_disk a b ≡ true) ↔ ((i : ℕ) → IsImmutable i → a i ≡ b i)
unfolding headers_match_same_disk
headers_match_iff a b = (sound, complete)
  where
    sound : headers_match_same_disk a b ≡ true → (i : ℕ) → IsImmutable i → a i ≡ b i
    sound e i (lo, hi, inl before) =
        let (first, second) = &&-eq-true _ _ e in
        memeq-shift_sound a b 4 (0x130 - 4) i first lo before
    sound e i (lo, hi, inr after) =
        let (first, second) = &&-eq-true _ _ e in
        memeq-shift_sound a b 0x138 (1024 - 0x138) i second after hi

    complete : ((i : ℕ) → IsImmutable i → a i ≡ b i) → headers_match_same_disk a b ≡ true
    complete e = rw (
      memeq-shift_complete a b 4 (0x130 - 4) (λ i p q. e i (p, omega arith, inl q)),
      memeq-shift_complete a b 0x138 (1024 - 0x138) (λ i p q. e i (omega arith, q, inr p)),
    )
