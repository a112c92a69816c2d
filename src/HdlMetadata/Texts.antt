-- ===== src/HdlMetadata/Texts.antt =====
-- The texts of a metadata block, and what the slices leave of it.
use fhdb_bootstrap_manager.Common.{
  ℕ, zero, suc, ◌+◌, ◌^◌, ◌≤◌, ◌<◌, ◌≡◌, ◌⊎◌, inl, inr, refl, sym, ap, ◌∙◌, List, [], ◌∷◌, true,
  ◌!=◌, length, get_or, Bool-cases, arith,
}
use fhdb_bootstrap_manager.Common.Results.{ok, ok-exact}
use fhdb_bootstrap_manager.Common.Bytes.{Bytes, shift, of_list}
use fhdb_bootstrap_manager.HdlPartition.{Slice, Plan}
use fhdb_bootstrap_manager.HdlMetadata.{
  Options, put_entry, build_fixed, slice_refused, build_entries, text_at, printable,
}

-- A text that a block can hold: printable characters, none of them 0.
abbrev pub IsText : List ℕ → Type 0
IsText text = (printable text ≡ true) × ((i : ℕ) → i < length text → 1 ≤ of_list text i)

-- Options whose fields have the widths of the block, with the type of a CD or a DVD.
pub record IsOptions (options : Options) : Type 0 where
  pub title : IsText options.game_title
  pub startup : IsText options.startup
  pub disc : (options.disc_type ≡ 0x12) ⊎ (options.disc_type ≡ 0x14)
  pub layer : options.layer1_start < 2 ^ 32
  pub hdl : options.hdl_compat_flags < 2 ^ 8
  pub opl : options.opl_compat_flags < 2 ^ 8
  pub dma : options.dma_type < 2 ^ 8
  pub mode : options.dma_mode < 2 ^ 8

-- The block without its partition entries, which are written from byte 244 on.
put_entry-before :
    (metadata : Bytes) (i start : ℕ) (slice : Slice) (k : ℕ)
    → k < 244
    → put_entry metadata i start slice k ≡ metadata k
put_entry-before metadata i start slice k h = ground arith

pub build_entries-before :
    (slices : List Slice) (starts : List ℕ) (i from end : ℕ) (metadata out : Bytes) (k : ℕ)
    → build_entries slices starts i from end metadata ≡ ok out
    → k < 244
    → out k ≡ metadata k
unfolding build_entries
build_entries-before [] starts i from end metadata out k e h = elim (Bool-cases (from != end)) [
  | inl bad ↦ absurd (ground (arith, rw bad at e))
  | inr good ↦ ap (λ (b : Bytes). b k) (sym (ok-exact metadata out (rw good at e)))
]
build_entries-before (slice ∷ slices) starts i from end metadata out k e h =
    let start = get_or starts i 0 in
    elim (Bool-cases (slice_refused i start from slice)) [
      | inl bad ↦ absurd (ground (arith, rw bad at e))
      | inr good ↦
          build_entries-before slices starts (i + 1) (from + slice.payload_bytes) end
            (put_entry metadata i start slice) out k (rw good at e) h
          ∙ put_entry-before metadata i start slice k h
    ]

of_list-behind : (xs : List ℕ) (i : ℕ) → length xs ≤ i → of_list xs i ≡ 0
of_list-behind [] i h = refl
of_list-behind (x ∷ xs) zero h = absurd (omega arith)
of_list-behind (x ∷ xs) (suc i) h = of_list-behind xs i (omega arith)

pub title_byte :
    (plan : Plan) (options : Options) (i : ℕ)
    → length options.game_title < 160
    → i < 160
    → build_fixed plan options (8 + i) ≡ of_list options.game_title i
title_byte plan options i fits h = ground (arith, of_list-behind options.game_title i)

pub startup_byte :
    (plan : Plan) (options : Options) (i : ℕ)
    → length options.game_title < 160
    → length options.startup < 60
    → i < 60
    → build_fixed plan options (172 + i) ≡ of_list options.startup i
startup_byte plan options i fits short h = ground (arith, of_list-behind options.startup i)

pub text_at-of_list :
    (text : List ℕ) (source : Bytes) (n : ℕ)
    → ((i : ℕ) → i < length text → 1 ≤ of_list text i)
    → length text < n
    → ((i : ℕ) → i < n → source i ≡ of_list text i)
    → text_at source n ≡ text
unfolding text_at
text_at-of_list text source zero positive fits same = absurd (omega arith)
text_at-of_list [] source (suc n) positive fits same = rw (same 0 (omega arith)) refl
text_at-of_list (c ∷ text) source (suc n) positive fits same =
    let rest =
      text_at-of_list text (shift source 1) n (λ i h. positive (suc i) (omega arith)) (omega arith)
        (λ i h.
          let next : 1 + i ≡ suc i = omega arith in ap source next ∙ same (suc i) (omega arith)) in
    let first : source 0 ≡ c = same 0 (omega arith) in
    let here : 1 ≤ c = positive 0 (omega arith) in ground (arith, first, here, rest)
