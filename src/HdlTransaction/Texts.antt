-- ===== src/HdlTransaction/Texts.antt =====
-- The texts of a transaction, where its record holds them.
use fhdb_bootstrap_manager.Common.{ℕ, ◌+◌, ◌≤◌, ◌<◌, ◌≡◌, ◌∙◌, arith}
use native.Mathlib.Decide.{dec_lt}
use fhdb_bootstrap_manager.Common.Bytes.{Bytes}
use fhdb_bootstrap_manager.Common.Arrays.{memcpy_before, memcpy_behind}
use fhdb_bootstrap_manager.HdlTransaction.{
  Transaction, bounded_length, encode_body, put_title, put_path, put_startup, put_target,
  put_fingerprint, put_text, encode_numbers,
}
use fhdb_bootstrap_manager.HdlTransaction.Fields.{IsText, length_bound, below_settings, numbers_end}

-- A text that is put where zeros stand.
text_put :
    (dst : Bytes) (off : ℕ) (text : Bytes) (n i : ℕ)
    → IsText n text
    → dst (off + i) ≡ 0
    → put_text dst off text n (off + i) ≡ text i
text_put dst off text n i z clear = elim (dec_lt i (bounded_length text n)) [
  | yes inside ↦ ground arith
  | no behind ↦ ground (arith, clear, z i (omega arith))
]

-- A store that ends at or in front of an offset leaves the bytes from there on.
text_behind :
    (dst : Bytes) (off : ℕ) (text : Bytes) (n i : ℕ)
    → off + n ≤ i
    → put_text dst off text n i ≡ dst i
text_behind dst off text n i h =
    memcpy_behind dst off text (bounded_length text n) i (omega (arith, length_bound text n))

text_before :
    (dst : Bytes) (off : ℕ) (text : Bytes) (n i : ℕ) → i < off → put_text dst off text n i ≡ dst i
text_before dst off text n i h = memcpy_before dst off text (bounded_length text n) i h

module _ (t : Transaction) where
  clear_fingerprint : (i : ℕ) → 80 ≤ i → put_fingerprint t i ≡ 0
  clear_fingerprint i h =
      memcpy_behind (encode_numbers t) 48 t.source_fingerprint 32 i h
      ∙ numbers_end t i (omega arith)

  clear_target : (i : ℕ) → 113 ≤ i → put_target t i ≡ 0
  clear_target i h =
      text_behind (put_fingerprint t) 80 t.target 33 i h ∙ clear_fingerprint i (omega arith)

  clear_startup : (i : ℕ) → 176 ≤ i → put_startup t i ≡ 0
  clear_startup i h = text_behind (put_target t) 116 t.startup 60 i h ∙ clear_target i (omega arith)

  clear_path : (i : ℕ) → 336 ≤ i → put_path t i ≡ 0
  clear_path i h =
      text_behind (put_startup t) 176 t.source_path 160 i h ∙ clear_startup i (omega arith)

  title_reached : (i : ℕ) → i < 464 → encode_body t i ≡ put_title t i
  unfolding encode_body
  title_reached i h = below_settings t (put_title t) i h

  path_reached : (i : ℕ) → i < 336 → encode_body t i ≡ put_path t i
  path_reached i h =
      title_reached i (omega arith) ∙ text_before (put_path t) 336 t.game_title 128 i h

  startup_reached : (i : ℕ) → i < 176 → encode_body t i ≡ put_startup t i
  startup_reached i h =
      path_reached i (omega arith) ∙ text_before (put_startup t) 176 t.source_path 160 i h

  target_reached : (i : ℕ) → i < 116 → encode_body t i ≡ put_target t i
  target_reached i h =
      startup_reached i (omega arith) ∙ text_before (put_target t) 116 t.startup 60 i h

  pub held_fingerprint : (i : ℕ) → i < 32 → encode_body t (48 + i) ≡ t.source_fingerprint i
  held_fingerprint i h =
      target_reached (48 + i) (omega arith)
      ∙ text_before (put_fingerprint t) 80 t.target 33 (48 + i) (omega arith)
      ∙ ground arith

  pub held_target : IsText 33 t.target → (i : ℕ) → i < 32 → encode_body t (80 + i) ≡ t.target i
  held_target z i h =
      target_reached (80 + i) (omega arith)
      ∙ text_put (put_fingerprint t) 80 t.target 33 i z (clear_fingerprint (80 + i) (omega arith))

  pub held_startup : IsText 60 t.startup → (i : ℕ) → i < 59 → encode_body t (116 + i) ≡ t.startup i
  held_startup z i h =
      startup_reached (116 + i) (omega arith)
      ∙ text_put (put_target t) 116 t.startup 60 i z (clear_target (116 + i) (omega arith))

  pub held_path :
      IsText 160 t.source_path → (i : ℕ) → i < 159 → encode_body t (176 + i) ≡ t.source_path i
  held_path z i h =
      path_reached (176 + i) (omega arith)
      ∙ text_put (put_startup t) 176 t.source_path 160 i z (clear_startup (176 + i) (omega arith))

  pub held_title :
      IsText 128 t.game_title → (i : ℕ) → i < 127 → encode_body t (336 + i) ≡ t.game_title i
  held_title z i h =
      title_reached (336 + i) (omega arith)
      ∙ text_put (put_path t) 336 t.game_title 128 i z (clear_path (336 + i) (omega arith))
