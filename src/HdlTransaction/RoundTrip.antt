-- ===== src/HdlTransaction/RoundTrip.antt =====
-- Decoding the record that was encoded.
use fhdb_bootstrap_manager.Common.{
  ℕ, ◌+◌, ◌-◌, ◌*◌, ◌^◌, ◌<◌, ◌≡◌, refl, sym, fun_ext, bit_or, ap, ap₂, subst, ◌∙◌, true, arith,
}
use native.Mathlib.Decide.{dec_lt}
use fhdb_bootstrap_manager.Common.Bytes.{
  Bytes, shift, zeros, of_list, memcpy, memcpy_inside, memeq, memeq_complete, read_le32, read_le64,
  read_le32-congr,
}
use fhdb_bootstrap_manager.Common.Arrays.{array_copied, bytes_list-congr, memcpy_before}
use fhdb_bootstrap_manager.Common.Results.{ok}
use fhdb_bootstrap_manager.Sha256.{sha256_buffer}
use fhdb_bootstrap_manager.HdlTransaction.{
  Transaction, transaction_magic, bounded_length, transaction_valid, encode_body, encode,
  record_digest, decoded, decode, get_text,
}
use fhdb_bootstrap_manager.HdlTransaction.Fields.{
  IsText, IsStored, Facts, valid-Facts, held_stage, held_count, held_disc, held_layer, held_source,
  held_total, held_completed,
}
use fhdb_bootstrap_manager.HdlTransaction.Texts.{
  held_fingerprint, held_target, held_startup, held_path, held_title,
}

text_got :
    (source text : Bytes) (n : ℕ)
    → IsText n text
    → bounded_length text n < n
    → ((i : ℕ) → i < n - 1 → source i ≡ text i)
    → get_text source n ≡ text
text_got source text n z ends h = array_copied source text (n - 1) (λ i p. z i (omega arith)) h

flags_held :
    (t : Transaction)
    → (t.hdl_compat_flags < 256)
      × (t.opl_compat_flags < 256)
      × (t.dma_type < 256)
      × (t.dma_mode < 256)
    → (encode_body t 472 ≡ t.hdl_compat_flags)
      × (encode_body t 473 ≡ t.opl_compat_flags)
      × (encode_body t 474 ≡ t.dma_type)
      × (encode_body t 475 ≡ t.dma_mode)
unfolding encode_body
flags_held t (a, b, c, d) = (omega arith, omega arith, omega arith, omega arith)

fields_held : (t : Transaction) → IsStored t → decoded (encode_body t) ≡ t
fields_held t s =
    let f : Facts t = valid-Facts t s.valid in
    let (hdl, opl, dma, mode) = flags_held t s.bytes_fit in
    λ k. record {
      stage = held_stage t (omega (arith, f.stage_fits)) k;
      source_bytes = held_source t s.source_fits k;
      total_sectors = held_total t (omega (arith, f.total_fits, s.source_fits)) k;
      completed_sectors =
          held_completed t (omega (arith, f.completed_fits, f.total_fits, s.source_fits)) k;
      partition_count = held_count t (omega (arith, f.count_fits)) k;
      source_fingerprint =
          array_copied (shift (encode_body t) 48) t.source_fingerprint 32 s.fingerprint
            (held_fingerprint t) k;
      target =
          text_got (shift (encode_body t) 80) t.target 33 s.target_text f.target_ends
            (held_target t s.target_text) k;
      startup =
          text_got (shift (encode_body t) 116) t.startup 60 s.startup_text f.startup_ends
            (held_startup t s.startup_text) k;
      source_path =
          text_got (shift (encode_body t) 176) t.source_path 160 s.path_text f.path_ends
            (held_path t s.path_text) k;
      game_title =
          text_got (shift (encode_body t) 336) t.game_title 128 s.title_text f.title_ends
            (held_title t s.title_text) k;
      disc_type = held_disc t (omega (arith, f.disc)) k;
      layer1_start = held_layer t s.layer_fits k;
      hdl_compat_flags = hdl k;
      opl_compat_flags = opl k;
      dma_type = dma k;
      dma_mode = mode k;
    }

-- The decoder reads a transaction from the bytes in front of the digest.
module _ (a b : Bytes) (same : (i : ℕ) → i < 480 → a i ≡ b i) where
  same_32 : (off : ℕ) → off + 3 < 480 → read_le32 (shift a off) ≡ read_le32 (shift b off)
  same_32 off h =
      read_le32-congr (shift a off) (shift b off) (same (off + 0) (omega arith))
        (same (off + 1) (omega arith)) (same (off + 2) (omega arith)) (same (off + 3) (omega arith))

  same_64 : (off : ℕ) → off + 7 < 480 → read_le64 (shift a off) ≡ read_le64 (shift b off)
  unfolding read_le64
  same_64 off h =
      ap₂ (λ low high. bit_or low (high * 2 ^ 32)) (same_32 off (omega arith))
        (read_le32-congr (shift (shift a off) 4) (shift (shift b off) 4)
          (same (off + (4 + 0)) (omega arith)) (same (off + (4 + 1)) (omega arith))
          (same (off + (4 + 2)) (omega arith)) (same (off + (4 + 3)) (omega arith)))

  same_copy :
      (off n : ℕ) → off + n < 480 → memcpy zeros 0 (shift a off) n ≡ memcpy zeros 0 (shift b off) n
  same_copy off n h = fun_ext (λ i. elim (dec_lt i n) [
    | yes inside ↦ ground (arith, same (off + i) (omega arith))
    | no behind ↦ ground arith
  ])

  decoded-congr : decoded a ≡ decoded b
  decoded-congr = λ k. record {
    stage = same_32 12 (omega arith) k;
    source_bytes = same_64 16 (omega arith) k;
    total_sectors = same_64 24 (omega arith) k;
    completed_sectors = same_64 32 (omega arith) k;
    partition_count = same_32 40 (omega arith) k;
    source_fingerprint = same_copy 48 32 (omega arith) k;
    target = same_copy 80 32 (omega arith) k;
    startup = same_copy 116 59 (omega arith) k;
    source_path = same_copy 176 159 (omega arith) k;
    game_title = same_copy 336 127 (omega arith) k;
    disc_type = same_32 464 (omega arith) k;
    layer1_start = same_32 468 (omega arith) k;
    hdl_compat_flags = same 472 (omega arith) k;
    opl_compat_flags = same 473 (omega arith) k;
    dma_type = same 474 (omega arith) k;
    dma_mode = same 475 (omega arith) k;
  }

abbrev sealed : Transaction → Bytes
sealed t = memcpy (encode_body t) 480 (record_digest (encode_body t)) 32

sealed_body : (t : Transaction) (i : ℕ) → i < 480 → sealed t i ≡ encode_body t i
sealed_body t i h = memcpy_before (encode_body t) 480 (record_digest (encode_body t)) 32 i h

sealed_marks :
    (t : Transaction)
    → (memeq (sealed t) transaction_magic 8 ≡ true) × (read_le32 (shift (sealed t) 8) ≡ 2)
unfolding encode_body memeq read_le32
sealed_marks t = (refl, refl)

sealed_digest :
    (t : Transaction) → memeq (record_digest (sealed t)) (shift (sealed t) 480) 32 ≡ true
sealed_digest t =
    let digest : record_digest (sealed t) ≡ record_digest (encode_body t) =
      ap (λ l. of_list (sha256_buffer l))
        (bytes_list-congr (sealed t) (encode_body t) 480 (sealed_body t)) in
    memeq_complete (record_digest (sealed t)) (shift (sealed t) 480) 32
      (λ i h. ap (λ d. d i) digest ∙ sym (back i h))
  where
    back : (i : ℕ) → i < 32 → shift (sealed t) 480 i ≡ record_digest (encode_body t) i
    back i h =
        memcpy_inside (encode_body t) 480 (record_digest (encode_body t)) 32 (480 + i) (omega arith)
          (omega arith)
        ∙ ap (record_digest (encode_body t)) (omega arith)

-- A valid transaction whose numbers fit their fields and whose texts hold zeros behind their end is
-- encoded, and the record decodes to the same transaction.
pub stored_again :
    (t : Transaction) → IsStored t → (r : Bytes) × (encode t ≡ ok r) × (decode r ≡ ok t)
unfolding encode decode
stored_again t s =
    let (magic, version) = sealed_marks t in
    let fields : decoded (sealed t) ≡ t =
      decoded-congr (sealed t) (encode_body t) (sealed_body t) ∙ fields_held t s in
    let valid : transaction_valid (decoded (sealed t)) ≡ true =
      ap transaction_valid fields ∙ s.valid in
    (sealed t, ground (arith, s.valid), rw (magic, version, sealed_digest t, valid) (ap ok fields))

-- A record that decodes holds a valid transaction under the digest of its bytes.
pub decode_checked :
    (r : Bytes) (t : Transaction)
    → decode r ≡ ok t
    → (transaction_valid t ≡ true)
      × (t ≡ decoded r)
      × (memeq (record_digest r) (shift r 480) 32 ≡ true)
unfolding decode
decode_checked r t h =
    let same : t ≡ decoded r = ground arith in
    let valid : transaction_valid (decoded r) ≡ true = ground arith in
    (subst (λ u. transaction_valid u ≡ true) (sym same) valid, same, ground arith)
