-- ===== src/Capsule/Extent.antt =====
-- The decoder reads the 256 bytes of the metadata alone.
use fhdb_bootstrap_manager.Common.{ℕ, ◌+◌, ◌<◌, ◌≡◌, ◌==◌, if◌then◌else◌, fun_ext, arith}
use native.Mathlib.Decide.{dec_lt}
use fhdb_bootstrap_manager.Common.Bytes.{Bytes, shift, zeros, memcpy, read_le32, read_le32-congr}
use fhdb_bootstrap_manager.Common.Arrays.{memeq-congr}
use fhdb_bootstrap_manager.Capsule.{decode, decoded, capsule_magic}

module _ (a b : Bytes) (same : (i : ℕ) → i < 256 → a i ≡ b i) where
  same_number : (off : ℕ) → off + 3 < 256 → read_le32 (shift a off) ≡ read_le32 (shift b off)
  same_number off h =
      read_le32-congr (shift a off) (shift b off) (same (off + 0) (omega arith))
        (same (off + 1) (omega arith)) (same (off + 2) (omega arith)) (same (off + 3) (omega arith))

  same_copy :
      (off n : ℕ) → off + n < 256 → memcpy zeros 0 (shift a off) n ≡ memcpy zeros 0 (shift b off) n
  same_copy off n h = fun_ext (λ i. elim (dec_lt i n) [
    | yes inside ↦ ground (arith, same (off + i) (omega arith))
    | no behind ↦ ground arith
  ])

  same_fields : decoded a ≡ decoded b
  same_fields = λ k. record {
    flags = same_number 20 (omega arith) k;
    payload_start = same_number 24 (omega arith) k;
    payload_sectors = same_number 28 (omega arith) k;
    payload_bytes = same_number 32 (omega arith) k;
    kelf_file_bytes = same_number 168 (omega arith) k;
    apa_sha256 = same_copy 40 32 (omega arith) k;
    payload_sha256 = same_copy 72 32 (omega arith) k;
    romver = λ i. if i == 15 then 0 else same_copy 104 16 (omega arith) k i;
    family = λ i. if i == 31 then 0 else same_copy 120 32 (omega arith) k i;
    confidence = λ i. if i == 15 then 0 else same_copy 152 16 (omega arith) k i;
  }

  pub decode-congr : (n : ℕ) → decode a n ≡ decode b n
  unfolding decode
  decode-congr n = rw (
    memeq-congr a b capsule_magic 8 (λ i h. same i (omega arith)),
    same_number 8 (omega arith),
    same_number 12 (omega arith),
    same_number 36 (omega arith),
    same_number 16 (omega arith),
    same_fields,
    same_number 28 (omega arith),
    same_number 32 (omega arith),
  )
