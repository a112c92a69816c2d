-- ===== src/Capsule/Accepts.antt =====
-- What the checks of a capsule's fields mean.
use fhdb_bootstrap_manager.Common.{
  ℕ, ◌+◌, ◌*◌, ◌/◌, ◌%◌, ◌^◌, ◌≤◌, ◌<◌, ◌≡◌, sym, subst, bit_and, arith,
}
use fhdb_bootstrap_manager.Common.Masks.{bit_and_2, bit_and_4, bit_and_above_3}
use fhdb_bootstrap_manager.Common.Bytes.{Bytes, IsBytes, shift, read_le32-lt}
use fhdb_bootstrap_manager.Common.Results.{ok}
use fhdb_bootstrap_manager.Capsule.{Info, check_flags, decode, decoded}

-- A payload of whole sectors where the payload flag is set, and none elsewhere; a KELF in it where the
-- KELF flag is set, and none elsewhere.
pub record IsCoherent (info : Info) : Type 0 where
  pub known : info.flags < 8
  pub whole_sectors : info.payload_bytes ≡ info.payload_sectors * 512
  pub kelf_inside : info.kelf_file_bytes ≤ info.payload_bytes
  pub absent : info.flags / 2 % 2 ≡ 0 → (info.payload_start ≡ 0) × (info.payload_sectors ≡ 0)
  pub present : info.flags / 2 % 2 ≡ 1 → (1 ≤ info.payload_start) × (1 ≤ info.payload_sectors)
  pub kelf_absent : info.flags / 4 % 2 ≡ 0 → info.kelf_file_bytes ≡ 0
  pub kelf_present : info.flags / 4 % 2 ≡ 1 → (info.flags / 2 % 2 ≡ 1) × (1 ≤ info.kelf_file_bytes)

pub flags-IsCoherent :
    (info out : Info)
    → info.flags < 2 ^ 32
    → info.payload_bytes ≡ info.payload_sectors * 512
    → check_flags info ≡ ok out
    → IsCoherent info × (out ≡ info)
unfolding check_flags
flags-IsCoherent info out w e h = (
  record {
    known = ground (arith, high);
    whole_sectors = e;
    kelf_inside = ground arith;
    absent = λ f. ground (arith, payload, high);
    present = λ f. ground (arith, payload, high);
    kelf_absent = λ f. ground (arith, kelf, high);
    kelf_present = λ f. ground (arith, payload, kelf, high);
  },
  ground arith,
)
  where
    high : bit_and info.flags 0xfffffff8 ≡ info.flags / 8 * 8
    high = bit_and_above_3 info.flags w

    payload : bit_and info.flags 2 ≡ info.flags / 2 % 2 * 2
    payload = bit_and_2 info.flags

    kelf : bit_and info.flags 4 ≡ info.flags / 4 % 2 * 4
    kelf = bit_and_4 info.flags

pub coherent_flags : (info : Info) → IsCoherent info → check_flags info ≡ ok info
unfolding check_flags
coherent_flags info c = ground (
  arith,
  c.known,
  c.whole_sectors,
  c.kelf_inside,
  c.absent,
  c.present,
  c.kelf_absent,
  c.kelf_present,
  bit_and_above_3 info.flags (omega (arith, c.known)),
  bit_and_2 info.flags,
  bit_and_4 info.flags,
)

-- A decoding that succeeds returns the fields of the metadata: coherent ones, of a capsule as long as
-- the file is, its payload included.
pub decode_sound :
    (metadata : Bytes) (size : ℕ) (info : Info)
    → IsBytes metadata
    → decode metadata size ≡ ok info
    → (info ≡ decoded metadata) × IsCoherent info × (size ≡ 1280 + info.payload_bytes)
unfolding decode
decode_sound metadata size info b h =
    let found = decoded metadata in
    let checks : check_flags found ≡ ok info = ground arith in
    let sectors : found.payload_bytes ≡ found.payload_sectors * 512 = ground arith in
    let length : size ≡ 1280 + found.payload_bytes = ground arith in
    let w : found.flags < 2 ^ 32 = read_le32-lt (shift metadata 20) (λ i. b (20 + i)) in
    let (coherent, same) = flags-IsCoherent found info w sectors checks in
    (
      same,
      subst IsCoherent (sym same) coherent,
      subst (λ i. size ≡ 1280 + i.payload_bytes) (sym same) length,
    )
