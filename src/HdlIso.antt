-- ===== src/HdlIso.antt =====
-- src/hdl_iso.c and include/hdl_iso.h: the inspection of an ISO 9660 image for the installer. The source's
-- `read` is a parameter: the bytes of a range that it fills, or `none` where it does not return 0. The
-- character tests are those of the C locale.
pub mod Scans
pub mod Directory
pub mod SystemCnf
pub mod Probe
use fhdb_bootstrap_manager.Common.{
  ℕ, zero, suc, ◌+◌, ◌-◌, ◌*◌, ◌^◌, bit_or, Bool, true, false, ◌&&◌, ◌||◌, Option, none, some, ltb,
  leb, ◌==◌, if◌then◌else◌,
}
use fhdb_bootstrap_manager.Common.Ints.{ℤ, neg}
use fhdb_bootstrap_manager.Common.Results.{Result, err, ok}
use fhdb_bootstrap_manager.Common.Bytes.{Bytes}

abbrev pub sector_size : ℕ
sector_size = 2048

abbrev pub startup_max : ℕ
startup_max = 60

abbrev pub read_failed : ℤ
read_failed = neg 501

abbrev pub invalid_pvd : ℤ
invalid_pvd = neg 502

abbrev pub invalid_root : ℤ
invalid_root = neg 503

abbrev pub system_cnf_missing : ℤ
system_cnf_missing = neg 504

abbrev pub system_cnf_invalid : ℤ
system_cnf_invalid = neg 505

abbrev pub startup_invalid : ℤ
startup_invalid = neg 506

abbrev pub image_size_invalid : ℤ
image_size_invalid = neg 507

pub record Source : Type 0 where
  pub read : ℕ → ℕ → Option Bytes
  pub image_bytes : ℕ

unfoldable pub read_be16 : Bytes → ℕ
read_be16 s = bit_or (s 0 * 2 ^ 8) (s 1)

unfoldable pub read_be32 : Bytes → ℕ
read_be32 s = bit_or (bit_or (bit_or (s 0 * 2 ^ 24) (s 1 * 2 ^ 16)) (s 2 * 2 ^ 8)) (s 3)

abbrev filled : Option Bytes → Result Bytes
filled (some bytes) = ok bytes
filled none = err read_failed

unfoldable pub read_source : Source → ℕ → ℕ → Result Bytes
read_source source offset size =
    if ltb source.image_bytes offset || ltb (source.image_bytes - offset) size
    then err read_failed
    else filled (source.read offset size)

abbrev pub is_lower : ℕ → Bool
is_lower c = leb b'a' c && leb c b'z'

abbrev pub is_digit : ℕ → Bool
is_digit c = leb b'0' c && leb c b'9'

abbrev pub is_alnum : ℕ → Bool
is_alnum c = is_digit c || (leb b'A' c && leb c b'Z') || is_lower c

abbrev pub is_space : ℕ → Bool
is_space c = leb 9 c && leb c 13 || c == b' '

abbrev pub to_upper : ℕ → ℕ
to_upper c = if is_lower c then c - 32 else c

-- The loop of `ascii_equal_nocase`, from the last character on.
unfoldable pub equal_nocase : Bytes → Bytes → ℕ → Bool
equal_nocase left right zero = true
equal_nocase left right (suc i) =
    to_upper (left i) == to_upper (right i) && equal_nocase left right i

-- `while (position < limit && test(bytes[position])) position++;` with `limit - position` rounds.
unfoldable pub scan_while : (ℕ → Bool) → Bytes → ℕ → ℕ → ℕ
scan_while test bytes zero position = position
scan_while test bytes (suc rounds) position = elim (test (bytes position)) [
  | true ↦ scan_while test bytes rounds (position + 1)
  | false ↦ position
]

abbrev pub skip : (ℕ → Bool) → Bytes → ℕ → ℕ → ℕ
skip test bytes position limit = scan_while test bytes (limit - position) position
