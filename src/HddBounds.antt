-- ===== src/HddBounds.antt =====
-- src/hdd_bounds.c, include/hdd_bounds.h and include/hdd_limits.h: the shape of a payload pointer and
-- its place inside the `__mbr` partition.
use fhdb_bootstrap_manager.Common.{
  ℕ, ◌+◌, ◌-◌, ◌*◌, ◌/◌, ◌≤◌, ◌≡◌, ◌⊎◌, ◌↔◌, ◌||◌, ltb, leb, ◌==◌, ◌!=◌, if◌then◌else◌, arith,
}
use fhdb_bootstrap_manager.Common.Ints.{ℤ, pos, neg, is_neg}

abbrev pub mbr_payload_start : ℕ
mbr_payload_start = 0x2000

abbrev pub sector_size : ℕ
sector_size = 512

abbrev pub transfer_sectors : ℕ
transfer_sectors = 2

abbrev pub transfer_bytes : ℕ
transfer_bytes = sector_size * transfer_sectors

abbrev pub max_mbr_payload_size : ℕ
max_mbr_payload_size = 4 * 1024 * 1024

abbrev pub err_empty_pointer : ℤ
err_empty_pointer = neg 170

abbrev pub err_too_large : ℤ
err_too_large = neg 171

abbrev pub err_before_reserved_area : ℤ
err_before_reserved_area = neg 172

abbrev pub err_outside_mbr : ℤ
err_outside_mbr = neg 173

unfoldable pub validate_payload_shape : ℕ → ℕ → ℤ
validate_payload_shape start sectors =
    if start == 0 || sectors == 0
    then err_empty_pointer
    else if ltb (max_mbr_payload_size / sector_size) sectors
    then err_too_large
    else if ltb start mbr_payload_start
    then err_before_reserved_area
    else pos 0

unfoldable pub validate_payload_bounds_geometry : ℕ → ℕ → ℕ → ℕ → ℤ
unfolding validate_payload_shape
validate_payload_bounds_geometry start sectors mbr_start mbr_size =
    let result = validate_payload_shape start sectors in
    if is_neg result
    then result
    else if mbr_start != 0 || leb mbr_size start || ltb (mbr_size - start) sectors
    then err_outside_mbr
    else pos 0

-- The pointers that the reserved program area has room for.
pub record IsInsideMbr (start sectors mbr_start mbr_size : ℕ) : Type 0 where
  pub reserved : 0x2000 ≤ start
  pub some_sectors : 1 ≤ sectors
  pub small : sectors ≤ 8192
  pub first : mbr_start ≡ 0
  pub ends_inside : start + sectors ≤ mbr_size

-- A pointer is accepted exactly when it is at least sector 0x2000, covers 1 to 8192 sectors, and ends
-- inside an `__mbr` partition that starts at sector 0.
pub bounds_accepted_iff :
    (start sectors mbr_start mbr_size : ℕ)
    → (validate_payload_bounds_geometry start sectors mbr_start mbr_size ≡ pos 0)
      ↔ IsInsideMbr start sectors mbr_start mbr_size
unfolding validate_payload_bounds_geometry
bounds_accepted_iff start sectors mbr_start mbr_size = (λ e. ground arith, λ p. ground arith)

-- Every refusal is one of four codes, and an empty pointer always gets the first.
pub bounds_refused :
    (start sectors mbr_start mbr_size : ℕ)
    → (start ≡ 0) ⊎ (sectors ≡ 0)
    → validate_payload_bounds_geometry start sectors mbr_start mbr_size ≡ err_empty_pointer
unfolding validate_payload_bounds_geometry
bounds_refused start sectors mbr_start mbr_size e = ground arith
