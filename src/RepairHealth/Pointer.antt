-- ===== src/RepairHealth/Pointer.antt =====
-- When clearing the pointer is recommended.
use fhdb_bootstrap_manager.Common.{ℕ, ◌≡◌, ◌≢◌, ◌⊎◌, ◌↔◌, true, Option, arith}
use fhdb_bootstrap_manager.Common.Ints.{ℤ, is_neg}
use fhdb_bootstrap_manager.Common.Bytes.{Bytes, shift, read_le32}
use fhdb_bootstrap_manager.Apa.{osd_start_offset, osd_size_offset}
use fhdb_bootstrap_manager.ApaRepair.Pointer.{analyze_pointer}
use fhdb_bootstrap_manager.RepairHealth.{ChainResults, chain_fails, assess}

abbrev start_of : Bytes → ℕ
start_of header = read_le32 (shift header osd_start_offset)

abbrev size_of : Bytes → ℕ
size_of header = read_le32 (shift header osd_size_offset)

-- Clearing the pointer is recommended exactly where one of its two fields is zero and the other is not, or
-- where both are set and the bounds check, the payload's read or the payload's KELF check failed.
pub clear_recommended_iff :
    (header : Bytes) (chain : Option ChainResults) (bounds : ℤ)
    → ((assess header chain bounds).pointer_clear_recommended ≡ true) ↔ (
        ((start_of header ≡ 0) × (size_of header ≢ 0))
        ⊎ ((start_of header ≢ 0) × (size_of header ≡ 0))
        ⊎ ((start_of header ≢ 0)
            × (size_of header ≢ 0)
            × ((is_neg bounds ≡ true) ⊎ (chain_fails chain ≡ true))))
unfolding assess
clear_recommended_iff header chain bounds =
    rw (analyze_pointer header) ((λ h. ground (arith, h)), (λ h. ground (arith, h)))
