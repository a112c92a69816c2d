-- ===== src/Witnesses.antt =====
-- Concrete inputs, and the theorems at them. This module has the bytes of a master header of a disk with
-- one partition table, and its facts.
mod Headers
mod Hashes
mod Layouts
mod Transactions
mod Rescue
mod Devices
mod Memory
mod Forensics
mod Repairs
mod Images
mod Stores
mod Saves
mod Finds
mod Rescues
mod Launches
use fhdb_bootstrap_manager.Common.{
  ℕ, zero, suc, ◌+◌, ◌-◌, ◌≤◌, ◌<◌, ◌≡◌, refl, Bool, true, false, ◌&&◌, List, [], ◌∷◌, ltb, length,
  get_or, arith, bit_or,
}
use fhdb_bootstrap_manager.Common.Bytes.{
  Bytes, IsBytes, shift, zeros, of_list, codes, memcpy, memeq, read_le16, read_le32,
}
use fhdb_bootstrap_manager.Common.Arrays.{IsArray}
use fhdb_bootstrap_manager.Apa.{
  apa_magic, mbr_id, sce_magic, apa_checksum, is_standard_apa_header, is_hybrid_gpt,
}

abbrev pub blank_master : Bytes
blank_master =
    memcpy
      (memcpy (memcpy (memcpy (memcpy zeros 4 apa_magic 4) 16 mbr_id 5) 0x48 (of_list (1 ∷ [])) 1)
        0x100 sce_magic 32)
      0x120 (of_list (2 ∷ [])) 1

-- Its checksum is 0x4dfea3ed.
abbrev pub master : Bytes
master = memcpy blank_master 0 (of_list (0xed ∷ 0xa3 ∷ 0xfe ∷ 0x4d ∷ [])) 4

pub memcpy-IsBytes :
    (dst : Bytes) (off : ℕ) (src : Bytes) (n : ℕ)
    → IsBytes dst
    → IsBytes src
    → IsBytes (memcpy dst off src n)
memcpy-IsBytes dst off src n a b i = ground (arith, a i, b (i - off))

unfoldable pub all_bytes : List ℕ → Bool
all_bytes [] = true
all_bytes (x ∷ xs) = ltb x 256 && all_bytes xs

pub list-IsBytes : (xs : List ℕ) → all_bytes xs ≡ true → IsBytes (of_list xs)
unfolding all_bytes
list-IsBytes [] e i = omega arith
list-IsBytes (x ∷ xs) e zero = ground (arith, e)
list-IsBytes (x ∷ xs) e (suc i) = list-IsBytes xs (ground (arith, e)) i

pub list-IsArray : (xs : List ℕ) → IsArray (length xs) (of_list xs)
list-IsArray [] i h = refl
list-IsArray (x ∷ xs) zero h = absurd (omega arith)
list-IsArray (x ∷ xs) (suc i) h = list-IsArray xs i (omega arith)

pub put-IsBytes :
    (dst : Bytes) (off : ℕ) (xs : List ℕ) (n : ℕ)
    → IsBytes dst
    → all_bytes xs ≡ true
    → IsBytes (memcpy dst off (of_list xs) n)
put-IsBytes dst off xs n b e = memcpy-IsBytes dst off (of_list xs) n b (list-IsBytes xs e)

pub master-IsBytes : IsBytes master
unfolding all_bytes
master-IsBytes =
    put-IsBytes _ 0 (0xed ∷ 0xa3 ∷ 0xfe ∷ 0x4d ∷ []) 4
      (put-IsBytes _ 0x120 (2 ∷ []) 1
        (put-IsBytes _ 0x100 (codes "Sony Computer Entertainment Inc.") 32
          (put-IsBytes _ 0x48 (1 ∷ []) 1
            (put-IsBytes _ 16 (codes "__mbr") 5
              (put-IsBytes zeros 4 (0x41 ∷ 0x50 ∷ 0x41 ∷ 0 ∷ []) 4 (λ i. omega arith) refl) refl)
            refl)
          refl)
        refl)
      refl

pub master_standard : is_standard_apa_header master ≡ true
unfolding is_standard_apa_header apa_checksum memeq read_le32
master_standard = refl

pub master_single : is_hybrid_gpt master ≡ false
unfolding is_hybrid_gpt
master_single = refl
