-- ===== src/ApaRepair/Counts.antt =====
-- The 32 rounds of `bit_count32` are enough for a `uint32_t`.
use fhdb_bootstrap_manager.Common.{
  ℕ, zero, suc, ◌+◌, ◌/◌, ◌^◌, ◌<◌, ◌≡◌, refl, sym, ap, ◌∙◌, bit_and, arith,
}
use native.Mathlib.Nat.{pow-suc}
use fhdb_bootstrap_manager.ApaRepair.{bit_count_loop, bit_count32}

loop_zero : (fuel count : ℕ) → bit_count_loop fuel 0 count ≡ count
unfolding bit_count_loop
loop_zero zero count = refl
loop_zero (suc fuel) count = refl

loop_none : (fuel value count : ℕ) → value ≡ 0 → bit_count_loop fuel value count ≡ count
loop_none fuel value count e = ap (λ v. bit_count_loop fuel v count) e ∙ loop_zero fuel count

loop_next :
    (fuel more value count : ℕ)
    → bit_count_loop fuel (value / 2) (count + bit_and value 1)
      ≡ bit_count_loop more (value / 2) (count + bit_and value 1)
    → bit_count_loop (suc fuel) value count ≡ bit_count_loop (suc more) value count
unfolding bit_count_loop
loop_next fuel more value count e = ground (arith, e)

loop_stays :
    (fuel more value count : ℕ)
    → value < 2 ^ fuel
    → bit_count_loop (fuel + more) value count ≡ bit_count_loop fuel value count
loop_stays zero more value count h =
    loop_none (0 + more) value count (omega arith) ∙ sym (loop_none 0 value count (omega arith))
loop_stays (suc fuel) more value count h =
    let e : suc fuel + more ≡ suc (fuel + more) = omega arith in
    ap (λ n. bit_count_loop n value count) e
    ∙ loop_next (fuel + more) fuel value count
        (loop_stays fuel more (value / 2) (count + bit_and value 1) (omega (arith, pow-suc 2 fuel)))

-- For a number below 2 ^ 32, any more rounds than 32 give the same count.
pub bit_count32_enough :
    (more value : ℕ) → value < 2 ^ 32 → bit_count_loop (32 + more) value 0 ≡ bit_count32 value
unfolding bit_count32
bit_count32_enough more value h = loop_stays 32 more value 0 h
