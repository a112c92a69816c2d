-- ===== src/HdlPartition/Sizes.antt =====
-- Which size a partition gets.
use fhdb_bootstrap_manager.Common.{
  ℕ, ◌+◌, ◌*◌, ◌%◌, ◌^◌, ◌≤◌, ◌≡◌, sym, subst, ◌⊎◌, inl, inr, arith,
}
use native.Mathlib.Decide.{ℕ_discrete}
use fhdb_bootstrap_manager.HdlPartition.{
  choose_allocation, first_fit, first_allowed, allocation_for, mib, sizes_downwards,
  allocation_sizes,
}

-- The standard sizes of a partition: 128 MiB and its doubles up to 4 GiB.
abbrev pub IsStandard : ℕ → Type 0
IsStandard size = (k : ℕ) × (k ≤ 5) × (size ≡ 128 * mib * 2 ^ k)

-- A standard size that is allowed.
pub record IsSize (maximum size : ℕ) : Type 0 where
  pub small : 128 * mib ≤ size
  pub standard : IsStandard size
  pub allowed : size ≤ maximum
  pub large : size ≤ 4096 * mib
  pub whole : size % mib ≡ 0

IsStandard-cases :
    (size : ℕ)
    → (size ≡ 128 * mib)
      ⊎ (size ≡ 256 * mib)
      ⊎ (size ≡ 512 * mib)
      ⊎ (size ≡ 1024 * mib)
      ⊎ (size ≡ 2048 * mib)
      ⊎ (size ≡ 4096 * mib)
    → IsStandard size
IsStandard-cases size (inl e) = (0, omega arith, e)
IsStandard-cases size (inr (inl e)) = (1, omega arith, e)
IsStandard-cases size (inr (inr (inl e))) = (2, omega arith, e)
IsStandard-cases size (inr (inr (inr (inl e)))) = (3, omega arith, e)
IsStandard-cases size (inr (inr (inr (inr (inl e))))) = (4, omega arith, e)
IsStandard-cases size (inr (inr (inr (inr (inr e))))) = (5, omega arith, e)

-- The largest allowed size.
abbrev pub top : ℕ → ℕ
top maximum = first_allowed sizes_downwards maximum

pub top-IsSize : (maximum : ℕ) → 128 * mib ≤ maximum → IsSize maximum (top maximum)
unfolding first_allowed
top-IsSize maximum h = record {
  small = ground arith;
  standard = IsStandard-cases (top maximum) (ground arith);
  allowed = ground arith;
  large = ground arith;
  whole = ground arith;
}

abbrev fitted : ℕ → ℕ → ℕ
fitted required maximum = first_fit allocation_sizes required maximum

fitted_cases :
    (required maximum : ℕ)
    → (fitted required maximum ≡ 0)
      ⊎ ((required ≤ fitted required maximum) × IsSize maximum (fitted required maximum))
unfolding first_fit
fitted_cases required maximum = elim (ℕ_discrete (fitted required maximum) 0) [
  | yes none ↦ inl none
  | no found ↦ inr (
    ground arith,
    record {
      small = ground arith;
      standard = IsStandard-cases (fitted required maximum) (ground (arith, found));
      allowed = ground arith;
      large = ground arith;
      whole = ground arith;
    },
  )
]

abbrev pub IsChosen : ℕ → ℕ → ℕ → Type 0
IsChosen required maximum size = (size ≡ top maximum) ⊎ ((required ≤ size) × IsSize maximum size)

IsChosen-cases :
    (required maximum : ℕ) → IsChosen required maximum (choose_allocation required maximum)
unfolding choose_allocation
IsChosen-cases required maximum = elim (fitted_cases required maximum) [
  | inl none ↦ inl (ground (arith, none))
  | inr (room, size) ↦
      let found : choose_allocation required maximum ≡ fitted required maximum =
        ground (arith, size.small) in
      inr (subst (λ a. (required ≤ a) × IsSize maximum a) (sym found) (room, size))
]

-- What a partition gets: an allowed size, and the largest one where none has room.
pub allocation_cases :
    (remaining overhead maximum : ℕ)
    → 128 * mib ≤ maximum
    → IsSize maximum (allocation_for remaining overhead maximum)
      × IsChosen
          ((remaining + overhead) % 2 ^ 64)
          maximum
          (allocation_for remaining overhead maximum)
unfolding allocation_for
allocation_cases remaining overhead maximum h =
    let required : ℕ = (remaining + overhead) % 2 ^ 64 in
    let chosen = IsChosen-cases required maximum in
    let size : IsSize maximum (choose_allocation required maximum) = elim chosen [
      | inl e ↦ subst (IsSize maximum) (sym e) (top-IsSize maximum h)
      | inr (_, s) ↦ s
    ] in
    let same : allocation_for remaining overhead maximum ≡ choose_allocation required maximum =
      ground (arith, size.small) in
    subst (λ a. IsSize maximum a × IsChosen required maximum a) (sym same) (size, chosen)
