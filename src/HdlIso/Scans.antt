-- ===== src/HdlIso/Scans.antt =====
-- Where a scan of characters ends.
use fhdb_bootstrap_manager.Common.{
  ℕ, zero, suc, ◌+◌, ◌≤◌, ◌<◌, ◌≡◌, subst, Bool, true, Bool-cases, inl, inr, arith,
}
use native.Mathlib.Decide.{dec_lt}
use fhdb_bootstrap_manager.Common.Bytes.{Bytes}
use fhdb_bootstrap_manager.HdlIso.{scan_while}

module _ (test : ℕ → Bool) (bytes : Bytes) where
  pub scan_while-ge : (rounds position : ℕ) → position ≤ scan_while test bytes rounds position
  unfolding scan_while
  scan_while-ge zero position = omega arith
  scan_while-ge (suc rounds) position = elim (Bool-cases (test (bytes position))) [
    | inl on ↦
        let further = scan_while-ge rounds (position + 1) in
        rw (on, scan_while) (omega (arith, further))
    | inr over ↦ rw (over, scan_while) (omega arith)
  ]

  pub scan_while-le :
      (rounds position : ℕ) → scan_while test bytes rounds position ≤ position + rounds
  unfolding scan_while
  scan_while-le zero position = omega arith
  scan_while-le (suc rounds) position = elim (Bool-cases (test (bytes position))) [
    | inl on ↦
        let further = scan_while-le rounds (position + 1) in
        rw (on, scan_while) (omega (arith, further))
    | inr over ↦ rw (over, scan_while) (omega arith)
  ]

  -- Every character that was passed has the property.
  pub scan_while-passed :
      (rounds position j : ℕ)
      → position ≤ j
      → j < scan_while test bytes rounds position
      → test (bytes j) ≡ true
  unfolding scan_while
  scan_while-passed zero position j low high = absurd (omega (arith, low, high))
  scan_while-passed (suc rounds) position j low high = elim (Bool-cases (test (bytes position))) [
    | inr over ↦
        let end : j < position = rw (over, scan_while) at high in absurd (omega (arith, low, end))
    | inl on ↦
        let rest : j < scan_while test bytes rounds (position + 1) = rw (on, scan_while) at high in
        elim (dec_lt position j) [
          | yes later ↦ scan_while-passed rounds (position + 1) j (omega arith) rest
          | no here ↦
              let same : position ≡ j = omega arith in subst (λ k. test (bytes k) ≡ true) same on
        ]
  ]
