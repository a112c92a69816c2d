-- ===== src/HdlTransaction/Stages.antt =====
-- The stages of an installation as a step relation, and what every run of it keeps.
use fhdb_bootstrap_manager.Common.{
  ℕ, zero, suc, ◌+◌, ◌≤◌, ◌≡◌, ◌⊎◌, ◌↔◌, inl, inr, refl, sym, ap, subst, ◌∙◌, true, arith,
}
use native.Mathlib.Decide.{ℕ_discrete}
use fhdb_bootstrap_manager.Common.Results.{ok}
use fhdb_bootstrap_manager.HdlTransaction.{
  Transaction, transaction_valid, transition_allowed, set_stage,
}

-- The stages that follow one another.
pub data Next : ℕ → ℕ → Type 0 where
  create_partitions : Next 1 2
  start_copy : Next 2 3
  copy_more : Next 3 3
  verify_payload : Next 3 4
  commit_metadata : Next 4 5
  finish : Next 5 6
  abort : (from : ℕ) → 1 ≤ from → from ≤ 4 → Next from 7

pub Next-allowed : (from to : ℕ) → Next from to → transition_allowed from to ≡ true
unfolding transition_allowed
Next-allowed _ _ create_partitions = refl
Next-allowed _ _ start_copy = refl
Next-allowed _ _ copy_more = refl
Next-allowed _ _ verify_payload = refl
Next-allowed _ _ commit_metadata = refl
Next-allowed _ _ finish = refl
Next-allowed _ _ (abort from p q) = ground arith

abbrev IsStep : ℕ → ℕ → Type 0
IsStep from to =
    ((to ≡ 7) × (1 ≤ from) × (from ≤ 4))
    ⊎ ((from ≡ 3) × (to ≡ 3))
    ⊎ ((to ≡ from + 1) × (1 ≤ from) × (from ≤ 5))

allowed_cases : (from to : ℕ) → transition_allowed from to ≡ true → IsStep from to
unfolding transition_allowed
allowed_cases from to h = ground arith

following : (from : ℕ) → 1 ≤ from → from ≤ 5 → Next from (from + 1)
following zero p q = absurd (omega arith)
following (suc zero) p q = create_partitions
following (suc (suc zero)) p q = start_copy
following (suc (suc (suc zero))) p q = verify_payload
following (suc (suc (suc (suc zero)))) p q = commit_metadata
following (suc (suc (suc (suc (suc zero))))) p q = finish
following (suc (suc (suc (suc (suc (suc n)))))) p q = absurd (omega arith)

step-Next : (from to : ℕ) → IsStep from to → Next from to
step-Next from to (inl (e, p, q)) = subst (Next from) (sym e) (abort from p q)
step-Next from to (inr (inl (e, f))) =
    subst (λ s. Next s to) (sym e) (subst (Next 3) (sym f) copy_more)
step-Next from to (inr (inr (e, p, q))) = subst (Next from) (sym e) (following from p q)

-- The transitions allowed are exactly the steps of the relation: forward by one stage, copying again while
-- copying, and aborting before the metadata is committed.
pub allowed_iff : (from to : ℕ) → (transition_allowed from to ≡ true) ↔ Next from to
allowed_iff from to =
    (λ h. step-Next from to (allowed_cases from to h), λ n. Next-allowed from to n)

-- What a call that succeeds has checked.
pub set_stage_sound :
    (t u : Transaction) (stage completed : ℕ)
    → set_stage t stage completed ≡ ok u
    → (u ≡ record t { stage = stage; completed_sectors = completed })
      × IsStep t.stage stage
      × (t.completed_sectors ≤ completed)
      × (transaction_valid u ≡ true)
unfolding set_stage
set_stage_sound t u stage completed h =
    let allowed : transition_allowed t.stage stage ≡ true = ground arith in
    let updated : Transaction = record t { stage = stage; completed_sectors = completed } in
    let valid : transaction_valid updated ≡ true = ground arith in
    let same : u ≡ updated = ground arith in
    (
      same,
      allowed_cases t.stage stage allowed,
      ground arith,
      subst (λ v. transaction_valid v ≡ true) (sym same) valid,
    )

-- A run: calls of `hdl_transaction_set_stage` that succeed, one after the other.
pub data Reaches : Transaction → Transaction → Type 0 where
  here : (t : Transaction) → Reaches t t
  step :
      (t u v : Transaction) (stage completed : ℕ)
      → set_stage t stage completed ≡ ok u
      → Reaches u v
      → Reaches t v

-- A run from a valid transaction ends at a valid one with no less progress and the same fields other
-- than the stage and the progress.
pub run_keeps :
    (t u : Transaction)
    → Reaches t u
    → transaction_valid t ≡ true
    → (transaction_valid u ≡ true)
      × (t.completed_sectors ≤ u.completed_sectors)
      × (u ≡ record t { stage = u.stage; completed_sectors = u.completed_sectors })
run_keeps _ _ (here t) valid = (valid, omega arith, refl)
run_keeps _ _ (step t u v stage completed e r) valid =
    let (same, _, more, next_valid) = set_stage_sound t u stage completed e in
    let (last_valid, later, fields) = run_keeps u v r next_valid in
    (
      last_valid,
      omega (arith, more, later, ap (λ w. w.completed_sectors) same),
      fields
          ∙ ap {A = Transaction} {B = Transaction}
              (λ w. record w { stage = v.stage; completed_sectors = v.completed_sectors }) same,
    )

-- A valid transaction at one of the stages behind the verification has copied every sector.
valid_complete :
    (t : Transaction)
    → transaction_valid t ≡ true
    → 4 ≤ t.stage
    → t.stage ≤ 6
    → t.completed_sectors ≡ t.total_sectors
unfolding transaction_valid
valid_complete t v p q = ground arith

aborted_stays : (t u : Transaction) → Reaches t u → t.stage ≡ 7 → u.stage ≡ 7
aborted_stays _ _ (here t) p = p
aborted_stays _ _ (step t u v stage completed e r) p =
    let (same, moved, _, _) = set_stage_sound t u stage completed e in
    aborted_stays u v r (ground (arith, ap (λ w. w.stage) same, moved, p))

-- A run that starts at or before the copying stage and ends with the metadata committed or complete
-- passes through the verified stage, with every sector copied by then.
pub commit_needs_verified :
    (t u : Transaction)
    → Reaches t u
    → t.stage ≤ 3
    → (u.stage ≡ 5) ⊎ (u.stage ≡ 6)
    → (m : Transaction) × Reaches t m
      × (m.stage ≡ 4)
      × (m.completed_sectors ≡ m.total_sectors)
      × Reaches m u
commit_needs_verified _ _ (here t) p q = absurd (omega (arith, q))
commit_needs_verified _ _ (step t u v stage completed e r) p q =
    let (same, moved, _, valid) = set_stage_sound t u stage completed e in
    let at : u.stage ≡ stage = ap (λ w. w.stage) same in
    elim (ℕ_discrete u.stage 4) [
      | yes verified ↦ (
        u,
        step t u u stage completed e (here u),
        verified,
        valid_complete u valid (omega arith) (omega arith),
        r,
      )
      | no elsewhere ↦
          let early : u.stage ≤ 3 = ground (arith, at, moved, q, aborted_stays u v r) in
          let (m, before, stage_m, done, after) = commit_needs_verified u v r early q in
          (m, step t u m stage completed e before, stage_m, done, after)
    ]

-- A run from the committed or the complete stage ends at one of these two: it never aborts.
pub committed_stays :
    (t u : Transaction)
    → Reaches t u
    → (t.stage ≡ 5) ⊎ (t.stage ≡ 6)
    → (u.stage ≡ 5) ⊎ (u.stage ≡ 6)
committed_stays _ _ (here t) p = p
committed_stays _ _ (step t u v stage completed e r) p =
    let (same, moved, _, _) = set_stage_sound t u stage completed e in
    committed_stays u v r (ground (arith, ap (λ w. w.stage) same, moved, p))
