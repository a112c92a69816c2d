-- ===== src/HdlTransaction/Completes.antt =====
-- A run that ends an installation.
use fhdb_bootstrap_manager.Common.{ℕ, ◌≤◌, ◌≡◌, ◌⊎◌, inl, inr, refl, ap, ◌∙◌, true, arith}
use fhdb_bootstrap_manager.Common.Results.{ok}
use fhdb_bootstrap_manager.HdlTransaction.{
  Transaction, transaction_valid, malformed, transition_allowed, set_stage,
}
use fhdb_bootstrap_manager.HdlTransaction.Stages.{
  Next, start_copy, verify_payload, commit_metadata, finish, create_partitions, Next-allowed,
  Reaches, here, step,
}

move :
    (t : Transaction) (stage completed : ℕ)
    → transition_allowed t.stage stage ≡ true
    → t.completed_sectors ≤ completed
    → transaction_valid (record t { stage = stage; completed_sectors = completed }) ≡ true
    → set_stage t stage completed ≡ ok (record t { stage = stage; completed_sectors = completed })
unfolding set_stage
move t stage completed a p v = ground (arith, a, p, v)

valid_at :
    (t : Transaction) (stage completed : ℕ)
    → transaction_valid t ≡ true
    → 1 ≤ stage
    → stage ≤ 6
    → (completed ≡ 0) ⊎ (completed ≡ t.total_sectors)
    → (stage ≤ 3 → completed ≡ 0)
    → (4 ≤ stage → completed ≡ t.total_sectors)
    → transaction_valid (record t { stage = stage; completed_sectors = completed }) ≡ true
unfolding transaction_valid malformed
valid_at t stage completed v p q c low high = ground (arith, v, p, q, c, low, high)

abbrev at : Transaction → ℕ → ℕ → Transaction
at t stage completed = record t { stage = stage; completed_sectors = completed }

valid_start : (t : Transaction) → transaction_valid t ≡ true → t.stage ≡ 1 → t.completed_sectors ≡ 0
unfolding transaction_valid
valid_start t v p = ground (arith, v, p)

advance :
    (t : Transaction) (from to before after : ℕ)
    → transaction_valid t ≡ true
    → Next from to
    → before ≤ after
    → 1 ≤ to
    → to ≤ 6
    → (after ≡ 0) ⊎ (after ≡ t.total_sectors)
    → (to ≤ 3 → after ≡ 0)
    → (4 ≤ to → after ≡ t.total_sectors)
    → set_stage (at t from before) to after ≡ ok (at t to after)
advance t from to before after v n more p q c low high =
    move (at t from before) to after (Next-allowed from to n) more
      (valid_at t to after v p q c low high)

advance_full :
    (t : Transaction) (from to before : ℕ)
    → transaction_valid t ≡ true
    → Next from to
    → before ≤ t.total_sectors
    → 4 ≤ to
    → to ≤ 6
    → set_stage (at t from before) to t.total_sectors ≡ ok (at t to t.total_sectors)
advance_full t from to before v n more p q =
    advance t from to before t.total_sectors v n more (omega arith) q (inr refl)
      (λ h. absurd (omega arith)) (λ h. refl)

-- From any valid transaction at the planned stage there is a run to the complete stage with every
-- sector copied.
pub plan_can_complete :
    (t : Transaction)
    → transaction_valid t ≡ true
    → t.stage ≡ 1
    → Reaches t (record t { stage = 6; completed_sectors = t.total_sectors })
plan_can_complete t v p =
    let none_yet : t.completed_sectors ≡ 0 = valid_start t v p in
    let start : set_stage t 2 0 ≡ ok (at t 2 0) =
      move t 2 0 (ap (λ s. transition_allowed s 2) p ∙ Next-allowed 1 2 create_partitions)
        (omega (arith, none_yet))
        (valid_at t 2 0 v (omega arith) (omega arith) (inl refl) (λ h. refl)
          (λ h. absurd (omega arith))) in
    step t (at t 2 0) _ 2 0 start (
      step (at t 2 0) (at t 3 0) _ 3 0
        (advance t 2 3 0 0 v start_copy (omega arith) (omega arith) (omega arith) (inl refl)
          (λ h. refl) (λ h. absurd (omega arith)))
        (step (at t 3 0) (at t 4 t.total_sectors) _ 4 t.total_sectors
          (advance_full t 3 4 0 v verify_payload (omega arith) (omega arith) (omega arith))
          (step (at t 4 t.total_sectors) (at t 5 t.total_sectors) _ 5 t.total_sectors
            (advance_full t 4 5 t.total_sectors v commit_metadata (omega arith) (omega arith)
              (omega arith))
            (step (at t 5 t.total_sectors) (at t 6 t.total_sectors) _ 6 t.total_sectors
              (advance_full t 5 6 t.total_sectors v finish (omega arith) (omega arith)
                (omega arith))
              (here (at t 6 t.total_sectors))))))
