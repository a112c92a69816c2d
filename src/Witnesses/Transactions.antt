-- ===== src/Witnesses/Transactions.antt =====
-- An installation of ten sectors.
use fhdb_bootstrap_manager.Common.{ℕ, ◌≤◌, ◌≡◌, inl, refl, true, arith}
use fhdb_bootstrap_manager.Common.Results.{ok}
use fhdb_bootstrap_manager.Common.Bytes.{Bytes, zeros, of_list, codes}
use fhdb_bootstrap_manager.Witnesses.{list-IsArray}
use fhdb_bootstrap_manager.HdlTransaction.{
  Transaction, transaction_valid, malformed, terminated, bounded_length, transition_allowed,
  set_stage, encode, decode,
}
use fhdb_bootstrap_manager.HdlTransaction.Stages.{
  Reaches, here, step, run_keeps, commit_needs_verified,
}
use fhdb_bootstrap_manager.HdlTransaction.Completes.{plan_can_complete}
use fhdb_bootstrap_manager.HdlTransaction.RoundTrip.{stored_again}
use fhdb_bootstrap_manager.HdlTransaction.Fields.{IsStored}

abbrev at : ℕ → ℕ → Transaction
at stage completed = record {
  stage = stage;
  source_bytes = 20480;
  total_sectors = 10;
  completed_sectors = completed;
  partition_count = 1;
  source_fingerprint = zeros;
  target = of_list (codes "PP.SLUS_123.45");
  startup = of_list (codes "SLUS_123.45");
  source_path = of_list (codes "mass:/a.iso");
  game_title = of_list (codes "A");
  disc_type = 0x14;
  layer1_start = 0;
  hdl_compat_flags = 1;
  opl_compat_flags = 2;
  dma_type = 3;
  dma_mode = 4;
}

planned_valid : transaction_valid (at 1 0) ≡ true
unfolding transaction_valid malformed terminated
planned_valid = refl

copying_valid : transaction_valid (at 3 7) ≡ true
unfolding transaction_valid malformed terminated
copying_valid = refl

copy_ends : Reaches (at 3 7) (at 4 10)
unfolding set_stage transition_allowed transaction_valid malformed terminated
copy_ends = step (at 3 7) (at 4 10) (at 4 10) 4 10 refl (here (at 4 10))

finishes : Reaches (at 5 10) (at 6 10)
unfolding set_stage transition_allowed transaction_valid malformed terminated
finishes = step (at 5 10) (at 6 10) (at 6 10) 6 10 refl (here (at 6 10))

commits : Reaches (at 3 7) (at 5 10)
unfolding set_stage transition_allowed transaction_valid malformed terminated
commits =
    step (at 3 7) (at 4 10) (at 5 10) 4 10 refl
      (step (at 4 10) (at 5 10) (at 5 10) 5 10 refl (here (at 5 10)))

run_keeps_example : (transaction_valid (at 4 10) ≡ true) × (7 ≤ 10) × (at 4 10 ≡ at 4 10)
run_keeps_example = run_keeps (at 3 7) (at 4 10) copy_ends copying_valid

commit_needs_verified_example :
    (m : Transaction) × Reaches (at 3 7) m
    × (m.stage ≡ 4)
    × (m.completed_sectors ≡ m.total_sectors)
    × Reaches m (at 5 10)
commit_needs_verified_example =
    commit_needs_verified (at 3 7) (at 5 10) commits (omega arith) (inl refl)

plan_can_complete_example : Reaches (at 1 0) (at 6 10)
plan_can_complete_example = plan_can_complete (at 1 0) planned_valid refl

copying-IsStored : IsStored (at 3 7)
unfolding bounded_length
copying-IsStored = record {
  valid = copying_valid;
  source_fits = omega arith;
  layer_fits = omega arith;
  fingerprint = λ i h. refl;
  target_text = list-IsArray (codes "PP.SLUS_123.45");
  startup_text = list-IsArray (codes "SLUS_123.45");
  path_text = list-IsArray (codes "mass:/a.iso");
  title_text = list-IsArray (codes "A");
  bytes_fit = (omega arith, omega arith, omega arith, omega arith);
}

stored_again_example : (r : Bytes) × (encode (at 3 7) ≡ ok r) × (decode r ≡ ok (at 3 7))
stored_again_example = stored_again (at 3 7) copying-IsStored
