-- ===== src/BootstrapTransaction/Ps2.antt =====
-- src/bootstrap_transaction_ps2.c: the bootstrap transaction over the raw transfers of the disk. The pad
-- activity display is left out.
pub mod OnDisk
use fhdb_bootstrap_manager.Common.{ℕ}
use fhdb_bootstrap_manager.Common.Bytes.{Bytes}
use fhdb_bootstrap_manager.HddDevice.{
  Device, write_payload_verified, write_set_osd_mbr, write_verify_osd_mbr,
}
use fhdb_bootstrap_manager.BootstrapTransaction.{Ops, Outcome, set_pointer, activate}

module _ (S : Type 0) (device : Device S) where
  unfoldable pub ps2_ops : Ops S
  ps2_ops = record {
    write_payload_verified = write_payload_verified S device;
    set_osd_mbr = write_set_osd_mbr S device;
    verify_osd_mbr = write_verify_osd_mbr S device;
  }

  unfoldable pub ps2_set_pointer : Bytes → ℕ → ℕ → S → Outcome S
  unfolding set_pointer ps2_ops
  ps2_set_pointer header start size s = set_pointer ps2_ops header start size s

  unfoldable pub ps2_activate : Bytes → Bytes → ℕ → ℕ → ℕ → (S → S) → S → Outcome S
  unfolding activate ps2_ops
  ps2_activate header payload payload_size start size release s =
      activate ps2_ops header payload payload_size start size release s
