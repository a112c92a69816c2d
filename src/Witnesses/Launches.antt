-- ===== src/Witnesses/Launches.antt =====
-- A program launched from a directory of a memory card, and the path of its configuration.
use fhdb_bootstrap_manager.Common.{◌≡◌, refl, some, []}
use fhdb_bootstrap_manager.Common.Ints.{pos}
use fhdb_bootstrap_manager.Common.Bytes.{codes}
use fhdb_bootstrap_manager.Storage.{printed}
use fhdb_bootstrap_manager.Storage.Launch.{
  initial_launch, find_char, find_last_char, capture_launch_directory, starts_with, select_loop,
  select_launch_storage, ends_in_colon, launch_text, storage_launch_file_path,
}

launched_from :
    storage_launch_file_path [] 256
      (codes "HDDMAN.CFG")
      (select_launch_storage (some (codes "mc1:/APPS/MAN.ELF")) initial_launch)
    ≡ (pos 0, codes "mc1:/APPS/HDDMAN.CFG")
unfolding find_char find_last_char capture_launch_directory starts_with select_loop
    select_launch_storage ends_in_colon launch_text printed storage_launch_file_path
launched_from = refl

launched_from_usb :
    storage_launch_file_path [] 256
      (codes "HDDMAN.CFG")
      (select_launch_storage (some (codes "mass0:MAN.ELF")) initial_launch)
    ≡ (pos 0, codes "mass0:HDDMAN.CFG")
unfolding find_char find_last_char capture_launch_directory starts_with select_loop
    select_launch_storage ends_in_colon launch_text printed storage_launch_file_path
launched_from_usb = refl
