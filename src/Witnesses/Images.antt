-- ===== src/Witnesses/Images.antt =====
-- An image of nineteen sectors whose SYSTEM.CNF names a start-up program, and a directory of 4 GiB.
use fhdb_bootstrap_manager.Common.{
  ℕ, ◌-◌, ◌*◌, ◌^◌, ◌≡◌, ◌<◌, ◌%◌, ◌⊎◌, inl, inr, ap, ◌∙◌, refl, none, some, [], ◌∷◌, ◌++◌, ◌==◌,
  if◌then◌else◌, false, arith, List, length, Option,
}
use fhdb_bootstrap_manager.Common.Bytes.{
  Bytes, zeros, of_list, codes, memcpy, memeq, bytes_list, read_le16, read_le32,
}
use fhdb_bootstrap_manager.Common.Results.{Result, ok}
use fhdb_bootstrap_manager.HdlIso.{
  Source, read_be16, read_be32, read_source, equal_nocase, scan_while,
}
use fhdb_bootstrap_manager.HdlIso.Directory.{
  next_sector, available_in, walk_sector, record_loop, directory_loop, find_system_cnf,
}
use fhdb_bootstrap_manager.HdlIso.Directory.Ends.{IsBarren, directory_wraps}
use fhdb_bootstrap_manager.HdlIso.SystemCnf.{
  valid_startup, finish_startup, unless_either, base_loop, base_of, size_of, parse_value,
  parse_line, line_loop, parse_system_cnf,
}
use fhdb_bootstrap_manager.HdlIso.Probe.{
  Info, trim_end, volume_title_of, is_invalid_pvd, is_invalid_root, finish_probe, parse_file,
  read_file, inspect_pvd, probe,
}
use fhdb_bootstrap_manager.HdlIso.Probe.Sound.{IsProbed, probe-IsProbed, probe-Ended}

-- A number below 256 in little-endian and in big-endian order.
abbrev both : ℕ → List ℕ
both n = n ∷ 0 ∷ 0 ∷ 0 ∷ 0 ∷ 0 ∷ 0 ∷ n ∷ []

abbrev put : Bytes → ℕ → List ℕ → Bytes
put bytes off xs = memcpy bytes off (of_list xs) (length xs)

abbrev root_record : List ℕ
root_record = 34 ∷ 0 ∷ both 17 ++ 0 ∷ 8 ∷ 0 ∷ 0 ∷ 0 ∷ 0 ∷ 8 ∷ 0 ∷ []

abbrev pvd : Bytes
pvd =
    put
      (put
        (put
          (put
            (put (put zeros 0 (1 ∷ codes "CD001" ++ 1 ∷ [])) 40
              (codes "GAME                            "))
            80 (both 19))
          128 (0 ∷ 8 ∷ 8 ∷ 0 ∷ []))
        156 root_record)
      188 (1 ∷ [])

abbrev system_cnf : List ℕ
system_cnf = codes "BOOT2 = cdrom0:\\SLUS_123.45;1" ++ 13 ∷ 10 ∷ []

abbrev directory : Bytes
directory =
    put (put zeros 0 (46 ∷ 0 ∷ both 18 ++ both (length system_cnf))) 32 (12 ∷ codes "SYSTEM.CNF;1")

abbrev image : Source
image = record {
  read = λ offset size.
      if offset == 16 * 2048
      then some pvd
      else if offset == 17 * 2048
      then some directory
      else if offset == 18 * 2048
      then some (of_list system_cnf)
      else none;
  image_bytes = 19 * 2048;
}

program : Unit {0}
unfolding probe read_source inspect_pvd is_invalid_pvd is_invalid_root find_system_cnf
    directory_loop record_loop equal_nocase read_file parse_file parse_system_cnf line_loop
    parse_line unless_either parse_value size_of base_of base_loop finish_startup valid_startup
    scan_while finish_probe volume_title_of trim_end read_be16 read_be32 memeq read_le16 read_le32
program = tt

abbrev info_in : Option (Result Info) → Info
info_in (some (ok info)) = info
info_in _ = record {
  image_bytes = 0;
  image_sectors = 0;
  layer1_start = 0;
  disc_type = 0;
  media_type_confident = false;
  requires_layer_break = false;
  startup = zeros;
  disc_id = zeros;
  volume_title = zeros;
}

probed : probe image ≡ some (ok (info_in (probe image)))
unfolding program
probed = refl

disc_id_found : bytes_list (info_in (probe image)).disc_id 11 ≡ codes "SLUS-12345" ++ 0 ∷ []
unfolding program bytes_list
disc_id_found = refl

title_found : bytes_list (info_in (probe image)).volume_title 5 ≡ codes "GAME" ++ 0 ∷ []
unfolding program bytes_list
title_found = refl

probe-IsProbed_example : IsProbed image (info_in (probe image))
probe-IsProbed_example = probe-IsProbed image (info_in (probe image)) probed

probe-Ended_example : (r : Result Info) × (probe image ≡ some r)
probe-Ended_example = probe-Ended image (omega arith)

-- Every sector can be read and holds the records of the directory and of its parent.
abbrev dots : Bytes
dots = put (put (put (put zeros 0 (34 ∷ [])) 32 (1 ∷ 0 ∷ [])) 34 (34 ∷ [])) 66 (1 ∷ 1 ∷ [])

abbrev empty_image : Source
empty_image = record { read = λ offset size. some dots; image_bytes = 2 ^ 40 }

available_cases :
    (consumed : ℕ)
    → consumed < 2 ^ 32 - 1
    → consumed % 2048 ≡ 0
    → (available_in (2 ^ 32 - 1) consumed ≡ 2048) ⊎ (available_in (2 ^ 32 - 1) consumed ≡ 2047)
available_cases consumed below whole = ground (arith, below, whole)

dots_walked : (walk_sector dots 2048 ≡ next_sector) × (walk_sector dots 2047 ≡ next_sector)
unfolding record_loop equal_nocase
dots_walked = (refl, refl)

barren : IsBarren empty_image 0 (2 ^ 32 - 1)
unfolding read_source
barren consumed below whole = (
  dots,
  ground (arith, below),
  elim (available_cases consumed below whole) [
    | inl e ↦ ap (walk_sector dots) e ∙ dots_walked.0
    | inr e ↦ ap (walk_sector dots) e ∙ dots_walked.1
  ],
)

directory_wraps_example : directory_loop empty_image 0 (2 ^ 32 - 1) 1000000 0 ≡ none
directory_wraps_example = directory_wraps empty_image 0 (2 ^ 32 - 1) 1000000 (omega arith) barren
