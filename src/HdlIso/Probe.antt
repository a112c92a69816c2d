-- ===== src/HdlIso/Probe.antt =====
-- src/hdl_iso.c, `hdl_iso_probe`: the whole inspection.
pub mod Sound
use fhdb_bootstrap_manager.Common.{
  ℕ, zero, suc, ◌+◌, ◌-◌, ◌*◌, ◌/◌, ◌%◌, ◌^◌, Bool, true, false, not, ◌&&◌, ◌||◌, Option, none,
  some, [], ◌∷◌, ltb, ◌==◌, ◌!=◌, if◌then◌else◌,
}
use fhdb_bootstrap_manager.Common.Results.{Result, err, ok}
use fhdb_bootstrap_manager.Common.Bytes.{
  Bytes, zeros, shift, of_list, codes, memcpy, memeq, write_8, read_le16, read_le32,
}
use fhdb_bootstrap_manager.HdlIso.{
  Source, sector_size, invalid_pvd, invalid_root, image_size_invalid, read_be16, read_be32,
  read_source, scan_while,
}
use fhdb_bootstrap_manager.HdlIso.Directory.{find_system_cnf}
use fhdb_bootstrap_manager.HdlIso.SystemCnf.{Startup, parse_system_cnf}

abbrev pub system_cnf_limit : ℕ
system_cnf_limit = 8192

abbrev pub cd_confident_bytes : ℕ
cd_confident_bytes = 900 * 1024 * 1024

abbrev pub dvd5_max_bytes : ℕ
dvd5_max_bytes = 4700372992

abbrev pub disc_type_cd : ℕ
disc_type_cd = 0x12

abbrev pub disc_type_dvd : ℕ
disc_type_dvd = 0x14

pub record Info : Type 0 where
  pub image_bytes : ℕ
  pub image_sectors : ℕ
  pub layer1_start : ℕ
  pub disc_type : ℕ
  pub media_type_confident : Bool
  pub requires_layer_break : Bool
  pub startup : Bytes
  pub disc_id : Bytes
  pub volume_title : Bytes

-- `while (end > start && source[end - 1] == ' ') end--;` with `rounds` characters between them.
unfoldable pub trim_end : Bytes → ℕ → ℕ → ℕ
trim_end source start zero = start
trim_end source start (suc rounds) =
    if source (start + rounds) == b' ' then trim_end source start rounds else start + suc rounds

unfoldable pub volume_title_of : Bytes → Bytes
unfolding scan_while trim_end
volume_title_of source =
    let start = scan_while (λ c. c == b' ') source 32 0 in
    let end = trim_end source start (32 - start) in
    memcpy zeros 0 (shift source start) (end - start)

abbrev cd001 : Bytes
cd001 = of_list (codes "CD001")

unfoldable pub is_invalid_pvd : Bytes → ℕ → Bool
unfolding read_be16 read_be32
is_invalid_pvd pvd image_bytes =
    let volume_sectors = read_le32 (shift pvd 80) in
    pvd 0 != 1
    || not (memeq (shift pvd 1) cd001 5)
    || pvd 6 != 1
    || read_le16 (shift pvd 128) != sector_size
    || read_be16 (shift pvd 130) != sector_size
    || volume_sectors == 0
    || volume_sectors != read_be32 (shift pvd 84)
    || ltb image_bytes (volume_sectors * sector_size)

unfoldable pub is_invalid_root : Bytes → ℕ → Bool
unfolding read_be32
is_invalid_root root image_bytes =
    let root_extent = read_le32 (shift root 2) in
    let root_bytes = read_le32 (shift root 10) in
    ltb (root 0) 34
    || root 32 != 1
    || root 33 != 0
    || root_extent != read_be32 (shift root 6)
    || root_bytes != read_be32 (shift root 14)
    || root_bytes == 0
    || ltb image_bytes (root_extent * sector_size + root_bytes)

abbrev pub info_of : Bytes → ℕ → Startup → Info
info_of pvd image_bytes named = record {
  image_bytes = image_bytes;
  image_sectors = image_bytes / sector_size % 2 ^ 32;
  layer1_start = 0;
  disc_type = if ltb cd_confident_bytes image_bytes then disc_type_dvd else disc_type_cd;
  media_type_confident = ltb cd_confident_bytes image_bytes;
  requires_layer_break = ltb dvd5_max_bytes image_bytes;
  startup = named.startup;
  disc_id = named.disc_id;
  volume_title = volume_title_of (shift pvd 40);
}

unfoldable pub finish_probe : Bytes → ℕ → Result Startup → Result Info
unfolding volume_title_of
finish_probe pvd image_bytes (err code) = err code
finish_probe pvd image_bytes (ok named) = ok (info_of pvd image_bytes named)

unfoldable pub parse_file : Bytes → ℕ → ℕ → Result Bytes → Result Info
unfolding finish_probe parse_system_cnf
parse_file pvd image_bytes read_bytes (err code) = err code
parse_file pvd image_bytes read_bytes (ok text) =
    finish_probe pvd image_bytes (parse_system_cnf (write_8 text read_bytes 0) read_bytes)

abbrev pub read_size : ℕ → ℕ
read_size file_bytes = if ltb system_cnf_limit file_bytes then system_cnf_limit else file_bytes

unfoldable pub read_file : Source → Bytes → Result (ℕ × ℕ) → Result Info
unfolding read_source parse_file
read_file source pvd (err code) = err code
read_file source pvd (ok (file_extent, file_bytes)) =
    parse_file pvd source.image_bytes (read_size file_bytes)
      (read_source source (file_extent * sector_size) (read_size file_bytes))

abbrev after_search : Source → Bytes → Option (Result (ℕ × ℕ)) → Option (Result Info)
after_search source pvd none = none
after_search source pvd (some entry) = some (read_file source pvd entry)

unfoldable pub inspect_pvd : Source → Result Bytes → Option (Result Info)
unfolding is_invalid_pvd is_invalid_root find_system_cnf read_file
inspect_pvd source (err code) = some (err code)
inspect_pvd source (ok pvd) =
    let root = shift pvd 156 in
    if is_invalid_pvd pvd source.image_bytes
    then some (err invalid_pvd)
    else if is_invalid_root root source.image_bytes
    then some (err invalid_root)
    else after_search source pvd
        (find_system_cnf source (read_le32 (shift root 2)) (read_le32 (shift root 10)))

abbrev pub is_image_size : ℕ → Bool
is_image_size image_bytes =
    not (ltb image_bytes (18 * sector_size))
    && image_bytes % sector_size == 0
    && not (ltb (2 ^ 32 - 1) (image_bytes / sector_size))

-- `none` where the search of the directory does not end.
unfoldable pub probe : Source → Option (Result Info)
unfolding read_source inspect_pvd
probe source =
    if not (is_image_size source.image_bytes)
    then some (err image_size_invalid)
    else inspect_pvd source (read_source source (16 * sector_size) sector_size)
