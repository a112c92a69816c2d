-- ===== src/Witnesses/Devices.antt =====
-- A disk in memory, a payload written to it, and the name of a game's partition.
use fhdb_bootstrap_manager.Common.{ℕ, ◌+◌, ◌-◌, ◌*◌, ◌<◌, ◌≡◌, refl, ap, ◌∙◌, [], ◌∷◌, false, arith}
use fhdb_bootstrap_manager.Common.Ints.{pos, is_neg}
use fhdb_bootstrap_manager.Common.Results.{ok}
use fhdb_bootstrap_manager.Common.Bytes.{
  Bytes, shift, zeros, of_list, codes, memcpy, memcpy_inside, memeq,
}
use fhdb_bootstrap_manager.HddDevice.{
  read_loop, read_payload_image, Device, write_loop, verify_loop, write_payload_verified,
}
use fhdb_bootstrap_manager.HddDevice.ReadBack.{ReadLaws, payload_on_disk}
use fhdb_bootstrap_manager.HdlName.{partition_id, partition_char, partition_chars, drop_spaces}

abbrev pub memory_disk : Device Bytes
memory_disk = record {
  get_stat = λ s. (pos 0, 0, 0x40000, s);
  read_sector =
      λ lba n destination s. (pos 0, memcpy destination 0 (shift s (lba * 512)) (n * 512), s);
  write_sector = λ lba n packet s. (pos 0, memcpy s (lba * 512) packet (n * 512));
  flush = λ s. (pos 0, s);
  set_osd = λ start size s. (pos 0, s);
}

pub disk_holds :
    (lba n : ℕ) (destination s : Bytes) (i : ℕ)
    → i < n * 512
    → memcpy destination 0 (shift s (lba * 512)) (n * 512) i ≡ s (lba * 512 + i)
disk_holds lba n destination s i h =
    let none : i - 0 ≡ i = omega arith in
    memcpy_inside destination 0 (shift s (lba * 512)) (n * 512) i (omega arith) (omega arith)
    ∙ ap (shift s (lba * 512)) none

unfoldable pub disk_laws : ReadLaws Bytes memory_disk
disk_laws = record {
  content = λ s. s;
  read_holds = λ lba n destination s e i h. disk_holds lba n destination s i h;
  read_keeps = λ lba n destination s. refl;
}

abbrev payload : Bytes
payload = of_list (1 ∷ 2 ∷ 3 ∷ [])

disk_written : is_neg (write_payload_verified Bytes memory_disk payload 3 16 zeros).0 ≡ false
unfolding write_payload_verified write_loop verify_loop memeq
disk_written = refl

payload_on_disk_example :
    disk_laws.content (write_payload_verified Bytes memory_disk payload 3 16 zeros).1 (16 * 512 + 2)
    ≡ payload 2
payload_on_disk_example =
    payload_on_disk Bytes memory_disk disk_laws payload 3 16 zeros (omega arith) disk_written 2
      (omega arith)

named :
    partition_id (codes "SLUS_12345") (codes "Game: x ") ≡ ok (codes "PP.SLUS_12345.HDL.GAME_ X")
unfolding partition_id partition_chars partition_char drop_spaces
named = refl

disk_read : is_neg (read_payload_image Bytes memory_disk 16 3 payload).0 ≡ false
unfolding read_payload_image read_loop
disk_read = refl
