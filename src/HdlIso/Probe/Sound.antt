-- ===== src/HdlIso/Probe/Sound.antt =====
-- What an inspection that succeeds tells of an image, and that an inspection ends.
use fhdb_bootstrap_manager.Common.{
  ℕ, ◌+◌, ◌-◌, ◌*◌, ◌%◌, ◌^◌, ◌≤◌, ◌<◌, ◌≡◌, refl, subst, Bool, true, false, ◌||◌, ◌==◌, ◌!=◌, ltb,
  Option, some, some-exact, not, ◌/◌, Option-cases, Bool-cases, inl, inr, arith,
}
use fhdb_bootstrap_manager.Common.Bytes.{
  Bytes, shift, of_list, codes, memeq, memeq_sound, read_le16, read_le32, write_8,
}
use fhdb_bootstrap_manager.Common.Results.{Result, err, ok, ok-exact, Result-cases}
use fhdb_bootstrap_manager.HdlIso.{
  Source, sector_size, read_be16, read_be32, read_source, invalid_root, invalid_pvd,
  image_size_invalid,
}
use fhdb_bootstrap_manager.HdlIso.Directory.{find_system_cnf}
use fhdb_bootstrap_manager.HdlIso.Directory.Ends.{find_system_cnf-Ended}
use fhdb_bootstrap_manager.HdlIso.SystemCnf.{Startup, parse_system_cnf}
use fhdb_bootstrap_manager.HdlIso.SystemCnf.Shape.{IsNamed, parse_system_cnf-IsNamed}
use fhdb_bootstrap_manager.HdlIso.Probe.{
  Info, info_of, finish_probe, parse_file, read_size, read_file, inspect_pvd, is_invalid_pvd,
  is_invalid_root, is_image_size, probe, cd_confident_bytes, dvd5_max_bytes, disc_type_cd,
  disc_type_dvd,
}

-- A primary volume descriptor of blocks of 2048 bytes, with the volume and its root directory inside an image.
pub record IsVolume (image_bytes : ℕ) (pvd : Bytes) : Type 0 where
  pub kind : pvd 0 ≡ 1
  pub standard : (i : ℕ) → i < 5 → pvd (1 + i) ≡ of_list (codes "CD001") i
  pub version : pvd 6 ≡ 1
  pub blocks : read_le16 (shift pvd 128) ≡ 2048
  pub filled : 1 ≤ read_le32 (shift pvd 80)
  pub inside : read_le32 (shift pvd 80) * 2048 ≤ image_bytes
  pub root_inside :
      read_le32 (shift (shift pvd 156) 2) * 2048 + read_le32 (shift (shift pvd 156) 10)
      ≤ image_bytes

-- The facts of an accepted image: its volume, the text of its SYSTEM.CNF, and what that names.
pub record IsProbed (source : Source) (info : Info) : Type 0 where
  pub whole : info.image_sectors * sector_size ≡ source.image_bytes
  pub large : 18 ≤ info.image_sectors
  pub pvd : Bytes
  pub described : read_source source (16 * 2048) 2048 ≡ ok pvd
  pub volume : IsVolume source.image_bytes pvd
  pub extent : ℕ
  pub bytes : ℕ
  pub found :
      find_system_cnf source
        (read_le32 (shift (shift pvd 156) 2))
        (read_le32 (shift (shift pvd 156) 10))
      ≡ some (ok (extent, bytes))
  pub text : Bytes
  pub given : read_source source (extent * 2048) (read_size bytes) ≡ ok text
  pub named :
      IsNamed
        (write_8 text (read_size bytes) 0)
        (read_size bytes)
        (record { startup = info.startup; disc_id = info.disc_id })
  pub is_dvd : cd_confident_bytes < source.image_bytes → info.disc_type ≡ disc_type_dvd
  pub is_cd : source.image_bytes ≤ cd_confident_bytes → info.disc_type ≡ disc_type_cd
  pub layered : dvd5_max_bytes < source.image_bytes → info.requires_layer_break ≡ true

none_true :
    (a b c d e f g h : Bool)
    → (a || b || c || d || e || f || g || h) ≡ false
    → (a ≡ false) × (b ≡ false) × (c ≡ false) × (d ≡ false) × (f ≡ false) × (h ≡ false)
none_true a b c d e f g h t = ground (arith, t)

equal_false : (a b : ℕ) → (a != b) ≡ false → a ≡ b
equal_false a b e = ground (arith, e)

last_false : (a b c d e f g : Bool) → (a || b || c || d || e || f || g) ≡ false → g ≡ false
last_false a b c d e f g h = ground (arith, h)

not-false : (b : Bool) → not b ≡ false → b ≡ true
not-false b e = ground (arith, e)

some_sectors : (n : ℕ) → (n == 0) ≡ false → 1 ≤ n
some_sectors n e = ground (arith, e)

not_less : (a b : ℕ) → ltb a b ≡ false → b ≤ a
not_less a b e = ground (arith, e)

whole_sectors :
    (image_bytes : ℕ)
    → is_image_size image_bytes ≡ true
    → image_bytes / sector_size % 2 ^ 32 * sector_size ≡ image_bytes
whole_sectors image_bytes size = ground (arith, size)

large_image :
    (image_bytes : ℕ) → is_image_size image_bytes ≡ true → 18 ≤ image_bytes / sector_size % 2 ^ 32
large_image image_bytes size = ground (arith, size)

-- A root directory inside an image of less than 4 GiB can be counted in sectors by a `uint32_t`.
root_small :
    (root : Bytes) (image_bytes : ℕ)
    → image_bytes < 2 ^ 32
    → is_image_size image_bytes ≡ true
    → is_invalid_root root image_bytes ≡ false
    → read_le32 (shift root 10) ≤ 2 ^ 32 - sector_size
unfolding is_invalid_root
root_small root image_bytes small size e =
    let inside =
      last_false (ltb (root 0) 34) (root 32 != 1) (root 33 != 0)
        (read_le32 (shift root 2) != read_be32 (shift root 6))
        (read_le32 (shift root 10) != read_be32 (shift root 14)) (read_le32 (shift root 10) == 0)
        (ltb image_bytes (read_le32 (shift root 2) * sector_size + read_le32 (shift root 10))) e in
    let whole : image_bytes % sector_size ≡ 0 = ground (arith, size) in
    ground (arith, inside, whole)

read-IsVolume :
    (pvd : Bytes) (image_bytes : ℕ)
    → is_invalid_pvd pvd image_bytes ≡ false
    → is_invalid_root (shift pvd 156) image_bytes ≡ false
    → IsVolume image_bytes pvd
unfolding is_invalid_pvd is_invalid_root
read-IsVolume pvd image_bytes v r =
    let root = shift pvd 156 in
    let sectors = read_le32 (shift pvd 80) in
    let (kind, standard, version, blocks, filled, inside) =
      none_true (pvd 0 != 1) (not (memeq (shift pvd 1) (of_list (codes "CD001")) 5)) (pvd 6 != 1)
        (read_le16 (shift pvd 128) != sector_size) (read_be16 (shift pvd 130) != sector_size)
        (sectors == 0) (sectors != read_be32 (shift pvd 84))
        (ltb image_bytes (sectors * sector_size)) v in
    let end =
      last_false (ltb (root 0) 34) (root 32 != 1) (root 33 != 0)
        (read_le32 (shift root 2) != read_be32 (shift root 6))
        (read_le32 (shift root 10) != read_be32 (shift root 14)) (read_le32 (shift root 10) == 0)
        (ltb image_bytes (read_le32 (shift root 2) * sector_size + read_le32 (shift root 10))) r in
    let same : memeq (shift pvd 1) (of_list (codes "CD001")) 5 ≡ true = not-false _ standard in
    record {
      kind = equal_false (pvd 0) 1 kind;
      standard = λ i h. memeq_sound (shift pvd 1) (of_list (codes "CD001")) 5 i same h;
      version = equal_false (pvd 6) 1 version;
      blocks = equal_false (read_le16 (shift pvd 128)) sector_size blocks;
      filled = some_sectors sectors filled;
      inside = not_less image_bytes (sectors * sector_size) inside;
      root_inside =
          not_less image_bytes (read_le32 (shift root 2) * sector_size + read_le32 (shift root 10))
            end;
    }

module _ (source : Source) (size : is_image_size source.image_bytes ≡ true) where
  abbrev searched : Bytes → Option (Result (ℕ × ℕ))
  searched pvd =
      find_system_cnf source (read_le32 (shift (shift pvd 156) 2))
        (read_le32 (shift (shift pvd 156) 10))

  info_of-IsProbed :
      (pvd text : Bytes) (extent bytes : ℕ) (named : Startup)
      → read_source source (16 * 2048) 2048 ≡ ok pvd
      → IsVolume source.image_bytes pvd
      → searched pvd ≡ some (ok (extent, bytes))
      → read_source source (extent * 2048) (read_size bytes) ≡ ok text
      → IsNamed (write_8 text (read_size bytes) 0) (read_size bytes) named
      → IsProbed source (info_of pvd source.image_bytes named)
  info_of-IsProbed pvd text extent bytes named described volume found given is_named = record {
    whole = whole_sectors source.image_bytes size;
    large = large_image source.image_bytes size;
    pvd = pvd;
    described = described;
    volume = volume;
    extent = extent;
    bytes = bytes;
    found = found;
    text = text;
    given = given;
    named = is_named;
    is_dvd = λ h. ground (arith, h);
    is_cd = λ h. ground (arith, h);
    layered = λ h. ground (arith, h);
  }

  read_file-Sound :
      (pvd : Bytes) (entry : Result (ℕ × ℕ)) (info : Info)
      → read_source source (16 * 2048) 2048 ≡ ok pvd
      → IsVolume source.image_bytes pvd
      → searched pvd ≡ some entry
      → read_file source pvd entry ≡ ok info
      → IsProbed source info
  unfolding read_file parse_file finish_probe
  read_file-Sound pvd (err code) info described volume found e = absurd (ground (arith, e))
  read_file-Sound pvd (ok (extent, bytes)) info described volume found e =
      let n = read_size bytes in
      elim (Result-cases (read_source source (extent * sector_size) n)) [
        | inl (code, bad) ↦ absurd (ground (arith, rw (bad, parse_file) at e))
        | inr (text, given) ↦ elim (Result-cases (parse_system_cnf (write_8 text n 0) n)) [
          | inl (code, bad) ↦
              absurd (ground (arith, rw (given, bad, parse_file, finish_probe) at e))
          | inr (named, good) ↦
              let same : info_of pvd source.image_bytes named ≡ info =
                ok-exact (info_of pvd source.image_bytes named) info
                  (rw (given, good, parse_file, finish_probe) at e) in
              subst (IsProbed source) same (
                info_of-IsProbed pvd text extent bytes named described volume found given
                  (parse_system_cnf-IsNamed (write_8 text n 0) n named good))
        ]
      ]

  inspect_pvd-Sound :
      (read : Result Bytes) (info : Info)
      → read_source source (16 * 2048) 2048 ≡ read
      → inspect_pvd source read ≡ some (ok info)
      → IsProbed source info
  unfolding inspect_pvd
  inspect_pvd-Sound (err code) info described e = absurd (ground (arith, e))
  inspect_pvd-Sound (ok pvd) info described e =
      elim (Bool-cases (is_invalid_pvd pvd source.image_bytes)) [
        | inl bad ↦ absurd (ground (arith, rw bad at e))
        | inr volume ↦ elim (Bool-cases (is_invalid_root (shift pvd 156) source.image_bytes)) [
          | inl bad ↦ absurd (ground (arith, rw (volume, bad) at e))
          | inr root ↦ elim (Option-cases (searched pvd)) [
            | inl lost ↦ absurd (ground (arith, rw (volume, root, lost) at e))
            | inr (entry, found) ↦
                let same : read_file source pvd entry ≡ ok info =
                  some-exact (read_file source pvd entry) (ok info)
                    (rw (volume, root, found) at e) in
                read_file-Sound pvd entry info described
                  (read-IsVolume pvd source.image_bytes volume root) found same
          ]
        ]
      ]

  -- An image whose volume and directory are read ends its inspection where it has less than 4 GiB.
  inspect_pvd-Ended :
      (read : Result Bytes)
      → source.image_bytes < 2 ^ 32
      → (r : Result Info) × (inspect_pvd source read ≡ some r)
  unfolding inspect_pvd
  inspect_pvd-Ended (err code) small = (err code, refl)
  inspect_pvd-Ended (ok pvd) small = elim (Bool-cases (is_invalid_pvd pvd source.image_bytes)) [
    | inl bad ↦ rw bad (err invalid_pvd, refl)
    | inr volume ↦ elim (Bool-cases (is_invalid_root (shift pvd 156) source.image_bytes)) [
      | inl bad ↦ rw (volume, bad) (err invalid_root, refl)
      | inr root ↦
          let (entry, found) =
            find_system_cnf-Ended source (read_le32 (shift (shift pvd 156) 2))
              (read_le32 (shift (shift pvd 156) 10))
              (root_small (shift pvd 156) source.image_bytes small size root) in
          rw (volume, root, found) (read_file source pvd entry, refl)
    ]
  ]

-- An inspection that succeeds is of an image of whole sectors, at least 18, that are counted, with a primary
-- volume descriptor at sector 16 ("CD001", version 1, blocks of 2048 bytes) whose volume and root directory
-- lie inside the image. The search of the root directory found the SYSTEM.CNF whose first 8 KiB were read,
-- the start-up program stands in these behind the key BOOT2 and an equals sign, in capital or small letters,
-- and the disc id is its name with a dash for the underscore and without the dot. An image of more than 900
-- MiB is a DVD, any other a CD, and one that is larger than a single layer needs a layer break.
pub probe-IsProbed :
    (source : Source) (info : Info) → probe source ≡ some (ok info) → IsProbed source info
unfolding probe
probe-IsProbed source info e = elim (Bool-cases (is_image_size source.image_bytes)) [
  | inr bad ↦ absurd (ground (arith, rw bad at e))
  | inl size ↦
      inspect_pvd-Sound source size (read_source source (16 * sector_size) sector_size) info refl
        (rw size at e)
]

-- The inspection of an image of less than 4 GiB ends, whatever it holds.
pub probe-Ended :
    (source : Source) → source.image_bytes < 2 ^ 32 → (r : Result Info) × (probe source ≡ some r)
unfolding probe
probe-Ended source small = elim (Bool-cases (is_image_size source.image_bytes)) [
  | inr bad ↦ rw bad (err image_size_invalid, refl)
  | inl size ↦
      rw size
        (inspect_pvd-Ended source size (read_source source (16 * sector_size) sector_size) small)
]
