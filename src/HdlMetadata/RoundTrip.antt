-- ===== src/HdlMetadata/RoundTrip.antt =====
-- The block of a game is parsed back to what it was built from.
use fhdb_bootstrap_manager.Common.{
  ℕ, ◌+◌, ◌%◌, ◌^◌, ◌≤◌, ◌<◌, ◌≡◌, ◌⊎◌, inl, inr, refl, ap, ◌∙◌, List, false, not, ◌&&◌, ◌||◌, ltb,
  leb, ◌==◌, ◌!=◌, length, Bool, if◌then◌else◌, Bool-cases, arith,
}
use fhdb_bootstrap_manager.Common.Results.{err, ok}
use fhdb_bootstrap_manager.Common.Bytes.{
  Bytes, shift, le32_bytes, read_le32, read_le32-congr, read_le32-le32_bytes,
}
use fhdb_bootstrap_manager.HdlPartition.{Plan}
use fhdb_bootstrap_manager.HdlMetadata.{
  Options, MetadataInfo, text_refused, build_fixed, build_entries, metadata_build, printable,
  metadata_parse, info_magic, err_metadata_invalid,
}
use fhdb_bootstrap_manager.HdlMetadata.Texts.{
  IsOptions, build_entries-before, title_byte, startup_byte, text_at-of_list,
}

-- What a block is parsed to.
abbrev pub plan_info : Plan → Options → MetadataInfo
plan_info plan options = record {
  game_title = options.game_title;
  startup = options.startup;
  metadata_version = 0x10000;
  disc_type = options.disc_type;
  layer1_start = options.layer1_start;
  partition_count = plan.count;
  hdl_compat_flags = options.hdl_compat_flags;
  opl_compat_flags = options.opl_compat_flags;
  dma_type = options.dma_type;
  dma_mode = options.dma_mode;
}

-- A number that stands at an offset in front of the entries.
field_read :
    (out fixed : Bytes) (off v : ℕ)
    → off + 4 ≤ 244
    → v < 2 ^ 32
    → ((k : ℕ) → k < 244 → out k ≡ fixed k)
    → fixed off ≡ le32_bytes v 0
    → fixed (off + 1) ≡ le32_bytes v 1
    → fixed (off + 2) ≡ le32_bytes v 2
    → fixed (off + 3) ≡ le32_bytes v 3
    → read_le32 (shift out off) ≡ v
field_read out fixed off v inside fits same b0 b1 b2 b3 =
    let at0 : off + 0 ≡ off = omega arith in
    read_le32-congr (shift out off) (le32_bytes v) (ap out at0 ∙ same off (omega arith) ∙ b0)
      (same (off + 1) (omega arith) ∙ b1) (same (off + 2) (omega arith) ∙ b2)
      (same (off + 3) (omega arith) ∙ b3)
    ∙ read_le32-le32_bytes v fits

disc_read : (n : ℕ) → (n ≡ 0x12) ⊎ (n ≡ 0x14) → (n != 0x12 && n != 0x14) ≡ false
disc_read n h = ground (arith, h)

disc_fits : (n : ℕ) → (n ≡ 0x12) ⊎ (n ≡ 0x14) → n < 2 ^ 32
disc_fits n h = ground (arith, h)

byte_kept : (v : ℕ) → v < 2 ^ 8 → v % 2 ^ 8 ≡ v
byte_kept v h = omega arith

-- What the build has checked.
built :
    (plan : Plan) (starts : List ℕ) (options : Options) (out : Bytes)
    → metadata_build plan starts options ≡ ok out
    → (1 ≤ plan.count)
      × (plan.count ≤ 65)
      × (1 ≤ length options.game_title)
      × (length options.game_title < 160)
      × (1 ≤ length options.startup)
      × (length options.startup < 60)
      × (build_entries plan.slices starts 0 0 plan.image_bytes (build_fixed plan options) ≡ ok out)
unfolding metadata_build
built plan starts options out e =
    let texts = text_refused options.game_title 160 || text_refused options.startup 60 in
    elim (Bool-cases (plan.count == 0 || ltb 65 plan.count || length starts != plan.count)) [
      | inl bad ↦ absurd (ground (arith, rw bad at e))
      | inr counted ↦ elim (Bool-cases texts) [
        | inl bad ↦ absurd (ground (arith, rw (counted, bad) at e))
        | inr fit ↦ (
          ground (arith, counted),
          ground (arith, counted),
          ground (arith, fit),
          ground (arith, fit),
          ground (arith, fit),
          ground (arith, fit),
          rw (counted, fit) at e,
        )
      ]
    ]

-- The tests of the parser, on what it reads.
abbrev refused : Plan → Options → Bool
refused plan options =
    info_magic != info_magic
    || plan.count == 0
    || ltb 65 plan.count
    || (options.disc_type != 0x12 && options.disc_type != 0x14)
    || (length options.game_title == 0
        || leb (160 + 1) (length options.game_title)
        || not (printable options.game_title))
    || (length options.startup == 0
        || leb (60 + 1) (length options.startup)
        || not (printable options.startup))

parsed :
    (plan : Plan) (options : Options)
    → IsOptions options
    → 1 ≤ plan.count
    → plan.count ≤ 65
    → 1 ≤ length options.game_title
    → length options.game_title < 160
    → 1 ≤ length options.startup
    → length options.startup < 60
    → (if refused plan options then err err_metadata_invalid else ok (plan_info plan options))
      ≡ ok (plan_info plan options)
parsed plan options good some most titled title_fits started startup_fits =
    let passes : refused plan options ≡ false = ground (
      arith, some, most, titled, title_fits, started, startup_fits, good.disc, good.title.0,
      good.startup.0,
    ) in
    rw passes refl

-- A block that is built of a plan and of options that it can hold is parsed to the options, the version
-- and the number of partitions of the plan.
pub parse-build :
    (plan : Plan) (starts : List ℕ) (options : Options) (out : Bytes)
    → IsOptions options
    → metadata_build plan starts options ≡ ok out
    → metadata_parse out ≡ ok (plan_info plan options)
unfolding metadata_parse
parse-build plan starts options out good e =
    let fixed = build_fixed plan options in
    let (some, most, titled, title_fits, started, startup_fits, entries) =
      built plan starts options out e in
    let same = λ (k : ℕ) (h : k < 244).
      build_entries-before plan.slices starts 0 0 plan.image_bytes fixed out k entries h in
    let at0 : read_le32 (shift out 0) ≡ info_magic =
      field_read out fixed 0 info_magic (omega arith) (omega arith) same refl refl refl refl in
    let magic : read_le32 out ≡ info_magic =
      read_le32-congr out (shift out 0) refl refl refl refl ∙ at0 in
    let version =
      field_read out fixed 4 0x10000 (omega arith) (omega arith) same refl refl refl refl in
    let layer =
      field_read out fixed 232 options.layer1_start (omega arith) good.layer same refl refl refl
        refl in
    let disc =
      field_read out fixed 236 options.disc_type (omega arith)
        (disc_fits options.disc_type good.disc) same refl refl refl refl in
    let count =
      field_read out fixed 240 plan.count (omega arith) (omega (arith, most)) same refl refl refl
        refl in
    let title =
      text_at-of_list options.game_title (shift out 8) 160 good.title.1 title_fits
        (λ k h. same (8 + k) (omega arith) ∙ title_byte plan options k title_fits h) in
    let startup =
      text_at-of_list options.startup (shift out 172) 60 good.startup.1 startup_fits (λ k h.
        same (172 + k) (omega arith) ∙ startup_byte plan options k title_fits startup_fits h) in
    let hdl = same 168 (omega arith) ∙ byte_kept options.hdl_compat_flags good.hdl in
    let opl = same 169 (omega arith) ∙ byte_kept options.opl_compat_flags good.opl in
    let dma = same 170 (omega arith) ∙ byte_kept options.dma_type good.dma in
    let mode = same 171 (omega arith) ∙ byte_kept options.dma_mode good.mode in
    rw (magic, count, disc, version, layer, title, startup, hdl, opl, dma, mode)
      (parsed plan options good some most titled title_fits started startup_fits)
