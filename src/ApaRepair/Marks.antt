-- ===== src/ApaRepair/Marks.antt =====
-- The six comparisons of the planner with exactly one that fails.
use fhdb_bootstrap_manager.Common.{◌≡◌, ◌≢◌, refl, Bool, true, false, arith}
use fhdb_bootstrap_manager.Common.Bytes.{Bytes, read_le32}
use fhdb_bootstrap_manager.Apa.{apa_checksum, is_hybrid_gpt}
use fhdb_bootstrap_manager.ApaRepair.{Plan, analyze_marks, apply_known_fixes}
use fhdb_bootstrap_manager.ApaRepair.Fields.{Field, magic, id, sony, start, kind, version, bit}

abbrev pub mark : Bool → Bool → Bool → Bool → Bool → Bool → Field → Bool
mark m i s st k v magic = m
mark m i s st k v id = i
mark m i s st k v sony = s
mark m i s st k v start = st
mark m i s st k v kind = k
mark m i s st k v version = v

-- Exactly the field `f` fails its comparison, and the checksum stored corroborates its repair.
pub record Patchable (h : Bytes) (ok : Field → Bool) (plan : Plan) (f : Field) : Type 0 where
  pub fixes : plan.safe_header_fixes ≡ bit f
  pub damaged : ok f ≡ false
  pub others : (g : Field) → g ≢ f → ok g ≡ true
  pub stale : read_le32 h ≢ apa_checksum h
  pub corroborated : apa_checksum (apply_known_fixes h (bit f)) ≡ read_le32 h
  pub single : is_hybrid_gpt h ≡ false

abbrev pub but : Field → Field → Bool
but magic magic = false
but id id = false
but sony sony = false
but start start = false
but kind kind = false
but version version = false
but _ _ = true

mark-but :
    (f g : Field)
    → g ≢ f
    → mark (but f magic) (but f id) (but f sony) (but f start) (but f kind) (but f version) g ≡ true
mark-but magic magic r = absurd (r refl)
mark-but id id r = absurd (r refl)
mark-but sony sony r = absurd (r refl)
mark-but start start r = absurd (r refl)
mark-but kind kind r = absurd (r refl)
mark-but version version r = absurd (r refl)
mark-but _ _ r = refl

mark-but_self :
    (f : Field)
    → mark (but f magic) (but f id) (but f sony) (but f start) (but f kind) (but f version) f
      ≡ false
mark-but_self magic = refl
mark-but_self _ = refl

-- With a single failed comparison, the other premises of a patch are read off the plan.
single_damage :
    (f : Field) (h : Bytes)
    → let m = but f magic in
      let plan =
        analyze_marks h m (but f id) (but f sony) (but f start) (but f kind) (but f version) in
      plan.header_patch_safe ≡ true
      → (plan.safe_header_fixes ≡ bit f)
        × (read_le32 h ≢ apa_checksum h)
        × (apa_checksum (apply_known_fixes h (bit f)) ≡ read_le32 h)
        × (is_hybrid_gpt h ≡ false)
unfolding analyze_marks
single_damage magic h e = ground arith
single_damage _ h e = ground arith

pub patchable :
    (f : Field) (h : Bytes)
    → let plan =
        analyze_marks h
          (but f magic)
          (but f id)
          (but f sony)
          (but f start)
          (but f kind)
          (but f version) in
      plan.header_patch_safe ≡ true
      → Patchable h
          (mark (but f magic) (but f id) (but f sony) (but f start) (but f kind) (but f version))
          plan
          f
patchable f h e =
    let (fixes, stale, corroborated, single) = single_damage f h e in
    record {
      fixes = fixes;
      damaged = mark-but_self f;
      others = mark-but f;
      stale = stale;
      corroborated = corroborated;
      single = single;
    }
