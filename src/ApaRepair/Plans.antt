-- ===== src/ApaRepair/Plans.antt =====
-- When a plan allows a patch.
use fhdb_bootstrap_manager.Common.{◌≡◌, ◌≢◌, refl, sym, ◌∙◌, Bool, true, false, arith, ◌&&◌}
use fhdb_bootstrap_manager.Common.Bytes.{Bytes, read_le32}
use fhdb_bootstrap_manager.Apa.{apa_checksum, is_hybrid_gpt}
use fhdb_bootstrap_manager.ApaRepair.{Plan, analyze_marks, analyze, apply_known_fixes}
use fhdb_bootstrap_manager.ApaRepair.Fields.{
  Field, magic, id, sony, start, kind, version, bit, canonical,
}
use fhdb_bootstrap_manager.ApaRepair.Marks.{mark, Patchable, but, patchable}

-- No patch is allowed where two comparisons fail, or none.
abbrev IsRefused : Plan → Type 0
IsRefused plan = plan.header_patch_safe ≡ true → ⊥

module _ (h : Bytes) where
  IsRefused-magic_id : (s st k v : Bool) → IsRefused (analyze_marks h false false s st k v)
  unfolding analyze_marks
  IsRefused-magic_id s st k v e = ground arith

  IsRefused-magic_sony : (st k v : Bool) → IsRefused (analyze_marks h false true false st k v)
  unfolding analyze_marks
  IsRefused-magic_sony st k v e = ground arith

  IsRefused-id_sony : (st k v : Bool) → IsRefused (analyze_marks h true false false st k v)
  unfolding analyze_marks
  IsRefused-id_sony st k v e = ground arith

  IsRefused-magic :
      (st k v : Bool) → (st && k && v) ≡ false → IsRefused (analyze_marks h false true true st k v)
  unfolding analyze_marks
  IsRefused-magic st k v c e = ground arith

  IsRefused-id :
      (st k v : Bool) → (st && k && v) ≡ false → IsRefused (analyze_marks h true false true st k v)
  unfolding analyze_marks
  IsRefused-id st k v c e = ground arith

  IsRefused-sony :
      (st k v : Bool) → (st && k && v) ≡ false → IsRefused (analyze_marks h true true false st k v)
  unfolding analyze_marks
  IsRefused-sony st k v c e = ground arith

  IsRefused-anchors :
      (k v : Bool) → (k && v) ≡ false → IsRefused (analyze_marks h true true true false k v)
  unfolding analyze_marks
  IsRefused-anchors k v c e = ground arith

  IsRefused-kind_version : IsRefused (analyze_marks h true true true true false false)
  unfolding analyze_marks
  IsRefused-kind_version e = ground arith

  IsRefused-none : IsRefused (analyze_marks h true true true true true true)
  unfolding analyze_marks
  IsRefused-none e = ground arith

marks-Patchable :
    (h : Bytes) (m i s st k v : Bool)
    → (analyze_marks h m i s st k v).header_patch_safe ≡ true
    → (f : Field) × Patchable h (mark m i s st k v) (analyze_marks h m i s st k v) f
marks-Patchable h false false s st k v e = absurd (IsRefused-magic_id h s st k v e)
marks-Patchable h false true false st k v e = absurd (IsRefused-magic_sony h st k v e)
marks-Patchable h true false false st k v e = absurd (IsRefused-id_sony h st k v e)
marks-Patchable h false true true true true true e = (magic, patchable magic h e)
marks-Patchable h false true true st k v e = absurd (IsRefused-magic h st k v refl e)
marks-Patchable h true false true true true true e = (id, patchable id h e)
marks-Patchable h true false true st k v e = absurd (IsRefused-id h st k v refl e)
marks-Patchable h true true false true true true e = (sony, patchable sony h e)
marks-Patchable h true true false st k v e = absurd (IsRefused-sony h st k v refl e)
marks-Patchable h true true true false true true e = (start, patchable start h e)
marks-Patchable h true true true false k v e = absurd (IsRefused-anchors h k v refl e)
marks-Patchable h true true true true false true e = (kind, patchable kind h e)
marks-Patchable h true true true true true false e = (version, patchable version h e)
marks-Patchable h true true true true false false e = absurd (IsRefused-kind_version h e)
marks-Patchable h true true true true true true e = absurd (IsRefused-none h e)

mark-canonical :
    (f : Field) (h : Bytes)
    → mark
        (canonical magic h)
        (canonical id h)
        (canonical sony h)
        (canonical start h)
        (canonical kind h)
        (canonical version h)
        f
      ≡ canonical f h
mark-canonical magic h = refl
mark-canonical _ h = refl

-- A plan allows a patch only where exactly one of the six fields fails its comparison, its repair
-- restores the checksum stored, the header as it is does not match it, and the disk is no hybrid.
pub analyze-Patchable :
    (h : Bytes)
    → (analyze h).header_patch_safe ≡ true
    → (f : Field) × Patchable h (λ g. canonical g h) (analyze h) f
unfolding analyze
analyze-Patchable h e =
    let (f, p) =
      marks-Patchable h (canonical magic h) (canonical id h) (canonical sony h) (canonical start h)
        (canonical kind h) (canonical version h) e in
    (
      f,
      record {
        fixes = p.fixes;
        damaged = sym (mark-canonical f h) ∙ p.damaged;
        others = λ g r. sym (mark-canonical g h) ∙ p.others g r;
        stale = p.stale;
        corroborated = p.corroborated;
        single = p.single;
      },
    )

-- The converse for one failed comparison.
marks_allowed :
    (f : Field) (h : Bytes)
    → read_le32 h ≢ apa_checksum h
    → apa_checksum (apply_known_fixes h (bit f)) ≡ read_le32 h
    → is_hybrid_gpt h ≡ false
    → let plan =
        analyze_marks h
          (but f magic)
          (but f id)
          (but f sony)
          (but f start)
          (but f kind)
          (but f version) in
      (plan.header_patch_safe ≡ true) × (plan.safe_header_fixes ≡ bit f) × (plan.blockers ≡ 0)
unfolding analyze_marks
marks_allowed magic h stale corroborated single = ground arith
marks_allowed _ h stale corroborated single = ground arith

but-marks :
    (f g : Field) (h : Bytes)
    → canonical f h ≡ false
    → ((k : Field) → k ≢ f → canonical k h ≡ true)
    → canonical g h ≡ but f g
but-marks magic magic h d o = d
but-marks id id h d o = d
but-marks sony sony h d o = d
but-marks start start h d o = d
but-marks kind kind h d o = d
but-marks version version h d o = d
but-marks _ g h d o = o g (λ e. cc)

pub analyze_allowed :
    (f : Field) (h : Bytes)
    → canonical f h ≡ false
    → ((k : Field) → k ≢ f → canonical k h ≡ true)
    → read_le32 h ≢ apa_checksum h
    → apa_checksum (apply_known_fixes h (bit f)) ≡ read_le32 h
    → is_hybrid_gpt h ≡ false
    → ((analyze h).header_patch_safe ≡ true)
      × ((analyze h).safe_header_fixes ≡ bit f)
      × ((analyze h).blockers ≡ 0)
unfolding analyze
analyze_allowed f h d o stale corroborated single =
    let marks = λ (g : Field). but-marks f g h d o in
    rw (marks magic, marks id, marks sony, marks start, marks kind, marks version)
      (marks_allowed f h stale corroborated single)
