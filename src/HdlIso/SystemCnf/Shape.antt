-- ===== src/HdlIso/SystemCnf/Shape.antt =====
-- What is accepted of SYSTEM.CNF: where the start-up program stands in it.
use fhdb_bootstrap_manager.Common.{
  ℕ, zero, suc, ◌+◌, ◌-◌, ◌≤◌, ◌<◌, ◌≡◌, refl, ap, ◌∙◌, subst, Bool, true, false, not, ◌||◌, some,
  Option-cases, ltb, leb, ◌!=◌, ◌==◌, lt→ltb, ge→ltb, ltb→lt, if◌then◌else◌, Bool-cases, inl, inr,
  arith,
}
use native.Mathlib.Decide.{dec_lt}
use fhdb_bootstrap_manager.Common.Bytes.{Bytes, shift, of_list, codes}
use fhdb_bootstrap_manager.HdlIso.Scans.{scan_while-ge, scan_while-le, scan_while-passed}
use fhdb_bootstrap_manager.Common.Results.{Result, ok}
use fhdb_bootstrap_manager.HdlIso.{startup_max, is_space, to_upper, equal_nocase, skip}
use fhdb_bootstrap_manager.HdlIso.SystemCnf.{
  Startup, valid_startup, disc_id_of, upper_text, finish_startup, is_quote, base_loop, value_begin,
  value_end, line_begin, unless_either, base_of, size_of, equals_at, lacks_key, lacks_equals,
  is_end, parse_value, parse_line, line_loop, parse_system_cnf,
}
use fhdb_bootstrap_manager.HdlIso.SystemCnf.DiscId.{
  IsDiscId, disc_id_of-IsDiscId, key_found, sign_found, valid-guards, IsIdOf, disc_id_of-IsIdOf,
}

-- A valid name that is copied in capitals has eleven characters.
upper_text-size :
    (bytes : Bytes) (base size i : ℕ)
    → valid_startup (upper_text bytes base size) ≡ true
    → i < 11
    → i < size
upper_text-size bytes base size i v h = elim (dec_lt i size) [
  | yes inside ↦ inside
  | no outside ↦
      let text = upper_text bytes base size in
      let long = (valid-guards text v).0 in
      let there =
        scan_while-passed (λ c. c != 0) text startup_max 0 i (omega arith) (omega (arith, long)) in
      let off : ltb i size ≡ false = ge→ltb i size (omega arith) in
      absurd (ground (arith, off, there))
]

-- What is accepted between two places: a name that passes its test, copied in capitals from there, and its
-- disc id.
pub record IsValue (bytes : Bytes) (begin end : ℕ) (named : Startup) : Type 0 where
  pub shape : IsDiscId named.disc_id
  pub id : IsIdOf named.startup named.disc_id
  pub position : ℕ
  pub behind : begin ≤ position
  pub inside : position + 11 ≤ end
  pub text : (i : ℕ) → i < 11 → named.startup i ≡ to_upper (bytes (position + i))

finish_startup-made :
    (long : Bool) (startup : Bytes) (named : Startup)
    → finish_startup long startup ≡ ok named
    → (valid_startup startup ≡ true)
      × (record { startup = startup; disc_id = disc_id_of startup } ≡ named)
unfolding finish_startup
finish_startup-made true startup named h = ground (arith, h)
finish_startup-made false startup named h = elim (Bool-cases (valid_startup startup)) [
  | inr bad ↦ absurd (ground (arith, rw bad at h))
  | inl good ↦ (good, ground (arith, rw good at h))
]

base_loop-ge :
    (bytes : Bytes) (rounds i base low : ℕ)
    → low ≤ i
    → low ≤ base
    → low ≤ base_loop bytes rounds i base
unfolding base_loop
base_loop-ge bytes zero i base low p q = q
base_loop-ge bytes (suc rounds) i base low p q =
    base_loop-ge bytes rounds (i + 1)
      (if bytes i == b'\\' || bytes i == b'/' || bytes i == b':' then i + 1 else base) low
      (omega (arith, p)) (ground (arith, p, q))

value_begin-ge : (bytes : Bytes) (begin end : ℕ) → begin ≤ value_begin bytes begin end
value_begin-ge bytes begin end =
    let spaced = scan_while-ge is_space bytes (end - begin) begin in ground (arith, spaced)

base_of-ge : (bytes : Bytes) (begin end : ℕ) → value_begin bytes begin end ≤ base_of bytes begin end
unfolding base_of
base_of-ge bytes begin end =
    let first = value_begin bytes begin end in
    base_loop-ge bytes (value_end bytes begin end - first) first first first (omega arith)
      (omega arith)

value_end-le :
    (bytes : Bytes) (begin end : ℕ)
    → value_end bytes begin end ≤ value_begin bytes begin end + (end - value_begin bytes begin end)
value_end-le bytes begin end =
    scan_while-le (λ c. not (is_space c || is_quote c)) bytes (end - value_begin bytes begin end)
      (value_begin bytes begin end)

size_of-le :
    (bytes : Bytes) (begin end : ℕ)
    → size_of bytes begin end ≤ value_end bytes begin end - base_of bytes begin end
unfolding size_of
size_of-le bytes begin end = ground arith

parse_value-IsValue :
    (bytes : Bytes) (begin end : ℕ) (named : Startup)
    → parse_value bytes begin end ≡ ok named
    → IsValue bytes begin end named
unfolding parse_value
parse_value-IsValue bytes begin end named e =
    let base = base_of bytes begin end in
    let size = size_of bytes begin end in
    let startup = upper_text bytes base size in
    let (valid, same) = finish_startup-made (leb startup_max size) startup named e in
    let fits = λ (i : ℕ) (h : i < 11). upper_text-size bytes base size i valid h in
    let first = value_begin-ge bytes begin end in
    let low = base_of-ge bytes begin end in
    let high = value_end-le bytes begin end in
    let short = size_of-le bytes begin end in
    let all = fits 10 (omega arith) in
    subst (IsValue bytes begin end) same (record {
      shape = disc_id_of-IsDiscId startup valid;
      id = disc_id_of-IsIdOf startup valid;
      position = base;
      behind = omega (arith, first, low);
      inside = omega (arith, low, high, short, all);
      text = λ i h. rw (lt→ltb i size (fits i h)) refl;
    })

unless_either-some :
    (a b : Bool) (r x : Result Startup)
    → unless_either a b r ≡ some x
    → (a ≡ false) × (b ≡ false) × (r ≡ x)
unfolding unless_either
unless_either-some true b r x h = ground (arith, h)
unless_either-some false true r x h = ground (arith, h)
unless_either-some false false r x h = (refl, refl, ground (arith, h))

-- What is accepted of a text of `size` characters: a place with the key, an equals sign behind it, and the
-- name behind that.
pub record IsNamed (bytes : Bytes) (size : ℕ) (named : Startup) : Type 0 where
  pub line : ℕ
  pub equals : ℕ
  pub key : equal_nocase (shift bytes line) (of_list (codes "BOOT2")) 5 ≡ true
  pub assigned : bytes equals ≡ b'='
  pub behind : line + 5 ≤ equals
  pub value : IsValue bytes (equals + 1) size named

longer-IsValue :
    (bytes : Bytes) (begin end size : ℕ) (named : Startup)
    → end ≤ size
    → IsValue bytes begin end named
    → IsValue bytes begin size named
longer-IsValue bytes begin end size named h v = record {
  shape = v.shape;
  id = v.id;
  position = v.position;
  behind = v.behind;
  inside = omega (arith, v.inside, h);
  text = v.text;
}

parse_line-IsNamed :
    (bytes : Bytes) (start end size : ℕ) (named : Startup)
    → end ≤ size
    → parse_line bytes start end ≡ some (ok named)
    → IsNamed bytes size named
unfolding parse_line
parse_line-IsNamed bytes start end size named h e =
    let line = line_begin bytes start end in
    let equals = equals_at bytes start end in
    let (keyed, signed, parsed) =
      unless_either-some (lacks_key bytes start end) (lacks_equals bytes start end)
        (parse_value bytes (equals + 1) end) (ok named) e in
    let behind = scan_while-ge is_space bytes (end - (line + 5)) (line + 5) in
    record {
      line = line;
      equals = equals;
      key =
          key_found (ltb (end - line) 5)
            (equal_nocase (shift bytes line) (of_list (codes "BOOT2")) 5) keyed;
      assigned = sign_found (leb end equals) (bytes equals) signed;
      behind = behind;
      value =
          longer-IsValue bytes (equals + 1) end size named h
            (parse_value-IsValue bytes (equals + 1) end named parsed);
    }

line_loop-IsNamed :
    (bytes : Bytes) (size fuel position : ℕ) (named : Startup)
    → line_loop bytes size fuel position ≡ ok named
    → IsNamed bytes size named
unfolding line_loop
line_loop-IsNamed bytes size zero position named e = absurd (ground (arith, e))
line_loop-IsNamed bytes size (suc fuel) position named e =
    let end = skip (λ c. not (is_end c)) bytes position size in
    let short = scan_while-le (λ c. not (is_end c)) bytes (size - position) position in
    let rest = line_loop-IsNamed bytes size fuel (skip is_end bytes end size) named in
    elim (Bool-cases (ltb position size)) [
      | inr over ↦ absurd (ground (arith, rw (over, line_loop) at e))
      | inl more ↦ elim (Option-cases (parse_line bytes position end)) [
        | inl on ↦ rest (rw (more, on, line_loop) at e)
        | inr (result, found) ↦
            let same : result ≡ ok named = rw (more, found, line_loop) at e in
            let within : position < size = ltb→lt position size more in
            parse_line-IsNamed bytes position end size named (omega (arith, short, within))
              (found ∙ ap some same)
      ]
    ]

-- A start-up program that is read from SYSTEM.CNF stands in the text, behind the key BOOT2 and an equals
-- sign, in capital or small letters, and the disc id is made of it: four letters or digits, a dash and five
-- digits.
pub parse_system_cnf-IsNamed :
    (bytes : Bytes) (size : ℕ) (named : Startup)
    → parse_system_cnf bytes size ≡ ok named
    → IsNamed bytes size named
unfolding parse_system_cnf
parse_system_cnf-IsNamed bytes size named e = line_loop-IsNamed bytes size size 0 named e
