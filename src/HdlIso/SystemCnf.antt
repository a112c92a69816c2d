-- ===== src/HdlIso/SystemCnf.antt =====
-- src/hdl_iso.c, `valid_startup` and `parse_system_cnf`: the start-up program named by SYSTEM.CNF.
pub mod DiscId
pub mod Shape
use fhdb_bootstrap_manager.Common.{
  ℕ, zero, suc, ◌+◌, ◌-◌, Bool, true, false, not, ◌&&◌, ◌||◌, Option, none, some, [], ◌∷◌, ltb, leb,
  ◌==◌, ◌!=◌, if◌then◌else◌,
}
use fhdb_bootstrap_manager.Common.Results.{Result, err, ok}
use fhdb_bootstrap_manager.Common.Bytes.{Bytes, zeros, shift, of_list, codes, memcpy, write_8}
use fhdb_bootstrap_manager.HdlIso.{
  startup_max, startup_invalid, system_cnf_invalid, is_digit, is_alnum, is_space, to_upper,
  equal_nocase, scan_while, skip,
}

-- `strlen` of a text in an array of `startup_max` characters.
abbrev pub text_length : Bytes → ℕ
text_length text = scan_while (λ c. c != 0) text startup_max 0

abbrev pub startup_chars : Bytes → Bool
startup_chars startup =
    is_alnum (startup 0)
    && is_alnum (startup 1)
    && is_alnum (startup 2)
    && is_alnum (startup 3)
    && is_digit (startup 5)
    && is_digit (startup 6)
    && is_digit (startup 7)
    && is_digit (startup 9)
    && is_digit (startup 10)

unfoldable pub valid_startup : Bytes → Bool
unfolding scan_while
valid_startup startup =
    if text_length startup != 11 || startup 4 != b'_' || startup 8 != b'.'
    then false
    else startup_chars startup

-- The name and the disc id, which are written through pointers.
pub record Startup : Type 0 where
  pub startup : Bytes
  pub disc_id : Bytes

abbrev pub disc_id_of : Bytes → Bytes
disc_id_of startup =
    memcpy (memcpy (write_8 (memcpy zeros 0 startup 4) 4 b'-') 5 (shift startup 5) 3) 8
      (shift startup 9) 2

abbrev pub is_end : ℕ → Bool
is_end c = c == 13 || c == 10 || c == 0

abbrev pub is_quote : ℕ → Bool
is_quote c = c == b'\'' || c == b'"'

-- The loop over the value for the last separator, with `rounds` to go from `i` on.
unfoldable pub base_loop : Bytes → ℕ → ℕ → ℕ → ℕ
base_loop bytes zero i base = base
base_loop bytes (suc rounds) i base =
    base_loop bytes rounds (i + 1)
      (if bytes i == b'\\' || bytes i == b'/' || bytes i == b':' then i + 1 else base)

-- `startup[i] = toupper(data[base + i])`, and zeros behind.
abbrev pub upper_text : Bytes → ℕ → ℕ → Bytes
upper_text bytes base size = λ i. if ltb i size then to_upper (bytes (base + i)) else 0

-- The tests of a name, and what is written where it passes.
unfoldable pub finish_startup : Bool → Bytes → Result Startup
unfolding valid_startup
finish_startup too_long startup =
    if too_long
    then err startup_invalid
    else if not (valid_startup startup)
    then err startup_invalid
    else ok (record { startup = startup; disc_id = disc_id_of startup })

-- Where the value begins and ends, where its last separator is passed, and the length of the name without a
-- version.
abbrev pub value_begin : Bytes → ℕ → ℕ → ℕ
value_begin bytes begin end =
    let spaced = skip is_space bytes begin end in
    if ltb spaced end && is_quote (bytes spaced) then spaced + 1 else spaced

abbrev pub value_end : Bytes → ℕ → ℕ → ℕ
value_end bytes begin end =
    skip (λ c. not (is_space c || is_quote c)) bytes (value_begin bytes begin end) end

unfoldable pub base_of : Bytes → ℕ → ℕ → ℕ
unfolding base_loop scan_while
base_of bytes begin end =
    let first = value_begin bytes begin end in
    base_loop bytes (value_end bytes begin end - first) first first

unfoldable pub size_of : Bytes → ℕ → ℕ → ℕ
unfolding base_of
size_of bytes begin end =
    let base = base_of bytes begin end in
    let last = value_end bytes begin end in
    if leb (base + 2) last && bytes (last - 2) == b';' && bytes (last - 1) == b'1'
    then last - 2 - base
    else last - base

-- The part for a line whose key is followed by `=`, from the value on.
unfoldable pub parse_value : Bytes → ℕ → ℕ → Result Startup
unfolding base_of size_of finish_startup
parse_value bytes begin end =
    finish_startup (leb startup_max (size_of bytes begin end))
      (upper_text bytes (base_of bytes begin end) (size_of bytes begin end))

abbrev pub boot2 : Bytes
boot2 = of_list (codes "BOOT2")

-- `continue` where one of two tests fails.
unfoldable pub unless_either : Bool → Bool → Result Startup → Option (Result Startup)
unless_either a b result = if a then none else if b then none else some result

abbrev pub line_begin : Bytes → ℕ → ℕ → ℕ
line_begin bytes start end = skip is_space bytes start end

abbrev pub equals_at : Bytes → ℕ → ℕ → ℕ
equals_at bytes start end = skip is_space bytes (line_begin bytes start end + 5) end

abbrev pub lacks_key : Bytes → ℕ → ℕ → Bool
lacks_key bytes start end =
    ltb (end - line_begin bytes start end) 5
    || not (equal_nocase (shift bytes (line_begin bytes start end)) boot2 5)

abbrev pub lacks_equals : Bytes → ℕ → ℕ → Bool
lacks_equals bytes start end =
    leb end (equals_at bytes start end) || bytes (equals_at bytes start end) != b'='

-- The body of the loop for the line from `start` to `end`; `none` where it goes on with the next line.
unfoldable pub parse_line : Bytes → ℕ → ℕ → Option (Result Startup)
unfolding parse_value equal_nocase unless_either
parse_line bytes start end =
    unless_either (lacks_key bytes start end) (lacks_equals bytes start end)
      (parse_value bytes (equals_at bytes start end + 1) end)

-- The loop over the lines, for at most `fuel` rounds.
unfoldable pub line_loop : Bytes → ℕ → ℕ → ℕ → Result Startup
unfolding parse_line
line_loop bytes size zero position = err system_cnf_invalid
line_loop bytes size (suc fuel) position = elim (ltb position size) [
  | false ↦ err system_cnf_invalid
  | true ↦
      let end = skip (λ c. not (is_end c)) bytes position size in
      elim (parse_line bytes position end) [
        | some result ↦ result
        | none ↦ line_loop bytes size fuel (skip is_end bytes end size)
      ]
]

-- A round passes at least one character, so that one for each is enough.
unfoldable pub parse_system_cnf : Bytes → ℕ → Result Startup
unfolding line_loop
parse_system_cnf bytes size = line_loop bytes size size 0
