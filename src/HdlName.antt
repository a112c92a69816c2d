-- ===== src/HdlName.antt =====
-- src/hdl_partition.c, `hdl_partition_id`: the name of a game's partition. A C string is the list of its
-- characters in front of the zero; the character tests are those of the C locale.
pub mod Shape
use fhdb_bootstrap_manager.Common.{
  ℕ, zero, suc, ◌+◌, ◌-◌, List, [], ◌∷◌, ◌++◌, Bool, true, false, ◌&&◌, ◌||◌, ltb, leb, ◌==◌, ◌!=◌,
  if◌then◌else◌, length, take,
}
use fhdb_bootstrap_manager.Common.Results.{Result, err, ok}
use fhdb_bootstrap_manager.Common.Bytes.{codes}
use fhdb_bootstrap_manager.Common.Ints.{ℤ, neg}

abbrev pub text_invalid : ℤ
text_invalid = neg 525

abbrev is_lower : ℕ → Bool
is_lower c = leb b'a' c && leb c b'z'

abbrev is_alnum : ℕ → Bool
is_alnum c = (leb b'0' c && leb c b'9') || (leb b'A' c && leb c b'Z') || is_lower c

abbrev to_upper : ℕ → ℕ
to_upper c = if is_lower c then c - 32 else c

unfoldable pub partition_char : ℕ → ℕ
partition_char c =
    if is_alnum c || c == b' ' || c == b'-' || c == b'_' || c == b'.' then to_upper c else b'_'

unfoldable pub partition_chars : List ℕ → List ℕ
partition_chars [] = []
partition_chars (c ∷ text) = partition_char c ∷ partition_chars text

-- The characters of a text behind `position` others, up to 32 in all.
abbrev put_chars : List ℕ → List ℕ → List ℕ
put_chars destination text = destination ++ partition_chars (take (32 - length destination) text)

-- `while (position > 0 && destination[position - 1] == ' ') position--;`
unfoldable pub drop_spaces : List ℕ → List ℕ
drop_spaces [] = []
drop_spaces (c ∷ text) =
    let rest = drop_spaces text in if length rest == 0 && c == b' ' then [] else c ∷ rest

abbrev prefix : List ℕ
prefix = codes "PP."

abbrev middle : List ℕ
middle = codes ".HDL."

unfoldable pub partition_id : List ℕ → List ℕ → Result (List ℕ)
partition_id disc_id title =
    let disc = put_chars prefix disc_id in
    let name = drop_spaces (put_chars (disc ++ middle) title) in
    if length disc_id != 10 || length title == 0
    then err text_invalid
    else if ltb 32 (length disc + 5)
    then err text_invalid
    else if ltb (4 + 6) (length name)
    then ok name
    else err text_invalid
