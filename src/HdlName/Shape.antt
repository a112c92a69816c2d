-- ===== src/HdlName/Shape.antt =====
-- The shape of a partition's name.
use fhdb_bootstrap_manager.Common.{
  ℕ, zero, suc, ◌+◌, ◌-◌, ◌≤◌, ◌≡◌, ◌⊎◌, refl, subst, List, [], ◌∷◌, ◌++◌, Bool, true, false,
  if◌then◌else◌, length, take, length-append, arith,
}
use fhdb_bootstrap_manager.Common.Results.{ok}
use fhdb_bootstrap_manager.HdlName.{
  partition_char, partition_chars, put_chars, drop_spaces, prefix, middle, partition_id,
}

-- Upper-case letters, digits, and four signs.
abbrev pub IsNameChar : ℕ → Type 0
IsNameChar c =
    ((b'0' ≤ c) × (c ≤ b'9'))
    ⊎ ((b'A' ≤ c) × (c ≤ b'Z'))
    ⊎ (c ≡ b' ')
    ⊎ (c ≡ b'-')
    ⊎ (c ≡ b'_')
    ⊎ (c ≡ b'.')

pub data AllNameChars : List ℕ → Type 0 where
  none_left : AllNameChars []
  one_more : (c : ℕ) (text : List ℕ) → IsNameChar c → AllNameChars text → AllNameChars (c ∷ text)

partition_char-IsNameChar : (c : ℕ) → IsNameChar (partition_char c)
unfolding partition_char
partition_char-IsNameChar c = ground arith

chars-AllNameChars : (text : List ℕ) → AllNameChars (partition_chars text)
unfolding partition_chars
chars-AllNameChars [] = none_left
chars-AllNameChars (c ∷ text) =
    one_more (partition_char c) (partition_chars text) (partition_char-IsNameChar c)
      (chars-AllNameChars text)

length-partition_chars : (text : List ℕ) → length (partition_chars text) ≡ length text
unfolding partition_chars
length-partition_chars [] = refl
length-partition_chars (c ∷ text) = omega (arith, length-partition_chars text)

append-AllNameChars : (a b : List ℕ) → AllNameChars a → AllNameChars b → AllNameChars (a ++ b)
append-AllNameChars _ b none_left q = q
append-AllNameChars _ b (one_more c text h p) q =
    one_more c (text ++ b) h (append-AllNameChars text b p q)

either-AllNameChars :
    (test : Bool) (a b : List ℕ)
    → AllNameChars a
    → AllNameChars b
    → AllNameChars (if test then a else b)
either-AllNameChars true a b p q = p
either-AllNameChars false a b p q = q

drop_spaces-AllNameChars : (text : List ℕ) → AllNameChars text → AllNameChars (drop_spaces text)
unfolding drop_spaces
drop_spaces-AllNameChars _ none_left = none_left
drop_spaces-AllNameChars _ (one_more c text h p) =
    either-AllNameChars _ [] (c ∷ drop_spaces text) none_left
      (one_more c (drop_spaces text) h (drop_spaces-AllNameChars text p))

length-drop_spaces : (text : List ℕ) → length (drop_spaces text) ≤ length text
unfolding drop_spaces
length-drop_spaces [] = omega arith
length-drop_spaces (c ∷ text) = ground (arith, length-drop_spaces text)

take_bound : (n : ℕ) (text : List ℕ) → length (take n text) ≤ n
take_bound zero text = omega arith
take_bound (suc n) [] = omega arith
take_bound (suc n) (c ∷ text) = omega (arith, take_bound n text)

length-put_chars :
    (destination text : List ℕ) → length destination ≤ 32 → length (put_chars destination text) ≤ 32
length-put_chars destination text h = omega (
  arith,
  length-append destination (partition_chars (take (32 - length destination) text)),
  length-partition_chars (take (32 - length destination) text),
  take_bound (32 - length destination) text,
  h,
)

put_chars-AllNameChars :
    (destination text : List ℕ)
    → AllNameChars destination
    → AllNameChars (put_chars destination text)
put_chars-AllNameChars destination text p =
    append-AllNameChars destination _ p (chars-AllNameChars (take (32 - length destination) text))

prefix-AllNameChars : AllNameChars prefix
prefix-AllNameChars =
    one_more b'P' _ (ground arith)
      (one_more b'P' _ (ground arith) (one_more b'.' _ (ground arith) none_left))

middle-AllNameChars : AllNameChars middle
middle-AllNameChars = one_more b'.' _ (ground arith) (
    one_more b'H' _ (ground arith) (
      one_more b'D' _ (ground arith)
        (one_more b'L' _ (ground arith) (one_more b'.' _ (ground arith) none_left))))

-- The name built for a disc and a title has 11 to 32 characters, all of them upper-case letters, digits,
-- spaces, dashes, underscores or dots.
pub partition_id-AllNameChars :
    (disc_id title id : List ℕ)
    → partition_id disc_id title ≡ ok id
    → AllNameChars id × (11 ≤ length id) × (length id ≤ 32)
unfolding partition_id
partition_id-AllNameChars disc_id title id e =
    let disc : List ℕ = put_chars prefix disc_id in
    let full : List ℕ = put_chars (disc ++ middle) title in
    let same : drop_spaces full ≡ id = ground (arith, e) in
    let room : length disc + 5 ≤ 32 = ground (arith, e) in
    let long : 11 ≤ length (drop_spaces full) = ground (arith, e) in
    let start : length (disc ++ middle) ≤ 32 = omega (arith, room, length-append disc middle) in
    subst (λ n. AllNameChars n × (11 ≤ length n) × (length n ≤ 32)) same
      (
        drop_spaces-AllNameChars full (
            put_chars-AllNameChars (disc ++ middle) title (
              append-AllNameChars disc middle
                (put_chars-AllNameChars prefix disc_id prefix-AllNameChars) middle-AllNameChars)),
        long,
        omega (arith, length-drop_spaces full, length-put_chars (disc ++ middle) title start),
      )
