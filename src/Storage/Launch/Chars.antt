-- ===== src/Storage/Launch/Chars.antt =====
-- The first and the last place of a character in a text, and what a buffer keeps of a text.
use fhdb_bootstrap_manager.Common.{
  ℕ, zero, suc, ◌-◌, ◌≤◌, ◌<◌, ◌≡◌, ◌⊎◌, inl, inr, refl, ap, List, [], ◌∷◌, ◌++◌, none, some, ◌==◌,
  length, take, get_or, Bool-cases, Option-cases, arith,
}
use fhdb_bootstrap_manager.Storage.{printed}
use fhdb_bootstrap_manager.Storage.Launch.{find_char, find_last_char, ends_in_colon}

pub find_char-append :
    (c : ℕ) (xs ys : List ℕ) (k : ℕ)
    → find_char c xs ≡ some k
    → (find_char c (xs ++ ys) ≡ some k) × (k < length xs)
unfolding find_char
find_char-append c [] ys k e = absurd (ground (arith, e))
find_char-append c (x ∷ xs) ys k e = elim (Bool-cases (x == c)) [
  | inl here ↦ let first : some 0 ≡ some k = rw here at e in rw here (first, ground (arith, first))
  | inr later ↦ elim (Option-cases (find_char c xs)) [
    | inl never ↦ absurd (ground (arith, rw (later, never, find_char) at e))
    | inr (i, there) ↦
        let (found, inside) = find_char-append c xs ys i there in
        let next : some (suc i) ≡ some k = rw (later, there, find_char) at e in
        rw (later, found, find_char) (next, ground (arith, next, inside))
  ]
]

pub find_char-here :
    (c : ℕ) (xs ys : List ℕ)
    → find_char c xs ≡ none
    → find_char c (xs ++ (c ∷ ys)) ≡ some (length xs)
unfolding find_char
find_char-here c [] ys e = ground arith
find_char-here c (x ∷ xs) ys e = elim (Bool-cases (x == c)) [
  | inl here ↦ absurd (ground (arith, rw here at e))
  | inr later ↦ elim (Option-cases (find_char c xs)) [
    | inr (i, there) ↦ absurd (ground (arith, rw (later, there, find_char) at e))
    | inl never ↦ let found = find_char-here c xs ys never in rw (later, found, find_char) refl
  ]
]

pub find_last_char-here :
    (c : ℕ) (xs ys : List ℕ)
    → find_last_char c ys ≡ none
    → find_last_char c (xs ++ (c ∷ ys)) ≡ some (length xs)
unfolding find_last_char
find_last_char-here c [] ys e = rw (e, find_last_char) (ground arith)
find_last_char-here c (x ∷ xs) ys e =
    let found = find_last_char-here c xs ys e in rw (found, find_last_char) refl

pub find_last_char-before :
    (c : ℕ) (xs ys : List ℕ)
    → find_last_char c ys ≡ none
    → (find_last_char c (xs ++ ys) ≡ none)
      ⊎ ((k : ℕ) × (find_last_char c (xs ++ ys) ≡ some k) × (k < length xs))
unfolding find_last_char
find_last_char-before c [] ys e = inl e
find_last_char-before c (x ∷ xs) ys e = elim (find_last_char-before c xs ys e) [
  | inr (k, found, inside) ↦ rw (found, find_last_char) (inr (suc k, refl, omega (arith, inside)))
  | inl never ↦ elim (Bool-cases (x == c)) [
    | inl here ↦ rw (never, here, find_last_char) (inr (0, refl, omega arith))
    | inr other ↦ rw (never, other, find_last_char) (inl refl)
  ]
]

pub take-append : (xs ys : List ℕ) → take (length xs) (xs ++ ys) ≡ xs
take-append [] ys = refl
take-append (x ∷ xs) ys = ap (λ (t : List ℕ). x ∷ t) (take-append xs ys)

pub take_one_more :
    (xs : List ℕ) (y : ℕ) (ys : List ℕ) → take (suc (length xs)) (xs ++ (y ∷ ys)) ≡ xs ++ (y ∷ [])
take_one_more [] y ys = refl
take_one_more (x ∷ xs) y ys = ap (λ (t : List ℕ). x ∷ t) (take_one_more xs y ys)

pub printed-whole :
    (capacity : ℕ) (text : List ℕ) → length text < capacity → printed capacity text ≡ text
unfolding printed
printed-whole zero text h = absurd (omega (arith, h))
printed-whole (suc zero) [] h = refl
printed-whole (suc zero) (c ∷ text) h = absurd (omega (arith, h))
printed-whole (suc (suc room)) [] h = refl
printed-whole (suc (suc room)) (c ∷ text) h =
    ap (λ (t : List ℕ). c ∷ t) (printed-whole (suc room) text (omega (arith, h)))

pub ends_in_colon-last :
    (text : List ℕ)
    → 1 ≤ length text
    → ends_in_colon text ≡ (get_or text (length text - 1) 0 == b':')
unfolding ends_in_colon
ends_in_colon-last [] h = absurd (omega (arith, h))
ends_in_colon-last (c ∷ []) h = refl
ends_in_colon-last (c ∷ d ∷ text) h =
    let index : suc (suc (length text)) - 1 ≡ suc (suc (length text) - 1) = omega arith in
    rw index (ends_in_colon-last (d ∷ text) (omega arith))
