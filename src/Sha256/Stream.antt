-- ===== src/Sha256/Stream.antt =====
-- The reference for the streaming hash: one byte at a time, a transform whenever 64 are pending.
use fhdb_bootstrap_manager.Common.{
  ℕ, zero, suc, ◌+◌, ◌*◌, ◌<◌, ◌≡◌, refl, ap, ◌∙◌, List, [], ◌∷◌, ◌++◌, arith, ◌==◌, if◌then◌else◌,
  length, length-append,
}
use mathlib.Core.List.{append-nil, append_assoc}
use native.Mathlib.Decide.{dec_lt}
use fhdb_bootstrap_manager.Common.Bytes.{Bytes, shift, zeros, of_list}
use fhdb_bootstrap_manager.Sha256.{
  State, next_word, rounds, store_word, transform, add_states, read_be32, initial_state,
}

read_be32-congr :
    (a b : Bytes) → a 0 ≡ b 0 → a 1 ≡ b 1 → a 2 ≡ b 2 → a 3 ≡ b 3 → read_be32 a ≡ read_be32 b
unfolding read_be32
read_be32-congr a b e0 e1 e2 e3 = rw (e0, e1, e2, e3)

next_word-congr :
    (i : ℕ) (a b schedule : Bytes)
    → ((j : ℕ) → j < 64 → a j ≡ b j)
    → next_word i a schedule ≡ next_word i b schedule
unfolding next_word
next_word-congr i a b schedule h = elim (dec_lt i 16) [
  | yes early ↦ ground (
    arith,
    read_be32-congr (shift a (i * 4)) (shift b (i * 4)) (h _ (omega arith)) (h _ (omega arith))
        (h _ (omega arith)) (h _ (omega arith)),
  )
  | no late ↦ ground arith
]

rounds-congr :
    (left i : ℕ) (a b schedule : Bytes) (s : State)
    → ((j : ℕ) → j < 64 → a j ≡ b j)
    → rounds left i a schedule s ≡ rounds left i b schedule s
unfolding rounds
rounds-congr zero i a b schedule s h = refl
rounds-congr (suc left) i a b schedule s h =
    rw (next_word-congr i a b schedule h)
      (rounds-congr left (i + 1) a b (store_word i (next_word i b schedule) schedule) _ h)

-- A transform reads the 64 bytes of its block and no others.
pub transform-congr :
    (s : State) (a b : Bytes) → ((j : ℕ) → j < 64 → a j ≡ b j) → transform s a ≡ transform s b
unfolding transform
transform-congr s a b h = ap (add_states s) (rounds-congr 64 0 a b zeros s h)

-- The state, and the bytes not yet hashed.
pub record Progress : Type 0 where
  pub state : State
  pub pending : List ℕ

abbrev pub absorb_byte : Progress → ℕ → Progress
absorb_byte p x =
    if length p.pending + 1 == 64
    then record { state = transform p.state (of_list (p.pending ++ x ∷ [])); pending = [] }
    else record p { pending = p.pending ++ x ∷ [] }

unfoldable pub absorb : Progress → List ℕ → Progress
absorb p [] = p
absorb p (x ∷ xs) = absorb (absorb_byte p x) xs

abbrev pub start : Progress
start = record { state = initial_state; pending = [] }

pub absorb-nil : (p : Progress) → absorb p [] ≡ p
unfolding absorb
absorb-nil p = refl

pub absorb-append : (p : Progress) (xs ys : List ℕ) → absorb p (xs ++ ys) ≡ absorb (absorb p xs) ys
unfolding absorb
absorb-append p [] ys = refl
absorb-append p (x ∷ xs) ys = absorb-append (absorb_byte p x) xs ys

absorb_byte_keeps :
    (s : State) (p : List ℕ) (x : ℕ)
    → length p + 1 < 64
    → absorb_byte (record { state = s; pending = p }) x
      ≡ record { state = s; pending = p ++ x ∷ [] }
absorb_byte_keeps s p x h = ground arith

absorb_byte_closes :
    (s : State) (p : List ℕ) (x : ℕ)
    → length p + 1 ≡ 64
    → absorb_byte (record { state = s; pending = p }) x
      ≡ record { state = transform s (of_list (p ++ x ∷ [])); pending = [] }
absorb_byte_closes s p x h = ground arith

-- Too few bytes to fill the block are kept.
pub absorb_short :
    (s : State) (p xs : List ℕ)
    → length p + length xs < 64
    → absorb (record { state = s; pending = p }) xs ≡ record { state = s; pending = p ++ xs }
unfolding absorb
absorb_short s p [] h = rw append-nil
absorb_short s p (x ∷ xs) h = rw (absorb_byte_keeps s p x (omega arith)) (
    absorb_short s (p ++ x ∷ []) xs (omega (arith, length-append p (x ∷ [])))
    ∙ ap (λ q. record { state = s; pending = q }) (append_assoc p (x ∷ []) xs))

-- Just enough bytes close it.
pub absorb_full :
    (s : State) (p xs : List ℕ)
    → length p + length xs ≡ 64
    → 0 < length xs
    → absorb (record { state = s; pending = p }) xs
      ≡ record { state = transform s (of_list (p ++ xs)); pending = [] }
unfolding absorb
absorb_full s p [] h n = absurd (omega arith)
absorb_full s p (x ∷ []) h n = rw (absorb_byte_closes s p x (omega arith))
absorb_full s p (x ∷ y ∷ xs) h n = rw (absorb_byte_keeps s p x (omega arith)) (
    absorb_full s (p ++ x ∷ []) (y ∷ xs) (omega (arith, length-append p (x ∷ []))) (omega arith)
    ∙ ap (λ q. record { state = transform s (of_list q); pending = [] })
        (append_assoc p (x ∷ []) (y ∷ xs)))
