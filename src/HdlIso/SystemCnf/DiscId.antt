-- ===== src/HdlIso/SystemCnf/DiscId.antt =====
-- The disc id that is made of the name of a start-up program.
use fhdb_bootstrap_manager.Common.{
  ℕ, zero, suc, ◌+◌, ◌-◌, ◌≤◌, ◌<◌, ◌≡◌, refl, subst, Bool, true, false, not, ◌&&◌, ◌||◌, ◌!=◌,
  if◌then◌else◌, arith,
}
use fhdb_bootstrap_manager.Common.Bytes.{Bytes}
use fhdb_bootstrap_manager.HdlIso.{is_digit, is_alnum}
use fhdb_bootstrap_manager.HdlIso.SystemCnf.{text_length, startup_chars, valid_startup, disc_id_of}

-- Four letters or digits, a dash, five digits, and the end of the text.
pub record IsDiscId (text : Bytes) : Type 0 where
  pub letters : (i : ℕ) → i < 4 → is_alnum (text i) ≡ true
  pub dash : text 4 ≡ b'-'
  pub digits : (i : ℕ) → 5 ≤ i → i < 10 → is_digit (text i) ≡ true
  pub ends : (i : ℕ) → 10 ≤ i → text i ≡ 0

pub else_true : (b c : Bool) → (if b then false else c) ≡ true → c ≡ true
else_true false c h = h
else_true true c h = ground (arith, h)

module _ (a b c d e f g h i : Bool) where
  all_true :
      (a && b && c && d && e && f && g && h && i) ≡ true
      → (a ≡ true)
        × (b ≡ true)
        × (c ≡ true)
        × (d ≡ true)
        × (e ≡ true)
        × (f ≡ true)
        × (g ≡ true)
        × (h ≡ true)
        × (i ≡ true)
  all_true t = ground (arith, t)

pub disc_id_of-IsDiscId :
    (startup : Bytes) → valid_startup startup ≡ true → IsDiscId (disc_id_of startup)
unfolding valid_startup
disc_id_of-IsDiscId startup v =
    let (c0, c1, c2, c3, d5, d6, d7, d9, d10) =
      all_true (is_alnum (startup 0)) (is_alnum (startup 1)) (is_alnum (startup 2))
        (is_alnum (startup 3)) (is_digit (startup 5)) (is_digit (startup 6)) (is_digit (startup 7))
        (is_digit (startup 9)) (is_digit (startup 10))
        (else_true (text_length startup != 11 || startup 4 != b'_' || startup 8 != b'.')
          (startup_chars startup) v) in
    record {
      letters = λ i h. letter c0 c1 c2 c3 i h;
      dash = refl;
      digits = λ i l h.
          let back : 5 + (i - 5) ≡ i = omega arith in
          subst (λ k. is_digit (disc_id_of startup k) ≡ true) back
            (digit d5 d6 d7 d9 d10 (i - 5) (omega arith));
      ends = λ i h. ground (arith, h);
    }
  where
    letter :
        is_alnum (startup 0) ≡ true
        → is_alnum (startup 1) ≡ true
        → is_alnum (startup 2) ≡ true
        → is_alnum (startup 3) ≡ true
        → (i : ℕ) → i < 4
        → is_alnum (disc_id_of startup i) ≡ true
    letter c0 c1 c2 c3 zero h = c0
    letter c0 c1 c2 c3 (suc zero) h = c1
    letter c0 c1 c2 c3 (suc (suc zero)) h = c2
    letter c0 c1 c2 c3 (suc (suc (suc zero))) h = c3
    letter c0 c1 c2 c3 (suc (suc (suc (suc i)))) h = absurd (omega arith)

    digit :
        is_digit (startup 5) ≡ true
        → is_digit (startup 6) ≡ true
        → is_digit (startup 7) ≡ true
        → is_digit (startup 9) ≡ true
        → is_digit (startup 10) ≡ true
        → (j : ℕ) → j < 5
        → is_digit (disc_id_of startup (5 + j)) ≡ true
    digit d5 d6 d7 d9 d10 zero h = d5
    digit d5 d6 d7 d9 d10 (suc zero) h = d6
    digit d5 d6 d7 d9 d10 (suc (suc zero)) h = d7
    digit d5 d6 d7 d9 d10 (suc (suc (suc zero))) h = d9
    digit d5 d6 d7 d9 d10 (suc (suc (suc (suc zero)))) h = d10
    digit d5 d6 d7 d9 d10 (suc (suc (suc (suc (suc j))))) h = absurd (omega arith)

pub guards_pass :
    (n a b : ℕ) (c : Bool)
    → (if n != 11 || a != b'_' || b != b'.' then false else c) ≡ true
    → (n ≡ 11) × (a ≡ b'_') × (b ≡ b'.')
guards_pass n a b c h = ground (arith, h)

pub key_found : (a b : Bool) → (a || not b) ≡ false → b ≡ true
key_found a b h = ground (arith, h)

pub sign_found : (a : Bool) (c : ℕ) → (a || c != b'=') ≡ false → c ≡ b'='
sign_found a c h = ground (arith, h)

pub valid-guards :
    (startup : Bytes)
    → valid_startup startup ≡ true
    → (text_length startup ≡ 11) × (startup 4 ≡ b'_') × (startup 8 ≡ b'.')
unfolding valid_startup
valid-guards startup v =
    guards_pass (text_length startup) (startup 4) (startup 8) (startup_chars startup) v

-- The disc id is the name with a dash for its underscore and without its dot.
pub record IsIdOf (startup id : Bytes) : Type 0 where
  pub separators : (startup 4 ≡ b'_') × (startup 8 ≡ b'.')
  pub letters : (i : ℕ) → i < 4 → id i ≡ startup i
  pub first_digits : (i : ℕ) → i < 3 → id (5 + i) ≡ startup (5 + i)
  pub last_digits : (i : ℕ) → i < 2 → id (8 + i) ≡ startup (9 + i)

pub disc_id_of-IsIdOf :
    (startup : Bytes) → valid_startup startup ≡ true → IsIdOf startup (disc_id_of startup)
disc_id_of-IsIdOf startup v =
    let (long, low, dot) = valid-guards startup v in
    record {
      separators = (low, dot);
      letters = λ i h. ground (arith, h);
      first_digits = λ i h. let back : 5 + i - 5 ≡ i = omega arith in ground (arith, h);
      last_digits = λ i h. ground (arith, h);
    }
