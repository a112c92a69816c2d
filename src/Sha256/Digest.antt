-- ===== src/Sha256/Digest.antt =====
-- A digest is an array of 32 bytes.
use fhdb_bootstrap_manager.Common.{ℕ, zero, suc, refl, List, [], ◌∷◌, ◌++◌, length, arith}
use fhdb_bootstrap_manager.Common.Bytes.{IsBytes, of_list}
use fhdb_bootstrap_manager.Common.Arrays.{IsArray}
use fhdb_bootstrap_manager.Sha256.{State, be32_bytes, digest_of, sha256_final, sha256_buffer}

list-IsArray : (xs : List ℕ) → IsArray (length xs) (of_list xs)
list-IsArray [] i h = refl
list-IsArray (x ∷ xs) zero h = absurd (omega arith)
list-IsArray (x ∷ xs) (suc i) h = list-IsArray xs i (omega arith)

append-IsBytes :
    (xs ys : List ℕ) → IsBytes (of_list xs) → IsBytes (of_list ys) → IsBytes (of_list (xs ++ ys))
append-IsBytes [] ys a b i = b i
append-IsBytes (x ∷ xs) ys a b zero = a 0
append-IsBytes (x ∷ xs) ys a b (suc i) = append-IsBytes xs ys (λ j. a (suc j)) b i

be32-IsBytes : (v : ℕ) → IsBytes (of_list (be32_bytes v))
unfolding be32_bytes
be32-IsBytes v zero = omega arith
be32-IsBytes v (suc zero) = omega arith
be32-IsBytes v (suc (suc zero)) = omega arith
be32-IsBytes v (suc (suc (suc zero))) = omega arith
be32-IsBytes v (suc (suc (suc (suc i)))) = omega arith

digest-IsBytes : (s : State) → IsBytes (of_list (digest_of s))
unfolding digest_of
digest-IsBytes s =
    append-IsBytes _ _
      (append-IsBytes _ _
        (append-IsBytes _ _
          (append-IsBytes _ _
            (append-IsBytes _ _
              (append-IsBytes _ _ (append-IsBytes _ _ (be32-IsBytes s.a) (be32-IsBytes s.b))
                (be32-IsBytes s.c))
              (be32-IsBytes s.d))
            (be32-IsBytes s.e))
          (be32-IsBytes s.f))
        (be32-IsBytes s.g))
      (be32-IsBytes s.h)

digest-IsArray : (s : State) → IsArray 32 (of_list (digest_of s))
unfolding digest_of be32_bytes
digest-IsArray s = list-IsArray (digest_of s)

pub buffer-IsBytes : (xs : List ℕ) → IsBytes (of_list (sha256_buffer xs))
unfolding sha256_buffer sha256_final
buffer-IsBytes xs = digest-IsBytes _

pub buffer-IsArray : (xs : List ℕ) → IsArray 32 (of_list (sha256_buffer xs))
unfolding sha256_buffer sha256_final
buffer-IsArray xs = digest-IsArray _
