-- ===== src/Sha256/Vectors.antt =====
-- The published digests of two short messages.
use fhdb_bootstrap_manager.Common.{◌≡◌, refl}
use fhdb_bootstrap_manager.Common.Bytes.{codes}
use fhdb_bootstrap_manager.Sha256.{
  next_word, round, read_be32, small_sigma0, small_sigma1, rotate_right, sha256_buffer, sha256_hex,
  sha256_update, sha256_final, digest_of, fill_partial, whole_blocks, keep_rest, transform, rounds,
  add_states, be32_bytes,
}

sha256_abc :
    sha256_hex (sha256_buffer (codes "abc"))
    ≡ codes "ba7816bf8f01cfea414140de5dae2223b00361a396177a9cb410ff61f20015ad"
unfolding next_word round read_be32 small_sigma0 small_sigma1 rotate_right sha256_buffer
    sha256_update sha256_final digest_of fill_partial whole_blocks keep_rest transform rounds
    add_states be32_bytes sha256_hex
sha256_abc = refl

sha256_two_blocks :
    sha256_hex (sha256_buffer (codes "abcdbcdecdefdefgefghfghighijhijkijkljklmklmnlmnomnopnopq"))
    ≡ codes "248d6a61d20638b8e5c026930c3e6039a33ce45964ff2167f6ecedd419db06c1"
unfolding next_word round read_be32 small_sigma0 small_sigma1 rotate_right sha256_buffer
    sha256_update sha256_final digest_of fill_partial whole_blocks keep_rest transform rounds
    add_states be32_bytes sha256_hex
sha256_two_blocks = refl
