-- ===== src/Witnesses/Hashes.antt =====
-- The digest of three bytes.
use fhdb_bootstrap_manager.Common.{ℕ, ◌≡◌, List, [], ◌∷◌, ◌++◌, length}
use fhdb_bootstrap_manager.Common.Bytes.{of_list, codes}
use fhdb_bootstrap_manager.Sha256.{
  initial_state, transform, sha256_init, sha256_update, sha256_final, digest_of,
}
use fhdb_bootstrap_manager.Sha256.Stream.{absorb, start}
use fhdb_bootstrap_manager.Sha256.Fill.{Represents}
use fhdb_bootstrap_manager.Sha256.Update.{update_absorbs, init-Represents}
use fhdb_bootstrap_manager.Sha256.Padding.{padding, join, update_pieces, pieces_digest}
use fhdb_bootstrap_manager.Sha256.Schedule.{standard_transform, transform_standard}

transform_standard_example :
    transform initial_state (of_list (codes "abc"))
    ≡ standard_transform initial_state (of_list (codes "abc"))
transform_standard_example = transform_standard initial_state (of_list (codes "abc"))

update_absorbs_example :
    Represents (sha256_update sha256_init (codes "abc")) (absorb start (codes "abc"))
update_absorbs_example = update_absorbs sha256_init start (codes "abc") init-Represents

abbrev pieces : List (List ℕ)
pieces = codes "ab" ∷ codes "c" ∷ []

pieces_digest_example :
    sha256_final (update_pieces sha256_init pieces)
    ≡ digest_of (absorb start (join pieces ++ padding (length (join pieces)))).state
pieces_digest_example = pieces_digest pieces
