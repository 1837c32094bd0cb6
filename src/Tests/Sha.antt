-- ===== src/Tests/Sha.antt =====
-- The hash of "abc", from FIPS 180.
use iksemel.Base.{◌≡◌, refl, arith, List, some, [], ◌∷◌, ◌++◌, codes, strlen, Bytes}
use iksemel.Sha.Spec.{sha1}
use iksemel.Sha.Digest.{hash_pieces, message, Pieces, sha_hash-sha1}
use iksemel.Sha.{
  Sha, sha_reset, srl, expand, sha_rounds, all_rounds, sha_calculate, sha_byte, sha_buffer,
  pad_zeros, sha_finish, sha_hash, sha_print, iks_sha,
}

hash_abc : iks_sha (codes "abc" ++ 0 ∷ []) ≡ some (codes "a9993e364706816aba3e25717850c26c9cd0d89d")
unfolding srl expand sha_rounds all_rounds sha_calculate sha_byte sha_buffer pad_zeros sha_finish
    sha_hash sha_print iks_sha strlen
hash_abc = refl

abbrev two_pieces : List Bytes
two_pieces = codes "ab" ∷ codes "c" ∷ []

two_pieces-Pieces : Pieces two_pieces
two_pieces-Pieces =
    ((omega arith, (omega arith, tt)), omega arith, ((omega arith, tt), omega arith, tt))

sha_hash-sha1_example :
    (s : Sha) × (hash_pieces sha_reset two_pieces ≡ some s) × (s.hash ≡ sha1 (message two_pieces))
sha_hash-sha1_example = sha_hash-sha1 two_pieces two_pieces-Pieces
