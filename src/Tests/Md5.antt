-- ===== src/Tests/Md5.antt =====
-- The hashes of RFC 1321.
use iksemel.Base.{◌≡◌, refl, arith, true, false, [], ◌∷◌, ◌++◌, codes, strlen}
use iksemel.Md5.{md5_reset}
use iksemel.Md5.Pieces.{md5_hash-append}
use iksemel.Md5.{
  md5_p, md5_rounds, md5_compute, md5_blocks, md5_feed, spill, md5_finish, md5_hash, md5_digest,
  md5_print, iks_md5,
}

running : Unit {0}
unfolding md5_p md5_rounds md5_compute md5_blocks md5_feed spill md5_finish md5_hash md5_digest
    md5_print iks_md5 strlen
running = tt

hash_abc : iks_md5 (codes "abc" ++ 0 ∷ []) ≡ codes "900150983cd24fb0d6963f7d28e17f72"
unfolding running
hash_abc = refl

hash_digits :
    iks_md5 (
      codes "12345678901234567890123456789012345678901234567890123456789012345678901234567890"
      ++ 0 ∷ [])
    ≡ codes "57edf4a22be3c955ac49da2e2107b67a"
unfolding running
hash_digits = refl

md5_hash-append_example :
    md5_hash (md5_hash md5_reset (codes "ab") 2 false) (codes "c") 1 true
    ≡ md5_hash md5_reset (codes "abc") 3 true
md5_hash-append_example =
    md5_hash-append md5_reset (codes "ab") (codes "c") true (omega arith) (omega arith)
