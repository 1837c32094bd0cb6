-- ===== src/Md5/Digits.antt =====
-- How long the results of src/md5.c are.
use iksemel.Base.{
  ℕ, zero, suc, ◌*◌, Bool, true, false, List, [], ◌∷◌, Bytes, length, arith, ◌≡◌, refl, length-set,
  ◌==◌, ltb, ◌∙◌, if◌then◌else◌,
}
use iksemel.Md5.{
  zeros_to, count_bits, Md5, add_states, md5_p, md5_rounds, md5_compute, md5_blocks, md5_feed,
  spill, md5_finish, md5_hash, md5_digest, md5_print,
}

length-md5_rounds :
    (f : ℕ → ℕ → ℕ → ℕ) (shifts : List ℕ) (jump t : ℕ) (x : List ℕ) (n i k p : ℕ) (r : List ℕ)
    → length (md5_rounds f shifts jump t x n i k p r) ≡ length r
unfolding md5_rounds md5_p
length-md5_rounds f shifts jump t x zero i k p r = refl
length-md5_rounds f shifts jump t x (suc n) i k p r =
    length-md5_rounds f shifts jump t x n _ _ _ _ ∙ length-set r _ _

length-add_states : (s r : List ℕ) → length (add_states s r) ≡ length s
length-add_states [] r = refl
length-add_states (a ∷ s) [] = refl
length-add_states (a ∷ s) (b ∷ r) = rw (length-add_states s r)

length-md5_compute : (m : Md5) → length (md5_compute m).state ≡ length m.state
unfolding md5_compute
length-md5_compute m = length-add_states _ _

length-md5_blocks :
    (fuel : ℕ) (m : Md5) (bs : Bytes) → length (md5_blocks fuel m bs).state ≡ length m.state
unfolding md5_blocks
length-md5_blocks fuel m [] = refl
length-md5_blocks zero m (c ∷ bs) = refl
length-md5_blocks (suc fuel) m (c ∷ bs) = length-md5_blocks fuel _ _ ∙ length-md5_compute m

-- the buffer is hashed where this holds
length-if_full :
    (full : Bool) (m : Md5)
    → length (if full then record (md5_compute m) { blen = 0 } else m).state ≡ length m.state
length-if_full true m = length-md5_compute m
length-if_full false m = refl

length-spill : (m : Md5) → length (spill m).state ≡ length m.state
unfolding spill
length-spill m =
    elim (ltb 56 m.blen)
      as (λ e.
        length (if e then record (md5_compute (zeros_to 64 m)) { blen = 0 } else m).state
        ≡ length m.state) [ true ↦ length-md5_compute (zeros_to 64 m) | false ↦ refl ]

length-md5_finish : (m : Md5) → length (md5_finish m).state ≡ length m.state
unfolding md5_finish
length-md5_finish m =
    length-md5_compute _
    ∙ length-spill _
    ∙ length-if_full (m.blen == 64) (count_bits (8 * m.blen) m)

length-md5_feed : (m : Md5) (piece : Bytes) → length (md5_feed m piece).state ≡ length m.state
unfolding md5_feed
length-md5_feed m piece = length-md5_blocks _ _ _

pub length-md5_hash :
    (m : Md5) (bs : Bytes) (n : ℕ) (finish : Bool)
    → length (md5_hash m bs n finish).state ≡ length m.state
unfolding md5_hash
length-md5_hash m bs n true = length-md5_finish _ ∙ length-md5_feed m _
length-md5_hash m bs n false = length-md5_feed m _

length-md5_digest : (s : List ℕ) → length (md5_digest s) ≡ 4 * length s
unfolding md5_digest
length-md5_digest [] = refl
length-md5_digest (w ∷ s) = omega (arith, length-md5_digest s)

length-md5_print : (s : Bytes) → length (md5_print s) ≡ 2 * length s
unfolding md5_print
length-md5_print [] = refl
length-md5_print (b ∷ s) = omega (arith, length-md5_print s)

-- The digits of any hash are 32.
pub length-digits : (s : List ℕ) → length s ≡ 4 → length (md5_print (md5_digest s)) ≡ 32
length-digits s four = omega (arith, length-md5_print (md5_digest s), length-md5_digest s)
