-- ===== src/Sha.antt =====
-- src/sha.c. An `unsigned int` has 32 bits; `hash` and `buf` are the lists of the arrays' elements.
pub mod Spec
mod Rounds
mod Step
mod Stream
pub mod Digest
use iksemel.Base.{
  ℕ, zero, suc, ◌+◌, ◌-◌, ◌*◌, ◌/◌, ◌%◌, ◌^◌, bit_and, bit_or, bit_xor, Bool, true, false, not,
  ◌==◌, ltb, if◌then◌else◌, Option, none, some, List, [], ◌∷◌, ◌++◌, Bytes, codes, get_or, set,
  take, replicate, strlen, int_of_size,
}

-- `struct iksha_struct`
pub record Sha : Type 0 where
  pub hash : List ℕ
  pub buf : List ℕ
  pub blen : ℕ
  pub lenhi : ℕ
  pub lenlo : ℕ

-- what `iks_sha_reset` makes of any contents
abbrev pub sha_reset : Sha
sha_reset = record {
  hash = 0x67452301 ∷ 0xefcdab89 ∷ 0x98badcfe ∷ 0x10325476 ∷ 0xc3d2e1f0 ∷ [];
  buf = replicate 80 0;
  blen = 0;
  lenhi = 0;
  lenlo = 0;
}

-- the sum of 32 bits
abbrev pub add : ℕ → ℕ → ℕ
add a b = (a + b) % 2 ^ 32

-- `SRL`, a rotation to the left
unfoldable pub srl : ℕ → ℕ → ℕ
srl x y = bit_or (x * 2 ^ y % 2 ^ 32) (x / 2 ^ (32 - y))

-- The first loop of `sha_calculate`, with `n` words to come from place `i` on.
unfoldable pub expand : ℕ → ℕ → List ℕ → List ℕ
unfolding srl
expand zero i buf = buf
expand (suc n) i buf =
    let word =
      srl
        (bit_xor
          (bit_xor (bit_xor (get_or buf (i - 3) 0) (get_or buf (i - 8) 0)) (get_or buf (i - 14) 0))
          (get_or buf (i - 16) 0))
        1 in
    expand n (i + 1) (set buf i word)

-- the locals of `sha_calculate`
pub record Regs : Type 0 where
  pub a : ℕ
  pub b : ℕ
  pub c : ℕ
  pub d : ℕ
  pub e : ℕ

abbrev pub choose : Regs → ℕ
choose r = bit_xor (bit_and (bit_xor r.c r.d) r.b) r.d

abbrev pub parity : Regs → ℕ
parity r = bit_xor (bit_xor r.b r.c) r.d

abbrev pub majority : Regs → ℕ
majority r = bit_or (bit_and r.b r.c) (bit_and r.d (bit_or r.b r.c))

-- The macro `SHA`, with `n` rounds to come from place `i` on.
unfoldable pub sha_rounds : (Regs → ℕ) → ℕ → ℕ → ℕ → List ℕ → Regs → Regs
unfolding srl
sha_rounds f k zero i buf r = r
sha_rounds f k (suc n) i buf r = sha_rounds f k n (i + 1) buf (record {
  a = add (add (add (add (srl r.a 5) (f r)) r.e) (get_or buf i 0)) k;
  b = r.a;
  c = srl r.b 30;
  d = r.c;
  e = r.d;
})

abbrev pub regs_of : List ℕ → Regs
regs_of h = record {
  a = get_or h 0 0;
  b = get_or h 1 0;
  c = get_or h 2 0;
  d = get_or h 3 0;
  e = get_or h 4 0;
}

-- the four uses of `SHA`
unfoldable pub all_rounds : List ℕ → Regs → Regs
all_rounds buf r = sha_rounds parity 0xca62c1d6 20 60 buf (
    sha_rounds majority 0x8f1bbcdc 20 40 buf
      (sha_rounds parity 0x6ed9eba1 20 20 buf (sha_rounds choose 0x5a827999 20 0 buf r)))

-- `sha_calculate`
unfoldable pub sha_calculate : Sha → Sha
sha_calculate s =
    let buf' = expand 64 16 s.buf in
    let r = all_rounds buf' (regs_of s.hash) in
    record s {
      buf = buf';
      hash =
          add (get_or s.hash 0 0) r.a
          ∷ add (get_or s.hash 1 0) r.b
          ∷ add (get_or s.hash 2 0) r.c
          ∷ add (get_or s.hash 3 0) r.d
          ∷ add (get_or s.hash 4 0) r.e
          ∷ [];
    }

-- one round of the loop of `sha_buffer`
unfoldable pub sha_byte : Sha → ℕ → Sha
sha_byte s byte =
    let i = s.blen / 4 in
    let q = record s {
      buf = set s.buf i (bit_or (get_or s.buf i 0 * 2 ^ 8 % 2 ^ 32) byte);
      blen = s.blen + 1;
    } in
    let q' = if q.blen % 64 == 0 then record (sha_calculate q) { blen = 0 } else q in
    let lo = add q'.lenlo 8 in
    record q' { lenlo = lo; lenhi = add q'.lenhi (if ltb lo 8 then 1 else 0) }

-- `sha_buffer`
unfoldable pub sha_buffer : Sha → Bytes → Sha
sha_buffer s [] = s
sha_buffer s (byte ∷ rest) = sha_buffer (sha_byte s byte) rest

-- `while (sha->blen != 56) sha_buffer (sha, &padc, 1);` on fuel, `none` where that runs out
unfoldable pub pad_zeros : ℕ → Sha → Option Sha
pad_zeros zero s = none
pad_zeros (suc fuel) s = if s.blen == 56 then some s else pad_zeros fuel (sha_byte s 0)

-- the bytes of a 32-bit word, the highest first
abbrev pub word_bytes : ℕ → Bytes
word_bytes w = w / 2 ^ 24 % 2 ^ 8 ∷ w / 2 ^ 16 % 2 ^ 8 ∷ w / 2 ^ 8 % 2 ^ 8 ∷ w % 2 ^ 8 ∷ []

-- `iks_sha_hash` with `finish` behind the data
unfoldable pub sha_finish : Sha → Option Sha
sha_finish s =
    let pad = word_bytes s.lenhi ++ word_bytes s.lenlo in
    elim (pad_zeros 64 (sha_byte s 0x80)) [ none ↦ none | some q ↦ some (sha_buffer q pad) ]

-- `iks_sha_hash`
unfoldable pub sha_hash : Sha → Option Bytes → ℕ → Bool → Option Sha
sha_hash s text len finish =
    let fed : Sha = elim text [
      | none ↦ s
      | some area ↦ sha_buffer s (take (int_of_size len) area)
    ] in
    if finish then sha_finish fed else some fed

-- `%08x`
abbrev pub hex_digit : ℕ → ℕ
hex_digit d = get_or (codes "0123456789abcdef") d 0

abbrev pub hex_word : ℕ → ℕ → Bytes
hex_word zero w = []
hex_word (suc n) w = hex_word n (w / 16) ++ hex_digit (w % 16) ∷ []

-- `iks_sha_print`
unfoldable pub sha_print : List ℕ → Bytes
sha_print [] = []
sha_print (w ∷ hash) = hex_word 8 w ++ sha_print hash

-- `iks_sha`: the digits of the hash of a string
unfoldable pub iks_sha : Bytes → Option Bytes
iks_sha area = elim (sha_hash sha_reset (some area) (strlen area) true) [
  | none ↦ none
  | some s ↦ some (sha_print s.hash)
]

-- `iks_sha_new`, which asks for `sizeof (iksha)` bytes
unfoldable pub sha_new : (ℕ → Bool) → Option Sha
sha_new malloc = if malloc 352 then some sha_reset else none
