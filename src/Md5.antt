-- ===== src/Md5.antt =====
-- src/md5.c where an `unsigned long` has 64 bits: words keep what is carried above their 32 bits,
-- and only their low halves are written out.
pub mod Pieces
pub mod Digits
use iksemel.Base.{
  Option, some, none, store, ℕ, zero, suc, ◌+◌, ◌-◌, ◌*◌, ◌/◌, ◌%◌, ◌^◌, bit_and, bit_or, bit_xor,
  Bool, true, false, ◌==◌, ltb, if◌then◌else◌, Option, none, some, List, [], ◌∷◌, ◌++◌, Bytes,
  codes, length, get_or, set, take, drop, replicate, strlen, int_of_size,
}

-- `struct iksmd5_struct`; `low` and `high` are the two elements of `total`.
pub record Md5 : Type 0 where
  pub low : ℕ
  pub high : ℕ
  pub state : List ℕ
  pub buffer : Bytes
  pub blen : ℕ

-- `T`
abbrev pub sines : List ℕ
sines =
    0xd76aa478 ∷ 0xe8c7b756 ∷ 0x242070db ∷ 0xc1bdceee ∷ 0xf57c0faf ∷ 0x4787c62a ∷ 0xa8304613
    ∷ 0xfd469501 ∷ 0x698098d8 ∷ 0x8b44f7af ∷ 0xffff5bb1 ∷ 0x895cd7be ∷ 0x6b901122 ∷ 0xfd987193
    ∷ 0xa679438e ∷ 0x49b40821 ∷ 0xf61e2562 ∷ 0xc040b340 ∷ 0x265e5a51 ∷ 0xe9b6c7aa ∷ 0xd62f105d
    ∷ 0x02441453 ∷ 0xd8a1e681 ∷ 0xe7d3fbc8 ∷ 0x21e1cde6 ∷ 0xc33707d6 ∷ 0xf4d50d87 ∷ 0x455a14ed
    ∷ 0xa9e3e905 ∷ 0xfcefa3f8 ∷ 0x676f02d9 ∷ 0x8d2a4c8a ∷ 0xfffa3942 ∷ 0x8771f681 ∷ 0x6d9d6122
    ∷ 0xfde5380c ∷ 0xa4beea44 ∷ 0x4bdecfa9 ∷ 0xf6bb4b60 ∷ 0xbebfbc70 ∷ 0x289b7ec6 ∷ 0xeaa127fa
    ∷ 0xd4ef3085 ∷ 0x04881d05 ∷ 0xd9d4d039 ∷ 0xe6db99e5 ∷ 0x1fa27cf8 ∷ 0xc4ac5665 ∷ 0xf4292244
    ∷ 0x432aff97 ∷ 0xab9423a7 ∷ 0xfc93a039 ∷ 0x655b59c3 ∷ 0x8f0ccc92 ∷ 0xffeff47d ∷ 0x85845dd1
    ∷ 0x6fa87e4f ∷ 0xfe2ce6e0 ∷ 0xa3014314 ∷ 0x4e0811a1 ∷ 0xf7537e82 ∷ 0xbd3af235 ∷ 0x2ad7d2bb
    ∷ 0xeb86d391 ∷ []

-- what `iks_md5_reset` makes of any contents
abbrev pub md5_reset : Md5
md5_reset = record {
  low = 0;
  high = 0;
  state = 0x67452301 ∷ 0xefcdab89 ∷ 0x98badcfe ∷ 0x10325476 ∷ [];
  buffer = replicate 64 0;
  blen = 0;
}

-- the sum of 64 bits
abbrev pub add_long : ℕ → ℕ → ℕ
add_long a b = (a + b) % 2 ^ 64

-- `GET_UINT32`
abbrev pub get_uint32 : Bytes → ℕ → ℕ
get_uint32 b i =
    bit_or
      (bit_or (bit_or (get_or b i 0) (get_or b (i + 1) 0 * 2 ^ 8)) (get_or b (i + 2) 0 * 2 ^ 16))
      (get_or b (i + 3) 0 * 2 ^ 24)

-- what `PUT_UINT32` writes
abbrev pub put_uint32 : ℕ → Bytes
put_uint32 n = n % 2 ^ 8 ∷ n / 2 ^ 8 % 2 ^ 8 ∷ n / 2 ^ 16 % 2 ^ 8 ∷ n / 2 ^ 24 % 2 ^ 8 ∷ []

-- `F`, `G`, `H` and `I`
abbrev pub md5_f : ℕ → ℕ → ℕ → ℕ
md5_f x y z = bit_xor z (bit_and x (bit_xor y z))

abbrev pub md5_g : ℕ → ℕ → ℕ → ℕ
md5_g x y z = bit_xor y (bit_and z (bit_xor x y))

abbrev pub md5_h : ℕ → ℕ → ℕ → ℕ
md5_h x y z = bit_xor (bit_xor x y) z

abbrev pub md5_i : ℕ → ℕ → ℕ → ℕ
md5_i x y z = bit_xor y (bit_or x (2 ^ 64 - 1 - z))

-- `S`
abbrev pub md5_s : ℕ → ℕ → ℕ
md5_s x n = bit_or (x * 2 ^ n % 2 ^ 64) (x % 2 ^ 32 / 2 ^ (32 - n))

-- `P`
unfoldable pub md5_p : List ℕ → List ℕ → ℕ → (ℕ → ℕ → ℕ → ℕ) → ℕ → ℕ → ℕ → List ℕ
md5_p x r i f k s t =
    let next = get_or r ((i + 1) % 4) 0 in
    let mixed = f next (get_or r ((i + 2) % 4) 0) (get_or r ((i + 3) % 4) 0) in
    let sum = add_long (get_or r i 0) (add_long (add_long mixed (get_or x k 0)) t) in
    set r i (add_long (md5_s sum s) next)

-- One of the four loops, with `n` rounds to come: `p` goes on by `jump`, `t` is the base in `T`.
unfoldable pub md5_rounds :
    (ℕ → ℕ → ℕ → ℕ) → List ℕ → ℕ → ℕ → List ℕ → ℕ → ℕ → ℕ → ℕ → List ℕ → List ℕ
unfolding md5_p
md5_rounds f shifts jump t x zero i k p r = r
md5_rounds f shifts jump t x (suc n) i k p r =
    md5_rounds f shifts jump t x n (i + 1) ((k + 3) % 4) ((p + jump) % 16)
      (md5_p x r k f p (get_or shifts (i % 4) 0) (get_or sines (i + t) 0))

-- the first loop, with `n` words to come
abbrev pub md5_words : ℕ → ℕ → Bytes → List ℕ
md5_words zero i b = []
md5_words (suc n) i b = get_uint32 b (i * 4) ∷ md5_words n (i + 1) b

-- the last loop
abbrev pub add_states : List ℕ → List ℕ → List ℕ
add_states [] r = []
add_states (s ∷ ss) [] = s ∷ ss
add_states (s ∷ ss) (a ∷ r) = add_long s a ∷ add_states ss r

-- `iks_md5_compute`
unfoldable pub md5_compute : Md5 → Md5
md5_compute m =
    let x = md5_words 16 0 m.buffer in
    let r1 = md5_rounds md5_f (7 ∷ 12 ∷ 17 ∷ 22 ∷ []) 1 0 x 16 0 0 0 m.state in
    let r2 = md5_rounds md5_g (5 ∷ 9 ∷ 14 ∷ 20 ∷ []) 5 16 x 16 0 0 1 r1 in
    let r3 = md5_rounds md5_h (4 ∷ 11 ∷ 16 ∷ 23 ∷ []) 3 32 x 16 0 0 5 r2 in
    let r4 = md5_rounds md5_i (6 ∷ 10 ∷ 15 ∷ 21 ∷ []) 7 48 x 16 0 0 0 r3 in
    record m { state = add_states m.state r4 }

-- `total[0] += n; total[1] += (total[0] < n);`
abbrev pub count_bits : ℕ → Md5 → Md5
count_bits n m =
    let low = add_long m.low n in
    record m { low = low; high = add_long m.high (if ltb low n then 1 else 0) }

-- `while (len > 0)`; a round takes at least one byte, and the fuel is the number of the bytes.
unfoldable pub md5_blocks : ℕ → Md5 → Bytes → Md5
md5_blocks fuel m [] = m
md5_blocks zero m (c ∷ data') = m
md5_blocks (suc fuel) m (c ∷ data') =
    let m' = count_bits (8 * 64) (record (md5_compute m) { blen = 0 }) in
    let piece = take 64 (c ∷ data') in
    md5_blocks fuel (record m' { buffer = store m'.buffer 0 piece; blen = length piece })
      (drop 64 (c ∷ data'))

-- `iks_md5_hash` without `finish`
unfoldable pub md5_feed : Md5 → Bytes → Md5
md5_feed m data' =
    let piece = take (64 - m.blen) data' in
    md5_blocks (length data')
      (record m { buffer = store m.buffer m.blen piece; blen = m.blen + length piece })
      (drop (64 - m.blen) data')

-- zeros up to this place
abbrev pub zeros_to : ℕ → Md5 → Md5
zeros_to n m = record m { buffer = store m.buffer m.blen (replicate (n - m.blen) 0); blen = n }

-- `if (md5->blen > 56) { … }`
unfoldable pub spill : Md5 → Md5
spill m = if ltb 56 m.blen then record (md5_compute (zeros_to 64 m)) { blen = 0 } else m

-- what `finish` adds
unfoldable pub md5_finish : Md5 → Md5
md5_finish m =
    let a = count_bits (8 * m.blen) m in
    let b = if a.blen == 64 then record (md5_compute a) { blen = 0 } else a in
    let c = spill (record b { buffer = store b.buffer b.blen (0x80 ∷ []); blen = b.blen + 1 }) in
    let d = zeros_to 56 c in
    md5_compute (record d { buffer = store d.buffer 56 (put_uint32 d.low ++ put_uint32 d.high) })

-- `iks_md5_hash`
unfoldable pub md5_hash : Md5 → Bytes → ℕ → Bool → Md5
md5_hash m area slen finish =
    let fed = md5_feed m (take (int_of_size slen) area) in if finish then md5_finish fed else fed

-- `iks_md5_digest`
unfoldable pub md5_digest : List ℕ → Bytes
md5_digest [] = []
md5_digest (w ∷ state) = put_uint32 w ++ md5_digest state

-- `iks_md5_print`
abbrev pub hex_byte : ℕ → Bytes
hex_byte b =
    get_or (codes "0123456789abcdef") (b / 16) 0 ∷ get_or (codes "0123456789abcdef") (b % 16) 0 ∷ []

unfoldable pub md5_print : Bytes → Bytes
md5_print [] = []
md5_print (b ∷ digest) = hex_byte b ++ md5_print digest

-- `iks_md5`: the digits of the hash of a string
unfoldable pub iks_md5 : Bytes → Bytes
iks_md5 area = md5_print (md5_digest (md5_hash md5_reset area (strlen area) true).state)

-- `iks_md5_new`, which asks for `sizeof (iksmd5)` bytes
unfoldable pub md5_new : (ℕ → Bool) → Option Md5
md5_new malloc = if malloc 120 then some md5_reset else none
