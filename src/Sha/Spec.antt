-- ===== src/Sha/Spec.antt =====
-- SHA-1 of a whole message, as the standard defines it: it is padded, read as words, and folded
-- sixteen words at a time, in eighty rounds whose functions and constants are tables of the round.
use iksemel.Base.{
  ℕ, zero, suc, ◌+◌, ◌-◌, ◌*◌, ◌/◌, ◌%◌, ◌^◌, bit_and, bit_or, bit_xor, ltb, if◌then◌else◌, true,
  false, ◌==◌, List, [], ◌∷◌, ◌++◌, Bytes, length, get_or, replicate,
}
use iksemel.Sha.{Regs}

-- a rotation by `n` bits to the left
abbrev pub rotate : ℕ → ℕ → ℕ
rotate n x = bit_or (x * 2 ^ n % 2 ^ 32) (x / 2 ^ (32 - n))

abbrev pub sum : ℕ → ℕ → ℕ
sum a b = (a + b) % 2 ^ 32

-- the first hash
abbrev pub initial_hash : List ℕ
initial_hash = 0x67452301 ∷ 0xefcdab89 ∷ 0x98badcfe ∷ 0x10325476 ∷ 0xc3d2e1f0 ∷ []

-- the function and the constant of round `t`
abbrev pub round_function : ℕ → Regs → ℕ
round_function t r =
    if ltb t 20
    then bit_xor (bit_and (bit_xor r.c r.d) r.b) r.d
    else if ltb t 40
    then bit_xor (bit_xor r.b r.c) r.d
    else if ltb t 60
    then bit_or (bit_and r.b r.c) (bit_and r.d (bit_or r.b r.c))
    else bit_xor (bit_xor r.b r.c) r.d

abbrev pub round_constant : ℕ → ℕ
round_constant t =
    if ltb t 20
    then 0x5a827999
    else if ltb t 40
    then 0x6ed9eba1
    else if ltb t 60
    then 0x8f1bbcdc
    else 0xca62c1d6

abbrev pub round : ℕ → ℕ → Regs → Regs
round t word r = record {
  a = sum (sum (sum (sum (rotate 5 r.a) (round_function t r)) r.e) word) (round_constant t);
  b = r.a;
  c = rotate 30 r.b;
  d = r.c;
  e = r.d;
}

-- so many rounds, from round `t` on
unfoldable pub rounds : ℕ → ℕ → List ℕ → Regs → Regs
rounds zero t ws r = r
rounds (suc n) t ws r = rounds n (t + 1) ws (round t (get_or ws t 0) r)

abbrev pub registers : List ℕ → Regs
registers h = record {
  a = get_or h 0 0;
  b = get_or h 1 0;
  c = get_or h 2 0;
  d = get_or h 3 0;
  e = get_or h 4 0;
}

-- the bytes of a word, the highest first
abbrev pub big_endian : ℕ → Bytes
big_endian w = w / 2 ^ 24 % 2 ^ 8 ∷ w / 2 ^ 16 % 2 ^ 8 ∷ w / 2 ^ 8 % 2 ^ 8 ∷ w % 2 ^ 8 ∷ []

-- the value of a word of which these bytes are there
abbrev pub value : Bytes → ℕ → ℕ
value [] n = n
value (b ∷ bs) n = value bs (n * 2 ^ 8 + b)

-- the message as words, the highest byte first
abbrev pub words : Bytes → List ℕ
words (a ∷ b ∷ c ∷ d ∷ bs) = value (a ∷ b ∷ c ∷ d ∷ []) 0 ∷ words bs
words _ = []

-- the word that follows from those before it
abbrev pub next_word : List ℕ → ℕ
next_word ws =
    let i = length ws in
    rotate 1 (
      bit_xor (bit_xor (bit_xor (get_or ws (i - 3) 0) (get_or ws (i - 8) 0)) (get_or ws (i - 14) 0))
        (get_or ws (i - 16) 0))

-- The words of a block and those that follow from them, with `n` to come.
unfoldable pub schedule : ℕ → List ℕ → List ℕ
schedule zero ws = ws
schedule (suc n) ws = schedule n (ws ++ next_word ws ∷ [])

abbrev pub add_regs : List ℕ → Regs → List ℕ
add_regs h r =
    sum (get_or h 0 0) r.a
    ∷ sum (get_or h 1 0) r.b
    ∷ sum (get_or h 2 0) r.c
    ∷ sum (get_or h 3 0) r.d
    ∷ sum (get_or h 4 0) r.e
    ∷ []

-- the hash after one more block
unfoldable pub compress : List ℕ → List ℕ → List ℕ
compress h block = add_regs h (rounds 80 0 (schedule 64 block) (registers h))

-- The hash after these words, where those of `block` wait for the rest of their block.
unfoldable pub fold_words : List ℕ → List ℕ → List ℕ → List ℕ
fold_words h block [] = h
fold_words h block (w ∷ ws) = elim (length block == 15) [
  | true ↦ fold_words (compress h (block ++ w ∷ [])) [] ws
  | false ↦ fold_words h (block ++ w ∷ []) ws
]

-- the message, a bit, zeros up to eight bytes short of a block, and the number of its bits
abbrev pub trailer : ℕ → Bytes
trailer n =
    (0x80 ∷ replicate ((119 - n % 64) % 64) 0)
    ++ big_endian (n * 8 % 2 ^ 64 / 2 ^ 32)
    ++ big_endian (n * 8 % 2 ^ 32)

abbrev pub sha1 : Bytes → List ℕ
sha1 message = fold_words initial_hash [] (words (message ++ trailer (length message)))
