-- ===== src/Base64/Letters.antt =====
-- The letters of src/base64.c and their values, and the bit operations on them.
use iksemel.Base.{
  ℕ, ◌+◌, ◌*◌, ◌/◌, ◌%◌, ◌^◌, ◌<◌, ◌≡◌, ◌≢◌, refl, bit_and, bit_or, true, false, ◌&&◌, ◌==◌,
  every_below, every_below_lem, ltb, Option, none, some, [], ◌∷◌, arith, Bytes, get_elem?, get_or,
}
use iksemel.Base64.{base64_charset, find_char, encoded_size}

-- bytes of seven bits
abbrev pub SevenBit : Bytes → Type 0
SevenBit [] = Unit {0}
SevenBit (c ∷ cs) = (c < 128) × SevenBit cs

-- the letter for a value
abbrev pub letter : ℕ → ℕ
letter v = get_or base64_charset v 0

letter_table :
    every_below 64 (λ v. elim (get_elem? base64_charset v) [
      | none ↦ false
      | some c ↦ (c == letter v) && ((find_char c 0 base64_charset == v) && ltb 0 c)
    ])
    ≡ true
unfolding every_below find_char
letter_table = refl

and_table :
    every_below 128
      (λ v. (bit_and v 3 == v % 4) && ((bit_and v 15 == v % 16) && (bit_and v 63 == v % 64)))
    ≡ true
unfolding every_below
and_table = refl

or_table :
    every_below 256 (λ v.
      (bit_or 0 v == v)
      && ((bit_or (v / 4 * 4) (v % 4) == v)
          && ((bit_or (v / 16 * 16) (v % 16) == v) && (bit_or (v / 64 * 64) (v % 64) == v))))
    ≡ true
unfolding every_below
or_table = refl

found_letter :
    (o : Option ℕ) (l v : ℕ) (f : ℕ → ℕ)
    → elim o [ none ↦ false | some c ↦ (c == l) && ((f c == v) && ltb 0 c) ] ≡ true
    → (o ≡ some l) × (f l ≡ v) × (l ≢ 0)
found_letter none l v f t = cc
found_letter (some c) l v f t = ground arith

-- Every value below 64 has a letter, and the decoder finds the value.
pub letter_lem :
    (v : ℕ)
    → v < 64
    → (get_elem? base64_charset v ≡ some (letter v))
      × (find_char (letter v) 0 base64_charset ≡ v)
      × (letter v ≢ 0)
letter_lem v h =
    found_letter (get_elem? base64_charset v) (letter v) v (λ c. find_char c 0 base64_charset)
      (every_below_lem 64 _ v letter_table h)

pub and_lem :
    (v : ℕ) → v < 128 → (bit_and v 3 ≡ v % 4) × (bit_and v 15 ≡ v % 16) × (bit_and v 63 ≡ v % 64)
and_lem v h =
    let t = every_below_lem 128 _ v and_table h in
    (ground (arith, t), ground (arith, t), ground (arith, t))

pub or_lem :
    (v : ℕ)
    → v < 256
    → (bit_or 0 v ≡ v)
      × (bit_or (v / 4 * 4) (v % 4) ≡ v)
      × (bit_or (v / 16 * 16) (v % 16) ≡ v)
      × (bit_or (v / 64 * 64) (v % 64) ≡ v)
or_lem v h =
    let t = every_below_lem 256 _ v or_table h in
    (ground (arith, t), ground (arith, t), ground (arith, t), ground (arith, t))

pub or_4 : (q r : ℕ) → q < 64 → r < 4 → bit_or (q * 4) r ≡ q * 4 + r
or_4 q r hq hr =
    let e = (or_lem (q * 4 + r) (omega arith)).1 in
    let x : (q * 4 + r) / 4 * 4 ≡ q * 4 = omega arith in
    let y : (q * 4 + r) % 4 ≡ r = omega arith in rw (x, y) at e

pub or_16 : (q r : ℕ) → q < 16 → r < 16 → bit_or (q * 16) r ≡ q * 16 + r
or_16 q r hq hr =
    let e = (or_lem (q * 16 + r) (omega arith)).2 in
    let x : (q * 16 + r) / 16 * 16 ≡ q * 16 = omega arith in
    let y : (q * 16 + r) % 16 ≡ r = omega arith in rw (x, y) at e

pub or_64 : (q r : ℕ) → q < 4 → r < 64 → bit_or (q * 64) r ≡ q * 64 + r
or_64 q r hq hr =
    let e = (or_lem (q * 64 + r) (omega arith)).3 in
    let x : (q * 64 + r) / 64 * 64 ≡ q * 64 = omega arith in
    let y : (q * 64 + r) % 64 ≡ r = omega arith in rw (x, y) at e

-- what is asked for where the length times 8 is an `int`
pub encoded_size-small : (n : ℕ) → n * 8 < 2 ^ 31 → encoded_size n ≡ n * 8 / 6 + 4
unfolding encoded_size
encoded_size-small n h = let e : n * 8 % 2 ^ 32 ≡ n * 8 = omega arith in ground arith
