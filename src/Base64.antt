-- ===== src/Base64.antt =====
-- src/base64.c. A byte above 127 is a negative `char` on the platforms where `char` is signed, as
-- it is taken to be here.
pub mod Letters
pub mod RoundTrip
pub mod Outside
use iksemel.Base.{
  int_of_size, ◌-◌, ℕ, zero, suc, ◌+◌, ◌*◌, ◌/◌, ◌%◌, ◌^◌, bit_and, bit_or, Bool, true, false, ◌==◌,
  ltb, leb, if◌then◌else◌, Option, none, some, List, [], ◌∷◌, ◌++◌, Bytes, codes, length, get_elem?,
  take, strlen,
}

abbrev pub base64_charset : Bytes
base64_charset = codes "ABCDEFGHIJKLMNOPQRSTUVWXYZabcdefghijklmnopqrstuvwxyz0123456789+/"

-- `strchr (base64_charset, c) - base64_charset`, from place `i` on; 0 where the byte is not there
unfoldable pub find_char : ℕ → ℕ → Bytes → ℕ
find_char c i [] = 0
find_char c i (b ∷ bs) = if b == c then i else find_char c (i + 1) bs

-- what the decoder has written: the bytes below `res`, `*res`, and `index`
pub record Decoder : Type 0 where
  pub out : Bytes
  pub res : ℕ
  pub index : ℕ

-- one round of the loop of `iks_base64_decode`; a store into a `char` keeps eight bits
unfoldable pub decode_char : Decoder → ℕ → Decoder
unfolding find_char
decode_char d c =
    let val = find_char c 0 base64_charset in
    let index' = (d.index + 1) % 4 in
    if d.index == 0
    then record d { res = bit_or d.res (val * 2 ^ 2 % 2 ^ 8); index = index' }
    else if d.index == 1
    then record {
      out = d.out ++ bit_or d.res (val / 2 ^ 4) ∷ [];
      res = val * 2 ^ 4 % 2 ^ 8;
      index = index';
    }
    else if d.index == 2
    then record {
      out = d.out ++ bit_or d.res (val / 2 ^ 2) ∷ [];
      res = val * 2 ^ 6 % 2 ^ 8;
      index = index';
    }
    else record { out = d.out ++ bit_or d.res val ∷ []; res = 0; index = index' }

unfoldable pub decode_chars : Decoder → Bytes → Decoder
decode_chars d [] = d
decode_chars d (c ∷ cs) = decode_chars (decode_char d c) cs

abbrev pub decoder : Decoder
decoder = record { out = []; res = 0; index = 0 }

-- `iks_base64_decode`: the area that it returns. `*res = 0` drops an unfinished byte.
unfoldable pub base64_decode : (ℕ → Bool) → Option Bytes → Option Bytes
base64_decode malloc none = none
base64_decode malloc (some area) =
    let buf = take (strlen area) area in
    if malloc (length buf * 6 / 8 + 1)
    then some ((decode_chars decoder buf).out ++ 0 ∷ [])
    else none

-- a `char` as the `int` that it becomes, in 32 bits
unfoldable pub as_int : ℕ → ℕ
as_int c = if ltb c 128 then c else c + (2 ^ 32 - 2 ^ 8)

-- `x >> n` of an `int`, which keeps the sign
unfoldable pub shift_right : ℕ → ℕ → ℕ
shift_right x n = x / 2 ^ n + (if ltb x (2 ^ 31) then 0 else 2 ^ 32 - 2 ^ (32 - n))

-- `base64_charset[i]`; a negative index is in front of the table
unfoldable pub charset_at : ℕ → Option ℕ
charset_at i = if ltb i (2 ^ 31) then get_elem? base64_charset i else none

unfoldable pub append_chars : List (Option ℕ) → Bytes → Option Bytes
append_chars [] rest = some rest
append_chars (none ∷ cs) rest = none
append_chars (some c ∷ cs) rest = elim (append_chars cs rest) [
  | none ↦ none
  | some s ↦ some (c ∷ s)
]

-- The loop of `iks_base64_encode` and the switch behind it; `none` for a read outside the table.
unfoldable pub encode_bytes : Bytes → Option Bytes
unfolding charset_at append_chars as_int shift_right
encode_bytes [] = some []
encode_bytes (a ∷ []) =
    append_chars
      (charset_at (shift_right (as_int a) 2) ∷ charset_at (bit_and (as_int a) 0x03 * 2 ^ 4) ∷ [])
      (codes "==")
encode_bytes (a ∷ b ∷ []) =
    append_chars
      (charset_at (shift_right (as_int a) 2)
        ∷ charset_at (bit_or (bit_and (as_int a) 0x03 * 2 ^ 4) (shift_right (as_int b) 4))
        ∷ charset_at (bit_and (as_int b) 0x0f * 2 ^ 2)
        ∷ [])
      (codes "=")
encode_bytes (a ∷ b ∷ c ∷ bs) = elim (encode_bytes bs) [
  | none ↦ none
  | some rest ↦
      append_chars
        (charset_at (shift_right (as_int a) 2)
          ∷ charset_at (bit_or (bit_and (as_int a) 0x03 * 2 ^ 4) (shift_right (as_int b) 4))
          ∷ charset_at (bit_or (bit_and (as_int b) 0x0f * 2 ^ 2) (shift_right (as_int c) 6))
          ∷ charset_at (bit_and (as_int c) 0x3f)
          ∷ [])
        rest
]

-- How `iks_base64_encode` ends: NULL, a read outside the table, a write behind the area that was
-- asked for, or this area.
pub data Encoded : Type 0 where
  null outside overrun : Encoded
  text : Bytes → Encoded

-- the code with its NUL, in an area of this size
abbrev pub code_in_area : ℕ → Option Bytes → Encoded
code_in_area size none = outside
code_in_area size (some s) = if leb (length s + 1) size then text (s ++ 0 ∷ []) else overrun

-- `(len*8) / 6 + 4` as a `size_t`, where the product is an `int` of 32 bits, and a negative one is
-- divided towards 0
unfoldable pub encoded_size : ℕ → ℕ
encoded_size len =
    let bits = len * 8 % 2 ^ 32 in
    if ltb bits (2 ^ 31) then bits / 6 + 4 else (2 ^ 64 + 4 - (2 ^ 32 - bits) / 6) % 2 ^ 64

-- `iks_base64_encode` on an area and a length that is not negative, 0 for that of the string; the
-- length is an `int`, and for a negative one neither the loop nor the switch does anything
unfoldable pub base64_encode : (ℕ → Bool) → Bytes → ℕ → Encoded
unfolding encode_bytes encoded_size
base64_encode malloc area len =
    let n = if ltb 0 len then len else strlen area % 2 ^ 32 in
    let size = encoded_size n in
    if malloc size then code_in_area size (encode_bytes (take (int_of_size n) area)) else null
