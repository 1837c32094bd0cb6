-- ===== src/Base64/RoundTrip.antt =====
-- Encoding and decoding on seven-bit text, the sizes of the buffers, and bytes above 127.
use iksemel.Base.{
  ℕ, ◌+◌, ◌*◌, ◌/◌, ◌%◌, ◌^◌, ◌≤◌, ◌<◌, ◌≡◌, ◌≢◌, refl, sym, ap, ◌∙◌, bit_and, bit_or, Bool, true,
  leb, ltb, int_of_size, Option, none, some, [], ◌∷◌, ◌++◌, append_assoc, append-nil, arith, Bytes,
  codes, length, take-append, c_string, NoNul, c_string-NoNul, strlen-NoNul,
}
use iksemel.Base64.{
  base64_charset, find_char, Decoder, decode_char, decode_chars, base64_decode, as_int, shift_right,
  charset_at, append_chars, encode_bytes, Encoded, text, base64_encode,
}
use iksemel.Base64.Letters.{
  encoded_size-small, SevenBit, letter, letter_lem, and_lem, or_lem, or_4, or_16, or_64,
}

abbrev Value : ℕ → ℕ → Type 0
Value c v = (find_char c 0 base64_charset ≡ v) × (v < 64)

abbrev start : Bytes → Decoder
start out = record { out = out; res = 0; index = 0 }

-- Four letters are three bytes.
decode_four :
    (out rest : Bytes) (a b c d u v w x : ℕ)
    → Value a u
    → Value b v
    → Value c w
    → Value d x
    → decode_chars (start out) (a ∷ b ∷ c ∷ d ∷ rest)
      ≡ decode_chars
          (start (out ++ (u * 4 + v / 16) ∷ (v % 16 * 16 + w / 4) ∷ (w % 4 * 64 + x) ∷ []))
          rest
unfolding decode_chars decode_char
decode_four out rest a b c d u v w x (ea, ha) (eb, hb) (ec, hc) (ed, hd) =
    let r1 : bit_or 0 (u * 2 ^ 2 % 2 ^ 8) ≡ u * 4 =
      (or_lem (u * 2 ^ 2 % 2 ^ 8) (omega arith)).0 ∙ omega arith in
    let r2 : v * 2 ^ 4 % 2 ^ 8 ≡ v % 16 * 16 = omega arith in
    let r3 : w * 2 ^ 6 % 2 ^ 8 ≡ w % 4 * 64 = omega arith in
    let p1 = or_4 u (v / 2 ^ 4) ha (omega arith) in
    let p2 = or_16 (v % 16) (w / 2 ^ 2) (omega arith) (omega arith) in
    let p3 = or_64 (w % 4) x (omega arith) hd in
    rw (ea, eb, ec, ed, r1, r2, r3, p1, p2, p3) (simp append_assoc)

-- the code of a text, as values
abbrev encoded : Bytes → Bytes
encoded [] = []
encoded (a ∷ []) = letter (a / 4) ∷ letter (a % 4 * 16) ∷ codes "=="
encoded (a ∷ b ∷ []) =
    letter (a / 4) ∷ letter (a % 4 * 16 + b / 16) ∷ letter (b % 16 * 4) ∷ codes "="
encoded (a ∷ b ∷ c ∷ bs) =
    letter (a / 4)
    ∷ letter (a % 4 * 16 + b / 16)
    ∷ letter (b % 16 * 4 + c / 64)
    ∷ letter (c % 64)
    ∷ encoded bs

charset_at_lem : (i v : ℕ) → i ≡ v → v < 64 → charset_at i ≡ some (letter v)
unfolding charset_at
charset_at_lem i v e h =
    let small : ltb v (2 ^ 31) ≡ true = ground arith in rw (e, small) ((letter_lem v h).0)

as_int-small : (c : ℕ) → c < 128 → as_int c ≡ c
unfolding as_int
as_int-small c h = ground arith

shift_right-small : (c n : ℕ) → c < 128 → shift_right (as_int c) n ≡ c / 2 ^ n
unfolding shift_right
shift_right-small c n h =
    let small : ltb c (2 ^ 31) ≡ true = ground arith in rw (as_int-small c h, small) (omega arith)

first : (a : ℕ) → a < 128 → charset_at (shift_right (as_int a) 2) ≡ some (letter (a / 4))
first a ha = charset_at_lem _ (a / 4) (shift_right-small a 2 ha) (omega arith)

low_bits : (a : ℕ) → a < 128 → bit_and (as_int a) 3 ≡ a % 4
low_bits a ha = ap (λ t. bit_and t 3) (as_int-small a ha) ∙ (and_lem a ha).0

four_bits : (a : ℕ) → a < 128 → bit_and (as_int a) 15 ≡ a % 16
four_bits a ha = ap (λ t. bit_and t 15) (as_int-small a ha) ∙ (and_lem a ha).1

second :
    (a b : ℕ)
    → a < 128
    → b < 128
    → charset_at (bit_or (bit_and (as_int a) 3 * 2 ^ 4) (shift_right (as_int b) 4))
      ≡ some (letter (a % 4 * 16 + b / 16))
second a b ha hb =
    charset_at_lem _ (a % 4 * 16 + b / 16)
      (ap (λ t. bit_or (t * 16) (shift_right (as_int b) 4)) (low_bits a ha)
        ∙ ap (bit_or (a % 4 * 16)) (shift_right-small b 4 hb)
        ∙ or_16 (a % 4) (b / 2 ^ 4) (omega arith) (omega arith))
      (omega arith)

third :
    (b c : ℕ)
    → b < 128
    → c < 128
    → charset_at (bit_or (bit_and (as_int b) 15 * 2 ^ 2) (shift_right (as_int c) 6))
      ≡ some (letter (b % 16 * 4 + c / 64))
third b c hb hc =
    charset_at_lem _ (b % 16 * 4 + c / 64)
      (ap (λ t. bit_or (t * 4) (shift_right (as_int c) 6)) (four_bits b hb)
        ∙ ap (bit_or (b % 16 * 4)) (shift_right-small c 6 hc)
        ∙ or_4 (b % 16) (c / 2 ^ 6) (omega arith) (omega arith))
      (omega arith)

encode_bytes_lem : (bs : Bytes) → SevenBit bs → encode_bytes bs ≡ some (encoded bs)
unfolding encode_bytes append_chars
encode_bytes_lem [] h = refl
encode_bytes_lem (a ∷ []) (ha, _) = rw (
  first a ha,
  charset_at_lem (bit_and (as_int a) 3 * 2 ^ 4) (a % 4 * 16) (ap (λ t. t * 16) (low_bits a ha))
      (omega arith),
)
encode_bytes_lem (a ∷ b ∷ []) (ha, (hb, _)) = rw (
  first a ha,
  second a b ha hb,
  charset_at_lem (bit_and (as_int b) 15 * 2 ^ 2) (b % 16 * 4) (ap (λ t. t * 4) (four_bits b hb))
      (omega arith),
)
encode_bytes_lem (a ∷ b ∷ c ∷ bs) (ha, (hb, (hc, h))) = rw (
  encode_bytes_lem bs h,
  first a ha,
  second a b ha hb,
  third b c hb hc,
  charset_at_lem (bit_and (as_int c) 63) (c % 64)
      (ap (λ t. bit_and t 63) (as_int-small c hc) ∙ (and_lem c hc).2) (omega arith),
)

abbrev padding : Bytes → Bytes
padding [] = []
padding (a ∷ []) = 0 ∷ 0 ∷ []
padding (a ∷ b ∷ []) = 0 ∷ []
padding (a ∷ b ∷ c ∷ bs) = padding bs

letter-Value : (v : ℕ) → v < 64 → Value (letter v) v
letter-Value v h = ((letter_lem v h).1, h)

pad-Value : Value 61 0
unfolding find_char
pad-Value = (refl, omega arith)

Value-letter : (v : ℕ) → v < 64 → Value (letter v) v
Value-letter v h = ((letter_lem v h).1, h)

-- Four letters are the three bytes that their values make.
decode_bytes :
    (out rest : Bytes) (l m n o u v w x a b c : ℕ)
    → Value l u
    → Value m v
    → Value n w
    → Value o x
    → u * 4 + v / 16 ≡ a
    → v % 16 * 16 + w / 4 ≡ b
    → w % 4 * 64 + x ≡ c
    → decode_chars (start out) (l ∷ m ∷ n ∷ o ∷ rest)
      ≡ decode_chars (start (out ++ a ∷ b ∷ c ∷ [])) rest
decode_bytes out rest l m n o u v w x a b c hl hm hn ho ea eb ec =
    decode_four out rest l m n o u v w x hl hm hn ho ∙ rw (ea, eb, ec)

decode_encoded :
    (out bs : Bytes)
    → SevenBit bs
    → decode_chars (start out) (encoded bs) ≡ start (out ++ bs ++ padding bs)
unfolding decode_chars
decode_encoded out [] h = ap start (simp append-nil)
decode_encoded out (a ∷ []) (ha, _) =
    decode_bytes out [] _ _ 61 61 (a / 4) (a % 4 * 16) 0 0 a 0 0 (Value-letter _ (omega arith))
      (Value-letter _ (omega arith)) pad-Value pad-Value (omega arith) (omega arith) refl
    ∙ ap start (sym (append_assoc out (a ∷ []) (0 ∷ 0 ∷ [])))
decode_encoded out (a ∷ b ∷ []) (ha, (hb, _)) =
    decode_bytes out [] _ _ _ 61 (a / 4) (a % 4 * 16 + b / 16) (b % 16 * 4) 0 a b 0
      (Value-letter _ (omega arith)) (Value-letter _ (omega arith)) (Value-letter _ (omega arith))
      pad-Value (omega arith) (omega arith) (omega arith)
    ∙ ap start (sym (append_assoc out (a ∷ b ∷ []) (0 ∷ [])))
decode_encoded out (a ∷ b ∷ c ∷ bs) (ha, (hb, (hc, h))) =
    decode_bytes out (encoded bs) _ _ _ _ (a / 4) (a % 4 * 16 + b / 16) (b % 16 * 4 + c / 64)
      (c % 64) a b c (Value-letter _ (omega arith)) (Value-letter _ (omega arith))
      (Value-letter _ (omega arith)) (Value-letter _ (omega arith)) (omega arith) (omega arith)
      (omega arith)
    ∙ decode_encoded (out ++ a ∷ b ∷ c ∷ []) bs h
    ∙ ap start (simp append_assoc)

letter-nonzero : (v : ℕ) → v < 64 → letter v ≢ 0
letter-nonzero v h = (letter_lem v h).2

NoNul-four :
    {l m n o : ℕ} (rest : Bytes)
    → l ≢ 0
    → m ≢ 0
    → n ≢ 0
    → o ≢ 0
    → NoNul rest
    → NoNul (l ∷ m ∷ n ∷ o ∷ rest)
NoNul-four rest hl hm hn ho h = (hl, (hm, (hn, (ho, h))))

encoded-NoNul : (bs : Bytes) → SevenBit bs → NoNul (encoded bs)
encoded-NoNul [] h = tt
encoded-NoNul (a ∷ []) (ha, _) =
    NoNul-four [] (letter-nonzero (a / 4) (omega arith)) (letter-nonzero (a % 4 * 16) (omega arith))
      (omega arith) (omega arith) tt
encoded-NoNul (a ∷ b ∷ []) (ha, (hb, _)) =
    NoNul-four [] (letter-nonzero (a / 4) (omega arith))
      (letter-nonzero (a % 4 * 16 + b / 16) (omega arith))
      (letter-nonzero (b % 16 * 4) (omega arith)) (omega arith) tt
encoded-NoNul (a ∷ b ∷ c ∷ bs) (ha, (hb, (hc, h))) =
    NoNul-four (encoded bs) (letter-nonzero (a / 4) (omega arith))
      (letter-nonzero (a % 4 * 16 + b / 16) (omega arith))
      (letter-nonzero (b % 16 * 4 + c / 64) (omega arith)) (letter-nonzero (c % 64) (omega arith))
      (encoded-NoNul bs h)

-- The code has four letters for three bytes, the last three begun.
length-encoded : (bs : Bytes) → length (encoded bs) ≡ (length bs + 2) / 3 * 4
length-encoded [] = refl
length-encoded (a ∷ []) = refl
length-encoded (a ∷ b ∷ []) = refl
length-encoded (a ∷ b ∷ c ∷ bs) = let e = length-encoded bs in omega arith

code_fits : (l n : ℕ) → l ≡ (n + 2) / 3 * 4 → leb (l + 1) (n * 8 / 6 + 4) ≡ true
code_fits l n e = let le : l + 1 ≤ n * 8 / 6 + 4 = omega arith in ground arith

-- What the encoder takes for a string behind which a NUL stands.
base64_encode_lem :
    (malloc : ℕ → Bool) (bs rest : Bytes)
    → NoNul bs
    → SevenBit bs
    → length bs * 8 < 2 ^ 31
    → malloc (length bs * 8 / 6 + 4) ≡ true
    → base64_encode malloc (bs ++ 0 ∷ rest) 0 ≡ text (encoded bs ++ 0 ∷ [])
unfolding base64_encode
base64_encode_lem malloc bs rest h s small ok =
    let word : length bs % 2 ^ 32 ≡ length bs = omega arith in
    let n : int_of_size (length bs) ≡ length bs = ground arith in
    let fits = code_fits (length (encoded bs)) (length bs) (length-encoded bs) in
    rw (
      strlen-NoNul bs rest h,
      word,
      encoded_size-small (length bs) small,
      ok,
      n,
      take-append bs (0 ∷ rest),
      encode_bytes_lem bs s,
      fits,
    )

-- the string that stands in an area of memory
abbrev pub string_of : Option Bytes → Option Bytes
string_of none = none
string_of (some area) = c_string area

-- what comes of decoding what the encoder returns
abbrev pub decoded : (ℕ → Bool) → Encoded → Option Bytes
decoded malloc (text area) = string_of (base64_decode malloc (some area))
decoded malloc _ = none

abbrev behind : Bytes → Bytes
behind [] = []
behind (a ∷ []) = 0 ∷ 0 ∷ []
behind (a ∷ b ∷ []) = 0 ∷ []
behind (a ∷ b ∷ c ∷ bs) = behind bs

padding_starts : (bs : Bytes) → padding bs ++ 0 ∷ [] ≡ 0 ∷ behind bs
padding_starts [] = refl
padding_starts (a ∷ []) = refl
padding_starts (a ∷ b ∷ []) = refl
padding_starts (a ∷ b ∷ c ∷ bs) = padding_starts bs

c_string-padding : (bs : Bytes) → NoNul bs → c_string (bs ++ (padding bs ++ 0 ∷ [])) ≡ some bs
c_string-padding bs h =
    ap (λ r. c_string (bs ++ r)) (padding_starts bs) ∙ c_string-NoNul bs (behind bs) h

module _ (malloc : ℕ → Bool) (bs rest : Bytes) (nonzero : NoNul bs) (seven : SevenBit bs)
    (small : length bs * 8 < 2 ^ 31)
    (enough : (n : ℕ) → n ≤ length bs * 8 / 6 + 4 → malloc n ≡ true) where
  decode_lem :
      base64_decode malloc (some (encoded bs ++ 0 ∷ [])) ≡ some ((bs ++ padding bs) ++ 0 ∷ [])
  unfolding base64_decode
  decode_lem =
      let small : length (encoded bs) * 6 / 8 + 1 ≤ length bs * 8 / 6 + 4 =
        let e = length-encoded bs in omega arith in
      rw (
        strlen-NoNul (encoded bs) [] (encoded-NoNul bs seven),
        take-append (encoded bs) (0 ∷ []),
        enough _ small,
        decode_encoded [] bs seven,
      )

  -- Where memory is granted, the string that `iks_base64_decode` returns for the code that
  -- `iks_base64_encode` makes of a seven-bit text without a NUL, and with fewer than 2^28 bytes, is the
  -- text.
  pub base64_decode-base64_encode :
      decoded malloc (base64_encode malloc (bs ++ 0 ∷ rest) 0) ≡ some bs
  base64_decode-base64_encode =
      let e = base64_encode_lem malloc bs rest nonzero seven small (enough _ (omega arith)) in
      ap (decoded malloc) e
      ∙ ap string_of decode_lem
      ∙ ap c_string (append_assoc bs (padding bs) (0 ∷ []))
      ∙ c_string-padding bs nonzero
