-- ===== src/Tests/Base64.antt =====
-- The code of a short text, and a byte above 127.
use iksemel.Base.{ℕ, ◌≡◌, refl, arith, Bool, true, some, [], ◌∷◌, ◌++◌, Bytes, codes, strlen, NoNul}
use iksemel.Base64.{base64_encode, outside, text}
use iksemel.Base64.Outside.{base64_encode-outside}
use iksemel.Base64.Letters.{SevenBit}
use iksemel.Base64.RoundTrip.{decoded, base64_decode-base64_encode}

abbrev granted : ℕ → Bool
granted n = true

abbrev word : Bytes
word = codes "jabber?"

word-NoNul : NoNul word
word-NoNul = (
  omega arith,
  (omega arith, (omega arith, (omega arith, (omega arith, (omega arith, (omega arith, tt)))))),
)

word-SevenBit : SevenBit word
word-SevenBit = (
  omega arith,
  (omega arith, (omega arith, (omega arith, (omega arith, (omega arith, (omega arith, tt)))))),
)

encoded_word : base64_encode granted (word ++ 0 ∷ []) 0 ≡ text (codes "amFiYmVyPw==" ++ 0 ∷ [])
unfolding base64_encode strlen
encoded_word = refl

-- `0xc4` is a negative index into the table.
encoded_high : base64_encode granted (0xc4 ∷ []) 1 ≡ outside
unfolding base64_encode
encoded_high = refl

base64_decode-base64_encode_example :
    decoded granted (base64_encode granted (word ++ 0 ∷ []) 0) ≡ some word
base64_decode-base64_encode_example =
    base64_decode-base64_encode granted word [] word-NoNul word-SevenBit (omega arith) (λ n h. refl)

base64_encode-outside_example : base64_encode granted (97 ∷ 0xc4 ∷ 0x9f ∷ []) 3 ≡ outside
base64_encode-outside_example =
    base64_encode-outside granted (97 ∷ 0xc4 ∷ 0x9f ∷ []) 3 (omega arith) (omega arith) refl refl
