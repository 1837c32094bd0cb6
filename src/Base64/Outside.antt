-- ===== src/Base64/Outside.antt =====
-- A byte above 127 as a negative `char`: the encoder reads in front of its table.
use mathlib.Core.Path.{subst}
use iksemel.Base.{
  int_of_size, ℕ, ◌+◌, ◌*◌, ◌/◌, ◌^◌, ◌≤◌, ◌<◌, ◌≡◌, refl, ap, bit_and, bit_or, Bool, true, false,
  ◌||◌, leb, ltb, Option, none, some, List, [], ◌∷◌, Bytes, codes, ◌⊎◌, take, arith, Bool-cases,
  inl, inr,
}
use iksemel.Base.Bits.{bit_or_ge}
use iksemel.Base64.Letters.{encoded_size-small}
use iksemel.Base64.{
  as_int, shift_right, charset_at, append_chars, encode_bytes, outside, base64_encode,
}

abbrev pub has_high : Bytes → Bool
has_high [] = false
has_high (c ∷ cs) = leb 128 c || has_high cs

-- a byte above 127, shifted, is negative, whatever is added to it by `|`
shift_right-high : (c : ℕ) → leb 128 c ≡ true → 2 ^ 31 ≤ shift_right (as_int c) 2
unfolding shift_right as_int
shift_right-high c h = ground arith

shift_right-high_4 : (c : ℕ) → leb 128 c ≡ true → 2 ^ 31 ≤ shift_right (as_int c) 4
unfolding shift_right as_int
shift_right-high_4 c h = ground arith

shift_right-high_6 : (c : ℕ) → leb 128 c ≡ true → 2 ^ 31 ≤ shift_right (as_int c) 6
unfolding shift_right as_int
shift_right-high_6 c h = ground arith

charset_at-negative : (i : ℕ) → 2 ^ 31 ≤ i → charset_at i ≡ none
unfolding charset_at
charset_at-negative i h = ground arith

charset_at-or : (t i : ℕ) → 2 ^ 31 ≤ i → charset_at (bit_or t i) ≡ none
charset_at-or t i h = charset_at-negative (bit_or t i) (let b = bit_or_ge t i in omega arith)

abbrev one_none : List (Option ℕ) → Bool
one_none [] = false
one_none (none ∷ cs) = true
one_none (some c ∷ cs) = one_none cs

append_chars-none :
    (cs : List (Option ℕ)) (rest : Bytes) → one_none cs ≡ true → append_chars cs rest ≡ none
unfolding append_chars
append_chars-none [] rest h = cc
append_chars-none (none ∷ cs) rest h = refl
append_chars-none (some c ∷ cs) rest h =
    ap (λ o. elim o as (λ x. Option Bytes) [ none ↦ none | some s ↦ some (c ∷ s) ])
      (append_chars-none cs rest h)

one_none-here : (o : Option ℕ) (cs : List (Option ℕ)) → o ≡ none → one_none (o ∷ cs) ≡ true
one_none-here o cs e = ap (λ t. one_none (t ∷ cs)) e

one_none-later :
    (o : Option ℕ) (cs : List (Option ℕ)) → one_none cs ≡ true → one_none (o ∷ cs) ≡ true
one_none-later none cs h = refl
one_none-later (some c) cs h = h

behind :
    (o : Option Bytes) (cs : List (Option ℕ))
    → (o ≡ none) ⊎ (one_none cs ≡ true)
    → elim o as (λ x. Option Bytes) [ none ↦ none | some rest ↦ append_chars cs rest ] ≡ none
behind none cs h = refl
behind (some rest) cs (inl e) = cc
behind (some rest) cs (inr h) = append_chars-none cs rest h

high_first :
    (a : ℕ) (bs : Bytes) → has_high (a ∷ bs) ≡ true → (leb 128 a ≡ true) ⊎ (has_high bs ≡ true)
high_first a bs h = elim (Bool-cases (leb 128 a)) [
  | inl e ↦ inl e
  | inr e ↦ inr (subst (λ t. (t || has_high bs) ≡ true) e h)
]

high_last : (a : ℕ) → has_high (a ∷ []) ≡ true → leb 128 a ≡ true
high_last a h = elim (high_first a [] h) [ inl e ↦ e | inr e ↦ cc ]

encode_bytes-high : (bs : Bytes) → has_high bs ≡ true → encode_bytes bs ≡ none
unfolding encode_bytes
encode_bytes-high [] h = cc
encode_bytes-high (a ∷ []) h =
    let first = charset_at (shift_right (as_int a) 2) in
    let cs = charset_at (bit_and (as_int a) 3 * 2 ^ 4) ∷ [] in
    append_chars-none (first ∷ cs) (codes "==")
      (one_none-here first cs (charset_at-negative _ (shift_right-high a (high_last a h))))
encode_bytes-high (a ∷ b ∷ []) h =
    let first = charset_at (shift_right (as_int a) 2) in
    let second = charset_at (bit_or (bit_and (as_int a) 3 * 2 ^ 4) (shift_right (as_int b) 4)) in
    let cs = charset_at (bit_and (as_int b) 15 * 2 ^ 2) ∷ [] in
    append_chars-none (first ∷ second ∷ cs) (codes "=") (elim (high_first a (b ∷ []) h) [
      | inl e ↦ one_none-here first (second ∷ cs) (charset_at-negative _ (shift_right-high a e))
      | inr hb ↦
          one_none-later first (second ∷ cs)
            (one_none-here second cs (charset_at-or _ _ (shift_right-high_4 b (high_last b hb))))
    ])
encode_bytes-high (a ∷ b ∷ c ∷ bs) h =
    let first = charset_at (shift_right (as_int a) 2) in
    let second = charset_at (bit_or (bit_and (as_int a) 3 * 2 ^ 4) (shift_right (as_int b) 4)) in
    let third = charset_at (bit_or (bit_and (as_int b) 15 * 2 ^ 2) (shift_right (as_int c) 6)) in
    let cs = charset_at (bit_and (as_int c) 63) ∷ [] in
    behind (encode_bytes bs) (first ∷ second ∷ third ∷ cs) (elim (high_first a (b ∷ c ∷ bs) h) [
      | inl e ↦
          inr (
            one_none-here first (second ∷ third ∷ cs)
              (charset_at-negative _ (shift_right-high a e)))
      | inr hb ↦ elim (high_first b (c ∷ bs) hb) [
        | inl e ↦ inr (
            one_none-later first (second ∷ third ∷ cs)
              (one_none-here second (third ∷ cs) (charset_at-or _ _ (shift_right-high_4 b e))))
        | inr hc ↦ elim (high_first c bs hc) [
          | inl e ↦ inr (
              one_none-later first (second ∷ third ∷ cs) (
                one_none-later second (third ∷ cs)
                  (one_none-here third cs (charset_at-or _ _ (shift_right-high_6 c e)))))
          | inr hs ↦ inl (encode_bytes-high bs hs)
        ]
      ]
    ])

-- Where memory is granted, the length times 8 is an `int`, and one of the bytes to encode is above
-- 127, `iks_base64_encode` reads outside its table.
pub base64_encode-outside :
    (malloc : ℕ → Bool) (area : Bytes) (len : ℕ)
    → 0 < len
    → len * 8 < 2 ^ 31
    → malloc (len * 8 / 6 + 4) ≡ true
    → has_high (take len area) ≡ true
    → base64_encode malloc area len ≡ outside
unfolding base64_encode
base64_encode-outside malloc area len positive small ok h =
    let given : ltb 0 len ≡ true = ground arith in
    let n : int_of_size len ≡ len = ground arith in
    rw (given, encoded_size-small len small, ok, n, encode_bytes-high (take len area) h)
