-- ===== src/Tests/Escape.antt =====
-- Escaping on small texts.
use iksemel.Base.{
  ◌≡◌, refl, arith, true, some, [], ◌∷◌, ◌++◌, Bytes, codes, c_string, strlen, NoNul,
}
use iksemel.Utility.Escape.{
  iks_escape, iks_unescape, has_char, no_len, text_len, escaped_len, as_size, escaped, escape_bytes,
  escape_byte, extra_byte,
}
use iksemel.Utility.Escape.RoundTrip.{iks_unescape-iks_escape}

abbrev sample : Bytes
sample = codes "a<b&\"c\""

sample-NoNul : NoNul sample
sample-NoNul = (
  omega arith,
  (omega arith, (omega arith, (omega arith, (omega arith, (omega arith, (omega arith, tt)))))),
)

escaped_sample :
    iks_escape (λ n. true) true (some (sample ++ 0 ∷ [])) no_len
    ≡ escaped (codes "a&lt;b&amp;&quot;c&quot;" ++ 0 ∷ [])
unfolding iks_escape has_char text_len escaped_len as_size escape_bytes escape_byte extra_byte
    strlen
escaped_sample = refl

iks_unescape-iks_escape_example :
    (area : Bytes) × (d : Bytes) × (iks_escape (λ n. true) true (some (sample ++ 0 ∷ [])) no_len
      ≡ escaped area)
    × (iks_unescape (λ n. true) true (some area) no_len ≡ some d)
    × (c_string d ≡ some sample)
iks_unescape-iks_escape_example =
    iks_unescape-iks_escape (λ n. true) (λ n. refl) sample sample-NoNul (omega arith)
