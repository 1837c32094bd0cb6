-- ===== src/Stream/Digest.antt =====
-- Where `parse_digest` of src/stream.c finds a value.
use iksemel.Base.{
  ℕ, suc, ◌+◌, true, false, ◌==◌, some, [], ◌∷◌, ◌++◌, Bytes, length, take-append, drop-append,
  eq_bytes_iff, ◌≡◌, refl, arith,
}
use iksemel.Utility.Escape.{starts_with}
use iksemel.Stream.Sasl.{strstr, closing_quote, parse_digest}

-- no backslash, and no quote
abbrev NoBackslash : Bytes → Type 0
NoBackslash [] = Unit
NoBackslash (c ∷ cs) = ((c == 0x5c) ≡ false) × NoBackslash cs

abbrev NoQuote : Bytes → Type 0
NoQuote [] = Unit
NoQuote (c ∷ cs) = ((c == 0x22) ≡ false) × NoQuote cs

closing_quote_lem :
    (a : ℕ) (v rest : Bytes)
    → NoBackslash (a ∷ v)
    → NoQuote v
    → closing_quote (a ∷ v ++ 0x22 ∷ rest) ≡ some (suc (length v))
unfolding closing_quote
closing_quote_lem a [] rest (e, _) _ = rw (closing_quote, e)
closing_quote_lem a (b ∷ v) rest (e, es) (q, qs) = rw (e, q, closing_quote_lem b v rest es qs)

strstr-start : (hay key : Bytes) → starts_with key hay ≡ true → strstr hay key ≡ some 0
unfolding strstr
strstr-start [] key e = rw e
strstr-start (c ∷ hay) key e = rw e

-- In a message that begins with the key, `parse_digest` takes a value to end at the first quote behind
-- its first byte, if no backslash stands before that: so for an empty value it runs on to
-- the quote behind the next one.
pub parse_digest-first :
    (key : Bytes) (a : ℕ) (v rest : Bytes)
    → NoBackslash (a ∷ v)
    → NoQuote v
    → parse_digest (key ++ (a ∷ (v ++ 0x22 ∷ rest))) key
      ≡ (some (length key), some (length key + suc (length v)))
unfolding parse_digest
parse_digest-first key a v rest plain unquoted =
    let tail = a ∷ (v ++ 0x22 ∷ rest) in
    let found : starts_with key (key ++ tail) ≡ true =
      rw (take-append key tail) ((eq_bytes_iff key key).1 refl) in
    let start : 0 + length key ≡ length key = omega arith in
    rw (
      parse_digest,
      strstr-start (key ++ tail) key found,
      start,
      drop-append key tail,
      closing_quote_lem a v rest plain unquoted,
      start,
    )
