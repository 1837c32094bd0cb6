-- ===== src/Utility/Escape.antt =====
-- `iks_escape` and `iks_unescape` of src/utility.c. A pointer to text is the memory area that
-- starts there. `nlen` is an `int` that wraps at 32 bits. The indices of `iks_unescape` do not wrap,
-- as texts of 2^31 bytes and more are left out there.
pub mod RoundTrip
use iksemel.Base.{
  ℕ, zero, suc, ◌+◌, ◌-◌, ◌%◌, ◌^◌, Bool, true, false, not, ◌&&◌, ◌==◌, ltb, leb, if◌then◌else◌,
  Option, none, some, [], ◌∷◌, ◌++◌, Bytes, codes, length, take, drop, eq_bytes, strlen,
}

-- what `strchr` looks for: the byte stands in front of the NUL
unfoldable pub has_char : ℕ → Bytes → Bool
has_char c [] = false
has_char c (zero ∷ area) = false
has_char c (suc b ∷ area) = if suc b == c then true else has_char c area

-- `(size_t) -1`, which asks for the length of the string
abbrev pub no_len : ℕ
no_len = 2 ^ 64 - 1

unfoldable pub text_len : ℕ → Bytes → ℕ
text_len len area = if len == no_len then strlen area else len

-- what a byte becomes
unfoldable pub escape_byte : ℕ → Bytes
escape_byte c =
    if c == b'&'
    then codes "&amp;"
    else if c == 0x27
    then codes "&apos;"
    else if c == b'"'
    then codes "&quot;"
    else if c == b'<'
    then codes "&lt;"
    else if c == b'>'
    then codes "&gt;"
    else c ∷ []

unfoldable pub escape_bytes : Bytes → Bytes
escape_bytes [] = []
escape_bytes (c ∷ text) = escape_byte c ++ escape_bytes text

-- how much longer a byte becomes
unfoldable pub extra_byte : ℕ → ℕ
extra_byte c =
    if c == b'&'
    then 4
    else if c == b'<'
    then 3
    else if c == b'>'
    then 3
    else if c == 0x27
    then 5
    else if c == b'"'
    then 5
    else 0

-- `nlen` in 32 bits, counted up from the length of the text
unfoldable pub escaped_len : ℕ → Bytes → ℕ
escaped_len nlen [] = nlen
escaped_len nlen (c ∷ text) = escaped_len ((nlen + extra_byte c) % 2 ^ 32) text

-- an `int` as a `size_t`
unfoldable pub as_size : ℕ → ℕ
as_size n = if ltb n (2 ^ 31) then n else n + (2 ^ 64 - 2 ^ 32)

-- How `iks_escape` ends: NULL, a write behind the area that was asked for or an index `j` that
-- overflows, or the area that the result points to.
pub data Escaped : Type 0 where
  no_text overrun : Escaped
  escaped : Bytes → Escaped

-- the escaped bytes and a NUL, in an area of this size
abbrev pub in_area : ℕ → Bytes → Escaped
in_area size bytes =
    if leb (length bytes + 1) size && ltb (length bytes) (2 ^ 31)
    then escaped (bytes ++ 0 ∷ [])
    else overrun

-- `iks_escape`. Text that needs no escape is returned as it stands, so `len` then does not cut it.
-- `alloc` says whether the stack has so many bytes.
unfoldable pub iks_escape : (ℕ → Bool) → Bool → Option Bytes → ℕ → Escaped
unfolding as_size
iks_escape alloc has_stack none len = no_text
iks_escape alloc has_stack (some area) len =
    let text = take (text_len len area) area in
    let nlen = escaped_len (text_len len area % 2 ^ 32) text in
    if not has_stack
    then no_text
    else if text_len len area == as_size nlen
    then escaped area
    else if alloc (as_size ((nlen + 1) % 2 ^ 32))
    then in_area (as_size ((nlen + 1) % 2 ^ 32)) (escape_bytes text)
    else no_text

-- `strncmp (area, name, strlen (name)) == 0`
abbrev pub starts_with : Bytes → Bytes → Bool
starts_with name area = eq_bytes (take (length name) area) name

-- the byte that the loop of `iks_unescape` writes at `c`, with `rest` behind it, and by how much
-- it moves on
unfoldable pub unescape_at : ℕ → Bytes → ℕ × ℕ
unescape_at c rest =
    if not (c == b'&')
    then (c, 1)
    else if starts_with (codes "amp;") rest
    then (b'&', 5)
    else if starts_with (codes "quot;") rest
    then (b'"', 6)
    else if starts_with (codes "apos;") rest
    then (0x27, 6)
    else if starts_with (codes "lt;") rest
    then (b'<', 4)
    else if starts_with (codes "gt;") rest
    then (b'>', 4)
    else (c, 1)

-- The loop of `iks_unescape` with `n` bytes left, at most `fuel` of which it looks at.
unfoldable pub unescape_bytes : ℕ → ℕ → Bytes → Bytes
unescape_bytes zero n area = []
unescape_bytes (suc fuel) zero area = []
unescape_bytes (suc fuel) (suc n) [] = []
unescape_bytes (suc fuel) (suc n) (c ∷ rest) =
    let (b, step) = unescape_at c rest in
    b ∷ unescape_bytes fuel (suc n - step) (drop step (c ∷ rest))

-- `iks_unescape`: the area that the result points to, with `iks_escape`'s conventions
unfoldable pub iks_unescape : (ℕ → Bool) → Bool → Option Bytes → ℕ → Option Bytes
iks_unescape alloc has_stack none len = none
iks_unescape alloc has_stack (some area) len =
    if not has_stack
    then none
    else if not (has_char b'&' area)
    then some area
    else let n = text_len len area in
      if alloc (n + 1) then some (unescape_bytes n n area ++ 0 ∷ []) else none
