-- ===== src/Iks/Write/Escape.antt =====
-- `escape_size`, `my_strcat` and `escape` of src/iks.c. The place where the output ends is given
-- by the bytes in front of it, and a loop over `len` bytes of `src` by these bytes.
use iksemel.Base.{ℕ, ◌+◌, Bool, ◌==◌, ◌||◌, if◌then◌else◌, [], ◌∷◌, ◌++◌, Bytes, codes, length}
use iksemel.Iks.Heap.{dup}

-- the cases of `escape_size`
unfoldable pub byte_size : ℕ → ℕ
byte_size c =
    if c == b'&'
    then 5
    else if c == 0x27
    then 6
    else if c == b'"'
    then 6
    else if c == b'<'
    then 4
    else if c == b'>'
    then 4
    else 1

-- `sz`, counted up
unfoldable pub escape_size : ℕ → Bytes → ℕ
escape_size sz [] = sz
escape_size sz (c ∷ src) = escape_size (sz + byte_size c) src

-- `my_strcat`; a length of 0 stands for the whole string
unfoldable pub my_strcat : Bytes → Bytes → ℕ → Bytes
my_strcat dest src len = dest ++ dup src len

abbrev pub is_special : ℕ → Bool
is_special c = c == b'&' || c == b'<' || c == b'>' || c == 0x27 || c == b'"'

-- the second switch of `escape`
unfoldable pub special : Bytes → ℕ → Bytes
unfolding my_strcat
special dest c =
    if c == b'&'
    then my_strcat dest (codes "&amp;") 5
    else if c == 0x27
    then my_strcat dest (codes "&apos;") 6
    else if c == b'"'
    then my_strcat dest (codes "&quot;") 6
    else if c == b'<'
    then my_strcat dest (codes "&lt;") 4
    else if c == b'>'
    then my_strcat dest (codes "&gt;") 4
    else dest

-- `if (i - j > 0) dest = my_strcat (dest, src + j, i - j);`
unfoldable pub write_plain : Bytes → Bytes → Bytes
unfolding my_strcat
write_plain dest plain = if length plain == 0 then dest else my_strcat dest plain (length plain)

-- The loop of `escape`: `plain` holds the bytes of `src` from `j` up to `i`.
unfoldable pub escape_loop : Bytes → Bytes → Bytes → Bytes
unfolding special write_plain
escape_loop dest plain [] = write_plain dest plain
escape_loop dest plain (c ∷ src) =
    escape_loop (if is_special c then special (write_plain dest plain) c else dest)
      (if is_special c then [] else plain ++ c ∷ []) src

unfoldable pub escape : Bytes → Bytes → Bytes
unfolding escape_loop
escape dest src = escape_loop dest [] src
