-- ===== src/Utility/Strings.antt =====
-- The NULL-safe string functions of src/utility.c, with `none` for NULL. Less stands for every
-- negative number that a comparison returns, and greater for every positive one.
use iksemel.Base.{
  ℕ, ◌+◌, Bool, ◌&&◌, ◌==◌, ltb, leb, if◌then◌else◌, Option, none, some, [], ◌∷◌, ◌++◌, Bytes,
  length, map, store, take,
}

pub data Compared : Type 0 where
  less same greater : Compared

unfoldable pub strcmp : Bytes → Bytes → Compared
strcmp [] [] = same
strcmp [] (y ∷ b) = less
strcmp (x ∷ a) [] = greater
strcmp (x ∷ a) (y ∷ b) =
    let rest = strcmp a b in if x == y then rest else if ltb x y then less else greater

-- `tolower` on ASCII
abbrev pub to_lower : Bytes → Bytes
to_lower s = map (λ c. if leb 65 c && leb c 90 then c + 32 else c) s

unfoldable pub iks_strcmp : Option Bytes → Option Bytes → Compared
iks_strcmp (some a) (some b) = strcmp a b
iks_strcmp _ _ = less

unfoldable pub iks_strcasecmp : Option Bytes → Option Bytes → Compared
iks_strcasecmp (some a) (some b) = strcmp (to_lower a) (to_lower b)
iks_strcasecmp _ _ = less

unfoldable pub iks_strncmp : Option Bytes → Option Bytes → ℕ → Compared
iks_strncmp (some a) (some b) n = strcmp (take n a) (take n b)
iks_strncmp _ _ n = less

unfoldable pub iks_strncasecmp : Option Bytes → Option Bytes → ℕ → Compared
iks_strncasecmp (some a) (some b) n = strcmp (to_lower (take n a)) (to_lower (take n b))
iks_strncasecmp _ _ n = less

unfoldable pub iks_strlen : Option Bytes → ℕ
iks_strlen none = 0
iks_strlen (some s) = length s

-- `iks_strcat` into an area, from this place on: the area, and the place of the NUL
unfoldable pub iks_strcat : Bytes → ℕ → Option Bytes → Bytes × ℕ
iks_strcat area at none = (area, at)
iks_strcat area at (some src) = (store area at (src ++ 0 ∷ []), at + length src)

-- `iks_strdup`, where `strdup` asks the system for memory
unfoldable pub iks_strdup : (ℕ → Bool) → Option Bytes → Option Bytes
iks_strdup malloc none = none
iks_strdup malloc (some src) = if malloc (length src + 1) then some src else none
