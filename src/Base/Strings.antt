-- ===== src/Base/Strings.antt =====
-- Strings without a NUL, as the contents of C strings.
use Prim.Native.Nat.{◌<◌, zero, suc}
use mathlib.Core.Path.{◌≡◌, refl}
use mathlib.Core.Logic.{◌≢◌}
use mathlib.Core.List.{[], ◌∷◌, ◌++◌}
use mathlib.Core.Option.{some}
use native.Mathlib.Omega.{arith}
use iksemel.Base.Lists.{Bytes, length, c_string, strlen}

-- a text without a NUL
abbrev pub NoNul : Bytes → Type 0
NoNul [] = Unit
NoNul (c ∷ cs) = (c ≢ 0) × NoNul cs

pub strlen-NoNul : (text rest : Bytes) → NoNul text → strlen (text ++ 0 ∷ rest) ≡ length text
unfolding strlen
strlen-NoNul [] rest h = refl
strlen-NoNul (zero ∷ text) rest (ne, h) = absurd (ne refl)
strlen-NoNul (suc c ∷ text) rest (ne, h) = omega (arith, strlen-NoNul text rest h)

pub c_string-NoNul : (text rest : Bytes) → NoNul text → c_string (text ++ 0 ∷ rest) ≡ some text
unfolding c_string
c_string-NoNul [] rest h = refl
c_string-NoNul (zero ∷ text) rest (ne, h) = absurd (ne refl)
c_string-NoNul (suc c ∷ text) rest (ne, h) = rw (c_string-NoNul text rest h)

pub NoNul-append : (s t : Bytes) → NoNul s → NoNul t → NoNul (s ++ t)
NoNul-append [] t h k = k
NoNul-append (c ∷ s) t (ne, h) k = (ne, NoNul-append s t h k)

-- numbers that fit a byte
abbrev pub IsBytes : Bytes → Type 0
IsBytes [] = Unit
IsBytes (c ∷ cs) = (c < 256) × IsBytes cs

pub IsBytes-append : (s t : Bytes) → IsBytes s → IsBytes t → IsBytes (s ++ t)
IsBytes-append [] t h k = k
IsBytes-append (c ∷ s) t (small, h) k = (small, IsBytes-append s t h k)
