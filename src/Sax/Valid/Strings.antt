-- ===== src/Sax/Valid/Strings.antt =====
-- Offsets of C strings in the token stack, and arrays of them.
use iksemel.Base.{
  ℕ, zero, suc, ◌≤◌, ◌<◌, ◌≡◌, refl, Option, none, some, Option-cases, List, [], ◌∷◌, ◌++◌, arith,
  Bytes, length, length-append, append_assoc, get_elem?, set, take, drop, drop-append_le, c_string,
  inl, inr,
}
use mathlib.Core.Path.{subst}
use iksemel.Sax.Token.{read_atts}

-- a C string stands at offset `o`
abbrev pub Term : Bytes → ℕ → Type 0
Term s o = (b : Bytes) × (c_string (drop o s) ≡ some b) × (o ≤ length s)

-- so it does at the offsets in the first `n` places
abbrev pub AllTerm : Bytes → ℕ → List (Option ℕ) → Type 0
AllTerm s zero os = Unit {0}
AllTerm s (suc n) [] = ⊥
AllTerm s (suc n) (none ∷ os) = ⊥
AllTerm s (suc n) (some o ∷ os) = Term s o × AllTerm s n os

-- and a NULL follows
abbrev pub Ended : Bytes → ℕ → List (Option ℕ) → Type 0
Ended s n [] = ⊥
Ended s zero (none ∷ os) = Unit {0}
Ended s zero (some o ∷ os) = ⊥
Ended s (suc n) (none ∷ os) = ⊥
Ended s (suc n) (some o ∷ os) = Term s o × Ended s n os

pub c_string-append : (s t : Bytes) {b : Bytes} → c_string s ≡ some b → c_string (s ++ t) ≡ some b
unfolding c_string
c_string-append [] t h = cc
c_string-append (zero ∷ s) t h = h
c_string-append (suc c ∷ s) t h = elim (Option-cases (c_string s)) [
  | inl e ↦ absurd (ground (arith, e))
  | inr (b, e) ↦ rw (c_string-append s t e) (rw e at h)
]

pub c_string_ends : (s t : Bytes) → (b : Bytes) × (c_string (s ++ 0 ∷ t) ≡ some b)
unfolding c_string
c_string_ends [] t = ([], refl)
c_string_ends (zero ∷ s) t = ([], refl)
c_string_ends (suc c ∷ s) t = let (b, e) = c_string_ends s t in (suc c ∷ b, rw e)

pub Term-append : (s t : Bytes) (o : ℕ) → Term s o → Term (s ++ t) o
Term-append s t o (b, e, le) = (
  b,
  rw (drop-append_le o s t le) (c_string-append (drop o s) t e),
  omega (arith, length-append s t),
)

pub AllTerm-append :
    (s t : Bytes) (n : ℕ) (os : List (Option ℕ)) → AllTerm s n os → AllTerm (s ++ t) n os
AllTerm-append s t zero os h = tt
AllTerm-append s t (suc n) [] h = h
AllTerm-append s t (suc n) (none ∷ os) h = h
AllTerm-append s t (suc n) (some o ∷ os) (a, h) = (Term-append s t o a, AllTerm-append s t n os h)

-- a NUL behind the stack ends every string in it
pub Term-end : (s t : Bytes) (o : ℕ) → o ≤ length s → Term (s ++ (t ++ 0 ∷ [])) o
Term-end s t o le =
    let (b, e) = c_string_ends (drop o s ++ t) [] in
    (
      b,
      rw (drop-append_le o s (t ++ 0 ∷ []) le, ← append_assoc) e,
      omega (arith, length-append s (t ++ 0 ∷ [])),
    )

pub AllTerm-suc :
    (s : Bytes) (n : ℕ) (os : List (Option ℕ)) {o : ℕ}
    → AllTerm s n os
    → get_elem? os n ≡ some (some o)
    → Term s o
    → AllTerm s (suc n) os
AllTerm-suc s n [] h e t = cc
AllTerm-suc s zero (none ∷ os) h e t = cc
AllTerm-suc s zero (some o ∷ os) {o = o'} h e t =
    let same : o' ≡ o = cc in (subst (λ x. Term s x) same t, tt)
AllTerm-suc s (suc n) (none ∷ os) h e t = h
AllTerm-suc s (suc n) (some o ∷ os) (a, h) e t = (a, AllTerm-suc s n os h e t)

pub AllTerm-set :
    (s : Bytes) (n i : ℕ) (os : List (Option ℕ)) (v : Option ℕ)
    → n ≤ i
    → AllTerm s n os
    → AllTerm s n (set os i v)
AllTerm-set s zero i os v le h = tt
AllTerm-set s (suc n) i [] v le h = h
AllTerm-set s (suc n) zero (o ∷ os) v le h = absurd (omega arith)
AllTerm-set s (suc n) (suc i) (none ∷ os) v le h = h
AllTerm-set s (suc n) (suc i) (some o ∷ os) v le (a, h) =
    (a, AllTerm-set s n i os v (omega arith) h)

pub AllTerm-take :
    (s : Bytes) (n : ℕ) (os rest : List (Option ℕ))
    → AllTerm s n os
    → AllTerm s n (take n os ++ rest)
AllTerm-take s zero os rest h = tt
AllTerm-take s (suc n) [] rest h = absurd h
AllTerm-take s (suc n) (none ∷ os) rest h = h
AllTerm-take s (suc n) (some o ∷ os) rest (a, h) = (a, AllTerm-take s n os rest h)

pub AllTerm-Ended :
    (s : Bytes) (n : ℕ) (os : List (Option ℕ))
    → n < length os
    → AllTerm s n os
    → Ended s n (set os n none)
AllTerm-Ended s n [] lt h = absurd (omega arith)
AllTerm-Ended s zero (o ∷ os) lt h = tt
AllTerm-Ended s (suc n) (none ∷ os) lt h = h
AllTerm-Ended s (suc n) (some o ∷ os) lt (a, h) = (a, AllTerm-Ended s n os (omega arith) h)

pub read_atts-Ended :
    (s : Bytes) (n : ℕ) (os : List (Option ℕ))
    → Ended s n os
    → (ss : List Bytes) × (read_atts s os ≡ some ss)
unfolding read_atts
read_atts-Ended s n [] h = absurd h
read_atts-Ended s zero (none ∷ os) h = ([], refl)
read_atts-Ended s zero (some o ∷ os) h = absurd h
read_atts-Ended s (suc n) (none ∷ os) h = absurd h
read_atts-Ended s (suc n) (some o ∷ os) ((b, e, le), h) =
    let (ss, f) = read_atts-Ended s n os h in (b ∷ ss, rw (e, f, read_atts))

pub AllTerm-le : (s : Bytes) (n : ℕ) (os : List (Option ℕ)) → AllTerm s n os → n ≤ length os
AllTerm-le s zero os h = omega arith
AllTerm-le s (suc n) [] h = absurd h
AllTerm-le s (suc n) (none ∷ os) h = absurd h
AllTerm-le s (suc n) (some o ∷ os) (a, h) = omega (arith, AllTerm-le s n os h)
