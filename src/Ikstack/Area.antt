-- ===== src/Ikstack/Area.antt =====
-- The area of a chunk: what it holds, and the strings in it when another is stored.
use mathlib.Core.Path.{subst}
use iksemel.Base.{
  ℕ, zero, suc, ◌+◌, ◌≤◌, ◌≡◌, refl, sym, ap, ◌∙◌, Option, none, some, List, [], ◌∷◌, ◌++◌, Bytes,
  length, drop, get_elem?, store, c_string, NoNul, arith, Option-cases, inl, inr,
}
use iksemel.Ikstack.{Chunk}

abbrev pub Fits : Chunk → Type 0
Fits c = (c.used ≤ c.size) × (length c.bytes ≡ c.size)

abbrev pub AllFit : List Chunk → Type 0
AllFit [] = Unit
AllFit (c ∷ cs) = Fits c × AllFit cs

-- A string stands at this place, within what is used of the chunk.
abbrev pub Stands : List Chunk → ℕ → ℕ → Bytes → Type 0
Stands cs i off string =
    (c : Chunk) × (get_elem? cs i ≡ some c)
    × (off + length string + 1 ≤ c.used)
    × (c_string (drop off c.bytes) ≡ some string)

pub length-store : (b : Bytes) (at : ℕ) (ys : Bytes) → length (store b at ys) ≡ length b
length-store [] at ys = refl
length-store (x ∷ b) zero [] = refl
length-store (x ∷ b) zero (y ∷ ys) = ap suc (length-store b zero ys)
length-store (x ∷ b) (suc at) ys = ap suc (length-store b at ys)

abbrev prefix : ℕ → Option Bytes → Option Bytes
prefix x o = elim o as (λ y. Option Bytes) [ none ↦ none | some s ↦ some (x ∷ s) ]

abbrev size_of : Option Bytes → ℕ
size_of none = 0
size_of (some s) = length s

-- what stands in front of the place
c_string-store_head :
    (b : Bytes) (at : ℕ) (ys string : Bytes)
    → length string + 1 ≤ at
    → c_string b ≡ some string
    → c_string (store b at ys) ≡ some string
unfolding c_string
c_string-store_head [] at ys string h e = e
c_string-store_head (zero ∷ b) zero ys string h e = absurd (omega arith)
c_string-store_head (zero ∷ b) (suc at) ys string h e = e
c_string-store_head (suc x ∷ b) zero ys string h e = absurd (omega arith)
c_string-store_head (suc x ∷ b) (suc at) ys string h e = elim (Option-cases (c_string b)) [
  | inl absent ↦ let no : none ≡ some string = sym (ap (prefix (suc x)) absent) ∙ e in cc
  | inr (s, here) ↦
      let whole : some (suc x ∷ s) ≡ some string = sym (ap (prefix (suc x)) here) ∙ e in
      let l : length (suc x ∷ s) ≡ length string = ap size_of whole in
      ap (prefix (suc x)) (c_string-store_head b at ys s (omega arith) here) ∙ whole
]

pub c_string-store :
    (b : Bytes) (off at : ℕ) (ys string : Bytes)
    → off + length string + 1 ≤ at
    → c_string (drop off b) ≡ some string
    → c_string (drop off (store b at ys)) ≡ some string
c_string-store b zero at ys string h e = c_string-store_head b at ys string (omega arith) e
c_string-store [] (suc off) at ys string h e = e
c_string-store (x ∷ b) (suc off) zero ys string h e = absurd (omega arith)
c_string-store (x ∷ b) (suc off) (suc at) ys string h e =
    c_string-store b off at ys string (omega arith) e

c_string-stored_head :
    (b string : Bytes)
    → NoNul string
    → length string + 1 ≤ length b
    → c_string (store b 0 (string ++ 0 ∷ [])) ≡ some string
unfolding c_string
c_string-stored_head [] string n h = absurd (omega arith)
c_string-stored_head (x ∷ b) [] n h = refl
c_string-stored_head (x ∷ b) (zero ∷ string) (ne, n) h = absurd (ne refl)
c_string-stored_head (x ∷ b) (suc c ∷ string) (ne, n) h =
    rw (c_string-stored_head b string n (omega arith))

pub c_string-stored :
    (b : Bytes) (at : ℕ) (string : Bytes)
    → NoNul string
    → at + length string + 1 ≤ length b
    → c_string (drop at (store b at (string ++ 0 ∷ []))) ≡ some string
c_string-stored b zero string n h = c_string-stored_head b string n (omega arith)
c_string-stored [] (suc at) string n h = absurd (omega arith)
c_string-stored (x ∷ b) (suc at) string n h = c_string-stored b at string n (omega arith)

-- the bytes of a C string have no NUL
pub c_string-nonzero : (b s : Bytes) → c_string b ≡ some s → NoNul s
unfolding c_string
c_string-nonzero [] s e = absurd cc
c_string-nonzero (zero ∷ b) [] e = tt
c_string-nonzero (zero ∷ b) (x ∷ s) e = absurd cc
c_string-nonzero (suc y ∷ b) s e = elim (Option-cases (c_string b)) [
  | inl absent ↦ let no : none ≡ some s = sym (ap (prefix (suc y)) absent) ∙ e in absurd cc
  | inr (t, here) ↦
      let whole : some (suc y ∷ t) ≡ some s = sym (ap (prefix (suc y)) here) ∙ e in
      let same : suc y ∷ t ≡ s = cc in
      subst NoNul same ((λ z. absurd cc), c_string-nonzero b t here)
]

-- bytes stored behind a string, in place of its NUL
c_string-extended_head :
    (b old src : Bytes)
    → NoNul src
    → length old + length src + 1 ≤ length b
    → c_string b ≡ some old
    → c_string (store b (length old) (src ++ 0 ∷ [])) ≡ some (old ++ src)
unfolding c_string
c_string-extended_head b [] src nul room e = c_string-stored_head b src nul (omega arith)
c_string-extended_head [] (x ∷ old) src nul room e = absurd (omega arith)
c_string-extended_head (zero ∷ b) (x ∷ old) src nul room e = absurd cc
c_string-extended_head (suc y ∷ b) (x ∷ old) src nul room e = elim (Option-cases (c_string b)) [
  | inl absent ↦ let no : none ≡ some (x ∷ old) = sym (ap (prefix (suc y)) absent) ∙ e in absurd cc
  | inr (t, here) ↦
      let whole : some (suc y ∷ t) ≡ some (x ∷ old) = sym (ap (prefix (suc y)) here) ∙ e in
      let front : suc y ≡ x = cc in
      let rest : some t ≡ some old = cc in
      ap (prefix (suc y)) (c_string-extended_head b old src nul (omega arith) (here ∙ rest))
      ∙ ap (λ z. some (z ∷ old ++ src)) front
]

pub c_string-extended :
    (b : Bytes) (off : ℕ) (old src : Bytes)
    → NoNul src
    → off + length old + length src + 1 ≤ length b
    → c_string (drop off b) ≡ some old
    → c_string (drop off (store b (off + length old) (src ++ 0 ∷ []))) ≡ some (old ++ src)
c_string-extended b zero old src nul room e =
    let z : 0 + length old ≡ length old = omega arith in
    rw z (c_string-extended_head b old src nul (omega arith) e)
c_string-extended [] (suc off) old src nul room e = absurd (omega arith)
c_string-extended (x ∷ b) (suc off) old src nul room e =
    let z : suc off + length old ≡ suc (off + length old) = omega arith in
    rw z (c_string-extended b off old src nul (omega arith) e)
