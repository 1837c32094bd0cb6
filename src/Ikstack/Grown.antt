-- ===== src/Ikstack/Grown.antt =====
-- A string that grows in its place: the chunk, and the strings on the stack.
use mathlib.Core.Path.{subst}
use iksemel.Base.{
  ℕ, zero, suc, ◌+◌, ◌-◌, ◌≤◌, ◌<◌, ◌≡◌, ◌≢◌, refl, ap, ◌∙◌, Bool, true, false, ◌&&◌, ltb,
  if◌then◌else◌, Option, none, some, List, [], ◌∷◌, ◌++◌, Bytes, length, length-append, drop,
  c_string, NoNul, arith, ◌⊎◌, inl, inr,
}
use iksemel.Ikstack.{Chunk, ends_with, appended, append_in}
use iksemel.Ikstack.Area.{AllFit, Stands, length-store, c_string-store, c_string-extended}

-- every string in another chunk, or in front of this place, stands where it stood
abbrev pub Others : List Chunk → List Chunk → ℕ → ℕ → Type 0
Others cs cs' i off =
    (j o : ℕ) (t : Bytes) → Stands cs j o t → (j ≢ i) ⊎ (o + length t + 1 ≤ off) → Stands cs' j o t

module _ (old src : Bytes) (nul : NoNul src) (off : ℕ) where
  abbrev pub Grown : List Chunk → ℕ → Option (List Chunk) → Type 0
  Grown cs i none = Unit
  Grown cs i (some cs') = AllFit cs' × Stands cs' i off (old ++ src) × Others cs cs' i off

  chunk-Grown :
      (c : Chunk) (cs : List Chunk) (b : Bool)
      → AllFit (c ∷ cs)
      → off + length old + 1 ≤ c.used
      → c_string (drop off c.bytes) ≡ some old
      → (b ≡ true → length src < c.size - c.used)
      → Grown (c ∷ cs) zero (if b then some (appended c (off + length old) src ∷ cs) else none)
  chunk-Grown c cs false fits low reads room = tt
  chunk-Grown c cs true ((used, area), fits) low reads room =
      let enough = room refl in
      let new = appended c (off + length old) src in
      (
        ((omega arith, length-store c.bytes (off + length old) (src ++ 0 ∷ []) ∙ area), fits),
        (
          new,
          refl,
          omega (arith, length-append old src),
          c_string-extended c.bytes off old src nul (omega arith) reads,
        ),
        others,
      )
    where
      others : Others (c ∷ cs) (appended c (off + length old) src ∷ cs) zero off
      others zero o t stands (inl other) = absurd (other refl)
      others zero o t (x, at, low', reads') (inr front) =
          let same : x ≡ c = cc in
          (
            appended c (off + length old) src,
            refl,
            omega arith,
            c_string-store c.bytes o (off + length old) (src ++ 0 ∷ []) t (omega arith)
                (subst (λ (y : Chunk). c_string (drop o y.bytes) ≡ some t) same reads'),
          )
      others (suc j) o t stands apart = stands

  last_room :
      (ends : Bool) (c : Chunk)
      → (ends && ltb (length src) (c.size - c.used)) ≡ true
      → length src < c.size - c.used
  last_room true c e = ground arith
  last_room false c e = absurd cc

  pub append_in-Grown :
      (cs : List Chunk) (i : ℕ)
      → AllFit cs
      → Stands cs i off old
      → Grown cs i (append_in cs i off (off + length old) src)
  unfolding append_in
  append_in-Grown [] i fits there = tt
  append_in-Grown (c ∷ cs) zero fits (x, at, low, reads) =
      let same : x ≡ c = cc in
      chunk-Grown c cs (ends_with c off && ltb (length src) (c.size - c.used)) fits
        (subst (λ (y : Chunk). off + length old + 1 ≤ y.used) same low)
        (subst (λ (y : Chunk). c_string (drop off y.bytes) ≡ some old) same reads)
        (last_room (ends_with c off) c)
  append_in-Grown (c ∷ cs) (suc i) (fit, fits) there =
      behind (append_in cs i off (off + length old) src) (append_in-Grown cs i fits there)
    where
      others : (cs' : List Chunk) → Others cs cs' i off → Others (c ∷ cs) (c ∷ cs') (suc i) off
      others cs' keeps zero o t stands apart = stands
      others cs' keeps (suc j) o t stands (inl other) =
          keeps j o t stands (inl λ e. other (ap suc e))
      others cs' keeps (suc j) o t stands (inr front) = keeps j o t stands (inr front)

      behind :
          (r : Option (List Chunk))
          → Grown cs i r
          → Grown
              (c ∷ cs)
              (suc i)
              (elim r as (λ y. Option (List Chunk)) [ none ↦ none | some cs' ↦ some (c ∷ cs') ])
      behind none g = tt
      behind (some cs') (kept, new, keeps) = ((fit, kept), new, others cs' keeps)
