-- ===== src/Ikstack/Strcat.antt =====
-- A string of the stack to which another is appended, in its place or moved.
use mathlib.Core.Path.{subst}
use iksemel.Base.{
  ℕ, zero, suc, ◌+◌, ◌≡◌, refl, sym, ap, ◌∙◌, Bool, false, ◌==◌, if◌then◌else◌, Option, none, some,
  List, [], ◌∷◌, ◌++◌, Bytes, length, length-append, append_assoc, take, drop, strlen, NoNul,
  NoNul-append, arith, ◌⊎◌, inl, inr,
}
use iksemel.Ikstack.{Chunk, Ikstack, Found, find_space, placed, append_in, stack_strcat}
use iksemel.Ikstack.Area.{AllFit, Stands, c_string-nonzero}
use iksemel.Ikstack.Space.{Ok, Refused, find_space-Ok}
use iksemel.Ikstack.Strdup.{Copied, copied, copied-Copied}
use iksemel.Ikstack.Grown.{Others, Grown, append_in-Grown}

module _ (old src : Bytes) (nul : NoNul src) (off : ℕ) where
  -- What `iks_stack_strcat` promises: NULL only if memory was refused; else the chunks hold what
  -- they say, the two strings stand as one at the place returned, and so does every string in
  -- another chunk, or in front of the old one.
  abbrev pub Joined : (ℕ → Bool) → List Chunk → ℕ → Option (Ikstack × ℕ × ℕ) → Type 0
  Joined malloc cs i none = Refused malloc
  Joined malloc cs i (some (s, j, o)) =
      AllFit s.data_chunks × Stands s.data_chunks j o (old ++ src) × Others cs s.data_chunks i off

  Copied-Joined :
      (malloc : ℕ → Bool) (cs : List Chunk) (i : ℕ) (r : Option (Ikstack × ℕ × ℕ))
      → Copied malloc cs (old ++ src) r
      → Joined malloc cs i r
  Copied-Joined malloc cs i none refused = refused
  Copied-Joined malloc cs i (some (s, j, o)) (fits, new, keeps) =
      (fits, new, λ k p t stands apart. keeps k p t stands)

  abbrev moved : Ikstack → Option Found → Option (Ikstack × ℕ × ℕ)
  moved s r = elim r as (λ x. Option (Ikstack × ℕ × ℕ)) [
    | none ↦ none
    | some f ↦ some (
      record s {
        allocated = s.allocated + f.added;
        data_chunks = f.before ++ (placed f.here (old ++ src ++ 0 ∷ []) ∷ f.after);
      },
      length f.before,
      f.here.used,
    )
  ]

  moved_lem :
      (both : NoNul (old ++ src)) (s : Ikstack) (r : Option Found)
      → copied (old ++ src) both s r ≡ moved s r
  moved_lem both s none = refl
  moved_lem both s (some f) = rw (append_assoc old src (0 ∷ []))

  moved-Joined :
      (malloc : ℕ → Bool) (s : Ikstack) (c : Chunk) (cs : List Chunk) (i : ℕ)
      → AllFit (c ∷ cs)
      → NoNul old
      → Joined malloc
          (c ∷ cs)
          i
          (moved s (find_space malloc (c ∷ cs) (length old + length src + 1)))
  moved-Joined malloc s c cs i fits old_nul =
      let both = NoNul-append old src old_nul nul in
      let size = length old + length src + 1 in
      let e : size ≡ length (old ++ src) + 1 = omega (arith, length-append old src) in
      let found : Ok malloc (c ∷ cs) size (find_space malloc (c ∷ cs) size) =
        find_space-Ok malloc c cs size fits (omega arith) in
      let found' : Ok malloc (c ∷ cs) (length (old ++ src) + 1) (find_space malloc (c ∷ cs) size) =
        subst (λ n. Ok malloc (c ∷ cs) n (find_space malloc (c ∷ cs) size)) e found in
      subst (Joined malloc (c ∷ cs) i) (moved_lem both s (find_space malloc (c ∷ cs) size)) (
        Copied-Joined malloc (c ∷ cs) i _ (
          copied-Copied (old ++ src) both malloc s (c ∷ cs) (find_space malloc (c ∷ cs) size)
            found'))

  either-Joined :
      (malloc : ℕ → Bool) (s : Ikstack) (c : Chunk) (cs : List Chunk) (i : ℕ)
      → AllFit (c ∷ cs)
      → NoNul old
      → (r : Option (List Chunk)) → Grown old src nul off (c ∷ cs) i r
      → Joined malloc (c ∷ cs) i (elim r as (λ x. Option (Ikstack × ℕ × ℕ)) [
        | some cs' ↦ some (record s { data_chunks = cs' }, i, off)
        | none ↦ moved s (find_space malloc (c ∷ cs) (length old + length src + 1))
      ])
  either-Joined malloc s c cs i fits old_nul none g = moved-Joined malloc s c cs i fits old_nul
  either-Joined malloc s c cs i fits old_nul (some cs') g = g

take-whole : (xs : Bytes) → take (length xs) xs ≡ xs
take-whole [] = refl
take-whole (x ∷ xs) = ap (λ t. x ∷ t) (take-whole xs)

strlen-whole : (text : Bytes) → NoNul text → strlen text ≡ length text
unfolding strlen
strlen-whole [] h = refl
strlen-whole (zero ∷ text) (ne, h) = absurd (ne refl)
strlen-whole (suc c ∷ text) (ne, h) = omega (arith, strlen-whole text h)

-- The length of a string as the functions take it: 0 says that it is to be counted.
abbrev pub Given : ℕ → Bytes → Type 0
Given n text = (n ≡ 0) ⊎ (n ≡ length text)

length-Given :
    (n : ℕ) (text : Bytes)
    → NoNul text
    → Given n text
    → (if n == 0 then strlen text else n) ≡ length text
length-Given zero text h given = strlen-whole text h
length-Given (suc n) text h (inl e) = absurd (omega arith)
length-Given (suc n) text h (inr e) = let off : (suc n == 0) ≡ false = ground arith in rw off e

-- On a stack of at least one chunk, whose chunks hold what they say, and on a string that stands
-- on it, `iks_stack_strcat` of another without a NUL, with the lengths given or to be counted,
-- returns NULL only if memory was refused. Else the chunks hold what they say, the two strings
-- stand as one at the place returned, and so does every string in another chunk, or in front of
-- the old one.
pub stack_strcat-Joined :
    (malloc : ℕ → Bool) (s : Ikstack) (c : Chunk) (cs : List Chunk) (old src : Bytes)
    (i off old_len src_len : ℕ) (nul : NoNul src)
    → s.data_chunks ≡ c ∷ cs
    → AllFit (c ∷ cs)
    → Stands (c ∷ cs) i off old
    → Given old_len old
    → Given src_len src
    → Joined old src nul off malloc
        (c ∷ cs)
        i
        (stack_strcat malloc s old (i, off) old_len src src_len)
unfolding stack_strcat
stack_strcat-Joined malloc s c cs old src i off old_len src_len nul chunks fits there n m =
    let (x, at, low, reads) = there in
    let old_nul = c_string-nonzero (drop off x.bytes) old reads in
    let body : ℕ → ℕ → Bytes → Bytes → List Chunk → Option (Ikstack × ℕ × ℕ) = λ k l o t d.
      elim (append_in d i off (off + k) t) as (λ z. Option (Ikstack × ℕ × ℕ)) [
        | some cs' ↦ some (record s { data_chunks = cs' }, i, off)
        | none ↦ elim (find_space malloc d (k + l + 1)) as (λ z. Option (Ikstack × ℕ × ℕ)) [
          | none ↦ none
          | some f ↦ some (
            record s {
              allocated = s.allocated + f.added;
              data_chunks = f.before ++ (placed f.here (o ++ t ++ 0 ∷ []) ∷ f.after);
            },
            length f.before,
            f.here.used,
          )
        ]
      ] in
    let l = if src_len == 0 then strlen src else src_len in
    subst (Joined old src nul off malloc (c ∷ cs) i)
      (sym (
        ap (λ k. body k l (take k old) (take l src) s.data_chunks)
          (length-Given old_len old old_nul n)
        ∙ ap (λ k. body (length old) k (take (length old) old) (take k src) s.data_chunks)
            (length-Given src_len src nul m)
        ∙ ap (λ o. body (length old) (length src) o (take (length src) src) s.data_chunks)
            (take-whole old)
        ∙ ap (λ t. body (length old) (length src) old t s.data_chunks) (take-whole src)
        ∙ ap (body (length old) (length src) old src) chunks))
      (either-Joined old src nul off malloc s c cs i fits old_nul
        (append_in (c ∷ cs) i off (off + length old) src)
        (append_in-Grown old src nul off (c ∷ cs) i fits there))
