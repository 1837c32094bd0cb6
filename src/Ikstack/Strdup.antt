-- ===== src/Ikstack/Strdup.antt =====
-- A copy stays within its chunk, can be read back, and leaves the strings that are there.
use mathlib.Core.Path.{subst}
use iksemel.Base.{
  ℕ, zero, suc, ◌+◌, ◌≤◌, ◌≡◌, ◌≢◌, refl, sym, ap, ◌∙◌, Bool, false, ◌==◌, if◌then◌else◌, Option,
  none, some, List, [], ◌∷◌, ◌++◌, Bytes, length, length-append, take, take-append, drop, get_elem?,
  strlen, c_string, NoNul, arith, ◌⊎◌, inl, inr,
}
use iksemel.Ikstack.{Chunk, Ikstack, Found, find_space, placed, stack_strdup}
use iksemel.Ikstack.Area.{Fits, AllFit, Stands, length-store, c_string-store, c_string-stored}
use iksemel.Ikstack.Space.{Ok, Refused, find_space-Ok}

AllFit-middle :
    (before after : List Chunk) (x : Chunk)
    → AllFit before
    → Fits x
    → AllFit after
    → AllFit (before ++ (x ∷ after))
AllFit-middle [] after x h k l = (k, l)
AllFit-middle (c ∷ before) after x (h, hs) k l = (h, AllFit-middle before after x hs k l)

at_middle :
    (before after : List Chunk) (x : Chunk)
    → get_elem? (before ++ (x ∷ after)) (length before) ≡ some x
at_middle [] after x = refl
at_middle (c ∷ before) after x = at_middle before after x

-- Where the chunk is another one, it is at this place.
replaced :
    (before after : List Chunk) (x y c : Chunk) (i : ℕ)
    → get_elem? (before ++ (x ∷ after)) i ≡ some c
    → ((i ≡ length before) × (some x ≡ some c)) ⊎ (get_elem? (before ++ (y ∷ after)) i ≡ some c)
replaced [] after x y c zero e = inl (refl, e)
replaced [] after x y c (suc i) e = inr e
replaced (b ∷ before) after x y c zero e = inr e
replaced (b ∷ before) after x y c (suc i) e = elim (replaced before after x y c i e) [
  | inl (here, same) ↦ inl (ap suc here, same)
  | inr kept ↦ inr kept
]

-- What a copy promises: NULL only if memory was refused; else the chunks hold what they say, the
-- copy stands at the place returned, and so does every string that stood before.
abbrev pub Copied : (ℕ → Bool) → List Chunk → Bytes → Option (Ikstack × ℕ × ℕ) → Type 0
Copied malloc cs string none = Refused malloc
Copied malloc cs string (some (s, i, off)) =
    AllFit s.data_chunks
    × Stands s.data_chunks i off string
    × ((j o : ℕ) (t : Bytes) → Stands cs j o t → Stands s.data_chunks j o t)

module _ (string : Bytes) (nonzero : NoNul string) where
  abbrev ended : Bytes
  ended = string ++ 0 ∷ []

  placed-Fits : (c : Chunk) → Fits c → c.used + (length string + 1) ≤ c.size → Fits (placed c ended)
  placed-Fits c (used, area) room =
      (omega (arith, length-append string (0 ∷ [])), length-store c.bytes c.used ended ∙ area)

  placed-Stands :
      (cs before after : List Chunk) (c : Chunk)
      → ((i : ℕ) (x : Chunk)
          → get_elem? cs i ≡ some x
          → get_elem? (before ++ (c ∷ after)) i ≡ some x)
      → (j o : ℕ) (t : Bytes) → Stands cs j o t
      → Stands (before ++ (placed c ended ∷ after)) j o t
  placed-Stands cs before after c keeps j o t (x, at, low, reads) =
      elim (replaced before after c (placed c ended) x j (keeps j x at)) [
        | inr kept ↦ (x, kept, low, reads)
        | inl (here, same) ↦
            let e : c ≡ x =
              ap (λ (q : Option Chunk). elim q as (λ y. Chunk) [ none ↦ c | some y ↦ y ]) same in
            let low' : o + length t + 1 ≤ c.used =
              subst (λ (y : Chunk). o + length t + 1 ≤ y.used) (sym e) low in
            let reads' : c_string (drop o c.bytes) ≡ some t =
              subst (λ (y : Chunk). c_string (drop o y.bytes) ≡ some t) (sym e) reads in
            (
              placed c ended,
              ap (get_elem? (before ++ (placed c ended ∷ after))) here
                  ∙ at_middle before after (placed c ended),
              omega arith,
              c_string-store c.bytes o c.used ended t low' reads',
            )
      ]

  abbrev pub copied : Ikstack → Option Found → Option (Ikstack × ℕ × ℕ)
  copied s o = elim o as (λ x. Option (Ikstack × ℕ × ℕ)) [
    | none ↦ none
    | some f ↦ some (
      record s {
        allocated = s.allocated + f.added;
        data_chunks = f.before ++ (placed f.here ended ∷ f.after);
      },
      length f.before,
      f.here.used,
    )
  ]

  pub copied-Copied :
      (malloc : ℕ → Bool) (s : Ikstack) (cs : List Chunk) (o : Option Found)
      → Ok malloc cs (length string + 1) o
      → Copied malloc cs string (copied s o)
  copied-Copied malloc s cs none ok = ok
  copied-Copied malloc s cs (some f) ok =
      let (used, area) = ok.here in
      let there = at_middle f.before f.after (placed f.here ended) in
      (
        AllFit-middle f.before f.after (placed f.here ended) ok.before
            (placed-Fits f.here ok.here ok.room) ok.after,
        (
          placed f.here ended,
          there,
          omega (arith, length-append string (0 ∷ [])),
          c_string-stored f.here.bytes f.here.used string nonzero (omega (arith, ok.room)),
        ),
        placed-Stands cs f.before f.after f.here ok.keeps,
      )

-- On a stack of at least one chunk, whose chunks hold what they say, `iks_stack_strdup` of the
-- first bytes of a string returns NULL only if memory was refused. Else the chunks hold what they
-- say, the copy stands at the place returned, and so does every string that stood before.
pub stack_strdup-Copied :
    (malloc : ℕ → Bool) (s : Ikstack) (c : Chunk) (cs : List Chunk) (string behind : Bytes)
    → s.data_chunks ≡ c ∷ cs
    → AllFit (c ∷ cs)
    → NoNul string
    → length string ≢ 0
    → Copied malloc
        (c ∷ cs)
        string
        (stack_strdup malloc s (some (string ++ behind)) (length string))
unfolding stack_strdup
stack_strdup-Copied malloc s c cs string behind chunks fits nonzero nonempty =
    let given : (length string == 0) ≡ false = ground arith in
    let body : ℕ → Bytes → Option (Ikstack × ℕ × ℕ) = λ n text.
      elim (find_space malloc s.data_chunks (n + 1)) as (λ x. Option (Ikstack × ℕ × ℕ)) [
        | none ↦ none
        | some f ↦ some (
          record s {
            allocated = s.allocated + f.added;
            data_chunks = f.before ++ (placed f.here (text ++ 0 ∷ []) ∷ f.after);
          },
          length f.before,
          f.here.used,
        )
      ] in
    let size : Bool → ℕ = λ b. if b then strlen (string ++ behind) else length string in
    subst (Copied malloc (c ∷ cs) string)
      (ap (λ l. copied string nonzero s (find_space malloc l (length string + 1))) (sym chunks)
        ∙ ap (body (length string)) (sym (take-append string behind))
        ∙ ap (λ b. body (size b) (take (size b) (string ++ behind))) (sym given))
      (copied-Copied string nonzero malloc s (c ∷ cs)
        (find_space malloc (c ∷ cs) (length string + 1))
        (find_space-Ok malloc c cs (length string + 1) fits (omega arith)))
