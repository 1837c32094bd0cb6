-- ===== src/Ikstack/Space.antt =====
-- `find_space`: a chunk with room, and every chunk where it was.
use iksemel.Base.{
  ℕ, zero, suc, ◌+◌, ◌-◌, ◌*◌, ◌≤◌, ◌<◌, ◌≡◌, refl, Bool, true, false, ltb, leb, if◌then◌else◌,
  Option, none, some, List, [], ◌∷◌, ◌++◌, length-replicate, get_elem?, arith,
}
use iksemel.Ikstack.{Chunk, new_chunk, Found, append_chunk, behind_chunk, find_space}
use iksemel.Ikstack.Area.{Fits, AllFit}

-- what `find_space` promises: room, and every chunk where it was
pub record FoundOk (cs : List Chunk) (size : ℕ) (f : Found) : Type 0 where
  pub room : f.here.used + size ≤ f.here.size
  pub here : Fits f.here
  pub before : AllFit f.before
  pub after : AllFit f.after
  pub keeps :
      (i : ℕ) (c : Chunk)
      → get_elem? cs i ≡ some c
      → get_elem? (f.before ++ (f.here ∷ f.after)) i ≡ some c

abbrev pub Refused : (ℕ → Bool) → Type 0
Refused malloc = (n : ℕ) × (malloc n ≡ false)

abbrev pub Ok : (ℕ → Bool) → List Chunk → ℕ → Option Found → Type 0
Ok malloc cs size none = Refused malloc
Ok malloc cs size (some f) = FoundOk cs size f

module _ (malloc : ℕ → Bool) (cs : List Chunk) (size : ℕ) where
  either :
      (b : Bool) (x y : Option Found)
      → (b ≡ true → Ok malloc cs size x)
      → (b ≡ false → Ok malloc cs size y)
      → Ok malloc cs size (if b then x else y)
  either true x y h k = h refl
  either false x y h k = k refl

here-Ok :
    (c : Chunk) (rest : List Chunk) (size : ℕ)
    → AllFit (c ∷ rest)
    → leb size (c.size - c.used) ≡ true
    → 0 < size
    → FoundOk (c ∷ rest) size (record { before = []; here = c; after = rest; added = 0 })
here-Ok c rest size ((used, area), fits) h positive = record {
  room = ground arith;
  here = (used, area);
  before = tt;
  after = fits;
  keeps = λ i x e. e;
}

append-Ok :
    (malloc : ℕ → Bool) (c : Chunk) (size : ℕ)
    → Fits c
    → Ok malloc (c ∷ []) size (append_chunk malloc c size)
unfolding append_chunk
append-Ok malloc c size fits =
    let n = if ltb size (c.size * 2) then c.size * 2 else size in
    either malloc (c ∷ []) size (malloc (40 + n)) _ none
      (λ granted. record {
        room = ground arith;
        here = (omega arith, length-replicate n 0);
        before = (fits, tt);
        after = tt;
        keeps = at_front;
      })
      (λ refused. (40 + n, refused))
  where
    at_front :
        (i : ℕ) (x : Chunk)
        → get_elem? (c ∷ []) i ≡ some x
        → get_elem? (c ∷ new_chunk (if ltb size (c.size * 2) then c.size * 2 else size) ∷ []) i
          ≡ some x
    at_front zero x e = e
    at_front (suc i) x e = cc

pub find_space-Ok :
    (malloc : ℕ → Bool) (c : Chunk) (rest : List Chunk) (size : ℕ)
    → AllFit (c ∷ rest)
    → 0 < size
    → Ok malloc (c ∷ rest) size (find_space malloc (c ∷ rest) size)
unfolding find_space
find_space-Ok malloc c [] size fits positive =
    either malloc (c ∷ []) size (leb size (c.size - c.used)) _ _
      (λ h. here-Ok c [] size fits h positive) (λ h. append-Ok malloc c size fits.0)
find_space-Ok malloc c (d ∷ rest) size fits positive =
    either malloc (c ∷ d ∷ rest) size (leb size (c.size - c.used)) _ _
      (λ h. here-Ok c (d ∷ rest) size fits h positive)
      (λ h.
        behind-Ok (find_space malloc (d ∷ rest) size)
          (find_space-Ok malloc d rest size fits.1 positive))
  where
    shift :
        (f : Found)
        → FoundOk (d ∷ rest) size f
        → (i : ℕ) (x : Chunk) → get_elem? (c ∷ d ∷ rest) i ≡ some x
        → get_elem? ((c ∷ f.before) ++ (f.here ∷ f.after)) i ≡ some x
    shift f ok zero x e = e
    shift f ok (suc i) x e = ok.keeps i x e

    behind-Ok :
        (o : Option Found)
        → Ok malloc (d ∷ rest) size o
        → Ok malloc (c ∷ d ∷ rest) size (behind_chunk c o)
    behind-Ok none ok = ok
    behind-Ok (some f) ok = record {
      room = ok.room;
      here = ok.here;
      before = (fits.0, ok.before);
      after = ok.after;
      keeps = shift f ok;
    }
