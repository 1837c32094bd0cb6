-- ===== src/Filter/Chain.antt =====
-- The rules of src/filter.c at their addresses in memory, linked to both sides.
use iksemel.Base.{
  ℕ, ◌≡◌, ◌≢◌, refl, sym, ap, ◌∙◌, true, false, ◌==◌, if◌then◌else◌, Option, none, some, List, [],
  ◌∷◌, ◌++◌, arith,
}
use iksemel.Filter.{Rule}
use iksemel.Filter.Links.{Cell, Links, put}

-- no rule of the list stands at this address
abbrev pub Fresh : ℕ → List Rule → Type 0
Fresh k [] = Unit {0}
Fresh k (r ∷ rs) = (r.key ≢ k) × Fresh k rs

-- every rule has an address of its own
abbrev pub Distinct : List Rule → Type 0
Distinct [] = Unit {0}
Distinct (r ∷ rs) = Fresh r.key rs × Distinct rs

-- the rules with another hook, in order
abbrev pub without_hook : ℕ → List Rule → List Rule
without_hook hook [] = []
without_hook hook (r ∷ rs) =
    if r.filter_hook == hook then without_hook hook rs else r ∷ without_hook hook rs

-- every rule with the hook is freed
abbrev pub Gone : ℕ → (ℕ → Option Cell) → List Rule → Type 0
Gone hook m [] = Unit {0}
Gone hook m (r ∷ rs) = ((if r.filter_hook == hook then m r.key else none) ≡ none) × Gone hook m rs

abbrev pub first : Option ℕ → List Rule → Option ℕ
first end [] = end
first end (r ∷ rs) = some r.key

abbrev pub last : Option ℕ → List Rule → Option ℕ
last prev [] = prev
last prev (r ∷ rs) = last (some r.key) rs

abbrev pub cell_of : Rule → Option ℕ → Option ℕ → Cell
cell_of r prev next = record { rule = r; prev = prev; next = next }

-- The memory holds these rules, linked to both sides, between `prev` and `end`.
abbrev pub Chain : (ℕ → Option Cell) → Option ℕ → Option ℕ → List Rule → Type 0
Chain m prev end [] = Unit {0}
Chain m prev end (r ∷ rs) =
    (m r.key ≡ some (cell_of r prev (first end rs))) × Chain m (some r.key) end rs

-- The filter holds these rules.
pub record Holds (f : Links) (rs : List Rule) : Type 0 where
  pub head : f.rules ≡ first none rs
  pub tail : f.last_rule ≡ last none rs
  pub chain : Chain f.cell none none rs
  pub distinct : Distinct rs

pub put_here : (m : ℕ → Option Cell) (a : ℕ) (c : Option Cell) → put m a c a ≡ c
put_here m a c = let e : (a == a) ≡ true = ground arith in rw e

pub put_other : (m : ℕ → Option Cell) (a b : ℕ) (c : Option Cell) → b ≢ a → put m a c b ≡ m b
put_other m a b c ne = let e : (b == a) ≡ false = ground arith in rw e

abbrev Keys : (ℕ → Type 0) → List Rule → Type 0
Keys P [] = Unit {0}
Keys P (r ∷ rs) = P r.key × Keys P rs

pub Keys-map : {P Q : ℕ → Type 0} (f : (k : ℕ) → P k → Q k) (rs : List Rule) → Keys P rs → Keys Q rs
Keys-map f [] h = tt
Keys-map f (r ∷ rs) (p, h) = (f r.key p, Keys-map f rs h)

Keys-all : {P : ℕ → Type 0} (f : (k : ℕ) → P k) (rs : List Rule) → Keys P rs
Keys-all f [] = tt
Keys-all f (r ∷ rs) = (f r.key, Keys-all f rs)

pub Keys-both :
    (P Q : ℕ → Type 0) (rs : List Rule) → Keys P rs → Keys Q rs → Keys (λ k. P k × Q k) rs
Keys-both P Q [] h g = tt
Keys-both P Q (r ∷ rs) (p, h) (q, g) = ((p, q), Keys-both P Q rs h g)

pub Fresh-Keys : (k : ℕ) (rs : List Rule) → Fresh k rs → Keys (λ b. b ≢ k) rs
Fresh-Keys k [] h = tt
Fresh-Keys k (r ∷ rs) (ne, h) = (ne, Fresh-Keys k rs h)

pub Chain-agree :
    (m m' : ℕ → Option Cell) (prev end : Option ℕ) (rs : List Rule)
    → Keys (λ b. m' b ≡ m b) rs
    → Chain m prev end rs
    → Chain m' prev end rs
Chain-agree m m' prev end [] h c = tt
Chain-agree m m' prev end (r ∷ rs) (e, h) (here, c) =
    (e ∙ here, Chain-agree m m' (some r.key) end rs h c)

first-append : (end : Option ℕ) (a b : List Rule) → first end (a ++ b) ≡ first (first end b) a
first-append end [] b = refl
first-append end (x ∷ a) b = refl

pub last-append : (p : Option ℕ) (a b : List Rule) → last p (a ++ b) ≡ last (last p a) b
last-append p [] b = refl
last-append p (x ∷ a) b = last-append (some x.key) a b

pub Chain-split :
    (m : ℕ → Option Cell) (prev end : Option ℕ) (a b : List Rule)
    → Chain m prev end (a ++ b)
    → Chain m prev (first end b) a × Chain m (last prev a) end b
Chain-split m prev end [] b c = (tt, c)
Chain-split m prev end (x ∷ a) b (here, c) =
    let (l, r) = Chain-split m (some x.key) end a b c in
    ((here ∙ ap (λ n. some (cell_of x prev n)) (first-append end a b), l), r)

pub Chain-append :
    (m : ℕ → Option Cell) (prev end : Option ℕ) (a b : List Rule)
    → Chain m prev (first end b) a
    → Chain m (last prev a) end b
    → Chain m prev end (a ++ b)
Chain-append m prev end [] b l r = r
Chain-append m prev end (x ∷ a) b (here, l) r = (
  here ∙ ap (λ n. some (cell_of x prev n)) (sym (first-append end a b)),
  Chain-append m (some x.key) end a b l r,
)

-- A list with a rule in the middle: what stands where.
pub record Middle (a : List Rule) (r : Rule) (b : List Rule) : Type 0 where
  pub left : Distinct a
  pub right : Distinct b
  pub out_left : Fresh r.key a
  pub out_right : Fresh r.key b
  pub apart : Keys (λ k. Fresh k b) a
  pub apart_right : Keys (λ k. Fresh k a) b
  pub rest : Distinct (a ++ b)

pub Fresh-split : (k : ℕ) (a b : List Rule) → Fresh k (a ++ b) → Fresh k a × Fresh k b
Fresh-split k [] b h = (tt, h)
Fresh-split k (x ∷ a) b (ne, h) = let (l, r) = Fresh-split k a b h in ((ne, l), r)

pub Fresh-append : (k : ℕ) (a b : List Rule) → Fresh k a → Fresh k b → Fresh k (a ++ b)
Fresh-append k [] b h g = g
Fresh-append k (x ∷ a) b (ne, h) g = (ne, Fresh-append k a b h g)

pub Distinct-Middle :
    (a : List Rule) (r : Rule) (b : List Rule) → Distinct (a ++ r ∷ b) → Middle a r b
Distinct-Middle [] r b (f, d) = record {
  left = tt;
  right = d;
  out_left = tt;
  out_right = f;
  apart = tt;
  apart_right = Keys-all (λ k. tt) b;
  rest = d;
}
Distinct-Middle (x ∷ a) r b (f, d) =
    let m = Distinct-Middle a r b d in
    let (fa, fr) = Fresh-split x.key a (r ∷ b) f in
    let (ne, fb) = fr in
    record {
      left = (fa, m.left);
      right = m.right;
      out_left = ((λ e. ne (sym e)), m.out_left);
      out_right = m.out_right;
      apart = (fb, m.apart);
      apart_right =
          Keys-map (λ k (ne', h). ((λ e. ne' (sym e)), h)) b
            (Keys-both _ _ b (Fresh-Keys x.key b fb) m.apart_right);
      rest = (Fresh-append x.key a b fa fb, m.rest);
    }
