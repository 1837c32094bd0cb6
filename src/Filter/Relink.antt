-- ===== src/Filter/Relink.antt =====
-- The links that `iks_filter_remove_rule` of src/filter.c sets, and the ends of the list behind it.
use iksemel.Base.{
  ℕ, ◌≡◌, refl, sym, ap, ◌∙◌, true, false, if◌then◌else◌, Option, none, some, List, [], ◌∷◌, ◌++◌,
  arith,
}
use iksemel.Filter.{Rule}
use iksemel.Filter.Links.{Cell, Links, Done, done, put, set_next, set_prev, same_rule}
use iksemel.Filter.Chain.{
  Fresh, Distinct, first, last, cell_of, Chain, put_here, put_other, Keys-map, Fresh-Keys,
  Chain-agree, last-append,
}

-- a link that is set, with what it leaves
pub record Set (f : Links) (run : Done) (others : List Rule) (left : (ℕ → Option Cell) → Type 0)
    : Type 0 where
  pub memory : ℕ → Option Cell
  pub ran : run ≡ done (record f { cell = memory })
  pub holds : left memory
  pub same : (k : ℕ) → Fresh k others → memory k ≡ f.cell k

set_next-more :
    (f : Links) (q prev end : Option ℕ) (r : Rule) (rs : List Rule)
    → Distinct (r ∷ rs)
    → Chain f.cell prev end (r ∷ rs)
    → Set f (set_next (last (some r.key) rs) q f) (r ∷ rs) (λ m. Chain m prev q (r ∷ rs))
set_next-more f q prev end r [] d (here, c) = record {
  memory = put f.cell r.key (some (cell_of r prev q));
  ran = rw here;
  holds = (put_here f.cell r.key (some (cell_of r prev q)), tt);
  same = λ k (ne, _). put_other f.cell r.key k _ (λ e. ne (sym e));
}
set_next-more f q prev end r (x ∷ xs) (fresh, d) (here, c) =
    let s = set_next-more f q (some r.key) end x xs d c in
    record {
      memory = s.memory;
      ran = s.ran;
      holds = (s.same r.key fresh ∙ here, s.holds);
      same = λ k (ne, h). s.same k h;
    }

pub set_next-last :
    (f : Links) (q end : Option ℕ) (a : List Rule)
    → Distinct a
    → Chain f.cell none end a
    → Set f (set_next (last none a) q f) a (λ m. Chain m none q a)
set_next-last f q end [] d c = record {
  memory = f.cell;
  ran = refl;
  holds = tt;
  same = λ k h. refl;
}
set_next-last f q end (r ∷ rs) d c = set_next-more f q none end r rs d c

pub set_prev-first :
    (f : Links) (p prev : Option ℕ) (b : List Rule)
    → Distinct b
    → Chain f.cell prev none b
    → Set f (set_prev (first none b) p f) b (λ m. Chain m p none b)
set_prev-first f p prev [] d c = record {
  memory = f.cell;
  ran = refl;
  holds = tt;
  same = λ k h. refl;
}
set_prev-first f p prev (x ∷ xs) (fresh, d) (here, c) =
    let m = put f.cell x.key (some (cell_of x p (first none xs))) in
    record {
      memory = m;
      ran = rw here;
      holds = (
        put_here f.cell x.key (some (cell_of x p (first none xs))),
        Chain-agree f.cell m (some x.key) none xs
            (Keys-map (λ k ne. put_other f.cell x.key k _ ne) xs (Fresh-Keys x.key xs fresh)) c,
      );
      same = λ k (ne, h). put_other f.cell x.key k _ (λ e. ne (sym e));
    }

-- the ends of the list behind `take_out`
pub head_behind :
    (p : Option ℕ) (a : List Rule) (r : Rule) (b : List Rule)
    → p ≡ first none (a ++ r ∷ b)
    → Fresh r.key a
    → (if same_rule p r.key then first none b else p) ≡ first none (a ++ b)
head_behind p [] r b e h =
    let hit : same_rule p r.key ≡ true = ap (λ q. same_rule q r.key) e ∙ ground arith in rw hit
head_behind p (x ∷ a) r b e (ne, h) =
    let miss : same_rule p r.key ≡ false = ap (λ q. same_rule q r.key) e ∙ ground arith in rw miss e

last-other :
    (k : ℕ) (y : Rule) (ys : List Rule)
    → Fresh k (y ∷ ys)
    → same_rule (last (some y.key) ys) k ≡ false
last-other k y [] (ne, h) = ground arith
last-other k y (z ∷ ys) (ne, h) = last-other k z ys h

pub tail_behind :
    (p : Option ℕ) (a : List Rule) (r : Rule) (b : List Rule)
    → p ≡ last none (a ++ r ∷ b)
    → Fresh r.key b
    → (if same_rule p r.key then last none a else p) ≡ last none (a ++ b)
tail_behind p a r [] e h =
    let at = e ∙ last-append none a (r ∷ []) in
    let hit : same_rule p r.key ≡ true = ap (λ q. same_rule q r.key) at ∙ ground arith in
    rw hit (sym (last-append none a []))
tail_behind p a r (y ∷ ys) e h =
    let at : p ≡ last (some y.key) ys = e ∙ last-append none a (r ∷ y ∷ ys) in
    let miss : same_rule p r.key ≡ false =
      ap (λ q. same_rule q r.key) at ∙ last-other r.key y ys h in
    rw miss (at ∙ sym (last-append none a (y ∷ ys)))
